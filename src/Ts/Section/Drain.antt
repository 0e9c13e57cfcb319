-- ===== src/Ts/Section/Drain.antt =====
-- `SectionAssembler._drain` of src/recdyud/ts.py.
use recdyud.Base.{
  ℕ, zero, suc, ◌≤◌, ◌≡◌, refl, inl, inr, ◌⊎◌, true, false, List, [], ◌∷◌, ◌++◌, length, get_or,
  take, drop, ◌==◌, if◌then◌else◌, All, Bool-cases, ==_iff, arith, length-take, length-drop,
  length-append, get_or-take, take-append, drop-append, get_or-append_lt,
}
use mathlib.Core.List.{append_assoc}
use recdyud.Ts.Crc.{crc32_mpeg2}
use recdyud.Ts.Section.{
  SectionAssembler, section_length, at_section, is_cut, drain_loop, drain, starts_stuffing,
}

-- A section as it is handed on: as long as its own header says, with a CRC of 0.
pub record IsSection (bytes : List ℕ) : Type 0 where
  pub sized : length bytes ≡ section_length bytes
  pub checked : crc32_mpeg2 bytes ≡ 0
  pub tagged : (get_or bytes 0 0 == 0xff) ≡ false

drain_loop-IsSection : (fuel : ℕ) (buf : List ℕ) → All IsSection (drain_loop fuel buf).1
unfolding drain_loop
drain_loop-IsSection zero buf = tt
drain_loop-IsSection (suc fuel) buf = elim (Bool-cases (at_section buf)) [
  | inr e ↦ rw (e, drain_loop) tt
  | inl e ↦ elim (Bool-cases (is_cut buf)) [
    | inl c ↦ rw (e, c, drain_loop) tt
    | inr c ↦ elim (Bool-cases (crc32_mpeg2 section == 0)) [
      | inr bad ↦
          rw (e, c, bad, drain_loop) (drain_loop-IsSection fuel (drop (section_length buf) buf))
      | inl good ↦
          rw (e, c, good, drain_loop)
            (taken e c good, drain_loop-IsSection fuel (drop (section_length buf) buf))
    ]
  ]
]
  where
    section : List ℕ
    section = take (section_length buf) buf

    taken :
        at_section buf ≡ true
        → is_cut buf ≡ false
        → (crc32_mpeg2 section == 0) ≡ true
        → IsSection section
    taken e c good = record {
      sized = omega (
        arith,
        length-take (section_length buf) buf,
        get_or-take buf (section_length buf) 1 0 (omega arith),
        get_or-take buf (section_length buf) 2 0 (omega arith),
        fits c,
      );
      checked = (==_iff _ 0).0 good;
      tagged = rw (get_or-take buf (section_length buf) 0 0 (omega arith)) (ground arith);
    }
      where
        fits : is_cut buf ≡ false → section_length buf ≤ length buf
        fits c' = ground arith

-- A buffer that `_drain` takes nothing from: too short, at stuffing, or in an incomplete section.
abbrev pub Settled : List ℕ → Type 0
Settled buf = (at_section buf ≡ false) ⊎ (is_cut buf ≡ true)

drain_loop-Settled : (fuel : ℕ) (buf : List ℕ) → length buf ≤ fuel → Settled (drain_loop fuel buf).0
unfolding drain_loop
drain_loop-Settled zero buf h = inl (ground arith)
drain_loop-Settled (suc fuel) buf h = elim (Bool-cases (at_section buf)) [
  | inr e ↦ rw (e, drain_loop) (inl e)
  | inl e ↦ elim (Bool-cases (is_cut buf)) [
    | inl c ↦ rw (e, c, drain_loop) (inr c)
    | inr c ↦
        rw (e, c, drain_loop)
          (drain_loop-Settled fuel (drop (section_length buf) buf)
            (omega (arith, length-drop (section_length buf) buf)))
  ]
]

pub drain_loop_waits : (fuel : ℕ) (buf : List ℕ) → Settled buf → drain_loop fuel buf ≡ (buf, [])
unfolding drain_loop
drain_loop_waits zero buf h = refl
drain_loop_waits (suc fuel) buf (inl e) = rw (e, drain_loop)
drain_loop_waits (suc fuel) buf (inr c) = elim (Bool-cases (at_section buf)) [
  | inr e ↦ rw (e, drain_loop)
  | inl e ↦ rw (e, c, drain_loop)
]

module _ (sec rest : List ℕ) (v : IsSection sec) where
  long : 3 ≤ length sec
  long = omega (arith, v.sized)

  same_length : section_length (sec ++ rest) ≡ length sec
  same_length =
      rw
        (
          get_or-append_lt sec rest 1 0 (omega (arith, long)),
          get_or-append_lt sec rest 2 0 (omega (arith, long)),
        )
        (omega (arith, v.sized))

  drain_loop-section :
      (fuel : ℕ)
      → drain_loop (suc fuel) (sec ++ rest)
        ≡ ((drain_loop fuel rest).0, sec ∷ (drain_loop fuel rest).1)
  unfolding drain_loop
  drain_loop-section fuel =
      rw (at, whole, drain_loop)
        (rw
          (
            same_length,
            take-append (length sec) sec rest refl,
            drop-append (length sec) sec rest refl,
          )
          (rw (v.checked)))
    where
      at : at_section (sec ++ rest) ≡ true
      at =
          rw (get_or-append_lt sec rest 0 0 (omega (arith, long)))
            (ground (arith, v.tagged, length-append sec rest, long))

      whole : is_cut (sec ++ rest) ≡ false
      whole = ground (arith, same_length, length-append sec rest)

-- Sections one after the other.
abbrev pub sections_bytes : List (List ℕ) → List ℕ
sections_bytes [] = []
sections_bytes (sec ∷ secs) = sec ++ sections_bytes secs

drain_loop-sections :
    (secs : List (List ℕ)) (rest : List ℕ) (fuel : ℕ)
    → All IsSection secs
    → Settled rest
    → length (sections_bytes secs ++ rest) ≤ fuel
    → drain_loop fuel (sections_bytes secs ++ rest) ≡ (rest, secs)
drain_loop-sections [] rest fuel hs hr h = drain_loop_waits fuel rest hr
drain_loop-sections (sec ∷ secs) rest zero (v, hs) hr h = absurd (
    omega (
      arith,
      v.sized,
      length-append (sec ++ sections_bytes secs) rest,
      length-append sec (sections_bytes secs),
    ))
drain_loop-sections (sec ∷ secs) rest (suc fuel) (v, hs) hr h =
    rw
      (
        append_assoc sec (sections_bytes secs) rest,
        drain_loop-section sec (sections_bytes secs ++ rest) v fuel,
      )
      (rw (
        drain_loop-sections secs rest fuel hs hr (
          omega (
            arith,
            v.sized,
            length-append (sec ++ sections_bytes secs) rest,
            length-append sec (sections_bytes secs),
            length-append (sections_bytes secs) rest,
          ))))

stuffing-Settled : (buf : List ℕ) → starts_stuffing buf ≡ true → at_section buf ≡ false
stuffing-Settled [] e = cc
stuffing-Settled (b ∷ bs) e = ground arith

-- What `_drain` hands on are sections whose length field and CRC are right and whose first byte is
-- not 0xFF; and it leaves nothing that it could still take: the loop does not run out of fuel.
pub drain_valid : (s : SectionAssembler) → All IsSection (drain s).1 × Settled (drain s).0.buf
unfolding drain
drain_valid s = (drain_loop-IsSection (length s.buf) s.buf, left)
  where
    r : List ℕ
    r = (drain_loop (length s.buf) s.buf).0

    left :
        Settled
          (if starts_stuffing r
            then record s { buf = []; active = false }
            else record s { buf = r }).buf
    left = elim (Bool-cases (starts_stuffing r)) [
      | inl e ↦ rw e (inl (ground arith))
      | inr e ↦ rw e (drain_loop-Settled (length s.buf) s.buf (omega arith))
    ]

-- A buffer that holds whole sections and then something to wait for, or stuffing, gives exactly
-- these sections in order. What is left is the rest, or nothing if it is stuffing.
pub drain-sections :
    (s : SectionAssembler) (secs : List (List ℕ)) (rest : List ℕ)
    → All IsSection secs
    → Settled rest
    → s.buf ≡ sections_bytes secs ++ rest
    → drain s ≡ (
      if starts_stuffing rest
          then record s { buf = []; active = false }
          else record s { buf = rest },
      secs,
    )
unfolding drain
drain-sections s secs rest hs hr e = rw (run, drain)
  where
    run : drain_loop (length s.buf) s.buf ≡ (rest, secs)
    run =
        rw e
          (drain_loop-sections secs rest (length (sections_bytes secs ++ rest)) hs hr (omega arith))

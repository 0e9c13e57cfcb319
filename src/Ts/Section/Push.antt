-- ===== src/Ts/Section/Push.antt =====
-- `SectionAssembler.push` of src/recdyud/ts.py on any packet: what it hands on, duplicates, gaps.
use recdyud.Base.{
  ℕ, ◌+◌, ◌≡◌, refl, ap, sym, subst, ◌∙◌, inl, inr, true, false, not, some, List, [], ◌++◌, get_or,
  drop, slice, leb, if◌then◌else◌, field, has_bits, ◌≢◌, ◌%◌, All, All-append, if-both, Bool-cases,
  arith,
}
use recdyud.Ts.{packet_size}
use recdyud.Ts.Section.{
  SectionAssembler, drain, is_duplicate, is_lost, finish_old, push_payload, take_cc, payload_at,
  push, init,
}
use recdyud.Ts.Section.Drain.{IsSection, Settled, drain_valid}

drain-cc : (s : SectionAssembler) → (drain s).0.cc ≡ s.cc
unfolding drain
drain-cc s = ground arith

pub take_cc-cc : (s : SectionAssembler) (cc : ℕ) → (take_cc s cc).cc ≡ some cc
unfolding take_cc
take_cc-cc s cc = ground arith

pub finish_old-cc : (s : SectionAssembler) (piece : List ℕ) → (finish_old s piece).0.cc ≡ s.cc
unfolding finish_old
finish_old-cc s piece = ground (arith, drain-cc (record s { buf = s.buf ++ piece }))

finish_old-IsSection :
    (s : SectionAssembler) (piece : List ℕ) → All IsSection (finish_old s piece).1
unfolding finish_old
finish_old-IsSection s piece =
    if-both (λ r. All IsSection r.1) s.active (drain (record s { buf = s.buf ++ piece })) (s, [])
      (λ _. (drain_valid (record s { buf = s.buf ++ piece })).0) (λ _. tt)

-- The buffer of an object between two calls.
abbrev pub IsSettled : SectionAssembler → Type 0
IsSettled s = Settled s.buf

-- What a call may leave behind and hand on.
abbrev Fine : SectionAssembler × List (List ℕ) → Type 0
Fine r = All IsSection r.1 × IsSettled r.0

drain-Fine : (s : SectionAssembler) → Fine (drain s)
drain-Fine s = drain_valid s

push_payload-Fine :
    (s : SectionAssembler) (pkt : List ℕ) (p : ℕ) → IsSettled s → Fine (push_payload s pkt p)
unfolding push_payload
push_payload-Fine s pkt p h =
    if-both Fine (has_bits (get_or pkt 1 0) 6 1) _ _
      (λ _.
        let pointer = get_or pkt p 0 in
        let old = finish_old s (slice pkt (p + 1) (p + 1 + pointer)) in
        let fresh : SectionAssembler = record old.0 {
          buf = drop (p + 1 + pointer) pkt;
          active = true;
        } in
        (
          All-append IsSection old.1 (drain fresh).1
              (finish_old-IsSection s (slice pkt (p + 1) (p + 1 + pointer))) (drain-Fine fresh).0,
          (drain-Fine fresh).1,
        ))
      (λ _.
        if-both Fine s.active (drain (record s { buf = s.buf ++ drop p pkt })) (s, [])
          (λ _. drain-Fine (record s { buf = s.buf ++ drop p pkt })) (λ _. (tt, h)))

pub take_cc-IsSettled : (s : SectionAssembler) (cc : ℕ) → IsSettled s → IsSettled (take_cc s cc)
unfolding take_cc
take_cc-IsSettled s cc h =
    if-both IsSettled (is_lost s.cc cc) _ _ (λ _. inl (ground arith)) (λ _. h)

-- On every packet, `push` hands on only sections whose length field and CRC are right, and leaves a
-- buffer that holds no whole section, if it found such a buffer.
pub push_valid :
    (s : SectionAssembler) (pkt : List ℕ)
    → IsSettled s
    → All IsSection (push s pkt).1 × IsSettled (push s pkt).0
unfolding push
push_valid s pkt h =
    if-both Fine (has_bits (get_or pkt 1 0) 7 1) _ _ (λ _. (tt, h))
      (λ _.
        if-both Fine (not (has_bits (get_or pkt 3 0) 4 1)) _ _ (λ _. (tt, h))
          (λ _.
            if-both Fine (is_duplicate s.cc c) _ _ (λ _. (tt, h))
              (λ _.
                if-both Fine (leb packet_size (payload_at pkt)) _ _
                  (λ _. (tt, take_cc-IsSettled s c h))
                  (λ _.
                    push_payload-Fine (take_cc s c) pkt (payload_at pkt)
                      (take_cc-IsSettled s c h)))))
  where
    c : ℕ
    c = field (get_or pkt 3 0) 0 4

push_payload-cc : (s : SectionAssembler) (pkt : List ℕ) (p : ℕ) → (push_payload s pkt p).0.cc ≡ s.cc
unfolding push_payload
push_payload-cc s pkt p =
    if-both (λ (r : SectionAssembler × List (List ℕ)). r.0.cc ≡ s.cc)
      (has_bits (get_or pkt 1 0) 6 1) _ _
      (λ _.
        let pointer = get_or pkt p 0 in
        let old = finish_old s (slice pkt (p + 1) (p + 1 + pointer)) in
        drain-cc (record old.0 { buf = drop (p + 1 + pointer) pkt; active = true })
        ∙ finish_old-cc s (slice pkt (p + 1) (p + 1 + pointer)))
      (λ _.
        if-both (λ (r : SectionAssembler × List (List ℕ)). r.0.cc ≡ s.cc) s.active
          (drain (record s { buf = s.buf ++ drop p pkt })) (s, [])
          (λ _. drain-cc (record s { buf = s.buf ++ drop p pkt })) (λ _. refl))

-- A packet that is not looked at, or whose counter is the stored one, changes nothing.
abbrev Ignored : List ℕ → SectionAssembler × List (List ℕ) → Type 0
Ignored pkt r = push r.0 pkt ≡ (r.0, [])

same_cc-Ignored :
    (t : SectionAssembler) (pkt : List ℕ)
    → t.cc ≡ some (field (get_or pkt 3 0) 0 4)
    → push t pkt ≡ (t, [])
unfolding push
same_cc-Ignored t pkt e =
    if-both Same (has_bits (get_or pkt 1 0) 7 1) _ _ (λ _. refl)
      (λ _.
        if-both Same (not (has_bits (get_or pkt 3 0) 4 1)) _ _ (λ _. refl)
          (λ _.
            if-both Same (is_duplicate t.cc c) _ _ (λ _. refl)
              (λ differs. absurd (stored differs))))
  where
    c : ℕ
    c = field (get_or pkt 3 0) 0 4

    Same : SectionAssembler × List (List ℕ) → Type 0
    Same r = r ≡ (t, [])

    stored : is_duplicate t.cc c ≡ false → ⊥
    stored differs = let here : is_duplicate (some c) c ≡ false = rw e at differs in ground arith

again : (s : SectionAssembler) (pkt : List ℕ) → push s pkt ≡ (s, []) → Ignored pkt (push s pkt)
again s pkt h = subst (Ignored pkt) (sym h) h

-- Pushing the same packet once more changes nothing and hands on nothing, on every state and every
-- packet.
pub push_twice :
    (s : SectionAssembler) (pkt : List ℕ) → push (push s pkt).0 pkt ≡ ((push s pkt).0, [])
unfolding push
push_twice s pkt = elim (Bool-cases (has_bits (get_or pkt 1 0) 7 1)) [
  | inl e ↦ again s pkt (rw (e, push))
  | inr e ↦ elim (Bool-cases (not (has_bits (get_or pkt 3 0) 4 1))) [
    | inl f ↦ again s pkt (rw (e, f, push))
    | inr f ↦ elim (Bool-cases (is_duplicate s.cc c)) [
      | inl g ↦ again s pkt (rw (e, f, g, push))
      | inr g ↦ same_cc-Ignored (push s pkt).0 pkt (stored e f g)
    ]
  ]
]
  where
    c : ℕ
    c = field (get_or pkt 3 0) 0 4

    stored :
        has_bits (get_or pkt 1 0) 7 1 ≡ false
        → not (has_bits (get_or pkt 3 0) 4 1) ≡ false
        → is_duplicate s.cc c ≡ false
        → (push s pkt).0.cc ≡ some c
    stored e f g =
        rw (e, f, g, push)
          (if-both (λ (r : SectionAssembler × List (List ℕ)). r.0.cc ≡ some c)
            (leb packet_size (payload_at pkt)) _ _ (λ _. take_cc-cc s c)
            (λ _. push_payload-cc (take_cc s c) pkt (payload_at pkt) ∙ take_cc-cc s c))

-- After a counter `last`, a packet without the transport error indicator and with a payload, whose
-- counter is neither `last` nor the next one modulo 16, is treated as by a fresh object: nothing of
-- what was collected before the gap goes into a section.
pub push_gap :
    (s : SectionAssembler) (pkt : List ℕ) (last : ℕ)
    → has_bits (get_or pkt 1 0) 7 1 ≡ false
    → has_bits (get_or pkt 3 0) 4 1 ≡ true
    → s.cc ≡ some last
    → field (get_or pkt 3 0) 0 4 ≢ last
    → field (get_or pkt 3 0) 0 4 ≢ (last + 1) % 16
    → push s pkt ≡ push init pkt
unfolding push
push_gap s pkt last e f c not_same not_next =
    rw (e, f, g, push)
      (ap
        (λ t.
          if leb packet_size (payload_at pkt) then (t, []) else push_payload t pkt (payload_at pkt))
        fresh)
  where
    g : is_duplicate s.cc (field (get_or pkt 3 0) 0 4) ≡ false
    g = rw c (ground arith)

    h : is_lost s.cc (field (get_or pkt 3 0) 0 4) ≡ true
    h = rw c (ground arith)

    fresh : take_cc s (field (get_or pkt 3 0) 0 4) ≡ take_cc init (field (get_or pkt 3 0) 0 4)
    fresh = unfold take_cc in rw h

-- ===== src/Ts/Section/Runs.antt =====
-- Runs of `SectionAssembler` of src/recdyud/ts.py on a section of 200 bytes in two packets.
use recdyud.Base.{
  ℕ, ◌≡◌, refl, inl, inr, true, some, List, [], ◌∷◌, ◌++◌, take, drop, replicate, All, to_bytes4,
  arith,
}
use recdyud.Ts.Crc.{crc32_mpeg2}
use mathlib.Core.Option.{some-injective}
use recdyud.Ts.Crc.Detect.{crc32_mpeg2-append}
use recdyud.Ts.Section.{SectionAssembler, init, push, push_all}
use recdyud.Ts.Section.Drain.{IsSection}
use recdyud.Ts.Section.Push.{IsSettled, push_valid, push_gap}
use recdyud.Ts.Section.Reassembly.{Carries, push_all-reassembles}

abbrev body : List ℕ
body = 0x00 ∷ 0xb0 ∷ 0xc5 ∷ replicate 193 0xaa

abbrev crc : List ℕ
crc = to_bytes4 (crc32_mpeg2 body)

abbrev first : List ℕ
first = 0x47 ∷ 0x40 ∷ 0x00 ∷ 0x1f ∷ 0x00 ∷ take 183 body

abbrev second : List ℕ
second = 0x47 ∷ 0x00 ∷ 0x00 ∷ 0x10 ∷ (drop 183 body ++ (crc ++ replicate 167 0xff))

-- An object that has collected something, up to counter 3.
abbrev collecting : SectionAssembler
collecting = record { buf = 0x42 ∷ 0xf0 ∷ 0x10 ∷ 0x01 ∷ []; active = true; cc = some 3 }

body-IsSection : IsSection (body ++ crc)
body-IsSection = record { sized = refl; checked = crc32_mpeg2-append body; tagged = refl }

push_valid_example : All IsSection (push collecting first).1 × IsSettled (push collecting first).0
push_valid_example = push_valid collecting first (inr refl)

push_gap_example : push collecting first ≡ push init first
push_gap_example =
    push_gap collecting first _ refl refl refl (λ e. absurd (omega (arith, e)))
      (λ e. absurd (omega (arith, e)))

first-Carries : Carries 15 first
first-Carries = record {
  size = refl;
  no_error = refl;
  payload = refl;
  inside = omega arith;
  counter = refl;
}

second-Carries : Carries 0 second
second-Carries = record {
  size = refl;
  no_error = refl;
  payload = refl;
  inside = omega arith;
  counter = refl;
}

push_all-reassembles_example : (push_all collecting (first ∷ second ∷ [])).1 ≡ (body ++ crc) ∷ []
push_all-reassembles_example =
    push_all-reassembles collecting first (second ∷ []) 15 (body ++ crc) (replicate 167 0xff)
      (inr refl) (λ e. absurd (omega (arith, some-injective _ _ e))) (omega arith)
      (record { carries = first-Carries; unit_start = refl; pointer = refl })
      (second-Carries, refl, tt) body-IsSection (inl refl) (omega arith) refl

-- ===== src/Ts/Si/Runs.antt =====
-- Runs of `SiCollector` of src/recdyud/ts.py: a PAT among packets of another PID.
use recdyud.Base.{
  ℕ, ◌≡◌, refl, inl, Option, none, some, List, [], ◌∷◌, ◌++◌, map, join, All, length, replicate,
  to_bytes4, arith,
}
use recdyud.Ts.Crc.{crc32_mpeg2}
use mathlib.Core.Option.{none-ne-some}
use recdyud.Ts.Crc.Detect.{crc32_mpeg2-append}
use recdyud.Ts.Section.Drain.{IsSection}
use recdyud.Ts.Section.Reassembly.{Carries}
use recdyud.Ts.Psi.{no_info, set_item}
use recdyud.Ts.Psi.Pat.{bytes_of, enter}
use recdyud.Ts.Si.{table_of, init, update}
use recdyud.Ts.Si.Collect.{tagged, packets_of, Collected, update-Collected}
use recdyud.Ts.Si.Programs.{CarriesPat, over, of_pat, other, update-enter}

-- Names of services do not matter here.
abbrev euc : List ℕ → Option (List ℕ)
euc bytes = none

abbrev body : List ℕ
body =
    0 ∷ 0xb0 ∷ 17 ∷ 0x7f ∷ 0xe8 ∷ 0xc1 ∷ 0 ∷ 0 ∷ 0 ∷ 0 ∷ 0xe0 ∷ 0x10 ∷ 0x5c ∷ 0x38 ∷ 0xe1 ∷ 0x01
    ∷ []

abbrev crc : List ℕ
crc = to_bytes4 (crc32_mpeg2 body)

abbrev fill : List ℕ
fill = replicate 163 0xff

abbrev table : List ℕ
table = 0x47 ∷ 0x40 ∷ 0x00 ∷ 0x15 ∷ 0x00 ∷ ((body ++ crc) ++ fill)

abbrev video : List ℕ
video = 0x47 ∷ 0x01 ∷ 0x11 ∷ 0x10 ∷ replicate 184 0

abbrev stream : List (List ℕ)
stream = video ∷ table ∷ video ∷ []

stream-whole : All (λ p. length p ≡ 188) stream
stream-whole = (refl, (refl, (refl, tt)))

update-Collected_example : Collected euc init (map tagged stream) (update euc init (join stream))
update-Collected_example = update-Collected euc stream init stream-whole

table-Carries : Carries 5 table
table-Carries = record {
  size = refl;
  no_error = refl;
  payload = refl;
  inside = omega arith;
  counter = refl;
}

body-IsSection : IsSection (body ++ crc)
body-IsSection = record { sized = refl; checked = crc32_mpeg2-append body; tagged = refl }

stream-CarriesPat : CarriesPat euc stream (table ∷ [])
stream-CarriesPat =
    other video _ _ (λ e. absurd (omega (arith, e))) (λ e. absurd (omega (arith, e)))
      (λ e. absurd (omega (arith, e)))
      (of_pat table _ _ refl (
        other video _ _ (λ e. absurd (omega (arith, e))) (λ e. absurd (omega (arith, e)))
          (λ e. absurd (omega (arith, e))) over))

update-enter_example :
    (update euc init (join stream)).info
    ≡ record no_info { transport_stream_id = some 0x7fe8; programs = (0x5c38, 0x101) ∷ [] }
unfolding tagged table_of packets_of enter set_item bytes_of
update-enter_example =
    update-enter euc stream init table [] 5 0xb0 17 0x7fe8 0xc1 0 0
      ((0, 0x10) ∷ (0x5c38, 0x101) ∷ []) crc fill stream-whole stream-CarriesPat (inl refl)
      (λ e. absurd (none-ne-some _ e)) (omega arith)
      (record { carries = table-Carries; unit_start = refl; pointer = refl }) tt body-IsSection
      (inl refl) tt refl (omega arith)
      ((omega arith, omega arith), ((omega arith, omega arith), tt)) refl

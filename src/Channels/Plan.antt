-- ===== src/Channels/Plan.antt =====
-- The frequency tables of src/recdyud/channels.py as a channel plan.
use recdyud.Base.{
  ℕ, ◌+◌, ◌≤◌, ◌<◌, ◌≡◌, ◌≢◌, ◌⊎◌, inl, inr, true, false, none, some, Bool-cases, Option-cases,
  arith,
}
use recdyud.Channels.{
  min_frequency_khz, max_frequency_khz, in_uhf_range, in_catv_range, uhf_frequency, catv_frequency,
  vhf_frequency,
}

catv_some : (ch : ℕ) → in_catv_range ch ≡ true → catv_frequency ch ≢ none
unfolding in_catv_range catv_frequency
catv_some ch h e = ground arith

pub catv_bounds :
    (ch khz : ℕ)
    → catv_frequency ch ≡ some khz
    → (min_frequency_khz ≤ khz) × (khz ≤ max_frequency_khz)
unfolding catv_frequency
catv_bounds ch khz e = (ground arith, ground arith)

catv_outside : (ch : ℕ) → in_catv_range ch ≡ false → catv_frequency ch ≡ none
unfolding in_catv_range catv_frequency
catv_outside ch h = ground arith

-- Of two cable channels the one with the larger number is at least 4 MHz higher, so no two have the
-- same frequency.
pub catv_frequency-apart :
    (a b f g : ℕ) → a < b → catv_frequency a ≡ some f → catv_frequency b ≡ some g → f + 4000 ≤ g
unfolding catv_frequency
catv_frequency-apart a b f g lt ea eb = ground arith

-- A cable channel has a frequency exactly when its number is in the table's range, and the frequency
-- is one that `parse_channel` also accepts as a number.
pub catv_frequency-in_range :
    (ch : ℕ)
    → ((in_catv_range ch ≡ true)
        × (khz : ℕ) × (catv_frequency ch ≡ some khz)
        × (min_frequency_khz ≤ khz)
        × (khz ≤ max_frequency_khz))
      ⊎ ((in_catv_range ch ≡ false) × (catv_frequency ch ≡ none))
catv_frequency-in_range ch = elim (Bool-cases (in_catv_range ch)) [
  | inr out ↦ inr (out, catv_outside ch out)
  | inl within ↦ elim (Option-cases (catv_frequency ch)) [
    | inl e ↦ absurd (catv_some ch within e)
    | inr (khz, e) ↦ let (low, high) = catv_bounds ch khz e in inl (within, khz, e, low, high)
  ]
]

pub vhf_below_uhf :
    (ch uhf khz : ℕ)
    → in_uhf_range uhf ≡ true
    → vhf_frequency ch ≡ some khz
    → (min_frequency_khz ≤ khz)
      × (khz + 6000 ≤ uhf_frequency uhf)
      × (uhf_frequency uhf ≤ max_frequency_khz)
unfolding in_uhf_range vhf_frequency uhf_frequency
vhf_below_uhf ch uhf khz h e = (ground arith, ground arith, ground arith)

vhf_apart :
    (a b f g : ℕ) → a < b → vhf_frequency a ≡ some f → vhf_frequency b ≡ some g → f + 4000 ≤ g
unfolding vhf_frequency
vhf_apart a b f g lt ea eb = ground arith

-- Of two VHF channels the one with the larger number is at least 4 MHz higher; and they all lie in
-- the range that `parse_channel` accepts, and at least 6 MHz below every UHF channel, which is in
-- that range too.
pub vhf_frequency-apart :
    (a b f g uhf : ℕ)
    → a < b
    → vhf_frequency a ≡ some f
    → vhf_frequency b ≡ some g
    → in_uhf_range uhf ≡ true
    → (min_frequency_khz ≤ f)
      × (f + 4000 ≤ g)
      × (g + 6000 ≤ uhf_frequency uhf)
      × (uhf_frequency uhf ≤ max_frequency_khz)
vhf_frequency-apart a b f g uhf lt ea eb h = (
  (vhf_below_uhf a uhf f h ea).0,
  vhf_apart a b f g lt ea eb,
  (vhf_below_uhf b uhf g h eb).1,
  (vhf_below_uhf b uhf g h eb).2,
)

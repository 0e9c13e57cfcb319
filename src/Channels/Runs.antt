-- ===== src/Channels/Runs.antt =====
-- Runs of src/recdyud/channels.py.
use recdyud.Base.{arith, Bool, List, [], ◌∷◌, ℕ, ◌≡◌, refl, some}
use recdyud.Channels.{in_uhf_range, uhf_frequency, catv_frequency}
use recdyud.Channels.Parse.{int_of, isdigit, parse_channel}
use recdyud.Channels.Parse.Names.{parse_channel-name}
use recdyud.Channels.Ranges.{channels, invalid_channel, value_error, expand_channel_ranges}
use recdyud.Channels.Ranges.Printed.{print_ranges, all_channels, expand_channel_ranges-print}
use recdyud.Text.Digits.{int_of-str}

c27 : catv_frequency 27 ≡ some 251143
unfolding catv_frequency
c27 = refl

-- `round_khz` for the texts of this run, which are whole numbers of kHz.
abbrev round_khz : List ℕ → Bool → ℕ
round_khz number mega = int_of number

-- "GR27ch"
gr27 :
    parse_channel round_khz (71 ∷ 82 ∷ 50 ∷ 55 ∷ 99 ∷ 104 ∷ [])
    ≡ some (record { name = 50 ∷ 55 ∷ []; frequency_khz = 557143 })
unfolding parse_channel int_of isdigit in_uhf_range uhf_frequency
gr27 = refl

-- "gr27ch" is read as "27".
parse_channel-name_example :
    parse_channel round_khz (50 ∷ 55 ∷ [])
    ≡ some (record { name = 50 ∷ 55 ∷ []; frequency_khz = 557143 })
parse_channel-name_example =
    parse_channel-name round_khz (λ khz low. int_of-str khz) (71 ∷ 82 ∷ 50 ∷ 55 ∷ 99 ∷ 104 ∷ [])
      (record { name = 50 ∷ 55 ∷ []; frequency_khz = 557143 }) gr27

abbrev ranges : List (ℕ × ℕ)
ranges = (13, 62) ∷ (20, 21) ∷ []

expand_channel_ranges-print_example :
    expand_channel_ranges round_khz (print_ranges ranges) ≡ channels (all_channels ranges)
expand_channel_ranges-print_example =
    expand_channel_ranges-print round_khz ranges
      ((omega arith, omega arith, omega arith), ((omega arith, omega arith, omega arith), tt))

-- "62-" and "62-61"
open_end : expand_channel_ranges round_khz (54 ∷ 50 ∷ 45 ∷ []) ≡ value_error
unfolding expand_channel_ranges
open_end = refl

backwards : expand_channel_ranges round_khz (54 ∷ 50 ∷ 45 ∷ 54 ∷ 49 ∷ []) ≡ invalid_channel
unfolding expand_channel_ranges
backwards = refl

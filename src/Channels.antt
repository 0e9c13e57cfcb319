-- ===== src/Channels.antt =====
-- The frequency tables of src/recdyud/channels.py, in kHz.
pub mod Ranges
pub mod Parse
pub mod Plan
mod Runs
use recdyud.Base.{
  ℕ, ◌+◌, ◌-◌, ◌*◌, Bool, true, false, ◌&&◌, Option, none, some, leb, ◌==◌, if◌then◌else◌,
}

abbrev pub min_frequency_khz : ℕ
min_frequency_khz = 90000

abbrev pub max_frequency_khz : ℕ
max_frequency_khz = 770000

-- `ch in UHF_RANGE`, and so on.
unfoldable pub in_uhf_range : ℕ → Bool
in_uhf_range ch = leb 13 ch && leb ch 62

unfoldable pub in_catv_range : ℕ → Bool
in_catv_range ch = leb 13 ch && leb ch 63

unfoldable pub in_vhf_range : ℕ → Bool
in_vhf_range ch = leb 1 ch && leb ch 12

-- For channels from 13 on; below, the source's difference is negative.
unfoldable pub uhf_frequency : ℕ → ℕ
uhf_frequency ch = 473143 + 6000 * (ch - 13)

-- `none` is an InvalidChannel.
unfoldable pub catv_frequency : ℕ → Option ℕ
catv_frequency ch =
    if leb 13 ch && leb ch 21
    then some (111143 + 6000 * (ch - 13))
    else (if ch == 22
        then some 167143
        else (if ch == 23
            then some 225143
            else (if leb 24 ch && leb ch 27
                then some (233143 + 6000 * (ch - 24))
                else (if leb 28 ch && leb ch 63 then some (255143 + 6000 * (ch - 28)) else none))))

unfoldable pub vhf_frequency : ℕ → Option ℕ
vhf_frequency ch =
    if leb 1 ch && leb ch 3
    then some (93143 + 6000 * (ch - 1))
    else (if leb 4 ch && leb ch 7
        then some (173143 + 6000 * (ch - 4))
        else (if leb 8 ch && leb ch 12 then some (195143 + 6000 * (ch - 8)) else none))

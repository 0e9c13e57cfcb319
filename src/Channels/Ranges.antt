-- ===== src/Channels/Ranges.antt =====
-- `expand_channel_ranges` of src/recdyud/channels.py, on ASCII text.
pub mod Printed
use recdyud.Base.{
  ℕ, zero, suc, ◌+◌, ◌-◌, ℤ, pos, negsuc, Bool, true, false, Option, none, some, List, [], ◌∷◌,
  ◌++◌, map, ltb, ◌==◌, if◌then◌else◌,
}
use recdyud.Channels.Parse.{Channel, str, removeprefix, upper_char, parse_channel, text_equal}
use recdyud.Device.Lifecycle.Text.{strip}
use recdyud.Text.{split, partition, startswith, int_text}

-- How `expand_channel_ranges` ends: with channels, or with an InvalidChannel or a ValueError.
pub data Expansion : Type 0 where
  channels : List Channel → Expansion
  invalid_channel value_error : Expansion

unfoldable pub extend : List Channel → Expansion → Expansion
extend result (channels more) = channels (result ++ more)
extend result invalid_channel = invalid_channel
extend result value_error = value_error

-- What follows the channels of one part.
unfoldable pub and_then : Expansion → Expansion → Expansion
unfolding extend
and_then (channels result) rest = extend result rest
and_then invalid_channel rest = invalid_channel
and_then value_error rest = value_error

-- "C"
abbrev pub cable : List ℕ
cable = 67 ∷ []

-- `prefix`
unfoldable pub prefix_of : List ℕ → List ℕ
unfolding startswith
prefix_of lo = if startswith cable (map upper_char lo) then cable else []

-- `int(lo.upper().removeprefix("C"))`
unfoldable pub bound_of : List ℕ → Option ℤ
unfolding int_text removeprefix
bound_of text = int_text (removeprefix cable (map upper_char text))

unfoldable pub one : Option Channel → Expansion
one none = invalid_channel
one (some channel) = channels (channel ∷ [])

unfoldable pub is_empty : List ℕ → Bool
is_empty [] = true
is_empty (c ∷ cs) = false

module _ (round_khz : List ℕ → Bool → ℕ) where
  -- The channels of `rounds` numbers from `n` on.
  unfoldable pub numbered : List ℕ → ℕ → ℕ → Expansion
  unfolding one and_then parse_channel str
  numbered prefix zero n = channels []
  numbered prefix (suc rounds) n =
      and_then (one (parse_channel round_khz (prefix ++ str n))) (numbered prefix rounds (n + 1))

  -- A number below 0 names no channel.
  unfoldable pub range_of : List ℕ → Option ℤ → Option ℤ → Expansion
  unfolding numbered
  range_of prefix none hi = value_error
  range_of prefix (some lo) none = value_error
  range_of prefix (some (pos lo)) (some (pos hi)) =
      if ltb hi lo then invalid_channel else numbered prefix (hi + 1 - lo) lo
  range_of prefix (some (pos lo)) (some (negsuc hi)) = invalid_channel
  range_of prefix (some (negsuc lo)) (some hi) = invalid_channel

  unfoldable pub expand_part : List ℕ × Option (List ℕ) → List ℕ → Expansion
  unfolding one parse_channel range_of prefix_of bound_of strip
  expand_part (before, none) part = one (parse_channel round_khz part)
  expand_part (before, some after) part =
      range_of (prefix_of (strip before)) (bound_of (strip before)) (bound_of (strip after))

  -- The loop; `filter` leaves out what is empty.
  unfoldable pub expand_parts : List (List ℕ) → Expansion
  unfolding and_then expand_part strip is_empty partition
  expand_parts [] = channels []
  expand_parts (p ∷ parts) =
      let rest = expand_parts parts in
      let part = strip p in
      if is_empty part then rest else and_then (expand_part (partition 45 part) part) rest

  unfoldable pub expand_channel_ranges : List ℕ → Expansion
  unfolding expand_parts split
  expand_channel_ranges spec = expand_parts (split 44 spec)

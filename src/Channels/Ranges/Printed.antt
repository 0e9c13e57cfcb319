-- ===== src/Channels/Ranges/Printed.antt =====
-- The ranges of UHF channels that `expand_channel_ranges` of src/recdyud/channels.py reads.
use recdyud.Base.{
  ℕ, zero, suc, pos, ◌+◌, ◌-◌, ◌≤◌, ◌≡◌, refl, ap, ◌∙◌, Bool, true, false, some, List, [], ◌∷◌,
  ◌++◌, All, take, ◌==◌, ltb, arith,
}
use recdyud.Channels.{in_uhf_range, uhf_frequency}
use recdyud.Channels.Parse.{
  Channel, str, isdigit, removeprefix, parse_number, channel_named, text_equal, all_digits,
}
use recdyud.Channels.Parse.Names.{parse_channel-str, upper-digits}
use recdyud.Channels.Ranges.{
  channels, extend, and_then, cable, prefix_of, bound_of, one, is_empty, numbered, range_of,
  expand_part, expand_parts, expand_channel_ranges,
}
use recdyud.Text.{split, partition, startswith}
use recdyud.Text.Digits.{
  is_solid, is_solid-append, strip-solid, int_text-str, all_digits-cons, isdigit-str, int_of-str,
  str-digits, str-solid,
}
use recdyud.Text.Split.{lacks, lacks-append, lacks-digits, split-lacks, split-join, partition-join}
use recdyud.Device.Lifecycle.Text.{strip}

-- The channels of `rounds` numbers from `n` on.
unfoldable pub uhf_channels : ℕ → ℕ → List Channel
uhf_channels zero n = []
uhf_channels (suc rounds) n =
    record { name = str n; frequency_khz = uhf_frequency n } ∷ uhf_channels rounds (n + 1)

-- The first and the last channel of a range.
abbrev pub IsRange : ℕ × ℕ → Type 0
IsRange (lo, hi) = (13 ≤ lo) × (lo ≤ hi) × (hi ≤ 62)

unfoldable pub range_channels : ℕ × ℕ → List Channel
unfolding uhf_channels
range_channels (lo, hi) = uhf_channels (hi + 1 - lo) lo

-- "lo-hi"
unfoldable pub print_range : ℕ × ℕ → List ℕ
unfolding str
print_range (lo, hi) = str lo ++ (45 ∷ str hi)

-- The ranges with commas between them.
unfoldable pub print_ranges : List (ℕ × ℕ) → List ℕ
unfolding print_range
print_ranges [] = []
print_ranges (r ∷ ranges) =
    let rest = print_ranges ranges in
    elim ranges [ [] ↦ print_range r | s ∷ more ↦ print_range r ++ (44 ∷ rest) ]

unfoldable pub all_channels : List (ℕ × ℕ) → List Channel
unfolding range_channels
all_channels [] = []
all_channels (r ∷ ranges) = range_channels r ++ all_channels ranges

print_range-lacks : (r : ℕ × ℕ) → lacks 44 (print_range r) ≡ true
unfolding print_range lacks
print_range-lacks (lo, hi) =
    lacks-append 44 (str lo) (45 ∷ str hi) (lacks-digits 44 (str lo) refl (str-digits lo))
      (lacks-digits 44 (str hi) refl (str-digits hi))

print_range-solid : (r : ℕ × ℕ) → is_solid (print_range r) ≡ true
unfolding print_range is_solid
print_range-solid (lo, hi) = is_solid-append (str lo) (45 ∷ str hi) (str-solid lo) (str-solid hi)

uhf_named :
    (n : ℕ)
    → 13 ≤ n
    → n ≤ 62
    → parse_number (str n) ≡ some (record { name = str n; frequency_khz = uhf_frequency n })
unfolding parse_number channel_named
uhf_named n low high =
    let within : in_uhf_range n ≡ true = unfold in_uhf_range in ground arith in
    rw (int_of-str n, within) refl

-- A number has no "C" before it.
no_cable : (xs : List ℕ) → all_digits xs ≡ true → text_equal (take 1 xs) cable ≡ false
unfolding text_equal
no_cable [] h = refl
no_cable (x ∷ xs) h =
    let (e, digits) = all_digits-cons x xs h in
    let other : (x == 67) ≡ false = ground arith in rw other refl

prefix_of-str : (n : ℕ) → prefix_of (str n) ≡ []
unfolding prefix_of startswith
prefix_of-str n = rw (upper-digits (str n) (str-digits n), no_cable (str n) (str-digits n)) refl

bound_of-str : (n : ℕ) → bound_of (str n) ≡ some (pos n)
unfolding bound_of removeprefix
bound_of-str n =
    rw (upper-digits (str n) (str-digits n), no_cable (str n) (str-digits n)) (int_text-str n)

print_range_filled : (r : ℕ × ℕ) → is_empty (print_range r) ≡ false
unfolding print_range is_empty
print_range_filled (lo, hi) = with_digits (str lo) (isdigit-str lo)
  where
    with_digits : (xs : List ℕ) → isdigit xs ≡ true → is_empty (xs ++ (45 ∷ str hi)) ≡ false
    with_digits [] h = refl
    with_digits (x ∷ xs) h = refl

module _ (round_khz : List ℕ → Bool → ℕ) where
  numbered-uhf :
      (rounds n : ℕ)
      → 13 ≤ n
      → n + rounds ≤ 63
      → numbered round_khz [] rounds n ≡ channels (uhf_channels rounds n)
  unfolding numbered uhf_channels and_then one extend
  numbered-uhf zero n low high = refl
  numbered-uhf (suc rounds) n low high =
      ap (λ o. and_then (one o) (numbered round_khz [] rounds (n + 1)))
        (parse_channel-str round_khz n ∙ uhf_named n low (omega arith))
      ∙ ap (extend (record { name = str n; frequency_khz = uhf_frequency n } ∷ []))
          (numbered-uhf rounds (n + 1) (omega arith) (omega arith))

  expand_part-range :
      (r : ℕ × ℕ)
      → IsRange r
      → expand_part round_khz (partition 45 (print_range r)) (print_range r)
        ≡ channels (range_channels r)
  unfolding expand_part range_of print_range range_channels
  expand_part-range (lo, hi) (low, le, high) =
      let in_order : ltb hi lo ≡ false = ground arith in
      rw
        (
          partition-join 45 (str lo) (str hi) (lacks-digits 45 (str lo) refl (str-digits lo)),
          strip-solid (str lo) (str-solid lo),
          strip-solid (str hi) (str-solid hi),
          prefix_of-str lo,
          bound_of-str lo,
          bound_of-str hi,
          in_order,
        )
        (numbered-uhf (hi + 1 - lo) lo low (omega arith))

  -- The first of the parts.
  expand_parts-range :
      (r : ℕ × ℕ) (parts : List (List ℕ))
      → IsRange r
      → expand_parts round_khz (print_range r ∷ parts)
        ≡ extend (range_channels r) (expand_parts round_khz parts)
  unfolding expand_parts and_then
  expand_parts-range r parts is_range =
      rw (strip-solid (print_range r) (print_range-solid r), print_range_filled r)
        (ap (λ e. and_then e (expand_parts round_khz parts)) (expand_part-range r is_range))

  -- Ranges of UHF channels, written as "lo-hi" with commas between them, are read as their channels,
  -- each with its number as its name and the frequency of the table, in the order of the ranges and
  -- from the first to the last of each.
  pub expand_channel_ranges-print :
      (ranges : List (ℕ × ℕ))
      → All IsRange ranges
      → expand_channel_ranges round_khz (print_ranges ranges) ≡ channels (all_channels ranges)
  unfolding expand_channel_ranges print_ranges all_channels extend
  expand_channel_ranges-print [] are_ranges = unfold split expand_parts strip in refl
  expand_channel_ranges-print (r ∷ []) (is_range, are_ranges) =
      rw (split-lacks 44 (print_range r) (print_range-lacks r)) (expand_parts-range r [] is_range)
  expand_channel_ranges-print (r ∷ (s ∷ ranges)) (is_range, are_ranges) =
      rw (split-join 44 (print_range r) (print_ranges (s ∷ ranges)) (print_range-lacks r)) (
        expand_parts-range r (split 44 (print_ranges (s ∷ ranges))) is_range
        ∙ ap (extend (range_channels r)) (expand_channel_ranges-print (s ∷ ranges) are_ranges))

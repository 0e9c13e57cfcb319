-- ===== src/Channels/Parse.antt =====
-- `parse_channel` and `expand_channel_ranges` of src/recdyud/channels.py, on ASCII text.
pub mod Range
pub mod Names
use recdyud.Base.{
  ℕ, zero, suc, ◌+◌, ◌-◌, ◌*◌, ◌/◌, ◌%◌, Bool, true, false, ◌&&◌, ◌||◌, Option, none, some, List,
  [], ◌∷◌, ◌++◌, map, length, take, drop, leb, ltb, ◌==◌, if◌then◌else◌,
}
use recdyud.Channels.{
  min_frequency_khz, max_frequency_khz, in_uhf_range, in_catv_range, in_vhf_range, uhf_frequency,
  catv_frequency, vhf_frequency,
}
use recdyud.Device.Lifecycle.Text.{strip, is_space}
use mathlib.Core.List.{foldl}

pub record Channel : Type 0 where
  pub name : List ℕ
  pub frequency_khz : ℕ

abbrev pub is_digit : ℕ → Bool
is_digit c = leb 48 c && leb c 57

abbrev pub upper_char : ℕ → ℕ
upper_char c = if leb 97 c && leb c 122 then c - 32 else c

-- `.isdigit()`, which is false of the empty string.
unfoldable pub all_digits : List ℕ → Bool
all_digits [] = true
all_digits (c ∷ cs) = is_digit c && all_digits cs

unfoldable pub isdigit : List ℕ → Bool
unfolding all_digits
isdigit [] = false
isdigit (c ∷ cs) = all_digits (c ∷ cs)

-- `int(...)` of digits, and the digits of a number; the number is enough fuel.
unfoldable pub int_of : List ℕ → ℕ
int_of cs = foldl (λ n c. n * 10 + (c - 48)) 0 cs

unfoldable pub digits_loop : ℕ → ℕ → List ℕ → List ℕ
digits_loop zero n rest = (48 + n % 10) ∷ rest
digits_loop (suc fuel) n rest =
    let more = digits_loop fuel (n / 10) ((48 + n % 10) ∷ rest) in
    if ltb n 10 then (48 + n) ∷ rest else more

unfoldable pub str : ℕ → List ℕ
unfolding digits_loop
str n = digits_loop n n []

unfoldable pub text_equal : List ℕ → List ℕ → Bool
text_equal [] [] = true
text_equal [] (d ∷ ds) = false
text_equal (c ∷ cs) [] = false
text_equal (c ∷ cs) (d ∷ ds) = c == d && text_equal cs ds

unfoldable pub removeprefix : List ℕ → List ℕ → List ℕ
unfolding text_equal
removeprefix prefix s =
    if text_equal (take (length prefix) s) prefix then drop (length prefix) s else s

unfoldable pub removesuffix : List ℕ → List ℕ → List ℕ
unfolding text_equal
removesuffix suffix s =
    if leb (length suffix) (length s) && text_equal (drop (length s - length suffix) s) suffix
    then take (length s - length suffix) s
    else s

-- The digits that a string begins with, and what follows them.
unfoldable pub span_digits : List ℕ → List ℕ × List ℕ
span_digits [] = ([], [])
span_digits (c ∷ cs) =
    let (front, back) = span_digits cs in if is_digit c then (c ∷ front, back) else ([], c ∷ cs)

unfoldable pub skip_spaces : List ℕ → List ℕ
skip_spaces [] = []
skip_spaces (c ∷ cs) = let rest = skip_spaces cs in if is_space c then rest else c ∷ cs

-- `(?:\.\d+)?`: the text so far, and what follows.
unfoldable pub fraction : List ℕ → List ℕ → List ℕ × List ℕ
unfolding span_digits
fraction whole [] = (whole, [])
fraction whole (c ∷ cs) =
    let (part, rest) = span_digits cs in
    if c == 46 && ltb 0 (length part) then (whole ++ (46 ∷ part), rest) else (whole, c ∷ cs)

-- `\s*(khz|mhz)$`, whatever its case: whether it is megahertz.
unfoldable pub unit_of : List ℕ → Option Bool
unfolding text_equal skip_spaces
unit_of rest =
    let name = map upper_char (skip_spaces rest) in
    if text_equal name (75 ∷ 72 ∷ 90 ∷ [])
    then some false
    else (if text_equal name (77 ∷ 72 ∷ 90 ∷ []) then some true else none)

-- `_FREQ_RE.match`: the number's text, and whether it is megahertz.
unfoldable pub match_frequency : List ℕ → Option (List ℕ × Bool)
unfolding span_digits fraction unit_of
match_frequency s =
    let (whole, rest) = span_digits s in
    let (number, unit) = fraction whole rest in
    if length whole == 0
    then none
    else elim (unit_of unit) [ none ↦ none | some mega ↦ some (number, mega) ]

unfoldable pub channel_named : List ℕ → Option ℕ → Option Channel
channel_named name none = none
channel_named name (some khz) = some (record { name = name; frequency_khz = khz })

-- The names of the cable channels, from the text behind their first letter on.
unfoldable pub parse_catv : List ℕ → Option Channel
unfolding int_of str channel_named
parse_catv number =
    let ch = int_of number in
    if in_catv_range ch then channel_named (67 ∷ str ch) (catv_frequency ch) else none

-- The names "1" to "62".
unfoldable pub parse_number : List ℕ → Option Channel
unfolding int_of str channel_named
parse_number number =
    let ch = int_of number in
    if in_uhf_range ch
    then channel_named (str ch) (some (uhf_frequency ch))
    else (if in_vhf_range ch then channel_named (str ch) (vhf_frequency ch) else none)

unfoldable pub parse_upper : List ℕ → Option Channel
unfolding parse_number
parse_upper upper = if isdigit upper then parse_number upper else none

-- `startswith("C")` and the test of what follows.
unfoldable pub parse_name : List ℕ → Option Channel
unfolding parse_catv parse_upper
parse_name [] = none
parse_name (c ∷ number) =
    if c == 67 && isdigit number then parse_catv number else parse_upper (c ∷ number)

-- `round(float(text))` or `round(float(text) * 1000)` is a parameter. `none` is an InvalidChannel.
module _ (round_khz : List ℕ → Bool → ℕ) where
  unfoldable pub parse_frequency : List ℕ × Bool → Option Channel
  unfolding str
  parse_frequency (number, mega) =
      let khz = round_khz number mega in
      if leb min_frequency_khz khz && leb khz max_frequency_khz
      then some (record { name = str khz ++ (107 ∷ 72 ∷ 122 ∷ []); frequency_khz = khz })
      else none

  unfoldable pub parse_stripped : List ℕ → Option Channel
  unfolding match_frequency parse_frequency parse_name removeprefix removesuffix
  parse_stripped s = elim (match_frequency s) [
    | some m ↦ parse_frequency m
    | none ↦
        parse_name (removesuffix (67 ∷ 72 ∷ []) (removeprefix (71 ∷ 82 ∷ []) (map upper_char s)))
  ]

  unfoldable pub parse_channel : List ℕ → Option Channel
  unfolding strip parse_stripped
  parse_channel spec = parse_stripped (strip spec)

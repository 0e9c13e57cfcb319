-- ===== src/Text.antt =====
-- The functions on text that src/recdyud/device.py, src/recdyud/channels.py and src/recdyud/cli.py
-- apply to what the user types, on ASCII characters.
pub mod Digits
pub mod Split
use recdyud.Base.{
  ℕ, ℤ, pos, neg, ◌+◌, ◌*◌, ◌-◌, Bool, true, false, ◌&&◌, Option, none, some, List, [], ◌∷◌, length,
  take, drop, ◌==◌, if◌then◌else◌,
}
use recdyud.Device.Lifecycle.Text.{strip}
use recdyud.Channels.Parse.{is_digit, int_of, text_equal}

-- `split(c)`
unfoldable pub first_longer : ℕ → List (List ℕ) → List (List ℕ)
first_longer x [] = (x ∷ []) ∷ []
first_longer x (w ∷ words) = (x ∷ w) ∷ words

unfoldable pub split : ℕ → List ℕ → List (List ℕ)
unfolding first_longer
split c [] = [] ∷ []
split c (x ∷ xs) = let words = split c xs in if x == c then [] ∷ words else first_longer x words

-- `split(c, 1)` and `partition(c)`: what comes before the first one, and what comes after it.
unfoldable pub partition : ℕ → List ℕ → List ℕ × Option (List ℕ)
partition c [] = ([], none)
partition c (x ∷ xs) =
    let (before, after) = partition c xs in if x == c then ([], some xs) else (x ∷ before, after)

unfoldable pub startswith : List ℕ → List ℕ → Bool
startswith prefix s = text_equal (take (length prefix) s) prefix

unfoldable pub cons_some : ℕ → Option (List ℕ) → Option (List ℕ)
cons_some c none = none
cons_some c (some cs) = some (c ∷ cs)

-- The digits that `int` reads, which single underscores may separate; the first argument says
-- whether a digit comes before.
unfoldable pub digits_of : Bool → List ℕ → Option (List ℕ)
unfolding cons_some
digits_of digit_before [] = if digit_before then some [] else none
digits_of digit_before (c ∷ cs) =
    let rest = digits_of (is_digit c) cs in
    if is_digit c then cons_some c rest else (if c == 95 && digit_before then rest else none)

-- A sign may come first; `none` is a ValueError.
unfoldable pub signed : List ℕ → Option ℤ
unfolding digits_of int_of
signed [] = none
signed (c ∷ cs) =
    let rest = digits_of false cs in
    if c == 45
    then elim rest [ none ↦ none | some digits ↦ some (neg (int_of digits)) ]
    else (if c == 43
        then elim rest [ none ↦ none | some digits ↦ some (pos (int_of digits)) ]
        else (elim (digits_of false (c ∷ cs)) [
          | none ↦ none
          | some digits ↦ some (pos (int_of digits))
        ]))

-- `int(text)`
unfoldable pub int_text : List ℕ → Option ℤ
unfolding signed strip
int_text s = signed (strip s)

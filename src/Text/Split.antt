-- ===== src/Text/Split.antt =====
-- Texts that are split at a character of theirs.
use recdyud.Base.{
  ℕ, ◌≡◌, refl, Bool, true, false, not, ◌&&◌, some, List, [], ◌∷◌, ◌++◌, ◌==◌, arith,
}
use recdyud.Channels.Parse.{is_digit, all_digits}
use recdyud.Text.{first_longer, split, partition}
use recdyud.Text.Digits.{and_true, all_digits-cons}

-- The character does not occur in the text.
unfoldable pub lacks : ℕ → List ℕ → Bool
lacks c [] = true
lacks c (x ∷ xs) = not (x == c) && lacks c xs

lacks-cons :
    (c x : ℕ) (xs : List ℕ) → lacks c (x ∷ xs) ≡ true → ((x == c) ≡ false) × (lacks c xs ≡ true)
unfolding lacks
lacks-cons c x xs h = let (e, rest) = and_true (not (x == c)) (lacks c xs) h in (ground arith, rest)

pub lacks-append :
    (c : ℕ) (xs ys : List ℕ) → lacks c xs ≡ true → lacks c ys ≡ true → lacks c (xs ++ ys) ≡ true
unfolding lacks
lacks-append c [] ys h k = k
lacks-append c (x ∷ xs) ys h k =
    let (e, rest) = lacks-cons c x xs h in rw (e, lacks-append c xs ys rest k) refl

pub lacks-digits :
    (c : ℕ) (xs : List ℕ) → is_digit c ≡ false → all_digits xs ≡ true → lacks c xs ≡ true
unfolding lacks
lacks-digits c [] other h = refl
lacks-digits c (x ∷ xs) other h =
    let (e, digits) = all_digits-cons x xs h in
    let apart : (x == c) ≡ false = ground arith in rw (apart, lacks-digits c xs other digits) refl

pub split-lacks : (c : ℕ) (xs : List ℕ) → lacks c xs ≡ true → split c xs ≡ xs ∷ []
unfolding split first_longer
split-lacks c [] h = refl
split-lacks c (x ∷ xs) h = let (e, rest) = lacks-cons c x xs h in rw (e, split-lacks c xs rest)

pub split-join :
    (c : ℕ) (xs ys : List ℕ) → lacks c xs ≡ true → split c (xs ++ (c ∷ ys)) ≡ xs ∷ split c ys
unfolding split first_longer
split-join c [] ys h = let same : (c == c) ≡ true = ground arith in rw same
split-join c (x ∷ xs) ys h = let (e, rest) = lacks-cons c x xs h in rw (e, split-join c xs ys rest)

pub partition-join :
    (c : ℕ) (xs ys : List ℕ) → lacks c xs ≡ true → partition c (xs ++ (c ∷ ys)) ≡ (xs, some ys)
unfolding partition
partition-join c [] ys h = let same : (c == c) ≡ true = ground arith in rw same
partition-join c (x ∷ xs) ys h =
    let (e, rest) = lacks-cons c x xs h in rw (e, partition-join c xs ys rest)

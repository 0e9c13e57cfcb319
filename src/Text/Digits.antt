-- ===== src/Text/Digits.antt =====
-- Numbers as text: what `str` and `int` of src/recdyud/channels.py make of each other.
use recdyud.Base.{
  ℕ, zero, suc, pos, ◌+◌, ◌*◌, ◌-◌, ◌/◌, ◌%◌, ◌≤◌, ◌<◌, ◌≡◌, refl, ap, ap₂, ◌∙◌, Bool, true, false,
  not, ◌&&◌, some, List, [], ◌∷◌, ◌++◌, ltb, ◌==◌, Bool-cases, inl, inr, arith,
}
use mathlib.Core.List.{reverse, reverse-cons, reverse-reverse}
use recdyud.Channels.Parse.{is_digit, all_digits, isdigit, int_of, text_equal, digits_loop, str}
use recdyud.Device.Lifecycle.Text.{lstrip, strip, is_space}
use recdyud.Text.{cons_some, digits_of, signed, int_text}

-- The value of a text's digits behind those of a number.
abbrev pub value : ℕ → List ℕ → ℕ
value n [] = n
value n (c ∷ cs) = value (n * 10 + (c - 48)) cs

int_of-value : (cs : List ℕ) → int_of cs ≡ value 0 cs
unfolding int_of
int_of-value cs = from 0 cs
  where
    from :
        (n : ℕ) (cs : List ℕ) → mathlib.Core.List.foldl (λ n c. n * 10 + (c - 48)) n cs ≡ value n cs
    from n [] = refl
    from n (c ∷ cs) = from (n * 10 + (c - 48)) cs

value-digits_loop :
    (fuel n : ℕ) (rest : List ℕ) → n ≤ fuel → value 0 (digits_loop fuel n rest) ≡ value n rest
unfolding digits_loop
value-digits_loop zero n rest h =
    ap (λ k. value k rest) (let e : 0 * 10 + (48 + n % 10 - 48) ≡ n = omega arith in e)
value-digits_loop (suc fuel) n rest h = elim (Bool-cases (ltb n 10)) [
  | inl small ↦
      rw small (ap (λ k. value k rest) (let e : 0 * 10 + (48 + n - 48) ≡ n = omega arith in e))
  | inr large ↦ rw large (
      value-digits_loop fuel (n / 10) ((48 + n % 10) ∷ rest) (ground arith)
      ∙ ap (λ k. value k rest) (let e : n / 10 * 10 + (48 + n % 10 - 48) ≡ n = omega arith in e))
]

is_digit_lem : (k : ℕ) → k < 10 → is_digit (48 + k) ≡ true
is_digit_lem k h = ground arith

isdigit-cons :
    (c : ℕ) (cs : List ℕ) → is_digit c ≡ true → all_digits cs ≡ true → isdigit (c ∷ cs) ≡ true
unfolding isdigit all_digits
isdigit-cons c cs h digits = rw (h, digits) refl

isdigit-digits_loop :
    (fuel n : ℕ) (rest : List ℕ)
    → n ≤ fuel
    → all_digits rest ≡ true
    → isdigit (digits_loop fuel n rest) ≡ true
unfolding digits_loop all_digits isdigit
isdigit-digits_loop zero n rest h digits =
    isdigit-cons (48 + n % 10) rest (is_digit_lem (n % 10) (omega arith)) digits
isdigit-digits_loop (suc fuel) n rest h digits = elim (Bool-cases (ltb n 10)) [
  | inl small ↦ rw small (isdigit-cons (48 + n) rest (is_digit_lem n (ground arith)) digits)
  | inr large ↦ rw large (
      isdigit-digits_loop fuel (n / 10) ((48 + n % 10) ∷ rest) (ground arith)
        (isdigit-cons (48 + n % 10) rest (is_digit_lem (n % 10) (omega arith)) digits))
]

-- A number's digits are read back as the number.
pub int_of-str : (n : ℕ) → int_of (str n) ≡ n
unfolding str
int_of-str n = int_of-value (str n) ∙ value-digits_loop n n [] (omega arith)

pub isdigit-str : (n : ℕ) → isdigit (str n) ≡ true
unfolding str
isdigit-str n = isdigit-digits_loop n n [] (omega arith) (unfold all_digits in refl)

pub and_true : (a b : Bool) → (a && b) ≡ true → (a ≡ true) × (b ≡ true)
and_true true b h = (refl, h)
and_true false b h = absurd (cc h)

pub all_digits-cons :
    (x : ℕ) (xs : List ℕ)
    → all_digits (x ∷ xs) ≡ true
    → (is_digit x ≡ true) × (all_digits xs ≡ true)
unfolding all_digits
all_digits-cons x xs h = and_true (is_digit x) (all_digits xs) h

-- A text without white space.
unfoldable pub is_solid : List ℕ → Bool
is_solid [] = true
is_solid (x ∷ xs) = not (is_space x) && is_solid xs

pub is_solid-append :
    (xs ys : List ℕ) → is_solid xs ≡ true → is_solid ys ≡ true → is_solid (xs ++ ys) ≡ true
unfolding is_solid
is_solid-append [] ys h k = k
is_solid-append (x ∷ xs) ys h k =
    let (e, solid) = and_true (not (is_space x)) (is_solid xs) h in
    rw e (is_solid-append xs ys solid k)

is_solid-reverse : (xs : List ℕ) → is_solid xs ≡ true → is_solid (reverse xs) ≡ true
unfolding is_solid
is_solid-reverse [] h = h
is_solid-reverse (x ∷ xs) h =
    let (e, solid) = and_true (not (is_space x)) (is_solid xs) h in
    rw (reverse-cons x xs)
      (is_solid-append (reverse xs) (x ∷ []) (is_solid-reverse xs solid) (rw e refl))

lstrip-solid : (xs : List ℕ) → is_solid xs ≡ true → lstrip xs ≡ xs
unfolding lstrip is_solid
lstrip-solid [] h = refl
lstrip-solid (x ∷ xs) h = elim (Bool-cases (is_space x)) [
  | inl e ↦ absurd (cc (e, (and_true (not (is_space x)) (is_solid xs) h).0))
  | inr e ↦ rw e
]

pub strip-solid : (xs : List ℕ) → is_solid xs ≡ true → strip xs ≡ xs
unfolding strip
strip-solid xs h =
    ap (λ ys. reverse (lstrip (reverse ys))) (lstrip-solid xs h)
    ∙ ap reverse (lstrip-solid (reverse xs) (is_solid-reverse xs h))
    ∙ reverse-reverse xs

-- A digit is none of the characters that `strip` and `int` treat apart.
digit_apart :
    (x : ℕ) → is_digit x ≡ true → (is_space x ≡ false) × ((x == 45) ≡ false) × ((x == 43) ≡ false)
digit_apart x h = (ground arith, ground arith, ground arith)

pub all_digits-solid : (xs : List ℕ) → all_digits xs ≡ true → is_solid xs ≡ true
unfolding is_solid
all_digits-solid [] h = refl
all_digits-solid (x ∷ xs) h =
    let (e, digits) = all_digits-cons x xs h in
    rw ((digit_apart x e).0, all_digits-solid xs digits) refl

digits_of-digits : (xs : List ℕ) → all_digits xs ≡ true → digits_of true xs ≡ some xs
unfolding digits_of cons_some
digits_of-digits [] h = refl
digits_of-digits (x ∷ xs) h =
    let (e, digits) = all_digits-cons x xs h in rw (e, digits_of-digits xs digits)

signed-digits : (xs : List ℕ) → isdigit xs ≡ true → signed xs ≡ some (pos (int_of xs))
unfolding signed isdigit digits_of cons_some
signed-digits [] h = absurd (cc h)
signed-digits (x ∷ xs) h =
    let (e, digits) = all_digits-cons x xs h in
    let (space, minus, plus) = digit_apart x e in rw (minus, plus, e, digits_of-digits xs digits)

pub isdigit-all_digits : (xs : List ℕ) → isdigit xs ≡ true → all_digits xs ≡ true
unfolding isdigit
isdigit-all_digits [] h = absurd (cc h)
isdigit-all_digits (x ∷ xs) h = h

pub int_text-digits : (xs : List ℕ) → isdigit xs ≡ true → int_text xs ≡ some (pos (int_of xs))
unfolding int_text
int_text-digits xs h =
    rw (strip-solid xs (all_digits-solid xs (isdigit-all_digits xs h))) (signed-digits xs h)

-- `int(str(n))` is `n`.
pub int_text-str : (n : ℕ) → int_text (str n) ≡ some (pos n)
int_text-str n = int_text-digits (str n) (isdigit-str n) ∙ ap (λ k. some (pos k)) (int_of-str n)

-- Texts that compare as equal are equal.
pub text_equal-eq : (xs ys : List ℕ) → text_equal xs ys ≡ true → xs ≡ ys
unfolding text_equal
text_equal-eq [] [] h = refl
text_equal-eq [] (y ∷ ys) h = absurd (cc h)
text_equal-eq (x ∷ xs) [] h = absurd (cc h)
text_equal-eq (x ∷ xs) (y ∷ ys) h =
    let (same, rest) = parts x y xs ys h in ap₂ ◌∷◌ same (text_equal-eq xs ys rest)
  where
    parts :
        (x y : ℕ) (xs ys : List ℕ)
        → text_equal (x ∷ xs) (y ∷ ys) ≡ true
        → (x ≡ y) × (text_equal xs ys ≡ true)
    parts x y xs ys h = (ground arith, ground arith)

-- A number is written with no other character than digits.
pub str-digits : (n : ℕ) → all_digits (str n) ≡ true
str-digits n = isdigit-all_digits (str n) (isdigit-str n)

pub str-solid : (n : ℕ) → is_solid (str n) ≡ true
str-solid n = all_digits-solid (str n) (str-digits n)

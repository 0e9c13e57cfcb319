-- ===== src/Base/Bits.antt =====
-- Exclusive or at variables, from the recursion on binary digits that it stands for.
use Prim.Native.Nat.{
  ℕ, zero, suc, ◌+◌, ◌*◌, ◌/◌, ◌%◌, ◌^◌, ◌≤◌, ◌<◌, bit_xor, digits, bit_xor-bitwise, differ,
}
use mathlib.Core.Path.{◌≡◌, refl, sym, ap, ◌∙◌}
use native.Mathlib.Omega.{arith}
use native.Mathlib.Nat.{le_refl, pow-suc}

-- More fuel than the number has digits changes nothing.
xor_enough :
    (a b fuel more : ℕ)
    → a ≤ fuel
    → a ≤ more
    → digits (λ y. y) differ fuel a b ≡ digits (λ y. y) differ more a b
xor_enough zero b zero zero h k = refl
xor_enough zero b zero (suc more) h k = refl
xor_enough zero b (suc fuel) zero h k = refl
xor_enough zero b (suc fuel) (suc more) h k = refl
xor_enough (suc a) b zero more h k = absurd (omega arith)
xor_enough (suc a) b (suc fuel) zero h k = absurd (omega arith)
xor_enough (suc a) b (suc fuel) (suc more) h k =
    rw (xor_enough (suc a / 2) (b / 2) fuel more (omega arith) (omega arith))

pub xor_zero_left : (b : ℕ) → bit_xor 0 b ≡ b
xor_zero_left b = bit_xor-bitwise 0 b

-- One digit against another.
differ_mod : (x y : ℕ) → x < 2 → y < 2 → differ x y ≡ (x + y) % 2
differ_mod zero y p q = omega arith
differ_mod (suc zero) zero p q = refl
differ_mod (suc zero) (suc zero) p q = refl
differ_mod (suc zero) (suc (suc y)) p q = absurd (omega arith)
differ_mod (suc (suc x)) y p q = absurd (omega arith)

-- The lowest digit and the rest.
xor_digit : (a b : ℕ) → bit_xor a b ≡ bit_xor (a / 2) (b / 2) * 2 + differ (a % 2) (b % 2)
xor_digit zero b = omega (arith, xor_zero_left b, xor_zero_left (b / 2))
xor_digit (suc a) b = omega (
  arith,
  bit_xor-bitwise (suc a) b,
  bit_xor-bitwise (suc a / 2) (b / 2),
  xor_enough (suc a / 2) (b / 2) a (suc a / 2) (omega arith) (le_refl _),
)

pub xor_step : (a b : ℕ) → bit_xor a b ≡ bit_xor (a / 2) (b / 2) * 2 + (a + b) % 2
xor_step a b = omega (arith, xor_digit a b, differ_mod (a % 2) (b % 2) (omega arith) (omega arith))

pub xor_half : (a b : ℕ) → bit_xor a b / 2 ≡ bit_xor (a / 2) (b / 2)
xor_half a b = omega (arith, xor_step a b)

xor_parity : (a b : ℕ) → bit_xor a b % 2 ≡ (a + b) % 2
xor_parity a b = omega (arith, xor_step a b)

xor_self_below : (n a : ℕ) → a ≤ n → bit_xor a a ≡ 0
xor_self_below n zero h = refl
xor_self_below zero (suc a) h = absurd (omega arith)
xor_self_below (suc n) (suc a) h =
    omega (arith, xor_step (suc a) (suc a), xor_self_below n (suc a / 2) (omega arith))

pub xor_self : (a : ℕ) → bit_xor a a ≡ 0
xor_self a = xor_self_below a a (le_refl a)

xor_comm_below : (n a b : ℕ) → a ≤ n → b ≤ n → bit_xor a b ≡ bit_xor b a
xor_comm_below zero a b p q =
    let e : a ≡ 0 = omega arith in let e' : b ≡ 0 = omega arith in rw (e, e')
xor_comm_below (suc n) a b p q = omega (
  arith,
  xor_step a b,
  xor_step b a,
  xor_comm_below n (a / 2) (b / 2) (omega arith) (omega arith),
)

pub xor_comm : (a b : ℕ) → bit_xor a b ≡ bit_xor b a
xor_comm a b = xor_comm_below (a + b) a b (omega arith) (omega arith)

pub xor_zero : (a : ℕ) → bit_xor a 0 ≡ a
xor_zero a = xor_comm a 0 ∙ xor_zero_left a

xor_cancel_below : (n a b : ℕ) → a ≤ n → b ≤ n → bit_xor (bit_xor a b) b ≡ a
xor_cancel_below zero a b p q =
    let e : a ≡ 0 = omega arith in let e' : b ≡ 0 = omega arith in rw (e, e')
xor_cancel_below (suc n) a b p q =
    let ih : bit_xor (bit_xor a b / 2) (b / 2) ≡ a / 2 =
      rw (xor_half a b) (xor_cancel_below n (a / 2) (b / 2) (omega arith) (omega arith)) in
    omega (arith, xor_step (bit_xor a b) b, xor_parity a b, ih)

-- A second exclusive or with the same number undoes the first.
pub xor_cancel : (a b : ℕ) → bit_xor (bit_xor a b) b ≡ a
xor_cancel a b = xor_cancel_below (a + b) a b (omega arith) (omega arith)

pub xor_injective_left : (a b c : ℕ) → bit_xor a c ≡ bit_xor b c → a ≡ b
xor_injective_left a b c h = sym (xor_cancel a c) ∙ ap (λ t. bit_xor t c) h ∙ xor_cancel b c

pub xor_injective_right : (a b c : ℕ) → bit_xor c a ≡ bit_xor c b → a ≡ b
xor_injective_right a b c h = xor_injective_left a b c (xor_comm a c ∙ h ∙ xor_comm c b)

-- The result has no more digits than the longer of the two.
pub xor-lt : (k a b : ℕ) → a < 2 ^ k → b < 2 ^ k → bit_xor a b < 2 ^ k
xor-lt zero a b p q =
    let e : a ≡ 0 = omega arith in let e' : b ≡ 0 = omega arith in rw (e, e') (omega arith)
xor-lt (suc k) a b p q = omega (
  arith,
  xor_step a b,
  pow-suc 2 k,
  xor-lt k (a / 2) (b / 2) (omega (arith, pow-suc 2 k)) (omega (arith, pow-suc 2 k)),
)

next_digit : (n high : ℕ) → high * 2 ^ (suc n) ≡ (high * 2 ^ n) * 2
next_digit n high = ap (◌*◌ high) (pow-suc 2 n) ∙ regroup (2 ^ n)
  where
    regroup : (power : ℕ) → high * (power * 2) ≡ (high * power) * 2
    regroup power = omega arith

-- The low `k` digits and the others do not mix.
pub xor_fields :
    (k p q r s : ℕ)
    → r < 2 ^ k
    → s < 2 ^ k
    → bit_xor (p * 2 ^ k + r) (q * 2 ^ k + s) ≡ bit_xor p q * 2 ^ k + bit_xor r s
xor_fields zero p q r s hr hs =
    let er : r ≡ 0 = omega arith in
    let es : s ≡ 0 = omega arith in rw (er, es) (rw (one p, one q) (omega arith))
  where
    one : (x : ℕ) → x * 2 ^ 0 + 0 ≡ x
    one x = omega arith
xor_fields (suc k) p q r s hr hs =
    let ep : (p * 2 ^ suc k + r) / 2 ≡ p * 2 ^ k + r / 2 = omega (arith, next_digit k p) in
    let eq : (q * 2 ^ suc k + s) / 2 ≡ q * 2 ^ k + s / 2 = omega (arith, next_digit k q) in
    let ih : bit_xor ((p * 2 ^ suc k + r) / 2) ((q * 2 ^ suc k + s) / 2)
        ≡ bit_xor p q * 2 ^ k + bit_xor (r / 2) (s / 2) =
      rw (ep, eq)
        (xor_fields k p q (r / 2) (s / 2) (omega (arith, pow-suc 2 k))
          (omega (arith, pow-suc 2 k))) in
    omega (
      arith,
      xor_step (p * 2 ^ suc k + r) (q * 2 ^ suc k + s),
      xor_step r s,
      ih,
      next_digit k p,
      next_digit k q,
      next_digit k (bit_xor p q),
    )

xor_assoc_below :
    (n a b c : ℕ) → a ≤ n → b ≤ n → c ≤ n → bit_xor (bit_xor a b) c ≡ bit_xor a (bit_xor b c)
xor_assoc_below zero a b c p q r =
    let ea : a ≡ 0 = omega arith in
    let eb : b ≡ 0 = omega arith in let ec : c ≡ 0 = omega arith in rw (ea, eb, ec)
xor_assoc_below (suc n) a b c p q r =
    let ih : bit_xor (bit_xor a b / 2) (c / 2) ≡ bit_xor (a / 2) (bit_xor b c / 2) =
      rw (xor_half a b, xor_half b c)
        (xor_assoc_below n (a / 2) (b / 2) (c / 2) (omega arith) (omega arith) (omega arith)) in
    omega (
      arith,
      xor_step (bit_xor a b) c,
      xor_step a (bit_xor b c),
      xor_parity a b,
      xor_parity b c,
      ih,
    )

pub xor_assoc : (a b c : ℕ) → bit_xor (bit_xor a b) c ≡ bit_xor a (bit_xor b c)
xor_assoc a b c = xor_assoc_below (a + b + c) a b c (omega arith) (omega arith) (omega arith)

-- Pairs of pairs, regrouped.
pub xor_swap :
    (a b c d : ℕ) → bit_xor (bit_xor a b) (bit_xor c d) ≡ bit_xor (bit_xor a c) (bit_xor b d)
xor_swap a b c d =
    xor_assoc a b (bit_xor c d)
    ∙ ap (bit_xor a)
        (sym (xor_assoc b c d) ∙ ap (λ t. bit_xor t d) (xor_comm b c) ∙ xor_assoc c b d)
    ∙ sym (xor_assoc a c (bit_xor b d))

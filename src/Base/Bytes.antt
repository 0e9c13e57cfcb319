-- ===== src/Base/Bytes.antt =====
-- Bytes: their range, bit fields of a number, and big-endian integers.
use Prim.Native.Nat.{ℕ, ◌+◌, ◌*◌, ◌/◌, ◌%◌, ◌^◌, ◌<◌}
use mathlib.Core.Path.{◌≡◌}
use mathlib.Core.List.{List, [], ◌∷◌}
use mathlib.Core.Bool.{Bool, not}
use native.Mathlib.Omega.{arith}
use recdyud.Base.Tests.{◌==◌}

abbrev pub IsByte : ℕ → Type 0
IsByte b = b < 256

-- `(x >> s) & (2^k - 1)`: the field of `k` bits from bit `s` on.
abbrev pub field : ℕ → ℕ → ℕ → ℕ
field x s k = x / 2 ^ s % 2 ^ k

-- The truth value of `x & mask`, where the mask is the `k` bits from bit `s` on.
abbrev pub has_bits : ℕ → ℕ → ℕ → Bool
has_bits x s k = not (field x s k == 0)

-- `int.from_bytes(bs, "big")`
be_from : ℕ → List ℕ → ℕ
be_from acc [] = acc
be_from acc (b ∷ bs) = be_from (acc * 256 + b) bs

unfoldable pub int_from_bytes : List ℕ → ℕ
unfolding be_from
int_from_bytes bs = be_from 0 bs

-- `n.to_bytes(2, "big")` and `n.to_bytes(4, "big")`
abbrev pub to_bytes2 : ℕ → List ℕ
to_bytes2 n = (n / 2 ^ 8) ∷ (n % 2 ^ 8) ∷ []

abbrev pub to_bytes4 : ℕ → List ℕ
to_bytes4 n = (n / 2 ^ 24) ∷ (n / 2 ^ 16 % 2 ^ 8) ∷ (n / 2 ^ 8 % 2 ^ 8) ∷ (n % 2 ^ 8) ∷ []

pub int_from_bytes-to_bytes2 : (n : ℕ) → n < 2 ^ 16 → int_from_bytes (to_bytes2 n) ≡ n
unfolding int_from_bytes
int_from_bytes-to_bytes2 n h = omega arith

pub int_from_bytes-to_bytes4 : (n : ℕ) → n < 2 ^ 32 → int_from_bytes (to_bytes4 n) ≡ n
unfolding int_from_bytes
int_from_bytes-to_bytes4 n h = omega arith

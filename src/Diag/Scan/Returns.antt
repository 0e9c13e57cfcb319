-- ===== src/Diag/Scan/Returns.antt =====
-- Statements of src/recdyud/diag.py one after another, each of which returns.
use recdyud.Base.{◌≡◌, refl, ap, ◌∙◌, Option, some}
use recdyud.Device.{DyUd200, Result, ok, raise}
use recdyud.Diag.Scan.{on_ok}

-- A call that returns, and what it returns if it does not raise.
abbrev pub Returns : {U A : Type 0} → (A → Type 0) → Option (DyUd200 U × Result A) → Type 0
Returns {U} {A} P o =
    (d : DyUd200 U) × (r : Result A) × (o ≡ some (d, r)) × ((a : A) → r ≡ ok a → P a)

pub on_ok-Returns :
    {U A B : Type 0} (P : A → Type 0) (Q : B → Type 0) (o : Option (DyUd200 U × Result A))
    (after : DyUd200 U → A → Option (DyUd200 U × Result B))
    → Returns P o
    → ((d : DyUd200 U) (a : A) → P a → Returns Q (after d a))
    → Returns Q (on_ok o after)
unfolding on_ok
on_ok-Returns P Q o after (d, raise e, run, p) rest =
    (d, raise e, ap (λ z. on_ok z after) run, λ b h. absurd (cc h))
on_ok-Returns P Q o after (d, ok a, run, p) rest =
    let (d', r, run', q) = rest d a (p a refl) in (d', r, ap (λ z. on_ok z after) run ∙ run', q)

pub ok_injective : {A : Type 0} {a b : A} → ok a ≡ ok b → a ≡ b
ok_injective {A} {a} {b} e = ap value e
  where
    value : Result A → A
    value (raise error) = a
    value (ok x) = x

-- A call that cannot loop.
pub some-Returns :
    {U A : Type 0} (t : DyUd200 U × Result A) → Returns (λ (a : A). Unit {0}) (some t)
some-Returns (d, r) = (d, r, refl, λ a h. tt)

-- ===== src/Ts/Aligner/Framing.antt =====
-- Whole packets, each with its sync byte: what `PacketAligner.feed` of src/recdyud/ts.py returns.
use recdyud.Base.{
  ℕ, zero, suc, ◌+◌, ◌-◌, ◌*◌, ◌≤◌, ◌<◌, ◌≡◌, refl, List, [], ◌∷◌, ◌++◌, length, get_or, drop,
  slice, length-append, length-take, length-drop, take-append-drop, drop-drop, get_or-append_lt,
  get_or-append_ge, get_or-take, get_or-drop, dec_lt, arith,
}
use recdyud.Ts.{sync_byte}
use mathlib.Core.List.{Sublist, append_assoc}
use mathlib.Core.List.Sublist

-- `n` packets of 188 bytes, with a sync byte at the head of each.
pub record Packets (n : ℕ) (bytes : List ℕ) : Type 0 where
  pub size : length bytes ≡ n * 188
  pub synced : (k : ℕ) → k < n → get_or bytes (k * 188) 0 ≡ sync_byte

pub Packets-nil : Packets 0 []
Packets-nil = record { size = refl; synced = λ k h. absurd (omega arith) }

pub Packets-append :
    (m n : ℕ) (xs ys : List ℕ) → Packets m xs → Packets n ys → Packets (m + n) (xs ++ ys)
Packets-append m n xs ys p q = record {
  size = omega (arith, length-append xs ys, p.size, q.size);
  synced = λ k h. elim (dec_lt k m) [
    | yes lo ↦ rw (get_or-append_lt xs ys (k * 188) 0 (omega (arith, p.size))) (p.synced k lo)
    | no hi ↦
        rw (get_or-append_ge xs ys (k * 188) ((k - m) * 188) 0 (omega (arith, p.size)))
          (q.synced (k - m) (omega arith))
  ];
}

pub slice-Packets :
    (bytes : List ℕ) (pos n end : ℕ)
    → pos + n * 188 ≡ end
    → end ≤ length bytes
    → ((k : ℕ) → k < n → get_or bytes (pos + k * 188) 0 ≡ sync_byte)
    → Packets n (slice bytes pos end)
slice-Packets bytes pos n end e fits h = record {
  size = omega (arith, length-take (end - pos) (drop pos bytes), length-drop pos bytes);
  synced = λ k lt.
      rw (get_or-take (drop pos bytes) (end - pos) (k * 188) 0 (omega arith))
        (rw (get_or-drop bytes pos (k * 188) (pos + k * 188) 0 refl) (h k lt));
}

pub drop-Sublist {ℓ} : {A : Type ℓ} (n : ℕ) (xs : List A) → Sublist (drop n xs) xs
drop-Sublist zero xs = Sublist.refl xs
drop-Sublist (suc n) [] = Sublist.refl []
drop-Sublist (suc n) (x ∷ xs) = Sublist.cons x (drop-Sublist n xs)

-- Taking the next bytes over into the output changes nothing.
pub append-slice-drop {ℓ} :
    {A : Type ℓ} (out bytes : List A) (pos end : ℕ)
    → pos ≤ end
    → (out ++ slice bytes pos end) ++ drop end bytes ≡ out ++ drop pos bytes
append-slice-drop out bytes pos end h =
    rw (append_assoc out (slice bytes pos end) (drop end bytes)) (
      rw (← drop-drop (end - pos) pos end bytes (omega arith))
        (rw (take-append-drop (end - pos) (drop pos bytes))))

-- Skipping bytes leaves the rest in order.
pub skip-Sublist {ℓ} :
    {A : Type ℓ} (out bytes : List A) (pos pos' : ℕ)
    → pos ≤ pos'
    → Sublist (out ++ drop pos' bytes) (out ++ drop pos bytes)
skip-Sublist out bytes pos pos' h = Sublist.append (Sublist.refl out) (
    rw (← drop-drop (pos' - pos) pos pos' bytes (omega arith))
      (drop-Sublist (pos' - pos) (drop pos bytes)))

-- ===== src/Ts/Psi/Descriptors.antt =====
-- `_descriptors` of src/recdyud/ts.py reads what a broadcaster writes.
use recdyud.Base.{
  ℕ, zero, suc, ◌+◌, ◌≤◌, ◌≡◌, refl, ap, sym, ◌∙◌, true, false, List, [], ◌∷◌, ◌++◌, map, join,
  length, slice, leb, arith, length-append, get_or-append_ge, slice-append,
}
use recdyud.Ts.Psi.{descriptors_loop, descriptors}
use mathlib.Core.List.{append_assoc}

-- A descriptor as it is carried: its tag, the length of its body, the body.
unfoldable pub bytes_of : ℕ × List ℕ → List ℕ
bytes_of (tag, body) = tag ∷ length body ∷ body

descriptors_loop-join :
    (ds : List (ℕ × List ℕ)) (pre : List ℕ) (i fuel : ℕ)
    → length pre ≡ i
    → length ds ≤ fuel
    → descriptors_loop fuel (pre ++ join (map bytes_of ds)) i ≡ ds
unfolding descriptors_loop bytes_of
descriptors_loop-join [] pre i zero before enough = refl
descriptors_loop-join [] pre i (suc fuel) before enough =
    let e : leb (i + 2) (length (pre ++ [])) ≡ false = ground (arith, length-append pre []) in rw e
descriptors_loop-join (d ∷ ds) pre i zero before enough = absurd (omega arith)
descriptors_loop-join ((tag, body) ∷ ds) pre i (suc fuel) before enough =
    rw
      (
        more,
        get_or-append_ge pre (tag ∷ length body ∷ tail) i 0 0 (omega (arith, before)),
        get_or-append_ge pre (tag ∷ length body ∷ tail) (i + 1) 1 0 (omega (arith, before)),
        ap (λ xs. slice xs (i + 2) (i + 2 + length body))
              (sym (append_assoc pre (tag ∷ length body ∷ []) tail))
            ∙ slice-append (pre ++ (tag ∷ length body ∷ [])) body (join (map bytes_of ds)) (i + 2)
                (i + 2 + length body)
                (omega (arith, length-append pre (tag ∷ length body ∷ []), before)) refl,
      )
      (ap (◌∷◌ (tag, body)) (
        ap (λ xs. descriptors_loop fuel xs (i + 2 + length body))
          (sym (append_assoc pre (bytes_of (tag, body)) (join (map bytes_of ds))))
        ∙ descriptors_loop-join ds (pre ++ bytes_of (tag, body)) (i + 2 + length body) fuel
            (omega (arith, length-append pre (bytes_of (tag, body)), before)) (omega arith)))
  where
    tail : List ℕ
    tail = body ++ join (map bytes_of ds)

    more : leb (i + 2) (length (pre ++ (tag ∷ length body ∷ tail))) ≡ true
    more = ground (arith, length-append pre (tag ∷ length body ∷ tail))

length-join_ge : (ds : List (ℕ × List ℕ)) → length ds ≤ length (join (map bytes_of ds))
unfolding bytes_of
length-join_ge [] = omega arith
length-join_ge ((tag, body) ∷ ds) =
    omega (arith, length-append body (join (map bytes_of ds)), length-join_ge ds)

-- A loop of descriptors, each written as its tag, the length of its body and the body, is read
-- back as exactly these descriptors.
pub descriptors-join : (ds : List (ℕ × List ℕ)) → descriptors (join (map bytes_of ds)) ≡ ds
unfolding descriptors
descriptors-join ds =
    descriptors_loop-join ds [] 0 (length (join (map bytes_of ds))) refl (length-join_ge ds)

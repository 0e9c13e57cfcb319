-- ===== src/Aribstr/Ascii.antt =====
-- Alphanumeric text through `decode` of src/recdyud/aribstr.py.
use recdyud.Base.{
  ℕ, zero, suc, ◌+◌, ◌≤◌, ◌≡◌, refl, sym, ap, ◌∙◌, true, false, Option, none, some, List, [], ◌∷◌,
  ◌++◌, length, get_or, ltb, All, arith, lt→ltb, get_or-append_ge, length-append,
}
use recdyud.Aribstr.{
  alnum, Decoder, went_on, one_byte, graphic, round, decode_loop, decode, start, initial_sets,
}
use recdyud.Aribstr.Total.{read_here}
use mathlib.Core.List.{append-nil, append_assoc}

-- Space to tilde.
abbrev pub IsPrintable : ℕ → Type 0
IsPrintable b = (0x20 ≤ b) × (b ≤ 0x7e)

at_end :
    (front bytes : List ℕ) (i : ℕ)
    → bytes ≡ front ++ []
    → length front ≡ i
    → ltb i (length bytes) ≡ false
at_end front bytes i e ei = ground (arith, ap length e, length-append front [])

module _ (euc : List ℕ → Option (List ℕ)) where
  round-printable :
      (bytes : List ℕ) (b : ℕ) (d : Decoder)
      → IsPrintable b
      → d.single ≡ none
      → d.g d.gl ≡ alnum
      → round euc bytes b d ≡ went_on (record d { out = d.out ++ (b ∷ []); i = d.i + 1 })
  unfolding round graphic one_byte
  round-printable bytes b d h s g = ground arith

  text_lem :
      (text front bytes : List ℕ) (d : Decoder) (fuel : ℕ)
      → All IsPrintable text
      → d.single ≡ none
      → d.g d.gl ≡ alnum
      → bytes ≡ front ++ text
      → length front ≡ d.i
      → length text ≤ fuel
      → decode_loop euc fuel bytes d ≡ some (d.out ++ text)
  unfolding decode_loop
  text_lem [] front bytes d zero hs s g e ei h =
      rw (at_end front bytes d.i e ei) (ap some (sym (append-nil d.out)))
  text_lem [] front bytes d (suc fuel) hs s g e ei h =
      rw (at_end front bytes d.i e ei, decode_loop) (ap some (sym (append-nil d.out)))
  text_lem (b ∷ bs) front bytes d zero hs s g e ei h = absurd (omega arith)
  text_lem (b ∷ bs) front bytes d (suc fuel) (hb, hs) s g e ei h =
      rw (inside, read_here euc bytes d inside, here, round-printable bytes b d hb s g, decode_loop)
        (text_lem bs (front ++ (b ∷ [])) bytes (record d { out = d.out ++ (b ∷ []); i = d.i + 1 })
            fuel hs s g (e ∙ sym (append_assoc front (b ∷ []) bs))
            (omega (arith, length-append front (b ∷ []))) (omega arith)
          ∙ ap some (append_assoc d.out (b ∷ []) bs))
    where
      here : get_or bytes d.i 0 ≡ b
      here = ap (λ t. get_or t d.i 0) e ∙ get_or-append_ge front (b ∷ bs) d.i 0 0 (omega arith)

      inside : ltb d.i (length bytes) ≡ true
      inside = lt→ltb _ _ (omega (arith, ap length e, length-append front (b ∷ bs)))

  -- Behind a locking shift to G1 (0x0E), printable ASCII is decoded as it stands.
  pub decode_ascii : (text : List ℕ) → All IsPrintable text → decode euc (0x0e ∷ text) ≡ some text
  unfolding decode decode_loop round
  decode_ascii text h =
      let first : ltb 0 (suc (length text)) ≡ true = lt→ltb 0 (suc (length text)) (omega arith) in
      rw (first, decode_loop)
        (text_lem text (0x0e ∷ []) (0x0e ∷ text) (record start { gl = 1; i = 0 + 1 }) (length text)
          h refl (unfold initial_sets in refl) refl refl (omega arith))

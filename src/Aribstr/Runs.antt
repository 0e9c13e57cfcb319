-- ===== src/Aribstr/Runs.antt =====
-- Runs of `decode` of src/recdyud/aribstr.py, with a codec that decodes nothing.
use recdyud.Base.{ℕ, ◌≡◌, Option, none, some, List, [], ◌∷◌, arith}
use recdyud.Aribstr.{decode}
use recdyud.Aribstr.Total.{decode_total}

abbrev no_codec : List ℕ → Option (List ℕ)
no_codec bytes = none

-- A cut escape sequence.
decode_total_example : (text : List ℕ) × (decode no_codec (0x1b ∷ 0x24 ∷ []) ≡ some text)
decode_total_example = decode_total no_codec (0x1b ∷ 0x24 ∷ []) (omega arith, (omega arith, tt))

-- ===== src/Device/Lifecycle/Text.antt =====
-- The text functions that `get_serial_number` of src/recdyud/device.py applies to its bytes.
use recdyud.Base.{ℕ, Bool, ◌||◌, ◌&&◌, List, [], ◌∷◌, map, leb, ltb, ◌==◌, if◌then◌else◌}
use mathlib.Core.List.{reverse}

-- `.split(b"\0", 1)[0]`
unfoldable pub before_nul : List ℕ → List ℕ
before_nul [] = []
before_nul (b ∷ bytes) = let rest = before_nul bytes in if b == 0 then [] else b ∷ rest

-- `.decode("ascii", "replace")`
unfoldable pub ascii_text : List ℕ → List ℕ
ascii_text bytes = map (λ b. if ltb b 128 then b else 0xfffd) bytes

-- What `strip` takes for white space, of the characters that this text can have.
abbrev pub is_space : ℕ → Bool
is_space c = (leb 9 c && leb c 13) || (leb 28 c && leb c 32)

unfoldable pub lstrip : List ℕ → List ℕ
lstrip [] = []
lstrip (c ∷ cs) = let rest = lstrip cs in if is_space c then rest else c ∷ cs

unfoldable pub strip : List ℕ → List ℕ
unfolding lstrip
strip cs = reverse (lstrip (reverse (lstrip cs)))

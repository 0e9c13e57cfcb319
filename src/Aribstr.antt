-- ===== src/Aribstr.antt =====
-- src/recdyud/aribstr.py: the decoder of ARIB STD-B24 strings. A text is the list of its code points.
pub mod Total
pub mod Ascii
mod Runs
use recdyud.Base.{
  ℕ, zero, suc, ◌+◌, ◌-◌, ◌%◌, ◌^◌, Bool, true, false, not, ◌&&◌, ◌||◌, Option, none, some, List,
  [], ◌∷◌, ◌++◌, length, get_elem?, replicate, leb, ltb, ◌==◌, if◌then◌else◌,
}

-- The designations that the code names; any other number is a set that it does not know.
abbrev pub kanji : ℕ
kanji = 0x42

abbrev pub jis_kanji_1 : ℕ
jis_kanji_1 = 0x39

abbrev pub jis_kanji_2 : ℕ
jis_kanji_2 = 0x3a

abbrev pub additional_symbols : ℕ
additional_symbols = 0x3b

abbrev pub alnum : ℕ
alnum = 0x4a

abbrev pub hiragana : ℕ
hiragana = 0x30

abbrev pub katakana : ℕ
katakana = 0x31

abbrev pub drcs : ℕ
drcs = 0x100

abbrev pub drcs_two_byte : ℕ
drcs_two_byte = 0x101

abbrev pub geta : ℕ
geta = 0x3013

-- `chr(first + i) for i in range(n)`
unfoldable pub chars_from : ℕ → ℕ → List ℕ
chars_from first zero = []
chars_from first (suc n) = first ∷ chars_from (first + 1) n

unfoldable pub hiragana_table : List ℕ
unfolding chars_from
hiragana_table =
    chars_from 0x3041 0x53
    ++ (0x20 ∷ 0x20 ∷ 0x20 ∷ 0x309d ∷ 0x309e ∷ 0x30fc ∷ 0x3002 ∷ 0x300c ∷ 0x300d ∷ 0x3001 ∷ 0x30fb
        ∷ [])

unfoldable pub katakana_table : List ℕ
unfolding chars_from
katakana_table =
    chars_from 0x30a1 0x56
    ++ (0x30fd ∷ 0x30fe ∷ 0x30fc ∷ 0x3002 ∷ 0x300c ∷ 0x300d ∷ 0x3001 ∷ 0x30fb ∷ [])

-- `_C1_PARAMS.get(b, 0)`
unfoldable pub c1_params : ℕ → ℕ
c1_params b =
    if b == 0x8b
      || (b == 0x90 || (b == 0x91 || (b == 0x93 || (b == 0x94 || (b == 0x97 || b == 0x98)))))
    then 1
    else 0

-- `_one_byte`, for a byte from 0x21 on; `none` is an IndexError.
unfoldable pub one_byte : ℕ → ℕ → Option ℕ
one_byte g b =
    if g == alnum || g == 0x36
    then some b
    else (if g == hiragana || g == 0x37
        then get_elem? hiragana_table (b - 0x21)
        else (if g == katakana || g == 0x38
            then get_elem? katakana_table (b - 0x21)
            else (if g == 0x49 && leb b 0x5f then some (0xff61 + b - 0x21) else some geta)))

abbrev pub is_two_byte : ℕ → Bool
is_two_byte s =
    s == kanji
    || (s == jis_kanji_1 || (s == jis_kanji_2 || (s == additional_symbols || s == drcs_two_byte)))

-- The variables of `decode`; `g` holds the designations of G0 to G3.
pub record Decoder : Type 0 where
  pub i : ℕ
  pub g : ℕ → ℕ
  pub gl : ℕ
  pub gr : ℕ
  pub single : Option ℕ
  pub out : List ℕ

unfoldable pub initial_sets : ℕ → ℕ
initial_sets zero = kanji
initial_sets (suc zero) = alnum
initial_sets (suc (suc zero)) = hiragana
initial_sets (suc (suc (suc n))) = katakana

abbrev pub start : Decoder
start = record { i = 0; g = initial_sets; gl = 0; gr = 2; single = none; out = [] }

abbrev pub designate : ℕ → ℕ → Decoder → Decoder
designate k set d = record d { g = λ j. if j == k then set else d.g j }

abbrev pub is_final_set : ℕ → Bool
is_final_set b = leb 0x28 b && leb b 0x2b

-- `data[i]` and what follows it; `none` is an IndexError.
unfoldable pub read {ℓ} : {A : Type ℓ} → List ℕ → ℕ → (ℕ → Option A) → Option A
read bytes i next = elim (get_elem? bytes i) [ none ↦ none | some b ↦ next b ]

-- `i < n and test(data[i])`
unfoldable pub and_read : List ℕ → ℕ → (ℕ → Bool) → Option Bool
unfolding read
and_read bytes i test =
    if ltb i (length bytes) then read bytes i (λ b. some (test b)) else some false

-- One statement after another.
unfoldable pub if_read : Option Bool → Option Decoder → Option Decoder → Option Decoder
if_read none a b = none
if_read (some true) a b = a
if_read (some false) a b = b

-- `elif i < n: g[k] = data[i]; i += 1`
unfoldable pub plain_designation : List ℕ → ℕ → Decoder → Option Decoder
unfolding read
plain_designation bytes k d =
    if ltb d.i (length bytes)
    then read bytes d.i (λ b. some (designate k b (record d { i = d.i + 1 })))
    else some d

-- One set of one-byte characters, or of two-byte characters, from `i` on: `d.i` is behind the
-- escape sequence's introducer.
unfoldable pub designation : List ℕ → ℕ → ℕ → Decoder → Option Decoder
unfolding and_read if_read plain_designation
designation bytes k drcs_set d =
    if_read (and_read bytes d.i (λ b. b == 0x20))
      (some (designate k drcs_set (record d { i = d.i + 2 }))) (plain_designation bytes k d)

-- The sets of two-byte characters.
unfoldable pub two_byte_designation : List ℕ → Decoder → Option Decoder
unfolding and_read if_read plain_designation designation read
two_byte_designation bytes d =
    if_read (and_read bytes d.i is_final_set)
      (read bytes d.i λ b. designation bytes (b - 0x28) drcs_two_byte (record d { i = d.i + 1 }))
      (plain_designation bytes 0 d)

-- The `match c`, with `i` behind `c`.
unfoldable pub escape : List ℕ → ℕ → Decoder → Option Decoder
unfolding designation two_byte_designation
escape bytes c d =
    if c == 0x6e
    then some (record d { gl = 2 })
    else (if c == 0x6f
        then some (record d { gl = 3 })
        else (if c == 0x7e
            then some (record d { gr = 1 })
            else (if c == 0x7d
                then some (record d { gr = 2 })
                else (if c == 0x7c
                    then some (record d { gr = 3 })
                    else (if is_final_set c
                        then designation bytes (c - 0x28) drcs d
                        else (if c == 0x24 then two_byte_designation bytes d else some d))))))

-- `while i < n and not 0x40 <= data[i] <= 0x7E: i += 1`, with `n - i` rounds at most.
unfoldable pub skip_csi : List ℕ → ℕ → ℕ → Option ℕ
unfolding and_read
skip_csi bytes zero i = some i
skip_csi bytes (suc rounds) i = elim (and_read bytes i (λ b. not (leb 0x40 b && leb b 0x7e))) [
  | none ↦ none
  | some false ↦ some i
  | some true ↦ skip_csi bytes rounds (i + 1)
]

-- How a round ends: by `break`, by an IndexError, or with the next round.
pub data Round : Type 0 where
  broke : Decoder → Round
  went_on : Decoder → Round
  raised : Round

unfoldable pub and_on : Option Decoder → Round
and_on none = raised
and_on (some d) = went_on d

-- `euc` is `raw.decode("euc_jis_2004")` of the standard library, `none` for a UnicodeDecodeError.
module _ (euc : List ℕ → Option (List ℕ)) where
  unfoldable pub two_byte : ℕ → ℕ → ℕ → List ℕ
  two_byte g b1 b2 =
      let high = λ (b : ℕ). b % 2 ^ 7 + 2 ^ 7 in
      let pair = high b1 ∷ high b2 ∷ [] in
      if g == kanji || (g == jis_kanji_1 || g == jis_kanji_2)
      then elim (euc (if g == jis_kanji_2 then 0x8f ∷ pair else pair)) [
        | some text ↦ text
        | none ↦ geta ∷ []
      ]
      else (geta ∷ [])

  -- A graphic character of the set, with its code; `d.i` is still at its first byte.
  unfoldable pub graphic : List ℕ → ℕ → ℕ → Decoder → Round
  unfolding read and_on
  graphic bytes gset char d =
      if is_two_byte gset
      then (if leb (length bytes) (d.i + 1)
          then broke d
          else and_on (
              read bytes (d.i + 1) λ b.
                some (record d { out = d.out ++ two_byte gset char (b % 2 ^ 7); i = d.i + 2 })))
      else elim (one_byte gset char) [
        | none ↦ raised
        | some c ↦ went_on (record d { out = d.out ++ (c ∷ []); i = d.i + 1 })
      ]

  -- The set that a byte below 0x80 goes by: the single shift's, or GL.
  abbrev pub left_set : Decoder → ℕ
  left_set d = elim d.single [ none ↦ d.g d.gl | some k ↦ d.g k ]

  -- controls, 0x80 to 0x9F.
  abbrev pub c1_end : List ℕ → ℕ → ℕ → Option ℕ
  c1_end bytes b i =
      if b == 0x9b
      then elim (skip_csi bytes (length bytes - (i + 1)) (i + 1)) [
        | none ↦ none
        | some j ↦ some (j + 1)
      ]
      else (if b == 0x9d then some (i + 3) else some (i + c1_params b + 1))

  unfoldable pub skipped : Decoder → Option ℕ → Round
  skipped d none = raised
  skipped d (some j) = went_on (record d { i = j })

  -- A round of the loop, on the byte `b` at `d.i`.
  unfoldable pub round : List ℕ → ℕ → Decoder → Round
  unfolding read and_on escape graphic skipped
  round bytes b d =
      if b == 0x1b
      then (if leb (length bytes) (d.i + 1)
          then broke d
          else and_on (read bytes (d.i + 1) λ c. escape bytes c (record d { i = d.i + 2 })))
      else (if b == 0x0f
          then went_on (record d { gl = 0; i = d.i + 1 })
          else (if b == 0x0e
              then went_on (record d { gl = 1; i = d.i + 1 })
              else (if b == 0x19
                  then went_on (record d { single = some 2; i = d.i + 1 })
                  else (if b == 0x1d
                      then went_on (record d { single = some 3; i = d.i + 1 })
                      else (if b == 0x20 || b == 0xa0
                          then went_on (record d { out = d.out ++ (0x20 ∷ []); i = d.i + 1 })
                          else (if b == 0x0d
                              then went_on (record d { out = d.out ++ (0x0a ∷ []); i = d.i + 1 })
                              else (if b == 0x16
                                  then went_on (record d { i = d.i + 2 })
                                  else (if b == 0x1c
                                      then went_on (record d { i = d.i + 3 })
                                      else (if ltb b 0x20 || (b == 0x7f || b == 0xff)
                                          then went_on (record d { i = d.i + 1 })
                                          else (if leb 0x80 b && leb b 0x9f
                                              then skipped d (c1_end bytes b d.i)
                                              else (if ltb b 0x80
                                                  then graphic bytes (left_set d) b
                                                      (record d { single = none })
                                                  else graphic bytes (d.g d.gr) (b % 2 ^ 7)
                                                      d)))))))))))

  -- `while i < n`. Each round moves `i` up, so the length is enough fuel; `none` is an IndexError,
  -- or the fuel running out.
  unfoldable pub decode_loop : ℕ → List ℕ → Decoder → Option (List ℕ)
  unfolding read round
  decode_loop zero bytes d = if ltb d.i (length bytes) then none else some d.out
  decode_loop (suc fuel) bytes d = elim (ltb d.i (length bytes)) [
    | false ↦ some d.out
    | true ↦ elim (read bytes d.i (λ b. some (round bytes b d))) [
      | none ↦ none
      | some raised ↦ none
      | some (broke d') ↦ some d'.out
      | some (went_on d') ↦ decode_loop fuel bytes d'
    ]
  ]

  unfoldable pub decode : List ℕ → Option (List ℕ)
  decode bytes = decode_loop (length bytes) bytes start

-- ===== src/Aribstr/Total.antt =====
-- `decode` of src/recdyud/aribstr.py ends on every byte string, and no index of it is out of range.
use recdyud.Base.{
  ℕ, zero, suc, ◌+◌, ◌-◌, ◌%◌, ◌^◌, ◌≤◌, ◌<◌, ◌≡◌, refl, inl, inr, ◌⊎◌, get_elem?-get_or, ltb→lt,
  Bool, true, false, not, ◌&&◌, ◌||◌, Option, none, some, List, [], ◌∷◌, length, get_or, get_elem?,
  leb, ltb, ◌==◌, All, IsByte, if-both, Bool-cases, arith,
}
use recdyud.Base.Ranges.{passes_below, passes_at}
use recdyud.Aribstr.{
  read, and_read, if_read, plain_designation, two_byte_designation, and_on, skipped, is_final_set,
  designate, one_byte, hiragana_table, katakana_table, Decoder, Round, broke, went_on, raised,
  designation, escape, skip_csi, graphic, left_set, round, decode_loop, decode, start, is_two_byte,
  c1_end,
}

is_some : Option ℕ → Bool
is_some none = false
is_some (some c) = true

is_some-eq : (o : Option ℕ) → is_some o ≡ true → (c : ℕ) × (o ≡ some c)
unfolding is_some
is_some-eq none h = cc
is_some-eq (some c) h = (c, refl)

tables :
    (passes_below 94 (λ k. is_some (get_elem? hiragana_table k)) ≡ true)
    × (passes_below 94 (λ k. is_some (get_elem? katakana_table k)) ≡ true)
unfolding passes_below is_some hiragana_table katakana_table
tables = (refl, refl)

-- The two tables have a character for each code from 0x21 to 0x7E.
one_byte-some : (g b : ℕ) → 0x21 ≤ b → b ≤ 0x7e → (c : ℕ) × (one_byte g b ≡ some c)
unfolding one_byte is_some
one_byte-some g b lo hi = is_some-eq (one_byte g b) (
    ground (
      arith,
      passes_at 94 (λ k. is_some (get_elem? hiragana_table k)) (b - 0x21) tables.0 (omega arith),
      passes_at 94 (λ k. is_some (get_elem? katakana_table k)) (b - 0x21) tables.1 (omega arith),
    ))

-- A read below the length.
read_inside {ℓ} :
    {A : Type ℓ} (bytes : List ℕ) (i : ℕ) (next : ℕ → Option A)
    → i < length bytes
    → read bytes i next ≡ next (get_or bytes i 0)
unfolding read
read_inside bytes i next h = rw (get_elem?-get_or bytes i 0 h, read) refl

-- With its test before it, a read is never out of range.
and_read-cases :
    (bytes : List ℕ) (i : ℕ) (test : ℕ → Bool)
    → (and_read bytes i test ≡ some false)
      ⊎ ((i < length bytes) × (and_read bytes i test ≡ some true))
unfolding and_read
and_read-cases bytes i test = elim (Bool-cases (ltb i (length bytes))) [
  | inr out ↦ inl (rw (out, and_read) refl)
  | inl inside ↦
      let h : i < length bytes = ltb→lt i (length bytes) inside in
      elim (Bool-cases (test (get_or bytes i 0))) [
        | inl passes ↦
            inr (h, rw (inside, read_inside bytes i (λ b. some (test b)) h, passes, and_read) refl)
        | inr fails ↦
            inl (rw (inside, read_inside bytes i (λ b. some (test b)) h, fails, and_read) refl)
      ]
]

skip_csi-ge :
    (bytes : List ℕ) (rounds i : ℕ) → (j : ℕ) × (skip_csi bytes rounds i ≡ some j) × (i ≤ j)
unfolding skip_csi
skip_csi-ge bytes zero i = (i, refl, omega arith)
skip_csi-ge bytes (suc rounds) i =
    elim (and_read-cases bytes i (λ b. not (leb 0x40 b && leb b 0x7e))) [
      | inl e ↦ (i, rw (e, skip_csi) refl, omega arith)
      | inr (inside, e) ↦
          let (j, run, le) = skip_csi-ge bytes rounds (i + 1) in
          (j, rw (e, skip_csi) run, omega arith)
    ]

-- A decoder comes out, and `i` has not gone back.
abbrev GoesOn : ℕ → Option Decoder → Type 0
GoesOn i o = (d : Decoder) × (o ≡ some d) × (i ≤ d.i)

plain_designation-GoesOn :
    (bytes : List ℕ) (k : ℕ) (d : Decoder) → GoesOn d.i (plain_designation bytes k d)
unfolding plain_designation
plain_designation-GoesOn bytes k d =
    if-both (GoesOn d.i) (ltb d.i (length bytes)) _ _
      (λ inside. (_, read_inside bytes d.i _ (ltb→lt d.i (length bytes) inside), omega arith))
      (λ out. (d, refl, omega arith))

designation-GoesOn :
    (bytes : List ℕ) (k set : ℕ) (d : Decoder) → GoesOn d.i (designation bytes k set d)
unfolding designation if_read
designation-GoesOn bytes k set d = elim (and_read-cases bytes d.i (λ b. b == 0x20)) [
  | inl e ↦ rw e (plain_designation-GoesOn bytes k d)
  | inr (inside, e) ↦ (designate k set (record d { i = d.i + 2 }), rw e refl, omega arith)
]

two_byte_designation-GoesOn :
    (bytes : List ℕ) (d : Decoder) → GoesOn d.i (two_byte_designation bytes d)
unfolding two_byte_designation if_read
two_byte_designation-GoesOn bytes d = elim (and_read-cases bytes d.i is_final_set) [
  | inl e ↦ rw e (plain_designation-GoesOn bytes 0 d)
  | inr (inside, e) ↦
      let (d', run, le) =
        designation-GoesOn bytes (get_or bytes d.i 0 - 0x28) 0x101 (record d { i = d.i + 1 }) in
      (d', rw (e, read_inside bytes d.i _ inside) run, omega arith)
]

escape-GoesOn : (bytes : List ℕ) (c : ℕ) (d : Decoder) → GoesOn d.i (escape bytes c d)
unfolding escape
escape-GoesOn bytes c d =
    if-both P (c == 0x6e) _ _ (λ _. (_, refl, omega arith))
      λ _.
        if-both P (c == 0x6f) _ _ (λ _. (_, refl, omega arith))
          λ _.
            if-both P (c == 0x7e) _ _ (λ _. (_, refl, omega arith))
              λ _.
                if-both P (c == 0x7d) _ _ (λ _. (_, refl, omega arith))
                  λ _.
                    if-both P (c == 0x7c) _ _ (λ _. (_, refl, omega arith))
                      λ _.
                        if-both P (is_final_set c) _ _
                          (λ _. designation-GoesOn bytes (c - 0x28) 0x100 d)
                          λ _.
                            if-both P (c == 0x24) _ _ (λ _. two_byte_designation-GoesOn bytes d)
                              (λ _. (d, refl, omega arith))
  where
    P : Option Decoder → Type 0
    P = GoesOn d.i

-- A round that goes on moves on, and none raises.
data Advances (i : ℕ) : Round → Type 0 where
  stops : {d : Decoder} → Advances i (broke d)
  moves : {d : Decoder} → i < d.i → Advances i (went_on d)

module _ (euc : List ℕ → Option (List ℕ)) where
  graphic-Advances :
      (bytes : List ℕ) (gset char : ℕ) (d : Decoder)
      → 0x21 ≤ char
      → char ≤ 0x7e
      → Advances d.i (graphic euc bytes gset char d)
  unfolding graphic
  graphic-Advances bytes gset char d lo hi =
      let (c, e) = one_byte-some gset char lo hi in
      if-both (Advances d.i) (is_two_byte gset) _ _
        (λ _.
          if-both (Advances d.i) (leb (length bytes) (d.i + 1)) _ _ (λ _. stops)
            (λ more.
              let inside : d.i + 1 < length bytes = ground arith in
              rw (read_inside bytes (d.i + 1) _ inside) (moves (omega arith))))
        (λ _. rw e (moves (omega arith)))

  c1_end-gt : (bytes : List ℕ) (b i : ℕ) → (j : ℕ) × (c1_end euc bytes b i ≡ some j) × (i < j)
  c1_end-gt bytes b i =
      if-both (λ (o : Option ℕ). (j : ℕ) × (o ≡ some j) × (i < j)) (b == 0x9b) _ _
        (λ _.
          let (j, run, le) = skip_csi-ge bytes (length bytes - (i + 1)) (i + 1) in
          (j + 1, rw run refl, omega arith))
        (λ _.
          if-both (λ (o : Option ℕ). (j : ℕ) × (o ≡ some j) × (i < j)) (b == 0x9d) _ _
            (λ _. (_, refl, omega arith)) (λ _. (_, refl, omega arith)))

  skipped-Advances :
      (bytes : List ℕ) (b : ℕ) (d : Decoder) → Advances d.i (skipped euc d (c1_end euc bytes b d.i))
  unfolding skipped
  skipped-Advances bytes b d = let (j, run, lt) = c1_end-gt bytes b d.i in rw run (moves lt)

  escaped-Advances :
      (bytes : List ℕ) (d : Decoder)
      → d.i + 1 < length bytes
      → Advances d.i
          (and_on (read bytes (d.i + 1) (λ c. escape bytes c (record d { i = d.i + 2 }))))
  unfolding and_on
  escaped-Advances bytes d inside =
      let (d', run, le) =
        escape-GoesOn bytes (get_or bytes (d.i + 1) 0) (record d { i = d.i + 2 }) in
      rw (read_inside bytes (d.i + 1) (λ c. escape bytes c (record d { i = d.i + 2 })) inside, run)
        (moves (omega arith))

  round-Advances :
      (bytes : List ℕ) (b : ℕ) (d : Decoder) → b < 256 → Advances d.i (round euc bytes b d)
  unfolding round
  round-Advances bytes b d h =
      if-both P (b == 0x1b) _ _
        (λ _.
          if-both P (leb (length bytes) (d.i + 1)) _ _ (λ _. stops)
            (λ more. escaped-Advances bytes d (ground arith)))
        (λ _.
          if-both P (b == 0x0f) _ _ (λ _. moves (omega arith))
            (λ _.
              if-both P (b == 0x0e) _ _ (λ _. moves (omega arith))
                (λ _.
                  if-both P (b == 0x19) _ _ (λ _. moves (omega arith))
                    (λ _.
                      if-both P (b == 0x1d) _ _ (λ _. moves (omega arith))
                        (λ spaces.
                          if-both P (b == 0x20 || b == 0xa0) _ _ (λ _. moves (omega arith))
                            (λ not_space.
                              if-both P (b == 0x0d) _ _ (λ _. moves (omega arith))
                                (λ _.
                                  if-both P (b == 0x16) _ _ (λ _. moves (omega arith))
                                    (λ _.
                                      if-both P (b == 0x1c) _ _ (λ _. moves (omega arith))
                                        (λ _.
                                          if-both P (ltb b 0x20 || (b == 0x7f || b == 0xff)) _ _
                                            (λ _. moves (omega arith))
                                            (λ plain.
                                              if-both P (leb 0x80 b && leb b 0x9f) _ _
                                                (λ _. skipped-Advances bytes b d)
                                                (λ upper.
                                                  if-both P (ltb b 0x80) _ _
                                                    (λ lower.
                                                      let r : (0x21 ≤ b) × (b ≤ 0x7e) =
                                                        ground arith in
                                                      graphic-Advances bytes (left_set euc d) b
                                                        (record d { single = none }) r.0 r.1)
                                                    (λ higher.
                                                      let r : (0x21 ≤ b % 2 ^ 7)
                                                          × (b % 2 ^ 7 ≤ 0x7e) =
                                                        ground arith in
                                                      graphic-Advances bytes (d.g d.gr) (b % 2 ^ 7)
                                                        d r.0 r.1))))))))))))
    where
      P : Round → Type 0
      P = Advances d.i

  get_or-IsByte : (bytes : List ℕ) (i : ℕ) → All IsByte bytes → get_or bytes i 0 < 256
  get_or-IsByte [] i h = omega arith
  get_or-IsByte (b ∷ bs) zero h = h.0
  get_or-IsByte (b ∷ bs) (suc i) h = get_or-IsByte bs i h.1

  -- A text comes out.
  abbrev Comes : ℕ → List ℕ → Decoder → Type 0
  Comes fuel bytes d = (text : List ℕ) × (decode_loop euc fuel bytes d ≡ some text)

  -- The first read of a round.
  pub read_here :
      (bytes : List ℕ) (d : Decoder)
      → ltb d.i (length bytes) ≡ true
      → read bytes d.i (λ b. some (round euc bytes b d))
        ≡ some (round euc bytes (get_or bytes d.i 0) d)
  read_here bytes d inside = read_inside bytes d.i _ (ltb→lt d.i (length bytes) inside)

  after_round :
      (fuel : ℕ) (bytes : List ℕ) (d : Decoder)
      → ((d' : Decoder) → d.i < d'.i → Comes fuel bytes d')
      → ltb d.i (length bytes) ≡ true
      → (r : Round) → round euc bytes (get_or bytes d.i 0) d ≡ r
      → Advances d.i r
      → Comes (suc fuel) bytes d
  unfolding decode_loop
  after_round fuel bytes d rec inside raised e a = elim a [ ]
  after_round fuel bytes d rec inside (broke d') e a =
      (d'.out, rw (inside, read_here bytes d inside, e, decode_loop))
  after_round fuel bytes d rec inside (went_on d') e (moves lt) =
      let (text, run) = rec d' lt in
      (text, rw (inside, read_here bytes d inside, e, decode_loop) run)

  decode_loop-some :
      (fuel : ℕ) (bytes : List ℕ) (d : Decoder)
      → All IsByte bytes
      → length bytes ≤ d.i + fuel
      → Comes fuel bytes d
  unfolding decode_loop
  decode_loop-some zero bytes d hs h = (d.out, ground arith)
  decode_loop-some (suc fuel) bytes d hs h = elim (Bool-cases (ltb d.i (length bytes))) [
    | inr out ↦ (d.out, rw (out, decode_loop))
    | inl inside ↦
        after_round fuel bytes d (λ d' lt. decode_loop-some fuel bytes d' hs (omega arith)) inside
          (round euc bytes (get_or bytes d.i 0) d) refl
          (round-Advances bytes (get_or bytes d.i 0) d (get_or-IsByte bytes d.i hs))
  ]

  -- On every byte string `decode` returns a text: the loop ends, and neither an index into the data
  -- nor one into the kana tables is out of range, whatever the codec of the standard library does.
  pub decode_total :
      (bytes : List ℕ) → All IsByte bytes → (text : List ℕ) × (decode euc bytes ≡ some text)
  unfolding decode
  decode_total bytes h = decode_loop-some (length bytes) bytes start h (omega arith)

-- ===== src/Ts/Crc/Detect.antt =====
-- What a section's CRC of src/recdyud/ts.py is good for: it comes out as 0 behind its own CRC, and
-- a changed byte changes it.
use recdyud.Base.{
  ℕ, zero, suc, ◌+◌, ◌*◌, ◌/◌, ◌%◌, ◌^◌, ◌<◌, ◌≡◌, ◌≢◌, refl, sym, ap, ap₂, ◌∙◌, bit_xor, List, [],
  ◌∷◌, ◌++◌, has_bits, if◌then◌else◌, ◌==◌, ==_iff, IsByte, All, to_bytes4, true, arith,
}
use recdyud.Base.Bits.{
  xor_self, xor_zero, xor_zero_left, xor-lt, xor_fields, xor_injective_left, xor_injective_right,
}
use recdyud.Base.Ranges.{passes_below, passes_at}
use recdyud.Ts.Crc.{polynomial, crc_table, crc_step, crc_loop, crc32_mpeg2}

pub crc_loop-append :
    (xs ys : List ℕ) (crc : ℕ) → crc_loop crc (xs ++ ys) ≡ crc_loop (crc_loop crc xs) ys
unfolding crc_loop
crc_loop-append [] ys crc = refl
crc_loop-append (x ∷ xs) ys crc = crc_loop-append xs ys (crc_step crc x)

crc_table-lt : (i : ℕ) → crc_table i < 2 ^ 32
unfolding crc_table
crc_table-lt i = omega arith

pub crc_step-lt : (crc b : ℕ) → crc_step crc b < 2 ^ 32
unfolding crc_step
crc_step-lt crc b = xor-lt 32 _ _ (omega arith) (crc_table-lt _)

pub crc_loop-lt : (bytes : List ℕ) (crc : ℕ) → crc < 2 ^ 32 → crc_loop crc bytes < 2 ^ 32
unfolding crc_loop
crc_loop-lt [] crc h = h
crc_loop-lt (b ∷ bs) crc h = crc_loop-lt bs (crc_step crc b) (crc_step-lt crc b)

-- The byte that is on top of the register shifts it and adds nothing.
crc_step_top : (crc b : ℕ) → crc / 2 ^ 24 ≡ b → crc_step crc b ≡ crc * 2 ^ 8 % 2 ^ 32
unfolding crc_step crc_table
crc_step_top crc b e = rw (e, xor_self b) (xor_zero (crc * 2 ^ 8 % 2 ^ 32))

crc_loop_self : (c : ℕ) → c < 2 ^ 32 → crc_loop c (to_bytes4 c) ≡ 0
unfolding crc_loop
crc_loop_self c h = rw (crc_step_top c (c / 2 ^ 24) refl) (
    rw (crc_step_top (c * 2 ^ 8 % 2 ^ 32) (c / 2 ^ 16 % 2 ^ 8) (omega arith)) (
      rw (crc_step_top (c * 2 ^ 8 % 2 ^ 32 * 2 ^ 8 % 2 ^ 32) (c / 2 ^ 8 % 2 ^ 8) (omega arith)) (
        rw
          (crc_step_top (c * 2 ^ 8 % 2 ^ 32 * 2 ^ 8 % 2 ^ 32 * 2 ^ 8 % 2 ^ 32) (c % 2 ^ 8)
            (omega arith))
          (omega arith))))

-- Any data followed by its own CRC, big-endian, has the CRC 0: what `_drain` asks of a section.
pub crc32_mpeg2-append : (bytes : List ℕ) → crc32_mpeg2 (bytes ++ to_bytes4 (crc32_mpeg2 bytes)) ≡ 0
unfolding crc32_mpeg2
crc32_mpeg2-append bytes =
    crc_loop-append bytes (to_bytes4 (crc32_mpeg2 bytes)) 0xffff_ffff
    ∙ crc_loop_self (crc_loop 0xffff_ffff bytes) (crc_loop-lt bytes 0xffff_ffff (omega arith))

-- A round of the table's making, undone: the polynomial is odd, so the lowest bit tells the case.
undo_round : ℕ → ℕ
undo_round c = if has_bits c 0 1 then bit_xor c polynomial / 2 + 2 ^ 31 else c / 2

undo_rounds : ℕ → ℕ → ℕ
unfolding undo_round
undo_rounds zero c = c
undo_rounds (suc n) c = undo_rounds n (undo_round c)

-- The index of a table entry, from the entry's lowest byte.
index_of : ℕ → ℕ
unfolding undo_rounds
index_of low = undo_rounds 8 low / 2 ^ 24

index_table : passes_below 256 (λ i. index_of (crc_table i % 2 ^ 8) == i) ≡ true
unfolding passes_below index_of crc_table
index_table = refl

index_of-crc_table : (i : ℕ) → i < 256 → index_of (crc_table i % 2 ^ 8) ≡ i
index_of-crc_table i h = (==_iff _ i).0 (passes_at 256 _ i index_table h)

-- A shifted register keeps the lowest byte of what is added to it.
xor_low : (a b : ℕ) → a % 2 ^ 8 ≡ 0 → bit_xor a b % 2 ^ 8 ≡ b % 2 ^ 8
xor_low a b h =
    let ea : a ≡ a / 2 ^ 8 * 2 ^ 8 + 0 = omega arith in
    let eb : b ≡ b / 2 ^ 8 * 2 ^ 8 + b % 2 ^ 8 = omega arith in
    let e : bit_xor a b ≡ bit_xor (a / 2 ^ 8) (b / 2 ^ 8) * 2 ^ 8 + bit_xor 0 (b % 2 ^ 8) =
      ap₂ bit_xor ea eb
      ∙ xor_fields 8 (a / 2 ^ 8) (b / 2 ^ 8) 0 (b % 2 ^ 8) (omega arith) (omega arith) in
    omega (arith, e, xor_zero_left (b % 2 ^ 8))

table_index : ℕ → ℕ → ℕ
table_index crc b = bit_xor (crc / 2 ^ 24) b % 2 ^ 8

-- The lowest byte of the new register is that of the table entry.
crc_step-low : (crc b : ℕ) → crc_step crc b % 2 ^ 8 ≡ crc_table (table_index crc b) % 2 ^ 8
unfolding crc_step table_index
crc_step-low crc b =
    xor_low (crc * 2 ^ 8 % 2 ^ 32) (crc_table (bit_xor (crc / 2 ^ 24) b % 2 ^ 8)) (omega arith)

table_index-lt : (crc b : ℕ) → table_index crc b < 256
unfolding table_index
table_index-lt crc b = omega arith

-- Equal registers after a byte come from the same table entry.
same_index : (c d b b' : ℕ) → crc_step c b ≡ crc_step d b' → table_index c b ≡ table_index d b'
same_index c d b b' e =
    sym (index_of-crc_table (table_index c b) (table_index-lt c b))
    ∙ ap index_of (sym (crc_step-low c b) ∙ ap (λ t. t % 2 ^ 8) e ∙ crc_step-low d b')
    ∙ index_of-crc_table (table_index d b') (table_index-lt d b')

-- On bytes the index is not cut.
table_index-byte : (c b : ℕ) → c < 2 ^ 32 → b < 256 → table_index c b ≡ bit_xor (c / 2 ^ 24) b
unfolding table_index
table_index-byte c b hc hb = omega (arith, xor-lt 8 (c / 2 ^ 24) b (omega arith) hb)

crc_step-injective_byte :
    (c b b' : ℕ) → c < 2 ^ 32 → b < 256 → b' < 256 → crc_step c b ≡ crc_step c b' → b ≡ b'
crc_step-injective_byte c b b' hc hb hb' e =
    xor_injective_right b b' (c / 2 ^ 24)
      (sym (table_index-byte c b hc hb) ∙ same_index c c b b' e ∙ table_index-byte c b' hc hb')

crc_step-injective :
    (c d b : ℕ) → c < 2 ^ 32 → d < 2 ^ 32 → b < 256 → crc_step c b ≡ crc_step d b → c ≡ d
unfolding crc_step table_index
crc_step-injective c d b hc hd hb e = omega (arith, high, low)
  where
    index : table_index c b ≡ table_index d b
    index = same_index c d b b e

    high : c / 2 ^ 24 ≡ d / 2 ^ 24
    high =
        xor_injective_left (c / 2 ^ 24) (d / 2 ^ 24) b
          (sym (table_index-byte c b hc hb) ∙ index ∙ table_index-byte d b hd hb)

    low : c * 2 ^ 8 % 2 ^ 32 ≡ d * 2 ^ 8 % 2 ^ 32
    low =
        xor_injective_left (c * 2 ^ 8 % 2 ^ 32) (d * 2 ^ 8 % 2 ^ 32) (crc_table (table_index c b))
          (e ∙ ap (λ t. bit_xor (d * 2 ^ 8 % 2 ^ 32) (crc_table t)) (sym index))

crc_loop-injective :
    (bytes : List ℕ) (c d : ℕ)
    → All IsByte bytes
    → c < 2 ^ 32
    → d < 2 ^ 32
    → crc_loop c bytes ≡ crc_loop d bytes
    → c ≡ d
unfolding crc_loop
crc_loop-injective [] c d hb hc hd e = e
crc_loop-injective (b ∷ bs) c d (hb, hbs) hc hd e =
    crc_step-injective c d b hc hd hb (
      crc_loop-injective bs (crc_step c b) (crc_step d b) hbs (crc_step-lt c b) (crc_step-lt d b) e)

-- Two strings that differ in exactly one place, where each has a byte, and with the same bytes after
-- it, have different CRCs.
pub crc32_mpeg2-detects :
    (front back : List ℕ) (b b' : ℕ)
    → All IsByte back
    → b < 256
    → b' < 256
    → b ≢ b'
    → crc32_mpeg2 (front ++ (b ∷ back)) ≢ crc32_mpeg2 (front ++ (b' ∷ back))
unfolding crc32_mpeg2
crc32_mpeg2-detects front back b b' hs hb hb' ne e = ne (
    crc_step-injective_byte c b b' hc hb hb' (
      crc_loop-injective back (crc_step c b) (crc_step c b') hs (crc_step-lt c b) (crc_step-lt c b')
        (sym (crc_loop-append front (b ∷ back) 0xffff_ffff)
          ∙ e
          ∙ crc_loop-append front (b' ∷ back) 0xffff_ffff)))
  where
    c : ℕ
    c = crc_loop 0xffff_ffff front

    hc : c < 2 ^ 32
    hc = crc_loop-lt front 0xffff_ffff (omega arith)

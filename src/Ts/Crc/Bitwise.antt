-- ===== src/Ts/Crc/Bitwise.antt =====
-- The CRC of src/recdyud/ts.py goes by a table. Here it is compared with the same CRC bit by bit.
use recdyud.Base.{
  ℕ, zero, suc, ◌+◌, ◌*◌, ◌/◌, ◌%◌, ◌^◌, ◌<◌, ◌≡◌, refl, sym, ap, ap₂, ◌∙◌, bit_xor, List, [], ◌∷◌,
  has_bits, field, if◌then◌else◌, ◌==◌, ==_iff, IsByte, All, true, arith,
}
use recdyud.Base.Bits.{xor_zero, xor_zero_left, xor-lt, xor_fields, xor_swap, xor_comm}
use recdyud.Base.Ranges.{passes_below, passes_at}
use recdyud.Ts.Crc.{polynomial, crc_table, crc_step, crc_loop, crc32_mpeg2}
use recdyud.Ts.Crc.Detect.{crc_step-lt}

-- One shift of the 32-bit register.
pub bit_round : ℕ → ℕ
bit_round c = bit_xor (c * 2 % 2 ^ 32) (if has_bits c 31 1 then polynomial else 0)

pub bit_rounds : ℕ → ℕ → ℕ
bit_rounds zero c = c
bit_rounds (suc n) c = bit_rounds n (bit_round c)

-- A byte enters at the top of the register, and eight shifts follow.
pub bitwise_crc : ℕ → List ℕ → ℕ
bitwise_crc crc [] = crc
bitwise_crc crc (b ∷ bs) = bitwise_crc (bit_rounds 8 (bit_xor crc (b * 2 ^ 24))) bs

bit_round-lt : (c : ℕ) → bit_round c < 2 ^ 32
unfolding bit_round
bit_round-lt c = xor-lt 32 _ _ (omega arith) (ground arith)

-- What the top bit adds.
feedback : ℕ → ℕ
feedback t = if t == 0 then 0 else polynomial

feedback-xor :
    (a b : ℕ) → a < 2 → b < 2 → feedback (bit_xor a b) ≡ bit_xor (feedback a) (feedback b)
unfolding feedback
feedback-xor zero zero ha hb = refl
feedback-xor zero (suc zero) ha hb = refl
feedback-xor (suc zero) zero ha hb = refl
feedback-xor (suc zero) (suc zero) ha hb = refl
feedback-xor (suc (suc a)) b ha hb = absurd (omega arith)
feedback-xor a (suc (suc b)) ha hb = absurd (omega arith)

bit_round-fields :
    (a r : ℕ) → a < 2 → r < 2 ^ 31 → bit_round (a * 2 ^ 31 + r) ≡ bit_xor (r * 2) (feedback a)
unfolding bit_round feedback
bit_round-fields a r ha hr =
    let e : (a * 2 ^ 31 + r) * 2 % 2 ^ 32 ≡ r * 2 = omega arith in
    let e' : field (a * 2 ^ 31 + r) 31 1 ≡ a = omega arith in
    rw (e, e') (ap (bit_xor (r * 2)) (ground arith))

double-xor : (r s : ℕ) → bit_xor (r * 2) (s * 2) ≡ bit_xor r s * 2
double-xor r s =
    let e : (t : ℕ) → t * 2 ^ 1 + 0 ≡ t * 2 = λ t. omega arith in
    rw (e (bit_xor r s)) at
      (rw (e r, e s, xor_zero) at (xor_fields 1 r s 0 0 (omega arith) (omega arith)))

-- A shift commutes with exclusive or.
bit_round-xor :
    (x y : ℕ)
    → x < 2 ^ 32
    → y < 2 ^ 32
    → bit_round (bit_xor x y) ≡ bit_xor (bit_round x) (bit_round y)
bit_round-xor x y hx hy =
    ap bit_round (ap₂ bit_xor ex ey ∙ xor_fields 31 a b r s (omega arith) (omega arith))
    ∙ bit_round-fields (bit_xor a b) (bit_xor r s) (xor-lt 1 a b (omega arith) (omega arith))
        (xor-lt 31 r s (omega arith) (omega arith))
    ∙ ap₂ bit_xor (sym (double-xor r s)) (feedback-xor a b (omega arith) (omega arith))
    ∙ xor_swap (r * 2) (s * 2) (feedback a) (feedback b)
    ∙ sym (
        ap₂ bit_xor (ap bit_round ex ∙ bit_round-fields a r (omega arith) (omega arith))
          (ap bit_round ey ∙ bit_round-fields b s (omega arith) (omega arith)))
  where
    a : ℕ
    a = x / 2 ^ 31

    r : ℕ
    r = x % 2 ^ 31

    b : ℕ
    b = y / 2 ^ 31

    s : ℕ
    s = y % 2 ^ 31

    ex : x ≡ a * 2 ^ 31 + r
    ex = omega arith

    ey : y ≡ b * 2 ^ 31 + s
    ey = omega arith

bit_rounds-xor :
    (n x y : ℕ)
    → x < 2 ^ 32
    → y < 2 ^ 32
    → bit_rounds n (bit_xor x y) ≡ bit_xor (bit_rounds n x) (bit_rounds n y)
unfolding bit_rounds
bit_rounds-xor zero x y hx hy = refl
bit_rounds-xor (suc n) x y hx hy =
    ap (bit_rounds n) (bit_round-xor x y hx hy)
    ∙ bit_rounds-xor n (bit_round x) (bit_round y) (bit_round-lt x) (bit_round-lt y)

bit_round-small : (c : ℕ) → c < 2 ^ 31 → bit_round c ≡ c * 2
unfolding bit_round
bit_round-small c h =
    let e : field c 31 1 ≡ 0 = omega arith in
    let e' : c * 2 % 2 ^ 32 ≡ c * 2 = omega arith in rw (e, e') (xor_zero (c * 2))

-- Eight shifts of a register whose top byte is 0.
bit_rounds-small : (c : ℕ) → c < 2 ^ 24 → bit_rounds 8 c ≡ c * 2 ^ 8
unfolding bit_rounds
bit_rounds-small c h = rw (bit_round-small c (omega arith)) (
    rw (bit_round-small (c * 2) (omega arith)) (
      rw (bit_round-small (c * 2 * 2) (omega arith)) (
        rw (bit_round-small (c * 2 * 2 * 2) (omega arith)) (
          rw (bit_round-small (c * 2 * 2 * 2 * 2) (omega arith)) (
            rw (bit_round-small (c * 2 * 2 * 2 * 2 * 2) (omega arith)) (
              rw (bit_round-small (c * 2 * 2 * 2 * 2 * 2 * 2) (omega arith)) (
                rw (bit_round-small (c * 2 * 2 * 2 * 2 * 2 * 2 * 2) (omega arith))
                  (omega arith))))))))

-- The table holds what eight shifts make of its index.
entries : passes_below 256 (λ i. bit_rounds 8 (i * 2 ^ 24) == crc_table i) ≡ true
unfolding passes_below bit_rounds bit_round crc_table
entries = refl

bit_rounds-crc_table : (i : ℕ) → i < 256 → bit_rounds 8 (i * 2 ^ 24) ≡ crc_table i
bit_rounds-crc_table i h = (==_iff _ (crc_table i)).0 (passes_at 256 _ i entries h)

crc_step-bitwise :
    (crc b : ℕ) → crc < 2 ^ 32 → b < 256 → bit_rounds 8 (bit_xor crc (b * 2 ^ 24)) ≡ crc_step crc b
unfolding crc_step
crc_step-bitwise crc b hc hb =
    ap (bit_rounds 8) split
    ∙ bit_rounds-xor 8 (i * 2 ^ 24) lo (omega (arith, hi)) (omega arith)
    ∙ ap₂ bit_xor (bit_rounds-crc_table i hi) (bit_rounds-small lo (omega arith))
    ∙ xor_comm (crc_table i) (lo * 2 ^ 8)
    ∙ ap₂ bit_xor (omega arith) (ap crc_table (omega (arith, hi)))
  where
    i : ℕ
    i = bit_xor (crc / 2 ^ 24) b

    lo : ℕ
    lo = crc % 2 ^ 24

    hi : i < 256
    hi = xor-lt 8 (crc / 2 ^ 24) b (omega arith) hb

    ec : crc ≡ crc / 2 ^ 24 * 2 ^ 24 + lo
    ec = omega arith

    eb : b * 2 ^ 24 ≡ b * 2 ^ 24 + 0
    eb = omega arith

    el : lo ≡ 0 * 2 ^ 24 + lo
    el = omega arith

    ei : i * 2 ^ 24 ≡ i * 2 ^ 24 + 0
    ei = omega arith

    split : bit_xor crc (b * 2 ^ 24) ≡ bit_xor (i * 2 ^ 24) lo
    split =
        ap₂ bit_xor ec eb
        ∙ xor_fields 24 (crc / 2 ^ 24) b lo 0 (omega arith) (omega arith)
        ∙ ap₂ (λ s t. s * 2 ^ 24 + t) (sym (xor_zero i)) (xor_zero lo ∙ sym (xor_zero_left lo))
        ∙ sym (xor_fields 24 i 0 0 lo (omega arith) (omega arith))
        ∙ sym (ap₂ bit_xor ei el)

bitwise_crc-crc_loop :
    (bytes : List ℕ) (crc : ℕ)
    → All IsByte bytes
    → crc < 2 ^ 32
    → crc_loop crc bytes ≡ bitwise_crc crc bytes
unfolding crc_loop bitwise_crc
bitwise_crc-crc_loop [] crc hs hc = refl
bitwise_crc-crc_loop (b ∷ bs) crc (hb, hs) hc =
    rw (crc_step-bitwise crc b hc hb)
      (bitwise_crc-crc_loop bs (crc_step crc b) hs (crc_step-lt crc b))

-- On bytes, the CRC by the table is the CRC-32/MPEG-2 bit by bit: polynomial 0x04C11DB7, initial
-- value all ones, highest bit first, nothing reflected and nothing added at the end.
pub crc32_mpeg2-bitwise :
    (bytes : List ℕ) → All IsByte bytes → crc32_mpeg2 bytes ≡ bitwise_crc 0xffff_ffff bytes
unfolding crc32_mpeg2
crc32_mpeg2-bitwise bytes h = bitwise_crc-crc_loop bytes 0xffff_ffff h (omega arith)

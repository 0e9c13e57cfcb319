-- ===== src/Protocol/Block.antt =====
-- `t1_block` of src/recdyud/protocol.py: the T=1 block in its vendor command.
use recdyud.Base.{
  ℕ, ◌+◌, ◌-◌, ◌<◌, ◌≤◌, ◌≡◌, refl, ap, ◌∙◌, bit_xor, true, false, List, [], ◌∷◌, ◌++◌, length,
  get_or, take, drop, slice, ltb, int_from_bytes, int_from_bytes-to_bytes2, to_bytes2, arith,
  dec_lt, inl, inr, ◌⊎◌, length-append, take-append,
}
use recdyud.Base.Bits.{xor_self}
use recdyud.Protocol.{ok, raise, value_error, xor_bytes, t1_block}

xor_bytes-append :
    (xs ys : List ℕ) (lrc : ℕ) → xor_bytes lrc (xs ++ ys) ≡ xor_bytes (xor_bytes lrc xs) ys
unfolding xor_bytes
xor_bytes-append [] ys lrc = refl
xor_bytes-append (x ∷ xs) ys lrc = xor_bytes-append xs ys (bit_xor lrc x)

-- What the receiver of a block checks and reads: both lengths, the node address and the sequence
-- byte, the APDU, and that all bytes of the block add up to 0 by exclusive or.
pub record IsBlock (apdu : List ℕ) (pcb : ℕ) (command : List ℕ) : Type 0 where
  pub size : length command ≡ length apdu + 13
  pub fits : length command ≤ 128
  pub outer_length : get_or command 3 0 + 4 ≡ length command
  pub inner_length : int_from_bytes (slice command 7 9) ≡ length (drop 9 command)
  pub sequence : get_or command 10 0 ≡ pcb
  pub information : slice command 12 (12 + get_or command 11 0) ≡ apdu
  pub check : xor_bytes 0 (drop 9 command) ≡ 0

pub t1_block_lem :
    (apdu : List ℕ) (pcb : ℕ)
    → (length apdu ≤ 115
        → (command : List ℕ) × (t1_block apdu pcb ≡ ok command) × IsBlock apdu pcb command)
      × (115 < length apdu → t1_block apdu pcb ≡ raise value_error)
unfolding t1_block
t1_block_lem apdu pcb = (
  λ h.
      let e : ltb 115 (length apdu) ≡ false = ground arith in
      (
        command,
        rw (e, t1_block),
        record {
          size = omega (arith, sized);
          fits = omega (arith, sized);
          outer_length = omega (arith, sized);
          inner_length =
              int_from_bytes-to_bytes2 (length apdu + 4) (omega arith) ∙ omega (arith, sized);
          sequence = refl;
          information = rest;
          check = xor_bytes-append block (lrc ∷ []) 0 ∙ xor_self lrc;
        },
      ),
  λ h. let e : ltb 115 (length apdu) ≡ true = ground arith in rw (e, t1_block),
)
  where
    block : List ℕ
    block = 0x00 ∷ pcb ∷ length apdu ∷ apdu

    lrc : ℕ
    lrc = xor_bytes 0 block

    sized : length (apdu ++ (lrc ∷ [])) ≡ length apdu + 1
    sized = length-append apdu (lrc ∷ [])

    command : List ℕ
    command =
        (0x1f ∷ 0xf0 ∷ 0xf0 ∷ (length apdu + 9) ∷ 0x02 ∷ 0x00 ∷ 0x31 ∷ [])
        ++ (to_bytes2 (length apdu + 4) ++ (block ++ (lrc ∷ [])))

    same : 12 + length apdu - 12 ≡ length apdu
    same = omega arith

    rest : take (12 + length apdu - 12) (apdu ++ (lrc ∷ [])) ≡ apdu
    rest =
        ap (λ m. take m (apdu ++ (lrc ∷ []))) same ∙ take-append (length apdu) apdu (lrc ∷ []) refl

-- An APDU of at most 115 bytes becomes a command of at most 128, which `encode` accepts, and whose
-- lengths, sequence byte, APDU and check byte are as a T=1 reader wants them. A longer APDU is a
-- ValueError.
pub t1_block-IsBlock :
    (apdu : List ℕ) (pcb : ℕ)
    → ((length apdu ≤ 115)
        × (command : List ℕ) × (t1_block apdu pcb ≡ ok command)
        × IsBlock apdu pcb command)
      ⊎ ((115 < length apdu) × (t1_block apdu pcb ≡ raise value_error))
t1_block-IsBlock apdu pcb = elim (dec_lt 115 (length apdu)) [
  | yes h ↦ inr (h, (t1_block_lem apdu pcb).1 h)
  | no h ↦
      let (command, run, v) = (t1_block_lem apdu pcb).0 (omega arith) in
      inl (omega arith, command, run, v)
]

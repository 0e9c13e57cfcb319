-- ===== src/Bcas/Card.antt =====
-- What src/recdyud/bcas.py promises of a card's answers and of its counters.
use recdyud.Base.{
  ℕ, ◌+◌, ◌*◌, ◌≤◌, ◌<◌, ◌≡◌, refl, ap, sym, ◌∙◌, ◌⊎◌, inl, inr, true, false, Option, none, some,
  List, [], ◌∷◌, ◌++◌, length, drop, slice, ltb, if-both, arith, dec_lt, All, map, join,
  length-append, length-take, length-drop, get_or-append_ge, slice-append, int_from_bytes,
}
use recdyud.Bcas.{
  Transport, Error, card_error, transport_error, Result, ok, raise, CardId, ids_loop,
  parse_id_response, BCasCard, ecm_header, ecm_answer, process_ecm,
}
use recdyud.Protocol.{t1_block}
use recdyud.Protocol
use recdyud.Protocol.Block.{IsBlock, t1_block_lem}
use mathlib.Core.List.{append_assoc, append-nil}

-- The two counters of ECMs, one behind the other.
pub record Counted {T : Type 0} (c c' : BCasCard T) (failed : ℕ) : Type 0 where
  pub count : c'.ecm_count ≡ c.ecm_count + 1
  pub errors : c'.ecm_errors ≡ c.ecm_errors + failed

ltb→le : (n m : ℕ) → ltb m n ≡ false → n ≤ m
ltb→le n m h = ground arith

module _ {T : Type 0} where
  pub data EcmSpec (c c' : BCasCard T) : Result (List ℕ × ℕ) → Type 0 where
    answered :
        (key : List ℕ) (code : ℕ) → length key ≡ 16 → Counted c c' 0 → EcmSpec c c' (ok (key, code))
    failed : (e : Error) → Counted c c' 1 → EcmSpec c c' (raise e)

  ecm_answer-EcmSpec :
      (c c' : BCasCard T) (r : Option (List ℕ))
      → c'.ecm_count ≡ c.ecm_count + 1
      → c'.ecm_errors ≡ c.ecm_errors
      → EcmSpec c (ecm_answer c' r).0 (ecm_answer c' r).1
  unfolding ecm_answer
  ecm_answer-EcmSpec c c' none e f =
      failed transport_error (record { count = e; errors = ap (λ n. n + 1) f })
  ecm_answer-EcmSpec c c' (some r) e f =
      if-both {A = BCasCard T × Result (List ℕ × ℕ)} (λ p. EcmSpec c p.0 p.1) (ltb (length r) 25) _
        _ (λ short. failed card_error (record { count = e; errors = ap (λ n. n + 1) f }))
        (λ long.
          answered (slice r 6 22) _
            (omega (arith, length-take 16 (drop 6 r), length-drop 6 r, ltb→le 25 (length r) long))
            (record { count = e; errors = omega (arith, f) }))

ecm_answer-transport :
    {T : Type 0} (c : BCasCard T) (r : Option (List ℕ)) → (ecm_answer c r).0.transport ≡ c.transport
unfolding ecm_answer
ecm_answer-transport c none = refl
ecm_answer-transport c (some r) =
    if-both {A = BCasCard _ × Result (List ℕ × ℕ)} (λ p. p.0.transport ≡ c.transport)
      (ltb (length r) 25) _ _ (λ h. refl) (λ h. refl)

-- One entry of the card's answer: two bytes, the id in six, the check code in two.
pub record Entry : Type 0 where
  pub head : List ℕ
  pub id : List ℕ
  pub code : List ℕ

pub record IsEntry (e : Entry) : Type 0 where
  pub head : length e.head ≡ 2
  pub id : length e.id ≡ 6
  pub code : length e.code ≡ 2

unfoldable pub bytes_of : Entry → List ℕ
bytes_of e = e.head ++ (e.id ++ e.code)

pub card_id_of : Entry → CardId
card_id_of e = record { id48 = int_from_bytes e.id; check_code = int_from_bytes e.code }

module _ (pre rest : List ℕ) (e : Entry) (p : ℕ) (before : length pre ≡ p)
    (is_entry : IsEntry e) where
  abbrev response : List ℕ
  response = pre ++ (bytes_of e ++ rest)

  to_id : response ≡ (pre ++ e.head) ++ (e.id ++ (e.code ++ rest))
  unfolding bytes_of
  to_id =
      ap (◌++◌ pre) (
        append_assoc e.head (e.id ++ e.code) rest
        ∙ ap (◌++◌ (e.head)) (append_assoc e.id e.code rest))
      ∙ sym (append_assoc pre e.head _)

  entry_id : slice response (p + 2) (p + 8) ≡ e.id
  entry_id =
      ap (λ xs. slice xs (p + 2) (p + 8)) to_id
      ∙ slice-append (pre ++ e.head) e.id (e.code ++ rest) (p + 2) (p + 8)
          (omega (arith, length-append pre e.head, before, is_entry.head))
          (omega (arith, is_entry.id))

  entry_code : slice response (p + 8) (p + 10) ≡ e.code
  entry_code =
      ap (λ xs. slice xs (p + 8) (p + 10))
        (to_id ∙ sym (append_assoc (pre ++ e.head) e.id (e.code ++ rest)))
      ∙ slice-append ((pre ++ e.head) ++ e.id) e.code rest (p + 8) (p + 10)
          (omega (
            arith,
            length-append (pre ++ e.head) e.id,
            length-append pre e.head,
            before,
            is_entry.head,
            is_entry.id,
          ))
          (omega (arith, is_entry.code))

  entry_length : length (bytes_of e) ≡ 10
  unfolding bytes_of
  entry_length = omega (
    arith,
    length-append e.head (e.id ++ e.code),
    length-append e.id e.code,
    is_entry.head,
    is_entry.id,
    is_entry.code,
  )

ids_loop-entries :
    (es : List Entry) (pre rest : List ℕ) (i : ℕ) (ids : List CardId)
    → All IsEntry es
    → length pre ≡ 7 + i * 10
    → ids_loop (length es) (pre ++ (join (map bytes_of es) ++ rest)) i ids
      ≡ ok (ids ++ map card_id_of es)
unfolding ids_loop card_id_of
ids_loop-entries [] pre rest i ids h before = ap ok (sym (append-nil ids))
ids_loop-entries (e ∷ es) pre rest i ids (is_entry, h) before =
    ap (λ xs. ids_loop (length (e ∷ es)) (pre ++ xs) i ids)
      (append_assoc (bytes_of e) (join (map bytes_of es)) rest)
    ∙ rw
        (
          enough,
          entry_id pre tail e (7 + i * 10) before is_entry,
          entry_code pre tail e (7 + i * 10) before is_entry,
          ← append_assoc pre (bytes_of e) tail,
        )
        (ids_loop-entries es (pre ++ bytes_of e) rest (i + 1) (ids ++ (card_id_of e ∷ [])) h (
            omega (
              arith,
              length-append pre (bytes_of e),
              entry_length pre tail e (7 + i * 10) before is_entry,
              before,
            ))
          ∙ ap ok (append_assoc ids (card_id_of e ∷ []) (map card_id_of es)))
  where
    tail : List ℕ
    tail = join (map bytes_of es) ++ rest

    enough : ltb (length (pre ++ (bytes_of e ++ tail))) (7 + i * 10 + 10) ≡ false
    enough = ground (
      arith,
      length-append pre (bytes_of e ++ tail),
      length-append (bytes_of e) tail,
      entry_length pre tail e (7 + i * 10) before is_entry,
    )

length-entries :
    (es : List Entry) → All IsEntry es → length (join (map bytes_of es)) ≡ length es * 10
length-entries [] h = refl
length-entries (e ∷ es) (is_entry, h) = omega (
  arith,
  length-append (bytes_of e) (join (map bytes_of es)),
  entry_length [] [] e 0 refl is_entry,
  length-entries es h,
)

-- A card's answer with its count and that many entries of ten bytes, of at least 19 bytes in all,
-- gives exactly the ids and check codes of these entries, in order.
pub parse_id_response-entries :
    (head : List ℕ) (es : List Entry) (rest : List ℕ)
    → length head ≡ 6
    → All IsEntry es
    → 12 ≤ length es * 10 + length rest
    → parse_id_response (head ++ (length es ∷ (join (map bytes_of es) ++ rest)))
      ≡ ok (map card_id_of es)
unfolding parse_id_response
parse_id_response-entries head es rest sized h long =
    rw (enough, get_or-append_ge head (length es ∷ tail) 6 0 0 (omega (arith, sized)))
      (ap (λ xs. ids_loop (length es) xs 0 []) (sym (append_assoc head (length es ∷ []) tail))
        ∙ ids_loop-entries es (head ++ (length es ∷ [])) rest 0 [] h
            (omega (arith, length-append head (length es ∷ []), sized)))
  where
    tail : List ℕ
    tail = join (map bytes_of es) ++ rest

    enough : ltb (length (head ++ (length es ∷ tail))) 19 ≡ false
    enough = ground (
      arith,
      length-append head (length es ∷ tail),
      length-append (join (map bytes_of es)) rest,
      length-entries es h,
    )

process_ecm_lem :
    {T : Type 0} (t : Transport T) (c : BCasCard T) (ecm : List ℕ) (pcb : ℕ)
    → (length ecm ≤ 109
        → EcmSpec c (process_ecm t c ecm).0 (process_ecm t c ecm).1
          × (let apdu = ecm_header ++ (length ecm ∷ (ecm ++ (0 ∷ []))) in
              ((process_ecm t c ecm).0.transport ≡ (t.bcas_transmit c.transport apdu).0)
              × ((command : List ℕ) × (t1_block apdu pcb ≡ Protocol.ok command)
                  × IsBlock apdu pcb command)))
      × (109 < length ecm → process_ecm t c ecm ≡ (c, raise card_error))
unfolding process_ecm
process_ecm_lem t c ecm pcb = (
  λ h.
      let short : ltb 109 (length ecm) ≡ false = ground arith in
      let apdu = ecm_header ++ (length ecm ∷ (ecm ++ (0 ∷ []))) in
      (
        rw short (ecm_answer-EcmSpec c _ ((t.bcas_transmit c.transport apdu).1) refl refl),
        (
          rw short (ecm_answer-transport _ ((t.bcas_transmit c.transport apdu).1)),
          (t1_block_lem apdu pcb).0 (omega (arith, length-append ecm (0 ∷ []))),
        ),
      ),
  λ h. let long : ltb 109 (length ecm) ≡ true = ground arith in rw (long, process_ecm),
)

-- An ECM of at most 109 bytes is sent, and its APDU fits a T=1 block of the tuner; the card is
-- asked once, every failure is counted once, and an answer gives a key of 16 bytes. A longer ECM
-- is a CardError, and nothing is sent or counted.
pub process_ecm-EcmSpec :
    {T : Type 0} (t : Transport T) (c : BCasCard T) (ecm : List ℕ) (pcb : ℕ)
    → ((length ecm ≤ 109)
        × EcmSpec c (process_ecm t c ecm).0 (process_ecm t c ecm).1
        × (let apdu = ecm_header ++ (length ecm ∷ (ecm ++ (0 ∷ []))) in
            ((process_ecm t c ecm).0.transport ≡ (t.bcas_transmit c.transport apdu).0)
            × ((command : List ℕ) × (t1_block apdu pcb ≡ Protocol.ok command)
                × IsBlock apdu pcb command)))
      ⊎ ((109 < length ecm) × (process_ecm t c ecm ≡ (c, raise card_error)))
process_ecm-EcmSpec t c ecm pcb = elim (dec_lt 109 (length ecm)) [
  | yes h ↦ inr (h, (process_ecm_lem t c ecm pcb).1 h)
  | no h ↦
      let (v, asked) = (process_ecm_lem t c ecm pcb).0 (omega arith) in inl (omega arith, v, asked)
]

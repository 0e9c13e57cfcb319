-- ===== src/Ts/Section/Reassembly.antt =====
-- `SectionAssembler` of src/recdyud/ts.py puts together a section that was cut into packets.
use recdyud.Base.{
  ℕ, ◌+◌, ◌-◌, if◌then◌else◌, ◌%◌, ◌<◌, ◌≡◌, ◌≢◌, Option, none, leb, Bool-cases, ==_iff, refl, ap,
  sym, ◌∙◌, inl, inr, true, false, some, List, [], ◌∷◌, ◌++◌, length, get_or, drop, ◌==◌, field,
  has_bits, if-both, arith, length-append, length-drop, get_or-append_lt, dec_lt,
}
use recdyud.Ts.{packet_size}
use recdyud.Ts.Section.{
  payload_at, SectionAssembler, section_length, starts_stuffing, drain, is_duplicate, finish_old,
  push_payload, take_cc, push, push_all,
}
use recdyud.Ts.Section.Drain.{IsSection, Settled, drain_loop_waits, drain-sections}
use recdyud.Ts.Section.Push.{IsSettled, take_cc-cc, finish_old-cc, take_cc-IsSettled}
use mathlib.Core.List.{append-nil, append_assoc}

-- Where the payload begins: after the header of four bytes, or after the adaptation field, whose first
-- byte is the number of its others.
abbrev pub body_at : List ℕ → ℕ
body_at pkt = if has_bits (get_or pkt 3 0) 5 1 then 5 + get_or pkt 4 0 else 4

-- A packet with no error and a payload, and with this counter.
pub record Carries (cc : ℕ) (pkt : List ℕ) : Type 0 where
  pub size : length pkt ≡ 188
  pub no_error : has_bits (get_or pkt 1 0) 7 1 ≡ false
  pub payload : has_bits (get_or pkt 3 0) 4 1 ≡ true
  pub inside : body_at pkt < 188
  pub counter : field (get_or pkt 3 0) 0 4 ≡ cc

-- The packet in which a section begins, with a pointer of 0.
pub record Starts (cc : ℕ) (pkt : List ℕ) : Type 0 where
  pub carries : Carries cc pkt
  pub unit_start : has_bits (get_or pkt 1 0) 6 1 ≡ true
  pub pointer : get_or pkt (body_at pkt) 0 ≡ 0

-- Packets that go on with it, with consecutive counters after `cc`.
abbrev pub Continues : ℕ → List (List ℕ) → Type 0
Continues cc [] = Unit {0}
Continues cc (pkt ∷ pkts) =
    Carries ((cc + 1) % 16) pkt
    × (has_bits (get_or pkt 1 0) 6 1 ≡ false)
    × Continues ((cc + 1) % 16) pkts

abbrev pub payloads : List (List ℕ) → List ℕ
payloads [] = []
payloads (pkt ∷ pkts) = drop (body_at pkt) pkt ++ payloads pkts

-- What follows the section is shorter than the payload of the last of these packets.
abbrev pub EndsInLast : List ℕ → List (List ℕ) → Type 0
EndsInLast fill [] = Unit {0}
EndsInLast fill (pkt ∷ []) = length fill + body_at pkt < 188
EndsInLast fill (pkt ∷ (pkt' ∷ pkts)) = EndsInLast fill (pkt' ∷ pkts)

payload_at-body_at : (pkt : List ℕ) → payload_at pkt ≡ body_at pkt
payload_at-body_at pkt = ground arith

new-is_duplicate : (o : Option ℕ) (cc : ℕ) → o ≢ some cc → is_duplicate o cc ≡ false
new-is_duplicate none cc h = refl
new-is_duplicate (some last) cc h = elim (Bool-cases (cc == last)) [
  | inl e ↦ absurd (h (ap some (sym ((==_iff cc last).0 e))))
  | inr e ↦ e
]

push-payload :
    (s : SectionAssembler) (pkt : List ℕ) (cc : ℕ)
    → Carries cc pkt
    → is_duplicate s.cc cc ≡ false
    → push s pkt ≡ push_payload (take_cc s cc) pkt (body_at pkt)
unfolding push
push-payload s pkt cc c d =
    let fits : leb packet_size (payload_at pkt) ≡ false =
      rw (payload_at-body_at pkt) (ground (arith, c.inside)) in
    rw (c.no_error, c.payload, c.counter, d, fits, push)
      (ap (push_payload (take_cc s cc) pkt) (payload_at-body_at pkt))

drain_settled : (s : SectionAssembler) → IsSettled s → (drain s).1 ≡ []
unfolding drain
drain_settled s h = rw (drain_loop_waits (length s.buf) s.buf h)

finish_old_nothing : (s : SectionAssembler) → IsSettled s → (finish_old s []).1 ≡ []
unfolding finish_old
finish_old_nothing s h =
    if-both (λ (r : SectionAssembler × List (List ℕ)). r.1 ≡ []) s.active _ _
      (λ _. drain_settled (record s { buf = s.buf ++ [] }) (rw (append-nil s.buf) h)) (λ _. refl)

push-Starts :
    (s : SectionAssembler) (pkt : List ℕ) (cc : ℕ)
    → IsSettled s
    → is_duplicate s.cc cc ≡ false
    → Starts cc pkt
    → push s pkt ≡ drain (record { buf = drop (body_at pkt + 1) pkt; active = true; cc = some cc })
unfolding push_payload
push-Starts s pkt cc h d st =
    push-payload s pkt cc st.carries d
    ∙ rw (
      st.unit_start,
      st.pointer,
      none_between,
      none_more,
      finish_old_nothing t (take_cc-IsSettled s cc h),
      finish_old-cc t [],
      take_cc-cc s cc,
      push_payload,
    )
  where
    t : SectionAssembler
    t = take_cc s cc

    none_between : body_at pkt + 1 + 0 ≡ body_at pkt + 1
    none_between = omega arith

    none_more : body_at pkt + 1 - (body_at pkt + 1) ≡ 0
    none_more = omega arith

push-Continues :
    (buf pkt : List ℕ) (cc cc' : ℕ)
    → cc < 16
    → (cc + 1) % 16 ≡ cc'
    → Carries cc' pkt
    → has_bits (get_or pkt 1 0) 6 1 ≡ false
    → push (record { buf = buf; active = true; cc = some cc }) pkt
      ≡ drain (record { buf = buf ++ drop (body_at pkt) pkt; active = true; cc = some cc' })
unfolding push_payload take_cc
push-Continues buf pkt cc cc' small next c inner =
    let fresh : (cc' == cc) ≡ false = ground arith in
    let in_turn : (cc' == (cc + 1) % 16) ≡ true = ground arith in
    push-payload (record { buf = buf; active = true; cc = some cc }) pkt cc' c fresh
    ∙ rw (inner, push_payload) (rw (in_turn, take_cc))

same_at :
    (sec buf more fill : List ℕ)
    → buf ++ more ≡ sec ++ fill
    → length buf < length sec
    → (i : ℕ) → i < length buf
    → get_or buf i 0 ≡ get_or sec i 0
same_at sec buf more fill e lt i h =
    sym (get_or-append_lt buf more i 0 h)
    ∙ ap (λ t. get_or t i 0) e
    ∙ get_or-append_lt sec fill i 0 (omega arith)

-- A buffer that is a proper beginning of a section waits for the rest.
waits :
    (sec buf more fill : List ℕ)
    → IsSection sec
    → buf ++ more ≡ sec ++ fill
    → length buf < length sec
    → Settled buf × (starts_stuffing buf ≡ false)
waits sec [] more fill v e lt = (inl (ground arith), refl)
waits sec (b ∷ buf) more fill v e lt = (settled, rw (← head) at v.tagged)
  where
    head : b ≡ get_or sec 0 0
    head = same_at sec (b ∷ buf) more fill e lt 0 (omega arith)

    settled : Settled (b ∷ buf)
    settled = elim (dec_lt (length (b ∷ buf)) 3) [
      | yes short ↦ inl (ground arith)
      | no long ↦
          let e1 = same_at sec (b ∷ buf) more fill e lt 1 (omega arith) in
          let e2 = same_at sec (b ∷ buf) more fill e lt 2 (omega arith) in
          let sized : section_length (b ∷ buf) ≡ length sec = rw (e1, e2) (sym v.sized) in
          inr (ground arith)
    ]

-- Draining a proper beginning does nothing.
drain-waits :
    (sec buf more fill : List ℕ) (cc : ℕ)
    → IsSection sec
    → buf ++ more ≡ sec ++ fill
    → length buf < length sec
    → drain (record { buf = buf; active = true; cc = some cc })
      ≡ (record { buf = buf; active = true; cc = some cc }, [])
drain-waits sec buf more fill cc v e lt =
    let (settled, no_stuffing) = waits sec buf more fill v e lt in
    drain-sections (record { buf = buf; active = true; cc = some cc }) [] buf tt settled refl
    ∙ rw no_stuffing

drain-whole :
    (sec fill buf : List ℕ) (cc : ℕ)
    → IsSection sec
    → Settled fill
    → buf ≡ sec ++ fill
    → (drain (record { buf = buf; active = true; cc = some cc })).1 ≡ sec ∷ []
drain-whole sec fill buf cc v hf e =
    ap (λ (r : SectionAssembler × List (List ℕ)). r.1)
      (drain-sections (record { buf = buf; active = true; cc = some cc }) (sec ∷ []) fill (v, tt) hf
        (e ∙ ap (λ t. t ++ fill) (sym (append-nil sec))))

-- The section's last byte is in the last packet.
payloads-length :
    (pkt : List ℕ) (pkts : List (List ℕ)) (fill : List ℕ) (cc : ℕ)
    → Continues cc (pkt ∷ pkts)
    → EndsInLast fill (pkt ∷ pkts)
    → length fill < length (payloads (pkt ∷ pkts))
payloads-length pkt [] fill cc (c, i, h) short =
    omega (
      arith,
      length-append (drop (body_at pkt) pkt) [],
      length-drop (body_at pkt) pkt,
      c.size,
      short,
    )
payloads-length pkt (pkt' ∷ pkts) fill cc (c, i, h) short = omega (
  arith,
  length-append (drop (body_at pkt) pkt) (payloads (pkt' ∷ pkts)),
  payloads-length pkt' pkts fill ((cc + 1) % 16) h short,
)

EndsInLast-rest :
    (pkt : List ℕ) (pkts : List (List ℕ)) (fill : List ℕ)
    → EndsInLast fill (pkt ∷ pkts)
    → EndsInLast fill pkts
EndsInLast-rest pkt [] fill short = tt
EndsInLast-rest pkt (pkt' ∷ pkts) fill short = short

-- The packets that go on with a section whose beginning is in the buffer, before `_drain`.
continue_lem :
    (pkts : List (List ℕ)) (sec fill buf : List ℕ) (cc : ℕ) (r : SectionAssembler × List (List ℕ))
    → r ≡ drain (record { buf = buf; active = true; cc = some cc })
    → cc < 16
    → IsSection sec
    → Settled fill
    → EndsInLast fill pkts
    → Continues cc pkts
    → buf ++ payloads pkts ≡ sec ++ fill
    → r.1 ++ (push_all r.0 pkts).1 ≡ sec ∷ []
unfolding push_all
continue_lem [] sec fill buf cc r er small v hf short cs e =
    append-nil r.1
    ∙ ap (λ (t : SectionAssembler × List (List ℕ)). t.1) er
    ∙ drain-whole sec fill buf cc v hf (sym (append-nil buf) ∙ e)
continue_lem (pkt ∷ pkts) sec fill buf cc r er small v hf short (c, inner, cs) e = rw begun (
    continue_lem pkts sec fill (buf ++ drop (body_at pkt) pkt) ((cc + 1) % 16) (push waiting pkt)
      (push-Continues buf pkt cc ((cc + 1) % 16) small refl c inner) (omega arith) v hf
      (EndsInLast-rest pkt pkts fill short) cs
      (append_assoc buf (drop (body_at pkt) pkt) (payloads pkts) ∙ e))
  where
    waiting : SectionAssembler
    waiting = record { buf = buf; active = true; cc = some cc }

    begun : r ≡ (waiting, [])
    begun =
        er
        ∙ drain-waits sec buf (payloads (pkt ∷ pkts)) fill cc v e (
            omega (
              arith,
              ap length e,
              length-append buf (payloads (pkt ∷ pkts)),
              length-append sec fill,
              payloads-length pkt pkts fill cc (c, inner, cs) short,
            ))

-- Reassembly. From any state whose buffer holds no whole section and whose counter is not the first
-- packet's: packets of 188 bytes with consecutive counters and without the transport error
-- indicator, each with an adaptation field or without one, and with a payload, of which the first and
-- no other has the start indicator, with a pointer of 0. If the payloads together are one section,
-- with the right length and CRC, and then something that is no whole section and, where there is more
-- than one packet, is shorter than the last payload, the packets give exactly this section.
pub push_all-reassembles :
    (s : SectionAssembler) (pkt : List ℕ) (pkts : List (List ℕ)) (cc : ℕ) (sec fill : List ℕ)
    → IsSettled s
    → s.cc ≢ some cc
    → cc < 16
    → Starts cc pkt
    → Continues cc pkts
    → IsSection sec
    → Settled fill
    → EndsInLast fill pkts
    → drop (body_at pkt + 1) pkt ++ payloads pkts ≡ sec ++ fill
    → (push_all s (pkt ∷ pkts)).1 ≡ sec ∷ []
unfolding push_all
push_all-reassembles s pkt pkts cc sec fill h d small st cs v hf short e =
    continue_lem pkts sec fill (drop (body_at pkt + 1) pkt) cc (push s pkt)
      (push-Starts s pkt cc h (new-is_duplicate s.cc cc d) st) small v hf short cs e

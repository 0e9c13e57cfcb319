-- ===== src/Ts/Si/Programs.antt =====
-- From packets to programs: `SiCollector` of src/recdyud/ts.py on a stream that carries a PAT.
use recdyud.Base.{
  ℕ, ◌+◌, ◌*◌, ◌^◌, ◌<◌, ◌≡◌, ◌≢◌, ◌==◌, true, not, none, field, get_or, Bool-cases, inl, inr,
  arith, if◌then◌else◌, refl, ap, ◌∙◌, false, Option, some, List, [], ◌∷◌, ◌++◌, map, join, All,
  length, drop, to_bytes2,
}
use recdyud.Ts.Section.{push_all}
use recdyud.Ts.Section.Drain.{IsSection, Settled}
use recdyud.Ts.Section.Push.{IsSettled}
use recdyud.Ts.Section.Reassembly.{
  Starts, Continues, payloads, body_at, EndsInLast, push_all-reassembles,
}
use recdyud.Ts.Psi.{TransportInfo}
use recdyud.Ts.Psi.Pat.{IsEntry, bytes_of, enter, parse_pat-enter}
use recdyud.Ts.Si.{Table, pat, nit, sdt, SiCollector, asm, parser, update, table_of, key_of}
use recdyud.Ts.Si.Collect.{same, tagged, packets_of, sections_of, parse_event, update-Collected}
use mathlib.Core.List.{foldl}

module _ (euc : List ℕ → Option (List ℕ)) where
  pat_only :
      (events : List (Table × List ℕ)) (info : TransportInfo)
      → sections_of nit events ≡ []
      → sections_of sdt events ≡ []
      → foldl (parse_event euc) info events ≡ foldl (parser euc pat) info (sections_of pat events)
  unfolding sections_of
  pat_only [] info no_nit no_sdt = refl
  pat_only ((pat, sec) ∷ events) info no_nit no_sdt =
      pat_only events (parser euc pat info sec) no_nit no_sdt
  pat_only ((nit, sec) ∷ events) info no_nit no_sdt = cc no_nit
  pat_only ((sdt, sec) ∷ events) info no_nit no_sdt = cc no_sdt

  -- The PID in the header of a packet.
  abbrev pub pid : List ℕ → ℕ
  pid pkt = field (get_or pkt 1 0) 0 5 * 2 ^ 8 + get_or pkt 2 0

  -- These packets are those of PID 0 among the packets of a stream without NIT and SDT.
  pub data CarriesPat : List (List ℕ) → List (List ℕ) → Type 0 where
    over : CarriesPat [] []
    of_pat :
        (pkt : List ℕ) (pkts pats : List (List ℕ))
        → pid pkt ≡ 0
        → CarriesPat pkts pats
        → CarriesPat (pkt ∷ pkts) (pkt ∷ pats)
    other :
        (pkt : List ℕ) (pkts pats : List (List ℕ))
        → pid pkt ≢ 0
        → pid pkt ≢ 0x10
        → pid pkt ≢ 0x11
        → CarriesPat pkts pats
        → CarriesPat (pkt ∷ pkts) pats

  table_of-pat : (pkt : List ℕ) → pid pkt ≡ 0 → tagged pkt ≡ (some pat, pkt)
  unfolding tagged table_of key_of
  table_of-pat pkt h =
      let high : not (field (get_or pkt 1 0) 0 5 == 0) ≡ false = ground arith in
      let low : (get_or pkt 2 0 == 0) ≡ true = ground arith in rw (high, low) refl

  table_of-other :
      (pkt : List ℕ) → pid pkt ≢ 0 → pid pkt ≢ 0x10 → pid pkt ≢ 0x11 → tagged pkt ≡ (none, pkt)
  unfolding tagged table_of key_of
  table_of-other pkt a b c = elim (Bool-cases (not (field (get_or pkt 1 0) 0 5 == 0))) [
    | inl high ↦ rw high refl
    | inr high ↦
        let is_0 : (get_or pkt 2 0 == 0) ≡ false = grind (arith, a) in
        let is_10 : (get_or pkt 2 0 == 0x10) ≡ false = grind (arith, b) in
        let is_11 : (get_or pkt 2 0 == 0x11) ≡ false = grind (arith, c) in
        rw (high, is_0, is_10, is_11) refl
  ]

  CarriesPat-packets_of :
      (t : Table) (pkts pats : List (List ℕ))
      → CarriesPat pkts pats
      → packets_of t (map tagged pkts) ≡ (if same t pat then pats else [])
  unfolding packets_of
  CarriesPat-packets_of pat pkts pats over = refl
  CarriesPat-packets_of nit pkts pats over = refl
  CarriesPat-packets_of sdt pkts pats over = refl
  CarriesPat-packets_of pat _ _ (of_pat pkt pkts pats h rest) =
      rw (table_of-pat pkt h) (ap (◌∷◌ pkt) (CarriesPat-packets_of pat pkts pats rest))
  CarriesPat-packets_of nit _ _ (of_pat pkt pkts pats h rest) =
      rw (table_of-pat pkt h) (CarriesPat-packets_of nit pkts pats rest)
  CarriesPat-packets_of sdt _ _ (of_pat pkt pkts pats h rest) =
      rw (table_of-pat pkt h) (CarriesPat-packets_of sdt pkts pats rest)
  CarriesPat-packets_of t _ _ (other pkt pkts pats a b c rest) =
      rw (table_of-other pkt a b c) (CarriesPat-packets_of t pkts pats rest)

  -- A PAT in a stream. Packets of 188 bytes, of any PIDs but those of NIT and SDT. Those of PID 0 have
  -- no transport error indicator, consecutive counters, new to the collector, whose buffer for them
  -- holds no whole section, each an adaptation field or none, and a payload; the first and no other has
  -- the start indicator, with a pointer of 0. Their payloads are one section, with its length, its CRC
  -- and a list of programs, and then what is no whole section and, where there is more than one such
  -- packet, is shorter than the last payload. After `update` the collector has the stream's id and
  -- every program with its PMT PID.
  pub update-enter :
      (pkts : List (List ℕ)) (c : SiCollector) (pkt : List ℕ) (others : List (List ℕ)) (cc : ℕ)
      (h1 h2 tsid h5 h6 h7 : ℕ) (entries : List (ℕ × ℕ)) (crc fill : List ℕ)
      → All (λ p. length p ≡ 188) pkts
      → CarriesPat pkts (pkt ∷ others)
      → IsSettled c.pat_asm
      → c.pat_asm.cc ≢ some cc
      → cc < 16
      → Starts cc pkt
      → Continues cc others
      → IsSection (
          (0 ∷ h1 ∷ h2 ∷ (to_bytes2 tsid ++ (h5 ∷ h6 ∷ h7 ∷ [])))
          ++ (join (map bytes_of entries) ++ crc))
      → Settled fill
      → EndsInLast fill others
      → drop (body_at pkt + 1) pkt ++ payloads others
        ≡ ((0 ∷ h1 ∷ h2 ∷ (to_bytes2 tsid ++ (h5 ∷ h6 ∷ h7 ∷ [])))
            ++ (join (map bytes_of entries) ++ crc))
          ++ fill
      → tsid < 2 ^ 16
      → All IsEntry entries
      → length crc ≡ 4
      → (update euc c (join pkts)).info
        ≡ foldl enter (record c.info { transport_stream_id = some tsid }) entries
  unfolding asm parser push_all
  update-enter pkts c pkt others cc h1 h2 tsid h5 h6 h7 entries crc fill whole pats settled new
        small st cs v hf short e hid he hc =
      let u = update-Collected euc pkts c whole in
      let collected =
        u.sections pat
        ∙ ap (λ ps. (push_all c.pat_asm ps).1) (CarriesPat-packets_of pat pkts _ pats)
        ∙ push_all-reassembles c.pat_asm pkt others cc _ fill settled new small st cs v hf short
            e in
      u.parsed
      ∙ pat_only u.events c.info
          (u.sections nit
            ∙ ap (λ ps. (push_all c.nit_asm ps).1) (CarriesPat-packets_of nit pkts _ pats))
          (u.sections sdt
            ∙ ap (λ ps. (push_all c.sdt_asm ps).1) (CarriesPat-packets_of sdt pkts _ pats))
      ∙ ap (foldl (parser euc pat) c.info) collected
      ∙ parse_pat-enter h1 h2 tsid h5 h6 h7 entries crc c.info hid he hc

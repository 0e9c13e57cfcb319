-- ===== src/Ts/Si/Collect.antt =====
-- What `SiCollector.update` of src/recdyud/ts.py makes of packets in which the tables are mixed.
use recdyud.Base.{
  ℕ, ◌+◌, ◌*◌, ◌/◌, ◌<◌, ◌≡◌, refl, ap, ap₂, sym, subst, ◌∙◌, Bool, true, false, Option, none, some,
  List, [], ◌∷◌, ◌++◌, map, join, All, length, length-append, get_or, get_or-append_lt,
  get_or-append_ge, slice-append, if◌then◌else◌, Bool-cases, inl, inr, arith,
}
use recdyud.Ts.Section.{push, push_all}
use recdyud.Ts.Psi.{TransportInfo}
use recdyud.Ts.Si.{
  Table, pat, nit, sdt, SiCollector, table_of, asm, set_asm, parser, collect, update_loop, update,
}
use mathlib.Core.List.{foldl, append_assoc}

abbrev pub same : Table → Table → Bool
same pat pat = true
same nit nit = true
same sdt sdt = true
same _ _ = false

same_refl : (t : Table) → same t t ≡ true
same_refl pat = refl
same_refl nit = refl
same_refl sdt = refl

same_eq : (t t' : Table) → same t t' ≡ true → t ≡ t'
same_eq pat pat h = refl
same_eq nit nit h = refl
same_eq sdt sdt h = refl
same_eq pat nit h = cc h
same_eq pat sdt h = cc h
same_eq nit pat h = cc h
same_eq nit sdt h = cc h
same_eq sdt pat h = cc h
same_eq sdt nit h = cc h

-- A packet with the table that it belongs to, if it belongs to one.
unfoldable pub tagged : List ℕ → Option Table × List ℕ
tagged pkt = (table_of (get_or pkt 1 0) (get_or pkt 2 0), pkt)

-- The packets of a table, and the sections of a table among those of all.
unfoldable pub packets_of : Table → List (Option Table × List ℕ) → List (List ℕ)
packets_of t [] = []
packets_of t ((none, pkt) ∷ pkts) = packets_of t pkts
packets_of t ((some t', pkt) ∷ pkts) =
    let rest = packets_of t pkts in if same t t' then pkt ∷ rest else rest

unfoldable pub sections_of : Table → List (Table × List ℕ) → List (List ℕ)
sections_of t [] = []
sections_of t ((t', sec) ∷ events) =
    let rest = sections_of t events in if same t t' then sec ∷ rest else rest

packets_of-same :
    (t : Table) (pkt : List ℕ) (pkts : List (Option Table × List ℕ))
    → packets_of t ((some t, pkt) ∷ pkts) ≡ pkt ∷ packets_of t pkts
unfolding packets_of
packets_of-same t pkt pkts = rw (same_refl t)

sections_of-same :
    (t : Table) (secs : List (List ℕ)) (events : List (Table × List ℕ))
    → sections_of t (map (λ sec. (t, sec)) secs ++ events) ≡ secs ++ sections_of t events
unfolding sections_of
sections_of-same t [] events = refl
sections_of-same t (sec ∷ secs) events =
    rw (same_refl t) (ap (◌∷◌ sec) (sections_of-same t secs events))

sections_of-other :
    (t t' : Table) (secs : List (List ℕ)) (events : List (Table × List ℕ))
    → same t t' ≡ false
    → sections_of t (map (λ sec. (t', sec)) secs ++ events) ≡ sections_of t events
unfolding sections_of
sections_of-other t t' [] events h = refl
sections_of-other t t' (sec ∷ secs) events h = rw h (sections_of-other t t' secs events h)

module _ (euc : List ℕ → Option (List ℕ)) where
  abbrev pub parse_event : TransportInfo → Table × List ℕ → TransportInfo
  parse_event info (t, sec) = parser euc t info sec

  -- From one state of the collector to a later one, over these packets: some interleaving of the
  -- sections that the packets of each table give on their own is parsed, in its order.
  pub record Collected (c : SiCollector) (pkts : List (Option Table × List ℕ)) (c' : SiCollector)
      : Type 0 where
    pub events : List (Table × List ℕ)
    pub parsed : c'.info ≡ foldl parse_event c.info events
    pub assembled : (t : Table) → asm t c' ≡ (push_all (asm t c) (packets_of t pkts)).0
    pub sections : (t : Table) → sections_of t events ≡ (push_all (asm t c) (packets_of t pkts)).1

  foldl-parse_event :
      (t : Table) (secs : List (List ℕ)) (events : List (Table × List ℕ)) (info : TransportInfo)
      → foldl parse_event info (map (λ sec. (t, sec)) secs ++ events)
        ≡ foldl parse_event (foldl (parser euc t) info secs) events
  foldl-parse_event t [] events info = refl
  foldl-parse_event t (sec ∷ secs) events info =
      foldl-parse_event t secs events (parser euc t info sec)

  asm-collect_same :
      (t : Table) (c : SiCollector) (pkt : List ℕ)
      → asm t (collect euc (some t) c pkt) ≡ (push (asm t c) pkt).0
  unfolding asm collect set_asm
  asm-collect_same pat c pkt = refl
  asm-collect_same nit c pkt = refl
  asm-collect_same sdt c pkt = refl

  asm-collect_other :
      (t t' : Table) (c : SiCollector) (pkt : List ℕ)
      → same t t' ≡ false
      → asm t (collect euc (some t') c pkt) ≡ asm t c
  unfolding asm collect set_asm
  asm-collect_other pat pat c pkt h = cc h
  asm-collect_other nit nit c pkt h = cc h
  asm-collect_other sdt sdt c pkt h = cc h
  asm-collect_other pat nit c pkt h = refl
  asm-collect_other pat sdt c pkt h = refl
  asm-collect_other nit pat c pkt h = refl
  asm-collect_other nit sdt c pkt h = refl
  asm-collect_other sdt pat c pkt h = refl
  asm-collect_other sdt nit c pkt h = refl

  abbrev collect_all : SiCollector → List (Option Table × List ℕ) → SiCollector
  collect_all c [] = c
  collect_all c ((o, pkt) ∷ pkts) = collect_all (collect euc o c pkt) pkts

  collect-cons :
      (t : Table) (c c' : SiCollector) (pkt : List ℕ) (pkts : List (Option Table × List ℕ))
      → Collected (collect euc (some t) c pkt) pkts c'
      → Collected c ((some t, pkt) ∷ pkts) c'
  unfolding packets_of push_all
  collect-cons t c c' pkt pkts v = record {
    events = map (λ sec. (t, sec)) secs ++ v.events;
    parsed = v.parsed ∙ (unfold collect set_asm in sym (foldl-parse_event t secs v.events c.info));
    assembled = λ t'. elim (Bool-cases (same t' t)) [
      | inl h ↦
          subst (λ x. asm x c' ≡ (push_all (asm x c) (packets_of x ((some t, pkt) ∷ pkts))).0)
            (sym (same_eq t' t h))
            (v.assembled t
              ∙ ap (λ a. (push_all a (packets_of t pkts)).0) (asm-collect_same t c pkt)
              ∙ ap (λ ps. (push_all (asm t c) ps).0) (sym (packets_of-same t pkt pkts)))
      | inr h ↦ rw h (
          v.assembled t'
          ∙ ap (λ a. (push_all a (packets_of t' pkts)).0) (asm-collect_other t' t c pkt h))
    ];
    sections = λ t'. elim (Bool-cases (same t' t)) [
      | inl h ↦
          subst
            (λ x.
              sections_of x (map (λ sec. (t, sec)) secs ++ v.events)
              ≡ (push_all (asm x c) (packets_of x ((some t, pkt) ∷ pkts))).1)
            (sym (same_eq t' t h))
            (sections_of-same t secs v.events
              ∙ ap (◌++◌ secs) (
                  v.sections t
                  ∙ ap (λ a. (push_all a (packets_of t pkts)).1) (asm-collect_same t c pkt))
              ∙ ap (λ ps. (push_all (asm t c) ps).1) (sym (packets_of-same t pkt pkts)))
      | inr h ↦ rw h (
          sections_of-other t' t secs v.events h
          ∙ v.sections t'
          ∙ ap (λ a. (push_all a (packets_of t' pkts)).1) (asm-collect_other t' t c pkt h))
    ];
  }
    where
      secs : List (List ℕ)
      secs = (push (asm t c) pkt).1

  collect_all-Collected :
      (pkts : List (Option Table × List ℕ)) (c : SiCollector)
      → Collected c pkts (collect_all c pkts)
  unfolding packets_of push_all sections_of collect
  collect_all-Collected [] c = record {
    events = [];
    parsed = refl;
    assembled = λ t. refl;
    sections = λ t. refl;
  }
  collect_all-Collected ((none, pkt) ∷ pkts) c =
      let v = collect_all-Collected pkts c in
      record {
        events = v.events;
        parsed = v.parsed;
        assembled = v.assembled;
        sections = v.sections;
      }
  collect_all-Collected ((some t, pkt) ∷ pkts) c =
      collect-cons t c _ pkt pkts (collect_all-Collected pkts (collect euc (some t) c pkt))

  update_loop-collect_all :
      (pkts : List (List ℕ)) (pre : List ℕ) (off : ℕ) (c : SiCollector)
      → All (λ p. length p ≡ 188) pkts
      → length pre ≡ off
      → update_loop euc (length pkts) (pre ++ join pkts) off c ≡ collect_all c (map tagged pkts)
  unfolding update_loop tagged
  update_loop-collect_all [] pre off c h before = refl
  update_loop-collect_all (pkt ∷ pkts) pre off c (whole, h) before =
      ap
        (λ (t : (ℕ × ℕ) × List ℕ).
          update_loop euc (length pkts) (pre ++ (pkt ++ join pkts)) (off + 188)
            (collect euc (table_of t.0.0 t.0.1) c t.1))
        (ap₂ (λ (x : ℕ × ℕ) (y : List ℕ). (x, y))
          (ap₂ (λ (x y : ℕ). (x, y)) (byte 1 (omega arith)) (byte 2 (omega arith)))
          (slice-append pre pkt (join pkts) off (off + 188) before (omega arith)))
      ∙ ap (λ xs. update_loop euc (length pkts) xs (off + 188) next)
          (sym (append_assoc pre pkt (join pkts)))
      ∙ update_loop-collect_all pkts (pre ++ pkt) (off + 188) next h
          (omega (arith, length-append pre pkt))
    where
      next : SiCollector
      next = collect euc (table_of (get_or pkt 1 0) (get_or pkt 2 0)) c pkt

      byte : (i : ℕ) → i < 188 → get_or (pre ++ (pkt ++ join pkts)) (off + i) 0 ≡ get_or pkt i 0
      byte i small =
          get_or-append_ge pre (pkt ++ join pkts) (off + i) i 0 (omega arith)
          ∙ get_or-append_lt pkt (join pkts) i 0 (omega arith)

  length-join :
      (pkts : List (List ℕ))
      → All (λ p. length p ≡ 188) pkts
      → length (join pkts) ≡ length pkts * 188
  length-join [] h = refl
  length-join (p ∷ pkts) (whole, h) =
      omega (arith, length-append p (join pkts), length-join pkts h, whole)

  -- However the packets of the tables are mixed with one another and with others: each table's
  -- assembler ends as if it had got its own packets alone, and the sections that are parsed are, in
  -- some order, those that the packets of each table give on their own, each table's in its order.
  pub update-Collected :
      (pkts : List (List ℕ)) (c : SiCollector)
      → All (λ p. length p ≡ 188) pkts
      → Collected c (map tagged pkts) (update euc c (join pkts))
  unfolding update
  update-Collected pkts c h =
      let count : length (join pkts) / 188 ≡ length pkts = omega (arith, length-join pkts h) in
      rw (count, update_loop-collect_all pkts [] 0 c h refl)
        (collect_all-Collected (map tagged pkts) c)

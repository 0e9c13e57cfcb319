-- ===== src/Ts/Analyzer/Split.antt =====
-- `TsAnalyzer.update` of src/recdyud/ts.py does not depend on how the packets are cut into calls.
use recdyud.Base.{
  ℕ, zero, suc, ◌+◌, ◌*◌, ◌/◌, ◌≤◌, ◌≡◌, refl, false, List, ◌++◌, length, get_or, ◌==◌, arith, sym,
  ◌∙◌, ap, length-append, get_or-append_lt, get_or-append_ge,
}
use recdyud.Ts.{packet_size}
use recdyud.Ts.Analyzer.{
  TsCounters, TsAnalyzer, Tally, round_at, count_packet, update_loop, update, start,
}

-- Counts made earlier, added to those of a tally.
plus : TsCounters → Tally → Tally
plus c t = record t {
  tei = c.tei + t.tei;
  cc_errors = c.cc_errors + t.cc_errors;
  scrambled = c.scrambled + t.scrambled;
  null = c.null + t.null;
}

count_packet-plus :
    (b1 b2 b3 : ℕ) (c : TsCounters) (t : Tally)
    → count_packet b1 b2 b3 (plus c t) ≡ plus c (count_packet b1 b2 b3 t)
unfolding count_packet plus
count_packet-plus b1 b2 b3 c t = ground arith

update_loop-plus :
    (bytes : List ℕ) (off n : ℕ) (c : TsCounters) (t : Tally)
    → update_loop bytes off n (plus c t) ≡ plus c (update_loop bytes off n t)
unfolding update_loop
update_loop-plus bytes off zero c t = refl
update_loop-plus bytes off (suc n) c t =
    rw
      (count_packet-plus (get_or bytes (off + 1) 0) (get_or bytes (off + 2) 0)
        (get_or bytes (off + 3) 0) c t)
      (update_loop-plus bytes (off + packet_size) n c (round_at bytes off t))

-- The first `m` packets of a longer string are those of its beginning.
update_loop-append_left :
    (xs ys : List ℕ) (off m : ℕ) (t : Tally)
    → off + m * 188 ≤ length xs
    → update_loop (xs ++ ys) off m t ≡ update_loop xs off m t
unfolding update_loop
update_loop-append_left xs ys off zero t h = refl
update_loop-append_left xs ys off (suc m) t h =
    rw
      (
        get_or-append_lt xs ys (off + 1) 0 (omega arith),
        get_or-append_lt xs ys (off + 2) 0 (omega arith),
        get_or-append_lt xs ys (off + 3) 0 (omega arith),
      )
      (update_loop-append_left xs ys (off + packet_size) m (round_at xs off t) (omega arith))

update_loop-append_right :
    (xs ys : List ℕ) (off off' n : ℕ) (t : Tally)
    → length xs + off ≡ off'
    → update_loop (xs ++ ys) off' n t ≡ update_loop ys off n t
unfolding update_loop
update_loop-append_right xs ys off off' zero t h = refl
update_loop-append_right xs ys off off' (suc n) t h =
    rw
      (
        get_or-append_ge xs ys (off' + 1) (off + 1) 0 (omega arith),
        get_or-append_ge xs ys (off' + 2) (off + 2) 0 (omega arith),
        get_or-append_ge xs ys (off' + 3) (off + 3) 0 (omega arith),
      )
      (update_loop-append_right xs ys (off + packet_size) (off' + packet_size) n (round_at ys off t)
        (omega arith))

update_loop-add :
    (bytes : List ℕ) (off m n k : ℕ) (t : Tally)
    → off + m * 188 ≡ k
    → update_loop bytes off (m + n) t ≡ update_loop bytes k n (update_loop bytes off m t)
unfolding update_loop
update_loop-add bytes off zero n k t h =
    let e : k ≡ off = omega arith in let e' : 0 + n ≡ n = omega arith in rw (e, e')
update_loop-add bytes off (suc m) n k t h =
    let e : suc m + n ≡ suc (m + n) = omega arith in
    rw (e, update_loop)
      (update_loop-add bytes (off + packet_size) m n k (round_at bytes off t) (omega arith))

-- What a call returns, from the tally of its loop.
abbrev result : TsAnalyzer → ℕ → Tally → TsAnalyzer × TsCounters
result a n t = (
  record {
    total = record {
      packets = a.total.packets + n;
      tei = a.total.tei + t.tei;
      cc_errors = a.total.cc_errors + t.cc_errors;
      scrambled = a.total.scrambled + t.scrambled;
      null = a.total.null + t.null;
    };
    pid_packets = t.pid_packets;
    last_cc = t.last_cc;
  },
  record {
    packets = n;
    tei = t.tei;
    cc_errors = t.cc_errors;
    scrambled = t.scrambled;
    null = t.null;
  },
)

update-result :
    (a : TsAnalyzer) (bytes : List ℕ) (n : ℕ)
    → length bytes / 188 ≡ n
    → update a bytes ≡ result a n (update_loop bytes 0 n (start a))
unfolding update
update-result a bytes zero e = rw (e, update) (unfold update_loop in ground arith)
update-result a bytes (suc n) e = let nz : (suc n == 0) ≡ false = ground arith in rw (e, nz, update)

plus-start :
    (a : TsAnalyzer) (n : ℕ) (t : Tally) → plus (result a n t).1 (start (result a n t).0) ≡ t
unfolding plus
plus-start a n t = ground arith

unfoldable pub add_counters : TsCounters → TsCounters → TsCounters
add_counters c d = record {
  packets = c.packets + d.packets;
  tei = c.tei + d.tei;
  cc_errors = c.cc_errors + d.cc_errors;
  scrambled = c.scrambled + d.scrambled;
  null = c.null + d.null;
}

-- Two tallies after one another, and their sum.
result-plus :
    (a : TsAnalyzer) (m n : ℕ) (s t : Tally)
    → (result a (m + n) (plus (result a m s).1 t)).0 ≡ (result (result a m s).0 n t).0
unfolding plus
result-plus a m n s t = ground arith

result-add_counters :
    (a b : TsAnalyzer) (m n : ℕ) (s t : Tally)
    → (result a (m + n) (plus (result a m s).1 t)).1
      ≡ add_counters (result a m s).1 (result b n t).1
unfolding plus add_counters
result-add_counters a b m n s t = refl

continued :
    (a : TsAnalyzer) (ys : List ℕ) (m n : ℕ) (first : Tally)
    → update_loop ys 0 n first
      ≡ plus (result a m first).1 (update_loop ys 0 n (start (result a m first).0))
continued a ys m n first =
    ap (update_loop ys 0 n) (sym (plus-start a m first))
    ∙ update_loop-plus ys 0 n (result a m first).1 (start (result a m first).0)

both :
    (a : TsAnalyzer) (xs ys : List ℕ) (m n : ℕ)
    → length xs ≡ m * 188
    → update_loop (xs ++ ys) 0 (m + n) (start a)
      ≡ plus
          (result a m (update_loop xs 0 m (start a))).1
          (update_loop ys 0 n (start (result a m (update_loop xs 0 m (start a))).0))
both a xs ys m n whole =
    update_loop-add (xs ++ ys) 0 m n (length xs) (start a) (omega arith)
    ∙ ap (update_loop (xs ++ ys) (length xs) n)
        (update_loop-append_left xs ys 0 m (start a) (omega arith))
    ∙ update_loop-append_right xs ys 0 (length xs) n (update_loop xs 0 m (start a)) (omega arith)
    ∙ continued a ys m n (update_loop xs 0 m (start a))

-- If the first string is whole packets, one call on both strings leaves the same state as two
-- calls, and returns the sum of what the two return.
pub update-append :
    (a : TsAnalyzer) (xs ys : List ℕ) (m : ℕ)
    → length xs ≡ m * 188
    → ((update a (xs ++ ys)).0 ≡ (update (update a xs).0 ys).0)
      × ((update a (xs ++ ys)).1 ≡ add_counters (update a xs).1 (update (update a xs).0 ys).1)
update-append a xs ys m whole =
    rw
      (
        update-result a xs m (omega arith),
        update-result a (xs ++ ys) (m + length ys / 188) (omega (arith, length-append xs ys)),
        both a xs ys m (length ys / 188) whole,
        update-result (result a m (update_loop xs 0 m (start a))).0 ys (length ys / 188) refl,
      )
      (
        result-plus a m (length ys / 188) (update_loop xs 0 m (start a)) _,
        result-add_counters a (result a m (update_loop xs 0 m (start a))).0 m (length ys / 188)
            (update_loop xs 0 m (start a)) _,
      )

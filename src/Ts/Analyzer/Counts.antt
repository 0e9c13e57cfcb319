-- ===== src/Ts/Analyzer/Counts.antt =====
-- The counters of `TsAnalyzer.update` of src/recdyud/ts.py: their bounds and their sums.
use recdyud.Base.{
  ℕ, zero, suc, ◌+◌, ◌/◌, ◌≤◌, ◌≡◌, refl, inl, inr, List, length, get_or, ◌==◌, if◌then◌else◌,
  Bool-cases, arith,
}
use recdyud.Ts.{packet_size}
use recdyud.Ts.Analyzer.{
  TsAnalyzer, Tally, sub, payload_packets, pid_of, count_packet, update_loop, update, start,
  round_at,
}

-- After `k` packets: an errored packet and a null packet count as nothing else.
pub record Bounded (k : ℕ) (t : Tally) : Type 0 where
  pub for_scrambled : t.tei + t.null + t.scrambled ≤ k
  pub for_cc : t.tei + t.null + t.cc_errors ≤ k

count_packet-Bounded :
    (b1 b2 b3 k : ℕ) (t : Tally) → Bounded k t → Bounded (k + 1) (count_packet b1 b2 b3 t)
unfolding count_packet
count_packet-Bounded b1 b2 b3 k t v = record { for_scrambled = ground arith; for_cc = ground arith }

update_loop-Bounded :
    (bytes : List ℕ) (off n k j : ℕ) (t : Tally)
    → k + n ≡ j
    → Bounded k t
    → Bounded j (update_loop bytes off n t)
unfolding update_loop
update_loop-Bounded bytes off zero k j t e v = let e' : j ≡ k = omega arith in rw e' v
update_loop-Bounded bytes off (suc n) k j t e v =
    update_loop-Bounded bytes (off + packet_size) n (k + 1) j (round_at bytes off t) (omega arith) (
      count_packet-Bounded (get_or bytes (off + 1) 0) (get_or bytes (off + 2) 0)
        (get_or bytes (off + 3) 0) k t v)

-- A call counts each whole packet once; errored, null and scrambled packets are disjoint, and so
-- are errored packets, null packets and continuity errors. So the subtractions of
-- `payload_packets` do not stop at 0.
pub update_bounds :
    (a : TsAnalyzer) (bytes : List ℕ)
    → let d = (update a bytes).1 in
      (d.packets ≡ length bytes / 188)
      × (d.tei + d.null + d.scrambled ≤ d.packets)
      × (d.tei + d.null + d.cc_errors ≤ d.packets)
      × (payload_packets d + d.null + d.tei ≡ d.packets)
unfolding update payload_packets
update_bounds a bytes = elim (Bool-cases (length bytes / 188 == 0)) [
  | inl e ↦ rw (e, update) (ground arith, omega arith, omega arith, omega arith)
  | inr e ↦ rw (e, update) (refl, v.for_scrambled, v.for_cc, omega (arith, v.for_scrambled))
]
  where
    v : Bounded (length bytes / 188) (update_loop bytes 0 (length bytes / 188) (start a))
    v =
        update_loop-Bounded bytes 0 _ 0 _ _ (omega arith)
          (record { for_scrambled = omega arith; for_cc = omega arith })

-- What a call returns is the difference that it makes to the totals, so the differences that
-- `cmd_monitor` takes with `__sub__` are sums of what the calls returned.
pub sub-update :
    (a : TsAnalyzer) (bytes : List ℕ) → sub (update a bytes).0.total a.total ≡ (update a bytes).1
unfolding update sub
sub-update a bytes = elim (Bool-cases (length bytes / 188 == 0)) [
  | inl e ↦ rw (e, update) (ground arith)
  | inr e ↦ rw (e, update) (ground arith)
]

-- How many of `n` packets from `off` on have the PID.
pub count_pid : List ℕ → ℕ → ℕ → ℕ → ℕ
count_pid bytes pid off zero = 0
count_pid bytes pid off (suc n) =
    (if pid_of (get_or bytes (off + 1) 0) (get_or bytes (off + 2) 0) == pid then 1 else 0)
    + count_pid bytes pid (off + packet_size) n

count_packet-pid :
    (b1 b2 b3 pid : ℕ) (t : Tally)
    → (count_packet b1 b2 b3 t).pid_packets pid
      ≡ t.pid_packets pid + (if pid_of b1 b2 == pid then 1 else 0)
unfolding count_packet
count_packet-pid b1 b2 b3 pid t = elim (Bool-cases (pid == pid_of b1 b2)) [
  | inl e ↦ ground arith
  | inr e ↦ ground arith
]

update_loop-pid :
    (bytes : List ℕ) (pid off n : ℕ) (t : Tally)
    → (update_loop bytes off n t).pid_packets pid ≡ t.pid_packets pid + count_pid bytes pid off n
unfolding update_loop count_pid
update_loop-pid bytes pid off zero t = omega arith
update_loop-pid bytes pid off (suc n) t = omega (
  arith,
  update_loop-pid bytes pid (off + packet_size) n (round_at bytes off t),
  count_packet-pid (get_or bytes (off + 1) 0) (get_or bytes (off + 2) 0) (get_or bytes (off + 3) 0)
      pid t,
)

-- A call adds to each PID's entry the number of the packets that carry the PID, whatever else
-- they are counted as.
pub pid_packets-update :
    (a : TsAnalyzer) (bytes : List ℕ) (pid : ℕ)
    → (update a bytes).0.pid_packets pid
      ≡ a.pid_packets pid + count_pid bytes pid 0 (length bytes / 188)
unfolding update
pid_packets-update a bytes pid = elim (Bool-cases (length bytes / 188 == 0)) [
  | inl e ↦
      let e' : length bytes / 188 ≡ 0 = ground arith in
      rw (e', update) (unfold count_pid in omega arith)
  | inr e ↦ rw (e, update) (update_loop-pid bytes pid 0 _ (start a))
]

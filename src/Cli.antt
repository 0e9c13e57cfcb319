-- ===== src/Cli.antt =====
-- src/recdyud/cli.py: the stages that a packet passes from the aligner to the output.
pub mod Nulls
pub mod Output
pub mod Pipeline
pub mod Recorder
pub mod Session
pub mod Setup
mod Runs
use recdyud.Base.{
  ℕ, zero, suc, ◌+◌, ◌-◌, ◌*◌, ◌/◌, Bool, true, false, not, ◌||◌, Option, none, some, List, [], ◌∷◌,
  ◌++◌, length, get_or, drop, slice, join, ltb, ◌==◌, if◌then◌else◌,
}
use recdyud.Ts.{packet_size, null_pid}
use recdyud.Ts.Analyzer.{pid_of}

-- What the loop of `drop_null_packets` carries: where the current run of packets began, and the
-- pieces cut out before it.
pub record Run : Type 0 where
  pub start : Option ℕ
  pub out : List (List ℕ)

unfoldable pub is_null : List ℕ → ℕ → Bool
is_null packets off = pid_of (get_or packets (off + 1) 0) (get_or packets (off + 2) 0) == null_pid

-- The end of a run, before a null packet.
pub cut_run : List ℕ → ℕ → Run → Run
cut_run packets off r = elim (r.start) [
  | none ↦ r
  | some s ↦ record { start = none; out = r.out ++ (slice packets s off ∷ []) }
]

pub begin_run : ℕ → Run → Run
begin_run off r = elim (r.start) [ none ↦ record r { start = some off } | some s ↦ r ]

-- The `for` loop: `rounds` packets from `off` on.
pub null_loop : ℕ → List ℕ → ℕ → Run → Run
null_loop zero packets off r = r
null_loop (suc rounds) packets off r =
    null_loop rounds packets (off + packet_size)
      (if is_null packets off then cut_run packets off r else begin_run off r)

-- After the loop: all in one piece, the pieces, or the pieces and the run that reaches the end.
pub join_runs : List ℕ → Run → List ℕ
join_runs packets r = elim (r.start) [
  | none ↦ if ltb (length packets) packet_size then packets else join r.out
  | some zero ↦ packets
  | some (suc s) ↦
      if ltb (length packets) packet_size
      then packets
      else join (r.out ++ (drop (suc s) packets ∷ []))
]

unfoldable pub drop_null_packets : List ℕ → List ℕ
unfolding null_loop join_runs
drop_null_packets packets =
    join_runs packets
      (null_loop (length packets / packet_size) packets 0 (record { start = none; out = [] }))

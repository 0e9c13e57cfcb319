-- ===== src/Stream/Runs.antt =====
-- Runs of src/recdyud/stream.py: a chunk read, taken by the consumer, and another one queued; and
-- a `purge` over a tuner that sends a packet at each read.
use recdyud.Base.{ℕ, ◌+◌, ◌≡◌, refl, true, none, some, [], ◌∷◌, replicate, arith}
use recdyud.Protocol
use recdyud.Device.{Usb, DyUd200, success, Result}
use recdyud.Device.Waiting.{Clock}
use recdyud.Stream.{TsReader, init, begin_round, end_round, put_nowait, begins, returns, gets}
use recdyud.Stream.Account.{arrival, delivery, Run, start, next, Account, Run-Account}
use recdyud.Stream.Purge.{ReadsFlow, Purged, purge, purge-Purged}

-- The first chunk is queued.
abbrev queued : TsReader
queued = end_round (begin_round init 1) (7 ∷ 8 ∷ []) 2

-- It is delivered, and the next one queued.
abbrev delivered : TsReader
delivered = record (end_round (begin_round init 1) (7 ∷ 8 ∷ []) 2) { queue = [] }

abbrev last : TsReader
last = end_round (begin_round delivered 3) (9 ∷ []) 4

two_chunks : Run ((7 ∷ 8 ∷ []) ∷ (9 ∷ []) ∷ []) ((7 ∷ 8 ∷ []) ∷ []) last
unfolding begin_round end_round put_nowait arrival delivery
two_chunks =
    next
      (next
        (next (next (next start (begins 1 refl) refl refl) (returns (7 ∷ 8 ∷ []) 2 refl) refl refl)
          (gets (7 ∷ 8 ∷ []) [] refl) refl refl)
        (begins 3 refl) refl refl)
      (returns (9 ∷ []) 4 refl) refl refl

Run-Account_example : Account ((7 ∷ 8 ∷ []) ∷ (9 ∷ []) ∷ []) ((7 ∷ 8 ∷ []) ∷ []) last
Run-Account_example = Run-Account two_chunks

-- The state of the USB library is the time, and each read takes a tick.
abbrev steady : Usb ℕ
steady = record {
  write = λ u frame. (u, true);
  read = λ u. (u, none);
  bulk_read = λ u. (u + 1, (success, replicate 188 0x47));
  clear_halt = λ u. (u, success);
}

abbrev clock : Clock ℕ
clock = record { now = λ u. u; sleep = λ u n. u + n }

abbrev tuner : DyUd200 ℕ
tuner = record {
  usb = 50;
  codec = Protocol.init;
  bcas_pcb = 0;
  ts_errors = 0;
  ts_consecutive_errors = 0;
}

steady-ReadsFlow : ReadsFlow steady clock
steady-ReadsFlow = record {
  takes = λ u. omega arith;
  nothing = λ u e. omega arith;
  clears = λ u. omega arith;
}

purge-Purged_example :
    (z : DyUd200 ℕ × Result ℕ) × (purge steady clock 10 2 tuner ≡ some z)
    × Purged steady clock 80 tuner 376 z
purge-Purged_example = purge-Purged steady clock steady-ReadsFlow 10 2 tuner

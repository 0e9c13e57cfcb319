-- ===== src/Device/Runs.antt =====
-- Runs of src/recdyud/device.py with a cipher that changes nothing and scripted USB transfers.
use recdyud.Base.{ℕ, ◌+◌, ◌≤◌, ◌≡◌, refl, some, true, replicate, List, [], ◌∷◌, arith}
use recdyud.Protocol.{Crypto, init}
use recdyud.Device.Waiting.{Clock, wait_lock}
use recdyud.Device.Waiting.Ends.{TimeFlows, Ended, wait_lock-Ended}
use recdyud.Device.{Usb, DyUd200, Result, Code, success, timed_out, other, ok, bcas_transmit}
use recdyud.Device.ReadTs.{
  scripted, tuner, read_all, failures, fine, late, broken, read_all-present,
}
use recdyud.Device.Transmit.{Transmits, bcas_transmit-Transmits}

abbrev plain_crypto : Crypto
plain_crypto = record {
  crc32 = λ bytes. 5;
  encrypt = λ key bytes. bytes;
  decrypt = λ key bytes. bytes;
  crc32-lt = λ bytes. omega arith;
  length-encrypt = λ key bytes h. refl;
  decrypt-encrypt = λ key bytes h. refl;
}

abbrev answers : List (Code × List ℕ)
answers = (success, 1 ∷ []) ∷ (other, 2 ∷ []) ∷ (timed_out, []) ∷ (success, 3 ∷ []) ∷ []

read_all-present_example :
    (next total : ℕ) × (read_all 4 (tuner init 0 answers 7 2)
      ≡ (tuner init 0 [] total next, ok (1 ∷ 2 ∷ 3 ∷ [])))
    × (total ≡ 7 + failures answers)
    × (next ≤ 2 + failures answers)
unfolding failures
read_all-present_example =
    read_all-present init 0 answers 7 2
      (fine (1 ∷ []), (broken (2 ∷ []), (late [], (fine (3 ∷ []), tt)))) (omega arith)

-- A device that does not answer: three attempts.
bcas_transmit-Transmits_example :
    Transmits plain_crypto scripted
      (0x90 ∷ 0x30 ∷ 0 ∷ 0 ∷ 0 ∷ [])
      3
      (tuner init 0 [] 0 0)
      (bcas_transmit plain_crypto scripted (tuner init 0 [] 0 0) (0x90 ∷ 0x30 ∷ 0 ∷ 0 ∷ 0 ∷ []) 2)
bcas_transmit-Transmits_example =
    bcas_transmit-Transmits plain_crypto scripted (tuner init 0 [] 0 0)
      (0x90 ∷ 0x30 ∷ 0 ∷ 0 ∷ 0 ∷ []) 2

-- A tuner that answers with zero bytes, each answer after a tick, and the state is the time.
abbrev silent : Usb ℕ
silent = record {
  write = λ u frame. (u, true);
  read = λ u. (u + 1, some (replicate 128 0));
  bulk_read = λ u. (u + 1, (success, []));
  clear_halt = λ u. (u, success);
}

abbrev clock : Clock ℕ
clock = record { now = λ u. u; sleep = λ u n. u + n }

silent-TimeFlows : TimeFlows silent clock
silent-TimeFlows = record {
  write_takes = λ u frame. omega arith;
  read_takes = λ u. omega arith;
  sleep_takes = λ u n. omega arith;
}

abbrev waiting : DyUd200 ℕ
waiting = record { usb = 20; codec = init; bcas_pcb = 0; ts_errors = 0; ts_consecutive_errors = 0 }

wait_lock-Ended_example :
    (t : DyUd200 ℕ × Result ℕ) × (wait_lock plain_crypto silent clock waiting 30 4 ≡ some t)
    × Ended plain_crypto silent clock silent-TimeFlows 50 t
wait_lock-Ended_example =
    wait_lock-Ended plain_crypto silent clock silent-TimeFlows waiting 30 4 (omega arith)

-- ===== src/Device/ReadTs.antt =====
-- Runs of `read_ts` of src/recdyud/device.py over what the USB library answers.
use recdyud.Base.{
  ℕ, zero, suc, ◌+◌, ◌≤◌, ◌<◌, ◌≡◌, refl, ap, ◌∙◌, false, none, List, [], ◌∷◌, ◌++◌, length, leb,
  arith, join, map, All,
}
use recdyud.Protocol.{CommandCodec}
use recdyud.Device.{
  Code, success, timed_out, no_device, other, Usb, DyUd200, Result, ok, raise, received, failed,
  clear_ts, on_read, read_ts,
}

-- A USB library whose answers to `bulk_read` are given: at the end of the list the device is gone.
-- `clear_halt` never fails.
pub scripted : Usb (List (Code × List ℕ))
scripted = record {
  write = λ u frame. (u, false);
  read = λ u. (u, none);
  bulk_read = λ u. elim u [ [] ↦ ([], (no_device, [])) | answer ∷ rest ↦ (rest, answer) ];
  clear_halt = λ u. (u, success);
}

abbrev pub Tuner : Type 0
Tuner = DyUd200 (List (Code × List ℕ))

prepend : List ℕ → Tuner × Result (List ℕ) → Tuner × Result (List ℕ)
prepend bytes (d, raise e) = (d, raise e)
prepend bytes (d, ok more) = (d, ok (bytes ++ more))

and_then : Tuner × Result (List ℕ) → (Tuner → Tuner × Result (List ℕ)) → Tuner × Result (List ℕ)
unfolding prepend
and_then (d, raise e) calls = (d, raise e)
and_then (d, ok bytes) calls = prepend bytes (calls d)

-- So many calls, their data joined, until one raises.
pub read_all : ℕ → Tuner → Tuner × Result (List ℕ)
unfolding and_then
read_all zero d = (d, ok [])
read_all (suc calls) d = and_then (read_ts scripted d) (read_all calls)

-- The failures of a run.
unfoldable pub failures : List (Code × List ℕ) → ℕ
failures [] = 0
failures ((other, bytes) ∷ answers) = suc (failures answers)
failures ((code, bytes) ∷ answers) = failures answers

pub data IsPresent : Code × List ℕ → Type 0 where
  fine : (bytes : List ℕ) → IsPresent (success, bytes)
  late : (bytes : List ℕ) → IsPresent (timed_out, bytes)
  broken : (bytes : List ℕ) → IsPresent (other, bytes)

split :
    (answer : Code × List ℕ) (answers : List (Code × List ℕ))
    → failures (answer ∷ answers) ≡ failures (answer ∷ []) + failures answers
unfolding failures
split (success, bytes) answers = omega arith
split (timed_out, bytes) answers = omega arith
split (no_device, bytes) answers = omega arith
split (other, bytes) answers = omega arith

-- A tuner in a state, with the answers it will get.
abbrev pub tuner : CommandCodec → ℕ → List (Code × List ℕ) → ℕ → ℕ → Tuner
tuner codec pcb answers errors consecutive = record {
  usb = answers;
  codec = codec;
  bcas_pcb = pcb;
  ts_errors = errors;
  ts_consecutive_errors = consecutive;
}

module _ (codec : CommandCodec) (pcb : ℕ) where
  -- One call on a device that is there, with less than ten failures in a row counting this one.
  record One (answer : Code × List ℕ) (rest : List (Code × List ℕ)) (errors consecutive : ℕ)
      : Type 0 where
    next : ℕ
    total : ℕ
    result :
        read_ts scripted (tuner codec pcb (answer ∷ rest) errors consecutive)
        ≡ (tuner codec pcb rest total next, ok (answer.1))
    adds : total ≡ errors + failures (answer ∷ [])
    bound : next ≤ consecutive + failures (answer ∷ [])

  read_ts-One :
      (answer : Code × List ℕ) (rest : List (Code × List ℕ)) (errors consecutive : ℕ)
      → IsPresent answer
      → consecutive + failures (answer ∷ []) < 10
      → One answer rest errors consecutive
  unfolding read_ts on_read received failed clear_ts failures scripted
  read_ts-One answer rest e c (fine []) few = record {
    next = c;
    total = e;
    result = refl;
    adds = omega arith;
    bound = omega arith;
  }
  read_ts-One answer rest e c (fine (x ∷ bytes)) few = record {
    next = 0;
    total = e;
    result = refl;
    adds = omega arith;
    bound = omega arith;
  }
  read_ts-One answer rest e c (late []) few = record {
    next = c;
    total = e;
    result = refl;
    adds = omega arith;
    bound = omega arith;
  }
  read_ts-One answer rest e c (late (x ∷ bytes)) few = record {
    next = 0;
    total = e;
    result = refl;
    adds = omega arith;
    bound = omega arith;
  }
  read_ts-One answer rest e c (broken bytes) few =
      let below : leb 10 (c + 1) ≡ false = ground arith in
      record {
        next = c + 1;
        total = e + 1;
        result = rw (below, failed);
        adds = omega arith;
        bound = omega arith;
      }

  -- A run of `read_ts` on a device that stays present, with a `clear_halt` that works: if the
  -- failures in a row before the run and all failures in it are together less than ten, no call
  -- raises, every failure is counted, and all that arrived, also in the transfers that failed, is
  -- returned in order.
  pub read_all-present :
      (answers : List (Code × List ℕ)) (errors consecutive : ℕ)
      → All IsPresent answers
      → consecutive + failures answers < 10
      → (next total : ℕ) × (read_all (length answers) (tuner codec pcb answers errors consecutive)
          ≡ (tuner codec pcb [] total next, ok (join (map (λ answer. answer.1) answers))))
        × (total ≡ errors + failures answers)
        × (next ≤ consecutive + failures answers)
  unfolding read_all failures and_then prepend
  read_all-present [] e c h few = (c, e, refl, omega arith, omega arith)
  read_all-present (answer ∷ answers) e c (present, h) few =
      let one = read_ts-One answer answers e c present (omega (arith, split answer answers)) in
      let (next, total, run, adds, bound) =
        read_all-present answers (one.total) (one.next) h
          (omega (arith, split answer answers, one.bound)) in
      (
        next,
        total,
        ap (λ r. and_then r (read_all (length answers))) (one.result) ∙ ap (prepend (answer.1)) run,
        omega (arith, split answer answers, one.adds, adds),
        omega (arith, split answer answers, one.bound, bound),
      )

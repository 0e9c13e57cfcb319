-- ===== src/Cli/Recorder/Runs.antt =====
-- A recording by src/recdyud/cli.py without a descrambler, into a file that takes two bytes at a time.
use recdyud.Base.{
  ℕ, ◌≤◌, ◌<◌, ◌≡◌, refl, ap, true, false, none, some, List, [], ◌∷◌, ◌++◌, map, length, take,
  replicate, arith,
}
use recdyud.Ts.Aligner
use recdyud.Ts.Analyzer
use recdyud.Cli.Pipeline.{Library}
use recdyud.Cli.Pipeline
use recdyud.Cli.Output.{Writer, Output, took}
use recdyud.Cli.Output.Whole.{Appends}
use recdyud.Cli.Recorder.{Recorder, Turn, status, stream_body}
use recdyud.Cli.Recorder.Stage.{Stage}
use recdyud.Cli.Recorder.Written.{taken, stream_body-Stage}

-- At most two bytes of what it is given.
abbrev pair : List ℕ → List ℕ
pair bytes = take 2 bytes

abbrev slow_disk : Writer (List ℕ)
slow_disk = record {
  os_write = λ f view. (f ++ pair view, took (length (pair view)));
  os_close = λ f. f;
}

pair-take : (xs : List ℕ) → pair xs ≡ take (length (pair xs)) xs
pair-take [] = refl
pair-take (x ∷ []) = refl
pair-take (x ∷ y ∷ xs) = refl

slow_disk-Appends : Appends slow_disk (λ f. f)
slow_disk-Appends = record {
  count = λ f xs. length (pair xs);
  takes = λ f x xs. refl;
  some_byte = λ f x xs. positive x xs;
  at_most = λ f x xs. fits x xs;
  appends = λ f x xs. ap (◌++◌ f) (pair-take (x ∷ xs));
}
  where
    positive : (x : ℕ) (xs : List ℕ) → 0 < length (pair (x ∷ xs))
    positive x [] = omega arith
    positive x (y ∷ xs) = omega arith

    fits : (x : ℕ) (xs : List ℕ) → length (pair (x ∷ xs)) ≤ length (x ∷ xs)
    fits x [] = omega arith
    fits x (y ∷ xs) = omega arith

abbrev output : Output (List ℕ)
output = record { file = []; bytes = 0 }

-- A C library that the recording never calls.
abbrev unused : Library ℕ
unused = record {
  put = λ d xs. (d, true);
  get = λ d. (d, some []);
  withdraw = λ d. (d, none);
  flush_input = λ d. (d, true);
  close = λ d. d;
}

abbrev recorder : Recorder ℕ (List ℕ)
recorder = record {
  aligner = Aligner.init;
  analyzer = Analyzer.init;
  pipeline = Pipeline.init none 5;
  output = output;
}

abbrev packet : List ℕ
packet = 0x47 ∷ 0x01 ∷ 0 ∷ 0x10 ∷ replicate 184 0

abbrev turns : List Turn
turns =
    record {
      stopped = false;
      now = 3;
      chunk = some (packet ++ packet ++ packet ++ packet);
      later = 4;
    }
    ∷ record { stopped = false; now = 5; chunk = none; later = 5 }
    ∷ record { stopped = false; now = 10; chunk = some packet; later = 10 }
    ∷ []

stream_body-Stage_example :
    (r' : Recorder ℕ (List ℕ)) × (out : List ℕ) × (stream_body unused slow_disk false
        (some 10)
        recorder
        turns
        ((packet, 11) ∷ [])
        false
      ≡ (some r', status 0))
    × Stage unused slow_disk false
        (λ f. f)
        slow_disk-Appends
        recorder
        (map (λ c. c.0) (taken (some 10) turns ++ ((packet, 11) ∷ [])))
        out
        r'
unfolding Pipeline.init
stream_body-Stage_example =
    stream_body-Stage unused slow_disk false (λ f. f) slow_disk-Appends (some 10) recorder turns
      ((packet, 11) ∷ []) false refl

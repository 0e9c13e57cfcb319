-- ===== src/Diag/Runs.antt =====
-- A run of the monitor of src/recdyud/diag.py: a chunk, a report, and a round after the event.
use recdyud.Base.{ℕ, true, false, Option, none, some, List, [], ◌∷◌, replicate}
use recdyud.Device.{ok}
use recdyud.Ts.Analyzer.{TsCounters}
use recdyud.Diag.{Round}

abbrev euc : List ℕ → Option (List ℕ)
euc bytes = none

abbrev rounds : List Round
rounds =
    record {
      stopped = false;
      chunk = some (replicate 200 0);
      now = 5;
      status = ok (0, record { valid = false; raw = 0 });
    }
    ∷ record {
      stopped = false;
      chunk = none;
      now = 12;
      status = ok (9, record { valid = true; raw = 70000 });
    }
    ∷ record {
      stopped = true;
      chunk = none;
      now = 13;
      status = ok (9, record { valid = true; raw = 70000 });
    }
    ∷ []

abbrev clean : TsCounters
clean = record { packets = 9000; tei = 0; cc_errors = 0; scrambled = 8000; null = 100 }

-- ===== src/Ts/Analyzer/Runs.antt =====
-- Runs of `TsAnalyzer.update` of src/recdyud/ts.py on three packets of one PID.
use recdyud.Base.{ℕ, ◌≡◌, ◌↔◌, refl, List, ◌∷◌, ◌++◌, replicate}
use mathlib.Core.Option.{none-ne-some}
use recdyud.Ts.Analyzer.{init, update_loop, count_packet, update}
use recdyud.Ts.Analyzer.Continuity.{Nibbles, Continuous, update-Continuous}

abbrev packet : ℕ → List ℕ
packet b3 = 0x47 ∷ 0x01 ∷ 0x11 ∷ b3 ∷ replicate 184 0

abbrev stream : List ℕ
stream = packet 0x1e ++ (packet 0x1f ++ packet 0x10)

-- The counter goes on from 15 to 0 without an error, and a gap is one.
continues : (update init stream).1.cc_errors ≡ 0
unfolding update update_loop count_packet
continues = refl

no_counters : Nibbles init.last_cc
no_counters pid prev e = absurd (none-ne-some prev e)

update-Continuous_example :
    ((update init stream).1.cc_errors ≡ 0) ↔ Continuous stream 0 3 init.last_cc
update-Continuous_example = update-Continuous init stream no_counters

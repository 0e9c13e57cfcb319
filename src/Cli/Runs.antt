-- ===== src/Cli/Runs.antt =====
-- A run of `drop_null_packets` of src/recdyud/cli.py: a run, a null packet and another run.
use recdyud.Base.{ℕ, ◌≡◌, refl, List, [], ◌∷◌, ◌++◌, replicate, join}
use recdyud.Cli.{is_null, drop_null_packets}
use recdyud.Cli.Nulls.{kept, AreWhole, drop_null_packets-kept}

abbrev full : ℕ → List ℕ
full pid = 0x47 ∷ 0x01 ∷ pid ∷ 0x10 ∷ replicate 184 0

abbrev null : List ℕ
null = 0x47 ∷ 0x1f ∷ 0xff ∷ 0x10 ∷ replicate 184 0

abbrev packets : List (List ℕ)
packets = null ∷ full 1 ∷ full 2 ∷ null ∷ full 3 ∷ []

packets-AreWhole : AreWhole packets
packets-AreWhole = (refl, (refl, (refl, (refl, (refl, tt)))))

drop_null_packets-kept_example :
    drop_null_packets (join packets) ≡ full 1 ++ (full 2 ++ (full 3 ++ []))
unfolding kept is_null
drop_null_packets-kept_example = drop_null_packets-kept packets packets-AreWhole

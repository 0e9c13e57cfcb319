-- ===== src/Ts/Aligner/Runs.antt =====
-- Runs of `_find_sync` and `PacketAligner` of src/recdyud/ts.py on a stream of five packets.
use recdyud.Base.{
  ℕ, zero, suc, ◌*◌, ◌<◌, ◌≡◌, refl, true, some, List, [], ◌∷◌, ◌++◌, get_or, take, drop, replicate,
  join, arith,
}
use recdyud.Ts.{sync_byte}
use recdyud.Ts.Aligner.{PacketAligner, init, feed}
use recdyud.Ts.Aligner.Output.{FeedSpec, InSync, feed_total}

abbrev packet : List ℕ
packet = 0x47 ∷ 0x1f ∷ 0xff ∷ 0x10 ∷ replicate 184 0

abbrev stream : List ℕ
stream = 0x00 ∷ 0x47 ∷ 0x00 ∷ (packet ++ (packet ++ (packet ++ (packet ++ packet))))

abbrev locked : PacketAligner
locked = record { pending = take 100 packet; locked = true; sync_losses = 0; skipped_bytes = 3 }

feed_total_example :
    (a' : PacketAligner) × (out : List ℕ) × (feed init stream ≡ some (a', out))
    × FeedSpec init stream a' out
feed_total_example = feed_total init stream

two_synced :
    (k : ℕ)
    → k < 2
    → get_or (locked.pending ++ (drop 100 packet ++ (packet ++ take 5 packet))) (k * 188) 0
      ≡ sync_byte
two_synced zero h = refl
two_synced (suc zero) h = refl
two_synced (suc (suc k)) h = absurd (omega arith)

in_sync : InSync (locked.pending ++ join (drop 100 packet ∷ packet ∷ []))
in_sync zero h = refl
in_sync (suc zero) h = refl
in_sync (suc (suc k)) h = absurd (omega arith)

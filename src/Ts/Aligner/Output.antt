-- ===== src/Ts/Aligner/Output.antt =====
-- `PacketAligner.feed` of src/recdyud/ts.py on any chunk, and on an aligned stream.
use recdyud.Base.{
  ℕ, suc, ◌+◌, ◌-◌, ◌*◌, ◌/◌, ◌≤◌, ◌<◌, ◌≡◌, refl, true, some, List, [], ◌∷◌, ◌++◌, length, get_or,
  take, drop, slice, join, arith, length-append, length-take, length-drop, take-append-drop,
  get_or-append_lt, get_or-append_ge,
}
use recdyud.Ts.{sync_byte}
use recdyud.Ts.Aligner.{PacketAligner, Feed, feed_loop, feed, feed_all}
use recdyud.Ts.Aligner.Framing.{Packets, Packets-nil}
use recdyud.Ts.Aligner.Loop.{Ends, feed_loop_lem, feed_loop_aligned}
use mathlib.Core.List.{Sublist, append-nil, append_assoc}
use native.Mathlib.Numerals.{add-one}
use mathlib.Core.List.Sublist

-- What one call promises: whole packets, in order, and an account of every byte.
pub record FeedSpec (a : PacketAligner) (chunk : List ℕ) (a' : PacketAligner) (out : List ℕ)
    : Type 0 where
  pub framed : (n : ℕ) × Packets n out
  pub account :
      length out + length a'.pending + a'.skipped_bytes + a'.sync_losses
      ≡ length a.pending + length chunk + a.skipped_bytes + a.sync_losses
  pub order : Sublist (out ++ a'.pending) (a.pending ++ chunk)
  pub bounded : length a'.pending ≤ 752

-- The variables of the loop as it begins.
abbrev start : PacketAligner → Feed
start a = record {
  pos = 0;
  out = [];
  locked = a.locked;
  sync_losses = a.sync_losses;
  skipped_bytes = a.skipped_bytes;
}

-- On every state and every chunk `feed` ends without an exception. What it returns is whole
-- packets that begin with a sync byte; output and new pending bytes are the old pending bytes and
-- the chunk, in order, less bytes of which each is counted once, as skipped or as a lost sync; and
-- at most 752 bytes stay pending.
pub feed_total :
    (a : PacketAligner) (chunk : List ℕ)
    → (a' : PacketAligner) × (out : List ℕ) × (feed a chunk ≡ some (a', out))
      × FeedSpec a chunk a' out
unfolding feed
feed_total a chunk =
    let (t, run, (n, v), short) = ends in
    (
      record {
        pending = drop t.pos bytes;
        locked = t.locked;
        sync_losses = t.sync_losses;
        skipped_bytes = t.skipped_bytes;
      },
      t.out,
      rw (run, feed),
      record {
        framed = (n, v.framed);
        account =
            omega
              (arith, v.balance, v.within, length-drop t.pos bytes, length-append a.pending chunk);
        order = v.kept;
        bounded = omega (arith, length-drop t.pos bytes);
      },
    )
  where
    bytes : List ℕ
    bytes = a.pending ++ chunk

    ends : Ends (length bytes + 1) bytes (a.skipped_bytes + a.sync_losses) (start a)
    ends = feed_loop_lem (length bytes + 1) bytes _ (start a) (omega arith) (
      0,
      record {
        within = omega arith;
        balance = omega arith;
        framed = Packets-nil;
        kept = Sublist.refl bytes;
      },
    )

-- In the locked state, if every whole packet at hand begins with a sync byte, `feed` returns all
-- of them, keeps the incomplete rest, and changes no counter.
pub feed_aligned :
    (a : PacketAligner) (chunk : List ℕ) (count : ℕ)
    → a.locked ≡ true
    → length (a.pending ++ chunk) / 188 ≡ count
    → ((k : ℕ) → k < count → get_or (a.pending ++ chunk) (k * 188) 0 ≡ sync_byte)
    → feed a chunk
      ≡ some (
        record a { pending = drop (count * 188) (a.pending ++ chunk) },
        take (count * 188) (a.pending ++ chunk),
      )
unfolding feed
feed_aligned a chunk count locked e synced =
    let ea : 0 + count * 188 ≡ count * 188 = omega arith in
    let eb : count * 188 - 0 ≡ count * 188 = omega arith in rw (add-one, run, feed) (rw (ea, eb))
  where
    bytes : List ℕ
    bytes = a.pending ++ chunk

    run :
        feed_loop (suc (length bytes)) bytes (start a)
        ≡ some (record (start a) {
          out = [] ++ slice bytes 0 (0 + count * 188);
          pos = 0 + count * 188;
        })
    run =
        feed_loop_aligned (length bytes) bytes (start a) count locked (omega arith)
          (λ k lt. let ek : 0 + k * 188 ≡ k * 188 = omega arith in rw ek (synced k lt))

-- A sync byte at each packet boundary of the bytes.
abbrev pub InSync : List ℕ → Type 0
InSync bytes = (k : ℕ) → k * 188 < length bytes → get_or bytes (k * 188) 0 ≡ sync_byte

-- An aligned stream passes whole, however it is cut into chunks: what comes out and what stays
-- pending are together exactly what went in, less than a packet stays, and no counter moves.
pub feed_all-InSync :
    (chunks : List (List ℕ)) (a : PacketAligner)
    → a.locked ≡ true
    → length a.pending < 188
    → InSync (a.pending ++ join chunks)
    → (rest out : List ℕ) × (feed_all a chunks ≡ some (record a { pending = rest }, out))
      × (out ++ rest ≡ a.pending ++ join chunks)
      × (length rest < 188)
unfolding feed_all
feed_all-InSync [] a locked short synced = (a.pending, [], refl, rw append-nil, short)
feed_all-InSync (chunk ∷ chunks) a locked short synced =
    let (rest, out, run, whole, left) =
      feed_all-InSync chunks a' locked (omega (arith, length-drop (count * 188) bytes)) later in
    (
      rest,
      take (count * 188) bytes ++ out,
      rw (feed_aligned a chunk count locked refl now, run, feed_all),
      rw (append_assoc (take (count * 188) bytes) out rest, whole) split,
      left,
    )
  where
    bytes : List ℕ
    bytes = a.pending ++ chunk

    count : ℕ
    count = length bytes / 188

    a' : PacketAligner
    a' = record a { pending = drop (count * 188) bytes }

    split :
        take (count * 188) bytes ++ (drop (count * 188) bytes ++ join chunks)
        ≡ a.pending ++ (chunk ++ join chunks)
    split =
        rw
          (
            ← append_assoc (take (count * 188) bytes) (drop (count * 188) bytes) (join chunks),
            take-append-drop (count * 188) bytes,
          )
          (append_assoc a.pending chunk (join chunks))

    all : InSync (bytes ++ join chunks)
    all = rw (append_assoc a.pending chunk (join chunks)) synced

    now : (k : ℕ) → k < count → get_or bytes (k * 188) 0 ≡ sync_byte
    now k lt =
        rw (get_or-append_lt bytes (join chunks) (k * 188) 0 (omega arith)) at
          (all k (omega (arith, length-append bytes (join chunks))))

    later : InSync (drop (count * 188) bytes ++ join chunks)
    later k lt =
        rw
          (← get_or-append_ge (take (count * 188) bytes) (drop (count * 188) bytes ++ join chunks)
            ((count + k) * 188) (k * 188) 0 (omega (arith, length-take (count * 188) bytes)))
          (rw (split, ← append_assoc a.pending chunk (join chunks))
            (all (count + k) (
              omega (
                arith,
                length-append bytes (join chunks),
                length-append (drop (count * 188) bytes) (join chunks),
                length-drop (count * 188) bytes,
              ))))

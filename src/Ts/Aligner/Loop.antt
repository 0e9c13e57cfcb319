-- ===== src/Ts/Aligner/Loop.antt =====
-- The rounds of `PacketAligner.feed` of src/recdyud/ts.py: what each keeps, and that they end.
use recdyud.Base.{
  ℕ, zero, suc, ◌+◌, ◌-◌, ◌*◌, ◌/◌, ◌≤◌, ◌<◌, ◌≡◌, refl, inl, inr, Bool, true, false, Option, none,
  some, List, ◌++◌, length, get_or, drop, slice, ◌==◌, Bool-cases, ==_iff, arith, length-append,
  length-take, length-drop,
}
use recdyud.Ts.{sync_byte}
use recdyud.Ts.Aligner.{
  Feed, Round, broke, went_on, raised, find_sync, heads, good_heads, acquire, cut, feed_loop,
  Search, out_of_range, nowhere, at,
}
use recdyud.Ts.Aligner.Sync.{Finds, find_sync-Finds}
use recdyud.Ts.Aligner.Heads.{length-heads, get_or-heads, Good, good_heads-Good, good_heads_all}
use recdyud.Ts.Aligner.Framing.{
  Packets, Packets-append, slice-Packets, append-slice-drop, skip-Sublist,
}
use mathlib.Core.List.{Sublist, append-nil}
use mathlib.Core.List.Sublist

-- Of the bytes before `pos`, each is in the output, counted as skipped, or counted as a loss.
pub record Inv (bytes : List ℕ) (base n : ℕ) (s : Feed) : Type 0 where
  pub within : s.pos ≤ length bytes
  pub balance : length s.out + s.skipped_bytes + s.sync_losses ≡ s.pos + base
  pub framed : Packets n s.out
  pub kept : Sublist (s.out ++ drop s.pos bytes) bytes

abbrev pub Holds : List ℕ → ℕ → Feed → Type 0
Holds bytes base s = (n : ℕ) × Inv bytes base n s

abbrev AfterAcquire : List ℕ → ℕ → Feed → Round → Type 0
AfterAcquire bytes base s (broke t) = Holds bytes base t × (length bytes ≤ t.pos + 752)
AfterAcquire bytes base s (went_on t) = Holds bytes base t × (s.pos ≤ t.pos)
AfterAcquire bytes base s raised = ⊥

abbrev AfterCut : List ℕ → ℕ → Feed → Round → Type 0
AfterCut bytes base s (broke t) = Holds bytes base t × (length bytes < t.pos + 188)
AfterCut bytes base s (went_on t) = Holds bytes base t × (s.pos < t.pos)
AfterCut bytes base s raised = ⊥

skip-Inv :
    (bytes : List ℕ) (base n : ℕ) (s : Feed) (pos' : ℕ) (locked : Bool)
    → Inv bytes base n s
    → s.pos ≤ pos'
    → pos' ≤ length bytes
    → Inv bytes base n
        (record s { skipped_bytes = s.skipped_bytes + (pos' - s.pos); pos = pos'; locked = locked })
skip-Inv bytes base n s pos' locked v le fits = record {
  within = fits;
  balance = omega (arith, v.balance);
  framed = v.framed;
  kept = Sublist.trans (skip-Sublist s.out bytes s.pos pos' le) v.kept;
}

acquire_lem :
    (bytes : List ℕ) (base : ℕ) (s : Feed)
    → Holds bytes base s
    → AfterAcquire bytes base s (acquire bytes s)
unfolding acquire
acquire_lem bytes base s (n, v) = elim (Bool-cases s.locked) [
  | inl e ↦ rw (e, acquire) ((n, v), omega arith)
  | inr e ↦ searched e (find_sync bytes s.pos) refl (find_sync-Finds bytes s.pos)
]
  where
    searched :
        s.locked ≡ false
        → (r : Search) → find_sync bytes s.pos ≡ r
        → Finds bytes s.pos (length bytes - 564) r
        → AfterAcquire bytes base s (acquire bytes s)
    searched e out_of_range miss f = absurd f
    searched e nowhere miss f =
        rw (e, miss, acquire)
          (
            (n, skip-Inv bytes base n s _ s.locked v (omega arith) (omega (arith, v.within))),
            omega arith,
          )
    searched e (at j) hit f =
        rw (e, hit, acquire) ((n, skip-Inv bytes base n s j true v f.0 (omega arith)), f.0)

module _ (bytes : List ℕ) (base n : ℕ) (s : Feed) (v : Inv bytes base n s) where
  -- The good packets go to the output.
  take-Inv :
      (good end : ℕ)
      → s.pos + good * 188 ≡ end
      → end ≤ length bytes
      → ((k : ℕ) → k < good → get_or bytes (s.pos + k * 188) 0 ≡ sync_byte)
      → Inv bytes base (n + good) (record s { out = s.out ++ slice bytes s.pos end; pos = end })
  take-Inv good end e fits ok = record {
    within = fits;
    balance = omega (
      arith,
      v.balance,
      length-append s.out (slice bytes s.pos end),
      length-take (end - s.pos) (drop s.pos bytes),
      length-drop s.pos bytes,
    );
    framed = Packets-append n good _ _ v.framed (slice-Packets bytes s.pos good end e fits ok);
    kept = rw (append-slice-drop s.out bytes s.pos end (omega arith)) v.kept;
  }

  -- One byte is dropped where the sync was lost.
  lose-Inv :
      s.pos < length bytes
      → Inv bytes base n
          (record s { locked = false; sync_losses = s.sync_losses + 1; pos = s.pos + 1 })
  lose-Inv lt = record {
    within = omega arith;
    balance = omega (arith, v.balance);
    framed = v.framed;
    kept = Sublist.trans (skip-Sublist s.out bytes s.pos (s.pos + 1) (omega arith)) v.kept;
  }

-- The whole packets that are left.
abbrev pub whole : List ℕ → Feed → ℕ
whole bytes s = (length bytes - s.pos) / 188

abbrev found : List ℕ → Feed → Option ℕ
found bytes s = good_heads (heads bytes s.pos (whole bytes s)) (whole bytes s)

-- A round that found `good` packets.
cut-Good :
    (bytes : List ℕ) (base n good : ℕ) (s : Feed)
    → (whole bytes s == 0) ≡ false
    → found bytes s ≡ some good
    → Good (heads bytes s.pos (whole bytes s)) 0 (whole bytes s) (some good)
    → Inv bytes base n s
    → AfterCut bytes base s (cut bytes s)
unfolding cut
cut-Good bytes base n good s pos e (_, le, ok, bad) v = elim (Bool-cases (good == whole bytes s)) [
  | inl all ↦ rw (pos, e, all, cut) ((n + good, taken), ground arith)
  | inr some_bad ↦
      rw (pos, e, some_bad, cut)
        ((n + good, lose-Inv bytes base (n + good) _ taken (ground arith)), omega arith)
]
  where
    synced : (k : ℕ) → k < good → get_or bytes (s.pos + k * 188) 0 ≡ sync_byte
    synced k lt =
        rw (get_or-heads bytes s.pos (whole bytes s) k (omega arith)) at (ok k (omega arith))

    taken : Inv bytes base (n + good) (record s {
      out = s.out ++ slice bytes s.pos (s.pos + good * 188);
      pos = s.pos + good * 188;
    })
    taken =
        take-Inv bytes base n s v good (s.pos + good * 188) refl (omega (arith, v.within)) synced

cut-found :
    (bytes : List ℕ) (base n : ℕ) (s : Feed)
    → Inv bytes base n s
    → (whole bytes s == 0) ≡ false
    → (r : Option ℕ) → found bytes s ≡ r
    → Good (heads bytes s.pos (whole bytes s)) 0 (whole bytes s) r
    → AfterCut bytes base s (cut bytes s)
cut-found bytes base n s v pos none e g = absurd g
cut-found bytes base n s v pos (some good) e g = cut-Good bytes base n good s pos e g v

cut_lem :
    (bytes : List ℕ) (base : ℕ) (s : Feed)
    → Holds bytes base s
    → AfterCut bytes base s (cut bytes s)
unfolding cut
cut_lem bytes base s (n, v) = elim (Bool-cases (whole bytes s == 0)) [
  | inl e ↦ rw (e, cut) ((n, v), ground arith)
  | inr e ↦
      cut-found bytes base n s v e (found bytes s) refl
        (good_heads-Good _ (whole bytes s) (length-heads bytes s.pos (whole bytes s)))
]

abbrev pub Ends : ℕ → List ℕ → ℕ → Feed → Type 0
Ends fuel bytes base s =
    (t : Feed) × (feed_loop fuel bytes s ≡ some t)
    × Holds bytes base t
    × (length bytes ≤ t.pos + 752)

after_cut :
    (fuel : ℕ) (bytes : List ℕ) (base : ℕ) (s s' : Feed)
    → ((t : Feed) → s.pos < t.pos → Holds bytes base t → Ends fuel bytes base t)
    → acquire bytes s ≡ went_on s'
    → s.pos ≤ s'.pos
    → (r : Round) → cut bytes s' ≡ r
    → AfterCut bytes base s' r
    → Ends (suc fuel) bytes base s
unfolding feed_loop
after_cut fuel bytes base s s' rec e le (broke t) e' a =
    (t, rw (e, e', feed_loop), a.0, omega arith)
after_cut fuel bytes base s s' rec e le (went_on t) e' a =
    let (u, run, holds, short) = rec t (omega arith) a.0 in
    (u, rw (e, e', feed_loop) run, holds, short)
after_cut fuel bytes base s s' rec e le raised e' a = absurd a

after_acquire :
    (fuel : ℕ) (bytes : List ℕ) (base : ℕ) (s : Feed)
    → ((t : Feed) → s.pos < t.pos → Holds bytes base t → Ends fuel bytes base t)
    → (r : Round) → acquire bytes s ≡ r
    → AfterAcquire bytes base s r
    → Ends (suc fuel) bytes base s
unfolding feed_loop
after_acquire fuel bytes base s rec (broke t) e a = (t, rw (e, feed_loop), a.0, a.1)
after_acquire fuel bytes base s rec raised e a = absurd a
after_acquire fuel bytes base s rec (went_on t) e a =
    after_cut fuel bytes base s t rec e a.1 (cut bytes t) refl (cut_lem bytes base t a.0)

-- Enough fuel: the loop ends, raises nothing, and leaves at most 752 bytes.
pub feed_loop_lem :
    (fuel : ℕ) (bytes : List ℕ) (base : ℕ) (s : Feed)
    → length bytes < s.pos + fuel
    → Holds bytes base s
    → Ends fuel bytes base s
feed_loop_lem zero bytes base s h (n, v) = absurd (omega (arith, v.within))
feed_loop_lem (suc fuel) bytes base s h v =
    after_acquire fuel bytes base s
      (λ t lt hold. feed_loop_lem fuel bytes base t (omega arith) hold) (acquire bytes s) refl
      (acquire_lem bytes base s v)

-- Aligned input in the locked state: one round takes all whole packets.
pub feed_loop_aligned :
    (fuel : ℕ) (bytes : List ℕ) (s : Feed) (count : ℕ)
    → s.locked ≡ true
    → whole bytes s ≡ count
    → ((k : ℕ) → k < count → get_or bytes (s.pos + k * 188) 0 ≡ sync_byte)
    → feed_loop (suc fuel) bytes s
      ≡ some (record s {
        out = s.out ++ slice bytes s.pos (s.pos + count * 188);
        pos = s.pos + count * 188;
      })
unfolding feed_loop acquire cut
feed_loop_aligned fuel bytes s count locked e synced = elim (Bool-cases (whole bytes s == 0)) [
  | inl none_left ↦
      let ep : s.pos + count * 188 ≡ s.pos = ground arith in
      let ez : s.pos - s.pos ≡ 0 = omega arith in
      rw (ep, ez, append-nil, feed_loop)
        (rw (locked, none_left, feed_loop) (λ i. some (record s { locked = locked i })))
  | inr some_left ↦
      rw (locked, some_left, all, (==_iff (whole bytes s) (whole bytes s)).1 refl, feed_loop)
        (rw e (λ i. some (record s {
          pos = s.pos + count * 188;
          out = s.out ++ slice bytes s.pos (s.pos + count * 188);
          locked = locked i;
        })))
]
  where
    all : found bytes s ≡ some (whole bytes s)
    all =
        good_heads_all (heads bytes s.pos (whole bytes s)) (whole bytes s)
          (length-heads bytes s.pos (whole bytes s))
          (λ k lt. rw (get_or-heads bytes s.pos (whole bytes s) k lt) (synced k (omega arith)))

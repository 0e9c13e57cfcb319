-- ===== src/Cli/Setup/Kept.antt =====
-- The handles of the C library while `Pipeline` of src/recdyud/cli.py uses it.
use recdyud.Base.{
  ℕ, ◌-◌, ◌≡◌, Bool, true, false, not, ◌&&◌, Option, none, some, List, [], ◌∷◌, leb, ltb,
  if◌then◌else◌, if-both,
}
use recdyud.B25.{Card, Native, Descrambler, library}
use recdyud.B25.Lifetime.{
  Logged, logged, Owned, use_put, use_get, use_withdraw, apply, apply-Owned, flush_input-Owned,
  close-destroys,
}
use recdyud.Cli.Pipeline.{
  Library, Pipeline, fall_back, put_get, withdraw_or, recover, flush, waiting, answer, process_with,
  process, flushed, finish_with, finish, released, process_all,
}

module _ {W H K : Type 0} (native : Native W H) (card : Card K) where
  abbrev pub calls : Library (Descrambler (Logged W H) H K)
  calls = library (logged native) card

  -- The descrambler in use holds what is not destroyed, or the one that was closed holds nothing.
  unfoldable pub Kept :
      Option (Descrambler (Logged W H) H K) → Option (Descrambler (Logged W H) H K) → Type 0
  Kept none none = ⊥
  Kept none (some x) = x.lib.destroyed ≡ x.lib.made
  Kept (some x) c = Owned x

  abbrev PipelineKept : Pipeline (Descrambler (Logged W H) H K) → Type 0
  PipelineKept p = Kept p.descrambler p.retired

  fall_back-Kept :
      (p : Pipeline (Descrambler (Logged W H) H K)) (x : Descrambler (Logged W H) H K)
      (pending : List ℕ)
      → Owned x
      → PipelineKept (fall_back calls p x pending).0
  unfolding fall_back Kept library
  fall_back-Kept p x pending owned = close-destroys native card x owned

  put-Owned :
      (x : Descrambler (Logged W H) H K) (packets : List ℕ)
      → Owned x
      → Owned (calls.put x packets).0
  unfolding library apply
  put-Owned x packets owned = apply-Owned native card (use_put packets) x owned

  get-Owned : (x : Descrambler (Logged W H) H K) → Owned x → Owned (calls.get x).0
  unfolding library apply
  get-Owned x owned = apply-Owned native card use_get x owned

  withdraw-Owned : (x : Descrambler (Logged W H) H K) → Owned x → Owned (calls.withdraw x).0
  unfolding library apply
  withdraw-Owned x owned = apply-Owned native card use_withdraw x owned

  fed-Owned : (x : Descrambler (Logged W H) H K) → Owned x → Owned (calls.flush_input x).0
  unfolding library
  fed-Owned x owned = flush_input-Owned native card x owned

  put_get-Owned :
      (x : Descrambler (Logged W H) H K) (packets : List ℕ)
      → Owned x
      → Owned (put_get calls x packets).0
  unfolding put_get
  put_get-Owned x packets owned =
      if-both {A = Descrambler (Logged W H) H K × Option (List ℕ)} (λ t. Owned t.0)
        (calls.put x packets).1 _ _
        (λ h. get-Owned (calls.put x packets).0 (put-Owned x packets owned))
        (λ h. put-Owned x packets owned)

  flush-Owned : (x : Descrambler (Logged W H) H K) → Owned x → Owned (flush calls x).0
  unfolding flush
  flush-Owned x owned =
      if-both {A = Descrambler (Logged W H) H K × Option (List ℕ)} (λ t. Owned t.0)
        (calls.flush_input x).1 _ _ (λ h. get-Owned (calls.flush_input x).0 (fed-Owned x owned))
        (λ h. fed-Owned x owned)

  module _ (p : Pipeline (Descrambler (Logged W H) H K)) where
    waiting-Kept :
        (first : Option ℕ) (x : Descrambler (Logged W H) H K) (packets : List ℕ) (now : ℕ)
        → Owned x
        → PipelineKept (waiting calls first p x packets now).0
    unfolding waiting Kept
    waiting-Kept none x packets now owned = owned
    waiting-Kept (some t) x packets now owned =
        if-both {A = Pipeline (Descrambler (Logged W H) H K) × List ℕ} (λ r. PipelineKept r.0)
          (leb p.start_timeout (now - t)) _ _
          (λ h.
            fall_back-Kept p (calls.withdraw x).0 (withdraw_or calls x packets)
              (withdraw-Owned x owned))
          (λ h. owned)

    answer-Kept :
        (out : Option (List ℕ)) (x : Descrambler (Logged W H) H K) (packets : List ℕ) (now : ℕ)
        → Owned x
        → PipelineKept (answer calls out p x packets now).0
    unfolding answer Kept
    answer-Kept none x packets now owned =
        fall_back-Kept p (calls.withdraw x).0 (recover calls x packets) (withdraw-Owned x owned)
    answer-Kept (some (b ∷ out)) x packets now owned = owned
    answer-Kept (some []) x packets now owned =
        if-both {A = Pipeline (Descrambler (Logged W H) H K) × List ℕ} (λ r. PipelineKept r.0)
          (not p.producing && ltb 0 p.start_timeout) _ _
          (λ h. waiting-Kept p.first_input x packets now owned) (λ h. owned)

    process_with-Kept :
        (o : Option (Descrambler (Logged W H) H K)) (packets : List ℕ) (now : ℕ)
        → Kept o p.retired
        → PipelineKept p
        → PipelineKept (process_with calls o p packets now).0
    unfolding process_with Kept
    process_with-Kept none packets now held kept = kept
    process_with-Kept (some x) packets now held kept =
        answer-Kept (put_get calls x packets).1 (put_get calls x packets).0 packets now
          (put_get-Owned x packets held)

    finish_with-Kept :
        (o : Option (Descrambler (Logged W H) H K))
        → Kept o p.retired
        → PipelineKept p
        → PipelineKept (finish_with calls o p).0
    unfolding finish_with Kept
    finish_with-Kept none held kept = kept
    finish_with-Kept (some x) held kept =
        by_tail (flush calls x).1 (flush calls x).0 (flush-Owned x held)
      where
        by_tail :
            (tail : Option (List ℕ)) (x : Descrambler (Logged W H) H K)
            → Owned x
            → PipelineKept (flushed calls p x tail).0
        by_tail (some out) x owned = owned
        by_tail none x owned = withdraw-Owned x owned

  process_all-Kept :
      (inputs : List (List ℕ × ℕ)) (p : Pipeline (Descrambler (Logged W H) H K))
      → PipelineKept p
      → PipelineKept (process_all calls p inputs).0
  unfolding process_all process
  process_all-Kept [] p kept = kept
  process_all-Kept ((packets, now) ∷ inputs) p kept =
      process_all-Kept inputs (process calls p packets now).0
        (process_with-Kept p p.descrambler packets now kept kept)

  -- Whether the calls end with `finish`, or with an exception before it.
  unfoldable pub served :
      Bool
      → Pipeline (Descrambler (Logged W H) H K)
      → List (List ℕ × ℕ)
      → Pipeline (Descrambler (Logged W H) H K)
  unfolding process_all finish
  served finishes p inputs =
      if finishes
      then (finish calls (process_all calls p inputs).0).0
      else (process_all calls p inputs).0

  pub served-Kept :
      (finishes : Bool) (p : Pipeline (Descrambler (Logged W H) H K)) (inputs : List (List ℕ × ℕ))
      → PipelineKept p
      → PipelineKept (served finishes p inputs)
  unfolding served finish
  served-Kept true p inputs kept =
      finish_with-Kept _ _ (process_all-Kept inputs p kept) (process_all-Kept inputs p kept)
  served-Kept false p inputs kept = process_all-Kept inputs p kept

  -- Nothing is left of the descrambler that the pipeline has had.
  abbrev pub AllDestroyed : Option (Descrambler (Logged W H) H K) → Type 0
  AllDestroyed none = ⊥
  AllDestroyed (some x) = x.lib.destroyed ≡ x.lib.made

  pub released-AllDestroyed :
      (p : Pipeline (Descrambler (Logged W H) H K))
      → PipelineKept p
      → AllDestroyed (released calls p)
  unfolding released Kept library
  released-AllDestroyed p kept = closed p.descrambler p.retired kept
    where
      closed :
          (o c : Option (Descrambler (Logged W H) H K))
          → Kept o c
          → AllDestroyed (elim o [ none ↦ c | some x ↦ some (calls.close x) ])
      closed none none kept = kept
      closed none (some x) kept = kept
      closed (some x) c kept = close-destroys native card x kept

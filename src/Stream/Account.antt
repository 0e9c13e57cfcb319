-- ===== src/Stream/Account.antt =====
-- What the queue of `TsReader` (src/recdyud/stream.py) loses and keeps, in any interleaving.
use recdyud.Base.{
  ℕ, ◌+◌, ◌≤◌, ◌≡◌, refl, ap, sym, subst, ◌∙◌, ◌⊎◌, inl, inr, true, false, List, [], ◌∷◌, ◌++◌,
  length, ltb, join, join-append, if-both, ltb→lt, length-append, arith,
}
use recdyud.Stream.{
  TsReader, Place, at_loop, reading, ended, init, queue_chunks, begin_round, put_nowait, end_round,
  failing, fail, signal, signals, Step, begins, returns, raises, gets, halts, stops,
}
use mathlib.Core.List.{Sublist, append_assoc, append-nil}
use mathlib.Core.List.Sublist

-- The data that a step brings from the tuner, and the chunk that it hands to the consumer.
unfoldable pub arrival : {r r' : TsReader} → Step r r' → List (List ℕ)
arrival (begins now e) = []
arrival (returns [] now e) = []
arrival (returns (x ∷ chunk) now e) = (x ∷ chunk) ∷ []
arrival (raises e) = []
arrival (signals e) = []
arrival (gets chunk rest e) = []
arrival halts = []
arrival stops = []

unfoldable pub delivery : {r r' : TsReader} → Step r r' → List (List ℕ)
delivery (begins now e) = []
delivery (returns chunk now e) = []
delivery (raises e) = []
delivery (signals e) = []
delivery (gets chunk rest e) = chunk ∷ []
delivery halts = []
delivery stops = []

-- A run from the new object on, with all that has arrived and all that was delivered.
pub data Run : List (List ℕ) → List (List ℕ) → TsReader → Type 0 where
  start : Run [] [] init
  next :
      {arrived delivered : List (List ℕ)} {r r' : TsReader} {arrived' delivered' : List (List ℕ)}
      → Run arrived delivered r
      → (s : Step r r') → arrived' ≡ arrived ++ arrival s
      → delivered' ≡ delivered ++ delivery s
      → Run arrived' delivered' r'

-- No error is kept; or one is, and the thread is about to set the stop event, or has set it and ended.
abbrev pub Failure : TsReader → Type 0
Failure r = (r.error ≡ false) ⊎ ((r.place ≡ failing) ⊎ ((r.stop ≡ true) × (r.place ≡ ended)))

pub record Account (arrived delivered : List (List ℕ)) (r : TsReader) : Type 0 where
  pub order : Sublist (delivered ++ r.queue) arrived
  pub lost : length arrived ≡ length (delivered ++ r.queue) + r.overflows
  pub bytes : r.bytes ≡ length (join arrived)
  pub bounded : length r.queue ≤ queue_chunks
  pub failure : Failure r

module _ (arrived delivered : List (List ℕ)) (r : TsReader) (v : Account arrived delivered r) where
  put_nowait-Account :
      (chunk : List ℕ) (r1 : TsReader)
      → r1.queue ≡ r.queue
      → r1.overflows ≡ r.overflows
      → r1.bytes ≡ r.bytes + length chunk
      → Failure r1
      → Account (arrived ++ (chunk ∷ [])) (delivered ++ []) (put_nowait r1 chunk)
  unfolding put_nowait
  put_nowait-Account chunk r1 eq eo eb failure =
      if-both (Account (arrived ++ (chunk ∷ [])) (delivered ++ []))
        (ltb (length r1.queue) queue_chunks) _ _
        (λ room. record {
          order =
              subst (λ xs. Sublist xs (arrived ++ (chunk ∷ []))) (sym put)
                (Sublist.append v.order (Sublist.refl (chunk ∷ [])));
          lost = omega (
            arith,
            v.lost,
            eo,
            ap length put,
            length-append {0} arrived (chunk ∷ []),
            length-append {0} (delivered ++ r.queue) (chunk ∷ []),
          );
          bytes = brought;
          bounded = omega (arith, length-append {0} r1.queue (chunk ∷ []), ltb→lt _ _ room);
          failure = failure;
        })
        (λ full. record {
          order =
              subst (λ xs. Sublist xs (arrived ++ (chunk ∷ [])))
                (append-nil (delivered ++ r.queue) ∙ sym kept)
                (Sublist.append v.order (Sublist.cons chunk (Sublist.refl [])));
          lost = omega (arith, v.lost, eo, ap length kept, length-append {0} arrived (chunk ∷ []));
          bytes = brought;
          bounded = omega (arith, ap length eq, v.bounded);
          failure = failure;
        })
    where
      put : (delivered ++ []) ++ (r1.queue ++ (chunk ∷ [])) ≡ (delivered ++ r.queue) ++ (chunk ∷ [])
      put =
          ap (λ xs. xs ++ (r1.queue ++ (chunk ∷ []))) (append-nil delivered)
          ∙ sym (append_assoc delivered r1.queue (chunk ∷ []))
          ∙ ap (λ q. (delivered ++ q) ++ (chunk ∷ [])) eq

      kept : (delivered ++ []) ++ r1.queue ≡ delivered ++ r.queue
      kept = ap (λ xs. xs ++ r1.queue) (append-nil delivered) ∙ ap (◌++◌ delivered) eq

      brought : r1.bytes ≡ length (join (arrived ++ (chunk ∷ [])))
      brought = omega (
        arith,
        eb,
        v.bytes,
        ap length (join-append arrived (chunk ∷ [])),
        length-append (join arrived) (chunk ++ []),
        length-append chunk [],
      )

  -- A step that brings and hands over nothing, and leaves the queue and the counters alone.
  same-Account :
      (r' : TsReader)
      → r'.queue ≡ r.queue
      → r'.overflows ≡ r.overflows
      → r'.bytes ≡ r.bytes
      → Failure r'
      → Account (arrived ++ []) (delivered ++ []) r'
  same-Account r' eq eo eb failure = record {
    order =
        subst (λ xs. Sublist xs (arrived ++ [])) (sym kept)
          (subst (Sublist (delivered ++ r.queue)) (sym (append-nil arrived)) v.order);
    lost = omega (arith, v.lost, eo, ap length kept, ap length (append-nil arrived));
    bytes = eb ∙ v.bytes ∙ ap (λ xs. length (join xs)) (sym (append-nil arrived));
    bounded = omega (arith, ap length eq, v.bounded);
    failure = failure;
  }
    where
      kept : (delivered ++ []) ++ r'.queue ≡ delivered ++ r.queue
      kept = ap (λ xs. xs ++ r'.queue) (append-nil delivered) ∙ ap (◌++◌ delivered) eq

  running : (p : Place) → (p ≡ failing → ⊥) → (p ≡ ended → ⊥) → r.place ≡ p → r.error ≡ false
  running p no_failure no_end e = elim v.failure [
    | inl f ↦ f
    | inr (inl g) ↦ absurd (no_failure (sym e ∙ g))
    | inr (inr (s, g)) ↦ absurd (no_end (sym e ∙ g))
  ]

Step-Account :
    {arrived delivered : List (List ℕ)} {r r' : TsReader}
    → Account arrived delivered r
    → (s : Step r r') → Account (arrived ++ arrival s) (delivered ++ delivery s) r'
unfolding arrival delivery begin_round end_round fail signal
Step-Account {arrived} {delivered} {r} v (begins now e) =
    if-both (Account (arrived ++ []) (delivered ++ [])) r.halt_set _ _
      (λ h.
        same-Account arrived delivered r v _ refl refl refl
          (inl (running arrived delivered r v at_loop (λ g. cc g) (λ g. cc g) e)))
      (λ h.
        same-Account arrived delivered r v _ refl refl refl
          (inl (running arrived delivered r v at_loop (λ g. cc g) (λ g. cc g) e)))
Step-Account {arrived} {delivered} {r} v (returns [] now e) =
    same-Account arrived delivered r v _ refl refl refl
      (inl (running arrived delivered r v reading (λ g. cc g) (λ g. cc g) e))
Step-Account {arrived} {delivered} {r} v (returns (x ∷ chunk) now e) =
    put_nowait-Account arrived delivered r v (x ∷ chunk) _ refl refl refl
      (inl (running arrived delivered r v reading (λ g. cc g) (λ g. cc g) e))
Step-Account {arrived} {delivered} {r} v (raises e) =
    same-Account arrived delivered r v _ refl refl refl (inr (inl refl))
Step-Account {arrived} {delivered} {r} v (signals e) =
    same-Account arrived delivered r v _ refl refl refl (inr (inr (refl, refl)))
Step-Account {arrived} {delivered} {r} v (gets chunk rest e) = record {
  order =
      subst (λ xs. Sublist xs (arrived ++ [])) handed
        (subst (Sublist (delivered ++ r.queue)) (sym (append-nil arrived)) v.order);
  lost = omega (arith, v.lost, ap length handed, ap length (append-nil arrived));
  bytes = v.bytes ∙ ap (λ xs. length (join xs)) (sym (append-nil arrived));
  bounded = omega (arith, ap length e, v.bounded);
  failure = v.failure;
}
  where
    handed : delivered ++ r.queue ≡ (delivered ++ (chunk ∷ [])) ++ rest
    handed = ap (◌++◌ delivered) e ∙ sym (append_assoc delivered (chunk ∷ []) rest)
Step-Account {arrived} {delivered} {r} v halts =
    same-Account arrived delivered r v _ refl refl refl v.failure
Step-Account {arrived} {delivered} {r} v stops =
    same-Account arrived delivered r v _ refl refl refl (elim v.failure [
      | inl f ↦ inl f
      | inr (inl g) ↦ inr (inl g)
      | inr (inr (s, g)) ↦ inr (inr (refl, g))
    ])

-- In every interleaving of the reading thread with the one that takes chunks and stops it: what was
-- delivered and what is queued are the chunks that arrived, in order, less exactly as many as
-- `overflows` counts; `bytes` counts all that arrived; the queue has at most 1536 chunks; and where
-- an error is kept, the thread is about to set the stop event, or has set it and ended.
pub Run-Account :
    {arrived delivered : List (List ℕ)} {r : TsReader}
    → Run arrived delivered r
    → Account arrived delivered r
Run-Account start = record {
  order = Sublist.refl [];
  lost = refl;
  bytes = refl;
  bounded = omega arith;
  failure = inl refl;
}
Run-Account (next {arrived} {delivered} {r} {r'} {arrived'} {delivered'} run s ea ed) =
    subst (λ xs. Account xs delivered' r') (sym ea)
      (subst (λ xs. Account (arrived ++ arrival s) xs r') (sym ed)
        (Step-Account (Run-Account run) s))

-- ===== src/Cli/Pipeline/Fallback.antt =====
-- What `Pipeline.process` of src/recdyud/cli.py passes on while the descrambler gives nothing.
use recdyud.Base.{
  ℕ, ◌+◌, ◌-◌, ◌≤◌, ◌<◌, ◌≡◌, refl, ap, sym, ◌∙◌, ◌⊎◌, inl, inr, Bool, true, false, not, ◌&&◌,
  Option, none, some, List, [], ◌∷◌, ◌++◌, length, drop-append, join, map, ltb, leb, ◌==◌, if-both,
  length-append, arith,
}
use recdyud.Cli.Pipeline.{
  Library, Pipeline, bytes_equal, ends_with, fall_back, put_get, withdraw_or, recover, waiting,
  answer, process_with, process, process_all, init,
}
use mathlib.Core.List.{append_assoc, append-nil}
use mathlib.Core.Option.{some-ne-none}

bytes_equal_refl : (xs : List ℕ) → bytes_equal xs xs ≡ true
unfolding bytes_equal
bytes_equal_refl [] = refl
bytes_equal_refl (x ∷ xs) = let e : (x == x) ≡ true = ground arith in rw (e, bytes_equal_refl xs)

ends_with-append : (xs ys : List ℕ) → ends_with (xs ++ ys) ys ≡ true
unfolding ends_with
ends_with-append xs ys =
    ap (λ zs. bytes_equal zs ys)
      (drop-append (length (xs ++ ys) - length ys) xs ys (omega (arith, length-append xs ys)))
    ∙ bytes_equal_refl ys

-- What the C library is relied on for, `held` being the input that it has not processed: while
-- nothing comes out, all input is held; `withdraw` hands it over; a call that fails either has the
-- chunk still in the input buffer or has rolled it back.
pub record Holds {S : Type 0} (library : Library S) (held : S → List ℕ) : Type 0 where
  pub withdrawn : (d : S) → (library.withdraw d).1 ≡ some (held d)
  pub silent :
      (d : S) (xs : List ℕ)
      → (put_get library d xs).1 ≡ some []
      → held (put_get library d xs).0 ≡ held d ++ xs
  pub failed :
      (d : S) (xs : List ℕ)
      → (put_get library d xs).1 ≡ none
      → (held (put_get library d xs).0 ≡ held d ++ xs) ⊎ (held (put_get library d xs).0 ≡ held d)

-- In this run, a chunk whose call fails and is rolled back does not repeat the end of what is held.
-- (Such a repetition `pending.endswith(packets)` takes for the chunk itself.)
unfoldable pub Fresh :
    {S : Type 0} → Library S → (S → List ℕ) → List (List ℕ × ℕ) → Pipeline S → Type 0
Fresh library held [] p = Unit {0}
Fresh {S} library held ((xs, now) ∷ inputs) p =
    ((d : S)
      → p.descrambler ≡ some d
      → (put_get library d xs).1 ≡ none
      → held (put_get library d xs).0 ≡ held d
      → ends_with (held d) xs ≡ false)
    × Fresh library held inputs (process library p xs now).0

-- The answer of a descrambler that gives nothing.
unfoldable pub is_quiet : Option (List ℕ) → Bool
is_quiet none = true
is_quiet (some []) = true
is_quiet (some (x ∷ out)) = false

-- A descrambler that never gives output, as without PAT, PMT and ECM.
unfoldable pub IsQuiet : {S : Type 0} → Library S → Type 0
unfolding is_quiet
IsQuiet {S} library = (d : S) (xs : List ℕ) → is_quiet ((put_get library d xs).1) ≡ true

module _ {S : Type 0} (library : Library S) (held : S → List ℕ) (holds : Holds library held) where
  -- The input that has not come out yet.
  unfoldable pub pending : Option S → List ℕ
  pending none = []
  pending (some d) = held d

  withdraw_or-held : (d : S) (xs : List ℕ) → withdraw_or library d xs ≡ held d
  unfolding withdraw_or
  withdraw_or-held d xs = rw (holds.withdrawn d, withdraw_or)

  recover-whole :
      (d d' : S) (xs : List ℕ)
      → (held d' ≡ held d ++ xs) ⊎ ((held d' ≡ held d) × (ends_with (held d) xs ≡ false))
      → recover library d' xs ≡ held d ++ xs
  unfolding recover
  recover-whole d d' xs (inl e) = rw (withdraw_or-held d' [], e, ends_with-append (held d) xs)
  recover-whole d d' xs (inr (e, fresh)) = rw (withdraw_or-held d' [], e, fresh)

  -- What a call passes on, and what is held after it.
  whole : Pipeline S × List ℕ → List ℕ
  whole r = r.1 ++ pending (r.0.descrambler)

  waiting-whole :
      (o : Option ℕ) (p : Pipeline S) (d : S) (xs : List ℕ) (now : ℕ)
      → whole (waiting library o p d xs now) ≡ held d
  unfolding waiting whole pending fall_back
  waiting-whole none p d xs now = refl
  waiting-whole (some t) p d xs now =
      if-both {A = Pipeline S × List ℕ} (λ r. whole r ≡ held d) (leb p.start_timeout (now - t)) _ _
        (λ h. append-nil (withdraw_or library d xs) ∙ withdraw_or-held d xs) (λ h. refl)

  answer-whole :
      (out : Option (List ℕ)) (p : Pipeline S) (d d' : S) (xs : List ℕ) (now : ℕ)
      → is_quiet out ≡ true
      → (out ≡ some [] → held d' ≡ held d ++ xs)
      → (out ≡ none
          → (held d' ≡ held d ++ xs) ⊎ ((held d' ≡ held d) × (ends_with (held d) xs ≡ false)))
      → whole (answer library out p d' xs now) ≡ held d ++ xs
  unfolding answer whole pending fall_back is_quiet
  answer-whole none p d d' xs now h s f =
      append-nil (recover library d' xs) ∙ recover-whole d d' xs (f refl)
  answer-whole (some []) p d d' xs now h s f =
      if-both {A = Pipeline S × List ℕ} (λ r. whole r ≡ held d ++ xs)
        (not p.producing && ltb 0 p.start_timeout) _ _
        (λ e. waiting-whole (p.first_input) p d' xs now ∙ s refl) (λ e. s refl)
  answer-whole (some (x ∷ out)) p d d' xs now h s f = absurd (ground arith)

  process_with-whole :
      IsQuiet library
      → (o : Option S) (p : Pipeline S) (xs : List ℕ) (now : ℕ) → o ≡ p.descrambler
      → ((d : S)
          → o ≡ some d
          → (put_get library d xs).1 ≡ none
          → held (put_get library d xs).0 ≡ held d
          → ends_with (held d) xs ≡ false)
      → whole (process_with library o p xs now) ≡ pending o ++ xs
  unfolding process_with pending whole IsQuiet
  process_with-whole quiet none p xs now e fresh = ap (λ o. xs ++ pending o) (sym e) ∙ append-nil xs
  process_with-whole quiet (some d) p xs now e fresh =
      answer-whole ((put_get library d xs).1) p d (put_get library d xs).0 xs now (quiet d xs)
        (holds.silent d xs)
        λ fails. elim (holds.failed d xs fails) [
          | inl kept ↦ inl kept
          | inr back ↦ inr (back, fresh d refl fails back)
        ]

  -- While nothing comes out of a descrambler that keeps its input as `Holds` says, and unless a chunk
  -- whose call fails and is rolled back repeats the end of what the descrambler holds, no byte is
  -- lost and none is passed on twice, also where a call fails: what is passed on, and what the descrambler still holds, are
  -- together all that it held and all the input, in order.
  pub process_all-whole :
      IsQuiet library
      → (inputs : List (List ℕ × ℕ)) (p : Pipeline S) → Fresh library held inputs p
      → (process_all library p inputs).1 ++ pending ((process_all library p inputs).0.descrambler)
        ≡ pending (p.descrambler) ++ join (map (λ input. input.0) inputs)
  unfolding process_all process whole Fresh
  process_all-whole quiet [] p fresh = sym (append-nil (pending (p.descrambler)))
  process_all-whole quiet ((xs, now) ∷ inputs) p fresh =
      append_assoc (process library p xs now).1
        (process_all library (process library p xs now).0 inputs).1 _
      ∙ ap (◌++◌ ((process library p xs now).1))
          (process_all-whole quiet inputs (process library p xs now).0 fresh.1)
      ∙ sym (append_assoc (process library p xs now).1 _ _)
      ∙ ap (λ ys. ys ++ join (map (λ input. input.0) inputs))
          (process_with-whole quiet (p.descrambler) p xs now refl fresh.0)
      ∙ append_assoc (pending (p.descrambler)) xs _

-- The pipeline `start_timeout` ticks after its first input at the latest.
module _ {S : Type 0} (library : Library S) (quiet : IsQuiet library) (T t0 : ℕ)
    (limited : 0 < T) where
  abbrev Begun : Option S → Option S → Pipeline S
  Begun o c = record {
    descrambler = o;
    start_timeout = T;
    first_input = some t0;
    producing = false;
    retired = c;
  }

  -- A call leaves such a pipeline; one that is late, or that finds no descrambler, leaves none.
  record Step (r : Pipeline S × List ℕ) (late : Type 0) : Type 0 where
    next : Option S
    closed : Option S
    here : r.0 ≡ Begun next closed
    ends : late → next ≡ none

  answer-Step :
      (out : Option (List ℕ)) (o c : Option S) (d : S) (xs : List ℕ) (now : ℕ)
      → is_quiet out ≡ true
      → Step (answer library out (Begun o c) d xs now) (t0 + T ≤ now)
  unfolding answer waiting fall_back is_quiet
  answer-Step none o c d xs now h = record {
    next = none;
    closed = _;
    here = refl;
    ends = λ late. refl;
  }
  answer-Step (some (x ∷ out)) o c d xs now h = absurd (ground arith)
  answer-Step (some []) o c d xs now h =
      let e : ltb 0 T ≡ true = ground arith in
      rw (e, answer)
        (if-both {A = Pipeline S × List ℕ} (λ r. Step r (t0 + T ≤ now)) (leb T (now - t0)) _ _
          (λ e. record { next = none; closed = _; here = refl; ends = λ late. refl })
          (λ e. record {
            next = some d;
            closed = c;
            here = refl;
            ends = λ late. absurd (ground arith);
          }))

  process-Step :
      (o c : Option S) (xs : List ℕ) (now : ℕ)
      → Step (process library (Begun o c) xs now) ((o ≡ none) ⊎ (t0 + T ≤ now))
  unfolding process process_with IsQuiet
  process-Step none c xs now = record { next = none; closed = c; here = refl; ends = λ late. refl }
  process-Step (some d) c xs now =
      let s =
        answer-Step ((put_get library d xs).1) (some d) c (put_get library d xs).0 xs now
          (quiet d xs) in
      record {
        next = s.next;
        closed = s.closed;
        here = s.here;
        ends = λ late. elim late [ inl e ↦ absurd (some-ne-none d e) | inr h ↦ s.ends h ];
      }

  abbrev Gone : Option ℕ → Option S → Pipeline S
  Gone f c = record {
    descrambler = none;
    start_timeout = T;
    first_input = f;
    producing = false;
    retired = c;
  }

  -- Once it is gone, the descrambler does not come back.
  gone :
      (f : Option ℕ) (c : Option S) (inputs : List (List ℕ × ℕ))
      → (process_all library (Gone f c) inputs).0 ≡ Gone f c
  unfolding process_all process process_with
  gone f c [] = refl
  gone f c ((xs, now) ∷ inputs) = gone f c inputs

  late_ends :
      (before after : List (List ℕ × ℕ)) (xs : List ℕ) (t : ℕ) (o c : Option S)
      → t0 + T ≤ t
      → (process_all library (Begun o c) (before ++ ((xs, t) ∷ after))).0.descrambler ≡ none
  unfolding process_all
  late_ends [] after xs t o c late =
      let s = process-Step o c xs t in
      ap (λ p. (process_all library p after).0.descrambler)
        (s.here ∙ ap (λ o. Begun o s.closed) (s.ends (inr late)))
      ∙ ap (λ p. p.descrambler) (gone (some t0) s.closed after)
  late_ends ((ys, now) ∷ before) after xs t o c late =
      let s = process-Step o c ys now in
      ap (λ p. (process_all library p (before ++ ((xs, t) ∷ after))).0.descrambler) (s.here)
      ∙ late_ends before after xs t (s.next) (s.closed) late

  begins :
      (out : Option (List ℕ)) (d d' : S) (xs : List ℕ)
      → is_quiet out ≡ true
      → ((c : Option S) × ((answer library out (init (some d) T) d' xs t0).0 ≡ Gone none c))
        ⊎ ((answer library out (init (some d) T) d' xs t0).0 ≡ Begun (some d') none)
  unfolding answer init fall_back waiting is_quiet
  begins none d d' xs h = inl (_, refl)
  begins (some []) d d' xs h = let e : ltb 0 T ≡ true = ground arith in inr (rw (e, answer))
  begins (some (x ∷ out)) d d' xs h = absurd (ground arith)

  falls_back :
      (d : S) (first xs : List ℕ) (before after : List (List ℕ × ℕ)) (t : ℕ)
      → t0 + T ≤ t
      → (process_all library
          (init (some d) T)
          ((first, t0) ∷ (before ++ ((xs, t) ∷ after)))).0.descrambler
        ≡ none
  unfolding process_all process process_with init IsQuiet
  falls_back d first xs before after t late =
      elim (begins ((put_get library d first).1) d (put_get library d first).0 first
        (quiet d first)) [
          | inl (c, e) ↦
              ap (λ p. (process_all library p inputs).0.descrambler) e
              ∙ ap (λ p. p.descrambler) (gone none c inputs)
          | inr e ↦
              ap (λ p. (process_all library p inputs).0.descrambler) e
              ∙ late_ends before after xs t (some (put_get library d first).0) none late
        ]
    where
      inputs : List (List ℕ × ℕ)
      inputs = before ++ ((xs, t) ∷ after)

-- A descrambler that gives nothing, that holds nothing at first, and that keeps its input as
-- `Holds` says, delays the stream by `start_timeout` ticks at most, if these are not 0 and no chunk
-- whose call fails and is rolled back repeats the end of what is held: when a chunk has come that
-- long after the first one, all chunks so far have been passed on unchanged, and those after it are
-- too.
pub process_all-timeout :
    {S : Type 0} (library : Library S) (held : S → List ℕ)
    → Holds library held
    → IsQuiet library
    → (T t0 t : ℕ) (d : S) (first xs : List ℕ) (before after : List (List ℕ × ℕ)) → 0 < T
    → held d ≡ []
    → t0 + T ≤ t
    → Fresh library held ((first, t0) ∷ (before ++ ((xs, t) ∷ after))) (init (some d) T)
    → (process_all library (init (some d) T) ((first, t0) ∷ (before ++ ((xs, t) ∷ after)))).1
      ≡ join (map (λ input. input.0) ((first, t0) ∷ (before ++ ((xs, t) ∷ after))))
unfolding init pending
process_all-timeout library held holds quiet T t0 t d first xs before after limited empty late
      fresh =
    let inputs : List (List ℕ × ℕ) = (first, t0) ∷ (before ++ ((xs, t) ∷ after)) in
    sym (append-nil _)
    ∙ ap (λ o. (process_all library (init (some d) T) inputs).1 ++ pending library held holds o)
        (sym (falls_back library quiet T t0 limited d first xs before after t late))
    ∙ process_all-whole library held holds quiet inputs (init (some d) T) fresh
    ∙ ap (λ ys. ys ++ join (map (λ input. input.0) inputs)) empty

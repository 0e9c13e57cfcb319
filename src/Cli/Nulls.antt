-- ===== src/Cli/Nulls.antt =====
-- `drop_null_packets` of src/recdyud/cli.py against its description as a filter.
use recdyud.Base.{
  ℕ, zero, suc, ◌+◌, ◌-◌, ◌*◌, ◌/◌, ◌≤◌, ◌<◌, ◌≡◌, refl, ap, sym, ◌∙◌, Bool, true, false, Option,
  none, some, List, [], ◌∷◌, ◌++◌, length, get_or, take, drop, slice, join, join-append, ltb,
  if◌then◌else◌, All, Bool-cases, inl, inr, if-both, arith, length-append, length-drop, length-take,
  take-append-drop, All-append, ap₂, take-append, take_all, drop-append, get_or-append_lt,
  get_or-append_ge, drop-drop,
}
use recdyud.Cli.{Run, is_null, cut_run, begin_run, null_loop, join_runs, drop_null_packets}
use mathlib.Core.List.{append_assoc, append-nil}

-- The packets that are not null packets.
unfoldable pub kept : List (List ℕ) → List (List ℕ)
kept [] = []
kept (p ∷ ps) = if is_null p 0 then kept ps else p ∷ kept ps

abbrev pub AreWhole : List (List ℕ) → Type 0
AreWhole = All (λ p. length p ≡ 188)

take_add : (m n k : ℕ) (xs : List ℕ) → m + n ≡ k → take k xs ≡ take m xs ++ take n (drop m xs)
take_add zero n k xs h = let e : k ≡ n = omega arith in rw e
take_add (suc m) n zero xs h = absurd (omega arith)
take_add (suc m) zero (suc k) [] h = refl
take_add (suc m) (suc n) (suc k) [] h = refl
take_add (suc m) n (suc k) (x ∷ xs) h = ap (◌∷◌ x) (take_add m n k xs (omega arith))

-- What is out so far: the pieces, and the run up to here.
value : List ℕ → ℕ → Option ℕ → List (List ℕ) → List ℕ
value packets off none out = join out
value packets off (some s) out = join out ++ slice packets s off

-- A run begins before the current packet; one from 0 on has nothing before it.
Begun : ℕ → Option ℕ → List (List ℕ) → Type 0
Begun off none out = off ≡ 0 → out ≡ []
Begun off (some s) out = (s < off) × (s ≡ 0 → out ≡ [])

module _ (pre p rest : List ℕ) (off : ℕ) (before : length pre ≡ off) (whole : length p ≡ 188) where
  abbrev packets : List ℕ
  packets = pre ++ (p ++ rest)

  byte_at : (k : ℕ) → k < 188 → get_or packets (off + k) 0 ≡ get_or p k 0
  byte_at k h =
      get_or-append_ge pre (p ++ rest) (off + k) k 0 (omega (arith, before))
      ∙ get_or-append_lt p rest k 0 (omega (arith, whole))

  is_null_at : is_null packets off ≡ is_null p 0
  unfolding is_null
  is_null_at = rw (byte_at 1 (omega arith), byte_at 2 (omega arith))

  slice_grows : (s : ℕ) → s ≤ off → slice packets s (off + 188) ≡ slice packets s off ++ p
  slice_grows s h =
      take_add (off - s) 188 (off + 188 - s) (drop s packets) (omega arith)
      ∙ ap (λ ys. slice packets s off ++ take 188 ys)
          (drop-drop (off - s) s off packets (omega arith) ∙ drop-append off pre (p ++ rest) before)
      ∙ ap (◌++◌ (slice packets s off)) (take-append 188 p rest whole)

  slice_none : slice packets off off ≡ []
  slice_none = let e : off - off ≡ 0 = omega arith in rw e

  -- One round takes the packet over, or not.
  value_step :
      (b : Bool) (o : Option ℕ) (out : List (List ℕ))
      → Begun off o out
      → (r : Run) × ((if b
            then cut_run packets off (record { start = o; out = out })
            else begin_run off (record { start = o; out = out }))
          ≡ r)
        × Begun (off + 188) r.start r.out
        × (value packets (off + 188) r.start r.out
            ≡ value packets off o out ++ (if b then [] else p))
  unfolding cut_run begin_run value Begun
  value_step true none out begun = (
    record { start = none; out = out },
    refl,
    (λ e. absurd (omega arith)),
    sym (append-nil (join out)),
  )
  value_step true (some s) out begun = (
    record { start = none; out = out ++ (slice packets s off ∷ []) },
    refl,
    (λ e. absurd (omega arith)),
    join-append out (slice packets s off ∷ [])
        ∙ sym (append_assoc (join out) (slice packets s off) []),
  )
  value_step false none out begun = (
    record { start = some off; out = out },
    refl,
    (omega arith, begun),
    ap (◌++◌ (join out)) (slice_grows off (omega arith) ∙ ap (λ xs. xs ++ p) slice_none),
  )
  value_step false (some s) out (lt, none_before) = (
    record { start = some s; out = out },
    refl,
    (omega arith, none_before),
    ap (◌++◌ (join out)) (slice_grows s (omega arith))
        ∙ sym (append_assoc (join out) (slice packets s off) p),
  )

join-kept :
    (p : List ℕ) (ps : List (List ℕ)) (xs : List ℕ)
    → (xs ++ (if is_null p 0 then [] else p)) ++ join (kept ps) ≡ xs ++ join (kept (p ∷ ps))
unfolding kept
join-kept p ps xs = elim (Bool-cases (is_null p 0)) [
  | inl e ↦ rw (e, append-nil)
  | inr e ↦ rw (e, append_assoc xs p (join (kept ps)))
]

null_loop_lem :
    (ps : List (List ℕ)) (pre : List ℕ) (off : ℕ) (o : Option ℕ) (out : List (List ℕ))
    → AreWhole ps
    → length pre ≡ off
    → Begun off o out
    → (r : Run) × (null_loop (length ps) (pre ++ join ps) off (record { start = o; out = out }) ≡ r)
      × Begun (off + length ps * 188) r.start r.out
      × (value (pre ++ join ps) (off + length ps * 188) r.start r.out
          ≡ value (pre ++ join ps) off o out ++ join (kept ps))
unfolding null_loop kept
null_loop_lem [] pre off o out h before begun =
    let e : off + 0 ≡ off = omega arith in
    (record { start = o; out = out }, refl, rw e begun, rw e (sym (append-nil _)))
null_loop_lem (p ∷ ps) pre off o out (whole, h) before begun =
    let (r, step, begun', one) =
      value_step pre p (join ps) off before whole (is_null p 0) o out begun in
    let (r', run, begun'', all) =
      null_loop_lem ps (pre ++ p) (off + 188) (r.start) (r.out) h
        (omega (arith, length-append pre p, before, whole)) begun' in
    let split = append_assoc pre p (join ps) in
    let far : off + 188 + length ps * 188 ≡ off + suc (length ps) * 188 = omega arith in
    (
      r',
      ap
            (λ b. null_loop (length ps) (pre ++ (p ++ join ps)) (off + 188) (
              if b
              then cut_run (pre ++ (p ++ join ps)) off (record { start = o; out = out })
              else begin_run off (record { start = o; out = out })))
            (is_null_at pre p (join ps) off before whole)
          ∙ ap (null_loop (length ps) (pre ++ (p ++ join ps)) (off + 188)) step
          ∙ rw split at run,
      rw far at begun'',
      rw (split, far) at all ∙ rw one (join-kept p ps (value (pre ++ (p ++ join ps)) off o out)),
    )

length-join : (ps : List (List ℕ)) → AreWhole ps → length (join ps) ≡ length ps * 188
length-join [] h = refl
length-join (p ∷ ps) (whole, h) = omega (arith, length-append p (join ps), length-join ps h, whole)

empty : (xs : List ℕ) → length xs ≡ 0 → xs ≡ []
empty [] h = refl
empty (x ∷ xs) h = absurd (omega arith)

slice_to_end :
    (packets : List ℕ) (s e : ℕ) → length packets ≡ e → slice packets s e ≡ drop s packets
slice_to_end packets s e sized =
    take_all (e - s) (drop s packets) (omega (arith, length-drop s packets))

-- What the code returns in its cases is the value of the loop.
join_runs-value :
    (packets : List ℕ) (n : ℕ) (o : Option ℕ) (out : List (List ℕ))
    → length packets ≡ n * 188
    → Begun (n * 188) o out
    → join_runs packets (record { start = o; out = out }) ≡ value packets (n * 188) o out
unfolding join_runs value Begun
join_runs-value packets n none out sized begun =
    if-both (λ v. v ≡ join out) (ltb (length packets) 188) _ _
      (λ h. rw (begun (ground arith)) (empty packets (ground arith))) (λ h. refl)
join_runs-value packets n (some zero) out sized (lt, none_before) =
    rw (none_before refl) (sym (slice_to_end packets 0 (n * 188) sized))
join_runs-value packets n (some (suc s)) out sized (lt, none_before) =
    let enough : ltb (length packets) 188 ≡ false = ground arith in
    rw (enough, join-append out (drop (suc s) packets ∷ []), append-nil)
      (ap (◌++◌ (join out)) (sym (slice_to_end packets (suc s) (n * 188) sized)))

-- On whole packets, `drop_null_packets` returns the packets that are not null packets, in order,
-- whatever the runs between them are.
pub drop_null_packets-kept :
    (ps : List (List ℕ)) → AreWhole ps → drop_null_packets (join ps) ≡ join (kept ps)
unfolding drop_null_packets Begun value
drop_null_packets-kept ps h =
    let (r, run, begun, all) = null_loop_lem ps [] 0 none [] h refl (λ e. refl) in
    let count : length (join ps) / 188 ≡ length ps = omega (arith, length-join ps h) in
    let far : 0 + length ps * 188 ≡ length ps * 188 = omega arith in
    rw (count, run)
      (join_runs-value (join ps) (length ps) (r.start) (r.out) (length-join ps h) (rw far at begun)
        ∙ rw far at all)

-- Whole packets, cut apart.
pub chop :
    (n : ℕ) (xs : List ℕ)
    → length xs ≡ n * 188
    → (ps : List (List ℕ)) × AreWhole ps × (join ps ≡ xs)
chop zero xs h = ([], tt, sym (empty xs (omega arith)))
chop (suc n) xs h =
    let (ps, whole, e) = chop n (drop 188 xs) (omega (arith, length-drop 188 xs)) in
    (
      take 188 xs ∷ ps,
      (omega (arith, length-take 188 xs), whole),
      ap (◌++◌ (take 188 xs)) e ∙ take-append-drop 188 xs,
    )

kept-append : (ps qs : List (List ℕ)) → kept (ps ++ qs) ≡ kept ps ++ kept qs
unfolding kept
kept-append [] qs = refl
kept-append (p ∷ ps) qs = elim (Bool-cases (is_null p 0)) [
  | inl e ↦ rw e (kept-append ps qs)
  | inr e ↦ rw e (ap (◌∷◌ p) (kept-append ps qs))
]

-- On whole packets the filter does not depend on how they are cut into calls.
pub drop_null_packets-append :
    (xs ys : List ℕ) (m n : ℕ)
    → length xs ≡ m * 188
    → length ys ≡ n * 188
    → drop_null_packets (xs ++ ys) ≡ drop_null_packets xs ++ drop_null_packets ys
drop_null_packets-append xs ys m n hx hy =
    let (ps, wp, ep) = chop m xs hx in
    let (qs, wq, eq) = chop n ys hy in
    ap drop_null_packets (sym (join-append ps qs ∙ ap₂ ◌++◌ ep eq))
    ∙ drop_null_packets-kept (ps ++ qs) (All-append _ ps qs wp wq)
    ∙ ap join (kept-append ps qs)
    ∙ join-append (kept ps) (kept qs)
    ∙ sym (
        ap₂ ◌++◌ (ap drop_null_packets (sym ep) ∙ drop_null_packets-kept ps wp)
          (ap drop_null_packets (sym eq) ∙ drop_null_packets-kept qs wq))

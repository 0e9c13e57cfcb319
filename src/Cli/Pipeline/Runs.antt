-- ===== src/Cli/Pipeline/Runs.antt =====
-- Runs of `Pipeline` of src/recdyud/cli.py over a descrambler that collects, and fails on a chunk.
use recdyud.Base.{
  ℕ, ◌≡◌, refl, sym, inr, Bool, true, false, Option, none, some, List, [], ◌∷◌, ◌++◌, ◌==◌, get_or,
  if◌then◌else◌, arith,
}
use recdyud.Cli.Pipeline.{Library, init, put_get, process_all, process, ends_with}
use recdyud.Cli.Pipeline.Fallback.{
  Holds, Fresh, IsQuiet, is_quiet, pending, process_all-whole, process_all-timeout,
}
use mathlib.Core.Option.{some-ne-none, some-injective}

-- A descrambler whose library fails on a chunk that begins with 9, and rolls it back.
abbrev attempt : Bool → List ℕ → List ℕ → List ℕ × Bool
attempt true d xs = (d, false)
attempt false d xs = (d ++ xs, true)

abbrev got : List ℕ × Bool → List ℕ × Option (List ℕ)
got z = if z.1 then (z.0, some []) else (z.0, none)

abbrev failing : Library (List ℕ)
failing = record {
  put = λ d xs. attempt (get_or xs 0 0 == 9) d xs;
  get = λ d. (d, some []);
  withdraw = λ d. ([], some d);
  flush_input = λ d. (d, true);
  close = λ d. d;
}

got-silent :
    (b : Bool) (d xs : List ℕ)
    → (got (attempt b d xs)).1 ≡ some []
    → (got (attempt b d xs)).0 ≡ d ++ xs
got-silent true d xs e = absurd (some-ne-none [] (sym e))
got-silent false d xs e = refl

got-failed :
    (b : Bool) (d xs : List ℕ) → (got (attempt b d xs)).1 ≡ none → (got (attempt b d xs)).0 ≡ d
got-failed true d xs e = refl
got-failed false d xs e = absurd (some-ne-none [] e)

got-is_quiet : (b : Bool) (d xs : List ℕ) → is_quiet ((got (attempt b d xs)).1) ≡ true
unfolding is_quiet
got-is_quiet true d xs = refl
got-is_quiet false d xs = refl

failing-Holds : Holds failing (λ d. d)
unfolding put_get
failing-Holds = record {
  withdrawn = λ d. refl;
  silent = λ d xs. got-silent (get_or xs 0 0 == 9) d xs;
  failed = λ d xs e. inr (got-failed (get_or xs 0 0 == 9) d xs e);
}

failing-IsQuiet : IsQuiet failing
unfolding put_get IsQuiet
failing-IsQuiet = λ d xs. got-is_quiet (get_or xs 0 0 == 9) d xs

-- The third chunk fails, and is passed on with what was held.
abbrev broken_inputs : List (List ℕ × ℕ)
broken_inputs = (1 ∷ [], 100) ∷ (2 ∷ 3 ∷ [], 102) ∷ (9 ∷ [], 105) ∷ (5 ∷ [], 106) ∷ []

broken_inputs-Fresh : Fresh failing (λ d. d) broken_inputs (init (some []) 5)
unfolding Fresh init put_get process ends_with
broken_inputs-Fresh = (
  λ d e f h. absurd (some-ne-none [] f),
  (
    λ d e f h. absurd (some-ne-none [] f),
    (λ d e f h. rw (← some-injective _ d e) refl, (λ d e f h. absurd (some-ne-none d (sym e)), tt)),
  ),
)

process_all-whole_example :
    (process_all failing (init (some []) 5) broken_inputs).1
      ++ pending failing
          (λ d. d)
          failing-Holds
          ((process_all failing (init (some []) 5) broken_inputs).0.descrambler)
    ≡ 1 ∷ 2 ∷ 3 ∷ 9 ∷ 5 ∷ []
unfolding init pending
process_all-whole_example =
    process_all-whole failing (λ d. d) failing-Holds failing-IsQuiet broken_inputs
      (init (some []) 5) broken_inputs-Fresh

process_all-timeout_example :
    (process_all failing (init (some []) 5) broken_inputs).1 ≡ 1 ∷ 2 ∷ 3 ∷ 9 ∷ 5 ∷ []
process_all-timeout_example =
    process_all-timeout failing (λ d. d) failing-Holds failing-IsQuiet 5 100 105 [] (1 ∷ [])
      (9 ∷ []) ((2 ∷ 3 ∷ [], 102) ∷ []) ((5 ∷ [], 106) ∷ []) (omega arith) refl (omega arith)
      broken_inputs-Fresh

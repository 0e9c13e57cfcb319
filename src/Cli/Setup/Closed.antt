-- ===== src/Cli/Setup/Closed.antt =====
-- The handles of the C library at the end of `record` of src/recdyud/cli.py.
use recdyud.Base.{ℕ, ◌≡◌, ap₂, sym, ◌∙◌, Bool, Option, none, some, List, ◌++◌}
use recdyud.Bcas.{Transport, BCasCard}
use recdyud.B25.{Native, Descrambler, Options, bcas}
use recdyud.B25.Lifetime.{Logged, logged, unlogged, handles, Owned}
use recdyud.Cli.Pipeline.{
  Library, Pipeline, fall_back, put_get, withdraw_or, recover, flush, waiting, answer, process_with,
  process, flushed, finish_with, finish, released, process_all,
}
use recdyud.Cli.Pipeline
use recdyud.Cli.Setup.{SetUp, fell_back, descrambling, escaped, setup_descrambler}
use recdyud.Cli.Setup.Tidy.{IsTidy, setup_descrambler-IsTidy}
use recdyud.Cli.Setup.Kept.{calls, Kept, served, served-Kept, AllDestroyed, released-AllDestroyed}

-- The C library's state in the descrambler that was released, if there is one.
unfoldable pub lib_of : {W K H : Type 0} → W → Option (Descrambler W H K) → W
lib_of w none = w
lib_of w (some x) = x.lib

-- What `record` leaves of the C library, after the setup and with these chunks.
module _ {W H T : Type 0} (native : Native W H) (t : Transport T) where
  -- The output is written in between; `finishes` is false where that, or the tuner, raises.
  unfoldable pub end_of :
      Bool → SetUp (Logged W H) H (BCasCard T) → ℕ → List (List ℕ × ℕ) → Logged W H
  unfolding served released lib_of
  end_of finishes (fell_back l c) timeout inputs = l
  end_of finishes (escaped e l c) timeout inputs = l
  end_of finishes (descrambling x) timeout inputs = lib_of x.lib (
      released (calls native (bcas t))
        (served native (bcas t) finishes (Pipeline.init (some x) timeout) inputs))

  -- Whatever the card and the C library do, however much is processed and whether the descrambler is
  -- given up on the way or `finish` is reached: when `record` ends, the handles destroyed are those
  -- that were created, each of them once.
  pub end_of-destroys :
      (finishes : Bool) (w : W) (transport : T) (options : Options) (timeout : ℕ)
      (inputs : List (List ℕ × ℕ))
      → (end_of finishes
          (setup_descrambler (logged native) t (unlogged w) transport options)
          timeout
          inputs).destroyed
        ≡ (end_of finishes
            (setup_descrambler (logged native) t (unlogged w) transport options)
            timeout
            inputs).made
  unfolding end_of lib_of IsTidy handles Pipeline.init Kept
  end_of-destroys finishes w transport options timeout inputs =
      by_setup (setup_descrambler (logged native) t (unlogged w) transport options)
        (setup_descrambler-IsTidy native t w transport options)
    where
      by_setup :
          (z : SetUp (Logged W H) H (BCasCard T))
          → IsTidy z
          → (end_of finishes z timeout inputs).destroyed ≡ (end_of finishes z timeout inputs).made
      by_setup (fell_back l c) tidy = tidy
      by_setup (escaped e l c) (none_made, none_destroyed) = none_destroyed ∙ sym none_made
      by_setup (descrambling x) (h, held, made, destroyed) =
          let owned : Owned x = made ∙ ap₂ (λ d o. d ++ handles o) (sym destroyed) (sym held) in
          let p = served native (bcas t) finishes (Pipeline.init (some x) timeout) inputs in
          left (released (calls native (bcas t)) p) (
            released-AllDestroyed native (bcas t) p
              (served-Kept native (bcas t) finishes (Pipeline.init (some x) timeout) inputs owned))
        where
          left :
              (o : Option (Descrambler (Logged W H) H (BCasCard T)))
              → AllDestroyed native (bcas t) o
              → (lib_of x.lib o).destroyed ≡ (lib_of x.lib o).made
          left none gone = absurd gone
          left (some x') gone = gone

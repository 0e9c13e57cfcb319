-- ===== src/Cli/Setup.antt =====
-- `setup_descrambler` of src/recdyud/cli.py, and the descrambling of a stream with what it makes.
pub mod Tidy
pub mod Kept
pub mod Closed
mod Runs
use recdyud.Base.{ℕ, Option, none, some, List, ◌++◌}
use recdyud.Bcas.{Transport, BCasCard, InitStatus, Result, ok, raise, initialize}
use recdyud.Bcas
use recdyud.B25.{Native, Descrambler, Options, Created, created, refused, library, bcas}
use recdyud.B25
use recdyud.Cli.Pipeline.{Pipeline, process_all, finish}
use recdyud.Cli.Pipeline

-- `None`, the object, or an exception that is not caught; with the C library and the card after it.
pub data SetUp (W H K : Type 0) : Type 0 where
  fell_back : W → K → SetUp W H K
  descrambling : Descrambler W H K → SetUp W H K
  escaped : Created → W → K → SetUp W H K

module _ {W H K : Type 0} where
  -- How the constructor ends: only a B25Error is caught.
  unfoldable pub after_init : Descrambler W H K × Created → SetUp W H K
  after_init (x, created) = descrambling x
  after_init (x, refused r) = fell_back x.lib x.card
  after_init (x, B25.memory_error) = escaped B25.memory_error x.lib x.card
  after_init (x, B25.not_loaded) = escaped B25.not_loaded x.lib x.card

module _ {W H T : Type 0} (native : Native W H) (t : Transport T) where
  -- Both exceptions of `initialize` are caught.
  unfoldable pub after_initialize :
      W → Options → BCasCard T × Result InitStatus → SetUp W H (BCasCard T)
  unfolding after_init
  after_initialize w options (c, raise e) = fell_back w c
  after_initialize w options (c, ok status) = after_init (B25.init native w c status c.ids options)

  unfoldable pub setup_descrambler : W → T → Options → SetUp W H (BCasCard T)
  unfolding after_initialize
  setup_descrambler w transport options =
      after_initialize w options (initialize t (Bcas.init transport))

  -- `Pipeline(descrambler, timeout)`, its calls for these chunks, and `finish`.
  unfoldable pub descramble : Option (Descrambler W H (BCasCard T)) → ℕ → List (List ℕ × ℕ) → List ℕ
  unfolding process_all finish
  descramble descrambler timeout inputs =
      let (p, out) =
        process_all (library native (bcas t)) (Pipeline.init descrambler timeout) inputs in
      out ++ (finish (library native (bcas t)) p).1

  -- The output for these chunks; none where the exception leaves `record`.
  unfoldable pub output_of : SetUp W H (BCasCard T) → ℕ → List (List ℕ × ℕ) → Option (List ℕ)
  unfolding descramble
  output_of (fell_back w c) timeout inputs = some (descramble none timeout inputs)
  output_of (descrambling x) timeout inputs = some (descramble (some x) timeout inputs)
  output_of (escaped e w c) timeout inputs = none

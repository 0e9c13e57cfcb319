-- ===== src/Cli/Output.antt =====
-- `Output` of src/recdyud/cli.py, over the operating system's `write` and `close`.
pub mod Whole
use recdyud.Base.{
  ℕ, zero, suc, ◌+◌, ◌≤◌, ◌<◌, ◌≡◌, Bool, true, false, Option, none, some, List, [], ◌∷◌, ◌++◌,
  length, take, drop, if◌then◌else◌,
}

-- A BrokenPipeError, or any other OSError.
pub data WriteError : Type 0 where
  broken_pipe os_error : WriteError

-- `os.write`: the number of bytes that it took, or the exception.
pub data Taken : Type 0 where
  took : ℕ → Taken
  refused : WriteError → Taken

pub record Writer (F : Type 0) : Type 0 where
  pub os_write : F → List ℕ → F × Taken
  pub os_close : F → F

pub record Output (F : Type 0) : Type 0 where
  pub file : F
  pub bytes : ℕ

-- How a call ends, if it ends: with the new state, or with an exception.
pub data Outcome {ℓ} (A : Type ℓ) : Type ℓ where
  went_on : A → Outcome A
  raised : A → WriteError → Outcome A
  no_end : Outcome A

module _ {F : Type 0} (w : Writer F) where
  open w use {os_write, os_close}

  -- The `while` loop over the view. A write that takes bytes makes the view shorter, so the view's
  -- length is enough fuel; one that takes none for ever makes the loop endless.
  unfoldable pub write_loop : ℕ → F → List ℕ → Outcome F
  write_loop fuel f [] = went_on f
  write_loop zero f (x ∷ view) = no_end
  write_loop (suc fuel) f (x ∷ view) =
      let (f', taken) = os_write f (x ∷ view) in
      elim taken [ took n ↦ write_loop fuel f' (drop n (x ∷ view)) | refused e ↦ raised f' e ]

  unfoldable pub close_write : Output F → ℕ → Outcome F → Outcome (Output F)
  close_write o n (went_on f) = went_on (record { file = f; bytes = o.bytes + n })
  close_write o n (raised f e) = raised (record o { file = f }) e
  close_write o n no_end = no_end

  unfoldable pub write : Output F → List ℕ → Outcome (Output F)
  unfolding write_loop close_write
  write o bytes = close_write o (length bytes) (write_loop (length bytes) o.file bytes)

  -- `close`; the first argument is `_close`, which is not set for the standard output.
  unfoldable pub close_file : Bool → F → F
  close_file closes f = if closes then os_close f else f

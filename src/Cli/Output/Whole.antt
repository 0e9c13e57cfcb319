-- ===== src/Cli/Output/Whole.antt =====
-- `Output.write` of src/recdyud/cli.py writes everything, however little each system call takes.
use recdyud.Base.{
  ℕ, zero, suc, ◌+◌, ◌≤◌, ◌<◌, ◌≡◌, refl, ap, sym, ◌∙◌, List, [], ◌∷◌, ◌++◌, length, take, drop,
  length-drop, take-append-drop, arith,
}
use recdyud.Cli.Output.{Writer, Output, took, went_on, write_loop, close_write, write}
use mathlib.Core.List.{append_assoc, append-nil}

-- A file that takes at least one byte of what it is given, and at most all, and has these bytes
-- behind its content then.
pub record Appends {F : Type 0} (w : Writer F) (content : F → List ℕ) : Type 0 where
  pub count : F → List ℕ → ℕ
  pub takes : (f : F) (x : ℕ) (xs : List ℕ) → (w.os_write f (x ∷ xs)).1 ≡ took (count f (x ∷ xs))
  pub some_byte : (f : F) (x : ℕ) (xs : List ℕ) → 0 < count f (x ∷ xs)
  pub at_most : (f : F) (x : ℕ) (xs : List ℕ) → count f (x ∷ xs) ≤ length (x ∷ xs)
  pub appends :
      (f : F) (x : ℕ) (xs : List ℕ)
      → content (w.os_write f (x ∷ xs)).0 ≡ content f ++ take (count f (x ∷ xs)) (x ∷ xs)

module _ {F : Type 0} (w : Writer F) (content : F → List ℕ) (a : Appends w content) where
  write_loop-whole :
      (fuel : ℕ) (f : F) (view : List ℕ)
      → length view ≤ fuel
      → (f' : F) × (write_loop w fuel f view ≡ went_on f') × (content f' ≡ content f ++ view)
  unfolding write_loop
  write_loop-whole fuel f [] h = (f, refl, sym (append-nil (content f)))
  write_loop-whole zero f (x ∷ view) h = absurd (omega arith)
  write_loop-whole (suc fuel) f (x ∷ view) h =
      let f1 = (w.os_write f (x ∷ view)).0 in
      let n = a.count f (x ∷ view) in
      let (f', run, whole) =
        write_loop-whole fuel f1 (drop n (x ∷ view))
          (omega (arith, length-drop n (x ∷ view), a.some_byte f x view)) in
      (
        f',
        rw (a.takes f x view, write_loop) run,
        whole
            ∙ ap (λ ys. ys ++ drop n (x ∷ view)) (a.appends f x view)
            ∙ append_assoc (content f) (take n (x ∷ view)) (drop n (x ∷ view))
            ∙ ap (◌++◌ (content f)) (take-append-drop n (x ∷ view)),
      )

  -- On a file that takes at least one byte at each system call, `write` ends without an exception,
  -- with all the data behind the file's content and counted.
  pub write-whole :
      (o : Output F) (bytes : List ℕ)
      → (o' : Output F) × (write w o bytes ≡ went_on o')
        × (content o'.file ≡ content o.file ++ bytes)
        × (o'.bytes ≡ o.bytes + length bytes)
  unfolding write close_write
  write-whole o bytes =
      let (f', run, whole) = write_loop-whole (length bytes) o.file bytes (omega arith) in
      (
        record { file = f'; bytes = o.bytes + length bytes },
        ap (close_write w o (length bytes)) run,
        whole,
        refl,
      )

-- ===== src/Cli/Pipeline.antt =====
-- `Pipeline` of src/recdyud/cli.py, over the calls of `Descrambler` of src/recdyud/b25.py. The C
-- library behind these is a record of functions on a state that it keeps to itself. Times are
-- numbers of a clock's ticks.
pub mod Fallback
mod Runs
use recdyud.Base.{
  ℕ, zero, suc, ◌+◌, ◌-◌, Bool, true, false, not, ◌&&◌, Option, none, some, List, [], ◌∷◌, ◌++◌,
  length, drop, ltb, leb, ◌==◌, if◌then◌else◌,
}

-- `recdyud_b25_put`, `_get`, `_withdraw`, `_flush` and `_destroy`: a negative result, which raises a B25Error,
-- is `false` or `none`.
pub record Library (S : Type 0) : Type 0 where
  pub put : S → List ℕ → S × Bool
  pub get : S → S × Option (List ℕ)
  pub withdraw : S → S × Option (List ℕ)
  pub flush_input : S → S × Bool
  pub close : S → S

-- `retired` is the descrambler that `_fall_back` has closed.
pub record Pipeline (S : Type 0) : Type 0 where
  pub descrambler : Option S
  pub start_timeout : ℕ
  pub first_input : Option ℕ
  pub producing : Bool
  pub retired : Option S

pub bytes_equal : List ℕ → List ℕ → Bool
bytes_equal [] [] = true
bytes_equal [] (y ∷ ys) = false
bytes_equal (x ∷ xs) [] = false
bytes_equal (x ∷ xs) (y ∷ ys) = x == y && bytes_equal xs ys

-- `pending.endswith(packets)`
unfoldable pub ends_with : List ℕ → List ℕ → Bool
unfolding bytes_equal
ends_with pending packets = bytes_equal (drop (length pending - length packets) pending) packets

module _ {S : Type 0} where
  unfoldable pub init : Option S → ℕ → Pipeline S
  init descrambler start_timeout = record {
    descrambler = descrambler;
    start_timeout = start_timeout;
    first_input = none;
    producing = false;
    retired = none;
  }

module _ {S : Type 0} (library : Library S) where
  open library use {put, get, withdraw, flush_input, close}

  unfoldable pub fall_back : Pipeline S → S → List ℕ → Pipeline S × List ℕ
  fall_back p d pending = (record p { descrambler = none; retired = some (close d) }, pending)

  -- `d.put(packets)` and `d.get()`; `none` when either raises.
  unfoldable pub put_get : S → List ℕ → S × Option (List ℕ)
  put_get d packets = let (d', fine) = put d packets in if fine then get d' else (d', none)

  -- `withdraw`, and what stands in for its result when it raises.
  unfoldable pub withdraw_or : S → List ℕ → List ℕ
  withdraw_or d default = elim ((withdraw d).1) [ some pending ↦ pending | none ↦ default ]

  unfoldable pub flush : S → S × Option (List ℕ)
  flush d = let (d', fine) = flush_input d in if fine then get d' else (d', none)

  -- The handler of a B25Error: what the fallback hands on.
  unfoldable pub recover : S → List ℕ → List ℕ
  unfolding ends_with withdraw_or
  recover d packets =
      let pending = withdraw_or d [] in
      if ends_with pending packets then pending else pending ++ packets

  -- No output yet, while the descrambler may still start; the first argument is `_first_input`.
  unfoldable pub waiting : Option ℕ → Pipeline S → S → List ℕ → ℕ → Pipeline S × List ℕ
  unfolding fall_back withdraw_or
  waiting none p d packets now = (record p { descrambler = some d; first_input = some now }, [])
  waiting (some t) p d packets now =
      if leb p.start_timeout (now - t)
      then fall_back p (withdraw d).0 (withdraw_or d packets)
      else (record p { descrambler = some d }, [])

  -- What follows `put` and `get`.
  unfoldable pub answer : Option (List ℕ) → Pipeline S → S → List ℕ → ℕ → Pipeline S × List ℕ
  unfolding waiting fall_back recover
  answer none p d packets now = fall_back p (withdraw d).0 (recover d packets)
  answer (some (x ∷ out)) p d packets now =
      (record p { descrambler = some d; producing = true }, x ∷ out)
  answer (some []) p d packets now =
      if not p.producing && ltb 0 p.start_timeout
      then waiting p.first_input p d packets now
      else (record p { descrambler = some d }, [])

  -- `process`; the first argument is `self.descrambler`.
  unfoldable pub process_with : Option S → Pipeline S → List ℕ → ℕ → Pipeline S × List ℕ
  unfolding put_get answer
  process_with none p packets now = (p, packets)
  process_with (some d) p packets now =
      let (d', out) = put_get d packets in answer out p d' packets now

  unfoldable pub process : Pipeline S → List ℕ → ℕ → Pipeline S × List ℕ
  unfolding process_with
  process p packets now = process_with p.descrambler p packets now

  -- What `finish` makes of the result of `flush`.
  unfoldable pub flushed : Pipeline S → S → Option (List ℕ) → Pipeline S × List ℕ
  unfolding withdraw_or
  flushed p d (some out) = (record p { descrambler = some d }, out)
  flushed p d none = (record p { descrambler = some (withdraw d).0 }, withdraw_or d [])

  -- `finish`; the first argument is `self.descrambler`.
  unfoldable pub finish_with : Option S → Pipeline S → Pipeline S × List ℕ
  unfolding flush flushed
  finish_with none p = (p, [])
  finish_with (some d) p = let (d', tail) = flush d in flushed p d' tail

  unfoldable pub finish : Pipeline S → Pipeline S × List ℕ
  unfolding finish_with
  finish p = finish_with p.descrambler p

  -- The inner `finally` of `record`: the descrambler once it is closed, if there was one.
  unfoldable pub released : Pipeline S → Option S
  released p = elim (p.descrambler) [ none ↦ p.retired | some d ↦ some (close d) ]

  -- The caller's loop: chunks with the time at which each comes, the outputs joined.
  unfoldable pub process_all : Pipeline S → List (List ℕ × ℕ) → Pipeline S × List ℕ
  process_all p [] = (p, [])
  process_all p ((packets, now) ∷ inputs) =
      let (p', out) = process p packets now in
      let (p'', outs) = process_all p' inputs in (p'', out ++ outs)

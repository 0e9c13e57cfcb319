-- ===== src/Cli/Recorder/Written.antt =====
-- What `stream` of src/recdyud/cli.py writes when there is no descrambler.
use recdyud.Base.{
  ℕ, ◌≡◌, refl, ap, sym, fun_ext, ◌∙◌, Bool, true, false, not, ltb, arith, ◌||◌, Option, none, some,
  List, [], ◌∷◌, ◌++◌, map, if◌then◌else◌,
}
use recdyud.Cli.Pipeline.{Library, finish, finish_with}
use recdyud.Cli.Output.{Writer, Outcome, went_on, raised, no_end}
use recdyud.Cli.Output.Whole.{Appends}
use recdyud.Cli.Recorder.{
  Recorder, Turn, status, is_past, write_data, handle, and_then, handle_all, stream_loop,
  write_tail, exit_of, stream_body,
}
use recdyud.Cli.Recorder.Stage.{Stage, handle_all-Stage}

-- Whether the deadline, if there is one, is still to come.
pub in_time : Option ℕ → ℕ → Bool
in_time none now = true
in_time (some deadline) now = ltb now deadline

is_past-in_time :
    (deadline : Option ℕ) (now : ℕ) → is_past deadline now ≡ not (in_time deadline now)
unfolding is_past in_time
is_past-in_time none now = refl
is_past-in_time (some deadline) now = ground arith

-- The chunks that the main loop handles: those of the turns before the one that ends it.
pub taken : Option ℕ → List Turn → List (List ℕ × ℕ)
taken deadline [] = []
taken deadline (turn ∷ turns) =
    let rest = taken deadline turns in
    if turn.stopped || not (in_time deadline turn.now)
    then []
    else elim (turn.chunk) [ none ↦ rest | some chunk ↦ (chunk, turn.later) ∷ rest ]

module _ {S F : Type 0} (library : Library S) (w : Writer F) (keep_null : Bool)
    (content : F → List ℕ) (a : Appends w content) where
  stream_loop-handle_all :
      (deadline : Option ℕ) (turns : List Turn) (r : Recorder S F)
      → stream_loop library w keep_null deadline r turns
        ≡ handle_all library w keep_null r (taken deadline turns)
  unfolding stream_loop handle_all taken
  stream_loop-handle_all deadline [] r = refl
  stream_loop-handle_all deadline (turn ∷ turns) r = rw (is_past-in_time deadline turn.now) (
      by_cases (turn.stopped || not (in_time deadline turn.now)) (turn.chunk)
        (stream_loop-handle_all deadline turns))
    where
      by_cases :
          (b : Bool) (o : Option (List ℕ))
          → ((r' : Recorder S F)
              → stream_loop library w keep_null deadline r' turns
                ≡ handle_all library w keep_null r' (taken deadline turns))
          → (if b then went_on r else elim o [
            | none ↦ stream_loop library w keep_null deadline r turns
            | some chunk ↦
                and_then
                  (handle library w keep_null r chunk turn.later)
                  (λ r'. stream_loop library w keep_null deadline r' turns)
          ])
            ≡ handle_all library w keep_null r (
                if b then [] else elim o [
                  | none ↦ taken deadline turns
                  | some chunk ↦ (chunk, turn.later) ∷ taken deadline turns
                ])
      by_cases true o ih = refl
      by_cases false none ih = ih r
      by_cases false (some chunk) ih =
          ap (and_then (handle library w keep_null r chunk turn.later)) (fun_ext ih)

  and_then_assoc :
      (z : Outcome (Recorder S F)) (f g : Recorder S F → Outcome (Recorder S F))
      → and_then (and_then z f) g ≡ and_then z (λ r. and_then (f r) g)
  unfolding and_then
  and_then_assoc (went_on r) f g = refl
  and_then_assoc (raised r e) f g = refl
  and_then_assoc no_end f g = refl

  handle_all-append :
      (xs ys : List (List ℕ × ℕ)) (r : Recorder S F)
      → and_then (handle_all library w keep_null r xs) (λ r'. handle_all library w keep_null r' ys)
        ≡ handle_all library w keep_null r (xs ++ ys)
  unfolding handle_all and_then
  handle_all-append [] ys r = refl
  handle_all-append ((chunk, now) ∷ xs) ys r =
      and_then_assoc (handle library w keep_null r chunk now) _ _
      ∙ ap (and_then (handle library w keep_null r chunk now)) (fun_ext (handle_all-append xs ys))

  write_tail-none :
      (r : Recorder S F)
      → r.pipeline.descrambler ≡ none
      → write_tail library w keep_null r ≡ went_on r
  unfolding write_tail finish finish_with write_data
  write_tail-none r e =
      ap
        (λ o.
          let (p, tail) = finish_with library o r.pipeline in
          write_data library w keep_null (record r { pipeline = p }) tail)
        e

  -- Without a descrambler, and with a file that takes at least one byte at each system call, the
  -- recording ends with status 0, or with 1 if the reader has failed. All that was handled, up to
  -- the deadline or the signal and what the reader had queued, is written: the file has the aligned
  -- packets of all chunks together, without their null packets unless these are kept, however the
  -- stream was cut into chunks; and the statistics are those of one call on all these packets.
  pub stream_body-Stage :
      (deadline : Option ℕ) (r : Recorder S F) (turns : List Turn) (drained : List (List ℕ × ℕ))
      (reader_error : Bool)
      → r.pipeline.descrambler ≡ none
      → (r' : Recorder S F) × (out : List ℕ) × (stream_body library w keep_null deadline r turns
            drained reader_error
          ≡ (some r', if reader_error then status 1 else status 0))
        × Stage library w keep_null content a r
            (map (λ c. c.0) (taken deadline turns ++ drained))
            out
            r'
  unfolding stream_body exit_of and_then
  stream_body-Stage deadline r turns drained reader_error e =
      let (r', out, run, s) =
        handle_all-Stage library w keep_null content a (taken deadline turns ++ drained) r e in
      (
        r',
        out,
        ap (exit_of reader_error) (
            ap
              (λ z. and_then z (λ r1.
                and_then (handle_all library w keep_null r1 drained)
                  (write_tail library w keep_null)))
              (stream_loop-handle_all deadline turns r)
            ∙ sym (
                and_then_assoc (handle_all library w keep_null r (taken deadline turns))
                  (λ r1. handle_all library w keep_null r1 drained)
                  (write_tail library w keep_null))
            ∙ ap (λ z. and_then z (write_tail library w keep_null))
                (handle_all-append (taken deadline turns) drained r ∙ run)
            ∙ write_tail-none r' s.still_none),
        s,
      )

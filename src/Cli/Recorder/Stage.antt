-- ===== src/Cli/Recorder/Stage.antt =====
-- What `handle` in `stream` of src/recdyud/cli.py does with a run of chunks without a descrambler.
use recdyud.Base.{
  ℕ, ◌+◌, ◌*◌, ◌≡◌, refl, ap, sym, ◌∙◌, Bool, true, false, none, some, List, [], ◌∷◌, ◌++◌, map,
  length, length-append, arith,
}
use recdyud.Ts.Aligner.{feed, feed_all}
use recdyud.Ts.Aligner.Output.{feed_total}
use recdyud.Ts.Analyzer.{update}
use recdyud.Ts.Analyzer.Split.{update-append}
use recdyud.Cli.{drop_null_packets}
use recdyud.Cli.Nulls.{drop_null_packets-append}
use recdyud.Cli.Pipeline.{Library, Pipeline, process, process_with}
use recdyud.Cli.Output.{Writer, Output, went_on}
use recdyud.Cli.Output.Whole.{Appends, write-whole}
use recdyud.Cli.Recorder.{
  Recorder, with_output, filtered, write_data, on_packets, after_feed, handle, and_then, handle_all,
}
use mathlib.Core.List.{append_assoc, append-nil}

filtered-append :
    (keep_null : Bool) (xs ys : List ℕ) (m n : ℕ)
    → length xs ≡ m * 188
    → length ys ≡ n * 188
    → filtered keep_null (xs ++ ys) ≡ filtered keep_null xs ++ filtered keep_null ys
unfolding filtered
filtered-append true xs ys m n hx hy = refl
filtered-append false xs ys m n hx hy = drop_null_packets-append xs ys m n hx hy

filtered-nil : (keep_null : Bool) → filtered keep_null [] ≡ []
unfolding filtered drop_null_packets
filtered-nil true = refl
filtered-nil false = refl

module _ {S F : Type 0} (library : Library S) (w : Writer F) (keep_null : Bool)
    (content : F → List ℕ) (a : Appends w content) where
  -- From one state of the recorder to a later one, over these chunks.
  pub record Stage (r : Recorder S F) (chunks : List (List ℕ)) (out : List ℕ) (r' : Recorder S F)
      : Type 0 where
    pub aligned : feed_all r.aligner chunks ≡ some (r'.aligner, out)
    pub packets : (n : ℕ) × (length out ≡ n * 188)
    pub analyzed : r'.analyzer ≡ (update r.analyzer out).0
    pub written : content r'.output.file ≡ content r.output.file ++ filtered keep_null out
    pub counted : r'.output.bytes ≡ r.output.bytes + length (filtered keep_null out)
    pub still_none : r'.pipeline.descrambler ≡ none

  process-none :
      (p : Pipeline S) (packets : List ℕ) (now : ℕ)
      → p.descrambler ≡ none
      → process library p packets now ≡ (p, packets)
  unfolding process process_with
  process-none p packets now e = ap (λ o. process_with library o p packets now) e

  write_data-whole :
      (r : Recorder S F) (bytes : List ℕ)
      → (o : Output F) × (write_data library w keep_null r bytes
          ≡ went_on (record r { output = o }))
        × (content o.file ≡ content r.output.file ++ bytes)
        × (o.bytes ≡ r.output.bytes + length bytes)
  unfolding write_data with_output
  write_data-whole r [] = (r.output, refl, sym (append-nil _), omega arith)
  write_data-whole r (x ∷ bytes) =
      let (o, run, whole, counted) = write-whole w content a r.output (x ∷ bytes) in
      (o, ap (with_output r) run, whole, counted)

  on_packets-whole :
      (r : Recorder S F) (out : List ℕ) (now : ℕ)
      → r.pipeline.descrambler ≡ none
      → (o : Output F) × (on_packets library w keep_null r out now
          ≡ went_on (record r { analyzer = (update r.analyzer out).0; output = o }))
        × (content o.file ≡ content r.output.file ++ filtered keep_null out)
        × (o.bytes ≡ r.output.bytes + length (filtered keep_null out))
  unfolding on_packets update
  on_packets-whole r [] now e = (
    r.output,
    refl,
    sym (append-nil _) ∙ ap (◌++◌ (content r.output.file)) (sym (filtered-nil keep_null)),
    omega (arith, ap length (filtered-nil keep_null)),
  )
  on_packets-whole r (x ∷ packets) now e =
      let r1 : Recorder S F = record r { analyzer = (update r.analyzer (x ∷ packets)).0 } in
      let (o, run, whole, counted) = write_data-whole r1 (filtered keep_null (x ∷ packets)) in
      (
        o,
        ap
              (λ (t : Pipeline S × List ℕ).
                write_data library w keep_null (record r1 { pipeline = t.0 }) t.1)
              (process-none r.pipeline (filtered keep_null (x ∷ packets)) now e)
            ∙ run,
        whole,
        counted,
      )

  handle-Stage :
      (r : Recorder S F) (chunk : List ℕ) (now : ℕ)
      → r.pipeline.descrambler ≡ none
      → (r' : Recorder S F) × (out : List ℕ) × (handle library w keep_null r chunk now ≡ went_on r')
        × (feed r.aligner chunk ≡ some (r'.aligner, out))
        × Stage r (chunk ∷ []) out r'
  unfolding handle after_feed feed_all
  handle-Stage r chunk now e =
      let (a', out, run, v) = feed_total r.aligner chunk in
      let (o, went, whole, counted) = on_packets-whole (record r { aligner = a' }) out now e in
      (
        record r { aligner = a'; analyzer = (update r.analyzer out).0; output = o },
        out,
        ap (λ t. after_feed library w keep_null r t now) run ∙ went,
        run,
        record {
          aligned = rw (run, feed_all) (ap (λ xs. some (a', xs)) (append-nil out));
          packets = ((v.framed).0, (v.framed).1.size);
          analyzed = refl;
          written = whole;
          counted = counted;
          still_none = e;
        },
      )

  Stage-nil : (r : Recorder S F) → r.pipeline.descrambler ≡ none → Stage r [] [] r
  unfolding feed_all update
  Stage-nil r e = record {
    aligned = refl;
    packets = (0, refl);
    analyzed = refl;
    written = sym (append-nil _) ∙ ap (◌++◌ (content r.output.file)) (sym (filtered-nil keep_null));
    counted = omega (arith, ap length (filtered-nil keep_null));
    still_none = e;
  }

  -- One chunk, then the others.
  Stage-cons :
      (r r1 r2 : Recorder S F) (chunk : List ℕ) (chunks : List (List ℕ)) (out outs : List ℕ)
      → feed r.aligner chunk ≡ some (r1.aligner, out)
      → Stage r (chunk ∷ []) out r1
      → Stage r1 chunks outs r2
      → Stage r (chunk ∷ chunks) (out ++ outs) r2
  unfolding feed_all
  Stage-cons r r1 r2 chunk chunks out outs fed s t =
      let (m, hm) = s.packets in
      let (n, hn) = t.packets in
      let joined = filtered-append keep_null out outs m n hm hn in
      record {
        aligned = rw (fed, t.aligned, feed_all);
        packets = (m + n, omega (arith, length-append out outs, hm, hn));
        analyzed =
            t.analyzed
            ∙ ap (λ b. (update b outs).0) s.analyzed
            ∙ sym (update-append r.analyzer out outs m hm).0;
        written =
            t.written
            ∙ ap (λ xs. xs ++ filtered keep_null outs) s.written
            ∙ append_assoc (content r.output.file) (filtered keep_null out)
                (filtered keep_null outs)
            ∙ ap (◌++◌ (content r.output.file)) (sym joined);
        counted = omega (
          arith,
          s.counted,
          t.counted,
          ap length joined,
          length-append (filtered keep_null out) (filtered keep_null outs),
        );
        still_none = t.still_none;
      }

  -- The loop `for chunk in reader.drain()`, and any other that handles chunks in order.
  pub handle_all-Stage :
      (chunks : List (List ℕ × ℕ)) (r : Recorder S F)
      → r.pipeline.descrambler ≡ none
      → (r' : Recorder S F) × (out : List ℕ) × (handle_all library w keep_null r chunks
          ≡ went_on r')
        × Stage r (map (λ c. c.0) chunks) out r'
  unfolding handle_all and_then
  handle_all-Stage [] r e = (r, [], refl, Stage-nil r e)
  handle_all-Stage ((chunk, now) ∷ chunks) r e =
      let (r1, out, run, fed, s) = handle-Stage r chunk now e in
      let (r2, outs, runs, t) = handle_all-Stage chunks r1 s.still_none in
      (
        r2,
        out ++ outs,
        ap (λ z. and_then z (λ r'. handle_all library w keep_null r' chunks)) run ∙ runs,
        Stage-cons r r1 r2 chunk (map (λ c. c.0) chunks) out outs fed s t,
      )

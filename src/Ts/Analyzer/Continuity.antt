-- ===== src/Ts/Analyzer/Continuity.antt =====
-- When `TsAnalyzer.update` of src/recdyud/ts.py counts a continuity error.
use recdyud.Base.{
  ℕ, zero, suc, ◌+◌, ◌/◌, ◌%◌, ◌≤◌, ◌<◌, ◌≡◌, ◌↔◌, ◌⊎◌, refl, sym, subst, ◌∙◌, inl, inr, Bool, true,
  false, not, ◌&&◌, Option, none, some, List, length, get_or, ◌==◌, if◌then◌else◌, Bool-cases,
  arith, field, has_bits,
}
use recdyud.Ts.{packet_size, null_pid}
use recdyud.Ts.Analyzer.{
  TsAnalyzer, Tally, pid_of, update_at, cc_error, count_packet, round_at, update_loop, update,
  start,
}

-- A packet whose counter is looked at: no transport error, not null, and with a payload.
abbrev pub counted : ℕ → ℕ → ℕ → Bool
counted b1 b2 b3 = not (has_bits b1 7 1) && (not (pid_of b1 b2 == null_pid) && has_bits b3 4 1)

-- A counter that may follow the last one of its PID: the same (a duplicate), or the next modulo 16.
abbrev pub Follows : Option ℕ → ℕ → Type 0
Follows none cc = Unit {0}
Follows (some prev) cc = (cc ≡ prev) ⊎ (cc ≡ (prev + 1) % 16)

-- Every counter that is looked at in `n` packets from `off` on follows the last one of its PID.
pub Continuous : List ℕ → ℕ → ℕ → (ℕ → Option ℕ) → Type 0
Continuous bytes off zero last = Unit {0}
Continuous bytes off (suc n) last =
    let b1 = get_or bytes (off + 1) 0 in
    let b2 = get_or bytes (off + 2) 0 in
    let b3 = get_or bytes (off + 3) 0 in
    elim (counted b1 b2 b3) [
      | true ↦
          Follows (last (pid_of b1 b2)) (field b3 0 4)
          × Continuous bytes (off + packet_size) n
              (update_at last (pid_of b1 b2) (some (field b3 0 4)))
      | false ↦ Continuous bytes (off + packet_size) n last
    ]

-- The stored counters are below 16.
abbrev pub Nibbles : (ℕ → Option ℕ) → Type 0
Nibbles last = (pid prev : ℕ) → last pid ≡ some prev → prev < 16

cc_error_iff :
    (o : Option ℕ) (cc : ℕ)
    → ((prev : ℕ) → o ≡ some prev → prev < 16)
    → cc < 16
    → (cc_error o cc ≡ false) ↔ Follows o cc
unfolding cc_error
cc_error_iff none cc h lt = (λ _. tt, λ _. refl)
cc_error_iff (some prev) cc h lt =
    let hp : prev < 16 = h prev refl in (λ e. ground arith, λ f. ground arith)

module _ (b1 b2 b3 : ℕ) (t : Tally) where
  skipped :
      counted b1 b2 b3 ≡ false
      → ((count_packet b1 b2 b3 t).cc_errors ≡ t.cc_errors)
        × ((count_packet b1 b2 b3 t).last_cc ≡ t.last_cc)
  unfolding count_packet
  skipped e = (ground arith, ground arith)

  checked :
      counted b1 b2 b3 ≡ true
      → ((count_packet b1 b2 b3 t).cc_errors ≡ (
          if cc_error (t.last_cc (pid_of b1 b2)) (field b3 0 4)
          then t.cc_errors + 1
          else t.cc_errors))
        × ((count_packet b1 b2 b3 t).last_cc
            ≡ update_at t.last_cc (pid_of b1 b2) (some (field b3 0 4)))
  unfolding count_packet
  checked e = (ground arith, ground arith)

step :
    (b1 b2 b3 : ℕ) (t : Tally)
    → Nibbles t.last_cc
    → Nibbles (update_at t.last_cc (pid_of b1 b2) (some (field b3 0 4)))
step b1 b2 b3 t h pid prev e = elim (Bool-cases (pid == pid_of b1 b2)) [
  | inl hit ↦ ground arith
  | inr miss ↦ h pid prev (rw miss at e)
]

kept :
    (bytes : List ℕ) (off : ℕ) (t : Tally)
    → Nibbles t.last_cc
    → Nibbles (round_at bytes off t).last_cc
kept bytes off t h =
    elim (Bool-cases
      (counted (get_or bytes (off + 1) 0) (get_or bytes (off + 2) 0) (get_or bytes (off + 3) 0))) [
        | inl here ↦ rw ((checked _ _ _ t here).1) (
            step (get_or bytes (off + 1) 0) (get_or bytes (off + 2) 0) (get_or bytes (off + 3) 0) t
              h)
        | inr out ↦ rw ((skipped _ _ _ t out).1) h
      ]

-- Errors only add up.
cc_errors-le :
    (bytes : List ℕ) (off n : ℕ) (t : Tally) → t.cc_errors ≤ (update_loop bytes off n t).cc_errors
unfolding update_loop
cc_errors-le bytes off zero t = omega arith
cc_errors-le bytes off (suc n) t =
    omega (arith, cc_errors-le bytes (off + packet_size) n (round_at bytes off t), one)
  where
    one : t.cc_errors ≤ (round_at bytes off t).cc_errors
    one = unfold count_packet in ground arith

field-lt : (b3 : ℕ) → field b3 0 4 < 16
field-lt b3 = omega arith

module _ (bytes : List ℕ) (off : ℕ) where
  abbrev b1 : ℕ
  b1 = get_or bytes (off + 1) 0

  abbrev b2 : ℕ
  b2 = get_or bytes (off + 2) 0

  abbrev b3 : ℕ
  b3 = get_or bytes (off + 3) 0

  -- The rounds behind this one, by the induction hypothesis.
  abbrev Later : ℕ → Tally → Type 0
  Later n t =
      ((update_loop bytes (off + 188) n t).cc_errors ≡ t.cc_errors)
      ↔ Continuous bytes (off + 188) n t.last_cc

  step_iff :
      (n : ℕ) (t : Tally)
      → Nibbles t.last_cc
      → Later n (round_at bytes off t)
      → ((update_loop bytes off (suc n) t).cc_errors ≡ t.cc_errors)
        ↔ Continuous bytes off (suc n) t.last_cc
  unfolding update_loop Continuous
  step_iff n t h later = elim (Bool-cases (counted b1 b2 b3)) [
    | inr out ↦
        let (same, last) = skipped b1 b2 b3 t out in
        rw (out, Continuous)
          (
            λ e. subst (Continuous bytes (off + 188) n) last (later.0 (e ∙ sym same)),
            λ c. later.1 (subst (Continuous bytes (off + 188) n) (sym last) c) ∙ same,
          )
    | inl here ↦
        let (errors, last) = checked b1 b2 b3 t here in
        let (to, from) =
          cc_error_iff (t.last_cc (pid_of b1 b2)) (field b3 0 4) (λ prev e. h (pid_of b1 b2) prev e)
            (field-lt b3) in
        let grows = cc_errors-le bytes (off + 188) n (round_at bytes off t) in
        let rest : Continuous bytes (off + 188) n (round_at bytes off t).last_cc
            → Continuous bytes (off + 188) n
                (update_at t.last_cc (pid_of b1 b2) (some (field b3 0 4))) =
          λ c. subst (Continuous bytes (off + 188) n) last c in
        let back : Continuous bytes (off + 188) n
              (update_at t.last_cc (pid_of b1 b2) (some (field b3 0 4)))
            → Continuous bytes (off + 188) n (round_at bytes off t).last_cc =
          λ c. subst (Continuous bytes (off + 188) n) (sym last) c in
        rw (here, Continuous)
          (
            λ e. (to (ground arith), rest (later.0 (ground arith))),
            λ c. ground (arith, from c.0, later.1 (back c.1)),
          )
  ]

loop_iff :
    (bytes : List ℕ) (off n : ℕ) (t : Tally)
    → Nibbles t.last_cc
    → ((update_loop bytes off n t).cc_errors ≡ t.cc_errors) ↔ Continuous bytes off n t.last_cc
unfolding update_loop Continuous
loop_iff bytes off zero t h = (λ _. tt, λ _. refl)
loop_iff bytes off (suc n) t h =
    step_iff bytes off n t h
      (loop_iff bytes (off + packet_size) n (round_at bytes off t) (kept bytes off t h))

-- A call counts no continuity error exactly when every counter that it looks at is the last one
-- of its PID, or the next one modulo 16.
pub update-Continuous :
    (a : TsAnalyzer) (bytes : List ℕ)
    → Nibbles a.last_cc
    → ((update a bytes).1.cc_errors ≡ 0) ↔ Continuous bytes 0 (length bytes / 188) a.last_cc
unfolding update
update-Continuous a bytes h = elim (Bool-cases (length bytes / 188 == 0)) [
  | inl e ↦
      let e' : length bytes / 188 ≡ 0 = ground arith in
      rw (e', update) (unfold Continuous in (λ _. tt, λ _. refl))
  | inr e ↦ rw (e, update) (loop_iff bytes 0 _ (start a) h)
]

-- The stored counters stay below 16.
loop-Nibbles :
    (bytes : List ℕ) (off n : ℕ) (t : Tally)
    → Nibbles t.last_cc
    → Nibbles (update_loop bytes off n t).last_cc
unfolding update_loop
loop-Nibbles bytes off zero t h = h
loop-Nibbles bytes off (suc n) t h =
    loop-Nibbles bytes (off + packet_size) n (round_at bytes off t) (kept bytes off t h)

pub update-Nibbles :
    (a : TsAnalyzer) (bytes : List ℕ) → Nibbles a.last_cc → Nibbles (update a bytes).0.last_cc
unfolding update
update-Nibbles a bytes h = elim (Bool-cases (length bytes / 188 == 0)) [
  | inl e ↦ rw (e, update) h
  | inr e ↦ rw (e, update) (loop-Nibbles bytes 0 _ (start a) h)
]

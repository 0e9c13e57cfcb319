-- ===== src/Stream/Purge.antt =====
-- `purge` of src/recdyud/stream.py. Times are ticks of the clock, and `second` is how many make one.
use recdyud.Base.{
  ℕ, zero, suc, ◌+◌, ◌-◌, ◌*◌, ◌≤◌, ◌<◌, ◌≡◌, refl, ◌⊎◌, inl, inr, true, ◌&&◌, Option, none, some,
  List, [], ◌∷◌, length, ltb, ltb→lt, if◌then◌else◌, if-both, Bool-cases, leb, arith,
}
use recdyud.Device.{
  Usb, Code, success, timed_out, no_device, other, DyUd200, Result, ok, raise, Error, device_error,
  ts_max_consecutive_errors, read_ts, on_read, received, failed, clear_ts,
}
use recdyud.Device.Waiting.{Clock}
use recdyud.Ts.{packet_size}

module _ {U : Type 0} (usb : Usb U) (clock : Clock U) where
  -- The loop; the source's `remaining` may end below 0, which is 0 here. `none` where the fuel runs out.
  unfoldable pub purge_loop : ℕ → ℕ → ℕ → DyUd200 U → Option (DyUd200 U × Result ℕ)
  purge_loop zero deadline remaining d = none
  purge_loop (suc fuel) deadline remaining d =
      let (d', r) = read_ts usb d in
      let again = λ (n : ℕ). purge_loop fuel deadline (remaining - n) d' in
      if ltb 0 remaining && ltb (clock.now d.usb) deadline
      then elim r [ raise e ↦ some (d', raise e) | ok bytes ↦ again (length bytes) ]
      else some (d, ok remaining)

  -- A read brings a byte or takes a tick, so this fuel is enough. Returns what was left to discard.
  unfoldable pub purge : ℕ → ℕ → DyUd200 U → Option (DyUd200 U × Result ℕ)
  unfolding purge_loop
  purge second packets d =
      purge_loop (packets * packet_size + 3 * second + 1) (clock.now d.usb + 3 * second)
        (packets * packet_size) d

  -- The clock does not go back, and a read that brings nothing takes a tick.
  pub record ReadsFlow : Type 0 where
    pub takes : (u : U) → clock.now u ≤ clock.now (usb.bulk_read u).0
    pub nothing : (u : U) → (usb.bulk_read u).1.1 ≡ [] → clock.now u < clock.now (usb.bulk_read u).0
    pub clears : (u : U) → clock.now u ≤ clock.now (usb.clear_halt u).0

  -- Calls of `read_ts` one after another, from one state to another, and how many bytes they bring.
  pub data Reads : DyUd200 U → ℕ → DyUd200 U → Type 0 where
    no_read : (d : DyUd200 U) → Reads d 0 d
    one_more :
        (d d' d'' : DyUd200 U) (bytes : List ℕ) (n : ℕ)
        → read_ts usb d ≡ (d', ok bytes)
        → Reads d' n d''
        → Reads d (length bytes + n) d''

  -- How `purge` ends, from a state with so much to discard: with an exception of `read_ts`, with
  -- enough discarded, or at the deadline with the rest.
  pub data Purged (deadline : ℕ) (from : DyUd200 U) (wanted : ℕ)
      : DyUd200 U × Result ℕ → Type 0 where
    raised :
        (last d : DyUd200 U) (n : ℕ) (e : Error)
        → Reads from n last
        → n < wanted
        → read_ts usb last ≡ (d, raise e)
        → Purged deadline from wanted (d, raise e)
    enough :
        (d : DyUd200 U) (n : ℕ)
        → Reads from n d
        → wanted ≤ n
        → Purged deadline from wanted (d, ok 0)
    late :
        (d : DyUd200 U) (n left : ℕ)
        → Reads from n d
        → n + left ≡ wanted
        → 0 < left
        → deadline ≤ clock.now d.usb
        → Purged deadline from wanted (d, ok left)

  -- A read before the others.
  before-Purged :
      (deadline : ℕ) (d d' : DyUd200 U) (bytes : List ℕ) (wanted : ℕ) (z : DyUd200 U × Result ℕ)
      → read_ts usb d ≡ (d', ok bytes)
      → 0 < wanted
      → Purged deadline d' (wanted - length bytes) z
      → Purged deadline d wanted z
  before-Purged deadline d d' bytes wanted z run more (raised last t n e reads few raises) =
      raised last t (length bytes + n) e (one_more d d' last bytes n run reads) (omega arith) raises
  before-Purged deadline d d' bytes wanted z run more (enough t n reads all) =
      enough t (length bytes + n) (one_more d d' t bytes n run reads) (omega arith)
  before-Purged deadline d d' bytes wanted z run more (late t n left reads sum some_left over) =
      late t (length bytes + n) left (one_more d d' t bytes n run reads) (omega arith) some_left
        over

  -- A call of `read_ts` from time `t` on: it raises, or it brings a byte or takes a tick.
  data Read (t : ℕ) : DyUd200 U × Result (List ℕ) → Type 0 where
    fails : (d : DyUd200 U) (e : Error) → Read t (d, raise e)
    brings :
        (d : DyUd200 U) (x : ℕ) (bytes : List ℕ) → t ≤ clock.now d.usb → Read t (d, ok (x ∷ bytes))
    lasts : (d : DyUd200 U) → t < clock.now d.usb → Read t (d, ok [])

  module _ (flow : ReadsFlow) where
    clear_ts-Read :
        (t : ℕ) (d : DyUd200 U) (bytes : List ℕ)
        → t ≤ clock.now d.usb
        → (bytes ≡ [] → t < clock.now d.usb)
        → Read t (clear_ts usb d bytes)
    unfolding clear_ts
    clear_ts-Read t d bytes h empty =
        by_code (usb.clear_halt d.usb).0 (usb.clear_halt d.usb).1 bytes (flow.clears d.usb) empty
      where
        fine :
            (u : U) (bytes : List ℕ)
            → clock.now d.usb ≤ clock.now u
            → (bytes ≡ [] → t < clock.now d.usb)
            → Read t (record d { usb = u }, ok bytes)
        fine u [] g empty = lasts _ (omega (arith, empty refl))
        fine u (x ∷ bytes) g empty = brings _ x bytes (omega arith)

        by_code :
            (u : U) (code : Code) (bytes : List ℕ)
            → clock.now d.usb ≤ clock.now u
            → (bytes ≡ [] → t < clock.now d.usb)
            → Read t (elim code [
              | no_device ↦ (record d { usb = u }, raise device_error)
              | success ↦ (record d { usb = u }, ok bytes)
              | timed_out ↦ (record d { usb = u }, ok bytes)
              | other ↦ (record d { usb = u }, ok bytes)
            ])
        by_code u no_device bytes g empty = fails _ device_error
        by_code u success bytes g empty = fine u bytes g empty
        by_code u timed_out bytes g empty = fine u bytes g empty
        by_code u other bytes g empty = fine u bytes g empty

    received-Read :
        (t : ℕ) (d : DyUd200 U) (bytes : List ℕ)
        → t ≤ clock.now d.usb
        → (bytes ≡ [] → t < clock.now d.usb)
        → Read t (received d bytes)
    unfolding received
    received-Read t d [] h empty = lasts d (empty refl)
    received-Read t d (x ∷ bytes) h empty = brings _ x bytes h

    on_read-Read :
        (t : ℕ) (code : Code) (d : DyUd200 U) (bytes : List ℕ)
        → t ≤ clock.now d.usb
        → (bytes ≡ [] → t < clock.now d.usb)
        → Read t (on_read usb code d bytes)
    unfolding on_read failed
    on_read-Read t success d bytes h empty = received-Read t d bytes h empty
    on_read-Read t timed_out d bytes h empty = received-Read t d bytes h empty
    on_read-Read t no_device d bytes h empty = fails d device_error
    on_read-Read t other d bytes h empty =
        if-both {A = DyUd200 U × Result (List ℕ)} (Read t)
          (leb ts_max_consecutive_errors (d.ts_consecutive_errors + 1)) _ _
          (λ g. fails _ device_error) (λ g. clear_ts-Read t _ bytes h empty)

    read_ts-Read : (d : DyUd200 U) → Read (clock.now d.usb) (read_ts usb d)
    unfolding read_ts
    read_ts-Read d =
        on_read-Read (clock.now d.usb) (usb.bulk_read d.usb).1.0 _ (usb.bulk_read d.usb).1.1
          (flow.takes d.usb) (flow.nothing d.usb)

    -- What follows a read, where the rest of the loop ends well.
    next_round :
        (deadline remaining t : ℕ) (from : DyUd200 U) (r : DyUd200 U × Result (List ℕ))
        (again : ℕ → Option (DyUd200 U × Result ℕ))
        → read_ts usb from ≡ r
        → 0 < remaining
        → Read t r
        → ((n : ℕ)
            → t ≤ clock.now r.0.usb
            → (0 < n) ⊎ (t < clock.now r.0.usb)
            → (z : DyUd200 U × Result ℕ) × (again n ≡ some z)
              × Purged deadline r.0 (remaining - n) z)
        → (z : DyUd200 U × Result ℕ) × (elim (r.1) [
          | raise e ↦ some (r.0, raise e)
          | ok bytes ↦ again (length bytes)
        ]
            ≡ some z)
          × Purged deadline from remaining z
    next_round deadline remaining t from r again run more (fails d e) rest =
        ((d, raise e), refl, raised from d 0 e (no_read from) more run)
    next_round deadline remaining t from r again run more (brings d x bytes h) rest =
        let (z, runs, v) = rest (length (x ∷ bytes)) h (inl (omega arith)) in
        (z, runs, before-Purged deadline from d (x ∷ bytes) remaining z run more v)
    next_round deadline remaining t from r again run more (lasts d h) rest =
        let (z, runs, v) = rest 0 (omega arith) (inr h) in
        (z, runs, before-Purged deadline from d [] remaining z run more v)

    purge_loop-Purged :
        (fuel deadline remaining : ℕ) (d : DyUd200 U)
        → remaining + (deadline - clock.now d.usb) < fuel
        → (z : DyUd200 U × Result ℕ) × (purge_loop fuel deadline remaining d ≡ some z)
          × Purged deadline d remaining z
    unfolding purge_loop
    purge_loop-Purged zero deadline remaining d enough_fuel = absurd (omega arith)
    purge_loop-Purged (suc fuel) deadline remaining d enough_fuel =
        elim (Bool-cases (ltb 0 remaining)) [
          | inr none_left ↦
              let e : remaining ≡ 0 = ground arith in
              ((d, ok remaining), rw none_left, rw e (enough d 0 (no_read d) (omega arith)))
          | inl more ↦ elim (Bool-cases (ltb (clock.now d.usb) deadline)) [
            | inr over ↦ (
              (d, ok remaining),
              rw (more, over),
              late d 0 remaining (no_read d) (omega arith) (ltb→lt 0 remaining more) (ground arith),
            )
            | inl early ↦
                let (z, run, v) =
                  next_round deadline remaining (clock.now d.usb) d (read_ts usb d)
                    (λ n. purge_loop fuel deadline (remaining - n) (read_ts usb d).0) refl
                    (ltb→lt 0 remaining more) (read_ts-Read d)
                    (λ n h progress.
                      purge_loop-Purged fuel deadline (remaining - n) (read_ts usb d).0
                        (shorter n h more early progress)) in
                (z, rw (more, early) run, v)
          ]
        ]
      where
        shorter :
            (n : ℕ)
            → clock.now d.usb ≤ clock.now (read_ts usb d).0.usb
            → ltb 0 remaining ≡ true
            → ltb (clock.now d.usb) deadline ≡ true
            → (0 < n) ⊎ (clock.now d.usb < clock.now (read_ts usb d).0.usb)
            → (remaining - n) + (deadline - clock.now (read_ts usb d).0.usb) < fuel
        shorter n h more early progress = ground arith

    -- With a clock that does not go back and reads that bring a byte or take a tick, `purge` returns:
    -- with an exception of `read_ts`, while it had read less than the packets; with nothing left,
    -- having read as many bytes as the packets have, or more; or, after its deadline only, with how
    -- many bytes less than that it had read.
    pub purge-Purged :
        (second packets : ℕ) (d : DyUd200 U)
        → (z : DyUd200 U × Result ℕ) × (purge second packets d ≡ some z)
          × Purged (clock.now d.usb + 3 * second) d (packets * packet_size) z
    unfolding purge
    purge-Purged second packets d =
        purge_loop-Purged (packets * 188 + 3 * second + 1) (clock.now d.usb + 3 * second)
          (packets * 188) d (omega arith)

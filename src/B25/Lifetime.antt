-- ===== src/B25/Lifetime.antt =====
-- The handles of the C library that `Descrambler` of src/recdyud/b25.py creates and destroys.
use recdyud.Base.{ℤ, ℕ, ◌≡◌, refl, ap, sym, ◌∙◌, Option, none, some, List, [], ◌∷◌, ◌++◌}
use mathlib.Core.List.{append-nil}
use recdyud.Bcas.{Result, ok, raise}
use recdyud.B25.{
  Card, Script, done, ask_ecm, ask_emm, Native, Op, Outcome, returned, b25_error, Created, created,
  Descrambler, Options, checked, ecm_result, on_ecm, on_emm, run, close, after_set_card,
  after_create, init, take_buffer, get, withdraw, put, flush_input, flush, then_get, in_flush,
}
use recdyud.B25

-- The state of the C library with a record of what was created and destroyed.
pub record Logged (W H : Type 0) : Type 0 where
  pub inner : W
  pub made : List H
  pub destroyed : List H

unfoldable pub with_log : {W H : Type 0} → List H → List H → Script W → Script (Logged W H)
with_log made destroyed (done w r) =
    done (record { inner = w; made = made; destroyed = destroyed }) r
with_log made destroyed (ask_ecm ecm next) =
    ask_ecm ecm (λ answer. with_log made destroyed (next answer))
with_log made destroyed (ask_emm emm next) =
    ask_emm emm (λ answer. with_log made destroyed (next answer))

unfoldable pub handles : {H : Type 0} → Option H → List H
handles none = []
handles (some h) = h ∷ []

-- The C library, which keeps that record and is the same otherwise.
unfoldable pub logged : {W H : Type 0} → Native W H → Native (Logged W H) H
unfolding with_log handles
logged native = record {
  loads = λ l. native.loads l.inner;
  create = λ l round strip emm.
      let (w, h) = native.create l.inner round strip emm in
      (record l { inner = w; made = l.made ++ handles h }, h);
  set_card = λ l h status ids.
      let (w, r) = native.set_card l.inner h status ids in (record l { inner = w }, r);
  put = λ l h bytes. with_log l.made l.destroyed (native.put l.inner h bytes);
  get = λ l h. let (w, r) = native.get l.inner h in (record l { inner = w }, r);
  withdraw = λ l h. let (w, r) = native.withdraw l.inner h in (record l { inner = w }, r);
  flush = λ l h. with_log l.made l.destroyed (native.flush l.inner h);
  program_count = λ l h. native.program_count l.inner h;
  program_info = λ l h i. native.program_info l.inner h i;
  destroy =
      λ l h. record l { inner = native.destroy l.inner h; destroyed = l.destroyed ++ (h ∷ []) };
}

-- The calls of an object; the results do not matter here.
pub data Use : Type 0 where
  use_put : List ℕ → Use
  use_get use_withdraw use_flush use_close : Use

module _ {W H K : Type 0} (native : Native W H) (card : Card K) where
  unfoldable pub apply : Use → Descrambler W H K → Descrambler W H K
  unfolding put get withdraw flush close
  apply (use_put bytes) x = (put native card x bytes).0
  apply use_get x = (get native x).0
  apply use_withdraw x = (withdraw native x).0
  apply use_flush x = (flush native card x).0
  apply use_close x = close native x

-- What is made is destroyed, but for the handle that the object holds.
abbrev pub Owned : {W H K : Type 0} → Descrambler (Logged W H) H K → Type 0
Owned x = x.lib.made ≡ x.lib.destroyed ++ handles x.h

module _ {W H K : Type 0} (card : Card K) where
  ecm_result-Owned :
      (x : Descrambler (Logged W H) H K) (r : Result (List ℕ × ℕ))
      → ((ecm_result x r).0.h ≡ x.h) × ((ecm_result x r).0.lib ≡ x.lib)
  unfolding ecm_result
  ecm_result-Owned x (ok (key, code)) = (refl, refl)
  ecm_result-Owned x (raise e) = (refl, refl)

  run-Owned :
      (script : Script W) (made destroyed : List H) (x : Descrambler (Logged W H) H K)
      → made ≡ destroyed ++ handles x.h
      → Owned (run card (with_log made destroyed script) x).0
  unfolding run with_log on_ecm on_emm
  run-Owned (done w r) made destroyed x owned = owned
  run-Owned (ask_ecm ecm next) made destroyed x owned =
      let (k, r) = card.process_ecm x.card ecm in
      let x' : Descrambler (Logged W H) H K = record x { card = k } in
      run-Owned (next (ecm_result x' r).1) made destroyed (ecm_result x' r).0
        (owned ∙ ap (λ h. destroyed ++ handles h) (sym (ecm_result-Owned x' r).0))
  run-Owned (ask_emm emm next) made destroyed x owned =
      run-Owned (next (on_emm card x emm).1) made destroyed (on_emm card x emm).0 owned

module _ {W H K : Type 0} (native : Native W H) (card : Card K) where
  close-Owned :
      (x : Descrambler (Logged W H) H K)
      → Owned x
      → (Owned (close (logged native) x)) × ((close (logged native) x).h ≡ none)
  unfolding close logged handles
  close-Owned x owned = closes x.lib x.card x.callback_error x.h owned
    where
      closes :
          (l : Logged W H) (k : K) (e : Option B25.Error) (h : Option H)
          → l.made ≡ l.destroyed ++ handles h
          → (Owned
              (close (logged native) (record { lib = l; card = k; callback_error = e; h = h })))
            × ((close (logged native) (record { lib = l; card = k; callback_error = e; h = h })).h
                ≡ none)
      closes l k e none owned = (owned, refl)
      closes l k e (some h) owned = (owned ∙ sym (append-nil (l.destroyed ++ (h ∷ []))), refl)

  then_get-Owned :
      (x : Descrambler (Logged W H) H K) (r : Outcome ℤ)
      → Owned x
      → Owned (then_get (logged native) card (x, r)).0
  unfolding then_get logged get take_buffer
  then_get-Owned x (returned r) owned = owned
  then_get-Owned x (b25_error op r) owned = owned

  pub apply-Owned :
      (u : Use) (x : Descrambler (Logged W H) H K)
      → Owned x
      → Owned (apply (logged native) card u x)
  unfolding apply logged put get withdraw flush flush_input take_buffer
  apply-Owned (use_put bytes) x owned =
      run-Owned card (native.put x.lib.inner x.h bytes) x.lib.made x.lib.destroyed x owned
  apply-Owned use_get x owned = owned
  apply-Owned use_withdraw x owned = owned
  apply-Owned use_flush x owned =
      then_get-Owned _ _
        (run-Owned card (native.flush x.lib.inner x.h) x.lib.made x.lib.destroyed x owned)
  apply-Owned use_close x owned = (close-Owned x owned).0

  pub flush_input-Owned :
      (x : Descrambler (Logged W H) H K) → Owned x → Owned (flush_input (logged native) card x).0
  unfolding flush_input logged
  flush_input-Owned x owned =
      run-Owned card (native.flush x.lib.inner x.h) x.lib.made x.lib.destroyed x owned

  -- After `close`.
  pub close-destroys :
      (x : Descrambler (Logged W H) H K)
      → Owned x
      → (close (logged native) x).lib.destroyed ≡ (close (logged native) x).lib.made
  unfolding handles
  close-destroys x owned =
      let (owned', closed) = close-Owned x owned in
      sym (
        owned'
        ∙ ap (λ h. (close (logged native) x).lib.destroyed ++ handles h) closed
        ∙ append-nil (close (logged native) x).lib.destroyed)

-- A state of the C library in which nothing has been created yet.
abbrev pub unlogged : {W H : Type 0} → W → Logged W H
unlogged w = record { inner = w; made = []; destroyed = [] }

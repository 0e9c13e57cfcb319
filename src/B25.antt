-- ===== src/B25.antt =====
-- `Descrambler` of src/recdyud/b25.py. The C library behind it is a record of functions on a state of
-- its own, with handles; a call of it that may call back for the card is the script of these calls.
pub mod Lifetime
use recdyud.Base.{
  ℤ, pos, is_pos, negsuc, ℕ, zero, suc, ◌+◌, ◌==◌, Bool, true, false, Option, none, some, List, [],
  ◌∷◌, take, map, if◌then◌else◌,
}
use recdyud.Bcas.{Transport, BCasCard, InitStatus, CardId, Error, Result, ok, raise}
use recdyud.Bcas
use recdyud.Cli.Pipeline.{Library}

-- `Protocol` of the card.
pub record Card (K : Type 0) : Type 0 where
  pub process_ecm : K → List ℕ → K × Result (List ℕ × ℕ)
  pub process_emm : K → List ℕ → K × Result (Unit {0})

pub record ProgramInfo : Type 0 where
  pub program_number : ℤ
  pub ecm_unpurchased_count : ℤ
  pub last_ecm_error_code : ℤ
  pub total_packet_count : ℤ
  pub undecrypted_packet_count : ℤ

-- A call of the C library: it ends with a result, or first calls back with an ECM, for which it gets
-- a key and a return code or -1, or with an EMM, for which it gets 0 or -1.
pub data Script (W : Type 0) : Type 0 where
  done : W → ℤ → Script W
  ask_ecm : List ℕ → (Option (List ℕ × ℕ) → Script W) → Script W
  ask_emm : List ℕ → (Bool → Script W) → Script W

-- The C library. A null pointer is `none`, as a handle and as the buffer of `get` and `withdraw`.
pub record Native (W H : Type 0) : Type 0 where
  pub loads : W → Bool
  pub create : W → ℕ → Bool → Bool → W × Option H
  pub set_card : W → Option H → InitStatus → List ℕ → W × ℤ
  pub put : W → Option H → List ℕ → Script W
  pub get : W → Option H → W × (ℤ × Option (List ℕ))
  pub withdraw : W → Option H → W × (ℤ × Option (List ℕ))
  pub flush : W → Option H → Script W
  pub program_count : W → Option H → ℤ
  pub program_info : W → Option H → ℕ → ℤ × ProgramInfo
  pub destroy : W → H → W

pub data Op : Type 0 where
  in_set_b_cas_card in_put in_get in_withdraw in_flush : Op

-- What a call returns; a B25Error has the call and the code.
pub data Outcome (A : Type 0) : Type 0 where
  returned : A → Outcome A
  b25_error : Op → ℤ → Outcome A

-- How the constructor ends.
pub data Created : Type 0 where
  created memory_error not_loaded : Created
  refused : ℤ → Created

-- The object, with the state of the C library and the card, which it shares.
pub record Descrambler (W H K : Type 0) : Type 0 where
  pub lib : W
  pub card : K
  pub callback_error : Option Error
  pub h : Option H

pub record Options : Type 0 where
  pub multi2_round : ℕ
  pub strip : Bool
  pub emm : Bool

unfoldable pub bytes_at : Option (List ℕ) → List ℕ
bytes_at none = []
bytes_at (some bytes) = bytes

module _ {A : Type 0} where
  -- `if r < 0: raise B25Error(op, r)`
  unfoldable pub checked : Op → ℤ → A → Outcome A
  checked op (pos n) a = returned a
  checked op (negsuc n) a = b25_error op (negsuc n)

unfoldable pub is_zero : ℤ → Bool
is_zero r = is_pos r 0

-- `max(0, n)`
unfoldable pub rounds_of : ℤ → ℕ
rounds_of (pos n) = n
rounds_of (negsuc n) = 0

-- The end of `_on_ecm`, of which the key takes 16 bytes.
unfoldable pub ecm_result :
    {W H K : Type 0}
    → Descrambler W H K
    → Result (List ℕ × ℕ)
    → Descrambler W H K × Option (List ℕ × ℕ)
ecm_result x (ok (key, code)) = (x, some (take 16 key, code))
ecm_result x (raise e) = (record x { callback_error = some e }, none)

unfoldable pub emm_result : Result (Unit {0}) → Bool
emm_result (ok u) = true
emm_result (raise e) = false

module _ {W H K : Type 0} (card : Card K) where
  unfoldable pub on_ecm : Descrambler W H K → List ℕ → Descrambler W H K × Option (List ℕ × ℕ)
  unfolding ecm_result
  on_ecm x ecm = let (k, r) = card.process_ecm x.card ecm in ecm_result (record x { card = k }) r

  unfoldable pub on_emm : Descrambler W H K → List ℕ → Descrambler W H K × Bool
  unfolding emm_result
  on_emm x emm = let (k, r) = card.process_emm x.card emm in (record x { card = k }, emm_result r)

  -- A call of the C library, its calls back included.
  unfoldable pub run : Script W → Descrambler W H K → Descrambler W H K × ℤ
  unfolding on_ecm on_emm
  run (done w r) x = (record x { lib = w }, r)
  run (ask_ecm ecm next) x = let (x', answer) = on_ecm x ecm in run (next answer) x'
  run (ask_emm emm next) x = let (x', answer) = on_emm x emm in run (next answer) x'

module _ {W H K : Type 0} (native : Native W H) where
  -- `__del__` and `__exit__` as well.
  unfoldable pub close : Descrambler W H K → Descrambler W H K
  close x = elim (x.h) [ none ↦ x | some h ↦ record x { lib = native.destroy x.lib h; h = none } ]

  -- `__init__`, from the result of `set_card` on.
  unfoldable pub after_set_card : Descrambler W H K → ℤ → Descrambler W H K × Created
  unfolding close
  after_set_card x (pos n) = (x, created)
  after_set_card x (negsuc n) = (close x, refused (negsuc n))

  -- From the result of `create` on.
  unfoldable pub after_create :
      Descrambler W H K → InitStatus → List CardId → Descrambler W H K × Created
  unfolding after_set_card
  after_create x status ids = elim (x.h) [
    | none ↦ (x, memory_error)
    | some h ↦
        let (w, r) = native.set_card x.lib (some h) status (map (λ (c : CardId). c.id48) ids) in
        after_set_card (record x { lib = w }) r
  ]

  -- `__init__`. An object whose constructor raises is what `__del__` still finds.
  unfoldable pub init : W → K → InitStatus → List CardId → Options → Descrambler W H K × Created
  unfolding after_create
  init w card status ids options =
      let (w', h) = native.create w options.multi2_round options.strip options.emm in
      if native.loads w
      then after_create (record { lib = w'; card = card; callback_error = none; h = h }) status ids
      else (record { lib = w; card = card; callback_error = none; h = none }, not_loaded)

  unfoldable pub take_buffer :
      Op → Descrambler W H K → W × (ℤ × Option (List ℕ)) → Descrambler W H K × Outcome (List ℕ)
  unfolding checked bytes_at
  take_buffer op x (w, (r, buffer)) = (record x { lib = w }, checked op r (bytes_at buffer))

  unfoldable pub get : Descrambler W H K → Descrambler W H K × Outcome (List ℕ)
  unfolding take_buffer
  get x = take_buffer in_get x (native.get x.lib x.h)

  unfoldable pub withdraw : Descrambler W H K → Descrambler W H K × Outcome (List ℕ)
  unfolding take_buffer
  withdraw x = take_buffer in_withdraw x (native.withdraw x.lib x.h)

  -- The loop of `programs`, from the `i`-th on.
  unfoldable pub programs_loop : Descrambler W H K → ℕ → ℕ → List ProgramInfo
  unfolding is_zero
  programs_loop x zero i = []
  programs_loop x (suc rounds) i =
      let (r, info) = native.program_info x.lib x.h i in
      let rest = programs_loop x rounds (i + 1) in if is_zero r then info ∷ rest else rest

  unfoldable pub programs : Descrambler W H K → List ProgramInfo
  unfolding programs_loop rounds_of
  programs x = programs_loop x (rounds_of (native.program_count x.lib x.h)) 0

  module _ (card : Card K) where
    -- A result that is not negative is returned.
    unfoldable pub put : Descrambler W H K → List ℕ → Descrambler W H K × Outcome ℤ
    unfolding run checked
    put x bytes = let (x', r) = run card (native.put x.lib x.h bytes) x in (x', checked in_put r r)

    -- The first call of `flush`.
    unfoldable pub flush_input : Descrambler W H K → Descrambler W H K × Outcome ℤ
    unfolding run checked
    flush_input x = let (x', r) = run card (native.flush x.lib x.h) x in (x', checked in_flush r r)

    unfoldable pub then_get : Descrambler W H K × Outcome ℤ → Descrambler W H K × Outcome (List ℕ)
    unfolding get
    then_get (x, returned r) = get x
    then_get (x, b25_error op r) = (x, b25_error op r)

    unfoldable pub flush : Descrambler W H K → Descrambler W H K × Outcome (List ℕ)
    unfolding flush_input then_get
    flush x = then_get (flush_input x)

-- What `Pipeline` sees of a result.
unfoldable pub is_returned : {A : Type 0} → Outcome A → Bool
is_returned (returned a) = true
is_returned (b25_error op r) = false

unfoldable pub output_of : {A : Type 0} → Outcome A → Option A
output_of (returned a) = some a
output_of (b25_error op r) = none

-- The object as `Pipeline` uses it.
unfoldable pub library : {W H K : Type 0} → Native W H → Card K → Library (Descrambler W H K)
unfolding put get withdraw flush_input close is_returned output_of
library native card = record {
  put = λ x bytes. let (x', r) = put native card x bytes in (x', is_returned r);
  get = λ x. let (x', r) = get native x in (x', output_of r);
  withdraw = λ x. let (x', r) = withdraw native x in (x', output_of r);
  flush_input = λ x. let (x', r) = flush_input native card x in (x', is_returned r);
  close = close native;
}

-- `BCasCard` as the card of a `Descrambler`.
unfoldable pub bcas : {T : Type 0} → Transport T → Card (BCasCard T)
unfolding Bcas.process_ecm Bcas.process_emm
bcas t = record { process_ecm = Bcas.process_ecm t; process_emm = Bcas.process_emm t }

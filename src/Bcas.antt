-- ===== src/Bcas.antt =====
-- src/recdyud/bcas.py: the B-CAS card, over the `Transport` that carries its APDUs.
pub mod Card
mod Runs
use recdyud.Base.{
  ℕ, zero, suc, ◌+◌, ◌-◌, ◌*◌, Bool, true, false, not, ◌||◌, Option, none, some, List, [], ◌∷◌,
  ◌++◌, length, get_or, drop, slice, ltb, ◌==◌, if◌then◌else◌, int_from_bytes,
}

abbrev pub cmd_initial_setting_conditions : List ℕ
cmd_initial_setting_conditions = 0x90 ∷ 0x30 ∷ 0 ∷ 0 ∷ 0 ∷ []

abbrev pub cmd_card_id_information : List ℕ
cmd_card_id_information = 0x90 ∷ 0x32 ∷ 0 ∷ 0 ∷ 0 ∷ []

abbrev pub ecm_header : List ℕ
ecm_header = 0x90 ∷ 0x34 ∷ 0 ∷ 0 ∷ []

abbrev pub emm_header : List ℕ
emm_header = 0x90 ∷ 0x36 ∷ 0 ∷ 0 ∷ []

abbrev pub max_ecm_emm_size : ℕ
max_ecm_emm_size = 115 - 6

abbrev pub return_code_ok : ℕ
return_code_ok = 0x2100

-- The reader and the wire to it: `none` is whatever exception they raise.
pub record Transport (T : Type 0) : Type 0 where
  pub bcas_reset : T → T × Bool
  pub bcas_transmit : T → List ℕ → T × Option (List ℕ)

pub data Error : Type 0 where
  card_error transport_error : Error

pub data Result {ℓ} (A : Type ℓ) : Type ℓ where
  ok : A → Result A
  raise : Error → Result A

pub record InitStatus : Type 0 where
  pub system_key : List ℕ
  pub init_cbc : List ℕ
  pub card_id : ℕ
  pub card_status : ℕ
  pub ca_system_id : ℕ

pub record CardId : Type 0 where
  pub id48 : ℕ
  pub check_code : ℕ

unfoldable pub parse_init_response : List ℕ → Result InitStatus
parse_init_response r =
    if ltb (length r) 57
    then raise card_error
    else (if not (int_from_bytes (slice r 4 6) == return_code_ok)
        then raise card_error
        else ok (record {
          system_key = slice r 16 48;
          init_cbc = slice r 48 56;
          card_id = int_from_bytes (slice r 8 14);
          card_status = int_from_bytes (slice r 2 4);
          ca_system_id = int_from_bytes (slice r 6 8);
        }))

-- The `for` loop, from the `i`-th of the card's ids on.
unfoldable pub ids_loop : ℕ → List ℕ → ℕ → List CardId → Result (List CardId)
ids_loop zero r i ids = ok ids
ids_loop (suc rounds) r i ids =
    let p = 7 + i * 10 in
    let id : CardId = record {
      id48 = int_from_bytes (slice r (p + 2) (p + 8));
      check_code = int_from_bytes (slice r (p + 8) (p + 10));
    } in
    let rest = ids_loop rounds r (i + 1) (ids ++ (id ∷ [])) in
    if ltb (length r) (p + 10) then raise card_error else rest

unfoldable pub parse_id_response : List ℕ → Result (List CardId)
unfolding ids_loop
parse_id_response r = if ltb (length r) 19 then raise card_error else ids_loop (get_or r 6 0) r 0 []

unfoldable pub emm_answer : Option (List ℕ) → Result (Unit {0})
emm_answer none = raise transport_error
emm_answer (some r) = if ltb (length r) 6 then raise card_error else ok tt

-- The object, and the transport with it.
pub record BCasCard (T : Type 0) : Type 0 where
  pub transport : T
  pub status : Option InitStatus
  pub ids : List CardId
  pub ecm_count : ℕ
  pub ecm_errors : ℕ

module _ {T : Type 0} where
  abbrev pub init : T → BCasCard T
  init t = record { transport = t; status = none; ids = []; ecm_count = 0; ecm_errors = 0 }

  -- A result that raises, or is too short, is counted as an error.
  unfoldable pub ecm_answer : BCasCard T → Option (List ℕ) → BCasCard T × Result (List ℕ × ℕ)
  ecm_answer c none = (record c { ecm_errors = c.ecm_errors + 1 }, raise transport_error)
  ecm_answer c (some r) =
      if ltb (length r) 25
      then (record c { ecm_errors = c.ecm_errors + 1 }, raise card_error)
      else (c, ok (slice r 6 22, int_from_bytes (slice r 4 6)))

  -- What `initialize` makes of the answer to the first command, and to the second.
  unfoldable pub init_answer : BCasCard T → Option (List ℕ) → BCasCard T × Result InitStatus
  unfolding parse_init_response
  init_answer c none = (c, raise transport_error)
  init_answer c (some r) = elim (parse_init_response r) [
    | raise e ↦ (c, raise e)
    | ok status ↦ (record c { status = some status }, ok status)
  ]

  unfoldable pub id_answer :
      BCasCard T → InitStatus → Option (List ℕ) → BCasCard T × Result InitStatus
  unfolding parse_id_response
  id_answer c status none = (c, raise transport_error)
  id_answer c status (some r) = elim (parse_id_response r) [
    | raise e ↦ (c, raise e)
    | ok ids ↦ (record c { ids = ids }, ok status)
  ]

module _ {T : Type 0} (t : Transport T) where
  open t use {bcas_reset, bcas_transmit}

  unfoldable pub ask_ids : BCasCard T × Result InitStatus → BCasCard T × Result InitStatus
  unfolding id_answer
  ask_ids (c, raise e) = (c, raise e)
  ask_ids (c, ok status) =
      let (t', r) = bcas_transmit c.transport cmd_card_id_information in
      id_answer (record c { transport = t' }) status r

  unfoldable pub initialize : BCasCard T → BCasCard T × Result InitStatus
  unfolding init_answer ask_ids
  initialize c =
      let (t', fine) = bcas_reset c.transport in
      let c' : BCasCard T = record c { transport = t' } in
      let (t'', r) = bcas_transmit t' cmd_initial_setting_conditions in
      if fine
      then ask_ids (init_answer (record c' { transport = t'' }) r)
      else (c', raise transport_error)

  unfoldable pub process_ecm : BCasCard T → List ℕ → BCasCard T × Result (List ℕ × ℕ)
  unfolding ecm_answer
  process_ecm c ecm =
      if ltb max_ecm_emm_size (length ecm)
      then (c, raise card_error)
      else (let (t', r) =
            bcas_transmit c.transport (ecm_header ++ (length ecm ∷ (ecm ++ (0 ∷ [])))) in
          ecm_answer (record c { transport = t'; ecm_count = c.ecm_count + 1 }) r)

  unfoldable pub process_emm : BCasCard T → List ℕ → BCasCard T × Result (Unit {0})
  unfolding emm_answer
  process_emm c emm =
      if ltb max_ecm_emm_size (length emm)
      then (c, raise card_error)
      else (let (t', r) =
            bcas_transmit c.transport (emm_header ++ (length emm ∷ (emm ++ (0 ∷ [])))) in
          (record c { transport = t' }, emm_answer r))

-- ===== src/Device/Reader/Requests.antt =====
-- `BCasCard` of src/recdyud/bcas.py over any transport: sequences of its calls, and what its answers
-- do not depend on.
use recdyud.Base.{
  ℕ, ◌≡◌, refl, Option, none, some, List, [], ◌∷◌, length, ltb, Bool-cases, inl, inr, ◌⊎◌,
}
use recdyud.Bcas.{
  Transport, BCasCard, InitStatus, CardId, cmd_initial_setting_conditions, cmd_card_id_information,
  ecm_header, emm_header, max_ecm_emm_size, parse_init_response, parse_id_response, ecm_answer,
  emm_answer, init_answer, id_answer, ask_ids, initialize, process_ecm, process_emm, card_error,
  transport_error,
}
use recdyud.Bcas

-- The object over another transport.
abbrev pub over : {T T' : Type 0} → T' → BCasCard T → BCasCard T'
over t c = record {
  transport = t;
  status = c.status;
  ids = c.ids;
  ecm_count = c.ecm_count;
  ecm_errors = c.ecm_errors;
}

-- What src/recdyud/b25.py and src/recdyud/cli.py ask of the object, and the answers.
pub data Request : Type 0 where
  start : Request
  ecm emm : List ℕ → Request

pub data Reply : Type 0 where
  started : Bcas.Result InitStatus → Reply
  keys : Bcas.Result (List ℕ × ℕ) → Reply
  done : Bcas.Result (Unit {0}) → Reply

unfoldable pub serve : {T : Type 0} → Transport T → BCasCard T → Request → BCasCard T × Reply
unfolding initialize process_ecm process_emm
serve t c start = let (c', r) = initialize t c in (c', started r)
serve t c (ecm bytes) = let (c', r) = process_ecm t c bytes in (c', keys r)
serve t c (emm bytes) = let (c', r) = process_emm t c bytes in (c', done r)

unfoldable pub serve_all :
    {T : Type 0} → Transport T → BCasCard T → List Request → BCasCard T × List Reply
serve_all t c [] = (c, [])
serve_all t c (request ∷ requests) =
    let (c', r) = serve t c request in let (c'', rs) = serve_all t c' requests in (c'', r ∷ rs)

Result_cases {ℓ} :
    {A : Type ℓ} (z : Bcas.Result A)
    → ((e : Bcas.Error) × (z ≡ Bcas.raise e)) ⊎ ((a : A) × (z ≡ Bcas.ok a))
Result_cases (Bcas.raise e) = inl (e, refl)
Result_cases (Bcas.ok a) = inr (a, refl)

module _ {T T' : Type 0} (t : T') (c : BCasCard T) where
  pub ecm_answer-over :
      (o : Option (List ℕ))
      → ecm_answer (over t c) o ≡ (over t (ecm_answer c o).0, (ecm_answer c o).1)
  unfolding ecm_answer
  ecm_answer-over none = refl
  ecm_answer-over (some r) = elim (Bool-cases (ltb (length r) 25)) [ inl h ↦ rw h | inr h ↦ rw h ]

  pub ecm_answer-transport : (o : Option (List ℕ)) → (ecm_answer c o).0.transport ≡ c.transport
  unfolding ecm_answer
  ecm_answer-transport none = refl
  ecm_answer-transport (some r) = elim (Bool-cases (ltb (length r) 25)) [
    | inl h ↦ rw h
    | inr h ↦ rw h
  ]

  pub init_answer-over :
      (o : Option (List ℕ))
      → init_answer (over t c) o ≡ (over t (init_answer c o).0, (init_answer c o).1)
  unfolding init_answer
  init_answer-over none = refl
  init_answer-over (some r) = elim (Result_cases (parse_init_response r)) [
    | inl (e, h) ↦ rw (h, init_answer)
    | inr (status, h) ↦ rw (h, init_answer)
  ]

  pub init_answer-transport : (o : Option (List ℕ)) → (init_answer c o).0.transport ≡ c.transport
  unfolding init_answer
  init_answer-transport none = refl
  init_answer-transport (some r) = elim (Result_cases (parse_init_response r)) [
    | inl (e, h) ↦ rw (h, init_answer)
    | inr (status, h) ↦ rw (h, init_answer)
  ]

  pub id_answer-over :
      (status : InitStatus) (o : Option (List ℕ))
      → id_answer (over t c) status o ≡ (over t (id_answer c status o).0, (id_answer c status o).1)
  unfolding id_answer
  id_answer-over status none = refl
  id_answer-over status (some r) = elim (Result_cases (parse_id_response r)) [
    | inl (e, h) ↦ rw (h, id_answer)
    | inr (ids, h) ↦ rw (h, id_answer)
  ]

  pub id_answer-transport :
      (status : InitStatus) (o : Option (List ℕ)) → (id_answer c status o).0.transport ≡ c.transport
  unfolding id_answer
  id_answer-transport status none = refl
  id_answer-transport status (some r) = elim (Result_cases (parse_id_response r)) [
    | inl (e, h) ↦ rw (h, id_answer)
    | inr (ids, h) ↦ rw (h, id_answer)
  ]

-- ===== src/Device/Reader/Through.antt =====
-- `BCasCard` of src/recdyud/bcas.py over `DyUd200` of src/recdyud/device.py, as src/recdyud/cli.py
-- puts them together, against the same object over the card itself.
use recdyud.Base.{
  ℕ, ◌+◌, ◌≤◌, ◌≡◌, refl, ap, sym, ◌∙◌, Bool, true, false, Option, none, some, List, [], ◌∷◌, ◌++◌,
  length, length-append, ltb, if◌then◌else◌, Bool-cases, inl, inr, arith, subst,
}
use recdyud.Protocol.{Crypto}
use recdyud.Bcas.{
  Transport, BCasCard, InitStatus, CardId, cmd_initial_setting_conditions, cmd_card_id_information,
  ecm_header, emm_header, max_ecm_emm_size, parse_init_response, parse_id_response, ecm_answer,
  emm_answer, init_answer, id_answer, ask_ids, initialize, process_ecm, process_emm, card_error,
  transport_error,
}
use recdyud.Bcas
use recdyud.Device.{DyUd200, Result, ok, raise, bcas_reset, bcas_transmit}
use recdyud.Device.Reader.{Card, Tuner, reader, Synced}
use recdyud.Device.Reader.Answers.{bcas_transmit-answer, bcas_reset-reset}
use recdyud.Device.Reader.Requests.{
  over, Request, start, ecm, emm, Reply, started, keys, done, serve, serve_all, ecm_answer-over,
  ecm_answer-transport, init_answer-over, init_answer-transport, id_answer-over,
  id_answer-transport,
}

-- A result of the device, an exception as `none`.
abbrev result_of {ℓ} : {T : Type 0} {A : Type ℓ} → T × Result A → T × Option A
result_of (d, ok a) = (d, some a)
result_of (d, raise e) = (d, none)

abbrev is_fine {ℓ} : {T : Type 0} {A : Type ℓ} → T × Result A → T × Bool
is_fine (d, ok a) = (d, true)
is_fine (d, raise e) = (d, false)

module _ {C : Type 0} (crypto : Crypto) (card : Card C) where
  -- The tuner as the `Transport` of `BCasCard`, with the two retries that are the default.
  unfoldable pub through : Transport (DyUd200 (Tuner C))
  through = record {
    bcas_reset = λ d. is_fine (bcas_reset crypto (reader crypto card) d);
    bcas_transmit = λ d apdu. result_of (bcas_transmit crypto (reader crypto card) d apdu 2);
  }

  -- The card itself as a `Transport`.
  unfoldable pub direct : Transport C
  direct = record {
    bcas_reset = λ c. (card.reset c, true);
    bcas_transmit = λ c apdu. let (c', r) = card.answer c apdu in (c', some r);
  }

  transmit-through :
      (d : DyUd200 (Tuner C)) (c : C) (apdu : List ℕ)
      → Synced crypto card d c
      → length apdu ≤ 115
      → (d' : DyUd200 (Tuner C)) × (through.bcas_transmit d apdu
          ≡ (d', some (card.answer c apdu).1))
        × Synced crypto card d' (card.answer c apdu).0
  unfolding through
  transmit-through d c apdu s fits =
      let (d', run, s') = bcas_transmit-answer crypto card d c apdu 2 s fits in
      (d', ap result_of run, s')

  -- The object over the tuner after a call, against that over the card.
  abbrev pub Refines : (BCasCard (DyUd200 (Tuner C)) × Reply) → (BCasCard C × Reply) → Type 0
  Refines concrete ideal =
      (d : DyUd200 (Tuner C)) × (concrete ≡ (over d ideal.0, ideal.1))
      × Synced crypto card d ideal.0.transport

  module _ (d : DyUd200 (Tuner C)) (c : BCasCard C) (s : Synced crypto card d c.transport) where
    pub process_ecm-Refines :
        (bytes : List ℕ)
        → Refines (serve through (over d c) (ecm bytes)) (serve direct c (ecm bytes))
    unfolding serve process_ecm direct
    process_ecm-Refines bytes = elim (Bool-cases (ltb max_ecm_emm_size (length bytes))) [
      | inl long ↦ (d, rw long, rw long s)
      | inr fits ↦
          let apdu = ecm_header ++ (length bytes ∷ (bytes ++ (0 ∷ []))) in
          let counted : BCasCard C = record c {
            transport = (card.answer c.transport apdu).0;
            ecm_count = c.ecm_count + 1;
          } in
          let (d', run, s') =
            transmit-through d c.transport apdu s (ground (arith, length-append bytes (0 ∷ []))) in
          (
            d',
            rw fits (
                ap
                  (λ (t : DyUd200 (Tuner C) × Option (List ℕ)).
                    let (c', r) =
                      ecm_answer
                        (record (over d c) { transport = t.0; ecm_count = c.ecm_count + 1 }) t.1 in
                    (c', keys r))
                  run
                ∙ ap
                    (λ (t : BCasCard (DyUd200 (Tuner C)) × Bcas.Result (List ℕ × ℕ)).
                      (t.0, keys t.1))
                    (ecm_answer-over d' counted (some (card.answer c.transport apdu).1))),
            rw fits (
                subst (Synced crypto card d')
                  (sym (ecm_answer-transport d' counted (some (card.answer c.transport apdu).1)))
                  s'),
          )
    ]

    pub process_emm-Refines :
        (bytes : List ℕ)
        → Refines (serve through (over d c) (emm bytes)) (serve direct c (emm bytes))
    unfolding serve process_emm direct
    process_emm-Refines bytes = elim (Bool-cases (ltb max_ecm_emm_size (length bytes))) [
      | inl long ↦ (d, rw long, rw long s)
      | inr fits ↦
          let apdu = emm_header ++ (length bytes ∷ (bytes ++ (0 ∷ []))) in
          let (d', run, s') =
            transmit-through d c.transport apdu s (ground (arith, length-append bytes (0 ∷ []))) in
          (
            d',
            rw fits (
                ap
                  (λ (t : DyUd200 (Tuner C) × Option (List ℕ)). (over t.0 c, done (emm_answer t.1)))
                  run),
            rw fits s',
          )
    ]

    -- The second command of `initialize`, where the first one has gone through.
    ask_ids-over :
        (r : Bcas.Result InitStatus)
        → (d' : DyUd200 (Tuner C)) × (ask_ids through (over d c, r)
            ≡ (over d' (ask_ids direct (c, r)).0, (ask_ids direct (c, r)).1))
          × Synced crypto card d' (ask_ids direct (c, r)).0.transport
    unfolding ask_ids direct
    ask_ids-over (Bcas.raise e) = (d, refl, s)
    ask_ids-over (Bcas.ok status) =
        let asked : BCasCard C = record c {
          transport = (card.answer c.transport cmd_card_id_information).0;
        } in
        let (d', run, s') =
          transmit-through d c.transport cmd_card_id_information s (omega arith) in
        (
          d',
          ap (λ (t : DyUd200 (Tuner C) × Option (List ℕ)). id_answer (over t.0 c) status t.1) run
              ∙ id_answer-over d' asked status
                  (some (card.answer c.transport cmd_card_id_information).1),
          subst (Synced crypto card d')
              (sym (
                id_answer-transport d' asked status
                  (some (card.answer c.transport cmd_card_id_information).1)))
              s',
        )

  pub initialize-Refines :
      (d : DyUd200 (Tuner C)) (c : BCasCard C)
      → Synced crypto card d c.transport
      → Refines (serve through (over d c) start) (serve direct c start)
  unfolding serve initialize direct through
  initialize-Refines d c s =
      let (d1, reset, s1) = bcas_reset-reset crypto card d s.key in
      let fresh = card.reset c.transport in
      let s1' = subst (Synced crypto card d1) (ap card.reset s.in_reader) s1 in
      let (d2, run, s2) =
        transmit-through d1 fresh cmd_initial_setting_conditions s1' (omega arith) in
      let reply = some (card.answer fresh cmd_initial_setting_conditions).1 in
      let told : BCasCard C = record c {
        transport = (card.answer fresh cmd_initial_setting_conditions).0;
      } in
      let s2' = subst (Synced crypto card d2) (sym (init_answer-transport d2 told reply)) s2 in
      let (d3, asked, s3) =
        ask_ids-over d2 (init_answer told reply).0 s2' (init_answer told reply).1 in
      (
        d3,
        ap begun (ap is_fine reset)
            ∙ ap
                (λ (t : DyUd200 (Tuner C) × Option (List ℕ)).
                  started_by (ask_ids through (init_answer (over t.0 c) t.1)))
                run
            ∙ ap (λ t. started_by (ask_ids through t)) (init_answer-over d2 told reply)
            ∙ ap started_by asked,
        s3,
      )
    where
      started_by :
          BCasCard (DyUd200 (Tuner C)) × Bcas.Result InitStatus
          → BCasCard (DyUd200 (Tuner C)) × Reply
      started_by (c', r) = (c', started r)

      begun : DyUd200 (Tuner C) × Bool → BCasCard (DyUd200 (Tuner C)) × Reply
      begun (d', fine) =
          let (t, r) = through.bcas_transmit d' cmd_initial_setting_conditions in
          started_by (
            if fine
            then ask_ids through (init_answer (over t c) r)
            else (over d' c, Bcas.raise transport_error))

  serve-Refines :
      (d : DyUd200 (Tuner C)) (c : BCasCard C) (request : Request)
      → Synced crypto card d c.transport
      → Refines (serve through (over d c) request) (serve direct c request)
  serve-Refines d c start s = initialize-Refines d c s
  serve-Refines d c (ecm bytes) s = process_ecm-Refines d c s bytes
  serve-Refines d c (emm bytes) s = process_emm-Refines d c s bytes

  -- `BCasCard` over the tuner does what it does over the card itself. From a tuner that is in step,
  -- any sequence of initialisations, ECMs and EMMs, of any length, gets the same replies, the errors
  -- among them, leaves the same status, ids and counters, and the card in the same state: encryption,
  -- framing, the T=1 blocks and their sequence bit do not show. The tuner is in step again.
  pub serve_all-through :
      (requests : List Request) (d : DyUd200 (Tuner C)) (c : BCasCard C)
      → Synced crypto card d c.transport
      → (d' : DyUd200 (Tuner C)) × (serve_all through (over d c) requests
          ≡ (over d' (serve_all direct c requests).0, (serve_all direct c requests).1))
        × Synced crypto card d' (serve_all direct c requests).0.transport
  unfolding serve_all
  serve_all-through [] d c s = (d, refl, s)
  serve_all-through (request ∷ requests) d c s =
      let (d1, run, s1) = serve-Refines d c request s in
      let c1 = (serve direct c request).0 in
      let (d2, runs, s2) = serve_all-through requests d1 c1 s1 in
      (
        d2,
        ap
              (λ (t : BCasCard (DyUd200 (Tuner C)) × Reply).
                let (c'', rs) = serve_all through t.0 requests in (c'', t.1 ∷ rs))
              run
            ∙ ap
                (λ (t : BCasCard (DyUd200 (Tuner C)) × List Reply).
                  (t.0, (serve direct c request).1 ∷ t.1))
                runs,
        s2,
      )

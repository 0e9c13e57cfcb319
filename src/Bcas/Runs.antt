-- ===== src/Bcas/Runs.antt =====
-- Runs of src/recdyud/bcas.py with a reader that gives one answer to everything.
use recdyud.Base.{
  ℕ, ◌+◌, ◌≤◌, ◌<◌, ◌≡◌, refl, true, some, List, [], ◌∷◌, ◌++◌, replicate, arith, ◌⊎◌,
}
use recdyud.Bcas.{Transport, init, ok, raise, card_error, parse_id_response, process_ecm}
use recdyud.Bcas.Card.{
  Entry, bytes_of, card_id_of, EcmSpec, parse_id_response-entries, process_ecm-EcmSpec,
}
use recdyud.Protocol.{t1_block}
use recdyud.Protocol
use recdyud.Protocol.Block.{IsBlock}

abbrev reader : Transport ℕ
reader = record {
  bcas_reset = λ n. (n + 1, true);
  bcas_transmit = λ n apdu. (n + 1, some (0 ∷ 0 ∷ 0 ∷ 0 ∷ 0x08 ∷ 0x00 ∷ replicate 19 7));
}

abbrev entry : Entry
entry = record { head = 1 ∷ 0 ∷ []; id = 0 ∷ 0 ∷ 0 ∷ 0 ∷ 1 ∷ 2 ∷ []; code = 3 ∷ 4 ∷ [] }

parse_id_response-entries_example :
    parse_id_response
      (replicate 6 0 ++ (1 ∷ (1 ∷ 0 ∷ 0 ∷ 0 ∷ 0 ∷ 0 ∷ 1 ∷ 2 ∷ 3 ∷ 4 ∷ 0x90 ∷ 0x00 ∷ [])))
    ≡ ok (card_id_of entry ∷ [])
unfolding bytes_of
parse_id_response-entries_example =
    parse_id_response-entries (replicate 6 0) (entry ∷ []) (0x90 ∷ 0x00 ∷ []) refl
      (record { head = refl; id = refl; code = refl }, tt) (omega arith)

process_ecm-EcmSpec_example :
    ((3 ≤ 109)
      × EcmSpec
          (init 0)
          (process_ecm reader (init 0) (1 ∷ 2 ∷ 3 ∷ [])).0
          (process_ecm reader (init 0) (1 ∷ 2 ∷ 3 ∷ [])).1
      × (((process_ecm reader (init 0) (1 ∷ 2 ∷ 3 ∷ [])).0.transport ≡ 1)
          × ((command : List ℕ) × (t1_block (0x90 ∷ 0x34 ∷ 0 ∷ 0 ∷ 3 ∷ 1 ∷ 2 ∷ 3 ∷ 0 ∷ []) 0x40
                ≡ Protocol.ok command)
              × IsBlock (0x90 ∷ 0x34 ∷ 0 ∷ 0 ∷ 3 ∷ 1 ∷ 2 ∷ 3 ∷ 0 ∷ []) 0x40 command)))
    ⊎ ((109 < 3) × (process_ecm reader (init 0) (1 ∷ 2 ∷ 3 ∷ []) ≡ (init 0, raise card_error)))
process_ecm-EcmSpec_example = process_ecm-EcmSpec reader (init 0) (1 ∷ 2 ∷ 3 ∷ []) 0x40

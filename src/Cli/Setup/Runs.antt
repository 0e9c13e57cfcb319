-- ===== src/Cli/Setup/Runs.antt =====
-- Runs of the descrambler over a C library that asks the card about every input, and of its setup.
use recdyud.Base.{
  pos, negsuc, ℕ, ◌+◌, ◌≡◌, refl, true, Option, none, some, List, [], ◌∷◌, ◌++◌, take, replicate,
  int_from_bytes, arith,
}
use recdyud.Protocol.{Crypto}
use recdyud.Bcas.{BCasCard, InitStatus}
use recdyud.Bcas
use recdyud.Device.Reader
use recdyud.Device.Reader.{Tuner, Synced}
use recdyud.Device.Reader.Through.{direct}
use recdyud.B25.{Script, done, ask_ecm, ask_emm, Native, Options, ProgramInfo, library, bcas}
use recdyud.B25
use recdyud.Cli.Pipeline
use recdyud.B25.Lifetime.{logged, unlogged}
use recdyud.Cli.Setup.Closed.{end_of, end_of-destroys}
use recdyud.Cli.Setup.{setup_descrambler, output_of}
use recdyud.Cli.Setup.Tidy.{IsTidy, setup_descrambler-IsTidy}

abbrev plain_crypto : Crypto
plain_crypto = record {
  crc32 = λ bytes. 5;
  encrypt = λ key bytes. bytes;
  decrypt = λ key bytes. bytes;
  crc32-lt = λ bytes. omega arith;
  length-encrypt = λ key bytes h. refl;
  decrypt-encrypt = λ key bytes h. refl;
}

-- A card with one id, whose answers are all alike and end with how many commands it has had.
abbrev card : Reader.Card ℕ
card = record {
  answer = λ n apdu. (n + 1, 0 ∷ 0 ∷ 0 ∷ 0 ∷ 0x21 ∷ 0 ∷ 1 ∷ n ∷ replicate 58 7);
  answer_fits = λ n apdu. omega arith;
  reset = λ n. 0;
}

abbrev keyed : List ℕ → List ℕ → Option (List ℕ × ℕ) → Script (List ℕ)
keyed w bytes none = done w (negsuc 8)
keyed w bytes (some (key, code)) = done (w ++ take 2 key ++ bytes) (pos 0)

abbrev info : ProgramInfo
info = record {
  program_number = pos 1024;
  ecm_unpurchased_count = pos 0;
  last_ecm_error_code = pos 0;
  total_packet_count = pos 9;
  undecrypted_packet_count = pos 0;
}

-- A library that puts two bytes of the key before each input.
abbrev native : Native (List ℕ) ℕ
native = record {
  loads = λ w. true;
  create = λ w round strip emm. (w, some 17);
  set_card = λ w h status ids. (w, pos 0);
  put = λ w h bytes. ask_emm (9 ∷ []) (λ fine. ask_ecm (take 3 bytes) (keyed w bytes));
  get = λ w h. ([], (pos 0, some w));
  withdraw = λ w h. ([], (pos 0, some w));
  flush = λ w h. done w (pos 0);
  program_count = λ w h. pos 1;
  program_info = λ w h i. (pos 0, info);
  destroy = λ w h. w;
}

abbrev options : Options
options = record { multi2_round = 4; strip = true; emm = true }

abbrev inputs : List (List ℕ × ℕ)
inputs = (0x47 ∷ 1 ∷ [], 100) ∷ (0x47 ∷ 2 ∷ [], 104) ∷ []

-- The keys are those with which the card has answered its fourth and its sixth command.
descrambled :
    output_of native
      (direct plain_crypto card)
      (setup_descrambler native (direct plain_crypto card) [] 3 options)
      5
      inputs
    ≡ some (1 ∷ 3 ∷ 0x47 ∷ 1 ∷ 1 ∷ 5 ∷ 0x47 ∷ 2 ∷ [])
unfolding output_of setup_descrambler direct Bcas.initialize int_from_bytes B25.init
    Pipeline.process Pipeline.init library bcas
descrambled = refl

setup_descrambler-IsTidy_example :
    IsTidy (setup_descrambler (logged native) (direct plain_crypto card) (unlogged []) 3 options)
setup_descrambler-IsTidy_example =
    setup_descrambler-IsTidy native (direct plain_crypto card) [] 3 options

end_of-destroys_example :
    (end_of native
      (direct plain_crypto card)
      true
      (setup_descrambler (logged native) (direct plain_crypto card) (unlogged []) 3 options)
      5
      inputs).destroyed
    ≡ (end_of native
        (direct plain_crypto card)
        true
        (setup_descrambler (logged native) (direct plain_crypto card) (unlogged []) 3 options)
        5
        inputs).made
end_of-destroys_example =
    end_of-destroys native (direct plain_crypto card) true [] 3 options 5 inputs

-- The one handle.
destroyed_once :
    (end_of native
      (direct plain_crypto card)
      true
      (setup_descrambler (logged native) (direct plain_crypto card) (unlogged []) 3 options)
      5
      inputs).destroyed
    ≡ 17 ∷ []
unfolding end_of setup_descrambler direct Bcas.initialize int_from_bytes B25.init logged
    Pipeline.process Pipeline.init library bcas
destroyed_once = refl

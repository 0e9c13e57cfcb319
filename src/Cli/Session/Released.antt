-- ===== src/Cli/Session/Released.antt =====
-- What a recording of src/recdyud/cli.py leaves behind, however it ends.
use recdyud.Base.{
  ◌++◌, ℕ, ◌≡◌, refl, Bool, true, false, if◌then◌else◌, Option, none, some, List, [], ◌∷◌, All,
  All-append, ◌⊎◌, inl, inr,
}
use recdyud.Protocol.{Crypto}
use recdyud.Device.{DyUd200}
use recdyud.Device.Waiting.{Clock}
use recdyud.Device.Lifecycle.{Bus, Handle, Opening, close}
use recdyud.Device.Lifecycle.Holds.{IsFree, Holding}
use recdyud.Device.Lifecycle.Claims.{
  Opens, first_free, not_ready, not_claimed, all_busy, open_device-Opens, close-IsFree,
}
use recdyud.Cli.Pipeline.{Library}
use recdyud.Cli.Output.{Writer, Output, close_file}
use recdyud.Cli.Recorder.{status, uncaught, endless}
use recdyud.Cli.Session.{
  Args, Outside, Ending, left, device_raised, Left, closed, leave, with_setup, with_device,
  record_to, main,
}

-- What became of the file: the last call was to close it, unless it is the standard output.
abbrev pub Closed : {F : Type 0} → Writer F → Bool → Option (Output F) → Option F → Type 0
Closed w to_file none file = file ≡ none
Closed {F} w true (some output) file = (f : F) × (file ≡ some (w.os_close f))
Closed {F} w false (some output) file = (f : F) × (file ≡ some f)

-- The output that is opened: none where the channel is refused before.
abbrev pub opened_output : {F : Type 0} → Option ℕ → Option (Output F) → Option (Output F)
opened_output none output = none
opened_output (some khz) output = output

-- The output closed, and no device held.
abbrev pub Clean :
    {U F : Type 0} {bus : Bus U}
    → Holding bus
    → Writer F
    → Args
    → Option (Output F)
    → Left U F
    → Type 0
Clean hold w args output l =
    (l.exit ≡ endless)
    ⊎ (Closed w args.to_file (opened_output args.frequency_khz output) l.file
        × All (IsFree hold) l.devices)

module _ {U S F : Type 0} (crypto : Crypto) (bus : Bus U) (clock : Clock U) (library : Library S)
    (w : Writer F) (reads : DyUd200 U → DyUd200 U) (args : Args) (outside : Outside)
    (hold : Holding bus) where
  closed-Closed :
      (output : Output F) (f : F)
      → Closed w args.to_file (some output) (closed crypto bus clock library w reads args outside f)
  unfolding closed close_file
  closed-Closed output f = by_kind args.to_file
    where
      by_kind :
          (to_file : Bool)
          → Closed w to_file (some output) (some (if to_file then w.os_close f else f))
      by_kind true = (f, refl)
      by_kind false = (f, refl)

  -- Where a file was opened.
  abbrev CleanFile : Output F → Left U F → Type 0
  CleanFile output l =
      (l.exit ≡ endless)
      ⊎ (Closed w args.to_file (some output) l.file × All (IsFree hold) l.devices)

  leave-CleanFile :
      (tried : List (Handle U)) (h : Handle U) (output : Output F) (ending : Ending S F)
      → All (IsFree hold) tried
      → h.claimed ≡ true
      → CleanFile output (leave crypto bus clock library w reads args outside tried h output ending)
  unfolding leave
  leave-CleanFile tried h output ending free held = by_ending ending
    where
      released : All (IsFree hold) (tried ++ (close crypto bus h ∷ []))
      released =
          All-append (IsFree hold) tried (close crypto bus h ∷ []) free
            (close-IsFree crypto bus hold h held, tt)

      by_ending :
          (ending : Ending S F)
          → CleanFile output
              (leave crypto bus clock library w reads args outside tried h output ending)
      by_ending (left r endless) = inl refl
      by_ending (left r (status n)) = inr (closed-Closed output _, released)
      by_ending (left r uncaught) = inr (closed-Closed output _, released)
      by_ending (device_raised e) = inr (closed-Closed output _, released)

  with_setup-CleanFile :
      (tried : List (Handle U)) (h : Handle U) (khz : ℕ) (output : Output F)
      (z : DyUd200 U × Option (Option S))
      → All (IsFree hold) tried
      → h.claimed ≡ true
      → CleanFile output
          (with_setup crypto bus clock library w reads args outside tried h khz output z)
  unfolding with_setup
  with_setup-CleanFile tried h khz output (d, none) free held =
      leave-CleanFile tried (record h { tuner = d }) output (left none uncaught) free held
  with_setup-CleanFile tried h khz output (d, some descrambler) free held =
      leave-CleanFile tried _ output _ free held

  with_device-CleanFile :
      (setup : DyUd200 U → DyUd200 U × Option (Option S)) (khz : ℕ) (output : Output F)
      (devices : List (Handle U)) (o : Opening U)
      → Opens crypto bus hold devices o
      → CleanFile output
          (with_device crypto bus clock library w reads args outside setup khz output o)
  unfolding with_device
  with_device-CleanFile setup khz output devices o
        (first_free before h h' after split busy claims run held free) =
      with_setup-CleanFile _ h' khz output (setup h'.tuner) free held
  with_device-CleanFile setup khz output devices o
        (not_ready before h h' after e split busy claims run free) =
      inr (closed-Closed output output.file, free)
  with_device-CleanFile setup khz output devices o
        (not_claimed before h after e split busy claims free) =
      inr (closed-Closed output output.file, free)
  with_device-CleanFile setup khz output devices o (all_busy busy free) =
      inr (closed-Closed output output.file, free)

  -- Unless it goes on for ever, a recording from free devices, with a USB library as `Holding` says,
  -- ends with the output closed, if it was opened and is not the standard output, and with the devices
  -- that it has tried free again, their interface released and their resources disposed of: whatever
  -- raises, at the channel, the output, the devices, the setup of the descrambler, the tuning, the
  -- lock, the purge or the writing.
  pub main-Clean :
      (setup : DyUd200 U → DyUd200 U × Option (Option S)) (devices : List (Handle U))
      (output : Option (Output F))
      → All (IsFree hold) devices
      → Clean hold w args output
          (main crypto bus clock library w reads args outside setup devices output)
  unfolding main record_to
  main-Clean setup devices output free = by_arguments args.frequency_khz output
    where
      by_arguments :
          (frequency_khz : Option ℕ) (output : Option (Output F))
          → ((record_to crypto bus clock library w reads args outside setup devices frequency_khz
                output).exit
              ≡ endless)
            ⊎ (Closed w args.to_file
                  (opened_output frequency_khz output)
                  (record_to crypto bus clock library w reads args outside setup devices
                    frequency_khz output).file
                × All
                    (IsFree hold)
                    (record_to crypto bus clock library w reads args outside setup devices
                      frequency_khz output).devices)
      by_arguments none output = inr (refl, tt)
      by_arguments (some khz) none = inr (refl, tt)
      by_arguments (some khz) (some output) =
          with_device-CleanFile setup khz output devices _
            (open_device-Opens crypto bus hold devices free)

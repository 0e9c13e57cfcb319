-- ===== src/Device/Lifecycle/Runs.antt =====
-- Runs of the life of a `DyUd200` of src/recdyud/device.py: of two devices, the first is in use.
use recdyud.Base.{
  ℕ, ◌≡◌, refl, sym, Bool, true, false, ◌++◌, Option, none, some, [], ◌∷◌, replicate,
  int_from_bytes, arith,
}
use mathlib.Core.Option.{some-ne-none}
use recdyud.Protocol.{Crypto, init, encode, decode}
use recdyud.Device.{success}
use recdyud.Device.Lifecycle.{Bus, Handle, initialize, open_device}
use recdyud.Device.Lifecycle.Keys.{key_of, brought, initialize-key}
use recdyud.Device.Lifecycle.Holds.{Holding}
use recdyud.Device.Lifecycle.Claims.{Opens, open_device-Opens}

abbrev plain_crypto : Crypto
plain_crypto = record {
  crc32 = λ bytes. 5;
  encrypt = λ key bytes. bytes;
  decrypt = λ key bytes. bytes;
  crc32-lt = λ bytes. omega arith;
  length-encrypt = λ key bytes h. refl;
  decrypt-encrypt = λ key bytes h. refl;
}

-- The state: whether another process holds the interface, whether this one does, and whether it has
-- resources.
record State : Type 0 where
  in_use : Bool
  held : Bool
  allocated : Bool

-- Every command is answered, and nothing
-- is left in the endpoints.
abbrev attempt : Bool → State → State × Option ℕ
attempt true u = (record u { allocated = true }, some 16)
attempt false u = (record u { held = true; allocated = true }, none)

abbrev bus : Bus State
bus = record {
  usb = record {
    write = λ u frame. (u, true);
    read = λ u. (u, some (replicate 124 0 ++ (0 ∷ 0 ∷ 0 ∷ 5 ∷ [])));
    bulk_read = λ u. (u, (success, []));
    clear_halt = λ u. (u, success);
  };
  clear = λ u endpoint. (u, success);
  read_from = λ u endpoint. (u, none);
  is_kernel_driver_active = λ u. (u, none);
  detach_kernel_driver = λ u. (u, true);
  get_active_configuration = λ u. (u, some 1);
  set_configuration = λ u. (u, none);
  claim_interface = λ u. attempt u.in_use u;
  release_interface = λ u. (record u { held = false }, true);
  dispose_resources = λ u. record u { allocated = false };
}

attempt-held :
    (b : Bool) (u : State) (errno : ℕ)
    → (attempt b u).1 ≡ some errno
    → u.held ≡ false
    → (attempt b u).0.held ≡ false
attempt-held true u errno e h = h
attempt-held false u errno e h = absurd (some-ne-none errno (sym e))

abbrev bus-Holding : Holding bus
bus-Holding = record {
  interface = λ u. u.held;
  resources = λ u. u.allocated;
  released = λ u. refl;
  disposed = λ u. refl;
  disposes = λ u e. e;
  asks = λ u e. e;
  detaches = λ u e. e;
  looks = λ u e. e;
  sets = λ u e. e;
  fails = λ u errno e h. attempt-held u.in_use u errno e h;
}

abbrev device : Bool → Handle State
device in_use = record {
  tuner = record {
    usb = record { in_use = in_use; held = false; allocated = false };
    codec = init;
    bcas_pcb = 0;
    ts_errors = 0;
    ts_consecutive_errors = 0;
  };
  claimed = false;
  firmware = none;
  serial = none;
}

initialize-key_example :
    (version : ℕ) × ((initialize plain_crypto bus (device false)).0.firmware ≡ some version)
    × (key_of (initialize plain_crypto bus (device false)).0 ≡ brought)
unfolding initialize encode decode int_from_bytes
initialize-key_example =
    initialize-key plain_crypto bus (device false) (initialize plain_crypto bus (device false)).0
      refl

open_device-Opens_example :
    Opens plain_crypto bus bus-Holding
      (device true ∷ device false ∷ [])
      (open_device plain_crypto bus (device true ∷ device false ∷ []))
open_device-Opens_example =
    open_device-Opens plain_crypto bus bus-Holding (device true ∷ device false ∷ [])
      ((refl, refl, refl), ((refl, refl, refl), tt))

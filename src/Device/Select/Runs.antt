-- ===== src/Device/Select/Runs.antt =====
-- Runs of the selection of a device of src/recdyud/device.py.
use recdyud.Base.{◌≡◌, refl, true, false, some, List, [], ◌∷◌, ◌++◌}
use mathlib.Core.List.{Permᴰ}
use recdyud.Channels.Parse.{str}
use recdyud.Device.Select.{
  DeviceLocation, location, dev_bus_usb, enumerate_devices, matches, selected, value_error, select,
  key_leb,
}
use recdyud.Device.Select.Named.{matches-str}
use recdyud.Device.Select.Order.{Ordered, enumerate_devices-Ordered}

-- Ports 10 and 9 of bus 1, and bus 2 itself.
abbrev ten : DeviceLocation
ten = record { bus = 1; address = 5; port_path = 49 ∷ 45 ∷ 49 ∷ 48 ∷ [] }

abbrev nine : DeviceLocation
nine = record { bus = 1; address = 7; port_path = 49 ∷ 45 ∷ 57 ∷ [] }

abbrev hub : DeviceLocation
hub = record { bus = 2; address = 1; port_path = 50 ∷ [] }

located : location 1 5 (10 ∷ []) ≡ ten
unfolding location str
located = refl

abbrev found : List DeviceLocation
found = hub ∷ nine ∷ ten ∷ []

-- The port path is compared as text.
listed : enumerate_devices (λ d. d) found ≡ ten ∷ nine ∷ hub ∷ []
unfolding enumerate_devices key_leb
listed = refl

-- "1:7"
by_address : select (λ d. d) (some (49 ∷ 58 ∷ 55 ∷ [])) found ≡ selected (nine ∷ [])
unfolding select matches
by_address = refl

-- "x:y", for which `int` raises a ValueError.
malformed : select (λ d. d) (some (120 ∷ 58 ∷ 121 ∷ [])) found ≡ value_error
unfolding select matches
malformed = refl

enumerate_devices-Ordered_example :
    Ordered (λ d. d) (enumerate_devices (λ d. d) found)
    × Permᴰ found (enumerate_devices (λ d. d) found)
    × ((found' : List DeviceLocation)
        → Permᴰ found found'
        → enumerate_devices (λ d. d) found ≡ enumerate_devices (λ d. d) found')
enumerate_devices-Ordered_example = enumerate_devices-Ordered (λ d. d) (λ a b e. e) found

matches-str_example :
    (matches (str 1) 0 nine ≡ some false)
    × (matches (str 1 ++ (58 ∷ str 7)) 0 nine ≡ some true)
    × (matches (dev_bus_usb ++ (str 1 ++ (47 ∷ str 7))) 0 nine ≡ some true)
matches-str_example = matches-str 0 nine 1 7

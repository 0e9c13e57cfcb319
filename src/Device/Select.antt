-- ===== src/Device/Select.antt =====
-- Which devices src/recdyud/device.py opens: `DeviceLocation`, `enumerate_devices`, `_matches` and
-- `_select`.
pub mod Keys
pub mod Order
pub mod Named
mod Runs
use recdyud.Base.{
  ℕ, zero, suc, ◌+◌, ℤ, pos, negsuc, is_pos, Bool, true, false, not, ◌&&◌, ◌||◌, Option, none, some,
  List, [], ◌∷◌, ◌++◌, map, length, drop, ltb, leb, ◌==◌, if◌then◌else◌,
}
use recdyud.Channels.Parse.{isdigit, int_of, str, text_equal}
use recdyud.Device.Lifecycle.Text.{strip}
use recdyud.Text.{split, partition, startswith, int_text}

pub record DeviceLocation : Type 0 where
  pub bus : ℕ
  pub address : ℕ
  pub port_path : List ℕ

-- `".".join(str(p) for p in ports)`
unfoldable pub dotted : List ℕ → List ℕ
unfolding str
dotted [] = []
dotted (p ∷ ports) =
    let rest = dotted ports in elim ports [ [] ↦ str p | q ∷ more ↦ str p ++ (46 ∷ rest) ]

-- `_location`, from the bus, the address and the port numbers.
unfoldable pub location : ℕ → ℕ → List ℕ → DeviceLocation
unfolding dotted str
location bus address ports = record {
  bus = bus;
  address = address;
  port_path = elim ports [ [] ↦ str bus | p ∷ more ↦ str bus ++ (45 ∷ dotted (p ∷ more)) ];
}

-- `<=` of strings.
unfoldable pub text_leb : List ℕ → List ℕ → Bool
text_leb [] ys = true
text_leb (x ∷ xs) [] = false
text_leb (x ∷ xs) (y ∷ ys) = ltb x y || ((x == y) && text_leb xs ys)

-- `<=` of the keys `(bus, port_path, address)`: the first of them in which the two differ decides.
unfoldable pub key_leb : DeviceLocation → DeviceLocation → Bool
unfolding text_leb text_equal
key_leb a b =
    if a.bus == b.bus
    then (if text_equal a.port_path b.port_path
        then leb a.address b.address
        else text_leb a.port_path b.port_path)
    else leb a.bus b.bus

module _ {D : Type 0} (location_of : D → DeviceLocation) where
  -- `list.sort` with this key, which keeps the order of devices whose keys are equal.
  unfoldable pub insert : D → List D → List D
  unfolding key_leb
  insert d [] = d ∷ []
  insert d (e ∷ devices) =
      let rest = insert d devices in
      if key_leb (location_of d) (location_of e) then d ∷ (e ∷ devices) else e ∷ rest

  -- `enumerate_devices`, of what the USB library finds.
  unfoldable pub enumerate_devices : List D → List D
  unfolding insert
  enumerate_devices [] = []
  enumerate_devices (d ∷ found) = insert d (enumerate_devices found)

-- `(int(bus), int(addr)) == (loc.bus, loc.address)`; `none` is a ValueError.
unfoldable pub same_address : Option ℤ → Option ℤ → DeviceLocation → Option Bool
same_address none address loc = none
same_address (some bus) none loc = none
same_address (some bus) (some address) loc = some (is_pos bus loc.bus && is_pos address loc.address)

-- "/dev/bus/usb/"
abbrev pub dev_bus_usb : List ℕ
dev_bus_usb = 47 ∷ 100 ∷ 101 ∷ 118 ∷ 47 ∷ 98 ∷ 117 ∷ 115 ∷ 47 ∷ 117 ∷ 115 ∷ 98 ∷ 47 ∷ []

-- The parts of a path behind that prefix.
unfoldable pub path_matches : List (List ℕ) → DeviceLocation → Option Bool
unfolding same_address int_text
path_matches [] loc = some false
path_matches (bus ∷ []) loc = some false
path_matches (bus ∷ (address ∷ [])) loc = same_address (int_text bus) (int_text address) loc
path_matches (bus ∷ (address ∷ (part ∷ parts))) loc = some false

-- A selector with or without a colon.
unfoldable pub colon_matches : List ℕ → List ℕ × Option (List ℕ) → DeviceLocation → Option Bool
unfolding same_address int_text
colon_matches s (bus, some address) loc = same_address (int_text bus) (int_text address) loc
colon_matches s (bus, none) loc = some (text_equal s loc.port_path)

unfoldable pub stripped_matches : List ℕ → ℕ → DeviceLocation → Option Bool
unfolding split partition path_matches colon_matches isdigit int_of startswith
stripped_matches s index loc =
    if isdigit s
    then some (int_of s == index)
    else (if startswith dev_bus_usb s
        then path_matches (split 47 (drop (length dev_bus_usb) s)) loc
        else colon_matches s (partition 58 s) loc)

unfoldable pub matches : List ℕ → ℕ → DeviceLocation → Option Bool
unfolding stripped_matches strip
matches selector index loc = stripped_matches (strip selector) index loc

-- How `_select` ends.
pub data Selection (D : Type 0) : Type 0 where
  selected : List D → Selection D
  not_found value_error : Selection D

-- "auto"
abbrev pub auto : List ℕ
auto = 97 ∷ 117 ∷ 116 ∷ 111 ∷ []

unfoldable pub keep_matching : {D : Type 0} → Option Bool → D → Option (List D) → Option (List D)
keep_matching none d rest = none
keep_matching (some fits) d none = none
keep_matching (some fits) d (some ds) = some (if fits then d ∷ ds else ds)

unfoldable pub selection_of : {D : Type 0} → Option (List D) → Selection D
selection_of none = value_error
selection_of (some []) = not_found
selection_of (some (d ∷ matched)) = selected (d ∷ matched)

module _ {D : Type 0} (location_of : D → DeviceLocation) where
  -- The list `matched`, of the devices from the `index`-th on.
  unfoldable pub matched : List ℕ → ℕ → List D → Option (List D)
  unfolding matches keep_matching
  matched selector index [] = some []
  matched selector index (d ∷ devices) =
      let rest = matched selector (index + 1) devices in
      keep_matching (matches selector index (location_of d)) d rest

  unfoldable pub select_named : List ℕ → List D → Selection D
  unfolding matched selection_of text_equal
  select_named selector devices =
      if text_equal selector [] || text_equal selector auto
      then selected devices
      else selection_of (matched selector 0 devices)

  -- Of the devices that `enumerate_devices` returns.
  unfoldable pub select_from : Option (List ℕ) → List D → Selection D
  unfolding select_named
  select_from selector [] = not_found
  select_from none (d ∷ devices) = selected (d ∷ devices)
  select_from (some s) (d ∷ devices) = select_named s (d ∷ devices)

  unfoldable pub select : Option (List ℕ) → List D → Selection D
  unfolding select_from enumerate_devices
  select selector found = select_from selector (enumerate_devices location_of found)

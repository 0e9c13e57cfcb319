-- ===== src/Device/Select/Named.antt =====
-- The selectors of src/recdyud/device.py that name a device by number or by address.
use recdyud.Base.{
  ℕ, ◌≡◌, refl, Bool-cases, inl, inr, true, false, ◌&&◌, some, List, [], ◌∷◌, ◌++◌, ◌==◌, arith,
}
use recdyud.Channels.Parse.{is_digit, all_digits, isdigit, str, text_equal}
use recdyud.Text.{startswith}
use recdyud.Text.Digits.{
  is_solid, is_solid-append, strip-solid, all_digits-solid, all_digits-cons, isdigit-str,
  int_of-str, int_text-str, str-digits,
}
use recdyud.Text.Split.{lacks-digits, split-lacks, split-join, partition-join}
use recdyud.Device.Select.{
  DeviceLocation, dev_bus_usb, same_address, path_matches, colon_matches, stripped_matches, matches,
}

digit-other : (c x : ℕ) → is_digit c ≡ false → is_digit x ≡ true → (x == c) ≡ false
digit-other c x h k = ground arith

all_digits-other :
    (c : ℕ) (xs ys : List ℕ) → is_digit c ≡ false → all_digits (xs ++ (c ∷ ys)) ≡ false
unfolding all_digits
all_digits-other c [] ys other = rw other refl
all_digits-other c (x ∷ xs) ys other =
    rw (all_digits-other c xs ys other)
      (elim (Bool-cases (is_digit x)) [ inl e ↦ rw e refl | inr e ↦ rw e refl ])

-- The two numbers of an address.
joined-solid :
    (c bus address : ℕ) → is_solid (c ∷ []) ≡ true → is_solid (str bus ++ (c ∷ str address)) ≡ true
unfolding is_solid
joined-solid c bus address h =
    is_solid-append (str bus) (c ∷ str address) (all_digits-solid (str bus) (str-digits bus)) (
      is_solid-append (c ∷ []) (str address) h
        (all_digits-solid (str address) (str-digits address)))

isdigit-colon :
    (xs ys : List ℕ)
    → isdigit xs ≡ true
    → (isdigit (xs ++ (58 ∷ ys)) ≡ false) × (startswith dev_bus_usb (xs ++ (58 ∷ ys)) ≡ false)
unfolding isdigit startswith text_equal
isdigit-colon [] ys h = absurd (cc h)
isdigit-colon (x ∷ xs) ys h = (
  all_digits-other 58 (x ∷ xs) ys refl,
  let e = digit-other 47 x refl (all_digits-cons x xs h).0 in rw e refl,
)

module _ (index : ℕ) (loc : DeviceLocation) where
  by_index : (n : ℕ) → matches (str n) index loc ≡ some (n == index)
  unfolding matches stripped_matches
  by_index n =
      rw
        (strip-solid (str n) (all_digits-solid (str n) (str-digits n)), isdigit-str n, int_of-str n)

  by_address :
      (bus address : ℕ)
      → matches (str bus ++ (58 ∷ str address)) index loc
        ≡ some (bus == loc.bus && address == loc.address)
  unfolding matches stripped_matches colon_matches same_address is_solid
  by_address bus address =
      let (none_digit, no_path) = isdigit-colon (str bus) (str address) (isdigit-str bus) in
      rw (
        strip-solid (str bus ++ (58 ∷ str address)) (joined-solid 58 bus address refl),
        none_digit,
        no_path,
        partition-join 58 (str bus) (str address) (lacks-digits 58 (str bus) refl (str-digits bus)),
        int_text-str bus,
        int_text-str address,
      )

  by_path :
      (bus address : ℕ)
      → matches (dev_bus_usb ++ (str bus ++ (47 ∷ str address))) index loc
        ≡ some (bus == loc.bus && address == loc.address)
  unfolding matches stripped_matches path_matches same_address isdigit all_digits startswith
      text_equal is_solid
  by_path bus address = rw (
    strip-solid (dev_bus_usb ++ (str bus ++ (47 ∷ str address))) (joined-solid 47 bus address refl),
    split-join 47 (str bus) (str address) (lacks-digits 47 (str bus) refl (str-digits bus)),
    split-lacks 47 (str address) (lacks-digits 47 (str address) refl (str-digits address)),
    int_text-str bus,
    int_text-str address,
  )

-- A number selects the device of that index; the two forms of an address, "bus:address" and
-- "/dev/bus/usb/bus/address", select the device that has it, whatever its index.
pub matches-str :
    (index : ℕ) (loc : DeviceLocation) (bus address : ℕ)
    → (matches (str bus) index loc ≡ some (bus == index))
      × (matches (str bus ++ (58 ∷ str address)) index loc
          ≡ some (bus == loc.bus && address == loc.address))
      × (matches (dev_bus_usb ++ (str bus ++ (47 ∷ str address))) index loc
          ≡ some (bus == loc.bus && address == loc.address))
matches-str index loc bus address =
    (by_index index loc bus, by_address index loc bus address, by_path index loc bus address)

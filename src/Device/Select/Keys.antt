-- ===== src/Device/Select/Keys.antt =====
-- The order of locations by which src/recdyud/device.py lists the devices.
use recdyud.Base.{
  ℕ, ◌<◌, ◌≤◌, ltb, ◌==◌, ◌≡◌, refl, ap, true, false, Bool-cases, inl, inr, arith, List, [], ◌∷◌,
}
use recdyud.Channels.Parse.{text_equal}
use recdyud.Text.Digits.{text_equal-eq}
use recdyud.Device.Select.{DeviceLocation, text_leb, key_leb}

text_equal_refl : (xs : List ℕ) → text_equal xs xs ≡ true
unfolding text_equal
text_equal_refl [] = refl
text_equal_refl (x ∷ xs) = let ih = text_equal_refl xs in ground (arith, ih)

text_leb_total : (xs ys : List ℕ) → text_leb xs ys ≡ false → text_leb ys xs ≡ true
unfolding text_leb
text_leb_total [] ys h = absurd (cc h)
text_leb_total (x ∷ xs) [] h = refl
text_leb_total (x ∷ xs) (y ∷ ys) h = let ih = text_leb_total xs ys in ground (arith, ih)

text_leb_antisym :
    (xs ys : List ℕ) → text_leb xs ys ≡ true → text_leb ys xs ≡ true → text_equal xs ys ≡ true
unfolding text_leb text_equal
text_leb_antisym [] [] h k = refl
text_leb_antisym [] (y ∷ ys) h k = absurd (cc k)
text_leb_antisym (x ∷ xs) [] h k = absurd (cc h)
text_leb_antisym (x ∷ xs) (y ∷ ys) h k = let ih = text_leb_antisym xs ys in ground (arith, ih)

text_leb_trans :
    (xs ys zs : List ℕ) → text_leb xs ys ≡ true → text_leb ys zs ≡ true → text_leb xs zs ≡ true
unfolding text_leb
text_leb_trans [] ys zs h k = refl
text_leb_trans (x ∷ xs) [] zs h k = absurd (cc h)
text_leb_trans (x ∷ xs) (y ∷ ys) [] h k = absurd (cc k)
text_leb_trans (x ∷ xs) (y ∷ ys) (z ∷ zs) h k =
    let ih = text_leb_trans xs ys zs in ground (arith, ih)

text_equal_sym : (xs ys : List ℕ) → text_equal xs ys ≡ text_equal ys xs
unfolding text_equal
text_equal_sym [] [] = refl
text_equal_sym [] (y ∷ ys) = refl
text_equal_sym (x ∷ xs) [] = refl
text_equal_sym (x ∷ xs) (y ∷ ys) = let ih = text_equal_sym xs ys in ground (arith, ih)

pub key_leb_total : (a b : DeviceLocation) → key_leb a b ≡ false → key_leb b a ≡ true
unfolding key_leb
key_leb_total a b h =
    let total = text_leb_total a.port_path b.port_path in
    let same = text_equal_sym a.port_path b.port_path in ground (arith, total, same)

pub key_leb_antisym : (a b : DeviceLocation) → key_leb a b ≡ true → key_leb b a ≡ true → a ≡ b
unfolding key_leb
key_leb_antisym a b h k =
    let antisym = text_leb_antisym a.port_path b.port_path in
    let same = text_equal_sym a.port_path b.port_path in
    let buses : a.bus ≡ b.bus = ground (arith, antisym, same) in
    let ports : text_equal a.port_path b.port_path ≡ true = ground (arith, antisym, same) in
    let addresses : a.address ≡ b.address = ground (arith, antisym, same) in
    let paths = text_equal-eq a.port_path b.port_path ports in
    λ i. record { bus = buses i; address = addresses i; port_path = paths i }

-- Where two texts are equal, either may stand for the other.
text_equal-left :
    (xs ys zs : List ℕ)
    → text_equal xs ys ≡ true
    → (text_equal xs zs ≡ text_equal ys zs) × (text_leb xs zs ≡ text_leb ys zs)
text_equal-left xs ys zs h =
    let e = text_equal-eq xs ys h in (ap (λ ws. text_equal ws zs) e, ap (λ ws. text_leb ws zs) e)

text_equal-right :
    (xs ys zs : List ℕ)
    → text_equal ys zs ≡ true
    → (text_equal xs ys ≡ text_equal xs zs) × (text_leb xs ys ≡ text_leb xs zs)
text_equal-right xs ys zs h =
    let e = text_equal-eq ys zs h in (ap (λ ws. text_equal xs ws) e, ap (λ ws. text_leb xs ws) e)

pub key_leb_trans :
    (a b c : DeviceLocation) → key_leb a b ≡ true → key_leb b c ≡ true → key_leb a c ≡ true
unfolding key_leb
key_leb_trans a b c h k = elim (Bool-cases (text_equal a.port_path b.port_path)) [
  | inl e ↦ let (p, q) = text_equal-left a.port_path b.port_path c.port_path e in ground arith
  | inr n ↦ elim (Bool-cases (text_equal b.port_path c.port_path)) [
    | inl e ↦ let (p, q) = text_equal-right a.port_path b.port_path c.port_path e in ground arith
    | inr m ↦ elim (Bool-cases (text_equal a.port_path c.port_path)) [
      | inl e ↦
          let (p, q) = text_equal-right b.port_path a.port_path c.port_path e in
          let antisym = text_leb_antisym a.port_path b.port_path in ground (arith, antisym)
      | inr l ↦
          let trans = text_leb_trans a.port_path b.port_path c.port_path in ground (arith, trans)
    ]
  ]
]

-- The order of texts: that of their first difference, or the shorter one first.
pub data TextBefore : List ℕ → List ℕ → Type 0 where
  shorter : (y : ℕ) (ys : List ℕ) → TextBefore [] (y ∷ ys)
  smaller : (x y : ℕ) (xs ys : List ℕ) → x < y → TextBefore (x ∷ xs) (y ∷ ys)
  later : (x y : ℕ) (xs ys : List ℕ) → x ≡ y → TextBefore xs ys → TextBefore (x ∷ xs) (y ∷ ys)

-- A location that may stand before another one.
pub data NotAfter (a b : DeviceLocation) : Type 0 where
  by_bus : a.bus < b.bus → NotAfter a b
  by_path : a.bus ≡ b.bus → TextBefore a.port_path b.port_path → NotAfter a b
  by_address : a.bus ≡ b.bus → a.port_path ≡ b.port_path → a.address ≤ b.address → NotAfter a b

text_leb-TextBefore :
    (xs ys : List ℕ) → text_leb xs ys ≡ true → text_equal xs ys ≡ false → TextBefore xs ys
unfolding text_leb text_equal
text_leb-TextBefore [] [] h n = absurd (cc n)
text_leb-TextBefore [] (y ∷ ys) h n = shorter y ys
text_leb-TextBefore (x ∷ xs) [] h n = absurd (cc h)
text_leb-TextBefore (x ∷ xs) (y ∷ ys) h n = elim (Bool-cases (ltb x y)) [
  | inl less ↦ smaller x y xs ys (ground arith)
  | inr more ↦
      later x y xs ys (ground arith) (text_leb-TextBefore xs ys (ground arith) (ground arith))
]

pub key_leb-NotAfter : (a b : DeviceLocation) → key_leb a b ≡ true → NotAfter a b
unfolding key_leb
key_leb-NotAfter a b h = elim (Bool-cases (a.bus == b.bus)) [
  | inr other ↦ by_bus (ground arith)
  | inl same ↦ elim (Bool-cases (text_equal a.port_path b.port_path)) [
    | inl e ↦ by_address (ground arith) (text_equal-eq _ _ e) (ground arith)
    | inr n ↦ by_path (ground arith) (text_leb-TextBefore a.port_path b.port_path (ground arith) n)
  ]
]

-- ===== src/Device/Select/Order.antt =====
-- The order in which `enumerate_devices` of src/recdyud/device.py lists the devices.
use recdyud.Base.{
  ◌≡◌, refl, ap, ap₂, sym, ◌∙◌, true, false, if◌then◌else◌, Bool-cases, inl, inr, List, [], ◌∷◌,
}
use mathlib.Core.List.{Permᴰ}
use mathlib.Core.List.Permᴰ
use recdyud.Device.Select.{DeviceLocation, key_leb, insert, enumerate_devices}
use recdyud.Device.Select.Keys.{
  NotAfter, key_leb_total, key_leb_antisym, key_leb_trans, key_leb-NotAfter,
}

module _ {D : Type 0} (location_of : D → DeviceLocation) where
  -- Devices in this order, by the test that the sorting uses, and by the order itself.
  unfoldable Sorted : List D → Type 0
  Sorted [] = Unit {0}
  Sorted (d ∷ []) = Unit {0}
  Sorted (d ∷ (e ∷ devices)) =
      (key_leb (location_of d) (location_of e) ≡ true) × Sorted (e ∷ devices)

  unfoldable pub Ordered : List D → Type 0
  Ordered [] = Unit {0}
  Ordered (d ∷ []) = Unit {0}
  Ordered (d ∷ (e ∷ devices)) = NotAfter (location_of d) (location_of e) × Ordered (e ∷ devices)

  Sorted-Ordered : (devices : List D) → Sorted devices → Ordered devices
  unfolding Sorted Ordered
  Sorted-Ordered [] sorted = tt
  Sorted-Ordered (d ∷ []) sorted = tt
  Sorted-Ordered (d ∷ (e ∷ devices)) sorted = (
    key_leb-NotAfter (location_of d) (location_of e) sorted.0,
    Sorted-Ordered (e ∷ devices) sorted.1,
  )

  insert-Sorted :
      (d : D) (devices : List D) → Sorted devices → Sorted (insert location_of d devices)
  unfolding Sorted insert
  insert-Sorted d [] sorted = tt
  insert-Sorted d (e ∷ []) sorted = elim (Bool-cases (key_leb (location_of d) (location_of e))) [
    | inl h ↦ rw h (h, tt)
    | inr h ↦ rw h (key_leb_total (location_of d) (location_of e) h, tt)
  ]
  insert-Sorted d (e ∷ (f ∷ devices)) sorted =
      elim (Bool-cases (key_leb (location_of d) (location_of e))) [
        | inl h ↦ rw h (h, sorted)
        | inr h ↦
            let back = key_leb_total (location_of d) (location_of e) h in
            let rest = insert-Sorted d (f ∷ devices) sorted.1 in
            rw h (elim (Bool-cases (key_leb (location_of d) (location_of f))) [
              | inl k ↦ rw k (back, (k, sorted.1))
              | inr k ↦ rw k (sorted.0, rw k at rest)
            ])
      ]

  insert-Permᴰ : (d : D) (devices : List D) → Permᴰ (d ∷ devices) (insert location_of d devices)
  unfolding insert
  insert-Permᴰ d [] = Permᴰ.cons refl Permᴰ.nil
  insert-Permᴰ d (e ∷ devices) = elim (Bool-cases (key_leb (location_of d) (location_of e))) [
    | inl h ↦ rw h (Permᴰ.refl _)
    | inr h ↦ rw h (Permᴰ.trans (Permᴰ.swap refl refl) (Permᴰ.cons refl (insert-Permᴰ d devices)))
  ]

  enumerate_devices-Permᴰ : (found : List D) → Permᴰ found (enumerate_devices location_of found)
  unfolding enumerate_devices
  enumerate_devices-Permᴰ [] = Permᴰ.nil
  enumerate_devices-Permᴰ (d ∷ found) =
      Permᴰ.trans (Permᴰ.cons refl (enumerate_devices-Permᴰ found)) (insert-Permᴰ d _)

  enumerate_devices-Sorted : (found : List D) → Sorted (enumerate_devices location_of found)
  unfolding enumerate_devices Sorted
  enumerate_devices-Sorted [] = tt
  enumerate_devices-Sorted (d ∷ found) = insert-Sorted d _ (enumerate_devices-Sorted found)

  module _ (unique : (a b : D) → location_of a ≡ location_of b → a ≡ b) where
    two-swap :
        (a b : D) (devices : List D)
        → (if key_leb (location_of a) (location_of b) then a ∷ (b ∷ devices) else b ∷ (a ∷ devices))
          ≡ (if key_leb (location_of b) (location_of a)
              then b ∷ (a ∷ devices)
              else a ∷ (b ∷ devices))
    two-swap a b devices = elim (Bool-cases (key_leb (location_of a) (location_of b))) [
      | inl h ↦ elim (Bool-cases (key_leb (location_of b) (location_of a))) [
        | inl k ↦
            let e = unique a b (key_leb_antisym (location_of a) (location_of b) h k) in
            rw (h, k) (ap₂ (λ d e. d ∷ (e ∷ devices)) e (sym e))
        | inr k ↦ rw (h, k)
      ]
      | inr h ↦ rw (h, key_leb_total (location_of a) (location_of b) h)
    ]

    -- One comes before `c`, the other does not, so the one comes before the other.
    between-swap :
        (a b c : D) (devices : List D)
        → key_leb (location_of a) (location_of c) ≡ true
        → key_leb (location_of b) (location_of c) ≡ false
        → insert location_of a (insert location_of b (c ∷ devices))
          ≡ insert location_of b (insert location_of a (c ∷ devices))
    unfolding insert
    between-swap a b c devices h k =
        let apart : key_leb (location_of b) (location_of a) ≡ false =
          elim (Bool-cases (key_leb (location_of b) (location_of a))) [
            | inl e ↦
                let wrong = key_leb_trans (location_of b) (location_of a) (location_of c) e h in
                absurd (cc (k, wrong))
            | inr e ↦ e
          ] in
        rw (h, k, apart, h)

    insert-swap :
        (a b : D) (devices : List D)
        → insert location_of a (insert location_of b devices)
          ≡ insert location_of b (insert location_of a devices)
    unfolding insert
    insert-swap a b [] = two-swap a b []
    insert-swap a b (c ∷ devices) = elim (Bool-cases (key_leb (location_of a) (location_of c))) [
      | inl h ↦ elim (Bool-cases (key_leb (location_of b) (location_of c))) [
        | inl k ↦ rw (h, k, h) (two-swap a b (c ∷ devices))
        | inr k ↦ between-swap a b c devices h k
      ]
      | inr h ↦ elim (Bool-cases (key_leb (location_of b) (location_of c))) [
        | inl k ↦ sym (between-swap b a c devices k h)
        | inr k ↦ rw (h, k, h) (ap (λ ds. c ∷ ds) (insert-swap a b devices))
      ]
    ]

    same_for_Permᴰ :
        (found found' : List D)
        → Permᴰ found found'
        → enumerate_devices location_of found ≡ enumerate_devices location_of found'
    unfolding enumerate_devices
    same_for_Permᴰ _ _ Permᴰ.nil = refl
    same_for_Permᴰ _ _ (Permᴰ.cons e p) = ap₂ (insert location_of) e (same_for_Permᴰ _ _ p)
    same_for_Permᴰ _ _ (Permᴰ.swap {a} {b} {l = l} e e') =
        insert-swap a b (enumerate_devices location_of l)
        ∙ ap₂
            (λ d d'. insert location_of d' (insert location_of d (enumerate_devices location_of l)))
            e e'
    same_for_Permᴰ _ _ (Permᴰ.trans p q) = same_for_Permᴰ _ _ p ∙ same_for_Permᴰ _ _ q

    -- The devices are listed in the order of bus, port path and address, each that was found and no
    -- other, and the order in which the USB library finds them does not show, where no two devices
    -- have the same location.
    pub enumerate_devices-Ordered :
        (found : List D)
        → Ordered (enumerate_devices location_of found)
          × Permᴰ found (enumerate_devices location_of found)
          × ((found' : List D)
              → Permᴰ found found'
              → enumerate_devices location_of found ≡ enumerate_devices location_of found')
    enumerate_devices-Ordered found = (
      Sorted-Ordered (enumerate_devices location_of found) (enumerate_devices-Sorted found),
      enumerate_devices-Permᴰ found,
      λ found' p. same_for_Permᴰ found found' p,
    )

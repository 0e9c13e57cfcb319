-- ===== src/Diag/Scan/Sorting.antt =====
-- The order of the services in a result of src/recdyud/diag.py.
use recdyud.Base.{◌≤◌, refl, List, [], ◌∷◌, leb, Bool-cases, inl, inr, arith}
use mathlib.Core.List.{Permᴰ}
use mathlib.Core.List.Permᴰ
use recdyud.Ts.Psi.{ServiceInfo}
use recdyud.Diag.Scan.{insert_service, sort_services}

-- Services of which none has a smaller id than the one before it.
unfoldable pub Ascending : List ServiceInfo → Type 0
Ascending [] = Unit {0}
Ascending (s ∷ []) = Unit {0}
Ascending (s ∷ (t ∷ services)) = (s.service_id ≤ t.service_id) × Ascending (t ∷ services)

insert_service-Ascending :
    (s : ServiceInfo) (services : List ServiceInfo)
    → Ascending services
    → Ascending (insert_service s services)
unfolding Ascending insert_service
insert_service-Ascending s [] sorted = tt
insert_service-Ascending s (t ∷ []) sorted = elim (Bool-cases (leb s.service_id t.service_id)) [
  | inl h ↦ rw h (ground arith, tt)
  | inr h ↦ rw h (ground arith, tt)
]
insert_service-Ascending s (t ∷ (u ∷ services)) sorted =
    elim (Bool-cases (leb s.service_id t.service_id)) [
      | inl h ↦ rw h (ground arith, sorted)
      | inr h ↦
          let rest = insert_service-Ascending s (u ∷ services) sorted.1 in
          rw h (elim (Bool-cases (leb s.service_id u.service_id)) [
            | inl k ↦ rw k (ground arith, (ground arith, sorted.1))
            | inr k ↦ rw k (sorted.0, rw k at rest)
          ])
    ]

insert_service-Permᴰ :
    (s : ServiceInfo) (services : List ServiceInfo)
    → Permᴰ (s ∷ services) (insert_service s services)
unfolding insert_service
insert_service-Permᴰ s [] = Permᴰ.cons refl Permᴰ.nil
insert_service-Permᴰ s (t ∷ services) = elim (Bool-cases (leb s.service_id t.service_id)) [
  | inl h ↦ rw h (Permᴰ.refl _)
  | inr h ↦
      rw h (Permᴰ.trans (Permᴰ.swap refl refl) (Permᴰ.cons refl (insert_service-Permᴰ s services)))
]

pub sort_services-Ascending : (services : List ServiceInfo) → Ascending (sort_services services)
unfolding sort_services Ascending
sort_services-Ascending [] = tt
sort_services-Ascending (s ∷ services) =
    insert_service-Ascending s (sort_services services) (sort_services-Ascending services)

pub sort_services-Permᴰ : (services : List ServiceInfo) → Permᴰ services (sort_services services)
unfolding sort_services
sort_services-Permᴰ [] = Permᴰ.nil
sort_services-Permᴰ (s ∷ services) =
    Permᴰ.trans (Permᴰ.cons refl (sort_services-Permᴰ services))
      (insert_service-Permᴰ s (sort_services services))

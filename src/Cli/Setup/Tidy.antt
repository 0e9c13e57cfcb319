-- ===== src/Cli/Setup/Tidy.antt =====
-- The handles of the C library that `setup_descrambler` of src/recdyud/cli.py leaves.
use recdyud.Base.{
  ℤ, pos, negsuc, ◌≡◌, refl, Option, none, some, List, [], ◌∷◌, map, Bool-cases, inl, inr,
}
use recdyud.Bcas.{Transport, BCasCard, InitStatus, CardId, Result, ok, raise, initialize}
use recdyud.Bcas
use recdyud.B25.{
  Native, Descrambler, Options, Created, created, refused, after_set_card, after_create, close,
}
use recdyud.B25
use recdyud.B25.Lifetime.{Logged, logged, unlogged, handles}
use recdyud.Cli.Setup.{
  SetUp, fell_back, descrambling, escaped, after_init, after_initialize, setup_descrambler,
}

-- The object that is returned holds the only handle; otherwise the handles made are destroyed, and
-- an exception comes before any is made.
unfoldable pub IsTidy : {W H K : Type 0} → SetUp (Logged W H) H K → Type 0
IsTidy (fell_back l c) = l.destroyed ≡ l.made
IsTidy {H} (descrambling x) =
    (h : H) × (x.h ≡ some h) × (x.lib.made ≡ h ∷ []) × (x.lib.destroyed ≡ [])
IsTidy (escaped e l c) = (l.made ≡ []) × (l.destroyed ≡ [])

module _ {W H T : Type 0} (native : Native W H) (t : Transport T) where
  after_set_card-IsTidy :
      (w : W) (c : BCasCard T) (h : H) (r : ℤ)
      → IsTidy (
          after_init (
            after_set_card
              (logged native)
              (record {
                lib = record { inner = w; made = h ∷ []; destroyed = [] };
                card = c;
                callback_error = none;
                h = some h;
              })
              r))
  unfolding after_init after_set_card close IsTidy logged
  after_set_card-IsTidy w c h (pos n) = (h, refl, refl, refl)
  after_set_card-IsTidy w c h (negsuc n) = refl

  after_create-IsTidy :
      (w : W) (c : BCasCard T) (h : Option H) (status : InitStatus) (ids : List CardId)
      → IsTidy (
          after_init (
            after_create
              (logged native)
              (record {
                lib = record { inner = w; made = handles h; destroyed = [] };
                card = c;
                callback_error = none;
                h = h;
              })
              status
              ids))
  unfolding after_init after_create IsTidy logged handles
  after_create-IsTidy w c none status ids = (refl, refl)
  after_create-IsTidy w c (some h) status ids =
      let (w', r) = native.set_card w (some h) status (map (λ (c : CardId). c.id48) ids) in
      after_set_card-IsTidy w' c h r

  after_initialize-IsTidy :
      (w : W) (options : Options) (c : BCasCard T) (r : Result InitStatus)
      → IsTidy (after_initialize (logged native) t (unlogged w) options (c, r))
  unfolding after_initialize IsTidy after_init B25.init logged
  after_initialize-IsTidy w options c (raise e) = refl
  after_initialize-IsTidy w options c (ok status) = elim (Bool-cases (native.loads w)) [
    | inl h ↦ rw h (after_create-IsTidy _ c _ status c.ids)
    | inr h ↦ rw h (refl, refl)
  ]

  -- Whatever the card answers and the C library returns: the object that is returned holds the only
  -- handle that was made, and where there is none, whether output stays scrambled or an exception
  -- escapes, no handle is left.
  pub setup_descrambler-IsTidy :
      (w : W) (transport : T) (options : Options)
      → IsTidy (setup_descrambler (logged native) t (unlogged w) transport options)
  unfolding setup_descrambler
  setup_descrambler-IsTidy w transport options =
      let (c, r) = initialize t (Bcas.init transport) in after_initialize-IsTidy w options c r

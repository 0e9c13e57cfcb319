-- ===== src/Channels/Parse/Range.antt =====
-- What `parse_channel` of src/recdyud/channels.py accepts can be tuned to.
use recdyud.Base.{
  ℕ, ◌≤◌, ◌≡◌, refl, subst, Bool, true, ◌&&◌, Option, none, some, List, [], ◌∷◌, map, leb, ◌==◌,
  if-both, arith,
}
use recdyud.Channels.{
  min_frequency_khz, max_frequency_khz, in_uhf_range, in_catv_range, in_vhf_range, uhf_frequency,
  vhf_frequency,
}
use recdyud.Channels.Plan.{catv_bounds, vhf_below_uhf}
use recdyud.Channels.Parse.{
  Channel, int_of, isdigit, channel_named, parse_catv, parse_number, parse_upper, parse_name,
  parse_frequency, match_frequency, parse_stripped, parse_channel, removeprefix, removesuffix,
  upper_char,
}
use recdyud.Device.Lifecycle.Text.{strip}

abbrev pub Within : ℕ → Type 0
Within khz = (min_frequency_khz ≤ khz) × (khz ≤ max_frequency_khz)

-- The channel, if there is one, lies in the range.
abbrev InRange : Option Channel → Type 0
InRange none = Unit {0}
InRange (some channel) = Within channel.frequency_khz

channel_named-InRange :
    (name : List ℕ) (o : Option ℕ)
    → ((khz : ℕ) → o ≡ some khz → Within khz)
    → InRange (channel_named name o)
unfolding channel_named
channel_named-InRange name none within = tt
channel_named-InRange name (some khz) within = within khz refl

vhf-Within : (ch khz : ℕ) → vhf_frequency ch ≡ some khz → Within khz
vhf-Within ch khz e =
    let (low, high, top) = vhf_below_uhf ch 13 khz (unfold in_uhf_range in refl) e in
    (low, omega (arith, high, top))

uhf-Within : (ch : ℕ) → in_uhf_range ch ≡ true → Within (uhf_frequency ch)
unfolding in_uhf_range uhf_frequency
uhf-Within ch h = (ground arith, ground arith)

parse_catv-InRange : (number : List ℕ) → InRange (parse_catv number)
unfolding parse_catv
parse_catv-InRange number =
    if-both InRange (in_catv_range (int_of number)) _ _
      (λ h. channel_named-InRange _ _ (λ khz e. catv_bounds (int_of number) khz e)) (λ h. tt)

parse_number-InRange : (number : List ℕ) → InRange (parse_number number)
unfolding parse_number channel_named
parse_number-InRange number =
    if-both InRange (in_uhf_range (int_of number)) _ _ (λ h. uhf-Within (int_of number) h)
      (λ h.
        if-both InRange (in_vhf_range (int_of number)) _ _
          (λ g. channel_named-InRange _ _ (λ khz e. vhf-Within (int_of number) khz e)) (λ g. tt))

parse_name-InRange : (name : List ℕ) → InRange (parse_name name)
unfolding parse_name parse_upper
parse_name-InRange [] = tt
parse_name-InRange (c ∷ number) =
    if-both InRange (c == 67 && isdigit number) _ _ (λ h. parse_catv-InRange number)
      (λ h.
        if-both InRange (isdigit (c ∷ number)) _ _ (λ g. parse_number-InRange (c ∷ number))
          (λ g. tt))

module _ (round_khz : List ℕ → Bool → ℕ) where
  parse_frequency-InRange : (m : List ℕ × Bool) → InRange (parse_frequency round_khz m)
  unfolding parse_frequency
  parse_frequency-InRange (number, mega) =
      if-both InRange
        (leb min_frequency_khz (round_khz number mega)
          && leb (round_khz number mega) max_frequency_khz)
        _ _ (λ h. (ground arith, ground arith)) (λ h. tt)

  by_match :
      (o : Option (List ℕ × Bool)) (name : List ℕ)
      → InRange (elim o [ some m ↦ parse_frequency round_khz m | none ↦ parse_name name ])
  by_match none name = parse_name-InRange name
  by_match (some m) name = parse_frequency-InRange m

  -- A channel that `parse_channel` returns, by whatever name, of any of the three bands or as a
  -- frequency, lies between 90 and 770 MHz.
  pub parse_channel-Within :
      (spec : List ℕ) (channel : Channel)
      → parse_channel round_khz spec ≡ some channel
      → Within channel.frequency_khz
  unfolding parse_channel parse_stripped
  parse_channel-Within spec channel e = subst InRange e (
      by_match (match_frequency (strip spec))
        (removesuffix (67 ∷ 72 ∷ []) (removeprefix (71 ∷ 82 ∷ []) (map upper_char (strip spec)))))

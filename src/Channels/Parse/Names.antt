-- ===== src/Channels/Parse/Names.antt =====
-- The names that `parse_channel` of src/recdyud/channels.py gives to channels, read by itself.
use recdyud.Base.{
  ℕ, suc, ◌-◌, ◌≤◌, ◌≡◌, refl, ap, ap₂, sym, subst, ◌∙◌, Bool, true, false, ◌&&◌, Option, none,
  some, List, [], ◌∷◌, ◌++◌, map, take, drop, take-append-drop, length, leb, ◌==◌, if◌then◌else◌,
  if-both, arith,
}
use mathlib.Core.List.{append-nil}
use recdyud.Channels.{
  min_frequency_khz, max_frequency_khz, in_uhf_range, in_catv_range, in_vhf_range, uhf_frequency,
  catv_frequency, vhf_frequency,
}
use recdyud.Channels.Parse.{
  Channel, is_digit, upper_char, all_digits, isdigit, int_of, str, text_equal, removeprefix,
  removesuffix, span_digits, fraction, skip_spaces, unit_of, match_frequency, channel_named,
  parse_catv, parse_number, parse_upper, parse_name, parse_frequency, parse_stripped, parse_channel,
}
use recdyud.Device.Lifecycle.Text.{strip}
use recdyud.Text.Digits.{
  is_solid, is_solid-append, strip-solid, all_digits-cons, isdigit-all_digits, isdigit-str,
  int_of-str, text_equal-eq, str-digits, str-solid,
}

-- The last character.
abbrev last_or : ℕ → List ℕ → ℕ
last_or d [] = d
last_or d (x ∷ xs) = last_or x xs

last_or-append : (d : ℕ) (xs ys : List ℕ) → last_or d (xs ++ ys) ≡ last_or (last_or d xs) ys
last_or-append d [] ys = refl
last_or-append d (x ∷ xs) ys = last_or-append x xs ys

last_or-digits :
    (d : ℕ) (xs : List ℕ)
    → is_digit d ≡ true
    → all_digits xs ≡ true
    → is_digit (last_or d xs) ≡ true
last_or-digits d [] h digits = h
last_or-digits d (x ∷ xs) h digits =
    let (e, rest) = all_digits-cons x xs digits in last_or-digits x xs e rest

last_or-isdigit : (d : ℕ) (xs : List ℕ) → isdigit xs ≡ true → is_digit (last_or d xs) ≡ true
unfolding isdigit
last_or-isdigit d [] h = absurd (cc h)
last_or-isdigit d (x ∷ xs) h = let (e, rest) = all_digits-cons x xs h in last_or-digits x xs e rest

-- A text that ends with a digit keeps its end.
removesuffix-digit :
    (xs : List ℕ) → is_digit (last_or 0 xs) ≡ true → removesuffix (67 ∷ 72 ∷ []) xs ≡ xs
unfolding removesuffix
removesuffix-digit xs h =
    if-both (λ ys. ys ≡ xs)
      (leb 2 (length xs) && text_equal (drop (length xs - 2) xs) (67 ∷ 72 ∷ [])) _ _
      (λ e.
        let ends = text_equal-eq (drop (length xs - 2) xs) (67 ∷ 72 ∷ []) (ground arith) in
        let whole = take-append-drop (length xs - 2) xs in
        let last : last_or 0 xs ≡ 72 =
          ap (last_or 0) (sym whole)
          ∙ last_or-append 0 (take (length xs - 2) xs) (drop (length xs - 2) xs)
          ∙ ap (last_or (last_or 0 (take (length xs - 2) xs))) ends in
        absurd (ground arith))
      (λ e. refl)

pub upper-digits : (xs : List ℕ) → all_digits xs ≡ true → map upper_char xs ≡ xs
upper-digits [] h = refl
upper-digits (x ∷ xs) h =
    let (e, digits) = all_digits-cons x xs h in
    ap₂ ◌∷◌ (let same : upper_char x ≡ x = ground arith in same) (upper-digits xs digits)

span_digits-append :
    (xs ys : List ℕ)
    → all_digits xs ≡ true
    → span_digits ys ≡ ([], ys)
    → span_digits (xs ++ ys) ≡ (xs, ys)
unfolding span_digits
span_digits-append [] ys h k = k
span_digits-append (x ∷ xs) ys h k =
    let (e, digits) = all_digits-cons x xs h in rw (e, span_digits-append xs ys digits k)

match_frequency-digits : (xs : List ℕ) → all_digits xs ≡ true → match_frequency xs ≡ none
unfolding match_frequency fraction unit_of skip_spaces text_equal span_digits
match_frequency-digits xs h =
    let spanned : span_digits xs ≡ (xs, []) =
      subst (λ ys. span_digits ys ≡ (xs, [])) (append-nil xs) (span_digits-append xs [] h refl) in
    rw spanned (if-both (λ o. o ≡ none) (length xs == 0) _ _ (λ e. refl) (λ e. refl))

match_frequency-khz :
    (n : ℕ) → match_frequency (str n ++ (107 ∷ 72 ∷ 122 ∷ [])) ≡ some (str n, false)
unfolding match_frequency fraction unit_of skip_spaces text_equal span_digits isdigit
match_frequency-khz n =
    ap (λ (t : List ℕ × List ℕ). matched t.0 t.1)
      (span_digits-append (str n) (107 ∷ 72 ∷ 122 ∷ []) (str-digits n) refl)
    ∙ with_digits (str n) (isdigit-str n)
  where
    matched : List ℕ → List ℕ → Option (List ℕ × Bool)
    matched whole rest =
        let (number, unit) = fraction whole rest in
        if length whole == 0
        then none
        else elim (unit_of unit) [ none ↦ none | some mega ↦ some (number, mega) ]

    with_digits :
        (xs : List ℕ) → isdigit xs ≡ true → matched xs (107 ∷ 72 ∷ 122 ∷ []) ≡ some (xs, false)
    with_digits [] h = absurd (cc h)
    with_digits (x ∷ xs) h =
        let some_digits : (suc (length xs) == 0) ≡ false = ground arith in rw some_digits

removeprefix-digits : (xs : List ℕ) → all_digits xs ≡ true → removeprefix (71 ∷ 82 ∷ []) xs ≡ xs
unfolding removeprefix text_equal
removeprefix-digits [] h = refl
removeprefix-digits (x ∷ xs) h =
    let (e, digits) = all_digits-cons x xs h in
    let no_gr : (x == 71) ≡ false = ground arith in rw no_gr

parse_name-digits : (xs : List ℕ) → isdigit xs ≡ true → parse_name xs ≡ parse_number xs
unfolding parse_name parse_upper isdigit
parse_name-digits [] h = absurd (cc h)
parse_name-digits (x ∷ xs) h =
    let (e, digits) = all_digits-cons x xs h in
    let no_cable : (x == 67) ≡ false = ground arith in rw (no_cable, h)

module _ (round_khz : List ℕ → Bool → ℕ) where
  -- A number is read as the number of a channel.
  parse_stripped-digits :
      (xs : List ℕ) → isdigit xs ≡ true → parse_stripped round_khz xs ≡ parse_number xs
  unfolding parse_stripped
  parse_stripped-digits xs h =
      let digits = isdigit-all_digits xs h in
      rw (match_frequency-digits xs digits, parse_stripped)
        (ap (λ ys. parse_name (removesuffix (67 ∷ 72 ∷ []) (removeprefix (71 ∷ 82 ∷ []) ys)))
            (upper-digits xs digits)
          ∙ ap (λ ys. parse_name (removesuffix (67 ∷ 72 ∷ []) ys)) (removeprefix-digits xs digits)
          ∙ ap parse_name (removesuffix-digit xs (last_or-isdigit 0 xs h))
          ∙ parse_name-digits xs h)

  pub parse_channel-str : (n : ℕ) → parse_channel round_khz (str n) ≡ parse_number (str n)
  unfolding parse_channel
  parse_channel-str n =
      rw (strip-solid (str n) (str-solid n)) (parse_stripped-digits (str n) (isdigit-str n))

  parse_stripped-cable :
      (xs : List ℕ) → isdigit xs ≡ true → parse_stripped round_khz (67 ∷ xs) ≡ parse_catv xs
  unfolding parse_stripped parse_name match_frequency span_digits removeprefix text_equal
  parse_stripped-cable xs h = rw (
    upper-digits xs (isdigit-all_digits xs h),
    removesuffix-digit (67 ∷ xs) (last_or-isdigit 67 xs h),
    h,
  )

  pub parse_channel-cable : (n : ℕ) → parse_channel round_khz (67 ∷ str n) ≡ parse_catv (str n)
  unfolding parse_channel
  parse_channel-cable n =
      rw
        (strip-solid (67 ∷ str n)
          (is_solid-append (67 ∷ []) (str n) (unfold is_solid in refl) (str-solid n)))
        (parse_stripped-cable (str n) (isdigit-str n))

  -- Reading the name of a channel, of a result that is one.
  abbrev Named : Option Channel → Type 0
  Named none = Unit {0}
  Named (some channel) = parse_channel round_khz channel.name ≡ some channel

  channel_named-Named :
      (name : List ℕ) (o : Option ℕ)
      → parse_channel round_khz name ≡ channel_named name o
      → Named (channel_named name o)
  unfolding channel_named
  channel_named-Named name none h = tt
  channel_named-Named name (some khz) h = h

  parse_catv-Named : (number : List ℕ) → Named (parse_catv number)
  unfolding parse_catv
  parse_catv-Named number =
      if-both Named (in_catv_range (int_of number)) _ _
        (λ h.
          channel_named-Named (67 ∷ str (int_of number)) (catv_frequency (int_of number))
            (parse_channel-cable (int_of number) ∙ rw (int_of-str (int_of number), h) refl))
        (λ h. tt)

  parse_number-Named : (number : List ℕ) → Named (parse_number number)
  unfolding parse_number
  parse_number-Named number =
      if-both Named (in_uhf_range (int_of number)) _ _
        (λ h.
          channel_named-Named (str (int_of number)) (some (uhf_frequency (int_of number)))
            (parse_channel-str (int_of number) ∙ rw (int_of-str (int_of number), h) refl))
        (λ h.
          if-both Named (in_vhf_range (int_of number)) _ _
            (λ g.
              channel_named-Named (str (int_of number)) (vhf_frequency (int_of number))
                (parse_channel-str (int_of number) ∙ rw (int_of-str (int_of number), h, g) refl))
            (λ g. tt))

  parse_name-Named : (name : List ℕ) → Named (parse_name name)
  unfolding parse_name parse_upper
  parse_name-Named [] = tt
  parse_name-Named (c ∷ number) =
      if-both Named (c == 67 && isdigit number) _ _ (λ h. parse_catv-Named number)
        (λ h.
          if-both Named (isdigit (c ∷ number)) _ _ (λ g. parse_number-Named (c ∷ number)) (λ g. tt))

  -- `float` reads a whole number of kHz, of those that can be tuned to, as itself.
  abbrev pub ReadsWhole : Type 0
  ReadsWhole = (khz : ℕ) → khz ≤ max_frequency_khz → round_khz (str khz) false ≡ khz

  module _ (reads : ReadsWhole) where
    parse_frequency-Named : (m : List ℕ × Bool) → Named (parse_frequency round_khz m)
    unfolding parse_frequency parse_channel parse_stripped is_solid
    parse_frequency-Named (number, mega) =
        let khz = round_khz number mega in
        if-both Named (leb min_frequency_khz khz && leb khz max_frequency_khz) _ _
          (λ h. own_name khz h) (λ h. tt)
      where
        own_name :
            (khz : ℕ)
            → (leb min_frequency_khz khz && leb khz max_frequency_khz) ≡ true
            → parse_channel round_khz (str khz ++ (107 ∷ 72 ∷ 122 ∷ []))
              ≡ some (record { name = str khz ++ (107 ∷ 72 ∷ 122 ∷ []); frequency_khz = khz })
        own_name khz h =
            rw
              (strip-solid (str khz ++ (107 ∷ 72 ∷ 122 ∷ []))
                (is_solid-append (str khz) (107 ∷ 72 ∷ 122 ∷ []) (str-solid khz) refl))
              (rw (match_frequency-khz khz, parse_stripped) (rw (reads khz (ground arith), h) refl))

    by_match :
        (o : Option (List ℕ × Bool)) (name : List ℕ)
        → Named (elim o [ some m ↦ parse_frequency round_khz m | none ↦ parse_name name ])
    by_match none name = parse_name-Named name
    by_match (some m) name = parse_frequency-Named m

    -- The name of a channel that `parse_channel` returns, for whatever text, names that channel: it
    -- is read as the same name and frequency. The reading of whole numbers by `float` is assumed.
    pub parse_channel-name :
        (spec : List ℕ) (channel : Channel)
        → parse_channel round_khz spec ≡ some channel
        → parse_channel round_khz channel.name ≡ some channel
    unfolding parse_channel parse_stripped
    parse_channel-name spec channel e = subst Named e (
        by_match (match_frequency (strip spec))
          (removesuffix (67 ∷ 72 ∷ []) (removeprefix (71 ∷ 82 ∷ []) (map upper_char (strip spec)))))

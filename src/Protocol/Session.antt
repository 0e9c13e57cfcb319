-- ===== src/Protocol/Session.antt =====
-- The tuner's side of src/recdyud/protocol.py, and that the two sides understand each other.
use recdyud.Base.{
  ℕ, ◌-◌, ◌<◌, ◌≤◌, ◌≡◌, refl, ap, sym, ◌∙◌, Bool, true, false, Option, none, some, List, [], ◌∷◌,
  ◌++◌, map, length, get_or, take, drop, slice, replicate, ltb, ◌==◌, ==_iff, if◌then◌else◌,
  has_bits, int_from_bytes, int_from_bytes-to_bytes4, to_bytes4, All, inl, inr, arith, dec_lt, ◌⊎◌,
  length-append, length-take, length-drop, length-replicate, take-append, drop-append,
  take-append-drop, get_or-append_lt, get_or-take, drop-drop,
}
use recdyud.Protocol.{
  Crypto, CommandCodec, Result, ok, raise, value_error, default_key, padded, plain_frame, encode,
}

length-padded : (command : List ℕ) → length command ≤ 128 → length (padded command) ≡ 128
unfolding padded
length-padded command h = omega (
  arith,
  length-append command (replicate (128 - length command) 0),
  length-replicate {A = ℕ} (128 - length command) 0,
)

module _ (crypto : Crypto) where
  open crypto use {crc32, encrypt, decrypt, crc32-lt, length-encrypt, decrypt-encrypt}

  -- What the device does with a frame of 132 bytes: the first byte, which is not encrypted, says
  -- which key the body is under; the CRC is checked; and a command with bit 4 clear brings the key
  -- of the following commands.
  pub receive : CommandCodec → List ℕ → Option (CommandCodec × List ℕ)
  receive c wire =
      let short = has_bits (get_or wire 0 0) 4 1 in
      let key = if short then c.command_key else default_key in
      let frame = take 2 wire ++ (decrypt key (slice wire 2 130) ++ drop 130 wire) in
      if crc32 (take 128 frame) == int_from_bytes (drop 128 frame)
      then some (if short then c else record { command_key = slice frame 16 32 }, take 128 frame)
      else none

  module _ (command : List ℕ) (fits : length command ≤ 128) where
    length-plain_frame : length (plain_frame crypto command) ≡ 132
    unfolding plain_frame
    length-plain_frame = omega (
      arith,
      length-append (padded command) (to_bytes4 (crc32 (padded command))),
      length-padded command fits,
    )

    take-plain_frame : take 128 (plain_frame crypto command) ≡ padded command
    unfolding plain_frame
    take-plain_frame = take-append 128 (padded command) _ (length-padded command fits)

    drop-plain_frame : drop 128 (plain_frame crypto command) ≡ to_bytes4 (crc32 (padded command))
    unfolding plain_frame
    drop-plain_frame = drop-append 128 (padded command) _ (length-padded command fits)

  abbrev wire_of : List ℕ → List ℕ → List ℕ
  wire_of frame key = slice frame 0 2 ++ (encrypt key (slice frame 2 130) ++ drop 130 frame)

  -- A frame with its middle encrypted: its parts.
  module _ (frame key : List ℕ) (sized : length frame ≡ 132) where
    abbrev wire : List ℕ
    wire = wire_of frame key

    body_sized : length (slice frame 2 130) ≡ 128
    body_sized = omega (arith, length-take 128 (drop 2 frame), length-drop 2 frame)

    sealed_sized : length (encrypt key (slice frame 2 130)) ≡ 128
    sealed_sized = length-encrypt key (slice frame 2 130) (omega (arith, body_sized)) ∙ body_sized

    head_sized : length (take 2 frame) ≡ 2
    head_sized = omega (arith, length-take 2 frame)

    wire_head : take 2 wire ≡ take 2 frame
    wire_head = take-append 2 (take 2 frame) _ head_sized

    wire_body : slice wire 2 130 ≡ encrypt key (slice frame 2 130)
    wire_body =
        ap (take 128) (drop-append 2 (take 2 frame) _ head_sized)
        ∙ take-append 128 (encrypt key (slice frame 2 130)) (drop 130 frame) sealed_sized

    wire_tail : drop 130 wire ≡ drop 130 frame
    wire_tail =
        sym (drop-drop 128 2 130 wire (omega arith))
        ∙ ap (drop 128) (drop-append 2 (take 2 frame) _ head_sized)
        ∙ drop-append 128 (encrypt key (slice frame 2 130)) (drop 130 frame) sealed_sized

    wire_first : get_or wire 0 0 ≡ get_or frame 0 0
    wire_first =
        get_or-append_lt (take 2 frame) _ 0 0 (omega (arith, head_sized))
        ∙ get_or-take frame 2 0 0 (omega arith)

    restored : take 2 wire ++ (decrypt key (slice wire 2 130) ++ drop 130 wire) ≡ frame
    restored =
        rw
          (
            wire_head,
            wire_body,
            wire_tail,
            decrypt-encrypt key (slice frame 2 130) (omega (arith, body_sized)),
          )
          (ap (◌++◌ (take 2 frame)) (
              ap (◌++◌ (slice frame 2 130)) (sym (drop-drop 128 2 130 frame (omega arith)))
              ∙ take-append-drop 128 (drop 2 frame))
            ∙ take-append-drop 2 frame)

    wire_sized : length wire ≡ 132
    wire_sized = omega (
      arith,
      length-append (take 2 frame) (encrypt key (slice frame 2 130) ++ drop 130 frame),
      length-append (encrypt key (slice frame 2 130)) (drop 130 frame),
      head_sized,
      sealed_sized,
      length-drop 130 frame,
    )

  -- The check of the CRC passes on the frame that `encode` makes.
  crc_passes :
      (command : List ℕ)
      → length command ≤ 128
      → (crc32 (take 128 (plain_frame crypto command))
          == int_from_bytes (drop 128 (plain_frame crypto command)))
        ≡ true
  crc_passes command fits = (==_iff _ _).1 (
      ap crc32 (take-plain_frame command fits)
      ∙ sym (
          ap int_from_bytes (drop-plain_frame command fits)
          ∙ int_from_bytes-to_bytes4 (crc32 (padded command)) (crc32-lt (padded command))))

  abbrev short_of : List ℕ → Bool
  short_of frame = has_bits (get_or frame 0 0) 4 1

  abbrev key_of : CommandCodec → List ℕ → List ℕ
  key_of c frame = if short_of frame then c.command_key else default_key

  abbrev next_of : CommandCodec → List ℕ → CommandCodec
  next_of c frame = if short_of frame then c else record { command_key = slice frame 16 32 }

  encode_fits :
      (c : CommandCodec) (command : List ℕ)
      → length command ≤ 128
      → encode crypto c command
        ≡ ok (
          next_of c (plain_frame crypto command),
          wire_of (plain_frame crypto command) (key_of c (plain_frame crypto command)),
        )
  unfolding encode
  encode_fits c command fits =
      let short : ltb 128 (length command) ≡ false = ground arith in rw (short, encode)

  receive_wire :
      (c : CommandCodec) (frame : List ℕ)
      → length frame ≡ 132
      → (crc32 (take 128 frame) == int_from_bytes (drop 128 frame)) ≡ true
      → receive c (wire_of frame (key_of c frame)) ≡ some (next_of c frame, take 128 frame)
  unfolding receive
  receive_wire c frame sized passes =
      rw (wire_first frame (key_of c frame) sized, restored frame (key_of c frame) sized, passes)

  pub receive_lem :
      (c : CommandCodec) (command : List ℕ)
      → (length command ≤ 128
          → (c' : CommandCodec) × (wire : List ℕ) × (encode crypto c command ≡ ok (c', wire))
            × (length wire ≡ 132)
            × (receive c wire ≡ some (c', padded command)))
        × (128 < length command → encode crypto c command ≡ raise value_error)
  receive_lem c command = (
    λ fits.
        let frame = plain_frame crypto command in
        let sized = length-plain_frame command fits in
        (
          next_of c frame,
          wire_of frame (key_of c frame),
          encode_fits c command fits,
          wire_sized frame (key_of c frame) sized,
          receive_wire c frame sized (crc_passes command fits)
              ∙ ap (λ t. some (next_of c frame, t)) (take-plain_frame command fits),
        ),
    λ long. let e : ltb 128 (length command) ≡ true = ground arith in unfold encode in rw e,
  )

  -- A command of at most 128 bytes becomes 132 bytes, from which the tuner, keeping the same key,
  -- gets back the command padded to 128 bytes; and both sides end with the same key again. A longer
  -- command is a ValueError, and leaves the key alone.
  pub receive-encode :
      (c : CommandCodec) (command : List ℕ)
      → ((length command ≤ 128)
          × (c' : CommandCodec) × (wire : List ℕ) × (encode crypto c command ≡ ok (c', wire))
          × (length wire ≡ 132)
          × (receive c wire ≡ some (c', padded command)))
        ⊎ ((128 < length command) × (encode crypto c command ≡ raise value_error))
  receive-encode c command = elim (dec_lt 128 (length command)) [
    | yes h ↦ inr (h, (receive_lem c command).1 h)
    | no h ↦
        let (c', wire, sent, sized, got) = (receive_lem c command).0 (omega arith) in
        inl (omega arith, c', wire, sent, sized, got)
  ]

  -- Commands one after the other, on either side.
  pub encode_all : CommandCodec → List (List ℕ) → Result (CommandCodec × List (List ℕ))
  encode_all c [] = ok (c, [])
  encode_all c (command ∷ commands) = elim (encode crypto c command) [
    | raise e ↦ raise e
    | ok (c', wire) ↦ elim (encode_all c' commands) [
      | raise e ↦ raise e
      | ok (c'', wires) ↦ ok (c'', wire ∷ wires)
    ]
  ]

  pub receive_all : CommandCodec → List (List ℕ) → Option (CommandCodec × List (List ℕ))
  receive_all c [] = some (c, [])
  receive_all c (wire ∷ wires) = elim (receive c wire) [
    | none ↦ none
    | some (c', command) ↦ elim (receive_all c' wires) [
      | none ↦ none
      | some (c'', commands) ↦ some (c'', command ∷ commands)
    ]
  ]

  -- Over a whole session of commands of at most 128 bytes, through any number of changes of the
  -- key, the tuner gets back every command.
  pub receive_all-encode_all :
      (commands : List (List ℕ)) (c : CommandCodec)
      → All (λ command. length command ≤ 128) commands
      → (c' : CommandCodec) × (wires : List (List ℕ)) × (encode_all c commands ≡ ok (c', wires))
        × (receive_all c wires ≡ some (c', map padded commands))
  unfolding encode_all receive_all
  receive_all-encode_all [] c h = (c, [], refl, refl)
  receive_all-encode_all (command ∷ commands) c (fits, h) =
      let (c', wire, sent, _, got) = (receive_lem c command).0 fits in
      let (c'', wires, sent', got') = receive_all-encode_all commands c' h in
      (c'', wire ∷ wires, rw (sent, sent', encode_all), rw (got, got', receive_all))

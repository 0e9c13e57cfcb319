-- ===== src/Ts/Aligner.antt =====
-- `_find_sync` and `PacketAligner` of src/recdyud/ts.py. A byte string is a list of numbers.
pub mod Sync
mod Heads
pub mod Framing
mod Loop
pub mod Output
mod Runs
use recdyud.Base.{
  ℕ, zero, suc, ◌+◌, ◌-◌, ◌*◌, ◌/◌, max, Bool, true, false, ◌&&◌, Option, none, some, List, [], ◌∷◌,
  ◌++◌, length, get_or, get_elem?, drop, slice, ltb, ◌==◌, if◌then◌else◌,
}
use recdyud.Ts.{packet_size, sync_byte, sync_confirm}

-- `data.find(sync, i, i + rounds)`, which passes over what is beyond the data.
pub find_byte : List ℕ → ℕ → ℕ → Option ℕ
find_byte bytes i zero = none
find_byte bytes i (suc rounds) = elim (get_or bytes i 0 == sync_byte) [
  | true ↦ some i
  | false ↦ find_byte bytes (i + 1) rounds
]

-- `all(data[i + k * PACKET_SIZE] == SYNC_BYTE for k in range(k, k + rounds))`; `none` is an
-- IndexError.
pub all_sync : List ℕ → ℕ → ℕ → ℕ → Option Bool
all_sync bytes i k zero = some true
all_sync bytes i k (suc rounds) = elim (get_elem? bytes (i + k * packet_size)) [
  | none ↦ none
  | some b ↦ if b == sync_byte then all_sync bytes i (k + 1) rounds else some false
]

-- How a search ends: with an IndexError, with -1, or with a position.
pub data Search : Type 0 where
  out_of_range nowhere : Search
  at : ℕ → Search

-- The `while` loop. Each round moves `i` up, so `end - i` rounds are enough.
pub find_sync_loop : ℕ → List ℕ → ℕ → ℕ → Search
unfolding find_byte all_sync
find_sync_loop zero bytes end i = nowhere
find_sync_loop (suc fuel) bytes end i = elim (ltb i end) [
  | false ↦ nowhere
  | true ↦ elim (find_byte bytes i (end - i)) [
    | none ↦ nowhere
    | some j ↦ elim (all_sync bytes j 1 (sync_confirm - 1)) [
      | none ↦ out_of_range
      | some true ↦ at j
      | some false ↦ find_sync_loop fuel bytes end (j + 1)
    ]
  ]
]

-- A negative `end` makes no round, as 0 does.
pub find_sync : List ℕ → ℕ → Search
unfolding find_sync_loop
find_sync bytes start =
    let end = length bytes - packet_size * (sync_confirm - 1) in
    find_sync_loop (end - start) bytes end start

pub record PacketAligner : Type 0 where
  pub pending : List ℕ
  pub locked : Bool
  pub sync_losses : ℕ
  pub skipped_bytes : ℕ

abbrev pub init : PacketAligner
init = record { pending = []; locked = false; sync_losses = 0; skipped_bytes = 0 }

pub reset : PacketAligner → PacketAligner
reset a = record a { pending = []; locked = false }

-- `data[pos : pos + count * PACKET_SIZE : PACKET_SIZE]`, within the data.
pub heads : List ℕ → ℕ → ℕ → List ℕ
heads bytes pos zero = []
heads bytes pos (suc count) = get_or bytes pos 0 ∷ heads bytes (pos + packet_size) count

-- `heads.count(SYNC_BYTE)`
pub count_sync : List ℕ → ℕ
count_sync [] = 0
count_sync (b ∷ bs) = (if b == sync_byte then 1 else 0) + count_sync bs

-- `next(i for i, b in enumerate(heads) if b != SYNC_BYTE)`; `none` is the StopIteration.
pub first_bad : ℕ → List ℕ → Option ℕ
first_bad i [] = none
first_bad i (b ∷ bs) = elim (b == sync_byte) [ true ↦ first_bad (i + 1) bs | false ↦ some i ]

pub good_heads : List ℕ → ℕ → Option ℕ
unfolding count_sync first_bad
good_heads hs count = if count_sync hs == count then some count else first_bad 0 hs

-- What the loop of `feed` changes: the object's fields, `pos`, and `out`, already joined.
pub record Feed : Type 0 where
  pub pos : ℕ
  pub out : List ℕ
  pub locked : Bool
  pub sync_losses : ℕ
  pub skipped_bytes : ℕ

-- How a round of the loop, or its first half, ends.
pub data Round : Type 0 where
  broke : Feed → Round
  went_on : Feed → Round
  raised : Round

-- `if not self.locked: ...`
pub acquire : List ℕ → Feed → Round
unfolding find_sync
acquire bytes s = elim s.locked [
  | true ↦ went_on s
  | false ↦ elim (find_sync bytes s.pos) [
    | out_of_range ↦ raised
    | nowhere ↦
        let keep = max s.pos (length bytes - packet_size * sync_confirm) in
        broke (record s { skipped_bytes = s.skipped_bytes + (keep - s.pos); pos = keep })
    | at found ↦
        went_on (record s {
          skipped_bytes = s.skipped_bytes + (found - s.pos);
          pos = found;
          locked = true;
        })
  ]
]

-- The rest of a round, from `count` on.
pub cut : List ℕ → Feed → Round
unfolding heads good_heads
cut bytes s =
    let count = (length bytes - s.pos) / packet_size in
    elim (count == 0) [
      | true ↦ broke s
      | false ↦ elim (good_heads (heads bytes s.pos count) count) [
        | none ↦ raised
        | some good ↦
            let end = s.pos + good * packet_size in
            let s' : Feed = record s { out = s.out ++ slice bytes s.pos end; pos = end } in
            elim (good == count) [
              | true ↦ broke s'
              | false ↦
                  went_on
                    (record s' { locked = false; sync_losses = s.sync_losses + 1; pos = end + 1 })
            ]
      ]
    ]

-- `while True`; `none` is an exception, or the fuel running out.
pub feed_loop : ℕ → List ℕ → Feed → Option Feed
unfolding acquire cut
feed_loop zero bytes s = none
feed_loop (suc fuel) bytes s = elim (acquire bytes s) [
  | broke s' ↦ some s'
  | raised ↦ none
  | went_on s' ↦ elim (cut bytes s') [
    | broke t ↦ some t
    | raised ↦ none
    | went_on t ↦ feed_loop fuel bytes t
  ]
]

-- `bytes(chunk)` and `self._pending + chunk` are the same list when nothing is pending. A round
-- that goes on moves `pos` up and ends within the data, so the fuel is its length and one.
unfoldable pub feed : PacketAligner → List ℕ → Option (PacketAligner × List ℕ)
unfolding feed_loop
feed a chunk =
    let bytes = a.pending ++ chunk in
    let start : Feed = record {
      pos = 0;
      out = [];
      locked = a.locked;
      sync_losses = a.sync_losses;
      skipped_bytes = a.skipped_bytes;
    } in
    elim (feed_loop (length bytes + 1) bytes start) [
      | none ↦ none
      | some s ↦ some (
        record {
          pending = drop s.pos bytes;
          locked = s.locked;
          sync_losses = s.sync_losses;
          skipped_bytes = s.skipped_bytes;
        },
        s.out,
      )
    ]

-- The callers' loop over the chunks they read: `feed` on each, the results joined.
unfoldable pub feed_all : PacketAligner → List (List ℕ) → Option (PacketAligner × List ℕ)
feed_all a [] = some (a, [])
feed_all a (chunk ∷ chunks) = elim (feed a chunk) [
  | none ↦ none
  | some (a', out) ↦ elim (feed_all a' chunks) [
    | none ↦ none
    | some (a'', outs) ↦ some (a'', out ++ outs)
  ]
]

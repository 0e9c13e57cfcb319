-- ===== src/Ts/Aligner/Sync.antt =====
-- What `_find_sync` of src/recdyud/ts.py returns.
use recdyud.Base.{
  ℕ, zero, suc, ◌+◌, ◌-◌, ◌≤◌, ◌<◌, ◌≡◌, ◌≢◌, inl, inr, true, false, Option, none, some, List,
  length, get_elem?, get_elem?-get_or, ◌⊎◌, refl, ==_iff, dec_lt, ℕ_discrete, get_or, ltb, ◌==◌,
  Bool-cases, Option-cases, arith, ltb→lt,
}
use recdyud.Ts.{sync_byte}
use recdyud.Ts.Aligner.{
  find_byte, all_sync, find_sync_loop, find_sync, Search, out_of_range, nowhere, at,
}

-- Sync bytes at `i` and at the next three packet boundaries.
abbrev pub Confirmed : List ℕ → ℕ → Type 0
Confirmed bytes i =
    (get_or bytes i 0 ≡ sync_byte)
    × (get_or bytes (i + 188) 0 ≡ sync_byte)
    × (get_or bytes (i + 376) 0 ≡ sync_byte)
    × (get_or bytes (i + 564) 0 ≡ sync_byte)

FoundByte : List ℕ → ℕ → ℕ → Option ℕ → Type 0
FoundByte bytes i end none = (k : ℕ) → i ≤ k → k < end → get_or bytes k 0 ≢ sync_byte
FoundByte bytes i end (some j) =
    (i ≤ j)
    × (j < end)
    × (get_or bytes j 0 ≡ sync_byte)
    × ((k : ℕ) → i ≤ k → k < j → get_or bytes k 0 ≢ sync_byte)

find_byte_lem :
    (bytes : List ℕ) (i rounds end : ℕ)
    → i + rounds ≡ end
    → FoundByte bytes i end (find_byte bytes i rounds)
unfolding find_byte FoundByte
find_byte_lem bytes i zero end e = λ k lo hi. absurd (omega arith)
find_byte_lem bytes i (suc rounds) end e = elim (Bool-cases (get_or bytes i 0 == sync_byte)) [
  | inl hit ↦
      rw (hit, find_byte, FoundByte)
        (omega arith, omega arith, ground arith, λ k lo hi. absurd (omega arith))
  | inr miss ↦
      rw (miss, find_byte)
        (after miss (find_byte bytes (i + 1) rounds)
          (find_byte_lem bytes (i + 1) rounds end (omega arith)))
]
  where
    after :
        (get_or bytes i 0 == sync_byte) ≡ false
        → (r : Option ℕ) → FoundByte bytes (i + 1) end r
        → FoundByte bytes i end r
    after miss none f = λ k lo hi. λ x. grind (arith, f k)
    after miss (some j) f = (omega (arith, f.0), f.1, f.2, λ k lo hi. λ x. grind (arith, f.3 k))

-- Where the data reaches, no read of `all` is out of range.
all_sync-some :
    (bytes : List ℕ) (i : ℕ)
    → get_or bytes i 0 ≡ sync_byte
    → i + 564 < length bytes
    → ((all_sync bytes i 1 3 ≡ some true) × Confirmed bytes i)
      ⊎ ((all_sync bytes i 1 3 ≡ some false) × (¬ Confirmed bytes i))
unfolding all_sync
all_sync-some bytes i h inside =
    let e1 : get_elem? bytes (i + 188) ≡ some (get_or bytes (i + 188) 0) =
      get_elem?-get_or bytes (i + 188) 0 (omega arith) in
    let e2 : get_elem? bytes (i + 376) ≡ some (get_or bytes (i + 376) 0) =
      get_elem?-get_or bytes (i + 376) 0 (omega arith) in
    let e3 : get_elem? bytes (i + 564) ≡ some (get_or bytes (i + 564) 0) =
      get_elem?-get_or bytes (i + 564) 0 inside in
    elim (Bool-cases (get_or bytes (i + 188) 0 == sync_byte)) [
      | inr a ↦ inr (rw (e1, a, all_sync) refl, λ c. ground arith)
      | inl a ↦ elim (Bool-cases (get_or bytes (i + 376) 0 == sync_byte)) [
        | inr b ↦ inr (rw (e1, a, e2, b, all_sync) refl, λ c. ground arith)
        | inl b ↦ elim (Bool-cases (get_or bytes (i + 564) 0 == sync_byte)) [
          | inr d ↦ inr (rw (e1, a, e2, b, e3, d, all_sync) refl, λ c. ground arith)
          | inl d ↦ inl (
            rw (e1, a, e2, b, e3, d, all_sync) refl,
            (
              h,
              (==_iff (get_or bytes (i + 188) 0) sync_byte).0 a,
              (==_iff (get_or bytes (i + 376) 0) sync_byte).0 b,
              (==_iff (get_or bytes (i + 564) 0) sync_byte).0 d,
            ),
          )
        ]
      ]
    ]

-- What a search from `i` may return, with `end` the first start that leaves no room to confirm.
abbrev pub Finds : List ℕ → ℕ → ℕ → Search → Type 0
Finds bytes i end out_of_range = ⊥
Finds bytes i end nowhere = (k : ℕ) → i ≤ k → k < end → ¬ Confirmed bytes k
Finds bytes i end (at j) =
    (i ≤ j) × (j < end) × Confirmed bytes j × ((k : ℕ) → i ≤ k → k < j → ¬ Confirmed bytes k)

none-Finds : (bytes : List ℕ) (i end : ℕ) → FoundByte bytes i end none → Finds bytes i end nowhere
unfolding FoundByte
none-Finds bytes i end f = λ k lo hi c. f k lo hi c.0

-- A start that fails to confirm joins those before it.
next-Finds :
    (bytes : List ℕ) (i end : ℕ) (j : ℕ)
    → FoundByte bytes i end (some j)
    → ¬ Confirmed bytes j
    → (r : Search) → Finds bytes (j + 1) end r
    → Finds bytes i end r
unfolding FoundByte
next-Finds bytes i end j f bad out_of_range later = later
next-Finds bytes i end j f bad nowhere later = λ k lo hi c. elim (dec_lt k j) [
  | yes before ↦ f.3 k lo before c.0
  | no other ↦ elim (ℕ_discrete k j) [
    | yes e ↦ bad (rw e at c)
    | no ne ↦ later k (omega arith) hi c
  ]
]
next-Finds bytes i end j f bad (at m) (lo', hi', ok, later) = (
  omega (arith, f.0),
  hi',
  ok,
  λ k lo hi c. elim (dec_lt k j) [
    | yes before ↦ f.3 k lo before c.0
    | no other ↦ elim (ℕ_discrete k j) [
      | yes e ↦ bad (rw e at c)
      | no ne ↦ later k (omega arith) hi c
    ]
  ],
)

found-Finds :
    (bytes : List ℕ) (i end : ℕ) (j : ℕ)
    → FoundByte bytes i end (some j)
    → Confirmed bytes j
    → Finds bytes i end (at j)
unfolding FoundByte
found-Finds bytes i end j f c = (f.0, f.1, c, λ k lo hi d. f.3 k lo hi d.0)

found_sync :
    (bytes : List ℕ) (i end : ℕ) (j : ℕ)
    → FoundByte bytes i end (some j)
    → get_or bytes j 0 ≡ sync_byte
unfolding FoundByte
found_sync bytes i end j f = f.2

found_from : (bytes : List ℕ) (i end : ℕ) (j : ℕ) → FoundByte bytes i end (some j) → i ≤ j
unfolding FoundByte
found_from bytes i end j f = f.0

found_before : (bytes : List ℕ) (i end : ℕ) (j : ℕ) → FoundByte bytes i end (some j) → j < end
unfolding FoundByte
found_before bytes i end j f = f.1

find_sync_loop-Finds :
    (fuel : ℕ) (bytes : List ℕ) (end i : ℕ)
    → end - i ≤ fuel
    → end ≤ length bytes - 564
    → Finds bytes i end (find_sync_loop fuel bytes end i)
unfolding find_sync_loop
find_sync_loop-Finds zero bytes end i h inside = λ k lo hi. absurd (omega arith)
find_sync_loop-Finds (suc fuel) bytes end i h within = elim (Bool-cases (ltb i end)) [
  | inr out ↦ rw (out, find_sync_loop) (λ k lo hi. absurd (ground arith))
  | inl inside ↦
      let here : i < end = ltb→lt i end inside in
      elim (Option-cases (find_byte bytes i (end - i))) [
        | inl e ↦
            rw (inside, e, find_sync_loop)
              (none-Finds bytes i end (rw e at (find_byte_lem bytes i (end - i) end (omega arith))))
        | inr (j, e) ↦
            let f : FoundByte bytes i end (some j) =
              rw e at (find_byte_lem bytes i (end - i) end (omega arith)) in
            elim (all_sync-some bytes j (found_sync bytes i end j f)
              (omega (arith, found_before bytes i end j f))) [
                | inl (good, c) ↦
                    rw (inside, e, good, find_sync_loop) (found-Finds bytes i end j f c)
                | inr (bad, refuted) ↦
                    rw (inside, e, bad, find_sync_loop)
                      (next-Finds bytes i end j f refuted _ (
                        find_sync_loop-Finds fuel bytes end (j + 1)
                          (omega (arith, found_from bytes i end j f)) within))
              ]
      ]
]

-- `_find_sync(data, start)` returns the first place from `start` on where four packets in a row
-- begin with a sync byte, if there is one within the data, and -1 exactly when there is none; it
-- reads nothing beyond the data.
pub find_sync-Finds :
    (bytes : List ℕ) (start : ℕ) → Finds bytes start (length bytes - 564) (find_sync bytes start)
unfolding find_sync
find_sync-Finds bytes start =
    find_sync_loop-Finds _ bytes (length bytes - 564) start (omega arith) (omega arith)

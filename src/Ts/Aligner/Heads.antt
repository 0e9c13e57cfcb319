-- ===== src/Ts/Aligner/Heads.antt =====
-- The packet heads that a round of `feed` of src/recdyud/ts.py looks at.
use recdyud.Base.{
  ℕ, zero, suc, ◌+◌, ◌*◌, ◌≤◌, ◌<◌, ◌≡◌, ◌≢◌, refl, inl, inr, true, false, Option, none, some, List,
  [], ◌∷◌, length, get_or, ◌==◌, Bool-cases, dec_lt, arith,
}
use recdyud.Ts.{packet_size, sync_byte}
use recdyud.Ts.Aligner.{heads, count_sync, first_bad, good_heads}

pub length-heads : (bytes : List ℕ) (pos count : ℕ) → length (heads bytes pos count) ≡ count
unfolding heads
length-heads bytes pos zero = refl
length-heads bytes pos (suc n) = omega (arith, length-heads bytes (pos + packet_size) n)

pub get_or-heads :
    (bytes : List ℕ) (pos count k : ℕ)
    → k < count
    → get_or (heads bytes pos count) k 0 ≡ get_or bytes (pos + k * 188) 0
unfolding heads
get_or-heads bytes pos zero k h = absurd (omega arith)
get_or-heads bytes pos (suc n) zero h = let e : pos + 0 * 188 ≡ pos = omega arith in rw e
get_or-heads bytes pos (suc n) (suc k) h =
    let e : pos + suc k * 188 ≡ pos + 188 + k * 188 = omega arith in
    rw e (get_or-heads bytes (pos + packet_size) n k (omega arith))

count_sync-le : (hs : List ℕ) → count_sync hs ≤ length hs
unfolding count_sync
count_sync-le [] = omega arith
count_sync-le (b ∷ bs) = ground (arith, count_sync-le bs)

count_sync_all :
    (hs : List ℕ) → count_sync hs ≡ length hs → (k : ℕ) → k < length hs → get_or hs k 0 ≡ sync_byte
unfolding count_sync
count_sync_all [] e k h = absurd (omega arith)
count_sync_all (b ∷ bs) e zero h = ground (arith, count_sync-le bs)
count_sync_all (b ∷ bs) e (suc k) h =
    count_sync_all bs (ground (arith, count_sync-le bs)) k (omega arith)

-- The run of good heads, and the bad one behind it, if any.
abbrev pub Good : List ℕ → ℕ → ℕ → Option ℕ → Type 0
Good hs i count none = ⊥
Good hs i count (some g) =
    (i ≤ g)
    × (g ≤ i + count)
    × ((k : ℕ) → i + k < g → get_or hs k 0 ≡ sync_byte)
    × ((k : ℕ) → i + k ≡ g → g < i + count → get_or hs k 0 ≢ sync_byte)

first_bad-Good :
    (i : ℕ) (hs : List ℕ) (count : ℕ)
    → length hs ≡ count
    → count_sync hs ≢ count
    → Good hs i count (first_bad i hs)
unfolding count_sync first_bad
first_bad-Good i [] count e h = absurd (h (omega arith))
first_bad-Good i (b ∷ bs) zero e h = absurd (omega arith)
first_bad-Good i (b ∷ bs) (suc count) e h = elim (Bool-cases (b == sync_byte)) [
  | inr bad ↦
      rw (bad, first_bad, Good) (omega arith, omega arith, λ k lo. absurd (omega arith), stops bad)
  | inl good ↦
      rw (good, first_bad)
        (after good (first_bad (i + 1) bs)
          (first_bad-Good (i + 1) bs count (omega arith) (ground arith)))
]
  where
    stops :
        (b == sync_byte) ≡ false
        → (k : ℕ) → i + k ≡ i
        → i < i + suc count
        → get_or (b ∷ bs) k 0 ≢ sync_byte
    stops bad zero e' lo = λ x. ground arith
    stops bad (suc k) e' lo = absurd (omega arith)

    after :
        (b == sync_byte) ≡ true
        → (r : Option ℕ) → Good bs (i + 1) count r
        → Good (b ∷ bs) i (suc count) r
    after good none g = g
    after good (some g) (lo, hi, ok, bad) = (omega arith, omega arith, before, behind)
      where
        before : (k : ℕ) → i + k < g → get_or (b ∷ bs) k 0 ≡ sync_byte
        before zero h' = ground arith
        before (suc k) h' = ok k (omega arith)

        behind : (k : ℕ) → i + k ≡ g → g < i + suc count → get_or (b ∷ bs) k 0 ≢ sync_byte
        behind zero h' lt = absurd (omega arith)
        behind (suc k) h' lt = bad k (omega arith) (omega arith)

-- `next` always finds a bad head, since it is asked only when the count says that there is one.
pub good_heads-Good :
    (hs : List ℕ) (count : ℕ) → length hs ≡ count → Good hs 0 count (good_heads hs count)
unfolding good_heads
good_heads-Good hs count e = elim (Bool-cases (count_sync hs == count)) [
  | inl all ↦
      rw (all, good_heads)
        (
          omega arith,
          omega arith,
          λ k h. count_sync_all hs (ground arith) k (omega arith),
          λ k h lt. absurd (omega arith),
        )
  | inr some_bad ↦ rw (some_bad, good_heads) (first_bad-Good 0 hs count e (λ x. ground arith))
]

all-Good :
    (hs : List ℕ) (count : ℕ) (r : Option ℕ)
    → ((k : ℕ) → k < count → get_or hs k 0 ≡ sync_byte)
    → Good hs 0 count r
    → r ≡ some count
all-Good hs count none h g = absurd g
all-Good hs count (some g) h (_, le, ok, bad) = elim (dec_lt g count) [
  | yes lt ↦ absurd (bad g (omega arith) (omega arith) (h g lt))
  | no ge ↦ let e : g ≡ count = omega arith in rw e
]

pub good_heads_all :
    (hs : List ℕ) (count : ℕ)
    → length hs ≡ count
    → ((k : ℕ) → k < count → get_or hs k 0 ≡ sync_byte)
    → good_heads hs count ≡ some count
good_heads_all hs count e h = all-Good hs count _ h (good_heads-Good hs count e)

-- ===== src/Ts/Psi/Fields.antt =====
-- The ranges of what `parse_pat` of src/recdyud/ts.py reads from a section, and of what the parsers
-- share.
use recdyud.Base.{
  ℕ, zero, suc, ◌+◌, ◌-◌, ◌/◌, ◌%◌, ◌^◌, ◌≤◌, ◌<◌, not, Option, none, some, List, [], ◌∷◌, length,
  take, drop, slice, get_or, All, leb, ◌==◌, if-both, int_from_bytes, IsByte, length-take, arith,
}
use mathlib.Core.List.{foldl}
use recdyud.Ts.Psi.{
  TransportInfo, ServiceInfo, set_item, set_program, pat_loop, parse_pat, descriptors,
  descriptors_loop,
}

abbrev pub Bytes : List ℕ → Type 0
Bytes = All IsByte

take-Bytes : (n : ℕ) (xs : List ℕ) → Bytes xs → Bytes (take n xs)
take-Bytes zero xs h = tt
take-Bytes (suc n) [] h = tt
take-Bytes (suc n) (x ∷ xs) (b, h) = (b, take-Bytes n xs h)

drop-Bytes : (n : ℕ) (xs : List ℕ) → Bytes xs → Bytes (drop n xs)
drop-Bytes zero xs h = h
drop-Bytes (suc n) [] h = tt
drop-Bytes (suc n) (x ∷ xs) (b, h) = drop-Bytes n xs h

pub slice-Bytes : (xs : List ℕ) (i j : ℕ) → Bytes xs → Bytes (slice xs i j)
slice-Bytes xs i j h = take-Bytes (j - i) (drop i xs) (drop-Bytes i xs h)

pub get_or-IsByte : (xs : List ℕ) (i : ℕ) → Bytes xs → IsByte (get_or xs i 0)
get_or-IsByte [] i h = omega arith
get_or-IsByte (x ∷ xs) zero (b, h) = b
get_or-IsByte (x ∷ xs) (suc i) (b, h) = get_or-IsByte xs i h

-- Two bytes at most.
int_from_bytes-lt : (xs : List ℕ) → Bytes xs → length xs ≤ 2 → int_from_bytes xs < 2 ^ 16
unfolding int_from_bytes
int_from_bytes-lt [] h short = omega arith
int_from_bytes-lt (x ∷ []) (b, h) short = omega arith
int_from_bytes-lt (x ∷ (y ∷ [])) (b, (c, h)) short = omega arith
int_from_bytes-lt (x ∷ (y ∷ (z ∷ xs))) h short = absurd (omega arith)

pub int_of_two :
    (xs : List ℕ) (i j : ℕ) → Bytes xs → j - i ≤ 2 → int_from_bytes (slice xs i j) < 2 ^ 16
int_of_two xs i j h two =
    int_from_bytes-lt (slice xs i j) (slice-Bytes xs i j h)
      (omega (arith, length-take (j - i) (drop i xs), two))

-- The value, if there is one.
abbrev pub Below : ℕ → Option ℕ → Type 0
Below bound none = Unit {0}
Below bound (some n) = n < bound

abbrev IsProgram : ℕ × ℕ → Type 0
IsProgram (number, pid) = (number < 2 ^ 16) × (pid < 2 ^ 13)

abbrev pub IsService : ℕ × ServiceInfo → Type 0
IsService (key, s) = (key < 2 ^ 16) × (s.service_id < 2 ^ 16) × (s.service_type < 2 ^ 8)

-- Every number fits into its field.
pub record Typed (info : TransportInfo) : Type 0 where
  pub transport_stream_id : Below (2 ^ 16) info.transport_stream_id
  pub original_network_id : Below (2 ^ 16) info.original_network_id
  pub remote_control_key_id : Below (2 ^ 8) info.remote_control_key_id
  pub programs : All IsProgram info.programs
  pub services : All IsService info.services

pub set_item-All :
    {A : Type 0} (P : ℕ × A → Type 0) (key : ℕ) (a : A) (items : List (ℕ × A))
    → P (key, a)
    → All P items
    → All P (set_item key a items)
unfolding set_item
set_item-All P key a [] new old = (new, tt)
set_item-All P key a ((k, v) ∷ items) new (first, rest) =
    if-both (All P) (k == key) _ _ (λ h. (new, rest))
      (λ h. (first, set_item-All P key a items new rest))

set_program-Typed :
    (sec : List ℕ) (i : ℕ) (info : TransportInfo)
    → Bytes sec
    → Typed info
    → Typed (set_program sec i info)
unfolding set_program
set_program-Typed sec i info h t =
    let number = int_from_bytes (slice sec i (i + 2)) in
    let pid = int_from_bytes (slice sec (i + 2) (i + 4)) % 2 ^ 13 in
    if-both Typed (not (number == 0)) _ _
      (λ e. record {
        transport_stream_id = t.transport_stream_id;
        original_network_id = t.original_network_id;
        remote_control_key_id = t.remote_control_key_id;
        programs =
            set_item-All IsProgram number pid info.programs
              (int_of_two sec i (i + 2) h (omega arith), omega arith) t.programs;
        services = t.services;
      })
      (λ e. t)

pat_loop-Typed :
    (rounds : ℕ) (sec : List ℕ) (i : ℕ) (info : TransportInfo)
    → Bytes sec
    → Typed info
    → Typed (pat_loop rounds sec i info)
unfolding pat_loop
pat_loop-Typed zero sec i info h t = t
pat_loop-Typed (suc rounds) sec i info h t =
    pat_loop-Typed rounds sec (i + 4) _ h (set_program-Typed sec i info h t)

pub parse_pat-Typed :
    (sec : List ℕ) (info : TransportInfo) → Bytes sec → Typed info → Typed (parse_pat sec info)
unfolding parse_pat
parse_pat-Typed sec info h t =
    if-both Typed (not (get_or sec 0 0 == 0)) _ _ (λ e. t)
      (λ e. pat_loop-Typed ((length sec - 12 + 3) / 4) sec 8 _ h (record {
        transport_stream_id = int_of_two sec 3 5 h (omega arith);
        original_network_id = t.original_network_id;
        remote_control_key_id = t.remote_control_key_id;
        programs = t.programs;
        services = t.services;
      }))

-- The descriptors of bytes.
abbrev pub IsDescriptor : ℕ × List ℕ → Type 0
IsDescriptor (tag, body) = Bytes body

descriptors_loop-All :
    (fuel : ℕ) (bytes : List ℕ) (i : ℕ)
    → Bytes bytes
    → All IsDescriptor (descriptors_loop fuel bytes i)
unfolding descriptors_loop
descriptors_loop-All zero bytes i h = tt
descriptors_loop-All (suc fuel) bytes i h =
    if-both (All IsDescriptor) (leb (i + 2) (length bytes)) _ _
      (λ e. (slice-Bytes bytes (i + 2) _ h, descriptors_loop-All fuel bytes _ h)) (λ e. tt)

pub descriptors-All : (bytes : List ℕ) → Bytes bytes → All IsDescriptor (descriptors bytes)
unfolding descriptors
descriptors-All bytes h = descriptors_loop-All (length bytes) bytes 0 h

-- A loop over descriptors.
pub foldl-Typed :
    (f : TransportInfo → ℕ × List ℕ → TransportInfo) (found : List (ℕ × List ℕ))
    (info : TransportInfo)
    → ((info : TransportInfo) (d : ℕ × List ℕ) → IsDescriptor d → Typed info → Typed (f info d))
    → All IsDescriptor found
    → Typed info
    → Typed (foldl f info found)
foldl-Typed f [] info step h t = t
foldl-Typed f (d ∷ found) info step (b, h) t =
    foldl-Typed f found (f info d) step h (step info d b t)

-- ===== src/Ts/Psi.antt =====
-- The tables of programs and services of src/recdyud/ts.py: `_descriptors`, `TransportInfo` and the
-- parsers of PAT, SDT and NIT. A dict is a list of its items in the order in which they came in.
pub mod Descriptors
pub mod Pat
pub mod Fields
pub mod Typed
mod Runs
use recdyud.Base.{
  ℕ, zero, suc, ◌+◌, ◌-◌, ◌*◌, ◌/◌, ◌%◌, ◌^◌, min, Bool, true, false, not, ◌&&◌, ◌||◌, Option, none,
  some, List, [], ◌∷◌, ◌++◌, length, get_or, slice, leb, ltb, ◌==◌, if◌then◌else◌, field,
  int_from_bytes,
}
use recdyud.Aribstr
use mathlib.Core.List.{foldl}

-- The generator, from `i` on; each round moves `i` up by two at least.
unfoldable pub descriptors_loop : ℕ → List ℕ → ℕ → List (ℕ × List ℕ)
descriptors_loop zero bytes i = []
descriptors_loop (suc fuel) bytes i =
    let tag = get_or bytes i 0 in
    let size = get_or bytes (i + 1) 0 in
    let rest = descriptors_loop fuel bytes (i + 2 + size) in
    if leb (i + 2) (length bytes) then (tag, slice bytes (i + 2) (i + 2 + size)) ∷ rest else []

unfoldable pub descriptors : List ℕ → List (ℕ × List ℕ)
unfolding descriptors_loop
descriptors bytes = descriptors_loop (length bytes) bytes 0

pub record ServiceInfo : Type 0 where
  pub service_id : ℕ
  pub service_type : ℕ
  pub name : List ℕ
  pub provider : List ℕ

pub record TransportInfo : Type 0 where
  pub transport_stream_id : Option ℕ
  pub original_network_id : Option ℕ
  pub network_name : List ℕ
  pub ts_name : List ℕ
  pub remote_control_key_id : Option ℕ
  pub programs : List (ℕ × ℕ)
  pub services : List (ℕ × ServiceInfo)

abbrev pub no_info : TransportInfo
no_info = record {
  transport_stream_id = none;
  original_network_id = none;
  network_name = [];
  ts_name = [];
  remote_control_key_id = none;
  programs = [];
  services = [];
}

-- `items[key] = value`: in place, or at the end.
unfoldable pub set_item {ℓ} : {A : Type ℓ} → ℕ → A → List (ℕ × A) → List (ℕ × A)
set_item key value [] = (key, value) ∷ []
set_item key value ((k, v) ∷ items) =
    let rest = set_item key value items in if k == key then (key, value) ∷ items else (k, v) ∷ rest

unfoldable pub complete : TransportInfo → Bool
complete info =
    not (length info.services == 0)
    && (not (length info.network_name == 0) || not (length info.ts_name == 0))

unfoldable pub set_program : List ℕ → ℕ → TransportInfo → TransportInfo
unfolding set_item
set_program sec i info =
    let number = int_from_bytes (slice sec i (i + 2)) in
    let pid = int_from_bytes (slice sec (i + 2) (i + 4)) % 2 ^ 13 in
    if not (number == 0) then record info { programs = set_item number pid info.programs } else info

unfoldable pub pat_loop : ℕ → List ℕ → ℕ → TransportInfo → TransportInfo
pat_loop zero sec i info = info
pat_loop (suc rounds) sec i info = pat_loop rounds sec (i + 4) (set_program sec i info)

-- `range(8, len(sec) - 4, 4)` has one round per four bytes begun.
unfoldable pub parse_pat : List ℕ → TransportInfo → TransportInfo
unfolding pat_loop set_program
parse_pat sec info =
    if not (get_or sec 0 0 == 0)
    then info
    else pat_loop ((length sec - 12 + 3) / 4) sec 8
        (record info { transport_stream_id = some (int_from_bytes (slice sec 3 5)) })

module _ (euc : List ℕ → Option (List ℕ)) where
  -- `aribstr.decode`, which always has a result.
  unfoldable pub text : List ℕ → List ℕ
  text bytes = elim (Aribstr.decode euc bytes) [ none ↦ [] | some s ↦ s ]

  unfoldable pub service_of : ℕ → List ℕ → ServiceInfo
  unfolding text
  service_of service_id body =
      let plen = get_or body 1 0 in
      let nlen = if ltb (2 + plen) (length body) then get_or body (2 + plen) 0 else 0 in
      record {
        service_id = service_id;
        service_type = get_or body 0 0;
        name = text (slice body (3 + plen) (3 + plen + nlen));
        provider = text (slice body 2 (2 + plen));
      }

  unfoldable pub add_service : ℕ → TransportInfo → ℕ × List ℕ → TransportInfo
  unfolding service_of set_item
  add_service service_id info (tag, body) =
      if (tag == 0x48) && leb 3 (length body)
      then record info { services = set_item service_id (service_of service_id body) info.services }
      else info

  -- The `while` loop; each round moves `i` up by five at least.
  unfoldable pub sdt_loop : ℕ → List ℕ → ℕ → ℕ → TransportInfo → TransportInfo
  unfolding add_service descriptors
  sdt_loop zero sec end i info = info
  sdt_loop (suc fuel) sec end i info =
      let loop_len = int_from_bytes (slice sec (i + 3) (i + 5)) % 2 ^ 12 in
      let found = descriptors (slice sec (i + 5) (i + 5 + loop_len)) in
      let rest =
        sdt_loop fuel sec end (i + 5 + loop_len)
          (foldl (add_service (int_from_bytes (slice sec i (i + 2)))) info found) in
      if leb (i + 5) end then rest else info

  unfoldable pub parse_sdt : List ℕ → TransportInfo → TransportInfo
  unfolding sdt_loop
  parse_sdt sec info =
      if not (get_or sec 0 0 == 0x42)
      then info
      else sdt_loop (length sec) sec (length sec - 4) 11 (record info {
        transport_stream_id = elim (info.transport_stream_id) [
          | none ↦ some (int_from_bytes (slice sec 3 5))
          | some id ↦ some id
        ];
        original_network_id = some (int_from_bytes (slice sec 8 10));
      })

  unfoldable pub add_network : TransportInfo → ℕ × List ℕ → TransportInfo
  unfolding text
  add_network info (tag, body) =
      if tag == 0x40 then record info { network_name = text body } else info

  unfoldable pub add_ts : TransportInfo → ℕ × List ℕ → TransportInfo
  unfolding text
  add_ts info (tag, body) =
      if (tag == 0xcd) && leb 2 (length body)
      then record info {
        remote_control_key_id = some (get_or body 0 0);
        ts_name = text (slice body 2 (2 + get_or body 1 0 / 4));
      }
      else info

  -- `info.transport_stream_id in (None, tsid)`
  unfoldable pub is_ours : Option ℕ → ℕ → Bool
  is_ours none tsid = true
  is_ours (some id) tsid = id == tsid

  unfoldable pub nit_loop : ℕ → List ℕ → ℕ → ℕ → TransportInfo → TransportInfo
  unfolding add_ts descriptors is_ours
  nit_loop zero sec end i info = info
  nit_loop (suc fuel) sec end i info =
      let tsid = int_from_bytes (slice sec i (i + 2)) in
      let d_len = int_from_bytes (slice sec (i + 4) (i + 6)) % 2 ^ 12 in
      let found = descriptors (slice sec (i + 6) (i + 6 + d_len)) in
      let rest =
        nit_loop fuel sec end (i + 6 + d_len)
          (if is_ours info.transport_stream_id tsid then foldl add_ts info found else info) in
      if leb (i + 6) end then rest else info

  unfoldable pub parse_nit : List ℕ → TransportInfo → TransportInfo
  unfolding nit_loop add_network descriptors
  parse_nit sec info =
      if not (get_or sec 0 0 == 0x40)
      then info
      else (let nd_len = int_from_bytes (slice sec 8 10) % 2 ^ 12 in
          let i = 10 + nd_len in
          let ts_loop_len = int_from_bytes (slice sec i (i + 2)) % 2 ^ 12 in
          nit_loop (length sec) sec (min (i + 2 + ts_loop_len) (length sec - 4)) (i + 2)
            (foldl add_network info (descriptors (slice sec 10 (10 + nd_len)))))

-- ===== src/Ts/Psi/Typed.antt =====
-- The ranges of what the parsers of src/recdyud/ts.py read from a section.
use recdyud.Base.{
  ℕ, zero, suc, ◌+◌, ◌-◌, ◌%◌, ◌^◌, ◌<◌, not, ◌&&◌, Option, none, some, List, length, slice, get_or,
  leb, ◌==◌, if-both, int_from_bytes, arith,
}
use recdyud.Ts.Psi.{
  TransportInfo, parse_pat, descriptors, add_service, service_of, sdt_loop, parse_sdt, add_network,
  add_ts, is_ours, nit_loop, parse_nit,
}
use recdyud.Ts.Psi.Fields.{
  Bytes, Below, IsService, IsDescriptor, Typed, slice-Bytes, get_or-IsByte, int_of_two,
  set_item-All, parse_pat-Typed, descriptors-All, foldl-Typed,
}

module _ (euc : List ℕ → Option (List ℕ)) where
  add_service-Typed :
      (service_id : ℕ) (info : TransportInfo) (d : ℕ × List ℕ)
      → service_id < 2 ^ 16
      → IsDescriptor d
      → Typed info
      → Typed (add_service euc service_id info d)
  unfolding add_service service_of
  add_service-Typed service_id info (tag, body) small h t =
      if-both Typed ((tag == 0x48) && leb 3 (length body)) _ _
        (λ e. record {
          transport_stream_id = t.transport_stream_id;
          original_network_id = t.original_network_id;
          remote_control_key_id = t.remote_control_key_id;
          programs = t.programs;
          services =
              set_item-All IsService service_id (service_of euc service_id body) info.services
                (small, small, get_or-IsByte body 0 h) t.services;
        })
        (λ e. t)

  sdt_loop-Typed :
      (fuel : ℕ) (sec : List ℕ) (end i : ℕ) (info : TransportInfo)
      → Bytes sec
      → Typed info
      → Typed (sdt_loop euc fuel sec end i info)
  unfolding sdt_loop
  sdt_loop-Typed zero sec end i info h t = t
  sdt_loop-Typed (suc fuel) sec end i info h t =
      if-both Typed (leb (i + 5) end) _ _
        (λ e. sdt_loop-Typed fuel sec end _ _ h (
          foldl-Typed (add_service euc (int_from_bytes (slice sec i (i + 2)))) _ info
            (λ info' d b t'.
              add_service-Typed _ info' d (int_of_two sec i (i + 2) h (omega arith)) b t')
            (descriptors-All _ (slice-Bytes sec (i + 5) _ h)) t))
        (λ e. t)

  parse_sdt-Typed :
      (sec : List ℕ) (info : TransportInfo)
      → Bytes sec
      → Typed info
      → Typed (parse_sdt euc sec info)
  unfolding parse_sdt
  parse_sdt-Typed sec info h t =
      if-both Typed (not (get_or sec 0 0 == 0x42)) _ _ (λ e. t)
        (λ e. sdt_loop-Typed (length sec) sec (length sec - 4) 11 _ h (record {
          transport_stream_id = kept info.transport_stream_id t.transport_stream_id;
          original_network_id = int_of_two sec 8 10 h (omega arith);
          remote_control_key_id = t.remote_control_key_id;
          programs = t.programs;
          services = t.services;
        }))
    where
      kept :
          (o : Option ℕ)
          → Below (2 ^ 16) o
          → Below
              (2 ^ 16)
              (elim o [ none ↦ some (int_from_bytes (slice sec 3 5)) | some id ↦ some id ])
      kept none below = int_of_two sec 3 5 h (omega arith)
      kept (some id) below = below

  add_network-Typed :
      (info : TransportInfo) (d : ℕ × List ℕ)
      → IsDescriptor d
      → Typed info
      → Typed (add_network euc info d)
  unfolding add_network
  add_network-Typed info (tag, body) h t =
      if-both Typed (tag == 0x40) _ _
        (λ e. record {
          transport_stream_id = t.transport_stream_id;
          original_network_id = t.original_network_id;
          remote_control_key_id = t.remote_control_key_id;
          programs = t.programs;
          services = t.services;
        })
        (λ e. t)

  add_ts-Typed :
      (info : TransportInfo) (d : ℕ × List ℕ)
      → IsDescriptor d
      → Typed info
      → Typed (add_ts euc info d)
  unfolding add_ts
  add_ts-Typed info (tag, body) h t =
      if-both Typed ((tag == 0xcd) && leb 2 (length body)) _ _
        (λ e. record {
          transport_stream_id = t.transport_stream_id;
          original_network_id = t.original_network_id;
          remote_control_key_id = get_or-IsByte body 0 h;
          programs = t.programs;
          services = t.services;
        })
        (λ e. t)

  nit_loop-Typed :
      (fuel : ℕ) (sec : List ℕ) (end i : ℕ) (info : TransportInfo)
      → Bytes sec
      → Typed info
      → Typed (nit_loop euc fuel sec end i info)
  unfolding nit_loop
  nit_loop-Typed zero sec end i info h t = t
  nit_loop-Typed (suc fuel) sec end i info h t =
      if-both Typed (leb (i + 6) end) _ _
        (λ e. nit_loop-Typed fuel sec end _ _ h (
          if-both Typed
            (is_ours euc info.transport_stream_id (int_from_bytes (slice sec i (i + 2)))) _ _
            (λ o.
              foldl-Typed (add_ts euc) _ info add_ts-Typed
                (descriptors-All _ (slice-Bytes sec (i + 6) _ h)) t)
            (λ o. t)))
        (λ e. t)

  parse_nit-Typed :
      (sec : List ℕ) (info : TransportInfo)
      → Bytes sec
      → Typed info
      → Typed (parse_nit euc sec info)
  unfolding parse_nit
  parse_nit-Typed sec info h t =
      if-both Typed (not (get_or sec 0 0 == 0x40)) _ _ (λ e. t)
        (λ e.
          let first = slice sec 10 (10 + int_from_bytes (slice sec 8 10) % 2 ^ 12) in
          nit_loop-Typed (length sec) sec _ _ _ h (
            foldl-Typed (add_network euc) (descriptors first) info add_network-Typed
              (descriptors-All first (slice-Bytes sec 10 _ h)) t))

  -- From any section of bytes, whatever its table and however it is malformed, each of the three
  -- parsers reads numbers that fit into their fields: ids of streams, networks, services and
  -- programs into 16 bits, PIDs into 13, service types and the remote control key into 8, where
  -- those that were there before fit.
  pub parse-Typed :
      (sec : List ℕ) (info : TransportInfo)
      → Bytes sec
      → Typed info
      → Typed (parse_pat sec info) × Typed (parse_sdt euc sec info) × Typed (parse_nit euc sec info)
  parse-Typed sec info h t =
      (parse_pat-Typed sec info h t, parse_sdt-Typed sec info h t, parse_nit-Typed sec info h t)

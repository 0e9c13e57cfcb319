-- ===== src/Ts/Psi/Runs.antt =====
-- Runs of the table parsers of src/recdyud/ts.py.
use recdyud.Base.{
  int_from_bytes, ℕ, Option, none, List, ◌≡◌, refl, some, [], ◌∷◌, ◌++◌, map, join, to_bytes2,
  arith,
}
use recdyud.Ts.Psi.{no_info, set_item, parse_pat, parse_sdt, parse_nit, service_of}
use recdyud.Ts.Psi.Fields.{Bytes, Typed}
use recdyud.Ts.Psi.Typed.{parse-Typed}
use recdyud.Ts.Psi.Pat.{bytes_of, enter, parse_pat-enter}

-- The network's entry, and two programs.
parse_pat-enter_example :
    parse_pat
      ((0 ∷ 0xb0 ∷ 21 ∷ (to_bytes2 0x7fe8 ++ (0xc1 ∷ 0 ∷ 0 ∷ [])))
        ++ (join (map bytes_of ((0, 0x10) ∷ (0x5c38, 0x101) ∷ (0x5c39, 0x102) ∷ []))
            ++ (1 ∷ 2 ∷ 3 ∷ 4 ∷ [])))
      no_info
    ≡ record no_info {
      transport_stream_id = some 0x7fe8;
      programs = (0x5c38, 0x101) ∷ (0x5c39, 0x102) ∷ [];
    }
unfolding enter set_item
parse_pat-enter_example =
    parse_pat-enter 0xb0 21 0x7fe8 0xc1 0 0 ((0, 0x10) ∷ (0x5c38, 0x101) ∷ (0x5c39, 0x102) ∷ [])
      (1 ∷ 2 ∷ 3 ∷ 4 ∷ []) no_info (omega arith)
      ((omega arith, omega arith), ((omega arith, omega arith), ((omega arith, omega arith), tt)))
      refl

-- An SDT section with one service.
abbrev section : List ℕ
section =
    66 ∷ 240 ∷ 23 ∷ 127 ∷ 232 ∷ 193 ∷ 0 ∷ 0 ∷ 127 ∷ 233 ∷ 255 ∷ 92 ∷ 56 ∷ 229 ∷ 0 ∷ 5 ∷ 72 ∷ 3 ∷ 1
    ∷ 0 ∷ 0 ∷ 1 ∷ 2 ∷ 3 ∷ 4 ∷ []

section-Bytes : Bytes section
section-Bytes = (
  omega arith,
  (
    omega arith,
    (
      omega arith,
      (
        omega arith,
        (
          omega arith,
          (
            omega arith,
            (
              omega arith,
              (
                omega arith,
                (
                  omega arith,
                  (
                    omega arith,
                    (
                      omega arith,
                      (
                        omega arith,
                        (
                          omega arith,
                          (
                            omega arith,
                            (
                              omega arith,
                              (
                                omega arith,
                                (
                                  omega arith,
                                  (
                                    omega arith,
                                    (
                                      omega arith,
                                      (
                                        omega arith,
                                        (
                                          omega arith,
                                          (
                                            omega arith,
                                            (omega arith, (omega arith, (omega arith, tt))),
                                          ),
                                        ),
                                      ),
                                    ),
                                  ),
                                ),
                              ),
                            ),
                          ),
                        ),
                      ),
                    ),
                  ),
                ),
              ),
            ),
          ),
        ),
      ),
    ),
  ),
)

no_info-Typed : Typed no_info
no_info-Typed = record {
  transport_stream_id = tt;
  original_network_id = tt;
  remote_control_key_id = tt;
  programs = tt;
  services = tt;
}

abbrev euc : List ℕ → Option (List ℕ)
euc bytes = none

service_read :
    (parse_sdt euc section no_info).services ≡ (0x5c38, service_of euc 0x5c38 (1 ∷ 0 ∷ 0 ∷ [])) ∷ []
unfolding parse_sdt int_from_bytes
service_read = refl

parse-Typed_example :
    Typed (parse_pat section no_info)
    × Typed (parse_sdt euc section no_info)
    × Typed (parse_nit euc section no_info)
parse-Typed_example = parse-Typed euc section no_info section-Bytes no_info-Typed

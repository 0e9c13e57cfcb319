-- ===== src/Ts/Psi/Pat.antt =====
-- `parse_pat` of src/recdyud/ts.py reads the programs that a PAT section lists.
use recdyud.Base.{
  ℕ, suc, ◌+◌, ◌-◌, ◌*◌, ◌/◌, ◌%◌, ◌^◌, ◌<◌, ◌≡◌, refl, ap, sym, ◌∙◌, not, some, List, [], ◌∷◌,
  ◌++◌, map, join, length, slice, ◌==◌, if◌then◌else◌, arith, All, int_from_bytes, to_bytes2,
  int_from_bytes-to_bytes2, length-append, slice-append,
}
use recdyud.Ts.Psi.{TransportInfo, set_item, set_program, pat_loop, parse_pat}
use mathlib.Core.List.{append_assoc, foldl}

-- An entry: the number of a program and the PID of its PMT, below three reserved bits.
unfoldable pub bytes_of : ℕ × ℕ → List ℕ
bytes_of (number, pid) = to_bytes2 number ++ to_bytes2 (7 * 2 ^ 13 + pid)

abbrev pub IsEntry : ℕ × ℕ → Type 0
IsEntry (number, pid) = (number < 2 ^ 16) × (pid < 2 ^ 13)

-- What an entry does to the dict of programs: the one of the network, number 0, is none of them.
unfoldable pub enter : TransportInfo → ℕ × ℕ → TransportInfo
enter info (number, pid) =
    if not (number == 0) then record info { programs = set_item number pid info.programs } else info

set_program-enter :
    (pre rest : List ℕ) (entry : ℕ × ℕ) (i : ℕ) (info : TransportInfo)
    → length pre ≡ i
    → IsEntry entry
    → set_program (pre ++ (bytes_of entry ++ rest)) i info ≡ enter info entry
unfolding set_program bytes_of enter
set_program-enter pre rest (number, pid) i info before (small, narrow) =
    let number_at =
      ap int_from_bytes (
        slice-append pre (to_bytes2 number) (to_bytes2 (7 * 2 ^ 13 + pid) ++ rest) i (i + 2) before
          refl)
      ∙ int_from_bytes-to_bytes2 number small in
    let pid_at =
      ap (λ xs. int_from_bytes (slice xs (i + 2) (i + 4)))
        (sym (append_assoc pre (to_bytes2 number) (to_bytes2 (7 * 2 ^ 13 + pid) ++ rest)))
      ∙ ap int_from_bytes (
          slice-append (pre ++ to_bytes2 number) (to_bytes2 (7 * 2 ^ 13 + pid)) rest (i + 2) (i + 4)
            (omega (arith, length-append pre (to_bytes2 number), before)) (omega arith))
      ∙ int_from_bytes-to_bytes2 (7 * 2 ^ 13 + pid) (omega arith) in
    let low : (7 * 2 ^ 13 + pid) % 2 ^ 13 ≡ pid = omega arith in rw (number_at, pid_at, low)

length-bytes_of : (entry : ℕ × ℕ) → length (bytes_of entry) ≡ 4
unfolding bytes_of
length-bytes_of (number, pid) = refl

pat_loop-enter :
    (entries : List (ℕ × ℕ)) (pre rest : List ℕ) (i : ℕ) (info : TransportInfo)
    → All IsEntry entries
    → length pre ≡ i
    → pat_loop (length entries) (pre ++ (join (map bytes_of entries) ++ rest)) i info
      ≡ foldl enter info entries
unfolding pat_loop
pat_loop-enter [] pre rest i info h before = refl
pat_loop-enter (entry ∷ entries) pre rest i info (is_entry, h) before =
    ap (λ xs. pat_loop (suc (length entries)) (pre ++ xs) i info)
      (append_assoc (bytes_of entry) (join (map bytes_of entries)) rest)
    ∙ ap (pat_loop (length entries) (pre ++ (bytes_of entry ++ tail)) (i + 4))
        (set_program-enter pre tail entry i info before is_entry)
    ∙ ap (λ xs. pat_loop (length entries) xs (i + 4) (enter info entry))
        (sym (append_assoc pre (bytes_of entry) tail))
    ∙ pat_loop-enter entries (pre ++ bytes_of entry) rest (i + 4) (enter info entry) h
        (omega (arith, length-append pre (bytes_of entry), before, length-bytes_of entry))
  where
    tail : List ℕ
    tail = join (map bytes_of entries) ++ rest

length-join : (entries : List (ℕ × ℕ)) → length (join (map bytes_of entries)) ≡ length entries * 4
unfolding bytes_of
length-join [] = refl
length-join ((number, pid) ∷ entries) = omega (arith, length-join entries)

-- From a PAT section, with a header of eight bytes that begins with table id 0 and has the stream's
-- id in its fourth and fifth bytes, with entries of four bytes and a CRC of four, `parse_pat` takes
-- over the id and enters every program with its PMT PID, in order, the network's own entry apart.
pub parse_pat-enter :
    (h1 h2 tsid h5 h6 h7 : ℕ) (entries : List (ℕ × ℕ)) (crc : List ℕ) (info : TransportInfo)
    → tsid < 2 ^ 16
    → All IsEntry entries
    → length crc ≡ 4
    → parse_pat
        ((0 ∷ h1 ∷ h2 ∷ (to_bytes2 tsid ++ (h5 ∷ h6 ∷ h7 ∷ [])))
          ++ (join (map bytes_of entries) ++ crc))
        info
      ≡ foldl enter (record info { transport_stream_id = some tsid }) entries
unfolding parse_pat
parse_pat-enter h1 h2 tsid h5 h6 h7 entries crc info small h four =
    ap
      (λ id.
        pat_loop ((length section - 12 + 3) / 4) section 8
          (record info { transport_stream_id = some id }))
      (int_from_bytes-to_bytes2 tsid small)
    ∙ ap (λ n. pat_loop n section 8 (record info { transport_stream_id = some tsid })) rounds
    ∙ pat_loop-enter entries head crc 8 (record info { transport_stream_id = some tsid }) h refl
  where
    head : List ℕ
    head = 0 ∷ h1 ∷ h2 ∷ (to_bytes2 tsid ++ (h5 ∷ h6 ∷ h7 ∷ []))

    section : List ℕ
    section = head ++ (join (map bytes_of entries) ++ crc)

    rounds : (length section - 12 + 3) / 4 ≡ length entries
    rounds =
        omega (arith, length-append (join (map bytes_of entries)) crc, length-join entries, four)

-- ===== src/Ts/Section.antt =====
-- `SectionAssembler` of src/recdyud/ts.py. A `_cc` of -1 is `none`. The indices of `push` lie
-- within a packet of 188 bytes, which is what `SiCollector` passes.
pub mod Drain
pub mod Push
pub mod Reassembly
mod Runs
use recdyud.Base.{
  ℕ, zero, suc, ◌+◌, ◌*◌, ◌%◌, ◌/◌, ◌^◌, Bool, true, false, not, ◌&&◌, Option, none, some, List, [],
  ◌∷◌, ◌++◌, length, get_or, take, drop, slice, leb, ltb, ◌==◌, if◌then◌else◌, field, has_bits,
}
use recdyud.Ts.{packet_size}
use recdyud.Ts.Crc.{crc32_mpeg2}

pub record SectionAssembler : Type 0 where
  pub buf : List ℕ
  pub active : Bool
  pub cc : Option ℕ

abbrev pub init : SectionAssembler
init = record { buf = []; active = false; cc = none }

-- `3 + (((buf[1] & 0x0F) << 8) | buf[2])`
abbrev pub section_length : List ℕ → ℕ
section_length buf = 3 + (field (get_or buf 1 0) 0 4 * 2 ^ 8 + get_or buf 2 0)

-- The test of the `while` loop, and that of the `break` in it.
abbrev pub at_section : List ℕ → Bool
at_section buf = leb 3 (length buf) && not (get_or buf 0 0 == 0xff)

abbrev pub is_cut : List ℕ → Bool
is_cut buf = ltb (length buf) (section_length buf)

-- The loop of `_drain`: what is left in the buffer, and the sections, in order. A round takes
-- three bytes at least, so the buffer's length is enough fuel.
unfoldable pub drain_loop : ℕ → List ℕ → List ℕ × List (List ℕ)
drain_loop zero buf = (buf, [])
drain_loop (suc fuel) buf = elim (at_section buf) [
  | false ↦ (buf, [])
  | true ↦ elim (is_cut buf) [
    | true ↦ (buf, [])
    | false ↦
        let section = take (section_length buf) buf in
        let rest = drain_loop fuel (drop (section_length buf) buf) in
        (rest.0, if crc32_mpeg2 section == 0 then section ∷ rest.1 else rest.1)
  ]
]

-- `buf[:1] == b"\xff"`
abbrev pub starts_stuffing : List ℕ → Bool
starts_stuffing [] = false
starts_stuffing (b ∷ bs) = b == 0xff

unfoldable pub drain : SectionAssembler → SectionAssembler × List (List ℕ)
drain s =
    let r = drain_loop (length s.buf) s.buf in
    (
      if starts_stuffing r.0
          then (record s { buf = []; active = false })
          else (record s { buf = r.0 }),
      r.1,
    )

-- `self._cc >= 0 and cc == self._cc`
abbrev pub is_duplicate : Option ℕ → ℕ → Bool
is_duplicate none cc = false
is_duplicate (some last) cc = cc == last

-- `self._cc >= 0 and cc != (self._cc + 1) & 0x0F`
abbrev pub is_lost : Option ℕ → ℕ → Bool
is_lost none cc = false
is_lost (some last) cc = not (cc == (last + 1) % 2 ^ 4)

-- The end of the section that the packet finishes before the pointer.
unfoldable pub finish_old : SectionAssembler → List ℕ → SectionAssembler × List (List ℕ)
finish_old s piece = if s.active then drain (record s { buf = s.buf ++ piece }) else (s, [])

-- From `sections: list[bytes] = []` on, with the payload at `p`.
unfoldable pub push_payload : SectionAssembler → List ℕ → ℕ → SectionAssembler × List (List ℕ)
unfolding finish_old
push_payload s pkt p =
    if has_bits (get_or pkt 1 0) 6 1
    then (let pointer = get_or pkt p 0 in
        let old = finish_old s (slice pkt (p + 1) (p + 1 + pointer)) in
        let new = drain (record old.0 { buf = drop (p + 1 + pointer) pkt; active = true }) in
        (new.0, old.1 ++ new.1))
    else (if s.active then drain (record s { buf = s.buf ++ drop p pkt }) else (s, []))

-- The continuity counter is taken over also where a gap drops the buffer.
unfoldable pub take_cc : SectionAssembler → ℕ → SectionAssembler
take_cc s cc =
    if is_lost s.cc cc
    then (record { buf = []; active = false; cc = some cc })
    else (record s { cc = some cc })

-- `p`, from the adaptation field control and the adaptation field's length.
abbrev pub payload_at : List ℕ → ℕ
payload_at pkt = if has_bits (get_or pkt 3 0) 5 1 then 4 + (1 + get_or pkt 4 0) else 4

unfoldable pub push : SectionAssembler → List ℕ → SectionAssembler × List (List ℕ)
unfolding take_cc
push s pkt =
    if has_bits (get_or pkt 1 0) 7 1
    then (s, [])
    else (if not (has_bits (get_or pkt 3 0) 4 1)
        then (s, [])
        else (let cc = field (get_or pkt 3 0) 0 4 in
            if is_duplicate s.cc cc
            then (s, [])
            else (if leb packet_size (payload_at pkt)
                then (take_cc s cc, [])
                else push_payload (take_cc s cc) pkt (payload_at pkt))))

-- The packets of one PID in order, as `SiCollector.update` passes them, and all they give.
unfoldable pub push_all : SectionAssembler → List (List ℕ) → SectionAssembler × List (List ℕ)
push_all s [] = (s, [])
push_all s (pkt ∷ pkts) =
    let r = push s pkt in let rest = push_all r.0 pkts in (rest.0, r.1 ++ rest.1)

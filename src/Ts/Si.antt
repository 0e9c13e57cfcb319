-- ===== src/Ts/Si.antt =====
-- `SiCollector` of src/recdyud/ts.py: from packets to the tables' contents.
pub mod Collect
pub mod Programs
mod Runs
use recdyud.Base.{
  ℕ, zero, suc, ◌+◌, ◌*◌, ◌/◌, Bool, true, false, not, Option, none, some, List, [], ◌∷◌, ◌++◌,
  length, get_or, slice, ◌==◌, if◌then◌else◌, field,
}
use recdyud.Ts.{packet_size}
use recdyud.Ts.Section.{SectionAssembler, push}
use recdyud.Ts.Section
use recdyud.Ts.Psi.{TransportInfo, no_info, parse_pat, parse_sdt, parse_nit}
use mathlib.Core.List.{foldl}

-- The keys of both dicts: PID_PAT, PID_NIT and PID_SDT.
pub data Table : Type 0 where
  pat nit sdt : Table

-- `p not in self._asm`, and which one it is.
unfoldable pub key_of : ℕ → Option Table
key_of p =
    if p == 0x00
    then some pat
    else (if p == 0x10 then some nit else (if p == 0x11 then some sdt else none))

-- The table of a packet, from its second and third byte; `none` is `continue`.
unfoldable pub table_of : ℕ → ℕ → Option Table
unfolding key_of
table_of b1 b2 = if not (field b1 0 5 == 0) then none else key_of b2

-- The dict `_asm` is a field for each key.
pub record SiCollector : Type 0 where
  pub info : TransportInfo
  pub pat_asm : SectionAssembler
  pub nit_asm : SectionAssembler
  pub sdt_asm : SectionAssembler

abbrev pub init : SiCollector
init = record {
  info = no_info;
  pat_asm = Section.init;
  nit_asm = Section.init;
  sdt_asm = Section.init;
}

unfoldable pub asm : Table → SiCollector → SectionAssembler
asm pat c = c.pat_asm
asm nit c = c.nit_asm
asm sdt c = c.sdt_asm

unfoldable pub set_asm : Table → SiCollector → SectionAssembler → SiCollector
set_asm pat c a = record c { pat_asm = a }
set_asm nit c a = record c { nit_asm = a }
set_asm sdt c a = record c { sdt_asm = a }

module _ (euc : List ℕ → Option (List ℕ)) where
  -- `_parsers`. No parser indexes out of range in a section of `push`, so none raises.
  unfoldable pub parser : Table → TransportInfo → List ℕ → TransportInfo
  unfolding parse_pat parse_sdt parse_nit
  parser pat info sec = parse_pat sec info
  parser nit info sec = parse_nit euc sec info
  parser sdt info sec = parse_sdt euc sec info

  -- A packet of this table: its sections, parsed in order.
  unfoldable pub collect : Option Table → SiCollector → List ℕ → SiCollector
  unfolding set_asm asm parser
  collect none c pkt = c
  collect (some t) c pkt =
      let (a, sections) = push (asm t c) pkt in
      record (set_asm t c a) { info = foldl (parser t) c.info sections }

  -- The rounds from `off` on.
  unfoldable pub update_loop : ℕ → List ℕ → ℕ → SiCollector → SiCollector
  unfolding collect table_of
  update_loop zero packets off c = c
  update_loop (suc n) packets off c = update_loop n packets (off + packet_size) (
      collect (table_of (get_or packets (off + 1) 0) (get_or packets (off + 2) 0)) c
        (slice packets off (off + packet_size)))

  unfoldable pub update : SiCollector → List ℕ → SiCollector
  unfolding update_loop
  update c packets = update_loop (length packets / packet_size) packets 0 c

-- ===== src/Ts/Analyzer.antt =====
-- `TsCounters` and `TsAnalyzer` of src/recdyud/ts.py. The two lists of 8192 entries are functions
-- of the PID, which is 13 bits wide; a `_last_cc` of -1 is `none`.
pub mod Counts
pub mod Split
pub mod Continuity
mod Runs
use recdyud.Base.{
  ℕ, zero, suc, ◌+◌, ◌-◌, ◌*◌, ◌/◌, ◌%◌, ◌^◌, max, Bool, true, false, Option, none, some, List,
  length, get_or, ltb, ◌==◌, if◌then◌else◌, field, has_bits,
}
use recdyud.Ts.{packet_size, null_pid}

pub record TsCounters : Type 0 where
  pub packets : ℕ
  pub tei : ℕ
  pub cc_errors : ℕ
  pub scrambled : ℕ
  pub null : ℕ

abbrev pub no_counts : TsCounters
no_counts = record { packets = 0; tei = 0; cc_errors = 0; scrambled = 0; null = 0 }

-- `__sub__`, for counters of which the first are the later ones.
unfoldable pub sub : TsCounters → TsCounters → TsCounters
sub c other = record {
  packets = c.packets - other.packets;
  tei = c.tei - other.tei;
  cc_errors = c.cc_errors - other.cc_errors;
  scrambled = c.scrambled - other.scrambled;
  null = c.null - other.null;
}

unfoldable pub payload_packets : TsCounters → ℕ
payload_packets c = c.packets - c.null - c.tei

pub record TsAnalyzer : Type 0 where
  pub total : TsCounters
  pub pid_packets : ℕ → ℕ
  pub last_cc : ℕ → Option ℕ

abbrev pub init : TsAnalyzer
init = record { total = no_counts; pid_packets = λ pid. 0; last_cc = λ pid. none }

-- `xs[i] = v`
abbrev pub update_at {ℓ} : {A : Type ℓ} → (ℕ → A) → ℕ → A → ℕ → A
update_at f i v j = if j == i then v else f j

-- `((b1 & 0x1F) << 8) | b2`
abbrev pub pid_of : ℕ → ℕ → ℕ
pid_of b1 b2 = field b1 0 5 * 2 ^ 8 + b2

-- `prev >= 0 and (cc - prev) & 0x0F > 1`, for a stored counter below 16.
unfoldable pub cc_error : Option ℕ → ℕ → Bool
cc_error none cc = false
cc_error (some prev) cc = ltb 1 ((cc + 16 - prev) % 16)

-- What the loop of `update` changes: the local counters and the two lists.
pub record Tally : Type 0 where
  pub tei : ℕ
  pub cc_errors : ℕ
  pub scrambled : ℕ
  pub null : ℕ
  pub pid_packets : ℕ → ℕ
  pub last_cc : ℕ → Option ℕ

-- `if b3 & 0xC0: scrambled += 1` and the continuity check under `if b3 & 0x10:`.
unfoldable pub check_payload : ℕ → ℕ → Tally → Tally
unfolding cc_error
check_payload pid b3 t =
    let scrambled = if has_bits b3 6 2 then t.scrambled + 1 else t.scrambled in
    let cc = field b3 0 4 in
    if has_bits b3 4 1
    then (record t {
      scrambled = scrambled;
      cc_errors = if cc_error (t.last_cc pid) cc then t.cc_errors + 1 else t.cc_errors;
      last_cc = update_at t.last_cc pid (some cc);
    })
    else (record t { scrambled = scrambled })

-- One round, on the second, third and fourth byte of a packet.
unfoldable pub count_packet : ℕ → ℕ → ℕ → Tally → Tally
unfolding check_payload
count_packet b1 b2 b3 t =
    let pid = pid_of b1 b2 in
    let t' : Tally = record t {
      pid_packets = update_at t.pid_packets pid (t.pid_packets pid + 1);
    } in
    if has_bits b1 7 1
    then record t' { tei = t.tei + 1 }
    else (if pid == null_pid then record t' { null = t.null + 1 } else check_payload pid b3 t')

-- The body of the loop, for the packet at `off`.
abbrev pub round_at : List ℕ → ℕ → Tally → Tally
round_at bytes off t =
    count_packet (get_or bytes (off + 1) 0) (get_or bytes (off + 2) 0) (get_or bytes (off + 3) 0) t

-- `for off in range(off, off + n * PACKET_SIZE, PACKET_SIZE)`
unfoldable pub update_loop : List ℕ → ℕ → ℕ → Tally → Tally
update_loop bytes off zero t = t
update_loop bytes off (suc n) t = update_loop bytes (off + packet_size) n (round_at bytes off t)

-- The variables of the loop as it begins.
abbrev pub start : TsAnalyzer → Tally
start a = record {
  tei = 0;
  cc_errors = 0;
  scrambled = 0;
  null = 0;
  pid_packets = a.pid_packets;
  last_cc = a.last_cc;
}

-- The analyzer after the call, and the counters that the call returns.
unfoldable pub update : TsAnalyzer → List ℕ → TsAnalyzer × TsCounters
update a bytes =
    let n = length bytes / packet_size in
    if n == 0
    then (a, no_counts)
    else (let t = update_loop bytes 0 n (start a) in
        (
          record {
            total = record {
              packets = a.total.packets + n;
              tei = a.total.tei + t.tei;
              cc_errors = a.total.cc_errors + t.cc_errors;
              scrambled = a.total.scrambled + t.scrambled;
              null = a.total.null + t.null;
            };
            pid_packets = t.pid_packets;
            last_cc = t.last_cc;
          },
          record {
            packets = n;
            tei = t.tei;
            cc_errors = t.cc_errors;
            scrambled = t.scrambled;
            null = t.null;
          },
        ))

unfoldable pub reset_continuity : TsAnalyzer → TsAnalyzer
reset_continuity a = record a { last_cc = λ pid. none }

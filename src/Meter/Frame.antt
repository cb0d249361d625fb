-- ===== src/Meter/Frame.antt =====
-- internal/lpmeter/decode.go and owner.go: the layout of a report, the OUT reports, and the two
-- tests that sort an IN frame into echo, telemetry and sample.
use lp_700_server.Prelude.{
  ℕ, ◌+◌, ◌*◌, Bool, true, false, ◌&&◌, ◌||◌, not, [], ◌∷◌, Option, none, some, ltb, leb, ◌==◌,
  if◌then◌else◌, length, get_or, replicate,
}
use lp_700_server.Meter.Snapshot.{Bytes, range_names, peak_mode_names}

abbrev pub report_size : ℕ
report_size = 64

abbrev pub cmd_poll : ℕ
cmd_poll = b'0'

abbrev pub cmd_mode : ℕ
cmd_mode = b'7'

abbrev pub cmd_channel : ℕ
cmd_channel = b'8'

abbrev pub cmd_range : ℕ
cmd_range = b'9'

abbrev pub cmd_alarm : ℕ
cmd_alarm = b':'

abbrev pub cmd_peak : ℕ
cmd_peak = b';'

abbrev pub cmd_setup : ℕ
cmd_setup = b'<'

abbrev pub cmd_freeze : ℕ
cmd_freeze = b'?'

-- The byte at an offset of a report; every read of the source is below the report's length.
abbrev pub byte_at : Bytes → ℕ → ℕ
byte_at report i = get_or report i 0

-- `binary.BigEndian.Uint16`, and `uint16(hi)<<8 | uint16(lo)`, of two bytes.
abbrev pub be16 : ℕ → ℕ → ℕ
be16 hi lo = hi * 256 + lo

abbrev pub raw_peak_hold : Bytes → ℕ
raw_peak_hold r = be16 (byte_at r 0) (byte_at r 1)

abbrev pub raw_peak : Bytes → ℕ
raw_peak r = be16 (byte_at r 23) (byte_at r 24)

abbrev pub raw_avg : Bytes → ℕ
raw_avg r = be16 (byte_at r 25) (byte_at r 26)

abbrev pub raw_swr : Bytes → ℕ
raw_swr r = be16 (byte_at r 2) (byte_at r 37)

-- `make([]byte, ReportSize)` with byte 0 set.
abbrev pub report_of : ℕ → Bytes
report_of c = c ∷ replicate 63 0

unfoldable pub poll_report : Bytes
poll_report = report_of cmd_poll

unfoldable pub status_report : Bytes
status_report = report_of b'6'

-- `none` is the panic on a segment outside 1..5.
unfoldable pub sample_report : ℕ → Option Bytes
sample_report seg = if ltb seg 1 || ltb 5 seg then none else some (report_of (b'0' + seg))

unfoldable pub all_zero : Bytes → Bool
all_zero [] = true
all_zero (b ∷ bs) = b == 0 && all_zero bs

unfoldable pub is_command_echo : Bytes → Bool
unfolding all_zero
is_command_echo [] = false
is_command_echo (b ∷ bs) = if ltb b b'0' || ltb b'?' b then false else all_zero bs

-- The early returns of the source, in its order.
unfoldable pub is_likely_telemetry : Bytes → Bool
is_likely_telemetry f =
    if not (length f == report_size)
    then false
    else if ltb 3 (byte_at f 3)
    then false
    else if ltb 4 (byte_at f 4)
    then false
    else if ltb 4 (byte_at f 5)
    then false
    else if leb (length range_names) (byte_at f 6)
    then false
    else if ltb 1 (byte_at f 7)
    then false
    else if leb (length peak_mode_names) (byte_at f 8)
    then false
    else if ltb (raw_peak f) (raw_avg f)
    then false
    else if ltb 1000 (raw_swr f)
    then false
    else true

-- ===== src/Meter/Decode.antt =====
-- internal/lpmeter/decode.go, Decode: a 64-byte IN report as a snapshot.
pub mod Routing
pub mod Bounds
use lp_700_server.Prelude.{
  ℕ, suc, ◌+◌, ◌*◌, ◌<◌, ◌≤◌, Bool, true, false, ◌&&◌, ◌||◌, not, String, List, [], ◌∷◌, ltb, leb,
  ◌==◌, if◌then◌else◌, length, get_or, drop,
}
use lp_700_server.Prelude.Int.{ℤ, pos}
use lp_700_server.Prelude.Result.{Result, ok, err, ◌>>=◌}
use lp_700_server.Meter.Snapshot.{Bytes, Snapshot, range_names, peak_mode_names, top_mode_names}
use lp_700_server.Meter.Frame.{
  report_size, byte_at, raw_peak_hold, raw_peak, raw_avg, raw_swr, is_command_echo, all_zero,
}
use lp_700_server.Meter.Status.{extract_status_message}

pub data DecodeError : Type 0 where
  wrong_length : ℕ → DecodeError
  skip_frame : DecodeError
  bad_channel : ℕ → DecodeError
  bad_range : ℕ → DecodeError

unfoldable pub is_skippable : DecodeError → Bool
is_skippable skip_frame = true
is_skippable _ = false

-- Bytes 1.. of a report are all zero and byte 0 is a command character: Decode's own loop.
unfoldable pub is_echo : Bytes → Bool
unfolding all_zero
is_echo report =
    leb b'0' (byte_at report 0) && leb (byte_at report 0) b'?' && all_zero (drop 1 report)

-- The `switch` on the channel byte: the channel, and whether it is automatic.
unfoldable pub decode_channel : ℕ → ℕ → Result DecodeError (ℤ × Bool)
decode_channel ch auto =
    if ch == 0
    then ok (pos (if leb 1 auto && leb auto 4 then auto else 1), true)
    else if leb 1 ch && leb ch 4
    then ok (pos ch, false)
    else err (bad_channel ch)

unfoldable pub decode_range : ℕ → Result DecodeError String
decode_range rng =
    if leb (length range_names) rng then err (bad_range rng) else ok (get_or range_names rng "")

unfoldable pub decode_top_mode : ℕ → String
decode_top_mode b =
    if ltb b (length top_mode_names) then get_or top_mode_names b "" else "power_swr"

unfoldable pub decode_peak_mode : ℕ → String
decode_peak_mode b = if ltb b (length peak_mode_names) then get_or peak_mode_names b "" else ""

-- SWR in thousandths, floored at 1.0.
unfoldable pub decode_swr : Bytes → ℕ
decode_swr r = let s = raw_swr r * 10 in if ltb s 1000 then 1000 else s

unfoldable pub snapshot_of : ℕ → Bytes → ℤ × Bool → String → Snapshot
unfolding decode_swr decode_top_mode decode_peak_mode
snapshot_of now r (ch, auto) rng = record {
  timestamp = now;
  channel = ch;
  auto_channel = auto;
  power_avg = raw_avg r * 200;
  power_peak = raw_peak r * 200;
  peak_hold = raw_peak_hold r * 200;
  swr = decode_swr r;
  range = rng;
  peak_mode = decode_peak_mode (byte_at r 8);
  power_mode = "";
  alarm_enabled = byte_at r 7 == 0;
  alarm_power = 0;
  alarm_swr = 0;
  alarm_tripped = false;
  callsign = "";
  coupler = "";
  top_mode = decode_top_mode (byte_at r 3);
  firmware_rev = "";
  status_message = extract_status_message (drop 40 r);
  valid = true;
}

unfoldable pub decode_fields : ℕ → Bytes → Result DecodeError Snapshot
unfolding decode_channel decode_range snapshot_of
decode_fields now r = do
  ch ← decode_channel (byte_at r 4) (byte_at r 5)
  rng ← decode_range (byte_at r 6)
  ok (snapshot_of now r ch rng)

-- `now` is the reading of the clock.
unfoldable pub decode : ℕ → Bytes → Result DecodeError Snapshot
unfolding is_echo decode_fields
decode now r =
    if not (length r == report_size)
    then err (wrong_length (length r))
    else if is_echo r
    then err skip_frame
    else decode_fields now r

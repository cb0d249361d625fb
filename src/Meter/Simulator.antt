-- ===== src/Meter/Simulator.antt =====
-- internal/lpmeter/simulator.go: the synthesised meter. The sine waves and the noise are inputs.
pub mod Faithful
pub mod Loop
use lp_700_server.Prelude.{
  ℕ, suc, ◌+◌, ◌*◌, ◌/◌, ◌%◌, Bool, true, false, not, ◌&&◌, ◌||◌, String, str_eq, List, [], ◌∷◌,
  length, get_or, ltb, leb, ◌==◌, if◌then◌else◌,
}
use lp_700_server.Prelude.Int.{ℤ, pos, negsuc}
use lp_700_server.Meter.Snapshot.{Snapshot, range_names, peak_mode_names, top_mode_names}
use lp_700_server.Meter.Writes.{Command}

-- The state that Run starts with.
abbrev pub initial : Snapshot
initial = record {
  timestamp = 0;
  channel = pos 1;
  auto_channel = false;
  power_avg = 100000;
  power_peak = 140000;
  peak_hold = 140000;
  swr = 1050;
  range = "100W";
  peak_mode = "peak_hold";
  power_mode = "net";
  alarm_enabled = true;
  alarm_power = 1500000;
  alarm_swr = 2000;
  alarm_tripped = false;
  callsign = "SIM";
  coupler = "LPC501";
  top_mode = "power_swr";
  firmware_rev = "sim-v1";
  status_message = [];
  valid = true;
}

-- The position of `v`; 0 where it does not occur.
index_from : ℕ → List String → String → ℕ
index_from i [] v = 0
index_from i (x ∷ xs) v = let rest = index_from (suc i) xs v in if str_eq x v then i else rest

unfoldable pub index_in_slice : List String → String → ℕ
unfolding index_from
index_in_slice s v = index_from 0 s v

-- The name after `v` in the cycle of the names.
next_in : List String → String → String
next_in names v = get_or names ((index_in_slice names v + 1) % length names) ""

-- The name that a command with a value selects: the next one where the value is out of range.
select_in : List String → String → ℤ → String
unfolding next_in
select_in names v (negsuc n) = next_in names v
select_in names v (pos n) = if leb (length names) n then next_in names v else get_or names n ""

step_channel : Snapshot → ℤ → Snapshot
step_channel state (pos ℕ.zero) = record state { auto_channel = true; channel = pos 1 }
step_channel state value = record state { auto_channel = false; channel = value }

unfoldable pub apply_command : Snapshot → Command → Snapshot
unfolding step_channel select_in next_in
apply_command state cmd =
    if str_eq cmd.verb "mode_step"
    then record state { top_mode = next_in top_mode_names state.top_mode }
    else if str_eq cmd.verb "channel_step"
    then step_channel state cmd.value
    else if str_eq cmd.verb "range_step"
    then if state.auto_channel
      then state
      else record state { range = select_in range_names state.range cmd.value }
    else if str_eq cmd.verb "alarm_toggle"
    then if state.auto_channel
      then state
      else record state { alarm_enabled = not state.alarm_enabled }
    else if str_eq cmd.verb "peak_toggle"
    then record state {
      peak_mode = select_in peak_mode_names state.peak_mode cmd.value;
      peak_hold = 0;
    }
    else if str_eq cmd.verb "setup"
    then record state { top_mode = if str_eq state.top_mode "setup" then "power_swr" else "setup" }
    else state

-- `math.Max(0, x)`
abbrev max_0 : ℤ → ℕ
max_0 (pos n) = n
max_0 (negsuc n) = 0

-- One tick: `wave` is the sum of the waves and the noise, in milliwatts, and `swr` the new SWR. The
-- peak power is cut to a milliwatt.
unfoldable pub tick : Snapshot → ℤ → ℕ → Snapshot
tick state wave swr =
    let avg = max_0 wave in
    let peak = avg * 14 / 10 in
    record state {
      power_avg = avg;
      power_peak = peak;
      peak_hold = if ltb state.peak_hold peak then peak else state.peak_hold;
      swr = swr;
      alarm_tripped = state.alarm_enabled && (ltb state.alarm_swr swr || ltb state.alarm_power avg);
    }

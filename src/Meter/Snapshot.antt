-- ===== src/Meter/Snapshot.antt =====
-- internal/lpmeter/snapshot.go: the snapshot model, its name tables and the broadcast deadband.
-- Powers are in milliwatts and SWRs in thousandths, so the scales of the source are exact: a raw
-- power unit (0.2 W) is 200 and a raw SWR unit (0.01) is 10.
pub mod Deadband
use lp_700_server.Prelude.{
  ℕ, suc, ◌+◌, ◌-◌, ◌<◌, Bool, true, false, ◌&&◌, String, str_eq, List, [], ◌∷◌, ltb, ◌==◌, bool_eq,
  if◌then◌else◌,
}
use lp_700_server.Prelude.Int.{ℤ, int_eq}

-- A Go string that comes from the wire: its bytes.
abbrev pub Bytes : Type 0
Bytes = List ℕ

abbrev pub bytes_eq : Bytes → Bytes → Bool
bytes_eq [] [] = true
bytes_eq (a ∷ as') (b ∷ bs) = a == b && bytes_eq as' bs
bytes_eq _ _ = false

pub record Snapshot : Type 0 where
  pub timestamp : ℕ
  pub channel : ℤ
  pub auto_channel : Bool
  pub power_avg : ℕ
  pub power_peak : ℕ
  pub peak_hold : ℕ
  pub swr : ℕ
  pub range : String
  pub peak_mode : String
  pub power_mode : String
  pub alarm_enabled : Bool
  pub alarm_power : ℕ
  pub alarm_swr : ℕ
  pub alarm_tripped : Bool
  pub callsign : String
  pub coupler : String
  pub top_mode : String
  pub firmware_rev : String
  pub status_message : Bytes
  pub valid : Bool

pub record ScopeFrame : Type 0 where
  pub timestamp : ℕ
  pub top_mode : String
  pub channel : ℤ
  pub auto_channel : Bool
  pub samples : Bytes

pub record SpectrumFrame : Type 0 where
  pub timestamp : ℕ
  pub top_mode : String
  pub channel : ℤ
  pub auto_channel : Bool
  pub bins : Bytes

abbrev pub sample_buffer_size : ℕ
sample_buffer_size = 320

abbrev pub range_names : List String
range_names =
    "5W" ∷ "10W" ∷ "25W" ∷ "50W" ∷ "100W" ∷ "250W" ∷ "500W" ∷ "1K" ∷ "2.5K" ∷ "5K" ∷ "10K" ∷ "auto"
    ∷ []

abbrev pub peak_mode_names : List String
peak_mode_names = "peak_hold" ∷ "average" ∷ "tune" ∷ []

abbrev pub top_mode_names : List String
top_mode_names = "power_swr" ∷ "waveform" ∷ "spectrum" ∷ "setup" ∷ []

-- `|a - b| < eps`; the source's `d = a - b` may be negative, the sign is dropped next.
unfoldable pub float_near : ℕ → ℕ → ℕ → Bool
float_near a b eps = let d = if ltb a b then b - a else a - b in ltb d eps

unfoldable pub close_enough : Snapshot → Snapshot → Bool
close_enough s o =
    int_eq s.channel o.channel
    && bool_eq s.auto_channel o.auto_channel
    && float_near s.power_avg o.power_avg 500
    && float_near s.power_peak o.power_peak 500
    && float_near s.peak_hold o.peak_hold 500
    && float_near s.swr o.swr 5
    && str_eq s.range o.range
    && str_eq s.peak_mode o.peak_mode
    && str_eq s.power_mode o.power_mode
    && bool_eq s.alarm_enabled o.alarm_enabled
    && float_near s.alarm_power o.alarm_power 500
    && float_near s.alarm_swr o.alarm_swr 5
    && bool_eq s.alarm_tripped o.alarm_tripped
    && str_eq s.callsign o.callsign
    && str_eq s.coupler o.coupler
    && str_eq s.top_mode o.top_mode
    && str_eq s.firmware_rev o.firmware_rev
    && bytes_eq s.status_message o.status_message

-- ===== src/Tests/Samples.antt =====
-- Inputs for the runs: frames, snapshots, hubs and a meter.
use lp_700_server.Prelude.{ℕ, refl, true, false, [], ◌∷◌, none, some, replicate, codes}
use lp_700_server.Prelude.Chan.{Chan, make}
use lp_700_server.Prelude.Int.{pos}
use lp_700_server.Meter.Snapshot.{Bytes, Snapshot, ScopeFrame, SpectrumFrame}
use lp_700_server.Meter.Frame.{is_command_echo, is_likely_telemetry}
use lp_700_server.Meter.Writes.{Writer}
use lp_700_server.Meter.Owner.{Owner}
use lp_700_server.Meter.Owner.Segments.{IsSample}
use lp_700_server.Hub.{Hub, Options, telemetry}

-- Waveform page, manual channel 2, the 50 W range.
abbrev pub telemetry_frame : Bytes
telemetry_frame = 0 ∷ 0 ∷ 0 ∷ 1 ∷ 2 ∷ 1 ∷ 3 ∷ 0 ∷ 1 ∷ replicate 55 0

abbrev pub segment : Bytes
segment = replicate 64 200

pub segment-IsSample : IsSample segment
unfolding is_command_echo is_likely_telemetry
segment-IsSample = record { sized = refl; not_echo = refl; not_telemetry = refl }

abbrev pub scope_chan : Chan ScopeFrame
scope_chan = make 4

abbrev pub owner : Owner
owner = record {
  commands = record {
    items =
        record { verb = "setup"; value = pos 0 } ∷ record { verb = "freeze"; value = pos 0 } ∷ [];
    cap = 16;
    closed = false;
  };
  out = make 64;
  scope_out = some scope_chan;
  spectrum_out = none;
  sent = [];
  tick_n = 8;
  last_status = codes "CPLR LO";
  last_top_mode = "waveform";
  last_channel = pos 2;
  last_auto = false;
  scope_buf = replicate 320 0;
  spectrum_buf = replicate 320 0;
  seg_idx = 0;
}

-- The same on the spectrum page.
abbrev pub spectrum_chan : Chan SpectrumFrame
spectrum_chan = make 4

abbrev pub spectrum_owner : Owner
spectrum_owner = record owner { last_top_mode = "spectrum"; spectrum_out = some spectrum_chan }

-- Devices that take every write, and none.
abbrev pub taking : Writer
taking = λ done buf. true

abbrev pub refusing : Writer
refusing = λ done buf. false

abbrev pub reading : ℕ → Snapshot
reading avg = record {
  timestamp = 0;
  channel = pos 2;
  auto_channel = false;
  power_avg = avg;
  power_peak = 140000;
  peak_hold = 150000;
  swr = 1200;
  range = "250W";
  peak_mode = "average";
  power_mode = "";
  alarm_enabled = true;
  alarm_power = 0;
  alarm_swr = 0;
  alarm_tripped = false;
  callsign = "";
  coupler = "";
  top_mode = "power_swr";
  firmware_rev = "";
  status_message = [];
  valid = true;
}

abbrev pub options : Options
options = record { heartbeat = 2000; max_clients = 2; allow_control = true }

-- Two clients that have been told a reading, and a client 3 that is not yet registered.
abbrev pub hub : Hub
hub = record {
  options = options;
  clients = 1 ∷ 2 ∷ [];
  sends = λ c. make 32;
  registers = make 16;
  unregisters = make 16;
  resyncs = make 16;
  last_json = some (telemetry 1 (reading 100000));
  last_snap = some (reading 100000);
  latest_snap = some (reading 100200);
  last_sent = 500;
  seq = 1;
}

abbrev pub one_client : Hub
one_client = record hub { clients = 1 ∷ [] }

abbrev pub read_only_hub : Hub
read_only_hub = record hub { options = record options { allow_control = false } }

-- ===== src/Tests/MeterRuns.antt =====
-- Runs of the meter's owner, its devices and the simulator.
use lp_700_server.Prelude.{
  ℕ, ◌≡◌, ◌≢◌, refl, true, false, List, [], ◌∷◌, ◌++◌, none, some, arith, eq_iff, ◌≤◌, ◌<◌, ◌⊎◌,
  ◌+◌, inl, ◌↔◌, codes,
}
use lp_700_server.Prelude.Chan.{offer}
use lp_700_server.Prelude.Int.{pos, negsuc}
use lp_700_server.Prelude.Result.{ok, err}
use lp_700_server.Meter.Snapshot.{Bytes, Snapshot}
use lp_700_server.Meter.Frame.{report_of, is_command_echo, is_likely_telemetry}
use lp_700_server.Meter.Command.{verb_available_in_state}
use lp_700_server.Meter.Writes.{Command, with_report_id, drain_commands}
use lp_700_server.Meter.Writes.Drain.{Drained, drain_commands-Drained, wires_of}
use lp_700_server.Meter.Owner.{Owner, on_frame, on_tick, tick_payload, unlabelled}
use lp_700_server.Meter.Owner.Scope.{assembles_scope, scope_frame}
use lp_700_server.Meter.Owner.Spectrum.{assembles_spectrum, spectrum_frame}
use lp_700_server.Meter.Owner.Telemetry.{Published, on_frame-Published}
use lp_700_server.Meter.Owner.Schedule.{
  asked, on_sample_page, on_tick_lem, tick_payload-asked, tick_payload_cycle,
}
use lp_700_server.Meter.Simulator.{initial, apply_command}
use lp_700_server.Meter.Simulator.Faithful.{
  refused_is_inert, simulate, simulate-IsNamed, initial-IsNamed, command, ticked, SimEvent, IsNamed,
}
use lp_700_server.Meter.Device.{
  HidDeviceInfo, find_device, has_lp_meter_attached, is_lp_meter, not_found, default_vendor_id,
  default_product_id,
}
use lp_700_server.Meter.Device.Choice.{
  Chosen, Absent, find_device-Chosen, attached_iff_found, configured_ids_ignored,
}
use lp_700_server.Prelude.{All}
use lp_700_server.Meter.Command.{known_verbs}
use lp_700_server.Meter.Owner.Loop.{Event, frame, tick, read_error, run, start}
use lp_700_server.Meter.Owner.Sound.{HasSoundChannels}
use lp_700_server.Meter.Owner.Invariant.{IsFull, Continues, run-IsWellFormed}
use lp_700_server.Meter.Writes.{OwnerError, read_failed, poll_write_failed}
use lp_700_server.Meter.Owner.Retry.{
  Session, session, waited, stopped, run_owner, Retried, run_owner-Retried,
}
use lp_700_server.Tests.Samples.{
  telemetry_frame, segment, segment-IsSample, scope_chan, owner, spectrum_owner, spectrum_chan,
  taking, refusing,
}

labelled : unlabelled owner.last_channel owner.last_auto ≡ false
unfolding unlabelled
labelled = refl

abbrev after_segments : Owner → Owner
after_segments o =
    on_frame 5 (on_frame 4 (on_frame 3 (on_frame 2 (on_frame 1 o segment) segment) segment) segment)
      segment

abbrev joined : Bytes
joined = (((segment ++ segment) ++ segment) ++ segment) ++ segment

assembles_scope_example : after_segments owner ≡ record owner {
  seg_idx = 5;
  scope_buf = joined;
  scope_out = some (offer scope_chan (scope_frame 5 (pos 2) false joined)).0;
}
assembles_scope_example =
    assembles_scope owner scope_chan 1 2 3 4 5 segment segment segment segment segment refl refl
      refl refl labelled segment-IsSample segment-IsSample segment-IsSample segment-IsSample
      segment-IsSample

assembles_spectrum_example : after_segments spectrum_owner ≡ record spectrum_owner {
  seg_idx = 5;
  spectrum_buf = joined;
  spectrum_out = some (offer spectrum_chan (spectrum_frame 5 (pos 2) false joined)).0;
}
assembles_spectrum_example =
    assembles_spectrum spectrum_owner spectrum_chan 1 2 3 4 5 segment segment segment segment
      segment refl refl refl refl labelled segment-IsSample segment-IsSample segment-IsSample
      segment-IsSample segment-IsSample

not_echo : is_command_echo telemetry_frame ≡ false
unfolding is_command_echo
not_echo = refl

likely : is_likely_telemetry telemetry_frame ≡ true
unfolding is_likely_telemetry
likely = refl

on_frame-Published_example : (s : Snapshot) × Published 7 owner telemetry_frame s
on_frame-Published_example = on_frame-Published 7 owner telemetry_frame not_echo likely

drain_commands-Drained_example :
    Drained owner.commands.items [] (drain_commands refusing owner.commands.items [])
drain_commands-Drained_example = drain_commands-Drained refusing owner.commands.items []

taking_takes : (done : List Bytes) (buf : Bytes) → taking done buf ≡ true
taking_takes done buf = refl

on_tick_lem_example : on_tick taking owner ≡ (
  record owner {
    commands = record owner.commands { items = [] };
    tick_n = 9;
    sent =
        ([] ++ wires_of owner.commands.items)
        ++ with_report_id (report_of (asked "waveform" 9)) ∷ [];
  },
  none,
)
on_tick_lem_example = on_tick_lem taking owner taking_takes

tick_payload-asked_at_input : tick_payload "power_swr" 20 ≡ some (report_of (asked "power_swr" 20))
tick_payload-asked_at_input = tick_payload-asked "power_swr" 20

spectrum_page : on_sample_page "spectrum" ≡ true
spectrum_page = refl

three_lt : 3 < 6
three_lt = omega arith

tick_payload_cycle_at_input :
    (i : ℕ) × (1 ≤ i) × (i ≤ 6) × (tick_payload "spectrum" (40 + i) ≡ some (report_of (b'0' + 3)))
tick_payload_cycle_at_input = tick_payload_cycle "spectrum" 40 3 spectrum_page three_lt

abbrev on_auto : Snapshot
on_auto = record initial { auto_channel = true }

abbrev range_command : Command
range_command = record { verb = "range_step"; value = pos 3 }

refused : verb_available_in_state "range_step" (some on_auto) ≢ ""
unfolding verb_available_in_state
refused = ground (arith, eq_iff "Range can't be changed in CH Auto; select CH 1-4" "")

refused_is_inert_at_input : apply_command on_auto range_command ≡ on_auto
refused_is_inert_at_input = refused_is_inert on_auto range_command refused

abbrev rounds : List SimEvent
rounds =
    command range_command
    ∷ ticked (pos 90000) 1100
    ∷ command (record { verb = "peak_toggle"; value = negsuc 0 })
    ∷ []

simulate-IsNamed_at_input : IsNamed (simulate initial rounds)
simulate-IsNamed_at_input = simulate-IsNamed initial rounds initial-IsNamed

abbrev keyboard : HidDeviceInfo
keyboard = record {
  path = codes "/dev/hidraw0";
  vendor_id = 1133;
  product_id = 49;
  product = codes "Keyboard";
  manufacturer = [];
}

abbrev meter_device : HidDeviceInfo
meter_device = record {
  path = codes "/dev/hidraw1";
  vendor_id = 4660;
  product_id = 1;
  product = codes "Telepost lp-700";
  manufacturer = [];
}

find_device-Chosen_example :
    ((c : HidDeviceInfo) × (find_device 1240 1 (some (keyboard ∷ meter_device ∷ [])) ≡ ok c)
      × Chosen 1240 1 (keyboard ∷ meter_device ∷ []) c)
    ⊎ ((find_device 1240 1 (some (keyboard ∷ meter_device ∷ [])) ≡ err not_found)
        × Absent 1240 1 (keyboard ∷ meter_device ∷ []))
find_device-Chosen_example = find_device-Chosen 1240 1 keyboard (meter_device ∷ [])

meter_found : find_device 1240 1 (some (keyboard ∷ meter_device ∷ [])) ≡ ok meter_device
unfolding find_device is_lp_meter
meter_found = refl

attached_iff_found_at_input :
    (has_lp_meter_attached (some (keyboard ∷ meter_device ∷ [])) ≡ true) ↔ (
      (d : HidDeviceInfo) × (find_device default_vendor_id default_product_id
          (some (keyboard ∷ meter_device ∷ []))
        ≡ ok d))
attached_iff_found_at_input = attached_iff_found (some (keyboard ∷ meter_device ∷ []))

vendor_set : 0 < keyboard.vendor_id
vendor_set = omega arith

product_set : 0 < keyboard.product_id
product_set = omega arith

other_ids : (keyboard.vendor_id ≢ default_vendor_id) ⊎ (keyboard.product_id ≢ default_product_id)
other_ids = inl (omega arith)

unnamed : is_lp_meter keyboard.product ≡ false
unfolding is_lp_meter
unnamed = refl

configured_ids_ignored_at_input :
    (find_device 1133 49 (some (keyboard ∷ [])) ≡ ok keyboard)
    × (has_lp_meter_attached (some (keyboard ∷ [])) ≡ false)
configured_ids_ignored_at_input =
    configured_ids_ignored keyboard vendor_set product_set other_ids unnamed

owner-HasSoundChannels : HasSoundChannels owner
unfolding known_verbs
owner-HasSoundChannels = ((refl, (refl, tt)), tt, tt)

abbrev events : List Event
events =
    frame 1 telemetry_frame
    ∷ frame 2 segment
    ∷ frame 3 segment
    ∷ frame 4 segment
    ∷ frame 5 segment
    ∷ frame 6 segment
    ∷ tick
    ∷ read_error
    ∷ []

events-IsFull : All IsFull events
events-IsFull = (refl, (refl, (refl, (refl, (refl, (refl, (tt, (tt, tt))))))))

run-IsWellFormed_example : Continues (run refusing (start owner) events)
run-IsWellFormed_example =
    run-IsWellFormed refusing owner events owner-HasSoundChannels events-IsFull

-- Two sessions that failed, one that did not, and the end during the last wait.
abbrev sessions : List (Session OwnerError)
sessions =
    session (some read_failed) waited
    ∷ session (some poll_write_failed) waited
    ∷ session none waited
    ∷ session (some read_failed) stopped
    ∷ []

run_owner-Retried_example : Retried 0 sessions (run_owner sessions)
run_owner-Retried_example = run_owner-Retried sessions

-- ===== src/Tests/PipelineRuns.antt =====
-- A command on its way from a client to the meter.
use lp_700_server.Prelude.{◌<◌, ◌≡◌, refl, true, List, [], ◌∷◌, ◌++◌, none, some, length, arith}
use lp_700_server.Prelude.Chan.{Chan}
use lp_700_server.Prelude.Int.{negsuc}
use lp_700_server.Prelude.Result.{ok}
use lp_700_server.Meter.Snapshot.{Bytes}
use lp_700_server.Meter.Frame.{report_of}
use lp_700_server.Meter.Command.{known_verbs, encode_command, verb_available_in_state}
use lp_700_server.Meter.Writes.{Command, with_report_id}
use lp_700_server.Meter.Writes.Drain.{wires_of}
use lp_700_server.Meter.Owner.{on_tick}
use lp_700_server.Meter.Owner.Schedule.{asked}
use lp_700_server.Hub.{ack}
use lp_700_server.Hub.Broadcast.{delivered}
use lp_700_server.Hub.Messages.{ClientMsg, on_command}
use lp_700_server.Pipeline.{owner_source, command_reaches_wire}
use lp_700_server.Tests.Samples.{hub, owner, taking}

abbrev range_msg : ClientMsg
range_msg = record { kind = "command"; id = "8"; action = "range_step"; value = none }

takes : (done : List Bytes) (buf : Bytes) → taking done buf ≡ true
takes done buf = refl

gate_open : verb_available_in_state "range_step" hub.latest_snap ≡ ""
unfolding verb_available_in_state
gate_open = refl

known : known_verbs "range_step" ≡ true
unfolding known_verbs
known = refl

room : length owner.commands.items < owner.commands.cap
room = omega arith

command_reaches_wire_example :
    (q : Chan Command) × (r : Bytes) × (on_command owner_source hub owner.commands 1 range_msg
      ≡ some (record hub { sends = delivered hub.sends 1 (ack "8" true "") }, q))
    × (encode_command "range_step" (negsuc 0) ≡ ok r)
    × ((on_tick taking (record owner { commands = q })).0.sent
        ≡ ([] ++ (wires_of owner.commands.items ++ with_report_id r ∷ []))
          ++ with_report_id (report_of (asked "waveform" 9)) ∷ [])
command_reaches_wire_example =
    command_reaches_wire taking owner hub 1 range_msg takes refl refl gate_open known room

-- ===== src/Tests/HubRuns.antt =====
-- Runs of the hub.
use lp_700_server.Prelude.{
  ℕ, ◌≡◌, ◌≢◌, refl, true, false, [], ◌∷◌, ◌++◌, none, some, arith, eq_iff, ◌≤◌, ◌<◌, ◌⊎◌, length,
}
use lp_700_server.Prelude.Chan.{Chan, make}
use lp_700_server.Meter.Snapshot.{Snapshot, close_enough, float_near}
use lp_700_server.Meter.Snapshot.Deadband.{IsClose}
use lp_700_server.Meter.Writes.{Command}
use lp_700_server.Hub.{
  Hub, telemetry, heartbeat_frame, mem, new_hub, broadcast, on_register, on_unregister, on_resync,
  on_snapshot, on_heartbeat, unchanged, publish_snapshot, broadcast_hub,
}
use lp_700_server.Hub.Sound.{IsSound, heard, Keeps}
use lp_700_server.Hub.Broadcast.{IsOpen, fan, broadcast-fan}
use lp_700_server.Hub.Invariant.{
  register, snapshot, take_case, take_case-Keeps, Reaches, begins, goes,
}
use lp_700_server.Hub.Delivery.{
  on_snapshot_lem, on_heartbeat_lem, on_register_tells, WithinDeadband, published,
}
use lp_700_server.Hub.Told.{joins, Reaches-told}
use lp_700_server.Hub.Messages.{ClientMsg, on_command, handle_client_msg}
use lp_700_server.Hub.Acks.{Answers, on_command-Answers, read_only_server}
use lp_700_server.Hub.Races.{rejected_client_panics, resync_after_unregister_panics}
use lp_700_server.Pipeline.{owner_source}
use lp_700_server.Hub.{on_done, next_seq}
use lp_700_server.Hub.Shutdown.{all_closed, on_done-all_closed}
use lp_700_server.Hub.Numbering.{Numbered, take_case-Numbered}
use lp_700_server.Tests.Samples.{reading, options, hub, one_client, read_only_hub}

fresh-IsOpen : IsOpen (make 32)
fresh-IsOpen = record { not_closed = refl; cap_is = refl; within = omega arith }

close_readings : close_enough (reading 100000) (reading 100200) ≡ true
unfolding close_enough float_near
close_readings = refl

hub-IsSound : IsSound hub
unfolding mem
hub-IsSound = record {
  distinct = (refl, (refl, tt));
  all_open = (fresh-IsOpen, (fresh-IsOpen, tt));
  bounded = omega arith;
  in_step = heard 1 (reading 100000) (reading 100200) refl refl close_readings;
}

one_client-IsSound : IsSound one_client
unfolding mem
one_client-IsSound = record {
  distinct = (refl, tt);
  all_open = (fresh-IsOpen, tt);
  bounded = omega arith;
  in_step = heard 1 (reading 100000) (reading 100200) refl refl close_readings;
}

not_client : mem 3 one_client.clients ≡ false
unfolding mem
not_client = refl

take_case-Keeps_example : Keeps (take_case one_client (register 3))
take_case-Keeps_example =
    take_case-Keeps one_client (register 3) one_client-IsSound (not_client, fresh-IsOpen)

abbrev queue : Chan Command
queue = make 16

abbrev setup_msg : ClientMsg
setup_msg = record { kind = "command"; id = "7"; action = "setup"; value = none }

on_command-Answers_example :
    Answers owner_source hub queue 1 setup_msg (on_command owner_source hub queue 1 setup_msg)
on_command-Answers_example = on_command-Answers owner_source hub queue 1 setup_msg refl

read_only_server_at_input :
    (h' : Hub) × (handle_client_msg owner_source read_only_hub queue 1 (some setup_msg)
      ≡ some (h', queue))
read_only_server_at_input =
    read_only_server owner_source read_only_hub queue 1 (some setup_msg) refl refl

broadcast-fan_example :
    broadcast (1 ∷ 2 ∷ []) hub.sends (heartbeat_frame 2 7)
    ≡ some (fan hub.sends (1 ∷ 2 ∷ []) (heartbeat_frame 2 7))
broadcast-fan_example =
    broadcast-fan (1 ∷ 2 ∷ []) hub.sends (heartbeat_frame 2 7) hub-IsSound.all_open
      hub-IsSound.distinct

-- A new hub that has told one reading, and then met another inside the deadband.
abbrev told_hub : Hub
told_hub = record (new_hub options 0) {
  last_json = some (telemetry 1 (reading 100000));
  last_snap = some (reading 100000);
  latest_snap = some (reading 100000);
  last_sent = 5;
  seq = 1;
}

abbrev held_hub : Hub
held_hub = record told_hub { latest_snap = some (reading 100200) }

told_step : take_case (new_hub options 0) (snapshot 5 (reading 100000)) ≡ some told_hub
unfolding take_case on_snapshot unchanged publish_snapshot broadcast_hub broadcast new_hub
told_step = refl

held_step : take_case told_hub (snapshot 6 (reading 100200)) ≡ some held_hub
unfolding take_case on_snapshot unchanged close_enough float_near
held_step = refl

held_reached : Reaches options 0 held_hub
held_reached =
    goes (snapshot 6 (reading 100200)) (goes (snapshot 5 (reading 100000)) begins tt told_step) tt
      held_step

held_latest : held_hub.latest_snap ≡ some (reading 100200)
held_latest = refl

held-IsOpen : IsOpen (held_hub.sends 4)
held-IsOpen =
    unfold new_hub broadcast in record { not_closed = refl; cap_is = refl; within = omega arith }

held_room : length (held_hub.sends 4).items < (held_hub.sends 4).cap
held_room = unfold new_hub broadcast in omega arith

free_place : length held_hub.clients < held_hub.options.max_clients
free_place = unfold new_hub in omega arith

Reaches-told_example :
    (k : ℕ) × (s : Snapshot) × (h' : Hub) × (take_case held_hub (register 4) ≡ some h')
    × ((h'.sends 4).items ≡ (held_hub.sends 4).items ++ telemetry k s ∷ [])
    × (s.valid ≡ true)
    × IsClose s (reading 100200)
Reaches-told_example =
    Reaches-told 4 (register 4) held_reached held_latest held-IsOpen held_room (joins free_place)

on_snapshot_lem_example :
    (((reading 100900).valid ≡ false) × (on_snapshot 9 hub (reading 100900) ≡ some hub))
    ⊎ (((reading 100900).valid ≡ true)
        × WithinDeadband hub.last_snap (reading 100900)
        × (on_snapshot 9 hub (reading 100900)
            ≡ some (record hub { latest_snap = some (reading 100900) })))
    ⊎ (((reading 100900).valid ≡ true)
        × (¬ WithinDeadband hub.last_snap (reading 100900))
        × (on_snapshot 9 hub (reading 100900) ≡ some (published 9 hub (reading 100900))))
on_snapshot_lem_example = on_snapshot_lem 9 hub (reading 100900) hub-IsSound

clock_ahead : hub.last_sent ≤ 3000
clock_ahead = omega arith

on_heartbeat_lem_at_input :
    ((3000 < 2500) × (on_heartbeat 3000 hub ≡ some hub))
    ⊎ ((2500 ≤ 3000)
        × (on_heartbeat 3000 hub
            ≡ some (record hub {
              seq = 2;
              last_sent = 3000;
              sends = fan hub.sends hub.clients (heartbeat_frame 2 3000);
            })))
on_heartbeat_lem_at_input = on_heartbeat_lem 3000 hub hub-IsSound clock_ahead

has_room : length one_client.clients < one_client.options.max_clients
has_room = omega arith

on_register_tells_at_input :
    (h' : Hub) × (on_register one_client 3 ≡ some h')
    × (mem 3 h'.clients ≡ true)
    × ((h'.sends 3).items ≡ telemetry 1 (reading 100000) ∷ [])
on_register_tells_at_input =
    on_register_tells one_client 3 (telemetry 1 (reading 100000)) has_room refl refl

full : hub.options.max_clients ≤ length hub.clients
full = omega arith

no_resync : setup_msg.kind ≢ "resync"
no_resync = ground (arith, eq_iff "command" "resync")

rejected_client_panics_example :
    (h' : Hub) × (on_register hub 3 ≡ some h')
    × (handle_client_msg owner_source h' queue 3 (some setup_msg) ≡ none)
rejected_client_panics_example =
    rejected_client_panics owner_source hub queue 3 setup_msg full refl no_resync

is_client : mem 1 hub.clients ≡ true
unfolding mem
is_client = refl

resync_after_unregister_panics_example :
    (h' : Hub) × (on_unregister hub 1 ≡ some h') × (on_resync h' 1 ≡ none)
resync_after_unregister_panics_example =
    resync_after_unregister_panics hub 1 (telemetry 1 (reading 100000)) hub-IsSound is_client refl

on_done-all_closed_at_input :
    on_done hub ≡ some (record hub { sends = all_closed hub.sends hub.clients })
on_done-all_closed_at_input = on_done-all_closed hub hub-IsSound

take_case-Numbered_example :
    Numbered hub (snapshot 9 (reading 100900)) (take_case hub (snapshot 9 (reading 100900)))
take_case-Numbered_example = take_case-Numbered hub (snapshot 9 (reading 100900)) hub-IsSound tt

-- The number wraps around.
wraps : next_seq 18446744073709551615 ≡ 0
wraps = refl

-- ===== src/Tests/LeakRuns.antt =====
-- A client of the hub whose end overtakes its registration.
use lp_700_server.Prelude.{◌<◌, ◌≡◌, refl, false, List, [], ◌∷◌, some, arith, length}
use lp_700_server.Hub.{
  Hub, new_hub, mem, on_register, on_unregister, on_snapshot, on_heartbeat, send_last, send_json,
  unchanged, publish_snapshot, broadcast_hub, broadcast, send_to,
}
use lp_700_server.Hub.Broadcast.{IsOpen}
use lp_700_server.Hub.Sound.{IsSound, silent}
use lp_700_server.Hub.Invariant.{Case, register, unregister, snapshot, heartbeat, take_case}
use lp_700_server.Hub.Leaks.{run_cases, is_unregister, IsRunWithout, Stuck, unregister_first_leaks}
use lp_700_server.Tests.Samples.{reading, options}

abbrev quiet_hub : Hub
quiet_hub = new_hub options 0

abbrev late_hub : Hub
late_hub = record quiet_hub { clients = 9 ∷ [] }

quiet_hub-IsSound : IsSound quiet_hub
quiet_hub-IsSound =
    unfold new_hub in
    record { distinct = tt; all_open = tt; bounded = omega arith; in_step = silent }

quiet_hub-IsOpen : IsOpen (quiet_hub.sends 9)
quiet_hub-IsOpen =
    unfold new_hub in record { not_closed = refl; cap_is = refl; within = omega arith }

late_register : take_case quiet_hub (register 9) ≡ some late_hub
unfolding take_case on_register send_last send_json mem new_hub
late_register = refl

-- Another client ends, the meter reports, and time passes.
abbrev later : List Case
later = unregister 3 ∷ snapshot 5 (reading 100000) ∷ heartbeat 900 ∷ []

later-IsRunWithout : IsRunWithout 9 later late_hub
unfolding take_case is_unregister on_unregister mem on_snapshot unchanged publish_snapshot
    broadcast_hub broadcast on_heartbeat new_hub send_to
later-IsRunWithout = (tt, refl, (tt, refl, (tt, refl, tt)))

nobody : mem 9 quiet_hub.clients ≡ false
nobody = unfold mem new_hub in refl

free_place : length quiet_hub.clients < quiet_hub.options.max_clients
free_place = unfold new_hub in omega arith

unregister_first_leaks_example : Stuck 9 (run_cases quiet_hub (unregister 9 ∷ register 9 ∷ later))
unregister_first_leaks_example =
    unregister_first_leaks quiet_hub late_hub 9 later quiet_hub-IsSound nobody quiet_hub-IsOpen
      free_place late_register later-IsRunWithout

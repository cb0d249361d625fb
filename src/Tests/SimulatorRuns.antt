-- ===== src/Tests/SimulatorRuns.antt =====
-- Runs of the simulator.
use lp_700_server.Prelude.{◌≡◌, refl, true, false, List, [], ◌∷◌, All, length}
use lp_700_server.Prelude.Int.{pos, negsuc}
use lp_700_server.Meter.Command.{known_verbs}
use lp_700_server.Prelude.Chan.{make}
use lp_700_server.Meter.Simulator.Loop.{
  Sim, new_simulator, Activity, submitted, read, receive, run_sim, sim_turn, submit, on_receive,
  on_ticked,
}
use lp_700_server.Meter.Simulator.Loop.Fifo.{Follows, all_taken, all_accepted}
use lp_700_server.Meter.Simulator.Loop.Shown.{IsShown, run_sim-Served}
use lp_700_server.Meter.Simulator.{apply_command, tick, index_in_slice}

-- A session: a command, a tick, a value that no command has, and the hub's read.
abbrev session : List Activity
session =
    submitted "mode_step" (negsuc 0)
    ∷ receive
    ∷ Activity.ticked 1 (pos 90000) 1100 false
    ∷ submitted "reboot" (pos 0)
    ∷ submitted "channel_step" (pos 2)
    ∷ read
    ∷ Activity.ticked 2 (negsuc 5) 2500 false
    ∷ receive
    ∷ Activity.ticked 3 (pos 80000) 1000 true
    ∷ submitted "setup" (pos 0)
    ∷ []

abbrev simulator_at_start : Sim
simulator_at_start = new_simulator (make 1)

run_sim-Served_example :
    Follows simulator_at_start
      (run_sim simulator_at_start session)
      (all_taken simulator_at_start session)
      (all_accepted simulator_at_start session)
    × All IsShown (run_sim simulator_at_start session).out.items
run_sim-Served_example = run_sim-Served 1 session

session_end :
    ((run_sim simulator_at_start session).running ≡ false)
    × ((run_sim simulator_at_start session).state.top_mode ≡ "waveform")
    × ((run_sim simulator_at_start session).state.channel ≡ pos 2)
    × (length (run_sim simulator_at_start session).commands.items ≡ 1)
unfolding run_sim sim_turn submit on_receive on_ticked new_simulator known_verbs apply_command tick
    index_in_slice
session_end = (refl, refl, refl, refl)

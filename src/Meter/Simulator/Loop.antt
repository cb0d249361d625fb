-- ===== src/Meter/Simulator/Loop.antt =====
-- internal/lpmeter/simulator.go, NewSimulator, Submit and the `select` loop of Run, with what the hub
-- does meanwhile: commands submitted, and snapshots read from the channel.
pub mod Fifo
pub mod Shown
use lp_700_server.Prelude.{ℕ, Bool, true, false, not, String, List, [], ◌∷◌, ◌++◌, if◌then◌else◌}
use lp_700_server.Prelude.Chan.{Chan, make, offer}
use lp_700_server.Prelude.Int.{ℤ}
use lp_700_server.Meter.Snapshot.{Snapshot}
use lp_700_server.Meter.Command.{known_verbs}
use lp_700_server.Meter.Writes.{Command}
use lp_700_server.Meter.Simulator.{initial, apply_command, tick}

-- The two channels, the state that Run keeps, and whether Run still loops.
pub record Sim : Type 0 where
  pub commands : Chan Command
  pub out : Chan Snapshot
  pub state : Snapshot
  pub running : Bool

-- A simulator whose Run has just started.
unfoldable pub new_simulator : Chan Snapshot → Sim
new_simulator out = record { commands = make 16; out = out; state = initial; running = true }

unfoldable pub submit : Chan Command → String → ℤ → Chan Command × Bool
submit c verb value =
    if not (known_verbs verb) then (c, false) else offer c (record { verb = verb; value = value })

-- What happens to a simulator: a command submitted, a snapshot read by the hub, and the cases of Run's
-- `select`. A tick has the clock's reading, the sum of the waves and the noise, the new SWR, and whether
-- the inner `select` finds the context done and takes that case.
pub data Activity : Type 0 where
  submitted : String → ℤ → Activity
  read : Activity
  receive : Activity
  ticked : ℕ → ℤ → ℕ → Bool → Activity
  done : Activity

abbrev pub rest_of {ℓ} : {A : Type ℓ} → Chan A → List A → Chan A
rest_of c xs = record c { items = xs }

take_out : Sim → List Snapshot → Sim
take_out s [] = s
take_out s (x ∷ xs) = record s { out = rest_of s.out xs }

-- A receive from an empty channel waits, so it changes nothing.
unfoldable pub on_receive : Sim → List Command → Sim
on_receive s [] = s
on_receive s (c ∷ cs) = record s {
  state = apply_command s.state c;
  commands = rest_of s.commands cs;
}

-- The snapshot that a tick sends.
abbrev pub stamped : Snapshot → ℕ → ℤ → ℕ → Snapshot
stamped state now wave swr = record (tick state wave swr) { timestamp = now }

unfoldable pub on_ticked : Sim → ℕ → ℤ → ℕ → Bool → Sim
on_ticked s now wave swr true = record s { state = tick s.state wave swr; running = false }
on_ticked s now wave swr false = record s {
  state = tick s.state wave swr;
  out = (offer s.out (stamped s.state now wave swr)).0;
}

abbrev while_running : Sim → Sim → Sim
while_running s s' = if s.running then s' else s

unfoldable pub sim_turn : Sim → Activity → Sim
unfolding take_out on_receive on_ticked submit
sim_turn s (submitted verb value) = record s { commands = (submit s.commands verb value).0 }
sim_turn s read = take_out s s.out.items
sim_turn s receive = while_running s (on_receive s s.commands.items)
sim_turn s (ticked now wave swr cancelled) = while_running s (on_ticked s now wave swr cancelled)
sim_turn s done = while_running s (record s { running = false })

unfoldable pub run_sim : Sim → List Activity → Sim
unfolding sim_turn
run_sim s [] = s
run_sim s (a ∷ as') = run_sim (sim_turn s a) as'

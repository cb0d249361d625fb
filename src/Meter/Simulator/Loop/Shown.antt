-- ===== src/Meter/Simulator/Loop/Shown.antt =====
-- What the hub can read from the simulator's channel (simulator.go, Run).
use lp_700_server.Prelude.{
  ℕ, ◌≡◌, ◌≤◌, ◌<◌, ◌⊎◌, inl, inr, ◌↔◌, Bool, true, false, List, [], ◌∷◌, All, All-append,
  if◌then◌else◌, ltb, length, Bool-cases,
}
use lp_700_server.Prelude.Int.{ℤ}
use lp_700_server.Prelude.Chan.{make}
use lp_700_server.Meter.Snapshot.{Snapshot}
use lp_700_server.Meter.Writes.{Command}
use lp_700_server.Meter.Simulator.{tick}
use lp_700_server.Meter.Simulator.Faithful.{
  IsNamed, initial-IsNamed, apply_command-IsNamed, tick_lem,
}
use lp_700_server.Meter.Simulator.Loop.{
  Sim, new_simulator, Activity, submitted, read, receive, ticked, done, on_receive, stamped,
  on_ticked, sim_turn, run_sim, take_out,
}
use lp_700_server.Meter.Simulator.Loop.Fifo.{Follows, all_taken, all_accepted, run_sim-Follows}

-- A snapshot's names are those of the tables, its peak is at most the held peak, and its alarm is tripped
-- exactly if it is on and one of the thresholds is passed.
abbrev pub IsShown : Snapshot → Type 0
IsShown x =
    IsNamed x
    × (x.power_peak ≤ x.peak_hold)
    × ((x.alarm_tripped ≡ true)
        ↔ ((x.alarm_enabled ≡ true) × ((x.alarm_swr < x.swr) ⊎ (x.alarm_power < x.power_avg))))

-- The invariant of the loop.
abbrev pub Shows : Sim → Type 0
Shows s = IsNamed s.state × All IsShown s.out.items

stamped-IsShown :
    (state : Snapshot) (now : ℕ) (wave : ℤ) (swr : ℕ)
    → IsNamed state
    → IsShown (stamped state now wave swr)
unfolding tick
stamped-IsShown state now wave swr h = let t = tick_lem state wave swr in (h, t.0, t.2)

taken_out-Shows : (s : Sim) (xs : List Snapshot) → Shows s → All IsShown xs → Shows (take_out s xs)
unfolding take_out
taken_out-Shows s [] h k = h
taken_out-Shows s (x ∷ xs) h k = (h.0, k.1)

received-Shows : (s : Sim) (q : List Command) → Shows s → Shows (on_receive s q)
unfolding on_receive
received-Shows s [] h = h
received-Shows s (c ∷ cs) (n, o) = (apply_command-IsNamed s.state c n, o)

ticked-Shows :
    (s : Sim) (now : ℕ) (wave : ℤ) (swr : ℕ) (cancelled : Bool)
    → Shows s
    → Shows (on_ticked s now wave swr cancelled)
unfolding on_ticked
ticked-Shows s now wave swr true (n, o) = (unfold tick in n, o)
ticked-Shows s now wave swr false (n, o) = elim (Bool-cases (ltb (length s.out.items) s.out.cap)) [
  | inr full ↦ rw full (unfold tick in n, o)
  | inl room ↦
      rw room (
        unfold tick in n,
        All-append _ s.out.items _ (stamped-IsShown s.state now wave swr n, tt) o,
      )
]

while-Shows : (running : Bool) (s s' : Sim) → Shows s → Shows s' → Shows (if running then s' else s)
while-Shows true s s' h h' = h'
while-Shows false s s' h h' = h

sim_turn-Shows : (s : Sim) (a : Activity) → Shows s → Shows (sim_turn s a)
unfolding sim_turn
sim_turn-Shows s (submitted verb value) h = h
sim_turn-Shows s read h = taken_out-Shows s s.out.items h h.1
sim_turn-Shows s receive h =
    while-Shows s.running s (on_receive s s.commands.items) h (received-Shows s s.commands.items h)
sim_turn-Shows s (ticked now wave swr cancelled) h =
    while-Shows s.running s (on_ticked s now wave swr cancelled) h
      (ticked-Shows s now wave swr cancelled h)
sim_turn-Shows s done h = while-Shows s.running s (record s { running = false }) h h

run_sim-Shows : (s : Sim) (as' : List Activity) → Shows s → Shows (run_sim s as')
unfolding run_sim
run_sim-Shows s [] h = h
run_sim-Shows s (a ∷ as') h = run_sim-Shows (sim_turn s a) as' (sim_turn-Shows s a h)

-- From the start, however submissions, reads and the rounds of the loop interleave: the state is the
-- initial one with the events that the loop took applied in their order; the commands that Submit
-- accepted are those among these events, first in first out, followed by what still waits; and every
-- snapshot in the channel has the names of the tables, a peak of at most the held peak, and an alarm
-- that is tripped exactly if it is on and one of its thresholds is passed.
pub run_sim-Served :
    (cap : ℕ) (as' : List Activity)
    → Follows
        (new_simulator (make cap))
        (run_sim (new_simulator (make cap)) as')
        (all_taken (new_simulator (make cap)) as')
        (all_accepted (new_simulator (make cap)) as')
      × All IsShown (run_sim (new_simulator (make cap)) as').out.items
run_sim-Served cap as' = (
  run_sim-Follows (new_simulator (make cap)) as',
  (run_sim-Shows (new_simulator (make cap)) as' at_start).1,
)
  where
    at_start : Shows (new_simulator (make cap))
    at_start = unfold new_simulator in (initial-IsNamed, tt)

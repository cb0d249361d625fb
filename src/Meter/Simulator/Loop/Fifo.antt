-- ===== src/Meter/Simulator/Loop/Fifo.antt =====
-- What the simulator's loop makes of the commands, and what it sends (simulator.go, Run).
use lp_700_server.Prelude.{
  ◌≡◌, refl, sym, ap, ◌∙◌, Bool, true, false, List, [], ◌∷◌, ◌++◌, append_assoc, append-nil, ℕ,
  String, if◌then◌else◌, ltb, length, Bool-cases, inl, inr,
}
use lp_700_server.Prelude.Int.{ℤ}
use lp_700_server.Meter.Snapshot.{Snapshot}
use lp_700_server.Meter.Command.{known_verbs}
use lp_700_server.Meter.Writes.{Command}
use lp_700_server.Meter.Simulator.{tick, apply_command}
use lp_700_server.Meter.Simulator.Faithful.{SimEvent, command, simulate}
use lp_700_server.Meter.Simulator.Loop.{
  Sim, submit, Activity, submitted, read, receive, ticked, done, on_receive, on_ticked, sim_turn,
  run_sim, take_out,
}

-- The command that `submit` puts in the queue, if it does.
unfoldable pub accepted : Sim → Activity → List Command
unfolding submit
accepted s (submitted verb value) =
    if (submit s.commands verb value).1 then record { verb = verb; value = value } ∷ [] else []
accepted s _ = []

first : List Command → List SimEvent
first [] = []
first (c ∷ _) = command c ∷ []

-- What the loop takes in one of its turns.
unfoldable pub taken : Sim → Activity → List SimEvent
unfolding first
taken s receive = if s.running then first s.commands.items else []
taken s (ticked now wave swr _) = if s.running then SimEvent.ticked wave swr ∷ [] else []
taken s _ = []

unfoldable pub all_accepted : Sim → List Activity → List Command
unfolding accepted
all_accepted s [] = []
all_accepted s (a ∷ as') = accepted s a ++ all_accepted (sim_turn s a) as'

unfoldable pub all_taken : Sim → List Activity → List SimEvent
unfolding taken
all_taken s [] = []
all_taken s (a ∷ as') = taken s a ++ all_taken (sim_turn s a) as'

-- The commands among the events.
abbrev pub commands_of : List SimEvent → List Command
commands_of [] = []
commands_of (command c ∷ es) = c ∷ commands_of es
commands_of (SimEvent.ticked wave swr ∷ es) = commands_of es

commands_of-append :
    (as' bs : List SimEvent) → commands_of (as' ++ bs) ≡ commands_of as' ++ commands_of bs
commands_of-append [] bs = refl
commands_of-append (command c ∷ as') bs = ap (◌∷◌ c) (commands_of-append as' bs)
commands_of-append (SimEvent.ticked wave swr ∷ as') bs = commands_of-append as' bs

simulate-append :
    (as' bs : List SimEvent) (s : Snapshot) → simulate s (as' ++ bs) ≡ simulate (simulate s as') bs
unfolding simulate
simulate-append [] bs s = refl
simulate-append (command c ∷ as') bs s = simulate-append as' bs (apply_command s c)
simulate-append (SimEvent.ticked wave swr ∷ as') bs s = simulate-append as' bs (tick s wave swr)

-- One turn: the state follows the events taken, and the queue loses their commands and gains the
-- accepted one.
abbrev pub Follows : Sim → Sim → List SimEvent → List Command → Type 0
Follows s s' events new =
    (s'.state ≡ simulate s.state events)
    × (s.commands.items ++ new ≡ commands_of events ++ s'.commands.items)

submitted-Follows :
    (s : Sim) (verb : String) (value : ℤ)
    → s.commands.items ++ accepted s (submitted verb value) ≡ (submit s.commands verb value).0.items
unfolding submit accepted
submitted-Follows s verb value = elim (Bool-cases (known_verbs verb)) [
  | inr e ↦ rw e (append-nil s.commands.items)
  | inl e ↦ elim (Bool-cases (ltb (length s.commands.items) s.commands.cap)) [
    | inr full ↦ rw e (rw full (append-nil s.commands.items))
    | inl room ↦ rw e (rw room refl)
  ]
]

received-Follows :
    (s : Sim) (q : List Command) → s.commands.items ≡ q → Follows s (on_receive s q) (first q) []
unfolding on_receive first simulate
received-Follows s [] e = (refl, append-nil s.commands.items)
received-Follows s (c ∷ cs) e = (refl, append-nil s.commands.items ∙ e)

ticked-Follows :
    (s : Sim) (now : ℕ) (wave : ℤ) (swr : ℕ) (cancelled : Bool)
    → Follows s (on_ticked s now wave swr cancelled) (SimEvent.ticked wave swr ∷ []) []
unfolding on_ticked simulate
ticked-Follows s now wave swr true = (refl, append-nil s.commands.items)
ticked-Follows s now wave swr false = (refl, append-nil s.commands.items)

unchanged-Follows : (s : Sim) → Follows s s [] []
unfolding simulate
unchanged-Follows s = (refl, append-nil s.commands.items)

taken_out-Follows : (s : Sim) (xs : List Snapshot) → Follows s (take_out s xs) [] []
unfolding take_out simulate
taken_out-Follows s [] = (refl, append-nil s.commands.items)
taken_out-Follows s (x ∷ xs) = (refl, append-nil s.commands.items)

while-Follows :
    (running : Bool) (s s' : Sim) (events : List SimEvent)
    → Follows s s' events []
    → Follows s (if running then s' else s) (if running then events else []) []
while-Follows true s s' events h = h
while-Follows false s s' events h = unchanged-Follows s

sim_turn-Follows : (s : Sim) (a : Activity) → Follows s (sim_turn s a) (taken s a) (accepted s a)
unfolding sim_turn taken accepted
sim_turn-Follows s (submitted verb value) =
    ((unchanged-Follows s).0, submitted-Follows s verb value)
sim_turn-Follows s read = taken_out-Follows s s.out.items
sim_turn-Follows s receive =
    while-Follows s.running s (on_receive s s.commands.items) (first s.commands.items)
      (received-Follows s s.commands.items refl)
sim_turn-Follows s (ticked now wave swr cancelled) =
    while-Follows s.running s (on_ticked s now wave swr cancelled) (SimEvent.ticked wave swr ∷ [])
      (ticked-Follows s now wave swr cancelled)
sim_turn-Follows s done =
    elim s.running as (λ b. Follows s (if b then record s { running = false } else s) [] []) [
      | true ↦ unchanged-Follows s
      | false ↦ unchanged-Follows s
    ]

-- Whatever the interleaving: the state is the one before with the events that the loop took applied in
-- their order, and the queue together with the accepted commands is the commands of those events, first
-- in first out, followed by what still waits.
pub run_sim-Follows :
    (s : Sim) (as' : List Activity)
    → Follows s (run_sim s as') (all_taken s as') (all_accepted s as')
unfolding run_sim all_taken all_accepted
run_sim-Follows s [] = unchanged-Follows s
run_sim-Follows s (a ∷ as') = after (sim_turn-Follows s a) (run_sim-Follows (sim_turn s a) as')
  where
    after :
        Follows s (sim_turn s a) (taken s a) (accepted s a)
        → Follows
            (sim_turn s a)
            (run_sim (sim_turn s a) as')
            (all_taken (sim_turn s a) as')
            (all_accepted (sim_turn s a) as')
        → Follows s
            (run_sim (sim_turn s a) as')
            (taken s a ++ all_taken (sim_turn s a) as')
            (accepted s a ++ all_accepted (sim_turn s a) as')
    after (e, q) (es, qs) = (
      es
          ∙ ap (λ x. simulate x (all_taken (sim_turn s a) as')) e
          ∙ sym (simulate-append (taken s a) (all_taken (sim_turn s a) as') s.state),
      sym (append_assoc s.commands.items (accepted s a) _)
          ∙ ap (λ x. x ++ all_accepted (sim_turn s a) as') q
          ∙ append_assoc (commands_of (taken s a)) (sim_turn s a).commands.items _
          ∙ ap (λ x. commands_of (taken s a) ++ x) qs
          ∙ sym (
              append_assoc (commands_of (taken s a)) (commands_of (all_taken (sim_turn s a) as')) _)
          ∙ ap (λ x. x ++ (run_sim (sim_turn s a) as').commands.items)
              (sym (commands_of-append (taken s a) (all_taken (sim_turn s a) as'))),
    )

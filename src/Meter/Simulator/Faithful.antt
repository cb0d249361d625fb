-- ===== src/Meter/Simulator/Faithful.antt =====
-- The loop of the simulator against the meter's rules (simulator.go, Run and applyCommand).
use lp_700_server.Prelude.{
  ℕ, zero, suc, ◌+◌, ◌%◌, ◌<◌, ◌≤◌, ◌≡◌, ◌≢◌, refl, sym, ◌⊎◌, inl, inr, ◌↔◌, Bool, true, false,
  String, str_eq, Option, some, subst, List, [], ◌∷◌, length, get_or, drop, leb, arith, Bool-cases,
  if◌then◌else◌,
}
use lp_700_server.Prelude.Int.{ℤ, pos, negsuc}
use lp_700_server.Meter.Snapshot.{Snapshot, range_names, peak_mode_names, top_mode_names}
use lp_700_server.Meter.Command.{verb_available_in_state}
use lp_700_server.Meter.Command.Wire.{verb_available-refuses_iff}
use lp_700_server.Meter.Writes.{Command}
use lp_700_server.Meter.Simulator.{
  initial, apply_command, tick, select_in, next_in, step_channel, index_in_slice,
}

-- A command that the hub refuses because of CH Auto would have changed nothing.
pub refused_is_inert :
    (s : Snapshot) (cmd : Command)
    → verb_available_in_state cmd.verb (some s) ≢ ""
    → apply_command s cmd ≡ s
refused_is_inert s cmd h = inert ((verb_available-refuses_iff cmd.verb (some s)).0 h)
  where
    on_auto :
        (t : Snapshot)
        → ◌≡◌ {A = Option Snapshot} (some s) (some t)
        → t.auto_channel ≡ true
        → s.auto_channel ≡ true
    on_auto t e a = ground arith

    inert :
        ((t : Snapshot) × (◌≡◌ {A = Option Snapshot} (some s) (some t))
          × (t.auto_channel ≡ true)
          × ((cmd.verb ≡ "range_step") ⊎ (cmd.verb ≡ "alarm_toggle")))
        → apply_command s cmd ≡ s
    inert (t, e, a, inl v) = unfold apply_command in rw v (rw (on_auto t e a) refl)
    inert (t, e, a, inr v) = unfold apply_command in rw v (rw (on_auto t e a) refl)

abbrev pub IsIn : String → List String → Type 0
IsIn v [] = ⊥
IsIn v (n ∷ ns) = (v ≡ n) ⊎ IsIn v ns

get_or-IsIn : (ns : List String) (i : ℕ) → i < length ns → IsIn (get_or ns i "") ns
get_or-IsIn [] i h = ground arith
get_or-IsIn (n ∷ ns) zero h = inl refl
get_or-IsIn (n ∷ ns) (suc i) h = inr (get_or-IsIn ns i (ground arith))

-- The names that the state shows are those of the tables.
abbrev pub IsNamed : Snapshot → Type 0
IsNamed s =
    IsIn s.range range_names × IsIn s.peak_mode peak_mode_names × IsIn s.top_mode top_mode_names

pub initial-IsNamed : IsNamed initial
initial-IsNamed = (inr (inr (inr (inr (inl refl)))), inl refl, inl refl)

next_in-IsIn : (n : String) (ns : List String) (v : String) → IsIn (next_in (n ∷ ns) v) (n ∷ ns)
unfolding next_in
next_in-IsIn n ns v =
    get_or-IsIn (n ∷ ns) ((index_in_slice (n ∷ ns) v + 1) % suc (length ns)) (ground arith)

select_in-IsIn :
    (n : String) (ns : List String) (v : String) (value : ℤ)
    → IsIn (select_in (n ∷ ns) v value) (n ∷ ns)
unfolding select_in
select_in-IsIn n ns v (negsuc i) = next_in-IsIn n ns v
select_in-IsIn n ns v (pos i) = elim (Bool-cases (leb (suc (length ns)) i)) [
  | inl e ↦ subst (λ b. Selected b) (sym e) (next_in-IsIn n ns v)
  | inr e ↦ subst (λ b. Selected b) (sym e) (get_or-IsIn (n ∷ ns) i (ground arith))
]
  where
    Selected : Bool → Type 0
    Selected b = IsIn (if b then next_in (n ∷ ns) v else get_or (n ∷ ns) i "") (n ∷ ns)

step_channel-IsNamed : (s : Snapshot) (value : ℤ) → IsNamed s → IsNamed (step_channel s value)
unfolding step_channel
step_channel-IsNamed s (pos ℕ.zero) h = h
step_channel-IsNamed s (pos (suc n)) h = h
step_channel-IsNamed s (negsuc n) h = h

setup-IsIn : (b : Bool) → IsIn (if b then "power_swr" else "setup") top_mode_names
setup-IsIn true = inl refl
setup-IsIn false = inr (inr (inr (inl refl)))

next_top : (v : String) → IsIn (next_in top_mode_names v) top_mode_names
next_top v = next_in-IsIn "power_swr" ("waveform" ∷ "spectrum" ∷ "setup" ∷ []) v

select_peak : (v : String) (value : ℤ) → IsIn (select_in peak_mode_names v value) peak_mode_names
select_peak v value = select_in-IsIn "peak_hold" ("average" ∷ "tune" ∷ []) v value

select_range : (v : String) (value : ℤ) → IsIn (select_in range_names v value) range_names
select_range v value = select_in-IsIn "5W" (drop 1 range_names) v value

pub apply_command-IsNamed :
    (s : Snapshot) (cmd : Command) → IsNamed s → IsNamed (apply_command s cmd)
unfolding apply_command
apply_command-IsNamed s cmd (r, p, t) = elim (Bool-cases (str_eq cmd.verb "mode_step")) [
  | inl e ↦ rw e (r, p, next_top s.top_mode)
  | inr e1 ↦ elim (Bool-cases (str_eq cmd.verb "channel_step")) [
    | inl e ↦ rw e1 (rw e (step_channel-IsNamed s cmd.value (r, p, t)))
    | inr e2 ↦ elim (Bool-cases (str_eq cmd.verb "range_step")) [
      | inl e ↦ elim (Bool-cases s.auto_channel) [
        | inl a ↦ rw e1 (rw e2 (rw e (rw a (r, p, t))))
        | inr a ↦ rw e1 (rw e2 (rw e (rw a (select_range s.range cmd.value, p, t))))
      ]
      | inr e3 ↦ elim (Bool-cases (str_eq cmd.verb "alarm_toggle")) [
        | inl e ↦ elim (Bool-cases s.auto_channel) [
          | inl a ↦ rw e1 (rw e2 (rw e3 (rw e (rw a (r, p, t)))))
          | inr a ↦ rw e1 (rw e2 (rw e3 (rw e (rw a (r, p, t)))))
        ]
        | inr e4 ↦ elim (Bool-cases (str_eq cmd.verb "peak_toggle")) [
          | inl e ↦ rw e1 (rw e2 (rw e3 (rw e4 (rw e (r, select_peak s.peak_mode cmd.value, t)))))
          | inr e5 ↦ elim (Bool-cases (str_eq cmd.verb "setup")) [
            | inl e ↦ rw e1 (
                rw e2 (rw e3 (rw e4 (rw e5 (rw e (r, p, setup-IsIn (str_eq s.top_mode "setup")))))))
            | inr e ↦ rw e1 (rw e2 (rw e3 (rw e4 (rw e5 (rw e (r, p, t))))))
          ]
        ]
      ]
    ]
  ]
]

-- What the loop of Run meets.
pub data SimEvent : Type 0 where
  command : Command → SimEvent
  ticked : ℤ → ℕ → SimEvent

sim_step : Snapshot → SimEvent → Snapshot
sim_step s (command cmd) = apply_command s cmd
sim_step s (ticked wave swr) = tick s wave swr

-- The state after some rounds of the loop.
unfoldable pub simulate : Snapshot → List SimEvent → Snapshot
unfolding sim_step
simulate s [] = s
simulate s (e ∷ es) = simulate (sim_step s e) es

-- Whatever commands and ticks come, range, peak mode and top mode are names of the tables.
pub simulate-IsNamed : (s : Snapshot) (es : List SimEvent) → IsNamed s → IsNamed (simulate s es)
unfolding simulate
simulate-IsNamed s [] h = h
simulate-IsNamed s (command cmd ∷ es) h =
    simulate-IsNamed (apply_command s cmd) es (apply_command-IsNamed s cmd h)
simulate-IsNamed s (ticked wave swr ∷ es) h =
    simulate-IsNamed (tick s wave swr) es (unfold tick in h)

-- A tick shows a peak power of at most the held peak, which never falls, and trips the alarm exactly
-- if the alarm is on and one of its thresholds is passed.
pub tick_lem :
    (s : Snapshot) (wave : ℤ) (swr : ℕ)
    → ((tick s wave swr).power_peak ≤ (tick s wave swr).peak_hold)
      × (s.peak_hold ≤ (tick s wave swr).peak_hold)
      × (((tick s wave swr).alarm_tripped ≡ true) ↔ (
          (s.alarm_enabled ≡ true)
          × ((s.alarm_swr < (tick s wave swr).swr)
              ⊎ (s.alarm_power < (tick s wave swr).power_avg))))
unfolding tick
tick_lem s (pos n) swr = (ground arith, ground arith, ground arith)
tick_lem s (negsuc n) swr = (ground arith, ground arith, ground arith)

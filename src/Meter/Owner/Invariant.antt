-- ===== src/Meter/Owner/Invariant.antt =====
-- The owner's loop over events, case by case (owner.go, runOnce).
use lp_700_server.Prelude.{
  ℕ, ◌+◌, ◌≡◌, ◌≢◌, inl, inr, Bool, true, false, not, ◌&&◌, str_eq, List, [], ◌∷◌, ◌++◌, Option,
  none, some, leb, if◌then◌else◌, length, lengths, arith, All, Bool-cases, subst,
}
use lp_700_server.Prelude.Chan.{make}
use lp_700_server.Prelude.Result.{Result-cases}
use lp_700_server.Meter.Snapshot.{Bytes, Snapshot}
use lp_700_server.Meter.Frame.{report_size, is_command_echo, is_likely_telemetry, report_of}
use lp_700_server.Meter.Decode.{decode}
use lp_700_server.Meter.Writes.{
  Command, Writer, OwnerError, panicked, poll_write_failed, write_report,
}
use lp_700_server.Meter.Writes.Drain.{AllKnown, drain_commands-Drained}
use lp_700_server.Meter.Owner.{Owner, publish, on_telemetry, on_sample, on_frame, poll, on_tick}
use lp_700_server.Meter.Owner.Sound.{
  IsWellFormed, HasSoundChannels, either, on_scope-IsWellFormed, on_spectrum-IsWellFormed,
}
use lp_700_server.Meter.Owner.Schedule.{asked, tick_payload-asked}
use lp_700_server.Meter.Owner.Loop.{
  Event, frame, tick, read_error, done, Run, going, returned, start, after_tick, step, run,
  new_owner,
}

on_sample-IsWellFormed :
    (now : ℕ) (o : Owner) (f : Bytes)
    → IsWellFormed o
    → length f ≡ 64
    → IsWellFormed (on_sample now o f)
unfolding on_sample
on_sample-IsWellFormed now o f w h = elim (Bool-cases (leb 5 o.seg_idx)) [
  | inl past ↦
      either IsWellFormed
        (not (str_eq o.last_top_mode "waveform") && not (str_eq o.last_top_mode "spectrum")) _ _ w
        (rw past w)
  | inr room ↦
      either IsWellFormed
        (not (str_eq o.last_top_mode "waveform") && not (str_eq o.last_top_mode "spectrum")) _ _ w
        (rw room (
          either IsWellFormed (str_eq o.last_top_mode "waveform") _ _
            (on_scope-IsWellFormed now o f w h (ground arith))
            (on_spectrum-IsWellFormed now o f w h (ground arith))))
]

-- A change of the fields that the invariant does not read.
publish-IsWellFormed : (o : Owner) (s : Snapshot) → IsWellFormed o → IsWellFormed (publish o s)
unfolding publish
publish-IsWellFormed o s w = record {
  scope_sized = w.scope_sized;
  spectrum_sized = w.spectrum_sized;
  in_cycle = omega arith;
  known = w.known;
  scopes = w.scopes;
  spectra = w.spectra;
}

on_telemetry-IsWellFormed :
    (now : ℕ) (o : Owner) (f : Bytes) → IsWellFormed o → IsWellFormed (on_telemetry now o f)
unfolding on_telemetry
on_telemetry-IsWellFormed now o f w = elim (Result-cases (decode now f)) [
  | inl (s, e) ↦ rw (e, on_telemetry) (publish-IsWellFormed o s w)
  | inr (x, e) ↦ rw (e, on_telemetry) w
]

reset-IsWellFormed : (o : Owner) → IsWellFormed o → IsWellFormed (record o { seg_idx = 0 })
reset-IsWellFormed o w = record {
  scope_sized = w.scope_sized;
  spectrum_sized = w.spectrum_sized;
  in_cycle = omega arith;
  known = w.known;
  scopes = w.scopes;
  spectra = w.spectra;
}

on_frame-IsWellFormed :
    (now : ℕ) (o : Owner) (f : Bytes)
    → IsWellFormed o
    → length f ≡ 64
    → IsWellFormed (on_frame now o f)
unfolding on_frame
on_frame-IsWellFormed now o f w h =
    either IsWellFormed (is_command_echo f) _ _ (reset-IsWellFormed o w) (
      either IsWellFormed (is_likely_telemetry f) _ _ (on_telemetry-IsWellFormed now o f w)
        (on_sample-IsWellFormed now o f w h))

-- An owner that differs in its queue, the bytes written and the counter.
requeued-IsWellFormed :
    (o : Owner) (rest : List Command) (sent' : List Bytes) (n : ℕ)
    → IsWellFormed o
    → AllKnown rest
    → IsWellFormed
        (record o { commands = record o.commands { items = rest }; sent = sent'; tick_n = n })
requeued-IsWellFormed o rest sent' n w k = record {
  scope_sized = w.scope_sized;
  spectrum_sized = w.spectrum_sized;
  in_cycle = w.in_cycle;
  known = k;
  scopes = w.scopes;
  spectra = w.spectra;
}

AllKnown-suffix :
    (pre : List Command) (c : Command) (rest : List Command)
    → AllKnown (pre ++ c ∷ rest)
    → AllKnown rest
AllKnown-suffix [] c rest h = h.1
AllKnown-suffix (d ∷ pre) c rest h = AllKnown-suffix pre c rest h.1

-- How a tick may end: well formed, and without SampleReport's panic.
abbrev TicksOn : Owner × Option OwnerError → Type 0
TicksOn r = IsWellFormed r.0 × (r.1 ≢ some panicked)

poll-TicksOn : (dev : Writer) (o : Owner) → IsWellFormed o → TicksOn (poll dev o)
unfolding poll
poll-TicksOn dev o w =
    rw (tick_payload-asked o.last_top_mode o.tick_n, poll)
      (
        requeued-IsWellFormed o o.commands.items _ o.tick_n w w.known,
        no_panic (write_report dev o.sent (report_of (asked o.last_top_mode o.tick_n))).1,
      )
  where
    no_panic : (done : Bool) → (if done then none else some poll_write_failed) ≢ some panicked
    no_panic true e = cc e
    no_panic false e = cc e

on_tick-TicksOn : (dev : Writer) (o : Owner) → IsWellFormed o → TicksOn (on_tick dev o)
unfolding on_tick
on_tick-TicksOn dev o w = elim (drain_commands-Drained dev o.commands.items o.sent) [
  | inl e ↦ rw e (poll-TicksOn dev _ (requeued-IsWellFormed o [] _ (o.tick_n + 1) w tt))
  | inr (pre, c, rest, s, e) ↦ rw e (
    requeued-IsWellFormed o rest _ o.tick_n w
        (AllKnown-suffix pre c rest (subst AllKnown s w.known)),
    (λ x. cc x),
  )
]

-- The reader passes on frames of the report's size.
abbrev pub IsFull : Event → Type 0
IsFull (frame now f) = length f ≡ report_size
IsFull _ = Unit {0}

-- The loop goes on, or it has returned, but not by a panic; and its state is well formed.
abbrev pub Continues : Run → Type 0
Continues (going o) = IsWellFormed o
Continues (returned o r) = IsWellFormed o × (r ≢ some panicked)

after_tick-Continues : (r : Owner × Option OwnerError) → TicksOn r → Continues (after_tick r)
after_tick-Continues (o, none) (w, h) = w
after_tick-Continues (o, some e) (w, h) = (w, h)

step-Continues :
    (dev : Writer) (o : Owner) (e : Event) → IsWellFormed o → IsFull e → Continues (step dev o e)
unfolding step
step-Continues dev o (frame now f) w h = on_frame-IsWellFormed now o f w h
step-Continues dev o tick w h = after_tick-Continues (on_tick dev o) (on_tick-TicksOn dev o w)
step-Continues dev o read_error w h = (w, (λ x. cc x))
step-Continues dev o done w h = (w, (λ x. cc x))

run-Continues :
    (dev : Writer) (o : Owner) (es : List Event)
    → IsWellFormed o
    → All IsFull es
    → Continues (run dev o es)
unfolding run
run-Continues dev o [] w h = w
run-Continues dev o (e ∷ es) w (h, hs) =
    continue (λ o' k. run-Continues dev o' es k hs) (step dev o e) (step-Continues dev o e w h)
  where
    continue :
        ((o' : Owner) → IsWellFormed o' → Continues (run dev o' es))
        → (r : Run) → Continues r
        → Continues (elim r [ going o' ↦ run dev o' es | returned o' x ↦ returned o' x ])
    continue rest (going o') k = rest o' k
    continue rest (returned o' x) k = k

start-IsWellFormed : (o : Owner) → HasSoundChannels o → IsWellFormed (start o)
unfolding start
start-IsWellFormed o (k, s, p) = record {
  scope_sized = grind lengths;
  spectrum_sized = grind lengths;
  in_cycle = omega arith;
  known = k;
  scopes = s;
  spectra = p;
}

-- Whatever full reports the meter sends and however its writes fail, in any order of frames, ticks
-- and errors, from channels that are sound: the two sample buffers keep their 320 bytes and a cycle
-- takes at most five segments, the queue holds known verbs only, every scope and spectrum frame on
-- its way to the hub is complete and bears a channel from 1 to 4 that was not on Auto, and
-- SampleReport's panic is not met. The channels are sound again when the loop returns.
pub run-IsWellFormed :
    (dev : Writer) (o : Owner) (es : List Event)
    → HasSoundChannels o
    → All IsFull es
    → Continues (run dev (start o) es)
run-IsWellFormed dev o es h f = run-Continues dev (start o) es (start-IsWellFormed o h) f

-- The first session of an owner on new channels of any capacities, without a further condition on what
-- the channels hold.
pub new_owner-IsWellFormed :
    (dev : Writer) (m n k : ℕ) (es : List Event)
    → All IsFull es
    → Continues (run dev (start (new_owner (make m) (some (make n)) (some (make k)))) es)
new_owner-IsWellFormed dev m n k es full =
    run-IsWellFormed dev (new_owner (make m) (some (make n)) (some (make k))) es
      (unfold new_owner in (tt, tt, tt)) full

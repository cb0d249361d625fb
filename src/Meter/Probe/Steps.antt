-- ===== src/Meter/Probe/Steps.antt =====
-- internal/lpmeter/probe.go: reading the meter's state, and pressing a button until it is as wanted
-- (readCurrentMode, readCurrentSnap, stepToMode, stepToChannel, stepToRange).
pub mod Cycle
pub mod Reaches
pub mod Commands
use lp_700_server.Prelude.{
  ℕ, zero, suc, ◌+◌, Bool, true, false, not, ◌&&◌, String, str_eq, List, [], ◌∷◌, ◌++◌, Option,
  none, some, if◌then◌else◌,
}
use lp_700_server.Prelude.Int.{ℤ, int_eq}
use lp_700_server.Prelude.Result.{Result, ok, err}
use lp_700_server.Meter.Snapshot.{Bytes, Snapshot}
use lp_700_server.Meter.Frame.{report_of, poll_report, cmd_mode, cmd_channel, cmd_range}
use lp_700_server.Meter.Decode.{DecodeError, decode}
use lp_700_server.Meter.Probe.Print.{Line, observed_mode, observed_channel, observed_range}
use lp_700_server.Meter.Probe.Devices.{
  ProbeError, step_failed, no_state, needs_manual_channel, mode_unreached, range_unreached,
  channel_unreached,
}
use lp_700_server.Meter.Probe.Link.{
  Link, Event, packet, broken, timed_out, cancelled, Run, print, send_report, await, pause,
  flush_reads,
}

module _ (link : Link) where
  abbrev pub Read : Type 0
  Read = Run link × Option Snapshot

  on_decoded : (Run link → Read) → Run link → Result DecodeError Snapshot → Read
  on_decoded next run (ok s) = (run, some s)
  on_decoded next run (err _) = next run

  -- The cases of the `select`; `next` is the next round of the loop.
  unfoldable pub on_answer : (Run link → Read) → Run link → Event → Read
  unfolding on_decoded
  on_answer next run (packet buf) = on_decoded next run (decode (link.now run.world) buf)
  on_answer next run broken = (run, none)
  on_answer next run timed_out = next run
  on_answer next run cancelled = (run, none)

  unfoldable pub read_loop : ℕ → Run link → Read
  unfolding on_answer
  read_loop zero run = (run, none)
  read_loop (suc tries) run =
      let (w, event) = await link 200 run.world in
      on_answer (read_loop tries) (record run { world = w }) event

  -- `readCurrentSnap`: whether the poll could be written is not looked at.
  unfoldable pub read_current_snap : Run link → Read
  unfolding read_loop
  read_current_snap run = read_loop 4 (send_report link poll_report run).0

  top_mode_of : Option Snapshot → String
  top_mode_of none = ""
  top_mode_of (some s) = s.top_mode

  -- `readCurrentMode`: the same loop; an empty text where it has no snapshot.
  unfoldable pub read_current_mode : Run link → Run link × String
  unfolding read_loop top_mode_of
  read_current_mode run =
      let (run', s) = read_loop 4 (send_report link poll_report run).0 in (run', top_mode_of s)

  abbrev pub Stepped : Type 0
  Stepped = Run link × Option ProbeError

  pressed : (Run link → Stepped) → Run link × Bool → Stepped
  pressed next (run, false) = (run, some step_failed)
  pressed next (run, true) = next (flush_reads link 80 (pause link 150 run))

  -- The end of each body: the command of a button, a pause, and what comes in meanwhile discarded.
  unfoldable pub press : ℕ → (Run link → Stepped) → Run link → Stepped
  unfolding pressed
  press cmd next run = pressed next (send_report link (report_of cmd) run)

  -- stepToMode, with the rounds left and the number of the next. The text that the source returns
  -- beside the error is ignored by its callers.
  mode_round : String → ℕ → (Run link → Stepped) → Run link × String → Stepped
  unfolding press
  mode_round target step next (run, cur) =
      let run' = print link (observed_mode cur target step) run in
      if str_eq cur target then (run', none) else press cmd_mode next run'

  unfoldable pub mode_loop : String → ℕ → ℕ → Run link → Stepped
  unfolding mode_round
  mode_loop target zero step run = (run, some (mode_unreached target))
  mode_loop target (suc left) step run =
      mode_round target step (mode_loop target left (suc step)) (read_current_mode run)

  unfoldable pub step_to_mode : String → ℕ → Run link → Stepped
  unfolding mode_loop
  step_to_mode target max_steps run = mode_loop target max_steps 0 run

  unfoldable pub channel_round : ℤ → ℕ → (Run link → Stepped) → Read → Stepped
  unfolding press
  channel_round target step next (run, none) = (run, some no_state)
  channel_round target step next (run, some s) =
      let run' = print link (observed_channel s.channel s.auto_channel target step) run in
      if not s.auto_channel && int_eq s.channel target
      then (run', none)
      else press cmd_channel next run'

  unfoldable pub channel_loop : ℤ → ℕ → ℕ → Run link → Stepped
  unfolding channel_round
  channel_loop target zero step run = (run, some (channel_unreached target))
  channel_loop target (suc left) step run =
      channel_round target step (channel_loop target left (suc step)) (read_current_snap run)

  unfoldable pub step_to_channel : ℤ → Run link → Stepped
  unfolding channel_loop
  step_to_channel target run = channel_loop target 8 0 run

  unfoldable pub range_round : String → ℕ → (Run link → Stepped) → Read → Stepped
  unfolding press
  range_round target step next (run, none) = (run, some no_state)
  range_round target step next (run, some s) =
      let run' = print link (observed_range s.range target step) run in
      if str_eq s.range target
      then (run', none)
      else if s.auto_channel
      then (run', some needs_manual_channel)
      else press cmd_range next run'

  unfoldable pub range_loop : String → ℕ → ℕ → Run link → Stepped
  unfolding range_round
  range_loop target zero step run = (run, some (range_unreached target))
  range_loop target (suc left) step run =
      range_round target step (range_loop target left (suc step)) (read_current_snap run)

  unfoldable pub step_to_range : String → Run link → Stepped
  unfolding range_loop
  step_to_range target run = range_loop target 14 0 run

-- ===== src/Meter/Probe/Steps/Commands.antt =====
-- The commands that the step loops write (probe.go, stepToMode, stepToChannel and stepToRange).
use lp_700_server.Prelude.{
  ℕ, zero, suc, ◌≤◌, inl, inr, Bool, true, false, not, ◌&&◌, String, str_eq, none, some, arith,
  Bool-cases,
}
use lp_700_server.Prelude.Int.{ℤ, int_eq}
use lp_700_server.Prelude.Result.{Result, ok, err}
use lp_700_server.Meter.Snapshot.{Snapshot}
use lp_700_server.Meter.Frame.{cmd_mode, cmd_channel, cmd_range}
use lp_700_server.Meter.Decode.{DecodeError, decode}
use lp_700_server.Meter.Probe.Link.{Link, Event, packet, broken, timed_out, cancelled, Run, await}
use lp_700_server.Meter.Probe.Link.Written.{
  OnlyCommands, send_report-OnlyCommands, poll-OnlyCommands,
}
use lp_700_server.Meter.Probe.Steps.{
  Read, Stepped, on_decoded, on_answer, read_loop, read_current_snap, read_current_mode, pressed,
  press, mode_round, mode_loop, step_to_mode, channel_round, channel_loop, step_to_channel,
  range_round, range_loop, step_to_range,
}

module _ (link : Link) (limit : ℕ) where
  abbrev Only : Run link → Type 0
  Only run = OnlyCommands link limit run

  abbrev KeepsRead : (Run link → Read link) → Type 0
  KeepsRead next = (run : Run link) → Only run → Only (next run).0

  on_decoded-Only :
      (next : Run link → Read link) (run : Run link) (r : Result DecodeError Snapshot)
      → KeepsRead next
      → Only run
      → Only (on_decoded link next run r).0
  unfolding on_decoded
  on_decoded-Only next run (ok s) k h = h
  on_decoded-Only next run (err e) k h = k run h

  on_answer-Only :
      (next : Run link → Read link) (run : Run link) (e : Event)
      → KeepsRead next
      → Only run
      → Only (on_answer link next run e).0
  unfolding on_answer
  on_answer-Only next run (packet buf) k h =
      on_decoded-Only next run (decode (link.now run.world) buf) k h
  on_answer-Only next run broken k h = h
  on_answer-Only next run timed_out k h = k run h
  on_answer-Only next run cancelled k h = h

  read_loop-Only : (tries : ℕ) → KeepsRead (read_loop link tries)
  unfolding read_loop
  read_loop-Only zero run h = h
  read_loop-Only (suc tries) run h =
      on_answer-Only (read_loop link tries) _ (await link 200 run.world).1 (read_loop-Only tries) h

  pub read_current_snap-Only :
      (run : Run link)
      → b'0' ≤ limit
      → OnlyCommands link limit run
      → OnlyCommands link limit (read_current_snap link run).0
  unfolding read_current_snap
  read_current_snap-Only run low h = read_loop-Only 4 _ (poll-OnlyCommands link limit run low h)

  abbrev Keeps : (Run link → Stepped link) → Type 0
  Keeps next = (run : Run link) → Only run → Only (next run).0

  pressed-Only :
      (next : Run link → Stepped link) (r : Run link × Bool)
      → Keeps next
      → Only r.0
      → Only (pressed link next r).0
  unfolding pressed
  pressed-Only next (run, false) k h = h
  pressed-Only next (run, true) k h = k _ h

  press-Only :
      (cmd : ℕ) (next : Run link → Stepped link) (run : Run link)
      → b'0' ≤ cmd
      → cmd ≤ limit
      → Keeps next
      → Only run
      → Only (press link cmd next run).0
  unfolding press
  press-Only cmd next run lo hi k h =
      pressed-Only next _ k (send_report-OnlyCommands link limit cmd run lo hi h)

module _ (link : Link) (limit : ℕ) (high : b'9' ≤ limit) where
  mode_loop-Only :
      (target : String) (left step : ℕ) → Keeps link limit (mode_loop link target left step)
  unfolding mode_loop mode_round read_current_mode
  mode_loop-Only target zero step run h = h
  mode_loop-Only target (suc left) step run h =
      elim (Bool-cases (str_eq (read_current_mode link run).1 target)) [
        | inl e ↦ rw e (polled h)
        | inr e ↦ rw e (
            press-Only link limit cmd_mode (mode_loop link target left (suc step)) _ (omega arith)
              (omega arith) (mode_loop-Only target left (suc step)) (polled h))
      ]
    where
      polled : Only link limit run → Only link limit (read_current_mode link run).0
      polled h' = read_loop-Only link limit 4 _ (poll-OnlyCommands link limit run (omega arith) h')

  pub step_to_mode-Only :
      (target : String) (max_steps : ℕ) (run : Run link)
      → OnlyCommands link limit run
      → OnlyCommands link limit (step_to_mode link target max_steps run).0
  unfolding step_to_mode
  step_to_mode-Only target max_steps run h = mode_loop-Only target max_steps 0 run h

  channel_round-Only :
      (target : ℤ) (step : ℕ) (next : Run link → Stepped link) (r : Read link)
      → Keeps link limit next
      → Only link limit r.0
      → Only link limit (channel_round link target step next r).0
  unfolding channel_round
  channel_round-Only target step next (run, none) k h = h
  channel_round-Only target step next (run, some s) k h =
      elim (Bool-cases (not s.auto_channel && int_eq s.channel target)) [
        | inl e ↦ rw e h
        | inr e ↦ rw e (press-Only link limit cmd_channel next _ (omega arith) (omega arith) k h)
      ]

  channel_loop-Only :
      (target : ℤ) (left step : ℕ) → Keeps link limit (channel_loop link target left step)
  unfolding channel_loop
  channel_loop-Only target zero step run h = h
  channel_loop-Only target (suc left) step run h =
      channel_round-Only target step (channel_loop link target left (suc step))
        (read_current_snap link run) (channel_loop-Only target left (suc step))
        (read_current_snap-Only link limit run (omega arith) h)

  pub step_to_channel-Only :
      (target : ℤ) (run : Run link)
      → OnlyCommands link limit run
      → OnlyCommands link limit (step_to_channel link target run).0
  unfolding step_to_channel
  step_to_channel-Only target run h = channel_loop-Only target 8 0 run h

  range_round-Only :
      (target : String) (step : ℕ) (next : Run link → Stepped link) (r : Read link)
      → Keeps link limit next
      → Only link limit r.0
      → Only link limit (range_round link target step next r).0
  unfolding range_round
  range_round-Only target step next (run, none) k h = h
  range_round-Only target step next (run, some s) k h = elim (Bool-cases (str_eq s.range target)) [
    | inl e ↦ rw e h
    | inr e ↦ elim (Bool-cases s.auto_channel) [
      | inl f ↦ rw e (rw f h)
      | inr f ↦ rw e (rw f (press-Only link limit cmd_range next _ (omega arith) (omega arith) k h))
    ]
  ]

  range_loop-Only :
      (target : String) (left step : ℕ) → Keeps link limit (range_loop link target left step)
  unfolding range_loop
  range_loop-Only target zero step run h = h
  range_loop-Only target (suc left) step run h =
      range_round-Only target step (range_loop link target left (suc step))
        (read_current_snap link run) (range_loop-Only target left (suc step))
        (read_current_snap-Only link limit run (omega arith) h)

  pub step_to_range-Only :
      (target : String) (run : Run link)
      → OnlyCommands link limit run
      → OnlyCommands link limit (step_to_range link target run).0
  unfolding step_to_range
  step_to_range-Only target run h = range_loop-Only target 14 0 run h

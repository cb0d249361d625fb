-- ===== src/Meter/Probe/Capture.antt =====
-- internal/lpmeter/probe.go, captureOne: one command sent over and over, and the frames that come back,
-- of which a repeated one is only counted.
pub mod Transcript
pub mod Commands
use lp_700_server.Prelude.{
  ℕ, zero, suc, ◌+◌, Bool, true, false, List, [], ◌∷◌, ◌++◌, Option, none, some, ltb, if◌then◌else◌,
}
use lp_700_server.Prelude.Result.{ok, err}
use lp_700_server.Meter.Snapshot.{Bytes, Snapshot, bytes_eq}
use lp_700_server.Meter.Frame.{report_of}
use lp_700_server.Meter.Decode.{decode}
use lp_700_server.Meter.Probe.Print.{Line, command_header, full_frame, more_identical, silence}
use lp_700_server.Meter.Probe.Devices.{ProbeError, command_failed, read_failed}
use lp_700_server.Meter.Probe.Link.{
  Link, Event, packet, broken, timed_out, cancelled, Run, print, send_report, await, pause,
  flush_reads,
}

-- The variables `prevFrame`, `dupCount` and `lastSnap`.
pub record Tally : Type 0 where
  pub prev : Option Bytes
  pub dups : ℕ
  pub last : Option Snapshot

abbrev pub fresh : Tally
fresh = record { prev = none; dups = 0; last = none }

is_repeat : Option Bytes → Bytes → Bool
is_repeat none buf = false
is_repeat (some p) buf = bytes_eq p buf

-- `lastSnap = &snap`, where the frame decodes.
unfoldable pub note_snapshot : ℕ → Bytes → Option Snapshot → Option Snapshot
note_snapshot now buf last = elim (decode now buf) [ ok s ↦ some s | err _ ↦ last ]

module _ (link : Link) where
  -- The tally once a command has been sent, and the error that ended it.
  abbrev pub Outcome : Type 0
  Outcome = Run link × Option Snapshot × Option ProbeError

  -- `flushDups`; the count is reset by the callers.
  unfoldable pub flush_dups : Tally → Run link → Run link
  flush_dups t run = if ltb 0 t.dups then print link (more_identical t.dups) run else run

  -- A frame that arrived: what is noted, and what is printed.
  unfoldable pub on_packet : ℕ → Bytes → Tally → Run link → Tally × Run link
  unfolding is_repeat flush_dups
  on_packet i buf t run =
      let seen = record t { last = note_snapshot (link.now run.world) buf t.last } in
      if is_repeat t.prev buf then (record seen { dups = t.dups + 1 }, run) else (
        record seen { prev = some buf; dups = 0 },
        print link (full_frame i buf) (flush_dups t run),
      )

  unfoldable pub on_silence : ℕ → Tally → Run link → Tally × Run link
  unfolding flush_dups
  on_silence i t run =
      (record t { prev = none; dups = 0 }, print link (silence i) (flush_dups t run))

  abbrev stop : Tally → Run link → ProbeError → Outcome
  stop t run e = (flush_dups t run, t.last, some e)

  abbrev moved : Run link → link.World → Run link
  moved run w = record run { world = w }

  -- The cases of the `select`. `next` goes on with the loop, after the pause at the end of its body.
  unfoldable pub on_event : ℕ → (Tally → Run link → Outcome) → Tally → Run link → Event → Outcome
  unfolding flush_dups
  on_event i next t run (packet buf) =
      let (t', run') = on_packet i buf t run in next t' (pause link 40 run')
  on_event i next t run broken = stop t run read_failed
  on_event i next t run timed_out =
      let (t', run') = on_silence i t run in next t' (pause link 40 run')
  on_event i next t run cancelled = stop t run ProbeError.cancelled

  unfoldable pub after_write :
      ℕ → ℕ → (Tally → Run link → Outcome) → Tally → Run link × Bool → Outcome
  unfolding on_event flush_dups
  after_write cmd i next t (run, false) = stop t run (command_failed cmd i)
  after_write cmd i next t (run, true) =
      let (w, event) = await link 150 run.world in on_event i next t (moved run w) event

  -- The `for` loop with `left` rounds to go, of which the next is number `i`.
  unfoldable pub capture_loop : ℕ → ℕ → ℕ → Tally → Run link → Outcome
  unfolding flush_dups after_write
  capture_loop cmd zero i t run = (flush_dups t run, t.last, none)
  capture_loop cmd (suc left) i t run =
      after_write cmd i (capture_loop cmd left (suc i)) t (send_report link (report_of cmd) run)

  unfoldable pub capture_one : ℕ → ℕ → Run link → Outcome
  unfolding capture_loop
  capture_one cmd n run =
      capture_loop cmd n 0 fresh (print link (command_header cmd) (flush_reads link 20 run))

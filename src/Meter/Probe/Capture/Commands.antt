-- ===== src/Meter/Probe/Capture/Commands.antt =====
-- The commands that a capture writes (probe.go, captureOne).
use lp_700_server.Prelude.{ℕ, zero, suc, ◌≤◌, ◌≡◌, inl, inr, Bool, true, false, arith, Bool-cases}
use lp_700_server.Meter.Snapshot.{Bytes}
use lp_700_server.Meter.Probe.Link.{Link, Event, packet, broken, timed_out, cancelled, Run}
use lp_700_server.Meter.Probe.Link.Written.{OnlyCommands, send_report-OnlyCommands}
use lp_700_server.Meter.Probe.Capture.{
  Tally, fresh, is_repeat, flush_dups, on_packet, on_silence, on_event, after_write, capture_loop,
  capture_one, Outcome,
}

module _ (link : Link) (limit : ℕ) where
  abbrev Only : Run link → Type 0
  Only run = OnlyCommands link limit run

  flush_dups-sent : (t : Tally) (run : Run link) → (flush_dups link t run).sent ≡ run.sent
  unfolding flush_dups
  flush_dups-sent t run = ground arith

  flush_dups-Only : (t : Tally) (run : Run link) → Only run → Only (flush_dups link t run)
  flush_dups-Only t run h = rw (flush_dups-sent t run) h

  on_packet-Only :
      (i : ℕ) (buf : Bytes) (t : Tally) (run : Run link)
      → Only run
      → Only (on_packet link i buf t run).1
  unfolding on_packet
  on_packet-Only i buf t run h = elim (Bool-cases (is_repeat t.prev buf)) [
    | inl e ↦ rw e h
    | inr e ↦ rw e (flush_dups-Only t run h)
  ]

  abbrev KeepsTally : (Tally → Run link → Outcome link) → Type 0
  KeepsTally next = (t : Tally) (run : Run link) → Only run → Only (next t run).0

  on_event-Only :
      (i : ℕ) (next : Tally → Run link → Outcome link)
      → KeepsTally next
      → (t : Tally) (run : Run link) (e : Event) → Only run
      → Only (on_event link i next t run e).0
  unfolding on_event on_silence
  on_event-Only i next k t run (packet buf) h = k _ _ (on_packet-Only i buf t run h)
  on_event-Only i next k t run broken h = flush_dups-Only t run h
  on_event-Only i next k t run timed_out h = k _ _ (flush_dups-Only t run h)
  on_event-Only i next k t run cancelled h = flush_dups-Only t run h

  after_write-Only :
      (cmd i : ℕ) (next : Tally → Run link → Outcome link)
      → KeepsTally next
      → (t : Tally) (r : Run link × Bool) → Only r.0
      → Only (after_write link cmd i next t r).0
  unfolding after_write
  after_write-Only cmd i next k t (run, false) h = flush_dups-Only t run h
  after_write-Only cmd i next k t (run, true) h = on_event-Only i next k t _ _ h

  capture_loop-Only :
      (cmd left i : ℕ) → b'0' ≤ cmd → cmd ≤ limit → KeepsTally (capture_loop link cmd left i)
  unfolding capture_loop
  capture_loop-Only cmd zero i lo hi t run h = flush_dups-Only t run h
  capture_loop-Only cmd (suc left) i lo hi t run h =
      after_write-Only cmd i (capture_loop link cmd left (suc i))
        (capture_loop-Only cmd left (suc i) lo hi) t _
        (send_report-OnlyCommands link limit cmd run lo hi h)

  pub capture_one-Only :
      (cmd n : ℕ) (run : Run link)
      → b'0' ≤ cmd
      → cmd ≤ limit
      → OnlyCommands link limit run
      → OnlyCommands link limit (capture_one link cmd n run).0
  unfolding capture_one
  capture_one-Only cmd n run lo hi h = capture_loop-Only cmd n 0 lo hi fresh _ h

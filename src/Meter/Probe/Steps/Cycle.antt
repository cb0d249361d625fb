-- ===== src/Meter/Probe/Steps/Cycle.antt =====
-- A meter on the other end of the link that answers a poll, and that a button moves on by one place
-- (probe.go, readCurrentSnap and the step loops). It states what the comments of the source say of the
-- firmware: a button goes through its states in a circle, and nothing else moves it.
use lp_700_server.Prelude.{
  ℕ, zero, suc, ◌+◌, ◌<◌, ◌≡◌, refl, ◌∙◌, Bool, true, false, [], ◌∷◌, ◌++◌, some, arith, ◌==◌,
  if◌then◌else◌, length, length-append,
}
use lp_700_server.Prelude.Result.{ok}
use lp_700_server.Meter.Snapshot.{Bytes, Snapshot}
use lp_700_server.Meter.Frame.{report_of, poll_report}
use lp_700_server.Meter.Decode.{decode}
use lp_700_server.Meter.Writes.{with_report_id}
use lp_700_server.Meter.Probe.Link.{
  Link, Event, packet, broken, timed_out, cancelled, Run, wrote_report, send_report, pause, discard,
  drain, flush_reads,
}
use lp_700_server.Meter.Probe.Steps.{Stepped, on_answer, read_loop, read_current_snap, press}

-- The place after `p` on a circle.
abbrev pub next_place : ℕ → ℕ → ℕ
next_place size p = if p + 1 == size then 0 else p + 1

-- The world while the answer to a poll is awaited.
abbrev pub polled : (link : Link) → link.World → link.World
polled link w = link.start_timer 200 (link.write (with_report_id poll_report) w).0

-- `cmd` is the button's command, and `Shows p` what a snapshot at place `p` is like.
pub record IsCycling (link : Link) (cmd : ℕ) (size : ℕ) (Shows : ℕ → Snapshot → Type 0)
    : Type 0 where
  pub place : link.World → ℕ
  pub in_range : (w : link.World) → place w < size
  pub writes : (buf : Bytes) (w : link.World) → (link.write buf w).1 ≡ true
  pub answer : link.World → Bytes
  pub shown : link.World → Snapshot
  pub answers : (w : link.World) → (link.receive (polled link w)).1 ≡ packet (answer w)
  pub decodes :
      (w : link.World)
      → decode (link.now (link.receive (polled link w)).0) (answer w) ≡ ok (shown w)
  pub shows : (w : link.World) → Shows (place w) (shown w)
  pub poll_stays : (w : link.World) → place (link.write (with_report_id poll_report) w).0 ≡ place w
  pub timer_stays : (ms : ℕ) (w : link.World) → place (link.start_timer ms w) ≡ place w
  pub receive_stays : (w : link.World) → place (link.receive w).0 ≡ place w
  pub sleep_stays : (ms : ℕ) (w : link.World) → place (link.sleep ms w) ≡ place w
  pub moves :
      (w : link.World)
      → place (link.write (with_report_id (report_of cmd)) w).0 ≡ next_place size (place w)

module _ (link : Link) (cmd size : ℕ) (Shows : ℕ → Snapshot → Type 0)
    (m : IsCycling link cmd size Shows) where
  discard_stays : (n : ℕ) (w : link.World) → m.place (discard link n w) ≡ m.place w
  unfolding discard
  discard_stays zero w = refl
  discard_stays (suc n) w = by_event (link.receive w).1 (discard_stays n (link.receive w).0)
    where
      by_event :
          (e : Event)
          → m.place (discard link n (link.receive w).0) ≡ m.place (link.receive w).0
          → m.place (elim e [
            | packet _ ↦ discard link n (link.receive w).0
            | broken ↦ discard link n (link.receive w).0
            | timed_out ↦ (link.receive w).0
            | cancelled ↦ (link.receive w).0
          ])
            ≡ m.place w
      by_event (packet _) ih = ih ∙ m.receive_stays w
      by_event broken ih = ih ∙ m.receive_stays w
      by_event timed_out ih = m.receive_stays w
      by_event cancelled ih = m.receive_stays w

  drain_stays : (ms : ℕ) (w : link.World) → m.place (drain link ms w) ≡ m.place w
  unfolding drain
  drain_stays ms w =
      discard_stays (suc (link.arrivals (link.start_timer ms w))) (link.start_timer ms w)
      ∙ m.timer_stays ms w

  -- A write that succeeds.
  abbrev written : Bytes → Run link → Run link
  written payload run = record run {
    world = (link.write (with_report_id payload) run.world).0;
    sent = run.sent ++ with_report_id payload ∷ [];
  }

  send_report-written :
      (payload : Bytes) (run : Run link)
      → send_report link payload run ≡ (written payload run, true)
  unfolding send_report
  send_report-written payload run =
      of_result (link.write (with_report_id payload) run.world)
        (m.writes (with_report_id payload) run.world)
    where
      of_result :
          (r : link.World × Bool)
          → r.1 ≡ true
          → wrote_report link run (with_report_id payload) r
            ≡ (record run { world = r.0; sent = run.sent ++ with_report_id payload ∷ [] }, true)
      of_result (w, true) h = refl
      of_result (w, false) h = cc

  -- The run once the answer to a poll has come.
  abbrev pub after_poll : Run link → Run link
  after_poll run = record run {
    world = (link.receive (polled link run.world)).0;
    sent = run.sent ++ with_report_id poll_report ∷ [];
  }

  pub read_current_snap-shown :
      (run : Run link) → read_current_snap link run ≡ (after_poll run, some (m.shown run.world))
  unfolding read_current_snap read_loop on_answer
  read_current_snap-shown run =
      rw (send_report-written poll_report run)
        (rw (m.answers run.world) (rw (m.decodes run.world) refl))

  pub after_poll-stays : (run : Run link) → m.place (after_poll run).world ≡ m.place run.world
  after_poll-stays run =
      m.receive_stays (polled link run.world) ∙ m.timer_stays 200 _ ∙ m.poll_stays run.world

  -- The run once the button has been pressed.
  abbrev pub after_press : Run link → Run link
  after_press run = flush_reads link 80 (pause link 150 (written (report_of cmd) run))

  pub press-next :
      (next : Run link → Stepped link) (run : Run link)
      → press link cmd next run ≡ next (after_press run)
  unfolding press
  press-next next run = rw (send_report-written (report_of cmd) run) refl

  pub after_press-moves :
      (run : Run link) → m.place (after_press run).world ≡ next_place size (m.place run.world)
  after_press-moves run = drain_stays 80 _ ∙ m.sleep_stays 150 _ ∙ m.moves run.world

  pub after_press-sent : (run : Run link) → length (after_press run).sent ≡ length run.sent + 1
  after_press-sent run = omega (arith, length-append run.sent (with_report_id (report_of cmd) ∷ []))

  pub after_poll-sent : (run : Run link) → length (after_poll run).sent ≡ length run.sent + 1
  after_poll-sent run = omega (arith, length-append run.sent (with_report_id poll_report ∷ []))

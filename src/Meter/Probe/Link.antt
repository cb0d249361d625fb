-- ===== src/Meter/Probe/Link.antt =====
-- internal/lpmeter/probe.go: what the samples probe talks to, and its state. The device, the reader
-- goroutine's channel, the timers and the context are a parameter.
pub mod Written
use lp_700_server.Prelude.{
  ℕ, zero, suc, Bool, true, false, List, [], ◌∷◌, ◌++◌, Option, none, some, if◌then◌else◌, ◌==◌,
  length,
}
use lp_700_server.Meter.Snapshot.{Bytes}
use lp_700_server.Meter.Frame.{report_size}
use lp_700_server.Meter.Writes.{with_report_id}
use lp_700_server.Meter.Probe.Print.{Line}

-- What a `select` between the reads, a timer and the context sees first.
pub data Event : Type 0 where
  packet : Bytes → Event
  broken timed_out cancelled : Event

-- The world outside the probe: whether a write succeeds, the timer that is started for some
-- milliseconds, the next event, the number of packets that a `drain` finds before its timer fires,
-- `time.Sleep`, and the clock.
pub record Link : Type 1 where
  pub World : Type 0
  pub write : Bytes → World → World × Bool
  pub start_timer : ℕ → World → World
  pub receive : World → World × Event
  pub arrivals : World → ℕ
  pub sleep : ℕ → World → World
  pub now : World → ℕ

-- One result of `dev.Read`: `none` is an error. The reader goroutine sends on every whole report, and
-- an error as its last packet; all other reads are dropped.
pub reader : List (Option Bytes) → List Event
reader [] = []
reader (none ∷ reads) = broken ∷ []
reader (some buf ∷ reads) =
    let rest = reader reads in if length buf == report_size then packet buf ∷ rest else rest

module _ (link : Link) where
  -- The world, the OUT buffers that were written, and the lines printed.
  pub record Run : Type 0 where
    pub world : link.World
    pub sent : List Bytes
    pub out : List Line

  abbrev pub print : Line → Run → Run
  print line run = record run { out = run.out ++ line ∷ [] }

  unfoldable pub wrote_report : Run → Bytes → link.World × Bool → Run × Bool
  wrote_report run buf (w, true) = (record run { world = w; sent = run.sent ++ buf ∷ [] }, true)
  wrote_report run buf (w, false) = (record run { world = w }, false)

  -- `writeReport`, with the report ID byte in front.
  unfoldable pub send_report : Bytes → Run → Run × Bool
  unfolding wrote_report
  send_report payload run =
      wrote_report run (with_report_id payload) (link.write (with_report_id payload) run.world)

  -- `select` with a timer of some milliseconds.
  abbrev pub await : ℕ → link.World → link.World × Event
  await ms w = link.receive (link.start_timer ms w)

  -- The `for` of drain: packets, errors among them, are discarded until the timer fires or the context
  -- is done.
  unfoldable pub discard : ℕ → link.World → link.World
  discard zero w = w
  discard (suc n) w =
      let (w', e) = link.receive w in
      elim e [ packet _ ↦ discard n w' | broken ↦ discard n w' | timed_out ↦ w' | cancelled ↦ w' ]

  unfoldable pub drain : ℕ → link.World → link.World
  unfolding discard
  drain ms w = let w' = link.start_timer ms w in discard (suc (link.arrivals w')) w'

  abbrev pub pause : ℕ → Run → Run
  pause ms run = record run { world = link.sleep ms run.world }

  abbrev pub flush_reads : ℕ → Run → Run
  flush_reads ms run = record run { world = drain ms run.world }

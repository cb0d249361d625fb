-- ===== src/Meter/Owner/Loop.antt =====
-- internal/lpmeter/owner.go: the `select` loop of `runOnce`, and its reader goroutine.
use lp_700_server.Prelude.{
  ℕ, false, List, [], ◌∷◌, Option, none, some, ◌==◌, if◌then◌else◌, length, replicate,
}
use lp_700_server.Prelude.Int.{pos}
use lp_700_server.Prelude.Chan.{Chan, make}
use lp_700_server.Meter.Snapshot.{Bytes, Snapshot, ScopeFrame, SpectrumFrame, sample_buffer_size}
use lp_700_server.Meter.Frame.{report_size}
use lp_700_server.Meter.Writes.{Writer, OwnerError, read_failed}
use lp_700_server.Meter.Owner.{Owner, on_frame, on_tick}

-- What the loop's `select` can take: a frame with the clock's reading, a tick, an error of the
-- reader, or the end of the context.
pub data Event : Type 0 where
  frame : ℕ → Bytes → Event
  tick : Event
  read_error : Event
  done : Event

-- Whether `runOnce` goes on, or with what it returns.
pub data Run : Type 0 where
  going : Owner → Run
  returned : Owner → Option OwnerError → Run

-- `NewHIDOwner`: the channels that it is given, and a queue of its own. The local variables of
-- `runOnce` have no values yet.
unfoldable pub new_owner :
    Chan Snapshot → Option (Chan ScopeFrame) → Option (Chan SpectrumFrame) → Owner
new_owner out scope_out spectrum_out = record {
  commands = make 16;
  out = out;
  scope_out = scope_out;
  spectrum_out = spectrum_out;
  sent = [];
  tick_n = 0;
  last_status = [];
  last_top_mode = "";
  last_channel = pos 0;
  last_auto = false;
  scope_buf = [];
  spectrum_buf = [];
  seg_idx = 0;
}

-- The local variables at the start of `runOnce`; the channels outlive it.
unfoldable pub start : Owner → Owner
start o = record o {
  tick_n = 0;
  last_status = [];
  last_top_mode = "";
  last_channel = pos 0;
  last_auto = false;
  scope_buf = replicate sample_buffer_size 0;
  spectrum_buf = replicate sample_buffer_size 0;
  seg_idx = 0;
}

-- The reader goroutine passes on full reports only.
unfoldable pub passed_on : List Bytes → List Bytes
passed_on [] = []
passed_on (r ∷ rs) = let rest = passed_on rs in if length r == report_size then r ∷ rest else rest

abbrev pub after_tick : Owner × Option OwnerError → Run
after_tick (o, none) = going o
after_tick (o, some e) = returned o (some e)

unfoldable pub step : Writer → Owner → Event → Run
step dev o (frame now f) = going (on_frame now o f)
step dev o tick = after_tick (on_tick dev o)
step dev o read_error = returned o (some read_failed)
step dev o done = returned o none

unfoldable pub run : Writer → Owner → List Event → Run
unfolding step
run dev o [] = going o
run dev o (e ∷ es) = elim (step dev o e) [
  | going o' ↦ run dev o' es
  | returned o' r ↦ returned o' r
]

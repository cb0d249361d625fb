-- ===== src/Meter/Owner.antt =====
-- internal/lpmeter/owner.go: the goroutine that owns the HID handle. Its `select` loop is a step
-- function over events (Owner/Loop.antt).
pub mod Loop
pub mod Retry
pub mod Telemetry
pub mod Segments
pub mod Scope
pub mod Spectrum
pub mod Schedule
pub mod Sound
pub mod Invariant
use lp_700_server.Prelude.{
  ℕ, suc, ◌+◌, ◌*◌, ◌%◌, Bool, true, false, ◌&&◌, ◌||◌, not, String, str_eq, List, [], ◌∷◌, ◌++◌,
  Option, none, some, ltb, leb, ◌==◌, if◌then◌else◌, length, take, drop, replicate,
}
use lp_700_server.Prelude.Chan.{Chan, offer}
use lp_700_server.Prelude.Int.{ℤ, pos, ltb_ℤ}
use lp_700_server.Prelude.Result.{Result, ok, err}
use lp_700_server.Meter.Snapshot.{
  Bytes, bytes_eq, Snapshot, ScopeFrame, SpectrumFrame, sample_buffer_size,
}
use lp_700_server.Meter.Frame.{
  report_size, poll_report, status_report, sample_report, is_command_echo, is_likely_telemetry,
}
use lp_700_server.Meter.Decode.{decode}
use lp_700_server.Meter.Writes.{
  Command, Writer, OwnerError, poll_write_failed, panicked, write_report, drain_commands,
}

-- The owner's channels, what it has written to the device, and the variables of `runOnce`.
pub record Owner : Type 0 where
  pub commands : Chan Command
  pub out : Chan Snapshot
  pub scope_out : Option (Chan ScopeFrame)
  pub spectrum_out : Option (Chan SpectrumFrame)
  pub sent : List Bytes
  pub tick_n : ℕ
  pub last_status : Bytes
  pub last_top_mode : String
  pub last_channel : ℤ
  pub last_auto : Bool
  pub scope_buf : Bytes
  pub spectrum_buf : Bytes
  pub seg_idx : ℕ

-- `copy(buf[off:off+64], frame)`
abbrev pub copy_at : ℕ → Bytes → Bytes → Bytes
copy_at off buf frame = take off buf ++ (frame ++ drop (off + length frame) buf)

-- The guard of the two emitters: samples taken on Auto, or with no channel, are not sent.
unfoldable pub unlabelled : ℤ → Bool → Bool
unlabelled channel auto = auto || ltb_ℤ channel (pos 1) || ltb_ℤ (pos 4) channel

unfoldable pub emit_scope : ℕ → Owner → Owner
emit_scope now o = elim o.scope_out [
  | none ↦ o
  | some c ↦ if unlabelled o.last_channel o.last_auto then o else record o {
    scope_out =
        some
          (offer c (record {
            timestamp = now;
            top_mode = "waveform";
            channel = o.last_channel;
            auto_channel = o.last_auto;
            samples = o.scope_buf;
          })).0;
  }
]

unfoldable pub emit_spectrum : ℕ → Owner → Owner
emit_spectrum now o = elim o.spectrum_out [
  | none ↦ o
  | some c ↦ if unlabelled o.last_channel o.last_auto then o else record o {
    spectrum_out =
        some
          (offer c (record {
            timestamp = now;
            top_mode = "spectrum";
            channel = o.last_channel;
            auto_channel = o.last_auto;
            bins = o.spectrum_buf;
          })).0;
  }
]

-- The sticky status text: an empty one is replaced by the last that was not.
unfoldable pub carry_status : Bytes → Snapshot → Snapshot
carry_status last s = if bytes_eq s.status_message [] then record s { status_message = last } else s

-- A decoded frame: the status is carried, the segment counter and the labels are set (the reset on a
-- mode change stores the same 0), and the snapshot is offered to the hub.
unfoldable pub publish : Owner → Snapshot → Owner
unfolding carry_status
publish o s =
    let snap = carry_status o.last_status s in
    record o {
      last_status = snap.status_message;
      seg_idx = 0;
      last_top_mode = snap.top_mode;
      last_channel = snap.channel;
      last_auto = snap.auto_channel;
      out = (offer o.out snap).0;
    }

unfoldable pub on_telemetry : ℕ → Owner → Bytes → Owner
on_telemetry now o frame = elim (decode now frame) [ err _ ↦ o | ok s ↦ publish o s ]

unfoldable pub on_scope : ℕ → Owner → Bytes → Owner
on_scope now o frame =
    let o' = record o {
      seg_idx = o.seg_idx + 1;
      scope_buf = copy_at (o.seg_idx * 64) o.scope_buf frame;
    } in
    if o.seg_idx + 1 == 5 then emit_scope now o' else o'

unfoldable pub on_spectrum : ℕ → Owner → Bytes → Owner
on_spectrum now o frame =
    let o' = record o {
      seg_idx = o.seg_idx + 1;
      spectrum_buf = copy_at (o.seg_idx * 64) o.spectrum_buf frame;
    } in
    if o.seg_idx + 1 == 5 then emit_spectrum now o' else o'

unfoldable pub on_sample : ℕ → Owner → Bytes → Owner
on_sample now o frame =
    if not (str_eq o.last_top_mode "waveform") && not (str_eq o.last_top_mode "spectrum")
    then o
    else if leb 5 o.seg_idx
    then o
    else if str_eq o.last_top_mode "waveform"
    then on_scope now o frame
    else on_spectrum now o frame

-- `case frame := <-frames`
unfoldable pub on_frame : ℕ → Owner → Bytes → Owner
on_frame now o frame =
    if is_command_echo frame
    then record o { seg_idx = 0 }
    else if is_likely_telemetry frame
    then on_telemetry now o frame
    else on_sample now o frame

-- The OUT report of a tick. `none` is SampleReport's panic.
unfoldable pub tick_payload : String → ℕ → Option Bytes
tick_payload mode n =
    if str_eq mode "waveform" || str_eq mode "spectrum"
    then (if n % 6 == 0 then some poll_report else sample_report (n % 6))
    else if n % 10 == 0
    then some status_report
    else some poll_report

unfoldable pub poll : Writer → Owner → Owner × Option OwnerError
poll dev o = elim (tick_payload o.last_top_mode o.tick_n) [
  | none ↦ (o, some panicked)
  | some payload ↦
      let (sent', done) = write_report dev o.sent payload in
      (record o { sent = sent' }, if done then none else some poll_write_failed)
]

-- The owner with what a drain leaves in the queue and on the wire.
abbrev drained : Owner → List Command → List Bytes → Owner
drained o rest sent' = record o { commands = record o.commands { items = rest }; sent = sent' }

-- A failed drain ends the loop; else the counter moves on and the poll goes out.
after_drain :
    Writer → Owner → List Command × List Bytes × Option OwnerError → Owner × Option OwnerError
after_drain dev o (rest, sent', some e) = (drained o rest sent', some e)
after_drain dev o (rest, sent', none) =
    poll dev (record (drained o rest sent') { tick_n = o.tick_n + 1 })

-- `case <-pollTicker.C`
unfoldable pub on_tick : Writer → Owner → Owner × Option OwnerError
unfolding after_drain
on_tick dev o = after_drain dev o (drain_commands dev o.commands.items o.sent)

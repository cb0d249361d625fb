-- ===== src/Meter/Probe/Recording.antt =====
-- internal/lpmeter/probe.go: the loops that print and record the IN reports (runDump, runCapture). The
-- list of rounds is what the context, the poller's channel, the clock, the device and the file do
-- each time round.
pub mod Exact
use lp_700_server.Prelude.{
  ℕ, suc, ◌+◌, Bool, true, false, not, List, [], ◌∷◌, ◌++◌, Option, none, some, ltb, ◌==◌,
  if◌then◌else◌, length,
}
use lp_700_server.Prelude.Int.{ℤ, pos, negsuc}
use lp_700_server.Prelude.Result.{Result, ok, err}
use lp_700_server.Meter.Snapshot.{Bytes, bytes_eq}
use lp_700_server.Meter.Frame.{report_size}
use lp_700_server.Meter.Device.{HidDeviceInfo, DeviceError}
use lp_700_server.Meter.Probe.Print.{Line, opened, dump_legend, capturing, wrote, print_frame}
use lp_700_server.Meter.Probe.Devices.{
  ProbeOptions, ProbeError, device_failed, needs_path, create_failed, file_failed, poll_failed,
  read_failed,
}

-- `read` is what `dev.Read` puts into the buffer, `none` its error; `written` is whether the write of
-- a frame to the file succeeds.
pub record Round : Type 0 where
  pub ctx_done : Bool
  pub poll_error : Bool
  pub now : ℕ
  pub read : Option Bytes
  pub written : Bool

-- The state of a loop that goes on, or that has ended with or without an error.
pub data Progress (S : Type 0) : Type 0 where
  going : S → Progress S
  ended : S → Option ProbeError → Progress S

dump_read : Round → List Line → Option Bytes → Progress (List Line)
dump_read r out none = ended out (some read_failed)
dump_read r out (some []) = going out
dump_read r out (some (b ∷ bs)) = going (out ++ print_frame r.now (b ∷ bs) ∷ [])

unfoldable pub dump_round : Round → List Line → Progress (List Line)
unfolding dump_read
dump_round r out =
    if r.ctx_done
    then ended out none
    else if r.poll_error
    then ended out (some poll_failed)
    else dump_read r out r.read

-- The frames recorded: the file, and the count of `frames`.
pub record Recorded : Type 0 where
  pub file : Bytes
  pub frames : ℕ

record_read : Round → Recorded → Option Bytes → Progress Recorded
record_read r c none = ended c (some read_failed)
record_read r c (some buf) =
    if not (length buf == report_size)
    then going c
    else if not r.written
    then ended c (some file_failed)
    else going (record { file = c.file ++ buf; frames = c.frames + 1 })

-- `!deadline.IsZero() && time.Now().After(deadline)`
abbrev pub is_past : Option ℕ → ℕ → Bool
is_past none now = false
is_past (some deadline) now = ltb deadline now

unfoldable pub capture_round : Option ℕ → Round → Recorded → Progress Recorded
unfolding record_read
capture_round deadline r c =
    if r.ctx_done
    then ended c none
    else if r.poll_error
    then ended c (some poll_failed)
    else if is_past deadline r.now
    then ended c none
    else record_read r c r.read

-- The `for` over the rounds; it is still `going` where they run out.
unfoldable pub loop_rounds : {S : Type 0} → (Round → S → Progress S) → List Round → S → Progress S
loop_rounds body [] s = going s
loop_rounds body (r ∷ rs) s = elim (body r s) [
  | going s' ↦ loop_rounds body rs s'
  | ended s' e ↦ ended s' e
]

-- The lines printed, and how the loop ended: `none` while it goes on.
abbrev pub Printed : Type 0
Printed = List Line × Option (Option ProbeError)

dump_result : Progress (List Line) → Printed
dump_result (going out) = (out, none)
dump_result (ended out e) = (out, some e)

unfoldable pub run_dump : Result DeviceError HidDeviceInfo → List Round → Printed
unfolding dump_result
run_dump (err e) rounds = ([], some (some (device_failed e)))
run_dump (ok info) rounds =
    dump_result (loop_rounds dump_round rounds (opened info ∷ dump_legend ∷ []))

-- How the file system answers `os.Create` and the write of the header.
pub record FileAnswers : Type 0 where
  pub created : Bool
  pub header_written : Bool

-- The deadline of a capture that starts at a time, where the duration is positive.
unfoldable pub deadline_of : ℕ → ℤ → Option ℕ
deadline_of start (pos n) = if n == 0 then none else some (start + n)
deadline_of start (negsuc n) = none

capture_result : Bytes → Progress Recorded → Bytes × Printed
capture_result path (going c) = (c.file, (capturing path ∷ [], none))
capture_result path (ended c none) =
    (c.file, (capturing path ∷ wrote c.frames path ∷ [], some none))
capture_result path (ended c (some e)) = (c.file, (capturing path ∷ [], some (some e)))

-- The file's content, and what is printed. `header` formats the header of a device.
unfoldable pub run_capture :
    (HidDeviceInfo → Bytes)
    → FileAnswers
    → ℕ
    → ProbeOptions
    → Result DeviceError HidDeviceInfo
    → List Round
    → Bytes × Printed
unfolding capture_result deadline_of
run_capture header answers start opts device rounds =
    if bytes_eq opts.out_path [] then ([], ([], some (some needs_path))) else elim device [
      | err e ↦ ([], ([], some (some (device_failed e))))
      | ok info ↦
          if not answers.created
          then ([], ([], some (some create_failed)))
          else if not answers.header_written
          then ([], ([], some (some file_failed)))
          else capture_result opts.out_path (
              loop_rounds (capture_round (deadline_of start opts.duration)) rounds
                (record { file = header info; frames = 0 }))
    ]

-- ===== src/Meter/Probe/Run.antt =====
-- internal/lpmeter/probe.go: RunProbe and openLPMeter over the machine's devices; main.go: the flags of
-- the `probe` subcommand.
use lp_700_server.Prelude.{
  ℕ, Bool, true, false, not, String, str_eq, List, [], Option, none, some, if◌then◌else◌,
}
use lp_700_server.Prelude.Int.{ℤ}
use lp_700_server.Prelude.Result.{Result, ok, err}
use lp_700_server.Meter.Snapshot.{Bytes, bytes_eq}
use lp_700_server.Meter.Device.{HidDeviceInfo, DeviceError, open_lp_meter}
use lp_700_server.Meter.Hidraw.{FileSystem, HidRaw, to_uint16, enumerate_hid, open_hid}
use lp_700_server.Meter.Probe.Print.{Line}
use lp_700_server.Meter.Probe.Devices.{ProbeOptions, ProbeError, unknown_mode, run_list}
use lp_700_server.Meter.Probe.Recording.{Round, FileAnswers, Printed, run_dump, run_capture}
use lp_700_server.Meter.Probe.Link.{Link, Run}
use lp_700_server.Meter.Probe.Samples.{run_samples}

pub is_opened {ℓ} : {File : Type ℓ} → Result DeviceError (HidRaw File) → Bool
is_opened (ok d) = true
is_opened (err e) = false

pub devices_or_none : Result DeviceError (List HidDeviceInfo) → Option (List HidDeviceInfo)
devices_or_none (ok ds) = some ds
devices_or_none (err e) = none

-- What the machine, the clock, the user and the device do while the probe runs: the files, the loops'
-- rounds and the text of a capture's header.
pub record Machine : Type 1 where
  pub fs : FileSystem
  pub File : Type 0
  pub open_file : Bytes → Option File
  pub start : ℕ
  pub answers : FileAnswers
  pub header : HidDeviceInfo → Bytes
  pub rounds : List Round
  pub link : Link
  pub world : link.World

module _ (m : Machine) where
  -- openLPMeter: the device that was chosen, where it could be opened.
  unfoldable pub open_meter : ProbeOptions → Result DeviceError HidDeviceInfo
  unfolding is_opened devices_or_none
  open_meter opts =
      open_lp_meter (λ d. is_opened (open_hid m.open_file d)) opts.vendor_id opts.product_id
        (devices_or_none (enumerate_hid m.fs))

  -- What a mode leaves: the capture file, the lines printed, and how it ended.
  abbrev pub Left : Type 0
  Left = Bytes × Printed

  listing : List Line × Option ProbeError → Left
  listing (out, e) = ([], (out, some e))

  sampled : Run m.link × Option ProbeError → Left
  sampled (run, e) = ([], (run.out, some e))

  start_run : Run m.link
  start_run = record { world = m.world; sent = []; out = [] }

  unfoldable pub run_probe : ProbeOptions → Left
  unfolding listing sampled start_run
  run_probe opts =
      if str_eq opts.mode "list"
      then listing (run_list opts (enumerate_hid m.fs))
      else if str_eq opts.mode "dump"
      then ([], run_dump (open_meter opts) m.rounds)
      else if str_eq opts.mode "capture"
      then run_capture m.header m.answers m.start opts (open_meter opts) m.rounds
      else if str_eq opts.mode "samples"
      then sampled (run_samples m.link opts (open_meter opts) start_run)
      else ([], ([], some (some (unknown_mode opts.mode))))

-- The values of the subcommand's flags.
pub record Flags : Type 0 where
  pub list : Bool
  pub dump : Bool
  pub capture : Bytes
  pub duration : ℤ
  pub samples : Bool
  pub cycle_modes : Bool
  pub frames_per_cmd : ℤ
  pub target_channel : ℤ
  pub target_range : String
  pub vid : ℕ
  pub pid : ℕ

-- The `switch` over the flags; `none` prints the usage.
unfoldable pub probe_mode : Flags → Option String
probe_mode f =
    if f.list
    then some "list"
    else if f.dump
    then some "dump"
    else if not (bytes_eq f.capture [])
    then some "capture"
    else if f.samples
    then some "samples"
    else none

unfoldable pub probe_options : Flags → String → ProbeOptions
probe_options f mode = record {
  mode = mode;
  out_path = f.capture;
  duration = f.duration;
  vendor_id = to_uint16 f.vid;
  product_id = to_uint16 f.pid;
  frames_per_cmd = f.frames_per_cmd;
  cycle_modes = f.cycle_modes;
  target_channel = f.target_channel;
  target_range = f.target_range;
}

exit_code : Option (Option ProbeError) → Option ℕ
exit_code none = none
exit_code (some none) = some 0
exit_code (some (some e)) = some 1

module _ (m : Machine) where
  run_mode : Flags → Option String → Option ℕ × Left m
  unfolding exit_code
  run_mode f none = (some 2, ([], ([], some none)))
  run_mode f (some mode) =
      let (file, (out, ended)) = run_probe m (probe_options f mode) in
      (exit_code ended, (file, (out, ended)))

  -- The exit status, `none` while the probe still runs, and what it leaves.
  unfoldable pub run_probe_subcommand : Flags → Option ℕ × Left m
  unfolding run_mode probe_mode probe_options
  run_probe_subcommand f = run_mode f (probe_mode f)

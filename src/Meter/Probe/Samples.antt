-- ===== src/Meter/Probe/Samples.antt =====
-- internal/lpmeter/probe.go, runSamples: the order of the commands, the buttons pressed before them,
-- and the meter's page put back at the end.
pub mod Buttons
use lp_700_server.Prelude.{
  ℕ, zero, suc, ◌+◌, Bool, true, false, not, ◌&&◌, ◌||◌, String, str_eq, List, [], ◌∷◌, ◌++◌,
  Option, none, some, if◌then◌else◌, ◌==◌,
}
use lp_700_server.Prelude.Int.{ℤ, pos, negsuc, ltb_ℤ}
use lp_700_server.Prelude.Result.{Result, ok, err}
use lp_700_server.Meter.Snapshot.{Bytes, Snapshot}
use lp_700_server.Meter.Device.{HidDeviceInfo, DeviceError}
use lp_700_server.Meter.Probe.Print.{
  Line, opened, samples_legend, starting_state, to_power_swr, driving_channel, driving_range,
  entering_mode, restoring_mode, warning, finished,
}
use lp_700_server.Meter.Probe.Devices.{ProbeOptions, ProbeError, device_failed}
use lp_700_server.Meter.Probe.Link.{Link, Run, print, flush_reads}
use lp_700_server.Meter.Probe.Capture.{capture_one}
use lp_700_server.Meter.Probe.Steps.{
  Stepped, read_current_snap, step_to_mode, step_to_channel, step_to_range,
}

-- Frames for each sample command: 16 where the options ask for none.
unfoldable pub frames_of : ℤ → ℕ
frames_of (pos n) = if n == 0 then 16 else n
frames_of (negsuc n) = 16

-- The commands of one page, and how many frames of each: the poll, the five sample commands, the
-- status.
abbrev pub sweep_plan : ℕ → List (ℕ × ℕ)
sweep_plan frames =
    (b'0', 4)
    ∷ (b'1', frames)
    ∷ (b'2', frames)
    ∷ (b'3', frames)
    ∷ (b'4', frames)
    ∷ (b'5', frames)
    ∷ (b'6', 4)
    ∷ []

mode_before : Option Snapshot → String
mode_before none = ""
mode_before (some s) = s.top_mode

module _ (link : Link) where
  -- A failed step is printed, and the probe goes on.
  warned : Stepped link → Run link
  warned (run, none) = run
  warned (run, some e) = print link warning run

  noted_state : Run link × Option Snapshot → Run link × String
  unfolding mode_before
  noted_state (run, none) = (run, "")
  noted_state (run, some s) =
      (print link (starting_state s.top_mode s.channel s.auto_channel s.range) run, s.top_mode)

  -- On the waveform and spectrum pages the channel and range buttons do nothing.
  unfoldable pub leave_page : ProbeOptions → String → Run link → Run link
  unfolding warned
  leave_page opts original run =
      if (ltb_ℤ (pos 0) opts.target_channel || not (str_eq opts.target_range ""))
        && (not (str_eq original "") && not (str_eq original "power_swr"))
      then flush_reads link 150
          (warned (step_to_mode link "power_swr" 8 (print link to_power_swr run)))
      else run

  unfoldable pub drive_channel : ProbeOptions → Run link → Run link
  unfolding warned
  drive_channel opts run =
      if ltb_ℤ (pos 0) opts.target_channel
      then warned (
          step_to_channel link opts.target_channel
            (print link (driving_channel opts.target_channel) run))
      else run

  unfoldable pub drive_range : ProbeOptions → Run link → Run link
  unfolding warned
  drive_range opts run =
      if str_eq opts.target_range ""
      then run
      else warned
          (step_to_range link opts.target_range (print link (driving_range opts.target_range) run))

  -- The captures of one page, until one fails.
  after_capture :
      (Run link → Stepped link) → Run link × Option Snapshot × Option ProbeError → Stepped link
  after_capture next (run, last, some e) = (run, some e)
  after_capture next (run, last, none) = next run

  unfoldable pub sweep : List (ℕ × ℕ) → Run link → Stepped link
  unfolding after_capture
  sweep [] run = (run, none)
  sweep ((cmd, n) ∷ plan) run = after_capture (sweep plan) (capture_one link cmd n run)

  then_next : (Run link → Stepped link) → Stepped link → Stepped link
  then_next next (run, some e) = (run, some e)
  then_next next (run, none) = next run

  -- A page that cannot be reached is passed over.
  on_page : ℕ → (Run link → Stepped link) → Stepped link → Stepped link
  unfolding then_next sweep
  on_page frames next (run, some e) = next (print link warning run)
  on_page frames next (run, none) =
      then_next next (sweep (sweep_plan frames) (flush_reads link 150 run))

  -- The loop over the pages.
  unfoldable pub sweep_pages : Bool → ℕ → List String → Run link → Stepped link
  unfolding on_page then_next sweep
  sweep_pages cycle frames [] run = (run, none)
  sweep_pages cycle frames (mode ∷ modes) run =
      if not (str_eq mode "") && cycle
      then on_page frames (sweep_pages cycle frames modes)
          (step_to_mode link mode 8 (print link (entering_mode mode) run))
      else then_next (sweep_pages cycle frames modes) (sweep (sweep_plan frames) run)

  restore : ProbeOptions → String → Stepped link → Stepped link
  restore opts original (run, some e) = (run, some e)
  restore opts original (run, none) =
      let back =
        if opts.cycle_modes && not (str_eq original "")
        then (step_to_mode link original 8 (print link (restoring_mode original) run)).0
        else run in
      (print link finished back, none)

  abbrev pub pages : ProbeOptions → String → List String
  pages opts original =
      if opts.cycle_modes then "power_swr" ∷ "waveform" ∷ "spectrum" ∷ [] else original ∷ []

  -- Everything after the device is open.
  unfoldable pub run_opened : ProbeOptions → Run link → Stepped link
  unfolding noted_state leave_page drive_channel drive_range sweep_pages restore
  run_opened opts run =
      let (run1, original) = noted_state (read_current_snap link run) in
      restore opts original (
        sweep_pages opts.cycle_modes (frames_of opts.frames_per_cmd) (pages opts original)
          (drive_range opts (drive_channel opts (leave_page opts original run1))))

  unfoldable pub run_samples :
      ProbeOptions → Result DeviceError HidDeviceInfo → Run link → Stepped link
  unfolding run_opened
  run_samples opts (err e) run = (run, some (device_failed e))
  run_samples opts (ok info) run =
      run_opened opts (print link samples_legend (print link (opened info) run))

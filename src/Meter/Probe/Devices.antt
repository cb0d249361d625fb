-- ===== src/Meter/Probe/Devices.antt =====
-- internal/lpmeter/probe.go: the options of the probe, its errors, and the table of the devices
-- (runList).
use lp_700_server.Prelude.{ℕ, Bool, ◌&&◌, ◌||◌, String, List, [], ◌∷◌, map, Option, none, some}
use lp_700_server.Prelude.Int.{ℤ}
use lp_700_server.Prelude.Result.{Result, ok, err}
use lp_700_server.Meter.Snapshot.{Bytes}
use lp_700_server.Meter.Device.{HidDeviceInfo, DeviceError, is_lp_meter, is_configured, has_ids}
use lp_700_server.Meter.Probe.Print.{Line, no_devices, columns, device_row, truncate}

-- `mode` is the text of a ProbeMode; a duration counts nanoseconds.
pub record ProbeOptions : Type 0 where
  pub mode : String
  pub out_path : Bytes
  pub duration : ℤ
  pub vendor_id : ℕ
  pub product_id : ℕ
  pub frames_per_cmd : ℤ
  pub cycle_modes : Bool
  pub target_channel : ℤ
  pub target_range : String

pub data ProbeError : Type 0 where
  unknown_mode : String → ProbeError
  device_failed : DeviceError → ProbeError
  needs_path create_failed file_failed : ProbeError
  poll_failed read_failed : ProbeError
  command_failed : ℕ → ℕ → ProbeError
  step_failed : ProbeError
  cancelled : ProbeError
  no_state needs_manual_channel : ProbeError
  mode_unreached range_unreached : String → ProbeError
  channel_unreached : ℤ → ProbeError

module _ (opts : ProbeOptions) where
  -- The device has the ids of the options, which are both set.
  abbrev pub matches_ids : HidDeviceInfo → Bool
  matches_ids d =
      is_configured opts.vendor_id opts.product_id && has_ids opts.vendor_id opts.product_id d

  row : HidDeviceInfo → Line
  row d =
      device_row (is_lp_meter d.product || matches_ids d) d.path d.vendor_id d.product_id
        (truncate d.product 30) d.manufacturer

  -- The lines printed, and the error. The first part of a row says whether it has the marker.
  unfoldable pub run_list : Result DeviceError (List HidDeviceInfo) → List Line × Option ProbeError
  unfolding row
  run_list (err e) = ([], some (device_failed e))
  run_list (ok []) = (no_devices ∷ [], none)
  run_list (ok (d ∷ ds)) = (columns ∷ map row (d ∷ ds), none)

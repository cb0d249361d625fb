-- ===== src/Meter/Device.antt =====
-- internal/lpmeter: which HID device is the meter (owner.go, findDevice; probe.go, openLPMeter and
-- HasLPMeterAttached). The enumeration of the devices comes from the operating system.
pub mod Choice
use lp_700_server.Prelude.{
  ℕ, ◌+◌, ◌-◌, Bool, true, false, not, ◌&&◌, ◌||◌, List, [], ◌∷◌, map, Option, none, some, leb,
  ◌==◌, codes, if◌then◌else◌,
}
use lp_700_server.Prelude.Result.{Result, ok, err}
use lp_700_server.Meter.Snapshot.{Bytes}
use lp_700_server.Update.Checker.{has_prefix}

pub record HidDeviceInfo : Type 0 where
  pub path : Bytes
  pub vendor_id : ℕ
  pub product_id : ℕ
  pub product : Bytes
  pub manufacturer : Bytes

abbrev pub default_vendor_id : ℕ
default_vendor_id = 1240

abbrev pub default_product_id : ℕ
default_product_id = 1

-- `strings.ToUpper`: an ASCII letter is raised. No other character has an upper case among the
-- characters that is_lp_meter looks for.
abbrev to_upper : Bytes → Bytes
to_upper s = map (λ c. if leb 97 c && leb c 122 then c - 32 else c) s

-- `strings.Contains`
abbrev pub contains_text : Bytes → Bytes → Bool
contains_text [] sub = has_prefix [] sub
contains_text (c ∷ s) sub = has_prefix (c ∷ s) sub || contains_text s sub

unfoldable pub is_lp_meter : Bytes → Bool
is_lp_meter product =
    let p = to_upper product in
    contains_text p (codes "LP-500")
    || contains_text p (codes "LP-700")
    || contains_text p (codes "LP500")
    || contains_text p (codes "LP700")

pub data DeviceError : Type 0 where
  enumerate no_devices not_found open_failed : DeviceError

-- The first device that passes a test: the `for` loops with a `return` in them.
abbrev pub first : (HidDeviceInfo → Bool) → List HidDeviceInfo → Option HidDeviceInfo
first p [] = none
first p (d ∷ ds) = if p d then some d else first p ds

abbrev pub has_ids : ℕ → ℕ → HidDeviceInfo → Bool
has_ids vendor product d = d.vendor_id == vendor && d.product_id == product

abbrev pub is_configured : ℕ → ℕ → Bool
is_configured vendor product = not (vendor == 0) && not (product == 0)

by_product : Option HidDeviceInfo → Result DeviceError HidDeviceInfo
by_product none = err not_found
by_product (some d) = ok d

by_ids : Option HidDeviceInfo → List HidDeviceInfo → Result DeviceError HidDeviceInfo
unfolding by_product
by_ids (some d) devices = ok d
by_ids none devices = by_product (first (λ d. is_lp_meter d.product) devices)

-- `none` where the enumeration failed.
unfoldable pub find_device : ℕ → ℕ → Option (List HidDeviceInfo) → Result DeviceError HidDeviceInfo
unfolding by_ids
find_device vendor product none = err enumerate
find_device vendor product (some []) = err no_devices
find_device vendor product (some (d ∷ ds)) =
    if is_configured vendor product
    then by_ids (first (has_ids vendor product) (d ∷ ds)) (d ∷ ds)
    else by_ids none (d ∷ ds)

unfoldable pub has_lp_meter_attached : Option (List HidDeviceInfo) → Bool
has_lp_meter_attached none = false
has_lp_meter_attached (some []) = false
has_lp_meter_attached (some (d ∷ ds)) =
    let rest = has_lp_meter_attached (some ds) in
    if is_lp_meter d.product
    then true
    else if has_ids default_vendor_id default_product_id d
    then true
    else rest

module _ (can_open : HidDeviceInfo → Bool) where
  open_first : Option HidDeviceInfo → Result DeviceError HidDeviceInfo
  open_first none = err not_found
  open_first (some d) = if can_open d then ok d else err open_failed

  -- The probe takes the first device that matches either way; `can_open` says whether `openHID` works.
  unfoldable pub open_lp_meter :
      ℕ → ℕ → Option (List HidDeviceInfo) → Result DeviceError HidDeviceInfo
  unfolding open_first
  open_lp_meter vendor product none = err enumerate
  open_lp_meter vendor product (some []) = err no_devices
  open_lp_meter vendor product (some (d ∷ ds)) = open_first (
      first (λ e. is_configured vendor product && has_ids vendor product e || is_lp_meter e.product)
        (d ∷ ds))

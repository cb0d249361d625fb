-- ===== src/Meter/Hidraw/UsbDir.antt =====
-- The walk up to the USB device (hid_linux.go, findUSBDeviceDir).
use lp_700_server.Prelude.{
  ℕ, zero, suc, ◌≡◌, refl, sym, Bool, false, List, [], ◌∷◌, if◌then◌else◌, Bool-cases, inl, inr,
}
use lp_700_server.Meter.Snapshot.{Bytes, bytes_eq}
use lp_700_server.Meter.Snapshot.Deadband.{bytes_eq_iff}
use lp_700_server.Meter.Hidraw.{FileSystem, dir_of, is_usb_device, find_from, find_usb_device_dir}

-- A directory and what `filepath.Dir` makes of it, over and over: `n` directories.
unfoldable pub ancestors : ℕ → Bytes → List Bytes
ancestors zero d = []
ancestors (suc n) d = d ∷ ancestors n (dir_of d)

-- The first directory that passes a test, or the empty path.
abbrev pub first_dir : (Bytes → Bool) → List Bytes → Bytes
first_dir p [] = []
first_dir p (d ∷ ds) = if p d then d else first_dir p ds

-- Where the walk cannot go further up, all further ancestors are the same directory.
no_further :
    (p : Bytes → Bool) (n : ℕ) (d : Bytes)
    → dir_of d ≡ d
    → p d ≡ false
    → first_dir p (ancestors n d) ≡ []
unfolding ancestors
no_further p zero d top h = refl
no_further p (suc n) d top h = rw h (rw top (no_further p n d top h))

find_from_lem :
    (fs : FileSystem) (n : ℕ) (d : Bytes)
    → find_from fs n d ≡ first_dir (is_usb_device fs) (ancestors n d)
unfolding find_from ancestors
find_from_lem fs zero d = refl
find_from_lem fs (suc n) d = elim (Bool-cases (is_usb_device fs d)) [
  | inl e ↦ rw e refl
  | inr e ↦ elim (Bool-cases (bytes_eq (dir_of d) d)) [
    | inr f ↦ rw e (rw f (find_from_lem fs n (dir_of d)))
    | inl f ↦
        let top = (bytes_eq_iff (dir_of d) d).0 f in
        rw e (rw f (sym (rw top (no_further (is_usb_device fs) n d top e))))
  ]
]

-- The walk finds the nearest of a directory and its next seven ancestors that has both an idVendor and
-- an idProduct file, and the empty path if none of the eight has; stopping early at the root loses
-- nothing.
pub find_usb_device_dir_lem :
    (fs : FileSystem) (start : Bytes)
    → find_usb_device_dir fs start ≡ first_dir (is_usb_device fs) (ancestors 8 start)
unfolding find_usb_device_dir
find_usb_device_dir_lem fs start = find_from_lem fs 8 start

-- ===== src/Meter/Hidraw.antt =====
-- internal/lpmeter/hid_linux.go: the HID devices that Linux lists under /sys/class/hidraw, and how one
-- is opened. The file system is a parameter; texts and paths are lists of bytes.
pub mod Uevent
pub mod UsbDir
pub mod Sorted
use lp_700_server.Prelude.{
  ℕ, zero, suc, ◌+◌, ◌-◌, ◌*◌, ◌%◌, ◌^◌, Bool, true, false, not, ◌&&◌, ◌||◌, List, [], ◌∷◌, ◌++◌,
  map, Option, none, some, Ordering, ltb, leb, ◌==◌, if◌then◌else◌, codes, drop, length,
}
use lp_700_server.Prelude.Result.{Result, ok, err}
use lp_700_server.Meter.Snapshot.{Bytes, bytes_eq}
use lp_700_server.Meter.Device.{HidDeviceInfo, DeviceError, enumerate, open_failed}
use lp_700_server.Update.Checker.{has_prefix}
use lp_700_server.Update.Compare.{compare_bytes}
use lp_700_server.Update.Version.{trim_space, all_hex}

-- What `os.ReadDir` says: the names of the entries, that there is no such directory, or another error.
pub data DirResult : Type 0 where
  listed : List Bytes → DirResult
  missing unreadable : DirResult

-- The file system as the source asks it: each field is one `os` or `filepath` call, with `false` or
-- `none` for an error.
pub record FileSystem : Type 0 where
  pub read_dir : Bytes → DirResult
  pub stat : Bytes → Bool
  pub read_file : Bytes → Option Bytes
  pub eval_symlinks : Bytes → Option Bytes

abbrev pub sys_class : Bytes
sys_class = codes "/sys/class/hidraw"

-- `filepath.Join` of a clean path and a plain name.
abbrev pub join_path : Bytes → Bytes → Bytes
join_path d name =
    if bytes_eq d [] || bytes_eq d (codes ".")
    then name
    else if bytes_eq d (codes "/")
    then codes "/" ++ name
    else d ++ codes "/" ++ name

-- What stands before the last slash, if there is a slash.
unfoldable pub before_slash : Bytes → Option Bytes
before_slash [] = none
before_slash (c ∷ cs) = elim (before_slash cs) [
  | some p ↦ some (c ∷ p)
  | none ↦ if c == b'/' then some [] else none
]

dir_cases : Option Bytes → Bytes
dir_cases none = codes "."
dir_cases (some []) = codes "/"
dir_cases (some (c ∷ cs)) = c ∷ cs

-- `filepath.Dir` of a clean path.
unfoldable pub dir_of : Bytes → Bytes
unfolding before_slash dir_cases
dir_of path = dir_cases (before_slash path)

-- `strings.Split(s, sep)` for a separator of one byte: the first part, and the others.
unfoldable pub split_on : ℕ → Bytes → Bytes × List Bytes
split_on sep [] = ([], [])
split_on sep (c ∷ cs) =
    let (p, ps) = split_on sep cs in if c == sep then ([], p ∷ ps) else (c ∷ p, ps)

abbrev pub split : ℕ → Bytes → List Bytes
split sep s = let (p, ps) = split_on sep s in p ∷ ps

abbrev pub hex_value : ℕ → ℕ
hex_value c = if leb b'a' c then c - b'a' + 10 else if leb b'A' c then c - b'A' + 10 else c - b'0'

unfoldable pub hex_number : ℕ → Bytes → ℕ
hex_number acc [] = acc
hex_number acc (c ∷ cs) = hex_number (acc * 16 + hex_value c) cs

abbrev pub u32_limit : ℕ
u32_limit = 2 ^ 32

-- `strconv.ParseUint(s, 16, 32)`: an empty text, a byte that is no digit and a number of more than 32
-- bits are errors.
unfoldable pub parse_hex : Bytes → Option ℕ
unfolding all_hex hex_number
parse_hex [] = none
parse_hex (c ∷ cs) =
    if all_hex (c ∷ cs)
    then (let v = hex_number 0 (c ∷ cs) in if ltb v u32_limit then some v else none)
    else none

-- `uint16(v)`
abbrev pub to_uint16 : ℕ → ℕ
to_uint16 v = v % 2 ^ 16

set_vendor : HidDeviceInfo → Option ℕ → HidDeviceInfo
set_vendor info none = info
set_vendor info (some v) = record info { vendor_id = to_uint16 v }

set_product_id : HidDeviceInfo → Option ℕ → HidDeviceInfo
set_product_id info none = info
set_product_id info (some p) = record info { product_id = to_uint16 p }

-- The parts of HID_ID: bus, vendor and product; another number of them is passed over.
set_ids : HidDeviceInfo → List Bytes → HidDeviceInfo
set_ids info (bus ∷ vendor ∷ product ∷ []) =
    set_product_id (set_vendor info (parse_hex vendor)) (parse_hex product)
set_ids info _ = info

-- One line of the uevent file.
unfoldable pub read_line : HidDeviceInfo → Bytes → HidDeviceInfo
unfolding set_ids set_vendor set_product_id
read_line info line =
    if has_prefix line (codes "HID_ID=")
    then set_ids info (split b':' (drop 7 line))
    else if has_prefix line (codes "HID_NAME=")
    then record info { product = trim_space (drop 9 line) }
    else info

unfoldable pub read_lines : HidDeviceInfo → List Bytes → HidDeviceInfo
read_lines info [] = info
read_lines info (line ∷ lines) = read_lines (read_line info line) lines

unfoldable pub read_uevent : HidDeviceInfo → Option Bytes → HidDeviceInfo
unfolding read_lines
read_uevent info none = info
read_uevent info (some content) = read_lines info (split b'\n' content)

-- `sort.Slice` by path.
unfoldable pub insert_by_path : HidDeviceInfo → List HidDeviceInfo → List HidDeviceInfo
insert_by_path d [] = d ∷ []
insert_by_path d (e ∷ es) = elim (compare_bytes e.path d.path) [
  | Ordering.lt ↦ e ∷ insert_by_path d es
  | _ ↦ d ∷ e ∷ es
]

unfoldable pub sort_by_path : List HidDeviceInfo → List HidDeviceInfo
unfolding insert_by_path
sort_by_path [] = []
sort_by_path (d ∷ ds) = insert_by_path d (sort_by_path ds)

abbrev pub dev_path : Bytes → Bytes
dev_path name = codes "/dev/" ++ name

abbrev pub hid_dir : Bytes → Bytes
hid_dir name = join_path (join_path sys_class name) (codes "device")

abbrev pub blank : Bytes → HidDeviceInfo
blank name = record {
  path = dev_path name;
  vendor_id = 0;
  product_id = 0;
  product = [];
  manufacturer = [];
}

module _ (fs : FileSystem) where
  trim_content : Option Bytes → Bytes
  trim_content none = []
  trim_content (some b) = trim_space b

  unfoldable pub read_trim : Bytes → Bytes
  unfolding trim_content
  read_trim p = trim_content (fs.read_file p)

  -- Both `os.Stat` calls succeed.
  abbrev pub is_usb_device : Bytes → Bool
  is_usb_device d =
      fs.stat (join_path d (codes "idVendor")) && fs.stat (join_path d (codes "idProduct"))

  -- The walk upwards, with the rounds that are left.
  unfoldable pub find_from : ℕ → Bytes → Bytes
  find_from zero d = []
  find_from (suc n) d =
      let rest = find_from n (dir_of d) in
      if is_usb_device d then d else if bytes_eq (dir_of d) d then [] else rest

  unfoldable pub find_usb_device_dir : Bytes → Bytes
  unfolding find_from
  find_usb_device_dir start = find_from 8 start

  -- `info` with what the USB device says of itself; `usb` is empty where there is none.
  unfoldable pub read_usb : HidDeviceInfo → Bytes → HidDeviceInfo
  read_usb info usb =
      if bytes_eq usb []
      then info
      else let named =
          if bytes_eq info.manufacturer []
          then record info { manufacturer = read_trim (join_path usb (codes "manufacturer")) }
          else info in
        let p = read_trim (join_path usb (codes "product")) in
        if bytes_eq p [] then named else record named { product = p }

  read_parent : HidDeviceInfo → Option Bytes → HidDeviceInfo
  unfolding read_usb
  read_parent info none = info
  read_parent info (some path) = read_usb info (find_usb_device_dir path)

  -- What the body of the loop finds out about one entry.
  unfoldable pub info_of : Bytes → HidDeviceInfo
  unfolding read_uevent read_parent
  info_of name =
      read_parent
        (read_uevent (blank name) (fs.read_file (join_path (hid_dir name) (codes "uevent"))))
        (fs.eval_symlinks (hid_dir name))

  -- The loop: an entry with no node under /dev is passed over.
  unfoldable pub devices_of : List Bytes → List HidDeviceInfo
  devices_of [] = []
  devices_of (name ∷ names) =
      let rest = devices_of names in if fs.stat (dev_path name) then info_of name ∷ rest else rest

  enumerate_listing : DirResult → Result DeviceError (List HidDeviceInfo)
  unfolding devices_of sort_by_path
  enumerate_listing missing = ok []
  enumerate_listing unreadable = err enumerate
  enumerate_listing (listed names) = ok (sort_by_path (devices_of names))

  unfoldable pub enumerate_hid : Result DeviceError (List HidDeviceInfo)
  unfolding enumerate_listing
  enumerate_hid = enumerate_listing (fs.read_dir sys_class)

-- An open hidraw file and the device it belongs to. The file is the operating system's.
pub record HidRaw {ℓ} (File : Type ℓ) : Type ℓ where
  pub file : File
  pub info : HidDeviceInfo

module _ {ℓ} {File : Type ℓ} (open_file : Bytes → Option File) where
  opened : HidDeviceInfo → Option File → Result DeviceError (HidRaw File)
  opened info none = err open_failed
  opened info (some f) = ok (record { file = f; info = info })

  -- `open_file` is `os.OpenFile` for reading and writing.
  unfoldable pub open_hid : HidDeviceInfo → Result DeviceError (HidRaw File)
  unfolding opened
  open_hid info =
      if bytes_eq info.path [] then err open_failed else opened info (open_file info.path)

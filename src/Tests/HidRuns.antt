-- ===== src/Tests/HidRuns.antt =====
-- Runs of the enumeration of the HID devices.
use lp_700_server.Prelude.{
  ◌≡◌, refl, ◌||◌, [], ◌∷◌, ◌++◌, map, none, some, arith, if◌then◌else◌, codes,
}
use lp_700_server.Meter.Snapshot.{Bytes, bytes_eq}
use lp_700_server.Meter.Hidraw.{
  FileSystem, listed, sys_class, blank, info_of, devices_of, enumerate_hid, to_uint16, read_line,
  read_uevent, split_on, parse_hex, sort_by_path, find_usb_device_dir, dir_of, read_trim, read_usb,
}
use lp_700_server.Meter.Hidraw.Sorted.{Enumerated, enumerate_hid-Enumerated}
use lp_700_server.Meter.Hidraw.Uevent.{id_line, name_line, read_uevent-printed}
use lp_700_server.Update.Compare.{compare_bytes}
use lp_700_server.Update.Version.{trim_space}

abbrev usb_dir : Bytes
usb_dir = codes "/sys/devices/usb1/1-1"

-- Two nodes; the meter is on the second, three levels below its USB device, and a third has no node
-- under /dev.
abbrev machine : FileSystem
machine = record {
  read_dir = λ p. listed (codes "hidraw1" ∷ codes "hidraw0" ∷ codes "hidraw7" ∷ []);
  stat = λ p.
      bytes_eq p (codes "/dev/hidraw0")
      || bytes_eq p (codes "/dev/hidraw1")
      || bytes_eq p (codes "/sys/devices/usb1/1-1/idVendor")
      || bytes_eq p (codes "/sys/devices/usb1/1-1/idProduct");
  read_file = λ p.
      if bytes_eq p (codes "/sys/class/hidraw/hidraw1/device/uevent")
      then some
          (codes "HID_ID=0003:000104D8:00000001" ++ b'\n' ∷ codes "HID_NAME= Microchip LP-500 ")
      else if bytes_eq p (codes "/sys/devices/usb1/1-1/product")
      then some (codes "LP-500" ++ b'\n' ∷ [])
      else none;
  eval_symlinks = λ p.
      if bytes_eq p (codes "/sys/class/hidraw/hidraw1/device")
      then some (codes "/sys/devices/usb1/1-1/1-1:1.0/0003")
      else none;
}

-- The vendor is cut to its low 16 bits, and the product is the USB device's.
meter_found : info_of machine (codes "hidraw1") ≡ record {
  path = codes "/dev/hidraw1";
  vendor_id = 1240;
  product_id = 1;
  product = codes "LP-500";
  manufacturer = [];
}
unfolding info_of split_on parse_hex read_line trim_space find_usb_device_dir dir_of read_trim
    read_usb
meter_found = refl

in_order :
    map
      (λ d. d.path)
      (sort_by_path (devices_of machine (codes "hidraw1" ∷ codes "hidraw0" ∷ codes "hidraw7" ∷ [])))
    ≡ codes "/dev/hidraw0" ∷ codes "/dev/hidraw1" ∷ []
unfolding sort_by_path devices_of info_of compare_bytes split_on parse_hex read_line trim_space
    find_usb_device_dir dir_of read_trim read_usb
in_order = refl

enumerate_hid-Enumerated_example :
    Enumerated machine (machine.read_dir sys_class) (enumerate_hid machine)
enumerate_hid-Enumerated_example = enumerate_hid-Enumerated machine

read_uevent-printed_example :
    read_uevent
      (blank (codes "hidraw1"))
      (some (id_line 3 0x104d8 1 ++ b'\n' ∷ name_line (codes "LP-500 ")))
    ≡ record (blank (codes "hidraw1")) {
      vendor_id = to_uint16 0x104d8;
      product_id = to_uint16 1;
      product = trim_space (codes "LP-500 ");
    }
read_uevent-printed_example =
    read_uevent-printed (blank (codes "hidraw1")) 3 0x104d8 1 (codes "LP-500 ") (omega arith)
      (omega arith) (refl, (refl, (refl, (refl, (refl, (refl, (refl, tt)))))))

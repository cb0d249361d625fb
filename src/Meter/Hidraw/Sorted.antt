-- ===== src/Meter/Hidraw/Sorted.antt =====
-- The list of the devices (hid_linux.go, enumerateHID): what is in it, and in which order.
use mathlib.Core.List.{Perm}
use mathlib.Core.List.Perm
use lp_700_server.Prelude.{
  ◌≡◌, ◌≢◌, refl, List, [], ◌∷◌, map, Ordering, arith, Bool-cases, inl, inr, if◌then◌else◌,
}
use lp_700_server.Prelude.Result.{Result, ok, err}
use lp_700_server.Meter.Snapshot.{Bytes}
use lp_700_server.Meter.Device.{HidDeviceInfo, DeviceError, enumerate}
use lp_700_server.Meter.Hidraw.{
  FileSystem, DirResult, listed, missing, unreadable, sys_class, dev_path, info_of, devices_of,
  insert_by_path, sort_by_path, enumerate_listing, enumerate_hid,
}
use lp_700_server.Update.Compare.{compare_bytes}
use lp_700_server.Update.Compare.Parts.{bytes-turns}

-- The path of `d` does not come after that of any device which heads the list.
abbrev LeHead : HidDeviceInfo → List HidDeviceInfo → Type 0
LeHead d [] = Unit
LeHead d (e ∷ es) = compare_bytes d.path e.path ≢ Ordering.gt

-- Each path is at most the next one.
abbrev pub IsSorted : List HidDeviceInfo → Type 0
IsSorted [] = Unit
IsSorted (d ∷ ds) = LeHead d ds × IsSorted ds

-- The entries that have a node under /dev.
abbrev pub present : FileSystem → List Bytes → List Bytes
present fs [] = []
present fs (name ∷ names) =
    if fs.stat (dev_path name) then name ∷ present fs names else present fs names

insert-perm : (d : HidDeviceInfo) (ds : List HidDeviceInfo) → Perm (insert_by_path d ds) (d ∷ ds)
unfolding insert_by_path
insert-perm d [] = Perm.rfl
insert-perm d (e ∷ es) =
    elim (compare_bytes e.path d.path)
      as (λ o.
        Perm (elim o [ Ordering.lt ↦ e ∷ insert_by_path d es | _ ↦ d ∷ e ∷ es ]) (d ∷ e ∷ es)) [
          | Ordering.lt ↦ Perm.trans (Perm.cons e (insert-perm d es)) (Perm.swap d e es)
          | Ordering.eq ↦ Perm.rfl
          | Ordering.gt ↦ Perm.rfl
        ]

sort-perm : (ds : List HidDeviceInfo) → Perm (sort_by_path ds) ds
unfolding sort_by_path
sort-perm [] = Perm.rfl
sort-perm (d ∷ ds) = Perm.trans (insert-perm d (sort_by_path ds)) (Perm.cons d (sort-perm ds))

-- Neither `d` nor the head of the list comes after the head once `d` is inserted.
LeHead-insert :
    (a d : HidDeviceInfo) (ds : List HidDeviceInfo)
    → compare_bytes a.path d.path ≢ Ordering.gt
    → LeHead a ds
    → LeHead a (insert_by_path d ds)
unfolding insert_by_path
LeHead-insert a d [] h k = h
LeHead-insert a d (e ∷ es) h k =
    elim (compare_bytes e.path d.path)
      as (λ o. LeHead a (elim o [ Ordering.lt ↦ e ∷ insert_by_path d es | _ ↦ d ∷ e ∷ es ])) [
        | Ordering.lt ↦ k
        | Ordering.eq ↦ h
        | Ordering.gt ↦ h
      ]

insert-IsSorted_step :
    (d e : HidDeviceInfo) (es : List HidDeviceInfo) (o : Ordering)
    → compare_bytes e.path d.path ≡ o
    → IsSorted (e ∷ es)
    → IsSorted (insert_by_path d es)
    → IsSorted (elim o [ Ordering.lt ↦ e ∷ insert_by_path d es | _ ↦ d ∷ e ∷ es ])
insert-IsSorted_step d e es Ordering.lt h s ih =
    (LeHead-insert e d es (λ g. absurd (cc (h, g))) s.0, ih)
insert-IsSorted_step d e es Ordering.eq h s ih =
    ((λ g. let t = bytes-turns e.path d.path in absurd (ground (arith, t, h, g))), s)
insert-IsSorted_step d e es Ordering.gt h s ih =
    ((λ g. let t = bytes-turns e.path d.path in absurd (ground (arith, t, h, g))), s)

insert-IsSorted :
    (d : HidDeviceInfo) (ds : List HidDeviceInfo) → IsSorted ds → IsSorted (insert_by_path d ds)
unfolding insert_by_path
insert-IsSorted d [] s = (tt, tt)
insert-IsSorted d (e ∷ es) s =
    insert-IsSorted_step d e es (compare_bytes e.path d.path) refl s (insert-IsSorted d es s.1)

sort-IsSorted : (ds : List HidDeviceInfo) → IsSorted (sort_by_path ds)
unfolding sort_by_path
sort-IsSorted [] = tt
sort-IsSorted (d ∷ ds) = insert-IsSorted d (sort_by_path ds) (sort-IsSorted ds)

devices_of_lem :
    (fs : FileSystem) (names : List Bytes)
    → devices_of fs names ≡ map (info_of fs) (present fs names)
unfolding devices_of
devices_of_lem fs [] = refl
devices_of_lem fs (name ∷ names) = elim (Bool-cases (fs.stat (dev_path name))) [
  | inl e ↦ rw e (rw (devices_of_lem fs names) refl)
  | inr e ↦ rw e (devices_of_lem fs names)
]

-- What the enumeration gives for each answer about the class directory.
abbrev pub Enumerated : FileSystem → DirResult → Result DeviceError (List HidDeviceInfo) → Type 0
Enumerated fs missing r = r ≡ ok []
Enumerated fs unreadable r = r ≡ err enumerate
Enumerated fs (listed names) r =
    (ds : List HidDeviceInfo) × (r ≡ ok ds)
    × IsSorted ds
    × Perm ds (map (info_of fs) (present fs names))

listing-Enumerated :
    (fs : FileSystem) (dir : DirResult) → Enumerated fs dir (enumerate_listing fs dir)
unfolding enumerate_listing
listing-Enumerated fs missing = refl
listing-Enumerated fs unreadable = refl
listing-Enumerated fs (listed names) = (
  sort_by_path (devices_of fs names),
  refl,
  sort-IsSorted (devices_of fs names),
  rw (← devices_of_lem fs names) (sort-perm (devices_of fs names)),
)

-- The enumeration gives exactly one device for each entry of the class directory that has a node under
-- /dev, in the order of their paths. No class directory means no devices, and a directory that cannot
-- be read is an error.
pub enumerate_hid-Enumerated :
    (fs : FileSystem) → Enumerated fs (fs.read_dir sys_class) (enumerate_hid fs)
unfolding enumerate_hid
enumerate_hid-Enumerated fs = listing-Enumerated fs (fs.read_dir sys_class)

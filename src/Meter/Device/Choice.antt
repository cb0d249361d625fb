-- ===== src/Meter/Device/Choice.antt =====
-- Which device the owner opens (owner.go, findDevice), and whether `auto` foresees it (probe.go,
-- HasLPMeterAttached).
use lp_700_server.Prelude.{
  ℕ, ◌≡◌, ◌≢◌, ◌<◌, refl, ◌⊎◌, inl, inr, ◌↔◌, Bool, true, false, List, [], ◌∷◌, Option, none, some,
  arith, Bool-cases, All,
}
use lp_700_server.Prelude.Result.{ok, err}
use lp_700_server.Meter.Device.{
  HidDeviceInfo, not_found, is_lp_meter, first, has_ids, is_configured, find_device,
  has_lp_meter_attached, default_vendor_id, default_product_id,
}

-- `d` stands in `ds` and passes the test, and nothing before it does.
abbrev pub IsFirst : (HidDeviceInfo → Bool) → HidDeviceInfo → List HidDeviceInfo → Type 0
IsFirst p d [] = ⊥
IsFirst p d (e ∷ ds) = ((e ≡ d) × (p e ≡ true)) ⊎ ((p e ≡ false) × IsFirst p d ds)

abbrev pub None : (HidDeviceInfo → Bool) → List HidDeviceInfo → Type 0
None p ds = All (λ d. p d ≡ false) ds

first-cases :
    (p : HidDeviceInfo → Bool) (ds : List HidDeviceInfo)
    → ((first p ds ≡ none) × None p ds)
      ⊎ ((d : HidDeviceInfo) × (first p ds ≡ some d) × IsFirst p d ds)
first-cases p [] = inl (refl, tt)
first-cases p (d ∷ ds) = elim (Bool-cases (p d)) [
  | inl e ↦ inr (d, rw e refl, inl (refl, e))
  | inr e ↦ elim (first-cases p ds) [
    | inl (n, a) ↦ inl (rw e n, (e, a))
    | inr (f, n, a) ↦ inr (f, rw e n, inr (e, a))
  ]
]

abbrev pub by_name : HidDeviceInfo → Bool
by_name d = is_lp_meter d.product

abbrev pub Chosen : ℕ → ℕ → List HidDeviceInfo → HidDeviceInfo → Type 0
Chosen vendor product ds d =
    ((is_configured vendor product ≡ true) × IsFirst (has_ids vendor product) d ds)
    ⊎ (((is_configured vendor product ≡ false) ⊎ None (has_ids vendor product) ds)
        × IsFirst by_name d ds)

abbrev pub Absent : ℕ → ℕ → List HidDeviceInfo → Type 0
Absent vendor product ds =
    ((is_configured vendor product ≡ false) ⊎ None (has_ids vendor product) ds) × None by_name ds

-- Among any devices the owner takes the first with the configured ids, if they are both set and there
-- is one, else the first whose product names an LP-500 or LP-700; it fails with `not_found` exactly
-- when there is neither.
pub find_device-Chosen :
    (vendor product : ℕ) (d : HidDeviceInfo) (ds : List HidDeviceInfo)
    → ((c : HidDeviceInfo) × (find_device vendor product (some (d ∷ ds)) ≡ ok c)
        × Chosen vendor product (d ∷ ds) c)
      ⊎ ((find_device vendor product (some (d ∷ ds)) ≡ err not_found)
          × Absent vendor product (d ∷ ds))
find_device-Chosen vendor product d ds = elim (Bool-cases (is_configured vendor product)) [
  | inr e ↦ elim (first-cases by_name (d ∷ ds)) [
    | inl (n, a) ↦ inr (unfold find_device in rw e (rw n refl), (inl e, a))
    | inr (c, n, a) ↦ inl (c, unfold find_device in rw e (rw n refl), inr (inl e, a))
  ]
  | inl e ↦ elim (first-cases (has_ids vendor product) (d ∷ ds)) [
    | inr (c, n, a) ↦ inl (c, unfold find_device in rw e (rw n refl), inl (e, a))
    | inl (m, b) ↦ elim (first-cases by_name (d ∷ ds)) [
      | inl (n, a) ↦ inr (unfold find_device in rw e (rw m (rw n refl)), (inr b, a))
      | inr (c, n, a) ↦ inl (c, unfold find_device in rw e (rw m (rw n refl)), inr (inr b, a))
    ]
  ]
]

not_attached :
    (ds : List HidDeviceInfo)
    → None (has_ids default_vendor_id default_product_id) ds
    → None by_name ds
    → has_lp_meter_attached (some ds) ≡ false
unfolding has_lp_meter_attached
not_attached [] h k = refl
not_attached (d ∷ ds) (h, hs) (k, ks) = rw k (rw h (not_attached ds hs ks))

attached_by_ids :
    (c : HidDeviceInfo) (ds : List HidDeviceInfo)
    → IsFirst (has_ids default_vendor_id default_product_id) c ds
    → has_lp_meter_attached (some ds) ≡ true
unfolding has_lp_meter_attached
attached_by_ids c [] h = absurd h
attached_by_ids c (d ∷ ds) h = elim (Bool-cases (is_lp_meter d.product)) [
  | inl e ↦ rw e refl
  | inr e ↦ elim h [
    | inl (_, k) ↦ rw e (rw k refl)
    | inr (k, t) ↦ rw e (rw k (attached_by_ids c ds t))
  ]
]

attached_by_name :
    (c : HidDeviceInfo) (ds : List HidDeviceInfo)
    → IsFirst by_name c ds
    → has_lp_meter_attached (some ds) ≡ true
unfolding has_lp_meter_attached
attached_by_name c [] h = absurd h
attached_by_name c (d ∷ ds) (inl (_, k)) = rw k refl
attached_by_name c (d ∷ ds) (inr (k, t)) =
    elim (Bool-cases (has_ids default_vendor_id default_product_id d)) [
      | inl e ↦ rw k (rw e refl)
      | inr e ↦ rw k (rw e (attached_by_name c ds t))
    ]

attached_iff_among :
    (d : HidDeviceInfo) (ds : List HidDeviceInfo)
    → (has_lp_meter_attached (some (d ∷ ds)) ≡ true) ↔ (
        (c : HidDeviceInfo) × (find_device default_vendor_id default_product_id (some (d ∷ ds))
          ≡ ok c))
attached_iff_among d ds = elim (find_device-Chosen default_vendor_id default_product_id d ds) [
  | inl (c, e, h) ↦ (
    (λ _. (c, e)),
    (λ _. elim h [
      | inl (_, f) ↦ attached_by_ids c (d ∷ ds) f
      | inr (_, f) ↦ attached_by_name c (d ∷ ds) f
    ]),
  )
  | inr (e, (none_of, k)) ↦ elim none_of [
    | inl f ↦ absurd (cc f)
    | inr f ↦ ((λ h. absurd (cc (h, not_attached (d ∷ ds) f k))), (λ (c, g). absurd (cc (e, g))))
  ]
]

-- With the default ids, `auto` takes the real meter exactly if the owner would find a device.
pub attached_iff_found :
    (devices : Option (List HidDeviceInfo))
    → (has_lp_meter_attached devices ≡ true)
      ↔ ((d : HidDeviceInfo) × (find_device default_vendor_id default_product_id devices ≡ ok d))
unfolding find_device has_lp_meter_attached
attached_iff_found none = ((λ h. absurd (cc h)), (λ (d, e). absurd (cc e)))
attached_iff_found (some []) = ((λ h. absurd (cc h)), (λ (d, e). absurd (cc e)))
attached_iff_found (some (d ∷ ds)) = attached_iff_among d ds

-- Configured ids other than the default ones, of a device with another name, are not looked at: `auto`
-- falls back to the simulator although the owner would open this device.
pub configured_ids_ignored :
    (d : HidDeviceInfo)
    → 0 < d.vendor_id
    → 0 < d.product_id
    → (d.vendor_id ≢ default_vendor_id) ⊎ (d.product_id ≢ default_product_id)
    → is_lp_meter d.product ≡ false
    → (find_device d.vendor_id d.product_id (some (d ∷ [])) ≡ ok d)
      × (has_lp_meter_attached (some (d ∷ [])) ≡ false)
unfolding find_device has_lp_meter_attached
configured_ids_ignored d hv hp other h = (ground arith, ground (arith, h))

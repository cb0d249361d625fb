-- ===== src/Meter/Hidraw/Uevent.antt =====
-- Reading back the lines that the kernel prints in a uevent file (hid_linux.go, enumerateHID):
-- HID_ID with the bus in four hexadecimal digits, vendor and product in eight each, and HID_NAME.
use lp_700_server.Prelude.{
  ℕ, zero, suc, ◌+◌, ◌-◌, ◌*◌, ◌/◌, ◌%◌, ◌<◌, ◌≡◌, refl, ap, ◌∙◌, ◌⊎◌, inl, inr, Bool, true, false,
  not, ◌&&◌, [], ◌∷◌, ◌++◌, some, arith, ltb, ◌==◌, if◌then◌else◌, codes, All, All-append, All-imp,
}
use lp_700_server.Meter.Snapshot.{Bytes}
use lp_700_server.Meter.Device.{HidDeviceInfo}
use lp_700_server.Meter.Hidraw.{
  split_on, split, hex_value, hex_number, u32_limit, parse_hex, to_uint16, read_line, read_lines,
  read_uevent,
}
use lp_700_server.Update.Version.{trim_space, is_hex, all_hex}

abbrev pub hex_digit : ℕ → ℕ
hex_digit n = if ltb n 10 then b'0' + n else b'A' + (n - 10)

-- `%0kX`: the last `k` hexadecimal digits of a number.
unfoldable pub print_hex : ℕ → ℕ → Bytes
print_hex zero n = []
print_hex (suc k) n = print_hex k (n / 16) ++ hex_digit (n % 16) ∷ []

-- The number has no more than `k` hexadecimal digits.
abbrev FitsHex : ℕ → ℕ → Type 0
FitsHex zero n = n ≡ 0
FitsHex (suc k) n = FitsHex k (n / 16)

hex_number-snoc :
    (acc : ℕ) (ds : Bytes) (c : ℕ)
    → hex_number acc (ds ++ c ∷ []) ≡ hex_number acc ds * 16 + hex_value c
unfolding hex_number
hex_number-snoc acc [] c = refl
hex_number-snoc acc (d ∷ ds) c = hex_number-snoc (acc * 16 + hex_value d) ds c

hex_value-hex_digit : (n : ℕ) → n < 16 → hex_value (hex_digit n) ≡ n
hex_value-hex_digit n h = ground arith

hex_number-print_hex : (k n : ℕ) → FitsHex k n → hex_number 0 (print_hex k n) ≡ n
unfolding print_hex
hex_number-print_hex zero n h = unfold hex_number in omega arith
hex_number-print_hex (suc k) n h =
    hex_number-snoc 0 (print_hex k (n / 16)) (hex_digit (n % 16))
    ∙ omega (arith, hex_number-print_hex k (n / 16) h, hex_value-hex_digit (n % 16) (omega arith))

abbrev IsHex : ℕ → Type 0
IsHex c = is_hex c ≡ true

hex_digit-IsHex : (n : ℕ) → n < 16 → IsHex (hex_digit n)
unfolding is_hex
hex_digit-IsHex n h = ground arith

print_hex-IsHex : (k n : ℕ) → All IsHex (print_hex k n)
unfolding print_hex
print_hex-IsHex zero n = tt
print_hex-IsHex (suc k) n =
    All-append IsHex (print_hex k (n / 16)) _ (hex_digit-IsHex (n % 16) (omega arith), tt)
      (print_hex-IsHex k (n / 16))

all_hex-All : (s : Bytes) → All IsHex s → all_hex s ≡ true
unfolding all_hex
all_hex-All [] h = refl
all_hex-All (c ∷ cs) (h, hs) = rw h (all_hex-All cs hs)

print_hex-cons : (k n : ℕ) → (c : ℕ) × (cs : Bytes) × (print_hex (suc k) n ≡ c ∷ cs)
unfolding print_hex
print_hex-cons zero n = (hex_digit (n % 16), [], refl)
print_hex-cons (suc k) n =
    let (c, cs, e) = print_hex-cons k (n / 16) in (c, cs ++ hex_digit (n % 16) ∷ [], rw e)

parse_hex-digits :
    (c : ℕ) (cs : Bytes)
    → all_hex (c ∷ cs) ≡ true
    → hex_number 0 (c ∷ cs) < u32_limit
    → parse_hex (c ∷ cs) ≡ some (hex_number 0 (c ∷ cs))
unfolding parse_hex
parse_hex-digits c cs h k = ground arith

parse_hex-print_hex : (n : ℕ) → n < u32_limit → parse_hex (print_hex 8 n) ≡ some n
parse_hex-print_hex n h =
    let (c, cs, e) = print_hex-cons 7 n in
    let value = hex_number-print_hex 8 n (omega arith) in
    let digits : all_hex (c ∷ cs) ≡ true =
      rw (← e) (all_hex-All (print_hex 8 n) (print_hex-IsHex 8 n)) in
    let same : hex_number 0 (c ∷ cs) ≡ n = rw (← e) value in
    rw e (parse_hex-digits c cs digits (rw same h) ∙ ap some same)

-- None of the bytes is the separator.
abbrev pub Without : ℕ → Bytes → Type 0
Without sep s = All (λ c. (c == sep) ≡ false) s

without : ℕ → Bytes → Bool
without sep [] = true
without sep (c ∷ cs) = not (c == sep) && without sep cs

without-Without : (sep : ℕ) (s : Bytes) → without sep s ≡ true → Without sep s
unfolding without
without-Without sep [] h = tt
without-Without sep (c ∷ cs) h = (ground arith, without-Without sep cs (ground arith))

split_on-part :
    (sep : ℕ) (s t : Bytes) → Without sep s → split_on sep (s ++ sep ∷ t) ≡ (s, split sep t)
unfolding split_on
split_on-part sep [] t h = ground arith
split_on-part sep (c ∷ s) t (h, hs) = rw h (rw (split_on-part sep s t hs) refl)

split_on-last : (sep : ℕ) (s : Bytes) → Without sep s → split_on sep s ≡ (s, [])
unfolding split_on
split_on-last sep [] h = refl
split_on-last sep (c ∷ s) (h, hs) = rw h (rw (split_on-last sep s hs) refl)

IsHex-ne : (sep c : ℕ) → (sep ≡ b':') ⊎ (sep ≡ b'\n') → IsHex c → (c == sep) ≡ false
unfolding is_hex
IsHex-ne sep c (inl e) h = ground arith
IsHex-ne sep c (inr e) h = ground arith

print_hex-Without : (sep k n : ℕ) → (sep ≡ b':') ⊎ (sep ≡ b'\n') → Without sep (print_hex k n)
print_hex-Without sep k n e =
    All-imp (λ c h. IsHex-ne sep c e h) (print_hex k n) (print_hex-IsHex k n)

-- `%04X:%08X:%08X`
pub print_ids : ℕ → ℕ → ℕ → Bytes
print_ids bus vendor product =
    print_hex 4 bus ++ b':' ∷ (print_hex 8 vendor ++ b':' ∷ print_hex 8 product)

abbrev pub id_line : ℕ → ℕ → ℕ → Bytes
id_line bus vendor product = codes "HID_ID=" ++ print_ids bus vendor product

abbrev pub name_line : Bytes → Bytes
name_line name = codes "HID_NAME=" ++ name

split-print_ids :
    (bus vendor product : ℕ)
    → split b':' (print_ids bus vendor product)
      ≡ print_hex 4 bus ∷ print_hex 8 vendor ∷ print_hex 8 product ∷ []
unfolding print_ids
split-print_ids bus vendor product =
    rw
      (
        split_on-part b':' (print_hex 4 bus) (print_hex 8 vendor ++ b':' ∷ print_hex 8 product)
            (print_hex-Without b':' 4 bus (inl refl)),
        split_on-part b':' (print_hex 8 vendor) (print_hex 8 product)
            (print_hex-Without b':' 8 vendor (inl refl)),
        split_on-last b':' (print_hex 8 product) (print_hex-Without b':' 8 product (inl refl)),
      )
      refl

read_line-id_line :
    (info : HidDeviceInfo) (bus vendor product : ℕ)
    → vendor < u32_limit
    → product < u32_limit
    → read_line info (id_line bus vendor product)
      ≡ record info { vendor_id = to_uint16 vendor; product_id = to_uint16 product }
unfolding read_line
read_line-id_line info bus vendor product hv hp =
    rw (split-print_ids bus vendor product)
      (rw (parse_hex-print_hex vendor hv, parse_hex-print_hex product hp) refl)

read_line-name_line :
    (info : HidDeviceInfo) (name : Bytes)
    → read_line info (name_line name) ≡ record info { product = trim_space name }
unfolding read_line
read_line-name_line info name = refl

id_line-Without : (bus vendor product : ℕ) → Without b'\n' (id_line bus vendor product)
unfolding print_ids without
id_line-Without bus vendor product =
    let part = λ (k n : ℕ). print_hex-Without b'\n' k n (inr refl) in
    All-append _ (codes "HID_ID=") _
      (All-append _ (print_hex 4 bus) _
        (refl, All-append _ (print_hex 8 vendor) _ (refl, part 8 product) (part 8 vendor))
        (part 4 bus))
      (without-Without b'\n' (codes "HID_ID=") refl)

-- The id line and the name line of a device with ids of at most 32 bits and a name of one line are
-- read back: vendor and product cut down to their low 16 bits, the name without the spaces round it,
-- the rest as it was.
pub read_uevent-printed :
    (info : HidDeviceInfo) (bus vendor product : ℕ) (name : Bytes)
    → vendor < u32_limit
    → product < u32_limit
    → Without b'\n' name
    → read_uevent info (some (id_line bus vendor product ++ b'\n' ∷ name_line name)) ≡ record info {
      vendor_id = to_uint16 vendor;
      product_id = to_uint16 product;
      product = trim_space name;
    }
unfolding read_uevent without
read_uevent-printed info bus vendor product name hv hp hn =
    rw
      (split_on-part b'\n' (id_line bus vendor product) (name_line name)
        (id_line-Without bus vendor product))
      (rw
        (split_on-last b'\n' (name_line name) (
          All-append _ (codes "HID_NAME=") name hn
            (without-Without b'\n' (codes "HID_NAME=") refl)))
        (unfold read_lines in
          rw (read_line-id_line info bus vendor product hv hp) (read_line-name_line _ name)))

-- ===== src/Meter/Probe/Print.antt =====
-- internal/lpmeter/probe.go: what the probe prints. Each constructor of Line is one call of Fprintf or
-- Fprintln, with the values that its format string shows.
use lp_700_server.Prelude.{
  ℕ, ◌-◌, Bool, false, ◌&&◌, String, List, [], ◌∷◌, ◌++◌, map, leb, if◌then◌else◌, codes, take,
  length,
}
use lp_700_server.Prelude.Decimal.{print_decimal, pad_left, hex_text}
use lp_700_server.Prelude.Int.{ℤ}
use lp_700_server.Prelude.Result.{ok, err}
use lp_700_server.Meter.Snapshot.{Bytes}
use lp_700_server.Meter.Frame.{byte_at, be16, all_zero}
use lp_700_server.Meter.Decode.{DecodeError, decode, is_skippable}
use lp_700_server.Meter.Device.{HidDeviceInfo}

-- What a printed frame is said to be. A reading shows the fields of its snapshot.
pub data Human : Type 0 where
  reading : ℤ → Bool → ℕ → ℕ → ℕ → String → Human
  non_telemetry : ℕ → Human
  decode_error : DecodeError → Human

pub data Line : Type 0 where
  no_devices columns : Line
  device_row : Bool → Bytes → ℕ → ℕ → Bytes → Bytes → Line
  opened : HidDeviceInfo → Line
  dump_legend samples_legend : Line
  raw_frame : Bytes → Human → Line
  capturing : Bytes → Line
  wrote : ℕ → Bytes → Line
  command_header : ℕ → Line
  full_frame : ℕ → Bytes → Line
  more_identical : ℕ → Line
  silence : ℕ → Line
  observed_mode : String → String → ℕ → Line
  observed_channel : ℤ → Bool → ℤ → ℕ → Line
  observed_range : String → String → ℕ → Line
  starting_state : String → ℤ → Bool → String → Line
  to_power_swr : Line
  driving_channel : ℤ → Line
  driving_range : String → Line
  entering_mode restoring_mode : String → Line
  warning finished : Line

-- The `if … else if … else` of printFrame. IsSkippable is asked of the error of the same call.
human_of : DecodeError → Bytes → Human
human_of e frame = if is_skippable e then non_telemetry (byte_at frame 0) else decode_error e

unfoldable pub print_frame : ℕ → Bytes → Line
unfolding human_of
print_frame now frame = raw_frame frame (elim (decode now frame) [
  | ok s ↦ reading s.channel s.auto_channel s.power_avg s.power_peak s.swr s.range
  | err e ↦ human_of e frame
])

-- The three bytes of the character that stands for what was cut off.
abbrev pub ellipsis : Bytes
ellipsis = 226 ∷ 128 ∷ 166 ∷ []

unfoldable pub truncate : Bytes → ℕ → Bytes
truncate s n = if leb (length s) n then s else take (n - 1) s ++ ellipsis

-- `join`: the loop, after the first part.
join_rest : List Bytes → Bytes → Bytes
join_rest [] sep = []
join_rest (p ∷ ps) sep = sep ++ (p ++ join_rest ps sep)

unfoldable pub join : List Bytes → Bytes → Bytes
unfolding join_rest
join [] sep = []
join (p ∷ ps) sep = p ++ join_rest ps sep

-- The byte-0 test and the loop over the other bytes.
unfoldable pub echo_tag : Bytes → Bool
unfolding all_zero
echo_tag [] = false
echo_tag (b ∷ bs) = leb b'0' b && leb b b'?' && all_zero bs

-- The big-endian view: one number for each two bytes.
unfoldable pub be_views : Bytes → List ℕ
be_views (hi ∷ lo ∷ rest) = be16 hi lo ∷ be_views rest
be_views _ = []

u8_line : Bytes → Bytes
unfolding join
u8_line frame =
    codes "       u8 :  " ++ join (map (λ b. pad_left 3 (print_decimal b)) frame) (codes " ")

be_line : Bytes → Bytes
unfolding join be_views
be_line frame =
    codes "       BE :  "
    ++ join (map (λ v. pad_left 5 (print_decimal v)) (be_views frame)) (codes " ")

head_line : ℕ → Bytes → Bytes
unfolding echo_tag hex_text
head_line idx frame =
    codes "  ["
    ++ pad_left 2 (print_decimal idx)
    ++ codes "]"
    ++ (if echo_tag frame then codes " [ECHO]" else [])
    ++ codes " b0=0x"
    ++ hex_text (byte_at frame 0 ∷ [])
    ++ codes " b3="
    ++ print_decimal (byte_at frame 3)
    ++ codes " b4="
    ++ print_decimal (byte_at frame 4)
    ++ codes " b6="
    ++ print_decimal (byte_at frame 6)
    ++ codes "  hex="
    ++ hex_text frame

-- The three lines of formatFullFrame.
unfoldable pub format_full_frame : Bytes → ℕ → List Bytes
unfolding head_line u8_line be_line
format_full_frame frame idx = head_line idx frame ∷ u8_line frame ∷ be_line frame ∷ []

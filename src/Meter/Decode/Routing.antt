-- ===== src/Meter/Decode/Routing.antt =====
-- How the owner's frame tests (owner.go) and Decode (decode.go) agree.
use lp_700_server.Prelude.{
  ℕ, ◌<◌, ◌≤◌, ◌≡◌, refl, ◌↔◌, true, false, [], ◌∷◌, arith, length, replicate, inl, inr,
}
use lp_700_server.Prelude.Result.{ok, err, Result-cases}
use lp_700_server.Meter.Snapshot.{Bytes, Snapshot}
use lp_700_server.Meter.Frame.{
  report_size, byte_at, is_command_echo, is_likely_telemetry, raw_peak, raw_avg, raw_swr,
}
use lp_700_server.Meter.Decode.{
  DecodeError, skip_frame, bad_channel, bad_range, is_echo, decode, decode_fields, decode_channel,
  decode_range, snapshot_of,
}

-- The two echo tests of the program give the same answer.
pub is_echo-eq : (f : Bytes) → is_echo f ≡ is_command_echo f
unfolding is_echo is_command_echo
is_echo-eq [] = refl
is_echo-eq (b ∷ bs) = ground arith

decode_fields-ne_skip : (now : ℕ) (r : Bytes) → decode_fields now r ≡ err skip_frame → ⊥
unfolding decode_fields
decode_fields-ne_skip now r h = ground arith

-- Decode skips a 64-byte report exactly when the owner's test calls it a command echo.
pub decode-skip_iff :
    (now : ℕ) (r : Bytes)
    → length r ≡ report_size
    → (decode now r ≡ err skip_frame) ↔ (is_command_echo r ≡ true)
unfolding decode
decode-skip_iff now r h = (
  (λ e. ground (arith, is_echo-eq r, decode_fields-ne_skip now r)),
  (λ e. ground (arith, is_echo-eq r)),
)

-- What the header tests of `is_likely_telemetry` leave.
pub record IsTelemetry (f : Bytes) : Type 0 where
  pub sized : length f ≡ report_size
  pub mode_le : byte_at f 3 ≤ 3
  pub channel_le : byte_at f 4 ≤ 4
  pub auto_le : byte_at f 5 ≤ 4
  pub range_lt : byte_at f 6 < 12
  pub alarm_le : byte_at f 7 ≤ 1
  pub peak_mode_lt : byte_at f 8 < 3
  pub coherent : raw_avg f ≤ raw_peak f
  pub swr_le : raw_swr f ≤ 1000

pub is_likely_telemetry_iff : (f : Bytes) → (is_likely_telemetry f ≡ true) ↔ IsTelemetry f
unfolding is_likely_telemetry
is_likely_telemetry_iff f = ((λ h. ground arith), (λ h. ground arith))

pub decode_channel-err :
    (ch auto : ℕ) {e : DecodeError}
    → decode_channel ch auto ≡ err e
    → (4 < ch) × (e ≡ bad_channel ch)
unfolding decode_channel
decode_channel-err ch auto h = ground arith

pub decode_range-err :
    (rng : ℕ) {e : DecodeError} → decode_range rng ≡ err e → (12 ≤ rng) × (e ≡ bad_range rng)
unfolding decode_range
decode_range-err rng h = ground arith

decode_fields_ok :
    (now : ℕ) (r : Bytes)
    → byte_at r 4 ≤ 4
    → byte_at r 6 < 12
    → (s : Snapshot) × (decode_fields now r ≡ ok s)
unfolding decode_fields
decode_fields_ok now r h k = elim (Result-cases (decode_channel (byte_at r 4) (byte_at r 5))) [
  | inr (e, p) ↦ absurd (omega (arith, (decode_channel-err (byte_at r 4) (byte_at r 5) p).0))
  | inl (ch, p) ↦ elim (Result-cases (decode_range (byte_at r 6))) [
    | inr (e, q) ↦ absurd (omega (arith, (decode_range-err (byte_at r 6) q).0))
    | inl (rng, q) ↦ (snapshot_of now r ch rng, ground arith)
  ]
]

-- A frame that passes the owner's two tests always decodes: the owner never meets a decode error.
pub decode-ok_of_telemetry :
    (now : ℕ) (f : Bytes)
    → is_likely_telemetry f ≡ true
    → is_command_echo f ≡ false
    → (s : Snapshot) × (decode now f ≡ ok s)
unfolding decode
decode-ok_of_telemetry now f h e =
    let t = (is_likely_telemetry_iff f).0 h in
    let (s, p) = decode_fields_ok now f t.channel_le t.range_lt in (s, ground (arith, is_echo-eq f))

-- The bytes of a sample segment with no signal: one value, 0 or 1, all along.
flat-IsTelemetry : (b : ℕ) → b ≤ 1 → IsTelemetry (replicate 64 b)
flat-IsTelemetry b h = omega arith

flat_not_echo : (b : ℕ) → b ≤ 1 → is_command_echo (replicate 64 b) ≡ false
unfolding is_command_echo
flat_not_echo b h = ground arith

-- A flat sample segment passes for telemetry, and is decoded as such.
pub flat_decodes :
    (now b : ℕ)
    → b ≤ 1
    → (is_likely_telemetry (replicate 64 b) ≡ true)
      × (is_command_echo (replicate 64 b) ≡ false)
      × ((s : Snapshot) × (decode now (replicate 64 b) ≡ ok s))
flat_decodes now b h =
    let likely = (is_likely_telemetry_iff (replicate 64 b)).1 (flat-IsTelemetry b h) in
    let quiet = flat_not_echo b h in (likely, quiet, decode-ok_of_telemetry now _ likely quiet)

-- ===== src/Meter/Decode/Bounds.antt =====
-- What a decoded snapshot holds (decode.go), field by field.
use lp_700_server.Prelude.{
  ℕ, ◌*◌, ◌<◌, ◌≤◌, ◌≡◌, refl, subst, sym, ◌∙◌, Bool-cases, ==_iff, ◌↔◌, ◌⊎◌, Bool, true, false,
  String, ltb, leb, ◌==◌, arith, length, get_or, drop, inl, inr, if◌then◌else◌,
}
use lp_700_server.Prelude.Int.{ℤ, pos}
use lp_700_server.Prelude.Result.{ok, >>=-eq-ok, ok-injective}
use lp_700_server.Meter.Snapshot.{Bytes, Snapshot, range_names, peak_mode_names, top_mode_names}
use lp_700_server.Meter.Frame.{
  report_size, byte_at, is_command_echo, raw_peak, raw_avg, raw_swr, raw_peak_hold,
}
use lp_700_server.Meter.Status.{extract_status_message}
use lp_700_server.Meter.Decode.Routing.{is_echo-eq}
use lp_700_server.Meter.Decode.{
  DecodeError, decode, decode_fields, decode_channel, decode_range, decode_top_mode,
  decode_peak_mode, decode_swr, snapshot_of, is_echo,
}

-- The channel that byte 5 names while the meter is on Auto: 1 where it names none.
abbrev pub IsAutoChannel : ℕ → ℕ → Type 0
IsAutoChannel auto n =
    ((1 ≤ auto) × (auto ≤ 4) × (n ≡ auto)) ⊎ (((auto ≡ 0) ⊎ (4 < auto)) × (n ≡ 1))

-- The channel that bytes 4 and 5 show, and whether the meter chose it.
abbrev pub IsChannelOf : ℕ → ℕ → ℕ → Bool → Type 0
IsChannelOf ch auto n chosen =
    (chosen ≡ true) × (ch ≡ 0) × IsAutoChannel auto n ⊎ (chosen ≡ false) × (ch ≡ n)

abbrev pub ShowsChannel : Bytes → Snapshot → Type 0
ShowsChannel r s =
    (n : ℕ) × (s.channel ≡ pos n)
    × (1 ≤ n)
    × (n ≤ 4)
    × IsChannelOf (byte_at r 4) (byte_at r 5) n s.auto_channel

-- The link from the bytes of a report to the fields of its snapshot.
pub record Decodes (now : ℕ) (r : Bytes) (s : Snapshot) : Type 0 where
  pub sized : length r ≡ report_size
  pub not_echo : is_command_echo r ≡ false
  pub channel_shown : ShowsChannel r s
  pub range_known : byte_at r 6 < length range_names
  pub range_shown : s.range ≡ get_or range_names (byte_at r 6) ""
  pub avg_shown : s.power_avg ≡ raw_avg r * 200
  pub peak_shown : s.power_peak ≡ raw_peak r * 200
  pub hold_shown : s.peak_hold ≡ raw_peak_hold r * 200
  pub swr_shown : (s.swr ≡ raw_swr r * 10) × (100 ≤ raw_swr r) ⊎ (s.swr ≡ 1000) × (raw_swr r < 100)
  pub alarm_shown : (s.alarm_enabled ≡ true) ↔ (byte_at r 7 ≡ 0)
  pub mode_shown :
      ((byte_at r 3 < 4) × (s.top_mode ≡ get_or top_mode_names (byte_at r 3) ""))
      ⊎ ((4 ≤ byte_at r 3) × (s.top_mode ≡ "power_swr"))
  pub peak_mode_shown :
      ((byte_at r 8 < 3) × (s.peak_mode ≡ get_or peak_mode_names (byte_at r 8) ""))
      ⊎ ((3 ≤ byte_at r 8) × (s.peak_mode ≡ ""))
  pub time_shown : s.timestamp ≡ now
  pub status_shown : s.status_message ≡ extract_status_message (drop 40 r)
  pub valid : s.valid ≡ true

decode_channel_shows :
    (ch auto : ℕ) {p : ℤ × Bool}
    → decode_channel ch auto ≡ ok p
    → (n : ℕ) × (p.0 ≡ pos n) × (1 ≤ n) × (n ≤ 4) × IsChannelOf ch auto n p.1
unfolding decode_channel
decode_channel_shows ch auto h = (
  if ch == 0 then (if leb 1 auto then (if leb auto 4 then auto else 1) else 1) else ch,
  ground arith,
  ground arith,
  ground arith,
  ground arith,
)

decode_range_shows :
    (rng : ℕ) {l : String}
    → decode_range rng ≡ ok l
    → (rng < length range_names) × (l ≡ get_or range_names rng "")
unfolding decode_range
decode_range_shows rng h = ground arith

decode_top_mode_shows :
    (b : ℕ)
    → ((b < 4) × (decode_top_mode b ≡ get_or top_mode_names b ""))
      ⊎ ((4 ≤ b) × (decode_top_mode b ≡ "power_swr"))
unfolding decode_top_mode
decode_top_mode_shows b = elim (Bool-cases (ltb b 4)) [
  | inl e ↦ inl (ground arith, rw e refl)
  | inr e ↦ inr (ground arith, rw e refl)
]

decode_peak_mode_shows :
    (b : ℕ)
    → ((b < 3) × (decode_peak_mode b ≡ get_or peak_mode_names b ""))
      ⊎ ((3 ≤ b) × (decode_peak_mode b ≡ ""))
unfolding decode_peak_mode
decode_peak_mode_shows b = elim (Bool-cases (ltb b 3)) [
  | inl e ↦ inl (ground arith, rw e refl)
  | inr e ↦ inr (ground arith, rw e refl)
]

decode_swr_shows :
    (r : Bytes)
    → (decode_swr r ≡ raw_swr r * 10) × (100 ≤ raw_swr r)
      ⊎ (decode_swr r ≡ 1000) × (raw_swr r < 100)
unfolding decode_swr
decode_swr_shows r = ground arith

snapshot_of-Decodes :
    (now : ℕ) (r : Bytes) (p : ℤ × Bool) (l : String)
    → length r ≡ report_size
    → is_command_echo r ≡ false
    → decode_channel (byte_at r 4) (byte_at r 5) ≡ ok p
    → decode_range (byte_at r 6) ≡ ok l
    → Decodes now r (snapshot_of now r p l)
unfolding snapshot_of
snapshot_of-Decodes now r (ch, auto) l sized quiet h k = record {
  sized = sized;
  not_echo = quiet;
  channel_shown = decode_channel_shows _ _ h;
  range_known = (decode_range_shows _ k).0;
  range_shown = (decode_range_shows _ k).1;
  avg_shown = refl;
  peak_shown = refl;
  hold_shown = refl;
  swr_shown = decode_swr_shows r;
  alarm_shown = ground arith;
  mode_shown = decode_top_mode_shows (byte_at r 3);
  peak_mode_shown = decode_peak_mode_shows (byte_at r 8);
  time_shown = refl;
  status_shown = refl;
  valid = refl;
}

decode-checked :
    (now : ℕ) (r : Bytes) {s : Snapshot}
    → decode now r ≡ ok s
    → (length r ≡ report_size) × (is_command_echo r ≡ false) × (decode_fields now r ≡ ok s)
unfolding decode
decode-checked now r h = elim (Bool-cases (length r == report_size)) [
  | inr e ↦ let k = rw e at h in cc
  | inl e ↦ elim (Bool-cases (is_echo r)) [
    | inl x ↦ let k = rw (e, x) at h in cc
    | inr x ↦ ((==_iff (length r) report_size).0 e, sym (is_echo-eq r) ∙ x, rw (e, x) at h)
  ]
]

-- A report that is decoded has the wire size and is no echo, and the fields of its snapshot that
-- come from the meter are those that its bytes stand for: the channel from 1 to 4 and whether it is
-- on Auto, where it is the one that byte 5 names and channel 1 if that names none, the range, the powers, the SWR with its floor of 1, the alarm, the page, the peak mode
-- and the status text.
pub decode-Decodes : (now : ℕ) (r : Bytes) {s : Snapshot} → decode now r ≡ ok s → Decodes now r s
unfolding decode decode_fields
decode-Decodes now r {s} h =
    let (sized, quiet, f) = decode-checked now r h in
    let (p, hc, f') = >>=-eq-ok (decode_channel (byte_at r 4) (byte_at r 5)) _ f in
    let (l, hr, f'') = >>=-eq-ok (decode_range (byte_at r 6)) _ f' in
    subst (Decodes now r) (ok-injective DecodeError f'')
      (snapshot_of-Decodes now r p l sized quiet hc hr)

-- ===== src/Meter/Command/Wire.antt =====
-- The control verbs on the wire (decode.go).
use lp_700_server.Prelude.{
  ℕ, ◌≤◌, ◌≡◌, refl, sym, ap, ◌∙◌, ◌≢◌, get_or, ◌==◌, if◌then◌else◌, ◌↔◌, ◌⊎◌, inl, inr, true,
  false, String, eq_iff, Option, none, some, arith, length, Option-cases, Bool-cases,
}
use lp_700_server.Prelude.Int.{ℤ}
use lp_700_server.Prelude.Result.{ok, err}
use lp_700_server.Meter.Snapshot.{Bytes, Snapshot}
use lp_700_server.Meter.Frame.{report_size, report_of, is_command_echo}
use lp_700_server.Meter.Decode.Routing.{decode-skip_iff}
use lp_700_server.Meter.Decode.{decode, skip_frame}
use lp_700_server.Meter.Command.{known_verbs, verb_byte, encode_command, verb_available_in_state}

verb_byte-known :
    (v : String) → known_verbs v ≡ true → (c : ℕ) × (verb_byte v ≡ some c) × (b'7' ≤ c) × (c ≤ b'?')
unfolding known_verbs verb_byte
verb_byte-known v h = elim (Option-cases (verb_byte v)) [
  | inl e ↦ absurd (ground arith)
  | inr (c, e) ↦ (c, e, ground arith, ground arith)
]

verb_byte-unknown : (v : String) → known_verbs v ≡ false → verb_byte v ≡ none
unfolding known_verbs verb_byte
verb_byte-unknown v h = ground arith

-- The hub's verb list and the encoder are in step: a verb is known exactly when it is encoded.
pub known_verbs_iff :
    (v : String) (n : ℤ) → (known_verbs v ≡ true) ↔ ((r : Bytes) × (encode_command v n ≡ ok r))
unfolding encode_command
known_verbs_iff v n = (
  (λ h. let (c, e, _, _) = verb_byte-known v h in (report_of c, ground arith)),
  (λ (r, e). elim (Bool-cases (known_verbs v)) [
    | inl k ↦ k
    | inr k ↦ ground (arith, verb_byte-unknown v k)
  ]),
)

-- The verb of a command character.
verb_of : ℕ → String
verb_of c =
    if c == b'7'
    then "mode_step"
    else if c == b'8'
    then "channel_step"
    else if c == b'9'
    then "range_step"
    else if c == b':'
    then "alarm_toggle"
    else if c == b';'
    then "peak_toggle"
    else if c == b'<'
    then "setup"
    else "freeze"

verb_byte-verb_of : (v : String) {c : ℕ} → verb_byte v ≡ some c → v ≡ verb_of c
unfolding verb_byte verb_of
verb_byte-verb_of v h = ground (
  arith,
  eq_iff v "mode_step",
  eq_iff v "channel_step",
  eq_iff v "range_step",
  eq_iff v "alarm_toggle",
  eq_iff v "peak_toggle",
  eq_iff v "setup",
  eq_iff v "freeze",
)

-- What a verb puts on the wire.
encode_command-eq :
    (v : String) (n : ℤ) {r : Bytes}
    → encode_command v n ≡ ok r
    → (c : ℕ) × (verb_byte v ≡ some c) × (r ≡ report_of c)
unfolding encode_command
encode_command-eq v n h = elim (Option-cases (verb_byte v)) [
  | inl e ↦ absurd (ground arith)
  | inr (c, e) ↦ (c, e, ground arith)
]

report_of-injective : (c d : ℕ) → report_of c ≡ report_of d → c ≡ d
report_of-injective c d h = ap (λ r. get_or r 0 0) h

report_of-is_command_echo :
    (v : String) (c : ℕ) → verb_byte v ≡ some c → is_command_echo (report_of c) ≡ true
unfolding verb_byte is_command_echo
report_of-is_command_echo v c h = ground arith

-- No two verbs share a report, whatever the values sent with them.
pub encode_command-injective :
    (v w : String) (m n : ℤ) {r : Bytes}
    → encode_command v m ≡ ok r
    → encode_command w n ≡ ok r
    → v ≡ w
encode_command-injective v w m n h k =
    let (c, p, e) = encode_command-eq v m h in
    let (d, q, f) = encode_command-eq w n k in
    verb_byte-verb_of v p
    ∙ ap verb_of (report_of-injective c d (sym e ∙ f))
    ∙ sym (verb_byte-verb_of w q)

-- The report of a verb, echoed back by the meter, is never taken for telemetry: it has the wire
-- size, the owner's test calls it an echo, and Decode skips it.
pub encode_command-echo :
    (v : String) (n : ℤ) (now : ℕ) {r : Bytes}
    → encode_command v n ≡ ok r
    → (length r ≡ report_size) × (is_command_echo r ≡ true) × (decode now r ≡ err skip_frame)
encode_command-echo v n now {r} h =
    let (c, p, e) = encode_command-eq v n h in
    let echoed : is_command_echo r ≡ true = rw e (report_of-is_command_echo v c p) in
    let sized : length r ≡ report_size = rw e in
    (sized, echoed, (decode-skip_iff now r sized).1 echoed)

gate_refuses :
    (v : String) (s : Snapshot)
    → verb_available_in_state v (some s) ≢ ""
    → (s.auto_channel ≡ true) × ((v ≡ "range_step") ⊎ (v ≡ "alarm_toggle"))
unfolding verb_available_in_state
gate_refuses v s h = ground (arith, eq_iff v "range_step", eq_iff v "alarm_toggle")

gate_keeps :
    (v : String) (s : Snapshot)
    → s.auto_channel ≡ true
    → (v ≡ "range_step") ⊎ (v ≡ "alarm_toggle")
    → verb_available_in_state v (some s) ≢ ""
unfolding verb_available_in_state
gate_keeps v s a p e = ground (
  arith,
  eq_iff v "range_step",
  eq_iff v "alarm_toggle",
  eq_iff "Range can't be changed in CH Auto; select CH 1-4" "",
  eq_iff "Alarm can't be changed in CH Auto; select CH 1-4" "",
)

-- The gate refuses the two per-channel verbs while the last snapshot is on Auto, and nothing else.
pub verb_available-refuses_iff :
    (v : String) (o : Option Snapshot)
    → (verb_available_in_state v o ≢ "") ↔ (
        (s : Snapshot) × (o ≡ some s)
        × (s.auto_channel ≡ true)
        × ((v ≡ "range_step") ⊎ (v ≡ "alarm_toggle")))
unfolding verb_available_in_state
verb_available-refuses_iff v none = ((λ h. absurd (h refl)), (λ (s, e, a, p). absurd (cc e)))
verb_available-refuses_iff v (some s) = (
  (λ h. let (a, p) = gate_refuses v s h in (s, refl, a, p)),
  (λ (t, e, a, p). gate_keeps v s (ground arith) p),
)

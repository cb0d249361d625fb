-- ===== src/Tests/WireRuns.antt =====
-- Runs of the wire formats.
use lp_700_server.Prelude.{
  ◌≡◌, refl, true, false, [], ◌∷◌, ◌++◌, arith, ◌≤◌, ◌⊎◌, inl, inr, ◌↔◌, length, codes, replicate,
  subst,
}
use lp_700_server.Prelude.Int.{ℤ, pos}
use lp_700_server.Prelude.Result.{ok, err}
use lp_700_server.Meter.Snapshot.{Bytes, Snapshot}
use lp_700_server.Meter.Frame.{report_of, report_size, is_command_echo, is_likely_telemetry}
use lp_700_server.Meter.Status.{
  printable_prefix, trim_spaces, contains_space, has_letter_run, accept_message,
  extract_status_message,
}
use lp_700_server.Meter.Status.Shape.{IsPhrase, extract_status-IsPhrase, extract_status_phrase}
use lp_700_server.Meter.Decode.{decode, skip_frame}
use lp_700_server.Meter.Decode.Bounds.{Decodes, decode-Decodes}
use lp_700_server.Meter.Decode.Routing.{decode-ok_of_telemetry, decode-skip_iff, flat_decodes}
use lp_700_server.Meter.Command.{known_verbs, encode_command}
use lp_700_server.Meter.Command.Wire.{known_verbs_iff, encode_command-echo}
use lp_700_server.Tests.Samples.{telemetry_frame, reading}

abbrev decoded : Snapshot
decoded = record (reading 0) {
  timestamp = 7;
  power_peak = 0;
  peak_hold = 0;
  swr = 1000;
  range = "50W";
  top_mode = "waveform";
}

decodes_frame : decode 7 telemetry_frame ≡ ok decoded
unfolding decode extract_status_message printable_prefix trim_spaces accept_message
decodes_frame = refl

decode-Decodes_example : Decodes 7 telemetry_frame decoded
decode-Decodes_example = decode-Decodes 7 telemetry_frame decodes_frame

likely : is_likely_telemetry telemetry_frame ≡ true
unfolding is_likely_telemetry
likely = refl

not_echo : is_command_echo telemetry_frame ≡ false
unfolding is_command_echo
not_echo = refl

decode-ok_of_telemetry_example : (s : Snapshot) × (decode 7 telemetry_frame ≡ ok s)
decode-ok_of_telemetry_example = decode-ok_of_telemetry 7 telemetry_frame likely not_echo

decode-skip_iff_at_input :
    (decode 7 (report_of b'8') ≡ err skip_frame) ↔ (is_command_echo (report_of b'8') ≡ true)
decode-skip_iff_at_input = decode-skip_iff 7 (report_of b'8') refl

one_le : 1 ≤ 1
one_le = omega arith

flat_decodes_at_input :
    (is_likely_telemetry (replicate 64 1) ≡ true)
    × (is_command_echo (replicate 64 1) ≡ false)
    × ((s : Snapshot) × (decode 7 (replicate 64 1) ≡ ok s))
flat_decodes_at_input = flat_decodes 7 1 one_le

abbrev phrase : Bytes
phrase = codes "CPLR LO"

extract_status-IsPhrase_at_input :
    (extract_status_message phrase ≡ []) ⊎ IsPhrase (extract_status_message phrase)
extract_status-IsPhrase_at_input = extract_status-IsPhrase phrase

phrase_kept : extract_status_message phrase ≡ phrase
unfolding extract_status_message printable_prefix trim_spaces accept_message contains_space
    has_letter_run
phrase_kept = refl

phrase-IsPhrase : IsPhrase phrase
phrase-IsPhrase = elim (extract_status-IsPhrase phrase) [
  | inl e ↦ absurd (cc (e, phrase_kept))
  | inr p ↦ subst IsPhrase phrase_kept p
]

extract_status_phrase_example : extract_status_message (phrase ++ 0 ∷ 65 ∷ 66 ∷ []) ≡ phrase
extract_status_phrase_example = extract_status_phrase phrase (65 ∷ 66 ∷ []) phrase-IsPhrase

known_verbs_iff_at_input :
    (known_verbs "setup" ≡ true) ↔ ((r : Bytes) × (encode_command "setup" (pos 0) ≡ ok r))
known_verbs_iff_at_input = known_verbs_iff "setup" (pos 0)

encodes_setup : (n : ℤ) → encode_command "setup" n ≡ ok (report_of b'<')
unfolding encode_command
encodes_setup n = refl

encode_command-echo_at_input :
    (length (report_of b'<') ≡ report_size)
    × (is_command_echo (report_of b'<') ≡ true)
    × (decode 9 (report_of b'<') ≡ err skip_frame)
encode_command-echo_at_input = encode_command-echo "setup" (pos 0) 9 (encodes_setup (pos 0))

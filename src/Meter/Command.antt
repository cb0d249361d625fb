-- ===== src/Meter/Command.antt =====
-- internal/lpmeter/decode.go: the control verbs, the state gate, and the OUT report of a verb.
pub mod Wire
use lp_700_server.Prelude.{
  ℕ, Bool, true, false, not, ◌||◌, String, str_eq, List, [], ◌∷◌, Option, none, some, if◌then◌else◌,
}
use lp_700_server.Prelude.Int.{ℤ}
use lp_700_server.Prelude.Result.{Result, ok, err}
use lp_700_server.Meter.Snapshot.{Bytes, Snapshot}
use lp_700_server.Meter.Frame.{
  report_of, cmd_mode, cmd_channel, cmd_range, cmd_alarm, cmd_peak, cmd_setup, cmd_freeze,
}

abbrev pub known_verb_names : List String
known_verb_names =
    "mode_step" ∷ "channel_step" ∷ "range_step" ∷ "alarm_toggle" ∷ "peak_toggle" ∷ "setup"
    ∷ "freeze" ∷ []

abbrev contains : List String → String → Bool
contains [] v = false
contains (n ∷ ns) v = str_eq v n || contains ns v

-- The map `KnownVerbs`: a missing key reads as false.
unfoldable pub known_verbs : String → Bool
known_verbs verb = contains known_verb_names verb

-- "" when the firmware acts on the verb, else the reason why it will not. `none` is a nil snapshot.
unfoldable pub verb_available_in_state : String → Option Snapshot → String
verb_available_in_state verb none = ""
verb_available_in_state verb (some snap) =
    if not snap.auto_channel
    then ""
    else if str_eq verb "range_step"
    then "Range can't be changed in CH Auto; select CH 1-4"
    else if str_eq verb "alarm_toggle"
    then "Alarm can't be changed in CH Auto; select CH 1-4"
    else ""

-- The command character of a verb: the cases of the `switch`.
unfoldable pub verb_byte : String → Option ℕ
verb_byte verb =
    if str_eq verb "mode_step"
    then some cmd_mode
    else if str_eq verb "channel_step"
    then some cmd_channel
    else if str_eq verb "range_step"
    then some cmd_range
    else if str_eq verb "alarm_toggle"
    then some cmd_alarm
    else if str_eq verb "peak_toggle"
    then some cmd_peak
    else if str_eq verb "setup"
    then some cmd_setup
    else if str_eq verb "freeze"
    then some cmd_freeze
    else none

-- The error carries the unknown verb; the value is not used on the wire.
unfoldable pub encode_command : String → ℤ → Result String Bytes
unfolding verb_byte
encode_command verb value = elim (verb_byte verb) [ some c ↦ ok (report_of c) | none ↦ err verb ]

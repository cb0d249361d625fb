-- ===== src/Meter/Writes.antt =====
-- internal/lpmeter/owner.go: the command queue and the writes to the device. The device's Write is
-- a parameter that says whether a write succeeds.
pub mod Drain
use lp_700_server.Prelude.{
  ℕ, Bool, true, false, not, String, List, [], ◌∷◌, ◌++◌, Option, none, some, if◌then◌else◌,
}
use lp_700_server.Prelude.Chan.{Chan, offer}
use lp_700_server.Prelude.Int.{ℤ}
use lp_700_server.Prelude.Result.{Result, ok, err}
use lp_700_server.Meter.Snapshot.{Bytes}
use lp_700_server.Meter.Command.{known_verbs, encode_command}

pub record Command : Type 0 where
  pub verb : String
  pub value : ℤ

-- Whether `dev.Write` accepts a buffer, after the buffers already written.
abbrev pub Writer : Type 0
Writer = List Bytes → Bytes → Bool

pub data OwnerError : Type 0 where
  read_failed : OwnerError
  command_write_failed : String → OwnerError
  poll_write_failed : OwnerError
  panicked : OwnerError

unfoldable pub submit : Chan Command → String → ℤ → Chan Command × Bool
submit c verb value =
    if not (known_verbs verb) then (c, false) else offer c (record { verb = verb; value = value })

-- The report ID byte goes in front of the payload.
abbrev pub with_report_id : Bytes → Bytes
with_report_id payload = 0 ∷ payload

-- The buffers written so far, and whether this write succeeded.
unfoldable pub write_report : Writer → List Bytes → Bytes → List Bytes × Bool
write_report dev sent payload =
    if dev sent (with_report_id payload)
    then (sent ++ with_report_id payload ∷ [], true)
    else (sent, false)

-- The commands left in the queue, the buffers written, and the error that ended the loop.
unfoldable pub drain_commands :
    Writer → List Command → List Bytes → List Command × List Bytes × Option OwnerError
drain_commands dev [] sent = ([], sent, none)
drain_commands dev (c ∷ cs) sent = elim (encode_command c.verb c.value) [
  | err _ ↦ drain_commands dev cs sent
  | ok out ↦
      let (sent', done) = write_report dev sent out in
      elim done [
        | true ↦ drain_commands dev cs sent'
        | false ↦ (cs, sent', some (command_write_failed c.verb))
      ]
]

-- ===== src/Hub/Messages.antt =====
-- internal/hub/hub.go: what the goroutines of one client do to the hub: registration, the answer to
-- each message, and the end of its read loop. The meter behind the hub is an interface.
use lp_700_server.Prelude.{
  ℕ, Bool, true, false, not, String, str_eq, Option, none, some, ◌≡◌, if◌then◌else◌,
}
use lp_700_server.Prelude.Chan.{make, offer}
use lp_700_server.Prelude.Int.{ℤ, negsuc}
use lp_700_server.Meter.Command.{known_verbs, verb_available_in_state}
use lp_700_server.Hub.{Hub, ack, update, send_to, bind, send_buffer}

-- lpmeter.Source: what the hub calls, and what it relies on.
pub record Source : Type 1 where
  pub State : Type 0
  pub submit : State → String → ℤ → State × Bool
  pub refuses_unknown :
      (s : State) (v : String) (n : ℤ) → known_verbs v ≡ false → (submit s v n).1 ≡ false

pub record ClientMsg : Type 0 where
  pub kind : String
  pub id : String
  pub action : String
  pub value : Option ℤ

unfoldable pub send_ack : Hub → ℕ → String → Bool → String → Option Hub
send_ack h c id ok reason =
    bind (send_to h.sends c (ack id ok reason)) λ st. some (record h { sends = st })

-- `c.value` or -1.
abbrev pub value_or : Option ℤ → ℤ
value_or none = negsuc 0
value_or (some n) = n

module _ (src : Source) where
  open src use {State, submit}

  -- `case "command"`: the control switch, the state gate, then the meter's queue.
  unfoldable pub on_command : Hub → State → ℕ → ClientMsg → Option (Hub × State)
  on_command h s c req =
      let reason = verb_available_in_state req.action h.latest_snap in
      let (s', accepted) = submit s req.action (value_or req.value) in
      if not h.options.allow_control
      then bind (send_ack h c req.id false "control disabled") (λ h'. some (h', s))
      else if not (str_eq reason "")
      then bind (send_ack h c req.id false reason) (λ h'. some (h', s))
      else if not accepted
      then bind (send_ack h c req.id false "command queue full or unknown action")
          (λ h'. some (h', s'))
      else bind (send_ack h c req.id true "") (λ h'. some (h', s'))

  -- `none` in place of a message is one that `json.Unmarshal` refuses.
  unfoldable pub handle_client_msg : Hub → State → ℕ → Option ClientMsg → Option (Hub × State)
  handle_client_msg h s c none = bind (send_ack h c "" false "bad json") (λ h'. some (h', s))
  handle_client_msg h s c (some req) =
      if str_eq req.kind "command"
      then on_command h s c req
      else if str_eq req.kind "resync"
      then some (record h { resyncs = (offer h.resyncs c).0 }, s)
      else bind (send_ack h c req.id false "unknown type") (λ h'. some (h', s))

-- ServeWS after the upgrade: a fresh client, and whether the hub took its registration.
unfoldable pub serve_ws : Hub → ℕ → Hub × Bool
serve_ws h c =
    let (registers', taken) = offer h.registers c in
    (record h { sends = update h.sends c (make send_buffer); registers = registers' }, taken)

-- The deferred part of readPump; the value is dropped when the channel is full.
unfoldable pub read_pump_exit : Hub → ℕ → Hub
read_pump_exit h c = record h { unregisters = (offer h.unregisters c).0 }

-- ===== src/Hub/Interleaved.antt =====
-- The hub's goroutine and those of all its clients, one step after the other (hub.go).
pub mod Safe
pub mod Waiting
pub mod Ready
use lp_700_server.Prelude.{
  ℕ, Bool, true, false, List, [], ◌∷◌, Option, none, some, ◌==◌, if◌then◌else◌,
}
use lp_700_server.Meter.Snapshot.{Snapshot}
use lp_700_server.Hub.{Hub, bind, update, on_done}
use lp_700_server.Hub.Invariant.{
  Case, register, unregister, resync, snapshot, scope_in, spectrum_in, heartbeat, take_case,
}
use lp_700_server.Prelude.Chan.{Chan}
use lp_700_server.Hub.Messages.{Source, ClientMsg, handle_client_msg, serve_ws, read_pump_exit}
use lp_700_server.Hub.Pumps.{Conn, Turn, Pump, pump_turn, fresh_pump}

-- A client's goroutines: its socket, and whether writePump and readPump run.
pub record Client : Type 0 where
  pub conn : Conn
  pub writing : Bool
  pub reading : Bool

-- The hub, the meter behind it, and the goroutines of the clients, by number.
pub record World (S : Type 0) : Type 0 where
  pub hub : Hub
  pub meter : S
  pub goroutines : ℕ → Client

-- The rest of a channel's values, if the given one is first.
head_is : ℕ → List ℕ → Option (List ℕ)
head_is c [] = none
head_is c (d ∷ ds) = if d == c then some ds else none

abbrev rest_of : Chan ℕ → List ℕ → Chan ℕ
rest_of ch xs = record ch { items = xs }

-- The hub after the receive of a case: a client comes from the channel of the case, where it has to be
-- first. The other cases receive from channels outside.
unfoldable pub received : Hub → Case → Option Hub
unfolding head_is
received h (register c) =
    bind (head_is c h.registers.items)
      (λ xs. some (record h { registers = rest_of h.registers xs }))
received h (unregister c) =
    bind (head_is c h.unregisters.items)
      (λ xs. some (record h { unregisters = rest_of h.unregisters xs }))
received h (resync c) =
    bind (head_is c h.resyncs.items) (λ xs. some (record h { resyncs = rest_of h.resyncs xs }))
received h (snapshot now s) = some h
received h (scope_in s) = some h
received h (spectrum_in s) = some h
received h (heartbeat now) = some h

-- A step of one goroutine: a case of the hub's `select`, a connection that ServeWS takes, a message that
-- readPump handles, the end of readPump, or a turn of writePump.
pub data Move : Type 0 where
  case_of : Case → Move
  served : ℕ → Move
  said : ℕ → Option ClientMsg → Move
  left : ℕ → Move
  wrote : ℕ → Turn → Move

abbrev set_client : (ℕ → Client) → ℕ → Client → ℕ → Client
set_client gs c g d = if d == c then g else gs d

-- The goroutines that ServeWS starts where the hub's channel took the registration, and a closed socket
-- where it did not.
abbrev started : Bool → Client
started taken = record {
  conn = record { written = []; closed = if taken then false else true };
  writing = taken;
  reading = taken;
}

-- writePump's view of client `c`.
abbrev pub pump_of : {S : Type 0} → World S → ℕ → Pump
pump_of w c = record {
  send = w.hub.sends c;
  conn = (w.goroutines c).conn;
  running = (w.goroutines c).writing;
}

-- What a turn of writePump leaves.
abbrev put_pump : {S : Type 0} → World S → ℕ → Pump → World S
put_pump w c p = record w {
  hub = record w.hub { sends = update w.hub.sends c p.send };
  goroutines =
      set_client w.goroutines c (record (w.goroutines c) { conn = p.conn; writing = p.running });
}

-- The end of readPump: its unregister, and the close of the socket.
abbrev end_reading : Client → Client
end_reading g = record g { conn = record g.conn { closed = true }; reading = false }

module _ (src : Source) where
  open src use {State}

  after_message : World State → Option (Hub × State) → Option (World State)
  after_message w r = bind r λ (h, s). some (record w { hub = h; meter = s })

  -- A case whose receive has nothing to take is no step.
  after_receive : World State → Case → Option Hub → Option (World State)
  after_receive w e none = some w
  after_receive w e (some h) = bind (take_case h e) λ h'. some (record w { hub = h' })

  -- `none` is a panic, which ends the server. A goroutine that has ended makes no step.
  unfoldable pub move : World State → Move → Option (World State)
  unfolding after_message after_receive received
  move w (case_of e) = after_receive w e (received w.hub e)
  move w (served c) =
      let (h, taken) = serve_ws w.hub c in
      some (record w { hub = h; goroutines = set_client w.goroutines c (started taken) })
  move w (said c msg) =
      if (w.goroutines c).reading
      then after_message w (handle_client_msg src w.hub w.meter c msg)
      else some w
  move w (left c) =
      if (w.goroutines c).reading
      then some (record w {
        hub = read_pump_exit w.hub c;
        goroutines = set_client w.goroutines c (end_reading (w.goroutines c));
      })
      else some w
  move w (wrote c t) = some (put_pump w c (pump_turn (pump_of w c) t))

  -- The world after some steps.
  unfoldable pub moves : World State → List Move → Option (World State)
  unfolding move
  moves w [] = some w
  moves w (m ∷ ms) = bind (move w m) λ w'. moves w' ms

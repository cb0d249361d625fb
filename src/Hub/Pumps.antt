-- ===== src/Hub/Pumps.antt =====
-- internal/hub/hub.go: the two goroutines of one client, writePump and readPump, and ServeWS before
-- and after the registration. Whether the socket takes a message is an input of each turn.
pub mod Fifo
pub mod Drain
pub mod Bounded
use lp_700_server.Prelude.{
  ℕ, ◌+◌, Bool, true, false, not, List, [], ◌∷◌, ◌++◌, Option, none, some, if◌then◌else◌,
}
use lp_700_server.Prelude.Chan.{Chan, offer}
use lp_700_server.Hub.{Hub, Frame, bind}
use lp_700_server.Hub.Messages.{Source, ClientMsg, handle_client_msg, serve_ws, read_pump_exit}

-- What goes over the socket to a client.
pub data Message : Type 0 where
  text : Frame → Message
  ping close_normal : Message

-- A client's socket: the messages written to it, and whether it has been closed.
pub record Conn : Type 0 where
  pub written : List Message
  pub closed : Bool

-- One turn of writePump's `select`: which case it takes, and whether the write it makes succeeds.
pub data Turn : Type 0 where
  from_send tick : Bool → Turn

-- The goroutine's state: the client's channel, its socket, and whether it still runs.
pub record Pump : Type 0 where
  pub send : Chan Frame
  pub conn : Conn
  pub running : Bool

-- `return`, with the deferred close of the socket.
abbrev pub leave : Pump → Pump
leave p = record p { conn = record p.conn { closed = true }; running = false }

abbrev pub write_message : Pump → Message → Pump
write_message p m = record p { conn = record p.conn { written = p.conn.written ++ m ∷ [] } }

-- A write that fails ends the loop.
abbrev pub try_write : Pump → Message → Bool → Pump
try_write p m done = if done then write_message p m else leave p

-- The receive: the next value, or, where none waits, the end if the channel is closed. A receive from
-- an open channel with nothing in it waits, so such a turn changes nothing.
take_frame : Pump → List Frame → Bool → Pump
take_frame p [] done =
    if p.send.closed then leave (if done then write_message p close_normal else p) else p
take_frame p (f ∷ fs) done =
    try_write (record p { send = record p.send { items = fs } }) (text f) done

on_turn : Pump → Turn → Pump
unfolding take_frame
on_turn p (from_send done) = take_frame p p.send.items done
on_turn p (tick done) = try_write p ping done

unfoldable pub pump_turn : Pump → Turn → Pump
unfolding on_turn
pump_turn p t = if p.running then on_turn p t else p

-- What happens to a client's channel and socket: a turn of its writePump, a value offered to the channel
-- by the hub or by readPump while it is open, or the hub's `close`.
pub data Activity : Type 0 where
  turn : Turn → Activity
  offered : Frame → Activity
  shut : Activity

unfoldable pub act : Pump → Activity → Pump
unfolding pump_turn
act p (turn t) = pump_turn p t
act p (offered f) = if p.send.closed then p else record p { send = (offer p.send f).0 }
act p shut = record p { send = record p.send { closed = true } }

-- writePump's loop, with what the others do between its turns.
unfoldable pub write_pump : Pump → List Activity → Pump
write_pump p [] = p
write_pump p (a ∷ as') = write_pump (act p a) as'

-- writePump before it has done anything.
abbrev pub fresh_pump : Chan Frame → Pump
fresh_pump send = record {
  send = send;
  conn = record { written = []; closed = false };
  running = true;
}

module _ (src : Source) where
  open src use {State}

  -- readPump: the messages until ReadMessage fails, then the deferred unregister.
  unfoldable pub read_pump : Hub → State → ℕ → List (Option ClientMsg) → Option (Hub × State)
  read_pump h s c [] = some (read_pump_exit h c, s)
  read_pump h s c (msg ∷ msgs) =
      bind (handle_client_msg src h s c msg) λ (h', s'). read_pump h' s' c msgs

-- ServeWS: what becomes of a connection.
pub data Served : Type 0 where
  not_upgraded turned_away pumping : Served

unfoldable pub serve : Bool → Hub → ℕ → Hub × Served
serve false h c = (h, not_upgraded)
serve true h c = let (h', taken) = serve_ws h c in (h', (if taken then pumping else turned_away))

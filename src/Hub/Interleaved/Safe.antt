-- ===== src/Hub/Interleaved/Safe.antt =====
-- What holds of the hub between any two steps of any goroutines (hub.go).
use lp_700_server.Prelude.{
  ℕ, ◌≡◌, refl, Bool, true, false, List, [], ◌∷◌, String, Option, none, some, if◌then◌else◌, str_eq,
  subst,
}
use lp_700_server.Hub.{Hub, bind, mem, ack}
use lp_700_server.Hub.Broadcast.{IsOpen, delivered-IsOpen}
use lp_700_server.Hub.Invariant.{Case}
use lp_700_server.Hub.Leaks.{After}
use lp_700_server.Hub.Messages.{Source, ClientMsg, handle_client_msg, on_command, send_ack}
use lp_700_server.Hub.Acks.{on_command-Answers}
use lp_700_server.Hub.Pumps.Bounded.{pump_turn-IsOpen}
use lp_700_server.Hub.Interleaved.Ready.{
  IsReady, IsReady-sends, update-IsOpen, acked, IsReady-channels, Asks, Kept, received-Kept,
  take_case-IsReady, left-IsReady, served-IsReady,
}
use lp_700_server.Hub.Interleaved.{
  World, after_message, after_receive, received, Move, case_of, served, said, left, wrote, move,
  moves, pump_of,
}

-- What a move relies on: a resync is taken up and a message is handled only while the hub has not closed
-- the client's channel, and a connection gets a number that is not in use.
module _ (src : Source) where
  open src use {State}

  abbrev pub CanMove : World State → Move → Type 0
  CanMove w (case_of e) = Asks w.hub e
  CanMove w (served c) = (mem c w.hub.clients ≡ false) × (mem c w.hub.registers.items ≡ false)
  CanMove w (said c msg) = IsOpen (w.hub.sends c)
  CanMove w (left c) = Unit {0}
  CanMove w (wrote c t) = Unit {0}

  -- The step does not panic, and the hub is ready after it.
  abbrev pub IsSafe : Option (World State) → Type 0
  IsSafe r = (w : World State) × (r ≡ some w) × IsReady w.hub

  abbrev Handled : Option (Hub × State) → Type 0
  Handled r = (h : Hub) × (s : State) × (r ≡ some (h, s)) × IsReady h

  if-Handled :
      (b : Bool) (x y : Option (Hub × State)) → Handled x → Handled y → Handled (if b then x else y)
  if-Handled true x y p q = p
  if-Handled false x y p q = q

  acked-Handled :
      (h : Hub) (s : State) (c : ℕ) (id : String) (accepted : Bool) (reason : String)
      → IsReady h
      → IsOpen (h.sends c)
      → Handled (bind (send_ack h c id accepted reason) (λ h'. some (h', s)))
  acked-Handled h s c id accepted reason v o =
      let (h', e, v') = acked h c id accepted reason v o in (h', s, rw e refl, v')

  commanded :
      (h : Hub) (s : State) (c : ℕ) (req : ClientMsg)
      → IsReady h
      → IsOpen (h.sends c)
      → Handled (on_command src h s c req)
  commanded h s c req v o =
      let (accepted, reason, s', e, a, k) = on_command-Answers src h s c req o.not_closed in
      (_, s', e, IsReady-sends h _ (delivered-IsOpen h.sends c (ack req.id accepted reason)) v)

  -- A message on an open channel is handled without a panic.
  handled :
      (h : Hub) (s : State) (c : ℕ) (msg : Option ClientMsg)
      → IsReady h
      → IsOpen (h.sends c)
      → Handled (handle_client_msg src h s c msg)
  unfolding handle_client_msg
  handled h s c none v o = acked-Handled h s c "" false "bad json" v o
  handled h s c (some req) v o =
      if-Handled (str_eq req.kind "command") _ _ (commanded h s c req v o) (
        if-Handled (str_eq req.kind "resync") _ _ (_, s, refl, IsReady-channels h h.unregisters _ v)
          (acked-Handled h s c req.id false "unknown type" v o))

  if-IsSafe :
      (b : Bool) (x y : Option (World State)) → IsSafe x → IsSafe y → IsSafe (if b then x else y)
  if-IsSafe true x y p q = p
  if-IsSafe false x y p q = q

  taken-IsSafe :
      (w : World State) (e : Case) (r : Option Hub)
      → IsReady w.hub
      → Kept e r
      → IsSafe (after_receive src w e r)
  unfolding after_receive
  taken-IsSafe w e none v k = (w, refl, v)
  taken-IsSafe w e (some h) v (v', a, n) =
      let (h', p, v2) = take_case-IsReady h e v' a n in (record w { hub = h' }, rw p refl, v2)

  move-IsSafe : (w : World State) (m : Move) → IsReady w.hub → CanMove w m → IsSafe (move src w m)
  unfolding move after_message
  move-IsSafe w (case_of e) v a = taken-IsSafe w e (received w.hub e) v (received-Kept w.hub e v a)
  move-IsSafe w (served c) v (out, n) = (_, refl, served-IsReady w.hub c v out n)
  move-IsSafe w (said c msg) v o =
      if-IsSafe (w.goroutines c).reading _ (some w)
        (let (h, s, e, v') = handled w.hub w.meter c msg v o in
          (record w { hub = h; meter = s }, rw e refl, v'))
        (w, refl, v)
  move-IsSafe w (left c) v a =
      if-IsSafe (w.goroutines c).reading _ (some w) (_, refl, left-IsReady w.hub c v) (w, refl, v)
  move-IsSafe w (wrote c t) v a = (
    _,
    refl,
    IsReady-sends w.hub _ (update-IsOpen w.hub.sends c _ (pump_turn-IsOpen (pump_of w c) t)) v,
  )

  -- Each step of a run relies on what a move relies on.
  abbrev pub CanRun : List Move → World State → Type 0
  CanRun [] w = Unit {0}
  CanRun (m ∷ ms) w = CanMove w m × After (move src w m) (CanRun ms)

  -- However the steps of the hub's goroutine, of ServeWS and of all the clients' readPumps and writePumps
  -- interleave: from a sound hub whose waiting registrations are of fresh clients, while connections get
  -- numbers that are not in use, and messages are handled and resyncs taken up only on channels that the
  -- hub has not closed, nothing panics, and the hub at the end is sound and its waiting registrations
  -- are of fresh clients.
  pub moves-IsSafe :
      (w : World State) (ms : List Move) → IsReady w.hub → CanRun ms w → IsSafe (moves src w ms)
  unfolding moves
  moves-IsSafe w [] v a = (w, refl, v)
  moves-IsSafe w (m ∷ ms) v (a, rest) =
      let (w', e, v') = move-IsSafe w m v a in
      let rest' : After (some w') (CanRun ms) = subst (λ r. After r (CanRun ms)) e rest in
      rw e (moves-IsSafe w' ms v' rest')

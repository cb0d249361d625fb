-- ===== src/Hub/Told.antt =====
-- What a client is told of the meter when it joins or asks for a resync (hub.go, Run).
use lp_700_server.Prelude.{
  ℕ, ◌<◌, ◌≡◌, refl, ap, ◌∙◌, true, false, List, [], ◌∷◌, ◌++◌, Option, some, leb, length, arith,
  subst, ==_iff, if◌then◌else◌,
}
use lp_700_server.Meter.Snapshot.{Snapshot}
use lp_700_server.Meter.Snapshot.Deadband.{IsClose, close_enough_iff}
use lp_700_server.Hub.Broadcast.{IsOpen, delivered}
use lp_700_server.Hub.Sound.{InStep, silent, heard}
use lp_700_server.Hub.Invariant.{Case, register, resync, take_case, Reaches, Reaches-IsSound}
use lp_700_server.Hub.Delivery.{send_json-delivered}
use lp_700_server.Hub.{
  Hub, Options, Frame, telemetry, Store, mem, send_json, send_last, on_register, on_resync,
}

-- The cases in which a client is told the state: a resync of its own, and its registration where there
-- is room.
pub data Asks (h : Hub) (c : ℕ) : Case → Type 0 where
  again : Asks h c (resync c)
  joins : length h.clients < h.options.max_clients → Asks h c (register c)

InStep-IsClose :
    {j : Option Frame} {s l : Option Snapshot} {newest : Snapshot}
    → InStep j s l
    → l ≡ some newest
    → (k : ℕ) × (told : Snapshot) × (j ≡ some (telemetry k told))
      × (told.valid ≡ true)
      × IsClose told newest
InStep-IsClose silent e = absurd (cc)
InStep-IsClose {newest} (heard k s l b c d) e =
    (k, s, refl, b, subst (IsClose s) (value e) ((close_enough_iff s l).0 d))
  where
    value : some l ≡ some newest → l ≡ newest
    value p = cc

delivered-queued :
    (st : Store) (c : ℕ) (f : Frame)
    → length (st c).items < (st c).cap
    → (delivered st c f c).items ≡ (st c).items ++ f ∷ []
unfolding delivered
delivered-queued st c f room = rw ((==_iff c c).1 refl) (ground arith)

send_last-tells :
    (h : Hub) (cs : List ℕ) (c : ℕ) (f : Frame)
    → h.last_json ≡ some f
    → (h.sends c).closed ≡ false
    → send_last (record h { clients = cs }) c
      ≡ some (record h { clients = cs; sends = delivered h.sends c f })
unfolding send_last
send_last-tells h cs c f j o =
    ap (send_json (record h { clients = cs }) c) j
    ∙ send_json-delivered (record h { clients = cs }) c f o

told :
    (h : Hub) (c : ℕ) (e : Case) (f : Frame)
    → h.last_json ≡ some f
    → (h.sends c).closed ≡ false
    → length (h.sends c).items < (h.sends c).cap
    → Asks h c e
    → (h' : Hub) × (take_case h e ≡ some h') × ((h'.sends c).items ≡ (h.sends c).items ++ f ∷ [])
unfolding take_case on_resync on_register
told h c _ f j o room again = (
  record h { sends = delivered h.sends c f },
  send_last-tells h h.clients c f j o,
  delivered-queued h.sends c f room,
)
told h c _ f j o room (joins free) = (
  record h {
    clients = if mem c h.clients then h.clients else c ∷ h.clients;
    sends = delivered h.sends c f;
  },
  rw (has_room free) (send_last-tells h _ c f j o),
  delivered-queued h.sends c f room,
)
  where
    has_room :
        length h.clients < h.options.max_clients
        → leb h.options.max_clients (length h.clients) ≡ false
    has_room r = ground arith

-- In every state that the hub reaches after a valid snapshot has come in, however many small changes were
-- held back: a client with an open channel that has room, which asks for a resync or joins while there
-- is room for clients, gets one telemetry message, last in its channel, and the snapshot in it is valid
-- and within the deadband of the newest one in every field.
pub Reaches-told :
    {o : Options} {start : ℕ} {h : Hub} {newest : Snapshot} (c : ℕ) (e : Case)
    → Reaches o start h
    → h.latest_snap ≡ some newest
    → IsOpen (h.sends c)
    → length (h.sends c).items < (h.sends c).cap
    → Asks h c e
    → (k : ℕ) × (s : Snapshot) × (h' : Hub) × (take_case h e ≡ some h')
      × ((h'.sends c).items ≡ (h.sends c).items ++ telemetry k s ∷ [])
      × (s.valid ≡ true)
      × IsClose s newest
Reaches-told {h} c e r l o room a =
    let (k, s, j, v, close) = InStep-IsClose (Reaches-IsSound r).in_step l in
    let (h', taken, items) = told h c e (telemetry k s) j o.not_closed room a in
    (k, s, h', taken, items, v, close)

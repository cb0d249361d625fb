-- ===== src/Hub/Delivery.antt =====
-- Which messages the hub sends, and when (hub.go, Run).
use lp_700_server.Prelude.{
  ℕ, ◌+◌, ◌-◌, ◌≤◌, ◌<◌, ◌≡◌, refl, ap, ◌∙◌, ◌↔◌, ◌⊎◌, none, inl, inr, true, false, List, [], ◌∷◌,
  Option, some, ltb, leb, if◌then◌else◌, length, arith, Bool-cases, ==_iff, subst,
}
use lp_700_server.Prelude.Chan.{Chan, make}
use lp_700_server.Meter.Snapshot.{Snapshot}
use lp_700_server.Meter.Snapshot.Deadband.{IsClose, close_enough_iff}
use lp_700_server.Hub.Broadcast.{delivered, fan, send_to-delivered, broadcast-fan}
use lp_700_server.Hub.Sound.{IsSound}
use lp_700_server.Hub.{
  Hub, Frame, next_seq, telemetry, heartbeat_frame, Store, mem, send_json, send_last, on_register,
  broadcast_hub, unchanged, publish_snapshot, on_snapshot, on_heartbeat,
}

pub broadcast_hub-fan :
    (h : Hub) (f : Frame)
    → IsSound h
    → broadcast_hub h f ≡ some (record h { sends = fan h.sends h.clients f })
unfolding broadcast_hub
broadcast_hub-fan h f v = rw (broadcast-fan h.clients h.sends f v.all_open v.distinct)

-- A valid snapshot outside the deadband: the next number, one offer to each client, the clock reset.
abbrev pub published : ℕ → Hub → Snapshot → Hub
published now h snap = record h {
  latest_snap = some snap;
  seq = next_seq h.seq;
  last_snap = some snap;
  last_json = some (telemetry (next_seq h.seq) snap);
  last_sent = now;
  sends = fan h.sends h.clients (telemetry (next_seq h.seq) snap);
}

publish_snapshot-eq :
    (now : ℕ) (h : Hub) (snap : Snapshot)
    → IsSound h
    → publish_snapshot now (record h { latest_snap = some snap }) snap ≡ some (published now h snap)
unfolding publish_snapshot broadcast_hub
publish_snapshot-eq now h snap v =
    rw (broadcast-fan h.clients h.sends (telemetry (next_seq h.seq) snap) v.all_open v.distinct)

-- A snapshot has been sent, and this one is within the deadband of it.
abbrev pub WithinDeadband : Option Snapshot → Snapshot → Type 0
WithinDeadband last snap = (s : Snapshot) × (last ≡ some s) × IsClose s snap

unchanged_iff :
    (last : Option Snapshot) (snap : Snapshot)
    → (unchanged last snap ≡ true) ↔ WithinDeadband last snap
unfolding unchanged
unchanged_iff none snap = ((λ h. absurd (cc h)), (λ (s, e, k). absurd (cc e)))
unchanged_iff (some l) snap = (
  (λ h. (l, refl, (close_enough_iff l snap).0 h)),
  (λ (s, e, k). (close_enough_iff l snap).1 (subst (λ x. IsClose x snap) (last_is s e) k)),
)
  where
    last_is : (s : Snapshot) → ◌≡◌ {A = Option Snapshot} (some l) (some s) → s ≡ l
    last_is s e = cc

-- On a sound hub: an invalid snapshot changes nothing; a valid one becomes the state that the verb
-- gate reads; inside the deadband of the last one sent that is all, and outside it the snapshot is
-- offered, with the next number, to every client.
pub on_snapshot_lem :
    (now : ℕ) (h : Hub) (snap : Snapshot)
    → IsSound h
    → ((snap.valid ≡ false) × (on_snapshot now h snap ≡ some h))
      ⊎ ((snap.valid ≡ true)
          × WithinDeadband h.last_snap snap
          × (on_snapshot now h snap ≡ some (record h { latest_snap = some snap })))
      ⊎ ((snap.valid ≡ true)
          × (¬ WithinDeadband h.last_snap snap)
          × (on_snapshot now h snap ≡ some (published now h snap)))
unfolding on_snapshot
on_snapshot_lem now h snap v = elim (Bool-cases snap.valid) [
  | inr bad ↦ inl (bad, ground arith)
  | inl ok ↦ elim (Bool-cases (unchanged h.last_snap snap)) [
    | inl same ↦ inr (inl (ok, (unchanged_iff h.last_snap snap).0 same, ground arith))
    | inr new ↦ inr (
        inr (
          ok,
          (λ w. cc (new, (unchanged_iff h.last_snap snap).1 w)),
          ground (arith, publish_snapshot-eq now h snap v),
        ))
  ]
]

-- On a sound hub whose clock has not gone back: a heartbeat goes out, to every client, exactly when
-- nothing has been sent for the heartbeat period, a telemetry message or a heartbeat; otherwise the
-- tick changes nothing.
pub on_heartbeat_lem :
    (now : ℕ) (h : Hub)
    → IsSound h
    → h.last_sent ≤ now
    → ((now < h.last_sent + h.options.heartbeat) × (on_heartbeat now h ≡ some h))
      ⊎ ((h.last_sent + h.options.heartbeat ≤ now)
          × (on_heartbeat now h
              ≡ some (record h {
                seq = next_seq h.seq;
                last_sent = now;
                sends = fan h.sends h.clients (heartbeat_frame (next_seq h.seq) now);
              })))
unfolding on_heartbeat broadcast_hub
on_heartbeat_lem now h v clock = elim (Bool-cases (ltb (now - h.last_sent) h.options.heartbeat)) [
  | inl soon ↦ inl (omega (arith, early soon), rw soon)
  | inr due ↦ inr (
    omega (arith, late due),
    rw due (
        rw (
          broadcast-fan h.clients h.sends (heartbeat_frame (next_seq h.seq) now) v.all_open
            v.distinct)),
  )
]
  where
    early :
        ltb (now - h.last_sent) h.options.heartbeat ≡ true → now < h.last_sent + h.options.heartbeat
    early soon = ground arith

    late :
        ltb (now - h.last_sent) h.options.heartbeat ≡ false
        → h.last_sent + h.options.heartbeat ≤ now
    late due = ground arith

mem-join : (c : ℕ) (cs : List ℕ) → mem c (if mem c cs then cs else c ∷ cs) ≡ true
unfolding mem
mem-join c cs = elim (Bool-cases (mem c cs)) [
  | inl e ↦ rw e e
  | inr e ↦ rw (e, (==_iff c c).1 refl)
]

delivered-fresh :
    (st : Store) (c : ℕ) (f : Frame) → st c ≡ make 32 → (delivered st c f c).items ≡ f ∷ []
unfolding delivered
delivered-fresh st c f e = rw ((==_iff c c).1 refl) (rw e)

pub send_json-delivered :
    (h : Hub) (c : ℕ) (f : Frame)
    → (h.sends c).closed ≡ false
    → send_json h c (some f) ≡ some (record h { sends = delivered h.sends c f })
unfolding send_json
send_json-delivered h c f o = rw (send_to-delivered h.sends c f o)

-- A client with a fresh channel that joins while there is room is a client from then on, and if
-- there has been telemetry the first message that it gets is the last one sent.
pub on_register_tells :
    (h : Hub) (c : ℕ) (f : Frame)
    → length h.clients < h.options.max_clients
    → h.last_json ≡ some f
    → h.sends c ≡ make 32
    → (h' : Hub) × (on_register h c ≡ some h')
      × (mem c h'.clients ≡ true)
      × ((h'.sends c).items ≡ f ∷ [])
unfolding on_register send_last
on_register_tells h c f room j fresh =
    let joined = record h { clients = if mem c h.clients then h.clients else c ∷ h.clients } in
    (
      record joined { sends = delivered h.sends c f },
      rw (has_room room) (
          ap (send_json joined c) j
          ∙ send_json-delivered joined c f (ap (λ (ch : Chan Frame). ch.closed) fresh)),
      mem-join c h.clients,
      delivered-fresh h.sends c f fresh,
    )
  where
    has_room :
        length h.clients < h.options.max_clients
        → leb h.options.max_clients (length h.clients) ≡ false
    has_room r = ground arith

-- ===== src/Hub/Cases.antt =====
-- A property of the hub's clients, their channels and the registrations that wait, over the cases of the
-- `select` (hub.go, Run): what it has to withstand so that every case keeps it.
use lp_700_server.Prelude.{
  ℕ, ◌≡◌, inl, inr, Bool, true, false, not, List, [], ◌∷◌, Option, none, some, leb, ltb, ◌-◌,
  length, Bool-cases, if◌then◌else◌,
}
use lp_700_server.Prelude.Chan.{Chan, offer}
use lp_700_server.Meter.Snapshot.{Snapshot}
use lp_700_server.Hub.Broadcast.{delivered}
use lp_700_server.Hub.Invariant.{
  Case, register, unregister, resync, snapshot, scope_in, spectrum_in, heartbeat, take_case,
}
use lp_700_server.Hub.{
  Hub, Frame, Store, bind, update, mem, delete, close_send, broadcast, send_json, send_last,
  on_register, on_unregister, on_resync, broadcast_hub, unchanged, publish_snapshot, on_snapshot,
  on_scope, on_spectrum, on_heartbeat, send_to,
}

abbrev pub shut : Store → ℕ → Store
shut st c = update st c (record (st c) { closed = true })

abbrev pub added : ℕ → List ℕ → List ℕ
added c cs = if mem c cs then cs else c ∷ cs

-- A property `P` that a send to a client keeps.
module _ (P : List ℕ → Store → Chan ℕ → Type 0)
    (sent : (cs : List ℕ) (st : Store) (q : Chan ℕ) (d : ℕ) (f : Frame)
      → P cs st q
      → P cs (delivered st d f) q) where
  -- It holds of the hub, where the case did not panic.
  abbrev pub Holds : Option Hub → Type 0
  Holds none = Unit {0}
  Holds (some h) = P h.clients h.sends h.registers

  abbrev HoldsOf : List ℕ → Chan ℕ → Option Store → Type 0
  HoldsOf cs q none = Unit {0}
  HoldsOf cs q (some st) = P cs st q

  send_to-Holds :
      (cs : List ℕ) (st : Store) (q : Chan ℕ) (d : ℕ) (f : Frame)
      → P cs st q
      → HoldsOf cs q (send_to st d f)
  unfolding send_to
  send_to-Holds cs st q d f p =
      elim (st d).closed
          as (λ b.
            P cs (update st d (offer (st d) f).0) q
            → HoldsOf cs q
                (bind (if b then none else some (offer (st d) f)) (λ r. some (update st d r.0)))) [
                  | true ↦ (λ _. tt)
                  | false ↦ (λ x. x)
                ]
        (unfold delivered in sent cs st q d f p)

  close_send-Holds :
      (cs : List ℕ) (st : Store) (q : Chan ℕ) (d : ℕ)
      → P cs (shut st d) q
      → HoldsOf cs q (close_send st d)
  unfolding close_send
  close_send-Holds cs st q d p =
      elim (st d).closed
        as (λ b. HoldsOf cs q (
          bind (if b then none else some (record (st d) { closed = true }))
            (λ ch. some (update st d ch)))) [ true ↦ tt | false ↦ p ]

  bind-HoldsOf :
      (cs : List ℕ) (q : Chan ℕ) (r : Option Store) (next : Store → Option Store)
      → ((st : Store) → P cs st q → HoldsOf cs q (next st))
      → HoldsOf cs q r
      → HoldsOf cs q (bind r next)
  bind-HoldsOf cs q none next k h = tt
  bind-HoldsOf cs q (some st) next k h = k st h

  broadcast-Holds :
      (cs ds : List ℕ) (q : Chan ℕ) (f : Frame) (st : Store)
      → P cs st q
      → HoldsOf cs q (broadcast ds st f)
  unfolding broadcast
  broadcast-Holds cs [] q f st p = p
  broadcast-Holds cs (d ∷ ds) q f st p =
      bind-HoldsOf cs q (send_to st d f) (λ st'. broadcast ds st' f)
        (λ st' p'. broadcast-Holds cs ds q f st' p') (send_to-Holds cs st q d f p)

  sends_only-Holds :
      (h : Hub) (r : Option Store)
      → HoldsOf h.clients h.registers r
      → Holds (bind r (λ st. some (record h { sends = st })))
  sends_only-Holds h none k = tt
  sends_only-Holds h (some st) k = k

  broadcast_hub-Holds : (h : Hub) (f : Frame) → Holds (some h) → Holds (broadcast_hub h f)
  unfolding broadcast_hub
  broadcast_hub-Holds h f p =
      sends_only-Holds h (broadcast h.clients h.sends f)
        (broadcast-Holds h.clients h.clients h.registers f h.sends p)

  send_json-Holds : (h : Hub) (d : ℕ) (j : Option Frame) → Holds (some h) → Holds (send_json h d j)
  unfolding send_json
  send_json-Holds h d none p = p
  send_json-Holds h d (some f) p =
      sends_only-Holds h (send_to h.sends d f) (send_to-Holds h.clients h.sends h.registers d f p)

  pub send_last-Holds : (h : Hub) (d : ℕ) → Holds (some h) → Holds (send_last h d)
  unfolding send_last
  send_last-Holds h d p = send_json-Holds h d h.last_json p

  if-Holds : (b : Bool) (x y : Option Hub) → Holds x → Holds y → Holds (if b then x else y)
  if-Holds true x y p q = p
  if-Holds false x y p q = q

  on_register-Holds :
      (h : Hub) (d : ℕ)
      → P h.clients (shut h.sends d) h.registers
      → P (added d h.clients) h.sends h.registers
      → Holds (on_register h d)
  unfolding on_register
  on_register-Holds h d away in_map =
      if-Holds (leb h.options.max_clients (length h.clients)) _ _
        (sends_only-Holds h (close_send h.sends d)
          (close_send-Holds h.clients h.sends h.registers d away))
        (send_last-Holds (record h { clients = added d h.clients }) d in_map)

  on_unregister-Holds :
      (h : Hub) (d : ℕ)
      → Holds (some h)
      → (mem d h.clients ≡ true → P (delete d h.clients) (shut h.sends d) h.registers)
      → Holds (on_unregister h d)
  unfolding on_unregister
  on_unregister-Holds h d p gone = elim (Bool-cases (mem d h.clients)) [
    | inr out ↦ rw out p
    | inl known ↦ rw known (
        removed (close_send h.sends d)
          (close_send-Holds (delete d h.clients) h.sends h.registers d (gone known)))
  ]
    where
      removed :
          (r : Option Store)
          → HoldsOf (delete d h.clients) h.registers r
          → Holds (bind r (λ st. some (record h { clients = delete d h.clients; sends = st })))
      removed none k = tt
      removed (some st) k = k

  on_snapshot-Holds :
      (now : ℕ) (h : Hub) (snap : Snapshot) → Holds (some h) → Holds (on_snapshot now h snap)
  unfolding on_snapshot publish_snapshot
  on_snapshot-Holds now h snap p = if-Holds (not snap.valid) (some h) _ p (
      if-Holds (unchanged h.last_snap snap) (some (record h { latest_snap = some snap })) _ p
        (broadcast_hub-Holds _ _ p))

  on_heartbeat-Holds : (now : ℕ) (h : Hub) → Holds (some h) → Holds (on_heartbeat now h)
  unfolding on_heartbeat
  on_heartbeat-Holds now h p =
      if-Holds (ltb (now - h.last_sent) h.options.heartbeat) (some h) _ p
        (broadcast_hub-Holds _ _ p)

  -- What the property has to withstand in a case: a client turned away or added, or taken out.
  abbrev pub Withstands : Hub → Case → Type 0
  Withstands h (register d) =
      P h.clients (shut h.sends d) h.registers × P (added d h.clients) h.sends h.registers
  Withstands h (unregister d) =
      mem d h.clients ≡ true → P (delete d h.clients) (shut h.sends d) h.registers
  Withstands h _ = Unit {0}

  pub take_case-Holds :
      (h : Hub) (e : Case) → Holds (some h) → Withstands h e → Holds (take_case h e)
  unfolding take_case on_resync on_scope on_spectrum
  take_case-Holds h (register d) p w = on_register-Holds h d w.0 w.1
  take_case-Holds h (unregister d) p w = on_unregister-Holds h d p w
  take_case-Holds h (resync d) p w = send_last-Holds h d p
  take_case-Holds h (snapshot now s) p w = on_snapshot-Holds now h s p
  take_case-Holds h (scope_in s) p w = broadcast_hub-Holds _ _ p
  take_case-Holds h (spectrum_in s) p w = broadcast_hub-Holds _ _ p
  take_case-Holds h (heartbeat now) p w = on_heartbeat-Holds now h p

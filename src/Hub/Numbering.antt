-- ===== src/Hub/Numbering.antt =====
-- The sequence numbers of the hub's messages (hub.go, Run and encode…).
use lp_700_server.Prelude.{
  ℕ, ◌-◌, ◌<◌, ◌≡◌, refl, ◌⊎◌, inl, inr, true, false, List, [], ◌∷◌, ◌++◌, Option, none, some, ltb,
  leb, if◌then◌else◌, ◌==◌, length, arith, Bool-cases, ==_iff,
}
use lp_700_server.Prelude.Chan.{Chan, offer}
use lp_700_server.Meter.Snapshot.{Snapshot}
use lp_700_server.Hub.Broadcast.{AllOpen-mem, delivered, fan, send_to-delivered, IsOpen}
use lp_700_server.Hub.Sound.{IsSound, close_send-open}
use lp_700_server.Hub.Delivery.{WithinDeadband, published, on_snapshot_lem, broadcast_hub-fan}
use lp_700_server.Hub.Invariant.{
  Case, register, unregister, resync, snapshot, scope_in, spectrum_in, heartbeat, take_case,
  Admissible, later-IsSound,
}
use lp_700_server.Hub.{
  Hub, Frame, telemetry, heartbeat_frame, scope, spectrum, next_seq, Store, update, mem, delete,
  send_json, send_last, on_register, on_unregister, on_resync, broadcast_hub, on_snapshot, on_scope,
  on_spectrum, on_heartbeat,
}

-- The cases that broadcast nothing.
abbrev pub IsSilent : Hub → Case → Type 0
IsSilent h (register c) = Unit {0}
IsSilent h (unregister c) = Unit {0}
IsSilent h (resync c) = Unit {0}
IsSilent h (snapshot now s) = (s.valid ≡ false) ⊎ WithinDeadband h.last_snap s
IsSilent h (scope_in s) = ⊥
IsSilent h (spectrum_in s) = ⊥
IsSilent h (heartbeat now) = now - h.last_sent < h.options.heartbeat

-- The message of a case with number `n`.
abbrev pub Carries : ℕ → Case → Frame → Type 0
Carries n (snapshot now s) f = f ≡ telemetry n s
Carries n (scope_in s) f = f ≡ scope n s
Carries n (spectrum_in s) f = f ≡ spectrum n s
Carries n (heartbeat now) f = f ≡ heartbeat_frame n now
Carries n (register c) f = ⊥
Carries n (unregister c) f = ⊥
Carries n (resync c) f = ⊥

-- A channel gets nothing, or the last telemetry once more.
abbrev pub NothingNew : Hub → Hub → Type 0
NothingNew h h' =
    (d : ℕ)
    → ((h'.sends d).items ≡ (h.sends d).items)
      ⊎ ((f : Frame) × (h.last_json ≡ some f) × ((h'.sends d).items ≡ (h.sends d).items ++ f ∷ []))

-- One case: silent, with the number as it was, or one broadcast with the next number.
abbrev pub Numbered : Hub → Case → Option Hub → Type 0
Numbered h e r =
    (h' : Hub) × (r ≡ some h')
    × ((IsSilent h e × (h'.seq ≡ h.seq) × NothingNew h h')
        ⊎ ((¬ IsSilent h e)
            × (h'.seq ≡ next_seq h.seq)
            × ((f : Frame) × Carries (next_seq h.seq) e f × (h'.sends ≡ fan h.sends h.clients f))))

offer-old :
    (ch : Chan Frame) (f : Frame)
    → ((offer ch f).0.items ≡ ch.items) ⊎ ((offer ch f).0.items ≡ ch.items ++ f ∷ [])
offer-old ch f = elim (Bool-cases (ltb (length ch.items) ch.cap)) [
  | inl room ↦ inr (ground arith)
  | inr full ↦ inl (ground arith)
]

delivered-old :
    (st : Store) (c : ℕ) (f : Frame) (d : ℕ)
    → ((delivered st c f d).items ≡ (st d).items)
      ⊎ ((delivered st c f d).items ≡ (st d).items ++ f ∷ [])
unfolding delivered
delivered-old st c f d = elim (Bool-cases (d == c)) [
  | inr e ↦ inl (rw e refl)
  | inl e ↦ rw (e, ← (==_iff d c).0 e) (offer-old (st d) f)
]

closed-old :
    (st : Store) (c d : ℕ) → (update st c (record (st c) { closed = true }) d).items ≡ (st d).items
closed-old st c d = elim (Bool-cases (d == c)) [
  | inr e ↦ rw e refl
  | inl e ↦ rw (e, ← (==_iff d c).0 e) refl
]

-- A send of the last telemetry, with the clients `cs`.
send_json-Numbered :
    (h : Hub) (cs : List ℕ) (c : ℕ) (j : Option Frame)
    → h.last_json ≡ j
    → (h.sends c).closed ≡ false
    → (h' : Hub) × (send_json (record h { clients = cs }) c j ≡ some h')
      × (h'.seq ≡ h.seq)
      × NothingNew h h'
unfolding send_json
send_json-Numbered h cs c none e o = (record h { clients = cs }, refl, refl, (λ d. inl refl))
send_json-Numbered h cs c (some f) e o = (
  record h { clients = cs; sends = delivered h.sends c f },
  rw (send_to-delivered h.sends c f o),
  refl,
  (λ d. elim (delivered-old h.sends c f d) [ inl s ↦ inl s | inr q ↦ inr (f, e, q) ]),
)

on_register-Numbered :
    (h : Hub) (c : ℕ) → IsOpen (h.sends c) → Numbered h (register c) (on_register h c)
unfolding on_register send_last
on_register-Numbered h c o = elim (Bool-cases (leb h.options.max_clients (length h.clients))) [
  | inl full ↦ (
    record h { sends = update h.sends c (record (h.sends c) { closed = true }) },
    rw full (rw (close_send-open h.sends c o)),
    inl (tt, refl, (λ d. inl (closed-old h.sends c d))),
  )
  | inr room ↦
      let (h', e, n, old) =
        send_json-Numbered h (if mem c h.clients then h.clients else c ∷ h.clients) c h.last_json
          refl o.not_closed in
      (h', rw room e, inl (tt, n, old))
]

on_unregister-Numbered :
    (h : Hub) (c : ℕ) → IsSound h → Numbered h (unregister c) (on_unregister h c)
unfolding on_unregister
on_unregister-Numbered h c v = elim (Bool-cases (mem c h.clients)) [
  | inr absent ↦ (h, rw absent, inl (tt, refl, (λ d. inl refl)))
  | inl present ↦ (
    record h {
      clients = delete c h.clients;
      sends = update h.sends c (record (h.sends c) { closed = true });
    },
    rw present
        (rw (close_send-open h.sends c (AllOpen-mem h.sends h.clients c v.all_open present))),
    inl (tt, refl, (λ d. inl (closed-old h.sends c d))),
  )
]

on_resync-Numbered : (h : Hub) (c : ℕ) → IsOpen (h.sends c) → Numbered h (resync c) (on_resync h c)
unfolding on_resync send_last
on_resync-Numbered h c o =
    let (h', e, n, old) = send_json-Numbered h h.clients c h.last_json refl o.not_closed in
    (h', e, inl (tt, n, old))

on_snapshot-Numbered :
    (now : ℕ) (h : Hub) (s : Snapshot)
    → IsSound h
    → Numbered h (snapshot now s) (on_snapshot now h s)
on_snapshot-Numbered now h s v = elim (on_snapshot_lem now h s v) [
  | inl (bad, e) ↦ (h, e, inl (inl bad, refl, (λ d. inl refl)))
  | inr (inl (ok, near, e)) ↦
      (record h { latest_snap = some s }, e, inl (inr near, refl, (λ d. inl refl)))
  | inr (inr (ok, far, e)) ↦ (
    published now h s,
    e,
    inr (
      (λ silent. elim silent [ inl bad ↦ cc (ok, bad) | inr near ↦ far near ]),
      refl,
      (telemetry (next_seq h.seq) s, refl, refl),
    ),
  )
]

on_heartbeat-Numbered :
    (now : ℕ) (h : Hub) → IsSound h → Numbered h (heartbeat now) (on_heartbeat now h)
unfolding on_heartbeat
on_heartbeat-Numbered now h v = elim (Bool-cases (ltb (now - h.last_sent) h.options.heartbeat)) [
  | inl early ↦ (h, rw early, inl (ground arith, refl, (λ d. inl refl)))
  | inr due ↦ (
    record h {
      seq = next_seq h.seq;
      last_sent = now;
      sends = fan h.sends h.clients (heartbeat_frame (next_seq h.seq) now);
    },
    rw due (broadcast_hub-fan _ _ (later-IsSound h now v)),
    inr ((λ early. late due early), refl, (heartbeat_frame (next_seq h.seq) now, refl, refl)),
  )
]
  where
    late :
        ltb (now - h.last_sent) h.options.heartbeat ≡ false
        → now - h.last_sent < h.options.heartbeat
        → ⊥
    late due early = ground arith

-- A broadcast of samples.
next-Numbered :
    (h : Hub) (f : Frame)
    → IsSound h
    → broadcast_hub (record h { seq = next_seq h.seq }) f
      ≡ some (record h { seq = next_seq h.seq; sends = fan h.sends h.clients f })
next-Numbered h f v = broadcast_hub-fan _ f (later-IsSound h h.last_sent v)

-- On a sound hub each admissible case is taken without a panic. A registration, an unregister, a resync,
-- a snapshot that is invalid or within the deadband of the last one sent and a heartbeat before its
-- time leave the number as it is, and a channel gets nothing by them, or the last telemetry once more
-- under its old number. Every other case, and so each scope and each spectrum frame, takes the next
-- number, which is one more and wraps around at 2 to the power 64, and offers one message that bears
-- that number and the content of the case to every client, and to no one else.
pub take_case-Numbered :
    (h : Hub) (e : Case) → IsSound h → Admissible h e → Numbered h e (take_case h e)
unfolding take_case on_scope on_spectrum
take_case-Numbered h (register c) v a = on_register-Numbered h c a.1
take_case-Numbered h (unregister c) v a = on_unregister-Numbered h c v
take_case-Numbered h (resync c) v a = on_resync-Numbered h c a
take_case-Numbered h (snapshot now s) v a = on_snapshot-Numbered now h s v
take_case-Numbered h (scope_in s) v a =
    (_, next-Numbered h _ v, inr ((λ x. x), refl, (scope (next_seq h.seq) s, refl, refl)))
take_case-Numbered h (spectrum_in s) v a =
    (_, next-Numbered h _ v, inr ((λ x. x), refl, (spectrum (next_seq h.seq) s, refl, refl)))
take_case-Numbered h (heartbeat now) v a = on_heartbeat-Numbered now h v

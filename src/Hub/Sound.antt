-- ===== src/Hub/Sound.antt =====
-- What holds of the hub between two cases of its `select`, and how the cases about one client keep it
-- (hub.go, Run).
use lp_700_server.Prelude.{
  ℕ, ◌≤◌, ◌≡◌, refl, inl, inr, true, false, List, [], ◌∷◌, Option, none, some, leb, ◌==◌, ◌||◌,
  length, arith, Bool-cases,
}
use lp_700_server.Prelude.Chan.{Chan}
use lp_700_server.Meter.Snapshot.{Snapshot, close_enough}
use lp_700_server.Hub.Broadcast.{
  IsOpen, AllOpen, Distinct, delivered, fan, send_to-delivered, delivered-IsOpen, broadcast-fan,
  fan-IsOpen, AllOpen-map, AllOpen-mem, delete-Distinct, length-delete-le, delete-AllOpen,
}
use lp_700_server.Hub.{
  Hub, Frame, telemetry, Store, update, close_send, mem, delete, send_json, send_last, on_register,
  on_unregister, broadcast_hub,
}

-- Before the first snapshot nothing is remembered; after it, the snapshot last sent and its message
-- agree, and the newest snapshot is within the deadband of the one last sent.
pub data InStep : Option Frame → Option Snapshot → Option Snapshot → Type 0 where
  silent : InStep none none none
  heard :
      (k : ℕ) (s l : Snapshot)
      → s.valid ≡ true
      → l.valid ≡ true
      → close_enough s l ≡ true
      → InStep (some (telemetry k s)) (some s) (some l)

pub record IsSound (h : Hub) : Type 0 where
  pub distinct : Distinct h.clients
  pub all_open : AllOpen h.sends h.clients
  pub bounded : length h.clients ≤ h.options.max_clients
  pub in_step : InStep h.last_json h.last_snap h.latest_snap

-- The case is taken without a panic, and the hub is sound again.
abbrev pub Keeps : Option Hub → Type 0
Keeps r = (h : Hub) × (r ≡ some h) × IsSound h

-- A fan-out over the clients of a hub whose other fields are already sound.
pub broadcast_hub-Keeps : (h : Hub) (f : Frame) → IsSound h → Keeps (broadcast_hub h f)
unfolding broadcast_hub
broadcast_hub-Keeps h f v =
    let e = broadcast-fan h.clients h.sends f v.all_open v.distinct in
    (
      record h { sends = fan h.sends h.clients f },
      rw e,
      record {
        distinct = v.distinct;
        all_open =
            AllOpen-map h.sends (fan h.sends h.clients f) h.clients (fan-IsOpen h.sends h.clients f)
              v.all_open;
        bounded = v.bounded;
        in_step = v.in_step;
      },
    )

send_json-Keeps :
    (h : Hub) (c : ℕ) (j : Option Frame) → IsSound h → IsOpen (h.sends c) → Keeps (send_json h c j)
unfolding send_json
send_json-Keeps h c none v o = (h, refl, v)
send_json-Keeps h c (some f) v o = (
  record h { sends = delivered h.sends c f },
  rw (send_to-delivered h.sends c f o.not_closed),
  record {
    distinct = v.distinct;
    all_open =
        AllOpen-map h.sends (delivered h.sends c f) h.clients (delivered-IsOpen h.sends c f)
          v.all_open;
    bounded = v.bounded;
    in_step = v.in_step;
  },
)

pub send_last-Keeps : (h : Hub) (c : ℕ) → IsSound h → IsOpen (h.sends c) → Keeps (send_last h c)
unfolding send_last
send_last-Keeps h c v o = send_json-Keeps h c h.last_json v o

pub close_send-open :
    (st : Store) (c : ℕ)
    → IsOpen (st c)
    → close_send st c ≡ some (update st c (record (st c) { closed = true }))
unfolding close_send
close_send-open st c o = rw o.not_closed

pub update-AllOpen :
    (st : Store) (c : ℕ) (ch : Chan Frame) (cs : List ℕ)
    → mem c cs ≡ false
    → AllOpen st cs
    → AllOpen (update st c ch) cs
unfolding mem
update-AllOpen st c ch [] h o = tt
update-AllOpen st c ch (d ∷ ds) h o = (rw (apart h) o.0, update-AllOpen st c ch ds (rest h) o.1)
  where
    apart : (c == d || mem c ds) ≡ false → (d == c) ≡ false
    apart e = ground arith

    rest : (c == d || mem c ds) ≡ false → mem c ds ≡ false
    rest e = ground arith

pub on_register-Keeps :
    (h : Hub) (c : ℕ)
    → IsSound h
    → mem c h.clients ≡ false
    → IsOpen (h.sends c)
    → Keeps (on_register h c)
unfolding on_register
on_register-Keeps h c v fresh o = elim (Bool-cases (leb h.options.max_clients (length h.clients))) [
  | inl full ↦ (
    record h { sends = update h.sends c (record (h.sends c) { closed = true }) },
    rw full (rw (close_send-open h.sends c o)),
    record {
      distinct = v.distinct;
      all_open = update-AllOpen h.sends c _ h.clients fresh v.all_open;
      bounded = v.bounded;
      in_step = v.in_step;
    },
  )
  | inr room ↦
      rw (room, fresh)
        (send_last-Keeps (record h { clients = c ∷ h.clients }) c
          (record {
            distinct = (fresh, v.distinct);
            all_open = (o, v.all_open);
            bounded = ground arith;
            in_step = v.in_step;
          })
          o)
]

pub on_unregister-Keeps : (h : Hub) (c : ℕ) → IsSound h → Keeps (on_unregister h c)
unfolding on_unregister
on_unregister-Keeps h c v = elim (Bool-cases (mem c h.clients)) [
  | inr absent ↦ (h, rw absent, v)
  | inl present ↦
      let o = AllOpen-mem h.sends h.clients c v.all_open present in
      (
        record h {
          clients = delete c h.clients;
          sends = update h.sends c (record (h.sends c) { closed = true });
        },
        rw present (rw (close_send-open h.sends c o)),
        record {
          distinct = delete-Distinct c h.clients v.distinct;
          all_open = delete-AllOpen h.sends c _ h.clients v.all_open;
          bounded = omega (arith, length-delete-le c h.clients, v.bounded);
          in_step = v.in_step;
        },
      )
]

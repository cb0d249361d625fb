-- ===== src/Hub.antt =====
-- internal/hub/hub.go: the goroutine that owns the clients map and the last snapshot, one function
-- for each case of its `select`. A client is a number; its `send` channel is shared with its own
-- goroutines, so all of them stand in a store. `none` is a panic of the program.
pub mod Messages
pub mod Pumps
pub mod Broadcast
pub mod Sound
pub mod Invariant
pub mod Delivery
pub mod Told
pub mod Races
pub mod Cases
pub mod Leaks
pub mod Interleaved
pub mod Shutdown
pub mod Numbering
pub mod Acks
use lp_700_server.Prelude.{
  ℕ, suc, ◌+◌, ◌-◌, ◌%◌, ◌^◌, Bool, true, false, not, String, List, [], ◌∷◌, Option, none, some,
  ltb, leb, ◌==◌, ◌||◌, if◌then◌else◌, length,
}
use lp_700_server.Prelude.Chan.{Chan, make, offer, try_send, close}
use lp_700_server.Meter.Snapshot.{Snapshot, ScopeFrame, SpectrumFrame, close_enough}

-- The JSON messages, before `json.Marshal`.
pub data Frame : Type 0 where
  telemetry : ℕ → Snapshot → Frame
  heartbeat_frame : ℕ → ℕ → Frame
  scope : ℕ → ScopeFrame → Frame
  spectrum : ℕ → SpectrumFrame → Frame
  ack : String → Bool → String → Frame

pub record Options : Type 0 where
  pub heartbeat : ℕ
  pub max_clients : ℕ
  pub allow_control : Bool

abbrev pub Store : Type 0
Store = ℕ → Chan Frame

abbrev pub update : Store → ℕ → Chan Frame → Store
update st c ch d = if d == c then ch else st d

pub record Hub : Type 0 where
  pub options : Options
  pub clients : List ℕ
  pub sends : Store
  pub registers : Chan ℕ
  pub unregisters : Chan ℕ
  pub resyncs : Chan ℕ
  pub last_json : Option Frame
  pub last_snap : Option Snapshot
  pub latest_snap : Option Snapshot
  pub last_sent : ℕ
  pub seq : ℕ

abbrev pub send_buffer : ℕ
send_buffer = 32

-- `h.seq.Add(1)` on an `atomic.Uint64`, which wraps around.
abbrev pub next_seq : ℕ → ℕ
next_seq n = (n + 1) % 2 ^ 64

-- `NewHub`, and the local variables at the start of `Run`.
unfoldable pub new_hub : Options → ℕ → Hub
new_hub options now = record {
  options = options;
  clients = [];
  sends = λ c. make send_buffer;
  registers = make 16;
  unregisters = make 16;
  resyncs = make 16;
  last_json = none;
  last_snap = none;
  latest_snap = none;
  last_sent = now;
  seq = 0;
}

abbrev pub bind {ℓ κ} : {A : Type ℓ} {B : Type κ} → Option A → (A → Option B) → Option B
bind none f = none
bind (some a) f = f a

-- A non-blocking send to one client; a full buffer drops the value.
unfoldable pub send_to : Store → ℕ → Frame → Option Store
send_to st c f = bind (try_send (st c) f) λ (ch, sent). some (update st c ch)

unfoldable pub close_send : Store → ℕ → Option Store
close_send st c = bind (close (st c)) λ ch. some (update st c ch)

-- The loop over the clients map, in any order.
unfoldable pub broadcast : List ℕ → Store → Frame → Option Store
broadcast [] st f = some st
broadcast (c ∷ cs) st f = bind (send_to st c f) λ st'. broadcast cs st' f

unfoldable pub close_all : List ℕ → Store → Option Store
close_all [] st = some st
close_all (c ∷ cs) st = bind (close_send st c) λ st'. close_all cs st'

unfoldable pub mem : ℕ → List ℕ → Bool
mem c [] = false
mem c (d ∷ ds) = c == d || mem c ds

-- `delete(clients, c)`
unfoldable pub delete : ℕ → List ℕ → List ℕ
delete c [] = []
delete c (d ∷ ds) = let rest = delete c ds in if c == d then rest else d ∷ rest

-- Sends the last telemetry to one client, if there is one.
unfoldable pub send_json : Hub → ℕ → Option Frame → Option Hub
send_json h c none = some h
send_json h c (some f) = bind (send_to h.sends c f) λ st. some (record h { sends = st })

unfoldable pub send_last : Hub → ℕ → Option Hub
send_last h c = send_json h c h.last_json

-- `case c := <-h.register`
unfoldable pub on_register : Hub → ℕ → Option Hub
on_register h c =
    if leb h.options.max_clients (length h.clients)
    then bind (close_send h.sends c) (λ st. some (record h { sends = st }))
    else send_last (record h { clients = if mem c h.clients then h.clients else c ∷ h.clients }) c

-- `case c := <-h.unregister`
unfoldable pub on_unregister : Hub → ℕ → Option Hub
on_unregister h c =
    if mem c h.clients
    then bind (close_send h.sends c)
        (λ st. some (record h { clients = delete c h.clients; sends = st }))
    else some h

-- `case c := <-h.resync`
unfoldable pub on_resync : Hub → ℕ → Option Hub
on_resync h c = send_last h c

unfoldable pub broadcast_hub : Hub → Frame → Option Hub
broadcast_hub h f = bind (broadcast h.clients h.sends f) λ st. some (record h { sends = st })

-- Whether the last snapshot sent is close to this one.
unfoldable pub unchanged : Option Snapshot → Snapshot → Bool
unchanged none snap = false
unchanged (some last) snap = close_enough last snap

-- The part of the snapshot case that sends: a new sequence number, the last-sent state, the fan-out.
unfoldable pub publish_snapshot : ℕ → Hub → Snapshot → Option Hub
publish_snapshot now h snap =
    let f = telemetry (next_seq h.seq) snap in
    broadcast_hub
      (record h {
        seq = next_seq h.seq;
        last_snap = some snap;
        last_json = some f;
        last_sent = now;
      })
      f

-- `case snap := <-h.snapIn`, at the time `now`.
unfoldable pub on_snapshot : ℕ → Hub → Snapshot → Option Hub
on_snapshot now h snap =
    if not snap.valid
    then some h
    else let h' = record h { latest_snap = some snap } in
      if unchanged h.last_snap snap then some h' else publish_snapshot now h' snap

unfoldable pub on_scope : Hub → ScopeFrame → Option Hub
on_scope h s = broadcast_hub (record h { seq = next_seq h.seq }) (scope (next_seq h.seq) s)

unfoldable pub on_spectrum : Hub → SpectrumFrame → Option Hub
on_spectrum h s = broadcast_hub (record h { seq = next_seq h.seq }) (spectrum (next_seq h.seq) s)

-- `case <-hb.C`
unfoldable pub on_heartbeat : ℕ → Hub → Option Hub
on_heartbeat now h =
    if ltb (now - h.last_sent) h.options.heartbeat
    then some h
    else broadcast_hub (record h { seq = next_seq h.seq; last_sent = now })
        (heartbeat_frame (next_seq h.seq) now)

-- `case <-ctx.Done()`
unfoldable pub on_done : Hub → Option Hub
on_done h = bind (close_all h.clients h.sends) λ st. some (record h { sends = st })

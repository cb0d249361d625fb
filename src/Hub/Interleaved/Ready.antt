-- ===== src/Hub/Interleaved/Ready.antt =====
-- What holds of the hub between any two steps, and how the single steps keep it (hub.go).
use lp_700_server.Prelude.{
  ℕ, ◌≡◌, refl, inl, inr, Bool, false, List, [], ◌∷◌, String, Option, none, some, ◌==◌, Bool-cases,
  ==_iff, subst,
}
use lp_700_server.Prelude.Chan.{Chan, make, offer}
use lp_700_server.Hub.{Hub, Frame, Store, update, bind, mem, send_buffer, ack}
use lp_700_server.Hub.Broadcast.{IsOpen, Distinct, AllOpen-map, delivered, delivered-IsOpen}
use lp_700_server.Hub.Sound.{IsSound, update-AllOpen}
use lp_700_server.Hub.Invariant.{
  Case, register, unregister, resync, snapshot, scope_in, spectrum_in, heartbeat, take_case,
  Admissible, take_case-Keeps,
}
use lp_700_server.Hub.Messages.{send_ack, serve_ws, read_pump_exit}
use lp_700_server.Hub.Acks.{send_ack-delivered}
use lp_700_server.Hub.Interleaved.Waiting.{
  Waiting, AllFresh, AllFresh-sends, IsFirst, take_case-Waiting, served-Waiting,
}
use lp_700_server.Hub.Interleaved.{received, head_is}

-- A sound hub whose waiting registrations are those of fresh clients.
abbrev pub IsReady : Hub → Type 0
IsReady h = IsSound h × Waiting h

-- Sends that keep open channels open.
pub IsReady-sends :
    (h : Hub) (st : Store)
    → ((d : ℕ) → IsOpen (h.sends d) → IsOpen (st d))
    → IsReady h
    → IsReady (record h { sends = st })
IsReady-sends h st k (v, (d, a)) = (
  record {
    distinct = v.distinct;
    all_open = AllOpen-map h.sends st h.clients k v.all_open;
    bounded = v.bounded;
    in_step = v.in_step;
  },
  (d, AllFresh-sends h.clients h.sends st h.registers.items k a),
)

-- The change of one channel that stays open if it was.
pub update-IsOpen :
    (st : Store) (c : ℕ) (ch : Chan Frame)
    → (IsOpen (st c) → IsOpen ch)
    → (d : ℕ) → IsOpen (st d)
    → IsOpen (update st c ch d)
update-IsOpen st c ch k d o = elim (Bool-cases (d == c)) [
  | inr e ↦ rw e o
  | inl e ↦ rw e (k (subst (λ x. IsOpen (st x)) ((==_iff d c).0 e) o))
]

-- An ack on an open channel.
pub acked :
    (h : Hub) (c : ℕ) (id : String) (accepted : Bool) (reason : String)
    → IsReady h
    → IsOpen (h.sends c)
    → (h' : Hub) × (send_ack h c id accepted reason ≡ some h') × IsReady h'
acked h c id accepted reason v o = (
  record h { sends = delivered h.sends c (ack id accepted reason) },
  send_ack-delivered h c id accepted reason o.not_closed,
  IsReady-sends h _ (delivered-IsOpen h.sends c (ack id accepted reason)) v,
)

-- Soundness does not look at the channels between the goroutines.
IsSound-channels :
    (h : Hub) (registers' unregisters' resyncs' : Chan ℕ)
    → IsSound h
    → IsSound (record h { registers = registers'; unregisters = unregisters'; resyncs = resyncs' })
IsSound-channels h r u y v = record {
  distinct = v.distinct;
  all_open = v.all_open;
  bounded = v.bounded;
  in_step = v.in_step;
}

pub IsReady-channels :
    (h : Hub) (unregisters' resyncs' : Chan ℕ)
    → IsReady h
    → IsReady (record h { unregisters = unregisters'; resyncs = resyncs' })
IsReady-channels h u y (v, w) = (IsSound-channels h h.registers u y v, w)

-- A resync is asked for only while the client's channel is open.
abbrev pub Asks : Hub → Case → Type 0
Asks h (resync c) = IsOpen (h.sends c)
Asks h _ = Unit {0}

-- What the receive of a case gives.
abbrev pub Kept : Case → Option Hub → Type 0
Kept e none = Unit {0}
Kept e (some h) = IsReady h × Admissible h e × IsFirst h e

first-Kept :
    (h : Hub) (c : ℕ) (items : List ℕ)
    → h.registers.items ≡ items
    → IsReady h
    → Kept (register c) (
        bind
          (head_is c items)
          (λ xs. some (record h { registers = record h.registers { items = xs } })))
unfolding head_is
first-Kept h c [] e v = tt
first-Kept h c (d ∷ ds) e (v, w) = elim (Bool-cases (d == c)) [
  | inr other ↦ rw other tt
  | inl same ↦
      rw same
        (kept ((==_iff d c).0 same) (subst (λ xs. Distinct xs × AllFresh h.clients h.sends xs) e w))
]
  where
    kept :
        d ≡ c
        → Distinct (d ∷ ds) × AllFresh h.clients h.sends (d ∷ ds)
        → Kept (register c) (some (record h { registers = record h.registers { items = ds } }))
    kept s ((n, dist), (f, fresh)) = (
      (IsSound-channels h _ h.unregisters h.resyncs v, (dist, fresh)),
      subst (λ x. (mem x h.clients ≡ false) × IsOpen (h.sends x)) s f,
      subst (λ x. mem x ds ≡ false) s n,
    )

pub received-Kept : (h : Hub) (e : Case) → IsReady h → Asks h e → Kept e (received h e)
unfolding received
received-Kept h (register c) v a = first-Kept h c h.registers.items refl v
received-Kept h (unregister c) v a = popped (head_is c h.unregisters.items)
  where
    popped :
        (r : Option (List ℕ))
        → Kept
            (unregister c)
            (bind r (λ xs. some (record h { unregisters = record h.unregisters { items = xs } })))
    popped none = tt
    popped (some xs) = (IsReady-channels h _ h.resyncs v, tt, tt)
received-Kept h (resync c) v a = popped (head_is c h.resyncs.items)
  where
    popped :
        (r : Option (List ℕ))
        → Kept
            (resync c)
            (bind r (λ xs. some (record h { resyncs = record h.resyncs { items = xs } })))
    popped none = tt
    popped (some xs) = (IsReady-channels h h.unregisters _ v, a, tt)
received-Kept h (snapshot now s) v a = (v, tt, tt)
received-Kept h (scope_in s) v a = (v, tt, tt)
received-Kept h (spectrum_in s) v a = (v, tt, tt)
received-Kept h (heartbeat now) v a = (v, tt, tt)

-- A case that may be taken is taken without a panic.
pub take_case-IsReady :
    (h : Hub) (e : Case)
    → IsReady h
    → Admissible h e
    → IsFirst h e
    → (h' : Hub) × (take_case h e ≡ some h') × IsReady h'
take_case-IsReady h e (v, w) a n =
    let (h', p, v') = take_case-Keeps h e v a in (h', p, (v', take_case-Waiting h h' e w n p))

pub left-IsReady : (h : Hub) (c : ℕ) → IsReady h → IsReady (read_pump_exit h c)
unfolding read_pump_exit
left-IsReady h c v = IsReady-channels h _ h.resyncs v

pub served-IsReady :
    (h : Hub) (c : ℕ)
    → IsReady h
    → mem c h.clients ≡ false
    → mem c h.registers.items ≡ false
    → IsReady (serve_ws h c).0
served-IsReady h c (v, w) out n = (unfold serve_ws in sound, served-Waiting h c w out n)
  where
    sound : IsSound (record h {
      sends = update h.sends c (make send_buffer);
      registers = (offer h.registers c).0;
    })
    sound = record {
      distinct = v.distinct;
      all_open = update-AllOpen h.sends c (make send_buffer) h.clients out v.all_open;
      bounded = v.bounded;
      in_step = v.in_step;
    }

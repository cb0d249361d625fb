-- ===== src/Hub/Invariant.antt =====
-- The cases of the hub's `select`, and the states that its loop reaches (hub.go, Run).
use lp_700_server.Prelude.{
  ℕ, ◌-◌, ◌≡◌, sym, subst, ◌∙◌, inl, inr, true, false, Option, some, ltb, arith, Bool-cases,
}
use lp_700_server.Meter.Snapshot.{Snapshot, ScopeFrame, SpectrumFrame}
use lp_700_server.Meter.Snapshot.Deadband.{IsClose-refl, close_enough_iff}
use lp_700_server.Hub.Broadcast.{IsOpen}
use lp_700_server.Hub.{
  Hub, Options, Frame, next_seq, new_hub, mem, on_register, on_unregister, on_resync, unchanged,
  publish_snapshot, on_snapshot, on_scope, on_spectrum, on_heartbeat,
}
use lp_700_server.Hub.Sound.{
  IsSound, InStep, silent, heard, Keeps, broadcast_hub-Keeps, send_last-Keeps, on_register-Keeps,
  on_unregister-Keeps,
}

-- The cases of the `select` but `ctx.Done`.
pub data Case : Type 0 where
  register unregister resync : ℕ → Case
  snapshot : ℕ → Snapshot → Case
  scope_in : ScopeFrame → Case
  spectrum_in : SpectrumFrame → Case
  heartbeat : ℕ → Case

unfoldable pub take_case : Hub → Case → Option Hub
take_case h (register c) = on_register h c
take_case h (unregister c) = on_unregister h c
take_case h (resync c) = on_resync h c
take_case h (snapshot now s) = on_snapshot now h s
take_case h (scope_in s) = on_scope h s
take_case h (spectrum_in s) = on_spectrum h s
take_case h (heartbeat now) = on_heartbeat now h

-- What the hub relies on: a client registers once, with a fresh channel, and asks for a resync only
-- while the hub has not closed its channel.
abbrev pub Admissible : Hub → Case → Type 0
Admissible h (register c) = (mem c h.clients ≡ false) × IsOpen (h.sends c)
Admissible h (resync c) = IsOpen (h.sends c)
Admissible h _ = Unit {0}

new_hub-IsSound : (o : Options) (now : ℕ) → IsSound (new_hub o now)
unfolding new_hub
new_hub-IsSound o now = record {
  distinct = tt;
  all_open = tt;
  bounded = omega arith;
  in_step = silent;
}

pub later-IsSound :
    (h : Hub) (t : ℕ) → IsSound h → IsSound (record h { seq = next_seq h.seq; last_sent = t })
later-IsSound h t v = record {
  distinct = v.distinct;
  all_open = v.all_open;
  bounded = v.bounded;
  in_step = v.in_step;
}

InStep-unchanged :
    {j : Option Frame} {s l : Option Snapshot} (snap : Snapshot)
    → InStep j s l
    → unchanged s snap ≡ true
    → snap.valid ≡ true
    → InStep j s (some snap)
unfolding unchanged
InStep-unchanged snap silent u v = cc
InStep-unchanged snap (heard k s l b c d) u v = heard k s snap b v u

publish_snapshot-Keeps :
    (now : ℕ) (h : Hub) (snap : Snapshot)
    → IsSound h
    → snap.valid ≡ true
    → Keeps (publish_snapshot now (record h { latest_snap = some snap }) snap)
unfolding publish_snapshot
publish_snapshot-Keeps now h snap v ok = broadcast_hub-Keeps _ _ (record {
  distinct = v.distinct;
  all_open = v.all_open;
  bounded = v.bounded;
  in_step =
      heard (next_seq h.seq) snap snap ok ok ((close_enough_iff snap snap).1 (IsClose-refl snap));
})

on_snapshot-Keeps :
    (now : ℕ) (h : Hub) (snap : Snapshot) → IsSound h → Keeps (on_snapshot now h snap)
unfolding on_snapshot
on_snapshot-Keeps now h snap v = elim (Bool-cases snap.valid) [
  | inr bad ↦ (h, ground arith, v)
  | inl ok ↦ elim (Bool-cases (unchanged h.last_snap snap)) [
    | inl same ↦ (
      record h { latest_snap = some snap },
      ground arith,
      record {
        distinct = v.distinct;
        all_open = v.all_open;
        bounded = v.bounded;
        in_step = InStep-unchanged snap v.in_step same ok;
      },
    )
    | inr new ↦ let (h', e, s) = publish_snapshot-Keeps now h snap v ok in (h', ground arith, s)
  ]
]

on_heartbeat-Keeps : (now : ℕ) (h : Hub) → IsSound h → Keeps (on_heartbeat now h)
unfolding on_heartbeat
on_heartbeat-Keeps now h v = elim (Bool-cases (ltb (now - h.last_sent) h.options.heartbeat)) [
  | inl early ↦ (h, rw early, v)
  | inr due ↦ rw due (broadcast_hub-Keeps _ _ (later-IsSound h now v))
]

-- No case of the hub's loop panics while clients register fresh and ask for a resync on an open
-- channel, and each leaves the hub sound: its clients are distinct and at most `max_clients`, their
-- channels are open and hold at most 32 messages, and what it remembers of the meter is in step.
pub take_case-Keeps : (h : Hub) (e : Case) → IsSound h → Admissible h e → Keeps (take_case h e)
unfolding take_case on_resync on_scope on_spectrum
take_case-Keeps h (register c) v (fresh, o) = on_register-Keeps h c v fresh o
take_case-Keeps h (unregister c) v a = on_unregister-Keeps h c v
take_case-Keeps h (resync c) v a = send_last-Keeps h c v a
take_case-Keeps h (snapshot now s) v a = on_snapshot-Keeps now h s v
take_case-Keeps h (scope_in s) v a = broadcast_hub-Keeps _ _ (later-IsSound h h.last_sent v)
take_case-Keeps h (spectrum_in s) v a = broadcast_hub-Keeps _ _ (later-IsSound h h.last_sent v)
take_case-Keeps h (heartbeat now) v a = on_heartbeat-Keeps now h v

-- The states that the loop reaches from a new hub.
pub data Reaches (o : Options) (start : ℕ) : Hub → Type 0 where
  begins : Reaches o start (new_hub o start)
  goes :
      {h h' : Hub} (e : Case)
      → Reaches o start h
      → Admissible h e
      → take_case h e ≡ some h'
      → Reaches o start h'

pub some-eq : {a b : Hub} → some a ≡ some b → a ≡ b
some-eq h = cc

-- Every reachable hub is sound.
pub Reaches-IsSound : {o : Options} {start : ℕ} {h : Hub} → Reaches o start h → IsSound h
Reaches-IsSound {o} {start} begins = new_hub-IsSound o start
Reaches-IsSound (goes {h} {h'} e r a t) =
    let (k, p, s) = take_case-Keeps h e (Reaches-IsSound r) a in
    subst IsSound (some-eq (sym p ∙ t)) s

-- ===== src/Meter/Owner/Telemetry.antt =====
-- What the owner does with a telemetry or an echo frame (owner.go).
use lp_700_server.Prelude.{ℕ, ◌≡◌, ◌≢◌, ◌⊎◌, inl, inr, true, false, [], arith, Bool-cases, ap}
use lp_700_server.Prelude.Chan.{offer}
use lp_700_server.Prelude.Result.{ok}
use lp_700_server.Meter.Snapshot.{Bytes, bytes_eq, Snapshot}
use lp_700_server.Meter.Snapshot.Deadband.{bytes_eq_iff}
use lp_700_server.Meter.Frame.{is_command_echo, is_likely_telemetry}
use lp_700_server.Meter.Decode.{decode}
use lp_700_server.Meter.Decode.Routing.{decode-ok_of_telemetry}
use lp_700_server.Meter.Owner.{Owner, carry_status, publish, on_telemetry, on_frame}

-- The frame is an echo: only the segment counter changes.
pub on_frame-echo :
    (now : ℕ) (o : Owner) (f : Bytes)
    → is_command_echo f ≡ true
    → on_frame now o f ≡ record o { seg_idx = 0 }
unfolding on_frame
on_frame-echo now o f h = rw h

-- The snapshot that the hub is offered, and the owner's labels after a telemetry frame.
pub record Published (now : ℕ) (o : Owner) (f : Bytes) (s : Snapshot) : Type 0 where
  pub decoded : decode now f ≡ ok s
  pub status_carried :
      ((s.status_message ≡ []) × ((on_frame now o f).last_status ≡ o.last_status))
      ⊎ ((s.status_message ≢ []) × ((on_frame now o f).last_status ≡ s.status_message))
  pub mode_set : (on_frame now o f).last_top_mode ≡ s.top_mode
  pub channel_set : (on_frame now o f).last_channel ≡ s.channel
  pub auto_set : (on_frame now o f).last_auto ≡ s.auto_channel
  pub fresh_cycle : (on_frame now o f).seg_idx ≡ 0
  pub offered :
      (on_frame now o f).out
      ≡ (offer o.out (record s { status_message = (on_frame now o f).last_status })).0

on_telemetry-publish :
    (now : ℕ) (o : Owner) (f : Bytes) {s : Snapshot}
    → decode now f ≡ ok s
    → on_telemetry now o f ≡ publish o s
unfolding on_telemetry
on_telemetry-publish now o f d = rw (d, on_telemetry)

pub on_frame-publish :
    (now : ℕ) (o : Owner) (f : Bytes) {s : Snapshot}
    → is_command_echo f ≡ false
    → is_likely_telemetry f ≡ true
    → decode now f ≡ ok s
    → on_frame now o f ≡ publish o s
unfolding on_frame
on_frame-publish now o f e h d = rw (e, h) (on_telemetry-publish now o f d)

carry_status-cases :
    (last : Bytes) (s : Snapshot)
    → ((s.status_message ≡ []) × ((carry_status last s).status_message ≡ last))
      ⊎ ((s.status_message ≢ []) × ((carry_status last s).status_message ≡ s.status_message))
unfolding carry_status
carry_status-cases last s = elim (Bool-cases (bytes_eq s.status_message [])) [
  | inl e ↦ inl ((bytes_eq_iff s.status_message []).0 e, rw e)
  | inr e ↦ inr ((λ h. cc (e, (bytes_eq_iff s.status_message []).1 h)), rw e)
]

-- Carrying the status changes no other field.
carry_status-eq :
    (last : Bytes) (s : Snapshot)
    → carry_status last s ≡ record s { status_message = (carry_status last s).status_message }
unfolding carry_status
carry_status-eq last s = ground arith

publish-Published :
    (now : ℕ) (o : Owner) (f : Bytes) (s : Snapshot)
    → decode now f ≡ ok s
    → on_frame now o f ≡ publish o s
    → Published now o f s
unfolding publish
publish-Published now o f s d e = record {
  decoded = d;
  status_carried = rw e (carry_status-cases o.last_status s);
  mode_set = rw e (ap (λ (t : Snapshot). t.top_mode) (carry_status-eq o.last_status s));
  channel_set = rw e (ap (λ (t : Snapshot). t.channel) (carry_status-eq o.last_status s));
  auto_set = rw e (ap (λ (t : Snapshot). t.auto_channel) (carry_status-eq o.last_status s));
  fresh_cycle = rw e;
  offered = rw e (ap (λ t. (offer o.out t).0) (carry_status-eq o.last_status s));
}

-- Every frame that passes the telemetry test and is no echo is decoded and published: the owner
-- takes its labels from it, starts a new sample cycle, and offers the hub the decoded snapshot with
-- the last status text that was not empty.
pub on_frame-Published :
    (now : ℕ) (o : Owner) (f : Bytes)
    → is_command_echo f ≡ false
    → is_likely_telemetry f ≡ true
    → (s : Snapshot) × Published now o f s
on_frame-Published now o f e h =
    let (s, d) = decode-ok_of_telemetry now f h e in
    (s, publish-Published now o f s d (on_frame-publish now o f e h d))

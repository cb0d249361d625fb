-- ===== src/Pipeline.antt =====
-- A client's command on its way through the server: the hub's answer (hub.go, handleClientMsg) and the
-- owner's next tick (owner.go, runOnce), with the owner's Submit behind the hub as main.go wires it.
use lp_700_server.Prelude.{
  ℕ, ◌+◌, ◌<◌, ◌≡◌, refl, sym, ap, ◌∙◌, inl, inr, Bool, true, false, String, List, [], ◌∷◌, ◌++◌,
  append_assoc, Option, some, length, lt→ltb,
}
use lp_700_server.Prelude.Chan.{Chan}
use lp_700_server.Prelude.Int.{ℤ}
use lp_700_server.Prelude.Result.{ok}
use lp_700_server.Meter.Snapshot.{Bytes}
use lp_700_server.Meter.Frame.{report_of}
use lp_700_server.Meter.Command.{known_verbs, encode_command, verb_available_in_state}
use lp_700_server.Meter.Command.Wire.{known_verbs_iff}
use lp_700_server.Meter.Writes.{Command, Writer, OwnerError, submit, with_report_id}
use lp_700_server.Meter.Writes.Drain.{wire_of, wires_of}
use lp_700_server.Meter.Owner.{Owner, on_tick}
use lp_700_server.Meter.Owner.Schedule.{asked, on_tick_lem}
use lp_700_server.Meter.Simulator.Loop as Simulator
use lp_700_server.Hub.{Hub, ack}
use lp_700_server.Hub.Broadcast.{delivered}
use lp_700_server.Hub.Messages.{Source, ClientMsg, value_or, on_command}
use lp_700_server.Hub.Acks.{Answered, on_command-Answers}

pub submit-refuses_unknown :
    (q : Chan Command) (v : String) (n : ℤ) → known_verbs v ≡ false → (submit q v n).1 ≡ false
unfolding submit
submit-refuses_unknown q v n h = rw h

-- The owner as the source of the hub: its queue of commands.
abbrev pub owner_source : Source
owner_source = record {
  State = Chan Command;
  submit = submit;
  refuses_unknown = submit-refuses_unknown;
}

-- The simulator's Submit does what the owner's does.
pub simulator-submits :
    (q : Chan Command) (v : String) (n : ℤ) → Simulator.submit q v n ≡ submit q v n
unfolding submit Simulator.submit
simulator-submits q v n = refl

-- The simulator as the source of the hub.
abbrev pub simulator_source : Source
simulator_source = record {
  State = Chan Command;
  submit = Simulator.submit;
  refuses_unknown = λ q v n h.
      ap (λ (r : Chan Command × Bool). r.1) (simulator-submits q v n)
      ∙ submit-refuses_unknown q v n h;
}

-- The command that a message asks for.
abbrev pub command_of : ClientMsg → Command
command_of req = record { verb = req.action; value = value_or req.value }

submit-queued :
    (q : Chan Command) (v : String) (n : ℤ)
    → known_verbs v ≡ true
    → length q.items < q.cap
    → submit q v n ≡ (record q { items = q.items ++ record { verb = v; value = n } ∷ [] }, true)
unfolding submit
submit-queued q v n k room = rw k (rw (lt→ltb _ _ room) refl)

wires_of-append : (cs ds : List Command) → wires_of (cs ++ ds) ≡ wires_of cs ++ wires_of ds
unfolding wires_of
wires_of-append [] ds = refl
wires_of-append (c ∷ cs) ds =
    ap (◌++◌ (wire_of c)) (wires_of-append cs ds)
    ∙ sym (append_assoc (wire_of c) (wires_of cs) (wires_of ds))

wires_of_one :
    (c : Command) {r : Bytes}
    → encode_command c.verb c.value ≡ ok r
    → wires_of (c ∷ []) ≡ with_report_id r ∷ []
unfolding wires_of wire_of
wires_of_one c e = rw (e, wire_of) refl

-- The queue after the command of a message.
abbrev queued : Owner → ClientMsg → Chan Command
queued o req = record o.commands { items = o.commands.items ++ command_of req ∷ [] }

-- A message that passes every test is acked with yes, and its command stands last in the queue.
acked :
    (o : Owner) (h : Hub) (c : ℕ) (req : ClientMsg)
    → (h.sends c).closed ≡ false
    → h.options.allow_control ≡ true
    → verb_available_in_state req.action h.latest_snap ≡ ""
    → known_verbs req.action ≡ true
    → length o.commands.items < o.commands.cap
    → on_command owner_source h o.commands c req
      ≡ some (record h { sends = delivered h.sends c (ack req.id true "") }, queued o req)
acked o h c req live free gate known room =
    let (ok', reason, q, e, a, k) = on_command-Answers owner_source h o.commands c req live in
    e ∙ settle ok' reason q a
  where
    taken : submit o.commands req.action (value_or req.value) ≡ (queued o req, true)
    taken = submit-queued o.commands req.action (value_or req.value) known room

    settle :
        (ok' : Bool) (reason : String) (q : Chan Command)
        → Answered owner_source h req o.commands q ok' reason
        → ◌≡◌ {A = Option (Hub × Chan Command)}
            (some (record h { sends = delivered h.sends c (ack req.id ok' reason) }, q))
            (some (record h { sends = delivered h.sends c (ack req.id true "") }, queued o req))
    settle ok' reason q (inl (x, y, m, s, k)) = rw (x, y, s, taken) refl
    settle ok' reason q (inr (inl (x, y, s, inl locked))) = absurd (cc (free, locked))
    settle ok' reason q (inr (inl (x, y, s, inr shut))) = absurd (shut gate)
    settle ok' reason q (inr (inr (x, y, s, f, g, full))) =
        absurd (cc (full, ap (λ (p : Chan Command × Bool). p.1) taken))

-- A client's command that the hub acks reaches the meter: where control is allowed, the state gate has
-- no objection, the verb is known and the queue has room, the answer is yes; and on a device that takes
-- its writes the next tick writes the command's report, behind the ones that were queued before it and
-- in front of the poll.
pub command_reaches_wire :
    (dev : Writer) (o : Owner) (h : Hub) (c : ℕ) (req : ClientMsg)
    → ((done : List Bytes) (buf : Bytes) → dev done buf ≡ true)
    → (h.sends c).closed ≡ false
    → h.options.allow_control ≡ true
    → verb_available_in_state req.action h.latest_snap ≡ ""
    → known_verbs req.action ≡ true
    → length o.commands.items < o.commands.cap
    → (q : Chan Command) × (r : Bytes) × (on_command owner_source h o.commands c req
        ≡ some (record h { sends = delivered h.sends c (ack req.id true "") }, q))
      × (encode_command req.action (value_or req.value) ≡ ok r)
      × ((on_tick dev (record o { commands = q })).0.sent
          ≡ (o.sent ++ (wires_of o.commands.items ++ with_report_id r ∷ []))
            ++ with_report_id (report_of (asked o.last_top_mode (o.tick_n + 1))) ∷ [])
command_reaches_wire dev o h c req takes live free gate known room =
    let (r, e) = (known_verbs_iff req.action (value_or req.value)).0 known in
    (
      queued o req,
      r,
      acked o h c req live free gate known room,
      e,
      ap (λ (p : Owner × Option OwnerError). p.0.sent)
            (on_tick_lem dev (record o { commands = queued o req }) takes)
          ∙ ap
              (λ w.
                (o.sent ++ w)
                ++ with_report_id (report_of (asked o.last_top_mode (o.tick_n + 1))) ∷ [])
              (wires_of-append o.commands.items (command_of req ∷ [])
                ∙ ap (◌++◌ (wires_of o.commands.items)) (wires_of_one (command_of req) e)),
    )

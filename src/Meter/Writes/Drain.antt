-- ===== src/Meter/Writes/Drain.antt =====
-- Draining the command queue (owner.go).
use lp_700_server.Prelude.{
  ◌≡◌, refl, sym, ap, ◌∙◌, true, false, List, [], ◌∷◌, ◌++◌, append_assoc, append-nil, Option, none,
  some, arith, All, All-append, ◌⊎◌, inl, inr, Bool-cases, if◌then◌else◌, ltb, length, String,
}
use lp_700_server.Prelude.Chan.{Chan}
use lp_700_server.Prelude.Int.{ℤ}
use lp_700_server.Prelude.Result.{ok, err, Result-cases}
use lp_700_server.Meter.Snapshot.{Bytes}
use lp_700_server.Meter.Command.{known_verbs, encode_command}
use lp_700_server.Meter.Writes.{
  Command, Writer, OwnerError, submit, write_report, with_report_id, drain_commands,
  command_write_failed,
}

-- A queue that holds nothing but known verbs.
abbrev pub AllKnown : List Command → Type 0
AllKnown = All (λ c. known_verbs c.verb ≡ true)

-- `Submit` keeps unknown verbs out of the queue.
pub submit-AllKnown :
    (q : Chan Command) (v : String) (n : ℤ) → AllKnown q.items → AllKnown (submit q v n).0.items
unfolding submit
submit-AllKnown q v n h = elim (Bool-cases (known_verbs v)) [
  | inr e ↦ rw e h
  | inl e ↦ rw e (elim (Bool-cases (ltb (length q.items) q.cap)) [
    | inr full ↦ rw full h
    | inl room ↦ rw room (All-append _ q.items _ (e, tt) h)
  ])
]

-- A verb is accepted exactly when it is known and the queue has room.
pub submit_accepts :
    (q : Chan Command) (v : String) (n : ℤ)
    → (submit q v n).1 ≡ (if known_verbs v then ltb (length q.items) q.cap else false)
unfolding submit
submit_accepts q v n = ground arith

-- The OUT buffer of a command.
unfoldable pub wire_of : Command → List Bytes
wire_of c = elim (encode_command c.verb c.value) [ err _ ↦ [] | ok out ↦ with_report_id out ∷ [] ]

unfoldable pub wires_of : List Command → List Bytes
wires_of [] = []
wires_of (c ∷ cs) = wire_of c ++ wires_of cs

pub write_report-done :
    (dev : Writer) (sent : List Bytes) (p : Bytes)
    → dev sent (with_report_id p) ≡ true
    → write_report dev sent p ≡ (sent ++ with_report_id p ∷ [], true)
unfolding write_report
write_report-done dev sent p h = rw h

pub write_report-failed :
    (dev : Writer) (sent : List Bytes) (p : Bytes)
    → dev sent (with_report_id p) ≡ false
    → write_report dev sent p ≡ (sent, false)
unfolding write_report
write_report-failed dev sent p h = rw h

abbrev Outcome : Type 0
Outcome = List Command × List Bytes × Option OwnerError

-- How a drain ends: it took every command, or its write of one command failed.
abbrev pub Drained : List Command → List Bytes → Outcome → Type 0
Drained cs sent r =
    (r ≡ ([], sent ++ wires_of cs, none))
    ⊎ ((pre : List Command) × (c : Command) × (rest : List Command) × (cs ≡ pre ++ c ∷ rest)
        × (r ≡ (rest, sent ++ wires_of pre, some (command_write_failed c.verb))))

-- One command: its report is written and the drain goes on, or the write fails and ends it.
drain_step :
    (dev : Writer) (c : Command) (cs : List Command) (sent : List Bytes)
    → (drain_commands dev (c ∷ cs) sent ≡ drain_commands dev cs (sent ++ wire_of c))
      ⊎ ((drain_commands dev (c ∷ cs) sent ≡ (cs, sent, some (command_write_failed c.verb)))
          × ((buf : Bytes) × (dev sent buf ≡ false)))
unfolding drain_commands wire_of
drain_step dev c cs sent = elim (Result-cases (encode_command c.verb c.value)) [
  | inr (x, e) ↦ inl (rw (e, drain_commands, wire_of) (rw append-nil))
  | inl (out, e) ↦ elim (Bool-cases (dev sent (with_report_id out))) [
    | inl w ↦ inl (
        rw (e, drain_commands, wire_of)
          (rw (write_report-done dev sent out w, write_report-done dev sent out w)))
    | inr w ↦ inr (
      rw (e, drain_commands)
          (rw (write_report-failed dev sent out w, write_report-failed dev sent out w)),
      (with_report_id out, w),
    )
  ]
]

Drained-cons :
    (c : Command) (cs : List Command) (sent : List Bytes) (r : Outcome)
    → Drained cs (sent ++ wire_of c) r
    → Drained (c ∷ cs) sent r
unfolding wires_of
Drained-cons c cs sent r (inl e) =
    inl (e ∙ ap (λ w. ([], w, none)) (append_assoc sent (wire_of c) (wires_of cs)))
Drained-cons c cs sent r (inr (pre, d, rest, s, e)) = inr (
  c ∷ pre,
  d,
  rest,
  ap (◌∷◌ c) s,
  e
      ∙ ap (λ w. (rest, w, some (command_write_failed d.verb)))
          (append_assoc sent (wire_of c) (wires_of pre)),
)

-- Whatever the device does, a drain writes the reports of the commands in the order of submission.
-- It empties the queue; or the write of one command fails, then the ones before it are written, that
-- one is dropped, and the ones behind it stay queued.
pub drain_commands-Drained :
    (dev : Writer) (cs : List Command) (sent : List Bytes)
    → Drained cs sent (drain_commands dev cs sent)
unfolding drain_commands wires_of
drain_commands-Drained dev [] sent = inl (rw append-nil)
drain_commands-Drained dev (c ∷ cs) sent = elim (drain_step dev c cs sent) [
  | inl e ↦ rw e (Drained-cons c cs sent _ (drain_commands-Drained dev cs (sent ++ wire_of c)))
  | inr (e, _) ↦ inr (
    [],
    c,
    cs,
    refl,
    e ∙ ap (λ w. (cs, w, some (command_write_failed c.verb))) (sym (append-nil sent)),
  )
]

-- On a device that takes every write, a drain empties the queue and writes each command's report,
-- in the order of submission, behind what was written before.
pub drain_commands-all :
    (dev : Writer) (cs : List Command) (sent : List Bytes)
    → ((done : List Bytes) (buf : Bytes) → dev done buf ≡ true)
    → drain_commands dev cs sent ≡ ([], sent ++ wires_of cs, none)
unfolding drain_commands wires_of
drain_commands-all dev [] sent h = rw append-nil
drain_commands-all dev (c ∷ cs) sent h = elim (drain_step dev c cs sent) [
  | inl e ↦
      e
      ∙ drain_commands-all dev cs (sent ++ wire_of c) h
      ∙ ap (λ w. ([], w, none)) (append_assoc sent (wire_of c) (wires_of cs))
  | inr (e, (buf, w)) ↦ let k = h sent buf in cc
]

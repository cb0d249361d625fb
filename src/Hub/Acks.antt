-- ===== src/Hub/Acks.antt =====
-- How the hub answers a client's message (hub.go, handleClientMsg).
use lp_700_server.Prelude.{
  ℕ, ◌≡◌, refl, ap, ◌∙◌, ◌≢◌, ◌⊎◌, inl, inr, Bool, true, false, String, str_eq, Option, none, some,
  arith, Bool-cases, eq_iff, [], ◌∷◌, ◌++◌, ◌==◌, ◌<◌, ◌≤◌, length, ==_iff,
}
use lp_700_server.Prelude.Chan.{offer}
use lp_700_server.Prelude.Int.{ℤ}
use lp_700_server.Meter.Command.{known_verbs, verb_available_in_state}
use lp_700_server.Hub.Broadcast.{delivered, send_to-delivered}
use lp_700_server.Hub.Messages.{
  Source, ClientMsg, send_ack, on_command, handle_client_msg, value_or,
}
use lp_700_server.Hub.{Hub, Frame, Store, ack}

pub send_ack-delivered :
    (h : Hub) (c : ℕ) (id : String) (ok : Bool) (reason : String)
    → (h.sends c).closed ≡ false
    → send_ack h c id ok reason ≡ some (record h { sends = delivered h.sends c (ack id ok reason) })
unfolding send_ack
send_ack-delivered h c id ok reason o = rw (send_to-delivered h.sends c (ack id ok reason) o)

module _ (src : Source) where
  open src use {State, submit, refuses_unknown}

  -- The tests that a command has to pass.
  abbrev MayAccept : Hub → State → ClientMsg → Type 0
  MayAccept h s req =
      (h.options.allow_control ≡ true)
      × (verb_available_in_state req.action h.latest_snap ≡ "")
      × ((submit s req.action (value_or req.value)).1 ≡ true)

  -- What the ack says and what becomes of the meter's queue, `s` before and `s'` after: the command is
  -- taken; or it is held off before the queue is touched; or the queue does not take it.
  abbrev pub Answered : Hub → ClientMsg → State → State → Bool → String → Type 0
  Answered h req s s' ok reason =
      ((ok ≡ true)
        × (reason ≡ "")
        × MayAccept h s req
        × (s' ≡ (submit s req.action (value_or req.value)).0)
        × (known_verbs req.action ≡ true))
      ⊎ ((ok ≡ false)
          × (reason ≢ "")
          × (s' ≡ s)
          × ((h.options.allow_control ≡ false)
              ⊎ (verb_available_in_state req.action h.latest_snap ≢ "")))
      ⊎ ((ok ≡ false)
          × (reason ≢ "")
          × (s' ≡ (submit s req.action (value_or req.value)).0)
          × (h.options.allow_control ≡ true)
          × (verb_available_in_state req.action h.latest_snap ≡ "")
          × ((submit s req.action (value_or req.value)).1 ≡ false))

  -- The ack stands last in the client's channel where that has room, and is dropped where it is full;
  -- every other channel is as it was.
  abbrev pub IsAcked : Hub → ℕ → Store → Frame → Type 0
  IsAcked h c st f =
      (((length (h.sends c).items < (h.sends c).cap) × ((st c).items ≡ (h.sends c).items ++ f ∷ []))
        ⊎ (((h.sends c).cap ≤ length (h.sends c).items) × ((st c).items ≡ (h.sends c).items)))
      × ((d : ℕ) → (d == c) ≡ false → st d ≡ h.sends d)

  abbrev pub Answers : Hub → State → ℕ → ClientMsg → Option (Hub × State) → Type 0
  Answers h s c req r =
      (ok : Bool) × (reason : String) × (s' : State) × (r
        ≡ some (record h { sends = delivered h.sends c (ack req.id ok reason) }, s'))
      × Answered h req s s' ok reason
      × IsAcked h c (delivered h.sends c (ack req.id ok reason)) (ack req.id ok reason)

  delivered-IsAcked : (h : Hub) (c : ℕ) (f : Frame) → IsAcked h c (delivered h.sends c f) f
  unfolding delivered
  delivered-IsAcked h c f = (queued, λ d e. rw e refl)
    where
      queued :
          ((length (h.sends c).items < (h.sends c).cap)
            × ((delivered h.sends c f c).items ≡ (h.sends c).items ++ f ∷ []))
          ⊎ (((h.sends c).cap ≤ length (h.sends c).items)
              × ((delivered h.sends c f c).items ≡ (h.sends c).items))
      queued = rw ((==_iff c c).1 refl) (ground arith)

  accepted-known : (s : State) (v : String) (n : ℤ) → (submit s v n).1 ≡ true → known_verbs v ≡ true
  accepted-known s v n h = elim (Bool-cases (known_verbs v)) [
    | inl e ↦ e
    | inr e ↦ let r = refuses_unknown s v n e in cc
  ]

  control_disabled_ne : ◌≢◌ {A = String} "control disabled" ""
  control_disabled_ne = ground (arith, eq_iff "control disabled" "")

  queue_full_ne : ◌≢◌ {A = String} "command queue full or unknown action" ""
  queue_full_ne = ground (arith, eq_iff "command queue full or unknown action" "")

  -- A command on an open channel is answered by one ack, which is queued last in the client's channel if
  -- that has room and dropped if it is full, and nothing else of the hub changes, no other channel
  -- either. The ack says yes, without a reason, where control is allowed, the state gate has no objection and the meter's
  -- queue takes the verb, which is then a known one. Else it says no with a reason: a read-only server
  -- and the state gate leave the queue alone, and otherwise the queue has refused.
  pub on_command-Answers :
      (h : Hub) (s : State) (c : ℕ) (req : ClientMsg)
      → (h.sends c).closed ≡ false
      → Answers h s c req (on_command src h s c req)
  unfolding on_command
  on_command-Answers h s c req o =
      let gate = verb_available_in_state req.action h.latest_snap in
      let (s', taken) = submit s req.action (value_or req.value) in
      elim (Bool-cases h.options.allow_control) [
        | inr locked ↦ (
          false,
          "control disabled",
          s,
          ground (arith, send_ack-delivered h c req.id false "control disabled" o),
          inr (inl (refl, control_disabled_ne, refl, inl locked)),
          delivered-IsAcked h c _,
        )
        | inl free ↦ elim (Bool-cases (str_eq gate "")) [
          | inr shut ↦ (
            false,
            gate,
            s,
            ground (arith, send_ack-delivered h c req.id false gate o),
            inr (inl (refl, objects shut, refl, inr (objects shut))),
            delivered-IsAcked h c _,
          )
          | inl passed ↦ elim (Bool-cases taken) [
            | inr full ↦ (
              false,
              "command queue full or unknown action",
              s',
              ground (
                arith,
                send_ack-delivered h c req.id false "command queue full or unknown action" o,
              ),
              inr (inr (refl, queue_full_ne, refl, free, (eq_iff gate "").0 passed, full)),
              delivered-IsAcked h c _,
            )
            | inl accepted ↦ (
              true,
              "",
              s',
              ground (arith, send_ack-delivered h c req.id true "" o),
              inl (
                refl,
                refl,
                (free, (eq_iff gate "").0 passed, accepted),
                refl,
                accepted-known s req.action (value_or req.value) accepted,
              ),
              delivered-IsAcked h c _,
            )
          ]
        ]
      ]
    where
      objects :
          str_eq (verb_available_in_state req.action h.latest_snap) "" ≡ false
          → verb_available_in_state req.action h.latest_snap ≢ ""
      objects shut e = cc (shut, (eq_iff (verb_available_in_state req.action h.latest_snap) "").1 e)

  locked_out :
      (h : Hub) (req : ClientMsg) {s s' : State} {ok : Bool} {reason : String}
      → Answered h req s s' ok reason
      → h.options.allow_control ≡ false
      → s' ≡ s
  locked_out h req (inl (_, _, m, _, _)) locked = absurd (cc (locked, m.0))
  locked_out h req (inr (inl (_, _, e, _))) locked = e
  locked_out h req (inr (inr (_, _, _, free, _, _))) locked = absurd (cc (locked, free))

  -- On a read-only server no message of any kind, from a client whose channel is open, changes the
  -- meter's queue.
  pub read_only_server :
      (h : Hub) (s : State) (c : ℕ) (m : Option ClientMsg)
      → (h.sends c).closed ≡ false
      → h.options.allow_control ≡ false
      → (h' : Hub) × (handle_client_msg src h s c m ≡ some (h', s))
  unfolding handle_client_msg
  read_only_server h s c none o locked = (
    record h { sends = delivered h.sends c (ack "" false "bad json") },
    rw (send_ack-delivered h c "" false "bad json" o),
  )
  read_only_server h s c (some req) o locked = elim (Bool-cases (str_eq req.kind "command")) [
    | inl cmd ↦
        let (ok, reason, s', e, a, k) = on_command-Answers h s c req o in
        let h' = record h { sends = delivered h.sends c (ack req.id ok reason) } in
        (h', rw cmd (e ∙ ap (λ t. some (h', t)) (locked_out h req a locked)))
    | inr other ↦ elim (Bool-cases (str_eq req.kind "resync")) [
      | inl again ↦ (record h { resyncs = (offer h.resyncs c).0 }, rw (other, again))
      | inr odd ↦ (
        record h { sends = delivered h.sends c (ack req.id false "unknown type") },
        rw (other, odd) (rw (send_ack-delivered h c req.id false "unknown type" o)),
      )
    ]
  ]

-- ===== src/Hub/Races.antt =====
-- Where the goroutines of a client race with the hub's `close` of its channel (hub.go): a send on a
-- closed channel is a panic, which ends the whole server.
use lp_700_server.Prelude.{
  ℕ, ◌≤◌, ◌≡◌, refl, ◌≢◌, inl, inr, Bool, true, false, String, str_eq, none, some, length, arith,
  Bool-cases, ==_iff, eq_iff, le→leb,
}
use lp_700_server.Meter.Command.{verb_available_in_state}
use lp_700_server.Hub.Broadcast.{AllOpen-mem, send_to-closed}
use lp_700_server.Hub.Sound.{IsSound}
use lp_700_server.Hub.Messages.{Source, ClientMsg, send_ack, on_command, handle_client_msg}
use lp_700_server.Hub.{
  Hub, Frame, Store, update, mem, delete, close_send, send_json, send_last, on_register,
  on_unregister, on_resync,
}

send_ack-closed :
    (h : Hub) (c : ℕ) (id : String) (ok : Bool) (reason : String)
    → (h.sends c).closed ≡ true
    → send_ack h c id ok reason ≡ none
unfolding send_ack
send_ack-closed h c id ok reason e = rw (send_to-closed h.sends c _ e)

closed_store : Store → ℕ → Store
closed_store st c = update st c (record (st c) { closed = true })

close_send-closes :
    (st : Store) (c : ℕ)
    → (st c).closed ≡ false
    → (close_send st c ≡ some (closed_store st c)) × ((closed_store st c c).closed ≡ true)
unfolding close_send closed_store
close_send-closes st c h = (rw h, rw ((==_iff c c).1 refl))

module _ (src : Source) where
  on_command-closed :
      (h : Hub) (s : src.State) (c : ℕ) (req : ClientMsg)
      → (h.sends c).closed ≡ true
      → on_command src h s c req ≡ none
  unfolding on_command
  on_command-closed h s c req e = ground (
    arith,
    send_ack-closed h c req.id false "control disabled" e,
    send_ack-closed h c req.id false (verb_available_in_state req.action h.latest_snap) e,
    send_ack-closed h c req.id false "command queue full or unknown action" e,
    send_ack-closed h c req.id true "" e,
  )

  -- A message that is answered by an ack, on a closed channel.
  pub handle_client_msg-closed :
      (h : Hub) (s : src.State) (c : ℕ) (req : ClientMsg)
      → (h.sends c).closed ≡ true
      → req.kind ≢ "resync"
      → handle_client_msg src h s c (some req) ≡ none
  unfolding handle_client_msg
  handle_client_msg-closed h s c req e k = elim (Bool-cases (str_eq req.kind "command")) [
    | inl cmd ↦ rw cmd (on_command-closed h s c req e)
    | inr other ↦ rw other (
        ground (arith, eq_iff req.kind "resync", send_ack-closed h c req.id false "unknown type" e))
  ]

  -- A client with an open channel is turned away at `max_clients`, which closes the channel. Any
  -- other message than a resync that its reader handles after that takes the server down: the ack is
  -- a send on the closed channel.
  pub rejected_client_panics :
      (h : Hub) (s : src.State) (c : ℕ) (req : ClientMsg)
      → h.options.max_clients ≤ length h.clients
      → (h.sends c).closed ≡ false
      → req.kind ≢ "resync"
      → (h' : Hub) × (on_register h c ≡ some h') × (handle_client_msg src h' s c (some req) ≡ none)
  unfolding on_register
  rejected_client_panics h s c req full o k =
      let (e, shut) = close_send-closes h.sends c o in
      (
        record h { sends = closed_store h.sends c },
        rw (le→leb h.options.max_clients (length h.clients) full) (rw e),
        handle_client_msg-closed (record h { sends = closed_store h.sends c }) s c req shut k,
      )

-- On a sound hub that has sent telemetry: a resync that the hub takes up after the unregister of the
-- same client takes the server down.
pub resync_after_unregister_panics :
    (h : Hub) (c : ℕ) (f : Frame)
    → IsSound h
    → mem c h.clients ≡ true
    → h.last_json ≡ some f
    → (h' : Hub) × (on_unregister h c ≡ some h') × (on_resync h' c ≡ none)
unfolding on_unregister on_resync send_last
resync_after_unregister_panics h c f v m j =
    let (e, shut) =
      close_send-closes h.sends c (AllOpen-mem h.sends h.clients c v.all_open m).not_closed in
    (
      record h { clients = delete c h.clients; sends = closed_store h.sends c },
      rw m (rw e),
      rw j (unfold send_json in rw (send_to-closed (closed_store h.sends c) c f shut)),
    )

-- ===== src/Hub/Pumps/Drain.antt =====
-- What writePump sends once the hub has closed its channel (hub.go).
use lp_700_server.Prelude.{◌≡◌, refl, ap, ◌∙◌, true, List, [], ◌∷◌, ◌++◌, arith, append_assoc, map}
use lp_700_server.Prelude.Chan.{Chan}
use lp_700_server.Hub.{Frame}
use lp_700_server.Hub.Pumps.{
  fresh_pump, write_message, act, Activity, turn, text, close_normal, from_send, Pump, take_frame,
  on_turn, pump_turn, write_pump,
}

-- As many turns that write as there are frames in the channel, and one more.
abbrev pub draining : List Frame → List Activity
draining [] = turn (from_send true) ∷ []
draining (f ∷ fs) = turn (from_send true) ∷ draining fs

sends_one :
    (p : Pump) (f : Frame) (fs : List Frame)
    → p.running ≡ true
    → p.send.items ≡ f ∷ fs
    → pump_turn p (from_send true)
      ≡ write_message (record p { send = record p.send { items = fs } }) (text f)
unfolding pump_turn on_turn take_frame
sends_one p f fs r e = ground (arith, r, e)

drains_from :
    (p : Pump) (items : List Frame)
    → p.running ≡ true
    → p.send.closed ≡ true
    → p.send.items ≡ items
    → (write_pump p (draining items)).conn
      ≡ record { written = p.conn.written ++ (map text items ++ close_normal ∷ []); closed = true }
unfolding write_pump act pump_turn on_turn take_frame
drains_from p [] r c e = ground (arith, r, c, e)
drains_from p (f ∷ fs) r c e =
    let p' = write_message (record p { send = record p.send { items = fs } }) (text f) in
    ap (λ q. (write_pump q (draining fs)).conn) (sends_one p f fs r e)
    ∙ drains_from p' fs r c refl
    ∙ ap (λ w. record { written = w; closed = true })
        (append_assoc p.conn.written (text f ∷ []) (map text fs ++ close_normal ∷ []))

-- Once the hub has closed a client's channel, a writePump whose writes succeed sends every frame that
-- still waits in it, in order, then the close message, and closes the socket, in one turn for each.
pub write_pump-drains :
    (send : Chan Frame)
    → send.closed ≡ true
    → (write_pump (fresh_pump send) (draining send.items)).conn
      ≡ record { written = map text send.items ++ close_normal ∷ []; closed = true }
write_pump-drains send c = drains_from (fresh_pump send) send.items refl c refl

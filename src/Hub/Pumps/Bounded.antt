-- ===== src/Hub/Pumps/Bounded.antt =====
-- A client's channel over the turns of its writePump (hub.go).
use lp_700_server.Prelude.{
  ◌≤◌, ◌≡◌, refl, sym, Bool, true, false, List, [], ◌∷◌, length, arith, subst, if◌then◌else◌,
}
use lp_700_server.Prelude.Chan.{Chan}
use lp_700_server.Hub.{Frame, send_buffer}
use lp_700_server.Hub.Broadcast.{IsOpen}
use lp_700_server.Hub.Pumps.{
  Pump, Message, Turn, from_send, tick, pump_turn, on_turn, take_frame, try_write, text, ping,
  leave, write_message, close_normal,
}

try_write-send : (p : Pump) (m : Message) (done : Bool) → (try_write p m done).send ≡ p.send
try_write-send p m true = refl
try_write-send p m false = refl

tail-IsOpen :
    (ch : Chan Frame) (f : Frame) (fs : List Frame)
    → ch.items ≡ f ∷ fs
    → IsOpen ch
    → IsOpen (record ch { items = fs })
tail-IsOpen ch f fs e o = record {
  not_closed = o.not_closed;
  cap_is = o.cap_is;
  within = shorter (subst (λ xs. length xs ≤ send_buffer) e o.within);
}
  where
    shorter : length (f ∷ fs) ≤ send_buffer → length fs ≤ send_buffer
    shorter h = omega arith

take_frame-IsOpen :
    (p : Pump) (items : List Frame) (done : Bool)
    → p.send.items ≡ items
    → IsOpen p.send
    → IsOpen (take_frame p items done).send
unfolding take_frame
take_frame-IsOpen p [] done e o =
    elim p.send.closed
      as (λ b.
        IsOpen (if b then leave (if done then write_message p close_normal else p) else p).send) [
          | false ↦ o
          | true ↦ elim done as (λ d. IsOpen (if d then write_message p close_normal else p).send) [
            | true ↦ o
            | false ↦ o
          ]
        ]
take_frame-IsOpen p (f ∷ fs) done e o =
    subst IsOpen (sym (try_write-send _ (text f) done)) (tail-IsOpen p.send f fs e o)

on_turn-IsOpen : (p : Pump) (t : Turn) → IsOpen p.send → IsOpen (on_turn p t).send
unfolding on_turn
on_turn-IsOpen p (from_send done) o = take_frame-IsOpen p p.send.items done refl o
on_turn-IsOpen p (tick done) o = subst IsOpen (sym (try_write-send p ping done)) o

-- A turn of writePump keeps its channel open.
pub pump_turn-IsOpen : (p : Pump) (t : Turn) → IsOpen p.send → IsOpen (pump_turn p t).send
unfolding pump_turn
pump_turn-IsOpen p t o = elim p.running as (λ b. IsOpen (if b then on_turn p t else p).send) [
  | true ↦ on_turn-IsOpen p t o
  | false ↦ o
]

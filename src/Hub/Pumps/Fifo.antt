-- ===== src/Hub/Pumps/Fifo.antt =====
-- What a client receives (hub.go, writePump).
use lp_700_server.Prelude.{
  ◌≡◌, refl, sym, ap, ◌∙◌, ◌⊎◌, inl, inr, Bool, true, false, List, [], ◌∷◌, ◌++◌, arith,
  append_assoc, append-nil, if◌then◌else◌, length, Bool-cases, ltb,
}
use lp_700_server.Prelude.Chan.{Chan, offer}
use lp_700_server.Hub.{Frame}
use lp_700_server.Hub.Pumps.{
  fresh_pump, try_write, leave, write_message, act, Activity, turn, offered, shut, Message, text,
  ping, close_normal, Turn, from_send, tick, Pump, take_frame, on_turn, pump_turn, write_pump,
}

-- The hub's messages among those written to the socket.
abbrev pub texts : List Message → List Frame
texts [] = []
texts (text f ∷ ms) = f ∷ texts ms
texts (ping ∷ ms) = texts ms
texts (close_normal ∷ ms) = texts ms

texts-append : (ms ns : List Message) → texts (ms ++ ns) ≡ texts ms ++ texts ns
texts-append [] ns = refl
texts-append (text f ∷ ms) ns = ap (◌∷◌ f) (texts-append ms ns)
texts-append (ping ∷ ms) ns = texts-append ms ns
texts-append (close_normal ∷ ms) ns = texts-append ms ns

-- At most the frame whose write failed is missing between what was written and what still waits.
abbrev pub Accounted : List Frame → Pump → Type 0
Accounted all p =
    (all ≡ texts p.conn.written ++ p.send.items)
    ⊎ ((lost : Frame) × (p.running ≡ false)
        × (p.conn.closed ≡ true)
        × (all ≡ texts p.conn.written ++ lost ∷ p.send.items))

turn-cases :
    (p : Pump) (t : Turn)
    → (pump_turn p t ≡ p) ⊎ ((p.running ≡ true) × (pump_turn p t ≡ on_turn p t))
unfolding pump_turn
turn-cases p t = elim (Bool-cases p.running) [
  | inr e ↦ inl (ground (arith, e))
  | inl e ↦ inr (e, ground (arith, e))
]

texts-snoc :
    (ms : List Message) (m : Message) → texts (m ∷ []) ≡ [] → texts (ms ++ m ∷ []) ≡ texts ms
texts-snoc ms m h = texts-append ms (m ∷ []) ∙ ap (λ x. texts ms ++ x) h ∙ append-nil (texts ms)

-- A write of a message that is none of the hub's.
try_write-Accounted :
    (all : List Frame) (p : Pump) (m : Message) (done : Bool)
    → texts (m ∷ []) ≡ []
    → (all ≡ texts p.conn.written ++ p.send.items)
    → Accounted all (try_write p m done)
try_write-Accounted all p m true none_of h =
    inl (h ∙ ap (λ x. x ++ p.send.items) (sym (texts-snoc p.conn.written m none_of)))
try_write-Accounted all p m false none_of h = inl h

take_frame-Accounted :
    (all : List Frame) (p : Pump) (items : List Frame) (done : Bool)
    → p.send.items ≡ items
    → (all ≡ texts p.conn.written ++ items)
    → Accounted all (take_frame p items done)
unfolding take_frame
take_frame-Accounted all p [] done e h =
    elim p.send.closed
      as (λ b.
        Accounted all (if b then leave (if done then write_message p close_normal else p) else p)) [
          | false ↦ inl waiting
          | true ↦
              elim done
                as (λ d. Accounted all (leave (if d then write_message p close_normal else p))) [
                  | false ↦ inl waiting
                  | true ↦ inl (
                      waiting
                      ∙ ap (λ x. x ++ p.send.items)
                          (sym (texts-snoc p.conn.written close_normal refl)))
                ]
        ]
  where
    waiting : all ≡ texts p.conn.written ++ p.send.items
    waiting = h ∙ ap (λ x. texts p.conn.written ++ x) (sym e)
take_frame-Accounted all p (f ∷ fs) true e h = inl (
    h
    ∙ sym (
        ap (λ x. x ++ fs) (texts-append p.conn.written (text f ∷ []))
        ∙ append_assoc (texts p.conn.written) (f ∷ []) fs))
take_frame-Accounted all p (f ∷ fs) false e h = inr (f, refl, refl, h)

on_turn-Accounted :
    (all : List Frame) (p : Pump) (t : Turn)
    → (all ≡ texts p.conn.written ++ p.send.items)
    → Accounted all (on_turn p t)
unfolding on_turn
on_turn-Accounted all p (from_send done) h = take_frame-Accounted all p p.send.items done refl h
on_turn-Accounted all p (tick done) h = try_write-Accounted all p ping done refl h

turn-Accounted :
    (all : List Frame) (p : Pump) (t : Turn) → Accounted all p → Accounted all (pump_turn p t)
turn-Accounted all p t a = elim (turn-cases p t) [
  | inl e ↦ rw e a
  | inr (running, e) ↦ elim a [
    | inl h ↦ rw e (on_turn-Accounted all p t h)
    | inr (lost, stopped, closed, rest) ↦ absurd (cc (running, stopped))
  ]
]

-- The frames that the channel took, of those offered to it while it was open.
unfoldable pub taken : Pump → Activity → List Frame
taken p (turn t) = []
taken p (offered f) =
    if p.send.closed then [] else if ltb (length p.send.items) p.send.cap then f ∷ [] else []
taken p shut = []

unfoldable pub all_taken : Pump → List Activity → List Frame
unfolding taken
all_taken p [] = []
all_taken p (a ∷ as') = taken p a ++ all_taken (act p a) as'

-- A frame put at the end of the channel is accounted for.
Accounted-snoc :
    (all : List Frame) (p : Pump) (f : Frame)
    → Accounted all p
    → Accounted
        (all ++ f ∷ [])
        (record p { send = record p.send { items = p.send.items ++ f ∷ [] } })
Accounted-snoc all p f (inl h) =
    inl (ap (λ x. x ++ f ∷ []) h ∙ append_assoc (texts p.conn.written) p.send.items (f ∷ []))
Accounted-snoc all p f (inr (lost, stopped, closed, h)) = inr (
  lost,
  stopped,
  closed,
  ap (λ x. x ++ f ∷ []) h ∙ append_assoc (texts p.conn.written) (lost ∷ p.send.items) (f ∷ []),
)

act-Accounted :
    (all : List Frame) (p : Pump) (a : Activity)
    → Accounted all p
    → Accounted (all ++ taken p a) (act p a)
unfolding act taken
act-Accounted all p (turn t) h = rw (append-nil all) (turn-Accounted all p t h)
act-Accounted all p (offered f) h =
    elim p.send.closed
      as (λ b.
        Accounted
          (all ++ (if b then [] else if ltb (length p.send.items) p.send.cap then f ∷ [] else []))
          (if b then p else record p { send = (offer p.send f).0 })) [
            | true ↦ rw (append-nil all) h
            | false ↦
                elim (ltb (length p.send.items) p.send.cap)
                  as (λ room. Accounted (all ++ (if room then f ∷ [] else [])) (record p {
                    send =
                        let r : Chan Frame × Bool =
                          if room
                          then (record p.send { items = p.send.items ++ f ∷ [] }, true)
                          else (p.send, false) in
                        r.0;
                  })) [ true ↦ Accounted-snoc all p f h | false ↦ rw (append-nil all) h ]
          ]
act-Accounted all p shut h = rw (append-nil all) h

write_pump-from :
    (all : List Frame) (p : Pump) (as' : List Activity)
    → Accounted all p
    → Accounted (all ++ all_taken p as') (write_pump p as')
unfolding write_pump all_taken
write_pump-from all p [] h = rw (append-nil all) h
write_pump-from all p (a ∷ as') h =
    rw (← append_assoc all (taken p a) (all_taken (act p a) as'))
      (write_pump-from (all ++ taken p a) (act p a) as' (act-Accounted all p a h))

-- However the turns of a client's writePump, the offers of the other goroutines and the hub's close
-- interleave, what was written to its socket and then what still waits in its channel is what the
-- channel took, each frame once and in order; only where a write failed is the one frame of that write
-- missing in between, and then the socket is closed and the loop has ended.
pub write_pump-Accounted :
    (send : Chan Frame) (as' : List Activity)
    → Accounted (send.items ++ all_taken (fresh_pump send) as') (write_pump (fresh_pump send) as')
write_pump-Accounted send as' = write_pump-from send.items (fresh_pump send) as' (inl refl)

-- ===== src/Tests/PumpRuns.antt =====
-- Runs of a client's writePump.
use lp_700_server.Prelude.{◌≡◌, refl, true, false, List, [], ◌∷◌, ◌++◌, map}
use lp_700_server.Prelude.Chan.{Chan}
use lp_700_server.Hub.{Frame, heartbeat_frame, ack}
use lp_700_server.Hub.Pumps.{
  act, Activity, turn, offered, shut, from_send, tick, text, ping, close_normal, write_pump,
  fresh_pump,
}
use lp_700_server.Hub.Pumps.Fifo.{Accounted, all_taken, write_pump-Accounted}
use lp_700_server.Hub.Pumps.Drain.{draining, write_pump-drains}

abbrev full : Chan Frame
full = record { items = heartbeat_frame 1 0 ∷ []; cap = 2; closed = false }

-- An ack goes in behind the heartbeat, a third frame finds no room, and the write of the ack fails.
abbrev activities : List Activity
activities =
    offered (ack "a" true "")
    ∷ offered (ack "b" true "")
    ∷ turn (from_send true)
    ∷ turn (tick true)
    ∷ turn (from_send false)
    ∷ shut
    ∷ []

write_pump-Accounted_example :
    Accounted
      (full.items ++ all_taken (fresh_pump full) activities)
      (write_pump (fresh_pump full) activities)
write_pump-Accounted_example = write_pump-Accounted full activities

written :
    (write_pump (fresh_pump full) activities).conn
    ≡ record { written = text (heartbeat_frame 1 0) ∷ ping ∷ []; closed = true }
unfolding write_pump act
written = refl

abbrev closing : Chan Frame
closing = record { items = heartbeat_frame 1 0 ∷ ack "a" true "" ∷ []; cap = 2; closed = true }

write_pump-drains_example :
    (write_pump (fresh_pump closing) (draining closing.items)).conn
    ≡ record { written = map text closing.items ++ close_normal ∷ []; closed = true }
write_pump-drains_example = write_pump-drains closing refl

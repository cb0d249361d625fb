-- ===== src/Tests/InterleavedRuns.antt =====
-- The hub and the goroutines of one client, from its connection to its end.
use lp_700_server.Prelude.{refl, true, false, List, [], ◌∷◌, none, arith}
use lp_700_server.Prelude.Chan.{Chan, make}
use lp_700_server.Meter.Writes.{Command}
use lp_700_server.Hub.{
  new_hub, mem, on_register, on_unregister, on_snapshot, send_last, send_json, send_to, unchanged,
  publish_snapshot, broadcast_hub, broadcast, close_send, delete,
}
use lp_700_server.Hub.Sound.{silent}
use lp_700_server.Hub.Invariant.{register, unregister, snapshot, take_case}
use lp_700_server.Hub.Messages.{serve_ws, handle_client_msg, send_ack, read_pump_exit}
use lp_700_server.Hub.Pumps.{from_send, pump_turn}
use lp_700_server.Hub.Interleaved.{
  World, Move, case_of, served, said, left, wrote, move, moves, received, Client,
}
use lp_700_server.Hub.Interleaved.Ready.{IsReady}
use lp_700_server.Hub.Interleaved.Safe.{CanRun, IsSafe, moves-IsSafe}
use lp_700_server.Pipeline.{owner_source}
use lp_700_server.Tests.Samples.{reading, options}

abbrev idle : Client
idle = record { conn = record { written = []; closed = false }; writing = false; reading = false }

abbrev first_world : World (Chan Command)
first_world = record { hub = new_hub options 0; meter = make 16; goroutines = λ c. idle }

abbrev visit : List Move
visit =
    served 7
    ∷ case_of (snapshot 5 (reading 100000))
    ∷ said 7 none
    ∷ case_of (register 7)
    ∷ left 7
    ∷ case_of (unregister 7)
    ∷ wrote 7 (from_send true)
    ∷ []

first_world-IsReady : IsReady first_world.hub
first_world-IsReady =
    unfold new_hub in
    (record { distinct = tt; all_open = tt; bounded = omega arith; in_step = silent }, (tt, tt))

visit-CanRun : CanRun owner_source visit first_world
unfolding move new_hub mem serve_ws take_case on_snapshot unchanged publish_snapshot broadcast_hub
    broadcast received handle_client_msg send_ack send_to on_register send_last send_json pump_turn
    read_pump_exit on_unregister close_send delete
visit-CanRun = (
  (refl, refl),
  (
    tt,
    (record { not_closed = refl; cap_is = refl; within = omega arith }, (tt, (tt, (tt, (tt, tt))))),
  ),
)

moves-IsSafe_example : IsSafe owner_source (moves owner_source first_world visit)
moves-IsSafe_example = moves-IsSafe owner_source first_world visit first_world-IsReady visit-CanRun

-- ===== src/Tests/ProbeRuns.antt =====
-- Runs of the probe: a capture, the tally of repeated frames, and a meter whose channel button goes round.
use lp_700_server.Prelude.{
  ℕ, zero, suc, ◌+◌, ◌%◌, ◌≡◌, ◌<◌, ◌≤◌, ◌*◌, refl, ap, inl, inr, true, false, List, [], ◌∷◌, ◌++◌,
  none, some, arith, if◌then◌else◌, ◌==◌, codes, replicate, length, get_or,
}
use lp_700_server.Prelude.Decimal.{print_upto}
use lp_700_server.Prelude.Int.{pos}
use lp_700_server.Prelude.Result.{Result, ok, err}
use lp_700_server.Meter.Snapshot.{Bytes, Snapshot}
use lp_700_server.Meter.Device.{HidDeviceInfo}
use lp_700_server.Meter.Frame.{report_of, cmd_channel, poll_report}
use lp_700_server.Meter.Decode.{DecodeError, decode}
use lp_700_server.Meter.Writes.{with_report_id}
use lp_700_server.Meter.Probe.Print.{capturing, wrote}
use lp_700_server.Meter.Probe.Devices.{ProbeOptions}
use lp_700_server.Meter.Probe.Recording.{Round, run_capture, deadline_of}
use lp_700_server.Meter.Probe.Recording.Exact.{reports, flat, run_capture-exact}
use lp_700_server.Meter.Probe.Link.{Link, Event, packet, broken, timed_out, Run, drain}
use lp_700_server.Meter.Probe.Link.Written.{OnlyCommands}
use lp_700_server.Meter.Probe.Capture.{capture_one}
use lp_700_server.Meter.Probe.Capture.Transcript.{
  frame, nothing, answers_of, history, capture_one-answers,
}
use lp_700_server.Meter.Probe.Steps.{step_to_channel}
use lp_700_server.Meter.Probe.Steps.Cycle.{IsCycling, next_place}
use lp_700_server.Meter.Probe.Steps.Reaches.{ShowsChannel, Arrived, step_to_channel-Arrived}
use lp_700_server.Meter.Probe.Samples.{run_samples}
use lp_700_server.Meter.Probe.Samples.Buttons.{last_command, run_samples-OnlyCommands}
use lp_700_server.Meter.Samples.{marshal_json}
use lp_700_server.Meter.Samples.Json.{read_array, marshal_json_lem}
use lp_700_server.Tests.Samples.{telemetry_frame, reading}

abbrev options : ProbeOptions
options = record {
  mode = "capture";
  out_path = codes "frames.bin";
  duration = pos 1000;
  vendor_id = 0;
  product_id = 0;
  frames_per_cmd = pos 2;
  cycle_modes = false;
  target_channel = pos 0;
  target_range = "";
}

abbrev meter_info : HidDeviceInfo
meter_info = record {
  path = codes "/dev/hidraw0";
  vendor_id = 1240;
  product_id = 1;
  product = codes "LP-500";
  manufacturer = [];
}

-- A whole report, a short read, and a round past the deadline of time 1100.
abbrev round : ℕ → Bytes → Round
round now buf = record {
  ctx_done = false;
  poll_error = false;
  now = now;
  read = some buf;
  written = true;
}

abbrev live_rounds : List Round
live_rounds = round 200 telemetry_frame ∷ round 300 (1 ∷ 2 ∷ []) ∷ []

run_capture-exact_example :
    (run_capture
        (λ d. d.product)
        (record { created = true; header_written = true })
        100
        options
        (ok meter_info)
        (live_rounds ++ round 1101 telemetry_frame ∷ [])
      ≡ (
        meter_info.product ++ flat (reports live_rounds),
        (
          capturing options.out_path ∷ wrote (length (reports live_rounds)) options.out_path ∷ [],
          some none,
        ),
      ))
    × (length (flat (reports live_rounds)) ≡ 64 * length (reports live_rounds))
unfolding deadline_of
run_capture-exact_example =
    run_capture-exact (λ d. d.product) 100 options meter_info live_rounds
      (round 1101 telemetry_frame) [] (λ e. cc e)
      (
        record {
          running = refl;
          polled = refl;
          in_time = refl;
          buffer = telemetry_frame;
          readable = refl;
          written = refl;
        },
        (
          record {
            running = refl;
            polled = refl;
            in_time = refl;
            buffer = 1 ∷ 2 ∷ [];
            readable = refl;
            written = refl;
          },
          tt,
        ),
      )
      (inr (refl, refl, refl))

-- A device that takes every write and answers by a script, after which nothing comes.
abbrev script : Link
script = record {
  World = List Event;
  write = λ buf w. (w, true);
  start_timer = λ ms w. w;
  receive = λ w. elim w [ [] ↦ ([], timed_out) | e ∷ es ↦ (es, e) ];
  arrivals = λ w. 0;
  sleep = λ ms w. w;
  now = λ w. 0;
}

abbrev scripted : List Event
scripted =
    timed_out
    ∷ packet telemetry_frame
    ∷ packet telemetry_frame
    ∷ packet (report_of b'1')
    ∷ timed_out
    ∷ broken
    ∷ []

abbrev scripted_run : Run script
scripted_run = record { world = scripted; sent = []; out = [] }

capture_one-answers_example :
    answers_of (capture_one script b'1' 6 scripted_run).0.out
    ≡ answers_of scripted_run.out ++ history script b'1' 6 (drain script 20 scripted)
capture_one-answers_example = capture_one-answers script b'1' 6 scripted_run

-- The error after the timeout ends the loop.
heard :
    history script b'1' 6 (drain script 20 scripted)
    ≡ frame telemetry_frame ∷ frame telemetry_frame ∷ frame (report_of b'1') ∷ nothing ∷ []
unfolding history drain
heard = refl

run_samples-OnlyCommands_example :
    OnlyCommands script
      (last_command options)
      (run_samples script options
        (ok meter_info)
        (record { world = scripted; sent = []; out = [] })).0
run_samples-OnlyCommands_example = run_samples-OnlyCommands script options (ok meter_info) scripted

marshal_json_lem_example :
    (read_array (marshal_json (some (151 ∷ 0 ∷ 8 ∷ []))) ≡ some (151 ∷ 0 ∷ 8 ∷ []))
    × (length (marshal_json (some (151 ∷ 0 ∷ 8 ∷ []))) ≤ 3 * 4 + 2)
marshal_json_lem_example = marshal_json_lem (151 ∷ 0 ∷ 8 ∷ []) (omega arith)

marshalled : marshal_json (some (151 ∷ 0 ∷ 8 ∷ [])) ≡ codes "[151,0,8]"
unfolding marshal_json print_upto
marshalled = refl

-- A meter on the 50 W range, on the manual channel `p + 1`, or on Auto from place 4 on.
abbrev frame_on : ℕ → Bytes
frame_on channel = 0 ∷ 0 ∷ 0 ∷ 0 ∷ channel ∷ 1 ∷ 3 ∷ replicate 57 0

frame_at : ℕ → Bytes
frame_at zero = frame_on 1
frame_at (suc zero) = frame_on 2
frame_at (suc (suc zero)) = frame_on 3
frame_at (suc (suc (suc zero))) = frame_on 4
frame_at (suc (suc (suc (suc n)))) = frame_on 0

abbrev or_blank : Result DecodeError Snapshot → Snapshot
or_blank (ok s) = s
or_blank (err e) = reading 0

shown_at : ℕ → Snapshot
unfolding frame_at decode
shown_at p = or_blank (decode 0 (frame_at p))

decodes_at : (p : ℕ) → decode 0 (frame_at p) ≡ ok (shown_at p)
unfolding shown_at
decodes_at zero = refl
decodes_at (suc zero) = refl
decodes_at (suc (suc zero)) = refl
decodes_at (suc (suc (suc zero))) = refl
decodes_at (suc (suc (suc (suc n)))) = refl

shows_at : (p : ℕ) → p < 5 → ShowsChannel p (shown_at p)
unfolding shown_at
shows_at zero h = (refl, inr (omega arith, refl))
shows_at (suc zero) h = (refl, inr (omega arith, refl))
shows_at (suc (suc zero)) h = (refl, inr (omega arith, refl))
shows_at (suc (suc (suc zero))) h = (refl, inr (omega arith, refl))
shows_at (suc (suc (suc (suc zero)))) h = (refl, inl refl)
shows_at (suc (suc (suc (suc (suc n))))) h = absurd (omega arith)

-- The command character of an OUT buffer.
command_in : Bytes → ℕ
command_in buf = get_or buf 1 0

pressed : ℕ → Bytes → ℕ
unfolding command_in
pressed w buf = if command_in buf == cmd_channel then w + 1 else w

-- The world counts the presses.
abbrev meter_link : Link
meter_link = record {
  World = ℕ;
  write = λ buf w. (pressed w buf, true);
  start_timer = λ ms w. w;
  receive = λ w. (w, packet (frame_at (w % 5)));
  arrivals = λ w. 0;
  sleep = λ ms w. w;
  now = λ w. 0;
}

poll_moves_not : (w : ℕ) → pressed w (with_report_id poll_report) ≡ w
unfolding pressed poll_report
poll_moves_not w = refl

press_moves :
    (w : ℕ) → pressed w (with_report_id (report_of cmd_channel)) % 5 ≡ next_place 5 (w % 5)
unfolding pressed
press_moves w = ground arith

shows_after_poll :
    (w : ℕ) → ShowsChannel (w % 5) (shown_at (pressed w (with_report_id poll_report) % 5))
shows_after_poll w = rw (poll_moves_not w) (shows_at (w % 5) (omega arith))

abbrev meter : IsCycling meter_link cmd_channel 5 ShowsChannel
meter = record {
  place = λ w. w % 5;
  in_range = λ w. omega arith;
  writes = λ buf w. refl;
  answer = λ w. frame_at (pressed w (with_report_id poll_report) % 5);
  shown = λ w. shown_at (pressed w (with_report_id poll_report) % 5);
  answers = λ w. refl;
  decodes = λ w. decodes_at (pressed w (with_report_id poll_report) % 5);
  shows = λ w. shows_after_poll w;
  poll_stays = λ w. ap (λ n. n % 5) (poll_moves_not w);
  timer_stays = λ ms w. refl;
  receive_stays = λ w. refl;
  sleep_stays = λ ms w. refl;
  moves = λ w. press_moves w;
}

-- From Auto to channel 3.
on_auto : Run meter_link
on_auto = record { world = 4; sent = []; out = [] }

step_to_channel-Arrived_example :
    Arrived meter_link meter.place 2 9 on_auto (step_to_channel meter_link (pos (2 + 1)) on_auto)
step_to_channel-Arrived_example = step_to_channel-Arrived meter_link meter 2 (omega arith) on_auto

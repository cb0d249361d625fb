-- ===== src/Meter/Probe/Steps/Reaches.antt =====
-- The step loops reach the wanted channel and range (probe.go, stepToChannel and stepToRange).
use lp_700_server.Prelude.{
  ℕ, zero, suc, ◌+◌, ◌-◌, ◌*◌, ◌≤◌, ◌<◌, ◌≡◌, refl, ap, ◌∙◌, ◌⊎◌, inl, inr, Bool, true, false, not,
  ◌&&◌, bool_eq, str_eq, none, arith, leb, ◌==◌, ==_iff, if◌then◌else◌, length, get_or, Bool-cases,
}
use lp_700_server.Prelude.Int.{pos, int_eq}
use lp_700_server.Meter.Snapshot.{Snapshot, range_names}
use lp_700_server.Meter.Frame.{cmd_channel, cmd_range}
use lp_700_server.Meter.Probe.Print.{Line, observed_channel, observed_range}
use lp_700_server.Meter.Probe.Link.{Link, Run, print}
use lp_700_server.Meter.Probe.Steps.{
  Stepped, channel_round, channel_loop, step_to_channel, range_round, range_loop, step_to_range,
}
use lp_700_server.Meter.Probe.Steps.Cycle.{
  IsCycling, next_place, after_poll, read_current_snap-shown, after_poll-stays, after_poll-sent,
  after_press, press-next, after_press-moves, after_press-sent,
}

-- How often the button has to be pressed at place `p` to come to place `t` of `size`.
abbrev pub presses : ℕ → ℕ → ℕ → ℕ
presses size p t = if leb p t then t - p else size - p + t

presses-next :
    (size p t : ℕ)
    → p < size
    → t < size
    → (p == t) ≡ false
    → presses size p t ≡ suc (presses size (next_place size p) t)
presses-next size p t hp ht ne = ground arith

presses-lt : (size p t : ℕ) → p < size → t < size → presses size p t < size
presses-lt size p t hp ht = ground arith

-- The five channel settings: places 0 to 3 are the manual channels 1 to 4, and place 4 is Auto.
abbrev pub ShowsChannel : ℕ → Snapshot → Type 0
ShowsChannel p s = (s.auto_channel ≡ (p == 4)) × ((p ≡ 4) ⊎ ((p < 4) × (s.channel ≡ pos (p + 1))))

-- The wanted setting is seen exactly at its place.
channel_test :
    (p t : ℕ) (s : Snapshot)
    → p < 5
    → t < 4
    → ShowsChannel p s
    → (not s.auto_channel && int_eq s.channel (pos (t + 1))) ≡ (p == t)
channel_test p t s hp ht (auto, inl e) = rw auto (ground arith)
channel_test p t s hp ht (auto, inr (lt, ch)) = rw (auto, ch) (ground arith)

-- The loop ended without an error with the button at place `t`, after at most `n` writes.
abbrev pub Arrived : (link : Link) → (link.World → ℕ) → ℕ → ℕ → Run link → Stepped link → Type 0
Arrived link place t n run (run', e) =
    (e ≡ none) × (place run'.world ≡ t) × (length run'.sent ≤ length run.sent + n)

module _ (link : Link) (cmd size t : ℕ) (Shows : ℕ → Snapshot → Type 0)
    (m : IsCycling link cmd size Shows) (t_in_range : t < size)
    (loop : ℕ → ℕ → Run link → Stepped link) (line : ℕ → Run link → Line) where
  -- The run after a poll whose answer was printed.
  abbrev observed : ℕ → Run link → Run link
  observed step run = print link (line step run) (after_poll link cmd size Shows m run)

  -- A loop that ends where the button is at place `t`, and else presses it and goes round again.
  record IsStepLoop : Type 0 where
    stops :
        (left step : ℕ) (run : Run link)
        → (m.place run.world == t) ≡ true
        → loop (suc left) step run ≡ (observed step run, none)
    goes_on :
        (left step : ℕ) (run : Run link)
        → (m.place run.world == t) ≡ false
        → loop (suc left) step run
          ≡ loop left (suc step) (after_press link cmd size Shows m (observed step run))

  loop-Arrived :
      IsStepLoop
      → (left step : ℕ) (run : Run link) → presses size (m.place run.world) t < left
      → Arrived link m.place t (2 * presses size (m.place run.world) t + 1) run (loop left step run)
  loop-Arrived is zero step run h = elim h [ ]
  loop-Arrived is (suc left) step run h = elim (Bool-cases (m.place run.world == t)) [
    | inl here ↦ rw (is.stops left step run here) (
      refl,
      after_poll-stays link cmd size Shows m run ∙ (==_iff _ t).0 here,
      omega (arith, after_poll-sent link cmd size Shows m run),
    )
    | inr there ↦ rw (is.goes_on left step run there) (
        step_on there
          (loop-Arrived is left (suc step) (after_press link cmd size Shows m (observed step run))))
  ]
    where
      after : Run link
      after = after_press link cmd size Shows m (observed step run)

      moved : m.place after.world ≡ next_place size (m.place run.world)
      moved =
          after_press-moves link cmd size Shows m (observed step run)
          ∙ ap (next_place size) (after_poll-stays link cmd size Shows m run)

      step_on :
          (m.place run.world == t) ≡ false
          → (presses size (m.place after.world) t < left
              → Arrived link m.place t
                  (2 * presses size (m.place after.world) t + 1)
                  after
                  (loop left (suc step) after))
          → Arrived link m.place t
              (2 * presses size (m.place run.world) t + 1)
              run
              (loop left (suc step) after)
      step_on there ih =
          let fewer : presses size (m.place run.world) t
              ≡ suc (presses size (m.place after.world) t) =
            rw moved
              (presses-next size (m.place run.world) t (m.in_range run.world) t_in_range there) in
          let (no_error, arrived, few) = ih (omega (arith, fewer, h)) in
          (
            no_error,
            arrived,
            omega (
              arith,
              few,
              fewer,
              after_press-sent link cmd size Shows m (observed step run),
              after_poll-sent link cmd size Shows m run,
            ),
          )

module _ (link : Link) (m : IsCycling link cmd_channel 5 ShowsChannel) (t : ℕ) (lt : t < 4) where
  channel_line : ℕ → Run link → Line
  channel_line step run =
      let s = m.shown run.world in observed_channel s.channel s.auto_channel (pos (t + 1)) step

  channel_is_loop :
      IsStepLoop link cmd_channel 5 t ShowsChannel m
        (omega arith)
        (channel_loop link (pos (t + 1)))
        channel_line
  unfolding channel_loop channel_round channel_line
  channel_is_loop = record {
    stops = λ left step run here.
        rw (read_current_snap-shown link cmd_channel 5 ShowsChannel m run) (
          rw
            (channel_test (m.place run.world) t (m.shown run.world) (m.in_range run.world) lt
                (m.shows run.world)
              ∙ here)
            refl);
    goes_on = λ left step run there.
        rw (read_current_snap-shown link cmd_channel 5 ShowsChannel m run) (
          rw
            (channel_test (m.place run.world) t (m.shown run.world) (m.in_range run.world) lt
                (m.shows run.world)
              ∙ there)
            (press-next link cmd_channel 5 ShowsChannel m
              (channel_loop link (pos (t + 1)) left (suc step))
              (print link (channel_line step run)
                (after_poll link cmd_channel 5 ShowsChannel m run))));
  }

  -- On a meter whose channel button goes round 1, 2, 3, 4 and Auto, which answers every poll with its
  -- state and which nothing else moves, the eight rounds are enough for each manual channel: the step
  -- loop ends without an error, with the meter on that channel, after at most nine writes.
  pub step_to_channel-Arrived :
      (run : Run link) → Arrived link m.place t 9 run (step_to_channel link (pos (t + 1)) run)
  unfolding step_to_channel
  step_to_channel-Arrived run =
      let h = presses-lt 5 (m.place run.world) t (m.in_range run.world) (omega arith) in
      let (no_error, arrived, few) =
        loop-Arrived link cmd_channel 5 t ShowsChannel m (omega arith)
          (channel_loop link (pos (t + 1))) channel_line channel_is_loop 8 0 run
          (omega (arith, h)) in
      (no_error, arrived, omega (arith, few, h))

-- The twelve ranges in their order, on a manual channel.
abbrev pub ShowsRange : ℕ → Snapshot → Type 0
ShowsRange p s = (s.auto_channel ≡ false) × (s.range ≡ get_or range_names p "")

every : ℕ → (ℕ → Bool) → Bool
every zero test = true
every (suc n) test = test n && every n test

every-at : (n : ℕ) (test : ℕ → Bool) (x : ℕ) → every n test ≡ true → x < n → test x ≡ true
unfolding every
every-at zero test x h lt = elim lt [ ]
every-at (suc n) test x h lt = ground (arith, every-at n test x)

-- No two ranges have the same name.
range_test :
    (p t : ℕ)
    → p < 12
    → t < 12
    → str_eq (get_or range_names p "") (get_or range_names t "") ≡ (p == t)
unfolding every
range_test p t hp ht =
    same (every-at 12 (row p) t (every-at 12 (λ q. every 12 (row q)) p refl hp) ht)
  where
    row : ℕ → ℕ → Bool
    row q u = bool_eq (str_eq (get_or range_names q "") (get_or range_names u "")) (q == u)

    same : row p t ≡ true → str_eq (get_or range_names p "") (get_or range_names t "") ≡ (p == t)
    same h = ground (arith, h)

module _ (link : Link) (m : IsCycling link cmd_range 12 ShowsRange) (t : ℕ) (lt : t < 12) where
  range_line : ℕ → Run link → Line
  range_line step run = observed_range (m.shown run.world).range (get_or range_names t "") step

  seen :
      (run : Run link)
      → str_eq (m.shown run.world).range (get_or range_names t "") ≡ (m.place run.world == t)
  seen run = rw ((m.shows run.world).1) (range_test (m.place run.world) t (m.in_range run.world) lt)

  range_is_loop :
      IsStepLoop link cmd_range 12 t ShowsRange m lt
        (range_loop link (get_or range_names t ""))
        range_line
  unfolding range_loop range_round range_line
  range_is_loop = record {
    stops = λ left step run here.
        rw (read_current_snap-shown link cmd_range 12 ShowsRange m run) (rw (seen run ∙ here) refl);
    goes_on = λ left step run there.
        rw (read_current_snap-shown link cmd_range 12 ShowsRange m run) (
          rw (seen run ∙ there, (m.shows run.world).0)
            (press-next link cmd_range 12 ShowsRange m
              (range_loop link (get_or range_names t "") left (suc step))
              (print link (range_line step run) (after_poll link cmd_range 12 ShowsRange m run))));
  }

  -- On a meter on a manual channel whose range button goes round the twelve ranges, which answers every
  -- poll with its state and which nothing else moves, the fourteen rounds are enough for each range: the
  -- step loop ends without an error, with the meter on that range, after at most 23 writes.
  pub step_to_range-Arrived :
      (run : Run link)
      → Arrived link m.place t 23 run (step_to_range link (get_or range_names t "") run)
  unfolding step_to_range
  step_to_range-Arrived run =
      let h = presses-lt 12 (m.place run.world) t (m.in_range run.world) lt in
      let (no_error, arrived, few) =
        loop-Arrived link cmd_range 12 t ShowsRange m lt (range_loop link (get_or range_names t ""))
          range_line range_is_loop 14 0 run (omega (arith, h)) in
      (no_error, arrived, omega (arith, few, h))

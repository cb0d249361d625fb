-- ===== src/Meter/Probe/Samples/Buttons.antt =====
-- Which commands the samples probe writes to the meter (probe.go, runSamples).
use lp_700_server.Prelude.{
  ℕ, ◌≤◌, ◌≡◌, refl, ◌⊎◌, inl, inr, Bool, true, false, not, ◌&&◌, ◌||◌, String, str_eq, List, [],
  ◌∷◌, Option, none, some, arith, if◌then◌else◌, All, Bool-cases,
}
use lp_700_server.Prelude.Int.{pos, ltb_ℤ}
use lp_700_server.Prelude.Result.{Result, ok, err}
use lp_700_server.Meter.Snapshot.{Snapshot}
use lp_700_server.Meter.Device.{HidDeviceInfo, DeviceError}
use lp_700_server.Meter.Probe.Devices.{ProbeOptions}
use lp_700_server.Meter.Probe.Print.{to_power_swr}
use lp_700_server.Meter.Probe.Link.{Link, Run, print}
use lp_700_server.Meter.Probe.Link.Written.{OnlyCommands}
use lp_700_server.Meter.Probe.Capture.{capture_one, Outcome}
use lp_700_server.Meter.Probe.Capture.Commands.{capture_one-Only}
use lp_700_server.Meter.Probe.Steps.{Stepped, read_current_snap, step_to_mode}
use lp_700_server.Meter.Probe.Steps.Commands.{
  read_current_snap-Only, step_to_mode-Only, step_to_channel-Only, step_to_range-Only,
}
use lp_700_server.Meter.Probe.Samples.{
  frames_of, sweep_plan, warned, noted_state, leave_page, drive_channel, drive_range, after_capture,
  sweep, then_next, on_page, sweep_pages, restore, pages, run_opened, run_samples,
}

module _ (link : Link) (limit : ℕ) (low : b'6' ≤ limit) where
  abbrev Only : Run link → Type 0
  Only run = OnlyCommands link limit run

  abbrev Keeps : (Run link → Stepped link) → Type 0
  Keeps next = (run : Run link) → Only run → Only (next run).0

  IsPlanned : ℕ × ℕ → Type 0
  IsPlanned (cmd, n) = (b'0' ≤ cmd) × (cmd ≤ limit)

  sweep-Only : (plan : List (ℕ × ℕ)) → All IsPlanned plan → Keeps (sweep link plan)
  unfolding sweep IsPlanned
  sweep-Only [] p run h = h
  sweep-Only ((cmd, n) ∷ plan) ((lo, hi), p) run h =
      go_on (capture_one link cmd n run) (capture_one-Only link limit cmd n run lo hi h)
        (sweep-Only plan p)
    where
      go_on :
          (r : Outcome link)
          → Only r.0
          → Keeps (sweep link plan)
          → Only (after_capture link (sweep link plan) r).0
      go_on (run', last, some e) h' k = h'
      go_on (run', last, none) h' k = k run' h'

  plan-All : (frames : ℕ) → All IsPlanned (sweep_plan frames)
  unfolding IsPlanned
  plan-All frames = omega (arith, low)

  then_next-Only :
      (next : Run link → Stepped link)
      → Keeps next
      → (r : Stepped link) → Only r.0
      → Only (then_next link next r).0
  unfolding then_next
  then_next-Only next k (run, some e) h = h
  then_next-Only next k (run, none) h = k run h

  on_page-Only :
      (frames : ℕ) (next : Run link → Stepped link)
      → Keeps next
      → (r : Stepped link) → Only r.0
      → Only (on_page link frames next r).0
  unfolding on_page
  on_page-Only frames next k (run, some e) h = k _ h
  on_page-Only frames next k (run, none) h =
      then_next-Only next k _ (sweep-Only (sweep_plan frames) (plan-All frames) _ h)

  -- Where the pages are not cycled, or the limit lets the page button be pressed.
  sweep_pages-Only :
      (cycle : Bool) (frames : ℕ) (modes : List String)
      → (cycle ≡ false) ⊎ (b'9' ≤ limit)
      → Keeps (sweep_pages link cycle frames modes)
  unfolding sweep_pages
  sweep_pages-Only cycle frames [] may run h = h
  sweep_pages-Only cycle frames (mode ∷ modes) may run h =
      elim (Bool-cases (not (str_eq mode "") && cycle)) [
        | inl e ↦
            let high : b'9' ≤ limit = allowed may (of_and (not (str_eq mode "")) cycle e) in
            rw e (
              on_page-Only frames (sweep_pages link cycle frames modes)
                (sweep_pages-Only cycle frames modes may) _
                (step_to_mode-Only link limit high mode 8 _ h))
        | inr e ↦ rw e (
            then_next-Only (sweep_pages link cycle frames modes)
              (sweep_pages-Only cycle frames modes may) _
              (sweep-Only (sweep_plan frames) (plan-All frames) run h))
      ]
    where
      of_and : (a b : Bool) → (a && b) ≡ true → b ≡ true
      of_and true b p = p
      of_and false b p = cc

      allowed : (cycle ≡ false) ⊎ (b'9' ≤ limit) → cycle ≡ true → b'9' ≤ limit
      allowed (inl f) t = cc
      allowed (inr g) t = g

  warned-Only : (r : Stepped link) → Only r.0 → Only (warned link r)
  unfolding warned
  warned-Only (run, none) h = h
  warned-Only (run, some e) h = h

  noted_state-Only : (r : Run link × Option Snapshot) → Only r.0 → Only (noted_state link r).0
  unfolding noted_state
  noted_state-Only (run, none) h = h
  noted_state-Only (run, some s) h = h

-- The options ask for the meter's page, channel or range to be changed.
abbrev pub presses_buttons : ProbeOptions → Bool
presses_buttons opts =
    opts.cycle_modes || ltb_ℤ (pos 0) opts.target_channel || not (str_eq opts.target_range "")

-- The last command that the options need: the status command, or the range button.
abbrev pub last_command : ProbeOptions → ℕ
last_command opts = if presses_buttons opts then b'9' else b'6'

-- The options ask for none of the three.
abbrev IsQuiet : ProbeOptions → Type 0
IsQuiet opts =
    (opts.cycle_modes ≡ false)
    × (ltb_ℤ (pos 0) opts.target_channel ≡ false)
    × (str_eq opts.target_range "" ≡ true)

requests :
    (opts : ProbeOptions)
    → (presses_buttons opts ≡ true) ⊎ ((presses_buttons opts ≡ false) × IsQuiet opts)
requests opts =
    split opts.cycle_modes (ltb_ℤ (pos 0) opts.target_channel) (str_eq opts.target_range "")
  where
    split :
        (a b c : Bool)
        → ((a || b || not c) ≡ true)
          ⊎ (((a || b || not c) ≡ false) × ((a ≡ false) × (b ≡ false) × (c ≡ true)))
    split true b c = inl refl
    split false true c = inl refl
    split false false true = inr (refl, (refl, refl, refl))
    split false false false = inl refl

module _ (link : Link) (limit : ℕ) (low : b'6' ≤ limit) (opts : ProbeOptions)
    (may : IsQuiet opts ⊎ (b'9' ≤ limit)) where
  abbrev Within : Run link → Type 0
  Within run = OnlyCommands link limit run

  leave_page-Within :
      (original : String) (run : Run link) → Within run → Within (leave_page link opts original run)
  unfolding leave_page
  leave_page-Within original run h = elim may [
    | inl (_, c, r) ↦ rw (c, r) h
    | inr high ↦
        elim (Bool-cases (
          (ltb_ℤ (pos 0) opts.target_channel || not (str_eq opts.target_range ""))
          && (not (str_eq original "") && not (str_eq original "power_swr")))) [
            | inl e ↦ rw e (
                warned-Only link limit low
                  (step_to_mode link "power_swr" 8 (print link to_power_swr run))
                  (step_to_mode-Only link limit high "power_swr" 8 (print link to_power_swr run) h))
            | inr e ↦ rw e h
          ]
  ]

  drive_channel-Within : (run : Run link) → Within run → Within (drive_channel link opts run)
  unfolding drive_channel
  drive_channel-Within run h = elim may [
    | inl (_, c, r) ↦ rw c h
    | inr high ↦ elim (Bool-cases (ltb_ℤ (pos 0) opts.target_channel)) [
      | inl e ↦ rw e (
          warned-Only link limit low _
            (step_to_channel-Only link limit high opts.target_channel _ h))
      | inr e ↦ rw e h
    ]
  ]

  drive_range-Within : (run : Run link) → Within run → Within (drive_range link opts run)
  unfolding drive_range
  drive_range-Within run h = elim may [
    | inl (_, c, r) ↦ rw r h
    | inr high ↦ elim (Bool-cases (str_eq opts.target_range "")) [
      | inl e ↦ rw e h
      | inr e ↦
          rw e (
            warned-Only link limit low _ (step_to_range-Only link limit high opts.target_range _ h))
    ]
  ]

  restore-Within :
      (original : String) (r : Stepped link) → Within r.0 → Within (restore link opts original r).0
  unfolding restore
  restore-Within original (run, some e) h = h
  restore-Within original (run, none) h = elim may [
    | inl (cycle, c, r) ↦ rw cycle h
    | inr high ↦ elim (Bool-cases (opts.cycle_modes && not (str_eq original ""))) [
      | inl e ↦ rw e (step_to_mode-Only link limit high original 8 _ h)
      | inr e ↦ rw e h
    ]
  ]

  pages-Within :
      (modes : List String) (run : Run link)
      → Within run
      → Within (sweep_pages link opts.cycle_modes (frames_of opts.frames_per_cmd) modes run).0
  pages-Within modes run h =
      sweep_pages-Only link limit low opts.cycle_modes (frames_of opts.frames_per_cmd) modes
        (may_cycle may) run h
    where
      may_cycle : IsQuiet opts ⊎ (b'9' ≤ limit) → (opts.cycle_modes ≡ false) ⊎ (b'9' ≤ limit)
      may_cycle (inl (cycle, c, r)) = inl cycle
      may_cycle (inr high) = inr high

  run_opened-Within : (run : Run link) → Within run → Within (run_opened link opts run).0
  unfolding run_opened
  run_opened-Within run h =
      let (run1, original) = noted_state link (read_current_snap link run) in
      let run2 = leave_page link opts original run1 in
      let run3 = drive_channel link opts run2 in
      let run4 = drive_range link opts run3 in
      let noted =
        noted_state-Only link limit low (read_current_snap link run)
          (read_current_snap-Only link limit run (omega arith) h) in
      let driven =
        drive_range-Within run3
          (drive_channel-Within run2 (leave_page-Within original run1 noted)) in
      restore-Within original
        (sweep_pages link opts.cycle_modes (frames_of opts.frames_per_cmd)
          (pages link opts original) run4)
        (pages-Within (pages link opts original) run4 driven)

  run_samples-Within :
      (device : Result DeviceError HidDeviceInfo) (run : Run link)
      → Within run
      → Within (run_samples link opts device run).0
  unfolding run_samples
  run_samples-Within (err e) run h = h
  run_samples-Within (ok info) run h = run_opened-Within _ h

-- Whatever the meter answers, the samples probe writes it nothing but single commands from the poll to
-- the status command, and the page, channel and range buttons only if the options ask for the pages
-- to be cycled, a channel or a range; never the alarm, peak, setup or freeze command.
pub run_samples-OnlyCommands :
    (link : Link) (opts : ProbeOptions) (device : Result DeviceError HidDeviceInfo) (w : link.World)
    → OnlyCommands link
        (last_command opts)
        (run_samples link opts device (record { world = w; sent = []; out = [] })).0
run_samples-OnlyCommands link opts device w = elim (requests opts) [
  | inl e ↦ rw e (run_samples-Within link b'9' (omega arith) opts (inr (omega arith)) device _ tt)
  | inr (e, q) ↦ rw e (run_samples-Within link b'6' (omega arith) opts (inl q) device _ tt)
]

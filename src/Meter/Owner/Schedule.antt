-- ===== src/Meter/Owner/Schedule.antt =====
-- Which OUT report each tick writes (owner.go).
use lp_700_server.Prelude.{
  ℕ, ◌+◌, ◌-◌, ◌%◌, ◌≤◌, ◌<◌, ◌≡◌, inl, inr, Bool, true, false, ◌||◌, List, [], ◌∷◌, ◌++◌, none,
  some, ◌==◌, if◌then◌else◌, arith, Bool-cases, String, str_eq, ap, ◌∙◌,
}
use lp_700_server.Meter.Snapshot.{Bytes}
use lp_700_server.Meter.Frame.{poll_report, status_report, sample_report, report_of}
use lp_700_server.Meter.Writes.{Writer, with_report_id}
use lp_700_server.Meter.Writes.Drain.{wires_of, drain_commands-all, write_report-done}
use lp_700_server.Meter.Owner.{Owner, tick_payload, poll, on_tick}

sample_report_ok : (seg : ℕ) → 1 ≤ seg → seg ≤ 5 → sample_report seg ≡ some (report_of (b'0' + seg))
unfolding sample_report
sample_report_ok seg h k = ground arith

-- Whether the meter is on a page whose samples are read.
abbrev pub on_sample_page : String → Bool
on_sample_page mode = str_eq mode "waveform" || str_eq mode "spectrum"

-- The command character that tick `n` is meant to send: the telemetry poll and the five segments in
-- turn on the sample pages; elsewhere the telemetry poll, and at every tenth tick the status poll.
unfoldable pub asked : String → ℕ → ℕ
asked mode n = if on_sample_page mode then b'0' + n % 6 else if n % 10 == 0 then b'6' else b'0'

sample_page_payload :
    (r : ℕ)
    → r < 6
    → (if r == 0 then some poll_report else sample_report r) ≡ some (report_of (b'0' + r))
unfolding sample_report poll_report
sample_page_payload r h = ground arith

-- Every tick sends the report of the command that is due; SampleReport's panic is never reached.
pub tick_payload-asked :
    (mode : String) (n : ℕ) → tick_payload mode n ≡ some (report_of (asked mode n))
unfolding tick_payload asked status_report poll_report
tick_payload-asked mode n = elim (Bool-cases (on_sample_page mode)) [
  | inl page ↦ rw page (sample_page_payload (n % 6) (omega arith))
  | inr other ↦
      rw other (elim (Bool-cases (n % 10 == 0)) [ inl due ↦ rw due | inr not_due ↦ rw not_due ])
]

poll-done :
    (dev : Writer) (o : Owner)
    → ((done : List Bytes) (buf : Bytes) → dev done buf ≡ true)
    → poll dev o ≡ (
      record o {
        sent = o.sent ++ with_report_id (report_of (asked o.last_top_mode o.tick_n)) ∷ [];
      },
      none,
    )
unfolding poll
poll-done dev o h =
    rw (tick_payload-asked o.last_top_mode o.tick_n, poll)
      (rw (write_report-done dev o.sent _ (h o.sent (with_report_id _))))

-- A tick on a device that takes every write: the queued commands go out first, oldest first, then the
-- report that is due, and nothing else changes but the counter.
pub on_tick_lem :
    (dev : Writer) (o : Owner)
    → ((done : List Bytes) (buf : Bytes) → dev done buf ≡ true)
    → on_tick dev o ≡ (
      record o {
        commands = record o.commands { items = [] };
        tick_n = o.tick_n + 1;
        sent =
            (o.sent ++ wires_of o.commands.items)
            ++ with_report_id (report_of (asked o.last_top_mode (o.tick_n + 1))) ∷ [];
      },
      none,
    )
unfolding on_tick
on_tick_lem dev o h = rw (drain_commands-all dev o.commands.items o.sent h) (poll-done dev _ h)

cycle_due :
    (mode : String) (n seg : ℕ)
    → on_sample_page mode ≡ true
    → seg < 6
    → (i : ℕ) × (1 ≤ i) × (i ≤ 6) × (asked mode (n + i) ≡ b'0' + seg)
unfolding asked
cycle_due mode n seg page h =
    ((seg + 11 - n % 6) % 6 + 1, omega arith, omega arith, rw page (ap (◌+◌ b'0') (omega arith)))

-- While the meter stays on a sample page, in any six ticks in a row the telemetry poll and each of
-- the five segments is sent.
pub tick_payload_cycle :
    (mode : String) (n seg : ℕ)
    → on_sample_page mode ≡ true
    → seg < 6
    → (i : ℕ) × (1 ≤ i) × (i ≤ 6) × (tick_payload mode (n + i) ≡ some (report_of (b'0' + seg)))
tick_payload_cycle mode n seg page h =
    let (i, a, b, e) = cycle_due mode n seg page h in
    (i, a, b, tick_payload-asked mode (n + i) ∙ ap (λ c. some (report_of c)) e)

status_due :
    (mode : String) (n : ℕ)
    → on_sample_page mode ≡ false
    → (i : ℕ) × (1 ≤ i) × (i ≤ 10) × (asked mode (n + i) ≡ b'6')
unfolding asked
status_due mode n page = (10 - n % 10, omega arith, omega arith, rw page (ground arith))

-- While the meter stays on another page, in any ten ticks in a row the status text is asked for.
pub tick_payload_status :
    (mode : String) (n : ℕ)
    → on_sample_page mode ≡ false
    → (i : ℕ) × (1 ≤ i) × (i ≤ 10) × (tick_payload mode (n + i) ≡ some (report_of b'6'))
tick_payload_status mode n page =
    let (i, a, b, e) = status_due mode n page in
    (i, a, b, tick_payload-asked mode (n + i) ∙ ap (λ c. some (report_of c)) e)

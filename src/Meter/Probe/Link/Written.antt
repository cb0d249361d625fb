-- ===== src/Meter/Probe/Link/Written.antt =====
-- The commands that the parts of the samples probe write (probe.go).
use lp_700_server.Prelude.{ℕ, ◌≤◌, ◌≡◌, refl, Bool, true, false, arith, All, All-append}
use lp_700_server.Meter.Snapshot.{Bytes}
use lp_700_server.Meter.Frame.{report_of, poll_report}
use lp_700_server.Meter.Writes.{with_report_id}
use lp_700_server.Meter.Probe.Link.{Link, Run, wrote_report, send_report}

-- The report of a command between the poll and `limit`.
abbrev pub IsCommand : ℕ → Bytes → Type 0
IsCommand limit buf = (c : ℕ) × (b'0' ≤ c) × (c ≤ limit) × (buf ≡ with_report_id (report_of c))

-- Nothing but such reports has been written.
abbrev pub OnlyCommands : (link : Link) → ℕ → Run link → Type 0
OnlyCommands link limit run = All (IsCommand limit) run.sent

module _ (link : Link) (limit : ℕ) where
  wrote_report-OnlyCommands :
      (buf : Bytes) (run : Run link) (r : link.World × Bool)
      → IsCommand limit buf
      → OnlyCommands link limit run
      → OnlyCommands link limit (wrote_report link run buf r).0
  unfolding wrote_report
  wrote_report-OnlyCommands buf run (w, true) c h = All-append _ run.sent _ (c, tt) h
  wrote_report-OnlyCommands buf run (w, false) c h = h

  pub send_report-OnlyCommands :
      (c : ℕ) (run : Run link)
      → b'0' ≤ c
      → c ≤ limit
      → OnlyCommands link limit run
      → OnlyCommands link limit (send_report link (report_of c) run).0
  unfolding send_report
  send_report-OnlyCommands c run low high h =
      wrote_report-OnlyCommands (with_report_id (report_of c)) run _ (c, low, high, refl) h

  pub poll-OnlyCommands :
      (run : Run link)
      → b'0' ≤ limit
      → OnlyCommands link limit run
      → OnlyCommands link limit (send_report link poll_report run).0
  unfolding poll_report
  poll-OnlyCommands run low h = send_report-OnlyCommands b'0' run (omega arith) low h

-- ===== src/Tests/ServerRuns.antt =====
-- Runs of the settings and of main.go.
use lp_700_server.Prelude.{
  ◌≡◌, refl, true, false, none, List, ◌∷◌, Option, [], some, inl, inr, codes, map, ◌++◌, ◌==◌,
  if◌then◌else◌, arith,
}
use lp_700_server.Prelude.Int.{ℤ, pos, leb_ℤ, ltb_ℤ}
use lp_700_server.Prelude.Result.{ok}
use lp_700_server.Meter.Snapshot.{Bytes}
use lp_700_server.Config.{Config, bad_heartbeat, ReadOutcome, read, defaults, load, validate}
use lp_700_server.Config.Valid.{IsValid, load-IsValid}
use lp_700_server.Backend.{
  simulator, resolve_backend, slog_level_name, parse_slog_level, level_warn,
}
use lp_700_server.Backend.Levels.{IsLevel, parse_slog_level-slog_level_name}
use lp_700_server.Backend.{level_info}
use lp_700_server.Update.Version.{trim_space}
use lp_700_server.Update.Compare.{lower}
use lp_700_server.Web.{Request}
use lp_700_server.Server.{
  MainFlags, level_notice, first_log, log_level, LogEvent, comes, moves_on, log_events,
  on_log_event, log_step, LogServer, arrived, absent,
}
use lp_700_server.Server.Tracked.{Tracked}
use lp_700_server.Server.Progress.{IsDone, log_events-IsDone}
use lp_700_server.Server.Handlers.{Posts, IsTrueLog, Asked, first_server, log_events-IsTrueLog}
use lp_700_server.Server.LogLevel.{log_levels}

-- A file whose text sets the poll interval, and a decoder that reads it.
abbrev file : Bytes → ReadOutcome
file path = read (codes "poll_ms = 100")

abbrev configured : Config
configured = record defaults { meter = record defaults.meter { poll_ms = pos 100 } }

abbrev decoder : Bytes → Config → Option Config
decoder text base = some (record base { meter = record base.meter { poll_ms = pos 100 } })

loads : load file decoder (codes "server.toml") ≡ ok configured
unfolding load validate
loads = refl

load-IsValid_example : IsValid configured
load-IsValid_example = load-IsValid file decoder (codes "server.toml") loads

abbrev quick : Config
quick = record defaults { server = record defaults.server { heartbeat_ms = pos 150 } }

quick_refused : validate quick ≡ some bad_heartbeat
unfolding validate
quick_refused = refl

no_meter : resolve_backend (some []) (codes "auto") ≡ simulator
unfolding resolve_backend lp_700_server.Meter.Device.has_lp_meter_attached
no_meter = refl

two_le_warn : leb_ℤ (pos 2) level_warn ≡ true
two_le_warn = refl

warn-IsLevel : IsLevel level_warn
warn-IsLevel = inr (inr (inl refl))

parse_slog_level-slog_level_name_at_input :
    (m : ℤ) × (parse_slog_level (slog_level_name (pos 2)) ≡ some m)
    × IsLevel m
    × (leb_ℤ (pos 2) m ≡ true)
    × (leb_ℤ m level_warn ≡ true)
parse_slog_level-slog_level_name_at_input =
    parse_slog_level-slog_level_name (pos 2) level_warn warn-IsLevel two_le_warn

-- Raised to info, refused, read.
abbrev request : Bytes → Option Bytes → Request Bytes
request method body = record { method = method; remote = codes "10.0.0.2"; decoded = body }

abbrev requests : List (Request Bytes)
requests =
    request (codes "POST") (some (codes " Info"))
    ∷ request (codes "POST") (some (codes "loud"))
    ∷ request (codes "GET") none
    ∷ []

abbrev flags : MainFlags
flags = record {
  config_path = codes "server.toml";
  backend_override = codes "usb";
  verbose = false;
  show_version = false;
}

level_now : (log_levels (first_log flags) requests).level ≡ level_info
unfolding log_levels log_level first_log parse_slog_level lower trim_space
level_now = refl

-- Two requests whose handlers overlap: both have read the level before either sets it.
abbrev overlapping : List LogEvent
overlapping =
    comes 1 (request (codes "POST") (some (codes "info")))
    ∷ comes 2 (request (codes "POST") (some (codes "debug")))
    ∷ moves_on 1
    ∷ moves_on 2
    ∷ moves_on 1
    ∷ moves_on 2
    ∷ moves_on 1
    ∷ moves_on 2
    ∷ moves_on 1
    ∷ moves_on 2
    ∷ []

log_events-IsTrueLog_example :
    IsTrueLog
      (Asked overlapping)
      (first_log flags).level
      (log_events (first_server flags) overlapping).log
    × IsLevel (log_events (first_server flags) overlapping).log.level
    × (ltb_ℤ (log_events (first_server flags) overlapping).log.level level_notice ≡ true)
    × Tracked (first_log flags).level (log_events (first_server flags) overlapping)
log_events-IsTrueLog_example = log_events-IsTrueLog flags overlapping

-- A server that has just met a request for info, and then meets the two others.
abbrev asked_for_info : LogServer
asked_for_info = record {
  log = first_log flags;
  phases = λ j. if j == 7 then arrived (request (codes "POST") (some (codes "info"))) else absent;
}

abbrev later : List LogEvent
later = moves_on 7 ∷ moves_on 7 ∷ overlapping ++ moves_on 7 ∷ moves_on 7 ∷ []

info_posted : Posts (request (codes "POST") (some (codes "info"))) (codes "10.0.0.2") level_info
info_posted = (refl, refl, (codes "info", refl, unfold parse_slog_level lower trim_space in refl))

log_events-IsDone_example : IsDone 7 (codes "10.0.0.2") level_info (log_events asked_for_info later)
log_events-IsDone_example =
    log_events-IsDone asked_for_info later 7 (request (codes "POST") (some (codes "info")))
      (codes "10.0.0.2") level_info refl info_posted (omega arith)

-- Both notices then name the first level as the old one.
both_from_error :
    map (λ n. n.from) (log_events (first_server flags) overlapping).log.notices
    ≡ codes "error" ∷ codes "error" ∷ []
unfolding log_events on_log_event log_step first_log parse_slog_level lower trim_space
    slog_level_name
both_from_error = refl

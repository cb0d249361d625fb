-- ===== src/Server.antt =====
-- main.go: what main makes of its flags and settings, and the handlers that it defines itself.
pub mod LogLevel
pub mod Tracked
pub mod Progress
pub mod Handlers
pub mod StartUp
use lp_700_server.Prelude.{
  ℕ, zero, suc, ◌==◌, Bool, true, false, List, [], ◌∷◌, ◌++◌, Option, none, some, codes,
  if◌then◌else◌,
}
use lp_700_server.Prelude.Chan.{Chan, make}
use lp_700_server.Prelude.Int.{ℤ, pos, negsuc}
use lp_700_server.Prelude.Result.{Result, ok, err}
use lp_700_server.Meter.Snapshot.{Bytes, bytes_eq, Snapshot, ScopeFrame, SpectrumFrame}
use lp_700_server.Meter.Device.{HidDeviceInfo}
use lp_700_server.Backend.{
  Backend, hid, simulator, resolve_backend, slog_level_name, parse_slog_level, level_debug,
  level_error,
}
use lp_700_server.Meter.Owner.{Owner}
use lp_700_server.Meter.Owner.Loop.{new_owner}
use lp_700_server.Meter.Simulator.Loop.{Sim, new_simulator}
use lp_700_server.Config.{MeterConfig, Config, ConfigError}
use lp_700_server.Hub.{Hub, Options, new_hub}
use lp_700_server.Update.Checker.{Checker, new_checker}
use lp_700_server.Web.{Request, Response, encode, write_json_error}

-- Above every level that can be chosen, so that its lines are always printed.
abbrev pub level_notice : ℤ
level_notice = pos 12

-- The line logged when the level changes, with the names of the levels and who asked.
pub record Notice : Type 0 where
  pub from : Bytes
  pub to : Bytes
  pub remote : Bytes

-- The level variable and the notices logged.
pub record Log : Type 0 where
  pub level : ℤ
  pub notices : List Notice

-- Where the handler of /api/log-level stands, with the variables that are live there. net/http runs the
-- handlers of different requests at the same time, so its reads and writes of the level are steps of
-- their own. A request's decoded body is the level that it names.
pub data Phase : Type 0 where
  absent : Phase  -- no such request
  arrived : Request Bytes → Phase
  chosen : Bytes → ℤ → Phase  -- before `levelVar.Level()`; who asked, and the level
  seen : Bytes → ℤ → ℤ → Phase  -- before `levelVar.Set`, with the level read
  changed : Bytes → ℤ → ℤ → Phase  -- before the line is logged
  answered : Response Bytes → Phase

on_level : Bytes → Option ℤ → Phase
on_level remote none =
    answered (write_json_error [] 400 (codes "level must be one of: error, warn, info, debug"))
on_level remote (some l) = chosen remote l

on_post : Bytes → Option Bytes → Phase
unfolding on_level
on_post remote none = answered (write_json_error [] 400 (codes "bad json"))
on_post remote (some name) = on_level remote (parse_slog_level name)

on_request : Log → Request Bytes → Phase
unfolding on_post
on_request log r =
    if bytes_eq r.method (codes "GET")
    then answered (encode (slog_level_name log.level))
    else if bytes_eq r.method (codes "POST")
    then on_post r.remote r.decoded
    else answered (write_json_error (codes "GET, POST") 405 (codes "method not allowed"))

-- One step of the handler.
unfoldable pub log_step : Log → Phase → Log × Phase
unfolding on_request
log_step log absent = (log, absent)
log_step log (arrived r) = (log, on_request log r)
log_step log (chosen remote l) = (log, seen remote l log.level)
log_step log (seen remote l prev) = (record log { level = l }, changed remote l prev)
log_step log (changed remote l prev) = (
  record log {
    notices =
        log.notices
        ++ record { from = slog_level_name prev; to = slog_level_name l; remote = remote } ∷ [];
  },
  answered (encode (slog_level_name l)),
)
log_step log (answered response) = (log, answered response)

log_steps : ℕ → Log → Phase → Log × Phase
unfolding log_step
log_steps zero log phase = (log, phase)
log_steps (suc n) log phase = let (log', phase') = log_step log phase in log_steps n log' phase'

-- The handler of one request from its start to its end, with no other one between its steps.
unfoldable pub log_level : Log → Request Bytes → Log × Phase
unfolding log_steps
log_level log r = log_steps 4 log (arrived r)

-- The log and the handlers of all requests, by number.
pub record LogServer : Type 0 where
  pub log : Log
  pub phases : ℕ → Phase

abbrev put : (ℕ → Phase) → ℕ → Phase → ℕ → Phase
put ps i p j = if j == i then p else ps j

-- A request comes in, or one handler makes a step.
pub data LogEvent : Type 0 where
  comes : ℕ → Request Bytes → LogEvent
  moves_on : ℕ → LogEvent

-- A request has a number of its own.
come : Phase → Request Bytes → Phase
come absent r = arrived r
come p r = p

unfoldable pub on_log_event : LogServer → LogEvent → LogServer
unfolding log_step come
on_log_event s (comes i r) = record s { phases = put s.phases i (come (s.phases i) r) }
on_log_event s (moves_on i) =
    let (log', p) = log_step s.log (s.phases i) in record { log = log'; phases = put s.phases i p }

unfoldable pub log_events : LogServer → List LogEvent → LogServer
unfolding on_log_event
log_events s [] = s
log_events s (e ∷ es) = log_events (on_log_event s e) es

-- What /api/config answers.
pub record PublicConfig : Type 0 where
  pub backend : Backend
  pub allow_control : Bool
  pub title : Bytes
  pub version : Bytes

-- The flags of main.
pub record MainFlags : Type 0 where
  pub config_path : Bytes
  pub backend_override : Bytes
  pub verbose : Bool
  pub show_version : Bool

-- The meter behind the hub: the HID owner with the ids that it looks for, or the simulator.
pub data Meter : Type 0 where
  hid_owner : ℕ → ℕ → Owner → Meter
  simulated : Sim → Meter

-- The `switch` over the backend, whose default is not reached: `resolve_backend` gives one of the two.
-- The simulator gets no channels for samples.
unfoldable pub meter_of :
    Backend → MeterConfig → Chan Snapshot → Chan ScopeFrame → Chan SpectrumFrame → Meter
meter_of hid cfg snapshots scopes spectra =
    hid_owner cfg.vendor_id cfg.product_id (new_owner snapshots (some scopes) (some spectra))
meter_of simulator cfg snapshots scopes spectra = simulated (new_simulator snapshots)

-- What main sets up before it starts the goroutines: the channels between the meter and the hub, the
-- meter's poll interval in milliseconds, the hub and the update check.
pub record Wiring : Type 0 where
  pub meter : Meter
  pub poll_ms : ℤ
  pub snapshots : Chan Snapshot
  pub scopes : Chan ScopeFrame
  pub spectra : Chan SpectrumFrame
  pub hub : Hub
  pub updates : Checker
  pub listen : Bytes
  pub shown : PublicConfig

pub data Start : Type 0 where
  version_printed : Start
  exited : ℕ → Start
  started : Wiring → Start

-- A setting that the validation has found positive.
abbrev pub natural : ℤ → ℕ
natural (pos n) = n
natural (negsuc n) = 0

unfoldable pub hub_options : Config → Options
hub_options cfg = record {
  heartbeat = natural cfg.server.heartbeat_ms;
  max_clients = natural cfg.server.max_clients;
  allow_control = cfg.server.allow_control;
}

-- `version` is the stamp of the build, `hook` the environment variable of the update check's test, and
-- `devices` what the enumeration of the HID devices gives.
module _ (version hook : Bytes) (devices : Option (List HidDeviceInfo)) (now : ℕ) where
  unfoldable pub wire : Backend → Config → Wiring
  unfolding hub_options meter_of
  wire backend cfg = record {
    meter = meter_of backend cfg.meter (make 8) (make 2) (make 2);
    poll_ms = cfg.meter.poll_ms;
    snapshots = make 8;
    scopes = make 2;
    spectra = make 2;
    hub = new_hub (hub_options cfg) now;
    updates = new_checker cfg.check version 0 0 hook;
    listen = cfg.server.listen;
    shown = record {
      backend = backend;
      allow_control = cfg.server.allow_control;
      title = cfg.title;
      version = version;
    };
  }

  with_override : MainFlags → Config → Bytes
  with_override flags cfg =
      if bytes_eq flags.backend_override [] then cfg.meter.backend else flags.backend_override

  with_config : MainFlags → Result ConfigError Config → Start
  unfolding with_override wire
  with_config flags (err e) = exited 1
  with_config flags (ok cfg) =
      started (wire (resolve_backend devices (with_override flags cfg)) cfg)

  -- `load` is config.Load at a path.
  unfoldable pub start_up : (Bytes → Result ConfigError Config) → MainFlags → Start
  unfolding with_config
  start_up load flags =
      if flags.show_version then version_printed else with_config flags (load flags.config_path)

-- The level that main starts with.
unfoldable pub first_log : MainFlags → Log
first_log flags = record {
  level = (if flags.verbose then level_debug else level_error);
  notices = [];
}

-- ===== src/Config.antt =====
-- internal/config/config.go: the settings, their defaults and their validation. The file system and
-- the TOML decoder come from outside.
pub mod Valid
use lp_700_server.Prelude.{
  ℕ, Bool, true, false, not, ◌&&◌, ◌||◌, Option, none, some, List, [], ◌∷◌, codes, if◌then◌else◌,
}
use lp_700_server.Prelude.Int.{ℤ, pos, ltb_ℤ, leb_ℤ}
use lp_700_server.Prelude.Result.{Result, ok, err}
use lp_700_server.Meter.Snapshot.{Bytes, bytes_eq}
use lp_700_server.Meter.Device.{default_vendor_id, default_product_id}

pub record MeterConfig : Type 0 where
  pub backend : Bytes
  pub vendor_id : ℕ
  pub product_id : ℕ
  pub poll_ms : ℤ

pub record ServerConfig : Type 0 where
  pub listen : Bytes
  pub heartbeat_ms : ℤ
  pub max_clients : ℤ
  pub allow_control : Bool

pub record Config : Type 0 where
  pub meter : MeterConfig
  pub server : ServerConfig
  pub title : Bytes
  pub check : Bool

abbrev pub defaults : Config
defaults = record {
  meter = record {
    backend = codes "auto";
    vendor_id = default_vendor_id;
    product_id = default_product_id;
    poll_ms = pos 40;
  };
  server = record {
    listen = codes "0.0.0.0:8089";
    heartbeat_ms = pos 2000;
    max_clients = pos 32;
    allow_control = true;
  };
  title = codes "LP-500 / LP-700";
  check = true;
}

pub data ConfigError : Type 0 where
  read_failed parse_failed bad_backend bad_poll no_listen bad_max_clients bad_heartbeat :
      ConfigError

abbrev pub is_backend_name : Bytes → Bool
is_backend_name name =
    bytes_eq name (codes "auto") || bytes_eq name (codes "hid") || bytes_eq name (codes "simulator")

-- The first objection, if there is one.
unfoldable pub validate : Config → Option ConfigError
validate c =
    if not (is_backend_name c.meter.backend)
    then some bad_backend
    else if ltb_ℤ c.meter.poll_ms (pos 10) || ltb_ℤ (pos 1000) c.meter.poll_ms
    then some bad_poll
    else if bytes_eq c.server.listen []
    then some no_listen
    else if leb_ℤ c.server.max_clients (pos 0)
    then some bad_max_clients
    else if ltb_ℤ c.server.heartbeat_ms (pos 200)
    then some bad_heartbeat
    else none

-- What `os.ReadFile` brings.
pub data ReadOutcome : Type 0 where
  missing failed : ReadOutcome
  read : Bytes → ReadOutcome

module _ (read_file : Bytes → ReadOutcome) (unmarshal : Bytes → Config → Option Config) where
  checked : Config → Result ConfigError Config
  checked c = elim (validate c) [ none ↦ ok c | some e ↦ err e ]

  decoded : Option Config → Result ConfigError Config
  unfolding checked
  decoded none = err parse_failed
  decoded (some c) = checked c

  load_outcome : ReadOutcome → Result ConfigError Config
  unfolding decoded
  load_outcome missing = ok defaults
  load_outcome failed = err read_failed
  load_outcome (read data_) = decoded (unmarshal data_ defaults)

  -- The callers drop the settings that come with an error, so they are left out here.
  unfoldable pub load : Bytes → Result ConfigError Config
  unfolding load_outcome
  load path = if bytes_eq path [] then ok defaults else load_outcome (read_file path)

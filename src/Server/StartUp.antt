-- ===== src/Server/StartUp.antt =====
-- What the server starts with (main.go, main).
use lp_700_server.Prelude.{ℕ, ◌≤◌, ◌≡◌, ◌≢◌, ◌⊎◌, true, false, List, [], Option, arith, codes}
use lp_700_server.Prelude.Int.{ℤ, pos}
use lp_700_server.Prelude.Result.{Result, ok, err}
use lp_700_server.Meter.Snapshot.{Bytes, Snapshot}
use lp_700_server.Meter.Snapshot.Deadband.{bytes_eq_iff}
use lp_700_server.Meter.Device.{HidDeviceInfo}
use lp_700_server.Backend.{Backend, hid, simulator, resolve_backend}
use lp_700_server.Config.{Config, ConfigError}
use lp_700_server.Config.Valid.{Between}
use lp_700_server.Prelude.Chan.{Chan}
use lp_700_server.Server.{
  MainFlags, Meter, hid_owner, simulated, Wiring, Start, version_printed, exited, started, wire,
  with_override, with_config, start_up,
}

-- The meter that runs is the one that a backend's name stands for, and the HID owner looks for the ids
-- of the settings, with nothing in its queue.
abbrev pub IsMeterOf : Config → Backend → Meter → Type 0
IsMeterOf cfg b (hid_owner vendor product o) =
    (b ≡ hid)
    × (vendor ≡ cfg.meter.vendor_id)
    × (product ≡ cfg.meter.product_id)
    × (o.commands.items ≡ [])
IsMeterOf cfg b (simulated s) = (b ≡ simulator) × (s.running ≡ true) × (s.commands.items ≡ [])

-- The name of the backend: that of the flag, if it is given, and else that of the settings.
abbrev pub IsNamed : MainFlags → Config → Bytes → Type 0
IsNamed flags cfg name =
    ((flags.backend_override ≡ []) × (name ≡ cfg.meter.backend))
    ⊎ ((flags.backend_override ≢ []) × (name ≡ flags.backend_override))

-- A setting that is a natural number of at least `low`.
abbrev pub IsNatural : ℕ → ℤ → ℕ → Type 0
IsNatural low setting n = (setting ≡ pos n) × (low ≤ n)

-- A server that is put together as its settings say, and so that it can work.
pub record IsSetUp (devices : Option (List HidDeviceInfo)) (flags : MainFlags) (cfg : Config)
    (w : Wiring) : Type 0 where
  pub polls : (w.poll_ms ≡ cfg.meter.poll_ms) × Between 10 1000 w.poll_ms
  pub address : (w.listen ≡ cfg.server.listen) × (w.listen ≢ [])
  pub room : IsNatural 1 cfg.server.max_clients w.hub.options.max_clients
  pub heartbeats : IsNatural 200 cfg.server.heartbeat_ms w.hub.options.heartbeat
  pub control : w.hub.options.allow_control ≡ cfg.server.allow_control
  pub control_shown : w.shown.allow_control ≡ cfg.server.allow_control
  pub title_shown : w.shown.title ≡ cfg.title
  pub no_clients : w.hub.clients ≡ []
  pub chosen :
      (name : Bytes) × IsNamed flags cfg name × (w.shown.backend ≡ resolve_backend devices name)
  pub in_use : IsMeterOf cfg w.shown.backend w.meter

module _ (version hook : Bytes) (devices : Option (List HidDeviceInfo)) (now : ℕ) where
  -- How a start ends, by the flag and what the settings load as.
  abbrev pub Begun : MainFlags → Result ConfigError Config → Start → Type 0
  Begun flags settings s =
      ((flags.show_version ≡ true) × (s ≡ version_printed))
      ⊎ ((flags.show_version ≡ false) × ((e : ConfigError) × (settings ≡ err e)) × (s ≡ exited 1))
      ⊎ ((flags.show_version ≡ false)
          × ((cfg : Config) × (w : Wiring) × (settings ≡ ok cfg)
              × (s ≡ started w)
              × IsSetUp devices flags cfg w))

  misnamed :
      (name : Bytes)
      → name ≢ []
      → name ≢ codes "hid"
      → name ≢ codes "auto"
      → resolve_backend devices name ≡ simulator
  unfolding resolve_backend
  misnamed name given not_hid not_auto = ground (
    arith,
    bytes_eq_iff name [],
    bytes_eq_iff name (codes "hid"),
    bytes_eq_iff name (codes "auto"),
  )

  -- A name given with -backend is not validated: one that is neither hid nor auto, misspelt or not,
  -- starts the server on the simulator, whatever devices there are and whatever the settings say.
  pub start_up-misnamed :
      (settings : Bytes → Result ConfigError Config) (flags : MainFlags) (cfg : Config)
      → flags.show_version ≡ false
      → settings flags.config_path ≡ ok cfg
      → flags.backend_override ≢ []
      → flags.backend_override ≢ codes "hid"
      → flags.backend_override ≢ codes "auto"
      → start_up version hook devices now settings flags
        ≡ started (wire version hook devices now simulator cfg)
  unfolding start_up with_config with_override
  start_up-misnamed settings flags cfg no_version loads given not_hid not_auto =
      let m = misnamed flags.backend_override given not_hid not_auto in
      ground (arith, bytes_eq_iff flags.backend_override [], m, loads)

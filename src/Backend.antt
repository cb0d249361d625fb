-- ===== src/Backend.antt =====
-- main.go: the choice of the backend and the names of the log levels.
pub mod Levels
use lp_700_server.Prelude.{
  ℕ, Bool, true, false, ◌||◌, Option, none, some, List, [], ◌∷◌, codes, if◌then◌else◌,
}
use lp_700_server.Prelude.Int.{ℤ, pos, negsuc, leb_ℤ}
use lp_700_server.Meter.Snapshot.{Bytes, bytes_eq}
use lp_700_server.Meter.Device.{HidDeviceInfo, has_lp_meter_attached}
use lp_700_server.Update.Version.{trim_space}
use lp_700_server.Update.Compare.{lower}

pub data Backend : Type 0 where
  hid simulator : Backend

unfoldable pub resolve_backend : Option (List HidDeviceInfo) → Bytes → Backend
resolve_backend devices name =
    if bytes_eq name (codes "hid")
    then hid
    else if bytes_eq name (codes "simulator")
    then simulator
    else if bytes_eq name [] || bytes_eq name (codes "auto")
    then if has_lp_meter_attached devices then hid else simulator
    else simulator

-- The levels of log/slog.
abbrev pub level_debug : ℤ
level_debug = negsuc 3

abbrev pub level_info : ℤ
level_info = pos 0

abbrev pub level_warn : ℤ
level_warn = pos 4

abbrev pub level_error : ℤ
level_error = pos 8

unfoldable pub slog_level_name : ℤ → Bytes
slog_level_name l =
    if leb_ℤ l level_debug
    then codes "debug"
    else if leb_ℤ l level_info
    then codes "info"
    else if leb_ℤ l level_warn
    then codes "warn"
    else codes "error"

level_of : Bytes → Option ℤ
level_of s =
    if bytes_eq s (codes "debug")
    then some level_debug
    else if bytes_eq s (codes "info")
    then some level_info
    else if bytes_eq s (codes "warn") || bytes_eq s (codes "warning")
    then some level_warn
    else if bytes_eq s (codes "error") || bytes_eq s (codes "err")
    then some level_error
    else none

unfoldable pub parse_slog_level : Bytes → Option ℤ
unfolding level_of
parse_slog_level s = level_of (lower (trim_space s))

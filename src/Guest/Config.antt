-- ===== src/Guest/Config.antt =====
-- crates/crosspuck-core/src/guest_driver/config.rs: the configuration of the driver. A duration is
-- its number of nanoseconds. The addresses are not here, since nothing computes with them.
use crosspuck.Base.{ℕ, ◌*◌, Bool, true, false, not, ◌&&◌, leb, ◌==◌, min, Bytes}
use crosspuck.Base.Text.{ascii}
use crosspuck.Protocol.Payload.Overrides
use crosspuck.Protocol.Payload.Overrides.{LogSeverity}

-- `Duration::from_millis`
abbrev pub from_millis : ℕ → ℕ
from_millis n = n * 1_000_000

pub data GuestLogLevel : Type 0 where
  off error warn info debug trace : GuestLogLevel

-- The order of the derived `Ord`.
abbrev pub level_number : GuestLogLevel → ℕ
level_number off = 0
level_number error = 1
level_number warn = 2
level_number info = 3
level_number debug = 4
level_number trace = 5

-- `GuestLogLevel::allows`
unfoldable pub allows : GuestLogLevel → GuestLogLevel → Bool
allows self level = not (level_number level == 0) && leb (level_number level) (level_number self)

-- `From<LogSeverity> for GuestLogLevel`
unfoldable pub level_of_severity : LogSeverity → GuestLogLevel
level_of_severity Overrides.off = off
level_of_severity Overrides.error = error
level_of_severity Overrides.warn = warn
level_of_severity Overrides.info = info
level_of_severity Overrides.debug = debug
level_of_severity Overrides.trace = trace

pub record RuntimeConfig : Type 0 where
  pub host_bridge_enabled : Bool
  pub host_bridge_required : Bool
  pub replay_enabled : Bool
  pub trace_reports : Bool
  pub connect_timeout : ℕ
  pub handshake_timeout : ℕ
  pub io_timeout : ℕ
  pub lazy_reconnect_interval : ℕ
  pub input_queue_capacity : ℕ
  pub trace_report_limit : ℕ
  pub trace_report_max_bytes : ℕ
  pub log_level : GuestLogLevel
  pub guest_label : Bytes

abbrev pub default_io_timeout : ℕ
default_io_timeout = from_millis 1_000

-- `RuntimeConfig::default`
unfoldable pub default_config : RuntimeConfig
default_config = record {
  host_bridge_enabled = false;
  host_bridge_required = false;
  replay_enabled = false;
  trace_reports = false;
  connect_timeout = from_millis 1_000;
  handshake_timeout = from_millis 2_000;
  io_timeout = default_io_timeout;
  lazy_reconnect_interval = from_millis 1_000;
  input_queue_capacity = 64;
  trace_report_limit = 2048;
  trace_report_max_bytes = 128;
  log_level = info;
  guest_label = ascii "crosspuck-driver";
}

unfoldable pub driver_defaults : RuntimeConfig
unfolding default_config
driver_defaults = record default_config {
  host_bridge_enabled = true;
  host_bridge_required = true;
  connect_timeout = min default_config.connect_timeout (from_millis 1_000);
}

unfoldable pub allow_debug_fallback : RuntimeConfig → Bool
allow_debug_fallback c = not c.host_bridge_required && c.replay_enabled

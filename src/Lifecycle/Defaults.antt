-- ===== src/Lifecycle/Defaults.antt =====
-- core/lifecycle/manager.go: Options as they are given, and withDefaults. Durations are in nanoseconds.
use codespace_ssh_gateway.Shared.{◌*◌, Bool, if◌then◌else◌}
use codespace_ssh_gateway.Shared.Integers.{ℤ, pos, negative, positive}
use codespace_ssh_gateway.Lifecycle.World.{second}

pub record Settings : Type 0 where
  pub auto_create : Bool
  pub start_timeout : ℤ
  pub create_timeout : ℤ
  pub connect_timeout : ℤ
  pub poll_interval : ℤ
  pub connect_retries : ℤ
  pub stop_on_last_disconnect : Bool

-- withDefaults
unfoldable pub with_defaults : Settings → Settings
with_defaults o = record o {
  start_timeout = if positive o.start_timeout then o.start_timeout else pos (300 * second);
  create_timeout = if positive o.create_timeout then o.create_timeout else pos (1200 * second);
  connect_timeout = if positive o.connect_timeout then o.connect_timeout else pos (120 * second);
  poll_interval = if positive o.poll_interval then o.poll_interval else pos (2 * second);
  connect_retries = if negative o.connect_retries then pos 0 else o.connect_retries;
}

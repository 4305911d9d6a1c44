-- ===== src/Plugin/Times.antt =====
-- The durations of cmd/multus-multivpc-cni/main.go: `waitTimeout` and `pollInterval`. A
-- `time.Duration` is an `int64` of nanoseconds, and a product wraps around.
pub mod Laws
use Prim.Native.Nat.{◌%◌, ◌^◌}
use multus_multivpc_cni.Base.{ℕ, ◌+◌, ◌-◌, ◌*◌, ltb, Bool, if◌then◌else◌}
use multus_multivpc_cni.Base.Int.{ℤ, pos, negsuc}
use multus_multivpc_cni.Plugin.Conf.{PluginConf}

-- The number that a word of 64 bits stands for.
abbrev pub signed64 : ℕ → ℤ
signed64 w = if ltb w (2 ^ 63) then pos w else negsuc (2 ^ 64 - w - 1)

-- The product with a unit in 64 bits.
unfoldable pub times : ℤ → ℕ → ℤ
times (pos n) unit = signed64 (n * unit % 2 ^ 64)
times (negsuc n) unit = signed64 ((2 ^ 64 - (n + 1) * unit % 2 ^ 64) % 2 ^ 64)

abbrev pub second : ℕ
second = 1_000_000_000

abbrev pub millisecond : ℕ
millisecond = 1_000_000

module _ {R : Type 0} where
  unfoldable pub wait_timeout : PluginConf R → ℤ
  unfolding times
  wait_timeout conf = times conf.wait_timeout_seconds second

  unfoldable pub poll_interval : PluginConf R → ℤ
  unfolding times
  poll_interval conf = times conf.poll_interval_milliseconds millisecond

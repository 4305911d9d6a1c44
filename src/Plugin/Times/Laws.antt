-- ===== src/Plugin/Times/Laws.antt =====
-- The bounds within which `waitTimeout` and `pollInterval` of cmd/multus-multivpc-cni/main.go are
-- right.
use Prim.Native.Nat.{◌%◌, ◌^◌}
use multus_multivpc_cni.Base.{
  ℕ, ◌*◌, ◌≤◌, ◌<◌, Text, true, Option, [], Result, ok, ◌≡◌, ◌≢◌, ◌↔◌, refl, sym, subst, ◌+◌, ◌-◌,
  arith,
}
use multus_multivpc_cni.Base.Int.{ℤ, pos, negsuc, is_positive}
use multus_multivpc_cni.Plugin.Conf.{Fields, PluginConf, load_config}
use multus_multivpc_cni.Plugin.Conf.Laws.{load_config-IsComplete}
use multus_multivpc_cni.Plugin.Times.{
  signed64, times, second, millisecond, wait_timeout, poll_interval,
}

-- The range of an `int64`.
unfoldable pub IsInt64 : ℤ → Type 0
IsInt64 (pos n) = n < 2 ^ 63
IsInt64 (negsuc n) = n < 2 ^ 63

signed64-IsInt64 : (w : ℕ) → w < 2 ^ 64 → IsInt64 (signed64 w)
unfolding IsInt64
signed64-IsInt64 w h = ground arith

second_exact : (n : ℕ) → (times (pos n) second ≡ pos (n * second)) ↔ (n ≤ 9_223_372_036)
unfolding times
second_exact n = ground arith

millisecond_exact :
    (n : ℕ) → (times (pos n) millisecond ≡ pos (n * millisecond)) ↔ (n ≤ 9_223_372_036_854)
unfolding times
millisecond_exact n = ground arith

times-IsInt64 : (n : ℤ) (unit : ℕ) → IsInt64 (times n unit)
unfolding times
times-IsInt64 (pos n) unit = signed64-IsInt64 (n * unit % 2 ^ 64) (omega arith)
times-IsInt64 (negsuc n) unit =
    signed64-IsInt64 ((2 ^ 64 - (n + 1) * unit % 2 ^ 64) % 2 ^ 64) (omega arith)

-- The durations of a configuration.
pub record IsTimed {R : Type 0} (conf : PluginConf R) : Type 0 where
  pub seconds : ℕ
  pub milliseconds : ℕ
  pub has_seconds : conf.wait_timeout_seconds ≡ pos seconds
  pub has_milliseconds : conf.poll_interval_milliseconds ≡ pos milliseconds
  pub some_seconds : 1 ≤ seconds
  pub some_milliseconds : 1 ≤ milliseconds
  pub timeout_fits : IsInt64 (wait_timeout conf)
  pub interval_fits : IsInt64 (poll_interval conf)
  pub timeout_exact : (wait_timeout conf ≡ pos (seconds * second)) ↔ (seconds ≤ 9_223_372_036)
  pub interval_exact :
      (poll_interval conf ≡ pos (milliseconds * millisecond)) ↔ (milliseconds ≤ 9_223_372_036_854)
  pub ticks : milliseconds ≤ 9_223_372_036_854 → is_positive (poll_interval conf) ≡ true

positive_pos : (z : ℤ) → is_positive z ≡ true → (n : ℕ) × (z ≡ pos n) × (1 ≤ n)
positive_pos (pos n) h = (n, refl, ground arith)
positive_pos (negsuc n) h = absurd (ground arith)

module _ {R J : Type 0} where
  -- A configuration that loads, as long as the CNI library has a current version, asks for at least
  -- one second and at least one millisecond. The timeout and the interval that it gives are 64-bit
  -- numbers, and they are the numbers asked for exactly up to 9,223,372,036 seconds and
  -- 9,223,372,036,854 milliseconds: beyond that the product wraps around. Up to there the interval is
  -- one that a ticker takes.
  pub load_config-IsTimed :
      (unmarshal : Text → Result J (PluginConf R))
      (unmarshal_map : Text → Result J (Option (Fields R))) (current stdin : Text)
      {conf : PluginConf R}
      → current ≢ []
      → load_config unmarshal unmarshal_map current stdin ≡ ok conf
      → IsTimed conf
  unfolding wait_timeout poll_interval
  load_config-IsTimed unmarshal unmarshal_map current stdin {conf} h e =
      let complete = load_config-IsComplete unmarshal unmarshal_map current stdin h e in
      let (n, f, k) = positive_pos conf.wait_timeout_seconds complete.waits in
      let (m, g, l) = positive_pos conf.poll_interval_milliseconds complete.polls in
      record {
        seconds = n;
        milliseconds = m;
        has_seconds = f;
        has_milliseconds = g;
        some_seconds = k;
        some_milliseconds = l;
        timeout_fits = times-IsInt64 conf.wait_timeout_seconds second;
        interval_fits = times-IsInt64 conf.poll_interval_milliseconds millisecond;
        timeout_exact =
            subst (λ z. (times z second ≡ pos (n * second)) ↔ (n ≤ 9_223_372_036)) (sym f)
              (second_exact n);
        interval_exact =
            subst (λ z. (times z millisecond ≡ pos (m * millisecond)) ↔ (m ≤ 9_223_372_036_854))
              (sym g) (millisecond_exact m);
        ticks = λ few.
            let exact : times (pos m) millisecond ≡ pos (m * millisecond) =
              (millisecond_exact m).1 few in
            rw (g, exact) (ground arith);
      }

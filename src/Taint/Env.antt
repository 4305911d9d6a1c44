-- ===== src/Taint/Env.antt =====
-- The settings of cmd/multivpc-taint-controller/main.go, which come from the environment.
pub mod Laws
use multus_multivpc_cni.Base.{
  Text, text, text_eq, Bool, true, false, not, ◌||◌, Option, none, some, [], ◌∷◌, Result, ok, err,
  ◌==◌, if◌then◌else◌,
}
use multus_multivpc_cni.Base.Int.{ℤ, pos, is_positive}
use multus_multivpc_cni.Base.Strings.{trim_space, to_lower}
use multus_multivpc_cni.Taint.Controller.{Config}

-- `os.Getenv`, which is empty for a variable that is not set, and `time.ParseDuration` in
-- nanoseconds, which reads fractions by floating point.
pub record Env : Type 0 where
  pub getenv : Text → Text
  pub read_duration : Text → Option ℤ

pub data EnvError : Type 0 where
  taint_key_not_set : EnvError
  invalid_taint_effect : Text → EnvError

abbrev pub no_schedule : Text
no_schedule = text "NoSchedule"

abbrev pub prefer_no_schedule : Text
prefer_no_schedule = text "PreferNoSchedule"

abbrev pub no_execute : Text
no_execute = text "NoExecute"

-- Ten seconds.
abbrev pub default_poll_interval : ℤ
default_poll_interval = pos 10_000_000_000

unfoldable pub getenv_default : Env → Text → Text → Text
getenv_default env key default =
    let val = trim_space (env.getenv key) in if val == [] then default else val

abbrev pub is_yes : Text → Bool
is_yes word =
    word == text "1"
    || word == text "true"
    || word == text "yes"
    || word == text "y"
    || word == text "on"

unfoldable pub parse_bool : Text → Bool
parse_bool val = is_yes (to_lower (trim_space val))

unfoldable pub parse_duration : Env → Text → ℤ
parse_duration env val = elim (env.read_duration val) [ none ↦ pos 0 | some d ↦ d ]

-- The switch on TAINT_EFFECT.
unfoldable pub effect_named : Text → Option Text
effect_named word =
    if word == text "noschedule"
    then some no_schedule
    else if word == text "prefernoschedule"
    then some prefer_no_schedule
    else if word == text "noexecute"
    then some no_execute
    else none

unfoldable pub read_effect : Text → Result EnvError Text
unfolding effect_named
read_effect eff =
    if not (eff == [])
    then elim (effect_named (trim_space (to_lower eff))) [
      | some e ↦ ok e
      | none ↦ err (invalid_taint_effect eff)
    ]
    else ok no_schedule

unfoldable pub or_ten_seconds : ℤ → ℤ
or_ten_seconds d = if is_positive d then d else default_poll_interval

-- What is set once the effect is known.
unfoldable pub settings : Env → Text → Config
unfolding getenv_default parse_bool parse_duration or_ten_seconds
settings env effect = record {
  taint_key = getenv_default env (text "TAINT_KEY") (text "multus/not-ready");
  taint_value = getenv_default env (text "TAINT_VALUE") (text "true");
  taint_effect = effect;
  watch_only_tainted = parse_bool (getenv_default env (text "WATCH_ONLY_TAINTED") (text "false"));
  target_node_selector = trim_space (env.getenv (text "TARGET_NODE_SELECTOR"));
  agent_namespace = getenv_default env (text "AGENT_NAMESPACE") (text "kube-system");
  agent_pod_selector =
      getenv_default env (text "AGENT_POD_SELECTOR")
        (text "app.kubernetes.io/name=multus-multivpc-cni");
  poll_interval =
      or_ten_seconds (parse_duration env (getenv_default env (text "POLL_INTERVAL") (text "10s")));
}

unfoldable pub load_config_from_env : Env → Result EnvError Config
unfolding getenv_default read_effect settings
load_config_from_env env =
    if trim_space (getenv_default env (text "TAINT_KEY") (text "multus/not-ready")) == []
    then err taint_key_not_set
    else elim (read_effect (env.getenv (text "TAINT_EFFECT"))) [
      | err e ↦ err e
      | ok effect ↦ ok (settings env effect)
    ]

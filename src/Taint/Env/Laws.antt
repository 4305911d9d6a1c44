-- ===== src/Taint/Env/Laws.antt =====
-- What `loadConfigFromEnv` of cmd/multivpc-taint-controller/main.go returns.
use multus_multivpc_cni.Base.{
  Text, text, text_eq, true, [], ok, err, ◌≡◌, ◌≢◌, ◌⊎◌, ◌↔◌, inl, inr, refl, arith, subst, sym,
  ◌∙◌, nat_eq, Result-cases,
}
use mathlib.Core.Logic.{if_neg}
use multus_multivpc_cni.Base.Int.{is_positive}
use multus_multivpc_cni.Base.Strings.{
  trim_space, to_lower, IsTrimmed, trim_space-IsTrimmed, trim_space_done,
}
use multus_multivpc_cni.Taint.Controller.{Config}
use multus_multivpc_cni.Taint.Env.{
  Env, EnvError, invalid_taint_effect, no_schedule, prefer_no_schedule, no_execute, getenv_default,
  effect_named, read_effect, or_ten_seconds, settings, load_config_from_env,
}

-- A setting that has a value: it is not empty, and has no space at its ends.
pub record IsGiven (t : Text) : Type 0 where
  pub nonempty : t ≢ []
  pub trimmed : IsTrimmed t

default-IsGiven :
    (env : Env) (key default : Text) → IsGiven default → IsGiven (getenv_default env key default)
unfolding getenv_default
default-IsGiven env key default h = ground (arith, trim_space-IsTrimmed (env.getenv key))

-- What the controller relies on.
pub record IsUsable (cfg : Config) : Type 0 where
  pub has_key : IsGiven cfg.taint_key
  pub has_value : IsGiven cfg.taint_value
  pub has_effect :
      (cfg.taint_effect ≡ no_schedule)
      ⊎ ((cfg.taint_effect ≡ prefer_no_schedule) ⊎ (cfg.taint_effect ≡ no_execute))
  pub has_namespace : IsGiven cfg.agent_namespace
  pub has_selector : IsGiven cfg.agent_pod_selector
  pub trimmed_nodes : IsTrimmed cfg.target_node_selector
  pub polls : is_positive cfg.poll_interval ≡ true

-- A setting of the taint's effect that is refused: it is given, and without spaces and capitals it is
-- none of the three words.
pub record IsUnknownEffect (eff : Text) : Type 0 where
  pub given : eff ≢ []
  pub no_word1 : trim_space (to_lower eff) ≢ text "noschedule"
  pub no_word2 : trim_space (to_lower eff) ≢ text "prefernoschedule"
  pub no_word3 : trim_space (to_lower eff) ≢ text "noexecute"

read_effect-err :
    (eff : Text) (e : EnvError)
    → (read_effect eff ≡ err e) ↔ (IsUnknownEffect eff × (e ≡ invalid_taint_effect eff))
unfolding read_effect effect_named
read_effect-err eff e = ground arith

read_effect-ok :
    (eff : Text) {e : Text}
    → read_effect eff ≡ ok e
    → (e ≡ no_schedule) ⊎ ((e ≡ prefer_no_schedule) ⊎ (e ≡ no_execute))
unfolding read_effect effect_named
read_effect-ok eff h = ground arith

key-IsGiven : IsGiven (text "multus/not-ready")
unfolding nat_eq
key-IsGiven = record { nonempty = ground arith; trimmed = record { front = refl; back = refl } }

value-IsGiven : IsGiven (text "true")
unfolding nat_eq
value-IsGiven = record { nonempty = ground arith; trimmed = record { front = refl; back = refl } }

namespace-IsGiven : IsGiven (text "kube-system")
unfolding nat_eq
namespace-IsGiven = record {
  nonempty = ground arith;
  trimmed = record { front = refl; back = refl };
}

selector-IsGiven : IsGiven (text "app.kubernetes.io/name=multus-multivpc-cni")
unfolding nat_eq
selector-IsGiven = record {
  nonempty = ground arith;
  trimmed = record { front = refl; back = refl };
}

settings-IsUsable :
    (env : Env) {effect : Text}
    → read_effect (env.getenv (text "TAINT_EFFECT")) ≡ ok effect
    → IsUsable (settings env effect)
unfolding settings or_ten_seconds
settings-IsUsable env h = record {
  has_key = default-IsGiven env (text "TAINT_KEY") _ key-IsGiven;
  has_value = default-IsGiven env (text "TAINT_VALUE") _ value-IsGiven;
  has_effect = read_effect-ok (env.getenv (text "TAINT_EFFECT")) h;
  has_namespace = default-IsGiven env (text "AGENT_NAMESPACE") _ namespace-IsGiven;
  has_selector = default-IsGiven env (text "AGENT_POD_SELECTOR") _ selector-IsGiven;
  trimmed_nodes = trim_space-IsTrimmed (env.getenv (text "TARGET_NODE_SELECTOR"));
  polls = ground arith;
}

-- The test of TAINT_KEY never fails: the default has been filled in before it.
key_set :
    (env : Env) → trim_space (getenv_default env (text "TAINT_KEY") (text "multus/not-ready")) ≢ []
key_set env e =
    let given = default-IsGiven env (text "TAINT_KEY") _ key-IsGiven in
    given.nonempty (sym (trim_space_done _ given.trimmed) ∙ e)

load_set :
    (env : Env)
    → load_config_from_env env ≡ elim (read_effect (env.getenv (text "TAINT_EFFECT"))) [
      | err e ↦ err e
      | ok effect ↦ ok (settings env effect)
    ]
unfolding load_config_from_env
load_set env = rw (if_neg _ (key_set env)) refl

load_err :
    (env : Env) (e : EnvError)
    → (load_config_from_env env ≡ err e) ↔ (read_effect (env.getenv (text "TAINT_EFFECT")) ≡ err e)
load_err env e = elim (Result-cases (read_effect (env.getenv (text "TAINT_EFFECT")))) [
  | inl (x, h) ↦ ground (arith, load_set env)
  | inr (effect, h) ↦ ground (arith, load_set env)
]

load_ok :
    (env : Env) {cfg : Config}
    → load_config_from_env env ≡ ok cfg
    → (effect : Text) × (read_effect (env.getenv (text "TAINT_EFFECT")) ≡ ok effect)
      × (settings env effect ≡ cfg)
load_ok env l = elim (Result-cases (read_effect (env.getenv (text "TAINT_EFFECT")))) [
  | inl (x, h) ↦ absurd (ground (arith, load_set env))
  | inr (effect, h) ↦ (effect, h, ground (arith, load_set env))
]

-- The settings fail to load exactly if TAINT_EFFECT is given and is none of the three effects, spaces
-- and capitals aside, and with the error that says so; a TAINT_KEY that is left out is no error.
-- Settings that load have a key, a value, a namespace and a selector of Pods without spaces at their
-- ends, one of the three effects, and a positive interval, whatever is left out or cannot be read.
pub load_config_from_env_lem :
    (env : Env)
    → ((e : EnvError)
        → (load_config_from_env env ≡ err e) ↔ (
            IsUnknownEffect (env.getenv (text "TAINT_EFFECT"))
            × (e ≡ invalid_taint_effect (env.getenv (text "TAINT_EFFECT")))))
      × ((cfg : Config) → load_config_from_env env ≡ ok cfg → IsUsable cfg)
load_config_from_env_lem env = (
  λ e. ground (arith, load_err env e, read_effect-err (env.getenv (text "TAINT_EFFECT")) e),
  λ cfg h. let (effect, r, same) = load_ok env h in subst IsUsable same (settings-IsUsable env r),
)

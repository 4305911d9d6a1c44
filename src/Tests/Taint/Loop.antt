-- ===== src/Tests/Taint/Loop.antt =====
-- Runs of the settings and the main loop of cmd/multivpc-taint-controller/main.go.
use multus_multivpc_cni.Base.{
  Text, text, text_eq, nat_eq, false, none, some, List, [], ◌∷◌, ok, err, ◌==◌, if◌then◌else◌, ◌≡◌,
  ◌≢◌, ◌↔◌, refl,
}
use multus_multivpc_cni.Base.Int.{pos, int_eq}
use multus_multivpc_cni.Base.Strings.{trim_space, to_lower}
use multus_multivpc_cni.Kube.Client.{ClientGo}
use multus_multivpc_cni.Taint.{Taint, new_taint}
use multus_multivpc_cni.Taint.Controller.{Config}
use multus_multivpc_cni.Taint.Env.{Env, EnvError, invalid_taint_effect, load_config_from_env}
use multus_multivpc_cni.Taint.Env.Laws.{IsUsable, IsUnknownEffect, load_config_from_env_lem}
use multus_multivpc_cni.Taint.Loop.{IsStopped, ticker_panic, stopping, main, main_lem}
use multus_multivpc_cni.Tests.Taint.{key, value, effect, gpu, cluster, quiet}

-- White space of one, two and three bytes at both ends.
trimmed : trim_space (32 ∷ 0xC2 ∷ 0xA0 ∷ 97 ∷ 32 ∷ 98 ∷ 0xE2 ∷ 0x80 ∷ 0x83 ∷ 10 ∷ []) ≡ text "a b"
unfolding trim_space nat_eq
trimmed = refl

abbrev settings : Text → Env
settings eff = record {
  getenv = λ name. if name == text "TAINT_EFFECT" then eff else [];
  read_duration = λ val. if val == text "10s" then some (pos 10_000_000_000) else none;
}

read :
    load_config_from_env (settings (text " NoExecute "))
    ≡ ok (record {
      taint_key = text "multus/not-ready";
      taint_value = text "true";
      taint_effect = text "NoExecute";
      watch_only_tainted = false;
      target_node_selector = [];
      agent_namespace = text "kube-system";
      agent_pod_selector = text "app.kubernetes.io/name=multus-multivpc-cni";
      poll_interval = pos 10_000_000_000;
    })
unfolding load_config_from_env trim_space to_lower text_eq nat_eq
read = refl

refused : load_config_from_env (settings (text "never")) ≡ err (invalid_taint_effect (text "never"))
unfolding load_config_from_env trim_space to_lower text_eq nat_eq
refused = refl

load_config_from_env_lem_example :
    ((e : EnvError)
      → (load_config_from_env (settings (text "never")) ≡ err e) ↔ (
          IsUnknownEffect ((settings (text "never")).getenv (text "TAINT_EFFECT"))
          × (e ≡ invalid_taint_effect ((settings (text "never")).getenv (text "TAINT_EFFECT")))))
    × ((cfg : Config) → load_config_from_env (settings (text "never")) ≡ ok cfg → IsUsable cfg)
load_config_from_env_lem_example = load_config_from_env_lem (settings (text "never"))

abbrev client_go : ClientGo
client_go = record {
  RestConfig = Text;
  Client = Text;
  Error = Text;
  build_config_from_flags = λ master path. ok path;
  in_cluster_config = ok (text "in-cluster");
  new_for_config = λ cfg. ok cfg;
}

-- Somebody taints the node between two rounds.
abbrev spoil : List Taint → List Taint
spoil taints = new_taint key value effect ∷ taints

main_lem_example :
    (main client_go cluster (settings []) (spoil ∷ []) (gpu ∷ []) ≢ ticker_panic)
    × ((last : List Taint)
        → main client_go cluster (settings []) (spoil ∷ []) (gpu ∷ []) ≡ stopping last
        → IsStopped client_go cluster quiet (settings []) (spoil ∷ []) (gpu ∷ []) last)
main_lem_example = main_lem client_go cluster quiet (settings []) (spoil ∷ []) (gpu ∷ [])

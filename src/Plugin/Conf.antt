-- ===== src/Plugin/Conf.antt =====
-- The configuration of cmd/multus-multivpc-cni/main.go: `pluginConf`, `loadConfig` and
-- `resolveNetworkProfile`.
pub mod Laws
use multus_multivpc_cni.Base.{
  Text, text, text_eq, Bool, true, false, not, ◌&&◌, Option, none, some, List, [], ◌∷◌, Result, ok,
  err, ◌==◌, if◌then◌else◌,
}
use multus_multivpc_cni.Base.Int.{ℤ, pos, is_positive}
use multus_multivpc_cni.Base.Dict.{Dict, lookup}
use multus_multivpc_cni.Plugin.Args.{parse_arg_value}

-- The values of a `map[string]any`: decoded JSON, and CNI results, which can be nil.
mutual
  pub data Value (R : Type 0) : Type 0 where
    null : Value R
    boolean : Bool → Value R
    number string : Text → Value R
    array : Elements R → Value R
    object : Fields R → Value R
    result : Option R → Value R

  pub data Elements (R : Type 0) : Type 0 where
    no_elements : Elements R
    element : Value R → Elements R → Elements R

  pub data Fields (R : Type 0) : Type 0 where
    no_fields : Fields R
    field : Text → Value R → Fields R → Fields R

abbrev pub socket_default : Text
socket_default = text "/run/multivpc-eni-agent.sock"

abbrev pub interface_default : Text
interface_default = text "net1"

abbrev pub cache_dir_default : Text
cache_dir_default = text "/var/lib/cni/multivpc"

abbrev pub annotation_default : Text
annotation_default = text "cni.soracom.io/multus-multivpc-profile"

abbrev pub plugin_name : Text
plugin_name = text "multus-multivpc-cni"

module _ {R : Type 0} where
  unfoldable pub field_of : Text → Fields R → Option (Value R)
  field_of name no_fields = none
  field_of name (field key value fields) =
      let rest = field_of name fields in if name == key then some value else rest

  -- `v.(map[string]any)` and `v.(string)` of a value that may be missing.
  abbrev pub as_object : Option (Value R) → Option (Fields R)
  as_object (some (object fields)) = some fields
  as_object _ = none

  abbrev pub as_string : Option (Value R) → Option Text
  as_string (some (string s)) = some s
  as_string _ = none

-- A map is nil or holds its entries; `runtime_config` is the field that `loadConfig` fills in.
pub record PluginConf (R : Type 0) : Type 0 where
  pub cni_version : Text
  pub name : Text
  pub socket_path : Text
  pub interface_name : Text
  pub cache_dir : Text
  pub network_profile : Text
  pub network_profile_annotation : Text
  pub network_profile_arg : Text
  pub network_profile_default : Text
  pub delegate : Option (Dict (Value R))
  pub post_delegates : List (Option (Dict (Value R)))
  pub wait_timeout_seconds : ℤ
  pub poll_interval_milliseconds : ℤ
  pub runtime_config : Option (Fields R)

abbrev pub or_default : Text → Text → Text
or_default t d = if t == [] then d else t

abbrev pub or_positive : ℤ → ℤ → ℤ
or_positive n d = if is_positive n then n else d

module _ {R : Type 0} where
  -- The fields that `loadConfig` fills in, with the CNI library's current version.
  unfoldable pub with_defaults : Text → PluginConf R → PluginConf R
  with_defaults current conf = record conf {
    socket_path = or_default conf.socket_path socket_default;
    interface_name = or_default conf.interface_name interface_default;
    cache_dir = or_default conf.cache_dir cache_dir_default;
    network_profile_annotation = or_default conf.network_profile_annotation annotation_default;
    cni_version = or_default conf.cni_version current;
    wait_timeout_seconds = or_positive conf.wait_timeout_seconds (pos 60);
    poll_interval_milliseconds = or_positive conf.poll_interval_milliseconds (pos 200);
    name = plugin_name;
  }

module _ {R J : Type 0} where
  -- `raw["runtimeConfig"].(map[string]any)`, where the second decoding succeeds.
  unfoldable pub with_runtime : Result J (Option (Fields R)) → PluginConf R → PluginConf R
  with_runtime (ok (some raw)) conf = elim (as_object (field_of (text "runtimeConfig") raw)) [
    | none ↦ conf
    | some rc ↦ record conf { runtime_config = some rc }
  ]
  with_runtime (ok none) conf = conf
  with_runtime (err e) conf = conf

  -- `json.Unmarshal` at the two types, and `version.Current()`, are parameters.
  unfoldable pub load_config :
      (Text → Result J (PluginConf R))
      → (Text → Result J (Option (Fields R)))
      → Text
      → Text
      → Result J (PluginConf R)
  unfolding with_runtime with_defaults
  load_config unmarshal unmarshal_map current stdin = elim (unmarshal stdin) [
    | err e ↦ err e
    | ok conf ↦ ok (with_defaults current (with_runtime (unmarshal_map stdin) conf))
  ]

module _ {R : Type 0} where
  unfoldable pub profile_in : Fields R → Text → Text
  unfolding field_of
  profile_in runtime annotation = elim (as_object (field_of (text "k8s") runtime)) [
    | none ↦ []
    | some k8s ↦ elim (as_object (field_of (text "podAnnotations") k8s)) [
      | none ↦ []
      | some annotations ↦ elim (as_string (field_of annotation annotations)) [
        | none ↦ []
        | some profile ↦ profile
      ]
    ]
  ]

  unfoldable pub profile_from_runtime : PluginConf R → Text → Text
  unfolding profile_in
  profile_from_runtime conf annotation = elim conf.runtime_config [
    | none ↦ []
    | some runtime ↦ profile_in runtime annotation
  ]

  -- The error that `resolveNetworkProfile` also returns is always nil.
  unfoldable pub resolve_network_profile : PluginConf R → Text → Text
  unfolding profile_from_runtime
  resolve_network_profile conf args =
      let ann = profile_from_runtime conf conf.network_profile_annotation in
      let val = parse_arg_value args conf.network_profile_arg in
      if not (conf.network_profile == [])
      then conf.network_profile
      else if not (ann == [])
      then ann
      else if not (conf.network_profile_arg == []) && not (val == [])
      then val
      else conf.network_profile_default

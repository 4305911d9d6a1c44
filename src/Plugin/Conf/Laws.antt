-- ===== src/Plugin/Conf/Laws.antt =====
-- What `loadConfig` and `resolveNetworkProfile` of cmd/multus-multivpc-cni/main.go return.
use multus_multivpc_cni.Base.{
  Text, text_eq, true, Option, List, [], ◌∷◌, Result, ok, ◌==◌, if◌then◌else◌, ◌≡◌, ◌≢◌, arith,
}
use multus_multivpc_cni.Base.Int.{is_positive}
use multus_multivpc_cni.Plugin.Args.{parse_arg_value}
use multus_multivpc_cni.Plugin.Conf.{
  Fields, PluginConf, plugin_name, with_defaults, load_config, profile_from_runtime,
  resolve_network_profile,
}

-- What a loaded configuration always has.
pub record IsComplete {R : Type 0} (conf : PluginConf R) : Type 0 where
  pub has_socket : conf.socket_path ≢ []
  pub has_interface : conf.interface_name ≢ []
  pub has_cache_dir : conf.cache_dir ≢ []
  pub has_annotation : conf.network_profile_annotation ≢ []
  pub has_version : conf.cni_version ≢ []
  pub waits : is_positive conf.wait_timeout_seconds ≡ true
  pub polls : is_positive conf.poll_interval_milliseconds ≡ true
  pub named : conf.name ≡ plugin_name

module _ {R : Type 0} where
  with_defaults-IsComplete :
      (current : Text) (conf : PluginConf R)
      → current ≢ []
      → IsComplete (with_defaults current conf)
  unfolding with_defaults
  with_defaults-IsComplete current conf h = ground arith

module _ {R J : Type 0} where
  -- A configuration that loads is complete, whatever the input leaves out, as long as the CNI library
  -- has a current version: its socket, interface, cache directory, annotation and version are not
  -- empty, its timeout and interval are positive, and it has the plugin's name.
  pub load_config-IsComplete :
      (unmarshal : Text → Result J (PluginConf R))
      (unmarshal_map : Text → Result J (Option (Fields R))) (current stdin : Text)
      {conf : PluginConf R}
      → current ≢ []
      → load_config unmarshal unmarshal_map current stdin ≡ ok conf
      → IsComplete conf
  unfolding load_config
  load_config-IsComplete unmarshal unmarshal_map current stdin h e =
      ground (arith, with_defaults-IsComplete current)

-- The first text that is not empty; empty if there is none.
pub first_nonempty : List Text → Text
first_nonempty [] = []
first_nonempty (t ∷ ts) = let rest = first_nonempty ts in if t == [] then rest else t

-- The profile is the first that is not empty of: the configured one, the Pod's annotation, the CNI
-- argument that the configuration names, and the configured default.
resolve_network_profile_lem :
    {R : Type 0} (conf : PluginConf R) (args : Text)
    → resolve_network_profile conf args
      ≡ first_nonempty (
          conf.network_profile
          ∷ profile_from_runtime conf conf.network_profile_annotation
          ∷ (if conf.network_profile_arg == []
              then []
              else parse_arg_value args conf.network_profile_arg)
          ∷ conf.network_profile_default
          ∷ [])
unfolding resolve_network_profile first_nonempty
resolve_network_profile_lem conf args = ground arith

-- ===== src/Tests/Plugin.antt =====
-- Runs of the CNI plugin of cmd/multus-multivpc-cni/main.go.
mod Commands
mod Details
use multus_multivpc_cni.Plugin.Times.{poll_interval}
use multus_multivpc_cni.Plugin.Times.Laws.{IsTimed, load_config-IsTimed}
use multus_multivpc_cni.Base.{
  ℕ, zero, suc, Bool, ◌<◌, Text, text, text_eq, nat_eq, true, false, not, ◌&&◌, Option, none, some,
  List, [], ◌∷◌, ◌++◌, Result, ok, err, ◌==◌, if◌then◌else◌, ◌≡◌, ◌≢◌, ◌↔◌, refl, arith, All,
}
use multus_multivpc_cni.Base.Int.{pos, negsuc}
use multus_multivpc_cni.Base.Dict.{lookup, insert}
use multus_multivpc_cni.Agent.Messages.{GetStatusRequest, InterfaceState}
use multus_multivpc_cni.Agent.Handlers.{report_response, release_response}
use multus_multivpc_cni.Plugin.Calls.{
  Host, out_of_fuel, is_usable, status_request, wait_for_attached_state, wait_for_host_interface,
}
use multus_multivpc_cni.Plugin.Calls.Laws.{
  HasDeadline, IsLink, wait_for_attached_state_lem, wait_for_host_interface_lem,
}
use multus_multivpc_cni.Plugin.Args.{parse_arg_value}
use multus_multivpc_cni.Plugin.Args.Laws.{print_args, value_of, IsPrintable, parse_arg_value-print}
use multus_multivpc_cni.Plugin.Names.{
  sanitize_component, truncate_id, match_container, cache_file_name,
}
use multus_multivpc_cni.Plugin.Names.Laws.{
  IsSafe, sanitize_component_lem, cache_file_name_lem, match_container_iff,
}
use multus_multivpc_cni.Plugin.Cache.{CacheEntry, FileSystem, Codec, read_cache_entry, read_entry}
use multus_multivpc_cni.Plugin.Cache.Laws.{IsCache, answer, first_match, read_cache_entry_lem}
use multus_multivpc_cni.Plugin.Conf.{
  Fields, no_fields, string, PluginConf, load_config, resolve_network_profile, profile_from_runtime,
}
use multus_multivpc_cni.Plugin.Conf.Laws.{IsComplete, first_nonempty, load_config-IsComplete}
use multus_multivpc_cni.Plugin.Delete.{World, cmd_del}
use multus_multivpc_cni.Plugin.Delete.Laws.{finish_del, cmd_del_lem}
use multus_multivpc_cni.Plugin.Delegates.{
  Cni, base_delegate, configure_delegate, or_empty, run_delegate_del_chain,
}
use multus_multivpc_cni.Plugin.Delegates.Laws.{or_else, default_of, configure_delegate_lem}
use multus_multivpc_cni.Plugin.Delegates.Chain.{
  backwards, posts_of, take_down, run_delegate_del_chain_lem,
}

abbrev arguments : List (Text × Text)
arguments = (text "IgnoreUnknown", text "1") ∷ (text "PROFILE", text "green=1") ∷ []

arguments-IsPrintable : All IsPrintable arguments
arguments-IsPrintable = ground arith

parse_arg_value-print_example :
    parse_arg_value (print_args arguments) (text "PROFILE") ≡ value_of (text "PROFILE") arguments
parse_arg_value-print_example =
    parse_arg_value-print (text "PROFILE") arguments arguments-IsPrintable

-- A rune of several bytes becomes one underscore.
sanitized : sanitize_component (b'a' ∷ 0xC3 ∷ 0xA9 ∷ b'/' ∷ []) ≡ text "a__"
unfolding sanitize_component nat_eq text_eq
sanitized = refl

cache_file_name_lem_example :
    (stem : Text) × (cache_file_name (text "uid-1") (text "../x") (text "0123456789abcdef")
      ≡ stem ++ text ".cache")
    × IsSafe stem
    × (stem ≢ [])
cache_file_name_lem_example =
    cache_file_name_lem (text "uid-1") (text "../x") (text "0123456789abcdef")

abbrev entry : Text → CacheEntry
entry interface = record {
  pod_uid = text "uid-1";
  pod_name = text "web";
  namespace = text "default";
  network_profile = text "green";
  interface_name = interface;
  container_id = text "c1";
}

-- One directory of two files that cannot change; a file holds the name of its interface.
abbrev disk : FileSystem
disk = record {
  State = Unit {0};
  Error = Text;
  mkdir_all = λ dir s. (ok tt, s);
  read_dir = λ dir s. (ok (text "a" ∷ text "b" ∷ []), s);
  read_file = λ dir name s. (ok (if name == text "a" then text "net1" else text "net2"), s);
  write_file = λ dir name bytes s. (err (text "read only"), s);
  remove = λ dir name s. (err (text "read only"), s);
  is_not_exist = λ e. false;
}

abbrev codec : Codec
codec = record {
  Error = Text;
  marshal = λ e. ok e.interface_name;
  unmarshal = λ bytes. ok (entry bytes);
}

abbrev files : List (Text × CacheEntry)
files = (text "a", entry (text "net1")) ∷ (text "b", entry (text "net2")) ∷ []

disk-IsCache : IsCache disk codec (text "/cache") tt files
unfolding read_entry text_eq
disk-IsCache = record { listed = refl; readable = (refl, (refl, tt)) }

read_cache_entry_lem_example :
    read_cache_entry disk codec (text "/cache") (text "c1") tt
    ≡ answer disk codec (text "/cache") (first_match (text "c1") files) tt
read_cache_entry_lem_example =
    read_cache_entry_lem disk codec (text "/cache") (text "c1") tt files disk-IsCache

abbrev empty_conf : PluginConf (Unit {0})
empty_conf = record {
  cni_version = [];
  name = [];
  socket_path = [];
  interface_name = [];
  cache_dir = [];
  network_profile = [];
  network_profile_annotation = [];
  network_profile_arg = text "PROFILE";
  network_profile_default = [];
  delegate = some ((text "mode", string (text "l2")) ∷ []);
  post_delegates = some ((text "type", string (text "sbr")) ∷ []) ∷ none ∷ [];
  wait_timeout_seconds = pos 0;
  poll_interval_milliseconds = pos 0;
  runtime_config = none;
}

abbrev unmarshal : Text → Result Text (PluginConf (Unit {0}))
unmarshal stdin = ok empty_conf

abbrev unmarshal_map : Text → Result Text (Option (Fields (Unit {0})))
unmarshal_map stdin = ok (some no_fields)

load_config_succeeds :
    (conf : PluginConf (Unit {0})) × (load_config unmarshal unmarshal_map (text "1.0.0") (text "{}")
      ≡ ok conf)
unfolding load_config
load_config_succeeds = (_, refl)

load_config-IsComplete_example : IsComplete load_config_succeeds.0
load_config-IsComplete_example =
    load_config-IsComplete unmarshal unmarshal_map (text "1.0.0") (text "{}") (ground arith)
      load_config_succeeds.1

load_config-IsTimed_example : IsTimed load_config_succeeds.0
load_config-IsTimed_example =
    load_config-IsTimed unmarshal unmarshal_map (text "1.0.0") (text "{}") (ground arith)
      load_config_succeeds.1

-- The longest interval in milliseconds is one that the ticker takes; one more wraps around.
longest :
    poll_interval (record empty_conf { poll_interval_milliseconds = pos 9_223_372_036_854 })
    ≡ pos 9_223_372_036_854_000_000
unfolding poll_interval
longest = refl

too_long :
    poll_interval (record empty_conf { poll_interval_milliseconds = pos 9_223_372_036_855 })
    ≡ negsuc 9_223_372_036_854_551_615
unfolding poll_interval
too_long = refl

configure_delegate_lem_example :
    lookup (text "type") (
      configure_delegate
        (text "1.0.0")
        (some empty_conf)
        (text "eth1")
        empty_conf.delegate
        (text "ipvlan-a"))
    ≡ (if text "type" == text "master" && not (text "eth1" == [])
        then some (string (text "eth1"))
        else or_else
            (lookup (text "type") (or_empty empty_conf.delegate))
            (default_of empty_conf (text "ipvlan-a") (text "type")))
configure_delegate_lem_example =
    configure_delegate_lem (text "1.0.0") empty_conf (text "eth1") empty_conf.delegate
      (text "ipvlan-a") (text "type")

-- The state counts the calls.
abbrev cni : Cni
cni = record {
  State = ℕ;
  Error = Text;
  Res = Unit {0};
  Current = Unit {0};
  version = text "1.0.0";
  new_result = λ res. ok res;
  set_version = λ v c. c;
  marshal = λ conf. ok (text "{}");
  delegate_add = λ typ conf s. (ok tt, suc s);
  delegate_del = λ typ conf s. (ok tt, suc s);
}

run_delegate_del_chain_lem_example :
    run_delegate_del_chain cni empty_conf (text "eth1") 0
    ≡ take_down cni
        (backwards cni (
          base_delegate cni empty_conf (text "eth1")
          ∷ posts_of cni empty_conf (text "eth1") empty_conf.post_delegates))
        0
run_delegate_del_chain_lem_example = run_delegate_del_chain_lem cni empty_conf (text "eth1") 0

-- Both delegates are called.
taken_down : run_delegate_del_chain cni empty_conf (text "eth1") 0 ≡ (ok tt, 2)
unfolding run_delegate_del_chain text_eq lookup insert
taken_down = refl

-- ===== src/Plugin/Delete.antt =====
-- `cmdDel` of cmd/multus-multivpc-cni/main.go.
pub mod Calm
pub mod TornDown
pub mod Laws
use multus_multivpc_cni.Base.{
  ℕ, Text, text, text_eq, Bool, true, false, not, Option, none, some, List, [], ◌∷◌, ◌++◌, Result,
  ok, err, ◌==◌, if◌then◌else◌,
}
use multus_multivpc_cni.Base.Int.{ℤ, pos}
use multus_multivpc_cni.Agent.Messages.{ReleaseRequest, InterfaceState}
use multus_multivpc_cni.Plugin.Cache.{
  CacheEntry, FileSystem, Codec, CacheError, file_error, not_exist, read_cache_entry,
}
use multus_multivpc_cni.Plugin.Conf.{Fields, PluginConf, load_config}
use multus_multivpc_cni.Plugin.Delegates.{Cni, run_delegate_del_chain}
use multus_multivpc_cni.Plugin.Times.{wait_timeout, poll_interval}
use multus_multivpc_cni.Plugin.Calls.{
  Host, CallError, ticker_panic, status_request, call_release, wait_for_attached_state,
  wait_for_host_interface,
}

-- All that the command works on. The state of each part can be read from the whole, and written to
-- it; a parent context is an option.
pub record World : Type 1 where
  pub State : Type 0
  pub host : Host
  pub cni : Cni
  pub fs : FileSystem
  pub codec : Codec
  pub host_of : State → host.State
  pub with_host : host.State → State → State
  pub cni_of : State → cni.State
  pub with_cni : cni.State → State → State
  pub fs_of : State → fs.State
  pub with_fs : fs.State → State → State
  -- `json.Unmarshal` at the type of the configuration, and as a map.
  pub ConfError : Type 0
  pub unmarshal : Text → Result ConfError (PluginConf cni.Current)
  pub unmarshal_map : Text → Result ConfError (Option (Fields cni.Current))
  -- `grpc.NewClient` for a target, with or without success.
  pub new_client : Text → State → Bool × State
  -- `context.WithTimeout`, in nanoseconds.
  pub with_timeout : Option host.Context → ℤ → State → host.Context

-- `loadConfig`, and `dialAgent`, whose dialer takes the path back from the target.
unfoldable pub load_conf : (w : World) → Text → Result w.ConfError (PluginConf w.cni.Current)
load_conf w stdin = load_config w.unmarshal w.unmarshal_map w.cni.version stdin

unfoldable pub dial_agent : (w : World) → Text → w.State → Bool × w.State
dial_agent w socket_path s = w.new_client (text "unix://" ++ socket_path) s

pub data DelError (C E J : Type 0) : Type 0 where
  load_failed : C → DelError C E J
  cache_failed : CacheError E J → DelError C E J
  remove_failed : E → DelError C E J
  -- Not an error of the program: the panic of a ticker, which ends the process.
  panicked : DelError C E J

module _ (w : World) (rounds : ℕ) where
  abbrev pub Conf : Type 0
  Conf = PluginConf w.cni.Current

  abbrev pub Error : Type 0
  Error = DelError w.ConfError w.fs.Error w.codec.Error

  abbrev pub Deleted : Type 0
  Deleted = Result Error (Unit {0}) × w.State

  -- `errors.Is(err, os.ErrNotExist)`
  abbrev pub is_missing : CacheError w.fs.Error w.codec.Error → Bool
  is_missing not_exist = true
  is_missing (file_error e) = w.fs.is_not_exist e
  is_missing _ = false

  -- What a wait has found; its errors are dropped, but a panic is none.
  abbrev pub found_by : {A : Type 0} → Result (CallError w.host.Error) A → Result Error (Option A)
  found_by (ok x) = ok (some x)
  found_by (err ticker_panic) = err panicked
  found_by (err _) = ok none

  -- The interface of the host with the MAC address of a state; empty if the wait finds none.
  unfoldable pub link_name :
      Conf → w.host.Context → InterfaceState → w.State → Result Error Text × w.State
  link_name conf ctx st s =
      if st.mac_address == []
      then (ok [], s)
      else let (r, h) =
          wait_for_host_interface w.host rounds ctx st.mac_address (poll_interval conf)
            (w.host_of s) in
        let s' = w.with_host h s in
        elim (found_by r) [
          | err e ↦ (err e, s')
          | ok none ↦ (ok [], s')
          | ok (some name) ↦ (ok name, s')
        ]

  -- The best-effort lookup of the master, once the agent is dialled.
  unfoldable pub find_master :
      Conf → w.host.Context → CacheEntry → w.State → Result Error Text × w.State
  unfolding link_name
  find_master conf ctx entry s =
      let lookup_ctx = w.with_timeout (some ctx) (pos 5_000_000_000) s in
      let req = status_request entry.pod_uid entry.interface_name entry.network_profile in
      let (r, h) =
        wait_for_attached_state w.host rounds lookup_ctx req (poll_interval conf) (w.host_of s) in
      let s' = w.with_host h s in
      elim (found_by r) [
        | err e ↦ (err e, s')
        | ok none ↦ (ok [], s')
        | ok (some st) ↦ link_name conf ctx st s'
      ]

  abbrev pub release_request : CacheEntry → ReleaseRequest
  release_request entry = record {
    node_name = [];
    namespace = entry.namespace;
    pod_name = entry.pod_name;
    pod_uid = entry.pod_uid;
    interface_name = entry.interface_name;
    network_profile = entry.network_profile;
  }

  -- What is done with the delegates and the agent; their errors are logged.
  abbrev pub tear_down : Conf → Text → w.State → w.State
  tear_down conf master s = w.with_cni (run_delegate_del_chain w.cni conf master (w.cni_of s)).1 s

  abbrev pub tell_agent : CacheEntry → w.State → w.State
  tell_agent entry s = w.with_host (call_release w.host (release_request entry) (w.host_of s)).1 s

  unfoldable pub del_found : Conf → CacheEntry → w.State → Deleted
  unfolding find_master wait_timeout dial_agent
  del_found conf entry s =
      let ctx = w.with_timeout none (wait_timeout conf) s in
      let (dialled, s1) = dial_agent w conf.socket_path s in
      if dialled
      then (let (r, s2) = find_master conf ctx entry s1 in
          elim r [
            | err e ↦ (err e, s2)
            | ok master ↦ (ok tt, tell_agent entry (tear_down conf master s2))
          ])
      else (ok tt, tear_down conf [] s1)

  -- The last step: the removal of the file.
  unfoldable pub remove_cached : Conf → Text → w.State → Deleted
  remove_cached conf name s =
      let (r, f) = w.fs.remove conf.cache_dir name (w.fs_of s) in
      let s' = w.with_fs f s in elim r [ err e ↦ (err (remove_failed e), s') | ok _ ↦ (ok tt, s') ]

  unfoldable pub del_loaded : Conf → Text → w.State → Deleted
  unfolding del_found remove_cached
  del_loaded conf container_id s =
      let (r, f) = read_cache_entry w.fs w.codec conf.cache_dir container_id (w.fs_of s) in
      let s' = w.with_fs f s in
      elim r [
        | err e ↦ if is_missing e then (ok tt, s') else (err (cache_failed e), s')
        | ok (entry, name) ↦
            let (done, s2) = del_found conf entry s' in
            elim done [ err e ↦ (err e, s2) | ok _ ↦ remove_cached conf name s2 ]
      ]

  unfoldable pub cmd_del : Text → Text → w.State → Deleted
  unfolding del_loaded load_conf
  cmd_del stdin container_id s = elim (load_conf w stdin) [
    | err e ↦ (err (load_failed e), s)
    | ok conf ↦ del_loaded conf container_id s
  ]

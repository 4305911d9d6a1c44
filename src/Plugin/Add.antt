-- ===== src/Plugin/Add.antt =====
-- `cmdAdd` of cmd/multus-multivpc-cni/main.go.
pub mod Laws
pub mod Undo
pub mod Reports
use multus_multivpc_cni.Base.{
  ℕ, Text, text, text_eq, Bool, true, false, not, Option, none, some, List, [], ◌∷◌, map, Result,
  ok, err, ◌==◌, if◌then◌else◌,
}
use multus_multivpc_cni.Base.Programs.{M, check, pure, fail, ◌>>=◌, ◌>>◌}
use multus_multivpc_cni.Agent.Messages.{ReportRequest, InterfaceState}
use multus_multivpc_cni.Plugin.Cache.{CacheEntry, CacheError, write_cache_entry}
use multus_multivpc_cni.Plugin.Conf.{PluginConf, interface_default, resolve_network_profile}
use multus_multivpc_cni.Plugin.Delegates.{DelegateError, run_delegate_chain}
use multus_multivpc_cni.Plugin.Times.{wait_timeout, poll_interval}
use multus_multivpc_cni.Plugin.Calls.{
  Host, CallError, status_request, call_report, wait_for_attached_state, wait_for_host_interface,
}
use multus_multivpc_cni.Plugin.Details.{CurrentResult, collect_interface_details}
use multus_multivpc_cni.Netns.{Ip, InterfaceInfo, NsLib, inspect_interface}
use multus_multivpc_cni.Plugin.Delete.{World, load_conf, dial_agent}

-- `skel.CmdArgs`, and the fields of `kubernetesArgs` that ADD reads.
pub record CmdArgs : Type 0 where
  pub stdin_data : Text
  pub if_name : Text
  pub args : Text
  pub container_id : Text
  pub netns : Text

pub record KubernetesArgs : Type 0 where
  pub pod_name : Text
  pub pod_namespace : Text
  pub pod_uid : Text
  pub node_name : Text

-- What ADD uses beside the world of DEL: the CNI library's arguments and results, the
-- libraries for network namespaces, and the printed forms of addresses.
pub record AddWorld : Type 1 where
  pub world : World
  pub Error : Type 0
  pub load_args : Text → Result Error KubernetesArgs
  pub ns : NsLib
  pub ns_of : world.State → ns.State
  pub with_ns : ns.State → world.State → world.State
  pub current : world.cni.Res → Result Error CurrentResult
  pub ip_string : Ip → Text
  pub mac_string : Text → Text
  pub print_result : world.cni.Res → Text → world.State → Result Error (Unit {0}) × world.State

pub data AddError (a : AddWorld) : Type 0 where
  load_failed : a.world.ConfError → AddError a
  args_failed details_failed print_failed : a.Error → AddError a
  no_profile dial_failed : AddError a
  call_failed : CallError a.world.host.Error → AddError a
  delegate_failed : DelegateError a.world.cni.Error → AddError a
  cache_failed : CacheError a.world.fs.Error a.world.codec.Error → AddError a

module _ (a : AddWorld) (rounds : ℕ) where
  abbrev pub Conf : Type 0
  Conf = PluginConf a.world.cni.Current

  abbrev pub Add : Type 0 → Type 0
  Add A = M a.world.State (AddError a) A

  abbrev pub on_host :
      {A : Type 0}
      → (a.world.host.State → Result (CallError a.world.host.Error) A × a.world.host.State)
      → Add A
  on_host call s =
      let (r, h) = call (a.world.host_of s) in check call_failed r (a.world.with_host h s)

  abbrev pub interface_of : CmdArgs → Conf → Text
  interface_of args conf =
      if not (args.if_name == [])
      then args.if_name
      else if not (conf.interface_name == [])
      then conf.interface_name
      else interface_default

  abbrev pub prep_request : CmdArgs → KubernetesArgs → Text → Text → ReportRequest
  prep_request args k8s if_name profile = record {
    node_name = k8s.node_name;
    namespace = k8s.pod_namespace;
    pod_name = k8s.pod_name;
    pod_uid = k8s.pod_uid;
    container_id = args.container_id;
    interface_name = if_name;
    network_profile = profile;
    ipv4_addresses = [];
    ipv6_addresses = [];
    mac_address = [];
  }

  abbrev pub ips_to_strings : List Ip → List Text
  ips_to_strings [] = []
  ips_to_strings (ip ∷ ips) = a.ip_string ip ∷ ips_to_strings ips

  abbrev pub report_request : ReportRequest → InterfaceInfo → List Ip → List Ip → ReportRequest
  report_request prep iface ipv4 ipv6 = record prep {
    ipv4_addresses = ips_to_strings ipv4;
    ipv6_addresses = ips_to_strings ipv6;
    mac_address = a.mac_string iface.hardware;
  }

  abbrev pub entry_of : ReportRequest → CacheEntry
  entry_of req = record {
    pod_uid = req.pod_uid;
    pod_name = req.pod_name;
    namespace = req.namespace;
    network_profile = req.network_profile;
    interface_name = req.interface_name;
    container_id = req.container_id;
  }

  abbrev pub write_cache : Conf → CacheEntry → Add (Unit {0})
  write_cache conf entry s =
      let (r, f) =
        write_cache_entry a.world.fs a.world.codec conf.cache_dir entry (a.world.fs_of s) in
      check cache_failed r (a.world.with_fs f s)

  abbrev pub delegate_chain : Conf → Text → Add a.world.cni.Res
  delegate_chain conf master s =
      let (r, c) = run_delegate_chain a.world.cni conf master (a.world.cni_of s) in
      check delegate_failed r (a.world.with_cni c s)

  abbrev pub collect : CmdArgs → Text → a.world.cni.Res → Add (InterfaceInfo × (List Ip × List Ip))
  collect args if_name res s = elim (a.current res) [
    | err e ↦ (err (details_failed e), s)
    | ok cur ↦
        let (inspected, n) = inspect_interface a.ns args.netns if_name (a.ns_of s) in
        check details_failed (collect_interface_details if_name (ok cur) inspected) (a.with_ns n s)
  ]

  abbrev pub print : Conf → a.world.cni.Res → Add (Unit {0})
  print conf res s = let (r, s') = a.print_result res conf.cni_version s in check print_failed r s'

  abbrev pub new_context : Conf → Add a.world.host.Context
  new_context conf s = (ok (a.world.with_timeout none (wait_timeout conf) s), s)

  abbrev pub dial : Conf → Add (Unit {0})
  dial conf s =
      let (dialled, s') = dial_agent a.world conf.socket_path s in
      if dialled then (ok tt, s') else (err dial_failed, s')

  abbrev pub report : ReportRequest → Add (Unit {0})
  report req = on_host (call_report a.world.host req)

  abbrev pub wait_for_state : Conf → a.world.host.Context → ReportRequest → Add InterfaceState
  wait_for_state conf ctx prep = on_host (
      wait_for_attached_state a.world.host rounds ctx
        (status_request prep.pod_uid prep.interface_name prep.network_profile) (poll_interval conf))

  abbrev pub wait_for_host : Conf → a.world.host.Context → Text → Add Text
  wait_for_host conf ctx mac =
      on_host (wait_for_host_interface a.world.host rounds ctx mac (poll_interval conf))

  -- What follows once the addresses are known.
  unfoldable pub add_reported : Conf → ReportRequest → a.world.cni.Res → Add (Unit {0})
  add_reported conf req res = do report req; write_cache conf (entry_of req); print conf res

  -- The steps before, each with all that follows it.
  unfoldable pub add_delegated : CmdArgs → Conf → ReportRequest → a.world.cni.Res → Add (Unit {0})
  unfolding add_reported
  add_delegated args conf prep res = do
    (iface, (ipv4, ipv6)) ← collect args prep.interface_name res
    add_reported conf (report_request prep iface ipv4 ipv6) res

  unfoldable pub add_linked : CmdArgs → Conf → ReportRequest → Text → Add (Unit {0})
  unfolding add_delegated
  add_linked args conf prep master = do
    res ← delegate_chain conf master
    add_delegated args conf prep res

  unfoldable pub add_attached :
      CmdArgs → Conf → ReportRequest → a.world.host.Context → InterfaceState → Add (Unit {0})
  unfolding add_linked
  add_attached args conf prep ctx state = do
    master ← wait_for_host conf ctx state.mac_address
    add_linked args conf prep master

  unfoldable pub add_dialled :
      CmdArgs → Conf → ReportRequest → a.world.host.Context → Add (Unit {0})
  unfolding add_attached
  add_dialled args conf prep ctx = do
    report prep
    state ← wait_for_state conf ctx prep
    add_attached args conf prep ctx state

  -- What follows the checks of the input.
  unfoldable pub add_prepared : CmdArgs → Conf → ReportRequest → Add (Unit {0})
  unfolding add_dialled
  add_prepared args conf prep = do ctx ← new_context conf; dial conf; add_dialled args conf prep ctx

  -- What follows the parsed arguments, and the configuration.
  unfoldable pub add_checked : CmdArgs → Conf → KubernetesArgs → Add (Unit {0})
  unfolding add_prepared
  add_checked args conf k8s =
      let profile = resolve_network_profile conf args.args in
      if profile == []
      then fail no_profile
      else add_prepared args conf (prep_request args k8s (interface_of args conf) profile)

  unfoldable pub add_loaded : CmdArgs → Conf → Add (Unit {0})
  unfolding add_checked
  add_loaded args conf = do
    k8s ← check args_failed (a.load_args args.args)
    add_checked args conf k8s

  unfoldable pub cmd_add : CmdArgs → Add (Unit {0})
  unfolding add_loaded
  cmd_add args = do
    conf ← check load_failed (load_conf a.world args.stdin_data)
    add_loaded args conf

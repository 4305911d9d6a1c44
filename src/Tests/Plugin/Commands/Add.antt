-- ===== src/Tests/Plugin/Commands/Add.antt =====
-- A run of `cmdAdd` of cmd/multus-multivpc-cni/main.go.
use multus_multivpc_cni.Base.{
  ℕ, Text, text, text_eq, nat_eq, Bool, true, false, [], ok, err, ◌≡◌, refl, none, ◌==◌,
}
use multus_multivpc_cni.Base.Dict.{lookup, insert}
use multus_multivpc_cni.Plugin.Conf.{resolve_network_profile}
use multus_multivpc_cni.Plugin.Cache.{FileSystem, write_cache_entry}
use multus_multivpc_cni.Plugin.Times.{poll_interval}
use multus_multivpc_cni.Plugin.Calls.{
  call_report, poll_attached_state, wait_for_attached_state, wait_for_host_interface,
}
use multus_multivpc_cni.Plugin.Delegates.{run_delegate_chain}
use multus_multivpc_cni.Plugin.Details.{collect_interface_details}
use multus_multivpc_cni.Netns.{NsLib, inspect_interface}
use multus_multivpc_cni.Base.Int.{pos}
use multus_multivpc_cni.Plugin.Conf.{load_config}
use multus_multivpc_cni.Plugin.Delete.{load_conf, dial_agent}
use multus_multivpc_cni.Plugin.Add.Reports.{IsTold, cmd_add_reports}
use multus_multivpc_cni.Plugin.Add.{CmdArgs, AddWorld, cmd_add}
use multus_multivpc_cni.Plugin.Add.Laws.{IsAdded}
use multus_multivpc_cni.Tests.Plugin.{codec, cni, empty_conf}
use multus_multivpc_cni.Tests.Plugin.Commands.{host}

-- The state of the disk tells whether the cached result was written.
abbrev blank_disk : FileSystem
blank_disk = record {
  State = Bool;
  Error = Text;
  mkdir_all = λ dir s. (ok tt, s);
  read_dir = λ dir s. (ok [], s);
  read_file = λ dir name s. (err (text "no such file"), s);
  write_file = λ dir name bytes s. (ok tt, true);
  remove = λ dir name s. (ok tt, false);
  is_not_exist = λ e. true;
}

-- A host without namespaces.
abbrev pub no_namespaces : NsLib
no_namespaces = record {
  State = Unit {0};
  Error = Text;
  Handle = Unit {0};
  Link = Unit {0};
  hardware_addr = λ link. [];
  mtu = λ link. pos 0;
  get_ns = λ path s. (err (text "no such namespace"), s);
  enter = λ h s. (ok tt, s);
  leave = λ h s. s;
  close = λ h s. s;
  link_by_name = λ name s. (err (text "no such link"), s);
  addr_list = λ link s. (ok [], s);
}

abbrev add_world : AddWorld
add_world = record {
  world = record {
    State = Bool × (ℕ × ℕ);
    host = host;
    cni = cni;
    fs = blank_disk;
    codec = codec;
    host_of = λ (f, (c, h)). h;
    with_host = λ h (f, (c, _)). (f, (c, h));
    cni_of = λ (f, (c, h)). c;
    with_cni = λ c (f, (_, h)). (f, (c, h));
    fs_of = λ (f, (c, h)). f;
    with_fs = λ f (_, (c, h)). (f, (c, h));
    ConfError = Text;
    unmarshal = λ stdin. ok (record empty_conf { network_profile = text "green" });
    unmarshal_map = λ stdin. ok none;
    new_client = λ target s. (target == text "unix:///run/multivpc-eni-agent.sock", s);
    with_timeout = λ parent timeout s. tt;
  };
  Error = Text;
  load_args = λ args. ok (record {
    pod_name = text "web";
    pod_namespace = text "default";
    pod_uid = text "uid-1";
    node_name = text "node-a";
  });
  ns = no_namespaces;
  ns_of = λ s. tt;
  with_ns = λ n s. s;
  current = λ res. ok (record { interfaces = []; ips = [] });
  ip_string = λ ip. ip;
  mac_string = λ mac. mac;
  print_result = λ res version s. (ok tt, s);
}

abbrev add_args : CmdArgs
add_args = record {
  stdin_data = text "{}";
  if_name = text "net1";
  args = [];
  container_id = text "c1";
  netns = text "/ns";
}

-- The base delegate and the one after it are called, and the result is cached.
added : cmd_add add_world 4 add_args (false, (0, 3)) ≡ (ok tt, (true, (2, 2)))
unfolding cmd_add load_conf load_config dial_agent inspect_interface resolve_network_profile
    call_report wait_for_attached_state poll_attached_state wait_for_host_interface poll_interval
    run_delegate_chain collect_interface_details write_cache_entry text_eq nat_eq lookup insert
added = refl

cmd_add_reports_example :
    (all_done : IsAdded add_world 4 add_args (false, (0, 3)) (true, (2, 2))) × IsTold add_world 4
      add_args all_done
cmd_add_reports_example = cmd_add_reports add_world 4 add_args (false, (0, 3)) added

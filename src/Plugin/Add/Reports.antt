-- ===== src/Plugin/Add/Reports.antt =====
-- What `cmdAdd` of cmd/multus-multivpc-cni/main.go has told the agent and the runtime when it
-- succeeds.
use multus_multivpc_cni.Base.{ℕ, Text, true, List, [], ◌∷◌, ok, map, ◌≡◌, ◌≢◌, refl, ap, arith}
use multus_multivpc_cni.Base.{Result-cases, inl, inr}
use mathlib.Core.Path.{subst₂}
use multus_multivpc_cni.Base.Programs.{check_ok}
use multus_multivpc_cni.Agent.Messages.{ReportRequest, ReportResponse, InterfaceState}
use multus_multivpc_cni.Netns.{Ip, InterfaceInfo, inspect_interface}
use multus_multivpc_cni.Plugin.Conf.{resolve_network_profile}
use multus_multivpc_cni.Plugin.Times.{poll_interval}
use multus_multivpc_cni.Plugin.Cache.{CacheEntry, write_cache_entry}
use multus_multivpc_cni.Plugin.Delegates.{run_delegate_chain}
use multus_multivpc_cni.Plugin.Details.{CurrentResult, collect_interface_details}
use multus_multivpc_cni.Plugin.Calls.{
  is_usable, status_request, call_report, wait_for_attached_state, wait_for_host_interface,
}
use multus_multivpc_cni.Plugin.Calls.Laws.{
  IsLink, wait_for_attached_state_usable, wait_for_host_interface-IsLink,
}
use multus_multivpc_cni.Plugin.Add.{
  CmdArgs, AddWorld, Conf, call_failed, delegate_failed, details_failed, cache_failed, print_failed,
  interface_of, ips_to_strings, report_request, report, wait_for_state, wait_for_host, collect,
  cmd_add,
}
use multus_multivpc_cni.Plugin.Add.Laws.{IsAdded, cmd_add_lem}

module _ (a : AddWorld) (rounds : ℕ) where
  -- The agent has accepted a report.
  abbrev pub IsAccepted : ReportRequest → a.world.host.State → Type 0
  IsAccepted req h =
      (resp : ReportResponse) × ((a.world.host.report_interface req h).0 ≡ ok resp)
      × (resp.accepted ≡ true)

  report-IsAccepted :
      (req : ReportRequest) (s t : a.world.State)
      → report a rounds req s ≡ (ok tt, t)
      → IsAccepted req (a.world.host_of s)
  unfolding call_report
  report-IsAccepted req s t e =
      elim (Result-cases (a.world.host.report_interface req (a.world.host_of s)).0) [
        | inl (x, p) ↦ absurd (ground arith)
        | inr (resp, p) ↦ (resp, p, ground arith)
      ]

  wait_for_state-usable :
      (conf : Conf a rounds) (ctx : a.world.host.Context) (prep : ReportRequest)
      (s t : a.world.State) {st : InterfaceState}
      → wait_for_state a rounds conf ctx prep s ≡ (ok st, t)
      → is_usable st ≡ true
  wait_for_state-usable conf ctx prep s t {st} e =
      let req = status_request prep.pod_uid prep.interface_name prep.network_profile in
      let (r, h) =
        wait_for_attached_state a.world.host rounds ctx req (poll_interval conf)
          (a.world.host_of s) in
      wait_for_attached_state_usable a.world.host rounds ctx req (poll_interval conf)
        (a.world.host_of s) {st = st} (check_ok call_failed r (a.world.with_host h s) t e).0

  wait_for_host-IsLink :
      (conf : Conf a rounds) (ctx : a.world.host.Context) (mac : Text) (s t : a.world.State)
      {name : Text}
      → wait_for_host a rounds conf ctx mac s ≡ (ok name, t)
      → (target : Text) × (a.world.host.parse_mac mac ≡ ok target) × IsLink a.world.host target name
  wait_for_host-IsLink conf ctx mac s t {name} e =
      let (r, h) =
        wait_for_host_interface a.world.host rounds ctx mac (poll_interval conf)
          (a.world.host_of s) in
      wait_for_host_interface-IsLink a.world.host rounds ctx mac (poll_interval conf)
        (a.world.host_of s) name (check_ok call_failed r (a.world.with_host h s) t e).0

  collect-details :
      (args : CmdArgs) (if_name : Text) (res : a.world.cni.Res) (s t : a.world.State)
      {x : InterfaceInfo × (List Ip × List Ip)}
      → collect a rounds args if_name res s ≡ (ok x, t)
      → (cur : CurrentResult) × (a.current res ≡ ok cur)
        × (collect_interface_details {E = a.Error} if_name
              (ok cur)
              (inspect_interface a.ns args.netns if_name (a.ns_of s)).0
            ≡ ok x)
  collect-details args if_name res s t e = elim (Result-cases (a.current res)) [
    | inl (x, p) ↦ absurd (ground arith)
    | inr (cur, p) ↦
        let (inspected, n) = inspect_interface a.ns args.netns if_name (a.ns_of s) in
        (
          cur,
          p,
          (check_ok details_failed (collect_interface_details if_name (ok cur) inspected)
              (a.with_ns n s) t (rw (p, collect) at e)).0,
        )
  ]

  ips_to_strings-map : (ips : List Ip) → ips_to_strings a rounds ips ≡ map a.ip_string ips
  ips_to_strings-map [] = refl
  ips_to_strings-map (ip ∷ ips) = ap (λ xs. a.ip_string ip ∷ xs) (ips_to_strings-map ips)

  module _ (args : CmdArgs) {s t : a.world.State} (added : IsAdded a rounds args s t) where
    open added use {conf, k8s, done}

    -- The first report, and the one with the addresses, which differs from it in these and in the MAC
    -- address alone.
    abbrev pub first_report : ReportRequest
    first_report = record {
      node_name = k8s.node_name;
      namespace = k8s.pod_namespace;
      pod_name = k8s.pod_name;
      pod_uid = k8s.pod_uid;
      container_id = args.container_id;
      interface_name = interface_of a rounds args conf;
      network_profile = resolve_network_profile conf args.args;
      ipv4_addresses = [];
      ipv6_addresses = [];
      mac_address = [];
    }

    abbrev pub second_report : ReportRequest
    second_report = record first_report {
      ipv4_addresses = map a.ip_string done.ipv4;
      ipv6_addresses = map a.ip_string done.ipv6;
      mac_address = a.mac_string done.iface.hardware;
    }

    abbrev pub cached_entry : CacheEntry
    cached_entry = record {
      pod_uid = k8s.pod_uid;
      pod_name = k8s.pod_name;
      namespace = k8s.pod_namespace;
      network_profile = resolve_network_profile conf args.args;
      interface_name = interface_of a rounds args conf;
      container_id = args.container_id;
    }

    -- What the addresses are taken from.
    pub record AreCollected : Type 0 where
      pub cur : CurrentResult
      pub readable : a.current done.res ≡ ok cur
      pub details :
          collect_interface_details {E = a.Error} first_report.interface_name
            (ok cur)
            (inspect_interface a.ns args.netns first_report.interface_name (a.ns_of done.s5)).0
          ≡ ok (done.iface, (done.ipv4, done.ipv6))

    pub record IsTold : Type 0 where
      pub profiled : first_report.network_profile ≢ []
      pub first_accepted : IsAccepted first_report (a.world.host_of done.s1)
      pub usable : is_usable done.state ≡ true
      pub linked :
          (target : Text) × (a.world.host.parse_mac done.state.mac_address ≡ ok target)
          × IsLink a.world.host target done.master
      pub delegated :
          (run_delegate_chain a.world.cni conf done.master (a.world.cni_of done.s4)).0 ≡ ok done.res
      pub collected : AreCollected
      pub second_accepted : IsAccepted second_report (a.world.host_of done.s6)
      pub written :
          (write_cache_entry a.world.fs a.world.codec conf.cache_dir cached_entry
            (a.world.fs_of done.s7)).0
          ≡ ok tt
      pub printed : (a.print_result done.res conf.cni_version done.s8).0 ≡ ok tt

    collected-AreCollected : AreCollected
    collected-AreCollected =
        let (cur, readable, details) =
          collect-details args first_report.interface_name done.res done.s5 done.s6
            done.collected in
        record { cur = cur; readable = readable; details = details }

    second_IsAccepted : IsAccepted second_report (a.world.host_of done.s6)
    second_IsAccepted =
        subst₂
          (λ x y.
            IsAccepted
              (record first_report {
                ipv4_addresses = x;
                ipv6_addresses = y;
                mac_address = a.mac_string done.iface.hardware;
              })
              (a.world.host_of done.s6))
          (ips_to_strings-map done.ipv4) (ips_to_strings-map done.ipv6)
          (report-IsAccepted (report_request a rounds first_report done.iface done.ipv4 done.ipv6)
            done.s6 done.s7 done.reported)

    added-IsTold : IsTold
    added-IsTold = record {
      profiled = added.chosen;
      first_accepted = report-IsAccepted first_report done.s1 done.s2 done.prepared;
      usable =
          wait_for_state-usable conf done.ctx first_report done.s2 done.s3 {st = done.state}
            done.attached;
      linked =
          wait_for_host-IsLink conf done.ctx done.state.mac_address done.s3 done.s4
            {name = done.master} done.linked;
      delegated =
          let (r, c) = run_delegate_chain a.world.cni conf done.master (a.world.cni_of done.s4) in
          (check_ok delegate_failed r (a.world.with_cni c done.s4) done.s5 done.delegated).0;
      collected = collected-AreCollected;
      second_accepted = second_IsAccepted;
      written =
          let (r, f) =
            write_cache_entry a.world.fs a.world.codec conf.cache_dir cached_entry
              (a.world.fs_of done.s7) in
          (check_ok cache_failed r (a.world.with_fs f done.s7) done.s8 done.cached).0;
      printed =
          (check_ok print_failed (a.print_result done.res conf.cni_version done.s8).0 _ t
            done.printed).0;
    }

  pub cmd_add_reports :
      (args : CmdArgs) (s : a.world.State) {t : a.world.State}
      → cmd_add a rounds args s ≡ (ok tt, t)
      → (added : IsAdded a rounds args s t) × IsTold args added
  cmd_add_reports args s h =
      let added = cmd_add_lem a rounds args s h in (added, added-IsTold args added)

-- ===== src/Plugin/Add/Laws.antt =====
-- What has happened when `cmdAdd` of cmd/multus-multivpc-cni/main.go succeeds.
use multus_multivpc_cni.Base.{
  ℕ, Text, text_eq, List, [], ◌∷◌, none, ok, ◌==◌, ◌≡◌, ◌≢◌, arith, refl, sym, subst, ◌∙◌,
  if◌then◌else◌,
}
use multus_multivpc_cni.Base.Programs.{check, fail, ◌>>=◌, bind_ok_at, check_ok}
use multus_multivpc_cni.Agent.Messages.{ReportRequest, InterfaceState}
use multus_multivpc_cni.Plugin.Times.{wait_timeout}
use multus_multivpc_cni.Plugin.Conf.{resolve_network_profile}
use multus_multivpc_cni.Netns.{Ip, InterfaceInfo}
use multus_multivpc_cni.Plugin.Delete.{load_conf}
use multus_multivpc_cni.Plugin.Add.{
  CmdArgs, KubernetesArgs, AddWorld, Conf, Add, interface_of, prep_request, report_request,
  entry_of, write_cache, print, dial, wait_for_state, wait_for_host, delegate_chain, collect,
  report, add_reported, add_delegated, add_linked, add_attached, add_dialled, add_prepared,
  add_checked, add_loaded, no_profile, load_failed, args_failed, cmd_add,
}

module _ (a : AddWorld) (rounds : ℕ) where
  -- The calls from the dial of the agent on, each in the state that the one before has left.
  pub record IsReported (args : CmdArgs) (conf : Conf a rounds) (prep : ReportRequest)
      (s t : a.world.State) : Type 0 where
    pub ctx : a.world.host.Context
    pub s1 : a.world.State
    pub s2 : a.world.State
    pub s3 : a.world.State
    pub s4 : a.world.State
    pub s5 : a.world.State
    pub s6 : a.world.State
    pub s7 : a.world.State
    pub s8 : a.world.State
    pub state : InterfaceState
    pub master : Text
    pub res : a.world.cni.Res
    pub iface : InterfaceInfo
    pub ipv4 : List Ip
    pub ipv6 : List Ip
    pub timed : ctx ≡ a.world.with_timeout none (wait_timeout conf) s
    pub dialled : dial a rounds conf s ≡ (ok tt, s1)
    pub prepared : report a rounds prep s1 ≡ (ok tt, s2)
    pub attached : wait_for_state a rounds conf ctx prep s2 ≡ (ok state, s3)
    pub linked : wait_for_host a rounds conf ctx state.mac_address s3 ≡ (ok master, s4)
    pub delegated : delegate_chain a rounds conf master s4 ≡ (ok res, s5)
    pub collected :
        collect a rounds args prep.interface_name res s5 ≡ (ok (iface, (ipv4, ipv6)), s6)
    pub reported : report a rounds (report_request a rounds prep iface ipv4 ipv6) s6 ≡ (ok tt, s7)
    pub cached :
        write_cache a rounds conf
          (entry_of a rounds (report_request a rounds prep iface ipv4 ipv6))
          s7
        ≡ (ok tt, s8)
    pub printed : print a rounds conf res s8 ≡ (ok tt, t)

  add_reported_ok :
      (conf : Conf a rounds) (req : ReportRequest) (res : a.world.cni.Res) (s : a.world.State)
      {t : a.world.State}
      → add_reported a rounds conf req res s ≡ (ok tt, t)
      → (s7 : a.world.State) × (s8 : a.world.State) × (report a rounds req s ≡ (ok tt, s7))
        × (write_cache a rounds conf (entry_of a rounds req) s7 ≡ (ok tt, s8))
        × (print a rounds conf res s8 ≡ (ok tt, t))
  unfolding add_reported
  add_reported_ok conf req res s h =
      let (_, s7, reported, k) = bind_ok_at (report a rounds req) (λ _. write_then_print) s h in
      let (_, s8, cached, printed) =
        bind_ok_at (write_cache a rounds conf (entry_of a rounds req))
          (λ _. print a rounds conf res) s7 k in
      (s7, s8, reported, cached, printed)
    where
      write_then_print : Add a rounds (Unit {0})
      write_then_print =
          write_cache a rounds conf (entry_of a rounds req) >>= λ _. print a rounds conf res

  add_dialled_ok :
      (args : CmdArgs) (conf : Conf a rounds) (prep : ReportRequest) (s s1 : a.world.State)
      {t : a.world.State}
      → dial a rounds conf s ≡ (ok tt, s1)
      → add_dialled a rounds args conf prep (a.world.with_timeout none (wait_timeout conf) s) s1
        ≡ (ok tt, t)
      → IsReported args conf prep s t
  unfolding add_dialled add_attached add_linked add_delegated
  add_dialled_ok args conf prep s s1 dialled h =
      let ctx = a.world.with_timeout none (wait_timeout conf) s in
      let (_, s2, prepared, h1) =
        bind_ok_at (report a rounds prep)
          (λ _. wait_for_state a rounds conf ctx prep >>= add_attached a rounds args conf prep ctx)
          s1 h in
      let (state, s3, attached, h2) =
        bind_ok_at (wait_for_state a rounds conf ctx prep)
          (add_attached a rounds args conf prep ctx) s2 h1 in
      let (master, s4, linked, h3) =
        bind_ok_at (wait_for_host a rounds conf ctx state.mac_address)
          (add_linked a rounds args conf prep) s3 h2 in
      let (res, s5, delegated, h4) =
        bind_ok_at (delegate_chain a rounds conf master) (add_delegated a rounds args conf prep) s4
          h3 in
      let (details, s6, collected, h5) =
        bind_ok_at (collect a rounds args prep.interface_name res)
          (λ (iface, (ipv4, ipv6)).
            add_reported a rounds conf (report_request a rounds prep iface ipv4 ipv6) res)
          s5 h4 in
      let (iface, (ipv4, ipv6)) = details in
      let (s7, s8, reported, cached, printed) =
        add_reported_ok conf (report_request a rounds prep iface ipv4 ipv6) res s6 h5 in
      record {
        ctx = ctx;
        s1 = s1;
        s2 = s2;
        s3 = s3;
        s4 = s4;
        s5 = s5;
        s6 = s6;
        s7 = s7;
        s8 = s8;
        state = state;
        master = master;
        res = res;
        iface = iface;
        ipv4 = ipv4;
        ipv6 = ipv6;
        timed = refl;
        dialled = dialled;
        prepared = prepared;
        attached = attached;
        linked = linked;
        delegated = delegated;
        collected = collected;
        reported = reported;
        cached = cached;
        printed = printed;
      }

  add_prepared_ok :
      (args : CmdArgs) (conf : Conf a rounds) (prep : ReportRequest) (s : a.world.State)
      {t : a.world.State}
      → add_prepared a rounds args conf prep s ≡ (ok tt, t)
      → IsReported args conf prep s t
  unfolding add_prepared
  add_prepared_ok args conf prep s h =
      let ctx = a.world.with_timeout none (wait_timeout conf) s in
      let (_, s1, dialled, k) =
        bind_ok_at (dial a rounds conf) (λ _. add_dialled a rounds args conf prep ctx) s h in
      add_dialled_ok args conf prep s s1 dialled k

  -- What a successful ADD has loaded, chosen and done.
  pub record IsAdded (args : CmdArgs) (s t : a.world.State) : Type 0 where
    pub conf : Conf a rounds
    pub k8s : KubernetesArgs
    pub loaded : load_conf a.world args.stdin_data ≡ ok conf
    pub parsed : a.load_args args.args ≡ ok k8s
    pub chosen : resolve_network_profile conf args.args ≢ []
    pub done :
        IsReported args conf
          (prep_request a rounds args k8s
            (interface_of a rounds args conf)
            (resolve_network_profile conf args.args))
          s
          t

  guarded :
      (profile : Text) (m : Add a rounds (Unit {0})) (s : a.world.State) {t : a.world.State}
      → (if profile == [] then fail no_profile else m) s ≡ (ok tt, t)
      → (profile ≢ []) × (m s ≡ (ok tt, t))
  guarded [] m s h = ground arith
  guarded (c ∷ cs) m s h = ground arith

  checked :
      (args : CmdArgs) (conf : Conf a rounds) (k8s : KubernetesArgs) (s : a.world.State)
      {t : a.world.State}
      → load_conf a.world args.stdin_data ≡ ok conf
      → a.load_args args.args ≡ ok k8s
      → add_checked a rounds args conf k8s s ≡ (ok tt, t)
      → IsAdded args s t
  unfolding add_checked
  checked args conf k8s s loaded parsed h =
      let profile = resolve_network_profile conf args.args in
      let prep = prep_request a rounds args k8s (interface_of a rounds args conf) profile in
      let (chosen, k) = guarded profile (add_prepared a rounds args conf prep) s h in
      record {
        conf = conf;
        k8s = k8s;
        loaded = loaded;
        parsed = parsed;
        chosen = chosen;
        done = add_prepared_ok args conf prep s k;
      }

  -- A successful ADD has loaded its configuration and its arguments and has a profile; and then it
  -- has made these calls, each in the state that the one before has left, and no others: the agent
  -- was dialled, accepted the report for the interface, and had it attached; the host had a link with
  -- its MAC address, which is the master of the chain of delegates that was called; the details of
  -- the interface were collected; the agent accepted the report with the addresses, which differs
  -- from the first in these and in the MAC address alone; and its cached result was written before
  -- the result was printed.
  pub cmd_add_lem :
      (args : CmdArgs) (s : a.world.State) {t : a.world.State}
      → cmd_add a rounds args s ≡ (ok tt, t)
      → IsAdded args s t
  unfolding cmd_add add_loaded
  cmd_add_lem args s {t} h =
      let (conf, s1, loaded, h1) =
        bind_ok_at (check load_failed (load_conf a.world args.stdin_data))
          (add_loaded a rounds args) s h in
      let (k8s, s2, parsed, h2) =
        bind_ok_at (check args_failed (a.load_args args.args)) (add_checked a rounds args conf) s1
          h1 in
      let (is_loaded, same1) =
        check_ok load_failed (load_conf a.world args.stdin_data) s s1 loaded in
      let (is_parsed, same2) = check_ok args_failed (a.load_args args.args) s1 s2 parsed in
      subst (λ x. IsAdded args x t) (sym (same1 ∙ same2))
        (checked args conf k8s s2 is_loaded is_parsed h2)

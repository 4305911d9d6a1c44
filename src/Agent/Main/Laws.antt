-- ===== src/Agent/Main/Laws.antt =====
-- What has happened when the agent of cmd/multivpc-eni-agent/main.go has started.
use multus_multivpc_cni.Base.{
  ℕ, Text, text_eq, none, some, [], ok, Result-cases, inl, inr, ◌≡◌, ◌≢◌, refl, sym, ap, ◌∙◌, subst,
  arith,
}
use multus_multivpc_cni.Base.Int.{ℤ, pos, negsuc}
use multus_multivpc_cni.Base.Programs.{check, ◌>>=◌, bind_ok, check_ok}
use multus_multivpc_cni.Config.{Config, load}
use multus_multivpc_cni.Config.Laws.{load-profiles_some}
use multus_multivpc_cni.Aws.Types.{Manager}
use multus_multivpc_cni.Aws.Ec2.{Ec2}
use multus_multivpc_cni.Aws.Manager.{new_manager, eni_manager}
use multus_multivpc_cni.Kube.{new_pod_watcher}
use multus_multivpc_cni.Kube.Client.{build_kube_client}
use multus_multivpc_cni.Agent.Server.{new_agent_metrics, new_agent_server}
use multus_multivpc_cni.Agent.Steps.{System, idle, Reach}
use multus_multivpc_cni.Agent.Invariant.Reached.{IsConsistent, Reach-IsConsistent}
use multus_multivpc_cni.Agent.Watch.{agent_handler}
use multus_multivpc_cni.Agent.Main.{
  Flags, Platform, Started, Start, load_network_profiles, initialise_aws_manager,
  initialise_kubernetes_client, create_pod_watcher, make_queue, ensure_socket_directory,
  open_socket, start_watcher, start_server, start_parts, main,
}

module _ (p : Platform) where
  -- The socket was listened on right after its directory was made and what stood in its place was
  -- removed.
  pub record IsListening (path : Text) (s : p.State) : Type 0 where
    pub made : (p.mkdir_all (p.dir path) s).0 ≡ ok tt
    pub removed : (p.remove_all path (p.mkdir_all (p.dir path) s).1).0 ≡ ok tt
    pub listening : (p.listen path (p.remove_all path (p.mkdir_all (p.dir path) s).1).1).0 ≡ ok tt

  open_socket_ok :
      (flags : Flags) (st : Started p) (s : p.State) {r : Started p}
      → (open_socket p flags st s).0 ≡ ok r
      → IsListening flags.grpc_socket s × (st ≡ r)
  unfolding open_socket ensure_socket_directory
  open_socket_ok flags st s h = elim (Result-cases (p.mkdir_all (p.dir flags.grpc_socket) s).0) [
    | inl (e, f) ↦ absurd (ground arith)
    | inr (_, f) ↦
        elim (Result-cases
          (p.remove_all flags.grpc_socket (p.mkdir_all (p.dir flags.grpc_socket) s).1).0) [
            | inl (e, g) ↦ absurd (ground arith)
            | inr (_, g) ↦
                elim (Result-cases
                  (p.listen flags.grpc_socket
                    (p.remove_all flags.grpc_socket
                      (p.mkdir_all (p.dir flags.grpc_socket) s).1).1).0) [
                        | inl (e, k) ↦ absurd (ground arith)
                        | inr (_, k) ↦ ground arith
                      ]
          ]
  ]

  -- What the start has made of the parts that were there before.
  pub record IsServing (flags : Flags) (cfg : Config) (s : p.State) (st : Started p) : Type 0 where
    pub size : ℕ
    pub sized : flags.queue_size ≡ pos size
    pub served : st.server ≡ new_agent_server (some cfg) flags.node_name new_agent_metrics size
    pub watched :
        new_pod_watcher (p.informers st.client) flags.node_name agent_handler ≡ ok st.watcher
    pub listens : IsListening flags.grpc_socket s

  make_queue_ok :
      (z : ℤ) (s t : p.State) {n : ℕ} → make_queue p z s ≡ (ok n, t) → (z ≡ pos n) × (s ≡ t)
  make_queue_ok (pos m) s t h = ground arith
  make_queue_ok (negsuc m) s t h = ground arith

  start_watcher_ok :
      (flags : Flags) (cfg : Config) (size : ℕ) (manager : Manager) (client : p.client_go.Client)
      (s : p.State) {st : Started p}
      → flags.queue_size ≡ pos size
      → (start_watcher p flags manager
          (new_agent_server (some cfg) flags.node_name new_agent_metrics size)
          client
          s).0
        ≡ ok st
      → IsServing flags cfg s st × (manager ≡ st.manager) × (client ≡ st.client)
  unfolding start_watcher
  start_watcher_ok flags cfg size manager client s sized h =
      let server = new_agent_server (some cfg) flags.node_name new_agent_metrics size in
      let created = new_pod_watcher (p.informers client) flags.node_name agent_handler in
      let (watcher, t, w, k) =
        bind_ok (check (create_pod_watcher client) created)
          (λ x.
            open_socket p flags
              (record { manager = manager; server = server; client = client; watcher = x }))
          s h in
      let (watched, same) = check_ok (create_pod_watcher client) created s t w in
      let (listens, e) =
        open_socket_ok flags
          (record { manager = manager; server = server; client = client; watcher = watcher }) t k in
      subst (λ x. IsServing flags cfg s x × (manager ≡ x.manager) × (client ≡ x.client)) e
        (
          record {
            size = size;
            sized = sized;
            served = refl;
            watched = watched;
            listens = subst (IsListening flags.grpc_socket) (sym same) listens;
          },
          refl,
          refl,
        )

  start_server_ok :
      (flags : Flags) (cfg : Config) (manager : Manager) (client : p.client_go.Client) (s : p.State)
      {st : Started p}
      → (start_server p flags cfg manager client s).0 ≡ ok st
      → IsServing flags cfg s st × (manager ≡ st.manager) × (client ≡ st.client)
  unfolding start_server
  start_server_ok flags cfg manager client s {st} h =
      let (size, t, q, k) =
        bind_ok (make_queue p flags.queue_size)
          (λ n.
            start_watcher p flags manager
              (new_agent_server (some cfg) flags.node_name new_agent_metrics n) client)
          s h in
      let (sized, same) = make_queue_ok flags.queue_size s t q in
      start_watcher_ok flags cfg size manager client s sized (
        subst
          (λ x.
            (start_watcher p flags manager
              (new_agent_server (some cfg) flags.node_name new_agent_metrics size) client x).0
            ≡ ok st)
          (sym same) k)

  -- The parts that `main` has put together.
  pub record IsStarted (flags : Flags) (s : p.State) (st : Started p) : Type 0 where
    pub has_node : flags.node_name ≢ []
    pub has_region : flags.aws_region ≢ []
    pub cfg : Config
    pub loaded : load p.read_file p.unmarshal flags.network_profiles ≡ ok cfg
    pub has_profiles : cfg.network_profiles ≢ none
    pub managed : new_manager p.load_aws_config p.get_identity flags.aws_region ≡ ok st.manager
    pub connected : build_kube_client p.client_go flags.kubeconfig ≡ ok st.client
    pub serving : IsServing flags cfg s st

  main_nonempty :
      (flags : Flags) (s : p.State) {st : Started p}
      → (main p flags s).0 ≡ ok st
      → (flags.node_name ≢ []) × (flags.aws_region ≢ []) × ((start_parts p flags s).0 ≡ ok st)
  unfolding main
  main_nonempty flags s h = ground arith

  main-IsStarted :
      (flags : Flags) (s : p.State) {st : Started p}
      → (main p flags s).0 ≡ ok st
      → IsStarted flags s st
  unfolding start_parts
  main-IsStarted flags s {st} h =
      let (has_node, has_region, h0) = main_nonempty flags s h in
      let profiles = load p.read_file p.unmarshal flags.network_profiles in
      let managers = new_manager p.load_aws_config p.get_identity flags.aws_region in
      let clients = build_kube_client p.client_go flags.kubeconfig in
      let (cfg, s1, l, h1) = bind_ok (check load_network_profiles profiles) after_load s h0 in
      let (manager, s2, m, h2) =
        bind_ok (check initialise_aws_manager managers) (after_manager cfg) s1 h1 in
      let (client, s3, c, h3) =
        bind_ok (check initialise_kubernetes_client clients) (start_server p flags cfg manager) s2
          h2 in
      let (loaded, same1) = check_ok load_network_profiles profiles s s1 l in
      let (managed, same2) = check_ok initialise_aws_manager managers s1 s2 m in
      let (connected, same3) = check_ok initialise_kubernetes_client clients s2 s3 c in
      let (serving, same_manager, same_client) = start_server_ok flags cfg manager client s3 h3 in
      record {
        has_node = has_node;
        has_region = has_region;
        cfg = cfg;
        loaded = loaded;
        has_profiles = load-profiles_some p.read_file p.unmarshal flags.network_profiles loaded;
        managed = managed ∙ ap ok same_manager;
        connected = connected ∙ ap ok same_client;
        serving = subst (λ x. IsServing flags cfg x st) (sym (same1 ∙ same2 ∙ same3)) serving;
      }
    where
      after_manager : Config → Manager → Start p (Started p)
      after_manager cfg manager =
          check initialise_kubernetes_client (build_kube_client p.client_go flags.kubeconfig)
          >>= start_server p flags cfg manager

      after_load : Config → Start p (Started p)
      after_load cfg =
          check initialise_aws_manager
            (new_manager p.load_aws_config p.get_identity flags.aws_region)
          >>= after_manager cfg

  -- An agent that has started was given a node name and a region; its profiles were loaded, and their
  -- map is not nil; it has the manager of the region, a client, an empty server with a queue of the
  -- size of the flag, which is not negative, and a watcher of the node's Pods that calls the server;
  -- and it listens on its socket after the removal of what stood there. From then on, whatever
  -- requests, events and steps of the worker come over any EC2, the agent stays consistent.
  pub main_starts :
      (flags : Flags) (s : p.State) {st : Started p}
      → (main p flags s).0 ≡ ok st
      → (started : IsStarted flags s st) × ((e : Ec2) (cloud : e.State)
            (t : System (eni_manager e st.manager))
          → Reach (record { server = st.server; worker = idle; cloud = cloud }) t
          → IsConsistent
              (eni_manager e st.manager)
              (some started.cfg)
              flags.node_name
              started.serving.size
              t)
  main_starts flags s {st} h =
      let started = main-IsStarted flags s h in
      (
        started,
        λ e cloud t r.
            Reach-IsConsistent (eni_manager e st.manager) (some started.cfg) flags.node_name
              started.serving.size cloud
              (subst
                (λ x.
                  Reach {m = eni_manager e st.manager}
                    (record { server = x; worker = idle; cloud = cloud }) t)
                started.serving.served r),
      )

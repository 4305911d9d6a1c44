-- ===== src/Agent/Main.antt =====
-- The start of the agent: `main` and `ensureSocketDirectory` of cmd/multivpc-eni-agent/main.go. The
-- operating system, `filepath.Dir` and the libraries are parameters.
pub mod Laws
use multus_multivpc_cni.Base.{
  ℕ, Text, text, text_eq, Option, some, [], ◌∷◌, Result, ok, err, ◌==◌, if◌then◌else◌,
}
use multus_multivpc_cni.Base.Int.{ℤ, pos, negsuc}
use multus_multivpc_cni.Base.Programs.{M, pure, fail, wrap, check, ◌>>=◌, ◌>>◌}
use multus_multivpc_cni.Config.{Config, LoadError, load}
use multus_multivpc_cni.Aws.Types.{Manager}
use multus_multivpc_cni.Aws.Manager.{IdentityDocument, NewManagerError, new_manager}
use multus_multivpc_cni.Kube.{Informers, PodWatcher, new_pod_watcher}
use multus_multivpc_cni.Kube.Client.{ClientGo, build_kube_client}
use multus_multivpc_cni.Agent.Messages.{Pod}
use multus_multivpc_cni.Agent.Server.{AgentServer, new_agent_metrics, new_agent_server}
use multus_multivpc_cni.Agent.Watch.{agent_handler}

-- The flags that the start depends on.
pub record Flags : Type 0 where
  pub grpc_socket : Text
  pub queue_size : ℤ
  pub node_name : Text
  pub kubeconfig : Text
  pub network_profiles : Text
  pub aws_region : Text

-- The flags' defaults, some of them from the environment.
abbrev pub default_flags : (Text → Text) → Flags
default_flags getenv = record {
  grpc_socket = text "/run/multivpc-eni-agent.sock";
  queue_size = pos 128;
  node_name = getenv (text "NODE_NAME");
  kubeconfig = getenv (text "KUBECONFIG");
  network_profiles = text "/etc/multivpc/network-profiles.yaml";
  aws_region = getenv (text "AWS_REGION");
}

pub record Platform : Type 1 where
  pub State : Type 0
  pub Error : Type 0
  pub AwsConfig : Type 0
  pub client_go : ClientGo
  pub informers : client_go.Client → Informers Pod
  pub read_file : Text → Result Error Text
  pub unmarshal : Text → Result Error Config
  pub load_aws_config : Text → Result Error AwsConfig
  pub get_identity : AwsConfig → Result Error IdentityDocument
  pub dir : Text → Text
  pub mkdir_all : Text → State → Result Error (Unit {0}) × State
  pub remove_all : Text → State → Result Error (Unit {0}) × State
  pub listen : Text → State → Result Error (Unit {0}) × State

-- How a start ends early: the calls of `log.Fatal`, and the panic of `make(chan, n)` at a negative
-- size.
pub data StartError (p : Platform) : Type 0 where
  node_name_not_set aws_region_not_set : StartError p
  load_network_profiles : LoadError p.Error → StartError p
  initialise_aws_manager : NewManagerError p.Error → StartError p
  initialise_kubernetes_client : p.client_go.Error → StartError p
  makechan_panic : StartError p
  create_pod_watcher : (c : p.client_go.Client) → (p.informers c).Error → StartError p
  prepare_socket listen_on_unix_socket : p.Error → StartError p

-- What runs once the agent has started.
pub record Started (p : Platform) : Type 0 where
  pub manager : Manager
  pub server : AgentServer
  pub client : p.client_go.Client
  pub watcher : PodWatcher (p.informers client) AgentServer

module _ (p : Platform) where
  abbrev pub Start : Type 0 → Type 0
  Start A = M p.State (StartError p) A

  unfoldable pub ensure_socket_directory : Text → M p.State p.Error (Unit {0})
  ensure_socket_directory path = do p.mkdir_all (p.dir path); p.remove_all path

  -- `make(chan syncJob, n)`
  abbrev pub make_queue : ℤ → Start ℕ
  make_queue (pos n) = pure n
  make_queue (negsuc n) = fail makechan_panic

  -- What follows once all parts are there.
  unfoldable pub open_socket : Flags → Started p → Start (Started p)
  unfolding ensure_socket_directory
  open_socket flags st = do
    wrap prepare_socket (ensure_socket_directory flags.grpc_socket)
    wrap listen_on_unix_socket (p.listen flags.grpc_socket)
    pure st

  unfoldable pub start_watcher :
      Flags → Manager → AgentServer → p.client_go.Client → Start (Started p)
  unfolding open_socket
  start_watcher flags manager server client = do
    watcher ←
        check (create_pod_watcher client)
          (new_pod_watcher (p.informers client) flags.node_name agent_handler)
    open_socket flags
        (record { manager = manager; server = server; client = client; watcher = watcher })

  unfoldable pub start_server : Flags → Config → Manager → p.client_go.Client → Start (Started p)
  unfolding start_watcher
  start_server flags cfg manager client = do
    queue_size ← make_queue flags.queue_size
    start_watcher flags manager
        (new_agent_server (some cfg) flags.node_name new_agent_metrics queue_size) client

  unfoldable pub start_parts : Flags → Start (Started p)
  unfolding start_server
  start_parts flags = do
    cfg ← check load_network_profiles (load p.read_file p.unmarshal flags.network_profiles)
    manager ←
        check initialise_aws_manager (new_manager p.load_aws_config p.get_identity flags.aws_region)
    client ← check initialise_kubernetes_client (build_kube_client p.client_go flags.kubeconfig)
    start_server flags cfg manager client

  -- `main` up to the point where it serves and waits for a signal.
  unfoldable pub main : Flags → Start (Started p)
  unfolding start_parts
  main flags =
      if flags.node_name == []
      then fail node_name_not_set
      else if flags.aws_region == []
      then fail aws_region_not_set
      else start_parts flags

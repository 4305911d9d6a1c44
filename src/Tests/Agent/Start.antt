-- ===== src/Tests/Agent/Start.antt =====
-- Runs of the Pod watcher and of the start of cmd/multivpc-eni-agent/main.go.
use multus_multivpc_cni.Base.{Text, text, text_eq, none, some, List, [], ◌∷◌, ok, ◌≡◌, refl}
use multus_multivpc_cni.Config.{load}
use multus_multivpc_cni.Aws.Ec2.{Ec2}
use multus_multivpc_cni.Aws.Manager.{new_manager, eni_manager, refresh_metadata}
use multus_multivpc_cni.Kube.{
  Event, pod, tombstone, added, updated, deleted, Informers, PodWatcher, selection, new_pod_watcher,
  run,
}
use multus_multivpc_cni.Kube.Client.{build_kube_client}
use multus_multivpc_cni.Agent.Messages.{Pod}
use multus_multivpc_cni.Agent.Server.{AgentServer}
use multus_multivpc_cni.Agent.Steps.{System, idle, Reach}
use multus_multivpc_cni.Agent.Invariant.Reached.{IsConsistent}
use multus_multivpc_cni.Agent.Watch.{agent_handler, ended, release_each, run-agent_handler}
use multus_multivpc_cni.Agent.Main.{Flags, default_flags, Platform, Started, main}
use multus_multivpc_cni.Agent.Main.Laws.{IsStarted, main_starts}
use multus_multivpc_cni.Tests.Agent.{node, web, worked, worked-Reach, start}

abbrev failed : Pod
failed = record { uid = text "uid-2"; deletion_timestamp = none; phase = text "Failed" }

-- A Pod is added, another fails, and the deletion of the first is missed.
abbrev events : List (Event Pod)
events =
    added (pod (some web))
    ∷ updated (pod (some (record failed { phase = text "Running" }))) (pod (some failed))
    ∷ deleted (tombstone (text "default/web") (pod (some web)))
    ∷ []

abbrev informers : Informers Pod
informers = record {
  Informer = Text;
  Error = Text;
  new_informer = λ s. s.value;
  add_event_handler = λ i. ok tt;
  delivered = λ i. events;
}

abbrev watcher : PodWatcher informers AgentServer
watcher = record { informer = node; handler = agent_handler }

created : new_pod_watcher informers node agent_handler ≡ ok watcher
unfolding new_pod_watcher
created = refl

run-agent_handler_example :
    (run informers watcher worked.server
      ≡ release_each
          (ended (informers.delivered (informers.new_informer (selection node))))
          worked.server)
    × Reach start (record worked { server = run informers watcher worked.server })
run-agent_handler_example = run-agent_handler informers node created worked-Reach

-- A platform on which everything works; its state is the paths that were listened on.
abbrev platform : Platform
platform = record {
  State = List Text;
  Error = Text;
  AwsConfig = Text;
  client_go = record {
    RestConfig = Text;
    Client = Text;
    Error = Text;
    build_config_from_flags = λ master path. ok path;
    in_cluster_config = ok (text "in-cluster");
    new_for_config = λ cfg. ok cfg;
  };
  informers = λ client. informers;
  read_file = λ path. ok path;
  unmarshal = λ bytes. ok (record { network_profiles = none });
  load_aws_config = λ region. ok region;
  get_identity = λ cfg. ok (record { instance_id = text "i-1"; availability_zone = text "a" });
  dir = λ path. text "/run";
  mkdir_all = λ path s. (ok tt, s);
  remove_all = λ path s. (ok tt, s);
  listen = λ path s. (ok tt, path ∷ s);
}

abbrev flags : Flags
flags = default_flags (λ name. text "x")

main_succeeds : (st : Started platform) × ((main platform flags []).0 ≡ ok st)
unfolding main load new_manager refresh_metadata build_kube_client new_pod_watcher text_eq
main_succeeds = (_, refl)

main_starts_example :
    (started : IsStarted platform flags [] main_succeeds.0) × ((e : Ec2) (cloud : e.State)
        (t : System (eni_manager e main_succeeds.0.manager))
      → Reach (record { server = main_succeeds.0.server; worker = idle; cloud = cloud }) t
      → IsConsistent
          (eni_manager e main_succeeds.0.manager)
          (some started.cfg)
          flags.node_name
          started.serving.size
          t)
main_starts_example = main_starts platform flags [] main_succeeds.1

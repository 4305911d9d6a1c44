-- ===== src/Agent/Server.antt =====
-- The agent's state, its queue and its worker: `agentServer`, `enqueueJob`, `handleJob`,
-- `updateState`, `deleteState` and `snapshotStates` of cmd/multivpc-eni-agent/main.go.
use multus_multivpc_cni.Base.{ℕ, suc, Text, text, text_eq, Bool, true, false, Option, none, some}
use multus_multivpc_cni.Base.{List, [], ◌∷◌, ◌++◌, Result, ok, err, ltb, ◌==◌, length, keep}
use multus_multivpc_cni.Base.{if◌then◌else◌}
use multus_multivpc_cni.Base.Int.{ℤ, pos, inc, dec}
use multus_multivpc_cni.Base.Dict.{Dict, insert, erase, values}
use multus_multivpc_cni.Config.{NetworkProfile, Config}
use multus_multivpc_cni.Aws.Types.{SyncRequest, ReleaseRequest, SyncResult}
use multus_multivpc_cni.Agent.Messages.{InterfaceState}

pub data JobKind : Type 0 where
  ensure release : JobKind

pub record SyncJob : Type 0 where
  pub kind : JobKind
  pub profile : NetworkProfile
  pub profile_key : Text
  pub ensure_req : SyncRequest
  pub rel_req : ReleaseRequest

-- A counter with the label `profile`, and the number of observations of a histogram.
abbrev pub CounterVec : Type 0
CounterVec = Text → ℕ

abbrev pub bump : Text → CounterVec → CounterVec
bump label c = λ l. if l == label then suc (c l) else c l

pub record AgentMetrics : Type 0 where
  pub sync_total : CounterVec
  pub sync_failures : CounterVec
  pub sync_latency : CounterVec
  pub queue_depth : ℤ
  pub in_flight : ℤ
  pub release_total : CounterVec
  pub release_failure : CounterVec

-- The interface `eniManager`, over the state of the cloud behind it.
pub record EniManager : Type 1 where
  pub Cloud : Type 0
  pub Error : Type 0
  pub ensure_interface : NetworkProfile → SyncRequest → Cloud → Result Error SyncResult × Cloud
  pub release_interface : NetworkProfile → ReleaseRequest → Cloud → Result Error (Unit {0}) × Cloud

pub record AgentServer : Type 0 where
  pub node : Text
  pub cfg : Option Config
  pub metrics : AgentMetrics
  pub queue : List SyncJob
  pub queue_size : ℕ
  pub state : Dict InterfaceState

abbrev pub new_agent_metrics : AgentMetrics
new_agent_metrics = record {
  sync_total = λ _. 0;
  sync_failures = λ _. 0;
  sync_latency = λ _. 0;
  queue_depth = pos 0;
  in_flight = pos 0;
  release_total = λ _. 0;
  release_failure = λ _. 0;
}

unfoldable pub new_agent_server : Option Config → Text → AgentMetrics → ℕ → AgentServer
new_agent_server cfg node metrics queue_size = record {
  node = node;
  cfg = cfg;
  metrics = metrics;
  queue = [];
  queue_size = queue_size;
  state = [];
}

-- The non-blocking send: the job joins the queue if there is room, and is dropped if not.
unfoldable pub enqueue_job : SyncJob → AgentServer → Bool × AgentServer
enqueue_job job a =
    if ltb (length a.queue) a.queue_size
    then (
      true,
      record a {
        queue = a.queue ++ (job ∷ []);
        metrics = record (a.metrics) { queue_depth = inc a.metrics.queue_depth };
      },
    )
    else (false, a)

unfoldable pub state_key : Text → Text → Text
state_key pod_uid if_name = pod_uid ++ (text ":" ++ if_name)

abbrev pub attached : Text
attached = text "attached"

-- The record that `updateState` writes for a request.
abbrev pub attached_state : SyncRequest → SyncResult → InterfaceState
attached_state req res = record {
  pod_uid = req.pod_uid;
  pod_name = req.pod_name;
  namespace = req.namespace;
  network_profile = req.network_profile;
  eni_id = res.eni_id;
  ipv4_addresses = res.assigned_ipv4;
  ipv6_addresses = res.assigned_ipv6;
  status = attached;
  interface_name = req.interface_name;
  mac_address = res.mac_address;
}

unfoldable pub update_state : SyncRequest → SyncResult → AgentServer → AgentServer
update_state req res a = record a {
  state = insert (state_key req.pod_uid req.interface_name) (attached_state req res) a.state;
}

unfoldable pub delete_state : ReleaseRequest → AgentServer → AgentServer
delete_state req a = record a { state = erase (state_key req.pod_uid req.interface_name) a.state }

-- A nil filter lets every record through.
unfoldable pub snapshot_states : Option (InterfaceState → Bool) → AgentServer → List InterfaceState
snapshot_states none a = values a.state
snapshot_states (some filter) a = keep filter (values a.state)

-- `handleJob` in the three parts between which other goroutines can run: before the call of the
-- manager, the call, and after it.
abbrev pub begin_job : AgentServer → AgentServer
begin_job a = record a { metrics = record (a.metrics) { in_flight = inc a.metrics.in_flight } }

-- What the manager returned for an ensure or a release job.
pub data Outcome (E : Type 0) : Type 0 where
  ensured : Result E SyncResult → Outcome E
  released : Result E (Unit {0}) → Outcome E

module _ (m : EniManager) where
  open m use {Cloud, Error, ensure_interface, release_interface}

  run_kind : JobKind → SyncJob → Cloud → Outcome Error × Cloud
  run_kind ensure job c =
      let (r, c') = ensure_interface job.profile job.ensure_req c in (ensured r, c')
  run_kind release job c =
      let (r, c') = release_interface job.profile job.rel_req c in (released r, c')

  unfoldable pub run_job : SyncJob → Cloud → Outcome Error × Cloud
  unfolding run_kind
  run_job job c = run_kind job.kind job c

-- The metrics and the state after the call.
module _ {E : Type 0} where
  unfoldable pub finish_job : SyncJob → Outcome E → AgentServer → AgentServer
  finish_job job outcome a =
      let m : AgentMetrics = record (a.metrics) { in_flight = dec a.metrics.in_flight } in
      elim outcome [
        | ensured (err e) ↦ record a {
          metrics = record m { sync_failures = bump job.profile_key m.sync_failures };
        }
        | ensured (ok res) ↦ update_state job.ensure_req res (record a {
          metrics = record m {
            sync_total = bump job.profile_key m.sync_total;
            sync_latency = bump job.profile_key m.sync_latency;
          };
        })
        | released (err e) ↦ record a {
          metrics = record m { release_failure = bump job.profile_key m.release_failure };
        }
        | released (ok _) ↦ delete_state job.rel_req (record a {
          metrics = record m { release_total = bump job.profile_key m.release_total };
        })
      ]

module _ (m : EniManager) where
  unfoldable pub handle_job : SyncJob → AgentServer → m.Cloud → AgentServer × m.Cloud
  unfolding run_job finish_job
  handle_job job a c =
      let (outcome, c') = run_job m job c in (finish_job job outcome (begin_job a), c')

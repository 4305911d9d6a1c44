-- ===== src/Agent/Invariant.antt =====
-- What holds of the agent's server between any two steps, and that its handlers and the parts of the
-- worker's round keep it.
pub mod Reached
use multus_multivpc_cni.Base.{ℕ, ◌≤◌, Text, text_eq, Option, none, some, List, [], ◌∷◌}
use multus_multivpc_cni.Base.{ok, err, length, length-append, All, All-append}
use multus_multivpc_cni.Base.{◌≡◌, refl, subst, arith, Option-cases, inl, inr}
use multus_multivpc_cni.Base.Int.{pos}
use multus_multivpc_cni.Base.Dict.{
  NodupKeys, insert-NodupKeys, erase-NodupKeys, insert-All, erase-All,
}
use multus_multivpc_cni.Config.{NetworkProfile, Config, resolve_profile}
use multus_multivpc_cni.Aws.Types.{SyncRequest, SyncResult}
use multus_multivpc_cni.Agent.Messages
use multus_multivpc_cni.Agent.Messages.{ReportRequest, InterfaceState, Pod}
use multus_multivpc_cni.Agent.Server.{
  SyncJob, ensure, release, EniManager, AgentServer, Outcome, ensured, released, attached,
  attached_state, state_key, enqueue_job, update_state, delete_state, new_agent_metrics,
  new_agent_server, begin_job, run_job, finish_job,
}
use multus_multivpc_cni.Agent.Handlers.{
  ensure_job, release_job, report_interface, release_interface, state_release, enqueue_state,
  enqueue_states, enqueue_releases_for_pod, on_pod_add, on_pod_update, on_pod_delete, pod_states,
}
use multus_multivpc_cni.Agent.Steps.{
  Worker, idle, holding, calling, returned, take_job, System, boot, Step, report, pod_add,
  pod_update, pod_delete, dequeue, begin, call, finish, drift, Reach, here, next,
}

-- The profile of a job is the one that its key names, and its request names the same key.
pub record IsHonest (cfg : Option Config) (job : SyncJob) : Type 0 where
  pub resolved : resolve_profile cfg job.profile_key ≡ some job.profile
  pub ensure_key : job.kind ≡ ensure → job.ensure_req.network_profile ≡ job.profile_key
  pub release_key : job.kind ≡ release → job.rel_req.network_profile ≡ job.profile_key

-- A record stands under the key of its Pod interface, is attached, and its profile is known.
pub record IsRecorded (cfg : Option Config) (entry : Text × InterfaceState) : Type 0 where
  pub key : entry.0 ≡ state_key entry.1.pod_uid entry.1.interface_name
  pub is_attached : entry.1.status ≡ attached
  pub known : (p : NetworkProfile) × (resolve_profile cfg entry.1.network_profile ≡ some p)

-- The worker's job came from the queue, and its outcome is one of its kind.
abbrev pub IsFor : {E : Type 0} → SyncJob → Outcome E → Type 0
IsFor job (ensured _) = job.kind ≡ ensure
IsFor job (released _) = job.kind ≡ release

-- `flying` is the number of calls under way.
pub record IsSound (cfg : Option Config) (node : Text) (size flying : ℕ) (a : AgentServer)
    : Type 0 where
  pub same_cfg : a.cfg ≡ cfg
  pub same_node : a.node ≡ node
  pub same_size : a.queue_size ≡ size
  pub fits : length a.queue ≤ size
  pub depth : a.metrics.queue_depth ≡ pos (length a.queue)
  pub in_flight : a.metrics.in_flight ≡ pos flying
  pub jobs : All (IsHonest cfg) a.queue
  pub keys : NodupKeys a.state
  pub entries : All (IsRecorded cfg) a.state

module _ (cfg : Option Config) (node : Text) (size : ℕ) where
  new_agent_server-IsSound :
      IsSound cfg node size 0 (new_agent_server cfg node new_agent_metrics size)
  unfolding new_agent_server
  new_agent_server-IsSound = ground arith

  enqueue_job-IsSound :
      (job : SyncJob) {k : ℕ} (a : AgentServer)
      → IsHonest cfg job
      → IsSound cfg node size k a
      → IsSound cfg node size k (enqueue_job job a).1
  unfolding enqueue_job
  enqueue_job-IsSound job a h v = ground (
    arith,
    length-append a.queue (job ∷ []),
    All-append (IsHonest cfg) a.queue (job ∷ []) v.jobs (h, tt),
  )

  ensure_job-IsHonest :
      (p : NetworkProfile) (req : ReportRequest)
      → resolve_profile cfg req.network_profile ≡ some p
      → IsHonest cfg (ensure_job p req)
  ensure_job-IsHonest p req e = ground arith

  release_job-IsHonest :
      (p : NetworkProfile) (req : Messages.ReleaseRequest)
      → resolve_profile cfg req.network_profile ≡ some p
      → IsHonest cfg (release_job p req)
  release_job-IsHonest p req e = ground arith

  state_release-IsHonest :
      (p : NetworkProfile) (st : InterfaceState)
      → resolve_profile cfg st.network_profile ≡ some p
      → IsHonest cfg (state_release p st)
  state_release-IsHonest p st e = ground arith

  report_interface-IsSound :
      (req : Option ReportRequest) {k : ℕ} (a : AgentServer)
      → IsSound cfg node size k a
      → IsSound cfg node size k (report_interface req a).1
  unfolding report_interface
  report_interface-IsSound none a v = v
  report_interface-IsSound (some req) {k} a v =
      elim (Option-cases (resolve_profile a.cfg req.network_profile)) [
        | inl e ↦ ground arith
        | inr (p, e) ↦
            ground
              (arith, ensure_job-IsHonest p req, enqueue_job-IsSound (ensure_job p req) {k = k} a)
      ]

  release_interface-IsSound :
      (req : Option Messages.ReleaseRequest) {k : ℕ} (a : AgentServer)
      → IsSound cfg node size k a
      → IsSound cfg node size k (release_interface req a).1
  unfolding release_interface
  release_interface-IsSound none a v = v
  release_interface-IsSound (some req) {k} a v =
      elim (Option-cases (resolve_profile a.cfg req.network_profile)) [
        | inl e ↦ ground arith
        | inr (p, e) ↦
            ground
              (arith, release_job-IsHonest p req, enqueue_job-IsSound (release_job p req) {k = k} a)
      ]

  enqueue_state-IsSound :
      (st : InterfaceState) {k : ℕ} (a : AgentServer)
      → IsSound cfg node size k a
      → IsSound cfg node size k (enqueue_state st a)
  unfolding enqueue_state
  enqueue_state-IsSound st {k} a v =
      elim (Option-cases (resolve_profile a.cfg st.network_profile)) [
        | inl e ↦ ground arith
        | inr (p, e) ↦
            ground (
              arith,
              state_release-IsHonest p st,
              enqueue_job-IsSound (state_release p st) {k = k} a,
            )
      ]

  enqueue_states-IsSound :
      (states : List InterfaceState) {k : ℕ} (a : AgentServer)
      → IsSound cfg node size k a
      → IsSound cfg node size k (enqueue_states states a)
  unfolding enqueue_states
  enqueue_states-IsSound [] a v = v
  enqueue_states-IsSound (st ∷ states) a v =
      enqueue_states-IsSound states _ (enqueue_state-IsSound st a v)

  enqueue_releases-IsSound :
      (pod : Pod) {k : ℕ} (a : AgentServer)
      → IsSound cfg node size k a
      → IsSound cfg node size k (enqueue_releases_for_pod pod a)
  unfolding enqueue_releases_for_pod
  enqueue_releases-IsSound pod a v = enqueue_states-IsSound (pod_states pod a) a v

  on_pod_add-IsSound :
      (pod : Option Pod) {k : ℕ} (a : AgentServer)
      → IsSound cfg node size k a
      → IsSound cfg node size k (on_pod_add pod a)
  unfolding on_pod_add
  on_pod_add-IsSound none a v = v
  on_pod_add-IsSound (some pod) {k} a v = ground (arith, enqueue_releases-IsSound pod {k = k} a)

  on_pod_update-IsSound :
      (old_pod new_pod : Option Pod) {k : ℕ} (a : AgentServer)
      → IsSound cfg node size k a
      → IsSound cfg node size k (on_pod_update old_pod new_pod a)
  unfolding on_pod_update
  on_pod_update-IsSound none new_pod a v = v
  on_pod_update-IsSound (some old_pod) none a v = v
  on_pod_update-IsSound (some old_pod) (some new_pod) {k} a v =
      ground (arith, enqueue_releases-IsSound new_pod {k = k} a)

  on_pod_delete-IsSound :
      (pod : Option Pod) {k : ℕ} (a : AgentServer)
      → IsSound cfg node size k a
      → IsSound cfg node size k (on_pod_delete pod a)
  unfolding on_pod_delete
  on_pod_delete-IsSound none a v = v
  on_pod_delete-IsSound (some pod) a v = enqueue_releases-IsSound pod a v

  take_job-IsSound :
      (job : SyncJob) (rest : List SyncJob) {k : ℕ} (a : AgentServer)
      → a.queue ≡ job ∷ rest
      → IsSound cfg node size k a
      → IsHonest cfg job × IsSound cfg node size k (take_job rest a)
  unfolding take_job
  take_job-IsSound job rest {k} a e v = (honest.0, ground arith)
    where
      honest : IsHonest cfg job × All (IsHonest cfg) rest
      honest = rw e at v.jobs

  begin_job-IsSound :
      (a : AgentServer) → IsSound cfg node size 0 a → IsSound cfg node size 1 (begin_job a)
  begin_job-IsSound a v = ground arith

  attached_state-IsRecorded :
      (p : NetworkProfile) (req : SyncRequest) (res : SyncResult)
      → resolve_profile cfg req.network_profile ≡ some p
      → IsRecorded cfg (state_key req.pod_uid req.interface_name, attached_state req res)
  attached_state-IsRecorded p req res e = record { key = refl; is_attached = refl; known = (p, e) }

  finish_job-IsSound :
      {E : Type 0} (job : SyncJob) (outcome : Outcome E) (a : AgentServer)
      → IsFor job outcome
      → IsHonest cfg job
      → IsSound cfg node size 1 a
      → IsSound cfg node size 0 (finish_job job outcome a)
  unfolding finish_job update_state delete_state
  finish_job-IsSound job (ensured (err e)) a f h v = ground arith
  finish_job-IsSound job (ensured (ok res)) a f h v = ground (
    arith,
    insert-NodupKeys (state_key job.ensure_req.pod_uid job.ensure_req.interface_name)
        (attached_state job.ensure_req res) a.state v.keys,
    insert-All (IsRecorded cfg) (state_key job.ensure_req.pod_uid job.ensure_req.interface_name)
        (attached_state job.ensure_req res) a.state
        (attached_state-IsRecorded job.profile job.ensure_req res (rw (h.ensure_key f) h.resolved))
        v.entries,
  )
  finish_job-IsSound job (released (err e)) a f h v = ground arith
  finish_job-IsSound job (released (ok _)) a f h v = ground (
    arith,
    erase-NodupKeys (state_key job.rel_req.pod_uid job.rel_req.interface_name) a.state v.keys,
    erase-All (IsRecorded cfg) (state_key job.rel_req.pod_uid job.rel_req.interface_name) a.state
        v.entries,
  )

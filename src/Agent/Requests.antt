-- ===== src/Agent/Requests.antt =====
-- Which requests of the CNI plugin the agent takes, and what they leave in the queue.
use multus_multivpc_cni.Base.{◌-◌, ◌<◌, text_eq, Bool, true, false, Option, none, some}
use multus_multivpc_cni.Base.{List, [], ◌∷◌, ◌++◌, Result, ok, err, length, length-append, take}
use multus_multivpc_cni.Base.{◌≡◌, ◌⊎◌, inl, inr, refl, arith, Option-cases, suc, take-nil, ◌∙◌}
use multus_multivpc_cni.Base.{keep, ◌==◌}
use multus_multivpc_cni.Base.Dict.{values}
use native.Mathlib.Decide.{dec_lt}
use mathlib.Core.List.{append_assoc, append-nil}
use multus_multivpc_cni.Base.Int.{inc}
use multus_multivpc_cni.Config.{NetworkProfile, Config, resolve_profile}
use multus_multivpc_cni.Agent.Messages.{
  ReportRequest, ReportResponse, ReleaseRequest, ReleaseResponse, InterfaceState, Pod,
}
use multus_multivpc_cni.Agent.Server.{SyncJob, AgentServer, enqueue_job, snapshot_states}
use multus_multivpc_cni.Agent.Handlers.{
  AgentError, report_response, release_response, ensure_job, release_job, report_interface,
  release_interface, state_release, enqueue_states, enqueue_releases_for_pod, pod_states,
}

-- The server with one more job at the end of its queue.
abbrev pub with_job : SyncJob → AgentServer → AgentServer
with_job job a = record a {
  queue = a.queue ++ (job ∷ []);
  metrics = record (a.metrics) { queue_depth = inc a.metrics.queue_depth };
}

abbrev pub HasRoom : AgentServer → Type 0
HasRoom a = length a.queue < a.queue_size

-- A report is for this node if it names no node or this one.
abbrev pub IsTarget : ReportRequest → AgentServer → Type 0
IsTarget req a = (req.node_name ≡ []) ⊎ (req.node_name ≡ a.node)

abbrev pub report_accepted : Result AgentError ReportResponse → Bool
report_accepted (ok r) = r.accepted
report_accepted (err e) = false

abbrev pub release_accepted : Result AgentError ReleaseResponse → Bool
release_accepted (ok r) = r.accepted
release_accepted (err e) = false

-- Why a report is taken.
pub record IsTaken (req : ReportRequest) (a : AgentServer) (p : NetworkProfile) : Type 0 where
  pub target : IsTarget req a
  pub known : resolve_profile a.cfg req.network_profile ≡ some p
  pub room : HasRoom a

-- A report that is for this node, names a known profile and finds room in the queue is accepted,
-- with its ensure job appended to the queue; an accepted one is of this sort; and one that is not
-- accepted changes nothing.
pub report_interface_accepts :
    (req : ReportRequest) (a : AgentServer)
    → ((p : NetworkProfile)
        → IsTaken req a p
        → report_interface (some req) a
          ≡ (ok (report_response true), with_job (ensure_job p req) a))
      × (report_accepted (report_interface (some req) a).0 ≡ true
          → (p : NetworkProfile) × IsTaken req a p)
      × (report_accepted (report_interface (some req) a).0 ≡ false
          → (report_interface (some req) a).1 ≡ a)
unfolding report_interface enqueue_job
report_interface_accepts req a = (
  λ p h. ground arith,
  λ h. elim (Option-cases (resolve_profile a.cfg req.network_profile)) [
    | inl e ↦ ground arith
    | inr (p, e) ↦ (p, ground arith)
  ],
  λ h. ground arith,
)

-- Why a release is taken.
pub record IsReleasable (req : ReleaseRequest) (a : AgentServer) (p : NetworkProfile) : Type 0 where
  pub known : resolve_profile a.cfg req.network_profile ≡ some p
  pub room : HasRoom a

-- A release that names a known profile and finds room in the queue is accepted, whichever node it
-- names, with its release job appended to the queue; an accepted one is of this sort; and one that
-- is not accepted changes nothing.
pub release_interface_accepts :
    (req : ReleaseRequest) (a : AgentServer)
    → ((p : NetworkProfile)
        → IsReleasable req a p
        → release_interface (some req) a
          ≡ (ok (release_response true), with_job (release_job p req) a))
      × (release_accepted (release_interface (some req) a).0 ≡ true
          → (p : NetworkProfile) × IsReleasable req a p)
      × (release_accepted (release_interface (some req) a).0 ≡ false
          → (release_interface (some req) a).1 ≡ a)
unfolding release_interface enqueue_job
release_interface_accepts req a = (
  λ p h. ground arith,
  λ h. elim (Option-cases (resolve_profile a.cfg req.network_profile)) [
    | inl e ↦ ground arith
    | inr (p, e) ↦ (p, ground arith)
  ],
  λ h. ground arith,
)

-- The releases of recorded interfaces, those with a profile that is no longer known left out.
unfoldable pub releases : Option Config → List InterfaceState → List SyncJob
releases cfg [] = []
releases cfg (st ∷ states) =
    let rest = releases cfg states in
    elim (resolve_profile cfg st.network_profile) [
      | none ↦ rest
      | some p ↦ state_release p st ∷ rest
    ]

abbrev send : SyncJob → AgentServer → AgentServer
send job a = (enqueue_job job a).1

send_all : List SyncJob → AgentServer → AgentServer
send_all [] a = a
send_all (job ∷ jobs) a = send_all jobs (send job a)

-- What a send leaves alone.
pub record SameButQueue (a b : AgentServer) : Type 0 where
  pub same_state : b.state ≡ a.state
  pub same_cfg : b.cfg ≡ a.cfg
  pub same_size : b.queue_size ≡ a.queue_size
  pub same_node : b.node ≡ a.node
  pub same_metrics : record (b.metrics) { queue_depth = a.metrics.queue_depth } ≡ a.metrics

send-SameButQueue : (job : SyncJob) (a : AgentServer) → SameButQueue a (send job a)
unfolding enqueue_job
send-SameButQueue job a = ground arith

send_all-SameButQueue : (jobs : List SyncJob) (a : AgentServer) → SameButQueue a (send_all jobs a)
unfolding send_all
send_all-SameButQueue [] a = ground arith
send_all-SameButQueue (job ∷ jobs) a =
    ground (arith, send-SameButQueue job a, send_all-SameButQueue jobs (send job a))

send_room : (job : SyncJob) (a : AgentServer) → HasRoom a → send job a ≡ with_job job a
unfolding enqueue_job
send_room job a h = ground arith

send_full : (job : SyncJob) (a : AgentServer) → ¬ HasRoom a → send job a ≡ a
unfolding enqueue_job
send_full job a h = ground arith

send-queue :
    (job : SyncJob) (jobs : List SyncJob) (a : AgentServer)
    → let b = send job a in
      b.queue ++ take (b.queue_size - length b.queue) jobs
      ≡ a.queue ++ take (a.queue_size - length a.queue) (job ∷ jobs)
send-queue job jobs a = elim (dec_lt (length a.queue) a.queue_size) [
  | yes room ↦
      let more : a.queue_size - length a.queue
          ≡ suc (a.queue_size - length (a.queue ++ (job ∷ []))) =
        omega (arith, length-append a.queue (job ∷ [])) in
      rw (send_room job a room, more) (append_assoc a.queue (job ∷ []) _)
  | no full ↦
      let none_left : a.queue_size - length a.queue ≡ 0 = omega arith in
      rw (send_full job a full, none_left)
]

-- Of the jobs that are sent one after the other the queue takes those that it has room for.
send_all-queue :
    (jobs : List SyncJob) (a : AgentServer)
    → (send_all jobs a).queue ≡ a.queue ++ take (a.queue_size - length a.queue) jobs
unfolding send_all
send_all-queue [] a = rw (take-nil, append-nil)
send_all-queue (job ∷ jobs) a = send_all-queue jobs (send job a) ∙ send-queue job jobs a

enqueue_states-send_all :
    (states : List InterfaceState) (a : AgentServer)
    → enqueue_states states a ≡ send_all (releases a.cfg states) a
unfolding enqueue_states releases send_all
enqueue_states-send_all [] a = refl
enqueue_states-send_all (st ∷ states) a =
    elim (Option-cases (resolve_profile a.cfg st.network_profile)) [
      | inl e ↦ ground (arith, enqueue_states-send_all states a)
      | inr (p, e) ↦
          let b = send (state_release p st) a in
          ground (arith, send-SameButQueue (state_release p st) a, enqueue_states-send_all states b)
    ]

pub enqueue_releases-pod_states :
    (pod : Pod) (a : AgentServer)
    → let b = enqueue_releases_for_pod pod a in
      (b.queue
        ≡ a.queue ++ take (a.queue_size - length a.queue) (releases a.cfg (pod_states pod a)))
      × SameButQueue a b
unfolding enqueue_releases_for_pod
enqueue_releases-pod_states pod a = rw (enqueue_states-send_all (pod_states pod a) a) (
  send_all-queue (releases a.cfg (pod_states pod a)) a,
  send_all-SameButQueue (releases a.cfg (pod_states pod a)) a,
)

-- A Pod's end asks for the release of the recorded interfaces with its UID, in order, and of no
-- others: those with a profile that is still known join the end of the queue as far as it has room,
-- the rest is dropped, and beside the queue and its gauge nothing changes.
pub enqueue_releases_for_pod_lem :
    (pod : Pod) (a : AgentServer)
    → let b = enqueue_releases_for_pod pod a in
      let recorded = keep (λ st. st.pod_uid == pod.uid) (values a.state) in
      (b.queue ≡ a.queue ++ take (a.queue_size - length a.queue) (releases a.cfg recorded))
      × SameButQueue a b
unfolding snapshot_states
enqueue_releases_for_pod_lem pod a = enqueue_releases-pod_states pod a

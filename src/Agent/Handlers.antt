-- ===== src/Agent/Handlers.antt =====
-- The gRPC methods and the Pod hooks of cmd/multivpc-eni-agent/main.go. Each returns its answer
-- and the new server.
use multus_multivpc_cni.Base.{Text, text, text_eq, Bool, true, false, ◌&&◌, Option, none, some}
use multus_multivpc_cni.Base.{List, [], ◌∷◌, Result, ok, err, ◌==◌, not, if◌then◌else◌}
use multus_multivpc_cni.Config.{NetworkProfile, resolve_profile}
use multus_multivpc_cni.Aws.Types.{no_sync, no_release}
use multus_multivpc_cni.Agent.Messages.{
  ReportRequest, ReportResponse, ReleaseRequest, ReleaseResponse, GetStatusRequest,
  GetStatusResponse, InterfaceState, Pod, pod_succeeded, pod_failed,
}
use multus_multivpc_cni.Agent.Server.{
  SyncJob, ensure, release, AgentServer, enqueue_job, snapshot_states,
}

-- The errors that the gRPC methods return.
pub data AgentError : Type 0 where
  request_is_nil : AgentError
  other_node : Text → AgentError
  unknown_profile : Text → AgentError

abbrev pub ensure_job : NetworkProfile → ReportRequest → SyncJob
ensure_job profile req = record {
  kind = ensure;
  profile = profile;
  profile_key = req.network_profile;
  ensure_req = record {
    pod_uid = req.pod_uid;
    pod_name = req.pod_name;
    namespace = req.namespace;
    interface_name = req.interface_name;
    network_profile = req.network_profile;
    ipv4_addresses = req.ipv4_addresses;
    ipv6_addresses = req.ipv6_addresses;
    mac_address = req.mac_address;
  };
  rel_req = no_release;
}

abbrev pub release_job : NetworkProfile → ReleaseRequest → SyncJob
release_job profile req = record {
  kind = release;
  profile = profile;
  profile_key = req.network_profile;
  ensure_req = no_sync;
  rel_req = record {
    pod_uid = req.pod_uid;
    namespace = req.namespace;
    pod_name = req.pod_name;
    interface_name = req.interface_name;
    network_profile = req.network_profile;
  };
}

abbrev pub queue_message : Bool → Text
queue_message enqueued = if enqueued then text "queued" else text "queue full, dropped"

abbrev pub report_response : Bool → ReportResponse
report_response enqueued = record {
  accepted = enqueued;
  message = queue_message enqueued;
  eni_id = [];
  attachment_id = [];
  mac_address = [];
}

abbrev pub release_response : Bool → ReleaseResponse
release_response enqueued = record { accepted = enqueued; message = queue_message enqueued }

-- `none` is a nil request.
unfoldable pub report_interface :
    Option ReportRequest → AgentServer → Result AgentError ReportResponse × AgentServer
report_interface none a = (err request_is_nil, a)
report_interface (some req) a =
    if not (req.node_name == []) && not (req.node_name == a.node)
    then (err (other_node req.node_name), a)
    else elim (resolve_profile a.cfg req.network_profile) [
      | none ↦ (err (unknown_profile req.network_profile), a)
      | some profile ↦
          let (enqueued, a') = enqueue_job (ensure_job profile req) a in
          (ok (report_response enqueued), a')
    ]

unfoldable pub release_interface :
    Option ReleaseRequest → AgentServer → Result AgentError ReleaseResponse × AgentServer
release_interface none a = (err request_is_nil, a)
release_interface (some req) a = elim (resolve_profile a.cfg req.network_profile) [
  | none ↦ (err (unknown_profile req.network_profile), a)
  | some profile ↦
      let (enqueued, a') = enqueue_job (release_job profile req) a in
      (ok (release_response enqueued), a')
]

-- The filter of `GetStatus`: an empty field of the request matches every record.
unfoldable pub status_filter : Option GetStatusRequest → InterfaceState → Bool
status_filter none st = true
status_filter (some req) st =
    if not (req.pod_uid == []) && not (st.pod_uid == req.pod_uid)
    then false
    else if not (req.interface_name == []) && not (st.interface_name == req.interface_name)
    then false
    else if not (req.network_profile == []) && not (st.network_profile == req.network_profile)
    then false
    else true

unfoldable pub get_status : Option GetStatusRequest → AgentServer → GetStatusResponse
unfolding status_filter
get_status req a = record {
  interfaces = snapshot_states (some (status_filter req)) a;
  warnings = [];
}

unfoldable pub is_pod_terminating : Option Pod → Bool
is_pod_terminating none = false
is_pod_terminating (some pod) = elim pod.deletion_timestamp [
  | some _ ↦ true
  | none ↦
      if pod.phase == pod_succeeded then true else if pod.phase == pod_failed then true else false
]

-- The release that `enqueueReleasesForPod` asks for a recorded interface.
abbrev pub state_release : NetworkProfile → InterfaceState → SyncJob
state_release profile st = record {
  kind = release;
  profile = profile;
  profile_key = st.network_profile;
  ensure_req = no_sync;
  rel_req = record {
    pod_uid = st.pod_uid;
    namespace = st.namespace;
    pod_name = st.pod_name;
    interface_name = st.interface_name;
    network_profile = st.network_profile;
  };
}

-- One round of the loop; a full queue drops the job, and an unknown profile is skipped.
unfoldable pub enqueue_state : InterfaceState → AgentServer → AgentServer
enqueue_state st a = elim (resolve_profile a.cfg st.network_profile) [
  | none ↦ a
  | some profile ↦ (enqueue_job (state_release profile st) a).1
]

unfoldable pub enqueue_states : List InterfaceState → AgentServer → AgentServer
unfolding enqueue_state
enqueue_states [] a = a
enqueue_states (st ∷ states) a = enqueue_states states (enqueue_state st a)

-- The recorded interfaces of a Pod.
abbrev pub pod_states : Pod → AgentServer → List InterfaceState
pod_states pod a = snapshot_states (some (λ st. st.pod_uid == pod.uid)) a

unfoldable pub enqueue_releases_for_pod : Pod → AgentServer → AgentServer
unfolding enqueue_states
enqueue_releases_for_pod pod a = enqueue_states (pod_states pod a) a

-- `OnPodAdd` reads the Pod through the nil test of `isPodTerminating`.
unfoldable pub on_pod_add : Option Pod → AgentServer → AgentServer
on_pod_add none a = a
on_pod_add (some pod) a =
    if is_pod_terminating (some pod) then enqueue_releases_for_pod pod a else a

unfoldable pub on_pod_update : Option Pod → Option Pod → AgentServer → AgentServer
on_pod_update none new_pod a = a
on_pod_update (some old_pod) none a = a
on_pod_update (some old_pod) (some new_pod) a =
    if not (is_pod_terminating (some old_pod)) && is_pod_terminating (some new_pod)
    then enqueue_releases_for_pod new_pod a
    else a

unfoldable pub on_pod_delete : Option Pod → AgentServer → AgentServer
on_pod_delete none a = a
on_pod_delete (some pod) a = enqueue_releases_for_pod pod a

-- ===== src/Tests/Agent.antt =====
-- Runs of the agent of cmd/multivpc-eni-agent/main.go against a manager that always succeeds.
mod Start
mod Joined
mod Gauge
use multus_multivpc_cni.Base.{
  ℕ, ◌-◌, suc, Text, text, text_eq, true, not, Option, none, some, [], ◌∷◌, ◌++◌, ok, ◌==◌, keep,
  length, take, In, ◌≡◌, ◌↔◌, refl, arith,
}
use multus_multivpc_cni.Base.Int.{pos}
use multus_multivpc_cni.Base.Dict.{lookup, values, insert}
use multus_multivpc_cni.Config.{NetworkProfile, Config, resolve_profile}
use multus_multivpc_cni.Agent.Messages.{
  ReportRequest, ReleaseRequest, GetStatusRequest, InterfaceState, Pod,
}
use multus_multivpc_cni.Agent.Server.{
  EniManager, enqueue_job, run_job, finish_job, begin_job, update_state, snapshot_states,
  new_agent_server, state_key,
}
use multus_multivpc_cni.Agent.Handlers.{
  report_interface, release_interface, report_response, release_response, ensure_job, release_job,
  get_status, pod_states, enqueue_releases_for_pod, on_pod_delete,
}
use multus_multivpc_cni.Agent.Steps.{
  System, boot, idle, Works, Reach, here, next, report, dequeue, begin, call, finish, holding,
  calling, returned, take_job,
}
use multus_multivpc_cni.Agent.Invariant.Reached.{IsConsistent, Reach-IsConsistent}
use multus_multivpc_cni.Agent.Requests.{
  with_job, report_interface_accepts, release_interface_accepts, enqueue_releases_for_pod_lem,
  releases, SameButQueue, IsTaken, IsReleasable,
}
use multus_multivpc_cni.Agent.Status.{Matches, get_status_iff}
use multus_multivpc_cni.Agent.Keys.{state_key_inj}
use multus_multivpc_cni.Agent.Drain.{
  drain, outcomes, effects, cloud_after, drain-refines, drain-Works,
}
use multus_multivpc_cni.Agent.Cleanup.{pod_delete_cleans}

abbrev green : NetworkProfile
green = record {
  subnet_id = text "subnet-1";
  security_group_ids = text "sg-1" ∷ [];
  description = [];
  preferred_eni_count = pos 1;
}

abbrev profiles : Option Config
profiles = some (record { network_profiles = some ((text "green", green) ∷ []) })

-- The cloud counts the calls.
abbrev manager : EniManager
manager = record {
  Cloud = ℕ;
  Error = Text;
  ensure_interface = λ p req c. (
    ok (record {
      eni_id = text "eni-1";
      attachment_id = text "attach-1";
      assigned_ipv4 = req.ipv4_addresses;
      assigned_ipv6 = req.ipv6_addresses;
      mac_address = req.mac_address;
    }),
    suc c,
  );
  release_interface = λ p req c. (ok tt, suc c);
}

abbrev node : Text
node = text "node-a"

abbrev request : ReportRequest
request = record {
  node_name = node;
  namespace = text "default";
  pod_name = text "web";
  pod_uid = text "uid-1";
  container_id = text "c1";
  interface_name = text "net1";
  network_profile = text "green";
  ipv4_addresses = text "10.0.0.5" ∷ [];
  ipv6_addresses = [];
  mac_address = text "02:00";
}

abbrev goodbye : ReleaseRequest
goodbye = record {
  node_name = [];
  namespace = text "default";
  pod_name = text "web";
  pod_uid = text "uid-1";
  interface_name = text "net1";
  network_profile = text "green";
}

abbrev web : Pod
web = record { uid = text "uid-1"; deletion_timestamp = none; phase = text "Running" }

abbrev start : System manager
start = boot manager profiles node 2 0

abbrev reported : System manager
reported = record start { server = (report_interface (some request) start.server).1 }

abbrev picked : System manager
picked = record reported {
  server = take_job [] reported.server;
  worker = holding (ensure_job green request);
}

abbrev begun : System manager
begun = record picked {
  server = begin_job picked.server;
  worker = calling (ensure_job green request);
}

abbrev called : System manager
called = record begun {
  worker =
      returned (ensure_job green request)
        (run_job manager (ensure_job green request) begun.cloud).0;
  cloud = (run_job manager (ensure_job green request) begun.cloud).1;
}

abbrev worked : System manager
worked = record called {
  server =
      finish_job (ensure_job green request)
        (run_job manager (ensure_job green request) begun.cloud).0 called.server;
  worker = idle;
}

reported-Reach : Reach start reported
reported-Reach = next here (report (some request) refl)

reported-queue : reported.server.queue ≡ ensure_job green request ∷ []
unfolding report_interface enqueue_job resolve_profile lookup new_agent_server text_eq
reported-queue = refl

picked-Reach : Reach start picked
picked-Reach = next reported-Reach (dequeue (ensure_job green request) [] refl reported-queue refl)

worked-Reach : Reach start worked
worked-Reach =
    next
      (next (next picked-Reach (begin (ensure_job green request) refl refl))
        (call (ensure_job green request) refl refl))
      (finish (ensure_job green request) _ refl refl)

Reach-IsConsistent_example : IsConsistent manager profiles node 2 worked
Reach-IsConsistent_example = Reach-IsConsistent manager profiles node 2 0 worked-Reach

abbrev web_state : InterfaceState
web_state = record {
  pod_uid = text "uid-1";
  pod_name = text "web";
  namespace = text "default";
  network_profile = text "green";
  eni_id = text "eni-1";
  ipv4_addresses = text "10.0.0.5" ∷ [];
  ipv6_addresses = [];
  status = text "attached";
  interface_name = text "net1";
  mac_address = text "02:00";
}

-- The interface is recorded once the worker has handled its job.
worked_state : worked.server.state ≡ (text "uid-1:net1", web_state) ∷ []
unfolding report_interface enqueue_job resolve_profile lookup new_agent_server take_job finish_job
    run_job update_state insert state_key text_eq
worked_state = refl

worked_queue : worked.server.queue ≡ []
unfolding report_interface enqueue_job resolve_profile lookup new_agent_server take_job finish_job
    run_job update_state text_eq
worked_queue = refl

worked_room : length (pod_states web worked.server) ≡ 1
unfolding report_interface enqueue_job resolve_profile lookup new_agent_server take_job finish_job
    run_job update_state insert state_key snapshot_states values text_eq
worked_room = refl

pod_delete_cleans_example :
    let b = on_pod_delete (some web) worked.server in
    (drain manager b.queue b 7).0.state
    ≡ keep (λ e. not (e.1.pod_uid == text "uid-1")) worked.server.state
pod_delete_cleans_example =
    pod_delete_cleans manager (λ p r c. refl) profiles node 2 0 web worked.server 7
      (Reach-IsConsistent manager profiles node 2 0 worked-Reach).sound worked_queue
      (omega (arith, worked_room))

drain-refines_example :
    ((k : Text)
      → lookup k (drain manager reported.server.queue reported.server 0).0.state
        ≡ effects k (lookup k reported.server.state) (outcomes manager reported.server.queue 0))
    × ((drain manager reported.server.queue reported.server 0).1
        ≡ cloud_after manager reported.server.queue 0)
drain-refines_example = drain-refines manager reported.server.queue reported.server 0

drain-Works_example :
    let (b, c) = drain manager (ensure_job green request ∷ []) reported.server 0 in
    Works reported (record { server = b; worker = idle; cloud = c }) × (b.queue ≡ [])
drain-Works_example =
    drain-Works manager (ensure_job green request ∷ []) reported refl reported-queue

request-IsTaken : IsTaken request start.server green
unfolding resolve_profile lookup text_eq new_agent_server
request-IsTaken = ground arith

report_interface_accepts_example :
    report_interface (some request) start.server
    ≡ (ok (report_response true), with_job (ensure_job green request) start.server)
report_interface_accepts_example =
    (report_interface_accepts request start.server).0 green request-IsTaken

goodbye-IsReleasable : IsReleasable goodbye worked.server green
unfolding report_interface enqueue_job resolve_profile lookup new_agent_server take_job finish_job
    run_job update_state text_eq
goodbye-IsReleasable = record { known = refl; room = omega arith }

enqueue_releases_for_pod_lem_example :
    let b = enqueue_releases_for_pod web worked.server in
    (b.queue
      ≡ worked.server.queue
        ++ take (worked.server.queue_size - length worked.server.queue) (
            releases worked.server.cfg
              (keep (λ st. st.pod_uid == web.uid) (values worked.server.state))))
    × SameButQueue worked.server b
enqueue_releases_for_pod_lem_example = enqueue_releases_for_pod_lem web worked.server

abbrev asked : GetStatusRequest
asked = record { pod_uid = text "uid-1"; interface_name = []; network_profile = [] }

get_status_iff_example :
    (In web_state (get_status (some asked) worked.server).interfaces
      ↔ (In web_state (values worked.server.state) × Matches asked web_state))
    × (In web_state (get_status none worked.server).interfaces
        ↔ In web_state (values worked.server.state))
get_status_iff_example = get_status_iff asked worked.server web_state

state_key_inj_example : (text "uid-1" ≡ text "uid-1") × (text "net1" ≡ text "net1")
state_key_inj_example =
    state_key_inj (text "uid-1") (text "uid-1") (text "net1") (text "net1") (ground arith)
      (ground arith) refl

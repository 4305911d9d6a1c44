-- ===== src/Tests/Agent/Joined.antt =====
-- Runs of the plugin's calls against the agent of the node.
use multus_multivpc_cni.Base.{ℕ, ◌≤◌, Text, text, text_eq, some, [], ◌∷◌, ok, ◌≡◌, refl, arith}
use multus_multivpc_cni.Aws.Types.{SyncResult}
use multus_multivpc_cni.Base.Int.{pos}
use multus_multivpc_cni.Agent.Messages.{GetStatusRequest, InterfaceState}
use multus_multivpc_cni.Agent.Server.{ensured, attached_state, run_job, new_agent_server}
use multus_multivpc_cni.Agent.Handlers.{ensure_job}
use multus_multivpc_cni.Agent.Steps.{System, Works, idle, here}
use multus_multivpc_cni.Agent.Invariant.Reached.{Reach-IsConsistent}
use multus_multivpc_cni.Agent.Drain.{cloud_after}
use multus_multivpc_cni.Plugin.Calls.{status_request, call_report, wait_for_attached_state}
use multus_multivpc_cni.Plugin.Joined.{Surroundings, joined}
use multus_multivpc_cni.Plugin.Joined.Laws.{ticked, IsAnswer, wait-joined}
use multus_multivpc_cni.Plugin.Joined.Answers.{report_answered}
use multus_multivpc_cni.Tests.Agent.{
  manager, node, profiles, green, request, request-IsTaken, start, worked,
}

-- A context that ends at its first tick.
abbrev alone : Surroundings manager
alone = record {
  Error = Text;
  Context = Unit {0};
  of_agent = λ e. text "agent";
  parse_mac = λ mac. ok mac;
  link_list = λ s. (ok [], s);
  link_set_up = λ attrs s. (ok tt, s);
  wait_tick = λ ctx s. (some (text "deadline exceeded"), s);
}

abbrev web_request : GetStatusRequest
web_request = status_request (text "uid-1") (text "net1") (text "green")

wait-joined_example :
    let (r, t) = wait_for_attached_state (joined alone) 1 tt web_request (pos 500_000_000) worked in
    (n : ℕ) × (n ≤ 1)
    × (t ≡ ticked alone n tt worked)
    × ((st : InterfaceState) → r ≡ ok st → IsAnswer alone web_request t st)
wait-joined_example = wait-joined alone 1 tt web_request (pos 500_000_000) worked

abbrev answer : SyncResult
answer = record {
  eni_id = text "eni-1";
  attachment_id = text "attach-1";
  assigned_ipv4 = text "10.0.0.5" ∷ [];
  assigned_ipv6 = [];
  mac_address = text "02:00";
}

managed :
    (run_job manager
      (ensure_job green request)
      (cloud_after manager start.server.queue start.cloud)).0
    ≡ ensured (ok answer)
unfolding run_job cloud_after new_agent_server
managed = refl

report_answered_example :
    let (r, s1) = call_report (joined alone) request start in
    (r ≡ ok tt)
    × (t : System manager) × Works s1 t
    × (t.worker ≡ idle)
    × (t.server.queue ≡ [])
    × (wait_for_attached_state (joined alone) 1 tt web_request (pos 500_000_000) t
        ≡ (ok (attached_state (ensure_job green request).ensure_req answer), t))
report_answered_example =
    report_answered profiles node 2 alone tt 0 green request answer (pos 500_000_000) start refl
      (Reach-IsConsistent manager profiles node 2 0 here) refl request-IsTaken (ground arith)
      (ground arith) managed (ground arith)

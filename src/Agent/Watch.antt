-- ===== src/Agent/Watch.antt =====
-- The Pod watcher of pkg/kube with the hooks of cmd/multivpc-eni-agent/main.go as its handler.
use multus_multivpc_cni.Base.{
  Text, ok, not, ◌&&◌, Option, none, some, List, [], ◌∷◌, if◌then◌else◌, ◌≡◌, refl, sym, inl, inr,
  Option-cases, Result-cases, arith,
}
use multus_multivpc_cni.Kube.{
  Event, pod, tombstone, other, added, updated, deleted, PodEventHandler, dispatch, deliver,
  Informers, PodWatcher, selection, new_pod_watcher, run,
}
use multus_multivpc_cni.Agent.Messages.{Pod}
use multus_multivpc_cni.Agent.Server.{EniManager, AgentServer}
use multus_multivpc_cni.Agent.Handlers.{
  is_pod_terminating, enqueue_releases_for_pod, on_pod_add, on_pod_update, on_pod_delete,
}
use multus_multivpc_cni.Agent.Steps.{System, Reach, next, pod_add, pod_update, pod_delete}

-- The agent as the `PodEventHandler` that `main` gives to the watcher.
abbrev pub agent_handler : PodEventHandler Pod AgentServer
agent_handler = record {
  on_pod_add = on_pod_add;
  on_pod_update = on_pod_update;
  on_pod_delete = on_pod_delete;
}

-- The Pod that an event shows to have ended, if any.
abbrev pub ended_in : Event Pod → Option Pod
ended_in (added (pod (some p))) = if is_pod_terminating (some p) then some p else none
ended_in (updated (pod (some p)) (pod (some q))) =
    if not (is_pod_terminating (some p)) && is_pod_terminating (some q) then some q else none
ended_in (deleted (pod (some p))) = some p
ended_in _ = none

-- The Pods that have ended, in the order of the events.
unfoldable pub ended : List (Event Pod) → List Pod
ended [] = []
ended (e ∷ events) =
    let rest = ended events in elim (ended_in e) [ none ↦ rest | some p ↦ p ∷ rest ]

-- The releases of the records of one Pod after the other.
unfoldable pub release_each : List Pod → AgentServer → AgentServer
release_each [] a = a
release_each (p ∷ pods) a = release_each pods (enqueue_releases_for_pod p a)

dispatch_lem :
    (e : Event Pod) (a : AgentServer)
    → dispatch agent_handler e a
      ≡ elim (ended_in e) [ none ↦ a | some p ↦ enqueue_releases_for_pod p a ]
unfolding dispatch on_pod_add on_pod_update on_pod_delete
dispatch_lem (added (pod none)) a = refl
dispatch_lem (added (pod (some p))) a = ground arith
dispatch_lem (added (tombstone _ _)) a = refl
dispatch_lem (added other) a = refl
dispatch_lem (updated (pod none) (pod q)) a = refl
dispatch_lem (updated (pod (some p)) (pod none)) a = refl
dispatch_lem (updated (pod (some p)) (pod (some q))) a = ground arith
dispatch_lem (updated (pod none) (tombstone _ _)) a = refl
dispatch_lem (updated (pod (some p)) (tombstone _ _)) a = refl
dispatch_lem (updated (pod none) other) a = refl
dispatch_lem (updated (pod (some p)) other) a = refl
dispatch_lem (updated (tombstone _ _) q) a = refl
dispatch_lem (updated other q) a = refl
dispatch_lem (deleted (pod none)) a = refl
dispatch_lem (deleted (pod (some p))) a = refl
dispatch_lem (deleted (tombstone _ _)) a = refl
dispatch_lem (deleted other) a = refl

deliver_lem :
    (events : List (Event Pod)) (a : AgentServer)
    → deliver agent_handler events a ≡ release_each (ended events) a
unfolding deliver release_each ended
deliver_lem [] a = refl
deliver_lem (e ∷ events) a = elim (Option-cases (ended_in e)) [
  | inl h ↦ ground (arith, dispatch_lem e a, deliver_lem events a)
  | inr (p, h) ↦ ground (arith, dispatch_lem e a, deliver_lem events (enqueue_releases_for_pod p a))
]

new_pod_watcher-ok :
    (i : Informers Pod) (node : Text) {w : PodWatcher i AgentServer}
    → new_pod_watcher i node agent_handler ≡ ok w
    → record { informer = i.new_informer (selection node); handler = agent_handler } ≡ w
unfolding new_pod_watcher
new_pod_watcher-ok i node h =
    elim (Result-cases (i.add_event_handler (i.new_informer (selection node)))) [
      | inl (e, r) ↦ absurd (ground arith)
      | inr (_, r) ↦ ground arith
    ]

module _ {m : EniManager} where
  -- Each event that reaches a hook is a step of the agent, and the others change nothing.
  dispatch-Reach :
      {s : System m} (e : Event Pod) (t : System m)
      → Reach s t
      → Reach s (record t { server = dispatch agent_handler e t.server })
  unfolding dispatch
  dispatch-Reach (added (pod p)) t r = next r (pod_add p refl)
  dispatch-Reach (added (tombstone _ _)) t r = r
  dispatch-Reach (added other) t r = r
  dispatch-Reach (updated (pod p) (pod q)) t r = next r (pod_update p q refl)
  dispatch-Reach (updated (pod p) (tombstone _ _)) t r = r
  dispatch-Reach (updated (pod p) other) t r = r
  dispatch-Reach (updated (tombstone _ _) q) t r = r
  dispatch-Reach (updated other q) t r = r
  dispatch-Reach (deleted (pod p)) t r = next r (pod_delete p refl)
  dispatch-Reach (deleted (tombstone _ _)) t r = r
  dispatch-Reach (deleted other) t r = r

  deliver-Reach :
      {s : System m} (events : List (Event Pod)) (t : System m)
      → Reach s t
      → Reach s (record t { server = deliver agent_handler events t.server })
  unfolding deliver
  deliver-Reach [] t r = r
  deliver-Reach (e ∷ events) t r = deliver-Reach events _ (dispatch-Reach e t r)

  -- A watcher of the agent that was created for a node does with the events of the node's Pods what
  -- the releases of the records of the Pods do that have ended, one Pod after the other in the order
  -- of the events: those that were added terminating, those whose update is the first to show them
  -- terminating, and those that were deleted. An object that is not a Pod, among them the tombstone
  -- of a missed deletion, releases nothing. From a state that the agent reaches, it reaches the new
  -- one by its own steps.
  pub run-agent_handler :
      (i : Informers Pod) (node : Text) {w : PodWatcher i AgentServer} {s t : System m}
      → new_pod_watcher i node agent_handler ≡ ok w
      → Reach s t
      → (run i w t.server
          ≡ release_each (ended (i.delivered (i.new_informer (selection node)))) t.server)
        × Reach s (record t { server = run i w t.server })
  unfolding run
  run-agent_handler i node {w} {s} {t} h r = rw (sym (new_pod_watcher-ok i node h)) (
    deliver_lem (i.delivered (i.new_informer (selection node))) t.server,
    deliver-Reach (i.delivered (i.new_informer (selection node))) t r,
  )

-- ===== src/Taint/Controller.antt =====
-- cmd/multivpc-taint-controller/main.go: one round of the controller. It taints the nodes that have
-- no ready agent Pod, and takes the taint away from those that have one.
use multus_multivpc_cni.Base.{
  Text, text, text_eq, Bool, true, false, ◌&&◌, ◌||◌, not, Option, none, some, List, [], ◌∷◌,
  Result, ok, err, ◌==◌, if◌then◌else◌,
}
use multus_multivpc_cni.Base.Int.{ℤ}
use multus_multivpc_cni.Base.Dict.{Dict, lookup, insert}
use multus_multivpc_cni.Taint.{Node, has_taint, ensure_taint, remove_taint}

pub record Condition : Type 0 where
  pub type : Text
  pub status : Text

-- The fields of `corev1.Pod` that the controller reads.
pub record Pod : Type 0 where
  pub node_name : Text
  pub phase : Text
  pub conditions : List Condition

pub record Config : Type 0 where
  pub taint_key : Text
  pub taint_value : Text
  pub taint_effect : Text
  pub watch_only_tainted : Bool
  pub target_node_selector : Text
  pub agent_namespace : Text
  pub agent_pod_selector : Text
  pub poll_interval : ℤ

-- The Kubernetes API over the state of the cluster, and `retry.RetryOnConflict`.
pub record Cluster : Type 1 where
  pub State : Type 0
  pub Error : Type 0
  -- The Pods of a namespace that a label selector picks.
  pub list_pods : Text → Text → State → Result Error (List Pod) × State
  -- The nodes that a label selector picks; without one, all of them.
  pub list_nodes : Option Text → State → Result Error (List Node) × State
  pub get_node : Text → State → Result Error Node × State
  pub update_node : Node → State → Result Error (Unit {0}) × State
  pub retry_on_conflict :
      (State → Result Error (Unit {0}) × State) → State → Result Error (Unit {0}) × State

-- The errors that a round returns.
pub data ReconcileError (E : Type 0) : Type 0 where
  list_agent_pods list_nodes_failed : E → ReconcileError E

abbrev pod_running : Text
pod_running = text "Running"

abbrev pod_ready : Text
pod_ready = text "Ready"

abbrev condition_true : Text
condition_true = text "True"

unfoldable pub any_ready : List Condition → Bool
any_ready [] = false
any_ready (cond ∷ conditions) =
    let rest = any_ready conditions in
    if cond.type == pod_ready && cond.status == condition_true then true else rest

unfoldable pub is_pod_ready : Pod → Bool
unfolding any_ready
is_pod_ready pod = if not (pod.phase == pod_running) then false else any_ready pod.conditions

-- The loop that marks the nodes of the ready Pods.
unfoldable pub mark_ready : List Pod → Dict Bool → Dict Bool
unfolding is_pod_ready
mark_ready [] ready = ready
mark_ready (pod ∷ pods) ready = mark_ready pods (
    if pod.node_name == []
    then ready
    else if is_pod_ready pod
    then insert pod.node_name true ready
    else ready)

-- `ready[name]`: a node that is not in the map is not ready.
unfoldable pub is_ready : Dict Bool → Text → Bool
is_ready ready name = elim (lookup name ready) [ none ↦ false | some b ↦ b ]

unfoldable pub change_taint : Bool → Config → Node → Node × Bool
change_taint agent_ready cfg node =
    if agent_ready
    then remove_taint node cfg.taint_key cfg.taint_value cfg.taint_effect
    else ensure_taint node cfg.taint_key cfg.taint_value cfg.taint_effect

module _ (k : Cluster) where
  open k use {State, Error}

  unfoldable pub build_agent_ready_map : Text → Text → State → Result Error (Dict Bool) × State
  unfolding mark_ready
  build_agent_ready_map namespace selector s =
      let (r, s') = k.list_pods namespace selector s in
      elim r [ err e ↦ (err e, s') | ok pods ↦ (ok (mark_ready pods []), s') ]

  -- One attempt of `syncNodeTaint`.
  unfoldable pub sync_once : Text → Bool → Config → State → Result Error (Unit {0}) × State
  unfolding change_taint
  sync_once name agent_ready cfg s =
      let (r, s') = k.get_node name s in
      elim r [
        | err e ↦ (err e, s')
        | ok node ↦
            let (node', changed) = change_taint agent_ready cfg node in
            if changed then k.update_node node' s' else (ok tt, s')
      ]

  unfoldable pub sync_node_taint : Text → Bool → Config → State → Result Error (Unit {0}) × State
  unfolding sync_once
  sync_node_taint name agent_ready cfg = k.retry_on_conflict (sync_once name agent_ready cfg)

  abbrev pub is_managed : Config → Node → Bool
  is_managed cfg node =
      not cfg.watch_only_tainted || has_taint node cfg.taint_key cfg.taint_value cfg.taint_effect

  -- The loop over the nodes; what goes wrong with one node is logged.
  unfoldable pub sync_nodes : List Node → Dict Bool → Config → State → State
  unfolding sync_node_taint is_ready
  sync_nodes [] ready cfg s = s
  sync_nodes (node ∷ nodes) ready cfg s = sync_nodes nodes ready cfg (
      if not (is_managed cfg node)
      then s
      else (sync_node_taint node.name (is_ready ready node.name) cfg s).1)

  abbrev pub node_selector : Config → Option Text
  node_selector cfg = if cfg.target_node_selector == [] then none else some cfg.target_node_selector

  unfoldable pub reconcile : Config → State → Result (ReconcileError Error) (Unit {0}) × State
  unfolding build_agent_ready_map sync_nodes
  reconcile cfg s =
      let (r, s1) = build_agent_ready_map cfg.agent_namespace cfg.agent_pod_selector s in
      elim r [
        | err e ↦ (err (list_agent_pods e), s1)
        | ok ready ↦
            let (listed, s2) = k.list_nodes (node_selector cfg) s1 in
            elim listed [
              | err e ↦ (err (list_nodes_failed e), s2)
              | ok nodes ↦ (ok tt, sync_nodes nodes ready cfg s2)
            ]
      ]

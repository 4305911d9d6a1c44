-- ===== src/Taint/Wanted.antt =====
-- The taints that cmd/multivpc-taint-controller/main.go wants on a node, and the nodes that it takes
-- for served.
use multus_multivpc_cni.Base.{
  Text, text_eq, Bool, true, false, not, List, [], ◌∷◌, ◌++◌, if◌then◌else◌, ◌≡◌, ◌≢◌, ◌↔◌, ◌⊎◌,
  refl, arith, Any,
}
use multus_multivpc_cni.Base.Dict.{Dict, lookup, insert, lookup-insert}
use multus_multivpc_cni.Taint.{Taint, Node, any_agrees, has_taint, new_taint, ensure_taint}
use multus_multivpc_cni.Taint.Laws.{
  others, others-added, remove_taint_eq, any_agrees-others, any_agrees-append, any_agrees-new,
  others_of_none,
}
use multus_multivpc_cni.Taint.Controller.{
  Pod, Config, is_pod_ready, mark_ready, is_ready, change_taint,
}

-- A node is marked exactly if a ready agent Pod is bound to it.
abbrev pub IsServed : List Pod → Text → Type 0
IsServed pods name = Any (λ p. (p.node_name ≡ name) × (name ≢ []) × (is_pod_ready p ≡ true)) pods

pub mark_ready-is_ready :
    (pods : List Pod) (ready : Dict Bool) (name : Text)
    → (is_ready (mark_ready pods ready) name ≡ true)
      ↔ (IsServed pods name ⊎ (is_ready ready name ≡ true))
unfolding mark_ready is_ready
mark_ready-is_ready [] ready name = ground arith
mark_ready-is_ready (pod ∷ pods) ready name = ground (
  arith,
  mark_ready-is_ready pods ready name,
  mark_ready-is_ready pods (insert pod.node_name true ready) name,
  lookup-insert name pod.node_name true ready,
)

pub is_ready_nil : (name : Text) → is_ready [] name ≡ false
unfolding is_ready lookup
is_ready_nil name = refl

-- The taints that a node should have, from those that it has.
pub wanted : Bool → Config → List Taint → List Taint
wanted agent_ready cfg taints =
    if agent_ready
    then others cfg.taint_key cfg.taint_value cfg.taint_effect taints
    else if any_agrees cfg.taint_key cfg.taint_value cfg.taint_effect taints
    then taints
    else taints ++ (new_taint cfg.taint_key cfg.taint_value cfg.taint_effect ∷ [])

module _ (cfg : Config) where
  abbrev pub tainted : List Taint → Bool
  tainted = any_agrees cfg.taint_key cfg.taint_value cfg.taint_effect

  pub change_taint-wanted :
      (agent_ready : Bool) (node : Node)
      → let (node', changed) = change_taint agent_ready cfg node in
        (node' ≡ record node { taints = wanted agent_ready cfg node.taints })
        × (changed ≡ false → wanted agent_ready cfg node.taints ≡ node.taints)
  unfolding change_taint ensure_taint has_taint wanted
  change_taint-wanted true node = ground (
    arith,
    remove_taint_eq cfg.taint_key cfg.taint_value cfg.taint_effect node,
    others_of_none cfg.taint_key cfg.taint_value cfg.taint_effect node.taints,
  )
  change_taint-wanted false node = ground arith

  pub tainted-wanted :
      (agent_ready : Bool) (taints : List Taint)
      → tainted (wanted agent_ready cfg taints) ≡ not agent_ready
  unfolding wanted
  tainted-wanted true taints =
      any_agrees-others cfg.taint_key cfg.taint_value cfg.taint_effect taints
  tainted-wanted false taints = ground (
    arith,
    any_agrees-new cfg.taint_key cfg.taint_value cfg.taint_effect,
    any_agrees-append cfg.taint_key cfg.taint_value cfg.taint_effect taints
        (new_taint cfg.taint_key cfg.taint_value cfg.taint_effect ∷ []),
  )

  wanted_of_tainted :
      (taints : List Taint) → tainted taints ≡ true → wanted false cfg taints ≡ taints
  unfolding wanted
  wanted_of_tainted taints h = ground arith

  pub wanted-wanted :
      (agent_ready : Bool) (taints : List Taint)
      → wanted agent_ready cfg (wanted agent_ready cfg taints) ≡ wanted agent_ready cfg taints
  unfolding wanted
  wanted-wanted true taints =
      others_of_none cfg.taint_key cfg.taint_value cfg.taint_effect
        (others cfg.taint_key cfg.taint_value cfg.taint_effect taints)
        (any_agrees-others cfg.taint_key cfg.taint_value cfg.taint_effect taints)
  wanted-wanted false taints =
      wanted_of_tainted (wanted false cfg taints) (tainted-wanted false taints)

  pub others-wanted :
      (agent_ready : Bool) (taints : List Taint)
      → others cfg.taint_key cfg.taint_value cfg.taint_effect (wanted agent_ready cfg taints)
        ≡ others cfg.taint_key cfg.taint_value cfg.taint_effect taints
  unfolding wanted
  others-wanted true taints =
      others_of_none cfg.taint_key cfg.taint_value cfg.taint_effect
        (others cfg.taint_key cfg.taint_value cfg.taint_effect taints)
        (any_agrees-others cfg.taint_key cfg.taint_value cfg.taint_effect taints)
  others-wanted false taints =
      ground (arith, others-added cfg.taint_key cfg.taint_value cfg.taint_effect taints)

-- ===== src/Tests/Taint.antt =====
-- Runs of the taint controller of cmd/multivpc-taint-controller/main.go in a cluster of one node.
mod Loop
use multus_multivpc_cni.Base.{
  Text, text, text_eq, true, false, not, Option, none, some, List, [], ◌∷◌, ok, err, ◌==◌,
  if◌then◌else◌, ◌≡◌, refl, arith, sym,
}
use multus_multivpc_cni.Base.Int.{pos}
use mathlib.Core.Logic.{if_pos}
use multus_multivpc_cni.Base.Dict.{lookup, insert}
use multus_multivpc_cni.Taint.{Taint, Node, has_taint, ensure_taint, remove_taint, new_taint}
use multus_multivpc_cni.Taint.Laws.{others, ensure_taint_lem, remove_taint_lem, remove-ensure_taint}
use multus_multivpc_cni.Taint.Controller.{Pod, Config, Cluster, reconcile}
use multus_multivpc_cni.Taint.Quiet.{IsQuiet}
use multus_multivpc_cni.Taint.Converges.{IsConverged, reconcile_converges}

abbrev key : Text
key = text "multus/not-ready"

abbrev value : Text
value = text "true"

abbrev effect : Text
effect = text "NoSchedule"

abbrev gpu : Taint
gpu = record { key = text "gpu"; value = []; effect = effect; time_added = none }

abbrev node : List Taint → Node
node taints = record { name = text "node-a"; resource_version = []; taints = taints }

abbrev pod : Pod
pod = record {
  node_name = text "node-a";
  phase = text "Running";
  conditions = record { type = text "Ready"; status = text "True" } ∷ [];
}

abbrev config : Config
config = record {
  taint_key = key;
  taint_value = value;
  taint_effect = effect;
  watch_only_tainted = false;
  target_node_selector = [];
  agent_namespace = text "kube-system";
  agent_pod_selector = text "app=multus";
  poll_interval = pos 10_000_000_000;
}

-- The state is the taints of the node.
abbrev cluster : Cluster
cluster = record {
  State = List Taint;
  Error = Text;
  list_pods = λ ns sel s. (ok (pod ∷ []), s);
  list_nodes = λ sel s. (ok (node s ∷ []), s);
  get_node =
      λ name s. if name == text "node-a" then (ok (node s), s) else (err (text "not found"), s);
  update_node =
      λ n s. if n.name == text "node-a" then (ok tt, n.taints) else (err (text "not found"), s);
  retry_on_conflict = λ attempt s. attempt s;
}

abbrev taints_at : List Taint → Text → Option (List Taint)
taints_at s j = if j == text "node-a" then some s else none

named :
    (s : List Taint) (name : Text) (taints : List Taint)
    → taints_at s name ≡ some taints
    → (name ≡ text "node-a") × (s ≡ taints)
named s name taints h = ground arith

got : (n : Node) (s : List Taint) → cluster.get_node n.name s ≡ (ok n, s) → n.name ≡ text "node-a"
got n s h = ground arith

updated :
    (s taints : List Taint) (j : Text)
    → taints_at taints j ≡ (if j == text "node-a" then some taints else taints_at s j)
updated s taints j = ground arith

home : (s : List Taint) → taints_at s (text "node-a") ≡ some s
home s = ground arith

abbrev quiet : IsQuiet cluster
quiet = record {
  pods_at = λ ns sel s. pod ∷ [];
  nodes_at = λ sel s. node s ∷ [];
  taints_of = taints_at;
  list_pods_lem = λ ns sel s. refl;
  list_nodes_lem = λ sel s. refl;
  listed = λ sel s. (home s, tt);
  get_node_lem = λ name s taints h.
      let (same, e) = named s name taints h in (node s, rw (if_pos _ same) refl, sym same, e);
  update_node_lem = λ n s taints h.
      let p = got n s h in (rw (if_pos _ p) refl, λ j. rw (if_pos _ p, p) (updated s taints j));
  retry_lem = λ attempt s h. refl;
}

reconcile_converges_example :
    let s = new_taint key value effect ∷ gpu ∷ [] in
    let (r, s') = reconcile cluster config s in
    (r ≡ ok tt)
    × (after : List Taint) × (taints_at s' (text "node-a") ≡ some after)
    × IsConverged cluster quiet config (pod ∷ []) (node s ∷ []) (text "node-a") s after
reconcile_converges_example =
    reconcile_converges cluster quiet config (new_taint key value effect ∷ gpu ∷ []) (text "node-a")
      (new_taint key value effect ∷ gpu ∷ []) (home (new_taint key value effect ∷ gpu ∷ []))

-- The taint goes, as the node has a ready agent Pod.
reconciled : reconcile cluster config (new_taint key value effect ∷ gpu ∷ []) ≡ (ok tt, gpu ∷ [])
unfolding reconcile remove_taint text_eq lookup insert
reconciled = refl

ensure_taint_lem_example :
    let (node', changed) = ensure_taint (node (gpu ∷ [])) key value effect in
    (has_taint node' key value effect ≡ true)
    × (changed ≡ not (has_taint (node (gpu ∷ [])) key value effect))
    × (ensure_taint node' key value effect ≡ (node', false))
ensure_taint_lem_example = ensure_taint_lem key value effect (node (gpu ∷ []))

remove_taint_lem_example :
    let n = node (new_taint key value effect ∷ gpu ∷ []) in
    let (node', changed) = remove_taint n key value effect in
    (node' ≡ record n { taints = others key value effect n.taints })
    × (has_taint node' key value effect ≡ false)
    × (changed ≡ has_taint n key value effect)
    × (remove_taint node' key value effect ≡ (node', false))
remove_taint_lem_example =
    remove_taint_lem key value effect (node (new_taint key value effect ∷ gpu ∷ []))

remove-ensure_taint_example :
    remove_taint (ensure_taint (node (gpu ∷ [])) key value effect).0 key value effect
    ≡ (node (gpu ∷ []), true)
unfolding has_taint text_eq
remove-ensure_taint_example = remove-ensure_taint key value effect (node (gpu ∷ [])) refl

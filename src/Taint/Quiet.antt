-- ===== src/Taint/Quiet.antt =====
-- One `syncNodeTaint` of cmd/multivpc-taint-controller/main.go in a cluster that nobody else changes
-- meanwhile.
use multus_multivpc_cni.Base.{
  Text, text_eq, Bool, true, false, Option, some, List, Result, ok, ◌==◌, if◌then◌else◌, ◌≡◌, inl,
  inr, refl, sym, subst, arith, All, Bool-cases,
}
use mathlib.Core.Path.{subst₂}
use mathlib.Core.Logic.{if_pos, if_neg}
use multus_multivpc_cni.Taint.{Taint, Node}
use multus_multivpc_cni.Taint.Laws.{}
use multus_multivpc_cni.Taint.Controller.{
  Pod, Config, Cluster, change_taint, sync_once, sync_node_taint,
}
use multus_multivpc_cni.Taint.Wanted.{wanted, change_taint-wanted}

pub if_then :
    {A : Type 0} {x y : A}
    → (z : A) (b : Bool) → (b ≡ true → x ≡ y)
    → (if b then x else z) ≡ (if b then y else z)
if_then z true h = h refl
if_then z false h = refl

-- What the round relies on while nobody else writes: the API answers from the state, an update of a
-- node that has just been read succeeds and shows in that node's taints alone, and the retry
-- helper returns the first success.
pub record IsQuiet (k : Cluster) : Type 0 where
  pub pods_at : Text → Text → k.State → List Pod
  pub nodes_at : Option Text → k.State → List Node
  pub taints_of : k.State → Text → Option (List Taint)
  pub list_pods_lem :
      (ns sel : Text) (s : k.State) → k.list_pods ns sel s ≡ (ok (pods_at ns sel s), s)
  pub list_nodes_lem :
      (sel : Option Text) (s : k.State) → k.list_nodes sel s ≡ (ok (nodes_at sel s), s)
  pub listed :
      (sel : Option Text) (s : k.State)
      → All (λ n. taints_of s n.name ≡ some n.taints) (nodes_at sel s)
  pub get_node_lem :
      (name : Text) (s : k.State) (taints : List Taint)
      → taints_of s name ≡ some taints
      → (node : Node) × (k.get_node name s ≡ (ok node, s))
        × (node.name ≡ name)
        × (node.taints ≡ taints)
  pub update_node_lem :
      (node : Node) (s : k.State) (taints : List Taint)
      → k.get_node node.name s ≡ (ok node, s)
      → ((k.update_node (record node { taints = taints }) s).0 ≡ ok tt)
        × ((j : Text)
            → taints_of (k.update_node (record node { taints = taints }) s).1 j
              ≡ (if j == node.name then some taints else taints_of s j))
  pub retry_lem :
      (attempt : k.State → Result k.Error (Unit {0}) × k.State) (s : k.State)
      → (attempt s).0 ≡ ok tt
      → k.retry_on_conflict attempt s ≡ attempt s

module _ (k : Cluster) (q : IsQuiet k) (cfg : Config) where
  -- The node's taints are the wanted ones, and no other node's have changed.
  pub record IsSynced (name : Text) (agent_ready : Bool) (taints : List Taint) (s : k.State)
      (x : Result k.Error (Unit {0}) × k.State) : Type 0 where
    pub succeeds : x.0 ≡ ok tt
    pub view :
        (j : Text)
        → q.taints_of x.1 j
          ≡ (if j == name then some (wanted agent_ready cfg taints) else q.taints_of s j)

  sync_once-got :
      (name : Text) (agent_ready : Bool) (s : k.State) (node : Node)
      → k.get_node name s ≡ (ok node, s)
      → sync_once k name agent_ready cfg s ≡ (
          let (node', changed) = change_taint agent_ready cfg node in
          if changed then k.update_node node' s else (ok tt, s))
  unfolding sync_once
  sync_once-got name agent_ready s node got = ground arith

  update-IsSynced :
      (agent_ready : Bool) (s : k.State) (node : Node)
      → k.get_node node.name s ≡ (ok node, s)
      → IsSynced node.name agent_ready node.taints s
          (k.update_node (record node { taints = wanted agent_ready cfg node.taints }) s)
  update-IsSynced agent_ready s node got =
      let (fine, view) = q.update_node_lem node s (wanted agent_ready cfg node.taints) got in
      record { succeeds = fine; view = view }

  unchanged-IsSynced :
      (agent_ready : Bool) (s : k.State) (node : Node)
      → q.taints_of s node.name ≡ some node.taints
      → wanted agent_ready cfg node.taints ≡ node.taints
      → IsSynced node.name agent_ready node.taints s (ok tt, s)
  unchanged-IsSynced agent_ready s node h same = record {
    succeeds = refl;
    view = λ j. elim (text_eq.dec j node.name) [
      | yes p ↦ rw (if_pos _ p, p, same) h
      | no n ↦ rw (if_neg _ n)
    ];
  }

  change-IsSynced :
      (agent_ready : Bool) (s : k.State) (node : Node)
      → k.get_node node.name s ≡ (ok node, s)
      → q.taints_of s node.name ≡ some node.taints
      → IsSynced node.name agent_ready node.taints s (
          let (node', changed) = change_taint agent_ready cfg node in
          if changed then k.update_node node' s else (ok tt, s))
  change-IsSynced agent_ready s node got h =
      elim (Bool-cases (change_taint agent_ready cfg node).1) [
        | inl e ↦
            rw (e, (change_taint-wanted cfg agent_ready node).0)
              (update-IsSynced agent_ready s node got)
        | inr e ↦ rw e (
            unchanged-IsSynced agent_ready s node h
              ((change_taint-wanted cfg agent_ready node).1 e))
      ]

  sync_read-IsSynced :
      (agent_ready : Bool) (s : k.State) (node : Node)
      → k.get_node node.name s ≡ (ok node, s)
      → q.taints_of s node.name ≡ some node.taints
      → IsSynced node.name agent_ready node.taints s (sync_once k node.name agent_ready cfg s)
  sync_read-IsSynced agent_ready s node got h =
      rw (sync_once-got node.name agent_ready s node got) (change-IsSynced agent_ready s node got h)

  sync_once-IsSynced :
      (name : Text) (agent_ready : Bool) (s : k.State) (taints : List Taint)
      → q.taints_of s name ≡ some taints
      → IsSynced name agent_ready taints s (sync_once k name agent_ready cfg s)
  sync_once-IsSynced name agent_ready s taints h =
      let (node, got, same_name, same_taints) = q.get_node_lem name s taints h in
      subst₂ (λ n ts. IsSynced n agent_ready ts s (sync_once k n agent_ready cfg s)) same_name
        same_taints
        (sync_read-IsSynced agent_ready s node
          (subst (λ n. k.get_node n s ≡ (ok node, s)) (sym same_name) got)
          (subst₂ (λ n ts. q.taints_of s n ≡ some ts) (sym same_name) (sym same_taints) h))

  pub sync_node-IsSynced :
      (name : Text) (agent_ready : Bool) (s : k.State) (taints : List Taint)
      → q.taints_of s name ≡ some taints
      → IsSynced name agent_ready taints s (sync_node_taint k name agent_ready cfg s)
  unfolding sync_node_taint
  sync_node-IsSynced name agent_ready s taints h =
      let once = sync_once-IsSynced name agent_ready s taints h in
      rw (q.retry_lem (sync_once k name agent_ready cfg) s once.succeeds) once

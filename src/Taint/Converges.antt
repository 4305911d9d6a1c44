-- ===== src/Taint/Converges.antt =====
-- What one round of cmd/multivpc-taint-controller/main.go leaves in a cluster that nobody else
-- changes meanwhile.
use multus_multivpc_cni.Base.{
  Text, text_eq, ==_iff, Bool, true, false, not, ◌&&◌, Option, none, some, List, [], ◌∷◌, ok, ◌==◌,
  if◌then◌else◌, ◌≡◌, ◌↔◌, ◌⊎◌, inl, inr, refl, ap, sym, subst, ◌∙◌, arith, All, All-map,
  Bool-cases,
}
use mathlib.Core.Option
use multus_multivpc_cni.Base.Dict.{Dict}
use multus_multivpc_cni.Taint.{Taint, Node}
use multus_multivpc_cni.Taint.Laws.{others}
use multus_multivpc_cni.Taint.Controller.{
  Pod, Config, Cluster, mark_ready, is_ready, sync_node_taint, is_managed, node_selector,
  sync_nodes, build_agent_ready_map, reconcile,
}
use multus_multivpc_cni.Taint.Wanted.{
  others-wanted, IsServed, mark_ready-is_ready, is_ready_nil, wanted, tainted, tainted-wanted,
  wanted-wanted,
}
use multus_multivpc_cni.Taint.Quiet.{if_then, IsQuiet, sync_node-IsSynced}

module _ (k : Cluster) (q : IsQuiet k) (cfg : Config) where
  -- Whether the round takes care of a node of that name.
  pub manages : List Node → Text → Bool
  manages [] j = false
  manages (n ∷ nodes) j =
      let rest = manages nodes j in if is_managed k cfg n && (j == n.name) then true else rest

  abbrev pub settled : Dict Bool → Text → Option (List Taint) → Option (List Taint)
  settled ready j = Option.map (wanted (is_ready ready j) cfg)

  settled-settled :
      (ready : Dict Bool) (j : Text) (x : Option (List Taint))
      → settled ready j (settled ready j x) ≡ settled ready j x
  settled-settled ready j none = refl
  settled-settled ready j (some taints) = ap some (wanted-wanted cfg (is_ready ready j) taints)

  abbrev IsThere : k.State → Node → Type 0
  IsThere s n = (taints : List Taint) × (q.taints_of s n.name ≡ some taints)

  -- One turn of the loop.
  sync_next : Dict Bool → Node → k.State → k.State
  sync_next ready n s =
      if not (is_managed k cfg n)
      then s
      else (sync_node_taint k n.name (is_ready ready n.name) cfg s).1

  abbrev turn : Dict Bool → Node → Text → Option (List Taint) → Option (List Taint)
  turn ready n j x = if is_managed k cfg n && (j == n.name) then settled ready j x else x

  sync_managed_view :
      (ready : Dict Bool) (n : Node) (s : k.State)
      → IsThere s n
      → (j : Text)
      → q.taints_of (sync_node_taint k n.name (is_ready ready n.name) cfg s).1 j
        ≡ (if j == n.name then settled ready j (q.taints_of s j) else q.taints_of s j)
  sync_managed_view ready n s (taints, h) j =
      (sync_node-IsSynced k q cfg n.name (is_ready ready n.name) s taints h).view j
      ∙ if_then (q.taints_of s j) (j == n.name) (λ e.
        subst
          (λ i.
            some (wanted (is_ready ready n.name) cfg taints) ≡ settled ready i (q.taints_of s i))
          (sym ((==_iff j n.name).0 e)) (sym (ap (settled ready n.name) h)))

  sync_next_view :
      (ready : Dict Bool) (n : Node) (s : k.State)
      → IsThere s n
      → (j : Text) → q.taints_of (sync_next ready n s) j ≡ turn ready n j (q.taints_of s j)
  unfolding sync_next
  sync_next_view ready n s h j = elim (Bool-cases (is_managed k cfg n)) [
    | inl e ↦ rw e (sync_managed_view ready n s h j)
    | inr e ↦ rw e refl
  ]

  turn-some :
      (ready : Dict Bool) (n : Node) (j : Text) (taints : List Taint)
      → (ts : List Taint) × (turn ready n j (some taints) ≡ some ts)
  turn-some ready n j taints = elim (Bool-cases (is_managed k cfg n && (j == n.name))) [
    | inl e ↦ (wanted (is_ready ready j) cfg taints, rw e refl)
    | inr e ↦ (taints, rw e refl)
  ]

  sync_next-IsThere :
      (ready : Dict Bool) (n : Node) (s : k.State)
      → IsThere s n
      → (m : Node) → IsThere s m
      → IsThere (sync_next ready n s) m
  sync_next-IsThere ready n s h m (taints, there) =
      let (ts, e) = turn-some ready n m.name taints in
      (ts, sync_next_view ready n s h m.name ∙ ap (turn ready n m.name) there ∙ e)

  sync_nodes_turn :
      (n : Node) (nodes : List Node) (ready : Dict Bool) (s : k.State)
      → sync_nodes k (n ∷ nodes) ready cfg s ≡ sync_nodes k nodes ready cfg (sync_next ready n s)
  unfolding sync_nodes sync_next
  sync_nodes_turn n nodes ready s = refl

  turns :
      (ready : Dict Bool) (n : Node) (nodes : List Node) (j : Text) (x : Option (List Taint))
      → (if manages nodes j then settled ready j (turn ready n j x) else turn ready n j x)
        ≡ (if manages (n ∷ nodes) j then settled ready j x else x)
  unfolding manages
  turns ready n nodes j x = elim (Bool-cases (is_managed k cfg n && (j == n.name))) [
    | inl e ↦ elim (Bool-cases (manages nodes j)) [
      | inl r ↦ rw (e, r) (settled-settled ready j x)
      | inr r ↦ rw (e, r) refl
    ]
    | inr e ↦ rw e refl
  ]

  sync_nodes_view :
      (nodes : List Node) (ready : Dict Bool) (s : k.State)
      → All (IsThere s) nodes
      → (j : Text)
      → q.taints_of (sync_nodes k nodes ready cfg s) j
        ≡ (if manages nodes j then settled ready j (q.taints_of s j) else q.taints_of s j)
  unfolding sync_nodes manages
  sync_nodes_view [] ready s h j = refl
  sync_nodes_view (n ∷ nodes) ready s (there, rest) j =
      ap (λ t. q.taints_of t j) (sync_nodes_turn n nodes ready s)
      ∙ sync_nodes_view nodes ready (sync_next ready n s)
          (All-map (IsThere s) (IsThere (sync_next ready n s)) (sync_next-IsThere ready n s there)
            nodes rest)
          j
      ∙ ap (λ x. if manages nodes j then settled ready j x else x)
          (sync_next_view ready n s there j)
      ∙ turns ready n nodes j (q.taints_of s j)

  listed-IsThere :
      (s : k.State) (nodes : List Node)
      → All (λ n. q.taints_of s n.name ≡ some n.taints) nodes
      → All (IsThere s) nodes
  listed-IsThere s nodes =
      All-map (λ n. q.taints_of s n.name ≡ some n.taints) (IsThere s) (λ n h. (n.taints, h)) nodes

  abbrev pub agent_pods : k.State → List Pod
  agent_pods s = q.pods_at cfg.agent_namespace cfg.agent_pod_selector s

  abbrev pub all_nodes : k.State → List Node
  all_nodes s = q.nodes_at (node_selector k cfg) s

  build_quiet :
      (s : k.State)
      → build_agent_ready_map k cfg.agent_namespace cfg.agent_pod_selector s
        ≡ (ok (mark_ready (agent_pods s) []), s)
  unfolding build_agent_ready_map
  build_quiet s = ground (arith, q.list_pods_lem cfg.agent_namespace cfg.agent_pod_selector s)

  reconcile_quiet :
      (s : k.State)
      → reconcile k cfg s ≡ (ok tt, sync_nodes k (all_nodes s) (mark_ready (agent_pods s) []) cfg s)
  unfolding reconcile
  reconcile_quiet s = ground (arith, build_quiet s, q.list_nodes_lem (node_selector k cfg) s)

  -- What the round leaves of the taints that a node had.
  pub record IsConverged (pods : List Pod) (nodes : List Node) (name : Text)
      (before after : List Taint) : Type 0 where
    pub kept :
        others cfg.taint_key cfg.taint_value cfg.taint_effect after
        ≡ others cfg.taint_key cfg.taint_value cfg.taint_effect before
    pub decided :
        ((manages nodes name ≡ true) × ((tainted cfg after ≡ false) ↔ IsServed pods name))
        ⊎ ((manages nodes name ≡ false) × (after ≡ before))

  served-IsConverged :
      (pods : List Pod) (nodes : List Node) (name : Text) (taints : List Taint)
      → manages nodes name ≡ true
      → IsConverged pods nodes name taints (wanted (is_ready (mark_ready pods []) name) cfg taints)
  served-IsConverged pods nodes name taints m = record {
    kept = others-wanted cfg (is_ready (mark_ready pods []) name) taints;
    decided = inl (
      m,
      ground (
        arith,
        tainted-wanted cfg (is_ready (mark_ready pods []) name) taints,
        mark_ready-is_ready pods [] name,
        is_ready_nil name,
      ),
    );
  }

  view_IsConverged :
      (pods : List Pod) (nodes : List Node) (name : Text) (taints : List Taint) (s : k.State)
      → q.taints_of s name ≡ (
          if manages nodes name
          then settled (mark_ready pods []) name (some taints)
          else some taints)
      → (after : List Taint) × (q.taints_of s name ≡ some after)
        × IsConverged pods nodes name taints after
  view_IsConverged pods nodes name taints s h = elim (Bool-cases (manages nodes name)) [
    | inl e ↦ (
      wanted (is_ready (mark_ready pods []) name) cfg taints,
      h ∙ rw e refl,
      served-IsConverged pods nodes name taints e,
    )
    | inr e ↦ (taints, h ∙ rw e refl, record { kept = refl; decided = inr (e, refl) })
  ]

  -- A round in a quiet cluster succeeds. A node that it knows the taints of keeps all the taints that
  -- are not the controller's; if the round manages the node, the controller's taint is then absent
  -- exactly if a ready agent Pod is bound to the node, and else its taints are as before.
  pub reconcile_converges :
      (s : k.State) (name : Text) (taints : List Taint)
      → q.taints_of s name ≡ some taints
      → let (r, s') = reconcile k cfg s in
        (r ≡ ok tt)
        × (after : List Taint) × (q.taints_of s' name ≡ some after)
        × IsConverged (agent_pods s) (all_nodes s) name taints after
  reconcile_converges s name taints h =
      let pods = agent_pods s in
      let nodes = all_nodes s in
      let ready = mark_ready pods [] in
      let view =
        sync_nodes_view nodes ready s (listed-IsThere s nodes (q.listed (node_selector k cfg) s))
          name
        ∙ ap (λ x. if manages nodes name then settled ready name x else x) h in
      let (after, seen, converged) =
        view_IsConverged pods nodes name taints (sync_nodes k nodes ready cfg s) view in
      rw (reconcile_quiet s) (refl, after, seen, converged)

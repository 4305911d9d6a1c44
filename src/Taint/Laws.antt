-- ===== src/Taint/Laws.antt =====
-- What the operations of pkg/taintcontroller/taints.go leave on a node.
use multus_multivpc_cni.Base.{
  Text, text_eq, true, false, not, ◌||◌, List, [], ◌∷◌, ◌++◌, ◌≡◌, refl, arith, keep,
}
use multus_multivpc_cni.Taint.{
  Taint, Node, agrees, any_agrees, has_taint, new_taint, ensure_taint, remove_loop, remove_taint,
}

module _ (key value effect : Text) where
  pub any_agrees-append :
      (xs ys : List Taint)
      → any_agrees key value effect (xs ++ ys)
        ≡ (any_agrees key value effect xs || any_agrees key value effect ys)
  unfolding any_agrees
  any_agrees-append [] ys = refl
  any_agrees-append (x ∷ xs) ys = ground (arith, any_agrees-append xs ys)

  abbrev pub others : List Taint → List Taint
  others = keep (λ t. not (agrees key value effect t))

  -- The loop keeps the other taints in their order, and tells whether there was one to leave out.
  remove_loop_lem :
      (taints : List Taint)
      → remove_loop key value effect taints ≡ (others taints, any_agrees key value effect taints)
  unfolding remove_loop any_agrees
  remove_loop_lem [] = refl
  remove_loop_lem (t ∷ taints) = ground (arith, remove_loop_lem taints)

  pub others_of_none :
      (taints : List Taint) → any_agrees key value effect taints ≡ false → others taints ≡ taints
  unfolding any_agrees
  others_of_none [] h = refl
  others_of_none (t ∷ taints) h = ground (arith, others_of_none taints)

  pub any_agrees-others :
      (taints : List Taint) → any_agrees key value effect (others taints) ≡ false
  unfolding any_agrees
  any_agrees-others [] = refl
  any_agrees-others (t ∷ taints) = ground (arith, any_agrees-others taints)

  pub any_agrees-new : any_agrees key value effect (new_taint key value effect ∷ []) ≡ true
  unfolding any_agrees
  any_agrees-new = ground arith

  pub others-added :
      (taints : List Taint) → others (taints ++ (new_taint key value effect ∷ [])) ≡ others taints
  others-added [] = ground arith
  others-added (t ∷ taints) = ground (arith, others-added taints)

  pub remove_taint_eq :
      (node : Node)
      → remove_taint node key value effect
        ≡ (record node { taints = others node.taints }, any_agrees key value effect node.taints)
  unfolding remove_taint
  remove_taint_eq node = ground (arith, remove_loop_lem node.taints, others_of_none node.taints)

  -- Afterwards the taint is there, the call reports a change exactly if it was not there before,
  -- and a second call changes nothing.
  pub ensure_taint_lem :
      (node : Node)
      → let (node', changed) = ensure_taint node key value effect in
        (has_taint node' key value effect ≡ true)
        × (changed ≡ not (has_taint node key value effect))
        × (ensure_taint node' key value effect ≡ (node', false))
  unfolding ensure_taint has_taint any_agrees
  ensure_taint_lem node =
      ground (arith, any_agrees-append node.taints (new_taint key value effect ∷ []))

  -- Afterwards the taint is gone and the others are there in their order, the call reports a change
  -- exactly if it was there, and a second call changes nothing.
  pub remove_taint_lem :
      (node : Node)
      → let (node', changed) = remove_taint node key value effect in
        (node' ≡ record node { taints = others node.taints })
        × (has_taint node' key value effect ≡ false)
        × (changed ≡ has_taint node key value effect)
        × (remove_taint node' key value effect ≡ (node', false))
  unfolding has_taint
  remove_taint_lem node = ground (
    arith,
    remove_taint_eq node,
    remove_taint_eq (record node { taints = others node.taints }),
    any_agrees-others node.taints,
    others_of_none (others node.taints),
  )

  -- On a node without the taint, a removal undoes an addition.
  pub remove-ensure_taint :
      (node : Node)
      → has_taint node key value effect ≡ false
      → remove_taint (ensure_taint node key value effect).0 key value effect ≡ (node, true)
  unfolding ensure_taint has_taint
  remove-ensure_taint node h =
      let added = record node { taints = node.taints ++ (new_taint key value effect ∷ []) } in
      ground (
        arith,
        remove_taint_eq added,
        others-added node.taints,
        others_of_none node.taints,
        any_agrees-append node.taints (new_taint key value effect ∷ []),
        any_agrees-new,
      )

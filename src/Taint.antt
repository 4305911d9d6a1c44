-- ===== src/Taint.antt =====
-- pkg/taintcontroller/taints.go: the taints of a node.
pub mod Laws
pub mod Controller
pub mod Env
pub mod Wanted
pub mod Quiet
pub mod Converges
pub mod Loop
use multus_multivpc_cni.Base.{
  ℕ, Text, text_eq, Bool, true, false, not, ◌&&◌, ◌||◌, Option, none, List, [], ◌∷◌, ◌++◌, ◌==◌,
  if◌then◌else◌,
}

-- The fields of `corev1.Taint` and `corev1.Node`; an effect is a string type.
pub record Taint : Type 0 where
  pub key : Text
  pub value : Text
  pub effect : Text
  pub time_added : Option ℕ

pub record Node : Type 0 where
  pub name : Text
  pub resource_version : Text
  pub taints : List Taint

-- Agreement in all three fields.
abbrev pub agrees : Text → Text → Text → Taint → Bool
agrees key value effect taint = taint.key == key && taint.value == value && taint.effect == effect

unfoldable pub any_agrees : Text → Text → Text → List Taint → Bool
any_agrees key value effect [] = false
any_agrees key value effect (taint ∷ taints) =
    let rest = any_agrees key value effect taints in
    if agrees key value effect taint then true else rest

unfoldable pub has_taint : Node → Text → Text → Text → Bool
unfolding any_agrees
has_taint node key value effect = any_agrees key value effect node.taints

abbrev pub new_taint : Text → Text → Text → Taint
new_taint key value effect = record { key = key; value = value; effect = effect; time_added = none }

-- Each of the two returns the node as the call leaves it, and whether it has changed.
unfoldable pub ensure_taint : Node → Text → Text → Text → Node × Bool
unfolding has_taint
ensure_taint node key value effect =
    if has_taint node key value effect
    then (node, false)
    else (record node { taints = node.taints ++ (new_taint key value effect ∷ []) }, true)

-- The loop of `RemoveTaint`: the taints that stay, and whether one was left out.
unfoldable pub remove_loop : Text → Text → Text → List Taint → List Taint × Bool
remove_loop key value effect [] = ([], false)
remove_loop key value effect (taint ∷ taints) =
    let (out, changed) = remove_loop key value effect taints in
    if agrees key value effect taint then (out, true) else (taint ∷ out, changed)

unfoldable pub remove_taint : Node → Text → Text → Text → Node × Bool
unfolding remove_loop
remove_taint node key value effect =
    let (out, changed) = remove_loop key value effect node.taints in
    if changed then (record node { taints = out }, true) else (node, false)

-- ===== src/Kube.antt =====
-- pkg/kube/pod_watcher.go: the watcher that hands the events of the node's Pods to a handler. The
-- informer, of client-go, is a parameter.
pub mod Client
use multus_multivpc_cni.Base.{ℕ, Text, text, Option, List, [], ◌∷◌, Result, ok, err}

-- A value that the informer hands over, by its dynamic type: a `*corev1.Pod`, which may be nil; the
-- `DeletedFinalStateUnknown` that stands for an object whose deletion the informer has missed; or
-- anything else.
pub data Object (P : Type 0) : Type 0 where
  pod : Option P → Object P
  tombstone : Text → Object P → Object P
  other : Object P

pub data Event (P : Type 0) : Type 0 where
  added : Object P → Event P
  updated : Object P → Object P → Event P
  deleted : Object P → Event P

-- `PodEventHandler`, whose methods change a state.
pub record PodEventHandler (P S : Type 0) : Type 0 where
  pub on_pod_add : Option P → S → S
  pub on_pod_update : Option P → Option P → S → S
  pub on_pod_delete : Option P → S → S

-- What `NewListWatchFromClient` and `NewSharedIndexInformer` are called with; the resync period is
-- in seconds, and an empty namespace is `NamespaceAll`.
pub record Selection : Type 0 where
  pub resource : Text
  pub namespace : Text
  pub field : Text
  pub value : Text
  pub resync : ℕ
  pub indexer : Text

abbrev pub selection : Text → Selection
selection node_name = record {
  resource = text "pods";
  namespace = [];
  field = text "spec.nodeName";
  value = node_name;
  resync = 300;
  indexer = text "namespace";
}

module _ {P S : Type 0} where
  -- The three functions that `NewPodWatcher` registers.
  unfoldable pub dispatch : PodEventHandler P S → Event P → S → S
  dispatch handler (added (pod p)) s = handler.on_pod_add p s
  dispatch handler (added _) s = s
  dispatch handler (updated (pod old_pod) (pod new_pod)) s = handler.on_pod_update old_pod new_pod s
  dispatch handler (updated _ _) s = s
  dispatch handler (deleted (pod p)) s = handler.on_pod_delete p s
  dispatch handler (deleted _) s = s

  -- The informer calls the functions one event at a time.
  unfoldable pub deliver : PodEventHandler P S → List (Event P) → S → S
  unfolding dispatch
  deliver handler [] s = s
  deliver handler (e ∷ events) s = deliver handler events (dispatch handler e s)

-- client-go: an informer for a selection, the registration of functions on it, and what a run of it
-- until the end of the context delivers.
pub record Informers (P : Type 0) : Type 1 where
  pub Informer : Type 0
  pub Error : Type 0
  pub new_informer : Selection → Informer
  pub add_event_handler : Informer → Result Error (Unit {0})
  pub delivered : Informer → List (Event P)

pub record PodWatcher {P : Type 0} (i : Informers P) (S : Type 0) : Type 0 where
  pub informer : i.Informer
  pub handler : PodEventHandler P S

module _ {P S : Type 0} (i : Informers P) where
  unfoldable pub new_pod_watcher : Text → PodEventHandler P S → Result i.Error (PodWatcher i S)
  new_pod_watcher node_name handler =
      let informer = i.new_informer (selection node_name) in
      elim (i.add_event_handler informer) [
        | err e ↦ err e
        | ok _ ↦ ok (record { informer = informer; handler = handler })
      ]

  -- `Run`: the informer runs by itself, whether or not its cache is filled before the context ends.
  unfoldable pub run : PodWatcher i S → S → S
  unfolding deliver
  run w s = deliver w.handler (i.delivered w.informer) s

-- ===== src/Agent/Cleanup.antt =====
-- The end of a Pod: `OnPodDelete` of cmd/multivpc-eni-agent/main.go, followed by the worker's jobs.
use multus_multivpc_cni.Base.{
  ℕ, ◌-◌, ◌≤◌, Text, text_eq, true, not, Option, some, List, [], ◌∷◌, ok,
}
use multus_multivpc_cni.Base.{
  ◌≡◌, refl, ap, ◌∙◌, arith, ◌==◌, contains, map, All, All-map, All-keep, keep, keep_congr, length,
  take_all,
}
use multus_multivpc_cni.Base.Dict.{
  Dict, values, lookup, NodupKeys, erase, erase_keys, erase_keys-keep, contains-keys,
  lookup_entries,
}
use multus_multivpc_cni.Config.{NetworkProfile, Config, resolve_profile}
use multus_multivpc_cni.Aws.Types.{ReleaseRequest}
use multus_multivpc_cni.Agent.Messages.{InterfaceState, Pod}
use multus_multivpc_cni.Agent.Server.{
  EniManager, AgentServer, state_key, delete_state, handle_job, snapshot_states,
}
use multus_multivpc_cni.Agent.Handlers.{
  on_pod_delete, enqueue_releases_for_pod, pod_states, state_release,
}
use multus_multivpc_cni.Agent.Steps.{take_job}
use multus_multivpc_cni.Agent.Invariant.{IsSound, IsRecorded}
use multus_multivpc_cni.Agent.Requests.{releases, enqueue_releases-pod_states}
use multus_multivpc_cni.Agent.Drain.{drain}

-- The key of a record, and the keys of several.
abbrev key_of : InterfaceState → Text
key_of st = state_key st.pod_uid st.interface_name

abbrev IsKnown : Option Config → InterfaceState → Type 0
IsKnown cfg st = (p : NetworkProfile) × (resolve_profile cfg st.network_profile ≡ some p)

-- Every release that the manager is asked for succeeds.
abbrev pub ReleasesSucceed : EniManager → Type 0
ReleasesSucceed m =
    (p : NetworkProfile) (r : ReleaseRequest) (c : m.Cloud) → (m.release_interface p r c).0 ≡ ok tt

length-releases-le :
    (cfg : Option Config) (states : List InterfaceState)
    → length (releases cfg states) ≤ length states
unfolding releases
length-releases-le cfg [] = omega arith
length-releases-le cfg (st ∷ states) = ground (arith, length-releases-le cfg states)

module _ (m : EniManager) (succeed : ReleasesSucceed m) where
  handle_release :
      (p : NetworkProfile) (st : InterfaceState) (a : AgentServer) (c : m.Cloud)
      → (handle_job m (state_release p st) a c).0.state ≡ erase (key_of st) a.state
  unfolding handle_job delete_state
  handle_release p st a c = rw succeed refl

  drain-releases :
      (cfg : Option Config) (states : List InterfaceState) (a : AgentServer) (c : m.Cloud)
      → All (IsKnown cfg) states
      → (drain m (releases cfg states) a c).0.state ≡ erase_keys (map key_of states) a.state
  unfolding drain releases erase_keys take_job
  drain-releases cfg [] a c h = refl
  drain-releases cfg (st ∷ states) a c (known, h) =
      let (p, e) = known in
      let job = state_release p st in
      let (b, c') = handle_job m job (take_job (releases cfg states) a) c in
      rw (e, drain)
        (drain-releases cfg states b c' h
          ∙ ap (erase_keys (map key_of states))
              (handle_release p st (take_job (releases cfg states) a) c))

-- The deletion of a Pod's keys takes away its records, and no others.
erase-pod_states :
    (cfg : Option Config) (uid : Text) (d : Dict InterfaceState)
    → NodupKeys d
    → All (IsRecorded cfg) d
    → erase_keys (map key_of (keep (λ st. st.pod_uid == uid) (values d))) d
      ≡ keep (λ e. not (e.1.pod_uid == uid)) d
erase-pod_states cfg uid d u h =
    erase_keys-keep keys d
    ∙ keep_congr (λ e. not (contains keys e.0)) (λ e. not (e.1.pod_uid == uid)) d
        (All-map (λ e. lookup e.0 d ≡ some e.1)
          (λ e. not (contains keys e.0) ≡ not (e.1.pod_uid == uid))
          (λ e found. ap not (
            contains-keys key_of (λ st. st.pod_uid == uid) e.0 d u
              (All-map (IsRecorded cfg) (λ x. x.0 ≡ key_of x.1) (λ x r. r.key) d h)
            ∙ rw found))
          d (lookup_entries d u))
  where
    keys : List Text
    keys = map key_of (keep (λ st. st.pod_uid == uid) (values d))

values-IsKnown :
    (cfg : Option Config) (d : Dict InterfaceState)
    → All (IsRecorded cfg) d
    → All (IsKnown cfg) (values d)
unfolding values
values-IsKnown cfg [] h = tt
values-IsKnown cfg (e ∷ d) h = (h.0.known, values-IsKnown cfg d h.1)

pod_states-IsKnown :
    (cfg : Option Config) (node : Text) (size k : ℕ) (pod : Pod) (a : AgentServer)
    → IsSound cfg node size k a
    → All (IsKnown cfg) (pod_states pod a)
unfolding snapshot_states
pod_states-IsKnown cfg node size k pod a v =
    All-map (λ st. IsKnown cfg st × ((st.pod_uid == pod.uid) ≡ true)) (IsKnown cfg) (λ st h. h.0)
      (pod_states pod a)
      (All-keep (IsKnown cfg) (λ st. st.pod_uid == pod.uid) (values a.state)
        (values-IsKnown cfg a.state v.entries))

erased_states :
    (cfg : Option Config) (pod : Pod) (a : AgentServer)
    → NodupKeys a.state
    → All (IsRecorded cfg) a.state
    → erase_keys (map key_of (pod_states pod a)) a.state
      ≡ keep (λ e. not (e.1.pod_uid == pod.uid)) a.state
unfolding snapshot_states
erased_states cfg pod a u h = erase-pod_states cfg pod.uid a.state u h

-- An empty queue with room takes every release.
release_queue :
    (cfg : Option Config) (node : Text) (size k : ℕ) (pod : Pod) (a : AgentServer)
    → IsSound cfg node size k a
    → a.queue ≡ []
    → length (pod_states pod a) ≤ size
    → (enqueue_releases_for_pod pod a).queue ≡ releases cfg (pod_states pod a)
release_queue cfg node size k pod a v empty room =
    (enqueue_releases-pod_states pod a).0
    ∙ simp (empty, v.same_size, v.same_cfg)
        (take_all (size - 0) (releases cfg (pod_states pod a)) enough)
  where
    enough : length (releases cfg (pod_states pod a)) ≤ size - 0
    enough = omega (arith, length-releases-le cfg (pod_states pod a))

module _ (m : EniManager) (succeed : ReleasesSucceed m) where
  -- When a Pod is deleted while the agent's invariant holds, its queue is empty and has room for a
  -- release of each of the Pod's recorded interfaces, and the manager's releases succeed, the
  -- worker's jobs take away exactly the records of that Pod and leave all others as they were.
  pub pod_delete_cleans :
      (cfg : Option Config) (node : Text) (size k : ℕ) (pod : Pod) (a : AgentServer) (c : m.Cloud)
      → IsSound cfg node size k a
      → a.queue ≡ []
      → length (pod_states pod a) ≤ size
      → let b = on_pod_delete (some pod) a in
        (drain m b.queue b c).0.state ≡ keep (λ e. not (e.1.pod_uid == pod.uid)) a.state
  unfolding on_pod_delete
  pod_delete_cleans cfg node size k pod a c v empty room =
      let b = enqueue_releases_for_pod pod a in
      ap (λ q. (drain m q b c).0.state) (release_queue cfg node size k pod a v empty room)
      ∙ drain-releases m succeed cfg (pod_states pod a) b c
          (pod_states-IsKnown cfg node size k pod a v)
      ∙ ap (erase_keys (map key_of (pod_states pod a)))
          (enqueue_releases-pod_states pod a).1.same_state
      ∙ erased_states cfg pod a v.keys v.entries

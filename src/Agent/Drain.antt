-- ===== src/Agent/Drain.antt =====
-- The worker left to itself: the loop of `start` in cmd/multivpc-eni-agent/main.go while no other
-- goroutine runs, and the meaning of a batch of jobs.
pub mod Last
use multus_multivpc_cni.Base.{Text, text_eq, Option, none, some, List, [], ◌∷◌, ok, err}
use multus_multivpc_cni.Base.{◌≡◌, refl, ap, subst, ◌∙◌, if◌then◌else◌, ◌==◌}
use multus_multivpc_cni.Base.Dict.{lookup, lookup-insert, lookup-erase}
use multus_multivpc_cni.Agent.Messages.{InterfaceState}
use multus_multivpc_cni.Agent.Server.{
  SyncJob, EniManager, AgentServer, Outcome, ensured, released, attached_state, state_key, run_job,
  update_state, delete_state, begin_job, finish_job, handle_job,
}
use multus_multivpc_cni.Agent.Steps.{
  idle, take_job, System, dequeue, begin, call, finish, Works, resting, working, Reach, here, next,
}

module _ (m : EniManager) where
  -- Takes and handles the jobs of the queue in turn.
  unfoldable pub drain : List SyncJob → AgentServer → m.Cloud → AgentServer × m.Cloud
  drain [] a c = (a, c)
  drain (job ∷ rest) a c = let (b, c') = handle_job m job (take_job rest a) c in drain rest b c'

  -- The outcomes of the jobs when the manager is called for one after the other.
  pub outcomes : List SyncJob → m.Cloud → List (SyncJob × Outcome m.Error)
  outcomes [] c = []
  outcomes (job ∷ rest) c = let (o, c') = run_job m job c in (job, o) ∷ outcomes rest c'

  -- The cloud after them.
  unfoldable pub cloud_after : List SyncJob → m.Cloud → m.Cloud
  cloud_after [] c = c
  cloud_after (job ∷ rest) c = cloud_after rest (run_job m job c).1

module _ {E : Type 0} (k : Text) where
  -- What one outcome means for the record under a key: an interface that was ensured is recorded,
  -- one that was released is forgotten, and a failure changes nothing.
  pub effect : Option InterfaceState → SyncJob × Outcome E → Option InterfaceState
  effect old (job, ensured (ok res)) =
      let req = job.ensure_req in
      if k == state_key req.pod_uid req.interface_name then some (attached_state req res) else old
  effect old (job, ensured (err e)) = old
  effect old (job, released (ok _)) =
      let req = job.rel_req in if k == state_key req.pod_uid req.interface_name then none else old
  effect old (job, released (err e)) = old

  pub effects : Option InterfaceState → List (SyncJob × Outcome E) → Option InterfaceState
  effects old [] = old
  effects old (o ∷ os) = effects (effect old o) os

  lookup-finish_job :
      (job : SyncJob) (o : Outcome E) (a : AgentServer)
      → lookup k (finish_job job o a).state ≡ effect (lookup k a.state) (job, o)
  unfolding finish_job effect update_state delete_state
  lookup-finish_job job (ensured (ok res)) a = lookup-insert k _ _ a.state
  lookup-finish_job job (ensured (err e)) a = refl
  lookup-finish_job job (released (ok _)) a = lookup-erase k _ a.state
  lookup-finish_job job (released (err e)) a = refl

module _ (m : EniManager) where
  -- After the queue is worked off, the map holds for each key what the last successful job for it
  -- left, and what it held before if there is none; and the cloud is the one that the manager left.
  pub drain-refines :
      (jobs : List SyncJob) (a : AgentServer) (c : m.Cloud)
      → ((k : Text)
          → lookup k (drain m jobs a c).0.state ≡ effects k (lookup k a.state) (outcomes m jobs c))
        × ((drain m jobs a c).1 ≡ cloud_after m jobs c)
  unfolding drain effects outcomes cloud_after handle_job take_job
  drain-refines [] a c = (λ k. refl, refl)
  drain-refines (job ∷ rest) a c =
      let (b, c') = handle_job m job (take_job rest a) c in
      let (map_eq, cloud_eq) = drain-refines rest b c' in
      (
        λ k.
            map_eq k
            ∙ ap (λ x. effects k x (outcomes m rest c'))
                (lookup-finish_job k job (run_job m job c).0 (begin_job (take_job rest a))),
        cloud_eq,
      )

  finish_job-queue :
      {E : Type 0} (job : SyncJob) (o : Outcome E) (a : AgentServer)
      → (finish_job job o a).queue ≡ a.queue
  unfolding finish_job update_state delete_state
  finish_job-queue job (ensured (ok res)) a = refl
  finish_job-queue job (ensured (err e)) a = refl
  finish_job-queue job (released (ok _)) a = refl
  finish_job-queue job (released (err e)) a = refl

  -- The system after one round of the worker.
  after_round : SyncJob → List SyncJob → System m → System m
  after_round job rest s =
      let (o, c) = run_job m job s.cloud in
      record {
        server = finish_job job o (begin_job (take_job rest s.server));
        worker = idle;
        cloud = c;
      }

  after_round-Works :
      (job : SyncJob) (rest : List SyncJob) (s : System m)
      → s.worker ≡ idle
      → s.server.queue ≡ job ∷ rest
      → Works s (after_round job rest s)
  unfolding after_round
  after_round-Works job rest s w q =
      working
        (working (working (working resting (dequeue job rest w q refl) tt) (begin job refl refl) tt)
          (call job refl refl) tt)
        (finish job (run_job m job s.cloud).0 refl refl) tt

  Works-trans : {s t u : System m} → Works s t → Works t u → Works s u
  Works-trans r resting = r
  Works-trans r (working q st w) = working (Works-trans r q) st w

  pub Works-Reach : {s t : System m} → Works s t → Reach s t
  Works-Reach resting = here
  Works-Reach (working r st w) = next (Works-Reach r) st

  pub Reach-trans : {s t u : System m} → Reach s t → Reach t u → Reach s u
  Reach-trans r here = r
  Reach-trans r (next q st) = next (Reach-trans r q) st

  -- From any system with an idle worker, steps of the worker alone work off the queue, whatever it
  -- holds, and end with an empty queue and an idle worker in the state that `drain` computes.
  pub drain-Works :
      (jobs : List SyncJob) (s : System m)
      → s.worker ≡ idle
      → s.server.queue ≡ jobs
      → let (b, c) = drain m jobs s.server s.cloud in
        Works s (record { server = b; worker = idle; cloud = c }) × (b.queue ≡ [])
  unfolding drain handle_job after_round take_job
  drain-Works [] s w q = (
    subst (λ x. Works s (record { server = s.server; worker = x; cloud = s.cloud })) w resting,
    q,
  )
  drain-Works (job ∷ rest) s w q =
      let t = after_round job rest s in
      let emptied : t.server.queue ≡ rest = finish_job-queue job _ _ in
      let (reached, done) = drain-Works rest t refl emptied in
      (Works-trans (after_round-Works job rest s w q) reached, done)

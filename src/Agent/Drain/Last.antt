-- ===== src/Agent/Drain/Last.antt =====
-- What the last job of a queue leaves in the map of cmd/multivpc-eni-agent/main.go.
use multus_multivpc_cni.Base.{
  Text, text_eq, Option, some, List, [], ◌∷◌, ◌++◌, ok, ◌==◌, if◌then◌else◌, ◌≡◌, refl, ap, ◌∙◌,
  arith,
}
use multus_multivpc_cni.Base.Dict.{lookup}
use multus_multivpc_cni.Aws.Types.{SyncResult}
use multus_multivpc_cni.Agent.Messages.{InterfaceState}
use multus_multivpc_cni.Agent.Server.{
  SyncJob, EniManager, AgentServer, Outcome, ensured, attached_state, state_key, run_job,
}
use multus_multivpc_cni.Agent.Drain.{drain, outcomes, cloud_after, effect, effects, drain-refines}

module _ {E : Type 0} (k : Text) where
  effects-append :
      (old : Option InterfaceState) (os : List (SyncJob × Outcome E)) (o : SyncJob × Outcome E)
      → effects k old (os ++ (o ∷ [])) ≡ effect k (effects k old os) o
  unfolding effects
  effects-append old [] o = refl
  effects-append old (x ∷ os) o = effects-append (effect k old x) os o

outcomes-append :
    (m : EniManager) (jobs : List SyncJob) (job : SyncJob) (c : m.Cloud)
    → outcomes m (jobs ++ (job ∷ [])) c
      ≡ outcomes m jobs c ++ ((job, (run_job m job (cloud_after m jobs c)).0) ∷ [])
unfolding outcomes cloud_after
outcomes-append m [] job c = refl
outcomes-append m (j ∷ jobs) job c =
    ap (λ x. (j, (run_job m j c).0) ∷ x) (outcomes-append m jobs job (run_job m j c).1)

same_key : {A : Type 0} (k : Text) (x y : A) → (if k == k then x else y) ≡ x
same_key k x y = ground arith

-- The record of the last job, if it succeeds.
pub last_recorded :
    (m : EniManager) (jobs : List SyncJob) (job : SyncJob) (a : AgentServer) (c : m.Cloud)
    (res : SyncResult)
    → (run_job m job (cloud_after m jobs c)).0 ≡ ensured (ok res)
    → lookup
        (state_key job.ensure_req.pod_uid job.ensure_req.interface_name)
        (drain m (jobs ++ (job ∷ [])) a c).0.state
      ≡ some (attached_state job.ensure_req res)
unfolding effect
last_recorded m jobs job a c res e =
    let k = state_key job.ensure_req.pod_uid job.ensure_req.interface_name in
    (drain-refines m (jobs ++ (job ∷ [])) a c).0 k
    ∙ ap (effects k (lookup k a.state)) (outcomes-append m jobs job c)
    ∙ effects-append k (lookup k a.state) (outcomes m jobs c) (job, _)
    ∙ ap (λ o. effect k (effects k (lookup k a.state) (outcomes m jobs c)) (job, o)) e
    ∙ same_key k (some (attached_state job.ensure_req res)) _

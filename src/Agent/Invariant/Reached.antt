-- ===== src/Agent/Invariant/Reached.antt =====
-- What holds of the whole agent of cmd/multivpc-eni-agent/main.go between any two steps.
use multus_multivpc_cni.Base.{ℕ, Text, text_eq, Option}
use multus_multivpc_cni.Base.{◌≡◌, subst, arith}
use multus_multivpc_cni.Base.Dict.{}
use multus_multivpc_cni.Config.{Config}
use multus_multivpc_cni.Agent.Server.{SyncJob, EniManager, run_job}
use multus_multivpc_cni.Agent.Handlers.{}
use multus_multivpc_cni.Agent.Steps.{
  Worker, idle, holding, calling, returned, System, boot, Step, report, pod_add, pod_update,
  pod_delete, dequeue, begin, call, finish, drift, Reach, here, next,
}
use multus_multivpc_cni.Agent.Invariant.{
  IsHonest, IsFor, IsSound, new_agent_server-IsSound, report_interface-IsSound,
  release_interface-IsSound, on_pod_add-IsSound, on_pod_update-IsSound, on_pod_delete-IsSound,
  take_job-IsSound, begin_job-IsSound, finish_job-IsSound,
}

-- The number of calls of the manager that are under way.
abbrev pub flights : {E : Type 0} → Worker E → ℕ
flights idle = 0
flights (holding _) = 0
flights (calling _) = 1
flights (returned _ _) = 1

run_job-IsFor : (m : EniManager) (job : SyncJob) (c : m.Cloud) → IsFor job (run_job m job c).0
unfolding run_job
run_job-IsFor m job c = ground arith

abbrev pub IsHeld : {E : Type 0} → Option Config → Worker E → Type 0
IsHeld cfg idle = Unit
IsHeld cfg (holding job) = IsHonest cfg job
IsHeld cfg (calling job) = IsHonest cfg job
IsHeld cfg (returned job outcome) = IsHonest cfg job × IsFor job outcome

module _ (m : EniManager) (cfg : Option Config) (node : Text) (size : ℕ) where
  pub record IsConsistent (s : System m) : Type 0 where
    pub sound : IsSound cfg node size (flights s.worker) s.server
    pub held : IsHeld cfg s.worker

  -- The invariant where the worker is known to stand.
  IsConsistent-at :
      (s : System m) (w : Worker m.Error)
      → s.worker ≡ w
      → IsConsistent s
      → IsSound cfg node size (flights w) s.server × IsHeld cfg w
  IsConsistent-at s w e v =
      subst (λ x. IsSound cfg node size (flights x) s.server × IsHeld cfg x) e (v.sound, v.held)

  Step-IsConsistent : {s t : System m} → Step s t → IsConsistent s → IsConsistent t
  Step-IsConsistent {s} (report req e) v = rw e (record {
    sound = report_interface-IsSound cfg node size req s.server v.sound;
    held = v.held;
  })
  Step-IsConsistent {s} (Step.release req e) v = rw e (record {
    sound = release_interface-IsSound cfg node size req s.server v.sound;
    held = v.held;
  })
  Step-IsConsistent {s} (pod_add pod e) v =
      rw e (record { sound = on_pod_add-IsSound cfg node size pod s.server v.sound; held = v.held })
  Step-IsConsistent {s} (pod_update old_pod new_pod e) v = rw e (record {
    sound = on_pod_update-IsSound cfg node size old_pod new_pod s.server v.sound;
    held = v.held;
  })
  Step-IsConsistent {s} (pod_delete pod e) v =
      rw e
        (record { sound = on_pod_delete-IsSound cfg node size pod s.server v.sound; held = v.held })
  Step-IsConsistent {s} (dequeue job rest w q e) v =
      let (sound, _) = IsConsistent-at s idle w v in
      let (honest, sound') = take_job-IsSound cfg node size job rest s.server q sound in
      rw e (record { sound = sound'; held = honest })
  Step-IsConsistent {s} (begin job w e) v =
      let (sound, honest) = IsConsistent-at s (holding job) w v in
      rw e (record { sound = begin_job-IsSound cfg node size s.server sound; held = honest })
  Step-IsConsistent {s} (call job w e) v =
      let (sound, honest) = IsConsistent-at s (calling job) w v in
      rw e (record { sound = sound; held = (honest, run_job-IsFor m job s.cloud) })
  Step-IsConsistent {s} (finish job outcome w e) v =
      let (sound, held) = IsConsistent-at s (returned job outcome) w v in
      rw e (record {
        sound = finish_job-IsSound cfg node size job outcome s.server held.1 held.0 sound;
        held = tt;
      })
  Step-IsConsistent {s} (drift c e) v = rw e (record { sound = v.sound; held = v.held })

  pub Reach_from-IsConsistent : {s t : System m} → IsConsistent s → Reach s t → IsConsistent t
  Reach_from-IsConsistent h here = h
  Reach_from-IsConsistent h (next r st) = Step-IsConsistent st (Reach_from-IsConsistent h r)

  -- Whatever requests, Pod events, worker steps and changes of the cloud follow the start, in any
  -- order: the queue stays within its size and the gauges show its length and the call under way,
  -- every job queued or in work carries the definition of the profile that it names, no two records
  -- share a key, and each record is attached, stands under the key of its Pod interface and has a
  -- known profile.
  pub Reach-IsConsistent :
      (c : m.Cloud) {t : System m} → Reach (boot m cfg node size c) t → IsConsistent t
  Reach-IsConsistent c r =
      Reach_from-IsConsistent (record { sound = new_agent_server-IsSound cfg node size; held = tt })
        r

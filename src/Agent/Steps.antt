-- ===== src/Agent/Steps.antt =====
-- The agent at run time (`start` and `main` of cmd/multivpc-eni-agent/main.go): the gRPC server and
-- the Pod watcher call the handlers while one worker goroutine carries out the queued jobs. A step
-- is one handler, or one part of the worker's round.
use multus_multivpc_cni.Base.{Text, Option, List, ◌∷◌, ◌≡◌, ℕ}
use multus_multivpc_cni.Base.Int.{dec}
use multus_multivpc_cni.Config.{Config}
use multus_multivpc_cni.Agent.Messages.{ReportRequest, ReleaseRequest, Pod}
use multus_multivpc_cni.Agent.Server.{
  SyncJob, EniManager, AgentServer, Outcome, new_agent_metrics, new_agent_server, begin_job,
  run_job, finish_job,
}
use multus_multivpc_cni.Agent.Handlers.{
  report_interface, release_interface, on_pod_add, on_pod_update, on_pod_delete,
}

-- Where the worker stands in its round.
pub data Worker (E : Type 0) : Type 0 where
  idle : Worker E
  holding : SyncJob → Worker E
  calling : SyncJob → Worker E
  returned : SyncJob → Outcome E → Worker E

-- The worker takes the job at the head of the queue.
unfoldable pub take_job : List SyncJob → AgentServer → AgentServer
take_job rest a = record a {
  queue = rest;
  metrics = record (a.metrics) { queue_depth = dec a.metrics.queue_depth };
}

module _ (m : EniManager) where
  pub record System : Type 0 where
    pub server : AgentServer
    pub worker : Worker m.Error
    pub cloud : m.Cloud

abbrev pub boot : (m : EniManager) → Option Config → Text → ℕ → m.Cloud → System m
boot m cfg node queue_size c = record {
  server = new_agent_server cfg node new_agent_metrics queue_size;
  worker = idle;
  cloud = c;
}

module _ {m : EniManager} where
  pub data Step (s t : System m) : Type 0 where
    report :
        (req : Option ReportRequest)
        → t ≡ record s { server = (report_interface req s.server).1 }
        → Step s t
    release :
        (req : Option ReleaseRequest)
        → t ≡ record s { server = (release_interface req s.server).1 }
        → Step s t
    pod_add : (pod : Option Pod) → t ≡ record s { server = on_pod_add pod s.server } → Step s t
    pod_update :
        (old_pod new_pod : Option Pod)
        → t ≡ record s { server = on_pod_update old_pod new_pod s.server }
        → Step s t
    pod_delete :
        (pod : Option Pod) → t ≡ record s { server = on_pod_delete pod s.server } → Step s t
    dequeue :
        (job : SyncJob) (rest : List SyncJob)
        → s.worker ≡ idle
        → s.server.queue ≡ job ∷ rest
        → t ≡ record s { server = take_job rest s.server; worker = holding job }
        → Step s t
    begin :
        (job : SyncJob)
        → s.worker ≡ holding job
        → t ≡ record s { server = begin_job s.server; worker = calling job }
        → Step s t
    call :
        (job : SyncJob)
        → s.worker ≡ calling job
        → t ≡ record s {
          worker = returned job (run_job m job s.cloud).0;
          cloud = (run_job m job s.cloud).1;
        }
        → Step s t
    finish :
        (job : SyncJob) (outcome : Outcome m.Error)
        → s.worker ≡ returned job outcome
        → t ≡ record s { server = finish_job job outcome s.server; worker = idle }
        → Step s t
    -- The cloud also changes by itself, and by the hands of others.
    drift : (c : m.Cloud) → t ≡ record s { cloud = c } → Step s t

  -- The steps of the worker.
  abbrev pub IsWork : {s t : System m} → Step s t → Type 0
  IsWork (report _ _) = ⊥
  IsWork (release _ _) = ⊥
  IsWork (pod_add _ _) = ⊥
  IsWork (pod_update _ _ _) = ⊥
  IsWork (pod_delete _ _) = ⊥
  IsWork (dequeue _ _ _ _ _) = Unit
  IsWork (begin _ _ _) = Unit
  IsWork (call _ _ _) = Unit
  IsWork (finish _ _ _ _) = Unit
  IsWork (drift _ _) = ⊥

  -- Runs of the worker alone.
  pub data Works (s : System m) : System m → Type 0 where
    resting : Works s s
    working : {t u : System m} → Works s t → (st : Step t u) → IsWork st → Works s u

  pub data Reach (s : System m) : System m → Type 0 where
    here : Reach s s
    next : {t u : System m} → Reach s t → Step t u → Reach s u

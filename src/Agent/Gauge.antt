-- ===== src/Agent/Gauge.antt =====
-- The queue and its gauge at a finer grain than Agent/Steps (`enqueueJob` and `start` of
-- cmd/multivpc-eni-agent/main.go): a handler sends its job and raises the gauge only afterwards, the
-- worker takes a job and lowers the gauge only afterwards, and in between others move. A job can also
-- go from a sender to the waiting worker without the queue, which is the only way if its size is 0.

pub mod Laws
pub mod Atomic
use multus_multivpc_cni.Base.{ℕ, suc, Bool, true, false, Text, Option, List, [], ◌∷◌, ◌++◌, length}
use multus_multivpc_cni.Base.{◌≡◌, ltb}
use multus_multivpc_cni.Base.Int.{inc, dec}
use multus_multivpc_cni.Config.{Config}
use multus_multivpc_cni.Agent.Server.{
  SyncJob, AgentServer, Outcome, new_agent_metrics, new_agent_server, begin_job, finish_job,
}

-- `a.queue <- job`, `job := <-a.queue`, and what `Inc` and `Dec` do to the gauge.
unfoldable pub send_job : SyncJob → AgentServer → AgentServer
send_job job a = record a { queue = a.queue ++ (job ∷ []) }

unfoldable pub receive_job : List SyncJob → AgentServer → AgentServer
receive_job rest a = record a { queue = rest }

unfoldable pub count_sent : AgentServer → AgentServer
count_sent a = record a { metrics = record (a.metrics) { queue_depth = inc a.metrics.queue_depth } }

unfoldable pub count_taken : AgentServer → AgentServer
count_taken a = record a {
  metrics = record (a.metrics) { queue_depth = dec a.metrics.queue_depth };
}

-- Where the worker stands: at the `select`, before the gauge is lowered, after that, in the call.
pub data Hand : Type 0 where
  waiting : Hand
  taken : SyncJob → Hand
  working : SyncJob → Hand
  calling : SyncJob → Hand

-- `sent` is the number of goroutines that have sent a job and not yet raised the gauge.
pub record Race : Type 0 where
  pub server : AgentServer
  pub sent : ℕ
  pub hand : Hand

abbrev pub race : Option Config → Text → ℕ → Race
race cfg node queue_size = record {
  server = new_agent_server cfg node new_agent_metrics queue_size;
  sent = 0;
  hand = waiting;
}

-- Any goroutine may send any job at any time, and the calls may have any outcome.
module _ (E : Type 0) where
  pub data Move (s t : Race) : Type 0 where
    send :
        (job : SyncJob)
        → ltb (length s.server.queue) s.server.queue_size ≡ true
        → t ≡ record s { server = send_job job s.server; sent = suc s.sent }
        → Move s t
    hand_over :
        (job : SyncJob)
        → s.hand ≡ waiting
        → s.server.queue ≡ []
        → t ≡ record s { sent = suc s.sent; hand = taken job }
        → Move s t
    tell_sent :
        (n : ℕ)
        → s.sent ≡ suc n
        → t ≡ record s { server = count_sent s.server; sent = n }
        → Move s t
    receive :
        (job : SyncJob) (rest : List SyncJob)
        → s.hand ≡ waiting
        → s.server.queue ≡ job ∷ rest
        → t ≡ record s { server = receive_job rest s.server; hand = taken job }
        → Move s t
    tell_taken :
        (job : SyncJob)
        → s.hand ≡ taken job
        → t ≡ record s { server = count_taken s.server; hand = working job }
        → Move s t
    begin :
        (job : SyncJob)
        → s.hand ≡ working job
        → t ≡ record s { server = begin_job s.server; hand = calling job }
        → Move s t
    finish :
        (job : SyncJob) (outcome : Outcome E)
        → s.hand ≡ calling job
        → t ≡ record s { server = finish_job job outcome s.server; hand = waiting }
        → Move s t

  pub data Moves (s : Race) : Race → Type 0 where
    here : Moves s s
    next : {t u : Race} → Moves s t → Move t u → Moves s u

-- ===== src/Agent/Gauge/Atomic.antt =====
-- The moves of Agent/Gauge against `enqueueJob` of cmd/multivpc-eni-agent/main.go as one step, which
-- sends a job together with its count, and against a worker that takes a job together with its count.
use multus_multivpc_cni.Base.{ℕ, suc, ◌<◌, true, Text, Option, List, [], ◌∷◌}
use multus_multivpc_cni.Base.{length, length-append, ok, err, ltb}
use multus_multivpc_cni.Base.{◌≡◌, refl, arith}
use multus_multivpc_cni.Base.Int.{ℤ, pos, inc, dec}
use multus_multivpc_cni.Base.{ap, ◌∙◌, ◌+◌, zero}
use multus_multivpc_cni.Config.{Config}
use multus_multivpc_cni.Agent.Server.{
  SyncJob, AgentServer, Outcome, ensured, released, new_agent_metrics, new_agent_server,
  enqueue_job, begin_job, finish_job, update_state, delete_state,
}
use multus_multivpc_cni.Agent.Steps.{take_job}
use multus_multivpc_cni.Agent.Gauge.{
  send_job, receive_job, count_sent, count_taken, Hand, waiting, taken, working, Race, race, Move,
  send, hand_over, tell_sent, receive, tell_taken, Moves, here, next,
}
use multus_multivpc_cni.Agent.Gauge
use multus_multivpc_cni.Agent.Gauge.Laws.{
  IsCounted, Moves-IsCounted, difference, inc-difference, uncounted,
}

-- The steps of the agent in which every job is counted as it moves.
pub record Counted : Type 0 where
  pub server : AgentServer
  pub worker : Hand

pub data Atomic (E : Type 0) (s t : Counted) : Type 0 where
  enqueues : (job : SyncJob) → t ≡ record s { server = (enqueue_job job s.server).1 } → Atomic E s t
  takes :
      (job : SyncJob) (rest : List SyncJob)
      → s.worker ≡ waiting
      → s.server.queue ≡ job ∷ rest
      → t ≡ record { server = take_job rest s.server; worker = working job }
      → Atomic E s t
  begins :
      (job : SyncJob)
      → s.worker ≡ working job
      → t ≡ record { server = begin_job s.server; worker = Gauge.calling job }
      → Atomic E s t
  finishes :
      (job : SyncJob) (outcome : Outcome E)
      → s.worker ≡ Gauge.calling job
      → t ≡ record { server = finish_job job outcome s.server; worker = waiting }
      → Atomic E s t

pub data Atomics (E : Type 0) (s : Counted) : Counted → Type 0 where
  start : Atomics E s s
  step : {t u : Counted} → Atomics E s t → Atomic E t u → Atomics E s u

-- What is left when everybody has counted.
abbrev counted_hand : Hand → Hand
counted_hand waiting = waiting
counted_hand (taken job) = working job
counted_hand (working job) = working job
counted_hand (Gauge.calling job) = Gauge.calling job

abbrev with_depth : AgentServer → AgentServer
with_depth a = record a { metrics = record (a.metrics) { queue_depth = pos (length a.queue) } }

-- The gauge after the counts that are still to come: each sender raises it by one, and the worker
-- lowers it by one if it has not yet.
abbrev raised : ℕ → ℤ → ℤ
raised zero g = g
raised (suc n) g = raised n (inc g)

abbrev lowered : Hand → ℤ → ℤ
lowered waiting g = g
lowered (taken _) g = dec g
lowered (working _) g = g
lowered (Gauge.calling _) g = g

abbrev with_counts : ℕ → Hand → AgentServer → AgentServer
with_counts sent hand a = record a {
  metrics = record (a.metrics) { queue_depth = lowered hand (raised sent a.metrics.queue_depth) };
}

abbrev pub counted : Race → Counted
counted s = record { server = with_counts s.sent s.hand s.server; worker = counted_hand s.hand }

-- The same with the length of the queue in place of the gauge, which those counts come to.
abbrev measured : Race → Counted
measured s = record { server = with_depth s.server; worker = counted_hand s.hand }

raised-difference : (n m : ℕ) → raised m (difference n m) ≡ pos n
unfolding difference
raised-difference n zero = refl
raised-difference n (suc m) = ap (raised m) (inc-difference n m) ∙ raised-difference n m

lowered-length : (h : Hand) (n : ℕ) → lowered h (pos (n + uncounted h)) ≡ pos n
lowered-length waiting n = ground arith
lowered-length (taken _) n = let more : n + 1 ≡ suc n = ground arith in rw more refl
lowered-length (working _) n = ground arith
lowered-length (Gauge.calling _) n = ground arith

counted-measured : {size : ℕ} (s : Race) → IsCounted size s → counted s ≡ measured s
counted-measured s v =
    let n = length s.server.queue in
    let depth : lowered s.hand (raised s.sent s.server.metrics.queue_depth) ≡ pos n =
      ap (λ g. lowered s.hand (raised s.sent g)) v.depth
      ∙ ap (lowered s.hand) (raised-difference (n + uncounted s.hand) s.sent)
      ∙ lowered-length s.hand n in
    rw depth refl

enqueue_job-with_depth :
    (job : SyncJob) (a : AgentServer)
    → ltb (length a.queue) a.queue_size ≡ true
    → (enqueue_job job (with_depth a)).1 ≡ with_depth (send_job job a)
unfolding enqueue_job send_job
enqueue_job-with_depth job a room = rw (room, length-append a.queue (job ∷ [])) refl

take_job-with_depth :
    (job : SyncJob) (rest : List SyncJob) (a : AgentServer)
    → a.queue ≡ job ∷ rest
    → take_job rest (with_depth a) ≡ with_depth (receive_job rest a)
unfolding take_job receive_job
take_job-with_depth job rest a q =
    let shorter : length a.queue ≡ suc (length rest) = ground arith in rw shorter refl

finish_job-with_depth :
    {E : Type 0} (job : SyncJob) (outcome : Outcome E) (a : AgentServer)
    → finish_job job outcome (with_depth a) ≡ with_depth (finish_job job outcome a)
unfolding finish_job update_state delete_state
finish_job-with_depth job (ensured (ok _)) a = refl
finish_job-with_depth job (ensured (err _)) a = refl
finish_job-with_depth job (released (ok _)) a = refl
finish_job-with_depth job (released (err _)) a = refl

-- On a queue with room, a send to the waiting worker is an enqueue and a take.
hand_over-with_depth :
    (job : SyncJob) (a : AgentServer)
    → 0 < a.queue_size
    → a.queue ≡ []
    → take_job [] (enqueue_job job (with_depth a)).1 ≡ with_depth a
unfolding enqueue_job take_job
hand_over-with_depth job a room q =
    let fits : ltb (length a.queue) a.queue_size ≡ true = ground arith in rw (fits, q) refl

hand_over-queue :
    (job : SyncJob) (a : AgentServer)
    → 0 < a.queue_size
    → a.queue ≡ []
    → (enqueue_job job (with_depth a)).1.queue ≡ job ∷ []
unfolding enqueue_job
hand_over-queue job a room q =
    let fits : ltb (length a.queue) a.queue_size ≡ true = ground arith in rw (fits, q) refl

-- One move is one or two steps of the counted agent, or none.
Move-Atomics :
    {E : Type 0} {s t : Race} (r : Counted)
    → 0 < s.server.queue_size
    → Move E s t
    → Atomics E r (measured s)
    → Atomics E r (measured t)
unfolding count_sent count_taken
Move-Atomics {s = s} r room (send job fits e) run =
    rw e (step run (enqueues job (rw (enqueue_job-with_depth job s.server fits) refl)))
Move-Atomics {s = s} r room (hand_over job w q e) run = rw e (
    step (step run (enqueues job refl)) (
      takes job [] (rw w refl) (hand_over-queue job s.server room q)
        (rw (hand_over-with_depth job s.server room q) refl)))
Move-Atomics r room (tell_sent n h e) run = rw e run
Move-Atomics {s = s} r room (receive job rest w q e) run =
    rw e
      (step run (takes job rest (rw w refl) q (rw (take_job-with_depth job rest s.server q) refl)))
Move-Atomics r room (tell_taken job w e) run = rw e (rw w at run)
Move-Atomics r room (Gauge.begin job w e) run = rw e (step run (begins job (rw w refl) refl))
Move-Atomics {s = s} r room (Gauge.finish job outcome w e) run = rw e (
    step run
      (finishes job outcome (rw w refl) (rw (finish_job-with_depth job outcome s.server) refl)))

Moves-measured :
    (E : Type 0) (cfg : Option Config) (node : Text) (size : ℕ) {t : Race}
    → 0 < size
    → Moves E (race cfg node size) t
    → Atomics E
        (record { server = new_agent_server cfg node new_agent_metrics size; worker = waiting })
        (measured t)
unfolding new_agent_server
Moves-measured E cfg node size room here = start
Moves-measured E cfg node size room (next r m) =
    Move-Atomics
      (record { server = new_agent_server cfg node new_agent_metrics size; worker = waiting })
      (rw ((Moves-IsCounted size E cfg node r).same_size) room) m
      (Moves-measured E cfg node size room r)

-- On a queue with room for a job, whatever moves follow the start, the agent with the counts that are
-- still to come, by the senders and by the worker, is one that is reached from the start by steps which count every job as it moves.
pub Moves-Atomics :
    (E : Type 0) (cfg : Option Config) (node : Text) (size : ℕ) {t : Race}
    → 0 < size
    → Moves E (race cfg node size) t
    → Atomics E
        (record { server = new_agent_server cfg node new_agent_metrics size; worker = waiting })
        (counted t)
Moves-Atomics E cfg node size room r =
    rw (counted-measured _ (Moves-IsCounted size E cfg node r))
      (Moves-measured E cfg node size room r)

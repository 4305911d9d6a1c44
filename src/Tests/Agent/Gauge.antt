-- ===== src/Tests/Agent/Gauge.antt =====
-- A run in which the gauge falls behind the queue.
use multus_multivpc_cni.Base.{Text, text_eq, refl, arith}
use multus_multivpc_cni.Agent.Server.{SyncJob, new_agent_server, new_agent_metrics}
use multus_multivpc_cni.Agent.Handlers.{ensure_job}
use multus_multivpc_cni.Agent.Gauge.{
  Race, race, Moves, here, next, hand_over, send, tell_taken, taken, working, waiting, send_job,
  count_taken,
}
use multus_multivpc_cni.Agent.Gauge.Laws.{IsCounted, Moves-IsCounted}
use multus_multivpc_cni.Agent.Gauge.Atomic.{Atomics, counted, Moves-Atomics}
use multus_multivpc_cni.Tests.Agent.{node, profiles, green, request}

abbrev job : SyncJob
job = ensure_job green request

abbrev handed : Race
handed = record (race profiles node 1) { sent = 1; hand = taken job }

abbrev full : Race
full = record handed { server = send_job job handed.server; sent = 2 }

-- The worker has counted its job before either sender has.
abbrev behind : Race
behind = record full { server = count_taken full.server; hand = working job }

run : Moves Text (race profiles node 1) behind
unfolding new_agent_server
run =
    next (next (next here (hand_over job refl refl refl)) (send job refl refl))
      (tell_taken job refl refl)

Moves-IsCounted_example : IsCounted 1 behind
Moves-IsCounted_example = Moves-IsCounted 1 Text profiles node run

Moves-Atomics_example :
    Atomics Text
      (record { server = new_agent_server profiles node new_agent_metrics 1; worker = waiting })
      (counted behind)
Moves-Atomics_example = Moves-Atomics Text profiles node 1 (ground arith) run

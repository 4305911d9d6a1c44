-- ===== src/Agent.antt =====
-- cmd/multivpc-eni-agent/main.go: the node agent, which queues the requests of the CNI plugin and
-- of the Pod watcher and carries them out one at a time.
pub mod Messages
pub mod Server
pub mod Handlers
pub mod Steps
pub mod Invariant
pub mod Requests
pub mod Status
pub mod Keys
pub mod Drain
pub mod Cleanup
pub mod Watch
pub mod Gauge
pub mod Main

-- ===== src/Plugin.antt =====
-- cmd/multus-multivpc-cni/main.go: the CNI plugin.
pub mod Args
pub mod Names
pub mod Cache
pub mod Conf
pub mod Delegates
pub mod Times
pub mod Calls
pub mod Delete
pub mod Details
pub mod Add
pub mod Joined
pub mod Commands

-- ===== src/Aws.antt =====
-- pkg/aws/eni_manager.go: the life of the network interfaces behind the Pods.
pub mod Types
pub mod Ec2
pub mod Device
pub mod Addresses
pub mod Assign
pub mod Ensure
pub mod Release
pub mod Manager
pub mod Wait
pub mod Trace
pub mod Triples
pub mod ReleaseOrder
pub mod EnsureOrder

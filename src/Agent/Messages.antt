-- ===== src/Agent/Messages.antt =====
-- The messages of the agent's gRPC service (proto/syncpb/ip_sync.proto), and the Pods that the
-- Kubernetes informer hands over.
use Prim.Native.Nat.{ℕ}
use multus_multivpc_cni.Base.{Text, text, Bool, Option, List}

pub record ReportRequest : Type 0 where
  pub node_name : Text
  pub namespace : Text
  pub pod_name : Text
  pub pod_uid : Text
  pub container_id : Text
  pub interface_name : Text
  pub network_profile : Text
  pub ipv4_addresses : List Text
  pub ipv6_addresses : List Text
  pub mac_address : Text

pub record ReportResponse : Type 0 where
  pub accepted : Bool
  pub message : Text
  pub eni_id : Text
  pub attachment_id : Text
  pub mac_address : Text

pub record ReleaseRequest : Type 0 where
  pub node_name : Text
  pub namespace : Text
  pub pod_name : Text
  pub pod_uid : Text
  pub interface_name : Text
  pub network_profile : Text

pub record ReleaseResponse : Type 0 where
  pub accepted : Bool
  pub message : Text

pub record GetStatusRequest : Type 0 where
  pub pod_uid : Text
  pub interface_name : Text
  pub network_profile : Text

pub record InterfaceState : Type 0 where
  pub pod_uid : Text
  pub pod_name : Text
  pub namespace : Text
  pub network_profile : Text
  pub eni_id : Text
  pub ipv4_addresses : List Text
  pub ipv6_addresses : List Text
  pub status : Text
  pub interface_name : Text
  pub mac_address : Text

pub record GetStatusResponse : Type 0 where
  pub interfaces : List InterfaceState
  pub warnings : List Text

-- `corev1.PodPhase`, a string type.
abbrev pub pod_succeeded : Text
pod_succeeded = text "Succeeded"

abbrev pub pod_failed : Text
pod_failed = text "Failed"

-- The fields of `corev1.Pod` that the agent reads.
pub record Pod : Type 0 where
  pub uid : Text
  pub deletion_timestamp : Option ℕ
  pub phase : Text

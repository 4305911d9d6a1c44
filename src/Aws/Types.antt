-- ===== src/Aws/Types.antt =====
-- The requests and the result of pkg/aws/eni_manager.go.
use multus_multivpc_cni.Base.{Text, List, []}

pub record SyncRequest : Type 0 where
  pub pod_uid : Text
  pub pod_name : Text
  pub namespace : Text
  pub interface_name : Text
  pub network_profile : Text
  pub ipv4_addresses : List Text
  pub ipv6_addresses : List Text
  pub mac_address : Text

pub record ReleaseRequest : Type 0 where
  pub pod_uid : Text
  pub namespace : Text
  pub pod_name : Text
  pub interface_name : Text
  pub network_profile : Text

pub record SyncResult : Type 0 where
  pub eni_id : Text
  pub attachment_id : Text
  pub assigned_ipv4 : List Text
  pub assigned_ipv6 : List Text
  pub mac_address : Text

-- Go's zero values.
abbrev pub no_sync : SyncRequest
no_sync = record {
  pod_uid = [];
  pod_name = [];
  namespace = [];
  interface_name = [];
  network_profile = [];
  ipv4_addresses = [];
  ipv6_addresses = [];
  mac_address = [];
}

abbrev pub no_release : ReleaseRequest
no_release = record {
  pod_uid = [];
  namespace = [];
  pod_name = [];
  interface_name = [];
  network_profile = [];
}

-- What `refreshMetadata` has read from the instance metadata.
pub record Manager : Type 0 where
  pub instance_id : Text
  pub availability_zone : Text

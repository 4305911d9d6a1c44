-- ===== src/Aws/Ec2.antt =====
-- The interface `ec2API` of pkg/aws/eni_manager.go, with the clock and the context that the manager
-- also uses. The SDK's types hold the fields that the manager reads; a pointer is an option.
use multus_multivpc_cni.Base.{ℕ, Text, Bool, Option, List, Result}
use multus_multivpc_cni.Base.Int.{ℤ}
pub use multus_multivpc_cni.Base.Programs.{M, pure, fail, wrap, ◌>>=◌, ◌>>◌}

pub record PrivateIpAddress : Type 0 where
  pub private_ip_address : Option Text
  pub primary : Option Bool

-- `NetworkInterfaceAttachment`, and the attachment of an instance's interface.
pub record Attachment : Type 0 where
  pub attachment_id : Option Text
  pub device_index : Option ℤ

pub record NetworkInterface : Type 0 where
  pub network_interface_id : Option Text
  pub mac_address : Option Text
  pub attachment : Option Attachment
  pub status : Text
  pub private_ip_addresses : List PrivateIpAddress
  pub ipv6_addresses : List (Option Text)

-- The attachments of an instance's interfaces.
pub record Instance : Type 0 where
  pub instance_type : Text
  pub network_interfaces : List (Option Attachment)

-- `NetworkInfo.MaximumNetworkInterfaces` behind its two pointers.
pub record InstanceTypeInfo : Type 0 where
  pub network_info : Option (Option ℤ)

pub record DescribeInput : Type 0 where
  pub filters : List (Text × List Text)
  pub network_interface_ids : List Text

pub record CreateInput : Type 0 where
  pub subnet_id : Text
  pub groups : List Text
  pub description : Text
  pub tags : List (Text × Text)

pub record AttachInput : Type 0 where
  pub device_index : ℕ
  pub instance_id : Text
  pub network_interface_id : Option Text

pub record ModifyInput : Type 0 where
  pub attachment_id : Option Text
  pub delete_on_termination : Bool
  pub network_interface_id : Option Text

pub record AddressInput : Type 0 where
  pub network_interface_id : Option Text
  pub addresses : List Text

pub record DetachInput : Type 0 where
  pub attachment_id : Option Text
  pub force : Bool

pub record Ec2 : Type 1 where
  pub State : Type 0
  pub Error : Type 0
  pub describe_network_interfaces :
      DescribeInput → State → Result Error (List NetworkInterface) × State
  -- The instances by reservation.
  pub describe_instances : Text → State → Result Error (List (List Instance)) × State
  pub describe_instance_types : Text → State → Result Error (List InstanceTypeInfo) × State
  -- A successful answer holds the interface.
  pub create_network_interface : CreateInput → State → Result Error NetworkInterface × State
  -- A successful answer holds the attachment's id.
  pub attach_network_interface : AttachInput → State → Result Error (Option Text) × State
  pub modify_network_interface_attribute : ModifyInput → State → Result Error (Unit {0}) × State
  pub assign_private_ip_addresses : AddressInput → State → Result Error (Unit {0}) × State
  pub assign_ipv6_addresses : AddressInput → State → Result Error (Unit {0}) × State
  pub unassign_private_ip_addresses : AddressInput → State → Result Error (Unit {0}) × State
  pub unassign_ipv6_addresses : AddressInput → State → Result Error (Unit {0}) × State
  pub detach_network_interface : DetachInput → State → Result Error (Unit {0}) × State
  pub delete_network_interface : Option Text → State → Result Error (Unit {0}) × State
  -- `ctx.Err()`, `time.Now()` in nanoseconds, and `time.Sleep`.
  pub ctx_err : State → Option Error
  pub now : State → ℕ
  pub sleep : ℕ → State → State

-- The errors that the manager wraps or makes.
pub data AwsError (E : Type 0) : Type 0 where
  missing_subnet_id missing_security_group_ids : Text → AwsError E
  describe_network_interfaces : E → AwsError E
  eni_missing_attachment : Text → AwsError E
  describe_instance : Text → E → AwsError E
  instance_not_found : Text → AwsError E
  no_available_device_index : Text → List ℤ → ℕ → AwsError E
  create_network_interface attach_network_interface modify_attachment : E → AwsError E
  assign_ipv4_addresses assign_ipv6_addresses unassign_ipv4 unassign_ipv6 : E → AwsError E
  detach_network_interface delete_network_interface : E → AwsError E
  context_done : E → AwsError E
  detach_timed_out : Text → AwsError E
  -- Not an error of the program: the model's wait loop has used up its rounds.
  out_of_fuel : AwsError E

-- ===== src/Aws/Trace.antt =====
-- The calls that the manager makes of the EC2 API, recorded: any EC2 becomes one that also keeps
-- the list of its calls.
use multus_multivpc_cni.Base.{Text, Bool, true, false, Option, List, ◌∷◌, Result, ok, err}
use multus_multivpc_cni.Aws.Ec2.{
  NetworkInterface, DescribeInput, CreateInput, AttachInput, ModifyInput, AddressInput, DetachInput,
  Ec2, M,
}

-- A call with its input and, where later calls hang on it, its answer.
pub data Event (E : Type 0) : Type 0 where
  described : DescribeInput → Result E (List NetworkInterface) → Event E
  described_instances described_types : Text → Event E
  created : CreateInput → Result E NetworkInterface → Event E
  attached : AttachInput → Result E (Option Text) → Event E
  modified : ModifyInput → Bool → Event E
  assigned_ipv4 assigned_ipv6 unassigned_ipv4 unassigned_ipv6 : AddressInput → Bool → Event E
  detached : DetachInput → Bool → Event E
  deleted : Option Text → Bool → Event E

abbrev succeeded : {E A : Type 0} → Result E A → Bool
succeeded (ok _) = true
succeeded (err _) = false

-- Records a call in front of the earlier ones.
abbrev pub record_call :
    {S E I A : Type 0} → (I → Result E A → Event E) → (I → M S E A) → I → M (S × List (Event E)) E A
record_call event call i (s, t) = let (r, s') = call i s in (r, (s', event i r ∷ t))

abbrev pub traced : Ec2 → Ec2
traced e = record {
  State = e.State × List (Event e.Error);
  Error = e.Error;
  describe_network_interfaces = record_call described e.describe_network_interfaces;
  describe_instances = record_call (λ i _. described_instances i) e.describe_instances;
  describe_instance_types = record_call (λ i _. described_types i) e.describe_instance_types;
  create_network_interface = record_call created e.create_network_interface;
  attach_network_interface = record_call attached e.attach_network_interface;
  modify_network_interface_attribute =
      record_call (λ i r. modified i (succeeded r)) e.modify_network_interface_attribute;
  assign_private_ip_addresses =
      record_call (λ i r. assigned_ipv4 i (succeeded r)) e.assign_private_ip_addresses;
  assign_ipv6_addresses =
      record_call (λ i r. assigned_ipv6 i (succeeded r)) e.assign_ipv6_addresses;
  unassign_private_ip_addresses =
      record_call (λ i r. unassigned_ipv4 i (succeeded r)) e.unassign_private_ip_addresses;
  unassign_ipv6_addresses =
      record_call (λ i r. unassigned_ipv6 i (succeeded r)) e.unassign_ipv6_addresses;
  detach_network_interface =
      record_call (λ i r. detached i (succeeded r)) e.detach_network_interface;
  delete_network_interface =
      record_call (λ i r. deleted i (succeeded r)) e.delete_network_interface;
  ctx_err = λ (s, t). e.ctx_err s;
  now = λ (s, t). e.now s;
  sleep = λ d (s, t). (e.sleep d s, t);
}

-- ===== src/Tests/Aws.antt =====
-- Runs of the manager of pkg/aws/eni_manager.go against a cloud that holds at most one interface.
use multus_multivpc_cni.Base.{
  ℕ, ◌+◌, ◌≤◌, Text, text, text_eq, Bool, true, false, none, some, List, [], ◌∷◌, ok, err, ◌≡◌, ◌≢◌,
  ◌↔◌, refl, ◌&&◌, ◌||◌, if◌then◌else◌, arith, In, Any, map,
}
use multus_multivpc_cni.Base.Int.{pos, int_eq}
use multus_multivpc_cni.Config.{NetworkProfile}
use multus_multivpc_cni.Aws.Types.{Manager, SyncRequest, ReleaseRequest, SyncResult}
use multus_multivpc_cni.Aws.Ec2.{
  Attachment, NetworkInterface, Instance, DescribeInput, Ec2, AwsError, out_of_fuel,
}
use multus_multivpc_cni.Aws.Device.{max_interfaces, next_available_device_index}
use multus_multivpc_cni.Base.{◌<◌, ◌++◌}
use multus_multivpc_cni.Aws.Device.Laws.{
  IsSaid, IsLowestUnused, IsUsed, next_available_device_index_lem,
}
use multus_multivpc_cni.Aws.Addresses.{
  assign_ip_addresses, unassign_ip_addresses, to_bool, to_string,
}
use multus_multivpc_cni.Aws.Assign.{
  IsLacking, HasIpv4, HasIpv6, logged, adding_ipv4, adding_ipv6, removing_ipv4, removing_ipv6,
  assign_ip_addresses_calls, unassign_ip_addresses_calls,
}
use multus_multivpc_cni.Aws.Ensure.{ensure_interface}
use multus_multivpc_cni.Aws.EnsureOrder.{IsResult, ensure_interface_order}
use multus_multivpc_cni.Aws.EnsureOrder.Stages
use multus_multivpc_cni.Aws.Release.{release_interface, wait_for_detachment, wait_loop}
use multus_multivpc_cni.Aws.ReleaseOrder.{IsDone, release_interface_order}
use multus_multivpc_cni.Aws.ReleaseOrder.Phases
use multus_multivpc_cni.Aws.Wait.{IsClock, wait_for_detachment_total}
use multus_multivpc_cni.Aws.Trace.{traced}

-- The clock, and whether there is an interface and it is attached.
record Zone : Type 0 where
  clock : ℕ
  exists : Bool
  joined : Bool

abbrev attachment : Attachment
attachment = record { attachment_id = some (text "attach-1"); device_index = some (pos 1) }

abbrev eni : Bool → NetworkInterface
eni joined = record {
  network_interface_id = some (text "eni-1");
  mac_address = some (text "02:00");
  attachment = if joined then some attachment else none;
  status = if joined then text "in-use" else text "available";
  private_ip_addresses =
      record { private_ip_address = some (text "10.0.0.4"); primary = some true }
      ∷ record { private_ip_address = some (text "10.0.0.5"); primary = some false }
      ∷ [];
  ipv6_addresses = some (text "fd00::5") ∷ [];
}

abbrev is_empty : List (Text × List Text) → Bool
is_empty [] = true
is_empty (_ ∷ _) = false

-- A search by filters finds attached interfaces alone.
abbrev describe : DescribeInput → Zone → List NetworkInterface
describe i z = if z.exists && (z.joined || is_empty i.filters) then eni z.joined ∷ [] else []

abbrev host : Instance
host = record {
  instance_type = text "m5.large";
  network_interfaces = some (record { attachment_id = none; device_index = some (pos 0) }) ∷ [];
}

abbrev vpc : Ec2
vpc = record {
  State = Zone;
  Error = Text;
  describe_network_interfaces = λ i z. (ok (describe i z), z);
  describe_instances = λ id z. (ok ((host ∷ []) ∷ []), z);
  describe_instance_types = λ t z. (err (text "denied"), z);
  create_network_interface = λ i z. (ok (eni false), record z { exists = true });
  attach_network_interface = λ i z. (ok (some (text "attach-1")), record z { joined = true });
  modify_network_interface_attribute = λ i z. (ok tt, z);
  assign_private_ip_addresses = λ i z. (ok tt, z);
  assign_ipv6_addresses = λ i z. (ok tt, z);
  unassign_private_ip_addresses = λ i z. (ok tt, z);
  unassign_ipv6_addresses = λ i z. (ok tt, z);
  detach_network_interface = λ i z. (ok tt, record z { joined = false });
  delete_network_interface = λ i z. (ok tt, record z { exists = false });
  ctx_err = λ z. none;
  now = λ z. z.clock;
  sleep = λ d z. record z { clock = z.clock + d };
}

abbrev empty : Zone
empty = record { clock = 0; exists = false; joined = false }

abbrev busy : Zone
busy = record { clock = 0; exists = true; joined = true }

abbrev manager : Manager
manager = record { instance_id = text "i-1"; availability_zone = text "az" }

abbrev green : NetworkProfile
green = record {
  subnet_id = text "subnet-1";
  security_group_ids = text "sg-1" ∷ [];
  description = [];
  preferred_eni_count = pos 1;
}

abbrev request : SyncRequest
request = record {
  pod_uid = text "uid-1";
  pod_name = text "web";
  namespace = text "default";
  interface_name = text "net1";
  network_profile = text "green";
  ipv4_addresses = text "10.0.0.5" ∷ text "10.0.0.6" ∷ [];
  ipv6_addresses = [];
  mac_address = [];
}

abbrev goodbye : ReleaseRequest
goodbye = record {
  pod_uid = text "uid-1";
  namespace = text "default";
  pod_name = text "web";
  interface_name = text "net1";
  network_profile = text "green";
}

release_interface_order_example :
    let (r, (_, calls)) = release_interface (traced vpc) manager goodbye (busy, []) in
    let after = Phases.phase manager.instance_id (text "multivpc-" ++ goodbye.pod_uid) calls in
    (after ≢ Phases.violated) × (r ≡ ok tt → IsDone after)
release_interface_order_example = release_interface_order vpc manager goodbye busy

-- The interface is gone after its release.
released : (release_interface vpc manager goodbye busy).1 ≡ empty
unfolding release_interface text_eq unassign_ip_addresses wait_loop
released = refl

ensure_interface_order_example :
    let (r, (_, calls)) = ensure_interface (traced vpc) manager green request (empty, []) in
    (Stages.stage calls ≢ Stages.violated)
    × ((res : SyncResult) → r ≡ ok res → IsResult vpc request res (Stages.stage calls))
ensure_interface_order_example = ensure_interface_order vpc manager green request empty

-- The interface is there and attached after it was ensured.
ensured : (ensure_interface vpc manager green request empty).1 ≡ busy
unfolding ensure_interface text_eq next_available_device_index int_eq assign_ip_addresses
ensured = refl

clock : IsClock vpc
clock = record { now-sleep = λ d z. omega arith; now-describe = λ i z. omega arith }

wait_for_detachment_total_example : (wait_for_detachment vpc (eni true) busy).0 ≢ err out_of_fuel
wait_for_detachment_total_example = wait_for_detachment_total vpc clock (eni true) busy

next_available_device_index_lem_example :
    let limit = (max_interfaces vpc host empty).0 in
    let r = (next_available_device_index vpc manager empty).0 in
    (2 ≤ limit)
    × IsSaid vpc host empty limit
    × ((i : ℕ) → r ≡ ok i → IsLowestUnused host.network_interfaces limit i)
    × ((x : AwsError Text)
        → r ≡ err x
        → (j : ℕ) → 1 ≤ j
        → j < limit
        → IsUsed host.network_interfaces j)
next_available_device_index_lem_example =
    next_available_device_index_lem vpc manager empty empty host [] [] refl

assigned : (assign_ip_addresses (traced vpc) (eni true) request (busy, [])).0 ≡ ok tt
unfolding assign_ip_addresses text_eq
assigned = refl

assign_ip_addresses_calls_example :
    (ips4 : List Text) × (ips6 : List Text) × ((ip : Text)
      → In ip ips4 ↔ IsLacking (HasIpv4 (eni true)) request.ipv4_addresses ip)
    × ((ip : Text) → In ip ips6 ↔ IsLacking (HasIpv6 (eni true)) request.ipv6_addresses ip)
    × ((assign_ip_addresses (traced vpc) (eni true) request (busy, [])).1.1
        ≡ logged
            (adding_ipv6 vpc (eni true))
            ips6
            true
            (logged (adding_ipv4 vpc (eni true)) ips4 true []))
assign_ip_addresses_calls_example = assign_ip_addresses_calls vpc (eni true) request busy assigned

unassigned : (unassign_ip_addresses (traced vpc) (eni true) (busy, [])).0 ≡ ok tt
unfolding unassign_ip_addresses
unassigned = refl

unassign_ip_addresses_calls_example :
    (ips4 : List Text) × ((ip : Text)
      → In ip ips4
        ↔ Any
            (λ a. (to_bool a.primary ≡ false) × (to_string a.private_ip_address ≡ ip))
            (eni true).private_ip_addresses)
    × ((unassign_ip_addresses (traced vpc) (eni true) (busy, [])).1.1
        ≡ logged
            (removing_ipv6 vpc (eni true))
            (map to_string (eni true).ipv6_addresses)
            true
            (logged (removing_ipv4 vpc (eni true)) ips4 true []))
unassign_ip_addresses_calls_example = unassign_ip_addresses_calls vpc (eni true) busy unassigned

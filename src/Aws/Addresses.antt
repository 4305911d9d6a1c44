-- ===== src/Aws/Addresses.antt =====
-- `assignIPAddresses` and `unassignIPAddresses` of pkg/aws/eni_manager.go.
use multus_multivpc_cni.Base.{
  Text, text_eq, Bool, false, not, Option, none, some, List, [], ◌∷◌, contains, keep, map,
  if◌then◌else◌,
}
use multus_multivpc_cni.Aws.Types.{SyncRequest}
use multus_multivpc_cni.Aws.Ec2.{
  PrivateIpAddress, NetworkInterface, Ec2, AwsError, assign_ipv4_addresses, assign_ipv6_addresses,
  unassign_ipv4, unassign_ipv6, M, pure, wrap, ◌>>◌,
}

-- `awstypes.ToString` and `awstypes.ToBool`: a nil pointer is the zero value.
abbrev pub to_string : Option Text → Text
to_string none = []
to_string (some s) = s

abbrev pub to_bool : Option Bool → Bool
to_bool none = false
to_bool (some b) = b

-- The addresses that are not nil, as the map `existing` has them.
unfoldable pub existing_ipv4 : List PrivateIpAddress → List Text
existing_ipv4 [] = []
existing_ipv4 (addr ∷ addrs) =
    let rest = existing_ipv4 addrs in
    elim addr.private_ip_address [ none ↦ rest | some ip ↦ ip ∷ rest ]

unfoldable pub existing_ipv6 : List (Option Text) → List Text
existing_ipv6 [] = []
existing_ipv6 (none ∷ addrs) = existing_ipv6 addrs
existing_ipv6 (some ip ∷ addrs) = ip ∷ existing_ipv6 addrs

-- `toAssign`: the wanted addresses that do not exist yet, in order.
abbrev pub to_assign : List Text → List Text → List Text
to_assign existing wanted = keep (λ ip. not (contains existing ip)) wanted

-- The addresses to take away: all but the primary ones.
unfoldable pub secondary_ipv4 : List PrivateIpAddress → List Text
secondary_ipv4 [] = []
secondary_ipv4 (addr ∷ addrs) =
    let rest = secondary_ipv4 addrs in
    if to_bool addr.primary then rest else to_string addr.private_ip_address ∷ rest

-- `if len(list) > 0 { … }` around a call.
abbrev pub unless_empty :
    {S X : Type 0} → List Text → (List Text → M S X (Unit {0})) → M S X (Unit {0})
unless_empty [] f = pure tt
unless_empty (x ∷ xs) f = f (x ∷ xs)

module _ (e : Ec2) where
  abbrev Manage : Type 0
  Manage = M e.State (AwsError e.Error) (Unit {0})

  unfoldable pub assign_ipv4 : NetworkInterface → List Text → Manage
  unfolding existing_ipv4
  assign_ipv4 eni wanted = unless_empty wanted λ ips.
      unless_empty (to_assign (existing_ipv4 eni.private_ip_addresses) ips) λ addresses.
        wrap assign_ipv4_addresses (
          e.assign_private_ip_addresses
            (record { network_interface_id = eni.network_interface_id; addresses = addresses }))

  unfoldable pub assign_ipv6 : NetworkInterface → List Text → Manage
  unfolding existing_ipv6
  assign_ipv6 eni wanted = unless_empty wanted λ ips.
      unless_empty (to_assign (existing_ipv6 eni.ipv6_addresses) ips) λ addresses.
        wrap assign_ipv6_addresses (
          e.assign_ipv6_addresses
            (record { network_interface_id = eni.network_interface_id; addresses = addresses }))

  unfoldable pub assign_ip_addresses : NetworkInterface → SyncRequest → Manage
  unfolding assign_ipv4 assign_ipv6
  assign_ip_addresses eni req = do
    assign_ipv4 eni req.ipv4_addresses
    assign_ipv6 eni req.ipv6_addresses

  unfoldable pub unassign_secondary : NetworkInterface → Manage
  unfolding secondary_ipv4
  unassign_secondary eni = unless_empty (secondary_ipv4 eni.private_ip_addresses) λ ips.
      wrap unassign_ipv4 (
        e.unassign_private_ip_addresses
          (record { network_interface_id = eni.network_interface_id; addresses = ips }))

  unfoldable pub unassign_all_ipv6 : NetworkInterface → Manage
  unassign_all_ipv6 eni = unless_empty (map to_string eni.ipv6_addresses) λ ips.
      wrap unassign_ipv6 (
        e.unassign_ipv6_addresses
          (record { network_interface_id = eni.network_interface_id; addresses = ips }))

  unfoldable pub unassign_ip_addresses : NetworkInterface → Manage
  unfolding unassign_secondary unassign_all_ipv6
  unassign_ip_addresses eni = do unassign_secondary eni; unassign_all_ipv6 eni

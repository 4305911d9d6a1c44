-- ===== src/Plugin/Details.antt =====
-- The addresses that ADD reports: `collectInterfaceDetails` and `filterIPv6Global` of
-- cmd/multus-multivpc-cni/main.go.
pub mod Laws
use multus_multivpc_cni.Base.{
  ℕ, zero, suc, Text, text_eq, nat_eq, Bool, true, false, not, ◌&&◌, ◌||◌, Option, none, some, List,
  [], ◌∷◌, ◌++◌, Result, ok, err, ◌==◌, if◌then◌else◌, keep, length, leb, ltb,
}
use Prim.Native.Nat.{◌%◌}
use multus_multivpc_cni.Base.Int.{ℤ, pos, int_eq}
use multus_multivpc_cni.Netns.{Ip, to4, InterfaceInfo}

-- The part of `100.Result` that the plugin reads; of an interface, the name.
pub record IpConfig : Type 0 where
  pub interface : Option ℤ
  pub address : Ip

pub record CurrentResult : Type 0 where
  pub interfaces : List Text
  pub ips : List IpConfig

abbrev all_zero : Ip → Bool
all_zero [] = true
all_zero (b ∷ bytes) = let rest = all_zero bytes in if b == 0 then rest else false

abbrev is_long : Ip → Bool
is_long ip = length ip == 16

-- `IsUnspecified`, `IsLinkLocalUnicast` and `IsLinkLocalMulticast`; a test of some bits of a byte is
-- written as a range or a remainder.
unfoldable pub is_unspecified : Ip → Bool
unfolding to4
is_unspecified ip = elim (to4 ip) [ some ip4 ↦ all_zero ip4 | none ↦ is_long ip && all_zero ip ]

abbrev unicast4 : Ip → Bool
unicast4 (a ∷ b ∷ _) = a == 169 && b == 254
unicast4 _ = false

abbrev unicast6 : Ip → Bool
unicast6 (a ∷ b ∷ _) = a == 0xFE && leb 0x80 b && ltb b 0xC0
unicast6 _ = false

unfoldable pub is_link_local_unicast : Ip → Bool
unfolding to4
is_link_local_unicast ip = elim (to4 ip) [
  | some ip4 ↦ unicast4 ip4
  | none ↦ is_long ip && unicast6 ip
]

abbrev multicast4 : Ip → Bool
multicast4 (a ∷ b ∷ c ∷ _) = a == 224 && b == 0 && c == 0
multicast4 _ = false

abbrev multicast6 : Ip → Bool
multicast6 (a ∷ b ∷ _) = a == 0xFF && b % 16 == 2
multicast6 _ = false

unfoldable pub is_link_local_multicast : Ip → Bool
unfolding to4
is_link_local_multicast ip = elim (to4 ip) [
  | some ip4 ↦ multicast4 ip4
  | none ↦ is_long ip && multicast6 ip
]

abbrev pub is_global : Ip → Bool
is_global ip =
    not (ip == [])
    && not (is_link_local_unicast ip || is_link_local_multicast ip || is_unspecified ip)

unfoldable pub filter_ipv6_global : List Ip → List Ip
filter_ipv6_global addrs = keep is_global addrs

-- The index of the first interface with the name, from an index on.
unfoldable pub index_from : ℕ → Text → List Text → Option ℕ
index_from idx if_name [] = none
index_from idx if_name (name ∷ names) =
    let rest = index_from (suc idx) if_name names in if name == if_name then some idx else rest

unfoldable pub is_on : ℕ → IpConfig → Bool
is_on idx ip = elim ip.interface [ none ↦ false | some i ↦ i == pos idx ]

unfoldable pub is_v4 : IpConfig → Bool
unfolding to4
is_v4 ip = elim (to4 ip.address) [ none ↦ false | some _ ↦ true ]

-- The loop over the addresses of the result: those of IPv4 and the others.
unfoldable pub addresses_on : ℕ → List IpConfig → List Ip × List Ip
unfolding is_on is_v4
addresses_on idx [] = ([], [])
addresses_on idx (ip ∷ ips) =
    let (ipv4, ipv6) = addresses_on idx ips in
    if not (is_on idx ip)
    then (ipv4, ipv6)
    else if is_v4 ip
    then (ip.address ∷ ipv4, ipv6)
    else (ipv4, ip.address ∷ ipv6)

abbrev pub result_addresses : Text → CurrentResult → List Ip × List Ip
result_addresses if_name cur = elim (index_from 0 if_name cur.interfaces) [
  | none ↦ ([], [])
  | some idx ↦ addresses_on idx cur.ips
]

abbrev pub or_else_list : List Ip → List Ip → List Ip
or_else_list [] other = other
or_else_list (ip ∷ ips) other = ip ∷ ips

-- The interface as the namespace shows it; a failed look leaves its name.
abbrev pub info_of : {E : Type 0} → Text → Result E InterfaceInfo → InterfaceInfo
info_of if_name (ok info) = info
info_of if_name (err _) = record {
  name = if_name;
  hardware = [];
  mtu = pos 0;
  ipv4 = [];
  ipv6 = [];
}

-- `current.NewResultFromResult` and `netns.InspectInterface` have answered.
unfoldable pub collect_interface_details :
    {E N : Type 0}
    → Text
    → Result E CurrentResult
    → Result N InterfaceInfo
    → Result E (InterfaceInfo × (List Ip × List Ip))
unfolding index_from addresses_on filter_ipv6_global
collect_interface_details if_name (err e) inspected = err e
collect_interface_details if_name (ok cur) inspected =
    let info = info_of if_name inspected in
    let (ipv4, ipv6) = result_addresses if_name cur in
    ok (info, (or_else_list ipv4 info.ipv4, filter_ipv6_global (or_else_list ipv6 info.ipv6)))

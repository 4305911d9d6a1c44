-- ===== src/Netns.antt =====
-- pkg/netns/interface.go and interface_stub.go: the look at an interface in a network namespace. The
-- namespaces (of the CNI plugins' ns) and netlink are parameters.
pub mod Laws
use multus_multivpc_cni.Base.{
  ℕ, Text, text, text_eq, nat_eq, Bool, true, false, Option, none, some, List, [], ◌∷◌, ◌++◌,
  Result, ok, err, ◌==◌, if◌then◌else◌,
}
use multus_multivpc_cni.Base.Int.{ℤ, pos}

-- A `net.IP` is its bytes; nil is empty.
abbrev pub Ip : Type 0
Ip = List ℕ

-- `netns.InterfaceInfo`
pub record InterfaceInfo : Type 0 where
  pub name : Text
  pub hardware : Text
  pub mtu : ℤ
  pub ipv4 : List Ip
  pub ipv6 : List Ip

-- `To4`: the four bytes of an IPv4 address, which can stand in the last four of sixteen.
unfoldable pub to4 : Ip → Option Ip
to4 (a ∷ b ∷ c ∷ d ∷ []) = some (a ∷ b ∷ c ∷ d ∷ [])
to4 (p0 ∷ p1 ∷ p2 ∷ p3 ∷ p4 ∷ p5 ∷ p6 ∷ p7 ∷ p8 ∷ p9 ∷ p10 ∷ p11 ∷ a ∷ b ∷ c ∷ d ∷ []) =
    if (p0 ∷ p1 ∷ p2 ∷ p3 ∷ p4 ∷ p5 ∷ p6 ∷ p7 ∷ p8 ∷ p9 ∷ p10 ∷ p11 ∷ [])
      == (0 ∷ 0 ∷ 0 ∷ 0 ∷ 0 ∷ 0 ∷ 0 ∷ 0 ∷ 0 ∷ 0 ∷ 0xFF ∷ 0xFF ∷ [])
    then some (a ∷ b ∷ c ∷ d ∷ [])
    else none
to4 _ = none

-- The libraries over the state of the host. `Do` enters the namespace, makes its call and leaves; of
-- an address, `AddrList` gives the IP.
pub record NsLib : Type 1 where
  pub State : Type 0
  pub Error : Type 0
  pub Handle : Type 0
  pub Link : Type 0
  pub hardware_addr : Link → Text
  pub mtu : Link → ℤ
  pub get_ns : Text → State → Result Error Handle × State
  pub enter : Handle → State → Result Error (Unit {0}) × State
  pub leave : Handle → State → State
  pub close : Handle → State → State
  pub link_by_name : Text → State → Result Error Link × State
  pub addr_list : Link → State → Result Error (List Ip) × State

pub data InspectError (E : Type 0) : Type 0 where
  empty_ns_path : InspectError E
  empty_interface_name : InspectError E
  open_netns : Text → E → InspectError E
  find_link : Text → E → InspectError E
  addr_list_failed : E → InspectError E
  do_failed : E → InspectError E
  not_supported : InspectError E

-- The loop over the addresses.
unfoldable pub split_addresses : List Ip → InterfaceInfo → InterfaceInfo
unfolding to4
split_addresses [] info = info
split_addresses (ip ∷ addrs) info = split_addresses addrs (
    if ip == [] then info else elim (to4 ip) [
      | some _ ↦ record info { ipv4 = info.ipv4 ++ ip ∷ [] }
      | none ↦ record info { ipv6 = info.ipv6 ++ ip ∷ [] }
    ])

module _ (l : NsLib) where
  open l use {State, Error, Handle}

  -- What runs in the namespace; an error leaves what is filled in behind, and is returned.
  unfoldable pub fill : Text → State → Result (InspectError Error) InterfaceInfo × State
  unfolding split_addresses
  fill if_name s =
      let (found, s1) = l.link_by_name if_name s in
      elim found [
        | err e ↦ (err (find_link if_name e), s1)
        | ok link ↦
            let (listed, s2) = l.addr_list link s1 in
            elim listed [
              | err e ↦ (err (addr_list_failed e), s2)
              | ok addrs ↦ (
                ok (
                    split_addresses addrs (record {
                      name = if_name;
                      hardware = l.hardware_addr link;
                      mtu = l.mtu link;
                      ipv4 = [];
                      ipv6 = [];
                    })),
                s2,
              )
            ]
      ]

  -- `nsHandle.Do`, which fails by itself if the namespace cannot be entered.
  unfoldable pub do_fill : Handle → Text → State → Result (InspectError Error) InterfaceInfo × State
  unfolding fill
  do_fill h if_name s =
      let (entered, s1) = l.enter h s in
      elim entered [
        | err e ↦ (err (do_failed e), s1)
        | ok _ ↦ let (r, s2) = fill if_name s1 in (r, l.leave h s2)
      ]

  unfoldable pub inspect_interface :
      Text → Text → State → Result (InspectError Error) InterfaceInfo × State
  unfolding do_fill
  inspect_interface ns_path if_name s =
      if ns_path == []
      then (err empty_ns_path, s)
      else if if_name == []
      then (err empty_interface_name, s)
      else (let (got, s1) = l.get_ns ns_path s in
          elim got [
            | err e ↦ (err (open_netns ns_path e), s1)
            | ok h ↦ let (r, s2) = do_fill h if_name s1 in (r, l.close h s2)
          ])

-- The stub for other systems than Linux.
unfoldable pub inspect_interface_stub :
    {E : Type 0} → Text → Text → Result (InspectError E) InterfaceInfo
inspect_interface_stub ns_path if_name = err not_supported

-- ===== src/Netns/Laws.antt =====
-- What `InspectInterface` of pkg/netns/interface.go returns and leaves behind.
use multus_multivpc_cni.Base.{
  ℕ, suc, Text, text_eq, Bool, true, false, none, some, List, [], ◌∷◌, ◌++◌, ok, err, ◌==◌,
  if◌then◌else◌, keep, ◌≡◌, ◌≢◌, ◌-◌, inl, inr, arith, Bool-cases, Option-cases, Result-cases,
}
use mathlib.Core.List.{append_assoc, append-nil}
use multus_multivpc_cni.Netns.{
  Ip, InterfaceInfo, to4, NsLib, split_addresses, fill, do_fill, inspect_interface,
}

-- An address of IPv4, and one of IPv6; a nil address is neither.
unfoldable pub is_ipv4 : Ip → Bool
is_ipv4 ip = if ip == [] then false else elim (to4 ip) [ none ↦ false | some _ ↦ true ]

unfoldable pub is_ipv6 : Ip → Bool
is_ipv6 ip = if ip == [] then false else elim (to4 ip) [ none ↦ true | some _ ↦ false ]

split_addresses_lem :
    (addrs : List Ip) (info : InterfaceInfo)
    → split_addresses addrs info ≡ record info {
      ipv4 = info.ipv4 ++ keep is_ipv4 addrs;
      ipv6 = info.ipv6 ++ keep is_ipv6 addrs;
    }
unfolding split_addresses is_ipv4 is_ipv6
split_addresses_lem [] info = rw (append-nil info.ipv4, append-nil info.ipv6)
split_addresses_lem (ip ∷ addrs) info = elim (Bool-cases (ip == [])) [
  | inl e ↦ ground (arith, split_addresses_lem addrs info)
  | inr e ↦ elim (Option-cases (to4 ip)) [
    | inl f ↦ ground (
      arith,
      split_addresses_lem addrs (record info { ipv6 = info.ipv6 ++ ip ∷ [] }),
      append_assoc info.ipv6 (ip ∷ []) (keep is_ipv6 addrs),
    )
    | inr (_, f) ↦ ground (
      arith,
      split_addresses_lem addrs (record info { ipv4 = info.ipv4 ++ ip ∷ [] }),
      append_assoc info.ipv4 (ip ∷ []) (keep is_ipv4 addrs),
    )
  ]
]

module _ (l : NsLib) where
  open l use {State, Error, Handle, Link}

  -- What was seen of an interface in the state of the host in which its link was looked up.
  pub record IsSeen (if_name : Text) (s : State) (info : InterfaceInfo) : Type 0 where
    pub link : Link
    pub addrs : List Ip
    pub found : (l.link_by_name if_name s).0 ≡ ok link
    pub listed : (l.addr_list link (l.link_by_name if_name s).1).0 ≡ ok addrs
    pub same_name : info.name ≡ if_name
    pub same_hardware : info.hardware ≡ l.hardware_addr link
    pub same_mtu : info.mtu ≡ l.mtu link
    pub all_ipv4 : info.ipv4 ≡ keep is_ipv4 addrs
    pub all_ipv6 : info.ipv6 ≡ keep is_ipv6 addrs

  -- The interface before the loop over its addresses.
  abbrev bare : Text → Link → InterfaceInfo
  bare if_name link = record {
    name = if_name;
    hardware = l.hardware_addr link;
    mtu = l.mtu link;
    ipv4 = [];
    ipv6 = [];
  }

  fill-ok :
      (if_name : Text) (s : State) (link : Link) (addrs : List Ip)
      → (l.link_by_name if_name s).0 ≡ ok link
      → (l.addr_list link (l.link_by_name if_name s).1).0 ≡ ok addrs
      → (fill l if_name s).0 ≡ ok (split_addresses addrs (bare if_name link))
  unfolding fill
  fill-ok if_name s link addrs f g = ground arith

  fill-IsSeen :
      (if_name : Text) (s : State) {info : InterfaceInfo}
      → (fill l if_name s).0 ≡ ok info
      → IsSeen if_name s info
  unfolding fill
  fill-IsSeen if_name s {info} h = elim (Result-cases (l.link_by_name if_name s).0) [
    | inl (e, f) ↦ absurd (ground arith)
    | inr (link, f) ↦ elim (Result-cases (l.addr_list link (l.link_by_name if_name s).1).0) [
      | inl (e, g) ↦ absurd (ground arith)
      | inr (addrs, g) ↦
          ground
            (arith, fill-ok if_name s link addrs f g, split_addresses_lem addrs (bare if_name link))
    ]
  ]

  -- What the namespace library does with its open handles: an open namespace is held until it is
  -- closed, and the calls inside change nothing of that.
  pub record IsCounted (held : State → ℕ) : Type 0 where
    pub get_ns_ok :
        (path : Text) (s : State) (h : Handle)
        → (l.get_ns path s).0 ≡ ok h
        → held (l.get_ns path s).1 ≡ suc (held s)
    pub get_ns_err :
        (path : Text) (s : State) (e : Error)
        → (l.get_ns path s).0 ≡ err e
        → held (l.get_ns path s).1 ≡ held s
    pub close_one : (h : Handle) (s : State) → held (l.close h s) ≡ held s - 1
    pub enter_same : (h : Handle) (s : State) → held (l.enter h s).1 ≡ held s
    pub leave_same : (h : Handle) (s : State) → held (l.leave h s) ≡ held s
    pub link_same : (name : Text) (s : State) → held (l.link_by_name name s).1 ≡ held s
    pub addr_same : (link : Link) (s : State) → held (l.addr_list link s).1 ≡ held s

  module _ (held : State → ℕ) (c : IsCounted held) where
    fill-held : (if_name : Text) (s : State) → held (fill l if_name s).1 ≡ held s
    unfolding fill
    fill-held if_name s = elim (Result-cases (l.link_by_name if_name s).0) [
      | inl (e, f) ↦ ground (arith, c.link_same if_name s)
      | inr (link, f) ↦ elim (Result-cases (l.addr_list link (l.link_by_name if_name s).1).0) [
        | inl (e, g) ↦
            ground (arith, c.link_same if_name s, c.addr_same link (l.link_by_name if_name s).1)
        | inr (addrs, g) ↦
            ground (arith, c.link_same if_name s, c.addr_same link (l.link_by_name if_name s).1)
      ]
    ]

    do_fill-held :
        (h : Handle) (if_name : Text) (s : State) → held (do_fill l h if_name s).1 ≡ held s
    unfolding do_fill
    do_fill-held h if_name s = elim (Result-cases (l.enter h s).0) [
      | inl (e, f) ↦ ground (arith, c.enter_same h s)
      | inr (_, f) ↦ ground (
        arith,
        c.enter_same h s,
        fill-held if_name (l.enter h s).1,
        c.leave_same h (fill l if_name (l.enter h s).1).1,
      )
    ]

    inspect-held :
        (ns_path if_name : Text) (s : State)
        → held (inspect_interface l ns_path if_name s).1 ≡ held s
    unfolding inspect_interface
    inspect-held ns_path if_name s = elim (Result-cases (l.get_ns ns_path s).0) [
      | inl (e, f) ↦ ground (arith, c.get_ns_err ns_path s e f)
      | inr (h, f) ↦ ground (
        arith,
        c.get_ns_ok ns_path s h f,
        do_fill-held h if_name (l.get_ns ns_path s).1,
        c.close_one h (do_fill l h if_name (l.get_ns ns_path s).1).1,
      )
    ]

  -- How a look succeeds.
  pub record IsInspected (ns_path if_name : Text) (s : State) (info : InterfaceInfo) : Type 0 where
    pub has_path : ns_path ≢ []
    pub has_name : if_name ≢ []
    pub handle : Handle
    pub opened : (l.get_ns ns_path s).0 ≡ ok handle
    pub entered : (l.enter handle (l.get_ns ns_path s).1).0 ≡ ok tt
    pub seen : IsSeen if_name (l.enter handle (l.get_ns ns_path s).1).1 info

  inspect-nonempty :
      (ns_path if_name : Text) (s : State) {info : InterfaceInfo}
      → (inspect_interface l ns_path if_name s).0 ≡ ok info
      → (ns_path ≢ []) × (if_name ≢ [])
  unfolding inspect_interface
  inspect-nonempty ns_path if_name s h = ground arith

  inspect-IsInspected :
      (ns_path if_name : Text) (s : State) {info : InterfaceInfo}
      → (inspect_interface l ns_path if_name s).0 ≡ ok info
      → IsInspected ns_path if_name s info
  unfolding inspect_interface do_fill
  inspect-IsInspected ns_path if_name s h = elim (Result-cases (l.get_ns ns_path s).0) [
    | inl (e, f) ↦ absurd (ground arith)
    | inr (n, f) ↦ elim (Result-cases (l.enter n (l.get_ns ns_path s).1).0) [
      | inl (e, g) ↦ absurd (ground arith)
      | inr (_, g) ↦
          let (has_path, has_name) = inspect-nonempty ns_path if_name s h in
          record {
            has_path = has_path;
            has_name = has_name;
            handle = n;
            opened = f;
            entered = g;
            seen = fill-IsSeen if_name (l.enter n (l.get_ns ns_path s).1).1 (ground arith);
          }
    ]
  ]

  -- However a look ends, it holds as many namespaces open as before, if the library counts them as
  -- `IsCounted` says. If it returns the interface, the path and the name are not empty, the namespace
  -- was opened and entered, and in it a link of that name was found: what is returned is the name,
  -- the hardware address and the MTU of that link, and of the addresses that were listed for it all
  -- IPv4 ones and all others, each in their order, without the nil ones.
  pub inspect_interface_lem :
      (held : State → ℕ) (c : IsCounted held) (ns_path if_name : Text) (s : State)
      → (held (inspect_interface l ns_path if_name s).1 ≡ held s)
        × ((info : InterfaceInfo)
            → (inspect_interface l ns_path if_name s).0 ≡ ok info
            → IsInspected ns_path if_name s info)
  inspect_interface_lem held c ns_path if_name s =
      (inspect-held held c ns_path if_name s, λ info h. inspect-IsInspected ns_path if_name s h)

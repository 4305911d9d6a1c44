-- ===== src/Tests/Plugin/Details.antt =====
-- A run of `collectInterfaceDetails` of cmd/multus-multivpc-cni/main.go.
use multus_multivpc_cni.Base.{
  Text, text, text_eq, nat_eq, true, false, some, List, [], ◌∷◌, Result, ok, err, ◌≡◌, ◌↔◌, refl,
  In,
}
use multus_multivpc_cni.Base.Int.{pos, int_eq}
use multus_multivpc_cni.Plugin.Details.{
  CurrentResult, info_of, collect_interface_details, is_link_local_unicast, is_link_local_multicast,
  is_unspecified,
}
use multus_multivpc_cni.Netns.{Ip, InterfaceInfo}
use multus_multivpc_cni.Plugin.Details.Laws.{
  IsAssigned, Else, IsGlobal, collect_interface_details_lem,
}

abbrev link_local : Ip
link_local = 0xFE ∷ 0x80 ∷ 0 ∷ 0 ∷ 0 ∷ 0 ∷ 0 ∷ 0 ∷ 0 ∷ 0 ∷ 0 ∷ 0 ∷ 0 ∷ 0 ∷ 0 ∷ 5 ∷ []

abbrev private6 : Ip
private6 = 0xFD ∷ 0 ∷ 0 ∷ 0 ∷ 0 ∷ 0 ∷ 0 ∷ 0 ∷ 0 ∷ 0 ∷ 0 ∷ 0 ∷ 0 ∷ 0 ∷ 0 ∷ 5 ∷ []

abbrev cur : CurrentResult
cur = record {
  interfaces = text "eth0" ∷ text "net1" ∷ [];
  ips =
      record { interface = some (pos 1); address = 10 ∷ 0 ∷ 0 ∷ 5 ∷ [] }
      ∷ record { interface = some (pos 0); address = 10 ∷ 0 ∷ 0 ∷ 6 ∷ [] }
      ∷ record { interface = some (pos 1); address = link_local }
      ∷ record { interface = some (pos 1); address = private6 }
      ∷ [];
}

abbrev unseen : Result Text InterfaceInfo
unseen = err (text "no such namespace")

collect_interface_details_lem_example :
    let info = info_of (text "net1") unseen in
    (ipv4 : List Ip) × (ipv6 : List Ip) × (collect_interface_details {E = Text}
        (text "net1")
        (ok cur)
        unseen
      ≡ ok (info, (ipv4, ipv6)))
    × ((ip : Ip) → In ip ipv4 ↔ Else (IsAssigned (text "net1") cur true) info.ipv4 ip)
    × ((ip : Ip)
        → In ip ipv6 ↔ (Else (IsAssigned (text "net1") cur false) info.ipv6 ip × IsGlobal ip))
collect_interface_details_lem_example = collect_interface_details_lem (text "net1") cur unseen

-- The link-local address and the other interface's are left out.
collected :
    collect_interface_details {E = Text} (text "net1") (ok cur) unseen
    ≡ ok (info_of (text "net1") unseen, ((10 ∷ 0 ∷ 0 ∷ 5 ∷ []) ∷ [], private6 ∷ []))
unfolding collect_interface_details text_eq nat_eq int_eq is_link_local_unicast
    is_link_local_multicast is_unspecified
collected = refl

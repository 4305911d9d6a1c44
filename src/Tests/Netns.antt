-- ===== src/Tests/Netns.antt =====
-- A run of `InspectInterface` of pkg/netns/interface.go on a host with one namespace.
use multus_multivpc_cni.Base.{
  ℕ, suc, ◌-◌, Text, text, text_eq, nat_eq, [], ◌∷◌, ok, err, ◌==◌, if◌then◌else◌, ◌≡◌, refl, arith,
}
use multus_multivpc_cni.Base.Int.{pos}
use multus_multivpc_cni.Netns.{Ip, InterfaceInfo, NsLib, inspect_interface}
use multus_multivpc_cni.Netns.Laws.{IsCounted, IsInspected, inspect_interface_lem}

abbrev v4 : Ip
v4 = 10 ∷ 0 ∷ 0 ∷ 5 ∷ []

abbrev v6 : Ip
v6 = 0xFD ∷ 0 ∷ 0 ∷ 0 ∷ 0 ∷ 0 ∷ 0 ∷ 0 ∷ 0 ∷ 0 ∷ 0 ∷ 0 ∷ 0 ∷ 0 ∷ 0 ∷ 5 ∷ []

-- The state is the number of open namespaces.
abbrev lib : NsLib
lib = record {
  State = ℕ;
  Error = Text;
  Handle = Text;
  Link = Text;
  hardware_addr = λ link. 2 ∷ 0 ∷ [];
  mtu = λ link. pos 1500;
  get_ns = λ path n. if path == text "/run/ns" then (ok path, suc n) else (err (text "missing"), n);
  enter = λ h n. (ok tt, n);
  leave = λ h n. n;
  close = λ h n. n - 1;
  link_by_name = λ name n. if name == text "net1" then (ok name, n) else (err (text "no link"), n);
  addr_list = λ link n. (ok (v4 ∷ [] ∷ v6 ∷ []), n);
}

counted : IsCounted lib (λ n. n)
counted = record {
  get_ns_ok = λ path n h e. ground arith;
  get_ns_err = λ path n x e. ground arith;
  close_one = λ h n. refl;
  enter_same = λ h n. refl;
  leave_same = λ h n. refl;
  link_same = λ name n. ground arith;
  addr_same = λ link n. refl;
}

inspect_interface_lem_example :
    ((inspect_interface lib (text "/run/ns") (text "net1") 3).1 ≡ 3)
    × ((info : InterfaceInfo)
        → (inspect_interface lib (text "/run/ns") (text "net1") 3).0 ≡ ok info
        → IsInspected lib (text "/run/ns") (text "net1") 3 info)
inspect_interface_lem_example =
    inspect_interface_lem lib (λ n. n) counted (text "/run/ns") (text "net1") 3

inspected : inspect_interface lib (text "/run/ns") (text "net1") 3 ≡ (
  ok (record {
    name = text "net1";
    hardware = 2 ∷ 0 ∷ [];
    mtu = pos 1500;
    ipv4 = v4 ∷ [];
    ipv6 = v6 ∷ [];
  }),
  3,
)
unfolding inspect_interface text_eq nat_eq
inspected = refl

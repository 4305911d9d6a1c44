-- ===== src/Plugin/Details/Laws.antt =====
-- Which addresses ADD of cmd/multus-multivpc-cni/main.go reports.
use multus_multivpc_cni.Base.{subst, sym}
use native.Mathlib.Decide.{dec_lt}
use multus_multivpc_cni.Plugin.Details.{
  is_link_local_unicast, is_link_local_multicast, is_unspecified,
}
use multus_multivpc_cni.Base.{
  ℕ, zero, suc, ◌+◌, ◌<◌, ◌≢◌, ◌⊎◌, none, ◌==◌, Bool-cases, Text, text_eq, nat_eq, Bool, true,
  false, some, List, [], ◌∷◌, Result, ok, ◌≡◌, ◌↔◌, refl, arith, In, In-keep, Any, inl, inr,
  Option-cases,
}
use multus_multivpc_cni.Base.Int.{pos, int_eq}
use multus_multivpc_cni.Plugin.Details.{
  IpConfig, CurrentResult, is_global, filter_ipv6_global, index_from, is_on, is_v4, addresses_on,
  result_addresses, or_else_list, info_of, collect_interface_details,
}
use multus_multivpc_cni.Netns.{Ip, to4, InterfaceInfo}

-- The name that stands at an index.
abbrev pub Stands : Text → ℕ → List Text → Type 0
Stands name i [] = ⊥
Stands name zero (x ∷ xs) = x ≡ name
Stands name (suc i) (x ∷ xs) = Stands name i xs

-- The first interface of the result with the name.
pub record IsFirst (if_name : Text) (names : List Text) (idx : ℕ) : Type 0 where
  pub stands : Stands if_name idx names
  pub first : (j : ℕ) → j < idx → ¬ Stands if_name j names

-- An address of the result that belongs to an interface, of IPv4 or not.
abbrev pub IsOn : ℕ → Bool → List IpConfig → Ip → Type 0
IsOn idx true ips ip =
    Any (λ c. (c.interface ≡ some (pos idx)) × (to4 c.address ≢ none) × (c.address ≡ ip)) ips
IsOn idx false ips ip =
    Any (λ c. (c.interface ≡ some (pos idx)) × (to4 c.address ≡ none) × (c.address ≡ ip)) ips

-- An address that the result gives to the first interface with the name.
pub record IsAssigned (if_name : Text) (cur : CurrentResult) (v4 : Bool) (ip : Ip) : Type 0 where
  pub idx : ℕ
  pub indexed : IsFirst if_name cur.interfaces idx
  pub given : IsOn idx v4 cur.ips ip

later :
    (name x : Text) (xs : List Text) (n : ℕ)
    → x ≢ name
    → ((j : ℕ) → j < n → ¬ Stands name j xs)
    → (j : ℕ) → j < suc n
    → ¬ Stands name j (x ∷ xs)
later name x xs n other rest zero few h = other h
later name x xs n other rest (suc j) few h = rest j (omega arith) h

IsFirst-unique :
    (name : Text) (names : List Text) (i j : ℕ)
    → IsFirst name names i
    → IsFirst name names j
    → i ≡ j
IsFirst-unique name names i j a b = elim (dec_lt i j) [
  | yes below ↦ absurd (b.first i below a.stands)
  | no above ↦ elim (dec_lt j i) [
    | yes below ↦ absurd (a.first j below b.stands)
    | no other ↦ omega arith
  ]
]

index_from-some :
    (k : ℕ) (name : Text) (names : List Text) {i : ℕ}
    → index_from k name names ≡ some i
    → (j : ℕ) × (i ≡ k + j) × IsFirst name names j
unfolding index_from
index_from-some k name [] e = ground arith
index_from-some k name (x ∷ xs) {i} e = elim (Bool-cases (x == name)) [
  | inl same ↦
      (zero, ground arith, record { stands = ground arith; first = λ j few. absurd (omega arith) })
  | inr other ↦
      let (j, at, f) = index_from-some (suc k) name xs {i = i} (ground arith) in
      (
        suc j,
        omega arith,
        record { stands = f.stands; first = later name x xs j (ground arith) f.first },
      )
]

index_from-none :
    (k : ℕ) (name : Text) (names : List Text)
    → index_from k name names ≡ none
    → (j : ℕ) → ¬ Stands name j names
unfolding index_from
index_from-none k name [] e j h = h
index_from-none k name (x ∷ xs) e zero h = ground arith
index_from-none k name (x ∷ xs) e (suc j) h = index_from-none (suc k) name xs (ground arith) j h

is_on_iff : (idx : ℕ) (c : IpConfig) → (is_on idx c ≡ true) ↔ (c.interface ≡ some (pos idx))
unfolding is_on
is_on_iff idx c = elim (Option-cases c.interface) [
  | inl e ↦ ground arith
  | inr (i, e) ↦ ground arith
]

addresses_on-In :
    (idx : ℕ) (ips : List IpConfig) (ip : Ip)
    → (In ip (addresses_on idx ips).0 ↔ IsOn idx true ips ip)
      × (In ip (addresses_on idx ips).1 ↔ IsOn idx false ips ip)
unfolding addresses_on is_v4
addresses_on-In idx [] ip = ground arith
addresses_on-In idx (c ∷ ips) ip = ground (arith, addresses_on-In idx ips ip, is_on_iff idx c)

IsOn-IsAssigned :
    (if_name : Text) (cur : CurrentResult) (v4 : Bool) (ip : Ip) {idx : ℕ}
    → index_from 0 if_name cur.interfaces ≡ some idx
    → IsOn idx v4 cur.ips ip ↔ IsAssigned if_name cur v4 ip
IsOn-IsAssigned if_name cur v4 ip {idx} e =
    let (j, at, first) = index_from-some 0 if_name cur.interfaces {i = idx} e in
    let same : idx ≡ j = omega arith in
    let is_first = subst (IsFirst if_name cur.interfaces) (sym same) first in
    (
      λ given. record { idx = idx; indexed = is_first; given = given },
      λ a.
          subst (λ i. IsOn i v4 cur.ips ip)
            (IsFirst-unique if_name cur.interfaces a.idx idx a.indexed is_first) a.given,
    )

unassigned :
    (if_name : Text) (cur : CurrentResult) (v4 : Bool) (ip : Ip)
    → index_from 0 if_name cur.interfaces ≡ none
    → ¬ IsAssigned if_name cur v4 ip
unassigned if_name cur v4 ip e a = index_from-none 0 if_name cur.interfaces e a.idx a.indexed.stands

result_addresses-In :
    (if_name : Text) (cur : CurrentResult) (ip : Ip)
    → (In ip (result_addresses if_name cur).0 ↔ IsAssigned if_name cur true ip)
      × (In ip (result_addresses if_name cur).1 ↔ IsAssigned if_name cur false ip)
result_addresses-In if_name cur ip = elim (Option-cases (index_from 0 if_name cur.interfaces)) [
  | inl e ↦ ground (arith, unassigned if_name cur true ip e, unassigned if_name cur false ip e)
  | inr (idx, e) ↦ ground (
    arith,
    addresses_on-In idx cur.ips ip,
    IsOn-IsAssigned if_name cur true ip {idx = idx} e,
    IsOn-IsAssigned if_name cur false ip {idx = idx} e,
  )
]

-- An address of the first kind, or one of the other list if there are none of that kind.
abbrev pub Else : (Ip → Type 0) → List Ip → Ip → Type 0
Else P other ip = P ip ⊎ (((x : Ip) → ¬ P x) × In ip other)

or_else_list-In :
    (P : Ip → Type 0) (xs other : List Ip) (ip : Ip)
    → ((x : Ip) → In x xs ↔ P x)
    → In ip (or_else_list xs other) ↔ Else P other ip
or_else_list-In P [] other ip h =
    (λ i. inr (λ x p. (h x).1 p, i), λ e. elim e [ inl p ↦ absurd ((h ip).1 p) | inr (_, i) ↦ i ])
or_else_list-In P (x ∷ xs) other ip h = (
  λ i. inl ((h ip).0 i),
  λ e. elim e [ inl p ↦ (h ip).1 p | inr (never, _) ↦ absurd (never x ((h x).0 (inl refl))) ],
)

-- Neither nil nor link-local nor unspecified.
abbrev pub IsGlobal : Ip → Type 0
IsGlobal ip =
    (ip ≢ [])
    × (is_link_local_unicast ip ≡ false)
    × (is_link_local_multicast ip ≡ false)
    × (is_unspecified ip ≡ false)

is_global_iff : (ip : Ip) → (is_global ip ≡ true) ↔ IsGlobal ip
is_global_iff ip = ground arith

-- With a result that can be read, ADD reports as IPv4 the IPv4 addresses that the result gives to the
-- first interface of that name, or the namespace's if there are none; and as IPv6 the other addresses
-- of that interface, or the namespace's if there are none, of these exactly the ones that are neither
-- nil nor link-local nor unspecified. A look at the namespace that fails makes no error.
pub collect_interface_details_lem :
    {E N : Type 0} (if_name : Text) (cur : CurrentResult) (inspected : Result N InterfaceInfo)
    → let info = info_of if_name inspected in
      (ipv4 : List Ip) × (ipv6 : List Ip) × (collect_interface_details {E = E} if_name
          (ok cur)
          inspected
        ≡ ok (info, (ipv4, ipv6)))
      × ((ip : Ip) → In ip ipv4 ↔ Else (IsAssigned if_name cur true) info.ipv4 ip)
      × ((ip : Ip) → In ip ipv6 ↔ (Else (IsAssigned if_name cur false) info.ipv6 ip × IsGlobal ip))
unfolding collect_interface_details filter_ipv6_global
collect_interface_details_lem if_name cur inspected =
    let info = info_of if_name inspected in
    let (ipv4, ipv6) = result_addresses if_name cur in
    (
      or_else_list ipv4 info.ipv4,
      filter_ipv6_global (or_else_list ipv6 info.ipv6),
      refl,
      λ ip.
          or_else_list-In (IsAssigned if_name cur true) ipv4 info.ipv4 ip
            (λ x. (result_addresses-In if_name cur x).0),
      λ ip.
          let kept = In-keep is_global ip (or_else_list ipv6 info.ipv6) in
          let from =
            or_else_list-In (IsAssigned if_name cur false) ipv6 info.ipv6 ip
              (λ x. (result_addresses-In if_name cur x).1) in
          let good = is_global_iff ip in
          (
            λ i. let (a, b) = kept.0 i in (from.0 a, good.0 b),
            λ (a, b). kept.1 (from.1 a, good.1 b),
          ),
    )

-- ===== src/Aws/Assign.antt =====
-- Which addresses `assignIPAddresses` and `unassignIPAddresses` of pkg/aws/eni_manager.go ask for.
use multus_multivpc_cni.Base.{
  Text, text_eq, Bool, true, false, not, List, [], ◌∷◌, Result, ok, err, ◌≡◌, ◌↔◌, refl, arith,
  contains, In, In-keep, Any, map, Option, none, some, Option-cases, inl, inr,
}
use multus_multivpc_cni.Aws.Types.{SyncRequest}
use multus_multivpc_cni.Aws.Ec2.{
  PrivateIpAddress, NetworkInterface, AddressInput, Ec2, M, AwsError, assign_ipv4_addresses,
  assign_ipv6_addresses, unassign_ipv4, unassign_ipv6, wrap, ◌>>◌,
}
use multus_multivpc_cni.Aws.Triples.{Traced}
use multus_multivpc_cni.Aws.Addresses.{
  existing_ipv4, existing_ipv6, secondary_ipv4, to_assign, assign_ipv4, assign_ipv6,
  assign_ip_addresses, unless_empty, unassign_secondary, unassign_all_ipv6, unassign_ip_addresses,
  to_string, to_bool,
}
use multus_multivpc_cni.Aws.Trace.{
  Event, assigned_ipv4, assigned_ipv6, unassigned_ipv4, unassigned_ipv6, traced,
}

contains_iff : (ip : Text) (ips : List Text) → (contains ips ip ≡ true) ↔ In ip ips
contains_iff ip [] = ground arith
contains_iff ip (x ∷ ips) = ground (arith, contains_iff ip ips)

-- The addresses that an interface has.
abbrev pub HasIpv4 : NetworkInterface → Text → Type 0
HasIpv4 eni ip = Any (λ a. a.private_ip_address ≡ some ip) eni.private_ip_addresses

abbrev pub HasIpv6 : NetworkInterface → Text → Type 0
HasIpv6 eni ip = Any (λ a. a ≡ some ip) eni.ipv6_addresses

existing_ipv4_iff :
    (addrs : List PrivateIpAddress) (ip : Text)
    → In ip (existing_ipv4 addrs) ↔ Any (λ a. a.private_ip_address ≡ some ip) addrs
unfolding existing_ipv4
existing_ipv4_iff [] ip = ground arith
existing_ipv4_iff (a ∷ addrs) ip = elim (Option-cases a.private_ip_address) [
  | inl e ↦ ground (arith, existing_ipv4_iff addrs ip)
  | inr (x, e) ↦ ground (arith, existing_ipv4_iff addrs ip)
]

existing_ipv6_iff :
    (addrs : List (Option Text)) (ip : Text)
    → In ip (existing_ipv6 addrs) ↔ Any (λ a. a ≡ some ip) addrs
unfolding existing_ipv6
existing_ipv6_iff [] ip = ground arith
existing_ipv6_iff (none ∷ addrs) ip = ground (arith, existing_ipv6_iff addrs ip)
existing_ipv6_iff (some x ∷ addrs) ip = ground (arith, existing_ipv6_iff addrs ip)

-- An address that is wanted and that the interface lacks.
abbrev pub IsLacking : (Text → Type 0) → List Text → Text → Type 0
IsLacking Has wanted ip = In ip wanted × ¬ Has ip

to_assign_iff :
    (Has : Text → Type 0) (existing wanted : List Text) (ip : Text)
    → In ip existing ↔ Has ip
    → In ip (to_assign existing wanted) ↔ IsLacking Has wanted ip
to_assign_iff Has existing wanted ip has =
    ground (arith, In-keep (λ x. not (contains existing x)) ip wanted, contains_iff ip existing)

-- The addresses that are taken away are those of the entries that are not primary.
secondary_ipv4_iff :
    (addrs : List PrivateIpAddress) (ip : Text)
    → In ip (secondary_ipv4 addrs)
      ↔ Any (λ a. (to_bool a.primary ≡ false) × (to_string a.private_ip_address ≡ ip)) addrs
unfolding secondary_ipv4
secondary_ipv4_iff [] ip = ground arith
secondary_ipv4_iff (a ∷ addrs) ip = ground (arith, secondary_ipv4_iff addrs ip)

-- The calls after a step that makes one call about some addresses, and none if there are no
-- addresses.
abbrev pub logged :
    {E : Type 0} → (List Text → Bool → Event E) → List Text → Bool → List (Event E) → List (Event E)
logged event [] good calls = calls
logged event (ip ∷ ips) good calls = event (ip ∷ ips) good ∷ calls

module _ (e : Ec2) where
  abbrev pub about : NetworkInterface → List Text → AddressInput
  about eni ips = record { network_interface_id = eni.network_interface_id; addresses = ips }

  abbrev pub adding_ipv4 : NetworkInterface → List Text → Bool → Event e.Error
  adding_ipv4 eni ips = assigned_ipv4 (about eni ips)

  abbrev pub adding_ipv6 : NetworkInterface → List Text → Bool → Event e.Error
  adding_ipv6 eni ips = assigned_ipv6 (about eni ips)

  abbrev pub removing_ipv4 : NetworkInterface → List Text → Bool → Event e.Error
  removing_ipv4 eni ips = unassigned_ipv4 (about eni ips)

  abbrev pub removing_ipv6 : NetworkInterface → List Text → Bool → Event e.Error
  removing_ipv6 eni ips = unassigned_ipv6 (about eni ips)

  -- The outcome of one step: success and failure are those of its call.
  abbrev Steps :
      (List Text → Bool → Event e.Error)
      → List Text
      → List (Event e.Error)
      → Result (AwsError e.Error) (Unit {0}) × Traced e
      → Type 0
  Steps event ips calls (ok _, (s, t)) = t ≡ logged event ips true calls
  Steps event ips calls (err _, (s, t)) = t ≡ logged event ips false calls

  assign_ipv4-Steps :
      (eni : NetworkInterface) (wanted : List Text) (s : e.State) (t : List (Event e.Error))
      → Steps
          (adding_ipv4 eni)
          (to_assign (existing_ipv4 eni.private_ip_addresses) wanted)
          t
          (assign_ipv4 (traced e) eni wanted (s, t))
  unfolding assign_ipv4
  assign_ipv4-Steps eni [] s t = refl
  assign_ipv4-Steps eni (ip ∷ wanted) s t =
      call (to_assign (existing_ipv4 eni.private_ip_addresses) (ip ∷ wanted))
    where
      call :
          (ips : List Text)
          → Steps (adding_ipv4 eni) ips t (
              unless_empty ips
                (λ xs.
                  wrap assign_ipv4_addresses
                    ((traced e).assign_private_ip_addresses (about eni xs)))
                (s, t))
      call [] = refl
      call (x ∷ xs) = ground arith

  assign_ipv6-Steps :
      (eni : NetworkInterface) (wanted : List Text) (s : e.State) (t : List (Event e.Error))
      → Steps
          (adding_ipv6 eni)
          (to_assign (existing_ipv6 eni.ipv6_addresses) wanted)
          t
          (assign_ipv6 (traced e) eni wanted (s, t))
  unfolding assign_ipv6
  assign_ipv6-Steps eni [] s t = refl
  assign_ipv6-Steps eni (ip ∷ wanted) s t =
      call (to_assign (existing_ipv6 eni.ipv6_addresses) (ip ∷ wanted))
    where
      call :
          (ips : List Text)
          → Steps (adding_ipv6 eni) ips t (
              unless_empty ips
                (λ xs. wrap assign_ipv6_addresses ((traced e).assign_ipv6_addresses (about eni xs)))
                (s, t))
      call [] = refl
      call (x ∷ xs) = ground arith

  unassign_secondary-Steps :
      (eni : NetworkInterface) (s : e.State) (t : List (Event e.Error))
      → Steps
          (removing_ipv4 eni)
          (secondary_ipv4 eni.private_ip_addresses)
          t
          (unassign_secondary (traced e) eni (s, t))
  unfolding unassign_secondary
  unassign_secondary-Steps eni s t = call (secondary_ipv4 eni.private_ip_addresses)
    where
      call :
          (ips : List Text)
          → Steps (removing_ipv4 eni) ips t (
              unless_empty ips
                (λ xs. wrap unassign_ipv4 ((traced e).unassign_private_ip_addresses (about eni xs)))
                (s, t))
      call [] = refl
      call (x ∷ xs) = ground arith

  unassign_all_ipv6-Steps :
      (eni : NetworkInterface) (s : e.State) (t : List (Event e.Error))
      → Steps
          (removing_ipv6 eni)
          (map to_string eni.ipv6_addresses)
          t
          (unassign_all_ipv6 (traced e) eni (s, t))
  unfolding unassign_all_ipv6
  unassign_all_ipv6-Steps eni s t = call (map to_string eni.ipv6_addresses)
    where
      call :
          (ips : List Text)
          → Steps (removing_ipv6 eni) ips t (
              unless_empty ips
                (λ xs. wrap unassign_ipv6 ((traced e).unassign_ipv6_addresses (about eni xs)))
                (s, t))
      call [] = refl
      call (x ∷ xs) = ground arith

  -- Two steps in a row.
  Steps-bind :
      (ev4 ev6 : List Text → Bool → Event e.Error) (ips4 ips6 : List Text)
      (m k : M (Traced e) (AwsError e.Error) (Unit {0})) (s : e.State)
      → Steps ev4 ips4 [] (m (s, []))
      → ((s' : e.State) (t' : List (Event e.Error)) → Steps ev6 ips6 t' (k (s', t')))
      → (((m >> k) (s, [])).0 ≡ ok tt)
      → ((m >> k) (s, [])).1.1 ≡ logged ev6 ips6 true (logged ev4 ips4 true [])
  Steps-bind ev4 ev6 ips4 ips6 m k s = go (m (s, []))
    where
      go :
          (x : Result (AwsError e.Error) (Unit {0}) × Traced e)
          → Steps ev4 ips4 [] x
          → ((s' : e.State) (t' : List (Event e.Error)) → Steps ev6 ips6 t' (k (s', t')))
          → let y : Result (AwsError e.Error) (Unit {0}) × Traced e =
              let (r, s') = x in elim r [ ok a ↦ k s' | err b ↦ (err b, s') ] in
            (y.0 ≡ ok tt) → y.1.1 ≡ logged ev6 ips6 true (logged ev4 ips4 true [])
      go (ok a, (s', t')) hm hk h = ground (arith, hk s' t')
      go (err b, s') hm hk h = cc

  -- The calls of an `assignIPAddresses` that succeeds: at most one for IPv4 and then one for IPv6,
  -- each for the wanted addresses that the interface lacks, and none where it lacks none.
  pub assign_ip_addresses_calls :
      (eni : NetworkInterface) (req : SyncRequest) (s : e.State)
      → (assign_ip_addresses (traced e) eni req (s, [])).0 ≡ ok tt
      → (ips4 : List Text) × (ips6 : List Text) × ((ip : Text)
          → In ip ips4 ↔ IsLacking (HasIpv4 eni) req.ipv4_addresses ip)
        × ((ip : Text) → In ip ips6 ↔ IsLacking (HasIpv6 eni) req.ipv6_addresses ip)
        × ((assign_ip_addresses (traced e) eni req (s, [])).1.1
            ≡ logged (adding_ipv6 eni) ips6 true (logged (adding_ipv4 eni) ips4 true []))
  unfolding assign_ip_addresses
  assign_ip_addresses_calls eni req s h = (
    to_assign (existing_ipv4 eni.private_ip_addresses) req.ipv4_addresses,
    to_assign (existing_ipv6 eni.ipv6_addresses) req.ipv6_addresses,
    λ ip.
        to_assign_iff (HasIpv4 eni) (existing_ipv4 eni.private_ip_addresses) req.ipv4_addresses ip
          (existing_ipv4_iff eni.private_ip_addresses ip),
    λ ip.
        to_assign_iff (HasIpv6 eni) (existing_ipv6 eni.ipv6_addresses) req.ipv6_addresses ip
          (existing_ipv6_iff eni.ipv6_addresses ip),
    Steps-bind (adding_ipv4 eni) (adding_ipv6 eni) _ _
        (assign_ipv4 (traced e) eni req.ipv4_addresses)
        (assign_ipv6 (traced e) eni req.ipv6_addresses) s
        (assign_ipv4-Steps eni req.ipv4_addresses s []) (assign_ipv6-Steps eni req.ipv6_addresses)
        h,
  )

  -- The calls of an `unassignIPAddresses` that succeeds: at most one for the IPv4 addresses that are
  -- not primary, and then one for all IPv6 addresses.
  pub unassign_ip_addresses_calls :
      (eni : NetworkInterface) (s : e.State)
      → (unassign_ip_addresses (traced e) eni (s, [])).0 ≡ ok tt
      → (ips4 : List Text) × ((ip : Text)
          → In ip ips4
            ↔ Any
                (λ a. (to_bool a.primary ≡ false) × (to_string a.private_ip_address ≡ ip))
                eni.private_ip_addresses)
        × ((unassign_ip_addresses (traced e) eni (s, [])).1.1
            ≡ logged
                (removing_ipv6 eni)
                (map to_string eni.ipv6_addresses)
                true
                (logged (removing_ipv4 eni) ips4 true []))
  unfolding unassign_ip_addresses
  unassign_ip_addresses_calls eni s h = (
    secondary_ipv4 eni.private_ip_addresses,
    secondary_ipv4_iff eni.private_ip_addresses,
    Steps-bind (removing_ipv4 eni) (removing_ipv6 eni) _ _ (unassign_secondary (traced e) eni)
        (unassign_all_ipv6 (traced e) eni) s (unassign_secondary-Steps eni s [])
        (unassign_all_ipv6-Steps eni) h,
  )

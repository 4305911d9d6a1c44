-- ===== src/Aws/ReleaseOrder/Calls.antt =====
-- The order of calls in the parts of `ReleaseInterface` of pkg/aws/eni_manager.go.
use multus_multivpc_cni.Base.{
  text_eq, option_text_eq, Option-cases, ◌+◌, ℕ, zero, suc, Text, Option, none, some, List, [], ◌∷◌,
  ok, ◌≡◌, ◌⊎◌, inl, inr, arith, if◌then◌else◌,
}
use multus_multivpc_cni.Aws.Types.{Manager}
use multus_multivpc_cni.Aws.Ec2.{
  Attachment, NetworkInterface, Ec2, AwsError, describe_network_interfaces, wrap,
}
use multus_multivpc_cni.Aws.Addresses.{unassign_secondary, unassign_all_ipv6, unassign_ip_addresses}
use multus_multivpc_cni.Aws.Ensure.{attachment_filter, find_existing_interface, first_interface}
use multus_multivpc_cni.Aws.Release.{
  detach_timeout, wait_fuel, poll_pause, detach_interface, poll_detached, wait_loop,
  wait_for_detachment,
}
use multus_multivpc_cni.Aws.Triples.{Triple, Triple-bind}
use multus_multivpc_cni.Aws.ReleaseOrder.Phases.{
  Phase, looking, absent, nameless, serving, detaching, confirmed, violated, found_phase,
  after_look, phase,
}
use multus_multivpc_cni.Aws.Trace.{Event, traced}

abbrev pub Is : Phase → Phase → Type 0
Is p q = q ≡ p

abbrev pub IsWaiting : Text → Phase → Type 0
IsWaiting id p = (p ≡ detaching id) ⊎ (p ≡ serving id none)

-- Ready to wait, and done waiting.
abbrev pub IsReady : NetworkInterface → Phase → Type 0
IsReady eni p = elim eni.network_interface_id [
  | none ↦ p ≡ nameless none
  | some id ↦ IsWaiting id p
]

abbrev pub named : NetworkInterface → (Text → Phase) → Phase
named eni p = elim eni.network_interface_id [ none ↦ nameless none | some id ↦ p id ]

-- What the search for an interface has found, and the phase after it.
abbrev pub AfterFind : Option (NetworkInterface × Attachment) → Phase → Type 0
AfterFind none p = p ≡ absent
AfterFind (some (eni, a)) p = p ≡ found_phase eni a

module _ (e : Ec2) (m : Manager) (tag : Text) where
  abbrev pub at : List (Event e.Error) → Phase
  at = phase m.instance_id tag

  unassign_secondary-Triple :
      (eni : NetworkInterface) (a : Attachment)
      → Triple e at violated
          (Is (found_phase eni a))
          (unassign_secondary (traced e) eni)
          (λ _ p. p ≡ found_phase eni a)
  unfolding unassign_secondary
  unassign_secondary-Triple eni a s t p = ground arith

  unassign_all_ipv6-Triple :
      (eni : NetworkInterface) (a : Attachment)
      → Triple e at violated
          (Is (found_phase eni a))
          (unassign_all_ipv6 (traced e) eni)
          (λ _ p. p ≡ found_phase eni a)
  unfolding unassign_all_ipv6
  unassign_all_ipv6-Triple eni a s t p = ground arith

  pub detach-Triple :
      (eni : NetworkInterface) (a : Attachment)
      → Triple e at violated
          (Is (found_phase eni a))
          (detach_interface (traced e) a)
          (λ _ p. IsReady eni p)
  unfolding detach_interface
  detach-Triple eni a s t p = ground arith

  poll-phase :
      (id : Text) (s : e.State) (t : List (Event e.Error))
      → IsWaiting id (at t)
      → let (done, (s', t')) = poll_detached (traced e) id (s, t) in
        at t' ≡ (if done then confirmed id else detaching id)
  unfolding poll_detached
  poll-phase id s t p = ground arith

  wait_loop-Triple :
      (fuel deadline : ℕ) (id : Text)
      → Triple e at violated
          (IsWaiting id)
          (wait_loop (traced e) fuel deadline id)
          (λ _ p. p ≡ confirmed id)
  unfolding wait_loop
  wait_loop-Triple zero deadline id s t p = ground arith
  wait_loop-Triple (suc fuel) deadline id s t p =
      let (done, (s', t')) = poll_detached (traced e) id (s, t) in
      ground
        (arith, poll-phase id s t p, wait_loop-Triple fuel deadline id (e.sleep poll_pause s') t')

  pub wait-Triple :
      (eni : NetworkInterface)
      → Triple e at violated
          (IsReady eni)
          (wait_for_detachment (traced e) eni)
          (λ _ p. p ≡ named eni confirmed)
  unfolding wait_for_detachment
  wait-Triple eni s t p = elim (Option-cases eni.network_interface_id) [
    | inl none_id ↦ ground arith
    | inr (id, some_id) ↦
        ground (arith, wait_loop-Triple wait_fuel (e.now s + detach_timeout) id s t)
  ]

  pub unassign-Triple :
      (eni : NetworkInterface) (a : Attachment)
      → Triple e at violated
          (Is (found_phase eni a))
          (unassign_ip_addresses (traced e) eni)
          (λ _ p. p ≡ found_phase eni a)
  unfolding unassign_ip_addresses
  unassign-Triple eni a =
      Triple-bind e at violated (Is (found_phase eni a)) (unassign_secondary (traced e) eni)
        (λ _ p. p ≡ found_phase eni a) (λ _. unassign_all_ipv6 (traced e) eni)
        (λ _ p. p ≡ found_phase eni a) (unassign_secondary-Triple eni a)
        (λ _. unassign_all_ipv6-Triple eni a)

  first_interface-Triple :
      (found : List NetworkInterface)
      → Triple e at violated
          (Is (after_look {E = e.Error} (ok found)))
          (first_interface (traced e) found)
          AfterFind
  unfolding first_interface
  first_interface-Triple [] s t p = p
  first_interface-Triple (eni ∷ _) s t p = elim (Option-cases eni.attachment) [
    | inl h ↦ ground arith
    | inr (a, h) ↦ rw (h, first_interface) (rw h at p)
  ]

  look-Triple :
      Triple e at violated
        (Is looking)
        (wrap {X = AwsError e.Error} describe_network_interfaces
          ((traced e).describe_network_interfaces (attachment_filter m tag)))
        (λ found p. p ≡ after_look {E = e.Error} (ok found))
  look-Triple s t p = ground arith

  pub find-Triple :
      Triple e at violated (Is looking) (find_existing_interface (traced e) m tag) AfterFind
  unfolding find_existing_interface
  find-Triple =
      Triple-bind e at violated (Is looking)
        (wrap describe_network_interfaces
          ((traced e).describe_network_interfaces (attachment_filter m tag)))
        (λ found p. p ≡ after_look {E = e.Error} (ok found)) (first_interface (traced e)) AfterFind
        look-Triple first_interface-Triple

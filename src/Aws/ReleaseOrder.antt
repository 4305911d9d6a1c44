-- ===== src/Aws/ReleaseOrder.antt =====
-- The order in which `ReleaseInterface` of pkg/aws/eni_manager.go calls the EC2 API.
pub mod Calls
pub mod Phases
use Calls.{
  at, Is, IsReady, named, AfterFind, find-Triple, wait-Triple, detach-Triple, unassign-Triple,
}
use multus_multivpc_cni.Base.{
  Option-cases, ◌+◌, ℕ, zero, suc, Text, Bool, true, false, Option, none, some, List, [], ◌∷◌,
  Result, ok, err, ◌≡◌, ◌≢◌, ◌⊎◌, inl, inr, refl, arith, if◌then◌else◌, map,
}
use multus_multivpc_cni.Base.{text, ◌++◌}
use multus_multivpc_cni.Aws.Types.{Manager, ReleaseRequest}
use multus_multivpc_cni.Aws.Ec2.{
  Attachment, NetworkInterface, DescribeInput, Ec2, AwsError, describe_network_interfaces, M, pure,
  fail, wrap, ◌>>=◌, ◌>>◌,
}
use multus_multivpc_cni.Aws.Addresses.{
  unassign_secondary, unassign_all_ipv6, unassign_ip_addresses, secondary_ipv4, unless_empty,
  to_string,
}
use multus_multivpc_cni.Aws.Ensure.{
  attachment_filter, find_existing_interface, build_attachment_tag, first_interface,
}
use multus_multivpc_cni.Aws.Release.{
  detach_timeout, wait_fuel, poll_pause, shows_detached, detach_interface, delete_interface,
  poll_detached, wait_loop, wait_for_detachment, release_found, release_rest, release_interface,
}
use multus_multivpc_cni.Aws.Triples.{Traced, Post, Triple, Triple-bind}
use Phases.{
  Phase, looking, absent, nameless, serving, detaching, confirmed, gone, stopped, violated,
  found_phase, after_look, phase,
}
use multus_multivpc_cni.Aws.Trace.{
  Event, described, unassigned_ipv4, unassigned_ipv6, detached, deleted, traced,
}

-- A release that succeeds has found nothing, or deleted the interface, or found one without id.
abbrev pub IsDone : Phase → Type 0
IsDone p = (p ≡ absent) ⊎ ((id : Text) × (p ≡ gone id)) ⊎ (p ≡ nameless none)

module _ (e : Ec2) (m : Manager) (tag : Text) where
  delete-IsDone :
      (eni : NetworkInterface)
      → Triple e
          (at e m tag)
          violated
          (Is (named eni confirmed))
          (delete_interface (traced e) eni)
          (λ _ p. IsDone p)
  unfolding delete_interface
  delete-IsDone eni s t p = ground arith

  wait_delete-IsDone :
      (eni : NetworkInterface)
      → Triple e
          (at e m tag)
          violated
          (IsReady eni)
          (wait_for_detachment (traced e) eni >> delete_interface (traced e) eni)
          (λ _ p. IsDone p)
  wait_delete-IsDone eni =
      Triple-bind e (at e m tag) violated (IsReady eni) (wait_for_detachment (traced e) eni)
        (λ _ p. p ≡ named eni confirmed) (λ _. delete_interface (traced e) eni) (λ _ p. IsDone p)
        (wait-Triple e m tag eni) (λ _. delete-IsDone eni)

  detach_wait-IsDone :
      (eni : NetworkInterface) (a : Attachment)
      → Triple e
          (at e m tag)
          violated
          (Is (found_phase eni a))
          (detach_interface (traced e) a
            >> (wait_for_detachment (traced e) eni >> delete_interface (traced e) eni))
          (λ _ p. IsDone p)
  detach_wait-IsDone eni a =
      Triple-bind e (at e m tag) violated (Is (found_phase eni a)) (detach_interface (traced e) a)
        (λ _ p. IsReady eni p)
        (λ _. wait_for_detachment (traced e) eni >> delete_interface (traced e) eni)
        (λ _ p. IsDone p) (detach-Triple e m tag eni a) (λ _. wait_delete-IsDone eni)

  release_found-IsDone :
      (eni : NetworkInterface) (a : Attachment)
      → Triple e
          (at e m tag)
          violated
          (Is (found_phase eni a))
          (release_found (traced e) eni a)
          (λ _ p. IsDone p)
  unfolding release_found
  release_found-IsDone eni a =
      Triple-bind e (at e m tag) violated (Is (found_phase eni a))
        (unassign_ip_addresses (traced e) eni) (λ _ p. p ≡ found_phase eni a)
        (λ _.
          detach_interface (traced e) a
          >> (wait_for_detachment (traced e) eni >> delete_interface (traced e) eni))
        (λ _ p. IsDone p) (unassign-Triple e m tag eni a) (λ _. detach_wait-IsDone eni a)

  rest-IsDone :
      (found : Option (NetworkInterface × Attachment))
      → Triple e
          (at e m tag)
          violated
          (AfterFind found)
          (release_rest (traced e) found)
          (λ _ p. IsDone p)
  unfolding release_rest
  rest-IsDone none s t p = inl p
  rest-IsDone (some (eni, a)) s t p = release_found-IsDone eni a s t p

  done_fine : {p : Phase} → IsDone p → p ≢ violated
  done_fine q = ground arith

  Post-order :
      {X : Type 0} (x : Result X (Unit {0}) × Traced e)
      → Post e (at e m tag) violated (λ _ p. IsDone p) x
      → (at e m tag x.1.1 ≢ violated) × (x.0 ≡ ok tt → IsDone (at e m tag x.1.1))
  Post-order (ok a, (s, t)) q = (done_fine q, λ _. q)
  Post-order (err x, (s, t)) q = (q, λ h. cc)

  release-IsDone :
      Triple e
        (at e m tag)
        violated
        (Is looking)
        (find_existing_interface (traced e) m tag >>= release_rest (traced e))
        (λ _ p. IsDone p)
  release-IsDone =
      Triple-bind e (at e m tag) violated (Is looking) (find_existing_interface (traced e) m tag)
        AfterFind (release_rest (traced e)) (λ _ p. IsDone p) (find-Triple e m tag) rest-IsDone

-- Over any EC2, a release keeps to this order of calls: it looks for the interface of this instance
-- with the tag of the Pod, takes the addresses of the one found away, detaches its attachment, and
-- deletes it only right after an answer that shows this interface detached; after a failed change it
-- calls nothing more, and it touches no other interface. If it succeeds, then it has found no
-- interface, or has deleted the one it found, or that one had no id.
pub release_interface_order :
    (e : Ec2) (m : Manager) (req : ReleaseRequest) (s : e.State)
    → let (r, (_, calls)) = release_interface (traced e) m req (s, []) in
      let after = phase m.instance_id (text "multivpc-" ++ req.pod_uid) calls in
      (after ≢ violated) × (r ≡ ok tt → IsDone after)
unfolding release_interface build_attachment_tag
release_interface_order e m req s =
    let tag = build_attachment_tag req.pod_uid in
    Post-order e m tag (release_interface (traced e) m req (s, []))
      (release-IsDone e m tag s [] refl)

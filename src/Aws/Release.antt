-- ===== src/Aws/Release.antt =====
-- `ReleaseInterface` of pkg/aws/eni_manager.go, with `detachInterface`, `waitForDetachment` and
-- `deleteInterface`.
use multus_multivpc_cni.Base.{
  Option, ℕ, zero, suc, ◌+◌, Text, text, text_eq, Bool, true, false, none, some, List, [], ◌∷◌, ok,
  err, ◌==◌, ltb,
}
use multus_multivpc_cni.Aws.Types.{Manager, ReleaseRequest}
use multus_multivpc_cni.Aws.Ec2.{
  Attachment, NetworkInterface, Ec2, detach_network_interface, delete_network_interface,
  context_done, detach_timed_out, out_of_fuel, pure, wrap, ◌>>=◌, ◌>>◌,
}
use multus_multivpc_cni.Aws.Addresses.{unassign_ip_addresses}
use multus_multivpc_cni.Aws.Ensure.{Manage, build_attachment_tag, find_existing_interface}

-- `types.NetworkInterfaceStatusAvailable`
abbrev pub status_available : Text
status_available = text "available"

-- An interface is free once it has no attachment or is available.
abbrev pub is_free : NetworkInterface → Bool
is_free eni = elim eni.attachment [ none ↦ true | some _ ↦ eni.status == status_available ]

-- The answer that ends the wait: nothing was found, or the first interface is free.
unfoldable pub shows_detached : List NetworkInterface → Bool
shows_detached [] = true
shows_detached (eni ∷ _) = is_free eni

-- In nanoseconds.
abbrev pub detach_timeout : ℕ
detach_timeout = 30_000_000_000

abbrev pub poll_pause : ℕ
poll_pause = 2_000_000_000

-- The rounds that the wait can take; see Release/Wait.
abbrev pub wait_fuel : ℕ
wait_fuel = 17

module _ (e : Ec2) where
  unfoldable pub detach_interface : Attachment → Manage e (Unit {0})
  detach_interface attachment = elim attachment.attachment_id [
    | none ↦ pure tt
    | some id ↦
        wrap detach_network_interface
          (e.detach_network_interface (record { attachment_id = some id; force = true }))
  ]

  unfoldable pub delete_interface : NetworkInterface → Manage e (Unit {0})
  delete_interface eni = elim eni.network_interface_id [
    | none ↦ pure tt
    | some id ↦ wrap delete_network_interface (e.delete_network_interface (some id))
  ]

  -- One look at the interface: whether the wait is over.
  unfoldable pub poll_detached : Text → e.State → Bool × e.State
  unfolding shows_detached
  poll_detached id s =
      let (r, s') =
        e.describe_network_interfaces (record { filters = []; network_interface_ids = id ∷ [] })
          s in
      elim r [ err _ ↦ (false, s') | ok found ↦ (shows_detached found, s') ]

  unfoldable pub wait_loop : ℕ → ℕ → Text → Manage e (Unit {0})
  unfolding poll_detached
  wait_loop zero deadline id s = (err out_of_fuel, s)
  wait_loop (suc fuel) deadline id s = elim (e.ctx_err s) [
    | some x ↦ (err (context_done x), s)
    | none ↦ elim (ltb deadline (e.now s)) [
      | true ↦ (err (detach_timed_out id), s)
      | false ↦
          let (done, s') = poll_detached id s in
          elim done [
            | true ↦ (ok tt, s')
            | false ↦ wait_loop fuel deadline id (e.sleep poll_pause s')
          ]
    ]
  ]

  unfoldable pub wait_for_detachment : NetworkInterface → Manage e (Unit {0})
  wait_for_detachment eni s = elim eni.network_interface_id [
    | none ↦ (ok tt, s)
    | some id ↦ wait_loop wait_fuel (e.now s + detach_timeout) id s
  ]

  -- What follows once an interface was found.
  unfoldable pub release_found : NetworkInterface → Attachment → Manage e (Unit {0})
  unfolding detach_interface wait_for_detachment delete_interface
  release_found eni attachment = do
    unassign_ip_addresses e eni
    detach_interface attachment
    wait_for_detachment eni
    delete_interface eni

  -- Without an interface there is nothing to release.
  unfoldable pub release_rest : Option (NetworkInterface × Attachment) → Manage e (Unit {0})
  unfolding release_found
  release_rest none = pure tt
  release_rest (some (eni, attachment)) = release_found eni attachment

  unfoldable pub release_interface : Manager → ReleaseRequest → Manage e (Unit {0})
  unfolding build_attachment_tag find_existing_interface release_rest
  release_interface m req = do
    found ← find_existing_interface e m (build_attachment_tag req.pod_uid)
    release_rest found

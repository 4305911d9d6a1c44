-- ===== src/Aws/EnsureOrder.antt =====
-- The order in which `EnsureInterface` of pkg/aws/eni_manager.go calls the EC2 API.
pub mod Calls
pub mod Stages
use Calls.{Is, AfterFind, IsReady, find-Triple, existing_or_new-Triple, assign-Triple}
use Stages.{
  Stage, looking, missing, counting, fresh, joined, ready, stopped, violated, after_look, stage,
}
use multus_multivpc_cni.Base.{
  ℕ, Text, text_eq, Bool, true, false, Option, none, some, Option-cases, List, [], ◌∷◌, Result, ok,
  err, ◌≡◌, ◌≢◌, ◌⊎◌, inl, inr, refl, subst, arith, if◌then◌else◌, option_text_eq,
}
use multus_multivpc_cni.Config.{NetworkProfile}
use multus_multivpc_cni.Aws.Types.{Manager, SyncRequest, SyncResult}
use multus_multivpc_cni.Aws.Ec2.{
  Attachment, NetworkInterface, DescribeInput, CreateInput, AttachInput, ModifyInput, Ec2, AwsError,
  missing_subnet_id, missing_security_group_ids, describe_network_interfaces,
  create_network_interface, attach_network_interface, modify_attachment, M, pure, fail, wrap, ◌>>=◌,
  ◌>>◌,
}
use multus_multivpc_cni.Aws.Device.{next_available_device_index, max_interfaces, index_of_instance}
use multus_multivpc_cni.Aws.Addresses.{assign_ipv4, assign_ipv6, assign_ip_addresses, to_string}
use multus_multivpc_cni.Aws.Ensure.{
  attachment_filter, find_existing_interface, first_interface, build_attachment_tag,
  create_and_attach_interface, existing_or_new, create_input, attach_input, modify_input,
  attach_created, create_at, ensure_checked, ensure_interface, sync_result,
}
use multus_multivpc_cni.Aws.Triples.{Traced, Post, Triple, Triple-bind}
use multus_multivpc_cni.Aws.Trace.{Event, traced}

module _ (e : Ec2) where
  -- The result names the interface that the calls were about, and the addresses of the request.
  pub record IsResult (req : SyncRequest) (res : SyncResult) (p : Stage) : Type 0 where
    pub id : Option Text
    pub about : p ≡ ready id
    pub names : res.eni_id ≡ to_string id
    pub ipv4 : res.assigned_ipv4 ≡ req.ipv4_addresses
    pub ipv6 : res.assigned_ipv6 ≡ req.ipv6_addresses

  assign_pure-Triple :
      (req : SyncRequest) (found : NetworkInterface × Attachment)
      → Triple e stage violated
          (IsReady found)
          (assign_ip_addresses (traced e) found.0 req
            >> pure (sync_result (traced e) found.0 found.1 req))
          (IsResult req)
  assign_pure-Triple req (eni, a) =
      Triple-bind e stage violated (Is (ready eni.network_interface_id))
        (assign_ip_addresses (traced e) eni req) (λ _ p. p ≡ ready eni.network_interface_id)
        (λ _. pure (sync_result (traced e) eni a req)) (IsResult req) (assign-Triple e eni req)
        (λ _ s t p. record {
          id = eni.network_interface_id;
          about = p;
          names = refl;
          ipv4 = refl;
          ipv6 = refl;
        })

  ensure_found-Triple :
      (m : Manager) (cfg : NetworkProfile) (req : SyncRequest) (tag : Text)
      (found : Option (NetworkInterface × Attachment))
      → Triple e stage violated
          (AfterFind found)
          (existing_or_new (traced e) m cfg tag found >>= λ (eni, a).
            assign_ip_addresses (traced e) eni req >> pure (sync_result (traced e) eni a req))
          (IsResult req)
  ensure_found-Triple m cfg req tag found =
      Triple-bind e stage violated (AfterFind found) (existing_or_new (traced e) m cfg tag found)
        IsReady
        (λ (eni, a).
          assign_ip_addresses (traced e) eni req >> pure (sync_result (traced e) eni a req))
        (IsResult req) (existing_or_new-Triple e m cfg tag found) (assign_pure-Triple req)

  ensure_checked-Triple :
      (m : Manager) (cfg : NetworkProfile) (req : SyncRequest)
      → Triple e stage violated (Is looking) (ensure_checked (traced e) m cfg req) (IsResult req)
  unfolding ensure_checked
  ensure_checked-Triple m cfg req =
      let tag = build_attachment_tag req.pod_uid in
      Triple-bind e stage violated (Is looking) (find_existing_interface (traced e) m tag) AfterFind
        (λ found. existing_or_new (traced e) m cfg tag found >>= λ (eni, a).
          assign_ip_addresses (traced e) eni req >> pure (sync_result (traced e) eni a req))
        (IsResult req) (find-Triple e m tag) (ensure_found-Triple m cfg req tag)

  Post-order :
      {X A : Type 0} (Q : A → Stage → Type 0) (x : Result X A × Traced e)
      → ((a : A) (p : Stage) → Q a p → p ≢ violated)
      → Post e stage violated Q x
      → (stage x.1.1 ≢ violated) × ((a : A) → x.0 ≡ ok a → Q a (stage x.1.1))
  Post-order Q (ok a, (s, t)) fine q =
      (fine a _ q, λ b h. let same : a ≡ b = cc in subst (λ x. Q x (stage t)) same q)
  Post-order Q (err x, (s, t)) fine q = (q, λ b h. cc)

  ensure_interface-Triple :
      (m : Manager) (cfg : NetworkProfile) (req : SyncRequest)
      → Triple e stage violated (Is looking) (ensure_interface (traced e) m cfg req) (IsResult req)
  unfolding ensure_interface
  ensure_interface-Triple m cfg req s t p = ground (arith, ensure_checked-Triple m cfg req s t p)

  IsResult-fine :
      (req : SyncRequest) (res : SyncResult) (p : Stage) → IsResult req res p → p ≢ violated
  IsResult-fine req res p r v = ground (arith, r.about)

  -- Over any EC2, an ensure keeps to this order of calls: it looks for the Pod's interface; only if
  -- there is none it counts the device indices, creates an interface, attaches that one and marks
  -- this attachment; then it assigns addresses to the interface found or created, and to no other;
  -- after a failed change it calls nothing more. If it succeeds, its result names that interface and
  -- the addresses of the request.
  pub ensure_interface_order :
      (m : Manager) (cfg : NetworkProfile) (req : SyncRequest) (s : e.State)
      → let (r, (_, calls)) = ensure_interface (traced e) m cfg req (s, []) in
        (stage calls ≢ violated)
        × ((res : SyncResult) → r ≡ ok res → IsResult req res (stage calls))
  ensure_interface_order m cfg req s =
      Post-order (IsResult req) (ensure_interface (traced e) m cfg req (s, [])) (IsResult-fine req)
        (ensure_interface-Triple m cfg req s [] refl)

  -- A profile without a subnet or without a security group is refused before any call.
  ensure_interface_refuses :
      (m : Manager) (cfg : NetworkProfile) (req : SyncRequest) (s : e.State)
      → (cfg.subnet_id ≡ []) ⊎ (cfg.security_group_ids ≡ [])
      → (ensure_interface e m cfg req s).1 ≡ s
        × ((ensure_interface e m cfg req s).0 ≡ err (missing_subnet_id req.network_profile)
            ⊎ (ensure_interface e m cfg req s).0
              ≡ err (missing_security_group_ids req.network_profile))
  unfolding ensure_interface
  ensure_interface_refuses m cfg req s h = ground arith

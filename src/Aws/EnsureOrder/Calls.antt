-- ===== src/Aws/EnsureOrder/Calls.antt =====
-- The order of calls in the parts of `EnsureInterface` of pkg/aws/eni_manager.go.
use multus_multivpc_cni.Aws.EnsureOrder.Stages.{
  Stage, looking, missing, counting, fresh, joined, ready, violated, after_look, stage,
}
use multus_multivpc_cni.Base.{
  ℕ, Text, text_eq, Option, none, some, Option-cases, List, [], ◌∷◌, ok, ◌≡◌, inl, inr, arith,
  option_text_eq,
}
use multus_multivpc_cni.Config.{NetworkProfile}
use multus_multivpc_cni.Aws.Types.{Manager, SyncRequest}
use multus_multivpc_cni.Aws.Ec2.{
  Attachment, NetworkInterface, DescribeInput, CreateInput, AttachInput, ModifyInput, Ec2, AwsError,
  describe_network_interfaces, create_network_interface, attach_network_interface,
  modify_attachment, pure, wrap, ◌>>◌,
}
use multus_multivpc_cni.Aws.Device.{next_available_device_index}
use multus_multivpc_cni.Aws.Addresses.{assign_ipv4, assign_ipv6, assign_ip_addresses}
use multus_multivpc_cni.Aws.Ensure.{
  attachment_filter, find_existing_interface, first_interface, create_and_attach_interface,
  existing_or_new, create_input, attach_input, modify_input, attach_created, create_at,
}
use multus_multivpc_cni.Aws.Triples.{Triple, Triple-bind}
use multus_multivpc_cni.Aws.Trace.{traced}

abbrev pub Is : Stage → Stage → Type 0
Is p q = q ≡ p

abbrev pub AfterFind : Option (NetworkInterface × Attachment) → Stage → Type 0
AfterFind none p = p ≡ missing
AfterFind (some (eni, a)) p = p ≡ ready eni.network_interface_id

-- The interface at hand is ready for its addresses.
abbrev pub IsReady : NetworkInterface × Attachment → Stage → Type 0
IsReady (eni, a) p = p ≡ ready eni.network_interface_id

module _ (e : Ec2) where
  look-Triple :
      (i : DescribeInput)
      → Triple e stage violated
          (Is looking)
          (wrap {X = AwsError e.Error} describe_network_interfaces
            ((traced e).describe_network_interfaces i))
          (λ found p. p ≡ after_look {E = e.Error} (ok found))
  look-Triple i s t p = ground arith

  first_interface-Triple :
      (found : List NetworkInterface)
      → Triple e stage violated
          (Is (after_look {E = e.Error} (ok found)))
          (first_interface (traced e) found)
          AfterFind
  unfolding first_interface
  first_interface-Triple [] s t p = p
  first_interface-Triple (eni ∷ _) s t p = elim (Option-cases eni.attachment) [
    | inl h ↦ ground arith
    | inr (a, h) ↦ rw (h, first_interface) (rw h at p)
  ]

  pub find-Triple :
      (m : Manager) (tag : Text)
      → Triple e stage violated (Is looking) (find_existing_interface (traced e) m tag) AfterFind
  unfolding find_existing_interface
  find-Triple m tag =
      Triple-bind e stage violated (Is looking)
        (wrap describe_network_interfaces
          ((traced e).describe_network_interfaces (attachment_filter m tag)))
        (λ found p. p ≡ after_look {E = e.Error} (ok found)) (first_interface (traced e)) AfterFind
        (look-Triple (attachment_filter m tag)) first_interface-Triple

  index-Triple :
      (m : Manager)
      → Triple e stage violated
          (Is missing)
          (next_available_device_index (traced e) m)
          (λ _ p. p ≡ counting)
  unfolding next_available_device_index
  index-Triple m s t p = ground arith

  create-Triple :
      (i : CreateInput)
      → Triple e stage violated
          (Is counting)
          (wrap {X = AwsError e.Error} create_network_interface
            ((traced e).create_network_interface i))
          (λ eni p. p ≡ fresh eni.network_interface_id)
  create-Triple i s t p = ground arith

  attach-Triple :
      (i : AttachInput)
      → Triple e stage violated
          (Is (fresh i.network_interface_id))
          (wrap {X = AwsError e.Error} attach_network_interface
            ((traced e).attach_network_interface i))
          (λ attachment p. p ≡ joined i.network_interface_id attachment)
  attach-Triple i s t p = ground arith

  modify-Triple :
      (i : ModifyInput)
      → Triple e stage violated
          (Is (joined i.network_interface_id i.attachment_id))
          (wrap {X = AwsError e.Error} modify_attachment
            ((traced e).modify_network_interface_attribute i))
          (λ _ p. p ≡ ready i.network_interface_id)
  modify-Triple i s t p = ground arith

  assign_ipv4-Triple :
      (eni : NetworkInterface) (wanted : List Text)
      → Triple e stage violated
          (Is (ready eni.network_interface_id))
          (assign_ipv4 (traced e) eni wanted)
          (λ _ p. p ≡ ready eni.network_interface_id)
  unfolding assign_ipv4
  assign_ipv4-Triple eni wanted s t p = ground arith

  assign_ipv6-Triple :
      (eni : NetworkInterface) (wanted : List Text)
      → Triple e stage violated
          (Is (ready eni.network_interface_id))
          (assign_ipv6 (traced e) eni wanted)
          (λ _ p. p ≡ ready eni.network_interface_id)
  unfolding assign_ipv6
  assign_ipv6-Triple eni wanted s t p = ground arith

  modify_pure-Triple :
      (eni : NetworkInterface) (id : Option Text)
      → Triple e stage violated
          (Is (joined eni.network_interface_id id))
          (wrap {X = AwsError e.Error} modify_attachment
              ((traced e).modify_network_interface_attribute (modify_input eni id))
            >> pure (eni, record { attachment_id = id; device_index = none }))
          IsReady
  modify_pure-Triple eni id =
      Triple-bind e stage violated (Is (joined eni.network_interface_id id))
        (wrap modify_attachment
          ((traced e).modify_network_interface_attribute (modify_input eni id)))
        (λ _ p. p ≡ ready eni.network_interface_id)
        (λ _. pure (eni, record { attachment_id = id; device_index = none })) IsReady
        (modify-Triple (modify_input eni id)) (λ _ s t p. p)

  attach_created-Triple :
      (m : Manager) (i : ℕ) (eni : NetworkInterface)
      → Triple e stage violated
          (Is (fresh eni.network_interface_id))
          (attach_created (traced e) m i eni)
          IsReady
  unfolding attach_created
  attach_created-Triple m i eni =
      Triple-bind e stage violated (Is (fresh eni.network_interface_id))
        (wrap attach_network_interface ((traced e).attach_network_interface (attach_input m i eni)))
        (λ id p. p ≡ joined eni.network_interface_id id)
        (λ id.
          wrap {X = AwsError e.Error} modify_attachment
            ((traced e).modify_network_interface_attribute (modify_input eni id))
          >> pure (eni, record { attachment_id = id; device_index = none }))
        IsReady (attach-Triple (attach_input m i eni)) (modify_pure-Triple eni)

  create_at-Triple :
      (m : Manager) (cfg : NetworkProfile) (tag : Text) (i : ℕ)
      → Triple e stage violated (Is counting) (create_at (traced e) m cfg tag i) IsReady
  unfolding create_at
  create_at-Triple m cfg tag i =
      Triple-bind e stage violated (Is counting)
        (wrap create_network_interface ((traced e).create_network_interface (create_input cfg tag)))
        (λ eni p. p ≡ fresh eni.network_interface_id) (attach_created (traced e) m i) IsReady
        (create-Triple (create_input cfg tag)) (attach_created-Triple m i)

  create_and_attach-Triple :
      (m : Manager) (cfg : NetworkProfile) (tag : Text)
      → Triple e stage violated
          (Is missing)
          (create_and_attach_interface (traced e) m cfg tag)
          IsReady
  unfolding create_and_attach_interface
  create_and_attach-Triple m cfg tag =
      Triple-bind e stage violated (Is missing) (next_available_device_index (traced e) m)
        (λ _ p. p ≡ counting) (create_at (traced e) m cfg tag) IsReady (index-Triple m)
        (create_at-Triple m cfg tag)

  pub existing_or_new-Triple :
      (m : Manager) (cfg : NetworkProfile) (tag : Text)
      (found : Option (NetworkInterface × Attachment))
      → Triple e stage violated
          (AfterFind found)
          (existing_or_new (traced e) m cfg tag found)
          IsReady
  unfolding existing_or_new
  existing_or_new-Triple m cfg tag none s t p = create_and_attach-Triple m cfg tag s t p
  existing_or_new-Triple m cfg tag (some (eni, a)) s t p = p

  pub assign-Triple :
      (eni : NetworkInterface) (req : SyncRequest)
      → Triple e stage violated
          (Is (ready eni.network_interface_id))
          (assign_ip_addresses (traced e) eni req)
          (λ _ p. p ≡ ready eni.network_interface_id)
  unfolding assign_ip_addresses
  assign-Triple eni req =
      Triple-bind e stage violated (Is (ready eni.network_interface_id))
        (assign_ipv4 (traced e) eni req.ipv4_addresses) (λ _ p. p ≡ ready eni.network_interface_id)
        (λ _. assign_ipv6 (traced e) eni req.ipv6_addresses)
        (λ _ p. p ≡ ready eni.network_interface_id) (assign_ipv4-Triple eni req.ipv4_addresses)
        (λ _. assign_ipv6-Triple eni req.ipv6_addresses)

-- ===== src/Aws/Ensure.antt =====
-- `EnsureInterface` of pkg/aws/eni_manager.go, with `findExistingInterface` and
-- `createAndAttachInterface`.
use multus_multivpc_cni.Base.{
  ℕ, Text, text, text_eq, Bool, true, false, Option, none, some, List, [], ◌∷◌, ◌++◌, ◌==◌,
  if◌then◌else◌,
}
use multus_multivpc_cni.Config.{NetworkProfile}
use multus_multivpc_cni.Aws.Types.{Manager, SyncRequest, SyncResult}
use multus_multivpc_cni.Aws.Ec2.{
  Attachment, NetworkInterface, DescribeInput, CreateInput, AttachInput, ModifyInput, Ec2, AwsError,
  missing_subnet_id, missing_security_group_ids, describe_network_interfaces,
  eni_missing_attachment, create_network_interface, attach_network_interface, modify_attachment, M,
  pure, fail, wrap, ◌>>=◌, ◌>>◌,
}
use multus_multivpc_cni.Aws.Device.{next_available_device_index}
use multus_multivpc_cni.Aws.Addresses.{to_string, assign_ip_addresses}

unfoldable pub build_attachment_tag : Text → Text
build_attachment_tag pod_uid = text "multivpc-" ++ pod_uid

abbrev pub tag_key : Text
tag_key = text "MultusSyncAttachment"

-- The interfaces of this instance that carry the tag.
abbrev pub attachment_filter : Manager → Text → DescribeInput
attachment_filter m attachment_tag = record {
  filters =
      (text "tag:MultusSyncAttachment", attachment_tag ∷ [])
      ∷ (text "attachment.instance-id", m.instance_id ∷ [])
      ∷ [];
  network_interface_ids = [];
}

abbrev pub create_input : NetworkProfile → Text → CreateInput
create_input cfg attachment_tag = record {
  subnet_id = cfg.subnet_id;
  groups = cfg.security_group_ids;
  description = cfg.description;
  tags = (tag_key, attachment_tag) ∷ [];
}

abbrev pub attach_input : Manager → ℕ → NetworkInterface → AttachInput
attach_input m device_index eni = record {
  device_index = device_index;
  instance_id = m.instance_id;
  network_interface_id = eni.network_interface_id;
}

abbrev pub modify_input : NetworkInterface → Option Text → ModifyInput
modify_input eni attachment_id = record {
  attachment_id = attachment_id;
  delete_on_termination = true;
  network_interface_id = eni.network_interface_id;
}

module _ (e : Ec2) where
  abbrev pub Manage : Type 0 → Type 0
  Manage A = M e.State (AwsError e.Error) A

  -- The first interface of an answer, which has to be attached; `none` if there is none.
  unfoldable pub first_interface :
      List NetworkInterface → Manage (Option (NetworkInterface × Attachment))
  first_interface [] = pure none
  first_interface (eni ∷ _) = elim eni.attachment [
    | none ↦ fail (eni_missing_attachment (to_string eni.network_interface_id))
    | some attachment ↦ pure (some (eni, attachment))
  ]

  unfoldable pub find_existing_interface :
      Manager → Text → Manage (Option (NetworkInterface × Attachment))
  unfolding first_interface
  find_existing_interface m attachment_tag = do
    found ←
        wrap describe_network_interfaces
          (e.describe_network_interfaces (attachment_filter m attachment_tag))
    first_interface found

  -- The interface that was created is attached, and is to go with its instance.
  unfoldable pub attach_created :
      Manager → ℕ → NetworkInterface → Manage (NetworkInterface × Attachment)
  attach_created m device_index eni = do
    attachment_id ←
        wrap attach_network_interface (e.attach_network_interface (attach_input m device_index eni))
    wrap modify_attachment (e.modify_network_interface_attribute (modify_input eni attachment_id))
    pure (eni, record { attachment_id = attachment_id; device_index = none })

  unfoldable pub create_at :
      Manager → NetworkProfile → Text → ℕ → Manage (NetworkInterface × Attachment)
  unfolding attach_created
  create_at m cfg attachment_tag device_index = do
    eni ←
        wrap create_network_interface (e.create_network_interface (create_input cfg attachment_tag))
    attach_created m device_index eni

  unfoldable pub create_and_attach_interface :
      Manager → NetworkProfile → Text → Manage (NetworkInterface × Attachment)
  unfolding create_at
  create_and_attach_interface m cfg attachment_tag = do
    device_index ← next_available_device_index e m
    create_at m cfg attachment_tag device_index

  -- The interface that was found, or a new one.
  unfoldable pub existing_or_new :
      Manager
      → NetworkProfile
      → Text
      → Option (NetworkInterface × Attachment)
      → Manage (NetworkInterface × Attachment)
  unfolding create_and_attach_interface
  existing_or_new m cfg tag (some found) = pure found
  existing_or_new m cfg tag none = create_and_attach_interface m cfg tag

  abbrev pub sync_result : NetworkInterface → Attachment → SyncRequest → SyncResult
  sync_result eni attachment req = record {
    eni_id = to_string eni.network_interface_id;
    attachment_id = to_string attachment.attachment_id;
    assigned_ipv4 = req.ipv4_addresses;
    assigned_ipv6 = req.ipv6_addresses;
    mac_address = to_string eni.mac_address;
  }

  -- What follows the checks of the profile.
  unfoldable pub ensure_checked : Manager → NetworkProfile → SyncRequest → Manage SyncResult
  unfolding build_attachment_tag find_existing_interface existing_or_new
  ensure_checked m cfg req = do
    let tag = build_attachment_tag req.pod_uid
    found ← find_existing_interface m tag
    (eni, attachment) ← existing_or_new m cfg tag found
    assign_ip_addresses e eni req
    pure (sync_result eni attachment req)

  abbrev is_empty : List Text → Bool
  is_empty [] = true
  is_empty (_ ∷ _) = false

  unfoldable pub ensure_interface : Manager → NetworkProfile → SyncRequest → Manage SyncResult
  unfolding ensure_checked
  ensure_interface m cfg req =
      if cfg.subnet_id == []
      then fail (missing_subnet_id req.network_profile)
      else if is_empty cfg.security_group_ids
      then fail (missing_security_group_ids req.network_profile)
      else ensure_checked m cfg req

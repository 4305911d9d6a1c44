-- ===== src/Aws/EnsureOrder/Stages.antt =====
-- The order of calls that an ensure has to keep to, as a machine that reads them.
use multus_multivpc_cni.Base.{
  Text, ◌&&◌, Option, none, some, List, [], ◌∷◌, Result, ok, err, if◌then◌else◌, ◌==◌,
  option_text_eq,
}
use multus_multivpc_cni.Aws.Ec2.{NetworkInterface, AttachInput}
use multus_multivpc_cni.Aws.Trace.{
  Event, described, described_instances, described_types, created, attached, modified,
  assigned_ipv4, assigned_ipv6,
}

-- `fresh` has created the interface with the id, `joined` has attached it, and `ready` may give it
-- addresses; after a failed change nothing more may be called.
pub data Stage : Type 0 where
  looking missing counting : Stage
  fresh : Option Text → Stage
  joined : Option Text → Option Text → Stage
  ready : Option Text → Stage
  stopped violated : Stage

module _ {E : Type 0} where
  abbrev pub after_look : Result E (List NetworkInterface) → Stage
  after_look (err _) = stopped
  after_look (ok []) = missing
  after_look (ok (eni ∷ _)) = elim eni.attachment [
    | none ↦ stopped
    | some _ ↦ ready eni.network_interface_id
  ]

  abbrev after_create : Result E NetworkInterface → Stage
  after_create (err _) = stopped
  after_create (ok eni) = fresh eni.network_interface_id

  abbrev after_attach : Option Text → AttachInput → Result E (Option Text) → Stage
  after_attach id i (err _) = if i.network_interface_id == id then stopped else violated
  after_attach id i (ok attachment) =
      if i.network_interface_id == id then joined id attachment else violated

  -- The calls that a stage allows, with the interface that they have to be about.
  abbrev next : Stage → Event E → Stage
  next looking (described _ r) = after_look r
  next missing (described_instances _) = counting
  next counting (described_types _) = counting
  next counting (created _ r) = after_create r
  next (fresh id) (attached i r) = after_attach id i r
  next (joined id attachment) (modified i good) =
      if i.network_interface_id == id && i.attachment_id == attachment
      then if good then ready id else stopped
      else violated
  next (ready id) (assigned_ipv4 i good) =
      if i.network_interface_id == id then if good then ready id else stopped else violated
  next (ready id) (assigned_ipv6 i good) =
      if i.network_interface_id == id then if good then ready id else stopped else violated
  next _ _ = violated

  -- The stage after the calls, the last of which stands first.
  abbrev pub stage : List (Event E) → Stage
  stage [] = looking
  stage (event ∷ events) = next (stage events) event

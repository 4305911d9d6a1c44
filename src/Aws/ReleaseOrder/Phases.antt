-- ===== src/Aws/ReleaseOrder/Phases.antt =====
-- The order of calls that a release has to keep to, as a machine that reads them.
use multus_multivpc_cni.Base.{
  Text, text, text_eq, option_text_eq, Bool, true, false, Option, none, some, List, [], ◌∷◌, Result,
  ok, err, ◌==◌, ◌&&◌, if◌then◌else◌,
}
use multus_multivpc_cni.Aws.Ec2.{Attachment, NetworkInterface, DescribeInput}
use multus_multivpc_cni.Aws.Trace.{
  Event, described, unassigned_ipv4, unassigned_ipv6, detached, deleted,
}

-- How far a release has come. `serving` has found the interface with the id, and tells the attachment
-- that is to be detached; an interface without an id (`nameless`) can be neither looked at again nor
-- deleted; and after a failed call nothing more may be called.
pub data Phase : Type 0 where
  looking absent : Phase
  nameless : Option Text → Phase
  serving : Text → Option Text → Phase
  detaching confirmed gone : Text → Phase
  stopped violated : Phase

abbrev pub found_phase : NetworkInterface → Attachment → Phase
found_phase eni a = elim eni.network_interface_id [
  | none ↦ nameless a.attachment_id
  | some id ↦ serving id a.attachment_id
]

-- An answer that shows an interface detached: it is not there, or without attachment, or available.
abbrev is_off : List NetworkInterface → Bool
is_off [] = true
is_off (eni ∷ _) = elim eni.attachment [ none ↦ true | some _ ↦ eni.status == text "available" ]

-- A change of the right thing goes on to a phase, or stops.
abbrev changed : Bool → Bool → Phase → Phase
changed right good p = if right then if good then p else stopped else violated

-- A question about this interface alone.
abbrev asks_for : Text → List Text → Bool
asks_for id (x ∷ []) = x == id
asks_for id _ = false

-- A question for the interfaces of an instance with the tag of a Pod.
abbrev looks_for : Text → Text → DescribeInput → Bool
looks_for instance_id tag i = elim i.filters [
  | (k1, v1 ∷ []) ∷ (k2, v2 ∷ []) ∷ [] ↦
      k1 == text "tag:MultusSyncAttachment"
      && v1 == tag
      && k2 == text "attachment.instance-id"
      && v2 == instance_id
  | _ ↦ false
]

module _ {E : Type 0} where
  abbrev pub after_look : Result E (List NetworkInterface) → Phase
  after_look (err _) = stopped
  after_look (ok []) = absent
  after_look (ok (eni ∷ _)) = elim eni.attachment [ none ↦ stopped | some a ↦ found_phase eni a ]

  -- Only an answer that shows the interface detached allows to delete it, and only to a question
  -- about this interface.
  abbrev pub after_poll : Text → List Text → Result E (List NetworkInterface) → Phase
  after_poll id asked (err _) = if asks_for id asked then detaching id else violated
  after_poll id asked (ok found) =
      if asks_for id asked then if is_off found then confirmed id else detaching id else violated

  -- The calls that a phase allows, with what they have to be about; every other one is a violation.
  module _ (instance_id tag : Text) where
    abbrev pub next : Phase → Event E → Phase
    next looking (described i r) = if looks_for instance_id tag i then after_look r else violated
    next (serving id a) (unassigned_ipv4 i good) =
        changed (i.network_interface_id == some id) good (serving id a)
    next (serving id a) (unassigned_ipv6 i good) =
        changed (i.network_interface_id == some id) good (serving id a)
    next (serving id (some a)) (detached i good) =
        changed (i.attachment_id == some a) good (detaching id)
    next (serving id none) (described i r) = after_poll id i.network_interface_ids r
    next (nameless a) (unassigned_ipv4 i good) =
        changed (i.network_interface_id == none) good (nameless a)
    next (nameless a) (unassigned_ipv6 i good) =
        changed (i.network_interface_id == none) good (nameless a)
    next (nameless (some a)) (detached i good) =
        changed (i.attachment_id == some a) good (nameless none)
    next (detaching id) (described i r) = after_poll id i.network_interface_ids r
    next (confirmed id) (deleted i good) = changed (i == some id) good (gone id)
    next _ _ = violated

    -- The phase after the calls, the last of which stands first.
    abbrev pub phase : List (Event E) → Phase
    phase [] = looking
    phase (event ∷ events) = next (phase events) event

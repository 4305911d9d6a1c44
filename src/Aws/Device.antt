-- ===== src/Aws/Device.antt =====
-- `nextAvailableDeviceIndex` of pkg/aws/eni_manager.go.
pub mod Laws
use multus_multivpc_cni.Base.{
  ℕ, zero, suc, ◌+◌, ◌-◌, Text, text_eq, Bool, true, false, Option, none, some,
}
use multus_multivpc_cni.Base.{List, [], ◌∷◌, Result, ok, err, Eq, ◌==◌, contains, if◌then◌else◌}
use multus_multivpc_cni.Base.Int.{ℤ, pos, is_below, magnitude, int_eq}
use multus_multivpc_cni.Aws.Types.{Manager}
use multus_multivpc_cni.Aws.Ec2.{
  Attachment, Instance, InstanceTypeInfo, Ec2, AwsError, describe_instance, instance_not_found,
  no_available_device_index, M, pure, fail, wrap, ◌>>=◌,
}

-- The indices in use: those of the attachments that have one.
unfoldable pub used_indices : List (Option Attachment) → List ℤ
used_indices [] = []
used_indices (none ∷ rest) = used_indices rest
used_indices (some a ∷ rest) =
    let used = used_indices rest in elim a.device_index [ none ↦ used | some i ↦ i ∷ used ]

abbrev pub default_max_interfaces : ℤ
default_max_interfaces = pos 15

-- What the first instance type says, or the default.
unfoldable pub max_of_types : List InstanceTypeInfo → ℤ
max_of_types [] = default_max_interfaces
max_of_types (t ∷ _) = elim t.network_info [
  | none ↦ default_max_interfaces
  | some ni ↦ elim ni [ none ↦ default_max_interfaces | some n ↦ n ]
]

-- `if maxInterfaces < 2 { maxInterfaces = 2 }`
unfoldable pub at_least_two : ℤ → ℕ
at_least_two n = if is_below n 2 then 2 else magnitude n

-- The loop from `idx`, with the rounds that are left.
unfoldable pub first_free : List ℤ → ℕ → ℕ → Option ℕ
first_free used idx zero = none
first_free used idx (suc rounds) =
    let rest = first_free used (idx + 1) rounds in
    if contains used (pos idx) then rest else some idx

-- The first instance of the first reservation.
unfoldable pub first_instance : List (List Instance) → Option Instance
first_instance [] = none
first_instance ([] ∷ _) = none
first_instance ((inst ∷ _) ∷ _) = some inst

module _ (e : Ec2) where
  -- The limit of the instance type. A failed call is logged, and leaves the default.
  unfoldable pub max_interfaces : Instance → e.State → ℕ × e.State
  unfolding max_of_types at_least_two
  max_interfaces inst s =
      if inst.instance_type == []
      then (at_least_two default_max_interfaces, s)
      else let (r, s') = e.describe_instance_types inst.instance_type s in
        elim r [
          | err _ ↦ (at_least_two default_max_interfaces, s')
          | ok types ↦ (at_least_two (max_of_types types), s')
        ]

  unfoldable pub index_of_instance : Manager → Instance → M e.State (AwsError e.Error) ℕ
  unfolding max_interfaces used_indices first_free
  index_of_instance m inst s =
      let used = used_indices inst.network_interfaces in
      let (limit, s') = max_interfaces inst s in
      elim (first_free used 1 (limit - 1)) [
        | some idx ↦ (ok idx, s')
        | none ↦ (err (no_available_device_index m.instance_id used limit), s')
      ]

  unfoldable pub next_available_device_index : Manager → M e.State (AwsError e.Error) ℕ
  unfolding index_of_instance first_instance
  next_available_device_index m = do
    reservations ← wrap (describe_instance m.instance_id) (e.describe_instances m.instance_id)
    elim (first_instance reservations) [
      | none ↦ fail (instance_not_found m.instance_id)
      | some inst ↦ index_of_instance m inst
    ]

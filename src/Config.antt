-- ===== src/Config.antt =====
-- pkg/config/config.go: the network profiles that an operator defines, and their lookup by name.
pub mod Laws
use multus_multivpc_cni.Base.{Text, text_eq, Result, ok, err, Option, none, some, List, [], ◌==◌}
use multus_multivpc_cni.Base.{if◌then◌else◌}
use multus_multivpc_cni.Base.Int.{ℤ}
use multus_multivpc_cni.Base.Dict.{Dict, lookup}

pub record NetworkProfile : Type 0 where
  pub subnet_id : Text
  pub security_group_ids : List Text
  pub description : Text
  pub preferred_eni_count : ℤ

-- `none` is a nil map.
pub record Config : Type 0 where
  pub network_profiles : Option (Dict NetworkProfile)

-- The errors that `Load` wraps.
pub data LoadError (E : Type 0) : Type 0 where
  read_config : E → LoadError E
  unmarshal_config : E → LoadError E

-- The last step of `Load`: a nil map is replaced by an empty one.
unfoldable pub with_profiles : Config → Config
with_profiles cfg = elim cfg.network_profiles [
  | none ↦ record cfg { network_profiles = some [] }
  | some _ ↦ cfg
]

-- The file system and the YAML library are parameters.
module _ {E : Type 0} (read_file : Text → Result E Text) (unmarshal : Text → Result E Config) where
  unfoldable pub load : Text → Result (LoadError E) Config
  unfolding with_profiles
  load path =
      if path == [] then ok (record { network_profiles = some [] }) else elim (read_file path) [
        | err e ↦ err (read_config e)
        | ok bytes ↦ elim (unmarshal bytes) [
          | err e ↦ err (unmarshal_config e)
          | ok cfg ↦ ok (with_profiles cfg)
        ]
      ]

-- The lookup in a map that may be nil.
abbrev pub find_profile : Option (Dict NetworkProfile) → Text → Option NetworkProfile
find_profile none name = none
find_profile (some profiles) name = lookup name profiles

-- `(profile, ok)` is an option; a nil `*Config` resolves nothing.
unfoldable pub resolve_profile : Option Config → Text → Option NetworkProfile
resolve_profile none name = none
resolve_profile (some c) name = find_profile c.network_profiles name

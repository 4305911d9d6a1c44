-- ===== src/Tests/Config.antt =====
-- A run of `Load` of pkg/config/config.go with a file that defines no profiles.
use multus_multivpc_cni.Base.{Text, text, text_eq, none, Result, ok, ◌≡◌, refl, some, []}
use multus_multivpc_cni.Config.{Config, load}

abbrev read_file : Text → Result Text Text
read_file path = ok (text "{}")

abbrev unmarshal : Text → Result Text Config
unmarshal bytes = ok (record { network_profiles = none })

abbrev empty : Config
empty = record { network_profiles = some [] }

loaded : load read_file unmarshal (text "config.yaml") ≡ ok empty
unfolding load text_eq
loaded = refl

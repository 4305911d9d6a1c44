-- ===== src/Config/Laws.antt =====
-- What `Load` in pkg/config/config.go returns.
use multus_multivpc_cni.Base.{Text, text_eq, Result, ok, none}
use multus_multivpc_cni.Base.{◌≡◌, ◌≢◌, arith}
use multus_multivpc_cni.Config.{Config, load}

module _ {E : Type 0} (read_file : Text → Result E Text) (unmarshal : Text → Result E Config) where
  -- A loaded configuration never has a nil map of profiles, whichever path it was loaded from.
  pub load-profiles_some :
      (path : Text) {c : Config} → load read_file unmarshal path ≡ ok c → c.network_profiles ≢ none
  unfolding load
  load-profiles_some path h = ground arith

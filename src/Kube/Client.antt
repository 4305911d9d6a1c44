-- ===== src/Kube/Client.antt =====
-- `buildKubeClient`, which cmd/multivpc-eni-agent/main.go and cmd/multivpc-taint-controller/main.go
-- share but for the place of the path. client-go is a parameter.
use multus_multivpc_cni.Base.{Text, text_eq, not, [], Result, ok, err, ◌==◌, if◌then◌else◌}

pub record ClientGo : Type 1 where
  pub RestConfig : Type 0
  pub Client : Type 0
  pub Error : Type 0
  -- `clientcmd.BuildConfigFromFlags`, with a master URL and a path.
  pub build_config_from_flags : Text → Text → Result Error RestConfig
  pub in_cluster_config : Result Error RestConfig
  pub new_for_config : RestConfig → Result Error Client

module _ (g : ClientGo) where
  -- The configuration by the path of a kubeconfig; the code tries the path once more in the cluster.
  unfoldable pub rest_config : Text → Result g.Error g.RestConfig
  rest_config path =
      if not (path == []) then g.build_config_from_flags [] path else elim g.in_cluster_config [
        | ok cfg ↦ ok cfg
        | err e ↦ if not (path == []) then g.build_config_from_flags [] path else err e
      ]

  unfoldable pub build_kube_client : Text → Result g.Error g.Client
  unfolding rest_config
  build_kube_client path = elim (rest_config path) [ err e ↦ err e | ok cfg ↦ g.new_for_config cfg ]

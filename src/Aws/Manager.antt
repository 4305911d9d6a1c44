-- ===== src/Aws/Manager.antt =====
-- `NewManager`, `refreshMetadata` and `DescribeState` of pkg/aws/eni_manager.go, and the manager as
-- cmd/multivpc-eni-agent/main.go uses it.
use multus_multivpc_cni.Base.{Text, text, Option, none, some, [], ◌++◌, Result, ok, err}
use multus_multivpc_cni.Aws.Types.{Manager, SyncRequest, SyncResult}
use multus_multivpc_cni.Aws.Ec2.{Ec2, AwsError}
use multus_multivpc_cni.Aws.Ensure.{ensure_interface}
use multus_multivpc_cni.Aws.Release.{release_interface}
use multus_multivpc_cni.Agent.Server.{EniManager}

-- What the instance metadata service says of the instance.
pub record IdentityDocument : Type 0 where
  pub instance_id : Text
  pub availability_zone : Text

pub data NewManagerError (E : Type 0) : Type 0 where
  load_aws_config fetch_instance_identity : E → NewManagerError E

module _ {E : Type 0} where
  unfoldable pub refresh_metadata :
      Result E IdentityDocument → Manager → Result (NewManagerError E) (Unit {0}) × Manager
  refresh_metadata (err e) m = (err (fetch_instance_identity e), m)
  refresh_metadata (ok doc) m =
      (ok tt, record m { instance_id = doc.instance_id; availability_zone = doc.availability_zone })

  -- The AWS configuration of a region, and the answer of the metadata service under it, are parameters.
  unfoldable pub new_manager :
      {C : Type 0}
      → (Text → Result E C)
      → (C → Result E IdentityDocument)
      → Text
      → Result (NewManagerError E) Manager
  unfolding refresh_metadata
  new_manager load_config get_identity region = elim (load_config region) [
    | err e ↦ err (load_aws_config e)
    | ok cfg ↦
        let (r, m) =
          refresh_metadata (get_identity cfg)
            (record { instance_id = []; availability_zone = [] }) in
        elim r [ err e ↦ err e | ok _ ↦ ok m ]
  ]

pub describe_state : SyncRequest → Option SyncResult → Text
describe_state req res =
    req.pod_name
    ++ (text "/" ++ (req.namespace ++ (text " -> " ++ elim res [ none ↦ [] | some r ↦ r.eni_id ])))

abbrev pub eni_manager : Ec2 → Manager → EniManager
eni_manager e m = record {
  Cloud = e.State;
  Error = AwsError e.Error;
  ensure_interface = λ cfg req s. ensure_interface e m cfg req s;
  release_interface = λ cfg req s. release_interface e m req s;
}

-- ===== src/Agent/Status.antt =====
-- What `GetStatus` of cmd/multivpc-eni-agent/main.go answers.
use multus_multivpc_cni.Base.{Text, text_eq, true, none, some, []}
use multus_multivpc_cni.Base.{◌≡◌, ◌⊎◌, ◌↔◌, arith, In, In-keep}
use multus_multivpc_cni.Base.Dict.{values}
use multus_multivpc_cni.Agent.Messages.{GetStatusRequest, InterfaceState}
use multus_multivpc_cni.Agent.Server.{AgentServer, snapshot_states}
use multus_multivpc_cni.Agent.Handlers.{status_filter, get_status}

-- A field of a request that is not empty has to agree with the record's.
abbrev pub Asks : Text → Text → Type 0
Asks wanted found = (wanted ≡ []) ⊎ (found ≡ wanted)

pub record Matches (req : GetStatusRequest) (st : InterfaceState) : Type 0 where
  pub pod_uid : Asks req.pod_uid st.pod_uid
  pub interface_name : Asks req.interface_name st.interface_name
  pub network_profile : Asks req.network_profile st.network_profile

status_filter_iff :
    (req : GetStatusRequest) (st : InterfaceState)
    → (status_filter (some req) st ≡ true) ↔ Matches req st
unfolding status_filter
status_filter_iff req st = ground arith

-- The answer to a request holds exactly the recorded interfaces that agree with each field which
-- the request fills in; a nil request is answered with all of them.
pub get_status_iff :
    (req : GetStatusRequest) (a : AgentServer) (st : InterfaceState)
    → (In st (get_status (some req) a).interfaces ↔ (In st (values a.state) × Matches req st))
      × (In st (get_status none a).interfaces ↔ In st (values a.state))
unfolding get_status snapshot_states
get_status_iff req a st = ground (
  arith,
  status_filter_iff req st,
  In-keep (status_filter (some req)) st (values a.state),
  In-keep (status_filter none) st (values a.state),
)

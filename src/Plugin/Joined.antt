-- ===== src/Plugin/Joined.antt =====
-- The plugin of cmd/multus-multivpc-cni/main.go with the agent of cmd/multivpc-eni-agent/main.go
-- behind its gRPC client: the host of the plugin's calls is the agent's system.
pub mod Laws
pub mod Answers
use multus_multivpc_cni.Base.{ℕ, Text, Option, none, some, List, Result, ok, err}
use multus_multivpc_cni.Agent.Server.{EniManager}
use multus_multivpc_cni.Agent.Handlers.{AgentError, report_interface, release_interface, get_status}
use multus_multivpc_cni.Agent.Steps.{System}
use multus_multivpc_cni.Plugin.Calls.{LinkAttrs, Host}

-- What the plugin has beside the agent: how an error of the agent comes over gRPC, netlink,
-- `net.ParseMAC`, and contexts, during whose ticks the agent goes on.
pub record Surroundings (m : EniManager) : Type 1 where
  pub Error : Type 0
  pub Context : Type 0
  pub of_agent : AgentError → Error
  pub parse_mac : Text → Result Error Text
  pub link_list : System m → Result Error (List (Option LinkAttrs)) × System m
  pub link_set_up : LinkAttrs → System m → Result Error (Unit {0}) × System m
  pub wait_tick : Context → System m → Option Error × System m

abbrev over_grpc : {E F A : Type 0} → (E → F) → Result E A → Result F A
over_grpc f (ok x) = ok x
over_grpc f (err e) = err (f e)

-- The client's three methods are the server's.
abbrev pub joined : {m : EniManager} → Surroundings m → Host
joined {m} u = record {
  State = System m;
  Error = u.Error;
  Context = u.Context;
  report_interface = λ req s.
      let (r, a) = report_interface (some req) s.server in
      (over_grpc u.of_agent r, record s { server = a });
  release_interface = λ req s.
      let (r, a) = release_interface (some req) s.server in
      (over_grpc u.of_agent r, record s { server = a });
  get_status = λ req s. (ok (get_status (some req) s.server), s);
  parse_mac = u.parse_mac;
  link_list = u.link_list;
  link_set_up = u.link_set_up;
  wait_tick = u.wait_tick;
}

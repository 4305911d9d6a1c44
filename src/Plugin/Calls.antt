-- ===== src/Plugin/Calls.antt =====
-- The calls of the agent and the two waits of cmd/multus-multivpc-cni/main.go: `callReport`,
-- `callRelease`, `waitForAttachedState` and `waitForHostInterface`.
pub mod Laws
use multus_multivpc_cni.Base.Int.{ℤ, is_positive}
use multus_multivpc_cni.Base.{
  ℕ, zero, suc, Text, text, text_eq, Bool, true, false, not, ◌&&◌, Option, none, some, List, [],
  ◌∷◌, Result, ok, err, ◌==◌, if◌then◌else◌,
}
use multus_multivpc_cni.Agent.Messages.{
  ReportRequest, ReportResponse, ReleaseRequest, ReleaseResponse, GetStatusRequest,
  GetStatusResponse, InterfaceState,
}

-- The attributes of a `netlink.Link`; a hardware address is a text of bytes.
pub record LinkAttrs : Type 0 where
  pub name : Text
  pub hardware_addr : Text

-- The host as the plugin sees it: the agent behind its client, netlink, `net.ParseMAC`, and the
-- contexts with their tickers.
pub record Host : Type 1 where
  pub State : Type 0
  pub Error : Type 0
  pub Context : Type 0
  pub report_interface : ReportRequest → State → Result Error ReportResponse × State
  pub release_interface : ReleaseRequest → State → Result Error ReleaseResponse × State
  pub get_status : GetStatusRequest → State → Result Error GetStatusResponse × State
  pub parse_mac : Text → Result Error Text
  -- A link can be without attributes.
  pub link_list : State → Result Error (List (Option LinkAttrs)) × State
  pub link_set_up : LinkAttrs → State → Result Error (Unit {0}) × State
  -- The `select` at the end of a round: the context's error if it has ended, or `none` at the next tick.
  pub wait_tick : Context → State → Option Error × State

pub data CallError (E : Type 0) : Type 0 where
  report_failed release_failed : E → CallError E
  report_rejected release_rejected : Text → CallError E
  attached_timeout host_interface_timeout : E → CallError E
  mac_missing : CallError E
  mac_invalid : E → CallError E
  -- Not an error of the program: the model's loop has used up its rounds.
  out_of_fuel : CallError E
  -- Not an error of the program either: `time.NewTicker` panics, and the process ends.
  ticker_panic : CallError E

abbrev attached : Text
attached = text "attached"

abbrev pub is_usable : InterfaceState → Bool
is_usable st = st.status == attached && not (st.mac_address == [])

unfoldable pub first_usable : List InterfaceState → Option InterfaceState
first_usable [] = none
first_usable (st ∷ states) =
    let rest = first_usable states in if is_usable st then some st else rest

unfoldable pub find_link : Text → List (Option LinkAttrs) → Option LinkAttrs
find_link target [] = none
find_link target (none ∷ links) = find_link target links
find_link target (some attrs ∷ links) =
    let rest = find_link target links in if attrs.hardware_addr == target then some attrs else rest

abbrev pub status_request : Text → Text → Text → GetStatusRequest
status_request pod_uid if_name profile = record {
  pod_uid = pod_uid;
  interface_name = if_name;
  network_profile = profile;
}

module _ (h : Host) where
  abbrev pub Called : Type 0 → Type 0
  Called A = Result (CallError h.Error) A × h.State

  unfoldable pub call_report : ReportRequest → h.State → Called (Unit {0})
  call_report req s =
      let (r, s') = h.report_interface req s in
      elim r [
        | err e ↦ (err (report_failed e), s')
        | ok resp ↦
            if not resp.accepted then (err (report_rejected resp.message), s') else (ok tt, s')
      ]

  unfoldable pub call_release : ReleaseRequest → h.State → Called (Unit {0})
  call_release req s =
      let (r, s') = h.release_interface req s in
      elim r [
        | err e ↦ (err (release_failed e), s')
        | ok resp ↦
            if not resp.accepted then (err (release_rejected resp.message), s') else (ok tt, s')
      ]

  -- The error that a wait reports: that of its last look, or else the context's.
  abbrev pub last_error : {A : Type 0} → Result h.Error A → h.Error → h.Error
  last_error (ok _) ctx_err = ctx_err
  last_error (err e) ctx_err = e

  -- What one look at the agent's status finds.
  abbrev pub usable_in : Result h.Error GetStatusResponse → Option InterfaceState
  usable_in (ok resp) = first_usable resp.interfaces
  usable_in (err _) = none

  unfoldable pub poll_attached_state :
      ℕ → h.Context → GetStatusRequest → h.State → Called InterfaceState
  unfolding first_usable
  poll_attached_state zero ctx req s = (err out_of_fuel, s)
  poll_attached_state (suc fuel) ctx req s =
      let (r, s1) = h.get_status req s in
      let (ended, s2) = h.wait_tick ctx s1 in
      elim (usable_in r) [
        | some st ↦ (ok st, s1)
        | none ↦ elim ended [
          | some e ↦ (err (attached_timeout (last_error r e)), s2)
          | none ↦ poll_attached_state fuel ctx req s2
        ]
      ]

  unfoldable pub wait_for_attached_state :
      ℕ → h.Context → GetStatusRequest → ℤ → h.State → Called InterfaceState
  unfolding poll_attached_state
  wait_for_attached_state fuel ctx req interval s =
      if is_positive interval then poll_attached_state fuel ctx req s else (err ticker_panic, s)

  abbrev pub link_in : Text → Result h.Error (List (Option LinkAttrs)) → Option LinkAttrs
  link_in target (ok links) = find_link target links
  link_in target (err _) = none

  -- The loop of `waitForHostInterface`; a link that cannot be set up is taken all the same.
  unfoldable pub wait_for_link : ℕ → h.Context → Text → h.State → Called Text
  unfolding find_link
  wait_for_link zero ctx target s = (err out_of_fuel, s)
  wait_for_link (suc fuel) ctx target s =
      let (r, s1) = h.link_list s in
      let (ended, s2) = h.wait_tick ctx s1 in
      elim (link_in target r) [
        | some attrs ↦ (ok attrs.name, (h.link_set_up attrs s1).1)
        | none ↦ elim ended [
          | some e ↦ (err (host_interface_timeout (last_error r e)), s2)
          | none ↦ wait_for_link fuel ctx target s2
        ]
      ]

  unfoldable pub wait_for_host_interface : ℕ → h.Context → Text → ℤ → h.State → Called Text
  unfolding wait_for_link
  wait_for_host_interface fuel ctx mac interval s =
      if mac == [] then (err mac_missing, s) else elim (h.parse_mac mac) [
        | err e ↦ (err (mac_invalid e), s)
        | ok target ↦
            if is_positive interval then wait_for_link fuel ctx target s else (err ticker_panic, s)
      ]

-- ===== src/Plugin/Joined/Answers.antt =====
-- That a report of the plugin is answered: what the node's agent has recorded once its worker has
-- worked off the queue is what the plugin waits for.
use multus_multivpc_cni.Base.{
  ℕ, suc, Text, text_eq, Bool, true, false, Option, some, List, [], ◌∷◌, ok, keep, All, All-map,
  ◌≡◌, ◌≢◌, refl, sym, ap, ◌∙◌, arith,
}
use multus_multivpc_cni.Base.Dict.{Dict, lookup, values}
use multus_multivpc_cni.Config.{NetworkProfile, Config}
use multus_multivpc_cni.Aws.Types.{SyncRequest, SyncResult}
use multus_multivpc_cni.Base.Int.{ℤ, is_positive}
use multus_multivpc_cni.Agent.Messages.{ReportRequest, GetStatusRequest, InterfaceState}
use multus_multivpc_cni.Agent.Server.{
  EniManager, AgentServer, ensured, attached_state, state_key, run_job, snapshot_states,
}
use multus_multivpc_cni.Agent.Handlers.{ensure_job, report_interface, status_filter, get_status}
use multus_multivpc_cni.Agent.Steps.{Works, System, idle, here, next, report}
use multus_multivpc_cni.Agent.Invariant.{IsRecorded}
use multus_multivpc_cni.Agent.Invariant.Reached.{IsConsistent, Reach_from-IsConsistent}
use multus_multivpc_cni.Agent.Requests.{with_job, IsTaken, report_interface_accepts}
use multus_multivpc_cni.Agent.Drain.{drain, cloud_after, Reach-trans, drain-Works, Works-Reach}
use multus_multivpc_cni.Agent.Drain.Last.{last_recorded}
use multus_multivpc_cni.Plugin.Calls.{
  is_usable, first_usable, status_request, call_report, wait_for_attached_state,
}
use multus_multivpc_cni.Plugin.Joined.{Surroundings, joined}
use multus_multivpc_cni.Plugin.Joined.Laws.{wait_found}

first_keep :
    (p : InterfaceState → Bool) (x : InterfaceState) (xs : List InterfaceState)
    → (p x ≡ true → is_usable x ≡ true → first_usable (keep p (x ∷ xs)) ≡ some x)
      × (p x ≡ false → first_usable (keep p (x ∷ xs)) ≡ first_usable (keep p xs))
unfolding first_usable
first_keep p x xs = (λ h u. ground arith, λ h. ground arith)

module _ (uid interface profile : Text) where
  abbrev asked : InterfaceState → Bool
  asked = status_filter (some (status_request uid interface profile))

  asked-true :
      (st : InterfaceState)
      → st.pod_uid ≡ uid
      → st.interface_name ≡ interface
      → st.network_profile ≡ profile
      → asked st ≡ true
  unfolding status_filter
  asked-true st i j p = ground arith

  asked-key :
      (st : InterfaceState)
      → uid ≢ []
      → interface ≢ []
      → asked st ≡ true
      → state_key st.pod_uid st.interface_name ≡ state_key uid interface
  unfolding status_filter
  asked-key st has_uid has_interface h = ground arith

  -- Under the key of an interface stands the first record that a request for it finds.
  first_asked :
      (state : Dict InterfaceState) {st : InterfaceState}
      → uid ≢ []
      → interface ≢ []
      → asked st ≡ true
      → is_usable st ≡ true
      → All (λ e. e.0 ≡ state_key e.1.pod_uid e.1.interface_name) state
      → lookup (state_key uid interface) state ≡ some st
      → first_usable (keep asked (values state)) ≡ some st
  unfolding lookup values
  first_asked [] has_uid has_interface a u keys e = absurd (ground arith)
  first_asked ((key, x) ∷ state) {st} has_uid has_interface a u (k, keys) e =
      elim (text_eq.dec (state_key uid interface) key) [
        | yes p ↦
            let same : x ≡ st = ground arith in
            (first_keep asked x (values state)).0 (ap asked same ∙ a) (ap is_usable same ∙ u)
            ∙ ap some same
        | no n ↦
            (first_keep asked x (values state)).1
              (not_asked x (λ h. n (sym (asked-key x has_uid has_interface h) ∙ sym k)))
            ∙ first_asked state has_uid has_interface a u keys (ground arith)
      ]
    where
      not_asked : (x : InterfaceState) → (asked x ≢ true) → asked x ≡ false
      not_asked x h = ground arith

recorded_keys :
    (cfg : Option Config) (state : Dict InterfaceState)
    → All (IsRecorded cfg) state
    → All (λ e. e.0 ≡ state_key e.1.pod_uid e.1.interface_name) state
recorded_keys cfg state =
    All-map (IsRecorded cfg) (λ e. e.0 ≡ state_key e.1.pod_uid e.1.interface_name) (λ e h. h.key)
      state

attached-is_usable :
    (req : SyncRequest) (res : SyncResult)
    → res.mac_address ≢ []
    → is_usable (attached_state req res) ≡ true
attached-is_usable req res h = ground arith

asked_status :
    (req : GetStatusRequest) (a : AgentServer)
    → (get_status (some req) a).interfaces ≡ keep (status_filter (some req)) (values a.state)
unfolding get_status snapshot_states
asked_status req a = refl

module _ {m : EniManager} (cfg : Option Config) (node : Text) (size : ℕ) where
  -- The system once the report is queued, and once the worker has worked off the queue.
  abbrev with_report : NetworkProfile → ReportRequest → System m → System m
  with_report p req s = record s { server = with_job (ensure_job p req) s.server }

  abbrev worked_off : System m → System m
  worked_off s =
      let (b, c) = drain m s.server.queue s.server s.cloud in
      record { server = b; worker = idle; cloud = c }

  call_report-joined :
      (u : Surroundings m) (p : NetworkProfile) (req : ReportRequest) (s : System m)
      → IsTaken req s.server p
      → call_report (joined u) req s ≡ (ok tt, with_report p req s)
  unfolding call_report
  call_report-joined u p req s taken =
      let e = (report_interface_accepts req s.server).0 p taken in ground (arith, e)

  reported_step :
      (p : NetworkProfile) (req : ReportRequest) (s : System m)
      → IsTaken req s.server p
      → with_report p req s ≡ record s { server = (report_interface (some req) s.server).1 }
  reported_step p req s taken =
      ap (λ x. record s { server = x.1 }) (sym ((report_interface_accepts req s.server).0 p taken))

  -- A report of the plugin that the agent can take is accepted; and from there steps of the idle worker
  -- alone lead to an empty queue and an idle worker, where the first look of the plugin's wait returns the state with what
  -- the manager has answered, if it succeeds and answers with a MAC address: whatever else is queued,
  -- recorded or found out by then, as long as the report names its Pod and its interface, and
  -- the interval of the wait is positive.
  pub report_answered :
      (u : Surroundings m) (ctx : u.Context) (fuel : ℕ) (p : NetworkProfile) (req : ReportRequest)
      (res : SyncResult) (interval : ℤ) (s : System m)
      → is_positive interval ≡ true
      → IsConsistent m cfg node size s
      → s.worker ≡ idle
      → IsTaken req s.server p
      → req.pod_uid ≢ []
      → req.interface_name ≢ []
      → (run_job m (ensure_job p req) (cloud_after m s.server.queue s.cloud)).0 ≡ ensured (ok res)
      → res.mac_address ≢ []
      → let (r, s1) = call_report (joined u) req s in
        (r ≡ ok tt)
        × (t : System m) × Works s1 t
        × (t.worker ≡ idle)
        × (t.server.queue ≡ [])
        × (wait_for_attached_state
              (joined u)
              (suc fuel)
              ctx
              (status_request req.pod_uid req.interface_name req.network_profile)
              interval
              t
            ≡ (ok (attached_state (ensure_job p req).ensure_req res), t))
  report_answered u ctx fuel p req res interval s k v w taken has_uid has_interface done has_mac =
      let reported = with_report p req s in
      let t = worked_off reported in
      let (worked, emptied) = drain-Works m reported.server.queue reported w refl in
      let st = attached_state (ensure_job p req).ensure_req res in
      let consistent = Reach_from-IsConsistent m cfg node size v (
        Reach-trans m (next here (report (some req) (reported_step p req s taken)))
          (Works-Reach m worked)) in
      let found =
        ap first_usable (
          asked_status (status_request req.pod_uid req.interface_name req.network_profile) t.server)
        ∙ first_asked req.pod_uid req.interface_name req.network_profile t.server.state has_uid
            has_interface
            (asked-true req.pod_uid req.interface_name req.network_profile st refl refl refl)
            (attached-is_usable (ensure_job p req).ensure_req res has_mac)
            (recorded_keys cfg t.server.state consistent.sound.entries)
            (last_recorded m s.server.queue (ensure_job p req) reported.server s.cloud res done) in
      rw (call_report-joined u p req s taken)
        (refl, t, worked, refl, emptied, wait_found u fuel ctx _ interval t k found)

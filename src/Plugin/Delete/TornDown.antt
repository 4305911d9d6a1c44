-- ===== src/Plugin/Delete/TornDown.antt =====
-- What `cmdDel` of cmd/multus-multivpc-cni/main.go does before it removes a cached result.
use multus_multivpc_cni.Base.{
  ℕ, Text, text_eq, none, some, [], false, ok, ◌≡◌, ◌⊎◌, subst, ◌∙◌, ap, refl, arith,
}
use multus_multivpc_cni.Plugin.Cache.{CacheEntry}
use multus_multivpc_cni.Plugin.Cache.Stored.{}
use multus_multivpc_cni.Base.{text, ◌++◌, Bool-cases}
use multus_multivpc_cni.Base.Int.{pos, is_positive}
use multus_multivpc_cni.Agent.Messages.{ReleaseRequest}
use multus_multivpc_cni.Plugin.Delegates.{run_delegate_del_chain}
use multus_multivpc_cni.Plugin.Calls.{call_release}
use multus_multivpc_cni.Base.{true, Result, err, Result-cases, Option-cases, inl, inr}
use multus_multivpc_cni.Agent.Messages.{InterfaceState}
use multus_multivpc_cni.Plugin.Times.{wait_timeout, poll_interval}
use multus_multivpc_cni.Plugin.Calls.{
  CallError, report_failed, release_failed, report_rejected, release_rejected, attached_timeout,
  host_interface_timeout, mac_missing, mac_invalid, out_of_fuel, ticker_panic, status_request,
  wait_for_attached_state, wait_for_host_interface,
}
use multus_multivpc_cni.Plugin.Calls.Laws.{}
use multus_multivpc_cni.Plugin.Delete.{
  World, dial_agent, Conf, release_request, tell_agent, tear_down, found_by, link_name, find_master,
  del_found,
}
use multus_multivpc_cni.Base.{◌==◌}
use multus_multivpc_cni.Plugin.Calls.{is_usable}
use multus_multivpc_cni.Plugin.Calls.Laws.{
  IsLink, wait_for_attached_state_usable, wait_for_host_interface-IsLink,
}
use multus_multivpc_cni.Plugin.Delete.Calm.{find_master_calm}

module _ (w : World) (rounds : ℕ) where
  -- A name for the master, of the link of the host with the MAC address that the agent has shown; it
  -- is empty if none was found.
  abbrev pub IsMaster : Text → Type 0
  IsMaster master =
      (master ≡ [])
      ⊎ ((st : InterfaceState) × (target : Text) × (is_usable st ≡ true)
          × (w.host.parse_mac st.mac_address ≡ ok target)
          × IsLink w.host target master)

  found_by-some :
      {A : Type 0} (r : Result (CallError w.host.Error) A) {x : A}
      → found_by w rounds r ≡ ok (some x)
      → r ≡ ok x
  found_by-some (ok x) e = ground arith
  found_by-some (err ticker_panic) e = ground arith
  found_by-some (err (report_failed _)) e = ground arith
  found_by-some (err (release_failed _)) e = ground arith
  found_by-some (err (report_rejected _)) e = ground arith
  found_by-some (err (release_rejected _)) e = ground arith
  found_by-some (err (attached_timeout _)) e = ground arith
  found_by-some (err (host_interface_timeout _)) e = ground arith
  found_by-some (err mac_missing) e = ground arith
  found_by-some (err (mac_invalid _)) e = ground arith
  found_by-some (err out_of_fuel) e = ground arith

  link_name-IsMaster :
      (conf : Conf w rounds) (ctx : w.host.Context) (st : InterfaceState) (s : w.State)
      {master : Text}
      → is_usable st ≡ true
      → (link_name w rounds conf ctx st s).0 ≡ ok master
      → IsMaster master
  unfolding link_name
  link_name-IsMaster conf ctx st s {master} usable h =
      let interval = poll_interval conf in
      let r = (wait_for_host_interface w.host rounds ctx st.mac_address interval (w.host_of s)).0 in
      elim (Result-cases (found_by w rounds r)) [
        | inl (x, f) ↦ ground arith
        | inr (o, f) ↦ elim (Option-cases o) [
          | inl n ↦ ground arith
          | inr (name, n) ↦
              let waited = found_by-some r {x = name} (f ∙ ap ok n) in
              let (target, parsed, link) =
                wait_for_host_interface-IsLink w.host rounds ctx st.mac_address interval
                  (w.host_of s) name waited in
              elim (Bool-cases (st.mac_address == [])) [
                | inl empty ↦ ground arith
                | inr given ↦
                    let same : name ≡ master = ground arith in
                    inr (st, target, usable, parsed, subst (IsLink w.host target) same link)
              ]
        ]
      ]

  find_master-IsMaster :
      (conf : Conf w rounds) (ctx : w.host.Context) (entry : CacheEntry) (s : w.State)
      {master : Text}
      → (find_master w rounds conf ctx entry s).0 ≡ ok master
      → IsMaster master
  unfolding find_master
  find_master-IsMaster conf ctx entry s {master} h =
      let interval = poll_interval conf in
      let lookup_ctx = w.with_timeout (some ctx) (pos 5_000_000_000) s in
      let req = status_request entry.pod_uid entry.interface_name entry.network_profile in
      let (r, host) = wait_for_attached_state w.host rounds lookup_ctx req interval (w.host_of s) in
      elim (Result-cases (found_by w rounds r)) [
        | inl (x, f) ↦ ground arith
        | inr (o, f) ↦ elim (Option-cases o) [
          | inl n ↦ ground arith
          | inr (st, n) ↦
              link_name-IsMaster conf ctx st (w.with_host host s) {master = master}
                (wait_for_attached_state_usable w.host rounds lookup_ctx req interval (w.host_of s)
                  {st = st} (found_by-some r {x = st} (f ∙ ap ok n)))
                (ground arith)
        ]
      ]

  -- What is done for a cached result before its file is removed, from one state to another. If the
  -- agent cannot be dialled, the chain of delegates is taken down without a master; and else with the
  -- master that was found, and then the agent is asked to release the interface of the entry.
  pub data IsTornDown (conf : Conf w rounds) (entry : CacheEntry) (s t : w.State) : Type 0 where
    unreached :
        (s1 : w.State)
        → w.new_client (text "unix://" ++ conf.socket_path) s ≡ (false, s1)
        → t ≡ w.with_cni (run_delegate_del_chain w.cni conf [] (w.cni_of s1)).1 s1
        → IsTornDown conf entry s t
    reached :
        (s1 s2 s3 : w.State) (master : Text)
        → w.new_client (text "unix://" ++ conf.socket_path) s ≡ (true, s1)
        → find_master w rounds conf (w.with_timeout none (wait_timeout conf) s) entry s1
          ≡ (ok master, s2)
        → IsMaster master
        → s3 ≡ w.with_cni (run_delegate_del_chain w.cni conf master (w.cni_of s2)).1 s2
        → t
          ≡ w.with_host
              (w.host.release_interface
                (record {
                  node_name = [];
                  namespace = entry.namespace;
                  pod_name = entry.pod_name;
                  pod_uid = entry.pod_uid;
                  interface_name = entry.interface_name;
                  network_profile = entry.network_profile;
                })
                (w.host_of s3)).1
              s3
        → IsTornDown conf entry s t

  call_release-state :
      (req : ReleaseRequest) (h : w.host.State)
      → (call_release w.host req h).1 ≡ (w.host.release_interface req h).1
  unfolding call_release
  call_release-state req h = ground arith

  del_found-state :
      (conf : Conf w rounds) (entry : CacheEntry) (s s1 : w.State) (master : Text)
      → w.new_client (text "unix://" ++ conf.socket_path) s ≡ (true, s1)
      → (find_master w rounds conf (w.with_timeout none (wait_timeout conf) s) entry s1).0
        ≡ ok master
      → let s2 =
          (find_master w rounds conf (w.with_timeout none (wait_timeout conf) s) entry s1).1 in
        (del_found w rounds conf entry s).1
        ≡ tell_agent w rounds entry (tear_down w rounds conf master s2)
  unfolding del_found dial_agent
  del_found-state conf entry s s1 master dialled found = ground arith

  del_found-reached :
      (conf : Conf w rounds) (entry : CacheEntry) (s s1 : w.State) (master : Text)
      → w.new_client (text "unix://" ++ conf.socket_path) s ≡ (true, s1)
      → (find_master w rounds conf (w.with_timeout none (wait_timeout conf) s) entry s1).0
        ≡ ok master
      → IsTornDown conf entry s (del_found w rounds conf entry s).1
  unfolding del_found dial_agent
  del_found-reached conf entry s s1 master dialled found =
      let (r, s2) =
        find_master w rounds conf (w.with_timeout none (wait_timeout conf) s) entry s1 in
      let s3 = w.with_cni (run_delegate_del_chain w.cni conf master (w.cni_of s2)).1 s2 in
      reached s1 s2 s3 master dialled (ap (λ x. (x, s2)) found)
        (find_master-IsMaster conf (w.with_timeout none (wait_timeout conf) s) entry s1
          {master = master} found)
        refl
        (del_found-state conf entry s s1 master dialled found
          ∙ ap (λ h. w.with_host h s3)
              (call_release-state (release_request w rounds entry) (w.host_of s3)))

  pub del_found-IsTornDown :
      (conf : Conf w rounds) (entry : CacheEntry) (s : w.State)
      → is_positive (poll_interval conf) ≡ true
      → IsTornDown conf entry s (del_found w rounds conf entry s).1
  unfolding del_found dial_agent
  del_found-IsTornDown conf entry s k =
      let (dialled, s1) = w.new_client (text "unix://" ++ conf.socket_path) s in
      let ctx = w.with_timeout none (wait_timeout conf) s in
      elim (Bool-cases dialled) [
        | inl e ↦ elim (Result-cases (find_master w rounds conf ctx entry s1).0) [
          | inl (x, f) ↦ absurd (find_master_calm w rounds conf ctx entry s1 {e = x} k f)
          | inr (master, f) ↦ del_found-reached conf entry s s1 master (ap (λ b. (b, s1)) e) f
        ]
        | inr e ↦ unreached s1 (ap (λ b. (b, s1)) e) (rw e refl)
      ]

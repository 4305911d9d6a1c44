-- ===== src/Plugin/Delete/Calm.antt =====
-- That `cmdDel` of cmd/multus-multivpc-cni/main.go does not panic at a positive poll interval.
use multus_multivpc_cni.Base.{ℕ, text_eq, Option, none, some, ok, ◌≡◌, ◌≢◌, refl, arith}
use multus_multivpc_cni.Plugin.Cache.{CacheEntry}
use multus_multivpc_cni.Plugin.Cache.Stored.{}
use multus_multivpc_cni.Base.Int.{pos, is_positive}
use multus_multivpc_cni.Base.{true, Result, err, Result-cases, Option-cases, inl, inr}
use multus_multivpc_cni.Agent.Messages.{InterfaceState}
use multus_multivpc_cni.Plugin.Times.{wait_timeout, poll_interval}
use multus_multivpc_cni.Plugin.Calls.{
  CallError, report_failed, release_failed, report_rejected, release_rejected, attached_timeout,
  host_interface_timeout, mac_missing, mac_invalid, out_of_fuel, ticker_panic, status_request,
  wait_for_attached_state, wait_for_host_interface,
}
use multus_multivpc_cni.Plugin.Calls.Laws.{
  wait_for_attached_state-calm, wait_for_host_interface-calm,
}
use multus_multivpc_cni.Plugin.Delete.{
  World, dial_agent, Conf, Error, found_by, link_name, find_master, del_found,
}

module _ (w : World) (rounds : ℕ) where
  found_by_ok :
      {A : Type 0} (r : Result (CallError w.host.Error) A)
      → r ≢ err ticker_panic
      → (x : Option A) × (found_by w rounds r ≡ ok x)
  found_by_ok (ok x) k = (some x, refl)
  found_by_ok (err ticker_panic) k = absurd (k refl)
  found_by_ok (err (report_failed _)) k = (none, refl)
  found_by_ok (err (release_failed _)) k = (none, refl)
  found_by_ok (err (report_rejected _)) k = (none, refl)
  found_by_ok (err (release_rejected _)) k = (none, refl)
  found_by_ok (err (attached_timeout _)) k = (none, refl)
  found_by_ok (err (host_interface_timeout _)) k = (none, refl)
  found_by_ok (err mac_missing) k = (none, refl)
  found_by_ok (err (mac_invalid _)) k = (none, refl)
  found_by_ok (err out_of_fuel) k = (none, refl)

  link_name_calm :
      (conf : Conf w rounds) (ctx : w.host.Context) (st : InterfaceState) (s : w.State)
      {e : Error w rounds}
      → is_positive (poll_interval conf) ≡ true
      → (link_name w rounds conf ctx st s).0 ≢ err e
  unfolding link_name
  link_name_calm conf ctx st s k =
      let interval = poll_interval conf in
      let (found, f) =
        found_by_ok
          (wait_for_host_interface w.host rounds ctx st.mac_address interval (w.host_of s)).0
          (wait_for_host_interface-calm w.host rounds ctx st.mac_address interval (w.host_of s)
            k) in
      elim (Option-cases found) [ inl n ↦ ground arith | inr (name, n) ↦ ground arith ]

  pub find_master_calm :
      (conf : Conf w rounds) (ctx : w.host.Context) (entry : CacheEntry) (s : w.State)
      {e : Error w rounds}
      → is_positive (poll_interval conf) ≡ true
      → (find_master w rounds conf ctx entry s).0 ≢ err e
  unfolding find_master
  find_master_calm conf ctx entry s {e} k =
      let interval = poll_interval conf in
      let lookup_ctx = w.with_timeout (some ctx) (pos 5_000_000_000) s in
      let req = status_request entry.pod_uid entry.interface_name entry.network_profile in
      let (r, h) = wait_for_attached_state w.host rounds lookup_ctx req interval (w.host_of s) in
      let calm : r ≢ err ticker_panic = λ p. absurd (
        ground (
          arith,
          (wait_for_attached_state-calm w.host rounds lookup_ctx req interval (w.host_of s)).0 p,
        )) in
      let (found, f) = found_by_ok r calm in
      elim (Option-cases found) [
        | inl n ↦ ground arith
        | inr (st, n) ↦ ground (arith, link_name_calm conf ctx st (w.with_host h s) {e = e} k)
      ]

  -- At an interval that is positive nothing panics.
  pub del_found_ok :
      (conf : Conf w rounds) (entry : CacheEntry) (s : w.State)
      → is_positive (poll_interval conf) ≡ true
      → (del_found w rounds conf entry s).0 ≡ ok tt
  unfolding del_found
  del_found_ok conf entry s k =
      let ctx = w.with_timeout none (wait_timeout conf) s in
      let s1 = (dial_agent w conf.socket_path s).1 in
      elim (Result-cases (find_master w rounds conf ctx entry s1).0) [
        | inl (e, f) ↦ absurd (find_master_calm conf ctx entry s1 {e = e} k f)
        | inr (master, f) ↦ ground arith
      ]

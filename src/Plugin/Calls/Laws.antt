-- ===== src/Plugin/Calls/Laws.antt =====
-- That the waits of cmd/multus-multivpc-cni/main.go end, and what they return.
use multus_multivpc_cni.Base.{
  ℕ, zero, suc, ◌<◌, ◌≤◌, Text, text_eq, true, Option, none, some, List, [], ◌∷◌, Result, ok, err,
  ◌≡◌, ◌≢◌, ◌↔◌, In, refl, false, arith, inl, inr, Option-cases, Result-cases,
}
use multus_multivpc_cni.Base.Int.{ℤ, is_positive}
use multus_multivpc_cni.Agent.Messages.{GetStatusRequest, GetStatusResponse, InterfaceState}
use multus_multivpc_cni.Plugin.Calls.{
  LinkAttrs, Host, out_of_fuel, is_usable, first_usable, find_link, usable_in, link_in,
  ticker_panic, poll_attached_state, wait_for_attached_state, wait_for_link,
  wait_for_host_interface,
}

-- A context with a deadline: `ticks` bounds the ticks that still come before its end, each tick that
-- comes is one less, and looking at the agent or at the links adds none.
pub record HasDeadline (h : Host) : Type 0 where
  pub ticks : h.Context → h.State → ℕ
  pub fewer :
      (ctx : h.Context) (s : h.State)
      → (h.wait_tick ctx s).0 ≡ none
      → ticks ctx (h.wait_tick ctx s).1 < ticks ctx s
  pub ticks-get_status :
      (ctx : h.Context) (req : GetStatusRequest) (s : h.State)
      → ticks ctx (h.get_status req s).1 ≤ ticks ctx s
  pub ticks-link_list : (ctx : h.Context) (s : h.State) → ticks ctx (h.link_list s).1 ≤ ticks ctx s

first_usable-some :
    (states : List InterfaceState) {st : InterfaceState}
    → first_usable states ≡ some st
    → is_usable st ≡ true
unfolding first_usable
first_usable-some [] e = ground arith
first_usable-some (x ∷ states) {st} e = ground (arith, first_usable-some states {st = st})

find_link-some :
    (target : Text) (links : List (Option LinkAttrs)) {attrs : LinkAttrs}
    → find_link target links ≡ some attrs
    → In (some attrs) links × (attrs.hardware_addr ≡ target)
unfolding find_link
find_link-some target [] e = ground arith
find_link-some target (none ∷ links) {attrs} e =
    let (among, same) = find_link-some target links {attrs = attrs} e in (inr among, same)
find_link-some target (some x ∷ links) {attrs} e =
    ground (arith, find_link-some target links {attrs = attrs})

module _ (h : Host) where
  usable_in-some :
      (r : Result h.Error GetStatusResponse) {st : InterfaceState}
      → usable_in h r ≡ some st
      → is_usable st ≡ true
  usable_in-some (ok resp) {st} e = first_usable-some resp.interfaces {st = st} e
  usable_in-some (err x) e = ground arith

  -- The link that a wait has found, in a list of the links of the host.
  pub record IsLink (target name : Text) : Type 0 where
    pub before : h.State
    pub after : h.State
    pub links : List (Option LinkAttrs)
    pub listed : h.link_list before ≡ (ok links, after)
    pub attrs : LinkAttrs
    pub among : In (some attrs) links
    pub named : attrs.name ≡ name
    pub addressed : attrs.hardware_addr ≡ target

  -- The link that one look has found.
  looked_up :
      (target : Text) (before : h.State) (x : Result h.Error (List (Option LinkAttrs)) × h.State)
      {attrs : LinkAttrs} {name : Text}
      → h.link_list before ≡ x
      → link_in h target x.0 ≡ some attrs
      → attrs.name ≡ name
      → IsLink target name
  looked_up target before (ok links, after) {attrs} listed e named =
      let (among, addressed) = find_link-some target links {attrs = attrs} e in
      record {
        before = before;
        after = after;
        links = links;
        listed = listed;
        attrs = attrs;
        among = among;
        named = named;
        addressed = addressed;
      }
  looked_up target before (err x, after) listed e named = absurd (ground arith)

  poll_attached_state_usable :
      (fuel : ℕ) (ctx : h.Context) (req : GetStatusRequest) (s : h.State) {st : InterfaceState}
      → (poll_attached_state h fuel ctx req s).0 ≡ ok st
      → is_usable st ≡ true
  unfolding poll_attached_state
  poll_attached_state_usable zero ctx req s e = ground arith
  poll_attached_state_usable (suc fuel) ctx req s {st} e =
      let (r, s1) = h.get_status req s in
      ground (
        arith,
        usable_in-some r {st = st},
        poll_attached_state_usable fuel ctx req (h.wait_tick ctx s1).1 {st = st},
      )

  poll_attached_state-calm :
      (fuel : ℕ) (ctx : h.Context) (req : GetStatusRequest) (s : h.State)
      → (poll_attached_state h fuel ctx req s).0 ≢ err ticker_panic
  unfolding poll_attached_state
  poll_attached_state-calm zero ctx req s = ground arith
  poll_attached_state-calm (suc fuel) ctx req s =
      let s1 = (h.get_status req s).1 in
      ground (arith, poll_attached_state-calm fuel ctx req (h.wait_tick ctx s1).1)

  wait_for_link-calm :
      (fuel : ℕ) (ctx : h.Context) (target : Text) (s : h.State)
      → (wait_for_link h fuel ctx target s).0 ≢ err ticker_panic
  unfolding wait_for_link
  wait_for_link-calm zero ctx target s = ground arith
  wait_for_link-calm (suc fuel) ctx target s =
      let s1 = (h.link_list s).1 in
      ground (arith, wait_for_link-calm fuel ctx target (h.wait_tick ctx s1).1)

  pub wait_for_attached_state_usable :
      (fuel : ℕ) (ctx : h.Context) (req : GetStatusRequest) (interval : ℤ) (s : h.State)
      {st : InterfaceState}
      → (wait_for_attached_state h fuel ctx req interval s).0 ≡ ok st
      → is_usable st ≡ true
  unfolding wait_for_attached_state
  wait_for_attached_state_usable fuel ctx req interval s {st} e =
      poll_attached_state_usable fuel ctx req s {st = st} (ground arith)

  -- A wait panics only at an interval that is not positive.
  pub wait_for_attached_state-calm :
      (fuel : ℕ) (ctx : h.Context) (req : GetStatusRequest) (interval : ℤ) (s : h.State)
      → ((wait_for_attached_state h fuel ctx req interval s).0 ≡ err ticker_panic)
        ↔ (is_positive interval ≡ false)
  unfolding wait_for_attached_state
  wait_for_attached_state-calm fuel ctx req interval s =
      ground (arith, poll_attached_state-calm fuel ctx req s)

  pub wait_for_host_interface-calm :
      (fuel : ℕ) (ctx : h.Context) (mac : Text) (interval : ℤ) (s : h.State)
      → is_positive interval ≡ true
      → (wait_for_host_interface h fuel ctx mac interval s).0 ≢ err ticker_panic
  unfolding wait_for_host_interface
  wait_for_host_interface-calm fuel ctx mac interval s k = elim (Result-cases (h.parse_mac mac)) [
    | inl (x, p) ↦ ground arith
    | inr (target, p) ↦ ground (arith, wait_for_link-calm fuel ctx target s)
  ]

  wait_for_link-IsLink :
      (fuel : ℕ) (ctx : h.Context) (target : Text) (s : h.State) {name : Text}
      → (wait_for_link h fuel ctx target s).0 ≡ ok name
      → IsLink target name
  unfolding wait_for_link
  wait_for_link-IsLink zero ctx target s e = ground arith
  wait_for_link-IsLink (suc fuel) ctx target s {name} e =
      let (r, s1) = h.link_list s in
      elim (Option-cases (link_in h target r)) [
        | inl n ↦
            ground
              (arith, wait_for_link-IsLink fuel ctx target (h.wait_tick ctx s1).1 {name = name})
        | inr (attrs, found) ↦
            looked_up target s (h.link_list s) {attrs = attrs} refl found (ground arith)
      ]

  pub wait_for_host_interface-IsLink :
      (fuel : ℕ) (ctx : h.Context) (mac : Text) (interval : ℤ) (s : h.State) (name : Text)
      → (wait_for_host_interface h fuel ctx mac interval s).0 ≡ ok name
      → (target : Text) × (h.parse_mac mac ≡ ok target) × IsLink target name
  unfolding wait_for_host_interface
  wait_for_host_interface-IsLink fuel ctx mac interval s name e =
      elim (Result-cases (h.parse_mac mac)) [
        | inl (x, p) ↦ ground arith
        | inr (target, p) ↦
            (target, p, wait_for_link-IsLink fuel ctx target s {name = name} (ground arith))
      ]

module _ (h : Host) (d : HasDeadline h) where
  poll_attached_state_total :
      (fuel : ℕ) (ctx : h.Context) (req : GetStatusRequest) (s : h.State)
      → d.ticks ctx s < fuel
      → (poll_attached_state h fuel ctx req s).0 ≢ err out_of_fuel
  unfolding poll_attached_state
  poll_attached_state_total zero ctx req s k = ground arith
  poll_attached_state_total (suc fuel) ctx req s k =
      let s1 = (h.get_status req s).1 in
      ground (
        arith,
        d.fewer ctx s1,
        d.ticks-get_status ctx req s,
        poll_attached_state_total fuel ctx req (h.wait_tick ctx s1).1,
      )

  wait_for_link_total :
      (fuel : ℕ) (ctx : h.Context) (target : Text) (s : h.State)
      → d.ticks ctx s < fuel
      → (wait_for_link h fuel ctx target s).0 ≢ err out_of_fuel
  unfolding wait_for_link
  wait_for_link_total zero ctx target s k = ground arith
  wait_for_link_total (suc fuel) ctx target s k =
      let s1 = (h.link_list s).1 in
      ground (
        arith,
        d.fewer ctx s1,
        d.ticks-link_list ctx s,
        wait_for_link_total fuel ctx target (h.wait_tick ctx s1).1,
      )

  -- Before a context that ends, with at least one round more than the ticks that still come, the wait
  -- for the agent returns by itself, and panics exactly if its interval is not positive; and a state
  -- that it returns is attached and has a MAC address.
  pub wait_for_attached_state_lem :
      (fuel : ℕ) (ctx : h.Context) (req : GetStatusRequest) (interval : ℤ) (s : h.State)
      → d.ticks ctx s < fuel
      → let r = (wait_for_attached_state h fuel ctx req interval s).0 in
        (r ≢ err out_of_fuel)
        × ((r ≡ err ticker_panic) ↔ (is_positive interval ≡ false))
        × ((st : InterfaceState) → r ≡ ok st → is_usable st ≡ true)
  unfolding wait_for_attached_state
  wait_for_attached_state_lem fuel ctx req interval s k = (
    ground (arith, poll_attached_state_total fuel ctx req s k),
    wait_for_attached_state-calm h fuel ctx req interval s,
    λ st e. poll_attached_state_usable h fuel ctx req s {st = st} (ground arith),
  )

  wait_for_host_interface_total :
      (fuel : ℕ) (ctx : h.Context) (mac : Text) (interval : ℤ) (s : h.State)
      → d.ticks ctx s < fuel
      → (wait_for_host_interface h fuel ctx mac interval s).0 ≢ err out_of_fuel
  unfolding wait_for_host_interface
  wait_for_host_interface_total fuel ctx mac interval s k = elim (Result-cases (h.parse_mac mac)) [
    | inl (x, p) ↦ ground arith
    | inr (target, p) ↦ ground (arith, wait_for_link_total fuel ctx target s k)
  ]

  -- Before such a context, and with as many rounds, the wait for the host's interface returns by
  -- itself, and does not panic if its interval is positive; and a name that it returns is the one of a link in a list of the host's
  -- links, with the hardware address that the MAC address was parsed to.
  pub wait_for_host_interface_lem :
      (fuel : ℕ) (ctx : h.Context) (mac : Text) (interval : ℤ) (s : h.State)
      → d.ticks ctx s < fuel
      → let r = (wait_for_host_interface h fuel ctx mac interval s).0 in
        (r ≢ err out_of_fuel)
        × (is_positive interval ≡ true → r ≢ err ticker_panic)
        × ((name : Text)
            → r ≡ ok name
            → (target : Text) × (h.parse_mac mac ≡ ok target) × IsLink h target name)
  unfolding wait_for_host_interface
  wait_for_host_interface_lem fuel ctx mac interval s k = (
    wait_for_host_interface_total fuel ctx mac interval s k,
    wait_for_host_interface-calm h fuel ctx mac interval s,
    λ name. wait_for_host_interface-IsLink h fuel ctx mac interval s name,
  )

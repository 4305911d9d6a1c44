-- ===== src/Plugin/Joined/Laws.antt =====
-- What the plugin's wait returns when the node's agent answers it.
use multus_multivpc_cni.Base.{
  ℕ, zero, suc, ◌≤◌, refl, text_eq, true, none, some, List, [], ◌∷◌, Result, ok, err, In, ◌≡◌, inl,
  inr, ap, ◌∙◌, arith, Option-cases, Bool-cases,
}
use multus_multivpc_cni.Base.Dict.{values}
use multus_multivpc_cni.Base.Int.{ℤ, is_positive}
use multus_multivpc_cni.Agent.Messages.{GetStatusRequest, InterfaceState}
use multus_multivpc_cni.Agent.Server.{EniManager}
use multus_multivpc_cni.Agent.Handlers.{get_status}
use multus_multivpc_cni.Agent.Steps.{System}
use multus_multivpc_cni.Agent.Status.{Matches, get_status_iff}
use multus_multivpc_cni.Plugin.Calls.{
  attached_timeout, is_usable, first_usable, poll_attached_state, wait_for_attached_state,
}
use multus_multivpc_cni.Plugin.Joined.{Surroundings, joined}

first_usable-In :
    (states : List InterfaceState) {st : InterfaceState}
    → first_usable states ≡ some st
    → In st states × (is_usable st ≡ true)
unfolding first_usable
first_usable-In [] e = absurd (ground arith)
first_usable-In (x ∷ states) {st} e = ground (arith, first_usable-In states {st = st})

ok_inj : {E A : Type 0} {x y : A} → ◌≡◌ {A = Result E A} (ok x) (ok y) → x ≡ y
ok_inj h = ground arith

module _ {m : EniManager} (u : Surroundings m) where
  -- The system after some ticks of a context, during which the agent goes on by itself.
  pub ticked : ℕ → u.Context → System m → System m
  ticked zero ctx s = s
  ticked (suc n) ctx s = ticked n ctx (u.wait_tick ctx s).1

  -- What the agent has recorded for the request, usable by the plugin.
  pub record IsAnswer (req : GetStatusRequest) (s : System m) (st : InterfaceState) : Type 0 where
    pub recorded : In st (values s.server.state)
    pub wanted : Matches req st
    pub usable : is_usable st ≡ true

  look-IsAnswer :
      (req : GetStatusRequest) (s : System m) {st : InterfaceState}
      → first_usable (get_status (some req) s.server).interfaces ≡ some st
      → IsAnswer req s st
  look-IsAnswer req s {st} e =
      let (found, usable) = first_usable-In _ e in
      let (recorded, wanted) = (get_status_iff req s.server st).0.0 found in
      record { recorded = recorded; wanted = wanted; usable = usable }

  module _ (fuel : ℕ) (ctx : u.Context) (req : GetStatusRequest) (s : System m) where
    poll_found :
        {st : InterfaceState}
        → first_usable (get_status (some req) s.server).interfaces ≡ some st
        → poll_attached_state (joined u) (suc fuel) ctx req s ≡ (ok st, s)
    unfolding poll_attached_state
    poll_found f = ground arith

    poll_ended :
        {e : u.Error}
        → first_usable (get_status (some req) s.server).interfaces ≡ none
        → (u.wait_tick ctx s).0 ≡ some e
        → poll_attached_state (joined u) (suc fuel) ctx req s
          ≡ (err (attached_timeout e), (u.wait_tick ctx s).1)
    unfolding poll_attached_state
    poll_ended n e = ground arith

    poll_goes :
        first_usable (get_status (some req) s.server).interfaces ≡ none
        → (u.wait_tick ctx s).0 ≡ none
        → poll_attached_state (joined u) (suc fuel) ctx req s
          ≡ poll_attached_state (joined u) fuel ctx req (u.wait_tick ctx s).1
    unfolding poll_attached_state
    poll_goes n e = ground arith

  poll-joined :
      (fuel : ℕ) (ctx : u.Context) (req : GetStatusRequest) (s : System m)
      → let (r, t) = poll_attached_state (joined u) fuel ctx req s in
        (n : ℕ) × (n ≤ fuel)
        × (t ≡ ticked n ctx s)
        × ((st : InterfaceState) → r ≡ ok st → IsAnswer req t st)
  unfolding poll_attached_state ticked
  poll-joined zero ctx req s = (zero, omega arith, refl, λ st e. absurd (ground arith))
  poll-joined (suc fuel) ctx req s =
      elim (Option-cases (first_usable (get_status (some req) s.server).interfaces)) [
        | inl n ↦ elim (Option-cases (u.wait_tick ctx s).0) [
          | inl goes ↦
              let (k, few, same, answers) = poll-joined fuel ctx req (u.wait_tick ctx s).1 in
              rw (poll_goes fuel ctx req s n goes) (suc k, omega arith, same, answers)
          | inr (e, ends) ↦
              rw (poll_ended fuel ctx req s n ends)
                (1, omega arith, refl, λ st k. absurd (ground arith))
        ]
        | inr (found, f) ↦
            rw (poll_found fuel ctx req s f)
              (0, omega arith, refl, λ st k. look-IsAnswer req s (f ∙ ap some (ok_inj k)))
      ]

  -- With an interval that is positive, a look that finds a usable state ends the wait.
  pub wait_found :
      (fuel : ℕ) (ctx : u.Context) (req : GetStatusRequest) (interval : ℤ) (s : System m)
      {st : InterfaceState}
      → is_positive interval ≡ true
      → first_usable (get_status (some req) s.server).interfaces ≡ some st
      → wait_for_attached_state (joined u) (suc fuel) ctx req interval s ≡ (ok st, s)
  unfolding wait_for_attached_state
  wait_found fuel ctx req interval s k f = ground (arith, poll_found fuel ctx req s f)

  -- A wait at the agent changes nothing in it: it leaves the agent as it is after some ticks of the
  -- wait's context, no more than its rounds. A state that it returns is one that the agent has
  -- recorded by then, which agrees with each field of the request that is not empty, is attached and
  -- has a MAC address.
  pub wait-joined :
      (fuel : ℕ) (ctx : u.Context) (req : GetStatusRequest) (interval : ℤ) (s : System m)
      → let (r, t) = wait_for_attached_state (joined u) fuel ctx req interval s in
        (n : ℕ) × (n ≤ fuel)
        × (t ≡ ticked n ctx s)
        × ((st : InterfaceState) → r ≡ ok st → IsAnswer req t st)
  unfolding wait_for_attached_state ticked
  wait-joined fuel ctx req interval s = elim (Bool-cases (is_positive interval)) [
    | inl positive ↦ rw (positive, wait_for_attached_state) (poll-joined fuel ctx req s)
    | inr negative ↦
        rw (negative, wait_for_attached_state) (0, omega arith, refl, λ st e. absurd (ground arith))
  ]

-- ===== src/Aws/Wait.antt =====
-- The wait of `waitForDetachment` in pkg/aws/eni_manager.go ends.
use multus_multivpc_cni.Base.{
  ℕ, zero, suc, ◌+◌, ◌*◌, ◌≤◌, ◌<◌, Text, inl, inr, Option-cases, [], ◌∷◌, err, ◌≢◌, arith,
}
use multus_multivpc_cni.Aws.Ec2.{NetworkInterface, DescribeInput, Ec2, out_of_fuel}
use multus_multivpc_cni.Aws.Release.{
  poll_pause, detach_timeout, poll_detached, wait_loop, wait_for_detachment,
}

-- What the wait relies on: a sleep takes at least its time, and an API call does not turn the clock
-- back.
pub record IsClock (e : Ec2) : Type 0 where
  pub now-sleep : (d : ℕ) (s : e.State) → e.now s + d ≤ e.now (e.sleep d s)
  pub now-describe :
      (i : DescribeInput) (s : e.State) → e.now s ≤ e.now (e.describe_network_interfaces i s).1

module _ (e : Ec2) (clock : IsClock e) where
  now-poll_detached : (id : Text) (s : e.State) → e.now s ≤ e.now (poll_detached e id s).1
  unfolding poll_detached
  now-poll_detached id s =
      ground
        (arith, clock.now-describe (record { filters = []; network_interface_ids = id ∷ [] }) s)

  now-round :
      (id : Text) (s : e.State)
      → e.now s + poll_pause ≤ e.now (e.sleep poll_pause (poll_detached e id s).1)
  now-round id s =
      omega (arith, now-poll_detached id s, clock.now-sleep poll_pause (poll_detached e id s).1)

  wait_loop_total :
      (f deadline : ℕ) (id : Text) (s : e.State)
      → deadline < e.now s + f * poll_pause
      → (wait_loop e (suc f) deadline id s).0 ≢ err out_of_fuel
  unfolding wait_loop
  wait_loop_total zero deadline id s h = ground arith
  wait_loop_total (suc f) deadline id s h = ground (
    arith,
    now-round id s,
    wait_loop_total f deadline id (e.sleep poll_pause (poll_detached e id s).1),
  )

  -- On such a clock the rounds of the model are enough: the wait for a detachment ends by an answer
  -- that shows it, by the context, or by its deadline of 30 seconds, with pauses of 2 seconds.
  pub wait_for_detachment_total :
      (eni : NetworkInterface) (s : e.State) → (wait_for_detachment e eni s).0 ≢ err out_of_fuel
  unfolding wait_for_detachment
  wait_for_detachment_total eni s = elim (Option-cases eni.network_interface_id) [
    | inl h ↦ ground arith
    | inr (id, h) ↦
        rw (h, wait_for_detachment)
          (wait_loop_total 16 (e.now s + detach_timeout) id s (omega arith))
  ]

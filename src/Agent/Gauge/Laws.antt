-- ===== src/Agent/Gauge/Laws.antt =====
-- The queue of cmd/multivpc-eni-agent/main.go and its gauge, whatever moves come between a send or a
-- receive and the change of the gauge.
use multus_multivpc_cni.Base.{ℕ, zero, suc, ◌+◌, ◌≤◌, true, Text, Option, List, [], ◌∷◌}
use multus_multivpc_cni.Base.{◌++◌, length, length-append, ltb}
use multus_multivpc_cni.Base.{◌≡◌, refl, arith}
use multus_multivpc_cni.Base.Int.{ℤ, pos, negsuc, inc, dec}
use multus_multivpc_cni.Config.{Config}
use multus_multivpc_cni.Agent.Server.{
  SyncJob, Outcome, new_agent_server, finish_job, update_state, delete_state,
}
use multus_multivpc_cni.Agent.Gauge.{
  send_job, receive_job, count_sent, count_taken, Hand, waiting, taken, working, calling, Race,
  race, Move, send, hand_over, tell_sent, receive, tell_taken, begin, finish, Moves, here, next,
}

-- `n - m` as a signed number.
unfoldable pub difference : ℕ → ℕ → ℤ
difference n zero = pos n
difference zero (suc m) = negsuc m
difference (suc n) (suc m) = difference n m

pub inc-difference : (n m : ℕ) → inc (difference n (suc m)) ≡ difference n m
unfolding difference
inc-difference zero zero = refl
inc-difference zero (suc m) = refl
inc-difference (suc n) zero = ground arith
inc-difference (suc n) (suc m) = inc-difference n m

dec-difference : (n m : ℕ) → dec (difference (suc n) m) ≡ difference n m
unfolding difference
dec-difference n zero = refl
dec-difference zero (suc zero) = refl
dec-difference zero (suc (suc m)) = ground arith
dec-difference (suc n) (suc m) = dec-difference n m

-- The job that the worker has taken and not yet taken off the gauge.
abbrev pub uncounted : Hand → ℕ
uncounted waiting = 0
uncounted (taken _) = 1
uncounted (working _) = 0
uncounted (calling _) = 0

pub record IsCounted (size : ℕ) (s : Race) : Type 0 where
  pub same_size : s.server.queue_size ≡ size
  pub fits : length s.server.queue ≤ size
  pub depth :
      s.server.metrics.queue_depth ≡ difference (length s.server.queue + uncounted s.hand) s.sent

-- The gauge where the worker is known to stand.
depth-at :
    (s : Race) (h : Hand) (n : ℕ) {size : ℕ}
    → s.hand ≡ h
    → length s.server.queue + uncounted h ≡ n
    → IsCounted size s
    → s.server.metrics.queue_depth ≡ difference n s.sent
depth-at s h n w e v = rw (v.depth, w, e) refl

module _ (size : ℕ) where
  send-IsCounted :
      (job : SyncJob) (s : Race)
      → ltb (length s.server.queue) s.server.queue_size ≡ true
      → IsCounted size s
      → IsCounted size (record s { server = send_job job s.server; sent = suc s.sent })
  unfolding send_job difference
  send-IsCounted job s room v =
      let more : length (s.server.queue ++ (job ∷ [])) + uncounted s.hand
          ≡ suc (length s.server.queue + uncounted s.hand) =
        ground (arith, length-append s.server.queue (job ∷ [])) in
      record {
        same_size = v.same_size;
        fits = ground (arith, length-append s.server.queue (job ∷ []), v.fits, v.same_size);
        depth = rw more (v.depth);
      }

  hand_over-IsCounted :
      (job : SyncJob) (s : Race)
      → s.hand ≡ waiting
      → IsCounted size s
      → IsCounted size (record s { sent = suc s.sent; hand = taken job })
  unfolding difference
  hand_over-IsCounted job s w v =
      let more : length s.server.queue + 1 ≡ suc (length s.server.queue) = ground arith in
      record {
        same_size = v.same_size;
        fits = v.fits;
        depth = rw more (depth-at s waiting (length s.server.queue) w (ground arith) v);
      }

  tell_sent-IsCounted :
      (n : ℕ) (s : Race)
      → s.sent ≡ suc n
      → IsCounted size s
      → IsCounted size (record s { server = count_sent s.server; sent = n })
  unfolding count_sent
  tell_sent-IsCounted n s e v = record {
    same_size = v.same_size;
    fits = v.fits;
    depth = rw (v.depth, e) (inc-difference (length s.server.queue + uncounted s.hand) n);
  }

  receive-IsCounted :
      (job : SyncJob) (rest : List SyncJob) (s : Race)
      → s.hand ≡ waiting
      → s.server.queue ≡ job ∷ rest
      → IsCounted size s
      → IsCounted size (record s { server = receive_job rest s.server; hand = taken job })
  unfolding receive_job
  receive-IsCounted job rest s w q v =
      let shorter : length s.server.queue ≡ length rest + 1 = ground arith in
      record {
        same_size = v.same_size;
        fits = ground (arith, v.fits);
        depth = depth-at s waiting (length rest + 1) w (ground arith) v;
      }

  tell_taken-IsCounted :
      (job : SyncJob) (s : Race)
      → s.hand ≡ taken job
      → IsCounted size s
      → IsCounted size (record s { server = count_taken s.server; hand = working job })
  unfolding count_taken
  tell_taken-IsCounted job s w v =
      let n = length s.server.queue in
      let zero_more : n + 0 ≡ n = ground arith in
      let depth = depth-at s (taken job) (suc n) w (ground arith) v in
      record {
        same_size = v.same_size;
        fits = v.fits;
        depth = rw (zero_more, depth) (dec-difference n s.sent);
      }

  finish-IsCounted :
      {E : Type 0} (job : SyncJob) (outcome : Outcome E) (s : Race)
      → s.hand ≡ calling job
      → IsCounted size s
      → IsCounted size (record s { server = finish_job job outcome s.server; hand = waiting })
  unfolding finish_job update_state delete_state
  finish-IsCounted job outcome s w v =
      let depth = depth-at s (calling job) (length s.server.queue + 0) w refl v in ground arith

  Move-IsCounted : {E : Type 0} {s t : Race} → Move E s t → IsCounted size s → IsCounted size t
  Move-IsCounted {s = s} (send job room e) v = rw e (send-IsCounted job s room v)
  Move-IsCounted {s = s} (hand_over job w q e) v = rw e (hand_over-IsCounted job s w v)
  Move-IsCounted {s = s} (tell_sent n h e) v = rw e (tell_sent-IsCounted n s h v)
  Move-IsCounted {s = s} (receive job rest w q e) v = rw e (receive-IsCounted job rest s w q v)
  Move-IsCounted {s = s} (tell_taken job w e) v = rw e (tell_taken-IsCounted job s w v)
  Move-IsCounted {s = s} (begin job w e) v = rw e (record {
    same_size = v.same_size;
    fits = v.fits;
    depth = depth-at s (working job) (length s.server.queue + 0) w refl v;
  })
  Move-IsCounted {s = s} (finish job outcome w e) v = rw e (finish-IsCounted job outcome s w v)

  -- Whatever moves follow the start, the queue stays within its size, which may be 0, and the gauge
  -- is its length, plus 1 while the worker has still to take its job off, less the number of senders
  -- that have still to count theirs.
  pub Moves-IsCounted :
      (E : Type 0) (cfg : Option Config) (node : Text) {t : Race}
      → Moves E (race cfg node size) t
      → IsCounted size t
  unfolding new_agent_server difference
  Moves-IsCounted E cfg node here = record {
    same_size = refl;
    fits = ground arith;
    depth = ground arith;
  }
  Moves-IsCounted E cfg node (next r m) = Move-IsCounted m (Moves-IsCounted E cfg node r)

-- ===== src/Plugin/Delegates/Chain.antt =====
-- The order in which `runDelegateDelChain` of cmd/multus-multivpc-cni/main.go undoes the chain.
use multus_multivpc_cni.Base.{
  Text, Option, none, some, List, [], ◌∷◌, ◌++◌, ok, err, ◌≡◌, refl, ap, sym, ◌∙◌,
}
use multus_multivpc_cni.Plugin.Delegates.{
  Cni, Conf, NetConf, Delegated, delegate_del, base_delegate, post_delegate, del_posts,
  run_delegate_del_chain,
}

module _ (cni : Cni) where
  -- The delegates that follow the base delegate, in the order of the configuration.
  pub posts_of : Conf cni → Text → List (Option (NetConf cni)) → List (NetConf cni)
  posts_of conf master [] = []
  posts_of conf master (none ∷ posts) = posts_of conf master posts
  posts_of conf master (some p ∷ posts) =
      post_delegate cni conf master p ∷ posts_of conf master posts

  pub backwards : List (NetConf cni) → List (NetConf cni)
  backwards [] = []
  backwards (c ∷ cs) = backwards cs ++ (c ∷ [])

  -- What follows if no error came before.
  abbrev pub after :
      Delegated cni (Unit {0}) → (cni.State → Delegated cni (Unit {0})) → Delegated cni (Unit {0})
  after (ok _, s) f = f s
  after (err e, s) f = (err e, s)

  -- Takes down one delegate after the other, up to the first that fails.
  pub take_down : List (NetConf cni) → cni.State → Delegated cni (Unit {0})
  take_down [] s = (ok tt, s)
  take_down (c ∷ cs) s = after (delegate_del cni c s) (take_down cs)

  elim-after :
      (x : Delegated cni (Unit {0})) (f : cni.State → Delegated cni (Unit {0}))
      → (elim x.0 [ err e ↦ (err e, x.1) | ok _ ↦ f x.1 ]) ≡ after x f
  elim-after (ok _, s) f = refl
  elim-after (err e, s) f = refl

  after_assoc :
      (x : Delegated cni (Unit {0})) (f g : cni.State → Delegated cni (Unit {0}))
      → after (after x f) g ≡ after x (λ s. after (f s) g)
  after_assoc (ok _, s) f g = refl
  after_assoc (err e, s) f g = refl

  after-done : (x : Delegated cni (Unit {0})) → after x (λ s. (ok tt, s)) ≡ x
  after-done (ok _, s) = refl
  after-done (err e, s) = refl

  take_down-append :
      (bs cs : List (NetConf cni)) (s : cni.State)
      → take_down (bs ++ cs) s ≡ after (take_down bs s) (take_down cs)
  unfolding take_down
  take_down-append [] cs s = refl
  take_down-append (b ∷ bs) cs s =
      ap (after (delegate_del cni b s)) (λ i t. take_down-append bs cs t i)
      ∙ sym (after_assoc (delegate_del cni b s) (take_down bs) (take_down cs))

  take_down_one : (c : NetConf cni) (s : cni.State) → take_down (c ∷ []) s ≡ delegate_del cni c s
  unfolding take_down
  take_down_one c s = after-done (delegate_del cni c s)

  del_posts-take_down :
      (conf : Conf cni) (master : Text) (posts : List (Option (NetConf cni))) (s : cni.State)
      → del_posts cni conf master posts s ≡ take_down (backwards (posts_of conf master posts)) s
  unfolding del_posts take_down posts_of backwards
  del_posts-take_down conf master [] s = refl
  del_posts-take_down conf master (none ∷ posts) s =
      elim-after (del_posts cni conf master posts s) (λ t. (ok tt, t))
      ∙ after-done (del_posts cni conf master posts s)
      ∙ del_posts-take_down conf master posts s
  del_posts-take_down conf master (some p ∷ posts) s =
      let c = post_delegate cni conf master p in
      let cs = backwards (posts_of conf master posts) in
      elim-after (del_posts cni conf master posts s) (delegate_del cni c)
      ∙ ap (λ x. after x (delegate_del cni c)) (del_posts-take_down conf master posts s)
      ∙ ap (after (take_down cs s)) (λ i t. sym (take_down_one c t) i)
      ∙ sym (take_down-append cs (c ∷ []) s)

  -- DEL takes down the configured delegates from the last of those that follow the base delegate to
  -- the first, and then the base delegate; it skips those that are nil, and stops at the first that
  -- fails.
  pub run_delegate_del_chain_lem :
      (conf : Conf cni) (master : Text) (s : cni.State)
      → run_delegate_del_chain cni conf master s
        ≡ take_down
            (backwards (base_delegate cni conf master ∷ posts_of conf master conf.post_delegates))
            s
  unfolding run_delegate_del_chain backwards
  run_delegate_del_chain_lem conf master s =
      let base = base_delegate cni conf master in
      let cs = backwards (posts_of conf master conf.post_delegates) in
      elim-after (del_posts cni conf master conf.post_delegates s) (delegate_del cni base)
      ∙ ap (λ x. after x (delegate_del cni base))
          (del_posts-take_down conf master conf.post_delegates s)
      ∙ ap (after (take_down cs s)) (λ i t. sym (take_down_one base t) i)
      ∙ sym (take_down-append cs (base ∷ []) s)

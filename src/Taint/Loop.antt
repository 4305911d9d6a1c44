-- ===== src/Taint/Loop.antt =====
-- The main loop of cmd/multivpc-taint-controller/main.go, from the settings on.
use multus_multivpc_cni.Base.{
  Result, Text, text, text_eq, some, List, [], ◌∷◌, ok, err, if◌then◌else◌, ◌≡◌, ◌≢◌, ◌⊎◌, refl,
  sym, ◌∙◌, inl, inr, arith, Result-cases, subst,
}
use multus_multivpc_cni.Base.Int.{is_positive}
use multus_multivpc_cni.Kube.Client.{ClientGo, build_kube_client}
use multus_multivpc_cni.Taint.{Taint}
use multus_multivpc_cni.Taint.Controller.{Config, Cluster, reconcile}
use multus_multivpc_cni.Taint.Env.{Env, EnvError, load_config_from_env}
use multus_multivpc_cni.Taint.Env.Laws.{load_config_from_env_lem}
use multus_multivpc_cni.Taint.Quiet.{IsQuiet}
use multus_multivpc_cni.Taint.Converges.{IsConverged, agent_pods, all_nodes, reconcile_converges}

-- How `main` ends: by a fatal error, by the panic of `time.NewTicker` on an interval that is not
-- positive, or when its context is done.
pub data Exit (E S : Type 0) : Type 0 where
  configuration_error : EnvError → Exit E S
  client_error : E → Exit E S
  ticker_panic : Exit E S
  stopping : S → Exit E S

module _ (k : Cluster) where
  -- The rounds until the context is done. Between a round and the tick that starts the next one the
  -- cluster changes by the hands of others. The state of the cluster holds the context too: when a
  -- signal ends it during a round, the calls that follow can fail, and the round goes on with what its
  -- code does then; an error of a round is logged, and the loop looks at the context after it.
  unfoldable pub rounds : Config → List (k.State → k.State) → k.State → k.State
  rounds cfg [] s = (reconcile k cfg s).1
  rounds cfg (change ∷ changes) s = rounds cfg changes (change (reconcile k cfg s).1)

  -- The state of the cluster in which the last round begins.
  pub before_last : Config → List (k.State → k.State) → k.State → k.State
  before_last cfg [] s = s
  before_last cfg (change ∷ changes) s = before_last cfg changes (change (reconcile k cfg s).1)

  rounds-before_last :
      (cfg : Config) (changes : List (k.State → k.State)) (s : k.State)
      → rounds cfg changes s ≡ (reconcile k cfg (before_last cfg changes s)).1
  unfolding rounds before_last
  rounds-before_last cfg [] s = refl
  rounds-before_last cfg (change ∷ changes) s =
      rounds-before_last cfg changes (change (reconcile k cfg s).1)

stopping_inj : {E S : Type 0} {s t : S} → ◌≡◌ {A = Exit E S} (stopping s) (stopping t) → s ≡ t
stopping_inj h = ground arith

module _ (g : ClientGo) (k : Cluster) where
  -- `buildKubeClient`, which is the agent's with the path from the environment.
  unfoldable pub build_client : Env → Result g.Error g.Client
  build_client env = build_kube_client g (env.getenv (text "KUBECONFIG"))

  -- `main`, whose client talks to the cluster.
  unfoldable pub main : Env → List (k.State → k.State) → k.State → Exit g.Error k.State
  unfolding rounds build_client
  main env changes s = elim (load_config_from_env env) [
    | err e ↦ configuration_error e
    | ok cfg ↦ elim (build_client env) [
      | err e ↦ client_error e
      | ok _ ↦
          if is_positive cfg.poll_interval then stopping (rounds k cfg changes s) else ticker_panic
    ]
  ]

  -- A state in which the controller stops: its settings were loaded, and its last round has settled
  -- the taints of each node that was known when the round began.
  pub record IsStopped (q : IsQuiet k) (env : Env) (changes : List (k.State → k.State))
      (s : k.State) (last : k.State) : Type 0 where
    pub cfg : Config
    pub loaded : load_config_from_env env ≡ ok cfg
    pub settled :
        let begun = before_last k cfg changes s in
        (name : Text) (taints : List Taint)
        → q.taints_of begun name ≡ some taints
        → (after : List Taint) × (q.taints_of last name ≡ some after)
          × IsConverged k q cfg
              (agent_pods k q cfg begun)
              (all_nodes k q cfg begun)
              name
              taints
              after

  rounds-IsStopped :
      (q : IsQuiet k) (env : Env) (changes : List (k.State → k.State)) (s : k.State) (cfg : Config)
      → load_config_from_env env ≡ ok cfg
      → IsStopped q env changes s (rounds k cfg changes s)
  rounds-IsStopped q env changes s cfg h = record {
    cfg = cfg;
    loaded = h;
    settled = λ name taints there.
        subst
          (λ last.
            (after : List Taint) × (q.taints_of last name ≡ some after)
            × IsConverged k q cfg (agent_pods k q cfg (before_last k cfg changes s))
                (all_nodes k q cfg (before_last k cfg changes s)) name taints after)
          (sym (rounds-before_last k cfg changes s))
          (let (_, after, seen, converged) =
              reconcile_converges k q cfg (before_last k cfg changes s) name taints there in
            (after, seen, converged));
  }

  main-not_loaded :
      (env : Env) (changes : List (k.State → k.State)) (s : k.State) {e : EnvError}
      → load_config_from_env env ≡ err e
      → main env changes s ≡ configuration_error e
  unfolding main
  main-not_loaded env changes s h = ground arith

  main-loaded :
      (env : Env) (changes : List (k.State → k.State)) (s : k.State) {cfg : Config}
      → load_config_from_env env ≡ ok cfg
      → ((e : g.Error) × (main env changes s ≡ client_error e))
        ⊎ (main env changes s ≡ stopping (rounds k cfg changes s))
  unfolding main
  main-loaded env changes s {cfg} h =
      let polls = ((load_config_from_env_lem env).1 cfg h).polls in
      elim (Result-cases (build_client env)) [
        | inl (e, c) ↦ inl (e, ground arith)
        | inr (_, c) ↦ inr (ground arith)
      ]

  pub main_lem :
      (q : IsQuiet k) (env : Env) (changes : List (k.State → k.State)) (s : k.State)
      → (main env changes s ≢ ticker_panic)
        × ((last : k.State) → main env changes s ≡ stopping last → IsStopped q env changes s last)
  main_lem q env changes s = elim (Result-cases (load_config_from_env env)) [
    | inl (e, h) ↦
        let f = main-not_loaded env changes s h in
        (λ p. absurd (ground arith), λ last p. absurd (ground arith))
    | inr (cfg, h) ↦ elim (main-loaded env changes s h) [
      | inl (e, f) ↦ (λ p. absurd (ground arith), λ last p. absurd (ground arith))
      | inr f ↦ (
        λ p. absurd (ground arith),
        λ last p.
            subst (IsStopped q env changes s) (stopping_inj (sym f ∙ p))
              (rounds-IsStopped q env changes s cfg h),
      )
    ]
  ]

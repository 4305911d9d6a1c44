-- ===== src/Plugin/Commands.antt =====
-- `main` of cmd/multus-multivpc-cni/main.go, which gives the three commands to the CNI library, and
-- `cmdCheck`.
use multus_multivpc_cni.Base.{ℕ, Result, ok, err}
use multus_multivpc_cni.Plugin.Delete.{DelError, load_conf, cmd_del}
use multus_multivpc_cni.Plugin.Add.{CmdArgs, AddWorld, AddError, cmd_add}

pub data Command : Type 0 where
  add check del : Command

pub data PluginError (a : AddWorld) : Type 0 where
  add_failed : AddError a → PluginError a
  check_failed : a.world.ConfError → PluginError a
  del_failed : DelError a.world.ConfError a.world.fs.Error a.world.codec.Error → PluginError a

module _ (a : AddWorld) (rounds : ℕ) where
  -- CHECK only loads the configuration.
  unfoldable pub cmd_check : CmdArgs → Result a.world.ConfError (Unit {0})
  cmd_check args = elim (load_conf a.world args.stdin_data) [ err e ↦ err e | ok _ ↦ ok tt ]

  -- The command that the runtime has asked for.
  unfoldable pub main :
      Command → CmdArgs → a.world.State → Result (PluginError a) (Unit {0}) × a.world.State
  unfolding cmd_check
  main add args s =
      let (r, s') = cmd_add a rounds args s in
      elim r [ err e ↦ (err (add_failed e), s') | ok _ ↦ (ok tt, s') ]
  main check args s = elim (cmd_check args) [
    | err e ↦ (err (check_failed e), s)
    | ok _ ↦ (ok tt, s)
  ]
  main del args s =
      let (r, s') = cmd_del a.world rounds args.stdin_data args.container_id s in
      elim r [ err e ↦ (err (del_failed e), s') | ok _ ↦ (ok tt, s') ]

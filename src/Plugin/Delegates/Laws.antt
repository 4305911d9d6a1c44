-- ===== src/Plugin/Delegates/Laws.antt =====
-- What `configureDelegate` of cmd/multus-multivpc-cni/main.go sets.
use multus_multivpc_cni.Base.{
  Text, text, text_eq, not, ◌&&◌, Option, none, some, [], ◌==◌, if◌then◌else◌, ◌≡◌, ap, ◌∙◌, arith,
  Option-cases, inl, inr,
}
use multus_multivpc_cni.Base.Dict.{Dict, lookup, lookup-insert}
use multus_multivpc_cni.Plugin.Conf.{Value, string, object, PluginConf, plugin_name}
use multus_multivpc_cni.Plugin.Delegates.{
  or_empty, set_missing, derive_delegate_name, with_conf, with_master, configure_delegate,
}

-- A value, or another one in its place where it is missing.
abbrev pub or_else : {V : Type 0} → Option V → Option V → Option V
or_else none d = d
or_else (some v) d = some v

lookup-set_missing :
    {V : Type 0} (k key : Text) (v : V) (d : Dict V)
    → lookup k (set_missing key v d) ≡ or_else (lookup k d) (if k == key then some v else none)
unfolding set_missing
lookup-set_missing k key v d = ground (arith, lookup-insert k key v d)

module _ {R : Type 0} where
  -- What the plugin puts under a key that a delegate leaves out.
  pub default_of : PluginConf R → Text → Text → Option (Value R)
  default_of conf name k =
      if k == text "type"
      then some (string (text "ipvlan"))
      else if k == text "name"
      then some (string (if name == [] then plugin_name else name))
      else if k == text "cniVersion" && not (conf.cni_version == [])
      then some (string conf.cni_version)
      else if k == text "runtimeConfig"
      then elim conf.runtime_config [ none ↦ none | some rc ↦ some (object rc) ]
      else none

  conf_default : PluginConf R → Text → Option (Value R)
  conf_default conf k =
      if k == text "cniVersion" && not (conf.cni_version == [])
      then some (string conf.cni_version)
      else if k == text "runtimeConfig"
      then elim conf.runtime_config [ none ↦ none | some rc ↦ some (object rc) ]
      else none

  lookup-with_conf :
      (current : Text) (conf : PluginConf R) (k : Text) (d : Dict (Value R))
      → lookup k (with_conf current (some conf) d) ≡ or_else (lookup k d) (conf_default conf k)
  unfolding with_conf conf_default
  lookup-with_conf current conf k d =
      let version : Value R = string conf.cni_version in
      let versioned = set_missing (text "cniVersion") version d in
      let first = lookup-set_missing k (text "cniVersion") version d in
      elim (Option-cases conf.runtime_config) [
        | inl e ↦ ground (arith, first)
        | inr (rc, e) ↦ ground (
          arith,
          first,
          lookup-set_missing k (text "runtimeConfig") (object rc) d,
          lookup-set_missing k (text "runtimeConfig") (object rc) versioned,
        )
      ]

  lookup-with_master :
      (master k : Text) (d : Dict (Value R))
      → lookup k (with_master master d)
        ≡ (if k == text "master" && not (master == []) then some (string master) else lookup k d)
  lookup-with_master master k d = ground (arith, lookup-insert k (text "master") (string master) d)

  defaults :
      (conf : PluginConf R) (master name k : Text) (found : Option (Value R))
      → or_else
          (if k == text "master" && not (master == [])
            then some (string master)
            else or_else
                (or_else found (if k == text "type" then some (string (text "ipvlan")) else none))
                (if k == text "name"
                  then some (string (derive_delegate_name (some conf) name))
                  else none))
          (conf_default conf k)
        ≡ (if k == text "master" && not (master == [])
            then some (string master)
            else or_else found (default_of conf name k))
  unfolding derive_delegate_name conf_default default_of
  defaults conf master name k none = ground arith
  defaults conf master name k (some v) = ground arith

  -- Under each key the configured delegate has: the master's name for `master`, if the plugin knows it;
  -- else what the delegate says; and where it says nothing, the plugin's default for the type, the
  -- name, the version and the runtime configuration, and nothing under other keys.
  pub configure_delegate_lem :
      (current : Text) (conf : PluginConf R) (master : Text) (delegate : Option (Dict (Value R)))
      (name k : Text)
      → lookup k (configure_delegate current (some conf) master delegate name) ≡ (
          if k == text "master" && not (master == [])
          then some (string master)
          else or_else (lookup k (or_empty delegate)) (default_of conf name k))
  unfolding configure_delegate
  configure_delegate_lem current conf master delegate name k =
      let given = or_empty delegate in
      let kind : Value R = string (text "ipvlan") in
      let called : Value R = string (derive_delegate_name (some conf) name) in
      let typed = set_missing (text "type") kind given in
      let named = set_missing (text "name") called typed in
      lookup-with_conf current conf k (with_master master named)
      ∙ ap (λ x. or_else x (conf_default conf k))
          (lookup-with_master master k named
            ∙ ap (λ x. if k == text "master" && not (master == []) then some (string master) else x)
                (lookup-set_missing k (text "name") called typed
                  ∙ ap (λ x. or_else x (if k == text "name" then some called else none))
                      (lookup-set_missing k (text "type") kind given)))
      ∙ defaults conf master name k (lookup k given)

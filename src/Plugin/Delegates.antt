-- ===== src/Plugin/Delegates.antt =====
-- The delegates of cmd/multus-multivpc-cni/main.go: `configureDelegate`, `delegateAdd`,
-- `delegateDel`, `runDelegateChain` and `runDelegateDelChain`.
pub mod Laws
pub mod Chain
use multus_multivpc_cni.Base.{
  Text, text, text_eq, Bool, true, false, not, Option, none, some, List, [], ◌∷◌, Result, ok, err,
  ◌==◌, if◌then◌else◌,
}
use multus_multivpc_cni.Base.Dict.{Dict, lookup, insert}
use multus_multivpc_cni.Plugin.Conf.{
  Value, string, object, result, as_string, PluginConf, plugin_name,
}

abbrev pub ipvlan_delegate_name : Text
ipvlan_delegate_name = text "multivpc-ipvlan"

abbrev pub sbr_delegate_name : Text
sbr_delegate_name = text "multivpc-sbr"

abbrev pub is_none : {A : Type 0} → Option A → Bool
is_none none = true
is_none (some _) = false

-- A shallow copy; in the model no two maps share their entries.
abbrev pub deep_copy_map : {V : Type 0} → Option (Dict V) → Option (Dict V)
deep_copy_map src = src

abbrev pub or_empty : {V : Type 0} → Option (Dict V) → Dict V
or_empty none = []
or_empty (some d) = d

-- Sets a key that is not there yet.
unfoldable pub set_missing : {V : Type 0} → Text → V → Dict V → Dict V
set_missing key value d = elim (lookup key d) [ none ↦ insert key value d | some _ ↦ d ]

module _ {R : Type 0} where
  -- `none` is a nil configuration.
  unfoldable pub derive_delegate_name : Option (PluginConf R) → Text → Text
  derive_delegate_name none name = if not (name == []) then name else plugin_name
  derive_delegate_name (some _) name = if not (name == []) then name else plugin_name

  -- The part that hangs on the plugin's configuration.
  unfoldable pub with_conf : Text → Option (PluginConf R) → Dict (Value R) → Dict (Value R)
  unfolding set_missing
  with_conf current none out = set_missing (text "cniVersion") (string current) out
  with_conf current (some conf) out =
      let versioned =
        if not (conf.cni_version == [])
        then set_missing (text "cniVersion") (string conf.cni_version) out
        else out in
      elim conf.runtime_config [
        | none ↦ versioned
        | some rc ↦ set_missing (text "runtimeConfig") (object rc) versioned
      ]

  abbrev pub with_master : Text → Dict (Value R) → Dict (Value R)
  with_master master out =
      if not (master == []) then insert (text "master") (string master) out else out

  -- `current` is the CNI library's `version.Current()`.
  unfoldable pub configure_delegate :
      Text → Option (PluginConf R) → Text → Option (Dict (Value R)) → Text → Dict (Value R)
  unfolding set_missing derive_delegate_name with_conf
  configure_delegate current conf master delegate name =
      let out = or_empty (deep_copy_map delegate) in
      let typed = set_missing (text "type") (string (text "ipvlan")) out in
      let named = set_missing (text "name") (string (derive_delegate_name conf name)) typed in
      with_conf current conf (with_master master named)

  -- The default name of a delegate that follows the first one.
  unfoldable pub post_name : Dict (Value R) → Text
  post_name next = elim (as_string (lookup (text "type") next)) [
    | none ↦ plugin_name
    | some typ ↦ if typ == text "sbr" then sbr_delegate_name else plugin_name
  ]

  -- The type of a delegate; empty if it has none that is a string.
  unfoldable pub plugin_type : Dict (Value R) → Text
  plugin_type conf = elim (as_string (lookup (text "type") conf)) [ none ↦ [] | some typ ↦ typ ]

-- The CNI library and `json.Marshal`, over the state of the host. `Res` is `types.Result`, and
-- `Current` the result of the current version, whose version can be set.
pub record Cni : Type 1 where
  pub State : Type 0
  pub Error : Type 0
  pub Res : Type 0
  pub Current : Type 0
  pub version : Text
  pub new_result : Res → Result Error Current
  pub set_version : Text → Current → Current
  pub marshal : Dict (Value Current) → Result Error Text
  pub delegate_add : Text → Text → State → Result Error Res × State
  pub delegate_del : Text → Text → State → Result Error (Unit {0}) × State

pub data DelegateError (E : Type 0) : Type 0 where
  type_required : DelegateError E
  marshal_delegate invoke_delegate : E → DelegateError E

module _ (cni : Cni) where
  abbrev pub Conf : Type 0
  Conf = PluginConf cni.Current

  abbrev pub NetConf : Type 0
  NetConf = Dict (Value cni.Current)

  abbrev pub Delegated : Type 0 → Type 0
  Delegated A = Result (DelegateError cni.Error) A × cni.State

  unfoldable pub convert_result : cni.Res → Text → Option cni.Current
  convert_result res cni_version = elim (cni.new_result res) [
    | err _ ↦ none
    | ok cur ↦ some (cni.set_version cni_version cur)
  ]

  -- The plugin calls it without a previous result.
  unfoldable pub delegate_add : NetConf → cni.State → Delegated cni.Res
  unfolding plugin_type
  delegate_add conf s =
      if plugin_type conf == [] then (err type_required, s) else elim (cni.marshal conf) [
        | err e ↦ (err (marshal_delegate e), s)
        | ok netconf ↦
            let (r, s') = cni.delegate_add (plugin_type conf) netconf s in
            elim r [ err e ↦ (err (invoke_delegate e), s') | ok res ↦ (ok res, s') ]
      ]

  unfoldable pub delegate_del : NetConf → cni.State → Delegated (Unit {0})
  unfolding plugin_type
  delegate_del conf s =
      if plugin_type conf == [] then (err type_required, s) else elim (cni.marshal conf) [
        | err e ↦ (err (marshal_delegate e), s)
        | ok netconf ↦
            let (r, s') = cni.delegate_del (plugin_type conf) netconf s in
            elim r [ err e ↦ (err (invoke_delegate e), s') | ok _ ↦ (ok tt, s') ]
      ]

  -- The first delegate, and one of those that follow it.
  unfoldable pub base_delegate : Conf → Text → NetConf
  unfolding configure_delegate
  base_delegate conf master =
      configure_delegate cni.version (some conf) master
        (some (or_empty (deep_copy_map conf.delegate))) ipvlan_delegate_name

  unfoldable pub post_delegate : Conf → Text → NetConf → NetConf
  unfolding configure_delegate post_name
  post_delegate conf master post =
      configure_delegate cni.version (some conf) master (some post) (post_name post)

  abbrev pub with_previous : Conf → cni.Res → NetConf → NetConf
  with_previous conf res next =
      insert (text "prevResult") (result (convert_result res conf.cni_version)) next

  -- The loop of `runDelegateChain`; a nil map is skipped.
  unfoldable pub add_posts :
      Conf → Text → List (Option NetConf) → cni.Res → cni.State → Delegated cni.Res
  unfolding delegate_add post_delegate
  add_posts conf master [] res s = (ok res, s)
  add_posts conf master (none ∷ posts) res s = add_posts conf master posts res s
  add_posts conf master (some post ∷ posts) res s =
      let (r, s') = delegate_add (with_previous conf res (post_delegate conf master post)) s in
      elim r [ err e ↦ (err e, s') | ok res' ↦ add_posts conf master posts res' s' ]

  unfoldable pub run_delegate_chain : Conf → Text → cni.State → Delegated cni.Res
  unfolding delegate_add base_delegate add_posts
  run_delegate_chain conf master s =
      let (r, s') = delegate_add (base_delegate conf master) s in
      elim r [ err e ↦ (err e, s') | ok res ↦ add_posts conf master conf.post_delegates res s' ]

  -- The loop of `runDelegateDelChain`, which counts down: the later delegates come first.
  unfoldable pub del_posts : Conf → Text → List (Option NetConf) → cni.State → Delegated (Unit {0})
  unfolding delegate_del post_delegate
  del_posts conf master [] s = (ok tt, s)
  del_posts conf master (post ∷ posts) s =
      let (r, s') = del_posts conf master posts s in
      elim r [
        | err e ↦ (err e, s')
        | ok _ ↦ elim post [
          | none ↦ (ok tt, s')
          | some p ↦ delegate_del (post_delegate conf master p) s'
        ]
      ]

  unfoldable pub run_delegate_del_chain : Conf → Text → cni.State → Delegated (Unit {0})
  unfolding delegate_del base_delegate del_posts
  run_delegate_del_chain conf master s =
      let (r, s') = del_posts conf master conf.post_delegates s in
      elim r [ err e ↦ (err e, s') | ok _ ↦ delegate_del (base_delegate conf master) s' ]

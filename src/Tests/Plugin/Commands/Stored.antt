-- ===== src/Tests/Plugin/Commands/Stored.antt =====
-- DEL of cmd/multus-multivpc-cni/main.go after ADD, on a disk with room for one file.
use multus_multivpc_cni.Base.{
  ℕ, Text, text, text_eq, nat_eq, Bool, true, false, ◌&&◌, Option, none, some, List, [], ◌∷◌,
  Result, ok, err, ◌==◌, if◌then◌else◌, ◌≡◌, ◌⊎◌, inl, refl, sym, subst, ◌∙◌, ap, arith, All,
}
use mathlib.Core.Path.{subst₂}
use multus_multivpc_cni.Base.Dict.{lookup, insert}
use multus_multivpc_cni.Plugin.Names.{match_container, cache_file_name}
use multus_multivpc_cni.Plugin.Cache.{CacheEntry, FileSystem, Codec, write_cache_entry}
use multus_multivpc_cni.Plugin.Cache.Laws.{names_of}
use multus_multivpc_cni.Plugin.Cache.Stored.{IsDisk, AreDecoded, put}
use multus_multivpc_cni.Plugin.Conf.{
  PluginConf, with_defaults, load_config, resolve_network_profile,
}
use multus_multivpc_cni.Plugin.Times.{poll_interval}
use multus_multivpc_cni.Plugin.Calls.{
  call_report, poll_attached_state, wait_for_attached_state, wait_for_host_interface,
}
use multus_multivpc_cni.Plugin.Delegates.{run_delegate_chain}
use multus_multivpc_cni.Plugin.Details.{collect_interface_details}
use multus_multivpc_cni.Netns.{inspect_interface}
use multus_multivpc_cni.Plugin.Delete.Laws.{IsDeleted}
use multus_multivpc_cni.Plugin.Delete.{load_conf, dial_agent, cmd_del}
use multus_multivpc_cni.Plugin.Add.{CmdArgs, KubernetesArgs, AddWorld, interface_of, cmd_add}
use multus_multivpc_cni.Plugin.Add.Laws.{IsAdded, cmd_add_lem}
use multus_multivpc_cni.Plugin.Add.Undo.{IsSeparate, entry_added, file_of, cmd_del-cmd_add}
use multus_multivpc_cni.Tests.Plugin.{entry, cni, empty_conf}
use multus_multivpc_cni.Tests.Plugin.Commands.{host}
use multus_multivpc_cni.Tests.Plugin.Commands.Add.{no_namespaces}

abbrev the_name : Text
the_name = text "uid-1_net1_c1.cache"

-- The state is the contents of the file, if it is there.
abbrev kept_files : Option Text → List (Text × Text)
kept_files none = []
kept_files (some bytes) = (the_name, bytes) ∷ []

abbrev store : Text → Text → Option Text → Result Text (Unit {0}) × Option Text
store name bytes s = if name == the_name then (ok tt, some bytes) else (err (text "no space"), s)

abbrev fetch : Text → Option Text → Result Text Text
fetch name none = err (text "missing")
fetch name (some bytes) = if name == the_name then ok bytes else err (text "missing")

abbrev names : Option Text → List Text
names none = []
names (some _) = the_name ∷ []

abbrev disk : FileSystem
disk = record {
  State = Option Text;
  Error = Text;
  mkdir_all = λ dir s. (ok tt, s);
  read_dir = λ dir s. (ok (names s), s);
  read_file = λ dir name s. (fetch name s, s);
  write_file = λ dir name bytes s. store name bytes s;
  remove = λ dir name s. (ok tt, none);
  is_not_exist = λ e. false;
}

-- The encoding of the entries that differ in the interface alone.
abbrev is_plain : CacheEntry → Bool
is_plain e =
    e.pod_uid == (entry []).pod_uid
    && e.pod_name == (entry []).pod_name
    && e.namespace == (entry []).namespace
    && e.network_profile == (entry []).network_profile
    && e.container_id == (entry []).container_id

abbrev plain : Codec
plain = record {
  Error = Text;
  marshal = λ e. if is_plain e then ok e.interface_name else err (text "not plain");
  unmarshal = λ bytes. ok (entry bytes);
}

store_name :
    (name bytes : Text) (s : Option Text) → (store name bytes s).0 ≡ ok tt → name ≡ the_name
store_name name bytes s h = ground arith

store-the_name :
    (bytes : Text) (s : Option Text)
    → kept_files (store the_name bytes s).1 ≡ put the_name bytes (kept_files s)
unfolding put text_eq nat_eq
store-the_name bytes none = refl
store-the_name bytes (some old) = refl

store-put :
    (name bytes : Text) (s : Option Text)
    → (store name bytes s).0 ≡ ok tt
    → kept_files (store name bytes s).1 ≡ put name bytes (kept_files s)
store-put name bytes s h =
    subst (λ n. kept_files (store n bytes s).1 ≡ put n bytes (kept_files s))
      (sym (store_name name bytes s h)) (store-the_name bytes s)

kept_listed : (s : Option Text) → names s ≡ names_of (kept_files s)
kept_listed none = refl
kept_listed (some bytes) = refl

kept_readable : (s : Option Text) → All (λ f. disk.read_file [] f.0 s ≡ (ok f.1, s)) (kept_files s)
kept_readable none = tt
kept_readable (some bytes) = (ground arith, tt)

plain_entry : (e : CacheEntry) (bytes : Text) → plain.marshal e ≡ ok bytes → entry bytes ≡ e
plain_entry e bytes h = ground arith

abbrev disk-IsDisk : (dir : Text) → IsDisk disk plain dir
disk-IsDisk dir = record {
  files_of = kept_files;
  made = λ s. refl;
  written = λ name bytes s h. store-put name bytes s h;
  listed = λ s. ap (λ ns. (ok ns, s)) (kept_listed s);
  readable = λ s. kept_readable s;
  unmarshalled = λ e bytes h. ap ok (plain_entry e bytes h);
}

abbrev green_conf : PluginConf (Unit {0})
green_conf = record empty_conf { network_profile = text "green" }

abbrev web_args : KubernetesArgs
web_args = record {
  pod_name = text "web";
  pod_namespace = text "default";
  pod_uid = text "uid-1";
  node_name = text "node-a";
}

abbrev stored_world : AddWorld
stored_world = record {
  world = record {
    State = Option Text × (ℕ × ℕ);
    host = host;
    cni = cni;
    fs = disk;
    codec = plain;
    host_of = λ (f, (c, h)). h;
    with_host = λ h (f, (c, _)). (f, (c, h));
    cni_of = λ (f, (c, h)). c;
    with_cni = λ c (f, (_, h)). (f, (c, h));
    fs_of = λ (f, (c, h)). f;
    with_fs = λ f (_, (c, h)). (f, (c, h));
    ConfError = Text;
    unmarshal = λ stdin. ok green_conf;
    unmarshal_map = λ stdin. ok none;
    new_client = λ target s. (true, s);
    with_timeout = λ parent timeout s. tt;
  };
  Error = Text;
  load_args = λ args. ok web_args;
  ns = no_namespaces;
  ns_of = λ s. tt;
  with_ns = λ n s. s;
  current = λ res. ok (record { interfaces = []; ips = [] });
  ip_string = λ ip. ip;
  mac_string = λ mac. mac;
  print_result = λ res version s. (ok tt, s);
}

abbrev add_args : CmdArgs
add_args = record {
  stdin_data = text "{}";
  if_name = text "net1";
  args = [];
  container_id = text "c1";
  netns = text "/ns";
}

abbrev before : Option Text × (ℕ × ℕ)
before = (none, (0, 3))

abbrev after : Option Text × (ℕ × ℕ)
after = (some (text "net1"), (2, 2))

added : cmd_add stored_world 4 add_args before ≡ (ok tt, after)
unfolding cmd_add load_conf load_config dial_agent inspect_interface resolve_network_profile
    call_report wait_for_attached_state poll_attached_state wait_for_host_interface poll_interval
    run_delegate_chain collect_interface_details write_cache_entry cache_file_name text_eq nat_eq
    lookup insert
added = refl

added-IsAdded : IsAdded stored_world 4 add_args before after
added-IsAdded = cmd_add_lem stored_world 4 add_args before added

abbrev loaded_conf : PluginConf (Unit {0})
loaded_conf = with_defaults (text "1.0.0") green_conf

green_loaded : load_conf stored_world.world (text "{}") ≡ ok loaded_conf
unfolding load_conf load_config
green_loaded = refl

green_name :
    cache_file_name web_args.pod_uid
      (interface_of stored_world 4 add_args loaded_conf)
      add_args.container_id
    ≡ the_name
unfolding cache_file_name text_eq nat_eq
green_name = refl

ok_inj : {E A : Type 0} {x y : A} → ◌≡◌ {A = Result E A} (ok x) (ok y) → x ≡ y
ok_inj h = ground arith

the_file : file_of stored_world 4 (entry_added stored_world 4 added-IsAdded) ≡ the_name
the_file =
    subst₂
      (λ conf k8s.
        cache_file_name (k8s.pod_uid) (interface_of stored_world 4 add_args conf)
          add_args.container_id
        ≡ the_name)
      (ok_inj (sym green_loaded ∙ added-IsAdded.loaded)) (ok_inj added-IsAdded.parsed) green_name

abbrev decoded : Option Text → List (Text × CacheEntry)
decoded none = []
decoded (some bytes) = (the_name, entry bytes) ∷ []

decoded-AreDecoded : (s : Option Text) → AreDecoded plain (decoded s) (kept_files s)
decoded-AreDecoded none = tt
decoded-AreDecoded (some bytes) = (refl, refl, tt)

only_file :
    (s : Option Text) {name : Text}
    → name ≡ the_name
    → All (λ f. (f.0 ≡ name) ⊎ (match_container f.1.container_id (text "c1") ≡ false)) (decoded s)
only_file none e = tt
only_file (some bytes) e = (inl (sym e), tt)

abbrev separate : IsSeparate stored_world 4
separate = record { get = λ f s. refl; set = λ f g s. refl; prints = λ res version s. refl }

cmd_del-cmd_add_example :
    IsDeleted stored_world.world 4 added-IsAdded.conf
      (some (
        file_of stored_world 4 (entry_added stored_world 4 added-IsAdded),
        entry_added stored_world 4 added-IsAdded,
      ))
      after
      (cmd_del stored_world.world 4 (text "{}") (text "c1") after)
cmd_del-cmd_add_example =
    cmd_del-cmd_add stored_world 4 separate add_args before added-IsAdded
      (decoded added-IsAdded.done.s7.0) (disk-IsDisk added-IsAdded.conf.cache_dir) (ground arith)
      (decoded-AreDecoded added-IsAdded.done.s7.0) (only_file added-IsAdded.done.s7.0 the_file)

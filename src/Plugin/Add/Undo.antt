-- ===== src/Plugin/Add/Undo.antt =====
-- That DEL of cmd/multus-multivpc-cni/main.go takes down what ADD has set up.
use multus_multivpc_cni.Base.{
  ℕ, Text, text_eq, List, [], false, true, some, ok, arith, ◌≡◌, ◌≢◌, ◌⊎◌, All, sym, subst, ◌∙◌,
}
use multus_multivpc_cni.Base.Programs.{check_ok}
use multus_multivpc_cni.Plugin.Names.{match_container, cache_file_name}
use multus_multivpc_cni.Plugin.Conf.{resolve_network_profile}
use multus_multivpc_cni.Plugin.Cache.{CacheEntry, write_cache_entry}
use multus_multivpc_cni.Plugin.Cache.Stored.{IsDisk, AreDecoded}
use multus_multivpc_cni.Base.Int.{is_positive}
use multus_multivpc_cni.Agent.Messages.{ReportRequest, InterfaceState}
use multus_multivpc_cni.Plugin.Times.{poll_interval}
use multus_multivpc_cni.Plugin.Calls.{wait_for_attached_state}
use multus_multivpc_cni.Plugin.Delete.{cmd_del}
use multus_multivpc_cni.Plugin.Delete.Laws.{IsDeleted, cmd_del-write}
use multus_multivpc_cni.Plugin.Add.{
  CmdArgs, AddWorld, Conf, cache_failed, print_failed, interface_of, prep_request, write_cache,
  print, wait_for_state,
}
use multus_multivpc_cni.Plugin.Add.Laws.{IsAdded}

module _ (a : AddWorld) (rounds : ℕ) where
  -- The world's file system is read and written apart from the rest, and printing the result leaves
  -- the world as it is.
  pub record IsSeparate : Type 0 where
    pub get : (f : a.world.fs.State) (s : a.world.State) → a.world.fs_of (a.world.with_fs f s) ≡ f
    pub set :
        (f g : a.world.fs.State) (s : a.world.State)
        → a.world.with_fs g (a.world.with_fs f s) ≡ a.world.with_fs g s
    pub prints :
        (res : a.world.cni.Res) (version : Text) (s : a.world.State)
        → (a.print_result res version s).1 ≡ s

  -- The entry that ADD has cached, of the Pod's interface that it has reported, and its file.
  abbrev pub entry_added :
      {args : CmdArgs} {s t : a.world.State} → IsAdded a rounds args s t → CacheEntry
  entry_added {args} i = record {
    pod_uid = i.k8s.pod_uid;
    pod_name = i.k8s.pod_name;
    namespace = i.k8s.pod_namespace;
    network_profile = resolve_network_profile i.conf args.args;
    interface_name = interface_of a rounds args i.conf;
    container_id = args.container_id;
  }

  abbrev pub file_of : CacheEntry → Text
  file_of entry = cache_file_name entry.pod_uid entry.interface_name entry.container_id

  printed_same :
      (sep : IsSeparate) (conf : Conf a rounds) (res : a.world.cni.Res) (s t : a.world.State)
      → print a rounds conf res s ≡ (ok tt, t)
      → s ≡ t
  printed_same sep conf res s t h =
      sym (sep.prints res conf.cni_version s)
      ∙ (check_ok print_failed (a.print_result res conf.cni_version s).0 _ t h).1

  write_cache_ok :
      (conf : Conf a rounds) (entry : CacheEntry) (s t : a.world.State)
      → write_cache a rounds conf entry s ≡ (ok tt, t)
      → let p = write_cache_entry a.world.fs a.world.codec conf.cache_dir entry (a.world.fs_of s) in
        (p.0 ≡ ok tt) × (a.world.with_fs p.1 s ≡ t)
  write_cache_ok conf entry s t h =
      let (r, f) =
        write_cache_entry a.world.fs a.world.codec conf.cache_dir entry (a.world.fs_of s) in
      check_ok cache_failed r (a.world.with_fs f s) t h

  -- A wait that has returned had a ticker.
  waited_positive :
      (conf : Conf a rounds) (ctx : a.world.host.Context) (prep : ReportRequest)
      (s t : a.world.State) {st : InterfaceState}
      → wait_for_state a rounds conf ctx prep s ≡ (ok st, t)
      → is_positive (poll_interval conf) ≡ true
  unfolding wait_for_attached_state
  waited_positive conf ctx prep s t h = ground arith

  -- After an ADD that has succeeded, DEL of its container with the same configuration finds the
  -- cached result of this ADD: it takes down the delegates and, if it can dial the agent, asks it to
  -- release the interface of the Pod, under the name and the profile, that ADD has worked on, and then
  -- removes the file. This is so if the container's id is not empty and if, when ADD wrote its result,
  -- the cache directory held readable entries, of other containers in all other files.
  pub cmd_del-cmd_add :
      (sep : IsSeparate) (args : CmdArgs) (s : a.world.State) {t : a.world.State}
      (added : IsAdded a rounds args s t) (files : List (Text × CacheEntry))
      (d : IsDisk a.world.fs a.world.codec added.conf.cache_dir)
      → args.container_id ≢ []
      → AreDecoded a.world.codec files (d.files_of (a.world.fs_of added.done.s7))
      → All
          (λ f.
            (f.0 ≡ file_of (entry_added added))
            ⊎ (match_container f.1.container_id args.container_id ≡ false))
          files
      → IsDeleted a.world rounds added.conf
          (some (file_of (entry_added added), entry_added added))
          t
          (cmd_del a.world rounds args.stdin_data args.container_id t)
  cmd_del-cmd_add sep args s {t} added files d given decoded others =
      let done = added.done in
      let (written, same) =
        write_cache_ok added.conf (entry_added added) done.s7 done.s8 done.cached in
      let deleted =
        cmd_del-write a.world rounds args.stdin_data done.s7 added.conf (entry_added added) files d
          added.loaded
          (waited_positive added.conf done.ctx
            (prep_request a rounds args added.k8s (interface_of a rounds args added.conf)
              (resolve_network_profile added.conf args.args))
            done.s2 done.s3 done.attached)
          (λ f. sep.get f done.s7) (λ f g. sep.set f g done.s7) given decoded others written in
      subst
        (λ x.
          IsDeleted a.world rounds added.conf
            (some (file_of (entry_added added), entry_added added)) x
            (cmd_del a.world rounds args.stdin_data args.container_id x))
        (same ∙ printed_same sep added.conf done.res done.s8 t done.printed) deleted

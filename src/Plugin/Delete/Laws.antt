-- ===== src/Plugin/Delete/Laws.antt =====
-- How `cmdDel` of cmd/multus-multivpc-cni/main.go ends.
use multus_multivpc_cni.Base.{
  ℕ, Text, text_eq, Option, none, some, List, [], false, ok, ◌≡◌, ◌≢◌, ◌⊎◌, All, subst, sym, ◌∙◌,
  ap, refl, arith,
}
use multus_multivpc_cni.Plugin.Names.{match_container, cache_file_name}
use multus_multivpc_cni.Plugin.Names.Laws.{match_container_iff}
use multus_multivpc_cni.Plugin.Cache.{CacheEntry, write_cache_entry, read_cache_entry}
use multus_multivpc_cni.Plugin.Cache.Stored.{
  IsDisk, AreDecoded, put, first_match-put, write-IsCache,
}
use multus_multivpc_cni.Plugin.Cache.Laws.{IsCache, first_match, answer, read_cache_entry_lem}
use multus_multivpc_cni.Base.{◌↔◌}
use multus_multivpc_cni.Base.Int.{is_positive}
use multus_multivpc_cni.Base.{true}
use multus_multivpc_cni.Plugin.Times.{poll_interval}
use multus_multivpc_cni.Plugin.Calls.{}
use multus_multivpc_cni.Plugin.Calls.Laws.{}
use multus_multivpc_cni.Plugin.Delete.{
  World, load_conf, Conf, Deleted, del_found, remove_cached, del_loaded, cmd_del,
}
use multus_multivpc_cni.Plugin.Delete.Calm.{del_found_ok}
use multus_multivpc_cni.Plugin.Delete.TornDown.{IsTornDown, del_found-IsTornDown}

module _ (w : World) (rounds : ℕ) where
  -- What is left to do for the cached result that was found.
  pub finish_del : Conf w rounds → Option (Text × CacheEntry) → w.State → Deleted w rounds
  finish_del conf none s = (ok tt, s)
  finish_del conf (some (name, entry)) s =
      remove_cached w rounds conf name (del_found w rounds conf entry s).1

  del_loaded-finish_del :
      (conf : Conf w rounds) (container_id : Text) (s : w.State)
      (found : Option (Text × CacheEntry))
      → is_positive (poll_interval conf) ≡ true
      → w.with_fs (w.fs_of s) s ≡ s
      → read_cache_entry w.fs w.codec conf.cache_dir container_id (w.fs_of s)
        ≡ answer w.fs w.codec conf.cache_dir found (w.fs_of s)
      → del_loaded w rounds conf container_id s ≡ finish_del conf found s
  unfolding del_loaded finish_del
  del_loaded-finish_del conf container_id s none k kept e = ground arith
  del_loaded-finish_del conf container_id s (some (name, entry)) k kept e =
      ground (arith, del_found_ok w rounds conf entry s k)

  cmd_del-finish_del :
      (stdin container_id : Text) (s : w.State) (conf : Conf w rounds)
      (files : List (Text × CacheEntry))
      → load_conf w stdin ≡ ok conf
      → is_positive (poll_interval conf) ≡ true
      → w.with_fs (w.fs_of s) s ≡ s
      → IsCache w.fs w.codec conf.cache_dir (w.fs_of s) files
      → cmd_del w rounds stdin container_id s ≡ finish_del conf (first_match container_id files) s
  unfolding cmd_del
  cmd_del-finish_del stdin container_id s conf files loaded k kept cache =
      rw (loaded, cmd_del)
        (del_loaded-finish_del conf container_id s (first_match container_id files) k kept
          (read_cache_entry_lem w.fs w.codec conf.cache_dir container_id (w.fs_of s) files cache))

  -- How a DEL ends that finds no cached result, or the one in a file: this is removed after the rest,
  -- and the removal alone decides over success.
  abbrev pub IsDeleted :
      Conf w rounds → Option (Text × CacheEntry) → w.State → Deleted w rounds → Type 0
  IsDeleted conf none s x = x ≡ (ok tt, s)
  IsDeleted conf (some (name, entry)) s x =
      (t : w.State) × IsTornDown w rounds conf entry s t
      × (let (r, f) = w.fs.remove conf.cache_dir name (w.fs_of t) in
          (x.1 ≡ w.with_fs f t) × ((x.0 ≡ ok tt) ↔ (r ≡ ok tt)))

  finish_del-IsDeleted :
      (conf : Conf w rounds) (found : Option (Text × CacheEntry)) (s : w.State)
      → is_positive (poll_interval conf) ≡ true
      → IsDeleted conf found s (finish_del conf found s)
  unfolding finish_del remove_cached
  finish_del-IsDeleted conf none s k = refl
  finish_del-IsDeleted conf (some (name, entry)) s k =
      let t = (del_found w rounds conf entry s).1 in
      let (r, f) = w.fs.remove conf.cache_dir name (w.fs_of t) in
      (t, del_found-IsTornDown w rounds conf entry s k, (ground arith, ground arith))

  -- With a configuration that loads and whose poll interval is positive, and with a cache of readable
  -- entries, DEL without a matching entry succeeds and calls nothing. With one it takes down the
  -- delegates and, if the agent can be dialled, asks the agent to release the interface of the entry;
  -- whatever comes of both, its last act is the removal of the entry's file, on which alone its
  -- success depends.
  pub cmd_del_lem :
      (stdin container_id : Text) (s : w.State) (conf : Conf w rounds)
      (files : List (Text × CacheEntry))
      → load_conf w stdin ≡ ok conf
      → is_positive (poll_interval conf) ≡ true
      → w.with_fs (w.fs_of s) s ≡ s
      → IsCache w.fs w.codec conf.cache_dir (w.fs_of s) files
      → IsDeleted conf (first_match container_id files) s (cmd_del w rounds stdin container_id s)
  cmd_del_lem stdin container_id s conf files loaded k kept cache =
      subst (IsDeleted conf (first_match container_id files) s)
        (sym (cmd_del-finish_del stdin container_id s conf files loaded k kept cache))
        (finish_del-IsDeleted conf (first_match container_id files) s k)

  -- The result that ADD has cached for a container makes DEL of that container tear down and tell the
  -- agent of exactly the entry that was written, and then remove its file, as long as the id of the
  -- container is not empty, the directory holds readable entries and every other entry is of another
  -- container. The disk is one that keeps what is written, and the configuration
  -- loads and has a positive poll interval.
  pub cmd_del-write :
      (stdin : Text) (s : w.State) (conf : Conf w rounds) (entry : CacheEntry)
      (files : List (Text × CacheEntry)) (d : IsDisk w.fs w.codec conf.cache_dir)
      → load_conf w stdin ≡ ok conf
      → is_positive (poll_interval conf) ≡ true
      → ((f : w.fs.State) → w.fs_of (w.with_fs f s) ≡ f)
      → ((f g : w.fs.State) → w.with_fs g (w.with_fs f s) ≡ w.with_fs g s)
      → entry.container_id ≢ []
      → AreDecoded w.codec files (d.files_of (w.fs_of s))
      → All
          (λ f.
            (f.0 ≡ cache_file_name entry.pod_uid entry.interface_name entry.container_id)
            ⊎ (match_container f.1.container_id entry.container_id ≡ false))
          files
      → (write_cache_entry w.fs w.codec conf.cache_dir entry (w.fs_of s)).0 ≡ ok tt
      → let s' = w.with_fs (write_cache_entry w.fs w.codec conf.cache_dir entry (w.fs_of s)).1 s in
        let name = cache_file_name entry.pod_uid entry.interface_name entry.container_id in
        IsDeleted conf (some (name, entry)) s' (cmd_del w rounds stdin entry.container_id s')
  cmd_del-write stdin s conf entry files d loaded k get set given decoded others written =
      let name = cache_file_name entry.pod_uid entry.interface_name entry.container_id in
      let f = (write_cache_entry w.fs w.codec conf.cache_dir entry (w.fs_of s)).1 in
      let s' = w.with_fs f s in
      subst (IsDeleted conf (some (name, entry)) s')
        (sym (
          cmd_del-finish_del stdin entry.container_id s' conf (put name entry files) loaded k
            (ap (λ x. w.with_fs x s') (get f) ∙ set f f)
            (subst (λ x. IsCache w.fs w.codec conf.cache_dir x (put name entry files)) (sym (get f))
              (write-IsCache w.fs w.codec conf.cache_dir d entry (w.fs_of s) files decoded written))
          ∙ ap (λ x. finish_del conf x s')
              (first_match-put entry.container_id name entry files
                ((match_container_iff entry.container_id entry.container_id).1 (given, refl))
                others)))
        (finish_del-IsDeleted conf (some (name, entry)) s' k)

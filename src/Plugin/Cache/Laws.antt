-- ===== src/Plugin/Cache/Laws.antt =====
-- Which cached result `readCacheEntry` of cmd/multus-multivpc-cni/main.go finds.
use multus_multivpc_cni.Base.{
  Text, Option, none, some, List, [], ◌∷◌, ok, err, if◌then◌else◌, ◌≡◌, refl, arith, All,
}
use multus_multivpc_cni.Plugin.Names.{match_container}
use multus_multivpc_cni.Plugin.Cache.{
  CacheEntry, FileSystem, Codec, CacheResult, not_exist, read_entry, find_entry, read_cache_entry,
}

abbrev pub names_of : {A : Type 0} → List (Text × A) → List Text
names_of [] = []
names_of (file ∷ files) = file.0 ∷ names_of files

-- The first file whose entry matches the container.
unfoldable pub first_match : Text → List (Text × CacheEntry) → Option (Text × CacheEntry)
first_match container_id [] = none
first_match container_id (file ∷ files) =
    let rest = first_match container_id files in
    if match_container file.1.container_id container_id then some file else rest

module _ (fs : FileSystem) (codec : Codec) (dir : Text) where
  abbrev pub answer :
      Option (Text × CacheEntry) → fs.State → CacheResult fs codec (CacheEntry × Text)
  answer none s = (err not_exist, s)
  answer (some (name, entry)) s = (ok (entry, name), s)

  -- In this state the directory holds these files, in its order, each with this entry in it.
  pub record IsCache (s : fs.State) (files : List (Text × CacheEntry)) : Type 0 where
    pub listed : fs.read_dir dir s ≡ (ok (names_of files), s)
    pub readable : All (λ f. read_entry fs codec dir f.0 s ≡ (ok f.1, s)) files

  find_entry-first_match :
      (container_id : Text) (s : fs.State) (files : List (Text × CacheEntry))
      → All (λ f. read_entry fs codec dir f.0 s ≡ (ok f.1, s)) files
      → find_entry fs codec dir container_id (names_of files) s
        ≡ answer (first_match container_id files) s
  unfolding find_entry first_match
  find_entry-first_match container_id s [] h = refl
  find_entry-first_match container_id s ((name, entry) ∷ files) h =
      ground (arith, find_entry-first_match container_id s files h.1)

  -- In a directory of readable entries the plugin finds the first one in the directory's order that
  -- matches the container, together with the name of its file, whichever interface it is for; if
  -- none matches, the error is the one of a missing file. It changes nothing.
  pub read_cache_entry_lem :
      (container_id : Text) (s : fs.State) (files : List (Text × CacheEntry))
      → IsCache s files
      → read_cache_entry fs codec dir container_id s ≡ answer (first_match container_id files) s
  unfolding read_cache_entry
  read_cache_entry_lem container_id s files h =
      ground (arith, h.listed, find_entry-first_match container_id s files h.readable)

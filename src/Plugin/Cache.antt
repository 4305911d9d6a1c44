-- ===== src/Plugin/Cache.antt =====
-- The cached results of cmd/multus-multivpc-cni/main.go: `cacheEntry`, `writeCacheEntry` and
-- `readCacheEntry`, over any file system and any encoding of an entry.
pub mod Laws
pub mod Stored
use multus_multivpc_cni.Base.{
  Text, Bool, true, false, List, [], ◌∷◌, Result, ok, err, if◌then◌else◌,
}
use multus_multivpc_cni.Plugin.Names.{match_container, cache_file_name}

pub record CacheEntry : Type 0 where
  pub pod_uid : Text
  pub pod_name : Text
  pub namespace : Text
  pub network_profile : Text
  pub interface_name : Text
  pub container_id : Text

-- The calls of the package `os`; a file is named by its directory and its name there.
pub record FileSystem : Type 1 where
  pub State : Type 0
  pub Error : Type 0
  pub mkdir_all : Text → State → Result Error (Unit {0}) × State
  -- The names in a directory, in their order.
  pub read_dir : Text → State → Result Error (List Text) × State
  pub read_file : Text → Text → State → Result Error Text × State
  pub write_file : Text → Text → Text → State → Result Error (Unit {0}) × State
  pub remove : Text → Text → State → Result Error (Unit {0}) × State
  pub is_not_exist : Error → Bool

-- `json.MarshalIndent` and `json.Unmarshal` at the type of an entry.
pub record Codec : Type 1 where
  pub Error : Type 0
  pub marshal : CacheEntry → Result Error Text
  pub unmarshal : Text → Result Error CacheEntry

-- The errors that the two functions return; `not_exist` is `os.ErrNotExist`.
pub data CacheError (E J : Type 0) : Type 0 where
  create_cache_dir file_error : E → CacheError E J
  marshal_cache unmarshal_cache : J → CacheError E J
  not_exist : CacheError E J

module _ (fs : FileSystem) (codec : Codec) where
  abbrev pub CacheResult : Type 0 → Type 0
  CacheResult A = Result (CacheError fs.Error codec.Error) A × fs.State

  -- The last two steps of `writeCacheEntry`.
  unfoldable pub write_encoded : Text → CacheEntry → fs.State → CacheResult (Unit {0})
  write_encoded dir entry s =
      let name = cache_file_name entry.pod_uid entry.interface_name entry.container_id in
      elim (codec.marshal entry) [
        | err e ↦ (err (marshal_cache e), s)
        | ok bytes ↦
            let (r, s') = fs.write_file dir name bytes s in
            elim r [ err e ↦ (err (file_error e), s') | ok _ ↦ (ok tt, s') ]
      ]

  unfoldable pub write_cache_entry : Text → CacheEntry → fs.State → CacheResult (Unit {0})
  unfolding write_encoded
  write_cache_entry dir entry s =
      let (r, s') = fs.mkdir_all dir s in
      elim r [ err e ↦ (err (create_cache_dir e), s') | ok _ ↦ write_encoded dir entry s' ]

  -- One file of the loop of `readCacheEntry`.
  unfoldable pub read_entry : Text → Text → fs.State → CacheResult CacheEntry
  read_entry dir name s =
      let (r, s') = fs.read_file dir name s in
      elim r [
        | err e ↦ (err (file_error e), s')
        | ok bytes ↦ elim (codec.unmarshal bytes) [
          | err e ↦ (err (unmarshal_cache e), s')
          | ok entry ↦ (ok entry, s')
        ]
      ]

  -- The entry that was found, and the name of its file.
  unfoldable pub find_entry : Text → Text → List Text → fs.State → CacheResult (CacheEntry × Text)
  unfolding read_entry
  find_entry dir container_id [] s = (err not_exist, s)
  find_entry dir container_id (name ∷ names) s =
      let (r, s') = read_entry dir name s in
      let rest = find_entry dir container_id names s' in
      elim r [
        | err e ↦ (err e, s')
        | ok entry ↦
            if match_container entry.container_id container_id then (ok (entry, name), s') else rest
      ]

  unfoldable pub read_cache_entry : Text → Text → fs.State → CacheResult (CacheEntry × Text)
  unfolding find_entry
  read_cache_entry dir container_id s =
      let (r, s') = fs.read_dir dir s in
      elim r [ err e ↦ (err (file_error e), s') | ok names ↦ find_entry dir container_id names s' ]

-- ===== src/Plugin/Cache/Stored.antt =====
-- What `readCacheEntry` of cmd/multus-multivpc-cni/main.go finds after `writeCacheEntry`.
use multus_multivpc_cni.Base.{
  Text, text_eq, Bool, true, false, some, List, [], ◌∷◌, ok, ◌==◌, ltb, if◌then◌else◌, ◌≡◌, ◌⊎◌,
  inl, inr, refl, sym, subst, arith, All, Bool-cases, Result-cases,
}
use multus_multivpc_cni.Plugin.Names.{match_container, cache_file_name}
use multus_multivpc_cni.Plugin.Cache.{CacheEntry, FileSystem, Codec, read_entry, write_cache_entry}
use multus_multivpc_cni.Plugin.Cache.Laws.{names_of, first_match, IsCache}

-- The order of file names, byte by byte.
abbrev precedes : Text → Text → Bool
precedes s [] = false
precedes [] (b ∷ t) = true
precedes (a ∷ s) (b ∷ t) =
    let rest = precedes s t in if ltb a b then true else if ltb b a then false else rest

module _ {A : Type 0} where
  -- The files of a directory by name, with one written: in place of the one of its name, or else
  -- where the order puts it.
  unfoldable pub put : Text → A → List (Text × A) → List (Text × A)
  put name x [] = (name, x) ∷ []
  put name x (file ∷ files) =
      let rest = put name x files in
      if file.0 == name
      then (name, x) ∷ files
      else if precedes name file.0
      then (name, x) ∷ file ∷ files
      else file ∷ rest

-- What the plugin relies on of its files: a directory is a list of named contents, by which alone its
-- listing and its files are read, a directory that is made changes nothing in it, and a file that is
-- written is put in. What is marshalled can be unmarshalled.
pub record IsDisk (fs : FileSystem) (codec : Codec) (dir : Text) : Type 0 where
  pub files_of : fs.State → List (Text × Text)
  pub made : (s : fs.State) → files_of (fs.mkdir_all dir s).1 ≡ files_of s
  pub written :
      (name bytes : Text) (s : fs.State)
      → (fs.write_file dir name bytes s).0 ≡ ok tt
      → files_of (fs.write_file dir name bytes s).1 ≡ put name bytes (files_of s)
  pub listed : (s : fs.State) → fs.read_dir dir s ≡ (ok (names_of (files_of s)), s)
  pub readable : (s : fs.State) → All (λ f. fs.read_file dir f.0 s ≡ (ok f.1, s)) (files_of s)
  pub unmarshalled :
      (entry : CacheEntry) (bytes : Text)
      → codec.marshal entry ≡ ok bytes
      → codec.unmarshal bytes ≡ ok entry

-- The entries that the contents of files stand for.
abbrev pub AreDecoded : Codec → List (Text × CacheEntry) → List (Text × Text) → Type 0
AreDecoded codec [] [] = Unit
AreDecoded codec (f ∷ files) (r ∷ raw) =
    (f.0 ≡ r.0) × (codec.unmarshal r.1 ≡ ok f.1) × AreDecoded codec files raw
AreDecoded codec _ _ = ⊥

put-AreDecoded :
    (codec : Codec) (name bytes : Text) (entry : CacheEntry) (files : List (Text × CacheEntry))
    (raw : List (Text × Text))
    → codec.unmarshal bytes ≡ ok entry
    → AreDecoded codec files raw
    → AreDecoded codec (put name entry files) (put name bytes raw)
unfolding put
put-AreDecoded codec name bytes entry [] [] u h = (refl, u, tt)
put-AreDecoded codec name bytes entry [] (r ∷ raw) u h = absurd h
put-AreDecoded codec name bytes entry (f ∷ files) [] u h = absurd h
put-AreDecoded codec name bytes entry (f ∷ files) (r ∷ raw) u (same, v, rest) =
    elim (Bool-cases (r.0 == name)) [
      | inl e ↦ rw (same, e) (refl, u, rest)
      | inr e ↦ elim (Bool-cases (precedes name r.0)) [
        | inl p ↦ rw (same, e, p) (refl, u, (refl, v, rest))
        | inr p ↦ rw (same, e, p) (refl, v, put-AreDecoded codec name bytes entry files raw u rest)
      ]
    ]

names_of-AreDecoded :
    (codec : Codec) (files : List (Text × CacheEntry)) (raw : List (Text × Text))
    → AreDecoded codec files raw
    → names_of raw ≡ names_of files
names_of-AreDecoded codec [] [] h = refl
names_of-AreDecoded codec [] (r ∷ raw) h = absurd h
names_of-AreDecoded codec (f ∷ files) [] h = absurd h
names_of-AreDecoded codec (f ∷ files) (r ∷ raw) (same, v, rest) =
    rw (same, names_of-AreDecoded codec files raw rest) refl

pub first_match-put :
    (container_id name : Text) (entry : CacheEntry) (files : List (Text × CacheEntry))
    → match_container entry.container_id container_id ≡ true
    → All (λ f. (f.0 ≡ name) ⊎ (match_container f.1.container_id container_id ≡ false)) files
    → first_match container_id (put name entry files) ≡ some (name, entry)
unfolding put first_match
first_match-put container_id name entry [] m h = ground arith
first_match-put container_id name entry (f ∷ files) m h =
    ground (arith, first_match-put container_id name entry files m h.1)

module _ (fs : FileSystem) (codec : Codec) (dir : Text) (d : IsDisk fs codec dir) where
  contents_readable :
      (s : fs.State) (files : List (Text × CacheEntry)) (raw : List (Text × Text))
      → AreDecoded codec files raw
      → All (λ f. fs.read_file dir f.0 s ≡ (ok f.1, s)) raw
      → All (λ f. read_entry fs codec dir f.0 s ≡ (ok f.1, s)) files
  unfolding read_entry
  contents_readable s [] [] h r = tt
  contents_readable s [] (x ∷ raw) h r = absurd h
  contents_readable s (f ∷ files) [] h r = absurd h
  contents_readable s (f ∷ files) (x ∷ raw) (same, v, rest) (one, more) =
      (ground arith, contents_readable s files raw rest more)

  decoded-IsCache :
      (s : fs.State) (files : List (Text × CacheEntry))
      → AreDecoded codec files (d.files_of s)
      → IsCache fs codec dir s files
  decoded-IsCache s files h = record {
    listed = rw (sym (names_of-AreDecoded codec files (d.files_of s) h)) (d.listed s);
    readable = contents_readable s files (d.files_of s) h (d.readable s);
  }

  -- Where a write has gone well, its bytes are those of the entry, and have been put in.
  write-files_of :
      (entry : CacheEntry) (s : fs.State)
      → (write_cache_entry fs codec dir entry s).0 ≡ ok tt
      → (bytes : Text) × (codec.marshal entry ≡ ok bytes)
        × (d.files_of (write_cache_entry fs codec dir entry s).1
            ≡ put
                (cache_file_name entry.pod_uid entry.interface_name entry.container_id)
                bytes
                (d.files_of s))
  unfolding write_cache_entry
  write-files_of entry s h = elim (Result-cases (fs.mkdir_all dir s).0) [
    | inl (e, f) ↦ absurd (ground arith)
    | inr (_, f) ↦ elim (Result-cases (codec.marshal entry)) [
      | inl (e, g) ↦ absurd (ground arith)
      | inr (bytes, g) ↦
          elim (Result-cases
            (fs.write_file dir
              (cache_file_name entry.pod_uid entry.interface_name entry.container_id) bytes
              (fs.mkdir_all dir s).1).0) [
                | inl (e, k) ↦ absurd (ground arith)
                | inr (_, k) ↦ (
                  bytes,
                  g,
                  ground (
                    arith,
                    d.made s,
                    d.written
                        (cache_file_name entry.pod_uid entry.interface_name entry.container_id)
                        bytes (fs.mkdir_all dir s).1 k,
                  ),
                )
              ]
    ]
  ]

  -- A directory of readable entries stays one, with the written entry put in.
  pub write-IsCache :
      (entry : CacheEntry) (s : fs.State) (files : List (Text × CacheEntry))
      → AreDecoded codec files (d.files_of s)
      → (write_cache_entry fs codec dir entry s).0 ≡ ok tt
      → IsCache fs codec dir
          (write_cache_entry fs codec dir entry s).1
          (put (cache_file_name entry.pod_uid entry.interface_name entry.container_id) entry files)
  write-IsCache entry s files h w =
      let (bytes, m, e) = write-files_of entry s w in
      decoded-IsCache (write_cache_entry fs codec dir entry s).1
        (put (cache_file_name entry.pod_uid entry.interface_name entry.container_id) entry files)
        (subst (AreDecoded codec _) (sym e) (
          put-AreDecoded codec _ bytes entry files (d.files_of s) (d.unmarshalled entry bytes m) h))

-- ===== src/Sync/Select/Chosen.antt =====
-- What a sync selects: the fast path changes no hash, and only stale entries are deleted.
use easy_sftp.Prelude.{
  ◌<◌, ◌≡◌, ◌≢◌, ◌↔◌, ◌⊎◌, refl, ap, ◌∙◌, ◌||◌, ◌&&◌, not, Bool, true, false, Bytes, List, [], ◌∷◌,
  Option, some, eq_bytes, eq_bytes_sound, Result, ok, arith, Bool-cases, Option-cases, inl, inr,
  All,
}
use easy_sftp.Remote.Dirs.{contains}
use easy_sftp.Planner.Tree.{FileItem}
use easy_sftp.Sync.Store.{Map, lookup, put, is_key, is_key-remove, contains-sort_strings}
use easy_sftp.Sync.Manifest.{
  ManifestEntry, Manifest, Document, Opening, accepts, entry_of, read_manifest,
}
use easy_sftp.Sync.Manifest.Confined.{read_manifest-IsConfined}
use easy_sftp.Sync.Select.{is_fresh, hash_item, hash_plan_files, local_entries, stale_keys, select}

module _ {E : Type 0} (hash_file : Bytes → Result E Bytes) where
  -- A cached entry that has a time, and the file's size and time, has the hash that the file has.
  abbrev pub IsReliable : Map ManifestEntry → FileItem → Type 0
  IsReliable cached f =
      (e : ManifestEntry)
      → lookup cached f.rel ≡ some e
      → e.mtime ≢ 0
      → e.size ≡ f.size
      → e.mtime ≡ f.mtime
      → hash_file f.local_path ≡ ok e.hash

  -- The file has a cached entry with a time, and with its size and time, or is read as it is.
  abbrev pub IsServed : (Bytes → Result E Bytes) → Map ManifestEntry → FileItem → Type 0
  IsServed read cached f =
      ((e : ManifestEntry) × (lookup cached f.rel ≡ some e)
        × (e.mtime ≢ 0)
        × (e.size ≡ f.size)
        × (e.mtime ≡ f.mtime))
      ⊎ (read f.local_path ≡ hash_file f.local_path)

  is_fresh_iff :
      (e : ManifestEntry) (f : FileItem)
      → (is_fresh e f ≡ true) ↔ ((e.mtime ≢ 0) × (e.size ≡ f.size) × (e.mtime ≡ f.mtime))
  unfolding is_fresh
  is_fresh_iff e f = (
    λ h. (λ z. ground (arith, z), ground arith, ground arith),
    λ (timed, size, time). ground arith,
  )

  from_cache :
      (read : Bytes → Result E Bytes) (cached : Map ManifestEntry) (f : FileItem)
      (e : ManifestEntry)
      → lookup cached f.rel ≡ some e
      → is_fresh e f ≡ true
      → IsReliable cached f
      → hash_item read cached f ≡ hash_item hash_file [] f
  unfolding hash_item
  from_cache read cached f e s fresh h =
      let (timed, size, time) = (is_fresh_iff e f).0 fresh in
      rw (s, hash_item) (rw (fresh, h e s timed size time) refl)

  hash_item-reliable :
      (read : Bytes → Result E Bytes) (cached : Map ManifestEntry) (f : FileItem)
      → IsReliable cached f
      → IsServed read cached f
      → hash_item read cached f ≡ hash_item hash_file [] f
  unfolding hash_item
  hash_item-reliable read cached f h (inl (e, s, timed, size, time)) =
      from_cache read cached f e s ((is_fresh_iff e f).1 (timed, size, time)) h
  hash_item-reliable read cached f h (inr same) = elim (Option-cases (lookup cached f.rel)) [
    | inl n ↦ rw (n, hash_item) (rw same refl)
    | inr (e, s) ↦ elim (Bool-cases (is_fresh e f)) [
      | inl fresh ↦ from_cache read cached f e s fresh h
      | inr stale ↦ rw (s, hash_item) (rw (stale, same) refl)
    ]
  ]

  -- Where every cached entry whose time is not 0, and whose size and time are those of the planned
  -- file with its path, has that file's hash, hashing with the cache gives the files and errors that
  -- hashing every file gives, whatever reading gives for the files that have such an entry, as long as
  -- it reads every other file as hashing does.
  pub hash_plan_files-reliable :
      (read : Bytes → Result E Bytes) (cached : Map ManifestEntry) (files : List FileItem)
      → All (IsReliable cached) files
      → All (IsServed read cached) files
      → hash_plan_files read cached files ≡ hash_plan_files hash_file [] files
  unfolding hash_plan_files
  hash_plan_files-reliable read cached [] h served = refl
  hash_plan_files-reliable read cached (f ∷ files) h served =
      rw
        (
          hash_item-reliable read cached f h.0 served.0,
          hash_plan_files-reliable read cached files h.1 served.1,
          hash_plan_files,
        )
        refl

  All-IsServed :
      (cached : Map ManifestEntry) (files : List FileItem) → All (IsServed hash_file cached) files
  All-IsServed cached [] = tt
  All-IsServed cached (f ∷ files) = (inr refl, All-IsServed cached files)

  timeless-IsReliable :
      (m : Manifest) (f : FileItem)
      → ((k : Bytes) (e : ManifestEntry) → lookup m.files k ≡ some e → e.mtime ≡ 0)
      → IsReliable m.files f
  timeless-IsReliable m f h e found timed size time = absurd (timed (h f.rel e found))

  All-IsReliable :
      (m : Manifest) (files : List FileItem)
      → ((k : Bytes) (e : ManifestEntry) → lookup m.files k ≡ some e → e.mtime ≡ 0)
      → All (IsReliable m.files) files
  All-IsReliable m [] h = tt
  All-IsReliable m (f ∷ files) h = (timeless-IsReliable m f h, All-IsReliable m files h)

  -- Where readManifest returns a manifest older than version 3, hashing with its entries as the cache
  -- is the same as hashing every file.
  pub read_manifest-rehashes :
      (decode : Bytes → Option (Document ManifestEntry))
      (decode_v1 : Bytes → Option (Document Bytes)) (dir : Bytes) (o : Opening)
      (files : List FileItem) {m : Manifest}
      → read_manifest decode decode_v1 dir o ≡ ok m
      → m.version < 3
      → hash_plan_files hash_file m.files files ≡ hash_plan_files hash_file [] files
  read_manifest-rehashes decode decode_v1 dir o files {m} h young =
      hash_plan_files-reliable hash_file m.files files
        (All-IsReliable m files
          (λ k e found. (read_manifest-IsConfined decode decode_v1 dir o h k e found).1 young))
        (All-IsServed m.files files)

-- A planned file has this relative path.
abbrev pub is_planned : List FileItem → Bytes → Bool
is_planned [] k = false
is_planned (f ∷ files) k = eq_bytes f.rel k || is_planned files k

local_entries-is_key :
    (local : Map ManifestEntry) (files : List FileItem) (k : Bytes)
    → is_key (local_entries local files) k ≡ (is_planned files k || is_key local k)
local_entries-is_key local [] k = refl
local_entries-is_key local (f ∷ files) k =
    local_entries-is_key (put local f.rel (entry_of f)) files k
    ∙ ground (arith, is_key-remove local f.rel k)

stale_keys-contains :
    (base : Bytes) (local old : Map ManifestEntry) (k : Bytes)
    → contains (stale_keys base local old) k
      ≡ (is_key old k && (not (is_key local k) && accepts base k))
unfolding stale_keys
stale_keys-contains base local [] k = refl
stale_keys-contains base local (x ∷ old) k = ground (
  arith,
  stale_keys-contains base local old k,
  λ (e : eq_bytes x.0 k ≡ true). ap (accepts base) (eq_bytes_sound x.0 k e),
  λ (e : eq_bytes x.0 k ≡ true). ap (is_key local) (eq_bytes_sound x.0 k e),
)

-- A path is among those that a sync deletes exactly if the old manifest lists it, no planned file has
-- it as its relative path, and safeJoin accepts it below the base.
pub select-to_delete :
    (base : Bytes) (old : Map ManifestEntry) (files : List FileItem) (k : Bytes)
    → contains (select base old files).to_delete k
      ≡ (is_key old k && (not (is_planned files k) && accepts base k))
unfolding select
select-to_delete base old files k =
    let local = local_entries [] files in
    contains-sort_strings (stale_keys base local old) k
    ∙ ground (arith, stale_keys-contains base local old k, local_entries-is_key [] files k)

-- ===== src/Sync/Manifest.antt =====
-- The manifest of internal/uploader/sync.go: how it is read, confined to the deployment, and merged
-- for the retry of a failed run.
pub mod Confined
pub mod Merged
pub mod Entries
use easy_sftp.Prelude.{
  ℕ, suc, zero, ltb, Bool, true, false, if◌then◌else◌, Bytes, List, [], ◌∷◌, Option, none, some,
  Result, ok, err, take, length,
}
use easy_sftp.Strings.{sort_strings}
use easy_sftp.Remote.Confine.{Refusal, safe_join}
use easy_sftp.Planner.Tree.{FileItem}
use easy_sftp.Sync.Store.{Map, put, remove_all}

-- manifestVersion
abbrev pub manifest_version : ℕ
manifest_version = 3

-- maxManifestBytes
abbrev pub max_manifest_bytes : ℕ
max_manifest_bytes = 67108864

-- manifestEntry
pub record ManifestEntry : Type 0 where
  pub hash : Bytes
  pub size : ℕ
  pub mtime : ℕ

-- manifest
pub record Manifest : Type 0 where
  pub version : ℕ
  pub files : Map ManifestEntry

-- A JSON document of a version and a map, which is none where it is missing or null. A negative
-- version stands as 0.
pub record Document (V : Type 0) : Type 0 where
  pub version : ℕ
  pub files : Option (Map V)

-- What reading the opened file gives: the whole file's bytes, a lost connection, or another error.
pub data Reading : Type 0 where
  read_lost read_failed : Reading
  read_bytes : Bytes → Reading

-- What opening the manifest gives. Where the server refuses, remoteAbsent asks whether the file is
-- absent, and may fail itself (none).
pub data Opening : Type 0 where
  open_lost open_missing : Opening
  open_refused : Option Bool → Opening
  opened : Reading → Opening

-- A read that must not be taken for a first sync.
pub data ReadError : Type 0 where
  open_error absent_error read_error : ReadError

abbrev pub empty_manifest : Manifest
empty_manifest = record { version = manifest_version; files = [] }

-- safeJoin(dir, rel) gives no error.
abbrev is_nil : Result Refusal Bytes → Bool
is_nil (ok full) = true
is_nil (err e) = false

abbrev pub accepts : Bytes → Bytes → Bool
accepts dir rel = is_nil (safe_join dir rel)

-- The keys that confineManifest drops.
abbrev pub outside_keys : Bytes → Map ManifestEntry → List Bytes
outside_keys dir [] = []
outside_keys dir (x ∷ files) =
    let rest = outside_keys dir files in if accepts dir x.0 then rest else x.0 ∷ rest

-- confineManifest
unfoldable pub confine_manifest : Bytes → Manifest → Manifest
confine_manifest dir m = record m {
  files = remove_all m.files (sort_strings (outside_keys dir m.files));
}

-- The loop that drops the mtime of every entry.
abbrev pub without_mtimes : Map ManifestEntry → Map ManifestEntry
without_mtimes [] = []
without_mtimes (x ∷ files) = (x.0, record x.1 { mtime = 0 }) ∷ without_mtimes files

abbrev pub from_hashes : Map Bytes → Map ManifestEntry
from_hashes [] = []
from_hashes (x ∷ files) = (x.0, record { hash = x.1; size = 0; mtime = 0 }) ∷ from_hashes files

module _ (decode : Bytes → Option (Document ManifestEntry))
    (decode_v1 : Bytes → Option (Document Bytes)) (dir : Bytes) where
  -- The second attempt of readManifest, on the first format.
  unfoldable pub read_v1 : Bytes → Manifest
  unfolding confine_manifest
  read_v1 data' = elim (decode_v1 data') [
    | none ↦ empty_manifest
    | some doc ↦ elim doc.files [
      | none ↦ empty_manifest
      | some hashes ↦
          confine_manifest dir (record { version = doc.version; files = from_hashes hashes })
    ]
  ]

  -- readManifest, from the bytes that were read.
  unfoldable pub read_document : Bytes → Manifest
  unfolding read_v1 confine_manifest
  read_document data' = elim (decode data') [
    | none ↦ read_v1 data'
    | some doc ↦ elim doc.files [
      | none ↦ read_v1 data'
      | some files ↦ confine_manifest dir (record {
        version = doc.version;
        files = if ltb doc.version 3 then without_mtimes files else files;
      })
    ]
  ]

  -- readManifest
  unfoldable pub read_manifest : Opening → Result ReadError Manifest
  unfolding read_document
  read_manifest open_lost = err open_error
  read_manifest open_missing = ok empty_manifest
  read_manifest (open_refused none) = err absent_error
  read_manifest (open_refused (some absent)) = ok empty_manifest
  read_manifest (opened read_lost) = err read_error
  read_manifest (opened read_failed) = ok empty_manifest
  read_manifest (opened (read_bytes file)) =
      let limited = take (suc max_manifest_bytes) file in
      if ltb max_manifest_bytes (length limited)
      then ok empty_manifest
      else ok (read_document limited)

abbrev pub entry_of : FileItem → ManifestEntry
entry_of f = record { hash = f.hash; size = f.size; mtime = f.mtime }

-- The loop of mergedManifest over the uploads: none where an upload has no flag, on which the code
-- panics.
abbrev pub put_completed :
    Map ManifestEntry → List FileItem → List Bool → Option (Map ManifestEntry)
put_completed files [] completed = some files
put_completed files (f ∷ upload) [] = none
put_completed files (f ∷ upload) (done ∷ completed) =
    put_completed (if done then put files f.rel (entry_of f) else files) upload completed

-- mergedManifest
unfoldable pub merged_manifest : Manifest → List FileItem → List Bool → List Bytes → Option Manifest
merged_manifest old upload completed deleted = elim (put_completed old.files upload completed) [
  | none ↦ none
  | some files ↦ some (record { version = manifest_version; files = remove_all files deleted })
]

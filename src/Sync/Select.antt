-- ===== src/Sync/Select.antt =====
-- What a sync uploads and deletes: hashPlanFiles of internal/uploader/planner.go and the selection in
-- executeSync of internal/uploader/sync.go.
pub mod Chosen
use easy_sftp.Prelude.{
  ℕ, ◌==◌, ◌&&◌, not, Bool, true, false, if◌then◌else◌, Bytes, List, [], ◌∷◌, Option, none, some,
  eq_bytes, Result, ok, err, ◌>>=◌,
}
use easy_sftp.Strings.{sort_strings}
use easy_sftp.Planner.Tree.{FileItem}
use easy_sftp.Sync.Store.{Map, lookup, put, is_key}
use easy_sftp.Sync.Manifest.{ManifestEntry, accepts, entry_of}

-- Whether the cached entry stands for the file: the test of hashPlanFiles.
unfoldable pub is_fresh : ManifestEntry → FileItem → Bool
is_fresh e f = (not (e.mtime == 0) && e.size == f.size) && e.mtime == f.mtime

module _ {E : Type 0} (hash_file : Bytes → Result E Bytes) where
  abbrev pub hash_anew : FileItem → Result E FileItem
  hash_anew f = do h ← hash_file f.local_path; ok (record f { hash = h })

  -- The work on one file in hashPlanFiles.
  unfoldable pub hash_item : Map ManifestEntry → FileItem → Result E FileItem
  unfolding is_fresh
  hash_item cached f = elim (lookup cached f.rel) [
    | none ↦ hash_anew f
    | some e ↦ elim (is_fresh e f) [ true ↦ ok (record f { hash = e.hash }) | false ↦ hash_anew f ]
  ]

  -- hashPlanFiles: the files are hashed independently of one another, here in the order of the plan.
  unfoldable pub hash_plan_files : Map ManifestEntry → List FileItem → Result E (List FileItem)
  unfolding hash_item
  hash_plan_files cached [] = ok []
  hash_plan_files cached (f ∷ files) = do
    f' ← hash_item cached f
    files' ← hash_plan_files cached files
    ok (f' ∷ files')

-- The test of the loop over the plan.
unfoldable pub is_changed : Map ManifestEntry → FileItem → Bool
is_changed old f = elim (lookup old f.rel) [ none ↦ true | some e ↦ not (eq_bytes e.hash f.hash) ]

abbrev pub changed_files : Map ManifestEntry → List FileItem → List FileItem
changed_files old [] = []
changed_files old (f ∷ files) =
    let rest = changed_files old files in if is_changed old f then f ∷ rest else rest

abbrev pub local_entries : Map ManifestEntry → List FileItem → Map ManifestEntry
local_entries local [] = local
local_entries local (f ∷ files) = local_entries (put local f.rel (entry_of f)) files

-- The loop over the old manifest's keys.
unfoldable pub stale_keys : Bytes → Map ManifestEntry → Map ManifestEntry → List Bytes
stale_keys base local [] = []
stale_keys base local (x ∷ old) =
    let rest = stale_keys base local old in
    if is_key local x.0 then rest else (if accepts base x.0 then x.0 ∷ rest else rest)

pub record Selection : Type 0 where
  pub local : Map ManifestEntry
  pub upload : List FileItem
  pub to_delete : List Bytes

-- The selection in executeSync, on the hashed files of the plan.
unfoldable pub select : Bytes → Map ManifestEntry → List FileItem → Selection
unfolding is_changed stale_keys
select base old files =
    let local = local_entries [] files in
    record {
      local = local;
      upload = changed_files old files;
      to_delete = sort_strings (stale_keys base local old);
    }

-- ===== src/Sync/Manifest/Entries.antt =====
-- What mergedManifest records of each path.
use easy_sftp.Prelude.{
  ◌≡◌, refl, sym, ap, ◌∙◌, ◌&&◌, Bool, true, false, if◌then◌else◌, Bytes, List, [], ◌∷◌, Option,
  none, some, length, eq_bytes, arith, Bool-cases, inl, inr,
}
use easy_sftp.Remote.Dirs.{contains}
use easy_sftp.Planner.Tree.{FileItem}
use easy_sftp.Sync.Store.{Map, lookup, put, remove_all, lookup-put, lookup-remove_all}
use easy_sftp.Sync.Manifest.{
  ManifestEntry, Manifest, manifest_version, entry_of, put_completed, merged_manifest,
}

abbrev pub or_else : Option ManifestEntry → Option ManifestEntry → Option ManifestEntry
or_else (some e) o = some e
or_else none o = o

-- The entry of the last completed upload to the path.
abbrev pub uploaded_entry : List FileItem → List Bool → Bytes → Option ManifestEntry
uploaded_entry (f ∷ upload) (finished ∷ completed) k =
    or_else (uploaded_entry upload completed k)
      (if finished && eq_bytes f.rel k then some (entry_of f) else none)
uploaded_entry (f ∷ upload) [] k = none
uploaded_entry [] completed k = none

or_else-put :
    (o : Option ManifestEntry) (files : Map ManifestEntry) (f : FileItem) (k : Bytes)
    → or_else o (lookup (put files f.rel (entry_of f)) k)
      ≡ or_else (or_else o (if eq_bytes f.rel k then some (entry_of f) else none)) (lookup files k)
or_else-put (some e) files f k = refl
or_else-put none files f k = elim (Bool-cases (eq_bytes f.rel k)) [
  | inl same ↦ lookup-put files f.rel k (entry_of f) ∙ rw same refl
  | inr other ↦ lookup-put files f.rel k (entry_of f) ∙ rw other refl
]

or_else-none : (o : Option ManifestEntry) → or_else o none ≡ o
or_else-none (some e) = refl
or_else-none none = refl

put_completed-lookup :
    (files : Map ManifestEntry) (upload : List FileItem) (completed : List Bool)
    → length completed ≡ length upload
    → (files' : Map ManifestEntry) × (put_completed files upload completed ≡ some files')
      × ((k : Bytes)
          → lookup files' k ≡ or_else (uploaded_entry upload completed k) (lookup files k))
put_completed-lookup files [] completed h = (files, refl, λ k. refl)
put_completed-lookup files (f ∷ upload) [] h = absurd (omega arith)
put_completed-lookup files (f ∷ upload) (true ∷ completed) h =
    let (files', e, at) =
      put_completed-lookup (put files f.rel (entry_of f)) upload completed (omega arith) in
    (files', e, λ k. at k ∙ or_else-put (uploaded_entry upload completed k) files f k)
put_completed-lookup files (f ∷ upload) (false ∷ completed) h =
    let (files', e, at) = put_completed-lookup files upload completed (omega arith) in
    (
      files',
      e,
      λ k.
          at k
          ∙ ap (λ o. or_else o (lookup files k))
              (sym (or_else-none (uploaded_entry upload completed k))),
    )

-- Where every upload has its flag, mergedManifest gives a manifest that has no entry at a deleted
-- path, at any other path the entry of the last completed upload to it, and the old entry where there
-- is none.
pub merged_manifest-lookup :
    (old : Manifest) (upload : List FileItem) (completed : List Bool) (deleted : List Bytes)
    → length completed ≡ length upload
    → (m : Manifest) × (merged_manifest old upload completed deleted ≡ some m)
      × ((k : Bytes)
          → lookup m.files k ≡ (
              if contains deleted k
              then none
              else or_else (uploaded_entry upload completed k) (lookup old.files k)))
unfolding merged_manifest
merged_manifest-lookup old upload completed deleted h =
    let (files, e, at) = put_completed-lookup old.files upload completed h in
    let m : Manifest = record { version = manifest_version; files = remove_all files deleted } in
    (
      m,
      rw (e, merged_manifest) refl,
      λ k.
          lookup-remove_all files deleted k
          ∙ ap (λ o. if contains deleted k then none else o) (at k),
    )

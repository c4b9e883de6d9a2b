-- ===== src/Sync/Manifest/Merged.antt =====
-- The manifest that a failed run leaves behind: it tells of every file what the server really holds.
use easy_sftp.Prelude.{
  ◌≡◌, refl, sym, ap, ◌∙◌, Bool, true, false, if◌then◌else◌, Bytes, List, [], ◌∷◌, ◌++◌, Option,
  none, some, length, eq_bytes, arith, Bool-cases, inl, inr, subst,
}
use easy_sftp.Remote.Dirs.{contains}
use easy_sftp.Planner.Tree.{FileItem}
use easy_sftp.Sync.Store.{
  Map, lookup, put, remove_all, lookup-put, lookup-remove_all, contains-append,
}
use easy_sftp.Sync.Manifest.{ManifestEntry, Manifest, entry_of, put_completed, merged_manifest}
use easy_sftp.Sync.Manifest.Entries.{or_else, uploaded_entry, merged_manifest-lookup}

-- The hash of what the server holds at each path of the deployment.
abbrev pub Server : Type 0
Server = Bytes → Option Bytes

abbrev pub delete_from : Server → List Bytes → Server
delete_from server ks k = if contains ks k then none else server k

-- An upload that completes puts the file in place; one that fails leaves what was there.
abbrev pub upload_to : Server → List FileItem → List Bool → Server
upload_to server [] completed = server
upload_to server (f ∷ upload) [] = server
upload_to server (f ∷ upload) (done ∷ completed) =
    upload_to (λ k. if done then (if eq_bytes f.rel k then some f.hash else server k) else server k)
      upload completed

-- The server after a run: the deletions before the uploads, the uploads, the deletions after them.
abbrev pub after_run : Server → List Bytes → List FileItem → List Bool → List Bytes → Server
after_run server before upload completed after =
    delete_from (upload_to (delete_from server before) upload completed) after

-- Every entry, but those of the given keys, shows the hash of what the server holds there.
abbrev pub TellsBut : List Bytes → Map ManifestEntry → Server → Type 0
TellsBut ks files server =
    (k : Bytes) (e : ManifestEntry)
    → contains ks k ≡ false
    → lookup files k ≡ some e
    → server k ≡ some e.hash

abbrev pub Tells : Map ManifestEntry → Server → Type 0
Tells = TellsBut []

some-injective : {a b : ManifestEntry} → some a ≡ some b → a ≡ b
some-injective h = cc

put-TellsBut :
    (ks : List Bytes) (files : Map ManifestEntry) (server : Server) (f : FileItem)
    → TellsBut ks files server
    → TellsBut ks
        (put files f.rel (entry_of f))
        (λ k. if eq_bytes f.rel k then some f.hash else server k)
put-TellsBut ks files server f h k e out found = elim (Bool-cases (eq_bytes f.rel k)) [
  | inl same ↦ rw same (
      ap (λ (x : ManifestEntry). some x.hash)
        (some-injective (rw same at (sym (lookup-put files f.rel k (entry_of f)) ∙ found))))
  | inr other ↦
      rw other (h k e out (rw other at (sym (lookup-put files f.rel k (entry_of f)) ∙ found)))
]

put_completed-TellsBut :
    (ks : List Bytes) (files : Map ManifestEntry) (server : Server) (upload : List FileItem)
    (completed : List Bool)
    → length completed ≡ length upload
    → TellsBut ks files server
    → (files' : Map ManifestEntry) × (put_completed files upload completed ≡ some files')
      × TellsBut ks files' (upload_to server upload completed)
put_completed-TellsBut ks files server [] completed same h = (files, refl, h)
put_completed-TellsBut ks files server (f ∷ upload) [] same h = absurd (omega arith)
put_completed-TellsBut ks files server (f ∷ upload) (true ∷ completed) same h =
    put_completed-TellsBut ks (put files f.rel (entry_of f))
      (λ k. if eq_bytes f.rel k then some f.hash else server k) upload completed (omega arith)
      (put-TellsBut ks files server f h)
put_completed-TellsBut ks files server (f ∷ upload) (false ∷ completed) same h =
    put_completed-TellsBut ks files server upload completed (omega arith) h

out_of_both :
    (before after : List Bytes) (k : Bytes)
    → contains (before ++ after) k ≡ false
    → (contains before k ≡ false) × (contains after k ≡ false)
out_of_both before after k h = ground (arith, contains-append before after k)

remaining-Tells :
    (before after : List Bytes) (files : Map ManifestEntry) (server : Server)
    → TellsBut (before ++ after) files server
    → Tells (remove_all files (before ++ after)) (delete_from server after)
remaining-Tells before after files server h k e _ found =
    elim (Bool-cases (contains (before ++ after) k)) [
      | inl gone ↦ none_absurd (rw gone at (sym at_k ∙ found))
      | inr stays ↦
          rw ((out_of_both before after k stays).1) (h k e stays (rw stays at (sym at_k ∙ found)))
    ]
  where
    at_k :
        lookup (remove_all files (before ++ after)) k
        ≡ (if contains (before ++ after) k then none else lookup files k)
    at_k = lookup-remove_all files (before ++ after) k

    none_absurd : {A : Type 0} → Path (Option ManifestEntry) none (some e) → A
    none_absurd z = cc

-- The entries of the manifest are those of the completed uploads and the old ones, but for the deleted paths.
abbrev pub IsComplete : Manifest → Manifest → List FileItem → List Bool → List Bytes → Type 0
IsComplete old m upload completed deleted =
    (k : Bytes)
    → lookup m.files k ≡ (
        if contains deleted k
        then none
        else or_else (uploaded_entry upload completed k) (lookup old.files k))

some_is : {m m' : Manifest} → some m ≡ some m' → m ≡ m'
some_is h = cc

-- Where every manifest entry shows the hash that the server holds, and every upload has its flag,
-- mergedManifest gives a manifest. Its entry at a path is none where the call names the path as
-- deleted, else the entry of the last completed upload of the path, else the old entry. Where the
-- named paths were deleted before or after the uploads, a completed upload put its file in place, and
-- one that did not complete left the file as it was, every entry shows the hash that the server then
-- holds.
pub merged_manifest-Tells :
    (old : Manifest) (server : Server) (before : List Bytes) (upload : List FileItem)
    (completed : List Bool) (after : List Bytes)
    → length completed ≡ length upload
    → Tells old.files server
    → (m : Manifest) × (merged_manifest old upload completed (before ++ after) ≡ some m)
      × Tells m.files (after_run server before upload completed after)
      × IsComplete old m upload completed (before ++ after)
unfolding merged_manifest
merged_manifest-Tells old server before upload completed after same h =
    let (files, put_all, told) =
      put_completed-TellsBut (before ++ after) old.files (delete_from server before) upload
        completed same
        (λ k e out found. rw ((out_of_both before after k out).0) (h k e refl found)) in
    let m : Manifest = record { version = 3; files = remove_all files (before ++ after) } in
    let merged : merged_manifest old upload completed (before ++ after) ≡ some m =
      rw (put_all, merged_manifest) refl in
    let (m', merged', at) = merged_manifest-lookup old upload completed (before ++ after) same in
    (
      m,
      merged,
      remaining-Tells before after files (upload_to (delete_from server before) upload completed)
          told,
      subst (λ n. IsComplete old n upload completed (before ++ after))
          (some_is (sym merged' ∙ merged)) at,
    )

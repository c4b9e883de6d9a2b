-- ===== src/Sync/Manifest/Confined.antt =====
-- Whatever the server stored as the manifest, what is read of it stays inside the deployment.
use easy_sftp.Prelude.{
  ℕ, suc, ◌<◌, ltb, ◌≡◌, refl, sym, ap, subst, ◌∙◌, true, false, if◌then◌else◌, Bytes, [], ◌∷◌,
  Option, none, some, Result, ok, take, length, eq_bytes, eq_bytes_sound, arith, Bool-cases, inl,
  inr, Option-cases,
}
use easy_sftp.Strings.{sort_strings}
use easy_sftp.Remote.Dirs.{contains}
use easy_sftp.Sync.Store.{Map, lookup, lookup-remove_all, contains-sort_strings}
use easy_sftp.Sync.Manifest.{
  ManifestEntry, Manifest, Document, Opening, open_lost, open_missing, open_refused, opened,
  read_lost, read_failed, read_bytes, ReadError, accepts, outside_keys, confine_manifest,
  without_mtimes, from_hashes, read_v1, read_document, read_manifest, empty_manifest,
  max_manifest_bytes,
}

kept_inside :
    (dir : Bytes) (files : Map ManifestEntry) (k : Bytes)
    → accepts dir k ≡ true
    → contains (outside_keys dir files) k ≡ false
kept_inside dir [] k h = refl
kept_inside dir (x ∷ files) k h = ground (
  arith,
  kept_inside dir files k h,
  λ (e : eq_bytes x.0 k ≡ true). ap (accepts dir) (eq_bytes_sound x.0 k e),
)

dropped_outside :
    (dir : Bytes) (files : Map ManifestEntry) (k : Bytes)
    → accepts dir k ≡ false
    → (if contains (outside_keys dir files) k then none else lookup files k) ≡ none
dropped_outside dir [] k h = refl
dropped_outside dir (x ∷ files) k h = ground (
  arith,
  dropped_outside dir files k h,
  λ (e : eq_bytes x.0 k ≡ true). ap (accepts dir) (eq_bytes_sound x.0 k e),
)

outside-lookup :
    (dir : Bytes) (files : Map ManifestEntry) (k : Bytes)
    → (if contains (outside_keys dir files) k then none else lookup files k)
      ≡ (if accepts dir k then lookup files k else none)
outside-lookup dir files k = elim (Bool-cases (accepts dir k)) [
  | inl inside ↦ rw (inside, kept_inside dir files k inside) refl
  | inr outside ↦ rw outside (dropped_outside dir files k outside)
]

-- confineManifest keeps every entry whose key safeJoin accepts, and drops every other one.
pub confine_manifest-lookup :
    (dir : Bytes) (m : Manifest) (k : Bytes)
    → lookup (confine_manifest dir m).files k ≡ (if accepts dir k then lookup m.files k else none)
unfolding confine_manifest
confine_manifest-lookup dir m k =
    lookup-remove_all m.files (sort_strings (outside_keys dir m.files)) k
    ∙ ap (λ b. if b then none else lookup m.files k)
        (contains-sort_strings (outside_keys dir m.files) k)
    ∙ outside-lookup dir m.files k

ok-injective : {a b : Manifest} → Path (Result ReadError Manifest) (ok a) (ok b) → a ≡ b
ok-injective e = cc

-- A manifest whose keys stay in the deployment, and whose entries show no time where the format had
-- none or a coarser one.
abbrev pub IsConfined : Bytes → Manifest → Type 0
IsConfined dir m =
    (k : Bytes) (e : ManifestEntry)
    → lookup m.files k ≡ some e
    → (accepts dir k ≡ true) × (m.version < 3 → e.mtime ≡ 0)

without_mtimes-mtime :
    (files : Map ManifestEntry) (k : Bytes) (e : ManifestEntry)
    → lookup (without_mtimes files) k ≡ some e
    → e.mtime ≡ 0
without_mtimes-mtime [] k e h = cc
without_mtimes-mtime (x ∷ files) k e h = elim (Bool-cases (eq_bytes x.0 k)) [
  | inl same ↦ some_mtime (rw same at h)
  | inr other ↦ without_mtimes-mtime files k e (rw other at h)
]
  where
    some_mtime : some (record x.1 { mtime = 0 }) ≡ some e → e.mtime ≡ 0
    some_mtime h = cc

from_hashes-mtime :
    (files : Map Bytes) (k : Bytes) (e : ManifestEntry)
    → lookup (from_hashes files) k ≡ some e
    → e.mtime ≡ 0
from_hashes-mtime [] k e h = cc
from_hashes-mtime (x ∷ files) k e h = elim (Bool-cases (eq_bytes x.0 k)) [
  | inl same ↦ some_mtime (rw same at h)
  | inr other ↦ from_hashes-mtime files k e (rw other at h)
]
  where
    some_mtime :
        Path (Option ManifestEntry) (some (record { hash = x.1; size = 0; mtime = 0 })) (some e)
        → e.mtime ≡ 0
    some_mtime h = cc

confine-IsConfined :
    (dir : Bytes) (m : Manifest)
    → ((k : Bytes) (e : ManifestEntry) → lookup m.files k ≡ some e → m.version < 3 → e.mtime ≡ 0)
    → IsConfined dir (confine_manifest dir m)
unfolding confine_manifest
confine-IsConfined dir m timeless k e h = elim (Bool-cases (accepts dir k)) [
  | inl yes_in ↦ (yes_in, timeless k e (rw yes_in at (sym (confine_manifest-lookup dir m k) ∙ h)))
  | inr outside ↦ none_absurd (rw outside at (sym (confine_manifest-lookup dir m k) ∙ h))
]
  where
    none_absurd : {A : Type 0} → Path (Option ManifestEntry) none (some e) → A
    none_absurd h = cc

module _ (decode : Bytes → Option (Document ManifestEntry))
    (decode_v1 : Bytes → Option (Document Bytes)) (dir : Bytes) where
  empty-IsConfined : IsConfined dir empty_manifest
  empty-IsConfined k e h = cc

  read_v1-IsConfined : (data' : Bytes) → IsConfined dir (read_v1 decode decode_v1 dir data')
  unfolding read_v1
  read_v1-IsConfined data' = elim (Option-cases (decode_v1 data')) [
    | inl e ↦ rw (e, read_v1) empty-IsConfined
    | inr (doc, e) ↦ elim (Option-cases doc.files) [
      | inl n ↦ rw (e, read_v1) (rw n empty-IsConfined)
      | inr (hashes, n) ↦
          rw (e, read_v1)
            (rw n (
              confine-IsConfined dir (record { version = doc.version; files = from_hashes hashes })
                (λ k e l _. from_hashes-mtime hashes k e l)))
    ]
  ]

  aged :
      (v : ℕ) (files : Map ManifestEntry) (k : Bytes) (e : ManifestEntry)
      → lookup (if ltb v 3 then without_mtimes files else files) k ≡ some e
      → v < 3
      → e.mtime ≡ 0
  aged v files k e h young = elim (Bool-cases (ltb v 3)) [
    | inl old ↦ without_mtimes-mtime files k e (rw old at h)
    | inr new ↦ absurd (ground arith)
  ]

  read_document-IsConfined :
      (data' : Bytes) → IsConfined dir (read_document decode decode_v1 dir data')
  unfolding read_document
  read_document-IsConfined data' = elim (Option-cases (decode data')) [
    | inl e ↦ rw (e, read_document) (read_v1-IsConfined data')
    | inr (doc, e) ↦ elim (Option-cases doc.files) [
      | inl n ↦ rw (e, read_document) (rw n (read_v1-IsConfined data'))
      | inr (files, n) ↦
          rw (e, read_document)
            (rw n (
              confine-IsConfined dir
                (record {
                  version = doc.version;
                  files = if ltb doc.version 3 then without_mtimes files else files;
                })
                (aged doc.version files)))
    ]
  ]

  -- Whatever the remote file holds and however it decodes, every key of the manifest that readManifest
  -- returns is accepted by safeJoin, and where the manifest is older than version 3 every entry has
  -- mtime 0.
  pub read_manifest-IsConfined :
      (o : Opening) {m : Manifest} → read_manifest decode decode_v1 dir o ≡ ok m → IsConfined dir m
  unfolding read_manifest
  read_manifest-IsConfined open_lost h = cc
  read_manifest-IsConfined open_missing h = subst (IsConfined dir) (ok-injective h) empty-IsConfined
  read_manifest-IsConfined (open_refused none) h = cc
  read_manifest-IsConfined (open_refused (some absent)) h =
      subst (IsConfined dir) (ok-injective h) empty-IsConfined
  read_manifest-IsConfined (opened read_lost) h = cc
  read_manifest-IsConfined (opened read_failed) h =
      subst (IsConfined dir) (ok-injective h) empty-IsConfined
  read_manifest-IsConfined (opened (read_bytes file)) h =
      let limited = take (suc max_manifest_bytes) file in
      elim (Bool-cases (ltb max_manifest_bytes (length limited))) [
        | inl over ↦ subst (IsConfined dir) (ok-injective (rw over at h)) empty-IsConfined
        | inr fits ↦
            subst (IsConfined dir) (ok-injective (rw fits at h)) (read_document-IsConfined limited)
      ]

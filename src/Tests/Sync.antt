-- ===== src/Tests/Sync.antt =====
-- Runs of internal/uploader/sync.go on small manifests, and its theorems there.
use easy_sftp.Prelude.{
  inl, err, ℕ, ◌<◌, ◌≡◌, ◌≢◌, refl, true, not, ◌&&◌, Bytes, List, [], ◌∷◌, ◌++◌, codes, ok, Result,
  Option, none, some, arith, if◌then◌else◌, eq_bytes,
}
use easy_sftp.Strings.{split, join_parts, sort_strings}
use easy_sftp.SlashPath.{clean, join, dir, render, IsName}
use easy_sftp.Remote.Confine.{safe_join, within}
use easy_sftp.Remote.Dirs.{visit_dirs, contains}
use easy_sftp.Remote.Dirs.Ancestors.{under}
use easy_sftp.Planner.Tree.{FileItem}
use easy_sftp.Sync.Store.{Map, is_key}
use easy_sftp.Sync.Manifest.{
  ManifestEntry, Manifest, Document, Opening, opened, read_bytes, accepts, read_manifest,
  merged_manifest,
}
use easy_sftp.Sync.Manifest.Confined.{IsConfined, read_manifest-IsConfined}
use easy_sftp.Sync.Manifest.Merged.{Server, Tells, IsComplete, after_run, merged_manifest-Tells}
use easy_sftp.Sync.Select.{select, hash_plan_files}
use easy_sftp.Sync.Select.Chosen.{
  is_planned, IsReliable, hash_plan_files-reliable, select-to_delete,
}
use easy_sftp.Sync.Collide.{rels, colliding_deletes, fold_path, prune_candidates, collide_parents}
use easy_sftp.Sync.Collide.Apart.{path_of, colliding_deletes-rest}
use easy_sftp.Sync.Collide.Below.{IsBelow}

abbrev item : Bytes → Bytes → FileItem
item rel h = record {
  local_path = rel;
  remote_path = rel;
  rel = rel;
  size = 3;
  mtime = 5;
  mode = 420;
  hash = h;
}

abbrev stored : Bytes → ManifestEntry
stored h = record { hash = h; size = 3; mtime = 5 }

abbrev two : Manifest
two = record {
  version = 2;
  files = (codes "a", stored (codes "h")) ∷ (codes "../b", stored (codes "k")) ∷ [];
}

abbrev www : Bytes
www = codes "/www"

-- A decoder that reads every document as the manifest of two entries.
abbrev decode : Bytes → Option (Document ManifestEntry)
decode file = some (record { version = two.version; files = some two.files })

abbrev decode_v1 : Bytes → Option (Document Bytes)
decode_v1 file = none

abbrev read_two : Manifest
read_two = record {
  version = 2;
  files = (codes "a", record { hash = codes "h"; size = 3; mtime = 0 }) ∷ [];
}

abbrev remote_file : Opening
remote_file = opened (read_bytes (codes "{}"))

read_run : read_manifest decode decode_v1 www remote_file ≡ ok read_two
unfolding read_manifest safe_join within clean join split join_parts sort_strings
read_run = refl

read_manifest-IsConfined_example : IsConfined www read_two
read_manifest-IsConfined_example =
    read_manifest-IsConfined decode decode_v1 www remote_file read_run

abbrev hash_file : Bytes → Result Bytes Bytes
hash_file path = ok (codes "h")

abbrev cached : Map ManifestEntry
cached = (codes "a", stored (codes "h")) ∷ []

cached-IsReliable : IsReliable hash_file cached (item (codes "a") [])
cached-IsReliable e found timed size time = cc

-- No file can be read.
abbrev unread : Bytes → Result Bytes Bytes
unread path = err path

hash_plan_files-reliable_example :
    hash_plan_files unread cached (item (codes "a") [] ∷ [])
    ≡ hash_plan_files hash_file [] (item (codes "a") [] ∷ [])
hash_plan_files-reliable_example =
    hash_plan_files-reliable hash_file unread cached (item (codes "a") [] ∷ [])
      (cached-IsReliable, tt)
      (inl (stored (codes "h"), refl, λ z. omega (arith, z), refl, refl), tt)

select-to_delete_example :
    contains (select www two.files (item (codes "c") (codes "n") ∷ [])).to_delete (codes "a") ≡ (
      is_key two.files (codes "a")
      && (not (is_planned (item (codes "c") (codes "n") ∷ []) (codes "a"))
          && accepts www (codes "a")))
select-to_delete_example =
    select-to_delete www two.files (item (codes "c") (codes "n") ∷ []) (codes "a")

select_run : (select www two.files (item (codes "c") (codes "n") ∷ [])).to_delete ≡ codes "a" ∷ []
unfolding select safe_join within clean join split join_parts sort_strings
select_run = refl

-- The server holds the file `a` of the cached entry.
abbrev holds_a : Server
holds_a k = if eq_bytes (codes "a") k then some (codes "h") else none

abbrev old : Manifest
old = record { version = 3; files = cached }

holds_a-Tells : Tells old.files holds_a
holds_a-Tells k e out found = ground arith

merged_manifest-Tells_example :
    (m : Manifest) × (merged_manifest old
        (item (codes "c") (codes "n") ∷ [])
        (true ∷ [])
        ((codes "a" ∷ []) ++ [])
      ≡ some m)
    × Tells m.files
        (after_run holds_a (codes "a" ∷ []) (item (codes "c") (codes "n") ∷ []) (true ∷ []) [])
    × IsComplete old m (item (codes "c") (codes "n") ∷ []) (true ∷ []) (codes "a" ∷ [])
merged_manifest-Tells_example =
    merged_manifest-Tells old holds_a (codes "a" ∷ []) (item (codes "c") (codes "n") ∷ [])
      (true ∷ []) [] refl holds_a-Tells

-- A stale file at a directory of the plan, one below a planned file, and one that is in no way.
abbrev stale : List Bytes
stale = codes "a" ∷ codes "b/x" ∷ codes "c" ∷ []

abbrev plan : List FileItem
plan = item (codes "a/i") [] ∷ item (codes "b") [] ∷ []

abbrev same_segment : Bytes → Bytes
same_segment s = s

colliding_run :
    colliding_deletes same_segment stale plan ≡ (codes "a" ∷ codes "b/x" ∷ [], codes "c" ∷ [])
unfolding colliding_deletes visit_dirs dir clean split join_parts
colliding_run = refl

first_byte : {c d : ℕ} {s t : Bytes} → c ∷ s ≡ d ∷ t → c ≡ d
first_byte e = cc

one_letter : (c : ℕ) → 47 < c → IsName (c ∷ [])
one_letter c h = record {
  no_slash = (λ e. absurd (omega (arith, e, h)), tt);
  not_empty = λ e. cc;
  not_dot = λ e. absurd (omega (arith, first_byte e, h));
  not_dot_dot = λ e. cc;
}

c_path : path_of (codes "c" ∷ []) ≡ codes "c"
unfolding render join_parts
c_path = refl

c_is_kept : contains (colliding_deletes same_segment stale plan).1 (path_of (codes "c" ∷ [])) ≡ true
unfolding colliding_deletes visit_dirs dir clean split join_parts
c_is_kept = refl

b_is_planned : contains (rels plan) (path_of (codes "b" ∷ [])) ≡ true
unfolding render join_parts
b_is_planned = refl

colliding_deletes-rest_example :
    ((pre : List Bytes) → codes "b" ∷ [] ≢ pre ++ codes "c" ∷ [])
    × ((pre : List Bytes) → codes "c" ∷ [] ≢ pre ++ codes "b" ∷ [])
    × (fold_path same_segment (path_of (codes "c" ∷ []))
        ≢ fold_path same_segment (path_of (codes "b" ∷ [])))
colliding_deletes-rest_example =
    colliding_deletes-rest same_segment stale plan (codes "c") [] (codes "b") []
      (one_letter 99 (omega arith), tt) (one_letter 98 (omega arith), tt) c_is_kept b_is_planned

file-IsBelow :
    IsBelow true (codes "w" ∷ []) (render (under true (codes "f" ∷ codes "d" ∷ codes "w" ∷ [])))
file-IsBelow = (
  codes "f",
  codes "d" ∷ [],
  (one_letter 102 (omega arith), (one_letter 100 (omega arith), tt)),
  refl,
)

prune_run :
    prune_candidates (codes "/w") (codes "/w/d/e/f" ∷ codes "/w/d/g" ∷ []) []
    ≡ codes "/w/d" ∷ codes "/w/d/e" ∷ []
unfolding prune_candidates dir clean split join_parts
prune_run = refl

collide_parents_run :
    collide_parents (codes "about" ∷ []) (codes "about/sub/p" ∷ codes "x" ∷ []) []
    ≡ codes "about/sub" ∷ codes "about" ∷ []
unfolding collide_parents visit_dirs dir clean split join_parts sort_strings
collide_parents_run = refl

-- ===== src/Sync/Collide.antt =====
-- foldPath, collidingDeletes and the directories of clearCollideParents and pruneEmptyDirs in
-- internal/uploader/sync.go.
pub mod Clash
pub mod Apart
pub mod Below
use easy_sftp.Prelude.{
  ℕ, zero, suc, ◌||◌, not, Bool, true, false, if◌then◌else◌, Bytes, List, [], ◌∷◌, ◌++◌, map,
  reverse, eq_bytes, length,
}
use easy_sftp.Strings.{split, join_parts, sort_strings}
use easy_sftp.SlashPath.{dir}
use easy_sftp.Remote.Dirs.{visit_dirs, is_top, contains}
use easy_sftp.Planner.Tree.{FileItem}

abbrev pub rels : List FileItem → List Bytes
rels [] = []
rels (f ∷ plan) = f.rel ∷ rels plan

-- dir == "." || dir == "/" || dir == ""
abbrev pub is_end : Bytes → Bool
is_end d = is_top d || eq_bytes d []

-- The loop `for dir := rel; …`, and the loop `for dir := path.Dir(rel); …`.
abbrev pub and_above : Bytes → List Bytes
and_above rel = visit_dirs (suc (length rel)) is_end rel

abbrev pub above : Bytes → List Bytes
above rel = visit_dirs (suc (length rel)) is_end (dir rel)

abbrev pub keep : (Bytes → Bool) → List Bytes → List Bytes
keep test [] = []
keep test (x ∷ xs) = let rest = keep test xs in if test x then x ∷ rest else rest

abbrev pub exists : (Bytes → Bool) → List Bytes → Bool
exists test [] = false
exists test (x ∷ xs) = test x || exists test xs

-- The first loop: the stale paths at or above planned files.
abbrev pub mark_above : List Bytes → List Bytes → List Bytes → List Bytes
mark_above stale [] conflict = conflict
mark_above stale (rel ∷ planned) conflict =
    mark_above stale planned (keep (contains stale) (and_above rel) ++ conflict)

-- The second and the third loop: they mark what is not marked yet and passes a test.
abbrev pub mark : (Bytes → Bool) → List Bytes → List Bytes → List Bytes
mark test [] conflict = conflict
mark test (rel ∷ stale) conflict =
    mark test stale
      (if contains conflict rel then conflict else (if test rel then rel ∷ conflict else conflict))

-- The first of the directories above a path that is a planned file: the empty path where none is.
abbrev pub first_planned : List Bytes → List Bytes → Bytes
first_planned planned [] = []
first_planned planned (d ∷ dirs) = if contains planned d then d else first_planned planned dirs

-- The inner loop that collects the directories from a path's parent up to `top`.
unfoldable pub collect_up_to : Bytes → List Bytes → List Bytes → List Bytes
collect_up_to top [] seen = seen
collect_up_to top (d ∷ dirs) seen =
    let more = collect_up_to top dirs (d ∷ seen) in
    if contains seen d then seen else (if eq_bytes d top then d ∷ seen else more)

-- The directories of clearCollideParents, in the order in which they are removed. `above` visits no
-- directory twice, so the list of what was seen holds each once.
unfoldable pub collide_parents : List Bytes → List Bytes → List Bytes → List Bytes
unfolding collect_up_to
collide_parents planned [] seen = reverse (sort_strings seen)
collide_parents planned (rel ∷ colliding) seen =
    let top = first_planned planned (above rel) in
    collide_parents planned colliding
      (if eq_bytes top [] then seen else collect_up_to top (above rel) seen)

-- The loop of pruneEmptyDirs for one deleted file: it stops at the base, at a top, and at what was seen.
unfoldable pub climb_new : ℕ → Bytes → Bytes → List Bytes → List Bytes
climb_new zero base d seen = seen
climb_new (suc f) base d seen = elim (eq_bytes d base || is_top d) [
  | true ↦ seen
  | false ↦ elim (contains seen d) [ true ↦ seen | false ↦ climb_new f base (dir d) (d ∷ seen) ]
]

-- The candidates of pruneEmptyDirs, the last one found first.
unfoldable pub prune_candidates : Bytes → List Bytes → List Bytes → List Bytes
unfolding climb_new
prune_candidates base [] seen = seen
prune_candidates base (f ∷ deleted) seen =
    prune_candidates base deleted (climb_new (suc (length f)) base (dir f) seen)

module _ (fold_segment : Bytes → Bytes) where
  -- foldPath
  unfoldable pub fold_path : Bytes → Bytes
  fold_path p = join_parts (map fold_segment (split p))

  -- The paths that collide.
  unfoldable pub conflicts : List Bytes → List FileItem → List Bytes
  unfolding fold_path
  conflicts to_delete plan =
      let planned = rels plan in
      mark (λ rel. contains (map fold_path planned) (fold_path rel)) to_delete
        (mark (λ rel. exists (contains planned) (above rel)) to_delete
          (mark_above to_delete planned []))

  -- collidingDeletes
  unfoldable pub colliding_deletes : List Bytes → List FileItem → List Bytes × List Bytes
  unfolding conflicts
  colliding_deletes to_delete plan = (
    keep (contains (conflicts to_delete plan)) to_delete,
    keep (λ rel. not (contains (conflicts to_delete plan) rel)) to_delete,
  )

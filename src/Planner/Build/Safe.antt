-- ===== src/Planner/Build/Safe.antt =====
-- What the plan of a pair holds: pruning loses no file, and nothing excluded is planned.
use easy_sftp.Prelude.{
  ◌≡◌, ◌≢◌, arith, eq_bytes_iff, refl, sym, ap, ◌∙◌, Bool, true, false, Bytes, List, [], ◌∷◌, inl,
  inr, Bool-cases, subst, All, All-append, Result, ok, err, >>=-eq-ok,
}
use easy_sftp.SlashPath.{dot, join}
use easy_sftp.Gitignore.Matcher.{GitignoreMatcher, matches_how}
use easy_sftp.Gitignore.Matcher.Plain.{NoNegation}
use easy_sftp.Gitignore.Compile.{has_negation, compile_gitignore}
use easy_sftp.Gitignore.Compile.Negation.{compile_gitignore-NoNegation}
use easy_sftp.Planner.Tree.{
  FileInfo, FileItem, Entry, file, vanished, unreadable, directory, Entries, no_more, entry,
}
use easy_sftp.Planner.Walk.{
  WalkOptions, Found, WalkError, child_rel, is_left_out, visit_file, skips_dir, walk_entry,
  walk_entries, walk_dir, plan_item,
}
use easy_sftp.Planner.Walk.Prune.{walk_dir-pruned}
use easy_sftp.Planner.Build.{
  Strategy, Local, missing, single, tree, Plan, PlanOptions, walk_options, plan_of_walk, build_plan,
  plan_pair,
}

ok-injective : {E A : Type 0} {a b : A} → Path (Result E A) (ok a) (ok b) → a ≡ b
ok-injective e = cc

err_is_not_ok : {E A : Type 0} {e : E} {a : A} → Path (Result E A) (err e) (ok a) → ⊥
err_is_not_ok h = cc

plan_of_walk-ok :
    (s : Strategy) (r : Result WalkError Found) {p : Plan}
    → plan_of_walk s r ≡ ok p
    → (found : Found) × (r ≡ ok found)
unfolding plan_of_walk
plan_of_walk-ok s (err e) h = cc
plan_of_walk-ok s (ok found) h = (found, refl)

module _ (s : Strategy) (local remote : Bytes) (lines : List Bytes) (manifest_name : Bytes)
    (m : GitignoreMatcher) where
  abbrev options : Bool → PlanOptions
  options prune = record { matcher = m; prune_dirs = prune; manifest_name = manifest_name }

  build-pruned :
      (src : Local) {p : Plan}
      → NoNegation m
      → build_plan s local remote (options false) src ≡ ok p
      → build_plan s local remote (options true) src ≡ ok p
  unfolding build_plan
  build-pruned missing plain h = cc
  build-pruned (single base info) plain h = h
  build-pruned (tree root entries) plain h =
      let (found, walked) =
        plan_of_walk-ok s (walk_dir (walk_options root remote (options false)) entries) h in
      ap (plan_of_walk s) (
        walk_dir-pruned (walk_options root remote (options false)) entries plain walked
        ∙ sym walked)
      ∙ h

  -- Where the pair's ignore lines compile, and planning without pruning gives a plan, planning the
  -- pair, which skips excluded directories where no line re-includes, gives the same plan.
  pub plan_pair-whole_walk :
      (src : Local) {p : Plan}
      → compile_gitignore lines ≡ ok m
      → build_plan s local remote
          (record { matcher = m; prune_dirs = false; manifest_name = manifest_name })
          src
        ≡ ok p
      → plan_pair s local remote lines manifest_name src ≡ ok p
  unfolding plan_pair
  plan_pair-whole_walk src compiled h = elim (Bool-cases (has_negation lines)) [
    | inl negated ↦ rw (compiled, plan_pair) (rw negated h)
    | inr plain ↦
        rw (compiled, plan_pair)
          (rw plain (build-pruned src (compile_gitignore-NoNegation lines plain compiled) h))
  ]

-- A planned file is not the manifest, no pattern excludes its path, and it goes from the walked root to the
-- remote base by its relative path.
abbrev pub IsPlanned : WalkOptions → FileItem → Type 0
IsPlanned o f =
    (f.rel ≢ o.manifest_name)
    × ((matches_how o.matcher f.rel false).0 ≡ false)
    × (f.local_path ≡ join o.walk_root f.rel)
    × (f.remote_path ≡ join o.remote_base f.rel)

not_left_out :
    (o : WalkOptions) (rel : Bytes)
    → is_left_out o rel ≡ false
    → (rel ≢ o.manifest_name) × ((matches_how o.matcher rel false).0 ≡ false)
unfolding is_left_out
not_left_out o rel h = (λ e. ground (arith, eq_bytes_iff rel o.manifest_name, e), ground arith)

module _ (o : WalkOptions) where
  visit-IsPlanned :
      (rel : Bytes) (info : FileInfo) (found : Found)
      → All (IsPlanned o) found.files
      → All (IsPlanned o) (visit_file o rel info found).files
  unfolding visit_file
  visit-IsPlanned rel info found h = elim (Bool-cases (is_left_out o rel)) [
    | inl out ↦ rw out h
    | inr kept ↦ elim (Bool-cases info.regular) [
      | inr special ↦ rw (kept, special) h
      | inl regular ↦
          rw (kept, regular)
            (All-append (IsPlanned o) found.files (plan_item o rel info ∷ []) h (
              unfold plan_item in
              (((not_left_out o rel kept).0, (not_left_out o rel kept).1, refl, refl), tt)))
    ]
  ]

  mutual
    unfolding walk_entries

    entry-IsPlanned :
        (e : Entry) (dir : Bytes) (found : Found) {found' : Found}
        → All (IsPlanned o) found.files
        → walk_entry o dir e found ≡ ok found'
        → All (IsPlanned o) found'.files
    entry-IsPlanned (file name info) dir found {found'} h e =
        subst (λ w. All (IsPlanned o) w.files) (ok-injective e)
          (visit-IsPlanned (child_rel dir name) info found h)
    entry-IsPlanned (vanished name) dir found {found'} h e =
        elim (Bool-cases (is_left_out o (child_rel dir name))) [
          | inl out ↦ subst (λ w. All (IsPlanned o) w.files) (ok-injective (rw out at e)) h
          | inr kept ↦ absurd (err_is_not_ok (rw kept at e))
        ]
    entry-IsPlanned (unreadable name) dir found h e = absurd (err_is_not_ok e)
    entry-IsPlanned (directory name entries) dir found {found'} h e =
        elim (Bool-cases (skips_dir o (child_rel dir name))) [
          | inl skip ↦ subst (λ w. All (IsPlanned o) w.files) (ok-injective (rw skip at e)) h
          | inr descend ↦ entries-IsPlanned entries (child_rel dir name) found h (rw descend at e)
        ]

    entries-IsPlanned :
        (es : Entries) (dir : Bytes) (found : Found) {found' : Found}
        → All (IsPlanned o) found.files
        → walk_entries o dir es found ≡ ok found'
        → All (IsPlanned o) found'.files
    entries-IsPlanned no_more dir found {found'} h e =
        subst (λ w. All (IsPlanned o) w.files) (ok-injective e) h
    entries-IsPlanned (entry e es) dir found h walked =
        let (middle, first, rest) = >>=-eq-ok (walk_entry o dir e found) _ walked in
        entries-IsPlanned es dir middle (entry-IsPlanned e dir found h first) rest

-- Where a directory is planned, the relative path of every file of the plan is not the manifest's
-- name, and the patterns do not exclude it. Its local path is the walked root joined with its relative
-- path, its remote path the remote base joined with its relative path.
pub build_plan-IsPlanned :
    (s : Strategy) (local remote : Bytes) (o : PlanOptions) (root : Bytes) (entries : Entries)
    {p : Plan}
    → build_plan s local remote o (tree root entries) ≡ ok p
    → All (IsPlanned (walk_options root remote o)) p.files
unfolding build_plan plan_of_walk walk_dir
build_plan-IsPlanned s local remote o root entries {p} h =
    let w = walk_options root remote o in
    let (found, walked) = plan_of_walk-ok s (walk_dir w entries) h in
    let planned =
      entries-IsPlanned w entries dot (record { files = []; skipped_non_regular = 0 }) tt walked in
    subst (λ q. All (IsPlanned w) q.files) (ok-injective (sym (ap (plan_of_walk s) walked) ∙ h))
      planned

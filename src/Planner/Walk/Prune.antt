-- ===== src/Planner/Walk/Prune.antt =====
-- Pruning: without re-includes the walk that skips excluded directories plans the same files as the
-- walk that descends everywhere.
use easy_sftp.Prelude.{
  ◌≡◌, refl, sym, ap, ◌∙◌, Bool, true, false, Bytes, [], ◌∷◌, ◌++◌, arith, inl, inr, Bool-cases,
  eq_bytes, Result, ok, >>=-eq-ok, append_assoc,
}
use easy_sftp.SlashPath.{dot}
use easy_sftp.Gitignore.Matcher.{matches_how}
use easy_sftp.Gitignore.Matcher.Plain.{NoNegation, matches_how-below, below_is_no_dot}
use easy_sftp.Planner.Tree.{
  FileInfo, Entry, file, vanished, unreadable, directory, Entries, no_more, entry,
}
use easy_sftp.Planner.Walk.{
  WalkOptions, Found, child_rel, is_left_out, visit_file, skips_dir, walk_entry, walk_entries,
  walk_dir, plan_item,
}

ok-injective : {E A : Type 0} {a b : A} → Path (Result E A) (ok a) (ok b) → a ≡ b
ok-injective e = cc

module _ (o : WalkOptions) (plain : NoNegation o.matcher) (d : Bytes)
    (excluded : (matches_how o.matcher d true).0 ≡ true) where
  -- A path below the excluded directory.
  abbrev IsBelow : Bytes → Type 0
  IsBelow rel = (rest : Bytes) × (rel ≡ d ++ b'/' ∷ rest)

  below-left_out : (rel : Bytes) → IsBelow rel → is_left_out o rel ≡ true
  unfolding is_left_out
  below-left_out rel (rest, e) = elim (Bool-cases (eq_bytes rel o.manifest_name)) [
    | inl manifest ↦ rw manifest
    | inr other ↦ rw other (rw e (matches_how-below o.matcher plain d rest false excluded))
  ]

  child-IsBelow : (dir name : Bytes) → IsBelow dir → IsBelow (child_rel dir name)
  child-IsBelow dir name (rest, e) = (
    rest ++ b'/' ∷ name,
    rw (e, below_is_no_dot o.matcher plain d rest) (append_assoc d (b'/' ∷ rest) (b'/' ∷ name)),
  )

  visit_left_out :
      (rel : Bytes) (info : FileInfo) (found : Found)
      → is_left_out o rel ≡ true
      → visit_file o rel info found ≡ found
  unfolding visit_file
  visit_left_out rel info found e = rw e

  mutual
    unfolding walk_entries

    -- A walk below the excluded directory plans nothing.
    below_entry :
        (e : Entry) (dir : Bytes) (found : Found) {found' : Found}
        → ((name : Bytes) → IsBelow (child_rel dir name))
        → walk_entry o dir e found ≡ ok found'
        → found ≡ found'
    below_entry (file name info) dir found b h =
        sym (
          visit_left_out (child_rel dir name) info found
            (below-left_out (child_rel dir name) (b name)))
        ∙ ok-injective h
    below_entry (vanished name) dir found b h =
        ok-injective (rw (below-left_out (child_rel dir name) (b name)) at h)
    below_entry (unreadable name) dir found b h = cc
    below_entry (directory name entries) dir found b h =
        elim (Bool-cases (skips_dir o (child_rel dir name))) [
          | inl skip ↦ ok-injective (rw skip at h)
          | inr descend ↦
              below_entries entries (child_rel dir name) found
                (λ n. child-IsBelow (child_rel dir name) n (b name)) (rw descend at h)
        ]

    below_entries :
        (es : Entries) (dir : Bytes) (found : Found) {found' : Found}
        → ((name : Bytes) → IsBelow (child_rel dir name))
        → walk_entries o dir es found ≡ ok found'
        → found ≡ found'
    below_entries no_more dir found b h = ok-injective h
    below_entries (entry e es) dir found b h =
        let (middle, first, rest) = >>=-eq-ok (walk_entry o dir e found) _ h in
        below_entry e dir found b first ∙ below_entries es dir middle b rest

-- The walk with pruning switched on or off.
abbrev pub pruning : Bool → WalkOptions → WalkOptions
pruning on o = record o { prune_dirs = on }

module _ (o : WalkOptions) (plain : NoNegation o.matcher) where
  skipped_is_excluded :
      (rel : Bytes)
      → skips_dir (pruning true o) rel ≡ true
      → (eq_bytes rel dot ≡ false) × ((matches_how o.matcher rel true).0 ≡ true)
  unfolding skips_dir
  skipped_is_excluded rel h = ground arith

  never_skips : (rel : Bytes) → skips_dir (pruning false o) rel ≡ false
  unfolding skips_dir
  never_skips rel = refl

  mutual
    unfolding walk_entries visit_file is_left_out plan_item

    entry-pruned :
        (e : Entry) (dir : Bytes) (found : Found) {found' : Found}
        → walk_entry (pruning false o) dir e found ≡ ok found'
        → walk_entry (pruning true o) dir e found ≡ ok found'
    entry-pruned (file name info) dir found h = h
    entry-pruned (vanished name) dir found h = h
    entry-pruned (unreadable name) dir found h = h
    entry-pruned (directory name entries) dir found h =
        let rel = child_rel dir name in
        let full = rw (never_skips rel) at h in
        elim (Bool-cases (skips_dir (pruning true o) rel)) [
          | inl skip ↦
              let (not_dot, excluded) = skipped_is_excluded rel skip in
              rw skip (
                ap ok (
                  below_entries (pruning false o) plain rel excluded entries rel found
                    (λ n. (n, rw not_dot)) full))
          | inr descend ↦ rw descend (entries-pruned entries rel found full)
        ]

    entries-pruned :
        (es : Entries) (dir : Bytes) (found : Found) {found' : Found}
        → walk_entries (pruning false o) dir es found ≡ ok found'
        → walk_entries (pruning true o) dir es found ≡ ok found'
    entries-pruned no_more dir found h = h
    entries-pruned (entry e es) dir found h =
        let (middle, first, rest) = >>=-eq-ok (walk_entry (pruning false o) dir e found) _ h in
        rw (entry-pruned e dir found first) (entries-pruned es dir middle rest)

-- Where the walk over everything succeeds, the pruned walk succeeds with the same plan.
pub walk_dir-pruned :
    (o : WalkOptions) (entries : Entries) {found : Found}
    → NoNegation o.matcher
    → walk_dir (pruning false o) entries ≡ ok found
    → walk_dir (pruning true o) entries ≡ ok found
unfolding walk_dir
walk_dir-pruned o entries plain h =
    entries-pruned o plain entries dot (record { files = []; skipped_non_regular = 0 }) h

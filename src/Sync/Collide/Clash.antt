-- ===== src/Sync/Collide/Clash.antt =====
-- collidingDeletes splits the stale paths: those that a planned file needs out of its way, and the rest.
use easy_sftp.Prelude.{
  ◌≡◌, refl, ap, ap₂, ◌∙◌, ◌||◌, ◌&&◌, not, Bool, true, if◌then◌else◌, Bytes, List, [], ◌∷◌, ◌++◌,
  map, eq_bytes, eq_bytes_sound, eq_bytes_refl, arith,
}
use easy_sftp.Remote.Dirs.{contains}
use easy_sftp.Planner.Tree.{FileItem}
use easy_sftp.Sync.Store.{contains-append}
use easy_sftp.Sync.Collide.{
  rels, and_above, above, keep, exists, mark_above, mark, fold_path, conflicts, colliding_deletes,
}

pub contains-keep :
    (test : Bytes → Bool) (xs : List Bytes) (k : Bytes)
    → contains (keep test xs) k ≡ (contains xs k && test k)
contains-keep test [] k = refl
contains-keep test (x ∷ xs) k =
    ground
      (arith, contains-keep test xs k, λ (e : eq_bytes x k ≡ true). ap test (eq_bytes_sound x k e))

mark-contains :
    (test : Bytes → Bool) (stale conflict : List Bytes) (k : Bytes)
    → contains (mark test stale conflict) k ≡ (contains conflict k || (contains stale k && test k))
mark-contains test [] conflict k = ground arith
mark-contains test (x ∷ stale) conflict k =
    mark-contains test stale
      (if contains conflict x then conflict else (if test x then x ∷ conflict else conflict)) k
    ∙ ground (
      arith,
      λ (e : eq_bytes x k ≡ true). ap test (eq_bytes_sound x k e),
      λ (e : eq_bytes x k ≡ true). ap (contains conflict) (eq_bytes_sound x k e),
    )

mark_above-contains :
    (stale planned conflict : List Bytes) (k : Bytes)
    → contains (mark_above stale planned conflict) k ≡ (
        contains conflict k
        || (contains stale k && exists (λ rel. contains (and_above rel) k) planned))
mark_above-contains stale [] conflict k = ground arith
mark_above-contains stale (rel ∷ planned) conflict k =
    mark_above-contains stale planned (keep (contains stale) (and_above rel) ++ conflict) k
    ∙ ground (
      arith,
      contains-append (keep (contains stale) (and_above rel)) conflict k,
      contains-keep (contains stale) (and_above rel) k,
    )

-- Two filters that agree on what is in the list.
keep-agree :
    (test test' : Bytes → Bool) (xs : List Bytes)
    → ((k : Bytes) → contains xs k ≡ true → test k ≡ test' k)
    → keep test xs ≡ keep test' xs
keep-agree test test' [] h = refl
keep-agree test test' (x ∷ xs) h =
    let here = h x (rw (eq_bytes_refl x) refl) in
    let rest = keep-agree test test' xs (λ k m. h k (ground (arith, m))) in rw (here, rest) refl

module _ (fold_segment : Bytes → Bytes) where
  -- The path is that of a planned file or lies above one, lies below one, or folds to the key of one.
  abbrev pub clashes : List Bytes → Bytes → Bool
  clashes planned k =
      (exists (λ rel. contains (and_above rel) k) planned || exists (contains planned) (above k))
      || contains (map (fold_path fold_segment) planned) (fold_path fold_segment k)

  conflicts-contains :
      (to_delete : List Bytes) (plan : List FileItem) (k : Bytes)
      → contains (conflicts fold_segment to_delete plan) k
        ≡ (contains to_delete k && clashes (rels plan) k)
  unfolding conflicts
  conflicts-contains to_delete plan k =
      let planned = rels plan in
      let above_planned = mark_above to_delete planned [] in
      let below_too = mark (λ rel. exists (contains planned) (above rel)) to_delete above_planned in
      mark-contains
        (λ rel. contains (map (fold_path fold_segment) planned) (fold_path fold_segment rel))
        to_delete below_too k
      ∙ ground (
        arith,
        mark-contains (λ rel. exists (contains planned) (above rel)) to_delete above_planned k,
        mark_above-contains to_delete planned [] k,
      )

  -- collidingDeletes splits the stale paths by whether they clash with the plan (at or above a planned
  -- file, below one, or with the folded key of one), and both parts keep the order of the list.
  pub colliding_deletes-clashes :
      (to_delete : List Bytes) (plan : List FileItem)
      → colliding_deletes fold_segment to_delete plan
        ≡ (keep (clashes (rels plan)) to_delete, keep (λ k. not (clashes (rels plan) k)) to_delete)
  unfolding colliding_deletes
  colliding_deletes-clashes to_delete plan =
      let hit = conflicts fold_segment to_delete plan in
      let same : (k : Bytes)
          → contains to_delete k ≡ true
          → contains hit k ≡ clashes (rels plan) k =
        λ k m. conflicts-contains to_delete plan k ∙ ap (λ b. b && clashes (rels plan) k) m in
      ap₂ (λ (a b : List Bytes). (a, b))
        (keep-agree (contains hit) (clashes (rels plan)) to_delete same)
        (keep-agree (λ k. not (contains hit k)) (λ k. not (clashes (rels plan) k)) to_delete
          (λ k m. ap not (same k m)))

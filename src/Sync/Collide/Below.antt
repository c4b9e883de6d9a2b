-- ===== src/Sync/Collide/Below.antt =====
-- The directories that pruneEmptyDirs tries to remove lie strictly below the base of the deployment.
use easy_sftp.Prelude.{
  ℕ, zero, suc, ◌≡◌, refl, sym, ap, ◌∙◌, ◌||◌, Bool, Bytes, List, [], ◌∷◌, ◌++◌, length, eq_bytes,
  eq_bytes_refl, Bool-cases, inl, inr, All, All-append, subst,
}
use easy_sftp.SlashPath.{IsName, render, dir}
use easy_sftp.Remote.Dirs.{is_top, contains}
use easy_sftp.Remote.Dirs.Ancestors.{under, dir-under}
use easy_sftp.Sync.Collide.{climb_new, prune_candidates}

module _ (r : Bool) (bs : List Bytes) where
  -- The path lies strictly below the base, by one name at least.
  abbrev pub IsBelow : Bytes → Type 0
  IsBelow d =
      (n : Bytes) × (ns : List Bytes) × All IsName (n ∷ ns)
      × (d ≡ render (under r ((n ∷ ns) ++ bs)))

  climb_new-IsBelow :
      (f : ℕ) (ns seen : List Bytes)
      → All IsName (ns ++ bs)
      → All IsName ns
      → All IsBelow seen
      → All IsBelow (climb_new f (render (under r bs)) (render (under r (ns ++ bs))) seen)
  unfolding climb_new
  climb_new-IsBelow zero ns seen hb hn h = h
  climb_new-IsBelow (suc f) [] seen hb hn h = rw (eq_bytes_refl (render (under r bs)), climb_new) h
  climb_new-IsBelow (suc f) (n ∷ ns) seen hb hn h =
      let base = render (under r bs) in
      let d = render (under r ((n ∷ ns) ++ bs)) in
      elim (Bool-cases (eq_bytes d base || is_top d)) [
        | inl stop ↦ rw (stop, climb_new) h
        | inr go ↦ elim (Bool-cases (contains seen d)) [
          | inl old ↦ rw (go, climb_new) (rw (old, climb_new) h)
          | inr new ↦
              rw (go, climb_new)
                (rw (new, climb_new)
                  (rw (dir-under r n (ns ++ bs) hb)
                    (climb_new-IsBelow f ns (d ∷ seen) hb.1 hn.1 ((n, ns, hn, refl), h))))
        ]
      ]

  -- Where the base is a clean path given by its names, and the deleted files and the directories seen
  -- so far lie strictly below it, every directory that pruneEmptyDirs tries to remove lies strictly
  -- below the base.
  pub prune_candidates-IsBelow :
      (deleted seen : List Bytes)
      → All IsName bs
      → All IsBelow deleted
      → All IsBelow seen
      → All IsBelow (prune_candidates (render (under r bs)) deleted seen)
  unfolding prune_candidates
  prune_candidates-IsBelow [] seen hb hd h = h
  prune_candidates-IsBelow (f ∷ deleted) seen hb hd h =
      let base = render (under r bs) in
      let (n, ns, hn, e) = hd.0 in
      let named = All-append IsName ns bs hn.1 hb in
      let up : dir f ≡ render (under r (ns ++ bs)) =
        ap dir e ∙ dir-under r n (ns ++ bs) (hn.0, named) in
      prune_candidates-IsBelow deleted (climb_new (suc (length f)) base (dir f) seen) hb hd.1 (
        subst (λ d. All IsBelow (climb_new (suc (length f)) base d seen)) (sym up)
          (climb_new-IsBelow (suc (length f)) ns seen named hn.1 h))

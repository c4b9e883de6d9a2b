-- ===== src/Remote/Create/Made.antt =====
-- What is on the server after the directories were created.
use easy_sftp.Prelude.{
  ℕ, ◌≡◌, refl, sym, subst, Bool, true, false, List, [], ◌∷◌, ◌++◌, Bytes, Option, none, some,
  Result, ok, err, Result-cases, inl, inr, All, All-map, ◌≢◌, ◌∙◌, eq_bytes, eq_bytes_iff,
  eq_bytes_refl, eq_bytes_sound, Bool-cases, arith,
}
use easy_sftp.SlashPath.{dir}
use easy_sftp.Sync.Store.{contains-sort_strings}
use easy_sftp.Remote.Dirs.{contains, dirs_of, without_children, parent_dirs, leaf_dirs}
use easy_sftp.Remote.Delete.{Answer, done, conn_error, not_exist, permission, failure}
use easy_sftp.Session.Do.{Line, do_op}
use easy_sftp.Session.Do.Outlasts.{do_op-keeps, do_op-ensures}
use easy_sftp.Remote.Create.{
  Maker, DirError, dir_error_is_conn, after_stat, first_conflict, non_dir_conflict, after_conflict,
  confirm, after_mkdir, make_leaf, make_leaves, chmod_told, set_modes, with_modes,
  create_remote_dirs,
}

-- What the requests promise: a directory that is made or seen is there, and no request takes one away.
pub record MakerPromises {S : Type 0} (m : Maker S) (line : Line S) (IsDirAt : S → Bytes → Type 0)
    : Type 0 where
  pub makes : (d : Bytes) (s : S) → (m.mkdir_all d s).1 ≡ done → IsDirAt (m.mkdir_all d s).0 d
  pub sees : (d : Bytes) (s : S) → (m.stat d s).1 ≡ ok true → IsDirAt (m.stat d s).0 d
  pub mkdir_keeps : (p d : Bytes) (s : S) → IsDirAt s p → IsDirAt (m.mkdir_all d s).0 p
  pub stat_keeps : (p d : Bytes) (s : S) → IsDirAt s p → IsDirAt (m.stat d s).0 p
  pub chmod_keeps : (p d : Bytes) (mode : ℕ) (s : S) → IsDirAt s p → IsDirAt (m.chmod d mode s).0 p
  pub redial_keeps : (p : Bytes) (s : S) → IsDirAt s p → IsDirAt (line.redial s).0 p

clash : {e : DirError} {u : Unit {0}} → Path (Result DirError (Unit {0})) (err e) (ok u) → ⊥
clash h = cc

All-contains :
    (P : Bytes → Type 0) (ds : List Bytes) (d : Bytes) → All P ds → contains ds d ≡ true → P d
All-contains P [] d all h = cc
All-contains P (x ∷ ds) d all h = elim (Bool-cases (eq_bytes x d)) [
  | inl same ↦ subst P (eq_bytes_sound x d same) all.0
  | inr other ↦ All-contains P ds d all.1 (ground (arith, other))
]

-- No directory of the list lies directly in it.
abbrev pub IsChildless : Bytes → List Bytes → Type 0
IsChildless d [] = Unit
IsChildless d (c ∷ dirs) = (dir c ≢ d) × IsChildless d dirs

childless : (d : Bytes) (dirs : List Bytes) → IsChildless d dirs → contains (dirs_of dirs) d ≡ false
childless d [] h = refl
childless d (c ∷ dirs) h = ground (arith, childless d dirs h.1, eq_bytes_iff (dir c) d, h.0)

without_children-contains :
    (has_child dirs : List Bytes) (d : Bytes)
    → contains has_child d ≡ false
    → contains dirs d ≡ true
    → contains (without_children has_child dirs) d ≡ true
without_children-contains has_child [] d alone h = cc
without_children-contains has_child (x ∷ dirs) d alone h = elim (Bool-cases (eq_bytes x d)) [
  | inl same ↦
      let e : x ≡ d = eq_bytes_sound x d same in rw e (rw alone (ground (arith, eq_bytes_refl d)))
  | inr other ↦
      let rest = without_children-contains has_child dirs d alone (ground (arith, other)) in
      elim (Bool-cases (contains has_child x)) [
        | inl parent ↦ rw parent rest
        | inr leaf ↦ rw leaf (ground (arith, rest))
      ]
]

leaf_dirs-contains :
    (dirs : List Bytes) (d : Bytes)
    → contains dirs d ≡ true
    → IsChildless d dirs
    → contains (leaf_dirs dirs) d ≡ true
unfolding leaf_dirs
leaf_dirs-contains dirs d h alone =
    contains-sort_strings (without_children (dirs_of dirs) dirs) d
    ∙ without_children-contains (dirs_of dirs) dirs d (childless d dirs alone) h

module _ {S : Type 0} (m : Maker S) (line : Line S) (IsDirAt : S → Bytes → Type 0)
    (promises : MakerPromises m line IsDirAt) where
  module _ (p : Bytes) where
    stat_then_keeps :
        (d : Bytes) (rest : S → S × Result Answer (Option Bytes)) (r : S × Result Answer Bool)
        → ((s : S) → IsDirAt s p → IsDirAt (rest s).0 p)
        → IsDirAt r.0 p
        → IsDirAt (after_stat m d rest r).0 p
    stat_then_keeps d rest (s, ok true) all h = all s h
    stat_then_keeps d rest (s, ok false) all h = h
    stat_then_keeps d rest (s, err done) all h = all s h
    stat_then_keeps d rest (s, err conn_error) all h = h
    stat_then_keeps d rest (s, err not_exist) all h = all s h
    stat_then_keeps d rest (s, err permission) all h = all s h
    stat_then_keeps d rest (s, err failure) all h = all s h

    first_conflict-keeps :
        (dirs : List Bytes) (s : S) → IsDirAt s p → IsDirAt (first_conflict m dirs s).0 p
    unfolding first_conflict
    first_conflict-keeps [] s h = h
    first_conflict-keeps (d ∷ dirs) s h =
        stat_then_keeps d (λ t. first_conflict m dirs t) (m.stat d s)
          (λ t. first_conflict-keeps dirs t) (promises.stat_keeps p d s h)

    conflict_then_keeps :
        (d : Bytes) (why : Answer) (r : S × Result Answer (Option Bytes))
        → IsDirAt r.0 p
        → IsDirAt (after_conflict m d why r).0 p
    conflict_then_keeps d why (s, err answer) h = h
    conflict_then_keeps d why (s, ok none) h = h
    conflict_then_keeps d why (s, ok (some bad)) h = h

    confirm-keeps :
        (d : Bytes) (why : Answer) (r : S × Result Answer Bool)
        → IsDirAt r.0 p
        → IsDirAt (confirm m d why r).0 p
    unfolding non_dir_conflict
    confirm-keeps d why (s, ok true) h = h
    confirm-keeps d why (s, err conn_error) h = h
    confirm-keeps d why (s, ok false) h =
        conflict_then_keeps d why _ (first_conflict-keeps (parent_dirs d ++ d ∷ []) s h)
    confirm-keeps d why (s, err done) h =
        conflict_then_keeps d why _ (first_conflict-keeps (parent_dirs d ++ d ∷ []) s h)
    confirm-keeps d why (s, err not_exist) h =
        conflict_then_keeps d why _ (first_conflict-keeps (parent_dirs d ++ d ∷ []) s h)
    confirm-keeps d why (s, err permission) h =
        conflict_then_keeps d why _ (first_conflict-keeps (parent_dirs d ++ d ∷ []) s h)
    confirm-keeps d why (s, err failure) h =
        conflict_then_keeps d why _ (first_conflict-keeps (parent_dirs d ++ d ∷ []) s h)

    mkdir_then_keeps :
        (d : Bytes) (r : S × Answer) → IsDirAt r.0 p → IsDirAt (after_mkdir m d r).0 p
    mkdir_then_keeps d (s, done) h = h
    mkdir_then_keeps d (s, conn_error) h =
        confirm-keeps d conn_error _ (promises.stat_keeps p d s h)
    mkdir_then_keeps d (s, not_exist) h = confirm-keeps d not_exist _ (promises.stat_keeps p d s h)
    mkdir_then_keeps d (s, permission) h =
        confirm-keeps d permission _ (promises.stat_keeps p d s h)
    mkdir_then_keeps d (s, failure) h = confirm-keeps d failure _ (promises.stat_keeps p d s h)

    make_leaf-keeps : (d : Bytes) (s : S) → IsDirAt s p → IsDirAt (make_leaf m d s).0 p
    unfolding make_leaf
    make_leaf-keeps d s h = mkdir_then_keeps d (m.mkdir_all d s) (promises.mkdir_keeps p d s h)

    chmod_told-keeps : (r : S × Answer) → IsDirAt r.0 p → IsDirAt (chmod_told m r).0 p
    chmod_told-keeps (s, done) h = h
    chmod_told-keeps (s, conn_error) h = h
    chmod_told-keeps (s, not_exist) h = h
    chmod_told-keeps (s, permission) h = h
    chmod_told-keeps (s, failure) h = h

    set_modes-keeps :
        (mode : ℕ) (dirs : List Bytes) (left : ℕ) (s : S)
        → IsDirAt s p
        → IsDirAt (set_modes m line mode dirs left s).0 p
    unfolding set_modes
    set_modes-keeps mode [] left s h = h
    set_modes-keeps mode (d ∷ dirs) left s h = set_modes-keeps mode dirs _ _ (
        do_op-keeps dir_error_is_conn line (λ t. chmod_told m (m.chmod d mode t)) (λ t. IsDirAt t p)
          (λ t k. chmod_told-keeps (m.chmod d mode t) (promises.chmod_keeps p d mode t k))
          (promises.redial_keeps p) left s h)

    make_leaves-keeps :
        (dirs : List Bytes) (left : ℕ) (s : S)
        → IsDirAt s p
        → IsDirAt (make_leaves m line dirs left s).0 p
    unfolding make_leaves
    make_leaves-keeps [] left s h = h
    make_leaves-keeps (d ∷ dirs) left s h =
        let r = do_op dir_error_is_conn line left (λ t. make_leaf m d t) s in
        let k =
          do_op-keeps dir_error_is_conn line (λ t. make_leaf m d t) (λ t. IsDirAt t p)
            (make_leaf-keeps d) (promises.redial_keeps p) left s h in
        elim (Result-cases r.2) [
          | inl (e, failed) ↦ rw (failed, make_leaves) k
          | inr (u, made) ↦ rw (made, make_leaves) (make_leaves-keeps dirs r.1 r.0 k)
        ]

  no_conflict_ok :
      (d : Bytes) (why : Answer) (u : Unit {0}) (r : S × Result Answer (Option Bytes))
      → (after_conflict m d why r).1 ≡ ok u
      → ⊥
  no_conflict_ok d why u (s, err answer) h = cc
  no_conflict_ok d why u (s, ok none) h = cc
  no_conflict_ok d why u (s, ok (some bad)) h = cc

  confirm-makes :
      (d : Bytes) (why : Answer) (u : Unit {0}) (r : S × Result Answer Bool)
      → (r.1 ≡ ok true → IsDirAt r.0 d)
      → (confirm m d why r).1 ≡ ok u
      → IsDirAt (confirm m d why r).0 d
  confirm-makes d why u (s, ok true) seen h = seen refl
  confirm-makes d why u (s, err conn_error) seen h = cc
  confirm-makes d why u (s, ok false) seen h = absurd (no_conflict_ok d why u _ h)
  confirm-makes d why u (s, err done) seen h = absurd (no_conflict_ok d why u _ h)
  confirm-makes d why u (s, err not_exist) seen h = absurd (no_conflict_ok d why u _ h)
  confirm-makes d why u (s, err permission) seen h = absurd (no_conflict_ok d why u _ h)
  confirm-makes d why u (s, err failure) seen h = absurd (no_conflict_ok d why u _ h)

  mkdir_then_makes :
      (d : Bytes) (u : Unit {0}) (r : S × Answer)
      → (r.1 ≡ done → IsDirAt r.0 d)
      → (after_mkdir m d r).1 ≡ ok u
      → IsDirAt (after_mkdir m d r).0 d
  mkdir_then_makes d u (s, done) made h = made refl
  mkdir_then_makes d u (s, conn_error) made h =
      confirm-makes d conn_error u (m.stat d s) (promises.sees d s) h
  mkdir_then_makes d u (s, not_exist) made h =
      confirm-makes d not_exist u (m.stat d s) (promises.sees d s) h
  mkdir_then_makes d u (s, permission) made h =
      confirm-makes d permission u (m.stat d s) (promises.sees d s) h
  mkdir_then_makes d u (s, failure) made h =
      confirm-makes d failure u (m.stat d s) (promises.sees d s) h

  make_leaf-makes :
      (d : Bytes) (s : S) (u : Unit {0})
      → (make_leaf m d s).1 ≡ ok u
      → IsDirAt (make_leaf m d s).0 d
  unfolding make_leaf
  make_leaf-makes d s u h = mkdir_then_makes d u (m.mkdir_all d s) (promises.makes d s) h

  make_leaves-makes :
      (dirs : List Bytes) (left : ℕ) (s : S) (u : Unit {0})
      → (make_leaves m line dirs left s).2 ≡ ok u
      → All (IsDirAt (make_leaves m line dirs left s).0) dirs
  unfolding make_leaves
  make_leaves-makes [] left s u h = tt
  make_leaves-makes (d ∷ dirs) left s u h =
      let r = do_op dir_error_is_conn line left (λ t. make_leaf m d t) s in
      elim (Result-cases r.2) [
        | inl (e, failed) ↦ absurd (clash (rw (failed, make_leaves) at h))
        | inr (v, made) ↦
            let here =
              do_op-ensures dir_error_is_conn line (λ t. make_leaf m d t) (λ t w. IsDirAt t d)
                (make_leaf-makes d) left s v made in
            let rest : (make_leaves m line dirs r.1 r.0).2 ≡ ok u = (rw (made, make_leaves) at h) in
            let same : make_leaves m line (d ∷ dirs) left s ≡ make_leaves m line dirs r.1 r.0 =
              rw (made, make_leaves) refl in
            subst (λ (q : S × ℕ × Result DirError (Unit {0})). All (IsDirAt q.0) (d ∷ dirs))
              (sym same)
              (make_leaves-keeps d dirs r.1 r.0 here, make_leaves-makes dirs r.1 r.0 u rest)
      ]

  modes_then_made :
      (mode : Option ℕ) (dirs leaves : List Bytes) (u : Unit {0})
      (r : S × ℕ × Result DirError (Unit {0}))
      → (r.2 ≡ ok tt → All (IsDirAt r.0) leaves)
      → (with_modes m line mode dirs r).2 ≡ ok u
      → All (IsDirAt (with_modes m line mode dirs r).0) leaves
  modes_then_made none dirs leaves u (s, left, ok v) all h = all refl
  modes_then_made none dirs leaves u (s, left, err e) all h = cc
  modes_then_made (some mode) dirs leaves u (s, left, ok v) all h =
      All-map (IsDirAt s) (IsDirAt (set_modes m line mode dirs left s).0)
        (λ p k. set_modes-keeps p mode dirs left s k) leaves (all refl)
  modes_then_made (some mode) dirs leaves u (s, left, err e) all h = cc

  leaves_made :
      (dirs : List Bytes) (mode : Option ℕ) (left : ℕ) (s : S)
      → (create_remote_dirs m line dirs mode left s).2 ≡ ok tt
      → All (IsDirAt (create_remote_dirs m line dirs mode left s).0) (leaf_dirs dirs)
  unfolding create_remote_dirs
  leaves_made dirs mode left s h =
      modes_then_made mode dirs (leaf_dirs dirs) tt (make_leaves m line (leaf_dirs dirs) left s)
        (λ e. make_leaves-makes (leaf_dirs dirs) left s tt e) h

  -- Where the requests make and see directories as they say and take none away, and createRemoteDirs
  -- succeeds, every planned directory that no planned directory lies directly in is a directory on the
  -- server at its end.
  pub create_remote_dirs-makes :
      (dirs : List Bytes) (mode : Option ℕ) (left : ℕ) (s : S) (d : Bytes)
      → (create_remote_dirs m line dirs mode left s).2 ≡ ok tt
      → contains dirs d ≡ true
      → IsChildless d dirs
      → IsDirAt (create_remote_dirs m line dirs mode left s).0 d
  create_remote_dirs-makes dirs mode left s d h planned alone =
      All-contains (IsDirAt (create_remote_dirs m line dirs mode left s).0) (leaf_dirs dirs) d
        (leaves_made dirs mode left s h) (leaf_dirs-contains dirs d planned alone)

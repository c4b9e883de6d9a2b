-- ===== src/Remote/Create.antt =====
-- createRemoteDirs and nonDirConflict of internal/uploader/remote.go: the directories of a plan are made
-- on the server, by its deepest ones. The workers are one worker.
pub mod Made
use easy_sftp.Prelude.{
  ℕ, Bool, true, false, not, ◌&&◌, if◌then◌else◌, List, [], ◌∷◌, ◌++◌, Bytes, Option, none, some,
  Result, ok, err,
}
use easy_sftp.Remote.Dirs.{parent_dirs, leaf_dirs}
use easy_sftp.Remote.Delete.{Answer, done, conn_error, not_exist, permission, failure}
use easy_sftp.Session.Do.{Line, do_op}

-- The requests: MkdirAll, Stat, which tells whether the path is a directory, and Chmod.
pub record Maker (S : Type 0) : Type 0 where
  pub mkdir_all : Bytes → S → S × Answer
  pub stat : Bytes → S → S × Result Answer Bool
  pub chmod : Bytes → ℕ → S → S × Answer

pub data DirError : Type 0 where
  dir_lost : Answer → DirError
  not_a_directory : Bytes → DirError
  not_created : Bytes → Answer → DirError

abbrev is_lost : Answer → Bool
is_lost done = false
is_lost conn_error = true
is_lost not_exist = false
is_lost permission = false
is_lost failure = false

-- isConnError on the errors of the operation, which wrap the answer of the server.
abbrev pub dir_error_is_conn : DirError → Bool
dir_error_is_conn (dir_lost answer) = is_lost answer
dir_error_is_conn (not_a_directory bad) = false
dir_error_is_conn (not_created d answer) = is_lost answer

module _ {S : Type 0} (m : Maker S) where
  abbrev pub after_stat :
      Bytes
      → (S → S × Result Answer (Option Bytes))
      → S × Result Answer Bool
      → S × Result Answer (Option Bytes)
  after_stat d rest (s, err conn_error) = (s, err conn_error)
  after_stat d rest (s, err answer) = rest s
  after_stat d rest (s, ok true) = rest s
  after_stat d rest (s, ok false) = (s, ok (some d))

  -- The loop of nonDirConflict.
  unfoldable pub first_conflict : List Bytes → S → S × Result Answer (Option Bytes)
  first_conflict [] s = (s, ok none)
  first_conflict (d ∷ dirs) s = after_stat d (λ s'. first_conflict dirs s') (m.stat d s)

  -- nonDirConflict
  unfoldable pub non_dir_conflict : Bytes → S → S × Result Answer (Option Bytes)
  unfolding first_conflict
  non_dir_conflict d s = first_conflict (parent_dirs d ++ d ∷ []) s

  abbrev pub after_conflict :
      Bytes → Answer → S × Result Answer (Option Bytes) → S × Result DirError (Unit {0})
  after_conflict d why (s, err answer) = (s, err (dir_lost answer))
  after_conflict d why (s, ok (some bad)) = (s, err (not_a_directory bad))
  after_conflict d why (s, ok none) = (s, err (not_created d why))

  -- What a failed creation makes of the state of the directory.
  abbrev pub confirm : Bytes → Answer → S × Result Answer Bool → S × Result DirError (Unit {0})
  confirm d why (s, ok true) = (s, ok tt)
  confirm d why (s, err conn_error) = (s, err (dir_lost conn_error))
  confirm d why (s, ok false) = after_conflict d why (non_dir_conflict d s)
  confirm d why (s, err answer) = after_conflict d why (non_dir_conflict d s)

  abbrev pub after_mkdir : Bytes → S × Answer → S × Result DirError (Unit {0})
  after_mkdir d (s, done) = (s, ok tt)
  after_mkdir d (s, why) = confirm d why (m.stat d s)

  -- The operation on one leaf.
  unfoldable pub make_leaf : Bytes → S → S × Result DirError (Unit {0})
  unfolding non_dir_conflict
  make_leaf d s = after_mkdir d (m.mkdir_all d s)

  -- The leaves one after the other; the first error ends the work.
  unfoldable pub make_leaves : Line S → List Bytes → ℕ → S → S × ℕ × Result DirError (Unit {0})
  unfolding make_leaf do_op
  make_leaves line [] left s = (s, left, ok tt)
  make_leaves line (d ∷ dirs) left s =
      let (s', left', r) = do_op dir_error_is_conn line left (λ t. make_leaf d t) s in
      let rest = make_leaves line dirs left' s' in
      elim r [ err e ↦ (s', left', err e) | ok u ↦ rest ]

  abbrev pub chmod_told : S × Answer → S × Result DirError (Unit {0})
  chmod_told (s, done) = (s, ok tt)
  chmod_told (s, answer) = (s, err (dir_lost answer))

  -- The modes of the directories; what the server answers is logged at most.
  unfoldable pub set_modes : Line S → ℕ → List Bytes → ℕ → S → S × ℕ
  unfolding do_op
  set_modes line mode [] left s = (s, left)
  set_modes line mode (d ∷ dirs) left s =
      let (s', left', r) =
        do_op dir_error_is_conn line left (λ t. chmod_told (m.chmod d mode t)) s in
      set_modes line mode dirs left' s'

  abbrev pub with_modes :
      Line S
      → Option ℕ
      → List Bytes
      → S × ℕ × Result DirError (Unit {0})
      → S × ℕ × Result DirError (Unit {0})
  with_modes line mode dirs (s, left, err e) = (s, left, err e)
  with_modes line none dirs (s, left, ok u) = (s, left, ok tt)
  with_modes line (some mode) dirs (s, left, ok u) =
      let (s', left') = set_modes line mode dirs left s in (s', left', ok tt)

  -- createRemoteDirs
  unfoldable pub create_remote_dirs :
      Line S → List Bytes → Option ℕ → ℕ → S → S × ℕ × Result DirError (Unit {0})
  unfolding make_leaves set_modes
  create_remote_dirs line dirs mode left s =
      with_modes line mode dirs (make_leaves line (leaf_dirs dirs) left s)

-- ===== src/Remote/Delete.antt =====
-- internal/uploader/delete.go and remoteAbsent of internal/uploader/remote.go: removing files and
-- directories on the server. The workers are one worker here: it takes the paths in their order, and
-- the first error ends the work.
pub mod Charged
use easy_sftp.Prelude.{
  ℕ, zero, suc, ◌+◌, ◌==◌, max, Bool, true, false, if◌then◌else◌, Bytes, List, [], ◌∷◌, ◌++◌,
  length, Option, none, some, Result, ok, err,
}
use easy_sftp.SlashPath.{clean}
use easy_sftp.Remote.Budget.{DeleteBudget, take_one, refund}

-- What the server answers to a request: it is done, or an error of one of the kinds that are told apart.
pub data Answer : Type 0 where
  done conn_error not_exist permission failure : Answer

pub record DirEntry : Type 0 where
  pub name : Bytes
  pub is_dir : Bool

-- The requests of the SFTP client on a server, whose state the model does not look into. An answer is
-- the one after the session's own reconnects.
pub record Client (S : Type 0) : Type 0 where
  pub remove : Bytes → S → S × Answer
  pub remove_directory : Bytes → S → S × Answer
  pub lstat : Bytes → S → S × Answer
  pub read_dir : Bytes → S → S × Result Answer (List DirEntry)

-- strings.Count(path.Clean(dir), "/")
abbrev pub count_slashes : Bytes → ℕ
count_slashes [] = 0
count_slashes (c ∷ s) = if c == b'/' then suc (count_slashes s) else count_slashes s

unfoldable pub depth : Bytes → ℕ
depth dir = count_slashes (clean dir)

abbrev pub at_depth : ℕ → List Bytes → List Bytes
at_depth n [] = []
at_depth n (dir ∷ dirs) = let rest = at_depth n dirs in if depth dir == n then dir ∷ rest else rest

abbrev pub deepest : List Bytes → ℕ
deepest [] = 0
deepest (dir ∷ dirs) = max (depth dir) (deepest dirs)

-- The levels with less than `n` slashes, the deepest first.
abbrev pub levels : ℕ → List Bytes → List Bytes
levels zero dirs = []
levels (suc n) dirs = at_depth n dirs ++ levels n dirs

-- countDeleted
abbrev pub count_deleted : List Bool → ℕ
count_deleted [] = 0
count_deleted (gone ∷ deleted) = if gone then suc (count_deleted deleted) else count_deleted deleted

abbrev pub all_true : List Bytes → List Bool
all_true [] = []
all_true (p ∷ paths) = true ∷ all_true paths

abbrev pub all_false : List Bytes → List Bool
all_false [] = []
all_false (p ∷ paths) = false ∷ all_false paths

module _ {S : Type 0} (client : Client S) where
  -- remoteAbsent
  unfoldable pub remote_absent : Bytes → S → S × Result Answer Bool
  remote_absent p s = let (s', answer) = client.lstat p s in (s', told answer)
    where
      told : Answer → Result Answer Bool
      told done = ok false
      told conn_error = err conn_error
      told permission = ok false
      told not_exist = ok true
      told failure = ok true

  -- What deleteRemoteFiles makes of the answer to a removal: what is already gone counts as deleted.
  abbrev after_remove : Bytes → Answer → S → S × Result Answer (Unit {0})
  after_remove p done s = (s, ok tt)
  after_remove p not_exist s = (s, ok tt)
  after_remove p answer s = let (s', told) = remote_absent p s in (s', verdict told)
    where
      verdict : Result Answer Bool → Result Answer (Unit {0})
      verdict (err e) = err e
      verdict (ok true) = ok tt
      verdict (ok false) = err answer

  unfoldable pub remove_file : Bytes → S → S × Result Answer (Unit {0})
  unfolding remote_absent
  remove_file p s = let (s', answer) = client.remove p s in after_remove p answer s'

  -- The work of the workers: the flags and the error.
  unfoldable pub remove_files : List Bytes → S → S × List Bool × Option Answer
  unfolding remove_file
  remove_files [] s = (s, [], none)
  remove_files (p ∷ paths) s =
      let (s', outcome) = remove_file p s in
      let rest = remove_files paths s' in
      elim outcome [
        | err e ↦ (s', false ∷ all_false paths, some e)
        | ok u ↦ (rest.0, true ∷ rest.1, rest.2)
      ]

  -- deleteRemoteFiles
  unfoldable pub delete_remote_files : Bool → List Bytes → S → S × List Bool × Option Answer
  unfolding remove_files
  delete_remote_files true paths s = (s, all_true paths, none)
  delete_remote_files false paths s = remove_files paths s

  -- What a removal makes of its charge.
  abbrev pub settle : DeleteBudget → S → Answer → S × DeleteBudget × ℕ
  settle b s done = (s, b, 1)
  settle b s answer = (s, refund b, 0)

  abbrev pub attempt : Bytes → DeleteBudget → S → Bool → S × DeleteBudget × ℕ
  attempt dir b s false = (s, b, 0)
  attempt dir b s true = let (s', answer) = client.remove_directory dir s in settle b s' answer

  -- The removal of one directory against a budget.
  unfoldable pub remove_charged : Bytes → DeleteBudget → S → S × DeleteBudget × ℕ
  remove_charged dir b s = let (b', charged) = take_one b in attempt dir b' s charged

  unfoldable pub remove_levels : List Bytes → DeleteBudget → S → S × DeleteBudget × ℕ
  unfolding remove_charged
  remove_levels [] b s = (s, b, 0)
  remove_levels (dir ∷ dirs) b s =
      let (s', b', n) = remove_charged dir b s in
      let (s'', b'', m) = remove_levels dirs b' s' in (s'', b'', n + m)

  -- removeRemoteDirs where a budget is given.
  unfoldable pub remove_remote_dirs : Bool → List Bytes → DeleteBudget → S → S × DeleteBudget × ℕ
  unfolding remove_levels
  remove_remote_dirs dry_run [] b s = (s, b, 0)
  remove_remote_dirs true (dir ∷ dirs) b s = (s, b, length (dir ∷ dirs))
  remove_remote_dirs false (dir ∷ dirs) b s =
      remove_levels (levels (suc (deepest (dir ∷ dirs))) (dir ∷ dirs)) b s

  -- removeRemoteDirs where no budget is given, for the clean strategy.
  abbrev pub count_done : Answer → ℕ
  count_done done = 1
  count_done answer = 0

  unfoldable pub remove_in_order : List Bytes → S → S × ℕ
  remove_in_order [] s = (s, 0)
  remove_in_order (dir ∷ dirs) s =
      let (s', answer) = client.remove_directory dir s in
      let (s'', n) = remove_in_order dirs s' in (s'', count_done answer + n)

  unfoldable pub remove_uncharged : Bool → List Bytes → S → S × ℕ
  unfolding remove_in_order
  remove_uncharged dry_run [] s = (s, 0)
  remove_uncharged true (dir ∷ dirs) s = (s, length (dir ∷ dirs))
  remove_uncharged false (dir ∷ dirs) s =
      remove_in_order (levels (suc (deepest (dir ∷ dirs))) (dir ∷ dirs)) s

-- ===== src/Sync/Clear.antt =====
-- clearCollideParents of internal/uploader/sync.go.
use easy_sftp.Prelude.{
  ℕ, ◌+◌, Bool, true, false, if◌then◌else◌, Bytes, List, [], ◌∷◌, length, Option, none, some,
  Result, ok, err,
}
use easy_sftp.Remote.Confine.{safe_join}
use easy_sftp.Remote.Budget.{DeleteBudget, take_one, refund}
use easy_sftp.Remote.Delete.{Answer, done, not_exist, DirEntry}
use easy_sftp.Planner.Tree.{FileItem}
use easy_sftp.Sync.Collide.{rels, collide_parents}
use easy_sftp.Sync.Session.{
  Config, Session, Progress, ClearError, outside, over_budget, unreadable, not_removed,
  holds_others, base,
}

module _ {S : Type 0} (session : Session S) (cfg : Config) where
  -- The answer to a removal in clearCollideParents, with what is left in a directory that stayed.
  abbrev pub cleared : Bytes → Answer → Progress S → Progress S × Option ClearError
  cleared full done p = (p, none)
  cleared full not_exist p = (record p { budget = refund p.budget }, none)
  cleared full answer p = left (session.client.read_dir full p.server)
    where
      left : S × Result Answer (List DirEntry) → Progress S × Option ClearError
      left (s, err not_exist) = (record p { server = s }, some (not_removed full answer))
      left (s, err e) = (record p { server = s }, some (unreadable e))
      left (s, ok []) = (record p { server = s }, some (not_removed full answer))
      left (s, ok (e ∷ entries)) = (record p { server = s }, some (holds_others full (e ∷ entries)))

  abbrev pub count_removed : Answer → ℕ
  count_removed done = 1
  count_removed answer = 0

  -- One directory of clearCollideParents.
  unfoldable pub clear_dir : Bytes → Progress S → Progress S × ℕ × Option ClearError
  clear_dir dir p = elim (safe_join (base session cfg) dir) [
    | err e ↦ (p, 0, some (outside e))
    | ok full ↦ charged full (take_one p.budget)
  ]
    where
      charged : Bytes → DeleteBudget × Bool → Progress S × ℕ × Option ClearError
      charged full (b, false) = (record p { budget = b }, 0, some (over_budget full))
      charged full (b, true) =
          let (s, answer) = session.client.remove_directory full p.server in
          let (p', e) = cleared full answer (record p { server = s; budget = b }) in
          (p', count_removed answer, e)

  unfoldable pub clear_dirs : List Bytes → Progress S → Progress S × ℕ × Option ClearError
  unfolding clear_dir
  clear_dirs [] p = (p, 0, none)
  clear_dirs (dir ∷ dirs) p =
      let (p', n, e) = clear_dir dir p in
      let (p'', m, e') = clear_dirs dirs p' in
      elim e [ some x ↦ (p', n, some x) | none ↦ (p'', n + m, e') ]

  -- clearCollideParents
  unfoldable pub clear_collide_parents :
      List Bytes → List FileItem → Progress S → Progress S × ℕ × Option ClearError
  unfolding clear_dirs
  clear_collide_parents colliding plan p =
      let dirs = collide_parents (rels plan) colliding [] in
      if cfg.dry_run then (p, length dirs, none) else clear_dirs dirs p

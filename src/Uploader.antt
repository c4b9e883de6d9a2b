-- ===== src/Uploader.antt =====
-- executePlan and executeOverlayOrClean of internal/uploader/uploader.go: one deployment by its strategy.
pub mod DryRun
pub mod Retry
use easy_sftp.Prelude.{
  ℕ, ◌+◌, ◌&&◌, Bool, true, false, if◌then◌else◌, Bytes, List, [], ◌∷◌, ◌++◌, length, Option, none,
  some, Result, ok, err,
}
use easy_sftp.Remote.Guard.{RootRefusal, check_remote_root}
use easy_sftp.Remote.Budget.{DeleteBudget, OverLimit, reserve}
use easy_sftp.Remote.Delete.{
  Answer, count_deleted, delete_remote_files, levels, deepest, remove_uncharged,
}
use easy_sftp.Remote.Listing.{Contents, ListError, list_remote_contents}
use easy_sftp.Transfer.Upload.{FileError}
use easy_sftp.Planner.Build.{Strategy, overlay, sync, clean, Plan, is_overlay}
use easy_sftp.Sync.Session.{Config, Session, Progress, SyncError, base, run_uploads}
use easy_sftp.Sync.Execute.{execute_sync}

pub data RunError : Type 0 where
  syncing : SyncError → RunError
  clean_root : RootRefusal → RunError
  scanning : ListError → RunError
  clean_limit : OverLimit → RunError
  sweeping : Answer → RunError
  uploading : FileError → RunError

-- advanced.skip_unchanged, which only the overlay strategy heeds.
abbrev pub skips : Config → Plan → Bool
skips cfg plan = cfg.skip_unchanged && is_overlay plan.strategy

module _ {S : Type 0} (session : Session S) (cfg : Config) where
  abbrev pub uploaded : Option FileError → Result RunError (Unit {0})
  uploaded none = ok tt
  uploaded (some e) = err (uploading e)

  -- The upload of the whole plan.
  unfoldable pub upload_plan : Plan → Progress S → Progress S × Result RunError (Unit {0})
  unfolding run_uploads
  upload_plan plan p =
      let u =
        run_uploads session cfg (skips cfg plan) plan.files plan.files plan.remote_dirs
          plan.remote_dirs p.server in
      (record p { server = u.state }, uploaded u.failed)

  -- The wiping of the target, from its contents on.
  unfoldable pub wipe : Contents → Plan → Progress S → Progress S × Result RunError (Unit {0})
  unfolding upload_plan
  wipe found plan p =
      let (b, charge) = reserve (length found.files + length found.dirs) p.budget in
      let (s, flags, e) = delete_remote_files session.client cfg.dry_run found.files p.server in
      let q = record p {
        server = s;
        budget = b;
        files_deleted = p.files_deleted + count_deleted flags;
      } in
      let (s', n) = remove_uncharged session.client cfg.dry_run found.dirs s in
      elim charge [
        | err x ↦ (record p { budget = b }, err (clean_limit x))
        | ok u ↦ elim e [
          | some y ↦ (q, err (sweeping y))
          | none ↦ upload_plan plan (record q { server = s'; dirs_deleted = q.dirs_deleted + n })
        ]
      ]

  -- executeOverlayOrClean under clean, on fuel for the depth of the listing.
  unfoldable pub execute_clean : ℕ → Plan → Progress S → Progress S × Result RunError (Unit {0})
  unfolding wipe
  execute_clean fuel plan p =
      let (s, contents) = list_remote_contents session.client fuel (base session cfg) p.server in
      elim (check_remote_root cfg.remote) [
        | err e ↦ (p, err (clean_root e))
        | ok u ↦ elim contents [
          | err e ↦ (record p { server = s }, err (scanning e))
          | ok found ↦ wipe found plan (record p { server = s })
        ]
      ]

  abbrev pub synced :
      Progress S × Result SyncError (Unit {0}) → Progress S × Result RunError (Unit {0})
  synced (p, ok u) = (p, ok tt)
  synced (p, err e) = (p, err (syncing e))

  abbrev pub by_strategy :
      Strategy → ℕ → Plan → Progress S → Progress S × Result RunError (Unit {0})
  by_strategy sync fuel plan p = synced (execute_sync session cfg plan p)
  by_strategy clean fuel plan p = execute_clean fuel plan p
  by_strategy overlay fuel plan p = upload_plan plan p

  -- executePlan
  unfoldable pub execute_plan : ℕ → Plan → Progress S → Progress S × Result RunError (Unit {0})
  unfolding execute_clean
  execute_plan fuel plan p = by_strategy plan.strategy fuel plan p

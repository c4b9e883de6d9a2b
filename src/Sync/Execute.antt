-- ===== src/Sync/Execute.antt =====
-- executeSync and writeRecoveryManifest of internal/uploader/sync.go, over a server whose state the model
-- does not look into.
pub mod DryRun
pub mod Guards
use easy_sftp.Prelude.{
  ℕ, suc, ◌+◌, ◌-◌, Bool, true, false, if◌then◌else◌, Bytes, List, [], ◌∷◌, ◌++◌, length, reverse,
  Option, none, some, Result, ok, err,
}
use easy_sftp.Remote.Guard.{RootRefusal, normalize_remote, check_remote_root}
use easy_sftp.Remote.Confine.{Refusal, safe_join}
use easy_sftp.Remote.Budget.{DeleteBudget, OverLimit, reserve, take_one, refund}
use easy_sftp.Remote.Dirs.{dirs_for_files}
use easy_sftp.Remote.Delete.{
  Answer, done, conn_error, not_exist, permission, failure, DirEntry, Client, count_deleted,
  delete_remote_files, remove_remote_dirs,
}
use easy_sftp.Planner.Tree.{FileItem}
use easy_sftp.Planner.Build.{Plan, remote_paths}
use easy_sftp.Sync.Store.{Map}
use easy_sftp.Sync.Manifest.{
  Manifest, ManifestEntry, Document, Opening, ReadError, manifest_version, read_manifest,
  merged_manifest,
}
use easy_sftp.Sync.Select.{Selection, select, hash_plan_files}
use easy_sftp.Sync.Collide.{rels, colliding_deletes, collide_parents, prune_candidates}
use easy_sftp.Sync.Session.{
  Config, Session, Progress, SyncError, reading, hashing, wrong_root, over_limit, collide_failed,
  clear_failed, upload_failed, sweep_failed, write_failed, index_out_of_range, base, joined_paths,
  flagged, no_flags, run_uploads,
}
use easy_sftp.Sync.Clear.{clear_collide_parents}

module _ {S : Type 0} where
  -- Where there is something to delete, the target must be a specific place, and the batch be charged.
  abbrev pub pass_guards :
      List Bytes
      → Result RootRefusal (Unit {0})
      → DeleteBudget × Result OverLimit (Unit {0})
      → (Progress S → Progress S × Result SyncError (Unit {0}))
      → Progress S
      → Progress S × Result SyncError (Unit {0})
  pass_guards [] root charge next p = next p
  pass_guards (d ∷ to_delete) (err e) charge next p = (p, err (wrong_root e))
  pass_guards (d ∷ to_delete) (ok u) (b, err e) next p =
      (record p { budget = b }, err (over_limit e))
  pass_guards (d ∷ to_delete) (ok u) (b, ok v) next p = next (record p { budget = b })

-- The directories that the uploads need: all of the plan's where they get a mode, else those of the changed files.
abbrev pub upload_dirs : Option ℕ → List Bytes → List FileItem → List Bytes
upload_dirs (some mode) dirs upload = dirs
upload_dirs none dirs upload = dirs_for_files (remote_paths upload)

module _ {S : Type 0} (session : Session S) (cfg : Config) where
  -- writeRecoveryManifest, whose error is only logged.
  unfoldable pub write_recovery_manifest : Manifest → Progress S → Progress S
  write_recovery_manifest m p =
      if cfg.dry_run
      then p
      else record p { server = (session.write_manifest (base session cfg) m p.server).0 }

  -- A failing run writes the merged manifest, and returns the error.
  abbrev pub recover :
      Option Manifest → SyncError → Progress S → Progress S × Result SyncError (Unit {0})
  recover none e p = (p, err index_out_of_range)
  recover (some m) e p = (write_recovery_manifest m p, err e)

  module _ (old : Manifest) (plan : Plan) (files : List FileItem) (sel : Selection) where
    -- The end of a run: directories are pruned and the manifest is written.
    unfoldable pub finish : List Bytes → Progress S → Progress S × Result SyncError (Unit {0})
    finish deleted p =
        if cfg.dry_run
        then (p, ok tt)
        else (let (s, b, n) =
              remove_remote_dirs session.client cfg.dry_run
                (reverse (
                  prune_candidates (base session cfg) (joined_paths (base session cfg) deleted) []))
                p.budget p.server in
            let (s', e) =
              session.write_manifest (base session cfg)
                (record { version = manifest_version; files = sel.local }) s in
            (record p { server = s'; budget = b; dirs_deleted = p.dirs_deleted + n }, written e))
      where
        written : Option Answer → Result SyncError (Unit {0})
        written none = ok tt
        written (some e) = err (write_failed e)

    -- The deletion of what does not collide, after the uploads.
    unfoldable pub sweep :
        List Bytes → List Bytes → List Bool → Progress S → Progress S × Result SyncError (Unit {0})
    unfolding finish write_recovery_manifest
    sweep rest pre_deleted completed p =
        let (s, flags, e) =
          delete_remote_files session.client cfg.dry_run (joined_paths (base session cfg) rest)
            p.server in
        let deleted = flagged rest flags in
        let p' = record p { server = s; files_deleted = p.files_deleted + length deleted } in
        elim e [
          | some x ↦
              recover (merged_manifest old sel.upload completed (pre_deleted ++ deleted))
                (sweep_failed x) p'
          | none ↦
              finish deleted
                (record p' { files_skipped = p.files_skipped + (length files - length sel.upload) })
        ]

    -- The uploads, between the deletions that must come first and the others.
    unfoldable pub upload :
        List Bytes → List Bytes → Progress S → Progress S × Result SyncError (Unit {0})
    unfolding sweep write_recovery_manifest run_uploads
    upload rest pre_deleted p =
        let dirs = upload_dirs cfg.dir_mode plan.remote_dirs sel.upload in
        let u = run_uploads session cfg false sel.upload files dirs plan.remote_dirs p.server in
        let p' = record p { server = u.state } in
        elim u.failed [
          | some x ↦
              recover (merged_manifest old sel.upload u.completed pre_deleted) (upload_failed x) p'
          | none ↦ sweep rest pre_deleted u.completed p'
        ]

    -- The deletion of what collides with the plan, before the uploads.
    unfoldable pub collide :
        List Bytes → List Bytes → Progress S → Progress S × Result SyncError (Unit {0})
    unfolding upload clear_collide_parents write_recovery_manifest
    collide [] rest p = upload rest [] p
    collide (c ∷ colliding) rest p =
        let (s, flags, e) =
          delete_remote_files session.client cfg.dry_run
            (joined_paths (base session cfg) (c ∷ colliding)) p.server in
        let pre_deleted = flagged (c ∷ colliding) flags in
        let p' = record p { server = s; files_deleted = p.files_deleted + length pre_deleted } in
        let (p'', n, e') = clear_collide_parents session cfg (c ∷ colliding) files p' in
        let q = record p'' { dirs_deleted = p''.dirs_deleted + n } in
        elim e [
          | some x ↦
              recover (merged_manifest old sel.upload (no_flags sel.upload) pre_deleted)
                (collide_failed x) p'
          | none ↦ elim e' [
            | some y ↦
                recover (merged_manifest old sel.upload (no_flags sel.upload) []) (clear_failed y) q
            | none ↦ upload rest pre_deleted q
          ]
        ]

    -- What collides goes first.
    unfoldable pub delete_and_upload : Progress S → Progress S × Result SyncError (Unit {0})
    unfolding collide
    delete_and_upload p =
        let (colliding, rest) = colliding_deletes session.fold_segment sel.to_delete files in
        collide colliding rest p

    -- The guards before the first deletion: the target, and the budget for all of the deletions.
    unfoldable pub guarded : Progress S → Progress S × Result SyncError (Unit {0})
    unfolding delete_and_upload
    guarded p =
        pass_guards sel.to_delete (check_remote_root cfg.remote)
          (reserve (length sel.to_delete) p.budget) delete_and_upload p

  -- executeSync from the manifest on.
  unfoldable pub execute_from :
      Manifest → Plan → Progress S → Progress S × Result SyncError (Unit {0})
  unfolding guarded
  execute_from old plan p =
      elim (hash_plan_files session.hash_file (if cfg.fast_path then old.files else [])
        plan.files) [
          | err e ↦ (p, err (hashing e))
          | ok files ↦ guarded old plan files (select (base session cfg) old.files files) p
        ]

  -- executeSync
  unfoldable pub execute_sync : Plan → Progress S → Progress S × Result SyncError (Unit {0})
  unfolding execute_from
  execute_sync plan p =
      let (s, opening) = session.open_manifest (base session cfg) p.server in
      elim (read_manifest session.decode session.decode_v1 (base session cfg) opening) [
        | err e ↦ (record p { server = s }, err (reading e))
        | ok old ↦ execute_from old plan (record p { server = s })
      ]

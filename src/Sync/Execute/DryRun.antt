-- ===== src/Sync/Execute/DryRun.antt =====
-- A dry run of executeSync leaves the server as it is.
use easy_sftp.Prelude.{
  ℕ, ◌≡◌, refl, ◌∙◌, Bool, true, false, if◌then◌else◌, Bytes, List, [], ◌∷◌, length, Option, none,
  some, Option-cases, Result-cases, Result, ok, err, inl, inr,
}
use easy_sftp.Remote.Guard.{RootRefusal, check_remote_root}
use easy_sftp.Remote.Budget.{DeleteBudget, OverLimit, reserve}
use easy_sftp.Remote.Delete.{all_true, delete_remote_files}
use easy_sftp.Transfer.Upload.{UploadItem}
use easy_sftp.Transfer.Upload.DryRun.{upload_files_dry}
use easy_sftp.Planner.Tree.{FileItem}
use easy_sftp.Planner.Build.{Plan}
use easy_sftp.Sync.Manifest.{Manifest, read_manifest, merged_manifest}
use easy_sftp.Sync.Select.{Selection, select, hash_plan_files}
use easy_sftp.Sync.Collide.{colliding_deletes}
use easy_sftp.Sync.Session.{
  Config, Session, Progress, SyncError, base, joined_paths, flagged, upload_failed, run_uploads,
  upload_items, make_dirs, sweep_temps,
}
use easy_sftp.Sync.Clear.{clear_collide_parents}
use easy_sftp.Sync.Execute.{
  upload_dirs, write_recovery_manifest, recover, pass_guards, delete_and_upload, finish, sweep,
  upload, collide, guarded, execute_from, execute_sync,
}

module _ {S : Type 0} (session : Session S) (any : Config)
    (opens_only : (dir : Bytes) (s : S) → (session.open_manifest dir s).0 ≡ s)
    (compares : (f : UploadItem) (index : ℕ) (s : S)
      → (session.file_work.same_size f index s).0 ≡ s) where
  abbrev cfg : Config
  cfg = record any { dry_run = true }

  -- uploadFiles leaves the server as it is.
  pub run_uploads_dry :
      (skip : Bool) (files planned : List FileItem) (dirs sweep_dirs : List Bytes) (s : S)
      → (run_uploads session cfg skip files planned dirs sweep_dirs s).state ≡ s
  unfolding run_uploads
  run_uploads_dry skip files planned dirs sweep_dirs s =
      upload_files_dry session.file_work skip cfg.file_mode compares (make_dirs session cfg dirs)
        (sweep_temps session cfg planned sweep_dirs) (upload_items files) s

  recover-server :
      (o : Option Manifest) (e : SyncError) (p : Progress S)
      → (recover session cfg o e p).0.server ≡ p.server
  unfolding write_recovery_manifest
  recover-server none e p = refl
  recover-server (some m) e p = refl

  passed :
      (to_delete : List Bytes) (root : Result RootRefusal (Unit {0}))
      (charge : DeleteBudget × Result OverLimit (Unit {0}))
      (next : Progress S → Progress S × Result SyncError (Unit {0}))
      → ((q : Progress S) → (next q).0.server ≡ q.server)
      → (p : Progress S) → (pass_guards to_delete root charge next p).0.server ≡ p.server
  passed [] root charge next h p = h p
  passed (d ∷ ds) (err e) charge next h p = refl
  passed (d ∷ ds) (ok u) (b, err e) next h p = refl
  passed (d ∷ ds) (ok u) (b, ok v) next h p = h (record p { budget = b })

  module _ (old : Manifest) (plan : Plan) (files : List FileItem) (sel : Selection) where
    finish-server :
        (deleted : List Bytes) (p : Progress S)
        → (finish session cfg old plan files sel deleted p).0.server ≡ p.server
    unfolding finish
    finish-server deleted p = refl

    sweep-server :
        (rest pre_deleted : List Bytes) (completed : List Bool) (p : Progress S)
        → (sweep session cfg old plan files sel rest pre_deleted completed p).0.server ≡ p.server
    unfolding sweep finish delete_remote_files
    sweep-server rest pre_deleted completed p = refl

    upload-server :
        (rest pre_deleted : List Bytes) (p : Progress S)
        → (upload session cfg old plan files sel rest pre_deleted p).0.server ≡ p.server
    unfolding upload
    upload-server rest pre_deleted p =
        let dirs = upload_dirs cfg.dir_mode plan.remote_dirs sel.upload in
        let u = run_uploads session cfg false sel.upload files dirs plan.remote_dirs p.server in
        let same = run_uploads_dry false sel.upload files dirs plan.remote_dirs p.server in
        elim (Option-cases u.failed) [
          | inl fine ↦
              rw (fine, upload)
                (sweep-server rest pre_deleted u.completed (record p { server = u.state }) ∙ same)
          | inr (e, failed) ↦
              rw (failed, upload)
                (recover-server (merged_manifest old sel.upload u.completed pre_deleted)
                    (upload_failed e) (record p { server = u.state })
                  ∙ same)
        ]

    collide-server :
        (colliding rest : List Bytes) (p : Progress S)
        → (collide session cfg old plan files sel colliding rest p).0.server ≡ p.server
    unfolding collide clear_collide_parents delete_remote_files
    collide-server [] rest p = upload-server rest [] p
    collide-server (c ∷ colliding) rest p =
        upload-server rest
          (flagged (c ∷ colliding) (all_true (joined_paths (base session cfg) (c ∷ colliding)))) _

    guarded-server :
        (p : Progress S) → (guarded session cfg old plan files sel p).0.server ≡ p.server
    unfolding guarded delete_and_upload
    guarded-server p =
        let split_up = colliding_deletes session.fold_segment sel.to_delete files in
        passed sel.to_delete (check_remote_root cfg.remote)
          (reserve (length sel.to_delete) p.budget)
          (delete_and_upload session cfg old plan files sel)
          (λ q. collide-server split_up.0 split_up.1 q) p

  execute_from-server :
      (old : Manifest) (plan : Plan) (p : Progress S)
      → (execute_from session cfg old plan p).0.server ≡ p.server
  unfolding execute_from
  execute_from-server old plan p =
      elim (Result-cases
        (hash_plan_files session.hash_file (if cfg.fast_path then old.files else []) plan.files)) [
          | inl (e, failed) ↦ rw (failed, execute_from) refl
          | inr (files, hashed) ↦
              rw (hashed, execute_from)
                (guarded-server old plan files (select (base session cfg) old.files files) p)
        ]

  -- x
  pub execute_sync-dry_run :
      (plan : Plan) (p : Progress S) → (execute_sync session cfg plan p).0.server ≡ p.server
  unfolding execute_sync
  execute_sync-dry_run plan p =
      let opened = session.open_manifest (base session cfg) p.server in
      let same = opens_only (base session cfg) p.server in
      elim (Result-cases
        (read_manifest session.decode session.decode_v1 (base session cfg) opened.1)) [
          | inl (e, failed) ↦ rw (failed, execute_sync) same
          | inr (old, read) ↦
              rw (read, execute_sync)
                (execute_from-server old plan (record p { server = opened.0 }) ∙ same)
        ]

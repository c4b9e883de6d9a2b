-- ===== src/Uploader/DryRun.antt =====
-- A dry run leaves the server as it is, under every strategy.
use easy_sftp.Prelude.{
  ℕ, zero, suc, ◌+◌, ◌≡◌, refl, ap, ◌∙◌, true, Bytes, List, [], ◌∷◌, length, Result, ok, err,
  Result-cases, inl, inr,
}
use easy_sftp.Strings.{sort_strings}
use easy_sftp.Remote.Guard.{check_remote_root}
use easy_sftp.Remote.Budget.{reserve}
use easy_sftp.Remote.Delete.{
  Answer, done, conn_error, not_exist, permission, failure, DirEntry, Client, delete_remote_files,
  remove_uncharged, remote_absent,
}
use easy_sftp.Remote.Listing.{
  Contents, ListError, list_dir, listed, list_level, list_levels, list_remote_contents, deeper,
  collect,
}
use easy_sftp.Transfer.Upload.{UploadItem}
use easy_sftp.Planner.Build.{Strategy, overlay, sync, clean, Plan}
use easy_sftp.Sync.Session.{Config, Session, Progress, SyncError, base}
use easy_sftp.Sync.Execute.{execute_sync}
use easy_sftp.Sync.Execute.DryRun.{run_uploads_dry, execute_sync-dry_run}
use easy_sftp.Uploader.{skips, upload_plan, wipe, execute_clean, synced, by_strategy, execute_plan}

module _ {S : Type 0} (client : Client S)
    (reads : (dir : Bytes) (s : S) → (client.read_dir dir s).0 ≡ s)
    (stats : (p : Bytes) (s : S) → (client.lstat p s).0 ≡ s) where
  listed-server :
      (dir : Bytes) (s : S) (r : Result Answer (List DirEntry)) → (listed client dir s r).0 ≡ s
  unfolding remote_absent
  listed-server dir s (ok entries) = refl
  listed-server dir s (err not_exist) = refl
  listed-server dir s (err done) = stats dir s
  listed-server dir s (err conn_error) = stats dir s
  listed-server dir s (err permission) = stats dir s
  listed-server dir s (err failure) = stats dir s

  list_dir-server : (dir : Bytes) (s : S) → (list_dir client dir s).0 ≡ s
  unfolding list_dir
  list_dir-server dir s = let r = client.read_dir dir s in listed-server dir r.0 r.1 ∙ reads dir s

  collect-server :
      (dir : Bytes) (s : S) (r : Result ListError (List DirEntry))
      (rest : S × Result ListError Contents)
      → rest.0 ≡ s
      → (collect dir s r rest).0 ≡ s
  collect-server dir s (ok entries) rest h = h
  collect-server dir s (err e) rest h = refl

  list_level-server : (level : List Bytes) (s : S) → (list_level client level s).0 ≡ s
  unfolding list_level
  list_level-server [] s = refl
  list_level-server (dir ∷ level) s =
      let r = list_dir client dir s in
      collect-server dir r.0 r.1 (list_level client level r.0) (list_level-server level r.0)
      ∙ list_dir-server dir s

  deeper-server :
      (s : S) (r : Result ListError Contents) (next : Contents → S × Result ListError Contents)
      → ((found : Contents) → (next found).0 ≡ s)
      → (deeper s r next).0 ≡ s
  deeper-server s (ok found) next h = h found
  deeper-server s (err e) next h = refl

  list_levels-server :
      (fuel : ℕ) (level : List Bytes) (s : S) → (list_levels client fuel level s).0 ≡ s
  unfolding list_levels
  list_levels-server zero [] s = refl
  list_levels-server (suc fuel) [] s = refl
  list_levels-server zero (dir ∷ level) s = refl
  list_levels-server (suc fuel) (dir ∷ level) s =
      let r = list_level client (dir ∷ level) s in
      deeper-server r.0 r.1 (λ found. list_levels client fuel (sort_strings found.dirs) r.0)
        (λ found. list_levels-server fuel (sort_strings found.dirs) r.0)
      ∙ list_level-server (dir ∷ level) s

remove_uncharged-dry :
    {S : Type 0} (client : Client S) (dirs : List Bytes) (s : S)
    → (remove_uncharged client true dirs s).0 ≡ s
unfolding remove_uncharged
remove_uncharged-dry client [] s = refl
remove_uncharged-dry client (dir ∷ dirs) s = refl

module _ {S : Type 0} (session : Session S) (any : Config)
    (opens : (dir : Bytes) (s : S) → (session.open_manifest dir s).0 ≡ s)
    (compares : (f : UploadItem) (index : ℕ) (s : S)
      → (session.file_work.same_size f index s).0 ≡ s)
    (reads : (dir : Bytes) (s : S) → (session.client.read_dir dir s).0 ≡ s)
    (stats : (p : Bytes) (s : S) → (session.client.lstat p s).0 ≡ s) where
  abbrev cfg : Config
  cfg = record any { dry_run = true }

  upload_plan-server :
      (plan : Plan) (p : Progress S) → (upload_plan session cfg plan p).0.server ≡ p.server
  unfolding upload_plan
  upload_plan-server plan p =
      run_uploads_dry session any opens compares (skips cfg plan) plan.files plan.files
        plan.remote_dirs plan.remote_dirs p.server

  wipe-server :
      (found : Contents) (plan : Plan) (p : Progress S)
      → (wipe session cfg found plan p).0.server ≡ p.server
  unfolding wipe upload_plan delete_remote_files
  wipe-server found plan p =
      elim (Result-cases (reserve (length found.files + length found.dirs) p.budget).1) [
        | inl (e, over) ↦ rw (over, wipe) refl
        | inr (u, fits) ↦
            rw (fits, wipe)
              (run_uploads_dry session any opens compares (skips cfg plan) plan.files plan.files
                  plan.remote_dirs plan.remote_dirs _
                ∙ remove_uncharged-dry session.client found.dirs p.server)
      ]

  execute_clean-server :
      (fuel : ℕ) (plan : Plan) (p : Progress S)
      → (execute_clean session cfg fuel plan p).0.server ≡ p.server
  unfolding execute_clean list_remote_contents
  execute_clean-server fuel plan p =
      let at_base = base session cfg in
      let r = list_remote_contents session.client fuel at_base p.server in
      let same = list_levels-server session.client reads stats fuel (at_base ∷ []) p.server in
      elim (Result-cases (check_remote_root cfg.remote)) [
        | inl (e, refused) ↦ rw (refused, execute_clean) refl
        | inr (u, passes) ↦
            rw (passes, execute_clean)
              (elim (Result-cases r.1) [
                | inl (e, failed) ↦ rw (failed, execute_clean) same
                | inr (found, listed_all) ↦
                    rw (listed_all, execute_clean)
                      (wipe-server found plan (record p { server = r.0 }) ∙ same)
              ])
      ]

  synced-server : (r : Progress S × Result SyncError (Unit {0})) → (synced session cfg r).0 ≡ r.0
  synced-server (p, ok u) = refl
  synced-server (p, err e) = refl

  by_strategy-server :
      (strategy : Strategy) (fuel : ℕ) (plan : Plan) (p : Progress S)
      → (by_strategy session cfg strategy fuel plan p).0.server ≡ p.server
  by_strategy-server sync fuel plan p =
      ap (λ (q : Progress S). q.server) (synced-server (execute_sync session cfg plan p))
      ∙ execute_sync-dry_run session any opens compares plan p
  by_strategy-server clean fuel plan p = execute_clean-server fuel plan p
  by_strategy-server overlay fuel plan p = upload_plan-server plan p

  -- Where opening the manifest, comparing the size of a remote file, listing a directory and asking
  -- for a path leave the server as it is, executePlan with dry-run set leaves the server as it is,
  -- under every strategy, uploadFiles included.
  pub execute_plan-dry_run :
      (fuel : ℕ) (plan : Plan) (p : Progress S)
      → (execute_plan session cfg fuel plan p).0.server ≡ p.server
  unfolding execute_plan
  execute_plan-dry_run fuel plan p = by_strategy-server plan.strategy fuel plan p

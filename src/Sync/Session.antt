-- ===== src/Sync/Session.antt =====
-- What executeSync of internal/uploader/sync.go works with: the configuration, the code around it, and the
-- state of a run.
use easy_sftp.Prelude.{
  ℕ, Bool, false, if◌then◌else◌, Bytes, List, [], ◌∷◌, Option, none, some, Result, ok, err,
}
use easy_sftp.Remote.Guard.{RootRefusal, normalize_remote}
use easy_sftp.Remote.Confine.{Refusal, safe_join}
use easy_sftp.Remote.Budget.{DeleteBudget, OverLimit}
use easy_sftp.Remote.Delete.{Answer, DirEntry, Client}
use easy_sftp.Remote.Create.{Maker, DirError, create_remote_dirs}
use easy_sftp.Session.Do.{Line}
use easy_sftp.Transfer.Sweep.{Sweeper, sweep_stale_temps}
use easy_sftp.Transfer.Upload.{
  UploadItem, FileError, no_directory, Uploaded, FileWork, upload_files,
}
use easy_sftp.Planner.Tree.{FileItem}
use easy_sftp.Planner.Build.{remote_paths}
use easy_sftp.Sync.Manifest.{Manifest, ManifestEntry, Document, Opening, ReadError}

-- What executeSync reads of the configuration and of the pair.
pub record Config : Type 0 where
  pub dry_run : Bool
  pub fast_path : Bool
  pub skip_unchanged : Bool
  pub file_mode : Option ℕ
  pub dir_mode : Option ℕ
  pub remote : Bytes

-- The code around executeSync: the client, the manifest's file, the work on one file and the requests of
-- uploadFiles, what is left of the reconnect budget, the hashing of a local file, the JSON decoder, and the
-- folding of a path segment.
pub record Session (S : Type 0) : Type 0 where
  pub client : Client S
  pub open_manifest : Bytes → S → S × Opening
  pub write_manifest : Bytes → Manifest → S → S × Option Answer
  pub file_work : FileWork S
  pub maker : Maker S
  pub sweeper : Sweeper S
  pub line : Line S
  pub reconnects_left : S → ℕ
  pub hash_file : Bytes → Result Bytes Bytes
  pub decode : Bytes → Option (Document ManifestEntry)
  pub decode_v1 : Bytes → Option (Document Bytes)
  pub fold_segment : Bytes → Bytes

-- The server, the budget, and the counts of Stats that executeSync adds to.
pub record Progress (S : Type 0) : Type 0 where
  pub server : S
  pub budget : DeleteBudget
  pub files_deleted : ℕ
  pub dirs_deleted : ℕ
  pub files_skipped : ℕ

pub data ClearError : Type 0 where
  outside : Refusal → ClearError
  over_budget : Bytes → ClearError
  unreadable : Answer → ClearError
  not_removed : Bytes → Answer → ClearError
  holds_others : Bytes → List DirEntry → ClearError

pub data SyncError : Type 0 where
  reading : ReadError → SyncError
  hashing : Bytes → SyncError
  wrong_root : RootRefusal → SyncError
  over_limit : OverLimit → SyncError
  collide_failed : Answer → SyncError
  clear_failed : ClearError → SyncError
  upload_failed : FileError → SyncError
  sweep_failed : Answer → SyncError
  write_failed : Answer → SyncError
  index_out_of_range : SyncError

-- The joined paths of relative paths that passed safeJoin; one that does not gives the empty path.
abbrev pub joined_paths : Bytes → List Bytes → List Bytes
joined_paths base [] = []
joined_paths base (rel ∷ rest) =
    (elim (safe_join base rel) [ ok full ↦ full | err e ↦ [] ]) ∷ joined_paths base rest

-- The paths whose flag is set.
abbrev pub flagged : List Bytes → List Bool → List Bytes
flagged (p ∷ paths) (gone ∷ flags) =
    let rest = flagged paths flags in if gone then p ∷ rest else rest
flagged (p ∷ paths) [] = []
flagged [] flags = []

abbrev pub no_flags : List FileItem → List Bool
no_flags [] = []
no_flags (f ∷ upload) = false ∷ no_flags upload

abbrev pub upload_items : List FileItem → List UploadItem
upload_items [] = []
upload_items (f ∷ files) =
    record {
      local_path = f.local_path;
      remote_path = f.remote_path;
      size = f.size;
      mtime = f.mtime;
      mode = f.mode;
    }
    ∷ upload_items files

abbrev pub dirs_made : {S : Type 0} → S × ℕ × Result DirError (Unit {0}) → S × Option FileError
dirs_made (s, left, ok u) = (s, none)
dirs_made (s, left, err e) = (s, some (no_directory e))

module _ {S : Type 0} (session : Session S) (cfg : Config) where
  abbrev pub base : Bytes
  base = normalize_remote cfg.remote

  -- createRemoteDirs and sweepStaleTemps as uploadFiles calls them.
  abbrev pub make_dirs : List Bytes → S → S × Option FileError
  make_dirs dirs s = dirs_made (
      create_remote_dirs session.maker session.line dirs cfg.dir_mode (session.reconnects_left s) s)

  abbrev pub sweep_temps : List FileItem → List Bytes → S → S
  sweep_temps planned dirs s =
      (sweep_stale_temps session.sweeper session.line (remote_paths planned) base dirs
        (session.reconnects_left s) s).0

  -- uploadFiles as the strategies call it.
  unfoldable pub run_uploads :
      Bool → List FileItem → List FileItem → List Bytes → List Bytes → S → Uploaded S
  unfolding upload_files create_remote_dirs sweep_stale_temps
  run_uploads skip files planned dirs sweep_dirs s =
      upload_files session.file_work cfg.dry_run skip cfg.file_mode (make_dirs dirs)
        (sweep_temps planned sweep_dirs) (upload_items files) s

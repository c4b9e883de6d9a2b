-- ===== src/Transfer/Upload.antt =====
-- uploadFile, remoteSameSize and uploadFiles of internal/uploader/transfer.go.
pub mod Safe
pub mod Counted
pub mod Placed
pub mod Elsewhere
pub mod DryRun
use easy_sftp.Prelude.{
  ℕ, zero, suc, ◌+◌, ◌==◌, Bool, true, false, ◌&&◌, if◌then◌else◌, List, [], ◌∷◌, Bytes, Option,
  none, some, Result, ok, err,
}
use easy_sftp.Remote.Delete.{Answer, done, conn_error, not_exist, permission, failure}
use easy_sftp.Remote.Create.{DirError}
use easy_sftp.Session.Do.{Run, Line, do_op}
use easy_sftp.Transfer.Temp.{upload_temp_path}
use easy_sftp.Transfer.Replace.{Mover, ReplaceError, rename_replace, cleanup_tmp}
use easy_sftp.Transfer.Sweep.{is_conn_error}

-- The requests of one upload: the local file is opened, the temporary file is opened, written from the
-- local file and closed, and the mode and the times are set. The number is that of the bytes written.
pub record Writer (S : Type 0) : Type 0 where
  pub mover : Mover S
  pub open_local : Bytes → S → S × Bool
  pub open_temp : Bytes → S → S × Answer
  pub write : Bytes → Bytes → S → S × ℕ × Answer
  pub chmod : Bytes → ℕ → S → S × Answer
  pub chtimes : Bytes → ℕ → S → S × Answer

-- The fields of fileItem that an upload reads.
pub record UploadItem : Type 0 where
  pub local_path : Bytes
  pub remote_path : Bytes
  pub size : ℕ
  pub mtime : ℕ
  pub mode : ℕ

pub data FileError : Type 0 where
  no_local_file : FileError
  not_opened : Answer → FileError
  not_written : Answer → FileError
  not_published : ReplaceError → FileError
  no_directory : DirError → FileError

module _ {S : Type 0} (w : Writer S) where
  -- The times are set where the configuration keeps them; what the server answers is logged at most.
  abbrev pub set_times : Bool → UploadItem → S → S
  set_times false f s = s
  set_times true f s = (w.chtimes f.remote_path f.mtime s).0

  abbrev pub after_replace :
      Bool → UploadItem → Bytes → ℕ → S × Result ReplaceError (Unit {0}) → S × Result FileError ℕ
  after_replace times f tmp n (s, ok u) = (set_times times f s, ok n)
  after_replace times f tmp n (s, err e) = (cleanup_tmp w.mover tmp s, err (not_published e))

  abbrev pub after_write : Bool → UploadItem → Bytes → ℕ → S × ℕ × Answer → S × Result FileError ℕ
  after_write times f tmp mode (s, n, done) =
      after_replace times f tmp n (rename_replace w.mover tmp f.remote_path (w.chmod tmp mode s).0)
  after_write times f tmp mode (s, n, answer) =
      (cleanup_tmp w.mover tmp s, err (not_written answer))

  abbrev pub after_open : Bool → UploadItem → Bytes → ℕ → S × Answer → S × Result FileError ℕ
  after_open times f tmp mode (s, done) = after_write times f tmp mode (w.write f.local_path tmp s)
  after_open times f tmp mode (s, answer) = (s, err (not_opened answer))

  abbrev pub after_local : Bool → UploadItem → Bytes → ℕ → S × Bool → S × Result FileError ℕ
  after_local times f tmp mode (s, false) = (s, err no_local_file)
  after_local times f tmp mode (s, true) = after_open times f tmp mode (w.open_temp tmp s)

  -- uploadFile
  unfoldable pub upload_file : Bool → UploadItem → ℕ → ℕ → S → S × Result FileError ℕ
  unfolding upload_temp_path rename_replace cleanup_tmp
  upload_file times f index mode s =
      after_local times f (upload_temp_path f.remote_path index) mode (w.open_local f.local_path s)

-- What a Stat tells: whether the file is a regular one, and its size.
abbrev pub told_size : ℕ → Result Answer (Bool × ℕ) → Result Answer Bool
told_size size (ok (regular, n)) = ok (regular && n == size)
told_size size (err conn_error) = err conn_error
told_size size (err answer) = ok false

-- remoteSameSize: its loop is that of `do`, around one Stat.
unfoldable pub remote_same_size :
    {S : Type 0}
    → Line S
    → (Bytes → S → S × Result Answer (Bool × ℕ))
    → UploadItem
    → ℕ
    → S
    → Run S Answer Bool
unfolding do_op
remote_same_size line stat f left s =
    do_op is_conn_error line left
      (λ t. let (t', r) = stat f.remote_path t in (t', told_size f.size r)) s

-- What uploadFiles adds to the statistics of the run.
pub record Sent : Type 0 where
  pub files_skipped : ℕ
  pub files_uploaded : ℕ
  pub bytes_uploaded : ℕ

-- What it gives back beside them: the flags of the files that are uploaded, and the error.
pub record Uploaded (S : Type 0) : Type 0 where
  pub state : S
  pub completed : List Bool
  pub sent : Sent
  pub failed : Option FileError

-- What the work on one file calls: the comparison of the sizes, and the upload with its retries.
pub record FileWork (S : Type 0) : Type 0 where
  pub same_size : UploadItem → ℕ → S → S × Result FileError Bool
  pub upload : UploadItem → ℕ → ℕ → S → S × Result FileError ℕ

abbrev pub not_completed : List UploadItem → List Bool
not_completed [] = []
not_completed (f ∷ files) = false ∷ not_completed files

abbrev pub nothing_sent : Sent
nothing_sent = record { files_skipped = 0; files_uploaded = 0; bytes_uploaded = 0 }

abbrev pub count_skipped : {S : Type 0} → Uploaded S → Uploaded S
count_skipped u = record u {
  completed = false ∷ u.completed;
  sent = record (u.sent) { files_skipped = suc u.sent.files_skipped };
}

abbrev pub count_uploaded : {S : Type 0} → ℕ → Uploaded S → Uploaded S
count_uploaded n u = record u {
  completed = true ∷ u.completed;
  sent = record (u.sent) {
    files_uploaded = suc u.sent.files_uploaded;
    bytes_uploaded = n + u.sent.bytes_uploaded;
  };
}

-- The first error ends the work, and the files that are left are not uploaded.
abbrev pub stopped : {S : Type 0} → UploadItem → List UploadItem → S → FileError → Uploaded S
stopped f files s e = record {
  state = s;
  completed = false ∷ not_completed files;
  sent = nothing_sent;
  failed = some e;
}

abbrev pub file_mode : Option ℕ → UploadItem → ℕ
file_mode none f = f.mode
file_mode (some mode) f = mode

module _ {S : Type 0} (work : FileWork S) (dry_run skip_unchanged : Bool) (mode : Option ℕ) where
  abbrev pub after_upload :
      UploadItem → List UploadItem → (S → Uploaded S) → S × Result FileError ℕ → Uploaded S
  after_upload f files rest (s, ok n) = count_uploaded n (rest s)
  after_upload f files rest (s, err e) = stopped f files s e

  abbrev pub send : UploadItem → ℕ → List UploadItem → (S → Uploaded S) → S → Uploaded S
  send f index files rest s =
      if dry_run
      then count_uploaded f.size (rest s)
      else after_upload f files rest (work.upload f index (file_mode mode f) s)

  abbrev pub after_check :
      UploadItem → ℕ → List UploadItem → (S → Uploaded S) → S × Result FileError Bool → Uploaded S
  after_check f index files rest (s, err e) = stopped f files s e
  after_check f index files rest (s, ok true) = count_skipped (rest s)
  after_check f index files rest (s, ok false) = send f index files rest s

  abbrev pub one_file : UploadItem → ℕ → List UploadItem → (S → Uploaded S) → S → Uploaded S
  one_file f index files rest s =
      if skip_unchanged
      then after_check f index files rest (work.same_size f index s)
      else send f index files rest s

  -- The loop of uploadFiles, from the file with the given index.
  unfoldable pub upload_from : ℕ → List UploadItem → S → Uploaded S
  upload_from index [] s = record { state = s; completed = []; sent = nothing_sent; failed = none }
  upload_from index (f ∷ files) s =
      one_file f index files (λ s'. upload_from (suc index) files s') s

  abbrev pub after_dirs : List UploadItem → (S → S) → S × Option FileError → Uploaded S
  after_dirs files sweep (s, some e) = record {
    state = s;
    completed = not_completed files;
    sent = nothing_sent;
    failed = some e;
  }
  after_dirs files sweep (s, none) = upload_from 0 files (sweep s)

  -- uploadFiles, given the creation of the directories and the sweep.
  unfoldable pub upload_files :
      (S → S × Option FileError) → (S → S) → List UploadItem → S → Uploaded S
  unfolding upload_from
  upload_files create_dirs sweep files s =
      if dry_run then upload_from 0 files s else after_dirs files sweep (create_dirs s)

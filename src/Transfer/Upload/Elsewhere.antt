-- ===== src/Transfer/Upload/Elsewhere.antt =====
-- uploadFile changes the files that it names, and no other.
use easy_sftp.Prelude.{
  ℕ, ◌≡◌, refl, sym, ◌∙◌, Bool, true, false, Bytes, Option, some, Result, ok, err,
}
use easy_sftp.Remote.Delete.{Answer, done, conn_error, not_exist, permission, failure}
use easy_sftp.Transfer.Temp.{upload_temp_path}
use easy_sftp.Transfer.Temp.Names.{append-backup-ne, upload_temp_path-ne_self}
use easy_sftp.Transfer.Replace.{ReplaceError, rename_replace, cleanup_tmp}
use easy_sftp.Transfer.Replace.Elsewhere.{rename_replace_keeps}
use easy_sftp.Transfer.Upload.{
  UploadItem, Writer, FileError, set_times, after_replace, after_write, after_open, after_local,
  upload_file,
}
use easy_sftp.Transfer.Upload.Safe.{WritePromises, IsUploaded, upload_file-IsUploaded}
use easy_sftp.Transfer.Upload.Placed.{IsApart, WorkPromises}

module _ {S : Type 0} (content : S → Bytes → Option Bytes) (w : Writer S) (local : Bytes → Bytes)
    (promises : WritePromises content w local) (times : Bool) (f : UploadItem) (index : ℕ)
    (q : Bytes) (apart : IsApart f index q) where
  abbrev tmp : Bytes
  tmp = upload_temp_path f.remote_path index

  clean_keeps : (s : S) → content (cleanup_tmp w.mover tmp s) q ≡ content s q
  unfolding cleanup_tmp
  clean_keeps s = promises.moves.remove_keeps tmp q s apart.2

  times_keeps : (b : Bool) (s : S) → content (set_times w b f s) q ≡ content s q
  times_keeps false s = refl
  times_keeps true s = promises.chtimes_keeps f.remote_path f.mtime s q

  replace_then_keeps :
      (n : ℕ) (r : S × Result ReplaceError (Unit {0}))
      → content (after_replace w times f tmp n r).0 q ≡ content r.0 q
  replace_then_keeps n (s, ok u) = times_keeps times s
  replace_then_keeps n (s, err e) = clean_keeps s

  write_then_keeps :
      (mode : ℕ) (r : S × ℕ × Answer)
      → content (after_write w times f tmp mode r).0 q ≡ content r.0 q
  write_then_keeps mode (s, n, done) =
      let s' = (w.chmod tmp mode s).0 in
      replace_then_keeps n (rename_replace w.mover tmp f.remote_path s')
      ∙ rename_replace_keeps content w.mover promises.moves f.remote_path tmp q
          (append-backup-ne f.remote_path)
          (λ e. upload_temp_path-ne_self f.remote_path index (sym e)) apart.0 apart.1 apart.2 s'
      ∙ promises.chmod_keeps tmp mode s q
  write_then_keeps mode (s, n, conn_error) = clean_keeps s
  write_then_keeps mode (s, n, not_exist) = clean_keeps s
  write_then_keeps mode (s, n, permission) = clean_keeps s
  write_then_keeps mode (s, n, failure) = clean_keeps s

  open_then_keeps :
      (mode : ℕ) (r : S × Answer) → content (after_open w times f tmp mode r).0 q ≡ content r.0 q
  open_then_keeps mode (s, done) =
      write_then_keeps mode (w.write f.local_path tmp s)
      ∙ promises.write_keeps f.local_path tmp s q apart.2
  open_then_keeps mode (s, conn_error) = refl
  open_then_keeps mode (s, not_exist) = refl
  open_then_keeps mode (s, permission) = refl
  open_then_keeps mode (s, failure) = refl

  local_then_keeps :
      (mode : ℕ) (r : S × Bool) → content (after_local w times f tmp mode r).0 q ≡ content r.0 q
  local_then_keeps mode (s, false) = refl
  local_then_keeps mode (s, true) =
      open_then_keeps mode (w.open_temp tmp s) ∙ promises.open_keeps tmp s q apart.2

  upload_file_keeps :
      (mode : ℕ) (s : S) → content (upload_file w times f index mode s).0 q ≡ content s q
  unfolding upload_file
  upload_file_keeps mode s =
      local_then_keeps mode (w.open_local f.local_path s) ∙ promises.local_keeps f.local_path s q

-- What the error of an upload does not say, its success does.
uploaded_placed :
    {S : Type 0} (content : S → Bytes → Option Bytes) (final : Bytes) (old new : Option Bytes)
    (r : S × Result FileError ℕ) (n : ℕ)
    → IsUploaded content final old new r
    → r.1 ≡ ok n
    → content r.0 final ≡ new
uploaded_placed content final old new (s, ok n') n h e = h
uploaded_placed content final old new (s, err why) n h e = cc

-- One attempt of each upload, and a comparison of sizes that changes no file, keep the promises of the work.
pub upload_file-WorkPromises :
    {S : Type 0} (content : S → Bytes → Option Bytes) (w : Writer S) (local : Bytes → Bytes)
    (times : Bool) (same_size : UploadItem → ℕ → S → S × Result FileError Bool)
    → WritePromises content w local
    → ((f : UploadItem) (index : ℕ) (p : Bytes) (s : S)
        → content (same_size f index s).0 p ≡ content s p)
    → WorkPromises content local (record {
      same_size = same_size;
      upload = λ f index mode s. upload_file w times f index mode s;
    })
upload_file-WorkPromises content w local times same_size promises checks = record {
  places = λ f index mode s {n} e.
      uploaded_placed content f.remote_path (content s f.remote_path) (some (local f.local_path))
        (upload_file w times f index mode s) n
        (upload_file-IsUploaded content w local times f index mode s promises) e;
  upload_keeps = λ f index mode p s apart.
      upload_file_keeps content w local promises times f index p apart mode s;
  check_keeps = checks;
}

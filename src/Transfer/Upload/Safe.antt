-- ===== src/Transfer/Upload/Safe.antt =====
-- What an upload leaves of the file that it replaces.
use easy_sftp.Prelude.{
  ℕ, ◌≡◌, ◌≢◌, inl, inr, refl, ◌∙◌, Bool, true, false, Bytes, ◌++◌, Option, some, Result, ok, err,
}
use easy_sftp.Remote.Delete.{Answer, done, conn_error, not_exist, permission, failure}
use easy_sftp.Transfer.Temp.{bak_suffix, upload_temp_path}
use easy_sftp.Transfer.Temp.Names.{upload_temp_path-ne-backup, upload_temp_path-ne_self}
use easy_sftp.Transfer.Replace.{ReplaceError, rename_replace, cleanup_tmp}
use easy_sftp.Transfer.Replace.Promises.{Promises, IsSaved, IsKept, Unchanged}
use easy_sftp.Transfer.Replace.Kept.{rename_replace-IsKept}
use easy_sftp.Transfer.Upload.{
  Writer, UploadItem, FileError, set_times, after_replace, after_write, after_open, after_local,
  upload_file,
}

module _ {S : Type 0} (content : S → Bytes → Option Bytes) where
  -- Only the content of one path may change.
  abbrev pub OnlyAt : Bytes → S → S → Type 0
  OnlyAt p s s' = (q : Bytes) → q ≢ p → content s' q ≡ content s q

  -- What the requests of an upload promise; `local` is the content of the local files.
  pub record WritePromises (w : Writer S) (local : Bytes → Bytes) : Type 0 where
    pub moves : Promises content w.mover
    pub local_keeps : (p : Bytes) (s : S) → Unchanged content s (w.open_local p s).0
    pub open_keeps : (p : Bytes) (s : S) → OnlyAt p s (w.open_temp p s).0
    pub write_keeps : (l p : Bytes) (s : S) → OnlyAt p s (w.write l p s).0
    pub writes :
        (l p : Bytes) (s : S)
        → (w.write l p s).2 ≡ done
        → content (w.write l p s).0 p ≡ some (local l)
    pub chmod_keeps : (p : Bytes) (mode : ℕ) (s : S) → Unchanged content s (w.chmod p mode s).0
    pub chtimes_keeps :
        (p : Bytes) (mtime : ℕ) (s : S) → Unchanged content s (w.chtimes p mtime s).0

  -- The end of an upload in place of `old`: the local content is in place, or the old file is in place or
  -- at the backup, or the new one is in place although its answer was lost.
  abbrev pub IsUploaded : Bytes → Option Bytes → Option Bytes → S × Result FileError ℕ → Type 0
  IsUploaded final old new (s, ok n) = content s final ≡ new
  IsUploaded final old new (s, err e) = IsSaved content final old new s

module _ {S : Type 0} (content : S → Bytes → Option Bytes) (w : Writer S) (local : Bytes → Bytes)
    (promises : WritePromises content w local) (times : Bool) (f : UploadItem) (tmp : Bytes)
    (old : Option Bytes) (final-ne-tmp : f.remote_path ≢ tmp)
    (backup-ne-tmp : f.remote_path ++ bak_suffix ≢ tmp) where
  abbrev final : Bytes
  final = f.remote_path

  abbrev new : Option Bytes
  new = some (local f.local_path)

  abbrev Uploaded : S × Result FileError ℕ → Type 0
  Uploaded = IsUploaded content final old new

  cleaned :
      (s : S)
      → IsSaved content final old new s
      → IsSaved content final old new (cleanup_tmp w.mover tmp s)
  unfolding cleanup_tmp
  cleaned s (inl h) = inl (promises.moves.remove_keeps tmp final s final-ne-tmp ∙ h)
  cleaned s (inr (inl h)) =
      inr (inl (promises.moves.remove_keeps tmp (final ++ bak_suffix) s backup-ne-tmp ∙ h))
  cleaned s (inr (inr h)) = inr (inr (promises.moves.remove_keeps tmp final s final-ne-tmp ∙ h))

  timed : (b : Bool) (s : S) → content s final ≡ new → content (set_times w b f s) final ≡ new
  timed false s h = h
  timed true s h = promises.chtimes_keeps final f.mtime s final ∙ h

  replaced :
      (n : ℕ) (r : S × Result ReplaceError (Unit {0}))
      → IsKept content w.mover final tmp old new r
      → Uploaded (after_replace w times f tmp n r)
  replaced n (s, ok u) h = timed times s h.0
  replaced n (s, err e) h = cleaned s h

  module _
      (replaces : (s : S)
        → content s final ≡ old
        → content s tmp ≡ new
        → IsKept content w.mover final tmp old new (rename_replace w.mover tmp final s))
      (mode : ℕ) where
    written :
        (r : S × ℕ × Answer)
        → content r.0 final ≡ old
        → (r.2 ≡ done → content r.0 tmp ≡ new)
        → Uploaded (after_write w times f tmp mode r)
    written (s, n, done) h wrote =
        let s' = (w.chmod tmp mode s).0 in
        replaced n (rename_replace w.mover tmp final s') (
          replaces s' (promises.chmod_keeps tmp mode s final ∙ h)
            (promises.chmod_keeps tmp mode s tmp ∙ wrote refl))
    written (s, n, conn_error) h wrote = cleaned s (inl h)
    written (s, n, not_exist) h wrote = cleaned s (inl h)
    written (s, n, permission) h wrote = cleaned s (inl h)
    written (s, n, failure) h wrote = cleaned s (inl h)

    opened : (r : S × Answer) → content r.0 final ≡ old → Uploaded (after_open w times f tmp mode r)
    opened (s, done) h =
        written (w.write f.local_path tmp s)
          (promises.write_keeps f.local_path tmp s final final-ne-tmp ∙ h)
          (promises.writes f.local_path tmp s)
    opened (s, conn_error) h = inl h
    opened (s, not_exist) h = inl h
    opened (s, permission) h = inl h
    opened (s, failure) h = inl h

    started : (r : S × Bool) → content r.0 final ≡ old → Uploaded (after_local w times f tmp mode r)
    started (s, false) h = inl h
    started (s, true) h =
        opened (w.open_temp tmp s) (promises.open_keeps tmp s final final-ne-tmp ∙ h)

replaces :
    {S : Type 0} (content : S → Bytes → Option Bytes) (w : Writer S) (local : Bytes → Bytes)
    (promises : WritePromises content w local) (f : UploadItem) (index : ℕ) (old : Option Bytes)
    (s : S)
    → content s f.remote_path ≡ old
    → content s (upload_temp_path f.remote_path index) ≡ some (local f.local_path)
    → IsKept content w.mover f.remote_path
        (upload_temp_path f.remote_path index)
        old
        (some (local f.local_path))
        (rename_replace w.mover (upload_temp_path f.remote_path index) f.remote_path s)
replaces content w local promises f index old s same wrote =
    rw (← same, ← wrote)
      (rename_replace-IsKept content w.mover f.remote_path index s promises.moves)

-- Where the requests change the files as they say, and writing a file without an error leaves the
-- local content at its path, uploadFile with success leaves the local content at the remote path. With
-- an error the remote path holds its old content or the new content, or the old content is at the
-- backup path.
pub upload_file-IsUploaded :
    {S : Type 0} (content : S → Bytes → Option Bytes) (w : Writer S) (local : Bytes → Bytes)
    (times : Bool) (f : UploadItem) (index mode : ℕ) (s : S)
    → WritePromises content w local
    → IsUploaded content f.remote_path
        (content s f.remote_path)
        (some (local f.local_path))
        (upload_file w times f index mode s)
unfolding upload_file
upload_file-IsUploaded content w local times f index mode s promises =
    let tmp = upload_temp_path f.remote_path index in
    started content w local promises times f tmp (content s f.remote_path)
      (upload_temp_path-ne_self f.remote_path index)
      (upload_temp_path-ne-backup f.remote_path f.remote_path index)
      (λ s' same wrote.
        replaces content w local promises f index (content s f.remote_path) s' same wrote)
      mode (w.open_local f.local_path s) (promises.local_keeps f.local_path s f.remote_path)

-- ===== src/Transfer/Replace.antt =====
-- renameReplace, renameReplaceViaBackup, posixRenameUnsupported and cleanupTmp of
-- internal/uploader/transfer.go: an uploaded temporary file takes the place of the file on the server.
pub mod Promises
pub mod Kept
pub mod Elsewhere
use easy_sftp.Prelude.{ℕ, Bool, true, false, not, if◌then◌else◌, Bytes, ◌++◌, Result, ok, err}
use easy_sftp.Remote.Delete.{
  Answer, done, conn_error, not_exist, permission, failure, Client, remote_absent,
}
use easy_sftp.Transfer.Temp.{bak_suffix}

-- The status codes that posixRenameUnsupported tells apart.
pub data FxCode : Type 0 where
  op_unsupported failure_code bad_message other_code : FxCode

-- The answer to posix-rename@openssh.com: the rename is done, a status of the server, or an error that
-- is no status.
pub data PosixAnswer : Type 0 where
  renamed : PosixAnswer
  status : FxCode → PosixAnswer
  no_status : PosixAnswer

-- The requests that move a file, and whether the server announced the extension.
pub record Mover (S : Type 0) : Type 0 where
  pub client : Client S
  pub rename : Bytes → Bytes → S → S × Answer
  pub posix_rename : Bytes → Bytes → S → S × PosixAnswer
  pub announced : Bool

-- The errors of a replacement, with the answers that their messages print.
pub data ReplaceError : Type 0 where
  posix_failed : PosixAnswer → ReplaceError
  not_known : Answer → ReplaceError
  not_moved_aside : Answer → ReplaceError
  not_replaced : Answer → ReplaceError
  not_restored : Answer → Answer → ReplaceError

-- posixRenameUnsupported
abbrev pub posix_rename_unsupported : PosixAnswer → Bool → Bool
posix_rename_unsupported renamed announced = false
posix_rename_unsupported no_status announced = false
posix_rename_unsupported (status op_unsupported) announced = true
posix_rename_unsupported (status failure_code) announced = not announced
posix_rename_unsupported (status bad_message) announced = not announced
posix_rename_unsupported (status other_code) announced = false

module _ {S : Type 0} (m : Mover S) where
  abbrev pub Outcome : Type 0
  Outcome = S × Result ReplaceError (Unit {0})

  -- The backup goes back to its place after the rename failed with `answer`.
  abbrev pub after_restore : Answer → S × Answer → Outcome
  after_restore answer (s, done) = (s, err (not_replaced answer))
  after_restore answer (s, why) = (s, err (not_restored answer why))

  abbrev pub give_back : Bytes → Bool → Answer → S → Outcome
  give_back final false answer s = (s, err (not_replaced answer))
  give_back final true answer s = after_restore answer (m.rename (final ++ bak_suffix) final s)

  abbrev pub after_publish : Bytes → Bool → S × Answer → Outcome
  after_publish final parked (s, done) = ((m.client.remove (final ++ bak_suffix) s).0, ok tt)
  after_publish final parked (s, answer) = give_back final parked answer s

  -- The rename into place; `parked` says that the old file waits at the backup.
  unfoldable pub publish : Bytes → Bytes → Bool → S → Outcome
  publish tmp final parked s = after_publish final parked (m.rename tmp final s)

  abbrev pub if_absent : Bytes → Bytes → Answer → S × Result Answer Bool → Outcome
  if_absent tmp final why (s, err answer) = (s, err (not_known answer))
  if_absent tmp final why (s, ok false) = (s, err (not_moved_aside why))
  if_absent tmp final why (s, ok true) = publish tmp final false s

  abbrev pub after_park : Bytes → Bytes → S × Answer → Outcome
  after_park tmp final (s, done) = publish tmp final true s
  after_park tmp final (s, not_exist) = publish tmp final false s
  after_park tmp final (s, answer) = if_absent tmp final answer (remote_absent m.client final s)

  -- renameReplaceViaBackup
  unfoldable pub rename_replace_via_backup : Bytes → Bytes → S → Outcome
  unfolding publish
  rename_replace_via_backup tmp final s =
      after_park tmp final
        (m.rename final (final ++ bak_suffix) (m.client.remove (final ++ bak_suffix) s).0)

  abbrev pub after_posix : Bytes → Bytes → S × PosixAnswer → Outcome
  after_posix tmp final (s, renamed) = (s, ok tt)
  after_posix tmp final (s, answer) =
      if posix_rename_unsupported answer m.announced
      then rename_replace_via_backup tmp final s
      else (s, err (posix_failed answer))

  -- renameReplace
  unfoldable pub rename_replace : Bytes → Bytes → S → Outcome
  unfolding rename_replace_via_backup
  rename_replace tmp final s = after_posix tmp final (m.posix_rename tmp final s)

  -- cleanupTmp: what the removal answers is logged at most.
  unfoldable pub cleanup_tmp : Bytes → S → S
  cleanup_tmp tmp s = (m.client.remove tmp s).0

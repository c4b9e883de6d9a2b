-- ===== src/Transfer/Replace/Promises.antt =====
-- What the requests of a replacement promise, seen by the contents of the files, and how it may end.
use easy_sftp.Prelude.{◌≡◌, ◌≢◌, ◌⊎◌, Bytes, ◌++◌, Option, none, ok, err}
use easy_sftp.Remote.Delete.{Answer, done, conn_error}
use easy_sftp.Transfer.Temp.{bak_suffix}
use easy_sftp.Transfer.Replace.{PosixAnswer, renamed, status, no_status, Mover, Outcome}

-- What an answer tells: a request that is answered is done or has changed nothing, and one whose answer
-- is lost with the connection may be either.
abbrev pub Told : Answer → Type 0 → Type 0 → Type 0
Told done Effect Same = Effect
Told conn_error Effect Same = Effect ⊎ Same
Told answer Effect Same = Same

abbrev pub PosixTold : PosixAnswer → Type 0 → Type 0 → Type 0
PosixTold renamed Effect Same = Effect
PosixTold no_status Effect Same = Effect ⊎ Same
PosixTold (status code) Effect Same = Same

module _ {S : Type 0} (content : S → Bytes → Option Bytes) where
  -- The file at `a` is at `b`, and no other path has changed.
  abbrev pub Moved : Bytes → Bytes → S → S → Type 0
  Moved a b s s' =
      (content s' b ≡ content s a)
      × (content s' a ≡ none)
      × ((p : Bytes) → p ≢ a → p ≢ b → content s' p ≡ content s p)

  abbrev pub Unchanged : S → S → Type 0
  Unchanged s s' = (p : Bytes) → content s' p ≡ content s p

  -- What the requests promise, seen by the contents of the files.
  pub record Promises (m : Mover S) : Type 0 where
    pub rename_moves :
        (a b : Bytes) (s : S)
        → a ≢ b
        → Told (m.rename a b s).1 (Moved a b s (m.rename a b s).0) (Unchanged s (m.rename a b s).0)
    pub posix_rename_moves :
        (a b : Bytes) (s : S)
        → a ≢ b
        → PosixTold
            (m.posix_rename a b s).1
            (Moved a b s (m.posix_rename a b s).0)
            (Unchanged s (m.posix_rename a b s).0)
    pub remove_keeps :
        (a p : Bytes) (s : S) → p ≢ a → content (m.client.remove a s).0 p ≡ content s p
    pub lstat_keeps : (a : Bytes) (s : S) → Unchanged s (m.client.lstat a s).0

  -- The old file is in its place or at the backup, or the new one is in place.
  abbrev pub IsSaved : Bytes → Option Bytes → Option Bytes → S → Type 0
  IsSaved final old new s =
      (content s final ≡ old) ⊎ (content s (final ++ bak_suffix) ≡ old) ⊎ (content s final ≡ new)

  -- The end of a replacement of `old` by `new`.
  abbrev pub IsKept :
      (m : Mover S) (final tmp : Bytes) (old new : Option Bytes) → Outcome m → Type 0
  IsKept m final tmp old new (s, ok u) = (content s final ≡ new) × (content s tmp ≡ none)
  IsKept m final tmp old new (s, err e) = IsSaved final old new s

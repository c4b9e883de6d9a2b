-- ===== src/Planner/Tree.antt =====
-- The data of internal/uploader/planner.go: planned files, and the local tree as filepath.WalkDir
-- reports it, its entries in the order of the walk.
use easy_sftp.Prelude.{ℕ, Bool, Bytes}

-- What fs.FileInfo says of a file.
pub record FileInfo : Type 0 where
  pub size : ℕ
  pub mtime : ℕ
  pub mode : ℕ
  pub regular : Bool

-- fileItem
pub record FileItem : Type 0 where
  pub local_path : Bytes
  pub remote_path : Bytes
  pub rel : Bytes
  pub size : ℕ
  pub mtime : ℕ
  pub mode : ℕ
  pub hash : Bytes

-- A file whose Info call fails is `vanished`; an entry that the walk cannot read is `unreadable`.
mutual
  pub data Entry : Type 0 where
    file : Bytes → FileInfo → Entry
    vanished : Bytes → Entry
    unreadable : Bytes → Entry
    directory : Bytes → Entries → Entry

  pub data Entries : Type 0 where
    no_more : Entries
    entry : Entry → Entries → Entries

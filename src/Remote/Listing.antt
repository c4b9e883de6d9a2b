-- ===== src/Remote/Listing.antt =====
-- listRemoteContents of internal/uploader/remote.go: what lies below a directory of
-- the server, level by level.
pub mod Confined
pub mod Ends
use easy_sftp.Prelude.{
  ℕ, zero, suc, Bool, true, false, if◌then◌else◌, Bytes, List, [], ◌∷◌, ◌++◌, Result, ok, err,
  ◌>>=◌,
}
use easy_sftp.Strings.{sort_strings}
use easy_sftp.Remote.Confine.{safe_child}
use easy_sftp.Remote.Delete.{
  Answer, not_exist, done, conn_error, permission, failure, DirEntry, Client, remote_absent,
}

-- The files and the directories that were found.
pub record Contents : Type 0 where
  pub files : List Bytes
  pub dirs : List Bytes

-- A level that is not listed any more, or the answer to a listing.
pub data ListError : Type 0 where
  too_deep : ListError
  listing : Bytes → Answer → ListError

-- What is appended for the entries of one directory, with the directories of the next level.
abbrev pub add_entry : Bytes → DirEntry → Contents → Contents
add_entry full entry c =
    if entry.is_dir then record c { dirs = full ∷ c.dirs } else record c { files = full ∷ c.files }

unfoldable pub entries_of : Bytes → List DirEntry → Contents
entries_of dir [] = record { files = []; dirs = [] }
entries_of dir (entry ∷ entries) =
    let rest = entries_of dir entries in
    elim (safe_child dir entry.name) [ err e ↦ rest | ok full ↦ add_entry full entry rest ]

abbrev pub both : Contents → Contents → Contents
both a b = record { files = a.files ++ b.files; dirs = a.dirs ++ b.dirs }

abbrev pub with_rest : Contents → Result ListError Contents → Result ListError Contents
with_rest found rest = do below ← rest; ok (both found below)

module _ {S : Type 0} where
  -- What a directory's entries add to those of the rest of its level.
  abbrev pub collect :
      Bytes
      → S
      → Result ListError (List DirEntry)
      → S × Result ListError Contents
      → S × Result ListError Contents
  collect dir s (err e) rest = (s, err e)
  collect dir s (ok entries) rest = (rest.0, with_rest (entries_of dir entries) rest.1)

  -- What a level adds to those below it.
  abbrev pub deeper :
      S
      → Result ListError Contents
      → (Contents → S × Result ListError Contents)
      → S × Result ListError Contents
  deeper s (err e) next = (s, err e)
  deeper s (ok found) next = let (s', rest) = next found in (s', with_rest found rest)

-- The listing of a directory that could not be read, from whether it is absent.
abbrev pub absent_listing : Bytes → Answer → Result Answer Bool → Result ListError (List DirEntry)
absent_listing dir answer (err e) = err (listing dir e)
absent_listing dir answer (ok true) = ok []
absent_listing dir answer (ok false) = err (listing dir answer)

module _ {S : Type 0} (client : Client S) where
  -- The listing of one directory: one that is not there has no entries.
  abbrev pub listed :
      Bytes → S → Result Answer (List DirEntry) → S × Result ListError (List DirEntry)
  listed dir s (ok entries) = (s, ok entries)
  listed dir s (err not_exist) = (s, ok [])
  listed dir s (err answer) =
      let (s', told) = remote_absent client dir s in (s', absent_listing dir answer told)

  unfoldable pub list_dir : Bytes → S → S × Result ListError (List DirEntry)
  list_dir dir s = let (s', outcome) = client.read_dir dir s in listed dir s' outcome

  -- One level: all its directories are listed, and their entries are collected in order.
  unfoldable pub list_level : List Bytes → S → S × Result ListError Contents
  unfolding list_dir entries_of
  list_level [] s = (s, ok (record { files = []; dirs = [] }))
  list_level (dir ∷ level) s =
      let (s', outcome) = list_dir dir s in collect dir s' outcome (list_level level s')

  -- The loop over the levels, on fuel for their number.
  unfoldable pub list_levels : ℕ → List Bytes → S → S × Result ListError Contents
  unfolding list_level
  list_levels fuel [] s = (s, ok (record { files = []; dirs = [] }))
  list_levels zero (dir ∷ level) s = (s, err too_deep)
  list_levels (suc fuel) (dir ∷ level) s =
      let (s', outcome) = list_level (dir ∷ level) s in
      deeper s' outcome (λ found. list_levels fuel (sort_strings found.dirs) s')

  -- listRemoteContents
  unfoldable pub list_remote_contents : ℕ → Bytes → S → S × Result ListError Contents
  unfolding list_levels
  list_remote_contents fuel root s = list_levels fuel (root ∷ []) s

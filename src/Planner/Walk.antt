-- ===== src/Planner/Walk.antt =====
-- The directory walk of buildPlan in internal/uploader/planner.go.
pub mod Prune
use easy_sftp.Prelude.{
  ℕ, ◌+◌, ◌&&◌, not, Bool, true, false, if◌then◌else◌, Bytes, List, [], ◌∷◌, ◌++◌, eq_bytes, Result,
  ok, err, ◌>>=◌,
}
use easy_sftp.SlashPath.{dot, join}
use easy_sftp.Gitignore.Matcher.{GitignoreMatcher, matches_how}
use easy_sftp.Planner.Tree.{
  FileInfo, FileItem, Entry, file, vanished, unreadable, directory, Entries, no_more, entry,
}

-- planOptions, with the root that is walked and the remote base.
pub record WalkOptions : Type 0 where
  pub matcher : GitignoreMatcher
  pub prune_dirs : Bool
  pub manifest_name : Bytes
  pub walk_root : Bytes
  pub remote_base : Bytes

-- The part of the plan that the walk fills.
pub record Found : Type 0 where
  pub files : List FileItem
  pub skipped_non_regular : ℕ

pub data WalkError : Type 0 where
  walk_failed info_failed : Bytes → WalkError

-- The slash path of an entry relative to the walked root, which is itself `.`.
abbrev pub child_rel : Bytes → Bytes → Bytes
child_rel dir name = if eq_bytes dir dot then name else dir ++ b'/' ∷ name

unfoldable pub plan_item : WalkOptions → Bytes → FileInfo → FileItem
plan_item o rel info = record {
  local_path = join o.walk_root rel;
  remote_path = join o.remote_base rel;
  rel = rel;
  size = info.size;
  mtime = info.mtime;
  mode = info.mode;
  hash = [];
}

-- Whether the callback returns before it asks for the file's info.
unfoldable pub is_left_out : WalkOptions → Bytes → Bool
is_left_out o rel =
    if eq_bytes rel o.manifest_name then true else (matches_how o.matcher rel false).0

-- The callback on a file.
unfoldable pub visit_file : WalkOptions → Bytes → FileInfo → Found → Found
unfolding is_left_out plan_item
visit_file o rel info found =
    if is_left_out o rel
    then found
    else (if info.regular
        then record found { files = found.files ++ plan_item o rel info ∷ [] }
        else record found { skipped_non_regular = found.skipped_non_regular + 1 })

-- The callback's answer on a directory: whether the walk skips it.
unfoldable pub skips_dir : WalkOptions → Bytes → Bool
skips_dir o rel = (o.prune_dirs && not (eq_bytes rel dot)) && (matches_how o.matcher rel true).0

-- filepath.WalkDir with the callback, below the directory `dir`.
unfoldable mutual
  unfolding visit_file skips_dir

  pub walk_entry : WalkOptions → Bytes → Entry → Found → Result WalkError Found
  walk_entry o dir (file name info) found = ok (visit_file o (child_rel dir name) info found)
  walk_entry o dir (vanished name) found =
      if is_left_out o (child_rel dir name)
      then ok found
      else err (info_failed (child_rel dir name))
  walk_entry o dir (unreadable name) found = err (walk_failed (child_rel dir name))
  walk_entry o dir (directory name entries) found =
      let below = walk_entries o (child_rel dir name) entries found in
      if skips_dir o (child_rel dir name) then ok found else below

  pub walk_entries : WalkOptions → Bytes → Entries → Found → Result WalkError Found
  walk_entries o dir no_more found = ok found
  walk_entries o dir (entry e entries) found = do
    found' ← walk_entry o dir e found
    walk_entries o dir entries found'

-- The walk from the root.
unfoldable pub walk_dir : WalkOptions → Entries → Result WalkError Found
unfolding walk_entries
walk_dir o entries = walk_entries o dot entries (record { files = []; skipped_non_regular = 0 })

-- ===== src/Remote/Dirs.antt =====
-- parentDirs and leafDirs of internal/uploader/remote.go and dirsForFiles of
-- internal/uploader/planner.go: the directories that files need.
pub mod Ancestors
use easy_sftp.Prelude.{
  ℕ, zero, suc, ◌||◌, not, Bool, true, false, if◌then◌else◌, Bytes, List, [], ◌∷◌, ◌++◌, eq_bytes,
  length,
}
use easy_sftp.Strings.{sort_strings}
use easy_sftp.SlashPath.{dot, slash, dir}

-- The loop `for dir := …; !stop(dir); dir = path.Dir(dir)`: the directories that it visits, the deepest
-- first. Each round makes a clean path shorter, so fuel for its length is enough.
unfoldable pub visit_dirs : ℕ → (Bytes → Bool) → Bytes → List Bytes
visit_dirs zero stop d = []
visit_dirs (suc f) stop d = elim (stop d) [ true ↦ [] | false ↦ d ∷ visit_dirs f stop (dir d) ]

-- dir == "." || dir == "/"
abbrev pub is_top : Bytes → Bool
is_top d = eq_bytes d dot || eq_bytes d slash

-- parentDirs
unfoldable pub parent_dirs : Bytes → List Bytes
unfolding visit_dirs
parent_dirs remote_path = sort_strings (visit_dirs (length remote_path) is_top (dir remote_path))

abbrev pub contains : List Bytes → Bytes → Bool
contains [] d = false
contains (x ∷ xs) d = eq_bytes x d || contains xs d

-- A set of strings, as a map to the empty struct.
abbrev pub add_to_set : List Bytes → List Bytes → List Bytes
add_to_set [] set = set
add_to_set (d ∷ ds) set = add_to_set ds (if contains set d then set else d ∷ set)

abbrev pub dir_set : List Bytes → List Bytes → List Bytes
dir_set [] set = set
dir_set (path ∷ paths) set = dir_set paths (add_to_set (parent_dirs path) set)

-- dirsForFiles, on the remote paths of the files.
unfoldable pub dirs_for_files : List Bytes → List Bytes
unfolding parent_dirs
dirs_for_files remote_paths = sort_strings (dir_set remote_paths [])

abbrev pub dirs_of : List Bytes → List Bytes
dirs_of [] = []
dirs_of (d ∷ dirs) = dir d ∷ dirs_of dirs

abbrev pub without_children : List Bytes → List Bytes → List Bytes
without_children has_child [] = []
without_children has_child (d ∷ dirs) =
    let rest = without_children has_child dirs in if contains has_child d then rest else d ∷ rest

-- leafDirs
unfoldable pub leaf_dirs : List Bytes → List Bytes
leaf_dirs dirs = sort_strings (without_children (dirs_of dirs) dirs)

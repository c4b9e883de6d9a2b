-- ===== src/Planner/Build.antt =====
-- buildPlan of internal/uploader/planner.go, and the call of it in Run of internal/uploader/uploader.go.
pub mod Safe
use easy_sftp.Prelude.{
  ℕ, ◌||◌, ◌&&◌, not, Bool, true, false, if◌then◌else◌, Bytes, List, [], ◌∷◌, eq_bytes, Result, ok,
  err, ◌>>=◌,
}
use easy_sftp.Strings.{ends_with}
use easy_sftp.SlashPath.{dot, join}
use easy_sftp.Remote.Guard.{normalize_remote}
use easy_sftp.Remote.Dirs.{parent_dirs, dirs_for_files}
use easy_sftp.Gitignore.Matcher.{GitignoreMatcher, matches_how}
use easy_sftp.Gitignore.Compile.{SyntaxError, has_negation, compile_gitignore}
use easy_sftp.Planner.Tree.{FileInfo, FileItem, Entries}
use easy_sftp.Planner.Walk.{WalkOptions, WalkError, Found, walk_dir}

pub data Strategy : Type 0 where
  overlay sync clean : Strategy

-- What os.Stat finds at the local path: nothing, a file with its base name, or a directory with the
-- tree below its resolved root.
pub data Local : Type 0 where
  missing : Local
  single : Bytes → FileInfo → Local
  tree : Bytes → Entries → Local

-- plan
pub record Plan : Type 0 where
  pub strategy : Strategy
  pub files : List FileItem
  pub remote_dirs : List Bytes
  pub skipped_non_regular : ℕ

pub data PlanError : Type 0 where
  no_local_path : PlanError
  needs_directory : Strategy → PlanError
  walking : WalkError → PlanError
  syntax : SyntaxError → PlanError

-- planOptions
pub record PlanOptions : Type 0 where
  pub matcher : GitignoreMatcher
  pub prune_dirs : Bool
  pub manifest_name : Bytes

abbrev pub is_overlay : Strategy → Bool
is_overlay overlay = true
is_overlay _ = false

-- Where a single file goes: a trailing slash on the remote side means into that directory.
unfoldable pub single_remote_path : Bytes → Bytes → Bytes
single_remote_path remote base =
    if ends_with remote b'/' || eq_bytes (normalize_remote remote) dot
    then join (normalize_remote remote) base
    else normalize_remote remote

abbrev pub empty_plan : Strategy → Plan
empty_plan s = record { strategy = s; files = []; remote_dirs = []; skipped_non_regular = 0 }

-- The branch of `buildPlan` for a single file, whose local path is `local`.
unfoldable pub plan_single :
    Strategy → Bytes → Bytes → PlanOptions → Bytes → FileInfo → Result PlanError Plan
unfolding single_remote_path
plan_single s local remote o base info =
    if not (is_overlay s)
    then err (needs_directory s)
    else (if (matches_how o.matcher base false).0
        then ok (empty_plan s)
        else ok (record {
          strategy = s;
          files =
              record {
                local_path = local;
                remote_path = single_remote_path remote base;
                rel = base;
                size = info.size;
                mtime = info.mtime;
                mode = info.mode;
                hash = [];
              }
              ∷ [];
          remote_dirs = parent_dirs (single_remote_path remote base);
          skipped_non_regular = 0;
        }))

abbrev pub remote_paths : List FileItem → List Bytes
remote_paths [] = []
remote_paths (f ∷ files) = f.remote_path ∷ remote_paths files

abbrev pub walk_options : Bytes → Bytes → PlanOptions → WalkOptions
walk_options root remote o = record {
  matcher = o.matcher;
  prune_dirs = o.prune_dirs;
  manifest_name = o.manifest_name;
  walk_root = root;
  remote_base = normalize_remote remote;
}

unfoldable pub plan_of_walk : Strategy → Result WalkError Found → Result PlanError Plan
plan_of_walk s (err e) = err (walking e)
plan_of_walk s (ok found) = ok (record {
  strategy = s;
  files = found.files;
  remote_dirs = dirs_for_files (remote_paths found.files);
  skipped_non_regular = found.skipped_non_regular;
})

-- buildPlan
unfoldable pub build_plan : Strategy → Bytes → Bytes → PlanOptions → Local → Result PlanError Plan
unfolding plan_single plan_of_walk
build_plan s local remote o missing = err no_local_path
build_plan s local remote o (single base info) = plan_single s local remote o base info
build_plan s local remote o (tree root entries) =
    plan_of_walk s (walk_dir (walk_options root remote o) entries)

-- The planning of one pair in `Run`: its ignore lines are compiled, and pruning is switched off where
-- one of them re-includes.
unfoldable pub plan_pair :
    Strategy → Bytes → Bytes → List Bytes → Bytes → Local → Result PlanError Plan
unfolding build_plan
plan_pair s local remote lines manifest_name src = elim (compile_gitignore lines) [
  | err e ↦ err (syntax e)
  | ok m ↦
      build_plan s local remote
        (record {
          matcher = m;
          prune_dirs = not (has_negation lines);
          manifest_name = manifest_name;
        })
        src
]

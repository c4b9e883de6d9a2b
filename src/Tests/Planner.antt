-- ===== src/Tests/Planner.antt =====
-- Runs of internal/uploader/planner.go on a small tree, and its theorems there.
use easy_sftp.Prelude.{◌≡◌, refl, true, false, [], ◌∷◌, codes, ok, All, arith}
use easy_sftp.Strings.{split, join_parts, sort_strings}
use easy_sftp.SlashPath.{join, dir, IsName}
use easy_sftp.Remote.Guard.{normalize_remote}
use easy_sftp.Remote.Dirs.{parent_dirs, dirs_for_files}
use easy_sftp.Gitignore.Segment.{match_segment}
use easy_sftp.Gitignore.Segments.{match_segments_exact}
use easy_sftp.Gitignore.Class.{split_class}
use easy_sftp.Gitignore.Matcher.{GitignoreMatcher, matches_path, matches_how}
use easy_sftp.Gitignore.Compile.{compile_gitignore}
use easy_sftp.Planner.Tree.{FileInfo, FileItem, file, directory, no_more, entry}
use easy_sftp.Planner.Walk.{walk_dir}
use easy_sftp.Planner.Build.{
  sync, Local, tree, Plan, PlanOptions, build_plan, plan_pair, walk_options,
}
use easy_sftp.Planner.Build.Safe.{IsPlanned, plan_pair-whole_walk, build_plan-IsPlanned}

abbrev info : FileInfo
info = record { size = 10; mtime = 7; mode = 420; regular = true }

-- dist/a.js and index.html
abbrev site : Local
site = tree (codes "site") (
    entry (directory (codes "dist") (entry (file (codes "a.js") info) no_more))
      (entry (file (codes "index.html") info) no_more))

abbrev index_item : FileItem
index_item = record {
  local_path = codes "site/index.html";
  remote_path = codes "www/index.html";
  rel = codes "index.html";
  size = 10;
  mtime = 7;
  mode = 420;
  hash = [];
}

abbrev index_plan : Plan
index_plan = record {
  strategy = sync;
  files = index_item ∷ [];
  remote_dirs = codes "www" ∷ [];
  skipped_non_regular = 0;
}

abbrev dist_only : GitignoreMatcher
dist_only =
    record {
      line = codes "dist";
      negate = false;
      dir_only = false;
      anchored = false;
      segments = codes "dist" ∷ [];
    }
    ∷ []

abbrev everywhere : PlanOptions
everywhere = record { matcher = dist_only; prune_dirs = false; manifest_name = codes ".m" }

compile_dist_only : compile_gitignore (codes "dist" ∷ []) ≡ ok dist_only
unfolding compile_gitignore split split_class
compile_dist_only = refl

whole_walk : build_plan sync (codes "site") (codes "www") everywhere site ≡ ok index_plan
unfolding build_plan walk_dir matches_how matches_path match_segments_exact match_segment split join
    join_parts parent_dirs sort_strings dir dirs_for_files normalize_remote
whole_walk = refl

plan_pair-whole_walk_example :
    plan_pair sync (codes "site") (codes "www") (codes "dist" ∷ []) (codes ".m") site
    ≡ ok index_plan
plan_pair-whole_walk_example =
    plan_pair-whole_walk sync (codes "site") (codes "www") (codes "dist" ∷ []) (codes ".m")
      dist_only site compile_dist_only whole_walk

build_plan-IsPlanned_example :
    All (IsPlanned (walk_options (codes "site") (codes "www") everywhere)) index_plan.files
build_plan-IsPlanned_example =
    build_plan-IsPlanned sync (codes "site") (codes "www") everywhere (codes "site") _ whole_walk

IsName-a : IsName (codes "a")
IsName-a = record {
  no_slash = (λ e. absurd (omega (arith, e)), tt);
  not_empty = λ e. cc;
  not_dot = λ e. cc;
  not_dot_dot = λ e. cc;
}

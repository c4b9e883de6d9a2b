-- ===== src/Tests/Uploader.antt =====
-- Runs of internal/uploader/uploader.go, delete.go and retry.go against a small server, and theorems there.
use easy_sftp.Prelude.{
  ◌+◌, ◌≤◌, ◌<◌, All, Result, arith, ◌≢◌, Bool-cases, inl, inr, subst, sym, eq_bytes_sound, ℕ, suc,
  ◌≡◌, refl, true, false, if◌then◌else◌, Bytes, List, [], ◌∷◌, codes, eq_bytes, none, ok, err,
  length, ◌⊎◌,
}
use easy_sftp.Strings.{split, join_parts, sort_strings}
use easy_sftp.SlashPath.{clean as clean_path, join}
use easy_sftp.Remote.Confine.{safe_join, safe_child, within}
use easy_sftp.Remote.Guard.{check_remote_root}
use easy_sftp.Remote.Dirs.{leaf_dirs}
use easy_sftp.Remote.Budget.{new_delete_budget, take_one, refund, reserve}
use easy_sftp.Remote.Delete.{
  done, failure, Client, depth, delete_remote_files, remove_remote_dirs, remove_uncharged,
}
use easy_sftp.Remote.Delete.{Answer, DirEntry}
use easy_sftp.Remote.Delete.Charged.{Charges, remove_remote_dirs-Charges}
use easy_sftp.Remote.Listing.{Contents, too_deep, entries_of, list_remote_contents}
use easy_sftp.Remote.Listing.Ends.{list_remote_contents-Ends}
use easy_sftp.Remote.Listing.Confined.{AllBelow, list_remote_contents-AllBelow}
use easy_sftp.Planner.Build.{clean, Plan}
use easy_sftp.Sync.Manifest.{Manifest, open_missing}
use easy_sftp.Sync.Select.{Selection}
use easy_sftp.Sync.Session.{Config, Session, Progress}
use easy_sftp.Sync.Execute.{delete_and_upload, guarded}
use easy_sftp.Sync.Execute.Guards.{guarded-passes}
use easy_sftp.Uploader.{execute_plan}
use easy_sftp.Uploader.DryRun.{execute_plan-dry_run}
use easy_sftp.Uploader.Retry.{Failure, Worker, is_retryable, upload_file_with_retry}
use easy_sftp.Uploader.Retry.Attempts.{IsTried, KeepsFailing, upload_file_with_retry-IsTried}

-- What the root of the server lists: a directory, a file, and a name that climbs.
abbrev root_entries : List DirEntry
root_entries =
    record { name = codes "d"; is_dir = true }
    ∷ record { name = codes "f"; is_dir = false }
    ∷ record { name = codes ".."; is_dir = true }
    ∷ []

-- A server that counts the removals, and refuses to remove one directory.
abbrev client : Client ℕ
client = record {
  remove = λ p s. (suc s, done);
  remove_directory = λ d s. if eq_bytes d (codes "/w/kept") then (s, failure) else (suc s, done);
  lstat = λ p s. (s, done);
  read_dir = λ d s. (s, ok (if eq_bytes d (codes "/w") then root_entries else []));
}

abbrev dirs : List Bytes
dirs = codes "/w/a" ∷ codes "/w/a/b" ∷ codes "/w/kept" ∷ []

removal_run :
    remove_remote_dirs client false dirs (new_delete_budget 5) 0
    ≡ (2, record { limit = 5; spent = 2 }, 2)
unfolding remove_remote_dirs new_delete_budget take_one refund depth clean_path split join_parts
removal_run = refl

remove_remote_dirs-Charges_example :
    Charges
      (new_delete_budget 5)
      (remove_remote_dirs client false dirs (new_delete_budget 5) 0).1
      (remove_remote_dirs client false dirs (new_delete_budget 5) 0).2
remove_remote_dirs-Charges_example = remove_remote_dirs-Charges client dirs (new_delete_budget 5) 0

abbrev found : Contents
found = record { files = codes "/w/f" ∷ []; dirs = codes "/w/d" ∷ [] }

listing_run : (list_remote_contents client 3 (codes "/w") 0).1 ≡ ok found
unfolding list_remote_contents safe_child safe_join within clean_path join split join_parts
    sort_strings
listing_run = refl

list_remote_contents-AllBelow_example : AllBelow (codes "/w") found
list_remote_contents-AllBelow_example =
    list_remote_contents-AllBelow (codes "/w") client 3 0 listing_run

-- One level lies below the root.
abbrev height : Bytes → ℕ
height d = if eq_bytes d (codes "/w") then 1 else 0

abbrev IsLower : Bytes → List DirEntry → Type 0
IsLower d entries = All (λ c. height c < height d) (entries_of d entries).dirs

root-IsLower : IsLower (codes "/w") (root_entries)
unfolding entries_of safe_child safe_join within clean_path join split join_parts
root-IsLower = (omega arith, tt)

nothing-IsLower : (d : Bytes) → IsLower d []
unfolding entries_of
nothing-IsLower d = tt

ok-injective : {a b : List DirEntry} → Path (Result Answer (List DirEntry)) (ok a) (ok b) → a ≡ b
ok-injective e = cc

client-IsLower :
    (d : Bytes) (s : ℕ) (entries : List DirEntry)
    → (client.read_dir d s).1 ≡ ok entries
    → IsLower d entries
client-IsLower d s entries e = elim (Bool-cases (eq_bytes d (codes "/w"))) [
  | inl root ↦
      subst (IsLower d) (ok-injective (rw root at e)) (
        subst (λ x. IsLower x root_entries) (sym (eq_bytes_sound d (codes "/w") root)) root-IsLower)
  | inr other ↦ subst (IsLower d) (ok-injective (rw other at e)) (nothing-IsLower d)
]

list_remote_contents-Ends_example : (list_remote_contents client 2 (codes "/w") 0).1 ≢ err too_deep
list_remote_contents-Ends_example =
    list_remote_contents-Ends client height client-IsLower 2 (codes "/w") 0 (omega arith)

abbrev session : Session ℕ
session = record {
  client = client;
  open_manifest = λ d s. (s, open_missing);
  write_manifest = λ d m s. (suc s, none);
  file_work = record {
    same_size = λ f i s. (s, ok false);
    upload = λ f i mode s. (suc s, ok f.size);
  };
  maker = record {
    mkdir_all = λ d s. (suc s, done);
    stat = λ d s. (s, ok true);
    chmod = λ d mode s. (suc s, done);
  };
  sweeper = record { read_dir = λ d s. (s, ok []); remove = λ p s. (suc s, done) };
  line = record { has_fired = λ s. false; redial = λ s. (s, true) };
  reconnects_left = λ s. 2;
  hash_file = λ p. ok (codes "h");
  decode = λ d. none;
  decode_v1 = λ d. none;
  fold_segment = λ s. s;
}

abbrev config : Config
config = record {
  dry_run = false;
  fast_path = false;
  skip_unchanged = false;
  file_mode = none;
  dir_mode = none;
  remote = codes "/w";
}

abbrev at_start : Progress ℕ
at_start = record {
  server = 0;
  budget = record { limit = 0; spent = 0 };
  files_deleted = 0;
  dirs_deleted = 0;
  files_skipped = 0;
}

abbrev wipe_plan : Plan
wipe_plan = record { strategy = clean; files = []; remote_dirs = []; skipped_non_regular = 0 }

clean_run : (execute_plan session config 3 wipe_plan at_start).0.server ≡ 2
unfolding execute_plan check_remote_root list_remote_contents delete_remote_files remove_uncharged
    reserve safe_child safe_join within clean_path join split join_parts sort_strings depth
    leaf_dirs
clean_run = refl

execute_plan-dry_run_example :
    (execute_plan session (record config { dry_run = true }) 3 wipe_plan at_start).0.server ≡ 0
execute_plan-dry_run_example =
    execute_plan-dry_run session config (λ d s. refl) (λ f i s. refl) (λ d s. refl) (λ p s. refl) 3
      wipe_plan at_start

abbrev selection : Selection
selection = record { local = []; upload = []; to_delete = codes "a" ∷ [] }

abbrev no_manifest : Manifest
no_manifest = record { version = 3; files = [] }

guarded-passes_example :
    ((guarded session config no_manifest wipe_plan [] selection at_start).0.server ≡ 0)
    ⊎ (selection.to_delete ≡ [])
    ⊎ ((check_remote_root config.remote ≡ ok tt)
        × ((at_start.budget.limit ≡ 0)
            ⊎ (at_start.budget.spent + length selection.to_delete ≤ at_start.budget.limit))
        × (guarded session config no_manifest wipe_plan [] selection at_start
            ≡ delete_and_upload session config no_manifest wipe_plan [] selection (record at_start {
              budget = record at_start.budget {
                spent = at_start.budget.spent + length selection.to_delete;
              };
            })))
guarded-passes_example = guarded-passes session config no_manifest wipe_plan [] selection at_start

-- A lost connection, at every attempt but the third.
abbrev lost : Failure
lost = record {
  canceled = false;
  deadline_exceeded = false;
  permission_denied = false;
  not_found = false;
  status = none;
  connection = true;
}

abbrev third_works : Worker ℕ
third_works = record {
  upload_file = λ attempt s. if eq_bytes (attempt ∷ []) (2 ∷ []) then (s, ok 10) else (s, err lost);
  sleep = λ attempt s. (s, none);
  clear_temp = λ s. s;
  has_fired = λ s. false;
  reconnect = λ s. (suc s, none);
}

retry_run : upload_file_with_retry third_works 4 0 ≡ (2, 3, ok 10)
unfolding upload_file_with_retry is_retryable
retry_run = refl

upload_file_with_retry-IsTried_example :
    IsTried third_works 5 (upload_file_with_retry third_works 4 0)
upload_file_with_retry-IsTried_example = upload_file_with_retry-IsTried third_works 4 0

abbrev never_works : Worker ℕ
never_works = record third_works { upload_file = λ attempt s. (s, err lost) }

lost_is_transient : is_retryable lost ≡ true
unfolding is_retryable
lost_is_transient = refl

keeps_failing : KeepsFailing never_works
keeps_failing = record {
  failure = lost;
  transient = lost_is_transient;
  fails = λ attempt s. refl;
  quiet = λ s. refl;
  sleeps = λ attempt s. refl;
  reconnects = λ s. refl;
}

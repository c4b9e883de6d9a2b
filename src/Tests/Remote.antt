-- ===== src/Tests/Remote.antt =====
-- Runs of internal/uploader/remote.go on concrete paths and budgets, and its theorems there.
use easy_sftp.Prelude.{List, [], ◌∷◌, ◌≡◌, refl, false, [], ◌∷◌, codes, ok, err, ◌⊎◌}
use easy_sftp.Strings.{split, join_parts}
use easy_sftp.SlashPath.{clean, join, dir, locate, dot, Below}
use easy_sftp.Remote.Confine.{safe_join, resolves_outside, within}
use easy_sftp.Remote.Confine.Joined.{safe_join-Below, safe_join_working_directory}
use easy_sftp.Remote.Guard.{check_remote_root, to_slash, is_drive, is_above}
use easy_sftp.Remote.Guard.Target.{accepts, is_target, accepts-check_remote_root}
use easy_sftp.Remote.Budget.{new_delete_budget, reserve, take_one, refund}
use easy_sftp.Remote.Budget.Runs.{
  Call, reserves, takes, refunds, run, fresh, IsCharged, Grants, run-IsCharged,
}

clean_run : clean (codes "/a//b/./c/../d/") ≡ codes "/a/b/d"
unfolding clean split join_parts
clean_run = refl

dir_run : dir (codes "a/b/c.txt") ≡ codes "a/b"
unfolding dir split join_parts
dir_run = refl

joined_run :
    safe_join (codes "/var/www") (codes "css/../img/a.png") ≡ ok (codes "/var/www/img/a.png")
unfolding safe_join within clean join split join_parts
joined_run = refl

escape_run :
    safe_join (codes "/var/www") (codes "../../etc") ≡ err (resolves_outside (codes "/etc"))
unfolding safe_join within clean join split join_parts
escape_run = refl

drive_run : check_remote_root (codes "C:\\site\\..") ≡ err is_drive
unfolding check_remote_root clean split join_parts
drive_run = refl

above_run : check_remote_root (codes "www/../..") ≡ err is_above
unfolding check_remote_root clean split join_parts
above_run = refl

safe_join-Below_example :
    Below (locate (codes "/var/www")) (locate (codes "/var/www/img/a.png"))
    ⊎ ((clean (codes "/var/www") ≡ dot) × (codes "/var/www/img/a.png" ≡ dot))
safe_join-Below_example = safe_join-Below (codes "/var/www") (codes "css/../img/a.png") joined_run

located : locate (codes "css/../img") ≡ record { rooted = false; ups = 0; names = codes "img" ∷ [] }
unfolding locate split
located = refl

resolves_to_dot : clean (codes "a/..") ≡ dot
unfolding clean split join_parts
resolves_to_dot = refl

clean-dot : clean (codes ".") ≡ dot
unfolding clean split join_parts
clean-dot = refl

safe_join_working_directory_example : safe_join (codes ".") (codes "a/..") ≡ ok dot
safe_join_working_directory_example =
    safe_join_working_directory (codes ".") (codes "a/..") clean-dot (λ e. cc) (λ e. cc) refl
      resolves_to_dot

accepts-check_remote_root_example :
    accepts (check_remote_root (codes "/C:/site"))
    ≡ is_target (locate (to_slash (codes "/C:/site")))
accepts-check_remote_root_example = accepts-check_remote_root (codes "/C:/site")

-- A batch of two, a directory that is charged and given back, and a batch that is refused.
abbrev busy : List Call
busy = reserves 2 ∷ takes ∷ refunds ∷ reserves 4 ∷ []

busy_budget :
    run busy (fresh 5)
    ≡ record { budget = record { limit = 5; spent = 2 }; granted = 3; refunded = 1 }
unfolding new_delete_budget reserve take_one refund
busy_budget = refl

run-IsCharged_example : IsCharged 5 (run busy (fresh 5)) × Grants 5 2 (run busy (fresh 5)).budget
run-IsCharged_example = run-IsCharged 5 busy 2

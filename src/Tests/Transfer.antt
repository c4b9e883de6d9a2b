-- ===== src/Tests/Transfer.antt =====
-- Runs of the transfers on a small server.
use easy_sftp.Prelude.{
  ◌↔◌, ℕ, suc, ◌==◌, ◌≡◌, ◌≢◌, refl, true, false, if◌then◌else◌, List, [], ◌∷◌, Bytes, codes,
  eq_bytes, eq_bytes_iff, eq_bytes_refl, Option, none, some, ok, err, arith, Bool-cases, inl, inr,
  length,
}
use easy_sftp.Strings.{decimal, emit, last_index}
use easy_sftp.Remote.Dirs.{contains}
use easy_sftp.Remote.Delete.{done, failure}
use easy_sftp.Session.Do.{Line}
use easy_sftp.Transfer.Temp.{upload_temp_path, is_temp_file_name}
use easy_sftp.Transfer.Temp.Names.{IsTempName, is_temp_file_name_iff}
use easy_sftp.Transfer.Replace.{status, op_unsupported, Mover}
use easy_sftp.Transfer.Replace.Promises.{Promises}
use easy_sftp.Transfer.Sweep.{TempEntry, Sweeper, sweep_stale_temps}
use easy_sftp.Transfer.Sweep.Stale.{sweep_stale_temps-keeps}
use easy_sftp.Transfer.Upload.{Writer, UploadItem, not_written, FileWork, upload_file, upload_files}
use easy_sftp.Transfer.Upload.Safe.{WritePromises, IsUploaded, upload_file-IsUploaded}
use easy_sftp.Transfer.Upload.Counted.{IsCounted, upload_files-IsCounted}
use easy_sftp.Transfer.Upload.Placed.{AreClear, AllPlaced, upload_files-AllPlaced}
use easy_sftp.Transfer.Upload.Elsewhere.{upload_file-WorkPromises}

temp_name : upload_temp_path (codes "a") 120 ≡ codes "a.easysftp-tmp.120"
unfolding upload_temp_path decimal emit
temp_name = refl

-- The files of a server without posix-rename@openssh.com.
abbrev Files : Type 0
Files = Bytes → Option Bytes

abbrev with_file : Bytes → Option Bytes → Files → Files
with_file a v s p = if eq_bytes p a then v else s p

abbrev move_file : Bytes → Bytes → Files → Files
move_file a b s p = if eq_bytes p b then s a else (if eq_bytes p a then none else s p)

abbrev file_mover : Mover Files
file_mover = record {
  client = record {
    remove = λ p s. (with_file p none s, done);
    remove_directory = λ p s. (s, failure);
    lstat = λ p s. (s, done);
    read_dir = λ p s. (s, err failure);
  };
  rename = λ a b s. (move_file a b s, done);
  posix_rename = λ a b s. (s, status op_unsupported);
  announced = false;
}

abbrev content : Files → Bytes → Option Bytes
content s p = s p

not_eq : (p q : Bytes) → p ≢ q → eq_bytes p q ≡ false
not_eq p q h = ground (arith, eq_bytes_iff p q, h)

moved_to : (a b : Bytes) (s : Files) → move_file a b s b ≡ s a
moved_to a b s = rw (eq_bytes_refl b) refl

moved_from : (a b : Bytes) (s : Files) → a ≢ b → move_file a b s a ≡ none
moved_from a b s h = rw (not_eq a b h, eq_bytes_refl a) refl

moved_other : (a b p : Bytes) (s : Files) → p ≢ a → p ≢ b → move_file a b s p ≡ s p
moved_other a b p s ha hb = rw (not_eq p b hb, not_eq p a ha) refl

with_other : (a p : Bytes) (v : Option Bytes) (s : Files) → p ≢ a → with_file a v s p ≡ s p
with_other a p v s h = rw (not_eq p a h) refl

file_mover-Promises : Promises content file_mover
file_mover-Promises = record {
  rename_moves =
      λ a b s h. (moved_to a b s, moved_from a b s h, λ p ha hb. moved_other a b p s ha hb);
  posix_rename_moves = λ a b s h p. refl;
  remove_keeps = λ a p s h. with_other a p none s h;
  lstat_keeps = λ a s p. refl;
}

abbrev file_writer : Writer Files
file_writer = record {
  mover = file_mover;
  open_local = λ l s. (s, true);
  open_temp = λ p s. (with_file p (some []) s, done);
  write = λ l p s. (with_file p (some l) s, length l, done);
  chmod = λ p mode s. (s, done);
  chtimes = λ p mtime s. (s, done);
}

abbrev local : Bytes → Bytes
local l = l

file_writer-WritePromises : WritePromises content file_writer local
file_writer-WritePromises = record {
  moves = file_mover-Promises;
  local_keeps = λ l s p. refl;
  open_keeps = λ p s q h. with_other p q (some []) s h;
  write_keeps = λ l p s q h. with_other p q (some l) s h;
  writes = λ l p s h. rw (eq_bytes_refl p) refl;
  chmod_keeps = λ p mode s q. refl;
  chtimes_keeps = λ p mtime s q. refl;
}

abbrev page : UploadItem
page = record {
  local_path = codes "dist/p";
  remote_path = codes "/w/p";
  size = 6;
  mtime = 0;
  mode = 420;
}

abbrev old_files : Files
old_files = with_file (codes "/w/p") (some (codes "old")) (λ p. none)

upload_file-IsUploaded_example :
    IsUploaded content
      (codes "/w/p")
      (some (codes "old"))
      (some (codes "dist/p"))
      (upload_file file_writer true page 7 420 old_files)
upload_file-IsUploaded_example =
    upload_file-IsUploaded content file_writer local true page 7 420 old_files
      file_writer-WritePromises

abbrev style : UploadItem
style = record page { local_path = codes "dist/q"; remote_path = codes "/w/q" }

abbrev placing : FileWork Files
placing = record {
  same_size = λ f i s. (s, ok false);
  upload = λ f i mode s. upload_file file_writer true f i mode s;
}

bytes_apart : (p q : Bytes) → eq_bytes p q ≡ false → p ≢ q
bytes_apart p q h e = ground (arith, eq_bytes_iff p q, h, e)

page-style-AreClear : AreClear 0 (page ∷ style ∷ [])
unfolding upload_temp_path decimal emit
page-style-AreClear =
    (((bytes_apart _ _ refl, bytes_apart _ _ refl, bytes_apart _ _ refl), tt), (tt, tt))

upload_files-AllPlaced_example :
    AllPlaced content local
      (page ∷ style ∷ [])
      (upload_files placing false true none
        (λ s. (s, none))
        (λ s. s)
        (page ∷ style ∷ [])
        old_files).completed
      (upload_files placing false true none
        (λ s. (s, none))
        (λ s. s)
        (page ∷ style ∷ [])
        old_files).state
upload_files-AllPlaced_example =
    upload_files-AllPlaced content local placing
      (upload_file-WorkPromises content file_writer local true (λ f i s. (s, ok false))
        file_writer-WritePromises (λ f i p s. refl))
      true none (λ s. (s, none)) (λ s. s) (page ∷ style ∷ []) old_files page-style-AreClear

abbrev counting : FileWork ℕ
counting = record {
  same_size = λ f i s. (s, ok (i == 0));
  upload = λ f i mode s. if i == 2 then (s, err (not_written failure)) else (suc s, ok f.size);
}

upload_files-IsCounted_example : IsCounted (page ∷ page ∷ page ∷ page ∷ []) (
    upload_files counting false true none
      (λ s. (s, none))
      (λ s. s)
      (page ∷ page ∷ page ∷ page ∷ [])
      0)
upload_files-IsCounted_example =
    upload_files-IsCounted counting false true none (λ s. (s, none)) (λ s. s)
      (page ∷ page ∷ page ∷ page ∷ []) 0

is_temp_file_name_iff_example :
    (is_temp_file_name (codes "p.easysftp-tmp.12") ≡ true) ↔ IsTempName (codes "p.easysftp-tmp.12")
is_temp_file_name_iff_example = is_temp_file_name_iff (codes "p.easysftp-tmp.12")

temp_names :
    (is_temp_file_name (codes "p.easysftp-tmp.12") ≡ true)
    × (is_temp_file_name (codes "p.easysftp-tmp.bak") ≡ true)
    × (is_temp_file_name (codes ".easysftp-tmp.1") ≡ false)
    × (is_temp_file_name (codes "p.easysftp-tmp.1x") ≡ false)
unfolding is_temp_file_name last_index
temp_names = (refl, refl, refl, refl)

-- A server that holds a list of files, each listed as an old one.
abbrev names_of : List Bytes → List TempEntry
names_of [] = []
names_of (p ∷ paths) =
    record { name = codes "p.easysftp-tmp.1"; is_dir = false; age = 7200000000000 } ∷ names_of paths

abbrev without : Bytes → List Bytes → List Bytes
without p [] = []
without p (q ∷ paths) = let rest = without p paths in if eq_bytes q p then rest else q ∷ rest

abbrev list_sweeper : Sweeper (List Bytes)
list_sweeper = record {
  read_dir = λ d s. (s, ok (names_of s));
  remove = λ p s. (without p s, done);
}

abbrev steady : Line (List Bytes)
steady = record { has_fired = λ s. false; redial = λ s. (s, true) }

abbrev planned_temp : Bytes
planned_temp = codes "/w/p.easysftp-tmp.1"

without-keeps :
    (p q : Bytes) (s : List Bytes)
    → eq_bytes p q ≡ false
    → contains s p ≡ true
    → contains (without q s) p ≡ true
without-keeps p q [] ne h = cc
without-keeps p q (r ∷ s) ne h = elim (Bool-cases (eq_bytes r q)) [
  | inr other ↦ rw other (ground (arith, without-keeps p q s ne))
  | inl gone ↦ rw gone (
      without-keeps p q s ne (ground (arith, eq_bytes_iff r p, eq_bytes_iff r q, eq_bytes_iff p q)))
]

-- A planned file with a temporary name outlasts the sweep of its directory.
sweep_stale_temps-keeps_example :
    contains
      (sweep_stale_temps list_sweeper steady
        (planned_temp ∷ [])
        (codes "/w")
        (codes "/w" ∷ [])
        2
        (planned_temp ∷ codes "/w/x" ∷ [])).0
      planned_temp
    ≡ true
sweep_stale_temps-keeps_example =
    sweep_stale_temps-keeps list_sweeper steady (planned_temp ∷ []) (codes "/w") (codes "/w" ∷ [])
      (λ s. contains s planned_temp ≡ true)
      (λ d full s swept stale h. without-keeps planned_temp full s (kept full stale.9) h)
      (λ d s swept h. h) (λ s h. h) 2 (planned_temp ∷ codes "/w/x" ∷ []) refl
  where
    kept :
        (full : Bytes)
        → contains (planned_temp ∷ []) full ≡ false
        → eq_bytes planned_temp full ≡ false
    kept full h = ground arith

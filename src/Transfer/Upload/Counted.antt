-- ===== src/Transfer/Upload/Counted.antt =====
-- The statistics of an upload, and what a dry run reports.
use easy_sftp.Prelude.{
  ℕ, suc, ◌+◌, ◌≡◌, refl, ap, Bool, true, false, if◌then◌else◌, List, [], ◌∷◌, Option, none, some,
  Result, ok, err, length, arith, Bool-cases, inl, inr,
}
use easy_sftp.Transfer.Upload.{
  UploadItem, FileError, FileWork, Uploaded, not_completed, count_skipped, count_uploaded, stopped,
  file_mode, after_upload, send, after_check, one_file, upload_from, after_dirs, upload_files,
}

abbrev pub count_true : List Bool → ℕ
count_true [] = 0
count_true (b ∷ flags) = if b then suc (count_true flags) else count_true flags

-- As many flags as files, as many files counted as flags are set, and every file uploaded or skipped
-- where no error ended the work.
abbrev pub IsCounted : {S : Type 0} → List UploadItem → Uploaded S → Type 0
IsCounted files u =
    (count_true u.completed ≡ u.sent.files_uploaded)
    × (length u.completed ≡ length files)
    × (u.failed ≡ none → u.sent.files_skipped + u.sent.files_uploaded ≡ length files)

count_true-not_completed : (files : List UploadItem) → count_true (not_completed files) ≡ 0
count_true-not_completed [] = refl
count_true-not_completed (f ∷ files) = count_true-not_completed files

length-not_completed : (files : List UploadItem) → length (not_completed files) ≡ length files
length-not_completed [] = refl
length-not_completed (f ∷ files) = ap suc (length-not_completed files)

module _ {S : Type 0} where
  skipped-IsCounted :
      (f : UploadItem) (files : List UploadItem) (u : Uploaded S)
      → IsCounted files u
      → IsCounted (f ∷ files) (count_skipped u)
  skipped-IsCounted f files u h = (h.0, omega (arith, h.1), λ e. omega (arith, h.2 e))

  uploaded-IsCounted :
      (f : UploadItem) (files : List UploadItem) (n : ℕ) (u : Uploaded S)
      → IsCounted files u
      → IsCounted (f ∷ files) (count_uploaded n u)
  uploaded-IsCounted f files n u h =
      (omega (arith, h.0), omega (arith, h.1), λ e. omega (arith, h.2 e))

  stopped-IsCounted :
      (f : UploadItem) (files : List UploadItem) (s : S) (e : FileError)
      → IsCounted (f ∷ files) (stopped f files s e)
  stopped-IsCounted f files s e =
      (count_true-not_completed files, ap suc (length-not_completed files), λ h. cc)

either :
    {S : Type 0} (u v : Uploaded S) (files : List UploadItem) (b : Bool)
    → IsCounted files u
    → IsCounted files v
    → IsCounted files (if b then u else v)
either u v files true hu hv = hu
either u v files false hu hv = hv

-- The sizes of the files together.
abbrev pub total_size : List UploadItem → ℕ
total_size [] = 0
total_size (f ∷ files) = f.size + total_size files

module _ {S : Type 0} (work : FileWork S) (dry_run skip_unchanged : Bool) (mode : Option ℕ) where
  upload_then :
      (f : UploadItem) (files : List UploadItem) (rest : S → Uploaded S)
      (r : S × Result FileError ℕ)
      → ((s : S) → IsCounted files (rest s))
      → IsCounted (f ∷ files) (after_upload work dry_run skip_unchanged mode f files rest r)
  upload_then f files rest (s, ok n) all = uploaded-IsCounted f files n (rest s) (all s)
  upload_then f files rest (s, err e) all = stopped-IsCounted f files s e

  send-IsCounted :
      (f : UploadItem) (index : ℕ) (files : List UploadItem) (rest : S → Uploaded S) (s : S)
      → ((s : S) → IsCounted files (rest s))
      → IsCounted (f ∷ files) (send work dry_run skip_unchanged mode f index files rest s)
  send-IsCounted f index files rest s all = elim (Bool-cases dry_run) [
    | inl dry ↦ rw dry (uploaded-IsCounted f files f.size (rest s) (all s))
    | inr wet ↦ rw wet (upload_then f files rest (work.upload f index (file_mode mode f) s) all)
  ]

  check_then :
      (f : UploadItem) (index : ℕ) (files : List UploadItem) (rest : S → Uploaded S)
      (r : S × Result FileError Bool)
      → ((s : S) → IsCounted files (rest s))
      → IsCounted (f ∷ files) (after_check work dry_run skip_unchanged mode f index files rest r)
  check_then f index files rest (s, err e) all = stopped-IsCounted f files s e
  check_then f index files rest (s, ok true) all = skipped-IsCounted f files (rest s) (all s)
  check_then f index files rest (s, ok false) all = send-IsCounted f index files rest s all

  one_file-IsCounted :
      (f : UploadItem) (index : ℕ) (files : List UploadItem) (rest : S → Uploaded S) (s : S)
      → ((s : S) → IsCounted files (rest s))
      → IsCounted (f ∷ files) (one_file work dry_run skip_unchanged mode f index files rest s)
  one_file-IsCounted f index files rest s all = elim (Bool-cases skip_unchanged) [
    | inl checks ↦ rw checks (check_then f index files rest (work.same_size f index s) all)
    | inr sends ↦ rw sends (send-IsCounted f index files rest s all)
  ]

  upload_from-IsCounted :
      (index : ℕ) (files : List UploadItem) (s : S)
      → IsCounted files (upload_from work dry_run skip_unchanged mode index files s)
  unfolding upload_from
  upload_from-IsCounted index [] s = (refl, refl, λ e. refl)
  upload_from-IsCounted index (f ∷ files) s =
      one_file-IsCounted f index files
        (λ s'. upload_from work dry_run skip_unchanged mode (suc index) files s') s
        (λ s'. upload_from-IsCounted (suc index) files s')

  dirs_then :
      (files : List UploadItem) (sweep : S → S) (r : S × Option FileError)
      → IsCounted files (after_dirs work dry_run skip_unchanged mode files sweep r)
  dirs_then files sweep (s, some e) =
      (count_true-not_completed files, length-not_completed files, λ h. cc)
  dirs_then files sweep (s, none) = upload_from-IsCounted 0 files (sweep s)

  -- Whatever uploadFiles does, its flags are as many as its files, and the flags that are set as many
  -- as the files it counts as uploaded; where it succeeds, each file is counted as uploaded or as
  -- skipped.
  pub upload_files-IsCounted :
      (create_dirs : S → S × Option FileError) (sweep : S → S) (files : List UploadItem) (s : S)
      → IsCounted files (upload_files work dry_run skip_unchanged mode create_dirs sweep files s)
  unfolding upload_files
  upload_files-IsCounted create_dirs sweep files s =
      either (upload_from work dry_run skip_unchanged mode 0 files s)
        (after_dirs work dry_run skip_unchanged mode files sweep (create_dirs s)) files dry_run
        (upload_from-IsCounted 0 files s) (dirs_then files sweep (create_dirs s))

-- A dry run that compares no sizes asks the server nothing, and counts every file with its size.
abbrev pub IsDryRun : {S : Type 0} → S → List UploadItem → Uploaded S → Type 0
IsDryRun s files u =
    (u.state ≡ s)
    × (u.failed ≡ none)
    × (u.sent.files_uploaded ≡ length files)
    × (u.sent.files_skipped ≡ 0)
    × (u.sent.bytes_uploaded ≡ total_size files)

upload_from-IsDryRun :
    {S : Type 0} (work : FileWork S) (mode : Option ℕ) (index : ℕ) (files : List UploadItem) (s : S)
    → IsDryRun s files (upload_from work true false mode index files s)
unfolding upload_from
upload_from-IsDryRun work mode index [] s = (refl, refl, refl, refl, refl)
upload_from-IsDryRun work mode index (f ∷ files) s =
    let rest = upload_from-IsDryRun work mode (suc index) files s in
    (rest.0, rest.1, omega (arith, rest.2), rest.3, omega (arith, rest.4))

pub upload_files-IsDryRun :
    {S : Type 0} (work : FileWork S) (mode : Option ℕ) (create_dirs : S → S × Option FileError)
    (sweep : S → S) (files : List UploadItem) (s : S)
    → IsDryRun s files (upload_files work true false mode create_dirs sweep files s)
unfolding upload_files
upload_files-IsDryRun work mode create_dirs sweep files s = upload_from-IsDryRun work mode 0 files s

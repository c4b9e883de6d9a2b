-- ===== src/Transfer/Upload/DryRun.antt =====
-- A dry run of uploadFiles asks the server for sizes at most.
use easy_sftp.Prelude.{
  ℕ, suc, ◌≡◌, refl, ◌∙◌, Bool, true, false, List, [], ◌∷◌, Option, Result, ok, err, Bool-cases,
  inl, inr,
}
use easy_sftp.Transfer.Upload.{
  UploadItem, FileError, Uploaded, FileWork, after_check, one_file, upload_from, upload_files,
}

module _ {S : Type 0} (work : FileWork S) (skip_unchanged : Bool) (mode : Option ℕ)
    (compares : (f : UploadItem) (index : ℕ) (s : S) → (work.same_size f index s).0 ≡ s) where
  check_then_dry :
      (f : UploadItem) (index : ℕ) (files : List UploadItem) (rest : S → Uploaded S)
      (r : S × Result FileError Bool)
      → ((s : S) → (rest s).state ≡ s)
      → (after_check work true skip_unchanged mode f index files rest r).state ≡ r.0
  check_then_dry f index files rest (s, err e) all = refl
  check_then_dry f index files rest (s, ok true) all = all s
  check_then_dry f index files rest (s, ok false) all = all s

  one_file_dry :
      (f : UploadItem) (index : ℕ) (files : List UploadItem) (rest : S → Uploaded S) (s : S)
      → ((s : S) → (rest s).state ≡ s)
      → (one_file work true skip_unchanged mode f index files rest s).state ≡ s
  one_file_dry f index files rest s all = elim (Bool-cases skip_unchanged) [
    | inl checks ↦
        rw checks
          (check_then_dry f index files rest (work.same_size f index s) all ∙ compares f index s)
    | inr sends ↦ rw sends (all s)
  ]

  upload_from_dry :
      (index : ℕ) (files : List UploadItem) (s : S)
      → (upload_from work true skip_unchanged mode index files s).state ≡ s
  unfolding upload_from
  upload_from_dry index [] s = refl
  upload_from_dry index (f ∷ files) s =
      one_file_dry f index files
        (λ s'. upload_from work true skip_unchanged mode (suc index) files s') s
        (λ s'. upload_from_dry (suc index) files s')

  -- Where the comparison of sizes leaves the server as it is, a dry run of uploadFiles does.
  pub upload_files_dry :
      (create_dirs : S → S × Option FileError) (sweep : S → S) (files : List UploadItem) (s : S)
      → (upload_files work true skip_unchanged mode create_dirs sweep files s).state ≡ s
  unfolding upload_files
  upload_files_dry create_dirs sweep files s = upload_from_dry 0 files s

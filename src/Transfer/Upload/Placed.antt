-- ===== src/Transfer/Upload/Placed.antt =====
-- The files whose flags uploadFiles sets are on the server with their local contents.
use easy_sftp.Prelude.{
  ℕ, suc, ◌≡◌, ◌≢◌, refl, ◌∙◌, Bool, true, false, List, [], ◌∷◌, Bytes, ◌++◌, Option, none, some,
  Result, ok, err, Bool-cases, inl, inr,
}
use easy_sftp.Transfer.Temp.{bak_suffix, upload_temp_path}
use easy_sftp.Transfer.Upload.{
  UploadItem, FileError, Uploaded, FileWork, not_completed, file_mode, after_upload, after_check,
  one_file, upload_from, after_dirs, upload_files,
}

-- The path is none of those that the upload of a file writes, moves or removes.
abbrev pub IsApart : UploadItem → ℕ → Bytes → Type 0
IsApart f index p =
    (p ≢ f.remote_path)
    × (p ≢ f.remote_path ++ bak_suffix)
    × (p ≢ upload_temp_path f.remote_path index)

-- It is none of those of any of the files, which have the indices from `index` on.
abbrev pub IsClear : Bytes → ℕ → List UploadItem → Type 0
IsClear p index [] = Unit
IsClear p index (f ∷ files) = IsApart f index p × IsClear p (suc index) files

-- The target of each file is clear of the files after it.
abbrev pub AreClear : ℕ → List UploadItem → Type 0
AreClear index [] = Unit
AreClear index (f ∷ files) = IsClear f.remote_path (suc index) files × AreClear (suc index) files

module _ {S : Type 0} (content : S → Bytes → Option Bytes) (local : Bytes → Bytes) where
  -- What the work on one file promises: an upload that succeeds leaves the local content at the remote
  -- path, it changes no path that is apart from it, and the comparison of the sizes changes none.
  pub record WorkPromises (work : FileWork S) : Type 0 where
    pub places :
        (f : UploadItem) (index mode : ℕ) (s : S) {n : ℕ}
        → (work.upload f index mode s).1 ≡ ok n
        → content (work.upload f index mode s).0 f.remote_path ≡ some (local f.local_path)
    pub upload_keeps :
        (f : UploadItem) (index mode : ℕ) (p : Bytes) (s : S)
        → IsApart f index p
        → content (work.upload f index mode s).0 p ≡ content s p
    pub check_keeps :
        (f : UploadItem) (index : ℕ) (p : Bytes) (s : S)
        → content (work.same_size f index s).0 p ≡ content s p

  -- Each file with its flag set is in place.
  abbrev pub AllPlaced : List UploadItem → List Bool → S → Type 0
  AllPlaced [] flags s = Unit
  AllPlaced (f ∷ files) [] s = Unit
  AllPlaced (f ∷ files) (true ∷ flags) s =
      (content s f.remote_path ≡ some (local f.local_path)) × AllPlaced files flags s
  AllPlaced (f ∷ files) (false ∷ flags) s = AllPlaced files flags s

  not_completed-AllPlaced :
      (files : List UploadItem) (s : S) → AllPlaced files (not_completed files) s
  not_completed-AllPlaced [] s = tt
  not_completed-AllPlaced (f ∷ files) s = not_completed-AllPlaced files s

module _ {S : Type 0} (content : S → Bytes → Option Bytes) (local : Bytes → Bytes)
    (work : FileWork S) (promises : WorkPromises content local work) (skip_unchanged : Bool)
    (mode : Option ℕ) where
  module _ (p : Bytes) where
    upload_then_keeps :
        (f : UploadItem) (files : List UploadItem) (rest : S → Uploaded S)
        (r : S × Result FileError ℕ)
        → ((s : S) → content (rest s).state p ≡ content s p)
        → content (after_upload work false skip_unchanged mode f files rest r).state p
          ≡ content r.0 p
    upload_then_keeps f files rest (s, ok n) all = all s
    upload_then_keeps f files rest (s, err e) all = refl

    check_then_keeps :
        (f : UploadItem) (index : ℕ) (files : List UploadItem) (rest : S → Uploaded S)
        (r : S × Result FileError Bool)
        → IsApart f index p
        → ((s : S) → content (rest s).state p ≡ content s p)
        → content (after_check work false skip_unchanged mode f index files rest r).state p
          ≡ content r.0 p
    check_then_keeps f index files rest (s, err e) apart all = refl
    check_then_keeps f index files rest (s, ok true) apart all = all s
    check_then_keeps f index files rest (s, ok false) apart all =
        upload_then_keeps f files rest (work.upload f index (file_mode mode f) s) all
        ∙ promises.upload_keeps f index (file_mode mode f) p s apart

    one_file_keeps :
        (f : UploadItem) (index : ℕ) (files : List UploadItem) (rest : S → Uploaded S) (s : S)
        → IsApart f index p
        → ((s : S) → content (rest s).state p ≡ content s p)
        → content (one_file work false skip_unchanged mode f index files rest s).state p
          ≡ content s p
    one_file_keeps f index files rest s apart all = elim (Bool-cases skip_unchanged) [
      | inl checks ↦ rw checks (
          check_then_keeps f index files rest (work.same_size f index s) apart all
          ∙ promises.check_keeps f index p s)
      | inr sends ↦ rw sends (
          upload_then_keeps f files rest (work.upload f index (file_mode mode f) s) all
          ∙ promises.upload_keeps f index (file_mode mode f) p s apart)
    ]

    upload_from_keeps :
        (index : ℕ) (files : List UploadItem) (s : S)
        → IsClear p index files
        → content (upload_from work false skip_unchanged mode index files s).state p ≡ content s p
    unfolding upload_from
    upload_from_keeps index [] s clear = refl
    upload_from_keeps index (f ∷ files) s clear =
        one_file_keeps f index files
          (λ s'. upload_from work false skip_unchanged mode (suc index) files s') s clear.0
          (λ s'. upload_from_keeps (suc index) files s' clear.1)

  abbrev Placed : List UploadItem → Uploaded S → Type 0
  Placed files u = AllPlaced content local files u.completed u.state

  upload_then-Placed :
      (f : UploadItem) (files : List UploadItem) (rest : S → Uploaded S)
      (r : S × Result FileError ℕ)
      → ((n : ℕ) → r.1 ≡ ok n → content r.0 f.remote_path ≡ some (local f.local_path))
      → ((s : S) → content (rest s).state f.remote_path ≡ content s f.remote_path)
      → ((s : S) → Placed files (rest s))
      → Placed (f ∷ files) (after_upload work false skip_unchanged mode f files rest r)
  upload_then-Placed f files rest (s, ok n) placed keeps all = (keeps s ∙ placed n refl, all s)
  upload_then-Placed f files rest (s, err e) placed keeps all =
      not_completed-AllPlaced content local files s

  sent-Placed :
      (f : UploadItem) (index : ℕ) (files : List UploadItem) (rest : S → Uploaded S) (s : S)
      → ((s : S) → content (rest s).state f.remote_path ≡ content s f.remote_path)
      → ((s : S) → Placed files (rest s))
      → Placed (f ∷ files) (
          after_upload work false skip_unchanged mode f files rest
            (work.upload f index (file_mode mode f) s))
  sent-Placed f index files rest s keeps all =
      upload_then-Placed f files rest (work.upload f index (file_mode mode f) s)
        (λ n e. promises.places f index (file_mode mode f) s e) keeps all

  check_then-Placed :
      (f : UploadItem) (index : ℕ) (files : List UploadItem) (rest : S → Uploaded S)
      (r : S × Result FileError Bool)
      → ((s : S) → content (rest s).state f.remote_path ≡ content s f.remote_path)
      → ((s : S) → Placed files (rest s))
      → Placed (f ∷ files) (after_check work false skip_unchanged mode f index files rest r)
  check_then-Placed f index files rest (s, err e) keeps all =
      not_completed-AllPlaced content local files s
  check_then-Placed f index files rest (s, ok true) keeps all = all s
  check_then-Placed f index files rest (s, ok false) keeps all =
      sent-Placed f index files rest s keeps all

  one_file-Placed :
      (f : UploadItem) (index : ℕ) (files : List UploadItem) (rest : S → Uploaded S) (s : S)
      → ((s : S) → content (rest s).state f.remote_path ≡ content s f.remote_path)
      → ((s : S) → Placed files (rest s))
      → Placed (f ∷ files) (one_file work false skip_unchanged mode f index files rest s)
  one_file-Placed f index files rest s keeps all = elim (Bool-cases skip_unchanged) [
    | inl checks ↦
        rw checks (check_then-Placed f index files rest (work.same_size f index s) keeps all)
    | inr sends ↦ rw sends (sent-Placed f index files rest s keeps all)
  ]

  upload_from-Placed :
      (index : ℕ) (files : List UploadItem) (s : S)
      → AreClear index files
      → Placed files (upload_from work false skip_unchanged mode index files s)
  unfolding upload_from
  upload_from-Placed index [] s clear = tt
  upload_from-Placed index (f ∷ files) s clear =
      one_file-Placed f index files
        (λ s'. upload_from work false skip_unchanged mode (suc index) files s') s
        (λ s'. upload_from_keeps f.remote_path (suc index) files s' clear.0)
        (λ s'. upload_from-Placed (suc index) files s' clear.1)

  dirs_then-Placed :
      (files : List UploadItem) (sweep : S → S) (r : S × Option FileError)
      → AreClear 0 files
      → Placed files (after_dirs work false skip_unchanged mode files sweep r)
  dirs_then-Placed files sweep (s, some e) clear = not_completed-AllPlaced content local files s
  dirs_then-Placed files sweep (s, none) clear = upload_from-Placed 0 files (sweep s) clear

  -- Where an upload that succeeds leaves the local content at the remote path, an upload changes no
  -- path but its remote path, the backup of it and its temporary path, the comparison of sizes changes
  -- none, and the remote path of each file is none of those of the files after it: outside a dry run,
  -- whatever the uploads answer, the remote path of every file whose flag uploadFiles sets holds the
  -- local content at its end.
  pub upload_files-AllPlaced :
      (create_dirs : S → S × Option FileError) (sweep : S → S) (files : List UploadItem) (s : S)
      → AreClear 0 files
      → AllPlaced content local files
          (upload_files work false skip_unchanged mode create_dirs sweep files s).completed
          (upload_files work false skip_unchanged mode create_dirs sweep files s).state
  unfolding upload_files
  upload_files-AllPlaced create_dirs sweep files s clear =
      dirs_then-Placed files sweep (create_dirs s) clear

-- ===== src/Transfer/Replace/Kept.antt =====
-- What a replacement leaves on the server: the new file, or the old one in its place or at the backup.
use easy_sftp.Prelude.{
  ℕ, ◌≡◌, ◌≢◌, ◌⊎◌, inl, inr, refl, sym, ◌∙◌, Bool, true, false, Bytes, ◌++◌, Option, Result, ok,
  err, Bool-cases,
}
use easy_sftp.Remote.Delete.{
  Answer, done, conn_error, not_exist, permission, failure, remote_absent,
}
use easy_sftp.Transfer.Temp.{bak_suffix, upload_temp_path}
use easy_sftp.Transfer.Temp.Names.{
  upload_temp_path-ne-backup, append-backup-ne, upload_temp_path-ne_self,
}
use easy_sftp.Transfer.Replace.{
  PosixAnswer, renamed, status, no_status, Mover, posix_rename_unsupported, Outcome, after_restore,
  give_back, after_publish, publish, if_absent, after_park, rename_replace_via_backup, after_posix,
  rename_replace,
}
use easy_sftp.Transfer.Replace.Promises.{
  Told, PosixTold, Moved, Unchanged, Promises, IsSaved, IsKept,
}

module _ {S : Type 0} (content : S → Bytes → Option Bytes) (m : Mover S)
    (promises : Promises content m) (final tmp : Bytes) (old new : Option Bytes)
    (final-ne-backup : final ≢ final ++ bak_suffix) (tmp-ne-final : tmp ≢ final)
    (backup-ne-tmp : final ++ bak_suffix ≢ tmp) where
  abbrev backup : Bytes
  backup = final ++ bak_suffix

  abbrev Survives : S → Type 0
  Survives = IsSaved content final old new

  abbrev Kept : Outcome m → Type 0
  Kept = IsKept content m final tmp old new

  restored :
      (answer : Answer) (s : S) (r : S × Answer)
      → content s backup ≡ old
      → Told r.1 (Moved content backup final s r.0) (Unchanged content s r.0)
      → Kept (after_restore m answer r)
  restored answer s (s', done) h told = inl (told.0 ∙ h)
  restored answer s (s', conn_error) h (inl moved) = inl (moved.0 ∙ h)
  restored answer s (s', conn_error) h (inr same) = inr (inl (same backup ∙ h))
  restored answer s (s', not_exist) h told = inr (inl (told backup ∙ h))
  restored answer s (s', permission) h told = inr (inl (told backup ∙ h))
  restored answer s (s', failure) h told = inr (inl (told backup ∙ h))

  given_back :
      (parked : Bool) (answer : Answer) (s : S)
      → (parked ≡ true → content s backup ≡ old)
      → Survives s
      → Kept (give_back m final parked answer s)
  given_back false answer s at_backup h = h
  given_back true answer s at_backup h =
      restored answer s (m.rename backup final s) (at_backup refl)
        (promises.rename_moves backup final s (λ e. final-ne-backup (sym e)))

  -- What is known before the rename into place.
  abbrev IsReady : Bool → S → Type 0
  IsReady parked s =
      (content s tmp ≡ new)
      × (parked ≡ true → content s backup ≡ old)
      × ((content s final ≡ old) ⊎ (content s backup ≡ old))

  Unchanged-Survives :
      (s s' : S)
      → (content s final ≡ old) ⊎ (content s backup ≡ old)
      → Unchanged content s s'
      → Survives s'
  Unchanged-Survives s s' (inl h) same = inl (same final ∙ h)
  Unchanged-Survives s s' (inr h) same = inr (inl (same backup ∙ h))

  published :
      (parked : Bool) (s : S) (r : S × Answer)
      → IsReady parked s
      → Told r.1 (Moved content tmp final s r.0) (Unchanged content s r.0)
      → Kept (after_publish m final parked r)
  published parked s (s', done) h told = (
    promises.remove_keeps backup final s' final-ne-backup ∙ told.0 ∙ h.0,
    promises.remove_keeps backup tmp s' (λ e. backup-ne-tmp (sym e)) ∙ told.1,
  )
  published parked s (s', conn_error) h (inl moved) =
      given_back parked conn_error s'
        (λ p. moved.2 backup backup-ne-tmp (λ e. final-ne-backup (sym e)) ∙ h.1 p)
        (inr (inr (moved.0 ∙ h.0)))
  published parked s (s', conn_error) h (inr same) =
      given_back parked conn_error s' (λ p. same backup ∙ h.1 p) (Unchanged-Survives s s' h.2 same)
  published parked s (s', not_exist) h same =
      given_back parked not_exist s' (λ p. same backup ∙ h.1 p) (Unchanged-Survives s s' h.2 same)
  published parked s (s', permission) h same =
      given_back parked permission s' (λ p. same backup ∙ h.1 p) (Unchanged-Survives s s' h.2 same)
  published parked s (s', failure) h same =
      given_back parked failure s' (λ p. same backup ∙ h.1 p) (Unchanged-Survives s s' h.2 same)

  publish-IsKept : (parked : Bool) (s : S) → IsReady parked s → Kept (publish m tmp final parked s)
  unfolding publish
  publish-IsKept parked s h =
      published parked s (m.rename tmp final s) h (promises.rename_moves tmp final s tmp-ne-final)

  -- The old file is at one of its two places, and the new one at the temporary name.
  abbrev IsHeld : S → Type 0
  IsHeld s = (content s tmp ≡ new) × ((content s final ≡ old) ⊎ (content s backup ≡ old))

  Unchanged-IsHeld : (s s' : S) → IsHeld s → Unchanged content s s' → IsHeld s'
  Unchanged-IsHeld s s' (t, inl h) same = (same tmp ∙ t, inl (same final ∙ h))
  Unchanged-IsHeld s s' (t, inr h) same = (same tmp ∙ t, inr (same backup ∙ h))

  IsHeld-Survives : (s : S) → IsHeld s → Survives s
  IsHeld-Survives s (t, inl h) = inl h
  IsHeld-Survives s (t, inr h) = inr (inl h)

  checked :
      (why : Answer) (r : S × Result Answer Bool) → IsHeld r.0 → Kept (if_absent m tmp final why r)
  checked why (s, err answer) h = IsHeld-Survives s h
  checked why (s, ok false) h = IsHeld-Survives s h
  checked why (s, ok true) h = publish-IsKept false s (h.0, λ e. cc, h.1)

  check_absent :
      (why : Answer) (s : S)
      → IsHeld s
      → Kept (if_absent m tmp final why (remote_absent m.client final s))
  unfolding remote_absent
  check_absent why s h =
      checked why (remote_absent m.client final s)
        (Unchanged-IsHeld s (m.client.lstat final s).0 h (promises.lstat_keeps final s))

  Moved-IsHeld :
      (s s' : S)
      → content s tmp ≡ new
      → content s final ≡ old
      → Moved content final backup s s'
      → IsHeld s'
  Moved-IsHeld s s' t h moved =
      (moved.2 tmp tmp-ne-final (λ e. backup-ne-tmp (sym e)) ∙ t, inr (moved.0 ∙ h))

  parked-Kept :
      (s : S) (r : S × Answer)
      → content s tmp ≡ new
      → content s final ≡ old
      → Told r.1 (Moved content final backup s r.0) (Unchanged content s r.0)
      → Kept (after_park m tmp final r)
  parked-Kept s (s', done) t h moved =
      let held = Moved-IsHeld s s' t h moved in
      publish-IsKept true s' (held.0, λ e. moved.0 ∙ h, held.1)
  parked-Kept s (s', not_exist) t h same =
      publish-IsKept false s' (same tmp ∙ t, λ e. cc, inl (same final ∙ h))
  parked-Kept s (s', conn_error) t h (inl moved) =
      check_absent conn_error s' (Moved-IsHeld s s' t h moved)
  parked-Kept s (s', conn_error) t h (inr same) =
      check_absent conn_error s' (same tmp ∙ t, inl (same final ∙ h))
  parked-Kept s (s', permission) t h same =
      check_absent permission s' (same tmp ∙ t, inl (same final ∙ h))
  parked-Kept s (s', failure) t h same =
      check_absent failure s' (same tmp ∙ t, inl (same final ∙ h))

  via_backup-IsKept :
      (s : S)
      → content s tmp ≡ new
      → content s final ≡ old
      → Kept (rename_replace_via_backup m tmp final s)
  unfolding rename_replace_via_backup
  via_backup-IsKept s t h =
      let s' = (m.client.remove backup s).0 in
      parked-Kept s' (m.rename final backup s')
        (promises.remove_keeps backup tmp s (λ e. backup-ne-tmp (sym e)) ∙ t)
        (promises.remove_keeps backup final s final-ne-backup ∙ h)
        (promises.rename_moves final backup s' final-ne-backup)

  posix-Kept :
      (s : S) (r : S × PosixAnswer)
      → content s tmp ≡ new
      → content s final ≡ old
      → PosixTold r.1 (Moved content tmp final s r.0) (Unchanged content s r.0)
      → Kept (after_posix m tmp final r)
  posix-Kept s (s', renamed) t h moved = (moved.0 ∙ t, moved.1)
  posix-Kept s (s', no_status) t h (inl moved) = inr (inr (moved.0 ∙ t))
  posix-Kept s (s', no_status) t h (inr same) = inl (same final ∙ h)
  posix-Kept s (s', status code) t h same =
      elim (Bool-cases (posix_rename_unsupported (status code) m.announced)) [
        | inl unsupported ↦ rw unsupported (via_backup-IsKept s' (same tmp ∙ t) (same final ∙ h))
        | inr other ↦ rw other (inl (same final ∙ h))
      ]

  rename_replace-Kept :
      (s : S) → content s tmp ≡ new → content s final ≡ old → Kept (rename_replace m tmp final s)
  unfolding rename_replace
  rename_replace-Kept s t h =
      posix-Kept s (m.posix_rename tmp final s) t h
        (promises.posix_rename_moves tmp final s tmp-ne-final)

pub rename_replace-IsKept :
    {S : Type 0} (content : S → Bytes → Option Bytes) (m : Mover S) (final : Bytes) (index : ℕ)
    (s : S)
    → Promises content m
    → IsKept content m final
        (upload_temp_path final index)
        (content s final)
        (content s (upload_temp_path final index))
        (rename_replace m (upload_temp_path final index) final s)
rename_replace-IsKept content m final index s promises =
    rename_replace-Kept content m promises final (upload_temp_path final index) (content s final)
      (content s (upload_temp_path final index)) (append-backup-ne final)
      (λ e. upload_temp_path-ne_self final index (sym e))
      (upload_temp_path-ne-backup final final index) s refl refl

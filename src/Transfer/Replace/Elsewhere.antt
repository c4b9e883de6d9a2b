-- ===== src/Transfer/Replace/Elsewhere.antt =====
-- A replacement changes the file, its backup and the temporary file, and no other.
use easy_sftp.Prelude.{
  ◌≡◌, ◌≢◌, refl, sym, ◌∙◌, Bool, true, false, Bytes, ◌++◌, Option, Result, ok, err, Bool-cases,
  inl, inr, ◌⊎◌, if◌then◌else◌,
}
use easy_sftp.Remote.Delete.{
  Answer, done, conn_error, not_exist, permission, failure, remote_absent,
}
use easy_sftp.Transfer.Temp.{bak_suffix}
use easy_sftp.Transfer.Replace.{
  PosixAnswer, renamed, status, no_status, Mover, posix_failed, posix_rename_unsupported,
  after_restore, give_back, after_publish, publish, if_absent, after_park,
  rename_replace_via_backup, after_posix, rename_replace,
}
use easy_sftp.Transfer.Replace.Promises.{Told, PosixTold, Moved, Unchanged, Promises}

module _ {S : Type 0} (content : S → Bytes → Option Bytes) (m : Mover S)
    (promises : Promises content m) (final tmp q : Bytes)
    (final-ne-backup : final ≢ final ++ bak_suffix) (tmp-ne-final : tmp ≢ final)
    (q-ne-final : q ≢ final) (q-ne-backup : q ≢ final ++ bak_suffix) (q-ne-tmp : q ≢ tmp) where
  told_keeps :
      (answer : Answer) (a b : Bytes) (s s' : S)
      → q ≢ a
      → q ≢ b
      → Told answer (Moved content a b s s') (Unchanged content s s')
      → content s' q ≡ content s q
  told_keeps done a b s s' ha hb told = told.2 q ha hb
  told_keeps conn_error a b s s' ha hb (inl moved) = moved.2 q ha hb
  told_keeps conn_error a b s s' ha hb (inr same) = same q
  told_keeps not_exist a b s s' ha hb told = told q
  told_keeps permission a b s s' ha hb told = told q
  told_keeps failure a b s s' ha hb told = told q

  rename_keeps :
      (a b : Bytes) (s : S) → a ≢ b → q ≢ a → q ≢ b → content (m.rename a b s).0 q ≡ content s q
  rename_keeps a b s ne ha hb =
      told_keeps (m.rename a b s).1 a b s (m.rename a b s).0 ha hb (promises.rename_moves a b s ne)

  restore_keeps :
      (answer : Answer) (r : S × Answer) → content (after_restore m answer r).0 q ≡ content r.0 q
  restore_keeps answer (s, done) = refl
  restore_keeps answer (s, conn_error) = refl
  restore_keeps answer (s, not_exist) = refl
  restore_keeps answer (s, permission) = refl
  restore_keeps answer (s, failure) = refl

  give_back_keeps :
      (parked : Bool) (answer : Answer) (s : S)
      → content (give_back m final parked answer s).0 q ≡ content s q
  give_back_keeps false answer s = refl
  give_back_keeps true answer s =
      restore_keeps answer (m.rename (final ++ bak_suffix) final s)
      ∙ rename_keeps (final ++ bak_suffix) final s (λ e. final-ne-backup (sym e)) q-ne-backup
          q-ne-final

  publish_then_keeps :
      (parked : Bool) (r : S × Answer)
      → content (after_publish m final parked r).0 q ≡ content r.0 q
  publish_then_keeps parked (s, done) = promises.remove_keeps (final ++ bak_suffix) q s q-ne-backup
  publish_then_keeps parked (s, conn_error) = give_back_keeps parked conn_error s
  publish_then_keeps parked (s, not_exist) = give_back_keeps parked not_exist s
  publish_then_keeps parked (s, permission) = give_back_keeps parked permission s
  publish_then_keeps parked (s, failure) = give_back_keeps parked failure s

  publish_keeps : (parked : Bool) (s : S) → content (publish m tmp final parked s).0 q ≡ content s q
  unfolding publish
  publish_keeps parked s =
      publish_then_keeps parked (m.rename tmp final s)
      ∙ rename_keeps tmp final s tmp-ne-final q-ne-tmp q-ne-final

  checked_keeps :
      (why : Answer) (r : S × Result Answer Bool)
      → content (if_absent m tmp final why r).0 q ≡ content r.0 q
  checked_keeps why (s, err answer) = refl
  checked_keeps why (s, ok false) = refl
  checked_keeps why (s, ok true) = publish_keeps false s

  absent_keeps :
      (why : Answer) (s : S)
      → content (if_absent m tmp final why (remote_absent m.client final s)).0 q ≡ content s q
  unfolding remote_absent
  absent_keeps why s =
      checked_keeps why (remote_absent m.client final s) ∙ promises.lstat_keeps final s q

  park_then_keeps : (r : S × Answer) → content (after_park m tmp final r).0 q ≡ content r.0 q
  park_then_keeps (s, done) = publish_keeps true s
  park_then_keeps (s, not_exist) = publish_keeps false s
  park_then_keeps (s, conn_error) = absent_keeps conn_error s
  park_then_keeps (s, permission) = absent_keeps permission s
  park_then_keeps (s, failure) = absent_keeps failure s

  via_backup_keeps : (s : S) → content (rename_replace_via_backup m tmp final s).0 q ≡ content s q
  unfolding rename_replace_via_backup
  via_backup_keeps s =
      let s' = (m.client.remove (final ++ bak_suffix) s).0 in
      park_then_keeps (m.rename final (final ++ bak_suffix) s')
      ∙ rename_keeps final (final ++ bak_suffix) s' final-ne-backup q-ne-final q-ne-backup
      ∙ promises.remove_keeps (final ++ bak_suffix) q s q-ne-backup

  refused_keeps :
      (answer : PosixAnswer) (s : S)
      → content
          (if posix_rename_unsupported answer m.announced
            then rename_replace_via_backup m tmp final s
            else (s, err (posix_failed answer))).0
          q
        ≡ content s q
  refused_keeps answer s = elim (Bool-cases (posix_rename_unsupported answer m.announced)) [
    | inl plain ↦ rw plain (via_backup_keeps s)
    | inr refused ↦ rw refused refl
  ]

  posix_then_keeps :
      (s : S) (r : S × PosixAnswer)
      → PosixTold r.1 (Moved content tmp final s r.0) (Unchanged content s r.0)
      → content (after_posix m tmp final r).0 q ≡ content s q
  posix_then_keeps s (s', renamed) told = told.2 q q-ne-tmp q-ne-final
  posix_then_keeps s (s', no_status) told = refused_keeps no_status s' ∙ either_keeps told
    where
      either_keeps :
          Moved content tmp final s s' ⊎ Unchanged content s s' → content s' q ≡ content s q
      either_keeps (inl moved) = moved.2 q q-ne-tmp q-ne-final
      either_keeps (inr same) = same q
  posix_then_keeps s (s', status code) told = refused_keeps (status code) s' ∙ told q

  pub rename_replace_keeps : (s : S) → content (rename_replace m tmp final s).0 q ≡ content s q
  unfolding rename_replace
  rename_replace_keeps s =
      posix_then_keeps s (m.posix_rename tmp final s)
        (promises.posix_rename_moves tmp final s tmp-ne-final)

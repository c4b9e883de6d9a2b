-- ===== src/Sync/Execute/Guards.antt =====
-- The guards of executeSync stand before its first deletion.
use easy_sftp.Prelude.{
  ℕ, ◌+◌, ◌≤◌, ltb, ◌&&◌, ◌≡◌, refl, ap, ◌∙◌, Bytes, List, [], ◌∷◌, length, Result, ok, err, ◌⊎◌,
  inl, inr, arith, Bool-cases,
}
use easy_sftp.Remote.Guard.{RootRefusal, check_remote_root}
use easy_sftp.Remote.Budget.{DeleteBudget, OverLimit, reserve}
use easy_sftp.Planner.Tree.{FileItem}
use easy_sftp.Planner.Build.{Plan}
use easy_sftp.Sync.Manifest.{Manifest}
use easy_sftp.Sync.Select.{Selection}
use easy_sftp.Sync.Session.{Config, Session, Progress, SyncError}
use easy_sftp.Sync.Execute.{pass_guards, delete_and_upload, guarded}

-- A batch that is charged fits, and is charged as a whole.
reserve_whole :
    (n : ℕ) (b : DeleteBudget)
    → (reserve n b).1 ≡ ok tt
    → ((reserve n b).0 ≡ record b { spent = b.spent + n })
      × ((b.limit ≡ 0) ⊎ (b.spent + n ≤ b.limit))
unfolding reserve
reserve_whole n b h = elim (Bool-cases (ltb 0 b.limit && ltb b.limit (b.spent + n))) [
  | inl over ↦ absurd (ground (arith, h))
  | inr fits ↦ (rw fits refl, ground arith)
]

passed :
    {S : Type 0} (to_delete : List Bytes) (root : Result RootRefusal (Unit {0}))
    (charge : DeleteBudget × Result OverLimit (Unit {0}))
    (next : Progress S → Progress S × Result SyncError (Unit {0})) (p : Progress S)
    → ((pass_guards to_delete root charge next p).0.server ≡ p.server)
      ⊎ (to_delete ≡ [])
      ⊎ ((root ≡ ok tt)
          × (charge.1 ≡ ok tt)
          × (pass_guards to_delete root charge next p ≡ next (record p { budget = charge.0 })))
passed [] root charge next p = inr (inl refl)
passed (d ∷ ds) (err e) charge next p = inl refl
passed (d ∷ ds) (ok u) (b, err e) next p = inl refl
passed (d ∷ ds) (ok u) (b, ok v) next p = inr (inr (refl, refl, refl))

-- After the selection of a sync, the server is left as it was, or there is nothing to delete, or the
-- target passes checkRemoteRoot, the budget has no limit or the whole batch of deletions fits within
-- it, and the sync goes on with the deletions, the whole batch charged to the budget.
pub guarded-passes :
    {S : Type 0} (session : Session S) (cfg : Config) (old : Manifest) (plan : Plan)
    (files : List FileItem) (sel : Selection) (p : Progress S)
    → ((guarded session cfg old plan files sel p).0.server ≡ p.server)
      ⊎ (sel.to_delete ≡ [])
      ⊎ ((check_remote_root cfg.remote ≡ ok tt)
          × ((p.budget.limit ≡ 0) ⊎ (p.budget.spent + length sel.to_delete ≤ p.budget.limit))
          × (guarded session cfg old plan files sel p
              ≡ delete_and_upload session cfg old plan files sel (record p {
                budget = record p.budget { spent = p.budget.spent + length sel.to_delete };
              })))
unfolding guarded
guarded-passes session cfg old plan files sel p =
    let next = delete_and_upload session cfg old plan files sel in
    let n = length sel.to_delete in
    elim (passed sel.to_delete (check_remote_root cfg.remote) (reserve n p.budget) next p) [
      | inl same ↦ inl same
      | inr (inl nothing) ↦ inr (inl nothing)
      | inr (inr (root, charged, goes)) ↦
          let (whole, fits) = reserve_whole n p.budget charged in
          inr (
            inr
              (root, fits, goes ∙ ap (λ (b : DeleteBudget). next (record p { budget = b })) whole))
    ]

-- ===== src/Config/Targets.antt =====
-- When checkSyncTargets and SyncTargetWarnings find fault with the targets of the deployments.
use easy_sftp.Prelude.{
  ℕ, ◌≡◌, ◌≢◌, ◌↔◌, ◌⊎◌, inl, inr, refl, sym, ap, ◌∙◌, subst, true, false, not, if◌then◌else◌, List,
  [], ◌∷◌, ◌++◌, append-nil, Bytes, eq_bytes, eq_bytes_iff, none, some, Option-cases, Result, ok,
  err, All, arith, Bool-cases, &&_iff, drop, length,
}
use easy_sftp.Strings.{has_prefix, has_prefix_split, has_prefix-append}
use easy_sftp.SlashPath.{slash}
use easy_sftp.Remote.Dirs.{contains}
use easy_sftp.Config.Pairs.{
  UploadPair, effective_strategy, is_sync, target, SharedTarget, find_target, check_from,
  check_sync_targets, ends_or_slash, is_under,
}

-- The targets of the sync deployments.
unfoldable pub sync_targets : List UploadPair → List Bytes
sync_targets [] = []
sync_targets (pair ∷ pairs) =
    let rest = sync_targets pairs in
    if is_sync (effective_strategy pair) then target pair ∷ rest else rest

-- The texts are all different.
abbrev pub AllDifferent : List Bytes → Type 0
AllDifferent [] = Unit
AllDifferent (t ∷ ts) = (contains ts t ≡ false) × AllDifferent ts

abbrev Unseen : List UploadPair → List Bytes → Type 0
Unseen seen = All (λ t. find_target seen t ≡ none)

Unseen-cons :
    (pair : UploadPair) (seen : List UploadPair) (ts : List Bytes)
    → Unseen (pair ∷ seen) ts ↔ (Unseen seen ts × (contains ts (target pair) ≡ false))
Unseen-cons pair seen [] = (λ h. (tt, refl), λ h. tt)
Unseen-cons pair seen (t ∷ ts) =
    let rest = Unseen-cons pair seen ts in
    (
      λ h.
          let r = rest.0 h.1 in
          ((unseen_tail pair seen t h.0, r.0), ground (arith, unseen_head pair seen t h.0, r.1)),
      λ h. (
        unseen_both pair seen t h.0.0 (ground (arith, h.1)),
        rest.1 (h.0.1, ground (arith, h.1)),
      ),
    )
  where
    unseen_tail :
        (pair : UploadPair) (seen : List UploadPair) (t : Bytes)
        → find_target (pair ∷ seen) t ≡ none
        → find_target seen t ≡ none
    unseen_tail pair seen t h = ground arith

    unseen_head :
        (pair : UploadPair) (seen : List UploadPair) (t : Bytes)
        → find_target (pair ∷ seen) t ≡ none
        → eq_bytes t (target pair) ≡ false
    unseen_head pair seen t h =
        ground (arith, eq_bytes_iff t (target pair), eq_bytes_iff (target pair) t)

    unseen_both :
        (pair : UploadPair) (seen : List UploadPair) (t : Bytes)
        → find_target seen t ≡ none
        → eq_bytes t (target pair) ≡ false
        → find_target (pair ∷ seen) t ≡ none
    unseen_both pair seen t h ne =
        ground (arith, eq_bytes_iff t (target pair), eq_bytes_iff (target pair) t)

refused_ok : {e : SharedTarget} → Path (Result SharedTarget (Unit {0})) (err e) (ok tt) → ⊥
refused_ok h = cc

found_none : {A : Type 0} {a : A} → some a ≡ none → ⊥
found_none h = cc

check_from_iff :
    (seen pairs : List UploadPair)
    → (check_from seen pairs ≡ ok tt)
      ↔ (Unseen seen (sync_targets pairs) × AllDifferent (sync_targets pairs))
unfolding check_from sync_targets
check_from_iff seen [] = (λ h. (tt, tt), λ h. refl)
check_from_iff seen (pair ∷ pairs) = elim (Bool-cases (is_sync (effective_strategy pair))) [
  | inr other ↦ rw other (check_from_iff seen pairs)
  | inl syncs ↦
      let rest = check_from_iff (pair ∷ seen) pairs in
      let cons = Unseen-cons pair seen (sync_targets pairs) in
      elim (Option-cases (find_target seen (target pair))) [
        | inr (first, found) ↦
            rw (syncs, found) (λ h. absurd (refused_ok h), λ h. absurd (found_none h.0.0))
        | inl new ↦
            rw (syncs, new)
              (
                λ h.
                    let (unseen, different) = rest.0 h in
                    let (before, apart) = cons.0 unseen in ((refl, before), (apart, different)),
                λ h. rest.1 (cons.1 (h.0.1, h.1.0), h.1.1),
              )
      ]
]

Unseen-nil : (ts : List Bytes) → Unseen [] ts
Unseen-nil [] = tt
Unseen-nil (t ∷ ts) = (refl, Unseen-nil ts)

pub check_sync_targets_iff :
    (pairs : List UploadPair)
    → (check_sync_targets pairs ≡ ok tt) ↔ AllDifferent (sync_targets pairs)
unfolding check_sync_targets
check_sync_targets_iff pairs =
    let both = check_from_iff [] pairs in
    (λ h. (both.0 h).1, λ h. both.1 (Unseen-nil (sync_targets pairs), h))

-- The first path is the second or lies below it, where the second is not the root.
abbrev pub IsUnder : Bytes → Bytes → Type 0
IsUnder sub dir =
    (dir ≢ []) × (dir ≢ slash) × ((sub ≡ dir) ⊎ ((rest : Bytes) × (sub ≡ dir ++ b'/' ∷ rest)))

not_eq : (s t : Bytes) → (not (eq_bytes s t) ≡ true) ↔ (s ≢ t)
not_eq s t =
    (λ h e. ground (arith, eq_bytes_iff s t, e), λ ne. ground (arith, eq_bytes_iff s t, ne))

tail_cases :
    (sub dir rest : Bytes)
    → sub ≡ dir ++ rest
    → ends_or_slash rest ≡ true
    → (sub ≡ dir) ⊎ ((r : Bytes) × (sub ≡ dir ++ b'/' ∷ r))
tail_cases sub dir [] e h = inl (e ∙ append-nil dir)
tail_cases sub dir (c ∷ rest) e h =
    let at : c ≡ b'/' = ground (arith, h) in inr (rest, e ∙ ap (λ (b : ℕ). dir ++ b ∷ rest) at)

drop_all : (dir rest : Bytes) → drop (length dir) (dir ++ rest) ≡ rest
drop_all [] rest = refl
drop_all (c ∷ dir) rest = drop_all dir rest

pub is_under_iff : (sub dir : Bytes) → (is_under sub dir ≡ true) ↔ IsUnder sub dir
unfolding is_under
is_under_iff sub dir = (to, from)
  where
    to : is_under sub dir ≡ true → IsUnder sub dir
    to h =
        let a = (&&_iff (not (eq_bytes dir [])) _).0 h in
        let b = (&&_iff (not (eq_bytes dir slash)) _).0 a.1 in
        let c = (&&_iff (has_prefix sub dir) _).0 b.1 in
        (
          (not_eq dir []).0 a.0,
          (not_eq dir slash).0 b.0,
          tail_cases sub dir (drop (length dir) sub) (has_prefix_split sub dir c.0) c.1,
        )

    under :
        (rest : Bytes)
        → dir ≢ []
        → dir ≢ slash
        → ends_or_slash rest ≡ true
        → is_under (dir ++ rest) dir ≡ true
    under rest filled below h =
        let tail : ends_or_slash (drop (length dir) (dir ++ rest)) ≡ true =
          rw (drop_all dir rest) h in
        (&&_iff (not (eq_bytes dir [])) _).1 (
          (not_eq dir []).1 filled,
          (&&_iff (not (eq_bytes dir slash)) _).1 (
            (not_eq dir slash).1 below,
            (&&_iff (has_prefix (dir ++ rest) dir) _).1 (has_prefix-append dir rest, tail),
          ),
        )

    from : IsUnder sub dir → is_under sub dir ≡ true
    from (filled, below, inl e) =
        subst (λ s. is_under s dir ≡ true) (append-nil dir ∙ sym e) (under [] filled below refl)
    from (filled, below, inr (rest, e)) =
        subst (λ s. is_under s dir ≡ true) (sym e) (under (b'/' ∷ rest) filled below refl)

-- ===== src/Config/Pairs.antt =====
-- The deployments of internal/config/config.go, and the sync and clean targets among them.
use easy_sftp.Prelude.{
  ◌==◌, Bool, true, false, ◌&&◌, ◌||◌, not, if◌then◌else◌, List, [], ◌∷◌, ◌++◌, Bytes, codes,
  eq_bytes, Option, none, some, Result, ok, err, drop, length,
}
use easy_sftp.Strings.{has_prefix}
use easy_sftp.SlashPath.{slash}
use easy_sftp.Remote.Guard.{normalize_remote, is_letter}
use easy_sftp.Planner.Build.{Strategy, overlay, sync, clean}

-- UploadPair; no strategy is the empty one.
pub record UploadPair : Type 0 where
  pub name : Bytes
  pub source : Bytes
  pub remote : Bytes
  pub strategy : Option Strategy
  pub ignore : List Bytes

-- Strategy.valid, with the strategy that the text names.
unfoldable pub valid_strategy : Bytes → Option Strategy
valid_strategy mode =
    if eq_bytes mode (codes "overlay")
    then some overlay
    else (if eq_bytes mode (codes "sync")
        then some sync
        else (if eq_bytes mode (codes "clean") then some clean else none))

abbrev pub strategy_or : Option Strategy → Strategy
strategy_or none = overlay
strategy_or (some s) = s

-- effectiveStrategy
abbrev pub effective_strategy : UploadPair → Strategy
effective_strategy pair = strategy_or pair.strategy

abbrev pub is_sync : Strategy → Bool
is_sync overlay = false
is_sync sync = true
is_sync clean = false

abbrev pub is_clean : Strategy → Bool
is_clean overlay = false
is_clean sync = false
is_clean clean = true

-- foldDriveSpelling
unfoldable pub fold_drive_spelling : Bytes → Bytes
fold_drive_spelling [] = []
fold_drive_spelling (a ∷ []) = a ∷ []
fold_drive_spelling (a ∷ b ∷ []) = a ∷ b ∷ []
fold_drive_spelling (a ∷ b ∷ c ∷ p) =
    if a == b'/' && (is_letter b && c == b':') then b ∷ c ∷ p else a ∷ b ∷ c ∷ p

-- The target of a deployment, as the checks compare it.
unfoldable pub target : UploadPair → Bytes
unfolding fold_drive_spelling normalize_remote
target pair = fold_drive_spelling (normalize_remote pair.remote)

pub data SharedTarget : Type 0 where
  shares : UploadPair → UploadPair → SharedTarget

abbrev pub find_target : List UploadPair → Bytes → Option UploadPair
find_target [] t = none
find_target (pair ∷ seen) t = if eq_bytes (target pair) t then some pair else find_target seen t

-- The loop of checkSyncTargets, with the sync deployments seen so far.
unfoldable pub check_from : List UploadPair → List UploadPair → Result SharedTarget (Unit {0})
unfolding target
check_from seen [] = ok tt
check_from seen (pair ∷ pairs) =
    let skipped = check_from seen pairs in
    let stored = check_from (pair ∷ seen) pairs in
    if is_sync (effective_strategy pair)
    then elim (find_target seen (target pair)) [
      | some first ↦ err (shares first pair)
      | none ↦ stored
    ]
    else skipped

-- checkSyncTargets
unfoldable pub check_sync_targets : List UploadPair → Result SharedTarget (Unit {0})
unfolding check_from
check_sync_targets pairs = check_from [] pairs

abbrev pub ends_or_slash : Bytes → Bool
ends_or_slash [] = true
ends_or_slash (c ∷ rest) = c == b'/'

-- isUnder
unfoldable pub is_under : Bytes → Bytes → Bool
is_under sub dir =
    not (eq_bytes dir [])
    && (not (eq_bytes dir slash) && (has_prefix sub dir && ends_or_slash (drop (length dir) sub)))

-- The warnings, by their two texts, with the sync deployment first.
pub data TargetWarning : Type 0 where
  overlap : UploadPair → UploadPair → TargetWarning
  clean_inside : UploadPair → UploadPair → TargetWarning

-- What the inner loop says about two deployments.
unfoldable pub pair_warning : UploadPair → UploadPair → Option TargetWarning
pair_warning pair other =
    if eq_bytes pair.name other.name && eq_bytes pair.remote other.remote
    then none
    else (if not (is_sync (effective_strategy pair)) || not (is_clean (effective_strategy other))
        then none
        else (if eq_bytes (target pair) (target other) || is_under (target pair) (target other)
            then some (overlap pair other)
            else (if is_under (target other) (target pair)
                then some (clean_inside pair other)
                else none)))

abbrev pub add_warning : Option TargetWarning → List TargetWarning → List TargetWarning
add_warning none warnings = warnings
add_warning (some w) warnings = w ∷ warnings

unfoldable pub warnings_of : UploadPair → List UploadPair → List TargetWarning
unfolding pair_warning
warnings_of pair [] = []
warnings_of pair (other ∷ others) = add_warning (pair_warning pair other) (warnings_of pair others)

unfoldable pub warnings_from : List UploadPair → List UploadPair → List TargetWarning
unfolding warnings_of
warnings_from all [] = []
warnings_from all (pair ∷ pairs) = warnings_of pair all ++ warnings_from all pairs

-- SyncTargetWarnings
unfoldable pub sync_target_warnings : List UploadPair → List TargetWarning
unfolding warnings_from
sync_target_warnings pairs = warnings_from pairs pairs

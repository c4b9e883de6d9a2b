-- ===== src/Transfer/Sweep.antt =====
-- sweepStaleTemps and sweepDirStaleTemps of internal/uploader/transfer.go: temporary files that an earlier
-- run left behind are removed.
pub mod Stale
use easy_sftp.Prelude.{
  ℕ, ltb, Bool, true, false, not, ◌||◌, if◌then◌else◌, List, [], ◌∷◌, ◌++◌, Bytes, eq_bytes, Option,
  none, some, Result, ok, err,
}
use easy_sftp.Strings.{has_prefix, trim_suffix, sort_strings}
use easy_sftp.SlashPath.{dir, slash}
use easy_sftp.Remote.Confine.{safe_child}
use easy_sftp.Remote.Dirs.{contains}
use easy_sftp.Remote.Delete.{Answer, done, conn_error, not_exist, permission, failure}
use easy_sftp.Session.Do.{Line, do_op}
use easy_sftp.Transfer.Temp.{is_temp_file_name}

-- An entry of a listing: its name, its kind, and the nanoseconds since its modification, which are none
-- where that lies ahead of the runner's clock.
pub record TempEntry : Type 0 where
  pub name : Bytes
  pub is_dir : Bool
  pub age : ℕ

pub record Sweeper (S : Type 0) : Type 0 where
  pub read_dir : Bytes → S → S × Result Answer (List TempEntry)
  pub remove : Bytes → S → S × Answer

-- staleTempMaxAge, in nanoseconds.
abbrev pub stale_temp_max_age : ℕ
stale_temp_max_age = 3600000000000

-- isConnError, on an answer.
abbrev pub is_conn_error : Answer → Bool
is_conn_error done = false
is_conn_error conn_error = true
is_conn_error not_exist = false
is_conn_error permission = false
is_conn_error failure = false

-- The path that the loop removes for an entry.
abbrev pub unplanned : List Bytes → Bytes → Option Bytes
unplanned keep full = if contains keep full then none else some full

unfoldable pub stale_path : List Bytes → Bytes → TempEntry → Option Bytes
stale_path keep d e =
    if e.is_dir || not (is_temp_file_name e.name)
    then none
    else (if ltb e.age stale_temp_max_age
        then none
        else elim (safe_child d e.name) [ err why ↦ none | ok full ↦ unplanned keep full ])

-- sweepBase: the base, or its directory where the base is itself a planned file.
unfoldable pub sweep_base : List Bytes → Bytes → Bytes
sweep_base keep base = if contains keep base then dir base else base

-- The planned directories at the sweep's base and below it.
abbrev pub is_swept : Bytes → Bytes → Bool
is_swept base d = eq_bytes d base || has_prefix d (trim_suffix base b'/' ++ slash)

unfoldable pub touch : Bytes → List Bytes → List Bytes → List Bytes
touch base touched [] = touched
touch base touched (d ∷ dirs) =
    touch base
      (if is_swept base d then (if contains touched d then touched else d ∷ touched) else touched)
      dirs

-- The directories that are swept, sorted.
unfoldable pub swept_dirs : List Bytes → Bytes → List Bytes → List Bytes
unfolding sweep_base touch
swept_dirs keep base dirs =
    sort_strings (touch (sweep_base keep base) (sweep_base keep base ∷ []) dirs)

module _ {S : Type 0} (sweeper : Sweeper S) where
  abbrev pub after_sweep :
      (S → S × Result Answer (Unit {0})) → S × Answer → S × Result Answer (Unit {0})
  after_sweep rest (s, conn_error) = (s, err conn_error)
  after_sweep rest (s, answer) = rest s

  -- The loop over the entries.
  unfoldable pub sweep_entries :
      List Bytes → Bytes → List TempEntry → S → S × Result Answer (Unit {0})
  unfolding stale_path
  sweep_entries keep d [] s = (s, ok tt)
  sweep_entries keep d (e ∷ entries) s = elim (stale_path keep d e) [
    | none ↦ sweep_entries keep d entries s
    | some full ↦ after_sweep (λ s'. sweep_entries keep d entries s') (sweeper.remove full s)
  ]

  abbrev pub sweep_listed :
      List Bytes → Bytes → S × Result Answer (List TempEntry) → S × Result Answer (Unit {0})
  sweep_listed keep d (s, ok entries) = sweep_entries keep d entries s
  sweep_listed keep d (s, err conn_error) = (s, err conn_error)
  sweep_listed keep d (s, err answer) = (s, ok tt)

  -- sweepDirStaleTemps
  unfoldable pub sweep_dir_stale_temps : List Bytes → Bytes → S → S × Result Answer (Unit {0})
  unfolding sweep_entries
  sweep_dir_stale_temps keep d s = sweep_listed keep d (sweeper.read_dir d s)

  -- The directories one after the other, each with its own reconnects; no error ends the sweep.
  unfoldable pub sweep_dirs : Line S → List Bytes → List Bytes → ℕ → S → S × ℕ
  unfolding sweep_dir_stale_temps do_op
  sweep_dirs line keep [] left s = (s, left)
  sweep_dirs line keep (d ∷ dirs) left s =
      let (s', left', r) = do_op is_conn_error line left (λ t. sweep_dir_stale_temps keep d t) s in
      sweep_dirs line keep dirs left' s'

  -- sweepStaleTemps, for the base of a deployment, its planned directories and its planned files.
  unfoldable pub sweep_stale_temps : Line S → List Bytes → Bytes → List Bytes → ℕ → S → S × ℕ
  unfolding sweep_dirs swept_dirs
  sweep_stale_temps line keep base dirs left s =
      sweep_dirs line keep (swept_dirs keep base dirs) left s

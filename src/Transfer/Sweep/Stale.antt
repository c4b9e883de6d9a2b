-- ===== src/Transfer/Sweep/Stale.antt =====
-- What the sweep may remove, and where.
use easy_sftp.Prelude.{
  ℕ, ◌≤◌, ◌≡◌, ◌⊎◌, inl, inr, refl, sym, ap, ◌∙◌, true, false, if◌then◌else◌, List, [], ◌∷◌, ◌++◌,
  Bytes, length, drop, eq_bytes, eq_bytes_refl, eq_bytes_sound, some, Result, ok, err, All, arith,
  Bool-cases, Option-cases, Result-cases,
}
use easy_sftp.Strings.{sort_strings-All, trim_suffix, has_prefix_split}
use easy_sftp.SlashPath.{dir, slash}
use easy_sftp.Remote.Confine.{safe_child}
use easy_sftp.Remote.Dirs.{contains}
use easy_sftp.Remote.Delete.{Answer, done, conn_error, not_exist, permission, failure}
use easy_sftp.Session.Do.{Line}
use easy_sftp.Session.Do.Outlasts.{do_op-keeps}
use easy_sftp.Transfer.Temp.{is_temp_file_name}
use easy_sftp.Transfer.Sweep.{
  TempEntry, Sweeper, is_conn_error, stale_path, sweep_base, is_swept, touch, swept_dirs,
  after_sweep, sweep_entries, sweep_listed, sweep_dir_stale_temps, sweep_dirs, sweep_stale_temps,
}

-- Where the sweep begins: the base, or its directory where the base is itself a planned file.
abbrev pub root_of : List Bytes → Bytes → Bytes
root_of keep base = if contains keep base then dir base else base

-- The directory is where the sweep begins, or a planned one below it.
abbrev pub IsSwept : List Bytes → Bytes → List Bytes → Bytes → Type 0
IsSwept keep base dirs d =
    (d ≡ root_of keep base)
    ⊎ ((contains dirs d ≡ true)
        × ((rest : Bytes) × (d ≡ (trim_suffix (root_of keep base) b'/' ++ slash) ++ rest)))

abbrev pub IsEntry : TempEntry → List TempEntry → Type 0
IsEntry e [] = ⊥
IsEntry e (x ∷ entries) = (x ≡ e) ⊎ IsEntry e entries

-- A listing of the directory has an entry at the path: a file with a temporary name that is an hour old or
-- more. The path is not planned.
abbrev pub IsStale : {S : Type 0} → Sweeper S → List Bytes → Bytes → Bytes → Type 0
IsStale {S} sweeper keep d full =
    (s : S) × (entries : List TempEntry) × (e : TempEntry) × ((sweeper.read_dir d s).1 ≡ ok entries)
    × IsEntry e entries
    × (safe_child d e.name ≡ ok full)
    × (e.is_dir ≡ false)
    × (is_temp_file_name e.name ≡ true)
    × (3600000000000 ≤ e.age)
    × (contains keep full ≡ false)

-- What the tests on one entry say.
abbrev Passes : List Bytes → Bytes → TempEntry → Bytes → Type 0
Passes keep d e full =
    (safe_child d e.name ≡ ok full)
    × (e.is_dir ≡ false)
    × (is_temp_file_name e.name ≡ true)
    × (3600000000000 ≤ e.age)
    × (contains keep full ≡ false)

stale_path-Passes :
    (keep : List Bytes) (d : Bytes) (e : TempEntry) {full : Bytes}
    → stale_path keep d e ≡ some full
    → Passes keep d e full
unfolding stale_path
stale_path-Passes keep d e {full} h = elim (Result-cases (safe_child d e.name)) [
  | inl (why, refused) ↦ absurd (ground (arith, refused))
  | inr (path, child) ↦
      let same : path ≡ full = ground (arith, child) in
      (
        child ∙ ap ok same,
        ground (arith, child),
        ground (arith, child),
        ground (arith, child),
        rw (← same) (ground (arith, child)),
      )
]

touch-All :
    (Q : Bytes → Type 0) (base : Bytes) (touched dirs : List Bytes)
    → ((d : Bytes) → contains dirs d ≡ true → is_swept base d ≡ true → Q d)
    → All Q touched
    → All Q (touch base touched dirs)
unfolding touch
touch-All Q base touched [] all h = h
touch-All Q base touched (d ∷ dirs) all h = elim (Bool-cases (is_swept base d)) [
  | inr away ↦ rw away (touch-All Q base touched dirs later h)
  | inl swept ↦ elim (Bool-cases (contains touched d)) [
    | inl old ↦ rw (swept, old) (touch-All Q base touched dirs later h)
    | inr new ↦
        rw (swept, new)
          (touch-All Q base (d ∷ touched) dirs later
            (all d (ground (arith, eq_bytes_refl d)) swept, h))
  ]
]
  where
    later : (x : Bytes) → contains dirs x ≡ true → is_swept base x ≡ true → Q x
    later x there swept = all x (ground (arith, there)) swept

planned-IsSwept :
    (keep : List Bytes) (base : Bytes) (dirs : List Bytes) (d : Bytes)
    → contains dirs d ≡ true
    → is_swept (root_of keep base) d ≡ true
    → IsSwept keep base dirs d
planned-IsSwept keep base dirs d planned swept =
    elim (Bool-cases (eq_bytes d (root_of keep base))) [
      | inl same ↦ inl (eq_bytes_sound d (root_of keep base) same)
      | inr other ↦
          let b = trim_suffix (root_of keep base) b'/' ++ slash in
          inr (planned, (drop (length b) d, has_prefix_split d b (ground (arith, other))))
    ]

swept_dirs-All :
    (keep : List Bytes) (base : Bytes) (dirs : List Bytes)
    → All (IsSwept keep base dirs) (swept_dirs keep base dirs)
unfolding swept_dirs sweep_base
swept_dirs-All keep base dirs =
    let b = root_of keep base in
    sort_strings-All (IsSwept keep base dirs) (touch b (b ∷ []) dirs) (
      touch-All (IsSwept keep base dirs) b (b ∷ []) dirs (planned-IsSwept keep base dirs)
        (inl refl, tt))

module _ {S : Type 0} (sweeper : Sweeper S) (line : Line S) (keep : List Bytes) (base : Bytes)
    (dirs : List Bytes) (P : S → Type 0)
    (remove_keeps : (d full : Bytes) (s : S)
      → IsSwept keep base dirs d
      → IsStale sweeper keep d full
      → P s
      → P (sweeper.remove full s).0)
    (read_keeps : (d : Bytes) (s : S) → IsSwept keep base dirs d → P s → P (sweeper.read_dir d s).0)
    (redial_keeps : (s : S) → P s → P (line.redial s).0) where
  after_sweep-keeps :
      (rest : S → S × Result Answer (Unit {0})) (r : S × Answer)
      → ((s : S) → P s → P (rest s).0)
      → P r.0
      → P (after_sweep sweeper rest r).0
  after_sweep-keeps rest (s, done) all h = all s h
  after_sweep-keeps rest (s, conn_error) all h = h
  after_sweep-keeps rest (s, not_exist) all h = all s h
  after_sweep-keeps rest (s, permission) all h = all s h
  after_sweep-keeps rest (s, failure) all h = all s h

  entries_keep :
      (d : Bytes) (t : S) (listing : List TempEntry)
      → (sweeper.read_dir d t).1 ≡ ok listing
      → IsSwept keep base dirs d
      → (entries : List TempEntry) → ((e : TempEntry) → IsEntry e entries → IsEntry e listing)
      → (s : S) → P s
      → P (sweep_entries sweeper keep d entries s).0
  unfolding sweep_entries
  entries_keep d t listing read swept [] among s h = h
  entries_keep d t listing read swept (e ∷ entries) among s h =
      elim (Option-cases (stale_path keep d e)) [
        | inl stays ↦
            rw (stays, sweep_entries)
              (entries_keep d t listing read swept entries (λ x m. among x (inr m)) s h)
        | inr (full, stale) ↦
            rw (stale, sweep_entries)
              (after_sweep-keeps (λ s'. sweep_entries sweeper keep d entries s')
                (sweeper.remove full s)
                (λ s'. entries_keep d t listing read swept entries (λ x m. among x (inr m)) s')
                (remove_keeps d full s swept
                  (let passes = stale_path-Passes keep d e stale in
                    (
                      t,
                      listing,
                      e,
                      read,
                      among e (inl refl),
                      passes.0,
                      passes.1,
                      passes.2,
                      passes.3,
                      passes.4,
                    ))
                  h))
      ]

  listed_keep :
      (d : Bytes) (t : S) (r : S × Result Answer (List TempEntry))
      → r.1 ≡ (sweeper.read_dir d t).1
      → IsSwept keep base dirs d
      → P r.0
      → P (sweep_listed sweeper keep d r).0
  listed_keep d t (s, ok entries) same swept h =
      entries_keep d t entries (sym same) swept entries (λ e m. m) s h
  listed_keep d t (s, err done) same swept h = h
  listed_keep d t (s, err conn_error) same swept h = h
  listed_keep d t (s, err not_exist) same swept h = h
  listed_keep d t (s, err permission) same swept h = h
  listed_keep d t (s, err failure) same swept h = h

  dir_keeps :
      (d : Bytes) (s : S)
      → IsSwept keep base dirs d
      → P s
      → P (sweep_dir_stale_temps sweeper keep d s).0
  unfolding sweep_dir_stale_temps
  dir_keeps d s swept h = listed_keep d s (sweeper.read_dir d s) refl swept (read_keeps d s swept h)

  dirs_keep :
      (ds : List Bytes) (left : ℕ) (s : S)
      → All (IsSwept keep base dirs) ds
      → P s
      → P (sweep_dirs sweeper line keep ds left s).0
  unfolding sweep_dirs
  dirs_keep [] left s swept h = h
  dirs_keep (d ∷ ds) left s swept h = dirs_keep ds _ _ swept.1 (
      do_op-keeps is_conn_error line (λ t. sweep_dir_stale_temps sweeper keep d t) P
        (λ t. dir_keeps d t swept.0) redial_keeps left s h)

  -- A property of the server's state survives sweepStaleTemps where it survives redialing, listing a
  -- swept directory, and the removal of each path that a listing of a swept directory gives as no
  -- directory, with a temporary name and an age of an hour or more, and that is not planned. A swept
  -- directory is the sweep's root or a planned directory below it.
  pub sweep_stale_temps-keeps :
      (left : ℕ) (s : S) → P s → P (sweep_stale_temps sweeper line keep base dirs left s).0
  unfolding sweep_stale_temps
  sweep_stale_temps-keeps left s h =
      dirs_keep (swept_dirs keep base dirs) left s (swept_dirs-All keep base dirs) h

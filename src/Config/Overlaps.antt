-- ===== src/Config/Overlaps.antt =====
-- When SyncTargetWarnings says nothing.
use easy_sftp.Prelude.{
  ℕ, ◌==◌, ◌≡◌, ◌⊎◌, map, if◌then◌else◌, Bool, true, false, ◌&&◌, ◌||◌, ◌∷◌, Bytes, eq_bytes, some,
}
use easy_sftp.SlashPath.{clean as clean_path}
use easy_sftp.Remote.Guard.{is_letter}
use easy_sftp.Planner.Build.{sync, clean}
use easy_sftp.Config.Pairs.{UploadPair, effective_strategy, is_sync, is_clean, target, is_under}
use easy_sftp.Config.Targets.{IsUnder}

-- One target is the other or lies below it.
abbrev pub Nest : Bytes → Bytes → Type 0
Nest a b = (a ≡ b) ⊎ IsUnder a b ⊎ IsUnder b a

-- The remote directory with slashes for backslashes, as path.Clean leaves it.
abbrev pub cleaned : UploadPair → Bytes
cleaned p = clean_path (map (λ c. if c == 92 then b'/' else c) p.remote)

-- A drive with a slash before it: the slash, a letter and a colon.
abbrev pub StartsWithDrive : Bytes → Bytes → Type 0
StartsWithDrive path rest =
    (path ≡ b'/' ∷ rest)
    × ((letter : ℕ) × (below : Bytes) × (rest ≡ letter ∷ b':' ∷ below) × (is_letter letter ≡ true))

-- The directory that the deployment writes into, where /C:/w and C:/w are one.
abbrev pub IsTarget : UploadPair → Bytes → Type 0
IsTarget p t =
    StartsWithDrive (cleaned p) t
    ⊎ ((cleaned p ≡ t) × ((rest : Bytes) → StartsWithDrive (cleaned p) rest → ⊥))

-- The first deployment syncs and the second cleans, and they are not one by their name and their remote
-- directory.
abbrev pub IsAtOdds : UploadPair → UploadPair → Type 0
IsAtOdds p q =
    (p.strategy ≡ some sync)
    × (q.strategy ≡ some clean)
    × ((p.name ≡ q.name) → (p.remote ≡ q.remote) → ⊥)

-- The targets of two such deployments are apart.
abbrev pub IsQuiet : UploadPair → UploadPair → Type 0
IsQuiet p q = IsAtOdds p q → (a b : Bytes) → IsTarget p a → IsTarget q b → Nest a b → ⊥

-- The tests of the strategies and of the two names.
abbrev TestsOdds : UploadPair → UploadPair → Type 0
TestsOdds p q =
    (is_sync (effective_strategy p) ≡ true)
    × (is_clean (effective_strategy q) ≡ true)
    × ((eq_bytes p.name q.name && eq_bytes p.remote q.remote) ≡ false)

abbrev TestsQuiet : UploadPair → UploadPair → Type 0
TestsQuiet p q = TestsOdds p q → Nest (target p) (target q) → ⊥

-- The three tests on the targets.
abbrev nests : UploadPair → UploadPair → Bool
nests p q =
    eq_bytes (target p) (target q)
    || (is_under (target p) (target q) || is_under (target q) (target p))

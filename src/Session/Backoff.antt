-- ===== src/Session/Backoff.antt =====
-- retryBackoff of internal/uploader/backoff.go, in int64 nanoseconds. The random number is a parameter: a
-- function that gives a number below its argument.
use easy_sftp.Prelude.{
  ℕ, zero, suc, ◌+◌, ◌-◌, ◌*◌, ◌/◌, ◌%◌, ◌≤◌, ◌<◌, ◌==◌, ==_iff, ◌≡◌, refl, max, ltb, ltb→lt, Bool,
  true, subst, sym, inl, inr, Bool-cases, ◌&&◌, if◌then◌else◌, Option, none, some, arith, &&_iff,
}
use Prim.Native.Nat.{◌^◌}

abbrev pub int64_mod : ℕ
int64_mod = 18446744073709551616

abbrev pub int64_sign : ℕ
int64_sign = 9223372036854775808

abbrev pub second : ℕ
second = 1000000000

-- time.Duration(1 << (retry - 1)) * time.Second, as a bit pattern.
unfoldable pub backoff_base : ℕ → ℕ
backoff_base retry = (2 ^ (max retry 1 - 1) * second) % int64_mod

-- The duration as a bit pattern; `none` is the panic of rand.Int64N on a number that is not positive, which a
-- negative base leads to.
unfoldable pub retry_backoff : (ℕ → ℕ) → ℕ → Option ℕ
unfolding backoff_base
retry_backoff random retry =
    let base = backoff_base retry in
    if ltb base int64_sign then some ((base + random (base / 4 + 1)) % int64_mod) else none

-- The bases of the first retries, by evaluation.
abbrev is_plain : ℕ → Bool
is_plain retry = ltb (backoff_base retry * 5) (int64_sign * 4)

-- What holds of each retry below a limit.
each_retry : (ℕ → Bool) → ℕ → Bool
each_retry holds zero = true
each_retry holds (suc limit) = each_retry holds limit && holds limit

each_retry-at :
    (holds : ℕ → Bool) {limit retry : ℕ}
    → retry < limit
    → each_retry holds limit ≡ true
    → holds retry ≡ true
unfolding each_retry
each_retry-at holds {limit = zero} below all = absurd (omega (arith, below))
each_retry-at holds {limit = suc limit} {retry} below all =
    let (rest, last) = (&&_iff (each_retry holds limit) (holds limit)).0 all in
    elim (Bool-cases (retry == limit)) [
      | inl same ↦ subst (λ r. holds r ≡ true) (sym ((==_iff retry limit).0 same)) last
      | inr other ↦ each_retry-at holds {limit = limit} (ground (arith, below, other)) rest
    ]

plain_table : each_retry is_plain 34 ≡ true
unfolding each_retry backoff_base
plain_table = refl

-- The base does not wrap, and doubles.
abbrev is_power : ℕ → Bool
is_power retry =
    (backoff_base (suc retry) == 2 ^ retry * second)
    && (backoff_base (suc (suc retry)) == 2 * (2 ^ retry * second) && ltb 0 (2 ^ retry * second))

power_table : each_retry is_power 32 ≡ true
unfolding each_retry backoff_base
power_table = refl

-- A random number below its bound.
abbrev pub IsBelow : (ℕ → ℕ) → Type 0
IsBelow random = (n : ℕ) → 0 < n → random n < n

-- The wait is the base and at most a quarter of it.
abbrev pub IsWait : ℕ → Option ℕ → Type 0
IsWait base wait = (d : ℕ) × (wait ≡ some d) × (base ≤ d) × (d * 4 ≤ base * 5)

base_plain : (retry : ℕ) → retry < 34 → backoff_base retry * 5 < int64_sign * 4
base_plain retry h = let plain = each_retry-at is_plain h plain_table in ground arith

backoff_base-IsWait :
    (random : ℕ → ℕ) (base : ℕ)
    → IsBelow random
    → base * 5 < int64_sign * 4
    → IsWait base
        (if ltb base int64_sign then some ((base + random (base / 4 + 1)) % int64_mod) else none)
backoff_base-IsWait random base below plain =
    let r = below (base / 4 + 1) (omega arith) in
    let sum : (base + random (base / 4 + 1)) % int64_mod ≡ base + random (base / 4 + 1) =
      omega arith in
    (base + random (base / 4 + 1), ground arith, omega arith, omega arith)

base_power :
    (retry : ℕ)
    → retry < 32
    → (backoff_base (suc retry) ≡ 2 ^ retry * second)
      × (backoff_base (suc (suc retry)) ≡ 2 * (2 ^ retry * second))
      × (0 < 2 ^ retry * second)
base_power retry h =
    let both =
      (&&_iff (backoff_base (suc retry) == 2 ^ retry * second) _).0
        (each_retry-at is_power h power_table) in
    let rest = (&&_iff (backoff_base (suc (suc retry)) == 2 * (2 ^ retry * second)) _).0 both.1 in
    ((==_iff _ _).0 both.0, (==_iff _ _).0 rest.0, ltb→lt _ _ rest.1)

-- Up to retry 32, where the random number is below its bound, the wait is at least the power of two of
-- seconds, at most a quarter longer, and shorter than the wait of the next retry.
pub retry_backoff_bounds :
    (random : ℕ → ℕ) (retry : ℕ)
    → IsBelow random
    → retry < 32
    → (d : ℕ) × (d' : ℕ) × (retry_backoff random (suc retry) ≡ some d)
      × (retry_backoff random (suc (suc retry)) ≡ some d')
      × (2 ^ retry * second ≤ d)
      × (d * 4 ≤ 2 ^ retry * second * 5)
      × (d < d')
unfolding retry_backoff
retry_backoff_bounds random retry below h =
    let (d, now, low, high) =
      backoff_base-IsWait random (backoff_base (suc retry)) below
        (base_plain (suc retry) (omega (arith, h))) in
    let (d', later, low', high') =
      backoff_base-IsWait random (backoff_base (suc (suc retry))) below
        (base_plain (suc (suc retry)) (omega (arith, h))) in
    let (e, e', positive) = base_power retry h in
    (d, d', now, later, omega (arith, e), omega (arith, e), omega (arith, e, e', positive))

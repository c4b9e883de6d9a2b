-- ===== src/Remote/Delete/Charged.antt =====
-- removeRemoteDirs charges exactly the directories that it removes, and takes the deepest first.
use easy_sftp.Prelude.{
  ℕ, zero, suc, ◌+◌, ◌≤◌, ◌<◌, ◌==◌, ◌≡◌, refl, ap, ◌∙◌, ltb, ◌&&◌, true, false, Bytes, List, [],
  ◌∷◌, ◌++◌, arith, Bool-cases, inl, inr, All, All-append, All-map, ==_iff, ◌||◌, eq_bytes,
  eq_bytes_sound,
}
use easy_sftp.Remote.Dirs.{contains}
use easy_sftp.Remote.Budget.{DeleteBudget, take_one, refund}
use easy_sftp.Remote.Delete.{
  Answer, done, conn_error, not_exist, permission, failure, Client, depth, at_depth, levels,
  deepest, settle, remove_charged, remove_levels, remove_remote_dirs,
}

-- The budget after some removals: each is charged once, and a limit that was kept is kept.
abbrev pub Charges : DeleteBudget → DeleteBudget → ℕ → Type 0
Charges b b' n =
    (b'.limit ≡ b.limit)
    × (b'.spent ≡ b.spent + n)
    × (0 < b.limit → b.spent ≤ b.limit → b.spent + n ≤ b.limit)

take_one-Charges : (b : DeleteBudget) → (take_one b).1 ≡ true → Charges b (take_one b).0 1
unfolding take_one
take_one-Charges b h = (ground arith, ground arith, λ p q. ground arith)

take_one_refused : (b : DeleteBudget) → (take_one b).1 ≡ false → Charges b (take_one b).0 0
unfolding take_one
take_one_refused b h = (ground arith, ground arith, λ p q. ground arith)

refund-Charges : (b : DeleteBudget) → (take_one b).1 ≡ true → Charges b (refund (take_one b).0) 0
unfolding take_one refund
refund-Charges b h = (ground arith, ground arith, λ p q. ground arith)

Charges-add : {a b c : DeleteBudget} (n m : ℕ) → Charges a b n → Charges b c m → Charges a c (n + m)
Charges-add n m (l, s, f) (l', s', f') = (
  omega arith,
  omega arith,
  λ p q. let h = f p q in omega (arith, f' (omega arith) (omega arith)),
)

module _ {S : Type 0} (client : Client S) where
  settle-Charges :
      (b : DeleteBudget) (s : S) (answer : Answer)
      → (take_one b).1 ≡ true
      → Charges b
          (settle client (take_one b).0 s answer).1
          (settle client (take_one b).0 s answer).2
  settle-Charges b s done h = take_one-Charges b h
  settle-Charges b s conn_error h = refund-Charges b h
  settle-Charges b s not_exist h = refund-Charges b h
  settle-Charges b s permission h = refund-Charges b h
  settle-Charges b s failure h = refund-Charges b h

  remove_charged-Charges :
      (dir : Bytes) (b : DeleteBudget) (s : S)
      → Charges b (remove_charged client dir b s).1 (remove_charged client dir b s).2
  unfolding remove_charged
  remove_charged-Charges dir b s = elim (Bool-cases (take_one b).1) [
    | inl charged ↦
        let (s', answer) = client.remove_directory dir s in
        rw charged (settle-Charges b s' answer charged)
    | inr refused ↦ rw refused (take_one_refused b refused)
  ]

  remove_levels-Charges :
      (dirs : List Bytes) (b : DeleteBudget) (s : S)
      → Charges b (remove_levels client dirs b s).1 (remove_levels client dirs b s).2
  unfolding remove_levels
  remove_levels-Charges [] b s = (refl, omega arith, λ p q. omega arith)
  remove_levels-Charges (dir ∷ dirs) b s =
      let r = remove_charged client dir b s in
      Charges-add r.2 (remove_levels client dirs r.1 r.0).2 (remove_charged-Charges dir b s)
        (remove_levels-Charges dirs r.1 r.0)

  -- removeRemoteDirs against a budget leaves its limit, adds to what is spent exactly the directories
  -- that it removed, and where the budget has a limit and kept it before, keeps it.
  pub remove_remote_dirs-Charges :
      (dirs : List Bytes) (b : DeleteBudget) (s : S)
      → Charges b
          (remove_remote_dirs client false dirs b s).1
          (remove_remote_dirs client false dirs b s).2
  unfolding remove_remote_dirs
  remove_remote_dirs-Charges [] b s = (refl, omega arith, λ p q. omega arith)
  remove_remote_dirs-Charges (dir ∷ dirs) b s =
      remove_levels-Charges (levels (suc (deepest (dir ∷ dirs))) (dir ∷ dirs)) b s

-- A list of directories in which no directory stands before a deeper one.
abbrev pub DeepestFirst : List Bytes → Type 0
DeepestFirst [] = Unit
DeepestFirst (dir ∷ dirs) = All (λ d. depth d ≤ depth dir) dirs × DeepestFirst dirs

DeepestFirst-append :
    (n : ℕ) (xs ys : List Bytes)
    → All (λ d. depth d ≡ n) xs
    → All (λ d. depth d ≤ n) ys
    → DeepestFirst ys
    → DeepestFirst (xs ++ ys)
DeepestFirst-append n [] ys hx hy h = h
DeepestFirst-append n (x ∷ xs) ys hx hy h = (
  All-append (λ d. depth d ≤ depth x) xs ys
      (All-map (λ d. depth d ≡ n) (λ d. depth d ≤ depth x) (λ d e. omega (arith, e, hx.0)) xs hx.1)
      (All-map (λ d. depth d ≤ n) (λ d. depth d ≤ depth x) (λ d e. omega (arith, e, hx.0)) ys hy),
  DeepestFirst-append n xs ys hx.1 hy h,
)

at_depth-All : (n : ℕ) (dirs : List Bytes) → All (λ d. depth d ≡ n) (at_depth n dirs)
at_depth-All n [] = tt
at_depth-All n (dir ∷ dirs) = elim (Bool-cases (depth dir == n)) [
  | inl same ↦ rw same ((==_iff (depth dir) n).0 same, at_depth-All n dirs)
  | inr other ↦ rw other (at_depth-All n dirs)
]

levels-All : (n : ℕ) (dirs : List Bytes) → All (λ d. depth d < n) (levels n dirs)
levels-All zero dirs = tt
levels-All (suc n) dirs =
    All-append (λ d. depth d < suc n) (at_depth n dirs) (levels n dirs)
      (All-map (λ d. depth d ≡ n) (λ d. depth d < suc n) (λ d e. omega (arith, e)) (at_depth n dirs)
        (at_depth-All n dirs))
      (All-map (λ d. depth d < n) (λ d. depth d < suc n) (λ d e. omega (arith, e)) (levels n dirs)
        (levels-All n dirs))

levels-DeepestFirst : (n : ℕ) (dirs : List Bytes) → DeepestFirst (levels n dirs)
levels-DeepestFirst zero dirs = tt
levels-DeepestFirst (suc n) dirs =
    DeepestFirst-append n (at_depth n dirs) (levels n dirs) (at_depth-All n dirs)
      (All-map (λ d. depth d < n) (λ d. depth d ≤ n) (λ d e. omega (arith, e)) (levels n dirs)
        (levels-All n dirs))
      (levels-DeepestFirst n dirs)

contains-append :
    (xs ys : List Bytes) (k : Bytes) → contains (xs ++ ys) k ≡ (contains xs k || contains ys k)
contains-append [] ys k = refl
contains-append (x ∷ xs) ys k = ground (arith, contains-append xs ys k)

at_depth-contains :
    (n : ℕ) (dirs : List Bytes) (k : Bytes)
    → contains (at_depth n dirs) k ≡ (contains dirs k && depth k == n)
at_depth-contains n [] k = refl
at_depth-contains n (dir ∷ dirs) k = ground (
  arith,
  at_depth-contains n dirs k,
  λ (e : eq_bytes dir k ≡ true). ap depth (eq_bytes_sound dir k e),
)

levels-contains :
    (n : ℕ) (dirs : List Bytes) (k : Bytes)
    → contains (levels n dirs) k ≡ (contains dirs k && ltb (depth k) n)
levels-contains zero dirs k = ground arith
levels-contains (suc n) dirs k =
    contains-append (at_depth n dirs) (levels n dirs) k
    ∙ ground (arith, at_depth-contains n dirs k, levels-contains n dirs k)

deepest-le : (dirs : List Bytes) (k : Bytes) → contains dirs k ≡ true → depth k ≤ deepest dirs
deepest-le [] k h = cc
deepest-le (dir ∷ dirs) k h =
    ground (
      arith,
      deepest-le dirs k,
      h,
      λ (e : eq_bytes dir k ≡ true). ap depth (eq_bytes_sound dir k e),
    )

-- The order in which removeRemoteDirs takes directories has no directory before a deeper one, and
-- holds the same directories as the list.
pub levels_order :
    (dirs : List Bytes)
    → DeepestFirst (levels (suc (deepest dirs)) dirs)
      × ((k : Bytes) → contains (levels (suc (deepest dirs)) dirs) k ≡ contains dirs k)
levels_order dirs = (
  levels-DeepestFirst (suc (deepest dirs)) dirs,
  λ k. levels-contains (suc (deepest dirs)) dirs k ∙ ground (arith, deepest-le dirs k),
)

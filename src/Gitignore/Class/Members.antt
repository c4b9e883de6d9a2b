-- ===== src/Gitignore/Class/Members.antt =====
-- A class is a set of byte ranges, and `splitClass` takes the pattern apart without loss.
use easy_sftp.Prelude.{
  ℕ, ◌==◌, ◌≤◌, ◌≡◌, refl, ap, leb, ◌||◌, ◌&&◌, Bool, true, false, Bytes, List, [], ◌∷◌, ◌++◌,
  Option, none, some, length, inl, inr, arith, Bool-cases,
}
use easy_sftp.Gitignore.Class.{bs, in_front, scan_class, split_class, class_contains}

abbrev pub Range : Type 0
Range = ℕ × ℕ

-- The ranges that the inside of a class lists: an escaped byte, a range `x-z`, or a byte.
unfoldable pub ranges : Bytes → List Range
ranges [] = []
ranges (x ∷ []) = (x, x) ∷ []
ranges (x ∷ y ∷ []) = elim (x == bs) [ true ↦ (y, y) ∷ [] | false ↦ (x, x) ∷ ranges (y ∷ []) ]
ranges (x ∷ y ∷ z ∷ t) = elim (x == bs) [
  | true ↦ (y, y) ∷ ranges (z ∷ t)
  | false ↦ elim (y == b'-') [ true ↦ (x, z) ∷ ranges t | false ↦ (x, x) ∷ ranges (y ∷ z ∷ t) ]
]

abbrev pub in_range : ℕ → Range → Bool
in_range c (lo, hi) = leb lo c && leb c hi

abbrev pub in_ranges : ℕ → List Range → Bool
in_ranges c [] = false
in_ranges c (r ∷ rs) = in_range c r || in_ranges c rs

eq_range : (x c : ℕ) → (x == c) ≡ in_range c (x, x)
eq_range x c = ground arith

-- classContains accepts exactly the bytes in the ranges that the class's text is read as: an escaped
-- byte and a single byte are ranges of one.
pub class_contains-ranges : (cls : Bytes) (c : ℕ) → class_contains cls c ≡ in_ranges c (ranges cls)
unfolding class_contains ranges
class_contains-ranges [] c = refl
class_contains-ranges (x ∷ []) c = ground arith
class_contains-ranges (x ∷ y ∷ []) c = elim (Bool-cases (x == bs)) [
  | inl esc ↦ rw (esc, class_contains, ranges) (ground arith)
  | inr plain ↦ rw (plain, class_contains, ranges) (ground arith)
]
class_contains-ranges (x ∷ y ∷ z ∷ t) c = elim (Bool-cases (x == bs)) [
  | inl esc ↦ rw (esc, class_contains, ranges) (ground (arith, class_contains-ranges (z ∷ t) c))
  | inr plain ↦ elim (Bool-cases (y == b'-')) [
    | inl dash ↦
        rw (plain, dash, class_contains, ranges) (ground (arith, class_contains-ranges t c))
    | inr single ↦
        rw (plain, single, class_contains, ranges)
          (ground (arith, class_contains-ranges (y ∷ z ∷ t) c))
  ]
]

-- A class and its bracket are taken off the front: nothing is lost, and what is left is shorter.
abbrev Taken : Bytes → Option (Bytes × Bytes) → Type 0
Taken t none = Unit
Taken t (some (body, rest)) = t ≡ body ++ b']' ∷ rest

in_front-Taken :
    (s t : Bytes) (o : Option (Bytes × Bytes))
    → length s ≤ 2
    → Taken t o
    → Taken (s ++ t) (in_front s o)
in_front-Taken s t none h k = tt
in_front-Taken [] t (some (body, rest)) h k = k
in_front-Taken (c ∷ []) t (some (body, rest)) h k = ap (◌∷◌ c) k
in_front-Taken (c ∷ d ∷ []) t (some (body, rest)) h k = ap (λ x. c ∷ d ∷ x) k
in_front-Taken (c ∷ d ∷ e ∷ s) t (some (body, rest)) h k = absurd (omega arith)

scan_class-Taken : (t : Bytes) → Taken t (scan_class t)
unfolding scan_class
scan_class-Taken [] = tt
scan_class-Taken (c ∷ []) = elim (Bool-cases (c == bs)) [
  | inl esc ↦ rw esc tt
  | inr plain ↦ elim (Bool-cases (c == b']')) [
    | inl close ↦ rw (plain, close) (ground arith)
    | inr other ↦ rw (plain, other) tt
  ]
]
scan_class-Taken (c ∷ d ∷ t) = elim (Bool-cases (c == bs)) [
  | inl esc ↦
      rw (esc, scan_class, Taken)
        (in_front-Taken (c ∷ d ∷ []) t (scan_class t) (omega arith) (scan_class-Taken t))
  | inr plain ↦ elim (Bool-cases (c == b']')) [
    | inl close ↦ rw (plain, close, scan_class, Taken) (ground arith)
    | inr other ↦
        rw (plain, other, scan_class, Taken)
          (in_front-Taken (c ∷ []) (d ∷ t) (scan_class (d ∷ t)) (omega arith)
            (scan_class-Taken (d ∷ t)))
  ]
]

split_class-Taken : (t : Bytes) → Taken t (split_class t)
unfolding split_class
split_class-Taken [] = tt
split_class-Taken (c ∷ t) = elim (Bool-cases (c == b']')) [
  | inl member ↦
      rw member (in_front-Taken (c ∷ []) t (scan_class t) (omega arith) (scan_class-Taken t))
  | inr other ↦ rw other (scan_class-Taken (c ∷ t))
]

-- The class, its closing bracket and the rest make up the pattern.
pub split_class-parts :
    (t body rest : Bytes) → split_class t ≡ some (body, rest) → t ≡ body ++ b']' ∷ rest
split_class-parts t body rest e = rw e at (split_class-Taken t)

-- ===== src/Sync/Store.antt =====
-- Go maps keyed by strings, as association lists in which a key stands once.
use easy_sftp.Prelude.{
  ◌≡◌, refl, ap, ◌∙◌, not, Bool, false, if◌then◌else◌, Bytes, List, [], ◌∷◌, ◌++◌, Option, none,
  some, eq_bytes, eq_bytes_iff, arith, ◌||◌, ◌&&◌,
}
use easy_sftp.Strings.{insert_string, sort_strings}
use easy_sftp.Remote.Dirs.{contains}

abbrev pub Map : Type 0 → Type 0
Map V = List (Bytes × V)

module _ {V : Type 0} where
  -- m[k], with none for a key that is not there
  abbrev pub lookup : Map V → Bytes → Option V
  lookup [] k = none
  lookup (x ∷ m) k = if eq_bytes x.0 k then some x.1 else lookup m k

  -- _, ok := m[k]
  abbrev pub is_key : Map V → Bytes → Bool
  is_key [] k = false
  is_key (x ∷ m) k = eq_bytes x.0 k || is_key m k

  -- delete(m, k)
  abbrev pub remove : Map V → Bytes → Map V
  remove [] k = []
  remove (x ∷ m) k = let rest = remove m k in if eq_bytes x.0 k then rest else x ∷ rest

  -- m[k] = v
  abbrev pub put : Map V → Bytes → V → Map V
  put m k v = (k, v) ∷ remove m k

  abbrev pub remove_all : Map V → List Bytes → Map V
  remove_all m [] = m
  remove_all m (k ∷ ks) = remove_all (remove m k) ks

  pub lookup-remove :
      (m : Map V) (k j : Bytes)
      → lookup (remove m k) j ≡ (if eq_bytes k j then none else lookup m j)
  lookup-remove [] k j = ground arith
  lookup-remove (x ∷ m) k j = ground (
    arith,
    lookup-remove m k j,
    eq_bytes_iff x.0 k,
    eq_bytes_iff x.0 j,
    eq_bytes_iff k j,
    λ (e : x.0 ≡ k). ap (λ t. eq_bytes t j) e,
  )

  pub is_key-remove :
      (m : Map V) (k j : Bytes) → is_key (remove m k) j ≡ (not (eq_bytes k j) && is_key m j)
  is_key-remove [] k j = ground arith
  is_key-remove (x ∷ m) k j = ground (
    arith,
    is_key-remove m k j,
    eq_bytes_iff x.0 k,
    eq_bytes_iff x.0 j,
    eq_bytes_iff k j,
    λ (e : x.0 ≡ k). ap (λ t. eq_bytes t j) e,
  )

  pub lookup-put :
      (m : Map V) (k j : Bytes) (v : V)
      → lookup (put m k v) j ≡ (if eq_bytes k j then some v else lookup m j)
  lookup-put m k j v = ground (arith, lookup-remove m k j)

  pub lookup-remove_all :
      (m : Map V) (ks : List Bytes) (j : Bytes)
      → lookup (remove_all m ks) j ≡ (if contains ks j then none else lookup m j)
  lookup-remove_all m [] j = refl
  lookup-remove_all m (k ∷ ks) j =
      ground (arith, lookup-remove_all (remove m k) ks j, lookup-remove m k j)

contains-insert_string :
    (s : Bytes) (ts : List Bytes) (k : Bytes)
    → contains (insert_string s ts) k ≡ (eq_bytes s k || contains ts k)
unfolding insert_string
contains-insert_string s [] k = refl
contains-insert_string s (t ∷ ts) k = ground (arith, contains-insert_string s ts k)

pub contains-sort_strings :
    (ts : List Bytes) (k : Bytes) → contains (sort_strings ts) k ≡ contains ts k
unfolding sort_strings
contains-sort_strings [] k = refl
contains-sort_strings (t ∷ ts) k =
    contains-insert_string t (sort_strings ts) k
    ∙ ap (λ b. eq_bytes t k || b) (contains-sort_strings ts k)

pub contains-append :
    (xs ys : List Bytes) (k : Bytes) → contains (xs ++ ys) k ≡ (contains xs k || contains ys k)
contains-append [] ys k = refl
contains-append (x ∷ xs) ys k = ground (arith, contains-append xs ys k)

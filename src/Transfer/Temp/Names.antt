-- ===== src/Transfer/Temp/Names.antt =====
-- What the names of temporary files are, and that the sweep knows every one of them.
use easy_sftp.Prelude.{
  take-length-append, length-append, ap₂, subst, ℕ, zero, suc, ◌+◌, ◌==◌, ◌≡◌, ◌≢◌, ◌↔◌, ◌⊎◌, inl,
  inr, refl, sym, ap, ◌∙◌, true, [], ◌∷◌, ◌++◌, append_assoc, Bytes, codes, eq_bytes,
  eq_bytes_sound, none, some, Option-cases, Bool-cases, length, take, drop, All, arith, &&_iff,
  drop-length-append,
}
use easy_sftp.Strings.{
  last_index, last_index-append, last_index_split, last_index-none, is_digit, AllDigits, decimal,
  decimal-AllDigits, decimal-cons, value_from, value-decimal,
}
use easy_sftp.Transfer.Temp.{
  tmp_suffix, bak_suffix, upload_temp_path, all_digits, is_temp_rest, is_temp_file_name,
}

-- What may follow the suffix in a temporary name: nothing, the mark of a backup, or a number.
abbrev pub IsTempRest : Bytes → Type 0
IsTempRest rest =
    (rest ≡ [])
    ⊎ (rest ≡ codes ".bak")
    ⊎ ((d : ℕ) × (ds : Bytes) × (rest ≡ b'.' ∷ d ∷ ds) × AllDigits (d ∷ ds))

abbrev pub IsTempName : Bytes → Type 0
IsTempName name =
    (base : Bytes) × (rest : Bytes) × (base ≢ [])
    × (name ≡ base ++ (tmp_suffix ++ rest))
    × IsTempRest rest

all_digits_iff : (s : Bytes) → (all_digits s ≡ true) ↔ AllDigits s
all_digits_iff [] = (λ h. tt, λ h. refl)
all_digits_iff (c ∷ s) = (
  λ h. let both = (&&_iff (is_digit c) (all_digits s)).0 h in (both.0, (all_digits_iff s).0 both.1),
  λ h. (&&_iff (is_digit c) (all_digits s)).1 (h.0, (all_digits_iff s).1 h.1),
)

is_temp_rest-IsTempRest : (rest : Bytes) → is_temp_rest rest ≡ true → IsTempRest rest
is_temp_rest-IsTempRest [] h = inl refl
is_temp_rest-IsTempRest (c ∷ []) h = cc
is_temp_rest-IsTempRest (c ∷ d ∷ s) h = elim (Bool-cases (eq_bytes (c ∷ d ∷ s) (codes ".bak"))) [
  | inl backup ↦ inr (inl (eq_bytes_sound (c ∷ d ∷ s) (codes ".bak") backup))
  | inr other ↦ elim (Bool-cases (c == b'.')) [
    | inl dot ↦
        let e : c ≡ b'.' = ground arith in
        inr (inr (d, s, ap (λ (b : ℕ). b ∷ d ∷ s) e, (all_digits_iff (d ∷ s)).0 (ground arith)))
    | inr byte ↦ absurd (ground arith)
  ]
]

number-is_temp_rest :
    (d : ℕ) (ds : Bytes) → AllDigits (d ∷ ds) → is_temp_rest (b'.' ∷ d ∷ ds) ≡ true
number-is_temp_rest d ds h = elim (Bool-cases (eq_bytes (b'.' ∷ d ∷ ds) (codes ".bak"))) [
  | inl backup ↦ rw backup refl
  | inr other ↦ rw other ((all_digits_iff (d ∷ ds)).1 h)
]

IsTempRest-is_temp_rest : (rest : Bytes) → IsTempRest rest → is_temp_rest rest ≡ true
IsTempRest-is_temp_rest rest (inl e) = rw e refl
IsTempRest-is_temp_rest rest (inr (inl e)) = rw e refl
IsTempRest-is_temp_rest rest (inr (inr (d, ds, e, h))) = rw e (number-is_temp_rest d ds h)

AllDigits-NoDot : (s : Bytes) → AllDigits s → All (λ c. c ≢ b'.') s
AllDigits-NoDot [] h = tt
AllDigits-NoDot (c ∷ s) h = (λ e. let digit = h.0 in ground arith, AllDigits-NoDot s h.1)

after_dot : (d : ℕ) (ds : Bytes) → AllDigits (d ∷ ds) → last_index (b'.' ∷ d ∷ ds) tmp_suffix ≡ none
unfolding last_index
after_dot d ds h =
    rw
      (
        last_index-none (d ∷ ds) b'.' (codes "easysftp-tmp") (AllDigits-NoDot (d ∷ ds) h),
        last_index,
      )
      (let digit = h.0 in ground arith)

-- The suffix does not begin again in what follows it.
rest_none : (rest : Bytes) → IsTempRest rest → last_index rest tmp_suffix ≡ none
unfolding last_index
rest_none rest (inl e) = rw e refl
rest_none rest (inr (inl e)) = rw e refl
rest_none rest (inr (inr (d, ds, e, h))) = rw e (after_dot d ds h)

suffix_first :
    (rest : Bytes)
    → last_index rest tmp_suffix ≡ none
    → last_index (tmp_suffix ++ rest) tmp_suffix ≡ some 0
unfolding last_index
suffix_first rest h = rw (h, last_index) refl

-- The last place of the suffix is behind the base.
pub last_index-temp :
    (base rest : Bytes)
    → IsTempRest rest
    → last_index (base ++ (tmp_suffix ++ rest)) tmp_suffix ≡ some (length base + 0)
last_index-temp base rest h =
    last_index-append base (tmp_suffix ++ rest) tmp_suffix (suffix_first rest (rest_none rest h))

pub drop-temp :
    (base rest : Bytes) (n : ℕ)
    → drop (length base + (length tmp_suffix + n)) (base ++ (tmp_suffix ++ rest)) ≡ drop n rest
drop-temp base rest n =
    drop-length-append base (tmp_suffix ++ rest) (length tmp_suffix + n)
    ∙ drop-length-append tmp_suffix rest n

temp-is_temp_file_name :
    (c : ℕ) (base rest : Bytes)
    → IsTempRest rest
    → is_temp_file_name ((c ∷ base) ++ (tmp_suffix ++ rest)) ≡ true
unfolding is_temp_file_name
temp-is_temp_file_name c base rest h =
    let i : suc (length base) + 0 ≡ suc (length base) = omega arith in
    let found : last_index ((c ∷ base) ++ (tmp_suffix ++ rest)) tmp_suffix
        ≡ some (suc (length base)) =
      last_index-temp (c ∷ base) rest h ∙ ap some i in
    let tail : drop (suc (length base) + length tmp_suffix) ((c ∷ base) ++ (tmp_suffix ++ rest))
        ≡ rest =
      drop-temp (c ∷ base) rest 0 in
    rw (found, is_temp_file_name) (rw tail (IsTempRest-is_temp_rest rest h))

begins : {i : ℕ} (name : Bytes) → last_index name tmp_suffix ≡ some (suc i) → take (suc i) name ≢ []
unfolding last_index
begins [] h = absurd (ground (arith, h))
begins (c ∷ name) h = λ e. cc

is_temp_file_name-split : (name : Bytes) → is_temp_file_name name ≡ true → IsTempName name
unfolding is_temp_file_name
is_temp_file_name-split name h = elim (Option-cases (last_index name tmp_suffix)) [
  | inl missing ↦ absurd (ground (arith, missing))
  | inr (zero, front) ↦ absurd (ground (arith, front))
  | inr (suc i, found) ↦
      let rest = drop (suc i + length tmp_suffix) name in
      let parts = last_index_split name tmp_suffix (suc i) found in
      let tail : is_temp_rest rest ≡ true = (rw (found, is_temp_file_name) at h) in
      (take (suc i) name, rest, begins name found, parts, is_temp_rest-IsTempRest rest tail)
]

-- isTempFileName accepts exactly the names that are a name that is not empty, the temporary suffix,
-- and then nothing, the mark of a backup, or a dot and a number.
pub is_temp_file_name_iff : (name : Bytes) → (is_temp_file_name name ≡ true) ↔ IsTempName name
is_temp_file_name_iff name = (is_temp_file_name-split name, from name)
  where
    from : (name : Bytes) → IsTempName name → is_temp_file_name name ≡ true
    from name ([], rest, ne, e, h) = absurd (ne refl)
    from name (c ∷ base, rest, ne, e, h) = rw e (temp-is_temp_file_name c base rest h)

number-IsTempRest : (n : ℕ) → IsTempRest (b'.' ∷ decimal n)
number-IsTempRest n =
    let (d, ds, e) = decimal-cons n in
    inr (inr (d, ds, ap (◌∷◌ b'.') e, subst AllDigits e (decimal-AllDigits n)))

pub upload_temp_path-IsTempName :
    (dir name : Bytes) (index : ℕ)
    → name ≢ []
    → (upload_temp_path (dir ++ b'/' ∷ name) index ≡ dir ++ b'/' ∷ upload_temp_path name index)
      × (is_temp_file_name (upload_temp_path name index) ≡ true)
      × (is_temp_file_name (name ++ bak_suffix) ≡ true)
unfolding upload_temp_path
upload_temp_path-IsTempName dir name index h = (
  append_assoc dir (b'/' ∷ name) (tmp_suffix ++ b'.' ∷ decimal index),
  (is_temp_file_name_iff _).1 (name, b'.' ∷ decimal index, h, refl, number-IsTempRest index),
  (is_temp_file_name_iff _).1 (name, codes ".bak", h, refl, inr (inl refl)),
)

temp_length :
    (p q : Bytes) (i j : ℕ) → upload_temp_path p i ≡ upload_temp_path q j → length p ≡ length q
unfolding upload_temp_path
temp_length p q i j e =
    let a = last_index-temp p (b'.' ∷ decimal i) (number-IsTempRest i) in
    let b = last_index-temp q (b'.' ∷ decimal j) (number-IsTempRest j) in
    let both : some (length p + 0) ≡ some (length q + 0) =
      sym a ∙ ap (λ (s : Bytes). last_index s tmp_suffix) e ∙ b in
    ground arith

number_of :
    (p : Bytes) (i : ℕ)
    → value_from 0 (drop (length p + (length tmp_suffix + 1)) (upload_temp_path p i)) ≡ i
unfolding upload_temp_path
number_of p i = ap (value_from 0) (drop-temp p (b'.' ∷ decimal i) 1) ∙ value-decimal i

-- Two uploads with the same temporary path have the same remote path and the same index.
pub upload_temp_path-injective :
    (p q : Bytes) (i j : ℕ) → upload_temp_path p i ≡ upload_temp_path q j → (p ≡ q) × (i ≡ j)
unfolding upload_temp_path
upload_temp_path-injective p q i j e =
    let same = temp_length p q i j e in
    let front : p ≡ q =
      sym (take-length-append p (tmp_suffix ++ b'.' ∷ decimal i))
      ∙ ap₂ take same e
      ∙ take-length-append q (tmp_suffix ++ b'.' ∷ decimal j) in
    let tail : i ≡ j =
      sym (number_of p i)
      ∙ ap₂ (λ (n : ℕ) (s : Bytes). value_from 0 (drop (n + (length tmp_suffix + 1)) s)) same e
      ∙ number_of q j in
    (front, tail)

-- A backup is not a temporary file of an upload.
pub upload_temp_path-ne-backup : (p q : Bytes) (i : ℕ) → p ++ bak_suffix ≢ upload_temp_path q i
unfolding upload_temp_path
upload_temp_path-ne-backup p q i e =
    let a = last_index-temp p (codes ".bak") (inr (inl refl)) in
    let b = last_index-temp q (b'.' ∷ decimal i) (number-IsTempRest i) in
    let both : some (length p + 0) ≡ some (length q + 0) =
      sym a ∙ ap (λ (s : Bytes). last_index s tmp_suffix) e ∙ b in
    let same : length p ≡ length q = ground arith in
    let tails : drop 1 (codes ".bak") ≡ drop 1 (b'.' ∷ decimal i) =
      sym (drop-temp p (codes ".bak") 1)
      ∙ ap₂ (λ (n : ℕ) (s : Bytes). drop (n + (length tmp_suffix + 1)) s) same e
      ∙ drop-temp q (b'.' ∷ decimal i) 1 in
    let digits : AllDigits (codes "bak") = subst AllDigits (sym tails) (decimal-AllDigits i) in
    cc digits.0

longer-ne : (p q : Bytes) → length q ≢ 0 → p ≢ p ++ q
longer-ne p q h e = h (omega (arith, ap length e, length-append p q))

pub append-backup-ne : (p : Bytes) → p ≢ p ++ bak_suffix
append-backup-ne p = longer-ne p bak_suffix (λ n. omega (arith, n))

pub upload_temp_path-ne_self : (p : Bytes) (i : ℕ) → p ≢ upload_temp_path p i
unfolding upload_temp_path
upload_temp_path-ne_self p i = longer-ne p (tmp_suffix ++ b'.' ∷ decimal i) (λ n. omega (arith, n))

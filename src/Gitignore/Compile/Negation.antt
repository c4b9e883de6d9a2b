-- ===== src/Gitignore/Compile/Negation.antt =====
-- Without a line that begins with `!` no pattern is a re-include: the test that allows the planner to
-- prune is made on the lines, the patterns are parsed from what trimming leaves of them.
use mathlib.Core.List.{reverse-reverse}
use easy_sftp.Prelude.{
  ℕ, suc, ◌%◌, ◌==◌, ◌≡◌, refl, sym, ap, ◌∙◌, Bool, true, false, Bytes, List, [], ◌∷◌, ◌++◌, Option,
  none, some, arith, inl, inr, Bool-cases, subst, reverse, reverse-append, eq_bytes, codes, Result,
  ok, >>=-eq-ok, false≢true,
}
use easy_sftp.Strings.{has_prefix, trim_right}
use easy_sftp.Gitignore.Matcher.{GitignorePattern, GitignoreMatcher}
use easy_sftp.Gitignore.Matcher.Plain.{NoNegation}
use easy_sftp.Gitignore.Compile.{
  has_negation, backslashes, trim_spaces, trim_right_unescaped_space, SyntaxError, parse_segments,
  is_negated, strip_prefix, parse_body, parse_trimmed, parse_line, add_pattern, compile_from,
  compile_gitignore, strip_end, strip_root,
}

-- `part` begins `whole`.
abbrev Begins : Bytes → Bytes → Type 0
Begins part whole = (rest : Bytes) × (whole ≡ part ++ rest)

trim_right-Begins : (s : Bytes) (c : ℕ) → Begins (trim_right s c) s
trim_right-Begins [] c = ([], refl)
trim_right-Begins (x ∷ s) c = go (trim_right s c) refl (trim_right-Begins s c)
  where
    go : (t : Bytes) → trim_right s c ≡ t → Begins t s → Begins (trim_right (x ∷ s) c) (x ∷ s)
    go [] e (rest, h) = elim (Bool-cases (x == c)) [
      | inl cut ↦ (x ∷ s, rw (e, cut))
      | inr keep ↦ (s, rw (e, keep))
    ]
    go (y ∷ t) e (rest, h) = (rest, rw (e) (ap (◌∷◌ x) h))

trim_spaces-suffix : (s : Bytes) → (cut : Bytes) × (s ≡ cut ++ trim_spaces s)
unfolding trim_spaces
trim_spaces-suffix [] = ([], refl)
trim_spaces-suffix (c ∷ s) = elim (Bool-cases (c == b' ')) [
  | inr other ↦ ([], rw other)
  | inl space ↦ elim (Bool-cases (backslashes s % 2 == 1)) [
    | inl escaped ↦ ([], rw (space, escaped))
    | inr trimmed ↦
        let (cut, e) = trim_spaces-suffix s in (c ∷ cut, rw (space, trimmed) (ap (◌∷◌ c) e))
  ]
]

trim_right_unescaped_space-Begins : (s : Bytes) → Begins (trim_right_unescaped_space s) s
unfolding trim_right_unescaped_space
trim_right_unescaped_space-Begins s =
    let (cut, e) = trim_spaces-suffix (reverse s) in
    (
      reverse cut,
      sym (reverse-reverse s) ∙ ap reverse e ∙ reverse-append cut (trim_spaces (reverse s)),
    )

Begins-negated :
    (part whole : Bytes) → Begins part whole → is_negated part ≡ true → is_negated whole ≡ true
Begins-negated [] whole (rest, e) h = cc
Begins-negated (x ∷ part) whole (rest, e) h = rw e (starts x part rest h)
  where
    starts :
        (x : ℕ) (s rest : Bytes) → is_negated (x ∷ s) ≡ true → is_negated ((x ∷ s) ++ rest) ≡ true
    starts x [] rest h = go rest
      where
        go : (rest : Bytes) → is_negated (x ∷ rest) ≡ true
        go [] = h
        go (y ∷ rest) = ground arith
    starts x (y ∷ s) rest h = h

body_negate :
    (negate : Bool) (body : Bytes) (i : ℕ) (raw : Bytes) {p : GitignorePattern}
    → parse_body negate body i raw ≡ ok (some p)
    → p.negate ≡ negate
unfolding parse_body
body_negate negate body i raw h =
    let (segments, _, e) = >>=-eq-ok (parse_segments (strip_end (strip_root body)) i raw) _ h in
    cc e

trimmed_negate :
    (line : Bytes) (i : ℕ) (raw : Bytes) {p : GitignorePattern}
    → parse_trimmed line i raw ≡ ok (some p)
    → p.negate ≡ is_negated line
unfolding parse_trimmed
trimmed_negate line i raw h = elim (Bool-cases (eq_bytes line [])) [
  | inl blank ↦ cc (rw blank at h)
  | inr some_line ↦ elim (Bool-cases (eq_bytes (strip_prefix line) [])) [
    | inl bare ↦ cc (rw (some_line, bare) at h)
    | inr body ↦ body_negate (is_negated line) (strip_prefix line) i raw (rw (some_line, body) at h)
  ]
]

-- Trimming makes no line begin with `!`.
trimmed_not_negated :
    (raw : Bytes)
    → is_negated raw ≡ false
    → is_negated (trim_right_unescaped_space (trim_right raw b'\r')) ≡ false
trimmed_not_negated raw h =
    let inner = trim_right raw b'\r' in
    let line = trim_right_unescaped_space inner in
    elim (Bool-cases (is_negated line)) [
      | inr fine ↦ fine
      | inl bad ↦ absurd (
          false≢true (
            sym h
            ∙ Begins-negated inner raw (trim_right-Begins raw b'\r')
                (Begins-negated line inner (trim_right_unescaped_space-Begins inner) bad)))
    ]

line_negate :
    (i : ℕ) (raw : Bytes) {p : GitignorePattern}
    → is_negated raw ≡ false
    → parse_line i raw ≡ ok (some p)
    → p.negate ≡ false
unfolding parse_line
line_negate i raw plain h = elim (Bool-cases (has_prefix (trim_right raw b'\r') (codes "#"))) [
  | inl comment ↦ cc (rw comment at h)
  | inr line ↦
      trimmed_negate (trim_right_unescaped_space (trim_right raw b'\r')) i raw (rw line at h)
      ∙ trimmed_not_negated raw plain
]

add-NoNegation :
    (o : Option GitignorePattern) (m : GitignoreMatcher)
    → ((p : GitignorePattern) → o ≡ some p → p.negate ≡ false)
    → NoNegation m
    → NoNegation (add_pattern o m)
add-NoNegation none m h n = n
add-NoNegation (some p) m h n = (h p refl, n)

compile_from-NoNegation :
    (i : ℕ) (lines : List Bytes) {m : GitignoreMatcher}
    → has_negation lines ≡ false
    → compile_from i lines ≡ ok m
    → NoNegation m
unfolding compile_from
compile_from-NoNegation i [] {m} h e = subst NoNegation (of_ok e) tt
  where
    of_ok : Path (Result SyntaxError GitignoreMatcher) (ok []) (ok m) → [] ≡ m
    of_ok e = cc
compile_from-NoNegation i (raw ∷ lines) {m} h e =
    let (o, parsed, e') = >>=-eq-ok (parse_line i raw) _ e in
    let (rest, compiled, e'') = >>=-eq-ok (compile_from (suc i) lines) _ e' in
    subst NoNegation (of_ok (add_pattern o rest) e'') (
      add-NoNegation o rest (λ p at. line_negate i raw (ground arith) (parsed ∙ ap ok at))
        (compile_from-NoNegation (suc i) lines (ground arith) compiled))
  where
    of_ok :
        (x : GitignoreMatcher) → Path (Result SyntaxError GitignoreMatcher) (ok x) (ok m) → x ≡ m
    of_ok x e = cc

-- Where no line begins with an exclamation mark and the lines compile, no compiled pattern is a re-
-- include.
pub compile_gitignore-NoNegation :
    (lines : List Bytes) {m : GitignoreMatcher}
    → has_negation lines ≡ false
    → compile_gitignore lines ≡ ok m
    → NoNegation m
unfolding compile_gitignore
compile_gitignore-NoNegation lines h e = compile_from-NoNegation 1 lines h e

-- ===== src/Gitignore/Segment/Correct.antt =====
-- `matchSegment` decides what the pattern describes, within its fuel.
use easy_sftp.Prelude.{
  ℕ, zero, suc, ◌==◌, ◌≤◌, ◌≡◌, refl, sym, ap, ◌∙◌, ◌&&◌, Bool, true, false, Bytes, List, [], ◌∷◌,
  ◌++◌, some, arith, inl, inr, ◌↔◌, Bool-cases, eq_bytes, length, length-append, subst, &&_iff,
  ||_iff,
}
use easy_sftp.Gitignore.Class.{bs, split_class}
use easy_sftp.Gitignore.Class.Members.{split_class-parts}
use easy_sftp.Gitignore.Segment.{
  Match, is_empty, match_escape, match_one, match_run, in_class, match_bracket, match_literal,
  match_round, match_segment_here, has_meta, match_segment,
}
use easy_sftp.Gitignore.Segment.Glob.{
  Token, lit, one, run, class, takes, Describes, is_special, Reads, end, last_backslash, escape,
  question, asterisk, bracket, plain,
}

-- A truth value tells whether a statement holds.
abbrev pub Tells : Bool → Type 0 → Type 0
Tells b P = (b ≡ true) ↔ P

pub Tells-&& : {P : Type 0} (a b : Bool) → Tells b P → Tells (a && b) ((a ≡ true) × P)
Tells-&& a b h =
    (λ e. let (x, y) = (&&_iff a b).0 e in (x, h.0 y), λ (x, y). (&&_iff a b).1 (x, h.1 y))

module _ (next : Match) (p : Bytes) (ts : List Token) where
  run_sound :
      (s : Bytes)
      → ((t : Bytes) → Tells (next p t) (Describes ts t))
      → match_run next p s ≡ true
      → Describes (run ∷ ts) s
  unfolding match_run
  run_sound [] h e = ([], [], refl, (h []).0 e)
  run_sound (x ∷ s) h e = elim ((||_iff (next p (x ∷ s)) (match_run next p s)).0 e) [
    | inl here ↦ ([], x ∷ s, refl, (h (x ∷ s)).0 here)
    | inr later ↦
        let (before, after, same, d) = run_sound s h later in
        (x ∷ before, after, ap (◌∷◌ x) same, d)
  ]

  run_complete :
      (s before after : Bytes)
      → ((t : Bytes) → Tells (next p t) (Describes ts t))
      → s ≡ before ++ after
      → Describes ts after
      → match_run next p s ≡ true
  unfolding match_run
  run_complete [] [] after h e d = (h []).1 (subst (Describes ts) (sym e) d)
  run_complete [] (y ∷ before) after h e d = cc
  run_complete (x ∷ s) [] after h e d =
      (||_iff (next p (x ∷ s)) (match_run next p s)).1
        (inl ((h (x ∷ s)).1 (subst (Describes ts) (sym e) d)))
  run_complete (x ∷ s) (y ∷ before) after h e d =
      (||_iff (next p (x ∷ s)) (match_run next p s)).1
        (inr (run_complete s before after h (tail_eq e) d))
    where
      tail_eq : (x ∷ s) ≡ y ∷ (before ++ after) → s ≡ before ++ after
      tail_eq e = cc

  -- A run takes any front of the text.
  run-Tells :
      (s : Bytes)
      → ((t : Bytes) → Tells (next p t) (Describes ts t))
      → Tells (match_run next p s) (Describes (run ∷ ts) s)
  run-Tells s h = (run_sound s h, λ (before, after, e, d). run_complete s before after h e d)

  module _ (h : (t : Bytes) → Tells (next p t) (Describes ts t)) where
    one-Tells : (s : Bytes) → Tells (match_one next p s) (Describes (one ∷ ts) s)
    unfolding takes
    one-Tells [] = (λ e. cc, λ d. absurd d)
    one-Tells (x ∷ s) = (λ e. (refl, (h s).0 e), λ (_, d). (h s).1 d)

    literal-Tells :
        (c : ℕ) (s : Bytes) → Tells (match_literal next c p s) (Describes (lit c ∷ ts) s)
    unfolding takes
    literal-Tells c [] = (λ e. cc, λ d. absurd d)
    literal-Tells c (x ∷ s) = Tells-&& (x == c) (next p s) (h s)

    escape-Tells :
        (c : ℕ) (s : Bytes) → Tells (match_escape next (c ∷ p) s) (Describes (lit c ∷ ts) s)
    unfolding takes
    escape-Tells c [] = (λ e. cc, λ d. absurd d)
    escape-Tells c (x ∷ s) = Tells-&& (x == c) (next p s) (h s)

    class-Tells :
        (q body : Bytes) (s : Bytes)
        → Tells (match_bracket next q s (some (body, p))) (Describes (class body ∷ ts) s)
    unfolding takes
    class-Tells q body [] = (λ e. cc, λ d. absurd d)
    class-Tells q body (x ∷ s) = Tells-&& (in_class body x) (next p s) (h s)

last_backslash-Tells : (s : Bytes) → Tells (eq_bytes s (bs ∷ [])) (Describes (lit bs ∷ []) s)
unfolding takes
last_backslash-Tells [] = (λ e. cc, λ d. absurd d)
last_backslash-Tells (x ∷ []) = ground arith
last_backslash-Tells (x ∷ y ∷ s) = (λ e. ground arith, λ d. cc (d.1))

module _ (next : Match) (p s : Bytes) where
  round-escape : (c : ℕ) → c ≡ bs → match_round next c p s ≡ match_escape next p s
  unfolding match_round
  round-escape c e = rw e

  round-question : (c : ℕ) → c ≡ b'?' → match_round next c p s ≡ match_one next p s
  unfolding match_round
  round-question c e = rw e

  round-asterisk : (c : ℕ) → c ≡ b'*' → match_round next c p s ≡ match_run next p s
  unfolding match_round
  round-asterisk c e = rw e

  round-bracket :
      (c : ℕ) → c ≡ b'[' → match_round next c p s ≡ match_bracket next p s (split_class p)
  unfolding match_round
  round-bracket c e = rw e

  round-plain : (c : ℕ) → is_special c ≡ false → match_round next c p s ≡ match_literal next c p s
  unfolding match_round
  round-plain c e = ground arith

pub Tells-eq : {P : Type 0} (a b : Bool) → a ≡ b → Tells b P → Tells a P
Tells-eq {P} a b e h = subst (λ x. Tells x P) (sym e) h

-- What is left behind a class is shorter than the pattern.
bracket-shorter :
    (p body rest : Bytes) (f : ℕ)
    → split_class p ≡ some (body, rest)
    → suc (length p) ≤ suc f
    → length rest ≤ f
bracket-shorter p body rest f e h = omega (
  arith,
  ap (λ (x : Bytes). length x) (split_class-parts p body rest e),
  length-append {0} body (b']' ∷ rest),
)

empty-Tells : (s : Bytes) → Tells (is_empty s) (s ≡ [])
empty-Tells [] = (λ _. refl, λ _. refl)
empty-Tells (x ∷ s) = (λ e. cc, λ e. cc)

-- With fuel for the pattern's length, `matchSegmentHere` accepts exactly the texts that it describes.
pub match_segment_here-Describes :
    {pat : Bytes} {ts : List Token}
    → Reads pat ts
    → (f : ℕ) → length pat ≤ f
    → (s : Bytes) → (match_segment_here f pat s ≡ true) ↔ Describes ts s
unfolding match_segment_here
match_segment_here-Describes end f h s = empty-Tells s
match_segment_here-Describes (last_backslash c e) zero h s = absurd (omega arith)
match_segment_here-Describes (last_backslash c e) (suc f) h s =
    Tells-eq _ _ (round-escape (match_segment_here f) [] s c e) (last_backslash-Tells s)
match_segment_here-Describes (escape c d e r) zero h s = absurd (omega arith)
match_segment_here-Describes (escape c d {p} {ts} e r) (suc f) h s =
    Tells-eq _ _ (round-escape (match_segment_here f) (d ∷ p) s c e) (
      escape-Tells (match_segment_here f) p ts (match_segment_here-Describes r f (omega arith)) d s)
match_segment_here-Describes (question c e r) zero h s = absurd (omega arith)
match_segment_here-Describes (question c {p} {ts} e r) (suc f) h s =
    Tells-eq _ _ (round-question (match_segment_here f) p s c e)
      (one-Tells (match_segment_here f) p ts (match_segment_here-Describes r f (omega arith)) s)
match_segment_here-Describes (asterisk c e r) zero h s = absurd (omega arith)
match_segment_here-Describes (asterisk c {p} {ts} e r) (suc f) h s =
    Tells-eq _ _ (round-asterisk (match_segment_here f) p s c e)
      (run-Tells (match_segment_here f) p ts s (match_segment_here-Describes r f (omega arith)))
match_segment_here-Describes (bracket c e k r) zero h s = absurd (omega arith)
match_segment_here-Describes (bracket c {p} {body} {rest} {ts} e k r) (suc f) h s =
    Tells-eq _ _
      (round-bracket (match_segment_here f) p s c e
        ∙ ap (match_bracket (match_segment_here f) p s) k)
      (class-Tells (match_segment_here f) rest ts
        (match_segment_here-Describes r f (bracket-shorter p body rest f k h)) p body s)
match_segment_here-Describes (plain c e r) zero h s = absurd (omega arith)
match_segment_here-Describes (plain c {p} {ts} e r) (suc f) h s =
    Tells-eq _ _ (round-plain (match_segment_here f) p s c e) (
      literal-Tells (match_segment_here f) p ts (match_segment_here-Describes r f (omega arith)) c
        s)

-- Without a metacharacter the fast path compares texts, which is the same.
fast_path :
    {pat : Bytes} {ts : List Token}
    → Reads pat ts
    → has_meta pat ≡ false
    → (s : Bytes) → Tells (eq_bytes pat s) (Describes ts s)
unfolding takes
fast_path end m [] = (λ _. refl, λ _. refl)
fast_path end m (x ∷ s) = (λ e. cc, λ e. cc)
fast_path (last_backslash c e) m s = absurd (ground arith)
fast_path (escape c d e r) m s = absurd (ground arith)
fast_path (question c e r) m s = absurd (ground arith)
fast_path (asterisk c e r) m s = absurd (ground arith)
fast_path (bracket c e k r) m s = absurd (ground arith)
fast_path (plain c e r) m [] = (λ e. cc, λ d. absurd d)
fast_path (plain c {p} {ts} e r) m (x ∷ s) =
    Tells-eq _ _ (ground arith) (Tells-&& (x == c) (eq_bytes p s) (fast_path r (ground arith) s))

-- Where a pattern segment can be read as tokens (every class in it is closed), matchSegment accepts
-- exactly the texts that the tokens describe, by its fast path and by its loop.
pub match_segment-Describes :
    (pat : Bytes) (ts : List Token) (s : Bytes)
    → Reads pat ts
    → (match_segment pat s ≡ true) ↔ Describes ts s
unfolding match_segment
match_segment-Describes pat ts s r = elim (Bool-cases (has_meta pat)) [
  | inl meta ↦ rw meta (match_segment_here-Describes r (length pat) (omega arith) s)
  | inr literal ↦ rw literal (fast_path r literal s)
]

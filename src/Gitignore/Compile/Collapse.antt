-- ===== src/Gitignore/Compile/Collapse.antt =====
-- Making a run of `**` segments one changes nothing that the pattern names.
use easy_sftp.Prelude.{
  ◌≡◌, ◌≢◌, refl, sym, ap, ◌∙◌, Bool, true, false, Bytes, List, [], ◌∷◌, ◌++◌, inl, inr, ◌↔◌,
  Bool-cases, subst, eq_bytes, append_assoc,
}
use easy_sftp.Gitignore.Segments.{star_star, is_nil}
use easy_sftp.Gitignore.Segments.Meaning.{HeadNames, Names}
use easy_sftp.Gitignore.Compile.{collapse}

-- `**` before the rest, whatever the rest is.
abbrev Deep : List Bytes → List Bytes → Type 0
Deep rest segs = HeadNames true (is_nil rest) star_star (Names rest) segs

-- Two `**` in a row name what one names.
Deep-twice :
    (p : Bytes) (rest segs : List Bytes)
    → eq_bytes p star_star ≡ true
    → Deep (p ∷ rest) segs ↔ Deep rest segs
Deep-twice p [] segs e =
    rw e ((λ (before, after, same, d). nonempty before after same d), λ h. ([], segs, refl, h))
  where
    nonempty : (before after : List Bytes) → segs ≡ before ++ after → after ≢ [] → segs ≢ []
    nonempty [] after same d z = d (sym same ∙ z)
    nonempty (x ∷ before) after same d z = cc (sym same ∙ z)
Deep-twice p (q ∷ rest) segs e = rw e (
  (λ (before, after, same, (b, a, same', d)).
      (before ++ b, a, same ∙ ap (λ x. before ++ x) same' ∙ sym (append_assoc before b a), d)),
  λ (before, after, same, d). ([], segs, refl, (before, after, same, d)),
)

iff_trans : {A B C : Type 0} → A ↔ B → B ↔ C → A ↔ C
iff_trans f g = (λ a. g.0 (f.0 a), λ c. f.1 (g.1 c))

-- A segment that is not `**` passes an equivalence of the rests on.
named_head :
    (p : Bytes) (xs ys : List Bytes)
    → eq_bytes p star_star ≡ false
    → ((segs : List Bytes) → Names xs segs ↔ Names ys segs)
    → (segs : List Bytes) → Names (p ∷ xs) segs ↔ Names (p ∷ ys) segs
named_head p xs ys e h [] = rw e (λ d. d, λ d. d)
named_head p xs ys e h (s ∷ segs) = rw e (λ (m, d). (m, (h segs).0 d), λ (m, d). (m, (h segs).1 d))

Deep-cons :
    (p : Bytes) (xs ys segs : List Bytes)
    → ((after : List Bytes) → Names (p ∷ xs) after ↔ Names (p ∷ ys) after)
    → Deep (p ∷ xs) segs ↔ Deep (p ∷ ys) segs
Deep-cons p xs ys segs h = (
  λ (before, after, e, d). (before, after, e, (h after).0 d),
  λ (before, after, e, d). (before, after, e, (h after).1 d),
)

-- The text of a `**` segment does not matter.
Deep-head :
    (p : Bytes) (xs ys segs : List Bytes)
    → Deep xs segs ↔ Deep ys segs
    → HeadNames true (is_nil xs) p (Names xs) segs ↔ HeadNames true (is_nil ys) p (Names ys) segs
Deep-head p [] [] segs h = h
Deep-head p [] (y ∷ ys) segs h = h
Deep-head p (x ∷ xs) [] segs h = h
Deep-head p (x ∷ xs) (y ∷ ys) segs h = h

mutual
  unfolding collapse

  collapse-Deep : (pat segs : List Bytes) → Deep (collapse true pat) segs ↔ Deep pat segs
  collapse-Deep [] segs = (λ d. d, λ d. d)
  collapse-Deep (p ∷ pat) segs = elim (Bool-cases (eq_bytes p star_star)) [
    | inl star ↦
        let inner = collapse-Deep pat segs in
        let twice = Deep-twice p pat segs star in
        iff_trans (subst (λ l. Deep l segs ↔ Deep pat segs) (sym (dropped star)) inner)
          (twice.1, twice.0)
    | inr name ↦
        subst (λ l. Deep l segs ↔ Deep (p ∷ pat) segs) (sym (kept name))
          (Deep-cons p (collapse false pat) pat segs
            (named_head p (collapse false pat) pat name (collapse-Names pat)))
  ]
    where
      dropped : eq_bytes p star_star ≡ true → collapse true (p ∷ pat) ≡ collapse true pat
      dropped e = rw e

      kept : eq_bytes p star_star ≡ false → collapse true (p ∷ pat) ≡ p ∷ collapse false pat
      kept e = rw e

  collapse-Names : (pat segs : List Bytes) → Names (collapse false pat) segs ↔ Names pat segs
  collapse-Names [] segs = (λ d. d, λ d. d)
  collapse-Names (p ∷ pat) segs = elim (Bool-cases (eq_bytes p star_star)) [
    | inl star ↦
        subst (λ l. Names l segs ↔ Names (p ∷ pat) segs) (sym (kept true star))
          (rw star (Deep-head p (collapse true pat) pat segs (collapse-Deep pat segs)))
    | inr name ↦
        subst (λ l. Names l segs ↔ Names (p ∷ pat) segs) (sym (kept false name))
          (named_head p (collapse false pat) pat name (collapse-Names pat) segs)
  ]
    where
      kept : (b : Bool) → eq_bytes p star_star ≡ b → collapse false (p ∷ pat) ≡ p ∷ collapse b pat
      kept true e = rw e
      kept false e = rw e

-- Dropping a ** that follows another ** changes no path that the segments of a pattern name.
pub collapse_keeps_Names :
    (pat segs : List Bytes) → Names (collapse false pat) segs ↔ Names pat segs
collapse_keeps_Names pat segs = collapse-Names pat segs

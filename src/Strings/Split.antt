-- ===== src/Strings/Split.antt =====
-- strings.Split(s, "/") and strings.Join(parts, "/"), and that they undo one another.
use easy_sftp.Prelude.{
  ℕ, ◌==◌, ◌≡◌, refl, sym, ap, ◌∙◌, if◌then◌else◌, List, [], ◌∷◌, ◌++◌, Bytes, All, arith,
  Bool-cases, inl, inr, ◌≢◌, ==_iff,
}

-- Put a byte at the front of the first part.
abbrev pub onto_head : ℕ → List Bytes → List Bytes
onto_head c [] = (c ∷ []) ∷ []
onto_head c (part ∷ parts) = (c ∷ part) ∷ parts

unfoldable pub split : Bytes → List Bytes
split [] = [] ∷ []
split (c ∷ s) = if c == b'/' then [] ∷ split s else onto_head c (split s)

unfoldable pub join_parts : List Bytes → Bytes
join_parts [] = []
join_parts (part ∷ []) = part
join_parts (part ∷ next ∷ parts) = part ++ b'/' ∷ join_parts (next ∷ parts)

-- No byte of the text is a slash.
abbrev pub NoSlash : Bytes → Type 0
NoSlash = All (λ c. c ≢ b'/')

pub split-slash : (s : Bytes) → split (b'/' ∷ s) ≡ [] ∷ split s
unfolding split
split-slash s = refl

pub split-cons : (c : ℕ) (s : Bytes) → c ≢ b'/' → split (c ∷ s) ≡ onto_head c (split s)
unfolding split
split-cons c s h = ground arith

-- A text with no slash is one part.
pub split-NoSlash : (s : Bytes) → NoSlash s → split s ≡ s ∷ []
unfolding split
split-NoSlash [] h = refl
split-NoSlash (c ∷ s) h = ground (arith, split-NoSlash s h.1)

-- A slash after a text with none ends its first part.
pub split-append_slash : (s t : Bytes) → NoSlash s → split (s ++ b'/' ∷ t) ≡ s ∷ split t
split-append_slash [] t h = split-slash t
split-append_slash (c ∷ s) t h =
    split-cons c (s ++ b'/' ∷ t) h.0 ∙ ap (onto_head c) (split-append_slash s t h.1)

-- Splitting undoes joining.
pub split-join_parts :
    (part : Bytes) (parts : List Bytes)
    → NoSlash part
    → All NoSlash parts
    → split (join_parts (part ∷ parts)) ≡ part ∷ parts
unfolding join_parts
split-join_parts part [] h hs = split-NoSlash part h
split-join_parts part (next ∷ parts) h hs =
    split-append_slash part (join_parts (next ∷ parts)) h
    ∙ ap (◌∷◌ part) (split-join_parts next parts hs.0 hs.1)

onto_head-NoSlash :
    (c : ℕ) (parts : List Bytes) → c ≢ b'/' → All NoSlash parts → All NoSlash (onto_head c parts)
onto_head-NoSlash c [] h hs = ((h, tt), tt)
onto_head-NoSlash c (part ∷ parts) h hs = ((h, hs.0), hs.1)

-- No part holds a slash.
pub split-All-NoSlash : (s : Bytes) → All NoSlash (split s)
unfolding split
split-All-NoSlash [] = (tt, tt)
split-All-NoSlash (c ∷ s) = elim (Bool-cases (c == b'/')) [
  | inl slash ↦ rw slash (tt, split-All-NoSlash s)
  | inr other ↦ rw other (onto_head-NoSlash c (split s) (ground arith) (split-All-NoSlash s))
]

-- A text has at least one part.
pub split-ne_nil : (s : Bytes) → (part : Bytes) × (parts : List Bytes) × (split s ≡ part ∷ parts)
unfolding split
split-ne_nil [] = ([], [], refl)
split-ne_nil (c ∷ s) = elim (Bool-cases (c == b'/')) [
  | inl slash ↦ ([], split s, rw slash)
  | inr other ↦ let (part, parts, e) = split-ne_nil s in (c ∷ part, parts, rw (other, e))
]

join_parts-onto_head :
    (c : ℕ) (part : Bytes) (parts : List Bytes)
    → join_parts (onto_head c (part ∷ parts)) ≡ c ∷ join_parts (part ∷ parts)
unfolding join_parts
join_parts-onto_head c part [] = refl
join_parts-onto_head c part (next ∷ parts) = refl

join_parts-nil_cons :
    (part : Bytes) (parts : List Bytes)
    → join_parts ([] ∷ part ∷ parts) ≡ b'/' ∷ join_parts (part ∷ parts)
unfolding join_parts
join_parts-nil_cons part parts = refl

-- Joining undoes splitting.
pub join_parts-split : (s : Bytes) → join_parts (split s) ≡ s
unfolding split join_parts
join_parts-split [] = refl
join_parts-split (c ∷ s) =
    let (part, parts, e) = split-ne_nil s in
    elim (Bool-cases (c == b'/')) [
      | inl slash ↦
          rw (slash, e, join_parts-nil_cons part parts, ← e, join_parts-split s)
            (ap (λ x. x ∷ s) (sym ((==_iff c b'/').0 slash)))
      | inr other ↦ rw (other, e, join_parts-onto_head c part parts, ← e, join_parts-split s) refl
    ]

onto_head-append :
    (c : ℕ) (part : Bytes) (parts rest : List Bytes)
    → onto_head c ((part ∷ parts) ++ rest) ≡ onto_head c (part ∷ parts) ++ rest
onto_head-append c part parts rest = refl

-- A slash anywhere divides the parts before it from those after it.
pub split-append_sep : (a b : Bytes) → split (a ++ b'/' ∷ b) ≡ split a ++ split b
unfolding split
split-append_sep [] b = refl
split-append_sep (c ∷ a) b =
    let (part, parts, e) = split-ne_nil a in
    elim (Bool-cases (c == b'/')) [
      | inl slash ↦ rw (slash, split-append_sep a b)
      | inr other ↦ rw (other, split-append_sep a b, e)
    ]

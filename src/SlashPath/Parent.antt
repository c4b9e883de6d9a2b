-- ===== src/SlashPath/Parent.antt =====
-- path.Dir of a clean path: its location without the last name.
use easy_sftp.Prelude.{
  ℕ, zero, suc, ◌≡◌, ◌≢◌, refl, sym, ap, ◌∙◌, Bool, true, false, List, [], ◌∷◌, ◌++◌, reverse,
  Bytes, All, arith, append-nil, append_assoc, reverse-append, All-append_left, All-append_right,
  subst,
}
use easy_sftp.Strings.{split, join_parts, NoSlash}
use easy_sftp.SlashPath.Defs.{
  Loc, IsLoc, IsName, walk, locate, dot_dot, replicate, parts, render_parts, render, dir, dir_part,
}
use easy_sftp.SlashPath.Walk.{step-nil}
use easy_sftp.SlashPath.Render.{IsPart, parts-IsPart, locate-render, locate-append_sep}

-- The location of a path's directory: the last part is dropped.
abbrev pub drop_last : Bool → ℕ → List Bytes → Loc
drop_last r u (n ∷ ns) = record { rooted = r; ups = u; names = ns }
drop_last r (suc u) [] = record { rooted = r; ups = u; names = [] }
drop_last r zero [] = record { rooted = r; ups = 0; names = [] }

abbrev pub parent : Loc → Loc
parent l = drop_last l.rooted l.ups l.names

dir_part-plain : (s : Bytes) → NoSlash s → dir_part s ≡ []
dir_part-plain [] h = refl
dir_part-plain (c ∷ s) h = rw (dir_part-plain s h.1) (ground (arith, h.0))

dir_part-sep : (t s : Bytes) → NoSlash s → dir_part (t ++ b'/' ∷ s) ≡ t ++ b'/' ∷ []
dir_part-sep [] s h = rw (dir_part-plain s h)
dir_part-sep (c ∷ []) s h = rw (dir_part-sep [] s h)
dir_part-sep (c ∷ d ∷ t) s h = rw (dir_part-sep (d ∷ t) s h)

join_parts-snoc :
    (c : Bytes) (cs : List Bytes) (x : Bytes)
    → join_parts ((c ∷ cs) ++ x ∷ []) ≡ join_parts (c ∷ cs) ++ b'/' ∷ x
unfolding join_parts
join_parts-snoc c [] x = refl
join_parts-snoc c (d ∷ cs) x =
    ap (λ t. c ++ b'/' ∷ t) (join_parts-snoc d cs x)
    ∙ sym (append_assoc c (b'/' ∷ join_parts (d ∷ cs)) (b'/' ∷ x))

pub render_parts-snoc :
    (r : Bool) (c : Bytes) (cs : List Bytes) (x : Bytes)
    → render_parts r ((c ∷ cs) ++ x ∷ []) ≡ render_parts r (c ∷ cs) ++ b'/' ∷ x
render_parts-snoc true c cs x = ap (◌∷◌ b'/') (join_parts-snoc c cs x)
render_parts-snoc false c cs x = join_parts-snoc c cs x

render_parts-ne_nil :
    (r : Bool) (c : Bytes) (cs : List Bytes) → IsPart c → render_parts r (c ∷ cs) ≢ []
unfolding join_parts
render_parts-ne_nil true c cs h e = cc
render_parts-ne_nil false [] cs h e = h.1 refl
render_parts-ne_nil false (x ∷ c) [] h e = cc
render_parts-ne_nil false (x ∷ c) (d ∷ cs) h e = cc

locate-dir_part :
    (r : Bool) (cs : List Bytes) (x : Bytes)
    → All IsPart cs
    → IsPart x
    → locate (dir_part (render_parts r (cs ++ x ∷ []))) ≡ locate (render_parts r cs)
unfolding join_parts split walk locate
locate-dir_part true [] x hs h = ap locate (dir_part-sep [] x h.0)
locate-dir_part false [] x hs h = ap locate (dir_part-plain x h.0)
locate-dir_part r (c ∷ cs) x hs h =
    ap (λ t. locate (dir_part t)) (render_parts-snoc r c cs x)
    ∙ ap locate (dir_part-sep (render_parts r (c ∷ cs)) x h.0)
    ∙ locate-append_sep (render_parts r (c ∷ cs)) [] (render_parts-ne_nil r c cs hs.0)
    ∙ step-nil (locate (render_parts r (c ∷ cs)))

replicate-snoc : (u : ℕ) → replicate (suc u) dot_dot ≡ replicate u dot_dot ++ dot_dot ∷ []
replicate-snoc zero = refl
replicate-snoc (suc u) = ap (◌∷◌ dot_dot) (replicate-snoc u)

-- The last part of a location's path.
abbrev last_part : ℕ → List Bytes → Bytes
last_part u (n ∷ ns) = n
last_part u [] = dot_dot

parts-snoc :
    (r : Bool) (u : ℕ) (ns : List Bytes)
    → (u ≡ 0 → ns ≢ [])
    → replicate u dot_dot ++ reverse ns ≡ parts (drop_last r u ns) ++ last_part u ns ∷ []
parts-snoc r u (n ∷ ns) h =
    ap (λ t. replicate u dot_dot ++ t) (reverse-append (n ∷ []) ns)
    ∙ sym (append_assoc (replicate u dot_dot) (reverse ns) (n ∷ []))
parts-snoc r (suc u) [] h =
    append-nil (replicate (suc u) dot_dot)
    ∙ replicate-snoc u
    ∙ ap (λ t. t ++ dot_dot ∷ []) (sym (append-nil (replicate u dot_dot)))
parts-snoc r zero [] h = absurd (h refl refl)

parent-IsLoc :
    (r : Bool) (u : ℕ) (ns : List Bytes)
    → All IsName ns
    → (r ≡ true → u ≡ 0)
    → IsLoc (drop_last r u ns)
parent-IsLoc r u (n ∷ ns) h t = record { named = h.1; root_top = t }
parent-IsLoc r (suc u) [] h t = record { named = tt; root_top = λ e. absurd (omega (arith, t e)) }
parent-IsLoc r zero [] h t = record { named = tt; root_top = λ e. refl }

drop_last-rooted : (r : Bool) (u : ℕ) (ns : List Bytes) → (drop_last r u ns).rooted ≡ r
drop_last-rooted r u (n ∷ ns) = refl
drop_last-rooted r (suc u) [] = refl
drop_last-rooted r zero [] = refl

module _ (r : Bool) (u : ℕ) (ns : List Bytes) (h : All IsName ns) (t : r ≡ true → u ≡ 0)
    (some_part : u ≡ 0 → ns ≢ []) where
  abbrev before : List Bytes
  before = parts (drop_last r u ns)

  parts-IsPart_snoc : All IsPart (before ++ last_part u ns ∷ [])
  parts-IsPart_snoc = subst (All IsPart) (parts-snoc r u ns some_part) (
      parts-IsPart (record { rooted = r; ups = u; names = ns })
        (record { named = h; root_top = t }))

  dir-render_some :
      dir (render (record { rooted = r; ups = u; names = ns })) ≡ render (drop_last r u ns)
  unfolding dir render
  dir-render_some =
      ap (λ cs. render (locate (dir_part (render_parts r cs)))) (parts-snoc r u ns some_part)
      ∙ ap render (
          locate-dir_part r before (last_part u ns)
            (All-append_left IsPart before (last_part u ns ∷ []) parts-IsPart_snoc)
            (All-append_right IsPart before (last_part u ns ∷ []) parts-IsPart_snoc).0
          ∙ ap (λ b. locate (render_parts b before)) (sym (drop_last-rooted r u ns))
          ∙ locate-render (drop_last r u ns) (parent-IsLoc r u ns h t))

dir-render_fields :
    (r : Bool) (u : ℕ) (ns : List Bytes)
    → All IsName ns
    → (r ≡ true → u ≡ 0)
    → dir (render (record { rooted = r; ups = u; names = ns })) ≡ render (drop_last r u ns)
dir-render_fields r u (n ∷ ns) h t = dir-render_some r u (n ∷ ns) h t (λ _ e. cc)
dir-render_fields r (suc u) [] h t = dir-render_some r (suc u) [] h t (λ e. absurd (omega arith))
dir-render_fields true zero [] h t = unfold dir render locate split join_parts in refl
dir-render_fields false zero [] h t = unfold dir render locate split join_parts in refl

-- path.Dir of a clean path drops its last part; at `.` and `/` it stays.
pub dir-render : (l : Loc) → IsLoc l → dir (render l) ≡ render (parent l)
dir-render l h = dir-render_fields l.rooted l.ups l.names h.named h.root_top

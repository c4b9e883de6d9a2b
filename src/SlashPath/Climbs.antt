-- ===== src/SlashPath/Climbs.antt =====
-- Which clean paths lead above the directory they start in, and that appending names descends.
use mathlib.Core.List.{reverse-reverse}
use easy_sftp.Prelude.{
  ℕ, zero, suc, ◌≡◌, ◌≢◌, refl, ap, ◌∙◌, Bool, true, false, List, [], ◌∷◌, ◌++◌, ◌||◌, ltb, reverse,
  Bytes, All, All-append, All-reverse, All-map, arith, codes, eq_bytes, eq_bytes_iff,
}
use easy_sftp.Strings.{split, join_parts, NoSlash, has_prefix, split-join_parts}
use easy_sftp.SlashPath.Defs.{
  Loc, IsLoc, IsName, walk, locate, dot, dot_dot, slash, replicate, render_parts, render, clean,
  join,
}
use easy_sftp.SlashPath.Walk.{step-dot, locate-IsLoc, walk_names}
use easy_sftp.SlashPath.Render.{IsPart, join_lem, join_parts-relative}

-- The test `p == ".." || strings.HasPrefix(p, "../")`.
abbrev pub climbs : Bytes → Bool
climbs p = eq_bytes p dot_dot || has_prefix p (codes "../")

climbs-part : (c : Bytes) → IsPart c → climbs c ≡ eq_bytes c dot_dot
climbs-part [] h = refl
climbs-part (x ∷ []) h = ground arith
climbs-part (x ∷ y ∷ []) h = ground arith
climbs-part (x ∷ y ∷ z ∷ c) h = ground (arith, h.0.1.1.0)

pub climbs-sep : (c w : Bytes) → IsPart c → climbs (c ++ b'/' ∷ w) ≡ eq_bytes c dot_dot
climbs-sep [] w h = absurd (h.1 refl)
climbs-sep (x ∷ []) w h = ground arith
climbs-sep (x ∷ y ∷ []) w h = ground arith
climbs-sep (x ∷ y ∷ z ∷ c) w h = ground (arith, h.0.1.1.0)

climbs-join_parts :
    (c : Bytes) (cs : List Bytes) → IsPart c → climbs (join_parts (c ∷ cs)) ≡ eq_bytes c dot_dot
unfolding join_parts
climbs-join_parts c [] h = climbs-part c h
climbs-join_parts c (d ∷ cs) h = climbs-sep c (join_parts (d ∷ cs)) h

-- A relative list of names does not climb.
climbs-names : (cs : List Bytes) → All IsName cs → climbs (render_parts false cs) ≡ false
climbs-names [] h = refl
climbs-names (c ∷ cs) h =
    climbs-join_parts c cs (h.0.no_slash, h.0.not_empty)
    ∙ ground (arith, eq_bytes_iff c dot_dot, h.0.not_dot_dot)

lt-test : (u : ℕ) → true ≡ ltb 0 (suc u)
lt-test u = ground arith

climbs-render_fields :
    (r : Bool) (u : ℕ) (ns : List Bytes)
    → All IsName ns
    → (r ≡ true → u ≡ 0)
    → climbs (render (record { rooted = r; ups = u; names = ns })) ≡ ltb 0 u
unfolding render
climbs-render_fields true zero ns h t = refl
climbs-render_fields true (suc u) ns h t = absurd (omega (arith, t refl))
climbs-render_fields false zero ns h t = climbs-names (reverse ns) (All-reverse IsName ns h)
climbs-render_fields false (suc u) ns h t =
    climbs-join_parts dot_dot (replicate u dot_dot ++ reverse ns)
      ((λ e. omega arith, (λ e. omega arith, tt)), λ e. cc)
    ∙ lt-test u

-- A path climbs exactly when it begins with `..`.
pub climbs-render : (l : Loc) → IsLoc l → climbs (render l) ≡ ltb 0 l.ups
climbs-render l h = climbs-render_fields l.rooted l.ups l.names h.named h.root_top

-- Go down by names, the deepest first.
abbrev pub descend : Loc → List Bytes → Loc
descend l ns = record l { names = ns ++ l.names }

pub descend-IsLoc : (l : Loc) (ns : List Bytes) → IsLoc l → All IsName ns → IsLoc (descend l ns)
descend-IsLoc l ns h hs = record {
  named = All-append IsName ns l.names hs h.named;
  root_top = h.root_top;
}

parts-relative :
    (ns : List Bytes) → All IsName ns → has_prefix (render_parts false ns) slash ≡ false
parts-relative [] h = refl
parts-relative (c ∷ cs) h = join_parts-relative c cs (h.0.no_slash, h.0.not_empty)

walk-render_parts :
    (l : Loc) (cs : List Bytes)
    → All IsName cs
    → walk l (split (render_parts false cs)) ≡ record l { names = reverse cs ++ l.names }
unfolding split walk
walk-render_parts l [] h = step-dot l
walk-render_parts l (c ∷ cs) h =
    ap (walk l)
      (split-join_parts c cs h.0.no_slash (All-map IsName NoSlash (λ s n. n.no_slash) cs h.1))
    ∙ walk_names l (c ∷ cs) h

render_parts-ne_nil_names : (cs : List Bytes) → All IsName cs → render_parts false cs ≢ []
unfolding join_parts
render_parts-ne_nil_names [] h e = cc
render_parts-ne_nil_names (c ∷ []) h e = h.0.not_empty e
render_parts-ne_nil_names ([] ∷ d ∷ cs) h e = h.0.not_empty refl
render_parts-ne_nil_names ((x ∷ c) ∷ d ∷ cs) h e = cc

join-render_parts :
    (a : Bytes) (ns : List Bytes)
    → All IsName ns
    → join a (render_parts false (reverse ns)) ≡ render (descend (locate a) ns)
join-render_parts a ns h =
    let cs = reverse ns in
    let hs = All-reverse IsName ns h in
    join_lem a (render_parts false cs) (render_parts-ne_nil_names cs hs) (parts-relative cs hs)
    ∙ ap render (
        walk-render_parts (locate a) cs hs
        ∙ ap (λ x. record (locate a) { names = x ++ (locate a).names }) (reverse-reverse ns))

join-render :
    (a : Bytes) (r : Bool) (u : ℕ) (ns : List Bytes)
    → r ≡ false
    → u ≡ 0
    → All IsName ns
    → join a (render (record { rooted = r; ups = u; names = ns })) ≡ render (descend (locate a) ns)
unfolding render
join-render a r u ns not_rooted no_ups h = rw (not_rooted, no_ups) (join-render_parts a ns h)

-- path.Join with a cleaned relative path that does not climb descends by its names.
pub join-clean :
    (a b : Bytes)
    → (locate b).rooted ≡ false
    → (locate b).ups ≡ 0
    → join a (clean b) ≡ render (descend (locate a) (locate b).names)
unfolding clean
join-clean a b not_rooted no_ups =
    join-render a (locate b).rooted (locate b).ups (locate b).names not_rooted no_ups
      (locate-IsLoc b).named

-- Joining `.` stays where it is.
pub join-dot : (a : Bytes) → join a dot ≡ clean a
unfolding split walk clean
join-dot a = join_lem a dot (λ e. cc) refl ∙ ap render (step-dot (locate a))

pub climbs-dot_dot : climbs (clean dot_dot) ≡ true
unfolding clean locate split render join_parts
climbs-dot_dot = refl

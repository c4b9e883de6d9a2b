-- ===== src/SlashPath/Render.antt =====
-- The path of a location leads back to it: path.Clean changes no location, and is idempotent.
use mathlib.Core.List.{reverse-reverse}
use easy_sftp.Prelude.{
  ℕ, zero, suc, ◌+◌, ◌≡◌, ◌≢◌, refl, sym, ap, ◌∙◌, Bool, true, false, List, [], ◌∷◌, ◌++◌, reverse,
  Bytes, All, All-append, All-reverse, All-map, arith, append-nil,
}
use easy_sftp.Strings.{
  split, join_parts, NoSlash, has_prefix, split-join_parts, split-slash, split-append_sep,
}
use easy_sftp.SlashPath.Defs.{
  Loc, IsLoc, IsName, walk, start, locate, dot, dot_dot, slash, replicate, parts, render_parts,
  render, clean, join,
}
use easy_sftp.SlashPath.Walk.{walk-append, walk_names, walk_ups, locate-IsLoc}

-- A part of a clean path: it is not empty, and holds no slash.
abbrev pub IsPart : Bytes → Type 0
IsPart s = NoSlash s × (s ≢ [])

replicate-IsPart : (k : ℕ) → All IsPart (replicate k dot_dot)
replicate-IsPart zero = tt
replicate-IsPart (suc k) =
    (((λ e. omega arith, (λ e. omega arith, tt)), λ e. cc), replicate-IsPart k)

pub parts-IsPart : (l : Loc) → IsLoc l → All IsPart (parts l)
parts-IsPart l h =
    All-append IsPart (replicate l.ups dot_dot) (reverse l.names) (replicate-IsPart l.ups) (
      All-reverse IsPart l.names
        (All-map IsName IsPart (λ s n. (n.no_slash, n.not_empty)) l.names h.named))

pub parts-NoSlash : (cs : List Bytes) → All IsPart cs → All NoSlash cs
parts-NoSlash cs h = All-map IsPart NoSlash (λ s n. n.0) cs h

loc-reverse :
    (r : Bool) (u : ℕ) (ns : List Bytes)
    → Path Loc
        (record { rooted = r; ups = u; names = reverse (reverse ns) ++ [] })
        (record { rooted = r; ups = u; names = ns })
loc-reverse r u ns =
    ap (λ x. record { rooted = r; ups = u; names = x })
      (append-nil (reverse (reverse ns)) ∙ reverse-reverse ns)

-- A location's parts lead to it.
walk-parts :
    (r : Bool) (u : ℕ) (ns : List Bytes)
    → All IsName ns
    → (r ≡ true → u ≡ 0)
    → walk (record { rooted = r; ups = 0; names = [] }) (replicate u dot_dot ++ reverse ns)
      ≡ record { rooted = r; ups = u; names = ns }
walk-parts true zero ns h t =
    walk_names (record { rooted = true; ups = 0; names = [] }) (reverse ns)
      (All-reverse IsName ns h)
    ∙ loc-reverse true 0 ns
walk-parts true (suc u) ns h t = absurd (omega (arith, t refl))
walk-parts false u ns h t =
    walk-append (record { rooted = false; ups = 0; names = [] }) (replicate u dot_dot) (reverse ns)
    ∙ ap (λ l. walk l (reverse ns)) (walk_ups 0 u)
    ∙ walk_names (record { rooted = false; ups = 0 + u; names = [] }) (reverse ns)
        (All-reverse IsName ns h)
    ∙ loc-reverse false (0 + u) ns
    ∙ ap (λ v. record { rooted = false; ups = v; names = ns }) (omega arith)

has_prefix-slash_part : (c : Bytes) (t : Bytes) → IsPart c → has_prefix (c ++ t) slash ≡ false
has_prefix-slash_part [] t h = absurd (h.1 refl)
has_prefix-slash_part (x ∷ c) t h = ground (arith, h.0.0)

pub join_parts-relative :
    (c : Bytes) (cs : List Bytes) → IsPart c → has_prefix (join_parts (c ∷ cs)) slash ≡ false
unfolding join_parts
join_parts-relative c [] h =
    ap (λ x. has_prefix x slash) (sym (append-nil c)) ∙ has_prefix-slash_part c [] h
join_parts-relative c (d ∷ cs) h = has_prefix-slash_part c (b'/' ∷ join_parts (d ∷ cs)) h

locate-render_parts :
    (r : Bool) (cs : List Bytes)
    → All IsPart cs
    → locate (render_parts r cs) ≡ walk (record { rooted = r; ups = 0; names = [] }) cs
unfolding locate
locate-render_parts true [] h = unfold split join_parts in refl
locate-render_parts true (c ∷ cs) h = ap (walk (record { rooted = true; ups = 0; names = [] })) (
    split-slash (join_parts (c ∷ cs))
    ∙ ap (◌∷◌ []) (split-join_parts c cs h.0.0 (parts-NoSlash cs h.1)))
locate-render_parts false [] h = unfold split in refl
locate-render_parts false (c ∷ cs) h =
    ap (λ b. walk (record { rooted = b; ups = 0; names = [] }) (split (join_parts (c ∷ cs))))
      (join_parts-relative c cs h.0)
    ∙ ap (walk (record { rooted = false; ups = 0; names = [] }))
        (split-join_parts c cs h.0.0 (parts-NoSlash cs h.1))

-- The path written for a location leads back to it.
pub locate-render : (l : Loc) → IsLoc l → locate (render l) ≡ l
unfolding render
locate-render l h =
    locate-render_parts l.rooted (parts l) (parts-IsPart l h)
    ∙ walk-parts l.rooted l.ups l.names h.named h.root_top

-- path.Clean keeps the location.
pub locate-clean : (p : Bytes) → locate (clean p) ≡ locate p
unfolding clean
locate-clean p = locate-render (locate p) (locate-IsLoc p)

-- path.Clean is idempotent.
pub clean_idem : (p : Bytes) → clean (clean p) ≡ clean p
clean_idem p = unfold clean in ap render (locate-clean p)

pub locate-append_sep : (a b : Bytes) → a ≢ [] → locate (a ++ b'/' ∷ b) ≡ walk (locate a) (split b)
unfolding locate
locate-append_sep [] b h = absurd (h refl)
locate-append_sep (c ∷ a) b h =
    ap (walk (start (c ∷ a))) (split-append_sep (c ∷ a) b)
    ∙ walk-append (start (c ∷ a)) (split (c ∷ a)) (split b)

pub locate-nil : locate [] ≡ record { rooted = false; ups = 0; names = [] }
unfolding locate split
locate-nil = refl

pub locate-dot : locate dot ≡ record { rooted = false; ups = 0; names = [] }
unfolding locate split
locate-dot = refl

join-nil_cons :
    (c : ℕ) (b : Bytes)
    → has_prefix (c ∷ b) slash ≡ false
    → locate (c ∷ b) ≡ walk (locate []) (split (c ∷ b))
unfolding locate
join-nil_cons c b relative =
    ap (λ r. walk (record { rooted = r; ups = 0; names = [] }) (split (c ∷ b))) relative
    ∙ ap (λ l. walk l (split (c ∷ b))) (sym (unfold locate split in refl))

-- path.Join with a relative second element walks on from the first.
pub join_lem :
    (a b : Bytes)
    → b ≢ []
    → has_prefix b slash ≡ false
    → join a b ≡ render (walk (locate a) (split b))
unfolding join
join_lem [] [] some_b relative = absurd (some_b refl)
join_lem [] (c ∷ b) some_b relative = ap render (join-nil_cons c b relative)
join_lem (c ∷ a) b some_b relative = ap render (locate-append_sep (c ∷ a) b (λ e. cc))

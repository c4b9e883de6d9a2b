-- ===== src/Remote/Confine/Within.antt =====
-- What `within` answers for a path that descends from the base by names.
use easy_sftp.Prelude.{
  reverse-cons, ℕ, ◌≡◌, ◌≢◌, refl, sym, ap, ◌∙◌, Bool, true, false, List, [], ◌∷◌, ◌++◌, ◌&&◌, not,
  reverse, Bytes, All, arith, append_assoc, length, length-append, reverse-append, false≢true,
  Bool-cases, inl, inr, eq_bytes, eq_bytes_iff, eq_bytes_refl, eq_bytes_sound, ltb,
}
use easy_sftp.Strings.{join_parts, NoSlash, has_prefix, has_prefix-append, trim_suffix}
use easy_sftp.SlashPath.{
  Loc, IsLoc, IsName, IsPart, locate, dot, dot_dot, slash, replicate, render_parts, render, clean,
  descend, descend-IsLoc, climbs, climbs-render, locate-render, locate-IsLoc, parts-IsPart,
  locate_rooted, locate-dot,
}
use easy_sftp.Remote.Confine.{within}

trim_suffix-part : (x : Bytes) → NoSlash x → trim_suffix x b'/' ≡ x
trim_suffix-part [] h = refl
trim_suffix-part (c ∷ []) h = ground (arith, h.0)
trim_suffix-part (c ∷ d ∷ x) h = ap (◌∷◌ c) (trim_suffix-part (d ∷ x) h.1)

trim_suffix-append :
    (t : Bytes) (c : ℕ) (s : Bytes) → trim_suffix (t ++ c ∷ s) b'/' ≡ t ++ trim_suffix (c ∷ s) b'/'
trim_suffix-append [] c s = refl
trim_suffix-append (d ∷ []) c s = refl
trim_suffix-append (d ∷ e ∷ t) c s = ap (◌∷◌ d) (trim_suffix-append (e ∷ t) c s)

trim_suffix-join_parts :
    (c : Bytes) (cs : List Bytes)
    → NoSlash c
    → All IsPart cs
    → trim_suffix (join_parts (c ∷ cs)) b'/' ≡ join_parts (c ∷ cs)
unfolding join_parts
trim_suffix-join_parts c [] hc h = trim_suffix-part c hc
trim_suffix-join_parts c ([] ∷ cs) hc h = absurd (h.0.1 refl)
trim_suffix-join_parts c ((x ∷ d) ∷ []) hc h =
    trim_suffix-append c b'/' (x ∷ d) ∙ ap (λ t. c ++ b'/' ∷ t) (trim_suffix-part (x ∷ d) h.0.0)
trim_suffix-join_parts c ((x ∷ d) ∷ e ∷ cs) hc h =
    trim_suffix-append c b'/' (join_parts ((x ∷ d) ∷ e ∷ cs))
    ∙ ap (λ t. c ++ b'/' ∷ t) (trim_suffix-join_parts (x ∷ d) (e ∷ cs) h.0.0 h.1)

join_parts-append :
    (c : Bytes) (cs : List Bytes) (d : Bytes) (ds : List Bytes)
    → join_parts ((c ∷ cs) ++ d ∷ ds) ≡ join_parts (c ∷ cs) ++ b'/' ∷ join_parts (d ∷ ds)
unfolding join_parts
join_parts-append c [] d ds = refl
join_parts-append c (e ∷ cs) d ds =
    ap (λ t. c ++ b'/' ∷ t) (join_parts-append e cs d ds)
    ∙ sym (append_assoc c (b'/' ∷ join_parts (e ∷ cs)) (b'/' ∷ join_parts (d ∷ ds)))

prefix-slash : (s t : Bytes) → has_prefix (s ++ b'/' ∷ t) (s ++ slash) ≡ true
prefix-slash s t =
    ap (λ x. has_prefix x (s ++ slash)) (sym (append_assoc s slash t))
    ∙ has_prefix-append (s ++ slash) t

prefix-join_parts :
    (c : Bytes) (cs : List Bytes) (d : Bytes) (ds : List Bytes)
    → NoSlash c
    → All IsPart cs
    → has_prefix (join_parts ((c ∷ cs) ++ d ∷ ds)) (trim_suffix (join_parts (c ∷ cs)) b'/' ++ slash)
      ≡ true
prefix-join_parts c cs d ds hc h =
    ap (λ x. has_prefix x (trim_suffix (join_parts (c ∷ cs)) b'/' ++ slash))
      (join_parts-append c cs d ds)
    ∙ ap (λ x. has_prefix (join_parts (c ∷ cs) ++ b'/' ∷ join_parts (d ∷ ds)) (x ++ slash))
        (trim_suffix-join_parts c cs hc h)
    ∙ prefix-slash (join_parts (c ∷ cs)) (join_parts (d ∷ ds))

-- A base's path and a slash begin the path of what lies below it.
prefix-render_parts :
    (r : Bool) (cs : List Bytes) (d : Bytes) (ds : List Bytes)
    → All IsPart cs
    → render_parts r cs ≢ dot
    → has_prefix (render_parts r (cs ++ d ∷ ds)) (trim_suffix (render_parts r cs) b'/' ++ slash)
      ≡ true
unfolding join_parts
prefix-render_parts true [] d ds h nd = has_prefix-append slash (join_parts (d ∷ ds))
prefix-render_parts false [] d ds h nd = absurd (nd refl)
prefix-render_parts true (c ∷ cs) d ds h nd = prefix-join_parts [] (c ∷ cs) d ds tt h
prefix-render_parts false (c ∷ cs) d ds h nd = prefix-join_parts c cs d ds h.0.0 h.1

prefix-descend :
    (r : Bool) (u : ℕ) (ms ns : List Bytes) (n : Bytes)
    → IsLoc (record { rooted = r; ups = u; names = ms })
    → render (record { rooted = r; ups = u; names = ms }) ≢ dot
    → has_prefix
        (render (record { rooted = r; ups = u; names = (n ∷ ns) ++ ms }))
        (trim_suffix (render (record { rooted = r; ups = u; names = ms })) b'/' ++ slash)
      ≡ true
unfolding render
prefix-descend r u ms ns n h nd =
    let (d, ds, e) = reverse-cons n ns in
    let base = replicate u dot_dot ++ reverse ms in
    ap (λ cs. has_prefix (render_parts r cs) (trim_suffix (render_parts r base) b'/' ++ slash))
      (ap (λ x. replicate u dot_dot ++ x) (reverse-append (n ∷ ns) ms ∙ ap (λ x. reverse ms ++ x) e)
        ∙ sym (append_assoc (replicate u dot_dot) (reverse ms) (d ∷ ds)))
    ∙ prefix-render_parts r base d ds (parts-IsPart (record { rooted = r; ups = u; names = ms }) h)
        nd

-- Distinct locations have distinct paths.
render-injective : (l m : Loc) → IsLoc l → IsLoc m → render l ≡ render m → l ≡ m
render-injective l m hl hm e = sym (locate-render l hl) ∙ ap locate e ∙ locate-render m hm

descend-ne :
    (l : Loc) (n : Bytes) (ns : List Bytes)
    → IsLoc l
    → All IsName (n ∷ ns)
    → render (descend l (n ∷ ns)) ≢ render l
descend-ne l n ns h hs e =
    let same =
      ap (λ k. length k.names)
        (render-injective (descend l (n ∷ ns)) l (descend-IsLoc l (n ∷ ns) h hs) h e) in
    omega (arith, same, length-append {0} (n ∷ ns) l.names)

has_prefix-render : (l : Loc) → IsLoc l → has_prefix (render l) slash ≡ l.rooted
has_prefix-render l h = sym (locate_rooted (render l)) ∙ ap (λ k. k.rooted) (locate-render l h)

dot-render :
    (l : Loc) → IsLoc l → render l ≡ dot → l ≡ record { rooted = false; ups = 0; names = [] }
dot-render l h e = sym (locate-render l h) ∙ ap locate e ∙ locate-dot

not-eq_bytes : (s t : Bytes) → s ≢ t → eq_bytes s t ≡ false
not-eq_bytes s t h = ground (arith, eq_bytes_iff s t, h)

within-dot :
    (l : Loc) (names : List Bytes)
    → IsLoc (descend l names)
    → l ≡ record { rooted = false; ups = 0; names = [] }
    → (not (has_prefix (render (descend l names)) slash) && not (climbs (render (descend l names))))
      ≡ true
within-dot l names h e =
    rw (has_prefix-render (descend l names) h, climbs-render (descend l names) h)
      (ap (λ (k : Loc). not k.rooted && not (ltb 0 k.ups)) e)

module _ (base : Bytes) where
  base-IsLoc : IsLoc (locate base)
  base-IsLoc = locate-IsLoc base

  -- `within` accepts what descends from the base by at least one name.
  pub within-descend :
      (n : Bytes) (ns : List Bytes)
      → All IsName (n ∷ ns)
      → within base (render (descend (locate base) (n ∷ ns))) ≡ true
  unfolding within clean
  within-descend n ns h =
      let full = render (descend (locate base) (n ∷ ns)) in
      let inner = descend-IsLoc (locate base) (n ∷ ns) base-IsLoc h in
      elim (Bool-cases (eq_bytes (render (locate base)) dot)) [
        | inl here ↦ rw here (
            within-dot (locate base) (n ∷ ns) inner
              (dot-render (locate base) base-IsLoc (eq_bytes_sound _ _ here)))
        | inr other ↦
            rw
              (
                other,
                not-eq_bytes full (render (locate base))
                    (descend-ne (locate base) n ns base-IsLoc h),
              )
              (prefix-descend (locate base).rooted (locate base).ups (locate base).names ns n
                base-IsLoc (λ e. false≢true (sym other ∙ (eq_bytes_iff _ _).1 e)))
      ]

  -- `within` refuses the base itself, unless the base is the working directory.
  pub within_self : within base (clean base) ≡ eq_bytes (clean base) dot
  unfolding within
  within_self = elim (Bool-cases (eq_bytes (clean base) dot)) [
    | inl here ↦ rw here (
        ap (λ b. not (has_prefix b slash) && not (climbs b)) (eq_bytes_sound (clean base) dot here))
    | inr other ↦ rw (other, eq_bytes_refl (clean base))
  ]

-- ===== src/Remote/Confine/Joined.antt =====
-- What `safeJoin` and `safeChild` accept, and where the paths that they return lead.
use easy_sftp.Prelude.{
  ◌≡◌, ◌≢◌, refl, sym, ap, ◌∙◌, true, false, List, [], ◌∷◌, Bytes, All, arith, ◌⊎◌, inl, inr,
  eq_bytes, eq_bytes_iff, Result, ok, ltb, ◌↔◌, false≢true, eq_bytes_sound, subst,
}
use easy_sftp.Strings.{has_prefix, contains_byte, NoSlash, split-NoSlash}
use easy_sftp.SlashPath.{
  Loc, IsName, locate, dot, slash, render, clean, join, walk, start, descend, descend-IsLoc, climbs,
  climbs-render, locate-render, locate-IsLoc, locate_rooted, locate-dot, join-clean, Below,
  locate-nil, step-name, join-dot, climbs-dot_dot,
}
use easy_sftp.Remote.Confine.{Refusal, within, safe_join, safe_child}
use easy_sftp.Remote.Confine.Within.{within-descend, within_self}

not-eq_bytes : (s t : Bytes) → s ≢ t → eq_bytes s t ≡ false
not-eq_bytes s t h = ground (arith, eq_bytes_iff s t, h)

names-absurd :
    (n : Bytes) (ns : List Bytes)
    → Path Loc
        (record { rooted = false; ups = 0; names = n ∷ ns })
        (record { rooted = false; ups = 0; names = [] })
    → ⊥
names-absurd n ns e = cons_absurd (ap (λ l. l.names) e)
  where
    cons_absurd : (n ∷ ns) ≡ [] → ⊥
    cons_absurd d = cc

module _ (base rel : Bytes) where
  -- The tests that an accepted path has passed.
  safe_join_passed :
      {full : Bytes}
      → safe_join base rel ≡ ok full
      → (has_prefix rel slash ≡ false)
        × (climbs (clean rel) ≡ false)
        × (within base full ≡ true)
        × (full ≡ join base (clean rel))
  unfolding safe_join
  safe_join_passed h = ground arith

  ups_of_climbs : climbs (clean rel) ≡ false → (locate rel).ups ≡ 0
  unfolding clean
  ups_of_climbs h = ground (arith, climbs-render (locate rel) (locate-IsLoc rel))

  full-lem :
      has_prefix rel slash ≡ false
      → climbs (clean rel) ≡ false
      → join base (clean rel) ≡ render (descend (locate base) (locate rel).names)
  full-lem relative stays = join-clean base rel (locate_rooted rel ∙ relative) (ups_of_climbs stays)

  descend-Below :
      (ns : List Bytes)
      → All IsName ns
      → within base (render (descend (locate base) ns)) ≡ true
      → Below (locate base) (locate (render (descend (locate base) ns)))
        ⊎ ((clean base ≡ dot) × (render (descend (locate base) ns) ≡ dot))
  unfolding clean
  descend-Below (n ∷ ns) h w = inl (
    n,
    ns,
    h,
    locate-render (descend (locate base) (n ∷ ns))
        (descend-IsLoc (locate base) (n ∷ ns) (locate-IsLoc base) h),
  )
  descend-Below [] h w =
      let same = eq_bytes_sound (clean base) dot (sym (within_self base) ∙ w) in inr (same, same)

  -- A path that safeJoin accepts lies strictly below the base: it is reached from the base through
  -- names only, at least one. The exception is the working directory as base, where the path may be
  -- the working directory itself.
  pub safe_join-Below :
      {full : Bytes}
      → safe_join base rel ≡ ok full
      → Below (locate base) (locate full) ⊎ ((clean base ≡ dot) × (full ≡ dot))
  safe_join-Below h =
      let (relative, stays, inside, e) = safe_join_passed h in
      let at = e ∙ full-lem relative stays in
      rw at (descend-Below (locate rel).names (locate-IsLoc rel).named (rw at at inside))

  safe_join-accepts :
      (eq_bytes rel [] ≡ false)
      → (eq_bytes rel dot ≡ false)
      → has_prefix rel slash ≡ false
      → climbs (clean rel) ≡ false
      → within base (join base (clean rel)) ≡ true
      → safe_join base rel ≡ ok (join base (clean rel))
  unfolding safe_join
  safe_join-accepts a b c d e = rw (a, b, c, d, e)

  -- Every relative path that resolves to names with none above its start, at least one, is accepted by
  -- safeJoin, and the result is the clean path that descends from the base by those names.
  pub safe_join-descend :
      (n : Bytes) (ns : List Bytes)
      → locate rel ≡ record { rooted = false; ups = 0; names = n ∷ ns }
      → safe_join base rel ≡ ok (render (descend (locate base) (n ∷ ns)))
  unfolding clean
  safe_join-descend n ns e =
      let relative = sym (locate_rooted rel) ∙ ap (λ l. l.rooted) e in
      let stays = climbs-render (locate rel) (locate-IsLoc rel) ∙ ap (λ l. ltb 0 l.ups) e in
      let at = full-lem relative stays ∙ ap (λ l. render (descend (locate base) l.names)) e in
      let named = subst (λ l. All IsName l.names) e (locate-IsLoc rel).named in
      safe_join-accepts
        (not-eq_bytes rel [] (λ z. names-absurd n ns (sym e ∙ ap locate z ∙ locate-nil)))
        (not-eq_bytes rel dot (λ z. names-absurd n ns (sym e ∙ ap locate z ∙ locate-dot))) relative
        stays (ap (within base) at ∙ within-descend base n ns named)
      ∙ ap ok at

  -- Where the base is the working directory, a relative path that is not empty nor a lone dot, but
  -- resolves to the working directory, is accepted, and the result is a lone dot.
  pub safe_join_working_directory :
      clean base ≡ dot
      → rel ≢ []
      → rel ≢ dot
      → has_prefix rel slash ≡ false
      → clean rel ≡ dot
      → safe_join base rel ≡ ok dot
  safe_join_working_directory here some_rel not_dot relative resolves =
      let at = ap (join base) resolves ∙ join-dot base ∙ here in
      safe_join-accepts (not-eq_bytes rel [] some_rel) (not-eq_bytes rel dot not_dot) relative
        (ap climbs resolves)
        (ap (within base) (at ∙ sym here) ∙ within_self base ∙ ap (λ b. eq_bytes b dot) here)
      ∙ ap ok at

IsName-locate :
    (s : Bytes) → IsName s → locate s ≡ record { rooted = false; ups = 0; names = s ∷ [] }
unfolding locate
IsName-locate s h =
    ap (walk (start s)) (split-NoSlash s h.no_slash)
    ∙ step-name (start s) s h
    ∙ ap (λ r. record { rooted = r; ups = 0; names = s ∷ [] }) (plain s h.no_slash h.not_empty)
  where
    plain : (s : Bytes) → NoSlash s → s ≢ [] → has_prefix s slash ≡ false
    plain [] h e = absurd (e refl)
    plain (c ∷ s) h e = ground (arith, h.0)

contains_byte-NoSlash : (s : Bytes) → contains_byte s b'/' ≡ false → NoSlash s
contains_byte-NoSlash [] h = tt
contains_byte-NoSlash (c ∷ s) h = (ground arith, contains_byte-NoSlash s (ground arith))

NoSlash-contains_byte : (s : Bytes) → NoSlash s → contains_byte s b'/' ≡ false
NoSlash-contains_byte [] h = refl
NoSlash-contains_byte (c ∷ s) h = ground (arith, h.0, NoSlash-contains_byte s h.1)

safe_child_passed :
    (dir name full : Bytes)
    → safe_child dir name ≡ ok full
    → (contains_byte name b'/' ≡ false) × (safe_join dir name ≡ ok full)
unfolding safe_child
safe_child_passed dir name full h = ground arith

safe_join_named :
    (base rel : Bytes) {full : Bytes}
    → safe_join base rel ≡ ok full
    → (rel ≢ []) × (rel ≢ dot) × (climbs (clean rel) ≡ false)
unfolding safe_join
safe_join_named base rel h = ground (arith, eq_bytes_iff rel [], eq_bytes_iff rel dot)

child-IsName : (dir name full : Bytes) → safe_child dir name ≡ ok full → IsName name
child-IsName dir name full h =
    let (plain, joined) = safe_child_passed dir name full h in
    let (some_name, not_dot, stays) = safe_join_named dir name joined in
    record {
      no_slash = contains_byte-NoSlash name plain;
      not_empty = some_name;
      not_dot = not_dot;
      not_dot_dot = λ e. false≢true (sym stays ∙ ap (λ s. climbs (clean s)) e ∙ climbs-dot_dot);
    }

-- safeChild accepts an entry exactly if it is a name (not empty, with no slash, and neither dot nor
-- dot dot), and the result is then the clean path of that child of the directory.
pub safe_child_iff :
    (dir name full : Bytes)
    → (safe_child dir name ≡ ok full)
      ↔ (IsName name × (full ≡ render (descend (locate dir) (name ∷ []))))
unfolding safe_child
safe_child_iff dir name full = (
  λ h.
      let named = child-IsName dir name full h in
      (
        named,
        ok-injective (
            sym (safe_child_passed dir name full h).1
            ∙ safe_join-descend dir name name [] (IsName-locate name named)),
      ),
  λ (named, e).
      rw (NoSlash-contains_byte name named.no_slash)
        (safe_join-descend dir name name [] (IsName-locate name named) ∙ ap ok (sym e)),
)
  where
    ok-injective : {a b : Bytes} → Path (Result Refusal Bytes) (ok a) (ok b) → a ≡ b
    ok-injective e = cc

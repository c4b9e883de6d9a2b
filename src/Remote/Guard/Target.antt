-- ===== src/Remote/Guard/Target.antt =====
-- Which targets `checkRemoteRoot` lets a destructive mode work on.
use easy_sftp.Prelude.{
  ℕ, zero, suc, ◌==◌, ◌≡◌, ◌≢◌, refl, ap, ◌∙◌, Bool, true, false, List, [], ◌∷◌, ◌++◌, ◌||◌, ◌&&◌,
  not, reverse, Bytes, All, All-reverse, arith, if◌then◌else◌, ltb, codes, Result, ok, err,
  reverse-append, subst, eq_bytes, eq_bytes_iff,
}
use easy_sftp.Strings.{join_parts}
use easy_sftp.SlashPath.{
  Loc, IsName, IsPart, locate, dot_dot, render_parts, render, clean, climbs, climbs-render,
  locate-IsLoc,
}
use easy_sftp.Remote.Guard.{to_slash, is_letter, is_above, check_normalized, check_remote_root}

-- A Windows drive designator: a letter and a colon.
abbrev pub is_drive_name : Bytes → Bool
is_drive_name (letter ∷ colon ∷ []) = colon == b':' && is_letter letter
is_drive_name _ = false

-- Names that lead to a specific place: not none, not a drive alone, not `~` alone.
abbrev pub specific_names : Bool → List Bytes → Bool
specific_names r [] = false
specific_names r (n ∷ []) = not (is_drive_name n) && (r || not (eq_bytes n (codes "~")))
specific_names r (n ∷ m ∷ ns) = true

-- A location for destructive work: it does not lead above its start, and its names are specific.
abbrev pub is_target : Loc → Bool
is_target l = ltb l.ups 1 && specific_names l.rooted l.names

abbrev pub accepts : {E A : Type 0} → Result E A → Bool
accepts (ok a) = true
accepts (err e) = false

check-sep :
    (d w : Bytes)
    → IsPart d
    → w ≢ []
    → check_normalized (d ++ b'/' ∷ w) ≡ (if eq_bytes d dot_dot then err is_above else ok tt)
unfolding check_normalized
check-sep d [] h hw = absurd (hw refl)
check-sep [] (y ∷ w) h hw = absurd (h.1 refl)
check-sep (a ∷ []) (y ∷ []) h hw = ground (arith, h.0.0)
check-sep (a ∷ []) (y ∷ z ∷ w) h hw = ground (arith, h.0.0)
check-sep (a ∷ b ∷ []) (y ∷ w) h hw = ground (arith, h.0.0)
check-sep (a ∷ b ∷ c ∷ d) (y ∷ w) h hw = ground (arith, h.0.0, h.0.1.1.0)

check-rooted_sep :
    (d w : Bytes) → IsPart d → w ≢ [] → check_normalized (b'/' ∷ d ++ b'/' ∷ w) ≡ ok tt
unfolding check_normalized
check-rooted_sep d [] h hw = absurd (hw refl)
check-rooted_sep [] (y ∷ w) h hw = absurd (h.1 refl)
check-rooted_sep (a ∷ []) (y ∷ w) h hw = ground arith
check-rooted_sep (a ∷ b ∷ []) (y ∷ w) h hw = ground arith
check-rooted_sep (a ∷ b ∷ c ∷ d) (y ∷ w) h hw = ground arith

join_parts-ne_nil : (c : Bytes) (cs : List Bytes) → IsPart c → join_parts (c ∷ cs) ≢ []
unfolding join_parts
join_parts-ne_nil [] cs h e = h.1 refl
join_parts-ne_nil (x ∷ c) [] h e = cc
join_parts-ne_nil (x ∷ c) (d ∷ cs) h e = cc

check-names :
    (r : Bool) (c d : Bytes) (ds : List Bytes)
    → All IsName (c ∷ d ∷ ds)
    → check_normalized (render_parts r (c ∷ d ∷ ds)) ≡ ok tt
unfolding join_parts
check-names true c d ds h =
    check-rooted_sep c (join_parts (d ∷ ds)) (h.0.no_slash, h.0.not_empty)
      (join_parts-ne_nil d ds (h.1.0.no_slash, h.1.0.not_empty))
check-names false c d ds h =
    check-sep c (join_parts (d ∷ ds)) (h.0.no_slash, h.0.not_empty)
      (join_parts-ne_nil d ds (h.1.0.no_slash, h.1.0.not_empty))
    ∙ ground (arith, eq_bytes_iff c dot_dot, h.0.not_dot_dot)

-- Two names or more, in the order of a path.
reverse-two :
    (n m : Bytes) (ns : List Bytes)
    → (c : Bytes) × (d : Bytes) × (ds : List Bytes) × (reverse (n ∷ m ∷ ns) ≡ c ∷ d ∷ ds)
reverse-two n m ns =
    first (reverse ns)
      (reverse-append (n ∷ []) (m ∷ ns) ∙ ap (λ x. x ++ n ∷ []) (reverse-append (m ∷ []) ns))
  where
    first :
        (xs : List Bytes)
        → reverse (n ∷ m ∷ ns) ≡ (xs ++ m ∷ []) ++ n ∷ []
        → (c : Bytes) × (d : Bytes) × (ds : List Bytes) × (reverse (n ∷ m ∷ ns) ≡ c ∷ d ∷ ds)
    first [] e = (m, n, [], e)
    first (x ∷ []) e = (x, m, n ∷ [], e)
    first (x ∷ y ∷ xs) e = (x, y, (xs ++ m ∷ []) ++ n ∷ [], e)

check-one :
    (r : Bool) (n : Bytes)
    → IsName n
    → accepts (check_normalized (render_parts r (n ∷ []))) ≡ specific_names r (n ∷ [])
unfolding check_normalized join_parts
check-one true [] h = absurd (h.not_empty refl)
check-one true (a ∷ []) h = ground arith
check-one true (a ∷ b ∷ []) h = ground arith
check-one true (a ∷ b ∷ c ∷ n) h = ground arith
check-one false [] h = absurd (h.not_empty refl)
check-one false (a ∷ []) h = ground (arith, h.no_slash.0, h.not_dot)
check-one false (a ∷ b ∷ []) h = ground (arith, h.no_slash.0, h.not_dot_dot)
check-one false (a ∷ b ∷ c ∷ n) h = ground (arith, h.no_slash.0, h.no_slash.1.1.0)

check-ups : (p : Bytes) → climbs p ≡ true → accepts (check_normalized p) ≡ false
unfolding check_normalized
check-ups p h = ground arith

check-render :
    (r : Bool) (u : ℕ) (ns : List Bytes)
    → All IsName ns
    → (r ≡ true → u ≡ 0)
    → accepts (check_normalized (render (record { rooted = r; ups = u; names = ns })))
      ≡ (ltb u 1 && specific_names r ns)
unfolding render
check-render r (suc u) ns h t =
    check-ups (render (record { rooted = r; ups = suc u; names = ns })) (
      climbs-render (record { rooted = r; ups = suc u; names = ns })
        (record { named = h; root_top = t })
      ∙ ground arith)
    ∙ ground arith
check-render true zero [] h t = unfold check_normalized join_parts in refl
check-render false zero [] h t = unfold check_normalized in refl
check-render r zero (n ∷ []) h t = check-one r n h.0
check-render r zero (n ∷ m ∷ ns) h t =
    let (c, d, ds, e) = reverse-two n m ns in
    ap (λ cs. accepts (check_normalized (render_parts r cs))) e
    ∙ ap accepts (check-names r c d ds (subst (All IsName) e (All-reverse IsName (n ∷ m ∷ ns) h)))

-- checkRemoteRoot accepts exactly the remote paths that lead to a specific place: not above the start,
-- through at least one name, and not through a drive designator alone nor, from the working directory,
-- through ~ alone.
pub accepts-check_remote_root :
    (remote : Bytes) → accepts (check_remote_root remote) ≡ is_target (locate (to_slash remote))
unfolding check_remote_root clean
accepts-check_remote_root remote =
    let l = locate (to_slash remote) in
    let h = locate-IsLoc (to_slash remote) in check-render l.rooted l.ups l.names h.named h.root_top

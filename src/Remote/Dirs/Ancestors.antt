-- ===== src/Remote/Dirs/Ancestors.antt =====
-- `parentDirs` of a clean path: all its proper ancestors, the shallowest first.
use easy_sftp.Prelude.{
  ℕ, zero, suc, ◌≤◌, ◌≡◌, refl, sym, ap, ◌∙◌, Bool, true, false, Bytes, List, [], ◌∷◌, ◌++◌, arith,
  All, eq_bytes_iff, length, length-append, reverse, reverse-cons, reverse-append, append_assoc,
  All-reverse, All-map,
}
use easy_sftp.Strings.{
  join_parts, sort_strings, insert_string, insert_string_last, lt_bytes, lt_bytes-append,
}
use easy_sftp.SlashPath.{
  Loc, IsLoc, IsName, render, render_parts, locate, locate-render, dir, dir-render, dot, slash,
  locate-dot, render_parts-snoc,
}
use easy_sftp.Remote.Dirs.{visit_dirs, is_top, parent_dirs}

-- A path below the root or the working directory, by its names, the deepest first.
abbrev pub under : Bool → List Bytes → Loc
under r ns = record { rooted = r; ups = 0; names = ns }

-- The path itself and its ancestors, the deepest first.
abbrev pub chain : Bool → List Bytes → List Bytes
chain r [] = []
chain r (n ∷ ns) = render (under r (n ∷ ns)) ∷ chain r ns

under-IsLoc : (r : Bool) (ns : List Bytes) → All IsName ns → IsLoc (under r ns)
under-IsLoc r ns h = record { named = h; root_top = λ e. refl }

pub top-render : (r : Bool) → is_top (render (under r [])) ≡ true
unfolding render join_parts
top-render true = refl
top-render false = refl

locate-slash : locate slash ≡ under true []
unfolding render join_parts
locate-slash = locate-render (under true []) (under-IsLoc true [] tt)

names_differ :
    (r q : Bool) (n : Bytes) (ns : List Bytes) → Path Loc (under r (n ∷ ns)) (under q []) → ⊥
names_differ r q n ns e = cons_absurd (ap (λ l. l.names) e)
  where
    cons_absurd : n ∷ ns ≡ [] → ⊥
    cons_absurd d = cc

pub not_top :
    (r : Bool) (n : Bytes) (ns : List Bytes)
    → All IsName (n ∷ ns)
    → is_top (render (under r (n ∷ ns))) ≡ false
not_top r n ns h =
    let at = locate-render (under r (n ∷ ns)) (under-IsLoc r (n ∷ ns) h) in
    let d = render (under r (n ∷ ns)) in
    ground (
      arith,
      eq_bytes_iff d dot,
      eq_bytes_iff d slash,
      λ (e : d ≡ dot). names_differ r false n ns (sym at ∙ ap locate e ∙ locate-dot),
      λ (e : d ≡ slash). names_differ r true n ns (sym at ∙ ap locate e ∙ locate-slash),
    )

pub dir-under :
    (r : Bool) (n : Bytes) (ns : List Bytes)
    → All IsName (n ∷ ns)
    → dir (render (under r (n ∷ ns))) ≡ render (under r ns)
dir-under r n ns h = dir-render (under r (n ∷ ns)) (under-IsLoc r (n ∷ ns) h)

-- A loop's test that holds at the top and at no path below it.
pub record StopsAtTop (stop : Bytes → Bool) (r : Bool) : Type 0 where
  pub at_top : stop (render (under r [])) ≡ true
  pub below :
      (n : Bytes) (ns : List Bytes) → All IsName (n ∷ ns) → stop (render (under r (n ∷ ns))) ≡ false

-- The loop visits the path and all its ancestors.
pub visit_dirs-chain :
    (stop : Bytes → Bool) (f : ℕ) (r : Bool) (ns : List Bytes)
    → StopsAtTop stop r
    → All IsName ns
    → length ns ≤ f
    → visit_dirs f stop (render (under r ns)) ≡ chain r ns
unfolding visit_dirs
visit_dirs-chain stop zero r [] s h fuel = refl
visit_dirs-chain stop (suc f) r [] s h fuel = rw (s.at_top, visit_dirs)
visit_dirs-chain stop zero r (n ∷ ns) s h fuel = absurd (omega arith)
visit_dirs-chain stop (suc f) r (n ∷ ns) s h fuel =
    rw (s.below n ns h, visit_dirs)
      (ap (◌∷◌ (render (under r (n ∷ ns)))) (
        ap (visit_dirs f stop) (dir-under r n ns h)
        ∙ visit_dirs-chain stop f r ns s h.1 (omega arith)))

pub is_top-StopsAtTop : (r : Bool) → StopsAtTop is_top r
is_top-StopsAtTop r = record { at_top = top-render r; below = not_top r }

-- One name more makes a path longer at its end.
render-under :
    (r : Bool) (n m : Bytes) (ns : List Bytes)
    → render (under r (n ∷ m ∷ ns)) ≡ render (under r (m ∷ ns)) ++ b'/' ∷ n
unfolding render
render-under r n m ns =
    let (d, ds, e) = reverse-cons m ns in
    ap (render_parts r) (reverse-append (n ∷ []) (m ∷ ns) ∙ ap (λ x. x ++ n ∷ []) e)
    ∙ render_parts-snoc r d ds n
    ∙ ap (λ x. render_parts r x ++ b'/' ∷ n) (sym e)

render_one-length : (r : Bool) (n : Bytes) → IsName n → 1 ≤ length (render (under r (n ∷ [])))
unfolding render join_parts
render_one-length true n h = omega arith
render_one-length false [] h = absurd (h.not_empty refl)
render_one-length false (x ∷ n) h = omega arith

pub length-render :
    (r : Bool) (ns : List Bytes) → All IsName ns → length ns ≤ length (render (under r ns))
length-render r [] h = omega arith
length-render r (n ∷ []) h = render_one-length r n h.0
length-render r (n ∷ m ∷ ns) h =
    let shorter = length-render r (m ∷ ns) h.1 in
    omega (
      arith,
      ap (λ (x : Bytes). length x) (render-under r n m ns),
      length-append {0} (render (under r (m ∷ ns))) (b'/' ∷ n),
    )

-- `t` begins `s` and is shorter.
abbrev ProperlyBegins : Bytes → Bytes → Type 0
ProperlyBegins s t = (c : ℕ) × (rest : Bytes) × (s ≡ t ++ c ∷ rest)

longer_begins : (s x t : Bytes) → ProperlyBegins x s → ProperlyBegins s t → ProperlyBegins x t
longer_begins s x t (c, w, e) (d, v, e') =
    (d, v ++ c ∷ w, e ∙ ap (λ y. y ++ c ∷ w) e' ∙ append_assoc t (d ∷ v) (c ∷ w))

chain-ProperlyBegins :
    (r : Bool) (n : Bytes) (ns : List Bytes)
    → All (ProperlyBegins (render (under r (n ∷ ns)))) (chain r ns)
chain-ProperlyBegins r n [] = tt
chain-ProperlyBegins r n (m ∷ ns) =
    let outer = render (under r (n ∷ m ∷ ns)) in
    let inner = render (under r (m ∷ ns)) in
    let step : ProperlyBegins outer inner = (b'/', n, render-under r n m ns) in
    (
      step,
      All-map (ProperlyBegins inner) (ProperlyBegins outer)
          (λ t p. longer_begins inner outer t step p) (chain r ns) (chain-ProperlyBegins r m ns),
    )

sort-chain : (r : Bool) (ns : List Bytes) → sort_strings (chain r ns) ≡ reverse (chain r ns)
unfolding sort_strings
sort-chain r [] = refl
sort-chain r (n ∷ ns) =
    let x = render (under r (n ∷ ns)) in
    ap (insert_string x) (sort-chain r ns)
    ∙ insert_string_last x (reverse (chain r ns)) (
        All-reverse (λ t. lt_bytes t x ≡ true) (chain r ns)
          (All-map (ProperlyBegins x) (λ t. lt_bytes t x ≡ true)
            (λ t (c, w, e). ap (lt_bytes t) e ∙ lt_bytes-append t c w) (chain r ns)
            (chain-ProperlyBegins r n ns)))
    ∙ sym (reverse-append (x ∷ []) (chain r ns))

-- For a clean path with at least one name, rooted or relative and with nothing above its start,
-- parentDirs lists its proper ancestors below the top, the shallowest first.
pub parent_dirs-chain :
    (r : Bool) (n : Bytes) (ns : List Bytes)
    → All IsName (n ∷ ns)
    → parent_dirs (render (under r (n ∷ ns))) ≡ reverse (chain r ns)
unfolding parent_dirs
parent_dirs-chain r n ns h =
    let p = render (under r (n ∷ ns)) in
    ap sort_strings (
      ap (visit_dirs (length p) is_top) (dir-under r n ns h)
      ∙ visit_dirs-chain is_top (length p) r ns (is_top-StopsAtTop r) h.1
          (omega (arith, length-render r (n ∷ ns) h)))
    ∙ sort-chain r ns

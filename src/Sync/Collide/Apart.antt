-- ===== src/Sync/Collide/Apart.antt =====
-- What collidingDeletes leaves for after the uploads is out of the way of every planned file.
use easy_sftp.Prelude.{
  suc, ◌≤◌, ◌≡◌, ◌≢◌, refl, sym, ap, ◌∙◌, not, Bool, true, false, Bytes, List, [], ◌∷◌, ◌++◌, map,
  length, eq_bytes, eq_bytes_sound, eq_bytes_refl, arith, All,
}
use easy_sftp.SlashPath.{IsName, render}
use easy_sftp.Remote.Dirs.{visit_dirs, contains}
use easy_sftp.Remote.Dirs.Ancestors.{
  under, chain, StopsAtTop, is_top-StopsAtTop, visit_dirs-chain, dir-under, length-render,
}
use easy_sftp.Planner.Tree.{FileItem}
use easy_sftp.Sync.Collide.{rels, is_end, and_above, above, exists, fold_path, colliding_deletes}
use easy_sftp.Sync.Collide.Clash.{contains-keep, clashes, colliding_deletes-clashes}

-- A relative path by its names, the deepest first.
abbrev pub path_of : List Bytes → Bytes
path_of ns = render (under false ns)

not_nil : (s : Bytes) → 1 ≤ length s → eq_bytes s [] ≡ false
not_nil [] h = absurd (omega arith)
not_nil (c ∷ s) h = refl

is_end-StopsAtTop : StopsAtTop is_end false
is_end-StopsAtTop = record {
  at_top = rw ((is_top-StopsAtTop false).at_top) refl;
  below = λ n ns h.
      rw ((is_top-StopsAtTop false).below n ns h)
        (not_nil (path_of (n ∷ ns)) (omega (arith, length-render false (n ∷ ns) h)));
}

and_above-chain : (ns : List Bytes) → All IsName ns → and_above (path_of ns) ≡ chain false ns
and_above-chain ns h =
    visit_dirs-chain is_end (suc (length (path_of ns))) false ns is_end-StopsAtTop h
      (omega (arith, length-render false ns h))

above-chain :
    (n : Bytes) (ns : List Bytes) → All IsName (n ∷ ns) → above (path_of (n ∷ ns)) ≡ chain false ns
above-chain n ns h =
    ap (visit_dirs (suc (length (path_of (n ∷ ns)))) is_end) (dir-under false n ns h)
    ∙ visit_dirs-chain is_end (suc (length (path_of (n ∷ ns)))) false ns is_end-StopsAtTop h.1
        (omega (arith, length-render false (n ∷ ns) h))

-- A path is among those at and above any path below it.
chain-contains :
    (pre : List Bytes) (n : Bytes) (ns : List Bytes)
    → contains (chain false (pre ++ n ∷ ns)) (path_of (n ∷ ns)) ≡ true
chain-contains [] n ns = rw (eq_bytes_refl (path_of (n ∷ ns))) refl
chain-contains (p ∷ pre) n ns = ground (arith, chain-contains pre n ns)

exists-here :
    (test : Bytes → Bool) (xs : List Bytes) (k : Bytes)
    → contains xs k ≡ true
    → test k ≡ true
    → exists test xs ≡ true
exists-here test (x ∷ xs) k m t = ground (
  arith,
  exists-here test xs k,
  m,
  t,
  λ (e : eq_bytes x k ≡ true). ap test (eq_bytes_sound x k e),
)
exists-here test [] k m t = cc

exists-member :
    (test : Bytes → Bool) (xs : List Bytes) (k : Bytes)
    → exists test xs ≡ false
    → contains xs k ≡ true
    → test k ≡ false
exists-member test xs k none_passes m = ground (arith, exists-here test xs k m)

contains-map :
    (f : Bytes → Bytes) (xs : List Bytes) (k : Bytes)
    → contains xs k ≡ true
    → contains (map f xs) (f k) ≡ true
contains-map f [] k m = cc
contains-map f (x ∷ xs) k m = ground (
  arith,
  contains-map f xs k,
  eq_bytes_refl (f k),
  λ (e : eq_bytes x k ≡ true). ap f (eq_bytes_sound x k e),
)

true_not_false : {b : Bool} → b ≡ true → b ≡ false → ⊥
true_not_false t f = cc

module _ (fold_segment : Bytes → Bytes) (to_delete : List Bytes) (plan : List FileItem) where
  rest-clear :
      (k : Bytes)
      → contains (colliding_deletes fold_segment to_delete plan).1 k ≡ true
      → clashes fold_segment (rels plan) k ≡ false
  rest-clear k kept =
      let at_k =
        ap (λ (p : List Bytes × List Bytes). contains p.1 k)
          (colliding_deletes-clashes fold_segment to_delete plan) in
      ground (
        arith,
        contains-keep (λ k'. not (clashes fold_segment (rels plan) k')) to_delete k,
        sym at_k ∙ kept,
      )

  module _ (m : Bytes) (ms : List Bytes) (n : Bytes) (ns : List Bytes) (hm : All IsName (m ∷ ms))
      (hn : All IsName (n ∷ ns))
      (clear : clashes fold_segment (rels plan) (path_of (m ∷ ms)) ≡ false)
      (planned : contains (rels plan) (path_of (n ∷ ns)) ≡ true) where
    not_above : (pre : List Bytes) → n ∷ ns ≢ pre ++ m ∷ ms
    not_above pre e =
        let miss =
          exists-member (λ rel. contains (and_above rel) (path_of (m ∷ ms))) (rels plan)
            (path_of (n ∷ ns)) (ground (arith, clear)) planned in
        let chained =
          ap (λ xs. contains xs (path_of (m ∷ ms)))
            (and_above-chain (n ∷ ns) hn ∙ ap (chain false) e) in
        true_not_false (chain-contains pre m ms) (sym chained ∙ miss)

    not_below : (pre : List Bytes) → m ∷ ms ≢ pre ++ n ∷ ns
    not_below [] e = not_above [] (sym e)
    not_below (p ∷ pre) e =
        true_not_false
          (exists-here (contains (rels plan)) (above (path_of (m ∷ ms))) (path_of (n ∷ ns))
            (ap (λ xs. contains xs (path_of (n ∷ ns)))
                (above-chain m ms hm ∙ ap (chain false) (tails e))
              ∙ chain-contains pre n ns)
            planned)
          (ground (arith, clear))
      where
        tails : m ∷ ms ≡ p ∷ (pre ++ n ∷ ns) → ms ≡ pre ++ n ∷ ns
        tails h = cc

    not_folded :
        fold_path fold_segment (path_of (m ∷ ms)) ≢ fold_path fold_segment (path_of (n ∷ ns))
    not_folded e =
        let folded = map (fold_path fold_segment) (rels plan) in
        let miss : contains folded (fold_path fold_segment (path_of (m ∷ ms))) ≡ false =
          ground (arith, clear) in
        true_not_false
          (contains-map (fold_path fold_segment) (rels plan) (path_of (n ∷ ns)) planned)
          (ap (contains folded) (sym e) ∙ miss)

-- What collidingDeletes leaves for after the upload is out of the way of every planned file: it is not
-- that file, no directory above it, not below it, and has not its folded key. Both paths are relative
-- and clean, given by their names, the deepest first.
pub colliding_deletes-rest :
    (fold_segment : Bytes → Bytes) (to_delete : List Bytes) (plan : List FileItem) (m : Bytes)
    (ms : List Bytes) (n : Bytes) (ns : List Bytes)
    → All IsName (m ∷ ms)
    → All IsName (n ∷ ns)
    → contains (colliding_deletes fold_segment to_delete plan).1 (path_of (m ∷ ms)) ≡ true
    → contains (rels plan) (path_of (n ∷ ns)) ≡ true
    → ((pre : List Bytes) → n ∷ ns ≢ pre ++ m ∷ ms)
      × ((pre : List Bytes) → m ∷ ms ≢ pre ++ n ∷ ns)
      × (fold_path fold_segment (path_of (m ∷ ms)) ≢ fold_path fold_segment (path_of (n ∷ ns)))
colliding_deletes-rest fold_segment to_delete plan m ms n ns hm hn kept planned =
    let clear = rest-clear fold_segment to_delete plan (path_of (m ∷ ms)) kept in
    (
      not_above fold_segment to_delete plan m ms n ns hm hn clear planned,
      not_below fold_segment to_delete plan m ms n ns hm hn clear planned,
      not_folded fold_segment to_delete plan m ms n ns hm hn clear planned,
    )

-- ===== src/Remote/Listing/Confined.antt =====
-- All that a listing of a directory collects lies strictly below that directory, whatever names the
-- server answers.
use easy_sftp.Prelude.{
  ℕ, zero, suc, ◌≡◌, refl, ap, ◌∙◌, Bytes, List, [], ◌∷◌, Result, ok, err, >>=-eq-ok, All,
  All-append, All-map, Bool-cases, inl, inr, subst,
}
use easy_sftp.Strings.{sort_strings, sort_strings-All}
use easy_sftp.SlashPath.{IsName, Below, locate, descend, locate-render, locate-IsLoc, descend-IsLoc}
use easy_sftp.Remote.Confine.{Refusal, safe_child}
use easy_sftp.Remote.Confine.Joined.{safe_child_iff}
use easy_sftp.Remote.Delete.{DirEntry, Client}
use easy_sftp.Remote.Listing.{
  Contents, ListError, add_entry, entries_of, both, with_rest, collect, deeper, list_dir,
  list_level, list_levels, list_remote_contents,
}

module _ (root : Bytes) where
  abbrev pub IsBelow : Bytes → Type 0
  IsBelow p = Below (locate root) (locate p)

  -- The path is the root, or lies below it.
  abbrev IsWithin : Bytes → Type 0
  IsWithin p = (ns : List Bytes) × All IsName ns × (locate p ≡ descend (locate root) ns)

  IsBelow-IsWithin : (p : Bytes) → IsBelow p → IsWithin p
  IsBelow-IsWithin p (n, ns, h, e) = (n ∷ ns, h, e)

  child-IsBelow :
      (dir name full : Bytes) → IsWithin dir → safe_child dir name ≡ ok full → IsBelow full
  child-IsBelow dir name full (ns, hs, e) joined =
      let (named, at) = (safe_child_iff dir name full).0 joined in
      (
        name,
        ns,
        (named, hs),
        ap locate at
            ∙ locate-render (descend (locate dir) (name ∷ []))
                (descend-IsLoc (locate dir) (name ∷ []) (locate-IsLoc dir) (named, tt))
            ∙ ap (λ l. descend l (name ∷ [])) e,
      )

  abbrev pub AllBelow : Contents → Type 0
  AllBelow c = All IsBelow c.files × All IsBelow c.dirs

  entries_of-AllBelow :
      (dir : Bytes) (entries : List DirEntry) → IsWithin dir → AllBelow (entries_of dir entries)
  unfolding entries_of
  entries_of-AllBelow dir [] h = (tt, tt)
  entries_of-AllBelow dir (entry ∷ entries) h =
      added (safe_child dir entry.name) refl (entries_of dir entries)
        (entries_of-AllBelow dir entries h)
    where
      added :
          (r : Result Refusal Bytes)
          → safe_child dir entry.name ≡ r
          → (rest : Contents) → AllBelow rest
          → AllBelow (elim r [ err e ↦ rest | ok full ↦ add_entry full entry rest ])
      added (err e) j rest below = below
      added (ok full) j rest below = elim (Bool-cases entry.is_dir) [
        | inl is ↦ rw is (below.0, (child-IsBelow dir entry.name full h j, below.1))
        | inr other ↦ rw other ((child-IsBelow dir entry.name full h j, below.0), below.1)
      ]

  both-AllBelow : (a b : Contents) → AllBelow a → AllBelow b → AllBelow (both a b)
  both-AllBelow a b ha hb =
      (All-append IsBelow a.files b.files ha.0 hb.0, All-append IsBelow a.dirs b.dirs ha.1 hb.1)

  ok-injective : {c d : Contents} → Path (Result ListError Contents) (ok c) (ok d) → c ≡ d
  ok-injective e = cc

  -- Where there is a result, all of it lies below.
  abbrev OkBelow : Result ListError Contents → Type 0
  OkBelow r = (d : Contents) → r ≡ ok d → AllBelow d

  with_rest-AllBelow :
      (found : Contents) (rest : Result ListError Contents) {c : Contents}
      → AllBelow found
      → OkBelow rest
      → with_rest found rest ≡ ok c
      → AllBelow c
  with_rest-AllBelow found rest h hr e =
      let (below, some_rest, at) = >>=-eq-ok rest _ e in
      subst AllBelow (ok-injective at) (both-AllBelow found below h (hr below some_rest))

  collect-AllBelow :
      {S : Type 0} (dir : Bytes) (s : S) (outcome : Result ListError (List DirEntry))
      (rest : S × Result ListError Contents) {c : Contents}
      → IsWithin dir
      → OkBelow rest.1
      → (collect dir s outcome rest).1 ≡ ok c
      → AllBelow c
  collect-AllBelow dir s (err x) rest h hr e = cc
  collect-AllBelow dir s (ok entries) rest h hr e =
      with_rest-AllBelow (entries_of dir entries) rest.1 (entries_of-AllBelow dir entries h) hr e

  deeper-AllBelow :
      {S : Type 0} (s : S) (outcome : Result ListError Contents)
      (next : Contents → S × Result ListError Contents) {c : Contents}
      → OkBelow outcome
      → ((found : Contents) → AllBelow found → OkBelow (next found).1)
      → (deeper s outcome next).1 ≡ ok c
      → AllBelow c
  deeper-AllBelow s (err x) next h hn e = cc
  deeper-AllBelow s (ok found) next h hn e =
      with_rest-AllBelow found (next found).1 (h found refl) (hn found (h found refl)) e

  module _ {S : Type 0} (client : Client S) where
    list_level-AllBelow :
        (level : List Bytes) (s : S) → All IsWithin level → OkBelow (list_level client level s).1
    unfolding list_level
    list_level-AllBelow [] s h c e = subst AllBelow (ok-injective e) (tt, tt)
    list_level-AllBelow (dir ∷ level) s h c e =
        let r = list_dir client dir s in
        collect-AllBelow dir r.0 r.1 (list_level client level r.0) h.0
          (list_level-AllBelow level r.0 h.1) e

    list_levels-AllBelow :
        (fuel : ℕ) (level : List Bytes) (s : S)
        → All IsWithin level
        → OkBelow (list_levels client fuel level s).1
    unfolding list_levels
    list_levels-AllBelow zero [] s h c e = subst AllBelow (ok-injective e) (tt, tt)
    list_levels-AllBelow (suc fuel) [] s h c e = subst AllBelow (ok-injective e) (tt, tt)
    list_levels-AllBelow zero (dir ∷ level) s h c e = cc
    list_levels-AllBelow (suc fuel) (dir ∷ level) s h c e =
        let r = list_level client (dir ∷ level) s in
        deeper-AllBelow r.0 r.1 (λ found. list_levels client fuel (sort_strings found.dirs) r.0)
          (list_level-AllBelow (dir ∷ level) s h)
          (λ found below. list_levels-AllBelow fuel (sort_strings found.dirs) r.0 (
            All-map IsBelow IsWithin IsBelow-IsWithin (sort_strings found.dirs)
              (sort_strings-All IsBelow found.dirs below.1)))
          e

    -- Whatever names the server answers, every file and directory that listRemoteContents returns lies
    -- strictly below the listed root: it is reached from there through names only, at least one.
    pub list_remote_contents-AllBelow :
        (fuel : ℕ) (s : S) {c : Contents}
        → (list_remote_contents client fuel root s).1 ≡ ok c
        → AllBelow c
    unfolding list_remote_contents
    list_remote_contents-AllBelow fuel s {c} e =
        list_levels-AllBelow fuel (root ∷ []) s (([], tt, refl), tt) c e

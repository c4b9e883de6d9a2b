-- ===== src/Remote/Listing/Ends.antt =====
-- The listing ends where the server's directories do: as many levels as the tree has are enough.
use easy_sftp.Prelude.{
  ℕ, zero, suc, ◌≤◌, ◌<◌, ◌≡◌, ◌≢◌, refl, Bool, true, false, Bytes, List, [], ◌∷◌, Result, ok, err,
  All, All-append, All-map, arith,
}
use easy_sftp.Strings.{sort_strings, sort_strings-All}
use easy_sftp.Remote.Delete.{
  Answer, done, conn_error, not_exist, permission, failure, DirEntry, Client, remote_absent,
}
use easy_sftp.Remote.Listing.{
  Contents, ListError, too_deep, entries_of, with_rest, collect, deeper, absent_listing, listed,
  list_dir, list_level, list_levels, list_remote_contents,
}

-- The result is not for want of levels, and its directories have the property.
abbrev IsFine : (Bytes → Type 0) → Result ListError Contents → Type 0
IsFine P (ok found) = All P found.dirs
IsFine P (err e) = e ≢ too_deep

-- The entries of a directory give directories with the property, or there is another error.
abbrev IsFineList : (Bytes → Type 0) → Bytes → Result ListError (List DirEntry) → Type 0
IsFineList P dir (ok entries) = All P (entries_of dir entries).dirs
IsFineList P dir (err e) = e ≢ too_deep

with_rest-IsFine :
    (P : Bytes → Type 0) (found : Contents) (rest : Result ListError Contents)
    → All P found.dirs
    → IsFine P rest
    → IsFine P (with_rest found rest)
with_rest-IsFine P found (ok below) h hr = All-append P found.dirs below.dirs h hr
with_rest-IsFine P found (err e) h hr = hr

collect-IsFine :
    {S : Type 0} (P : Bytes → Type 0) (dir : Bytes) (s : S) (r : Result ListError (List DirEntry))
    (rest : S × Result ListError Contents)
    → IsFineList P dir r
    → IsFine P rest.1
    → IsFine P (collect dir s r rest).1
collect-IsFine P dir s (ok entries) rest h hr =
    with_rest-IsFine P (entries_of dir entries) rest.1 h hr
collect-IsFine P dir s (err e) rest h hr = h

module _ {S : Type 0} (client : Client S) (height : Bytes → ℕ)
    (lower : (dir : Bytes) (s : S) (entries : List DirEntry)
      → (client.read_dir dir s).1 ≡ ok entries
      → All (λ d. height d < height dir) (entries_of dir entries).dirs) where
  abbrev Lower : ℕ → Bytes → Type 0
  Lower n d = height d < n

  absent-IsFineList :
      (n : ℕ) (dir : Bytes) (answer : Answer) (told : Result Answer Bool)
      → IsFineList (Lower n) dir (absent_listing dir answer told)
  unfolding entries_of
  absent-IsFineList n dir answer (err e) = λ h. cc
  absent-IsFineList n dir answer (ok true) = tt
  absent-IsFineList n dir answer (ok false) = λ h. cc

  listed-IsFineList :
      (n : ℕ) (dir : Bytes) (s : S) (r : Result Answer (List DirEntry))
      → ((entries : List DirEntry) → r ≡ ok entries → All (Lower n) (entries_of dir entries).dirs)
      → IsFineList (Lower n) dir (listed client dir s r).1
  unfolding entries_of
  listed-IsFineList n dir s (ok entries) h = h entries refl
  listed-IsFineList n dir s (err not_exist) h = tt
  listed-IsFineList n dir s (err done) h =
      absent-IsFineList n dir done (remote_absent client dir s).1
  listed-IsFineList n dir s (err conn_error) h =
      absent-IsFineList n dir conn_error (remote_absent client dir s).1
  listed-IsFineList n dir s (err permission) h =
      absent-IsFineList n dir permission (remote_absent client dir s).1
  listed-IsFineList n dir s (err failure) h =
      absent-IsFineList n dir failure (remote_absent client dir s).1

  list_dir-IsFineList :
      (n : ℕ) (dir : Bytes) (s : S)
      → height dir ≤ n
      → IsFineList (Lower n) dir (list_dir client dir s).1
  unfolding list_dir
  list_dir-IsFineList n dir s le =
      let r = client.read_dir dir s in
      listed-IsFineList n dir r.0 r.1 (λ entries e.
        All-map (Lower (height dir)) (Lower n) (λ d h. omega (arith, h, le))
          (entries_of dir entries).dirs (lower dir s entries e))

  list_level-IsFine :
      (n : ℕ) (level : List Bytes) (s : S)
      → All (Lower (suc n)) level
      → IsFine (Lower n) (list_level client level s).1
  unfolding list_level
  list_level-IsFine n [] s h = tt
  list_level-IsFine n (dir ∷ level) s h =
      let r = list_dir client dir s in
      collect-IsFine (Lower n) dir r.0 r.1 (list_level client level r.0)
        (list_dir-IsFineList n dir s (omega (arith, h.0))) (list_level-IsFine n level r.0 h.1)

  -- The result is not for want of levels.
  abbrev Ends : Result ListError Contents → Type 0
  Ends r = r ≢ err too_deep

  with_rest-Ends :
      (found : Contents) (rest : Result ListError Contents)
      → Ends rest
      → Ends (with_rest found rest)
  with_rest-Ends found (ok below) h e = cc
  with_rest-Ends found (err x) h e = h e

  deeper-Ends :
      (n : ℕ) (s : S) (r : Result ListError Contents)
      (next : Contents → S × Result ListError Contents)
      → IsFine (Lower n) r
      → ((found : Contents) → All (Lower n) found.dirs → Ends (next found).1)
      → Ends (deeper s r next).1
  deeper-Ends n s (ok found) next h hn = with_rest-Ends found (next found).1 (hn found h)
  deeper-Ends n s (err x) next h hn = λ e. h (same e)
    where
      same : Path (Result ListError Contents) (err x) (err too_deep) → x ≡ too_deep
      same z = cc

  list_levels-Ends :
      (fuel : ℕ) (level : List Bytes) (s : S)
      → All (Lower fuel) level
      → Ends (list_levels client fuel level s).1
  unfolding list_levels
  list_levels-Ends zero [] s h = λ e. cc
  list_levels-Ends (suc fuel) [] s h = λ e. cc
  list_levels-Ends zero (dir ∷ level) s h = absurd (omega (arith, h.0))
  list_levels-Ends (suc fuel) (dir ∷ level) s h =
      let r = list_level client (dir ∷ level) s in
      deeper-Ends fuel r.0 r.1 (λ found. list_levels client fuel (sort_strings found.dirs) r.0)
        (list_level-IsFine fuel (dir ∷ level) s h)
        (λ found low.
          list_levels-Ends fuel (sort_strings found.dirs) r.0
            (sort_strings-All (Lower fuel) found.dirs low))

  -- Where each directory has a height, and every directory that a listing of it gives has a smaller
  -- one, listRemoteContents does not run out of levels, if their number is greater than the root's
  -- height.
  pub list_remote_contents-Ends :
      (fuel : ℕ) (root : Bytes) (s : S)
      → height root < fuel
      → (list_remote_contents client fuel root s).1 ≢ err too_deep
  unfolding list_remote_contents
  list_remote_contents-Ends fuel root s h = list_levels-Ends fuel (root ∷ []) s (h, tt)

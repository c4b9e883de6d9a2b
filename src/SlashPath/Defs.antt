-- ===== src/SlashPath/Defs.antt =====
-- path.Clean, path.Join and path.Dir of Go's standard library, by its documentation: multiple
-- slashes become one, `.` goes, `name/..` goes, and `..` at a root goes.
use easy_sftp.Prelude.{
  ℕ, zero, suc, ◌==◌, ◌≡◌, ◌≢◌, Bool, true, false, ◌||◌, if◌then◌else◌, List, [], ◌∷◌, ◌++◌,
  reverse, Bytes, codes, eq_bytes, All,
}
use easy_sftp.Strings.{split, join_parts, NoSlash, has_prefix}

abbrev pub dot : Bytes
dot = codes "."

abbrev pub dot_dot : Bytes
dot_dot = codes ".."

abbrev pub slash : Bytes
slash = codes "/"

abbrev pub replicate {ℓ} : {A : Type ℓ} → ℕ → A → List A
replicate zero a = []
replicate (suc n) a = a ∷ replicate n a

-- Where a path leads, by its text alone.
pub record Loc : Type 0 where
  pub rooted : Bool
  pub ups : ℕ
  pub names : List Bytes  -- the deepest first

-- What `..` does: it drops a name; where there is none it is kept, except at a root.
abbrev pub climb : Bool → ℕ → List Bytes → Loc
climb r u (n ∷ ns) = record { rooted = r; ups = u; names = ns }
climb true u [] = record { rooted = true; ups = u; names = [] }
climb false u [] = record { rooted = false; ups = suc u; names = [] }

unfoldable pub step : Loc → Bytes → Loc
step l c =
    if eq_bytes c [] || eq_bytes c dot
    then l
    else (if eq_bytes c dot_dot
        then climb l.rooted l.ups l.names
        else record l { names = c ∷ l.names })

unfoldable pub walk : Loc → List Bytes → Loc
walk l [] = l
walk l (c ∷ cs) = walk (step l c) cs

abbrev pub start : Bytes → Loc
start p = record { rooted = has_prefix p slash; ups = 0; names = [] }

unfoldable pub locate : Bytes → Loc
unfolding walk step
locate p = walk (start p) (split p)

-- The parts of a location's path, the outermost first.
abbrev pub parts : Loc → List Bytes
parts l = replicate l.ups dot_dot ++ reverse l.names

abbrev pub render_parts : Bool → List Bytes → Bytes
render_parts true cs = b'/' ∷ join_parts cs
render_parts false [] = dot
render_parts false (c ∷ cs) = join_parts (c ∷ cs)

unfoldable pub render : Loc → Bytes
render l = render_parts l.rooted (parts l)

-- path.Clean
unfoldable pub clean : Bytes → Bytes
unfolding locate render
clean p = render (locate p)

-- path.Join of two elements: empty elements are ignored.
unfoldable pub join : Bytes → Bytes → Bytes
unfolding clean
join [] [] = []
join [] (c ∷ b) = clean (c ∷ b)
join (c ∷ a) b = clean ((c ∷ a) ++ b'/' ∷ b)

-- What path.Split calls the directory: all up to the last slash, that included.
abbrev pub dir_part : Bytes → Bytes
dir_part [] = []
dir_part (c ∷ s) = elim (dir_part s) [ [] ↦ if c == b'/' then c ∷ [] else [] | d ∷ t ↦ c ∷ d ∷ t ]

-- path.Dir
unfoldable pub dir : Bytes → Bytes
unfolding clean
dir p = clean (dir_part p)

-- A part that names something inside its directory.
pub record IsName (s : Bytes) : Type 0 where
  pub no_slash : NoSlash s
  pub not_empty : s ≢ []
  pub not_dot : s ≢ dot
  pub not_dot_dot : s ≢ dot_dot

-- The locations that paths have: names are names, and a root has nothing above it.
pub record IsLoc (l : Loc) : Type 0 where
  pub named : All IsName l.names
  pub root_top : l.rooted ≡ true → l.ups ≡ 0

-- `inner` lies strictly below `outer`: it is reached from there through names only, at least one.
abbrev pub Below : Loc → Loc → Type 0
Below outer inner =
    (name : Bytes) × (more : List Bytes) × All IsName (name ∷ more)
    × (inner ≡ record outer { names = (name ∷ more) ++ outer.names })

-- ===== src/SlashPath/Walk.antt =====
-- Walking a path's parts: names go deeper, `..` goes up, and every location reached is one.
use easy_sftp.Prelude.{
  ℕ, zero, suc, ◌+◌, ◌≡◌, refl, sym, ap, ◌∙◌, Bool, true, false, ◌||◌, List, [], ◌∷◌, ◌++◌, reverse,
  Bytes, eq_bytes, eq_bytes_iff, Bool-cases, inl, inr, All, arith, append_assoc, reverse-append,
}
use easy_sftp.Strings.{split, NoSlash, split-All-NoSlash, has_prefix}
use easy_sftp.SlashPath.Defs.{
  Loc, IsLoc, IsName, climb, step, walk, start, locate, dot, dot_dot, replicate, slash,
}

pub step-name : (l : Loc) (c : Bytes) → IsName c → step l c ≡ record l { names = c ∷ l.names }
unfolding step
step-name l c h = ground (
  arith,
  eq_bytes_iff c [],
  eq_bytes_iff c dot,
  eq_bytes_iff c dot_dot,
  h.not_empty,
  h.not_dot,
  h.not_dot_dot,
)

pub step-dot : (l : Loc) → step l dot ≡ l
unfolding step
step-dot l = refl

pub step-dot_dot : (l : Loc) → step l dot_dot ≡ climb l.rooted l.ups l.names
unfolding step
step-dot_dot l = refl

pub step-nil : (l : Loc) → step l [] ≡ l
unfolding step
step-nil l = refl

climb-IsLoc :
    (r : Bool) (u : ℕ) (ns : List Bytes) → All IsName ns → (r ≡ true → u ≡ 0) → IsLoc (climb r u ns)
climb-IsLoc r u (n ∷ ns) h t = record { named = h.1; root_top = t }
climb-IsLoc true u [] h t = record { named = tt; root_top = t }
climb-IsLoc false u [] h t = record { named = tt; root_top = λ e. cc }

pub step-IsLoc : (l : Loc) (c : Bytes) → NoSlash c → IsLoc l → IsLoc (step l c)
unfolding step
step-IsLoc l c plain h = elim (Bool-cases (eq_bytes c [] || eq_bytes c dot)) [
  | inl skip ↦ rw skip h
  | inr go ↦ elim (Bool-cases (eq_bytes c dot_dot)) [
    | inl up ↦ rw (go, up) (climb-IsLoc l.rooted l.ups l.names h.named h.root_top)
    | inr name ↦
        rw (go, name)
          (record {
            named = (
              record {
                no_slash = plain;
                not_empty = λ e. ground (arith, eq_bytes_iff c []);
                not_dot = λ e. ground (arith, eq_bytes_iff c dot);
                not_dot_dot = λ e. ground (arith, eq_bytes_iff c dot_dot);
              },
              h.named,
            );
            root_top = h.root_top;
          })
  ]
]

pub walk-IsLoc : (l : Loc) (cs : List Bytes) → All NoSlash cs → IsLoc l → IsLoc (walk l cs)
unfolding walk
walk-IsLoc l [] plain h = h
walk-IsLoc l (c ∷ cs) plain h = walk-IsLoc (step l c) cs plain.1 (step-IsLoc l c plain.0 h)

-- Every path leads to a location.
pub locate-IsLoc : (p : Bytes) → IsLoc (locate p)
unfolding locate
locate-IsLoc p =
    walk-IsLoc (start p) (split p) (split-All-NoSlash p)
      (record { named = tt; root_top = λ e. refl })

pub walk-append : (l : Loc) (cs ds : List Bytes) → walk l (cs ++ ds) ≡ walk (walk l cs) ds
unfolding walk
walk-append l [] ds = refl
walk-append l (c ∷ cs) ds = walk-append (step l c) cs ds

-- Names go deeper, one by one.
pub walk_names :
    (l : Loc) (cs : List Bytes)
    → All IsName cs
    → walk l cs ≡ record l { names = reverse cs ++ l.names }
unfolding walk
walk_names l [] h = refl
walk_names l (c ∷ cs) h = rw (step-name l c h.0) (
    walk_names (record l { names = c ∷ l.names }) cs h.1
    ∙ ap (λ ns. record l { names = ns })
        (sym (
          ap (λ x. x ++ l.names) (reverse-append (c ∷ []) cs)
          ∙ append_assoc (reverse cs) (c ∷ []) l.names)))

pub walk_ups :
    (u k : ℕ)
    → walk (record { rooted = false; ups = u; names = [] }) (replicate k dot_dot)
      ≡ record { rooted = false; ups = u + k; names = [] }
unfolding walk step
walk_ups u zero = ap (λ v. record { rooted = false; ups = v; names = [] }) (omega arith)
walk_ups u (suc k) =
    walk_ups (suc u) k ∙ ap (λ v. record { rooted = false; ups = v; names = [] }) (omega arith)

-- A walk keeps the root.
pub step_rooted : (l : Loc) (c : Bytes) → (step l c).rooted ≡ l.rooted
unfolding step
step_rooted l c = ground arith

pub walk_rooted : (l : Loc) (cs : List Bytes) → (walk l cs).rooted ≡ l.rooted
unfolding walk
walk_rooted l [] = refl
walk_rooted l (c ∷ cs) = walk_rooted (step l c) cs ∙ step_rooted l c

-- A path is rooted when it begins with a slash.
pub locate_rooted : (p : Bytes) → (locate p).rooted ≡ has_prefix p slash
unfolding locate
locate_rooted p = walk_rooted (start p) (split p)

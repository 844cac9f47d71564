-- ===== src/Pattern/Path.antt =====
-- src/patterns.c: the checks of `patterns_load_file` on the path of a pattern file.
use plumbr_c.Prelude.{
  inr, inl, Bool-cases, not, ◌&&◌, ℕ, ◌≡◌, Bool, true, false, ◌||◌, Bytes, List, [], ◌∷◌, Option,
  none, some, ◌==◌, if◌then◌else◌, arith, refl,
}

-- `p[0] == '.' && p[1] == '.' && (p[2] == '/' || p[2] == '\0')`
unfoldable pub dots_at : Bytes → Bool
dots_at [] = false
dots_at (c ∷ []) = false
dots_at (c ∷ d ∷ []) = c == b'.' && d == b'.'
dots_at (c ∷ d ∷ e ∷ rest) = c == b'.' && d == b'.' && e == b'/'

-- `p == filename || p[-1] == '/'`; `before` is the byte before `p`.
abbrev starts_component : Option ℕ → Bool
starts_component none = true
starts_component (some c) = c == b'/'

-- The loop over the path: whether it is rejected from `p` on.
unfoldable pub climbs : Option ℕ → Bytes → Bool
unfolding dots_at
climbs before [] = false
climbs before (c ∷ cs) =
    let rest = climbs (some c) cs in
    if dots_at (c ∷ cs) && starts_component before then true else rest

-- `filename[0] == '/'`
unfoldable pub is_absolute : Bytes → Bool
is_absolute [] = false
is_absolute (c ∷ cs) = c == b'/'

-- Whether `patterns_load_file` goes on to open the file; `allowed` tells whether
-- PLUMBR_ALLOW_ABSOLUTE_PATHS is set. A C string holds no NUL, so the first check never rejects.
unfoldable pub path_accepted : Bool → Bytes → Bool
unfolding climbs is_absolute
path_accepted allowed path =
    if climbs none path then false else if is_absolute path && not allowed then false else true

-- The components of a path, between its slashes.
unfoldable pub first_component : Bytes → Bytes
first_component [] = []
first_component (c ∷ cs) = if c == b'/' then [] else c ∷ first_component cs

unfoldable pub later_components : Bytes → List Bytes
unfolding first_component
later_components [] = []
later_components (c ∷ cs) =
    let rest = later_components cs in if c == b'/' then first_component cs ∷ rest else rest

unfoldable pub components : Bytes → List Bytes
unfolding later_components
components path = first_component path ∷ later_components path

unfoldable pub is_dots : Bytes → Bool
is_dots (c ∷ d ∷ []) = c == b'.' && d == b'.'
is_dots [] = false
is_dots (c ∷ []) = false
is_dots (c ∷ d ∷ e ∷ rest) = false

abbrev pub any_dots : List Bytes → Bool
unfolding is_dots
any_dots [] = false
any_dots (p ∷ ps) = is_dots p || any_dots ps

is_dots-first_component : (path : Bytes) → is_dots (first_component path) ≡ dots_at path
unfolding is_dots first_component dots_at
is_dots-first_component [] = refl
is_dots-first_component (c ∷ []) = ground arith
is_dots-first_component (c ∷ d ∷ []) = ground arith
is_dots-first_component (c ∷ d ∷ e ∷ rest) = ground arith

dots_at-slash : (c : ℕ) (cs : Bytes) → (c == b'/') ≡ true → dots_at (c ∷ cs) ≡ false
unfolding dots_at
dots_at-slash c [] h = refl
dots_at-slash c (d ∷ []) h = ground arith
dots_at-slash c (d ∷ e ∷ cs) h = ground arith

-- From any place of the path on: at the start of a component that one counts too.
climbs-any_dots :
    (b : Option ℕ) (cs : Bytes)
    → climbs b cs
      ≡ (if starts_component b then any_dots (components cs) else any_dots (later_components cs))
unfolding climbs later_components components first_component is_dots
climbs-any_dots b [] = ground arith
climbs-any_dots b (c ∷ cs) =
    let e = climbs-any_dots (some c) cs in
    let d = is_dots-first_component (c ∷ cs) in
    elim (Bool-cases (c == b'/')) [
      | inl k ↦ ground (arith, dots_at-slash c cs k)
      | inr k ↦ elim (Bool-cases (starts_component b)) [
        | inl h ↦ ground (arith, d, e)
        | inr h ↦ ground (arith, e)
      ]
    ]

-- `patterns_load_file` opens a path exactly when no component of it is `..` and it is relative,
-- unless the environment allows absolute paths.
pub path_accepted_iff :
    (allowed : Bool) (path : Bytes)
    → path_accepted allowed path
      ≡ (not (any_dots (components path)) && (allowed || not (is_absolute path)))
unfolding path_accepted
path_accepted_iff allowed path = ground (arith, climbs-any_dots none path)

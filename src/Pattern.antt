-- ===== src/Pattern.antt =====
-- src/patterns.c: the set of patterns.
-- A C string is the list of its bytes before the NUL; a `char *` that may be NULL is an `Option`.
pub mod Path
pub mod Load
pub mod Build
mod Tests
use plumbr_c.Prelude.{
  ℕ, ◌+◌, ◌-◌, ◌*◌, ◌%◌, ◌^◌, Bool, true, false, Bytes, List, [], ◌∷◌, ◌++◌, Option, none, some,
  leb, if◌then◌else◌, length, take, get_elem?, codes,
}
use plumbr_c.Arena.{Arena, alloc}
use plumbr_c.Automaton.{State, Automaton}
use plumbr_c.Automaton.Trie.{create}

-- `PLUMBR_MAX_PATTERN_NAME`, `PLUMBR_MAX_LITERAL_LEN` and `PLUMBR_MAX_REPLACEMENT_LEN`
abbrev pub max_pattern_name : ℕ
max_pattern_name = 64

abbrev pub max_literal_len : ℕ
max_literal_len = 256

abbrev pub max_replacement_len : ℕ
max_replacement_len = 128

-- `Pattern`, over the type of PCRE2's compiled patterns. `match_data` is NULL throughout.
pub record Pattern (Code : Type 0) : Type 0 where
  pub name : Bytes
  pub literal : Bytes
  pub literal_len : ℕ
  pub regex : Code
  pub replacement : Bytes
  pub replacement_len : ℕ
  pub id : ℕ
  pub has_literal : Bool

-- `PatternSet`: `patterns` holds the cells below `count`.
pub record PatternSet (Code : Type 0) : Type 0 where
  pub patterns : List (Pattern Code)
  pub count : ℕ
  pub capacity : ℕ
  pub automaton : Option Automaton
  pub hot_ac : Option Automaton
  pub hot_count : ℕ
  pub sentinel : Option Automaton
  pub built : Bool

-- `sizeof(PatternSet)` and `sizeof(Pattern)`
abbrev pub set_bytes : ℕ
set_bytes = 80

abbrev pub pattern_bytes : ℕ
pattern_bytes = 496

-- `patterns_create`. `prior` is what the arena's cells hold where `ac_create` puts its states.
unfoldable pub create_set :
    {Code : Type 0} → Arena → (ℕ → State) → ℕ → Arena × Option (PatternSet Code)
unfolding create
create_set arena prior initial_capacity =
    let (arena1, ps) = alloc arena set_bytes in
    let (arena2, cells) = alloc arena1 (initial_capacity * pattern_bytes) in
    let (arena3, ac) = create arena2 prior in
    elim ps [
      | none ↦ (arena1, none)
      | some _ ↦ elim cells [
        | none ↦ (arena2, none)
        | some _ ↦ (
          arena3,
          some (record {
            patterns = [];
            count = 0;
            capacity = initial_capacity;
            automaton = ac;
            hot_ac = none;
            hot_count = 0;
            sentinel = none;
            built = false;
          }),
        )
      ]
    ]

-- `strncpy` of at most `size - 1` bytes into a zeroed field, with its terminator.
abbrev pub copy_string : ℕ → Bytes → Bytes
copy_string size s = take (size - 1) s

-- `if (literal && literal[0])`: the bytes copied, and `has_literal`.
unfoldable pub copy_literal : Option Bytes → Bytes × Bool
copy_literal none = ([], false)
copy_literal (some []) = ([], false)
copy_literal (some (c ∷ cs)) = (copy_string max_literal_len (c ∷ cs), true)

-- The replacement given, or "[REDACTED:%s]" of the whole name, cut by `snprintf`.
unfoldable pub copy_replacement : Option Bytes → Bytes → Bytes
copy_replacement none name =
    copy_string max_replacement_len (codes "[REDACTED:" ++ (name ++ codes "]"))
copy_replacement (some []) name =
    copy_string max_replacement_len (codes "[REDACTED:" ++ (name ++ codes "]"))
copy_replacement (some (c ∷ cs)) name = copy_string max_replacement_len (c ∷ cs)

module _ {Code : Type 0} where
  -- The pattern that `patterns_add` writes at index `id`.
  unfoldable pub new_pattern : Bytes → Option Bytes → Code → Option Bytes → ℕ → Pattern Code
  unfolding copy_literal copy_replacement
  new_pattern name literal code replacement id =
      let (lit, has) = copy_literal literal in
      let rep = copy_replacement replacement name in
      record {
        name = copy_string max_pattern_name name;
        literal = lit;
        literal_len = length lit;
        regex = code;
        replacement = rep;
        replacement_len = length rep;
        id = id;
        has_literal = has;
      }

  -- `patterns_add`; `compile` is `pcre2_compile`, `none` for NULL.
  unfoldable pub add :
      (Bytes → Option Code)
      → PatternSet Code
      → Bytes
      → Option Bytes
      → Bytes
      → Option Bytes
      → PatternSet Code × Bool
  unfolding new_pattern
  add compile ps name literal regex replacement =
      if ps.built
      then (ps, false)
      else if leb ps.capacity ps.count
      then (ps, false)
      else elim (compile regex) [
        | none ↦ (ps, false)
        | some code ↦
            let p = new_pattern name literal code replacement (ps.count % 2 ^ 32) in
            (record ps { patterns = ps.patterns ++ p ∷ []; count = ps.count + 1 }, true)
      ]

  -- `patterns_get`; `none` is NULL.
  unfoldable pub get : PatternSet Code → ℕ → Option (Pattern Code)
  get ps id = if leb ps.count id then none else get_elem? ps.patterns id

  -- `patterns_count`
  unfoldable pub count : PatternSet Code → ℕ
  count ps = ps.count

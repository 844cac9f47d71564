-- ===== src/Automaton.antt =====
-- src/aho_corasick.c: the data of the multi-pattern automaton.
-- An array is a function from its index. An `int32_t` that is -1 or a state is an `Option`, with
-- `none` for -1; an `int16_t` of the search tables is its 16-bit pattern.
pub mod Trie
pub mod Suffix
pub mod Compress
pub mod Build
pub mod Search
use plumbr_c.Prelude.{
  ℕ, ◌%◌, ◌^◌, Bool, true, false, not, ◌&&◌, Option, none, some, ltb, ◌==◌, if◌then◌else◌,
}

-- `AC_ALPHABET_SIZE`
abbrev pub alphabet_size : ℕ
alphabet_size = 256

-- `AC_MAX_STATES`
abbrev pub max_states : ℕ
max_states = 8192

-- `ACState`
pub record State : Type 0 where
  pub goto_table : ℕ → Option ℕ
  pub fail : ℕ
  pub output : Option ℕ
  pub pattern_id : ℕ
  pub depth : ℕ
  pub is_final : Bool

-- `ACMeta`
pub record Meta : Type 0 where
  pub output : Option ℕ
  pub pattern_id : ℕ
  pub depth : ℕ
  pub is_final : Bool

-- `RowIndex`
pub record RowIndex : Type 0 where
  pub offset : ℕ
  pub num_transitions : ℕ

-- `ACMatch`
pub record Match : Type 0 where
  pub position : ℕ
  pub pattern_id : ℕ
  pub length : ℕ

-- `ACAutomaton`. The pointers that the code tests for NULL are options.
pub record Automaton : Type 0 where
  pub states : ℕ → State
  pub num_states : ℕ
  pub capacity : ℕ
  pub num_patterns : ℕ
  pub built : Bool
  pub prefetch_distance : ℕ
  pub prefetch_hint : ℕ
  pub force_flat : Bool
  pub dfa : Option (ℕ → ℕ)
  pub meta : ℕ → Meta
  pub dfa_memory : ℕ
  pub root_row : Option (ℕ → ℕ)
  pub compressed : ℕ → ℕ
  pub row_index : ℕ → RowIndex
  pub compressed_size : ℕ

-- A write to an array.
abbrev pub update {ℓ} : {A : Type ℓ} → (ℕ → A) → ℕ → A → ℕ → A
update f i v j = if i == j then v else f j

-- `(int16_t)x`, as a bit pattern.
abbrev pub int16 : Option ℕ → ℕ
int16 none = 65535
int16 (some n) = n % 2 ^ 16

-- `x > 0` for an `int16_t`.
abbrev pub positive : ℕ → Bool
positive x = ltb 0 x && ltb x 32768

-- `(uint16_t)x`
abbrev pub uint16 : ℕ → ℕ
uint16 n = n % 2 ^ 16

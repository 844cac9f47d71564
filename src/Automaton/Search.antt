-- ===== src/Automaton/Search.antt =====
-- The searches over the finished tables (`ac_search`, `ac_search_all`, `ac_search_first`,
-- `ac_search_has_match`, `compressed_lookup`).
pub mod Laws
pub mod Occurrences
pub mod Correct
pub mod Built
mod Tests
use plumbr_c.Prelude.{
  ℕ, zero, suc, ◌+◌, ◌-◌, ◌*◌, ◌/◌, ◌%◌, ◌^◌, Bool, true, false, Bytes, List, [], ◌∷◌, ◌++◌, Option,
  none, some, ltb, leb, ◌==◌, if◌then◌else◌, length,
}
use plumbr_c.Automaton.{Meta, RowIndex, Match, Automaton, int16, positive, alphabet_size}

-- The 16-bit and the 64-bit word at an address, least significant byte first.
abbrev pub load16 : (ℕ → ℕ) → ℕ → ℕ
load16 mem a = mem a + 256 * mem (a + 1)

unfoldable pub load64 : (ℕ → ℕ) → ℕ → ℕ
load64 mem a =
    load16 mem a
    + 2 ^ 16 * load16 mem (a + 2)
    + 2 ^ 32 * load16 mem (a + 4)
    + 2 ^ 48 * load16 mem (a + 6)

-- The set bits among the `n` lowest (`__builtin_popcountll` at 64).
unfoldable pub popcount : ℕ → ℕ → ℕ
popcount zero x = 0
popcount (suc n) x = x % 2 + popcount n (x / 2)

-- for (int w = 0; w < word; w++) pos += popcount(bm[w]), where `bm` stands at address `a`.
unfoldable pub popcount_words : (ℕ → ℕ) → ℕ → ℕ → ℕ
unfolding load64 popcount
popcount_words mem a zero = 0
popcount_words mem a (suc w) = popcount_words mem a w + popcount 64 (load64 mem (a + 8 * w))

-- `compressed_lookup`. `bm & (1 << bit)` is the test of a digit, and `& ((1 << bit) - 1)` the
-- remainder by `1 << bit`.
unfoldable pub compressed_lookup : (ℕ → ℕ) → (ℕ → RowIndex) → ℕ → ℕ → ℕ
unfolding load64 popcount popcount_words
compressed_lookup compressed idx state c =
    let row = (idx state).offset in
    let word = c / 64 in
    let bit = c % 64 in
    let bm = load64 compressed (row + 2 + 8 * word) in
    if bm / 2 ^ bit % 2 == 0
    then load16 compressed row
    else let pos = popcount_words compressed (row + 2) word + popcount 64 (bm % 2 ^ bit) in
      load16 compressed (row + 34 + 2 * pos)

-- One transition of the flat table.
abbrev pub next_flat : (ℕ → ℕ) → ℕ → ℕ → ℕ
next_flat dfa state c = dfa (state * alphabet_size + c)

-- One transition of the compressed tables: the root has a row of its own.
abbrev pub next_compressed : (ℕ → ℕ) → (ℕ → ℕ) → (ℕ → RowIndex) → ℕ → ℕ → ℕ
next_compressed root comp ridx state c =
    if state == 0 then root c else compressed_lookup comp ridx state c

-- The table that a search goes by: the flat one if there is one, else the compressed one. A NULL
-- `root_row` beside a NULL `dfa` is `none`; the build sets `built` only behind one of them.
unfoldable pub next_of : Automaton → Option (ℕ → ℕ → ℕ)
next_of ac = elim ac.dfa [
  | some dfa ↦ some (next_flat dfa)
  | none ↦ elim ac.root_row [
    | some root ↦ some (next_compressed root ac.compressed ac.row_index)
    | none ↦ none
  ]
]

abbrev pub match_at : (ℕ → Meta) → ℕ → ℕ → Match
match_at meta i ms = record {
  position = i;
  pattern_id = (meta ms).pattern_id;
  length = (meta ms).depth;
}

module _ {S : Type 0} (callback : Match → S → S × Bool) (meta : ℕ → Meta) where
  -- while (ms > 0): the user data, and false where the callback stopped the search.
  unfoldable pub report : ℕ → ℕ → ℕ → S → S × Bool
  report zero i ms s = (s, true)
  report (suc fuel) i ms s = elim (positive ms) [
    | false ↦ (s, true)
    | true ↦
        let (s', go_on) =
          if (meta ms).is_final then callback (match_at meta i ms) s else (s, true) in
        elim go_on [ false ↦ (s', false) | true ↦ report fuel i (int16 (meta ms).output) s' ]
  ]

  -- The loop over the text from index `i`, in state `state`. `fuel` bounds each chain of outputs.
  unfoldable pub scan : ℕ → (ℕ → ℕ → ℕ) → ℕ → ℕ → Bytes → S → S
  unfolding report
  scan fuel next state i [] s = s
  scan fuel next state i (c ∷ cs) s =
      let state' = next state c in
      let (s', go_on) = report fuel i state' s in
      elim go_on [ false ↦ s' | true ↦ scan fuel next state' (i + 1) cs s' ]

-- `ac_search`
unfoldable pub search : {S : Type 0} → Automaton → Bytes → (Match → S → S × Bool) → S → S
unfolding scan next_of
search ac [] callback s = s
search ac (c ∷ cs) callback s = elim ac.built [
  | false ↦ s
  | true ↦ elim (next_of ac) [
    | none ↦ s
    | some next ↦ scan callback ac.meta ac.num_states next 0 0 (c ∷ cs) s
  ]
]

-- `search_all_callback`, on the matches collected so far.
abbrev pub search_all_callback : ℕ → Match → List Match → List Match × Bool
search_all_callback max m found =
    if leb max (length found) then (found, false) else (found ++ m ∷ [], true)

-- `ac_search_all`: the first `max` cells of the array that it fills, and their number.
unfoldable pub search_all : Automaton → Bytes → ℕ → List Match
unfolding search
search_all ac text max = search ac text (search_all_callback max) []

module _ (meta : ℕ → Meta) where
  -- The output loop of `ac_search_first`: it returns the first final state's match.
  unfoldable pub first_output : ℕ → ℕ → ℕ → Option Match
  first_output zero i ms = none
  first_output (suc fuel) i ms = elim (positive ms) [
    | false ↦ none
    | true ↦
        let rest = first_output fuel i (int16 (meta ms).output) in
        if (meta ms).is_final then some (match_at meta i ms) else rest
  ]

  -- The loop of `ac_search_first` over the text.
  unfoldable pub scan_first : ℕ → (ℕ → ℕ → ℕ) → ℕ → ℕ → Bytes → Option Match
  unfolding first_output
  scan_first fuel next state i [] = none
  scan_first fuel next state i (c ∷ cs) =
      let state' = next state c in
      let rest = scan_first fuel next state' (i + 1) cs in
      elim (first_output fuel i state') [ some m ↦ some m | none ↦ rest ]

  -- The output loop of `ac_search_has_match`.
  unfoldable pub has_output : ℕ → ℕ → Bool
  has_output zero ms = false
  has_output (suc fuel) ms = elim (positive ms) [
    | false ↦ false
    | true ↦
        let rest = has_output fuel (int16 (meta ms).output) in
        if (meta ms).is_final then true else rest
  ]

  -- The loops of `ac_search_has_match` over the text.
  unfoldable pub scan_has : ℕ → (ℕ → ℕ → ℕ) → ℕ → Bytes → Bool
  unfolding has_output
  scan_has fuel next state [] = false
  scan_has fuel next state (c ∷ cs) =
      let state' = next state c in
      let rest = scan_has fuel next state' cs in if has_output fuel state' then true else rest

-- `ac_search_first`: the outer option is `none` where the code reads through the NULL `root_row`;
-- the inner one is the match, if any. It has no branch for the flat table.
unfoldable pub search_first : Automaton → Bytes → Option (Option Match)
unfolding scan_first
search_first ac [] = some none
search_first ac (c ∷ cs) = elim ac.built [
  | false ↦ some none
  | true ↦ elim ac.root_row [
    | none ↦ none
    | some root ↦ some (
        scan_first ac.meta ac.num_states (next_compressed root ac.compressed ac.row_index) 0 0
          (c ∷ cs))
  ]
]

-- `ac_search_has_match`
unfoldable pub has_match : Automaton → Bytes → Bool
unfolding scan_has next_of
has_match ac [] = false
has_match ac (c ∷ cs) = elim ac.built [
  | false ↦ false
  | true ↦ elim (next_of ac) [
    | none ↦ false
    | some next ↦ scan_has ac.meta ac.num_states next 0 (c ∷ cs)
  ]
]

-- `ac_dfa_memory`
unfoldable pub dfa_memory : Option Automaton → ℕ
dfa_memory none = 0
dfa_memory (some ac) = ac.dfa_memory

-- `ac_get_root_transitions`: the root's row, `none` for NULL.
unfoldable pub root_transitions : Option Automaton → Option (ℕ → ℕ)
root_transitions none = none
root_transitions (some ac) = elim ac.root_row [ some row ↦ some row | none ↦ ac.dfa ]

-- ===== src/Automaton/Search/Built.antt =====
-- The searches after `ac_build`, against the words that were stored before it.
use plumbr_c.Prelude.{
  ◌∷◌, sym, inr, if◌then◌else◌, ap, ap₂, inl, refl, ◌∙◌, All, arith, ℕ_discrete, ◌≤◌, ◌≡◌, ℕ, ◌+◌,
  ◌*◌, ◌/◌, ◌%◌, ◌<◌, ◌++◌,
}
use plumbr_c.Arena.{Arena}
use plumbr_c.Automaton.{Option, none, some, false, Bool, true, State, Automaton, Match, int16}
use plumbr_c.Automaton.Trie.Walk.{IsTrie}
use plumbr_c.Automaton.Suffix.{longest_suffix-nil, longest_suffix, longest_suffix-lt}
use plumbr_c.Automaton.Compress.{measure_rows, pack_rows}
use plumbr_c.Automaton.Compress.Rows.{lookup-pack_rows}
use plumbr_c.Automaton.Build.{build, flat_table, meta_of}
use plumbr_c.Automaton.Build.Ready.{IsReady}
use plumbr_c.Automaton.Build.Complete.{Completed, complete-Completed}
use plumbr_c.Automaton.Build.Tables.{Finished, build-Finished}
use plumbr_c.Automaton.Search.{search_first, [], Bytes, next_of, next_flat, next_compressed, search}
use plumbr_c.Automaton.Search.Laws.{
  search_first-eq-head, search_first-null, head?, next_of_root, matches, matches_from, fold_until,
  search-eq-fold,
}
use plumbr_c.Automaton.Search.Occurrences.{occurrences}
use plumbr_c.Automaton.Search.Correct.{matches_from-occurrences}

next_of_flat :
    (ac : Automaton) {dfa : ℕ → ℕ} → ac.dfa ≡ some dfa → next_of ac ≡ some (next_flat dfa)
unfolding next_of
next_of_flat ac e = rw e refl

matches_next :
    (ac : Automaton) (text : Bytes) {next : ℕ → ℕ → ℕ}
    → ac.built ≡ true
    → next_of ac ≡ some next
    → matches ac text ≡ matches_from ac.meta ac.num_states next 0 0 text
unfolding matches
matches_next ac text b e = ground arith

module _ {ac : Automaton} (ok : IsReady ac) {st : ℕ → State} (full : Completed ok st) where
  abbrev v : IsTrie ac
  v = ok.trie

  -- Transitions that agree with the longest suffixes.
  abbrev Agrees : (ℕ → ℕ → ℕ) → Type 0
  Agrees next =
      (s c : ℕ)
      → s < ac.num_states
      → c < 256
      → next s c ≡ longest_suffix ac.states (v.path s ++ c ∷ [])

  entry16 :
      ac.num_states ≤ 32767
      → (s c : ℕ) → s < ac.num_states
      → c < 256
      → int16 ((st s).goto_table c) ≡ longest_suffix ac.states (v.path s ++ c ∷ [])
  entry16 small s c h k =
      ap int16 (full.goto_is s c h k)
      ∙ omega (arith, longest_suffix-lt v (v.path s ++ c ∷ []), small)

  flat_Agrees : ac.num_states ≤ 32767 → Agrees (next_flat (flat_table st))
  flat_Agrees small s c h k =
      let q : (s * 256 + c) / 256 ≡ s = omega arith in
      let r : (s * 256 + c) % 256 ≡ c = omega arith in
      ap₂ (λ (x y : ℕ). int16 ((st x).goto_table y)) q r ∙ entry16 small s c h k

  abbrev root16 : ℕ → ℕ
  root16 c = int16 ((st 0).goto_table c)

  compressed_Agrees :
      ac.num_states ≤ 32767
      → Agrees (
          next_compressed root16
            (pack_rows st ac.num_states (measure_rows st ac.num_states) (λ _. 0))
            (measure_rows st ac.num_states).row_index)
  compressed_Agrees small s c h k = elim (ℕ_discrete s 0) [
    | yes e ↦ rw e (entry16 small 0 c v.nonempty k)
    | no ne ↦
        let row = lookup-pack_rows st ac.num_states small (λ _. 0) s c (omega (arith, ne)) h k in
        let e = entry16 small s c h k in ground arith
  ]

  Finished-next :
      {ac' : Automaton}
      → Finished ac st ac'
      → (next : ℕ → ℕ → ℕ) × (next_of ac' ≡ some next) × Agrees next
  Finished-next {ac'} f = elim f.tables [
    | inl (flat, row, e) ↦ (next_flat (flat_table st), next_of_flat ac' e, flat_Agrees f.small)
    | inr (rows, no_dfa, root, idx, mem) ↦ (
      next_compressed root16 (pack_rows st ac.num_states (measure_rows st ac.num_states) (λ _. 0))
          (measure_rows st ac.num_states).row_index,
      next_of_root ac' root no_dfa ∙ rw (idx, mem) refl,
      compressed_Agrees f.small,
    )
  ]

  Finished-matches :
      {ac' : Automaton} (text : Bytes)
      → Finished ac st ac'
      → All (λ c. c < 256) text
      → matches ac' text ≡ occurrences ac text
  unfolding occurrences
  Finished-matches {ac'} text f b =
      let (next, e, agree) = Finished-next f in
      matches_next ac' text f.is_built e
      ∙ rw (f.meta_is, f.same_number) refl
      ∙ ap (λ s. matches_from (meta_of st) ac.num_states next s 0 text)
          (sym (longest_suffix-nil ac.states))
      ∙ matches_from-occurrences ok f.small full next agree [] 0 text b

  Finished-first :
      {ac' : Automaton} (c : ℕ) (cs : Bytes)
      → Finished ac st ac'
      → All (λ d. d < 256) (c ∷ cs)
      → search_first ac' (c ∷ cs)
        ≡ (if ac.force_flat then none else some (head? (occurrences ac (c ∷ cs))))
  Finished-first {ac'} c cs f b =
      let first : Option Match = head? (occurrences ac (c ∷ cs)) in
      let result : Bool → Option (Option Match) = λ flat. if flat then none else some first in
      elim f.tables [
        | inl (flat, row, e) ↦ search_first-null ac' c cs f.is_built row ∙ ap result (sym flat)
        | inr (rows, no_dfa, root, idx, mem) ↦
            search_first-eq-head ac' (c ∷ cs) no_dfa (λ e. none_ne_some (sym e ∙ root))
            ∙ ap (λ ms. some (head? ms)) (Finished-matches (c ∷ cs) f b)
            ∙ ap result (sym rows)
      ]
    where
      none_ne_some : {row : ℕ → ℕ} → none ≡ some row → ⊥
      none_ne_some e = cc

module _ (arena : Arena) {arena' : Arena} {ac ac' : Automaton} (ok : IsReady ac)
    (open_ac : ac.built ≡ false) (success : build arena ac ≡ (arena', some (ac', true))) where
  build-matches : (text : Bytes) → All (λ c. c < 256) text → matches ac' text ≡ occurrences ac text
  build-matches text b =
      let (w, e, full) = complete-Completed ok in
      Finished-matches ok full text (build-Finished arena ac w e open_ac success) b

-- After a successful `ac_build` of a trie as `ac_add_pattern` makes it, not built before, with either
-- kind of tables, `ac_search` hands the callback every occurrence of every stored word in a text of
-- bytes, and nothing else: ordered by where they end and then longest first, each with its end, its
-- length and its pattern, until the callback asks to stop.
pub search-finds_all :
    {S : Type 0} (arena : Arena) {arena' : Arena} {ac ac' : Automaton} (text : Bytes)
    (callback : Match → S → S × Bool) (s : S)
    → IsReady ac
    → ac.built ≡ false
    → build arena ac ≡ (arena', some (ac', true))
    → All (λ c. c < 256) text
    → search ac' text callback s ≡ (fold_until callback (occurrences ac text) s).0
search-finds_all arena {ac' = ac'} text callback s ok b e t =
    search-eq-fold callback ac' text s
    ∙ ap (λ ms. (fold_until callback ms s).0) (build-matches arena ok b e text t)

-- After a successful `ac_build` of a trie as `ac_add_pattern` makes it, not built before, the two
-- kinds of tables part at `ac_search_first`: on the compressed rows it gives the first occurrence of
-- a stored word in a text of bytes that is not empty, or none where there is none, and on the flat
-- table of `force_flat` it reads through the NULL root row.
pub search_first-built :
    (arena : Arena) {arena' : Arena} {ac ac' : Automaton} (c : ℕ) (cs : Bytes)
    → IsReady ac
    → ac.built ≡ false
    → build arena ac ≡ (arena', some (ac', true))
    → All (λ d. d < 256) (c ∷ cs)
    → search_first ac' (c ∷ cs)
      ≡ (if ac.force_flat then none else some (head? (occurrences ac (c ∷ cs))))
search_first-built arena {ac' = ac'} c cs ok b e t =
    let (w, done, full) = complete-Completed ok in
    Finished-first ok full c cs (build-Finished arena _ w done b e) t

-- ===== src/Automaton/Search/Laws.antt =====
-- What the searches report, against the list of all matches that the tables give.
use plumbr_c.Prelude.{
  sym, ℕ, zero, suc, ◌+◌, ◌≤◌, ◌≡◌, ◌≢◌, refl, ◌∙◌, Bool, true, false, not, Bytes, List, [], ◌∷◌,
  ◌++◌, Option, none, some, if◌then◌else◌, length, take, length-take, Option-cases, append-nil,
  append_assoc, arith, length-append, inl, inr,
}
use plumbr_c.Automaton.{Meta, Match, Automaton, int16, positive}
use plumbr_c.Automaton.Search.{
  match_at, report, scan, next_compressed, next_of, search, search_all_callback, search_all,
  first_output, scan_first, has_output, scan_has, search_first, has_match,
}

-- The final states on the output chain from `ms`, as matches that end at `i`.
unfoldable pub outputs : (ℕ → Meta) → ℕ → ℕ → ℕ → List Match
outputs meta zero i ms = []
outputs meta (suc fuel) i ms = elim (positive ms) [
  | false ↦ []
  | true ↦
      let rest = outputs meta fuel i (int16 (meta ms).output) in
      if (meta ms).is_final then match_at meta i ms ∷ rest else rest
]

-- The matches of the whole text, by where they end.
unfoldable pub matches_from : (ℕ → Meta) → ℕ → (ℕ → ℕ → ℕ) → ℕ → ℕ → Bytes → List Match
unfolding outputs
matches_from meta fuel next state i [] = []
matches_from meta fuel next state i (c ∷ cs) =
    outputs meta fuel i (next state c) ++ matches_from meta fuel next (next state c) (i + 1) cs

-- Nothing before the build is finished; then by the table that the searches go by.
unfoldable pub matches : Automaton → Bytes → List Match
unfolding matches_from
matches ac text = elim ac.built [
  | false ↦ []
  | true ↦ elim (next_of ac) [
    | none ↦ []
    | some next ↦ matches_from ac.meta ac.num_states next 0 0 text
  ]
]

-- A callback applied along a list of matches until it asks to stop.
unfoldable pub fold_until : {S : Type 0} → (Match → S → S × Bool) → List Match → S → S × Bool
fold_until callback [] s = (s, true)
fold_until callback (m ∷ ms) s =
    let (s', go_on) = callback m s in
    elim go_on [ false ↦ (s', false) | true ↦ fold_until callback ms s' ]

module _ {S : Type 0} (callback : Match → S → S × Bool) where
  fold_until-append :
      (xs ys : List Match) (s : S)
      → fold_until callback (xs ++ ys) s ≡ elim (fold_until callback xs s).1 [
        | false ↦ ((fold_until callback xs s).0, false)
        | true ↦ fold_until callback ys (fold_until callback xs s).0
      ]
  unfolding fold_until
  fold_until-append [] ys s = refl
  fold_until-append (x ∷ xs) ys s = ground (arith, fold_until-append xs ys (callback x s).0)

  report-eq-fold :
      (meta : ℕ → Meta) (fuel i ms : ℕ) (s : S)
      → report callback meta fuel i ms s ≡ fold_until callback (outputs meta fuel i ms) s
  unfolding report fold_until outputs
  report-eq-fold meta zero i ms s = refl
  report-eq-fold meta (suc fuel) i ms s = ground (
    arith,
    report-eq-fold meta fuel i (int16 (meta ms).output) s,
    report-eq-fold meta fuel i (int16 (meta ms).output) (callback (match_at meta i ms) s).0,
  )

  scan-eq-fold :
      (meta : ℕ → Meta) (fuel : ℕ) (next : ℕ → ℕ → ℕ) (state i : ℕ) (text : Bytes) (s : S)
      → scan callback meta fuel next state i text s
        ≡ (fold_until callback (matches_from meta fuel next state i text) s).0
  unfolding scan matches_from fold_until
  scan-eq-fold meta fuel next state i [] s = refl
  scan-eq-fold meta fuel next state i (c ∷ cs) s =
      let m = next state c in
      ground (
        arith,
        report-eq-fold meta fuel i m s,
        fold_until-append (outputs meta fuel i m) (matches_from meta fuel next m (i + 1) cs) s,
        scan-eq-fold meta fuel next m (i + 1) cs (report callback meta fuel i m s).0,
      )

  -- `ac_search` hands the callback exactly the matches that the tables give, in order of their
  -- end and along the output chain, until the callback asks to stop.
  pub search-eq-fold :
      (ac : Automaton) (text : Bytes) (s : S)
      → search ac text callback s ≡ (fold_until callback (matches ac text) s).0
  unfolding search matches fold_until
  search-eq-fold ac [] s = unfold matches_from in ground arith
  search-eq-fold ac (c ∷ cs) s = elim (Option-cases (next_of ac)) [
    | inl e ↦ ground arith
    | inr (next, e) ↦ ground (arith, scan-eq-fold ac.meta ac.num_states next 0 0 (c ∷ cs) s)
  ]

fold_until-collect :
    (max room : ℕ) (ms found : List Match)
    → length found + room ≡ max
    → (fold_until (search_all_callback max) ms found).0 ≡ found ++ take room ms
unfolding fold_until
fold_until-collect max zero [] found h = sym (append-nil found)
fold_until-collect max (suc room) [] found h = sym (append-nil found)
fold_until-collect max zero (m ∷ ms) found h = ground (arith, append-nil found)
fold_until-collect max (suc room) (m ∷ ms) found h = ground (
  arith,
  fold_until-collect max room ms (found ++ m ∷ []),
  length-append found (m ∷ []),
  append_assoc found (m ∷ []) (take room ms),
)

-- `ac_search_all` fills its array with the first `max` matches, in order: no match is dropped
-- before the array is full, and it is never overrun.
pub search_all-eq-take :
    (ac : Automaton) (text : Bytes) (max : ℕ)
    → (search_all ac text max ≡ take max (matches ac text))
      × (length (search_all ac text max) ≤ max)
unfolding search_all
search_all-eq-take ac text max =
    let e =
      search-eq-fold (search_all_callback max) ac text []
      ∙ fold_until-collect max max (matches ac text) [] (omega arith) in
    (e, rw e (omega (arith, length-take max (matches ac text))))

abbrev pub head? : List Match → Option Match
head? [] = none
head? (m ∷ _) = some m

abbrev pub is_empty : List Match → Bool
is_empty [] = true
is_empty (_ ∷ _) = false

first_output-eq-head :
    (meta : ℕ → Meta) (fuel i ms : ℕ) → first_output meta fuel i ms ≡ head? (outputs meta fuel i ms)
unfolding first_output outputs
first_output-eq-head meta zero i ms = refl
first_output-eq-head meta (suc fuel) i ms =
    ground (arith, first_output-eq-head meta fuel i (int16 (meta ms).output))

head?-append :
    (xs ys : List Match) → head? (xs ++ ys) ≡ elim (head? xs) [ none ↦ head? ys | some m ↦ some m ]
head?-append [] ys = refl
head?-append (x ∷ xs) ys = refl

scan_first-eq-head :
    (meta : ℕ → Meta) (fuel : ℕ) (next : ℕ → ℕ → ℕ) (state i : ℕ) (text : Bytes)
    → scan_first meta fuel next state i text ≡ head? (matches_from meta fuel next state i text)
unfolding scan_first matches_from
scan_first-eq-head meta fuel next state i [] = refl
scan_first-eq-head meta fuel next state i (c ∷ cs) =
    let m = next state c in
    ground (
      arith,
      first_output-eq-head meta fuel i m,
      head?-append (outputs meta fuel i m) (matches_from meta fuel next m (i + 1) cs),
      scan_first-eq-head meta fuel next m (i + 1) cs,
    )

has_output-eq-ne :
    (meta : ℕ → Meta) (fuel i ms : ℕ)
    → has_output meta fuel ms ≡ not (is_empty (outputs meta fuel i ms))
unfolding has_output outputs
has_output-eq-ne meta zero i ms = refl
has_output-eq-ne meta (suc fuel) i ms =
    ground (arith, has_output-eq-ne meta fuel i (int16 (meta ms).output))

is_empty-append :
    (xs ys : List Match) → is_empty (xs ++ ys) ≡ (if is_empty xs then is_empty ys else false)
is_empty-append [] ys = refl
is_empty-append (x ∷ xs) ys = refl

scan_has-eq-ne :
    (meta : ℕ → Meta) (fuel : ℕ) (next : ℕ → ℕ → ℕ) (state i : ℕ) (text : Bytes)
    → scan_has meta fuel next state text ≡ not (is_empty (matches_from meta fuel next state i text))
unfolding scan_has matches_from
scan_has-eq-ne meta fuel next state i [] = refl
scan_has-eq-ne meta fuel next state i (c ∷ cs) =
    let m = next state c in
    ground (
      arith,
      has_output-eq-ne meta fuel i m,
      is_empty-append (outputs meta fuel i m) (matches_from meta fuel next m (i + 1) cs),
      scan_has-eq-ne meta fuel next m (i + 1) cs,
    )

-- `ac_search_has_match` is true exactly when `ac_search` would report a match.
pub has_match_iff :
    (ac : Automaton) (text : Bytes) → has_match ac text ≡ not (is_empty (matches ac text))
unfolding has_match matches
has_match_iff ac [] = unfold matches_from in ground arith
has_match_iff ac (c ∷ cs) = elim (Option-cases (next_of ac)) [
  | inl e ↦ ground arith
  | inr (next, e) ↦ ground (arith, scan_has-eq-ne ac.meta ac.num_states next 0 0 (c ∷ cs))
]

pub next_of_root :
    (ac : Automaton) {root : ℕ → ℕ}
    → ac.root_row ≡ some root
    → ac.dfa ≡ none
    → next_of ac ≡ some (next_compressed root ac.compressed ac.row_index)
unfolding next_of
next_of_root ac e h = ground arith

-- On an automaton that has no flat table, `ac_search_first` gives the first match of `ac_search`,
-- or nothing when there is none.
pub search_first-eq-head :
    (ac : Automaton) (text : Bytes)
    → ac.dfa ≡ none
    → ac.root_row ≢ none
    → search_first ac text ≡ some (head? (matches ac text))
unfolding search_first matches
search_first-eq-head ac [] h r = unfold matches_from in ground arith
search_first-eq-head ac (c ∷ cs) h r = elim (Option-cases ac.root_row) [
  | inl e ↦ absurd (r e)
  | inr (root, e) ↦
      let next = next_compressed root ac.compressed ac.row_index in
      ground
        (arith, scan_first-eq-head ac.meta ac.num_states next 0 0 (c ∷ cs), next_of_root ac e h)
]

-- Where the root row is NULL, a built automaton's `ac_search_first` reads through it.
pub search_first-null :
    (ac : Automaton) (c : ℕ) (cs : Bytes)
    → ac.built ≡ true
    → ac.root_row ≡ none
    → search_first ac (c ∷ cs) ≡ none
unfolding search_first
search_first-null ac c cs b r = ground arith

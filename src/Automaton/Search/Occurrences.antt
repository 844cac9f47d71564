-- ===== src/Automaton/Search/Occurrences.antt =====
-- What the searches should find: every stored word, at every place of the text where it ends.
use plumbr_c.Prelude.{
  ap, Bool-cases, sym, ◌≤◌, inl, ◌∙◌, inr, Option-cases, ◌<◌, arith, length, refl, ◌++◌, ◌∷◌, ◌≡◌,
  List, Bytes, [], ℕ, ◌+◌, if◌then◌else◌,
}
use plumbr_c.Automaton.{false, some, none, Automaton, Match}
use plumbr_c.Automaton.Trie.Walk.{walk-nil, IsTrie, walk}
use plumbr_c.Automaton.Trie.Add.{lookup, lookup-walk-none, lookup-walk-some}
use plumbr_c.Automaton.Suffix.{
  longest_output-nil, longest_suffix-none, path-walk_root, longest_output-some, longest_output-none,
  longest_suffix-some, longest_suffix-nil, longest_suffix, longest_output,
}
use plumbr_c.Automaton.Build.Ready.{IsReady}

-- The stored suffixes of a word that ends at `i`, longest first.
unfoldable pub suffix_matches : Automaton → ℕ → Bytes → List Match
suffix_matches ac i [] = []
suffix_matches ac i (x ∷ w) =
    let rest = suffix_matches ac i w in
    elim (lookup ac (x ∷ w)) [
      | none ↦ rest
      | some id ↦ record { position = i; pattern_id = id; length = length (x ∷ w) } ∷ rest
    ]

-- Those of each prefix of a text, where `before` is already read.
unfoldable pub occurrences_from : Automaton → Bytes → ℕ → Bytes → List Match
unfolding suffix_matches
occurrences_from ac before i [] = []
occurrences_from ac before i (c ∷ cs) =
    suffix_matches ac i (before ++ c ∷ []) ++ occurrences_from ac (before ++ c ∷ []) (i + 1) cs

-- All occurrences of the stored words in a text.
unfoldable pub occurrences : Automaton → Bytes → List Match
unfolding occurrences_from
occurrences ac text = occurrences_from ac [] 0 text

module _ (ac : Automaton) (i x : ℕ) (w : Bytes) where
  pub suffix_matches-none :
      lookup ac (x ∷ w) ≡ none → suffix_matches ac i (x ∷ w) ≡ suffix_matches ac i w
  unfolding suffix_matches
  suffix_matches-none e = ground arith

  pub suffix_matches-some :
      {id : ℕ}
      → lookup ac (x ∷ w) ≡ some id
      → suffix_matches ac i (x ∷ w)
        ≡ record { position = i; pattern_id = id; length = length (x ∷ w) } ∷ suffix_matches ac i w
  unfolding suffix_matches
  suffix_matches-some e = ground arith

pub suffix_matches-nil : (ac : Automaton) (i : ℕ) → suffix_matches ac i [] ≡ []
unfolding suffix_matches
suffix_matches-nil ac i = refl

module _ {ac : Automaton} (ok : IsReady ac) (i : ℕ) where
  abbrev v : IsTrie ac
  v = ok.trie

  not_final :
      (w : Bytes) {t : ℕ}
      → walk ac.states 0 w ≡ some t
      → (ac.states t).is_final ≡ false
      → lookup ac w ≡ none
  not_final w {t} e f = lookup-walk-some ac.states 0 w t e ∙ rw f refl

  -- Without an output no proper suffix is stored.
  pub output-none :
      (x : ℕ) (w : Bytes) → longest_output ac.states (x ∷ w) ≡ none → suffix_matches ac i w ≡ []
  output-none x [] e = suffix_matches-nil ac i
  output-none x (y ∷ w) e = elim (Option-cases (walk ac.states 0 (y ∷ w))) [
    | inl g ↦
        suffix_matches-none ac i y w (lookup-walk-none ac.states 0 (y ∷ w) g)
        ∙ output-none y w (sym (longest_output-none ac.states x (y ∷ w) g) ∙ e)
    | inr (t, g) ↦
        let k = sym (longest_output-some ac.states x (y ∷ w) g) ∙ e in
        let (f, rest) = open_state t k in
        suffix_matches-none ac i y w (not_final (y ∷ w) g f) ∙ output-none y w rest
  ]
    where
      open_state :
          (t : ℕ)
          → (if (ac.states t).is_final then some t else longest_output ac.states (y ∷ w)) ≡ none
          → ((ac.states t).is_final ≡ false) × (longest_output ac.states (y ∷ w) ≡ none)
      open_state t k = ground arith

  -- The output is a stored word, and the stored proper suffixes are its own.
  pub output-some :
      (x : ℕ) (w : Bytes) (t : ℕ)
      → longest_output ac.states (x ∷ w) ≡ some t
      → (t < ac.num_states)
        × (length (v.path t) ≤ length w)
        × (suffix_matches ac i w ≡ suffix_matches ac i (v.path t))
  output-some x [] t e =
      let k = sym (longest_output-some ac.states x [] (walk-nil ac.states 0)) ∙ e in
      absurd (ground (arith, ok.root_open, longest_output-nil ac.states))
  output-some x (y ∷ w) t e = elim (Option-cases (walk ac.states 0 (y ∷ w))) [
    | inl g ↦
        let (lt, le, m) = output-some y w t (sym (longest_output-none ac.states x (y ∷ w) g) ∙ e) in
        let n = suffix_matches-none ac i y w (lookup-walk-none ac.states 0 (y ∷ w) g) in
        (lt, omega (arith, le), n ∙ m)
    | inr (u, g) ↦
        let k = sym (longest_output-some ac.states x (y ∷ w) g) ∙ e in
        elim (Bool-cases (ac.states u).is_final) [
          | inl f ↦
              let same : u ≡ t = ground arith in
              let (lt, p) = path-walk_root v (y ∷ w) (g ∙ ap some same) in
              rw p (lt, omega arith, refl)
          | inr f ↦
              let (lt, le, m) = output-some y w t (ground arith) in
              (lt, omega (arith, le), suffix_matches-none ac i y w (not_final (y ∷ w) g f) ∙ m)
        ]
  ]

  -- The stored suffixes of a word are those of its longest suffix in the trie.
  pub suffix_matches-longest :
      (w : Bytes)
      → suffix_matches ac i w ≡ suffix_matches ac i (v.path (longest_suffix ac.states w))
  suffix_matches-longest [] = rw (longest_suffix-nil ac.states, v.root) refl
  suffix_matches-longest (x ∷ w) = elim (Option-cases (walk ac.states 0 (x ∷ w))) [
    | inr (t, e) ↦ rw (longest_suffix-some ac.states x w e, (path-walk_root v (x ∷ w) e).1) refl
    | inl e ↦
        suffix_matches-none ac i x w (lookup-walk-none ac.states 0 (x ∷ w) e)
        ∙ suffix_matches-longest w
        ∙ rw (longest_suffix-none ac.states x w e) refl
  ]

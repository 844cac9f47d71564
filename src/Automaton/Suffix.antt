-- ===== src/Automaton/Suffix.antt =====
-- The longest suffix of a word that the trie holds, and the longest proper one that is a pattern:
-- what the transitions and the outputs of the finished automaton stand for.
use plumbr_c.Prelude.{
  if◌then◌else◌, ◌∙◌, inl, inr, arith, refl, Option-cases, ◌≤◌, length, ◌∷◌, ◌++◌, ◌≡◌, ◌<◌, Bytes,
  [], ℕ,
}
use plumbr_c.Automaton.{some, none, Option, Automaton, State}
use plumbr_c.Automaton.Trie.Walk.{walk-nil, IsTrie, walk, path-walk}

-- The state of the longest suffix of a word that leads from the root to a state.
unfoldable pub longest_suffix : (ℕ → State) → Bytes → ℕ
unfolding walk
longest_suffix st [] = 0
longest_suffix st (x ∷ w) = elim (walk st 0 (x ∷ w)) [ some t ↦ t | none ↦ longest_suffix st w ]

-- The final state of the longest proper suffix that is a pattern.
unfoldable pub longest_output : (ℕ → State) → Bytes → Option ℕ
unfolding walk
longest_output st [] = none
longest_output st (x ∷ w) =
    let rest = longest_output st w in
    elim (walk st 0 w) [ some t ↦ if (st t).is_final then some t else rest | none ↦ rest ]

walk-append-none :
    (st : ℕ → State) (s : ℕ) (w u : Bytes) → walk st s w ≡ none → walk st s (w ++ u) ≡ none
unfolding walk
walk-append-none st s [] u e = cc
walk-append-none st s (c ∷ cs) u e = elim (Option-cases ((st s).goto_table c)) [
  | inl g ↦ ground arith
  | inr (t, g) ↦ ground (arith, walk-append-none st t cs u)
]

module _ (st : ℕ → State) (x : ℕ) (w : Bytes) where
  pub longest_suffix-some : {t : ℕ} → walk st 0 (x ∷ w) ≡ some t → longest_suffix st (x ∷ w) ≡ t
  unfolding longest_suffix
  longest_suffix-some e = ground arith

  pub longest_suffix-none :
      walk st 0 (x ∷ w) ≡ none → longest_suffix st (x ∷ w) ≡ longest_suffix st w
  unfolding longest_suffix
  longest_suffix-none e = ground arith

  pub longest_output-some :
      {t : ℕ}
      → walk st 0 w ≡ some t
      → longest_output st (x ∷ w) ≡ (if (st t).is_final then some t else longest_output st w)
  unfolding longest_output
  longest_output-some e = ground arith

  pub longest_output-none : walk st 0 w ≡ none → longest_output st (x ∷ w) ≡ longest_output st w
  unfolding longest_output
  longest_output-none e = ground arith

pub longest_suffix-nil : (st : ℕ → State) → longest_suffix st [] ≡ 0
unfolding longest_suffix
longest_suffix-nil st = refl

pub longest_suffix-walk :
    (st : ℕ → State) (w : Bytes) {t : ℕ} → walk st 0 w ≡ some t → longest_suffix st w ≡ t
longest_suffix-walk st [] e = unfold walk longest_suffix in ground arith
longest_suffix-walk st (x ∷ w) e = longest_suffix-some st x w e

module _ {ac : Automaton} (v : IsTrie ac) where
  -- A word that leads to a state is the state's own.
  pub path-walk_root :
      (w : Bytes) {t : ℕ} → walk ac.states 0 w ≡ some t → (t < ac.num_states) × (v.path t ≡ w)
  path-walk_root w e =
      let (t_lt, t_path) = path-walk v 0 w v.nonempty e in (t_lt, rw v.root at t_path)

  pub longest_suffix-lt : (w : Bytes) → longest_suffix ac.states w < ac.num_states
  longest_suffix-lt [] = rw (longest_suffix-nil ac.states) v.nonempty
  longest_suffix-lt (x ∷ w) = elim (Option-cases (walk ac.states 0 (x ∷ w))) [
    | inr (t, e) ↦ rw (longest_suffix-some ac.states x w e) (path-walk_root (x ∷ w) e).0
    | inl e ↦ rw (longest_suffix-none ac.states x w e) (longest_suffix-lt w)
  ]

  pub length-longest_suffix : (w : Bytes) → length (v.path (longest_suffix ac.states w)) ≤ length w
  length-longest_suffix [] = rw (longest_suffix-nil ac.states, v.root) (omega arith)
  length-longest_suffix (x ∷ w) = elim (Option-cases (walk ac.states 0 (x ∷ w))) [
    | inr (t, e) ↦
        rw (longest_suffix-some ac.states x w e, (path-walk_root (x ∷ w) e).1) (omega arith)
    | inl e ↦ rw (longest_suffix-none ac.states x w e) (omega (arith, length-longest_suffix w))
  ]

  -- The longest suffix of a word and one more byte depends on the word's longest suffix alone.
  pub longest_suffix-snoc :
      (w : Bytes) (c : ℕ)
      → longest_suffix ac.states (w ++ c ∷ [])
        ≡ longest_suffix ac.states (v.path (longest_suffix ac.states w) ++ c ∷ [])
  longest_suffix-snoc [] c = rw (longest_suffix-nil ac.states, v.root) refl
  longest_suffix-snoc (x ∷ w) c = elim (Option-cases (walk ac.states 0 (x ∷ w))) [
    | inr (t, e) ↦ rw (longest_suffix-some ac.states x w e, (path-walk_root (x ∷ w) e).1) refl
    | inl e ↦
        longest_suffix-none ac.states x (w ++ c ∷ [])
          (walk-append-none ac.states 0 (x ∷ w) (c ∷ []) e)
        ∙ longest_suffix-snoc w c
        ∙ rw (longest_suffix-none ac.states x w e) refl
  ]

  -- The outputs of a word are those of the longest suffix of its tail, itself included.
  pub longest_output-suffix :
      (x : ℕ) (w : Bytes)
      → longest_output ac.states (x ∷ w) ≡ (
          if (ac.states (longest_suffix ac.states w)).is_final
          then some (longest_suffix ac.states w)
          else longest_output ac.states (v.path (longest_suffix ac.states w)))
  longest_output-suffix x [] =
      longest_output-some ac.states x [] (walk-nil ac.states 0)
      ∙ rw (longest_suffix-nil ac.states, v.root) refl
  longest_output-suffix x (y ∷ w) = elim (Option-cases (walk ac.states 0 (y ∷ w))) [
    | inr (t, e) ↦
        longest_output-some ac.states x (y ∷ w) e
        ∙ rw (longest_suffix-some ac.states y w e, (path-walk_root (y ∷ w) e).1) refl
    | inl e ↦
        longest_output-none ac.states x (y ∷ w) e
        ∙ longest_output-suffix y w
        ∙ rw (longest_suffix-none ac.states y w e) refl
  ]

pub longest_output-nil : (st : ℕ → State) → longest_output st [] ≡ none
unfolding longest_output
longest_output-nil st = refl

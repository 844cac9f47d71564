-- ===== src/Automaton/Trie/Walk.antt =====
-- The trie that the states spell before the build: the words stored, and the shape invariant.
use plumbr_c.Prelude.{
  refl, ◌&&◌, ◌∙◌, sym, ℕ, ◌+◌, ◌≤◌, ◌<◌, ◌≡◌, Bytes, [], ◌∷◌, ◌++◌, Option, none, some, ◌==◌,
  if◌then◌else◌, arith, length, append-nil, append_assoc, Option-cases, inl, inr,
}
use plumbr_c.Automaton.{State, Automaton, update, uint16}
use plumbr_c.Automaton.Trie.{fresh_state, advance, set_goto}

-- The state that the transitions lead to, if none is missing.
unfoldable pub walk : (ℕ → State) → ℕ → Bytes → Option ℕ
walk st s [] = some s
walk st s (c ∷ cs) = elim ((st s).goto_table c) [ none ↦ none | some t ↦ walk st t cs ]

-- The pattern that a word is stored under, from a state on.
unfoldable pub lookup_from : (ℕ → State) → ℕ → Bytes → Option ℕ
lookup_from st s [] = if (st s).is_final then some (st s).pattern_id else none
lookup_from st s (c ∷ cs) = elim ((st s).goto_table c) [
  | none ↦ none
  | some t ↦ lookup_from st t cs
]

-- Each state in use is reached by one word, `path`, whose length is its depth, and by no other.
pub record IsTrie (ac : Automaton) : Type 0 where
  pub path : ℕ → Bytes
  pub root : path 0 ≡ []
  pub nonempty : 0 < ac.num_states
  pub fits : ac.num_states ≤ ac.capacity
  pub edge :
      (s c t : ℕ)
      → s < ac.num_states
      → (ac.states s).goto_table c ≡ some t
      → (t < ac.num_states) × (path t ≡ path s ++ c ∷ [])
  pub reach : (s : ℕ) → s < ac.num_states → walk ac.states 0 (path s) ≡ some s
  pub depth_is : (s : ℕ) → s < ac.num_states → (ac.states s).depth ≡ uint16 (length (path s))

pub walk-append :
    (st : ℕ → State) (s : ℕ) (xs ys : Bytes) {t : ℕ}
    → walk st s xs ≡ some t
    → walk st s (xs ++ ys) ≡ walk st t ys
unfolding walk
walk-append st s [] ys h = ground arith
walk-append st s (x ∷ xs) ys {t} h = elim (Option-cases ((st s).goto_table x)) [
  | inl e ↦ ground arith
  | inr (u, e) ↦ ground (arith, walk-append st u xs ys {t = t})
]

pub walk_step :
    (st : ℕ → State) (s c : ℕ) (cs : Bytes) {u : ℕ}
    → (st s).goto_table c ≡ some u
    → walk st s (c ∷ cs) ≡ walk st u cs
unfolding walk
walk_step st s c cs e = ground arith

pub walk-nil : (st : ℕ → State) (s : ℕ) → walk st s [] ≡ some s
unfolding walk
walk-nil st s = refl

-- A walk spells the path.
pub path-walk :
    {ac : Automaton} (v : IsTrie ac) (s : ℕ) (w : Bytes) {t : ℕ}
    → s < ac.num_states
    → walk ac.states s w ≡ some t
    → (t < ac.num_states) × (v.path t ≡ v.path s ++ w)
path-walk v s [] h e = unfold walk in ground (arith, append-nil (v.path s))
path-walk {ac} v s (c ∷ cs) {t} h e = elim (Option-cases ((ac.states s).goto_table c)) [
  | inl g ↦ unfold walk in ground arith
  | inr (u, g) ↦
      let (u_lt, u_path) = v.edge s c u h g in
      let (t_lt, t_path) = path-walk v u cs u_lt (sym (walk_step ac.states s c cs g) ∙ e) in
      (t_lt, t_path ∙ rw (u_path, append_assoc))
]

-- The two ways in which the loop of `ac_add_pattern` goes on.
pub advance_old :
    (ac : Automaton) (state i c : ℕ) {n : ℕ}
    → (ac.states state).goto_table c ≡ some n
    → advance ac state i c ≡ (ac, some n)
unfolding advance
advance_old ac state i c e = ground arith

-- `ac` with the new state `num_states` as the child of `state` under `c`.
unfoldable pub add_child : Automaton → ℕ → ℕ → ℕ → Automaton
add_child ac state i c =
    set_goto
      (record ac {
        num_states = ac.num_states + 1;
        states = update ac.states ac.num_states (fresh_state (uint16 (i + 1)));
      })
      state c ac.num_states

pub advance_new :
    (ac : Automaton) (state i c : ℕ)
    → (ac.states state).goto_table c ≡ none
    → ac.num_states < ac.capacity
    → advance ac state i c ≡ (add_child ac state i c, some ac.num_states)
unfolding advance add_child
advance_new ac state i c e h = ground arith

pub advance_full :
    (ac : Automaton) (state i c : ℕ)
    → (ac.states state).goto_table c ≡ none
    → ac.capacity ≤ ac.num_states
    → advance ac state i c ≡ (ac, none)
unfolding advance
advance_full ac state i c e h = ground arith

module _ (ac : Automaton) (state i c : ℕ) (old : state < ac.num_states) where
  pub goto-add_child :
      (s d : ℕ)
      → s < ac.num_states
      → (((add_child ac state i c).states s).goto_table d
          ≡ (if s == state && d == c then some ac.num_states else (ac.states s).goto_table d))
        × (((add_child ac state i c).states s).is_final ≡ (ac.states s).is_final)
        × (((add_child ac state i c).states s).pattern_id ≡ (ac.states s).pattern_id)
        × (((add_child ac state i c).states s).depth ≡ (ac.states s).depth)
  unfolding add_child
  goto-add_child s d h = ground arith

  pub add_child_self : (add_child ac state i c).states ac.num_states ≡ fresh_state (uint16 (i + 1))
  unfolding add_child
  add_child_self = ground arith

  pub num-add_child :
      ((add_child ac state i c).num_states ≡ ac.num_states + 1)
      × ((add_child ac state i c).capacity ≡ ac.capacity)
      × ((add_child ac state i c).built ≡ ac.built)
  unfolding add_child
  num-add_child = (refl, refl, refl)

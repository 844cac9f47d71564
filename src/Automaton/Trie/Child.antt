-- ===== src/Automaton/Trie/Child.antt =====
-- A new state as a child of another one: the trie keeps its shape and its words.
use plumbr_c.Prelude.{
  length-append, ==_refl, dec_lt, ap, ℕ, ◌+◌, ◌<◌, ◌≡◌, Bytes, [], ◌∷◌, ◌++◌, none, some, arith,
  length, Option-cases, inl, inr, sym, ◌∙◌,
}
use plumbr_c.Automaton.{State, Automaton, update, uint16}
use plumbr_c.Automaton.Trie.{fresh_state}
use plumbr_c.Automaton.Trie.Walk.{
  walk-nil, walk, lookup_from, IsTrie, walk-append, walk_step, add_child, goto-add_child,
  num-add_child, add_child_self,
}

lookup_step :
    (st : ℕ → State) (s c : ℕ) (cs : Bytes) {u : ℕ}
    → (st s).goto_table c ≡ some u
    → lookup_from st s (c ∷ cs) ≡ lookup_from st u cs
unfolding lookup_from
lookup_step st s c cs e = ground arith

lookup_stop :
    (st : ℕ → State) (s c : ℕ) (cs : Bytes)
    → (st s).goto_table c ≡ none
    → lookup_from st s (c ∷ cs) ≡ none
unfolding lookup_from
lookup_stop st s c cs e = ground arith

lookup-fresh :
    (st : ℕ → State) (s d : ℕ) (w : Bytes) → st s ≡ fresh_state d → lookup_from st s w ≡ none
unfolding lookup_from
lookup-fresh st s d [] e = rw e
lookup-fresh st s d (c ∷ cs) e = lookup_stop st s c cs (ap (λ (x : State). x.goto_table c) e)

module _ {ac : Automaton} (v : IsTrie ac) (state i c : ℕ) (old : state < ac.num_states)
    (free : (ac.states state).goto_table c ≡ none) where
  goto_kept :
      (s d : ℕ) {u : ℕ}
      → s < ac.num_states
      → (ac.states s).goto_table d ≡ some u
      → ((add_child ac state i c).states s).goto_table d ≡ some u
  goto_kept s d h e = ground (arith, goto-add_child ac state i c old s d h)

  goto_added :
      (s d : ℕ) {u : ℕ}
      → s < ac.num_states
      → (ac.states s).goto_table d ≡ none
      → ((add_child ac state i c).states s).goto_table d ≡ some u
      → (u ≡ ac.num_states) × (s ≡ state) × (d ≡ c)
  goto_added s d h e k = ground (arith, goto-add_child ac state i c old s d h)

  -- A new child changes no word's pattern.
  pub lookup-add_child :
      (s : ℕ) (w : Bytes)
      → s < ac.num_states
      → lookup_from (add_child ac state i c).states s w ≡ lookup_from ac.states s w
  lookup-add_child s [] h =
      unfold lookup_from in ground (arith, goto-add_child ac state i c old s 0 h)
  lookup-add_child s (d ∷ ds) h =
      let ac' = add_child ac state i c in
      elim (Option-cases ((ac.states s).goto_table d)) [
        | inr (u, e) ↦
            lookup_step ac'.states s d ds (goto_kept s d h e)
            ∙ lookup-add_child u ds (v.edge s d u h e).0
            ∙ sym (lookup_step ac.states s d ds e)
        | inl e ↦ elim (Option-cases ((ac'.states s).goto_table d)) [
          | inl k ↦ lookup_stop ac'.states s d ds k ∙ sym (lookup_stop ac.states s d ds e)
          | inr (u, k) ↦
              lookup_step ac'.states s d ds k
              ∙ lookup-fresh ac'.states u (uint16 (i + 1)) ds
                  (rw (goto_added s d h e k).0 (add_child_self ac state i c old))
              ∙ sym (lookup_stop ac.states s d ds e)
        ]
      ]

  -- Walks stay.
  pub walk-add_child :
      (s : ℕ) (w : Bytes) (t : ℕ)
      → s < ac.num_states
      → walk ac.states s w ≡ some t
      → walk (add_child ac state i c).states s w ≡ some t
  walk-add_child s [] t h e = unfold walk in e
  walk-add_child s (d ∷ ds) t h e =
      let ac' = add_child ac state i c in
      elim (Option-cases ((ac.states s).goto_table d)) [
        | inr (u, g) ↦
            walk_step ac'.states s d ds (goto_kept s d h g)
            ∙ walk-add_child u ds t (v.edge s d u h g).0 (sym (walk_step ac.states s d ds g) ∙ e)
        | inl g ↦ unfold walk in ground arith
      ]

  pub walk_edge : walk (add_child ac state i c).states state (c ∷ []) ≡ some ac.num_states
  walk_edge =
      let ac' = add_child ac state i c in
      walk_step ac'.states state c [] (ground (arith, goto-add_child ac state i c old state c old))
      ∙ walk-nil ac'.states ac.num_states

  -- The new state is reached by the parent's word and `c`.
  pub walk_child :
      walk (add_child ac state i c).states 0 (v.path state ++ c ∷ []) ≡ some ac.num_states
  walk_child =
      walk-append (add_child ac state i c).states 0 (v.path state) (c ∷ [])
        (walk-add_child 0 (v.path state) state v.nonempty (v.reach state old))
      ∙ walk_edge

  -- The words of the states, with that of the new one.
  abbrev pub path' : ℕ → Bytes
  path' = update v.path ac.num_states (v.path state ++ c ∷ [])

  pub path'_old : (s : ℕ) → s < ac.num_states → path' s ≡ v.path s
  path'_old s h = ground arith

  path'_new : path' ac.num_states ≡ v.path state ++ c ∷ []
  path'_new = rw ==_refl

  edge_old :
      (s d t : ℕ)
      → s < ac.num_states
      → ((add_child ac state i c).states s).goto_table d ≡ some t
      → (t < ac.num_states + 1) × (path' t ≡ path' s ++ d ∷ [])
  edge_old s d t h e = elim (Option-cases ((ac.states s).goto_table d)) [
    | inr (u, g) ↦
        let (t_lt, t_path) = v.edge s d u h g in
        let same : u ≡ t = ground (arith, goto_kept s d h g) in
        rw (← same) (omega arith, path'_old u t_lt ∙ rw (path'_old s h) t_path)
    | inl g ↦
        let (t_is, s_is, d_is) = goto_added s d h g e in
        rw (t_is, s_is, d_is) (omega arith, path'_new ∙ rw (path'_old state old))
  ]

  edge-add_child :
      (s d t : ℕ)
      → s < ac.num_states + 1
      → ((add_child ac state i c).states s).goto_table d ≡ some t
      → (t < ac.num_states + 1) × (path' t ≡ path' s ++ d ∷ [])
  edge-add_child s d t h e = elim (dec_lt s ac.num_states) [
    | yes lt ↦ edge_old s d t lt e
    | no ge ↦
        let s_is : s ≡ ac.num_states = omega arith in
        let new = ap (λ (x : State). x.goto_table d) (add_child_self ac state i c old) in
        absurd (ground (arith, new))
  ]

  reach-add_child :
      (s : ℕ) → s < ac.num_states + 1 → walk (add_child ac state i c).states 0 (path' s) ≡ some s
  reach-add_child s h = elim (dec_lt s ac.num_states) [
    | yes lt ↦ rw (path'_old s lt) (walk-add_child 0 (v.path s) s v.nonempty (v.reach s lt))
    | no ge ↦ let s_is : s ≡ ac.num_states = omega arith in rw (s_is, path'_new) walk_child
  ]

  depth-add_child :
      (s : ℕ)
      → i ≡ length (v.path state)
      → s < ac.num_states + 1
      → ((add_child ac state i c).states s).depth ≡ uint16 (length (path' s))
  depth-add_child s len h = elim (dec_lt s ac.num_states) [
    | yes lt ↦ rw (path'_old s lt) ((goto-add_child ac state i c old s 0 lt).3 ∙ v.depth_is s lt)
    | no ge ↦
        let s_is : s ≡ ac.num_states = omega arith in
        let long = length-append (v.path state) (c ∷ []) in
        rw (s_is, path'_new, add_child_self ac state i c old, long, len)
  ]

  pub add_child-IsTrie :
      ac.num_states < ac.capacity → i ≡ length (v.path state) → IsTrie (add_child ac state i c)
  add_child-IsTrie room len =
      let (num, cap, _) = num-add_child ac state i c old in
      record {
        path = path';
        root = path'_old 0 v.nonempty ∙ v.root;
        nonempty = omega (arith, num);
        fits = omega (arith, num, cap);
        edge = λ s d t h e. rw num (edge-add_child s d t (rw num at h) e);
        reach = λ s h. reach-add_child s (rw num at h);
        depth_is = λ s h. depth-add_child s len (rw num at h);
      }

  -- `add_child-IsTrie` names these words.
  pub path-add_child :
      (room : ac.num_states < ac.capacity) (len : i ≡ length (v.path state)) (s : ℕ)
      → s < ac.num_states
      → (add_child-IsTrie room len).path s ≡ v.path s
  unfolding add_child-IsTrie
  path-add_child room len s h = path'_old s h

  pub path-add_child_new :
      (room : ac.num_states < ac.capacity) (len : i ≡ length (v.path state))
      → (add_child-IsTrie room len).path ac.num_states ≡ v.path state ++ c ∷ []
  unfolding add_child-IsTrie
  path-add_child_new room len = path'_new

-- ===== src/Automaton/Trie/Numbered.antt =====
-- `ac_add_pattern` numbers the states from the root on, and links none of them.
use plumbr_c.Prelude.{
  dec_lt, ap, inr, inl, ℕ_discrete, Bool-cases, Option-cases, refl, ◌≡◌, ◌≤◌, length, Option, ◌∙◌,
  arith, ℕ, ◌+◌, ◌<◌, Bytes, [], ◌∷◌, none, some, false, All,
}
use plumbr_c.Automaton.{Option, State, Automaton}
use plumbr_c.Automaton.Trie.{insert_from, add_pattern, mark_final, fresh_automaton}
use plumbr_c.Automaton.Trie.Walk.{IsTrie, add_child, goto-add_child, num-add_child, add_child_self}
use plumbr_c.Automaton.Trie.Insert.{insert_old, insert_new, insert_full}
use plumbr_c.Automaton.Trie.Add.{
  add_pattern_built, add_pattern_full, add_pattern_stored, add_pattern-IsTrie, fresh-IsTrie,
}
use plumbr_c.Automaton.Build.Ready.{IsReady}

-- Transitions under bytes to states with greater numbers, no outputs, and a root that stores no word.
record Numbered (ac : Automaton) : Type 0 where
  nonempty : 0 < ac.num_states
  unlinked : (s : ℕ) → s < ac.num_states → (ac.states s).output ≡ none
  root_open : (ac.states 0).is_final ≡ false
  newer :
      (s c t : ℕ)
      → s < ac.num_states
      → (ac.states s).goto_table c ≡ some t
      → (c < 256) × (s < t) × (t < ac.num_states)

module _ (ac : Automaton) (ok : Numbered ac) (state i c : ℕ) (old : state < ac.num_states)
    (byte : c < 256) where
  output-add_child :
      (s : ℕ) → s < ac.num_states + 1 → ((add_child ac state i c).states s).output ≡ none
  unfolding add_child
  output-add_child s h = elim (ℕ_discrete s ac.num_states) [
    | yes e ↦ ground (arith)
    | no ne ↦ ground (arith, ok.unlinked s (omega (arith, ne)))
  ]

  newer-add_child :
      (s d t : ℕ)
      → s < ac.num_states + 1
      → ((add_child ac state i c).states s).goto_table d ≡ some t
      → (d < 256) × (s < t) × (t < ac.num_states + 1)
  newer-add_child s d t h e = elim (ℕ_discrete s ac.num_states) [
    | yes q ↦
        let new = ap (λ (x : State). x.goto_table d) (add_child_self ac state i c old) in
        absurd (ground (arith))
    | no ne ↦
        let lt : s < ac.num_states = omega (arith, ne) in
        ground (arith, goto-add_child ac state i c old s d lt, ok.newer s d t lt)
  ]

  add_child-Numbered : Numbered (add_child ac state i c)
  add_child-Numbered =
      let (num, _, _) = num-add_child ac state i c old in
      record {
        nonempty = omega (arith, num);
        unlinked = λ s h. output-add_child s (rw num at h);
        root_open = (goto-add_child ac state i c old 0 c ok.nonempty).1 ∙ ok.root_open;
        newer = λ s d t h e. rw num (newer-add_child s d t (rw num at h) e);
      }

-- The states stay numbered, and the loop ends as far beyond `state` as the word is long.
abbrev Result : ℕ → Bytes → Automaton × Option ℕ → Type 0
Result state w out = Numbered out.0 × ((t : ℕ) → out.1 ≡ some t → state + length w ≤ t)

insert-Result :
    (w : Bytes) {ac : Automaton} (state i : ℕ)
    → Numbered ac
    → state < ac.num_states
    → All (λ x. x < 256) w
    → Result state w (insert_from ac state i w)
insert-Result [] state i ok old b = unfold insert_from in (ok, λ t e. ground arith)
insert-Result (c ∷ cs) {ac} state i ok old (byte, b) =
    elim (Option-cases ((ac.states state).goto_table c)) [
      | inr (n, e) ↦
          let (_, lt, n_lt) = ok.newer state c n old e in
          let (k, far) = insert-Result cs n (i + 1) ok n_lt b in
          rw (insert_old ac state i c n cs e) (k, λ t q. omega (arith, far t q))
      | inl e ↦ elim (dec_lt ac.num_states ac.capacity) [
        | no ge ↦ rw (insert_full ac state i c cs e (omega arith)) (ok, λ t q. absurd (cc))
        | yes room ↦
            let num = (num-add_child ac state i c old).0 in
            let (k, far) =
              insert-Result cs ac.num_states (i + 1) (add_child-Numbered ac ok state i c old byte)
                (omega (arith, num)) b in
            rw (insert_new ac state i c cs e room) (k, λ t q. omega (arith, far t q))
      ]
    ]

mark_final-Numbered :
    {ac : Automaton} (last id : ℕ) → 0 < last → Numbered ac → Numbered (mark_final ac last id)
mark_final-Numbered {ac} last id h ok = record {
  nonempty = ok.nonempty;
  unlinked = λ s k. ground (arith, ok.unlinked s k);
  root_open = ground (arith, ok.root_open);
  newer = λ s c t k e. ok.newer s c t k (goto_lem s c t e);
}
  where
    goto_lem :
        (s c t : ℕ)
        → ((mark_final ac last id).states s).goto_table c ≡ some t
        → (ac.states s).goto_table c ≡ some t
    goto_lem s c t e = ground arith

add_pattern-Numbered :
    {ac : Automaton} (p : Bytes) (id : ℕ)
    → Numbered ac
    → All (λ c. c < 256) p
    → Numbered (add_pattern ac p id).0
add_pattern-Numbered [] id ok b = unfold add_pattern in ok
add_pattern-Numbered {ac} (c ∷ cs) id ok b = elim (Bool-cases ac.built) [
  | inl t ↦ rw (add_pattern_built ac c cs id t) ok
  | inr f ↦
      let (k, far) = insert-Result (c ∷ cs) 0 0 ok ok.nonempty b in
      elim (Option-cases (insert_from ac 0 0 (c ∷ cs)).1) [
        | inl e ↦ rw (add_pattern_full ac c cs id f e) k
        | inr (s, e) ↦
            rw (add_pattern_stored ac c cs id s f e)
              (mark_final-Numbered s id (omega (arith, far s e)) k)
      ]
]

fresh-Numbered : (prior : ℕ → State) → Numbered (fresh_automaton prior)
fresh-Numbered prior = record {
  nonempty = omega arith;
  unlinked = λ s h. ground arith;
  root_open = refl;
  newer = λ s c t h e. absurd (ground arith);
}

Numbered-IsReady : {ac : Automaton} → IsTrie ac → Numbered ac → IsReady ac
Numbered-IsReady v ok = record {
  trie = v;
  unlinked = ok.unlinked;
  root_open = ok.root_open;
  newer = λ s c t h e. let (byte, lt, _) = ok.newer s c t h e in (byte, lt);
}

IsReady-Numbered : {ac : Automaton} → IsReady ac → Numbered ac
IsReady-Numbered ok = record {
  nonempty = ok.trie.nonempty;
  unlinked = ok.unlinked;
  root_open = ok.root_open;
  newer =
      λ s c t h e. let (byte, lt) = ok.newer s c t h e in (byte, lt, (ok.trie.edge s c t h e).0);
}

-- A new automaton is ready for the build.
pub fresh-IsReady : (prior : ℕ → State) → IsReady (fresh_automaton prior)
fresh-IsReady prior = Numbered-IsReady (fresh-IsTrie prior) (fresh-Numbered prior)

-- `ac_add_pattern` of a word of bytes keeps what the trie and the build rely on, whether it succeeds
-- or not: each state in use is reached by one word, whose length in 16 bits is its depth, and by no
-- other; transitions are under bytes and lead to states with greater numbers; no state has an output,
-- and the root is not final.
pub add_pattern-IsReady :
    {ac : Automaton} (p : Bytes) (id : ℕ)
    → IsReady ac
    → All (λ c. c < 256) p
    → IsReady (add_pattern ac p id).0
add_pattern-IsReady p id ok b =
    Numbered-IsReady (add_pattern-IsTrie p id ok.trie)
      (add_pattern-Numbered p id (IsReady-Numbered ok) b)

-- ===== src/Automaton/Trie/Insert.antt =====
-- `ac_add_pattern` stores a word in the trie and leaves every other word alone.
use plumbr_c.Prelude.{
  dec_lt, inl, length-append, ap, inr, Option-cases, refl, ◌≤◌, ℕ, ◌+◌, ◌<◌, ◌≡◌, Bytes, [], ◌∷◌,
  none, some, arith, length, ◌∙◌,
}
use plumbr_c.Automaton.{Option, Automaton}
use plumbr_c.Automaton.Trie.{insert_from}
use plumbr_c.Automaton.Trie.Walk.{
  walk-nil, walk, lookup_from, IsTrie, walk-append, walk-nil, walk_step, add_child, num-add_child,
}
use plumbr_c.Automaton.Trie.Child.{
  path-add_child_new, add_child-IsTrie, lookup-add_child, walk-add_child, path-add_child, walk_edge,
}

-- What the loop of `ac_add_pattern` does, from `state` on: it keeps the trie and every word's
-- pattern, and where it does not run out of states it ends at the state of the whole word.
pub record Inserted (ac : Automaton) (v : IsTrie ac) (state : ℕ) (w : Bytes)
    (out : Automaton × Option ℕ) : Type 0 where
  pub trie : IsTrie out.0
  pub same_path : (s : ℕ) → s < ac.num_states → trie.path s ≡ v.path s
  pub grows : ac.num_states ≤ out.0.num_states
  pub unbuilt : out.0.built ≡ ac.built
  pub same_capacity : out.0.capacity ≡ ac.capacity
  pub same_lookup :
      (s : ℕ) (u : Bytes)
      → s < ac.num_states
      → lookup_from out.0.states s u ≡ lookup_from ac.states s u
  pub same_walk :
      (s : ℕ) (u : Bytes) (t : ℕ)
      → s < ac.num_states
      → walk ac.states s u ≡ some t
      → walk out.0.states s u ≡ some t
  pub arrives : (t : ℕ) → out.1 ≡ some t → walk out.0.states state w ≡ some t
  pub full : out.1 ≡ none → out.0.num_states ≡ out.0.capacity

Inserted-nil :
    {ac : Automaton} (v : IsTrie ac) (state : ℕ) → Inserted ac v state [] (ac, some state)
Inserted-nil v state = record {
  trie = v;
  same_path = λ s h. refl;
  grows = omega arith;
  unbuilt = refl;
  same_capacity = refl;
  same_lookup = λ s u h. refl;
  same_walk = λ s u t h e. e;
  arrives = λ t e. walk-nil _ state ∙ e;
  full = λ e. cc;
}

pub insert_old :
    (ac : Automaton) (state i c n : ℕ) (cs : Bytes)
    → (ac.states state).goto_table c ≡ some n
    → insert_from ac state i (c ∷ cs) ≡ insert_from ac n (i + 1) cs
unfolding insert_from
insert_old ac state i c n cs e = ground arith

pub insert_new :
    (ac : Automaton) (state i c : ℕ) (cs : Bytes)
    → (ac.states state).goto_table c ≡ none
    → ac.num_states < ac.capacity
    → insert_from ac state i (c ∷ cs)
      ≡ insert_from (add_child ac state i c) ac.num_states (i + 1) cs
unfolding insert_from add_child
insert_new ac state i c cs e h = ground arith

pub insert_full :
    (ac : Automaton) (state i c : ℕ) (cs : Bytes)
    → (ac.states state).goto_table c ≡ none
    → ac.capacity ≤ ac.num_states
    → insert_from ac state i (c ∷ cs) ≡ (ac, none)
unfolding insert_from
insert_full ac state i c cs e h = ground arith

module _ {ac : Automaton} (v : IsTrie ac) (state i c : ℕ) (cs : Bytes) where
  Inserted-full : ac.capacity ≤ ac.num_states → Inserted ac v state (c ∷ cs) (ac, none)
  Inserted-full h = record {
    trie = v;
    same_path = λ s h. refl;
    grows = omega arith;
    unbuilt = refl;
    same_capacity = refl;
    same_lookup = λ s u h. refl;
    same_walk = λ s u t h e. e;
    arrives = λ t e. cc;
    full = λ e. omega (arith, v.fits);
  }

  Inserted-old :
      (n : ℕ) {out : Automaton × Option ℕ}
      → state < ac.num_states
      → (ac.states state).goto_table c ≡ some n
      → Inserted ac v n cs out
      → Inserted ac v state (c ∷ cs) out
  Inserted-old n {out} old e ins = record {
    trie = ins.trie;
    same_path = ins.same_path;
    grows = ins.grows;
    unbuilt = ins.unbuilt;
    same_capacity = ins.same_capacity;
    same_lookup = ins.same_lookup;
    same_walk = ins.same_walk;
    arrives = λ t a.
        walk-append out.0.states state (c ∷ []) cs
          (ins.same_walk state (c ∷ []) n old (walk_step ac.states state c [] e ∙ walk-nil _ n))
        ∙ ins.arrives t a;
    full = ins.full;
  }

  Inserted-new :
      {out : Automaton × Option ℕ} (old : state < ac.num_states)
      (free : (ac.states state).goto_table c ≡ none) (room : ac.num_states < ac.capacity)
      (len : i ≡ length (v.path state))
      → Inserted
          (add_child ac state i c)
          (add_child-IsTrie v state i c old free room len)
          ac.num_states
          cs
          out
      → Inserted ac v state (c ∷ cs) out
  Inserted-new {out} old free room len ins =
      let ac' = add_child ac state i c in
      let (num, cap, same) = num-add_child ac state i c old in
      let up =
        λ (s : ℕ) (h : s < ac.num_states). let r : s < ac'.num_states = omega (arith, num) in r in
      record {
        trie = ins.trie;
        same_path =
            λ s h. ins.same_path s (up s h) ∙ path-add_child v state i c old free room len s h;
        grows = omega (arith, num, ins.grows);
        unbuilt = ins.unbuilt ∙ same;
        same_capacity = ins.same_capacity ∙ cap;
        same_lookup =
            λ s u h. ins.same_lookup s u (up s h) ∙ lookup-add_child v state i c old free s u h;
        same_walk = λ s u t h e.
            ins.same_walk s u t (up s h) (walk-add_child v state i c old free s u t h e);
        arrives = λ t a.
            walk-append out.0.states state (c ∷ []) cs (
              ins.same_walk state (c ∷ []) ac.num_states (up state old)
                (walk_edge v state i c old free))
            ∙ ins.arrives t a;
        full = ins.full;
      }

pub insert-Inserted :
    (w : Bytes) {ac : Automaton} (v : IsTrie ac) (state i : ℕ)
    → state < ac.num_states
    → i ≡ length (v.path state)
    → Inserted ac v state w (insert_from ac state i w)
insert-Inserted [] v state i old len = unfold insert_from in Inserted-nil v state
insert-Inserted (c ∷ cs) {ac} v state i old len =
    elim (Option-cases ((ac.states state).goto_table c)) [
      | inr (n, e) ↦
          let (n_lt, n_path) = v.edge state c n old e in
          rw (insert_old ac state i c n cs e) (
            Inserted-old v state i c cs n old e (
              insert-Inserted cs v n (i + 1) n_lt
                (omega (arith, ap length n_path, length-append (v.path state) (c ∷ [])))))
      | inl e ↦ elim (dec_lt ac.num_states ac.capacity) [
        | no ge ↦
            rw (insert_full ac state i c cs e (omega arith))
              (Inserted-full v state i c cs (omega arith))
        | yes room ↦ rw (insert_new ac state i c cs e room) (
            Inserted-new v state i c cs old e room len (
              insert-Inserted cs (add_child-IsTrie v state i c old e room len) ac.num_states (i + 1)
                (omega (arith, (num-add_child ac state i c old).0))
                (omega (
                  arith,
                  ap length (path-add_child_new v state i c old e room len),
                  length-append (v.path state) (c ∷ []),
                ))))
      ]
    ]

-- ===== src/Automaton/Trie/Add.antt =====
-- `ac_add_pattern` as an insertion into a map from words to patterns.
use plumbr_c.Automaton.Trie.Insert.{Inserted, insert-Inserted}
use plumbr_c.Prelude.{
  ◌<◌, ap, ◌⊎◌, ==_refl, subst, Bool-cases, sym, ◌≢◌, ℕ, ◌≡◌, refl, ◌∙◌, Bytes, [], ◌∷◌, Option,
  none, some, ◌==◌, if◌then◌else◌, arith, inl, inr, Option-cases,
}
use plumbr_c.Automaton.{true, false, Bool, State, Automaton}
use plumbr_c.Automaton.Trie.{fresh_automaton, insert_from, add_pattern, mark_final}
use plumbr_c.Automaton.Trie.Walk.{path-walk, walk, lookup_from, IsTrie}

-- The pattern that a word was added under.
abbrev pub lookup : Automaton → Bytes → Option ℕ
lookup ac w = lookup_from ac.states 0 w

abbrev pub final_id : State → Option ℕ
final_id s = if s.is_final then some s.pattern_id else none

pub lookup-walk-none :
    (st : ℕ → State) (s : ℕ) (w : Bytes) → walk st s w ≡ none → lookup_from st s w ≡ none
unfolding walk lookup_from
lookup-walk-none st s [] e = ground arith
lookup-walk-none st s (c ∷ cs) e = elim (Option-cases ((st s).goto_table c)) [
  | inl g ↦ ground arith
  | inr (u, g) ↦ ground (arith, lookup-walk-none st u cs)
]

pub lookup-walk-some :
    (st : ℕ → State) (s : ℕ) (w : Bytes) (t : ℕ)
    → walk st s w ≡ some t
    → lookup_from st s w ≡ final_id (st t)
unfolding walk lookup_from
lookup-walk-some st s [] t e = ground arith
lookup-walk-some st s (c ∷ cs) t e = elim (Option-cases ((st s).goto_table c)) [
  | inl g ↦ ground arith
  | inr (u, g) ↦ ground (arith, lookup-walk-some st u cs t)
]

module _ (ac : Automaton) (last id : ℕ) where
  state-mark_final :
      (s : ℕ)
      → (((mark_final ac last id).states s).goto_table ≡ (ac.states s).goto_table)
        × (((mark_final ac last id).states s).depth ≡ (ac.states s).depth)
        × (final_id ((mark_final ac last id).states s)
            ≡ (if last == s then some id else final_id (ac.states s)))
  state-mark_final s = ground arith

  walk-mark_final :
      (s : ℕ) (w : Bytes) → walk (mark_final ac last id).states s w ≡ walk ac.states s w
  unfolding walk
  walk-mark_final s [] = refl
  walk-mark_final s (c ∷ cs) = elim (Option-cases ((ac.states s).goto_table c)) [
    | inl g ↦ ground (arith, (state-mark_final s).0)
    | inr (u, g) ↦ ground (arith, (state-mark_final s).0, walk-mark_final u cs)
  ]

  mark_final-IsTrie : IsTrie ac → IsTrie (mark_final ac last id)
  mark_final-IsTrie v = record {
    path = v.path;
    root = v.root;
    nonempty = v.nonempty;
    fits = v.fits;
    edge = λ s c t h e. v.edge s c t h (rw (state-mark_final s).0 at e);
    reach = λ s h. walk-mark_final 0 (v.path s) ∙ v.reach s h;
    depth_is = λ s h. (state-mark_final s).1 ∙ v.depth_is s h;
  }

-- The ways in which `ac_add_pattern` ends.
data Ends (ac : Automaton) (v : IsTrie ac) : Bytes → ℕ → Automaton × Bool → Type 0 where
  refused : {p : Bytes} {id : ℕ} → (ac.built ≡ true) ⊎ (p ≡ []) → Ends ac v p id (ac, false)
  full :
      {p : Bytes} {id : ℕ} (out : Automaton × Option ℕ)
      → Inserted ac v 0 p out
      → out.1 ≡ none
      → Ends ac v p id (out.0, false)
  stored :
      {p : Bytes} {id : ℕ} (out : Automaton × Option ℕ) (s : ℕ)
      → Inserted ac v 0 p out
      → out.1 ≡ some s
      → Ends ac v p id (mark_final out.0 s id, true)

pub add_pattern_built :
    (ac : Automaton) (c : ℕ) (cs : Bytes) (id : ℕ)
    → ac.built ≡ true
    → add_pattern ac (c ∷ cs) id ≡ (ac, false)
unfolding add_pattern
add_pattern_built ac c cs id b = rw b

pub add_pattern_full :
    (ac : Automaton) (c : ℕ) (cs : Bytes) (id : ℕ)
    → ac.built ≡ false
    → (insert_from ac 0 0 (c ∷ cs)).1 ≡ none
    → add_pattern ac (c ∷ cs) id ≡ ((insert_from ac 0 0 (c ∷ cs)).0, false)
add_pattern_full ac c cs id b e = unfold add_pattern in ground arith

pub add_pattern_stored :
    (ac : Automaton) (c : ℕ) (cs : Bytes) (id s : ℕ)
    → ac.built ≡ false
    → (insert_from ac 0 0 (c ∷ cs)).1 ≡ some s
    → add_pattern ac (c ∷ cs) id ≡ (mark_final (insert_from ac 0 0 (c ∷ cs)).0 s id, true)
add_pattern_stored ac c cs id s b e = unfold add_pattern in ground arith

inserted : {ac : Automaton} (v : IsTrie ac) (w : Bytes) → Inserted ac v 0 w (insert_from ac 0 0 w)
inserted v w = insert-Inserted w v 0 0 v.nonempty (rw v.root refl)

add_pattern-Ends :
    {ac : Automaton} (v : IsTrie ac) (p : Bytes) (id : ℕ) → Ends ac v p id (add_pattern ac p id)
add_pattern-Ends v [] id = unfold add_pattern in refused (inr refl)
add_pattern-Ends {ac} v (c ∷ cs) id = elim (Bool-cases ac.built) [
  | inl b ↦ subst (Ends ac v (c ∷ cs) id) (sym (add_pattern_built ac c cs id b)) (refused (inl b))
  | inr b ↦
      let out = insert_from ac 0 0 (c ∷ cs) in
      elim (Option-cases out.1) [
        | inl e ↦
            subst (Ends ac v (c ∷ cs) id) (sym (add_pattern_full ac c cs id b e))
              (full out (inserted v (c ∷ cs)) e)
        | inr (s, e) ↦
            subst (Ends ac v (c ∷ cs) id) (sym (add_pattern_stored ac c cs id s b e))
              (stored out s (inserted v (c ∷ cs)) e)
      ]
]

Ends-IsTrie :
    {ac : Automaton} {v : IsTrie ac} {p : Bytes} {id : ℕ} {r : Automaton × Bool}
    → Ends ac v p id r
    → IsTrie r.0
Ends-IsTrie {v = v} (refused h) = v
Ends-IsTrie (full out ins e) = ins.trie
Ends-IsTrie {id = id} (stored out s ins e) = mark_final-IsTrie out.0 s id ins.trie

Ends-self :
    {ac : Automaton} {v : IsTrie ac} {p : Bytes} {id : ℕ} {r : Automaton × Bool}
    → Ends ac v p id r
    → r.1 ≡ true
    → lookup r.0 p ≡ some id
Ends-self (refused h) d = cc
Ends-self (full out ins e) d = cc
Ends-self {p = p} {id = id} (stored out s ins e) d =
    let w = walk-mark_final out.0 s id 0 p ∙ ins.arrives s e in
    lookup-walk-some (mark_final out.0 s id).states 0 p s w
    ∙ (state-mark_final out.0 s id s).2
    ∙ rw ==_refl

-- A word that is not the stored one ends at another state, or nowhere.
mark_final_ne :
    (ac : Automaton) (last id : ℕ) (w : Bytes)
    → walk ac.states 0 w ≢ some last
    → lookup (mark_final ac last id) w ≡ lookup ac w
mark_final_ne ac last id w ne =
    let st = (mark_final ac last id).states in
    let same = walk-mark_final ac last id 0 w in
    elim (Option-cases (walk ac.states 0 w)) [
      | inl e ↦ lookup-walk-none st 0 w (same ∙ e) ∙ sym (lookup-walk-none ac.states 0 w e)
      | inr (t, e) ↦
          lookup-walk-some st 0 w t (same ∙ e)
          ∙ (state-mark_final ac last id t).2
          ∙ ne_final last t (λ (q : last ≡ t). ne (e ∙ ap some (sym q)))
          ∙ sym (lookup-walk-some ac.states 0 w t e)
    ]
  where
    ne_final :
        (a b : ℕ)
        → a ≢ b
        → (if a == b then some id else final_id (ac.states b)) ≡ final_id (ac.states b)
    ne_final a b h = ground arith

Ends-ne :
    {ac : Automaton} {v : IsTrie ac} {p : Bytes} {id : ℕ} {r : Automaton × Bool} (w : Bytes)
    → Ends ac v p id r
    → w ≢ p
    → lookup r.0 w ≡ lookup ac w
Ends-ne w (refused h) ne = refl
Ends-ne {v = v} w (full out ins e) ne = ins.same_lookup 0 w v.nonempty
Ends-ne {v = v} {p = p} {id = id} w (stored out s ins e) ne =
    let t = ins.trie in
    mark_final_ne out.0 s id w (λ q. ne (
      sym (rw t.root at (path-walk t 0 w t.nonempty q).1)
      ∙ rw t.root at (path-walk t 0 p t.nonempty (ins.arrives s e)).1))
    ∙ ins.same_lookup 0 w v.nonempty

Ends-false :
    {ac : Automaton} {v : IsTrie ac} {p : Bytes} {id : ℕ} {r : Automaton × Bool}
    → Ends ac v p id r
    → r.1 ≡ false
    → (ac.built ≡ true) ⊎ ((p ≡ []) ⊎ (r.0.num_states ≡ ac.capacity))
Ends-false (refused (inl b)) f = inl b
Ends-false (refused (inr n)) f = inr (inl n)
Ends-false (full out ins e) f = inr (inr (ins.full e ∙ ins.same_capacity))
Ends-false (stored out s ins e) f = cc

-- `ac_add_pattern` keeps the trie well formed, whether it succeeds or not.
pub add_pattern-IsTrie :
    {ac : Automaton} (p : Bytes) (id : ℕ) → IsTrie ac → IsTrie (add_pattern ac p id).0
add_pattern-IsTrie p id v = Ends-IsTrie (add_pattern-Ends v p id)

-- Where `ac_add_pattern` returns true, the word is stored under its pattern.
pub lookup-add_pattern_self :
    {ac : Automaton} (p : Bytes) (id : ℕ)
    → IsTrie ac
    → (add_pattern ac p id).1 ≡ true
    → lookup (add_pattern ac p id).0 p ≡ some id
lookup-add_pattern_self p id v done = Ends-self (add_pattern-Ends v p id) done

-- Whether it returns true or false, every other word is stored under the pattern that it had before.
pub lookup-add_pattern_ne :
    {ac : Automaton} (p w : Bytes) (id : ℕ)
    → IsTrie ac
    → w ≢ p
    → lookup (add_pattern ac p id).0 w ≡ lookup ac w
lookup-add_pattern_ne p w id v ne = Ends-ne w (add_pattern-Ends v p id) ne

-- It returns false only on a built automaton, on the empty word, or when the states have run out.
pub add_pattern-false :
    {ac : Automaton} (p : Bytes) (id : ℕ)
    → IsTrie ac
    → (add_pattern ac p id).1 ≡ false
    → (ac.built ≡ true) ⊎ (p ≡ []) ⊎ ((add_pattern ac p id).0.num_states ≡ ac.capacity)
add_pattern-false p id v f = Ends-false (add_pattern-Ends v p id) f

fresh_edge :
    (prior : ℕ → State) (s c t : ℕ)
    → s < 1
    → ((fresh_automaton prior).states s).goto_table c ≡ some t
    → ⊥
fresh_edge prior s c t h e = ground arith

fresh_reach :
    (prior : ℕ → State) (s : ℕ) → s < 1 → walk (fresh_automaton prior).states 0 [] ≡ some s
unfolding walk
fresh_reach prior s h = ground arith

fresh_depth : (prior : ℕ → State) (s : ℕ) → s < 1 → ((fresh_automaton prior).states s).depth ≡ 0
fresh_depth prior s h = ground arith

-- `ac_create` starts with the trie of the root alone, which stores no word.
pub fresh-IsTrie : (prior : ℕ → State) → IsTrie (fresh_automaton prior)
fresh-IsTrie prior = record {
  path = λ _. [];
  root = refl;
  nonempty = omega arith;
  fits = omega arith;
  edge = λ s c t h e. absurd (fresh_edge prior s c t h e);
  reach = λ s h. fresh_reach prior s h;
  depth_is = λ s h. fresh_depth prior s h;
}

-- ===== src/Pattern/Build/Literals.antt =====
-- src/patterns.c: the automaton of the literals as a map from words to patterns.
use plumbr_c.Prelude.{
  subst, ℕ, ◌+◌, ◌≡◌, ◌≢◌, ◌≤◌, Bool, true, false, ◌&&◌, Bytes, List, [], ◌∷◌, Option, some,
  if◌then◌else◌, arith, refl, length, bytes_eq, bytes_eq_iff, Bool-cases, Option-cases, inl, inr,
  All, sym, ap, ◌∙◌,
}
use plumbr_c.Automaton.{Automaton}
use plumbr_c.Automaton.Trie.{add_pattern, insert_from}
use plumbr_c.Automaton.Trie.Insert.{insert_old, insert_new}
use plumbr_c.Automaton.Trie.Walk.{add_child, IsTrie}
use plumbr_c.Automaton.Trie.Add.{
  lookup, add_pattern-IsTrie, add_pattern_stored, lookup-add_pattern_self, lookup-add_pattern_ne,
}
use plumbr_c.Pattern.{Pattern}
use plumbr_c.Pattern.Build.{ltb, add_literals, is_searched}

-- What an insertion of `w` that has room for a state for each byte leaves.
record Fits {R : Type 0} (ac : Automaton) (w : Bytes) (IsDone : R → Type 0) (out : Automaton × R)
    : Type 0 where
  states : out.0.num_states ≤ ac.num_states + length w
  capacity : out.0.capacity ≡ ac.capacity
  built : out.0.built ≡ ac.built
  done : IsDone out.1

abbrev Arrived : Option ℕ → Type 0
Arrived o = (s : ℕ) × (o ≡ some s)

sizes-add_child :
    (ac : Automaton) (state i c : ℕ)
    → ((add_child ac state i c).num_states ≡ ac.num_states + 1)
      × ((add_child ac state i c).capacity ≡ ac.capacity)
      × ((add_child ac state i c).built ≡ ac.built)
unfolding add_child
sizes-add_child ac state i c = (refl, refl, refl)

insert_from-Fits :
    (ac : Automaton) (state i : ℕ) (w : Bytes)
    → ac.num_states + length w ≤ ac.capacity
    → Fits ac w Arrived (insert_from ac state i w)
unfolding insert_from
insert_from-Fits ac state i [] h = record {
  states = omega arith;
  capacity = refl;
  built = refl;
  done = (state, refl);
}
insert_from-Fits ac state i (c ∷ cs) h = elim (Option-cases ((ac.states state).goto_table c)) [
  | inl e ↦
      let ac' = add_child ac state i c in
      let (n, k, b) = sizes-add_child ac state i c in
      let r = insert_from-Fits ac' ac.num_states (i + 1) cs (omega (arith, n, k)) in
      subst (Fits ac (c ∷ cs) Arrived) (sym (insert_new ac state i c cs e (omega arith))) (record {
        states = omega (arith, r.states, n);
        capacity = r.capacity ∙ k;
        built = r.built ∙ b;
        done = r.done;
      })
  | inr (u, e) ↦
      let r = insert_from-Fits ac u (i + 1) cs (omega arith) in
      subst (Fits ac (c ∷ cs) Arrived) (sym (insert_old ac state i c u cs e)) (record {
        states = omega (arith, r.states);
        capacity = r.capacity;
        built = r.built;
        done = r.done;
      })
]

add_pattern-Fits :
    (ac : Automaton) (c : ℕ) (cs : Bytes) (id : ℕ)
    → ac.built ≡ false
    → ac.num_states + length (c ∷ cs) ≤ ac.capacity
    → Fits ac (c ∷ cs) (λ (b : Bool). b ≡ true) (add_pattern ac (c ∷ cs) id)
add_pattern-Fits ac c cs id b h =
    let r = insert_from-Fits ac 0 0 (c ∷ cs) h in
    let (s, e) = r.done in
    subst (Fits ac (c ∷ cs) (λ (b : Bool). b ≡ true)) (sym (add_pattern_stored ac c cs id s b e))
      (record { states = r.states; capacity = r.capacity; built = r.built; done = refl })

bytes_eq_ne : (p w : Bytes) → bytes_eq p w ≡ false → w ≢ p
bytes_eq_ne p w e q = let f : true ≡ false = sym ((bytes_eq_iff p w).1 (sym q)) ∙ e in absurd cc

-- What `ac_add_pattern` does to the map from words to patterns, where it has room.
pub record Stored (ac : Automaton) (p : Bytes) (id : ℕ) (ac' : Automaton) : Type 0 where
  pub trie : IsTrie ac'
  pub states : ac'.num_states ≤ ac.num_states + length p
  pub capacity : ac'.capacity ≡ ac.capacity
  pub built : ac'.built ≡ ac.built
  pub finds : (w : Bytes) → lookup ac' w ≡ (if bytes_eq p w then some id else lookup ac w)

pub add_pattern-Stored :
    {ac : Automaton} (p : Bytes) (id : ℕ)
    → IsTrie ac
    → ac.built ≡ false
    → ltb 0 (length p) ≡ true
    → ac.num_states + length p ≤ ac.capacity
    → Stored ac p id (add_pattern ac p id).0
add_pattern-Stored [] id v b l h = cc
add_pattern-Stored {ac} (c ∷ cs) id v b l h =
    let r = add_pattern-Fits ac c cs id b h in
    let p = c ∷ cs in
    record {
      trie = add_pattern-IsTrie p id v;
      states = r.states;
      capacity = r.capacity;
      built = r.built;
      finds = λ w. elim (Bool-cases (bytes_eq p w)) [
        | inl e ↦
            ap (lookup (add_pattern ac p id).0) (sym ((bytes_eq_iff p w).0 e))
            ∙ lookup-add_pattern_self p id v r.done
            ∙ ap (λ (b : Bool). if b then some id else lookup ac w) (sym e)
        | inr e ↦
            lookup-add_pattern_ne p w id v (bytes_eq_ne p w e)
            ∙ ap (λ (b : Bool). if b then some id else lookup ac w) (sym e)
      ];
    }

module _ {Code : Type 0} where
  -- The bytes of the literals.
  unfoldable pub literal_bytes : List (Pattern Code) → ℕ
  literal_bytes [] = 0
  literal_bytes (p ∷ ps) = length p.literal + literal_bytes ps

  -- The last pattern with a literal, if there is one, and otherwise `old`.
  unfoldable pub last_with : Bytes → List (Pattern Code) → Option ℕ → Option ℕ
  last_with w [] old = old
  last_with w (p ∷ ps) old =
      last_with w ps (if is_searched p && bytes_eq p.literal w then some p.id else old)

  -- A pattern as `patterns_add` makes it: `literal_len` is its literal's length.
  abbrev pub LengthKept : Pattern Code → Type 0
  LengthKept p = p.literal_len ≡ length p.literal

  -- What a pattern that is searched for, or one that is not, does to both sides.
  searched_step :
      (ac : Automaton) (p : Pattern Code) (ps : List (Pattern Code)) (w : Bytes) (old : Option ℕ)
      → is_searched p ≡ true
      → (add_literals ac (p ∷ ps) ≡ add_literals (add_pattern ac p.literal p.id).0 ps)
        × (last_with w (p ∷ ps) old
            ≡ last_with w ps (if bytes_eq p.literal w then some p.id else old))
  unfolding add_literals last_with
  searched_step ac p ps w old e = (
    ap (λ (b : Bool). add_literals (if b then (add_pattern ac p.literal p.id).0 else ac) ps) e,
    ap (λ (b : Bool). last_with w ps (if b && bytes_eq p.literal w then some p.id else old)) e,
  )

  unsearched_step :
      (ac : Automaton) (p : Pattern Code) (ps : List (Pattern Code)) (w : Bytes) (old : Option ℕ)
      → is_searched p ≡ false
      → (add_literals ac (p ∷ ps) ≡ add_literals ac ps)
        × (last_with w (p ∷ ps) old ≡ last_with w ps old)
  unfolding add_literals last_with
  unsearched_step ac p ps w old e = (
    ap (λ (b : Bool). add_literals (if b then (add_pattern ac p.literal p.id).0 else ac) ps) e,
    ap (λ (b : Bool). last_with w ps (if b && bytes_eq p.literal w then some p.id else old)) e,
  )

  searched-nonempty :
      (p : Pattern Code) → is_searched p ≡ true → LengthKept p → ltb 0 (length p.literal) ≡ true
  searched-nonempty p e k = ground arith

  -- On an automaton that is a trie, is not built yet and has a free state for each byte of the
  -- literals, the loop of `patterns_build` stores under each word the last pattern that has it as its
  -- literal, and leaves what was stored under every other word.
  pub lookup-add_literals :
      (ps : List (Pattern Code)) (w : Bytes) {ac : Automaton}
      → IsTrie ac
      → ac.built ≡ false
      → ac.num_states + literal_bytes ps ≤ ac.capacity
      → All LengthKept ps
      → lookup (add_literals ac ps) w ≡ last_with w ps (lookup ac w)
  unfolding literal_bytes add_literals last_with
  lookup-add_literals [] w v b h k = refl
  lookup-add_literals (p ∷ ps) w {ac} v b h (kp, k) = elim (Bool-cases (is_searched p)) [
    | inl e ↦
        let r = add_pattern-Stored p.literal p.id v b (searched-nonempty p e kp) (omega arith) in
        let (left, right) = searched_step ac p ps w (lookup ac w) e in
        ap (λ (a : Automaton). lookup a w) left
        ∙ lookup-add_literals ps w r.trie (r.built ∙ b) (omega (arith, r.states, r.capacity)) k
        ∙ ap (last_with w ps) (r.finds w)
        ∙ sym right
    | inr e ↦
        let (left, right) = unsearched_step ac p ps w (lookup ac w) e in
        ap (λ (a : Automaton). lookup a w) left
        ∙ lookup-add_literals ps w v b (omega arith) k
        ∙ sym right
  ]

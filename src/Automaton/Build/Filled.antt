-- ===== src/Automaton/Build/Filled.antt =====
-- What the completion has filled in after some transitions of the trie are finished, `fin`.
use plumbr_c.Prelude.{
  ==_refl, dec_lt, ℕ_discrete, ap, ◌≢◌, ◌&&◌, ◌||◌, if◌then◌else◌, ◌==◌, ◌+◌, inr, inl, ◌∙◌,
  Bool-cases, refl, ◌⊎◌, arith, sym, [], ◌∷◌, ◌≡◌, ◌++◌, ◌<◌, Bytes, ℕ,
}
use plumbr_c.Automaton.{update, false, Option, none, some, true, Bool, State, Automaton}
use plumbr_c.Automaton.Trie.Walk.{IsTrie}
use plumbr_c.Automaton.Suffix.{longest_suffix, longest_output}
use plumbr_c.Automaton.Build.{Work, Queue, put_goto, queue_push}
use plumbr_c.Automaton.Build.Ready.{longest_suffix_path, IsReady}

-- A word without its first byte.
abbrev pub tail : Bytes → Bytes
tail [] = []
tail (x ∷ w) = w

-- `t` has been pushed on the queue.
abbrev pub Queued : Queue → ℕ → Type 0
Queued q t = (j : ℕ) × (j < q.tail) × (q.cells j ≡ t)

module _ {ac : Automaton} (v : IsTrie ac) where
  -- The state of the longest suffix of a state's word and one more byte.
  abbrev pub next_state : ℕ → ℕ → ℕ
  next_state s c = longest_suffix ac.states (v.path s ++ c ∷ [])

  -- The transition of `s` under `c` is completed if it is finished, and the trie's if not.
  abbrev pub Entry : (ℕ → ℕ → Bool) → (ℕ → State) → ℕ → ℕ → Type 0
  Entry fin st s c =
      (st s).goto_table c ≡ (if fin s c then some (next_state s c) else (ac.states s).goto_table c)

  -- What the completion leaves alone.
  abbrev pub Kept : (ℕ → State) → ℕ → Type 0
  Kept st s =
      ((st s).is_final ≡ (ac.states s).is_final)
      × ((st s).pattern_id ≡ (ac.states s).pattern_id)
      × ((st s).depth ≡ (ac.states s).depth)

  -- A state with its failure state and its output.
  abbrev pub Linked : (ℕ → State) → ℕ → Type 0
  Linked st s =
      (s < ac.num_states)
      × ((st s).fail ≡ longest_suffix ac.states (tail (v.path s)))
      × ((st s).output ≡ longest_output ac.states (v.path s))

  pub record Filled (fin : ℕ → ℕ → Bool) (w : Work) : Type 0 where
    pub entry : (s c : ℕ) → s < ac.num_states → c < 256 → Entry fin w.states s c
    pub kept : (s : ℕ) → Kept w.states s
    pub child :
        (s c t : ℕ)
        → s < ac.num_states
        → fin s c ≡ true
        → (ac.states s).goto_table c ≡ some t
        → Queued w.queue t
    pub cell : (j : ℕ) → j < w.queue.tail → Linked w.states (w.queue.cells j)
    pub parent :
        (j s c : ℕ)
        → j < w.queue.tail
        → s < ac.num_states
        → (ac.states s).goto_table c ≡ some (w.queue.cells j)
        → fin s c ≡ true
    pub root_output : (w.states 0).output ≡ none

-- One more transition finished.
abbrev pub mark : (ℕ → ℕ → Bool) → ℕ → ℕ → ℕ → ℕ → Bool
mark fin r c s d = (s == r && d == c) || fin s d

mark_true : (fin : ℕ → ℕ → Bool) (r c s d : ℕ) → fin s d ≡ true → mark fin r c s d ≡ true
mark_true fin r c s d e = ground arith

mark_inv :
    (fin : ℕ → ℕ → Bool) (r c s d : ℕ)
    → mark fin r c s d ≡ true
    → ((s ≡ r) × (d ≡ c)) ⊎ (fin s d ≡ true)
mark_inv fin r c s d e = elim (Bool-cases (fin s d)) [ inl t ↦ inr t | inr f ↦ inl (ground arith) ]

snoc-inj : (xs ys : Bytes) {a b : ℕ} → xs ++ a ∷ [] ≡ ys ++ b ∷ [] → (xs ≡ ys) × (a ≡ b)
snoc-inj [] [] e = (refl, cc)
snoc-inj [] (y ∷ []) e = absurd (ground arith)
snoc-inj [] (y ∷ z ∷ ys) e = absurd (ground arith)
snoc-inj (x ∷ []) [] e = absurd (ground arith)
snoc-inj (x ∷ z ∷ xs) [] e = absurd (ground arith)
snoc-inj (x ∷ xs) (y ∷ ys) {a} {b} e = let (p, q) = snoc-inj xs ys {a = a} {b = b} (cc) in (cc, q)

module _ {ac : Automaton} (ok : IsReady ac) where
  abbrev v : IsTrie ac
  v = ok.trie

  -- Two edges into one state are the same edge.
  edge_unique :
      (s c s' c' t : ℕ)
      → s < ac.num_states
      → s' < ac.num_states
      → (ac.states s).goto_table c ≡ some t
      → (ac.states s').goto_table c' ≡ some t
      → (s ≡ s') × (c ≡ c')
  edge_unique s c s' c' t h h' e e' =
      let (_, p) = v.edge s c t h e in
      let (_, p') = v.edge s' c' t h' e' in
      let (q, r) = snoc-inj (v.path s) (v.path s') (sym p ∙ p') in
      let both = sym (v.reach s h) ∙ rw q (v.reach s' h') in (some-inj both, r)
    where
      some-inj : {a b : ℕ} → some a ≡ some b → a ≡ b
      some-inj e = cc

  module _ (fin : ℕ → ℕ → Bool) (w : Work) (f : Filled v fin w) (r c : ℕ) (r_lt : r < ac.num_states)
      (c_lt : c < 256) where
    -- A transition that the trie lacks.
    pub Filled-missing :
        (t : Option ℕ)
        → (ac.states r).goto_table c ≡ none
        → t ≡ some (next_state v r c)
        → Filled v (mark fin r c) (record w { states = put_goto w.states r c t })
    Filled-missing t free e = record {
      entry = λ s d s_lt d_lt. entry_missing s d (f.entry s d s_lt d_lt);
      kept = λ s. kept_missing s (f.kept s);
      child = λ s d u s_lt m g. elim (mark_inv fin r c s d m) [
        | inl (p, q) ↦ absurd (ground arith)
        | inr m' ↦ f.child s d u s_lt m' g
      ];
      cell = λ j j_lt. cell_missing (w.queue.cells j) (f.cell j j_lt);
      parent = λ j s d j_lt s_lt g. mark_true fin r c s d (f.parent j s d j_lt s_lt g);
      root_output = ground (arith, f.root_output);
    }
      where
        entry_missing :
            (s d : ℕ)
            → Entry v fin w.states s d
            → Entry v (mark fin r c) (put_goto w.states r c t) s d
        entry_missing s d h = ground arith

        kept_missing : (s : ℕ) → Kept v w.states s → Kept v (put_goto w.states r c t) s
        kept_missing s h = ground arith

        cell_missing : (x : ℕ) → Linked v w.states x → Linked v (put_goto w.states r c t) x
        cell_missing x h = ground arith

    module _ (s : ℕ) (down : (ac.states r).goto_table c ≡ some s) (new : fin r c ≡ false)
        (st : ℕ → State) (others : (u : ℕ) → u ≢ s → st u ≡ w.states u)
        (same_goto : (st s).goto_table ≡ (w.states s).goto_table) (same : Kept v st s)
        (fail_is : (st s).fail ≡ longest_suffix ac.states (tail (v.path s)))
        (output_is : (st s).output ≡ longest_output ac.states (v.path s)) where
      pub unseen : (j : ℕ) → j < w.queue.tail → w.queue.cells j ≢ s
      unseen j j_lt e = ground (arith, f.parent j r c j_lt r_lt (down ∙ ap some (sym e)))

      child_lt : (s < ac.num_states) × (v.path s ≡ v.path r ++ c ∷ [])
      child_lt = v.edge r c s r_lt down

      next_is : next_state v r c ≡ s
      next_is = rw (← child_lt.1) (longest_suffix_path ok s child_lt.0)

      entry_pushed : (u d : ℕ) → Entry v fin w.states u d → Entry v (mark fin r c) st u d
      entry_pushed u d h = elim (ℕ_discrete u s) [
        | yes e ↦ ground (arith, same_goto, next_is)
        | no ne ↦ ground (arith, others u ne, next_is)
      ]

      Kept-pushed : (u : ℕ) → Kept v w.states u → Kept v st u
      Kept-pushed u h = elim (ℕ_discrete u s) [ yes e ↦ rw e same | no ne ↦ rw (others u ne) h ]

      cell_pushed :
          (j : ℕ) → j < w.queue.tail + 1 → Linked v st (update w.queue.cells w.queue.tail s j)
      cell_pushed j h = elim (dec_lt j w.queue.tail) [
        | yes lt ↦
            let old = f.cell j lt in let ne = others (w.queue.cells j) (unseen j lt) in ground arith
        | no ge ↦
            let e : j ≡ w.queue.tail = omega arith in
            rw (e, ==_refl) (child_lt.0, fail_is, output_is)
      ]

      parent_pushed :
          (j u d : ℕ)
          → j < w.queue.tail + 1
          → u < ac.num_states
          → (ac.states u).goto_table d ≡ some (update w.queue.cells w.queue.tail s j)
          → mark fin r c u d ≡ true
      parent_pushed j u d h u_lt g = elim (dec_lt j w.queue.tail) [
        | yes lt ↦ ground (arith, f.parent j u d lt u_lt)
        | no ge ↦
            let e : j ≡ w.queue.tail = omega arith in
            let g' = rw (e, ==_refl) at g in ground (arith, edge_unique u d r c s u_lt r_lt g' down)
      ]

      child_pushed :
          (u d t : ℕ)
          → u < ac.num_states
          → mark fin r c u d ≡ true
          → (ac.states u).goto_table d ≡ some t
          → Queued (queue_push w.queue s) t
      unfolding queue_push
      child_pushed u d t u_lt m g = elim (mark_inv fin r c u d m) [
        | inl (p, q) ↦ (w.queue.tail, omega arith, ground arith)
        | inr m' ↦ let (j, j_lt, e) = f.child u d t u_lt m' g in (j, omega arith, ground arith)
      ]

      -- A child with its failure state and its output, pushed on the queue.
      pub Filled-pushed :
          Filled v (mark fin r c) (record { states = st; queue = queue_push w.queue s })
      unfolding queue_push
      Filled-pushed = record {
        entry = λ u d u_lt d_lt. entry_pushed u d (f.entry u d u_lt d_lt);
        kept = λ u. Kept-pushed u (f.kept u);
        child = child_pushed;
        cell = cell_pushed;
        parent = parent_pushed;
        root_output =
            ap (λ (x : State). x.output) (others 0 (λ e. root_child (sym e))) ∙ f.root_output;
      }
        where
          root_child : s ≡ 0 → ⊥
          root_child e = ground (arith, (ok.newer r c s r_lt down).1)

-- ===== src/Automaton/Build/Front.antt =====
-- The queue of the completion: breadth-first order.
use plumbr_c.Prelude.{
  ap, ◌∙◌, inr, arith, inl, dec_lt, refl, Bool-cases, ◌||◌, if◌then◌else◌, ◌==◌, ◌+◌, ◌≢◌, ◌≤◌, ◌≡◌,
  ◌<◌, length, ℕ,
}
use plumbr_c.Automaton.{false, some, true, Bool, Automaton}
use plumbr_c.Automaton.Trie.Walk.{IsTrie}
use plumbr_c.Automaton.Build.{Queue, queue_push}

module _ {ac : Automaton} (v : IsTrie ac) where
  -- The length of a state's word.
  abbrev pub level : ℕ → ℕ
  level s = length (v.path s)

  -- The cells before `h` are done and the others are not; these stand in the order of their levels,
  -- which differ by one at most; a state that is done has a parent that is.
  pub record Front (done : ℕ → Bool) (h : ℕ) (q : Queue) : Type 0 where
    pub passed : (j : ℕ) → j < h → j < q.tail → done (q.cells j) ≡ true
    pub waiting : (j : ℕ) → h ≤ j → j < q.tail → done (q.cells j) ≡ false
    pub apart : (i j : ℕ) → h ≤ i → i < j → j < q.tail → q.cells i ≢ q.cells j
    pub levels :
        (i j : ℕ)
        → h ≤ i
        → i ≤ j
        → j < q.tail
        → (level (q.cells i) ≤ level (q.cells j)) × (level (q.cells j) ≤ level (q.cells i) + 1)
    pub root_done : done 0 ≡ true
    pub behind :
        (p c s : ℕ)
        → p < ac.num_states
        → (ac.states p).goto_table c ≡ some s
        → done s ≡ true
        → done p ≡ true

  module _ {done : ℕ → Bool} {h : ℕ} {q : Queue} (f : Front done h q) (some_left : h < q.tail) where
    module _ (s : ℕ) (up : level s ≡ level (q.cells h) + 1) (new : done s ≡ false)
        (unseen : (j : ℕ) → j < q.tail → q.cells j ≢ s) where
      cell_pushed : (j : ℕ) → (queue_push q s).cells j ≡ (if q.tail == j then s else q.cells j)
      unfolding queue_push
      cell_pushed j = refl

      levels_pushed :
          (i j : ℕ)
          → h ≤ i
          → i ≤ j
          → j < q.tail + 1
          → (level ((queue_push q s).cells i) ≤ level ((queue_push q s).cells j))
            × (level ((queue_push q s).cells j) ≤ level ((queue_push q s).cells i) + 1)
      levels_pushed i j hi ij jt = elim (dec_lt j q.tail) [
        | yes lt ↦ let e = f.levels i j hi ij lt in ground (arith, cell_pushed i, cell_pushed j)
        | no ge ↦ elim (dec_lt i q.tail) [
          | yes lt ↦
              let e = f.levels h i (omega arith) hi lt in
              ground (arith, cell_pushed i, cell_pushed j)
          | no ge' ↦ let e : i ≡ j = omega arith in rw e (omega arith)
        ]
      ]

      -- A child of the state at the head, which is neither done nor queued.
      pub Front-pushed : Front done h (queue_push q s)
      Front-pushed = record {
        passed = λ j jh jt. elim (dec_lt j q.tail) [
          | yes lt ↦ ground (arith, f.passed j jh lt, cell_pushed j)
          | no ge ↦ absurd (omega arith)
        ];
        waiting = λ j hj jt. elim (dec_lt j q.tail) [
          | yes lt ↦ ground (arith, f.waiting j hj lt, cell_pushed j)
          | no ge ↦ ground (arith, cell_pushed j, tail_lem)
        ];
        apart = λ i j hi ij jt. elim (dec_lt j q.tail) [
          | yes lt ↦ let ne = f.apart i j hi ij lt in ground (arith, cell_pushed i, cell_pushed j)
          | no ge ↦
              let lt : i < q.tail = omega (arith, tail_lem) in
              let ne = unseen i lt in ground (arith, cell_pushed i, cell_pushed j, tail_lem)
        ];
        levels = λ i j hi ij jt. levels_pushed i j hi ij (rw tail_lem at jt);
        root_done = f.root_done;
        behind = f.behind;
      }
        where
          tail_lem : (queue_push q s).tail ≡ q.tail + 1
          tail_lem = unfold queue_push in refl

    -- The state at the head, with the head moved on.
    pub Front-popped :
        (r : ℕ)
        → q.cells h ≡ r
        → ((p c : ℕ) → p < ac.num_states → (ac.states p).goto_table c ≡ some r → done p ≡ true)
        → Front (λ s. (s == r) || done s) (h + 1) q
    Front-popped r e up = record {
      passed = λ j jh jt. elim (dec_lt j h) [
        | yes lt ↦ ground (arith, f.passed j lt jt)
        | no ge ↦ let k : j ≡ h = omega arith in ground arith
      ];
      waiting = λ j hj jt.
          let ne = f.apart h j (omega arith) (omega arith) jt in
          ground (arith, f.waiting j (omega arith) jt);
      apart = λ i j hi ij jt. f.apart i j (omega arith) ij jt;
      levels = λ i j hi ij jt. f.levels i j (omega arith) ij jt;
      root_done = ground (arith, f.root_done);
      behind = λ p c s p_lt g d. behind_popped p c s p_lt g d (up p c p_lt) (f.behind p c s p_lt g);
    }
      where
        behind_popped :
            (p c s : ℕ)
            → p < ac.num_states
            → (ac.states p).goto_table c ≡ some s
            → ((s == r) || done s) ≡ true
            → ((ac.states p).goto_table c ≡ some r → done p ≡ true)
            → (done s ≡ true → done p ≡ true)
            → ((p == r) || done p) ≡ true
        behind_popped p c s p_lt g d a b = elim (Bool-cases (done s)) [
          | inl t ↦ ground (arith, b t)
          | inr n ↦ let k : s ≡ r = ground arith in ground (arith, a (g ∙ ap some k))
        ]

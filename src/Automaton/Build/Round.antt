-- ===== src/Automaton/Build/Round.antt =====
-- One byte of the state at the head of the queue (`bfs_byte`).
use plumbr_c.Prelude.{
  inr, inl, length, length-append, ◌≤◌, refl, sym, [], ◌++◌, ◌∙◌, fun_ext, ap, dec_lt, subst, arith,
  ◌∷◌, ◌≡◌, Bytes, ◌<◌, ◌+◌, ◌&&◌, ◌||◌, ◌==◌, ℕ,
}
use plumbr_c.Automaton.{some, false, true, ltb, Bool, Automaton}
use plumbr_c.Automaton.Trie.Walk.{IsTrie}
use plumbr_c.Automaton.Suffix.{
  longest_output-nil, length-longest_suffix, longest_suffix-snoc, longest_suffix-lt, longest_suffix,
  longest_output,
}
use plumbr_c.Automaton.Build.{Work}
use plumbr_c.Automaton.Build.Ready.{root_path, IsReady}
use plumbr_c.Automaton.Build.Filled.{Filled, mark, tail}
use plumbr_c.Automaton.Build.Reached.{level-done, level-Queued}
use plumbr_c.Automaton.Build.Front.{level, Front}

-- The transitions of the states that are done, and those of `r` below `i`.
abbrev pub finished : (ℕ → Bool) → ℕ → ℕ → ℕ → ℕ → Bool
finished done r i s d = (s == r && ltb d i) || done s

pub finished_step :
    (done : ℕ → Bool) (r i : ℕ) → mark (finished done r i) r i ≡ finished done r (i + 1)
finished_step done r i = fun_ext (λ s. fun_ext (λ d. step s d))
  where
    step : (s d : ℕ) → mark (finished done r i) r i s d ≡ finished done r (i + 1) s d
    step s d = ground arith

module _ {ac : Automaton} (ok : IsReady ac) (done : ℕ → Bool) (h r : ℕ) where
  abbrev v : IsTrie ac
  v = ok.trie

  -- The state `r`, at the cell `h`, is under work, and its bytes below `i` are finished.
  pub record Round (i : ℕ) (w : Work) : Type 0 where
    pub filled : Filled v (finished done r i) w
    pub front : Front v done h w.queue
    pub head_is : w.queue.head ≡ h + 1
    pub some_left : h < w.queue.tail
    pub current : w.queue.cells h ≡ r

  module _ {i : ℕ} {w : Work} (o : Round i w) where
    pub current_linked :
        (r < ac.num_states)
        × ((w.states r).fail ≡ longest_suffix ac.states (tail (v.path r)))
        × ((w.states r).output ≡ longest_output ac.states (v.path r))
    current_linked =
        subst
          (λ x.
            (x < ac.num_states)
            × ((w.states x).fail ≡ longest_suffix ac.states (tail (v.path x)))
            × ((w.states x).output ≡ longest_output ac.states (v.path x)))
          o.current (o.filled.cell h o.some_left)

    pub current_new : done r ≡ false
    current_new = ap done (sym o.current) ∙ o.front.waiting h (omega arith) o.some_left

    pub current_word : (x : ℕ) × (u : Bytes) × (v.path r ≡ x ∷ u)
    current_word = from_path (v.path r) refl
      where
        from_path : (p : Bytes) → v.path r ≡ p → (x : ℕ) × (u : Bytes) × (v.path r ≡ x ∷ u)
        from_path [] e =
            let r_root = root_path ok r current_linked.0 e in
            absurd (ground (arith, current_new, o.front.root_done))
        from_path (x ∷ u) e = (x, u, e)

    lower :
        (j : ℕ)
        → j < w.queue.tail
        → level v (w.queue.cells j) < level v r
        → done (w.queue.cells j) ≡ true
    lower j j_lt l = elim (dec_lt j h) [
      | yes lt ↦ o.front.passed j lt j_lt
      | no ge ↦
          let up = (o.front.levels h j (omega arith) (omega arith) j_lt).0 in
          absurd (omega (arith, rw o.current at up))
    ]

    module _ (x : ℕ) (u : Bytes) (word : v.path r ≡ x ∷ u) where
      fail_is : (w.states r).fail ≡ longest_suffix ac.states u
      fail_is = current_linked.1 ∙ rw word refl

      fail_done : done (longest_suffix ac.states u) ≡ true
      fail_done =
          level-done ok o.filled done (λ s c d. finished_lem s c d) o.front.root_done (level v r)
            lower (longest_suffix ac.states u) (longest_suffix-lt v u)
            (omega (arith, length-longest_suffix v u, ap length word))
        where
          finished_lem : (s c : ℕ) → done s ≡ true → finished done r i s c ≡ true
          finished_lem s c d = ground arith

      -- The transition of the failure state, which `ac_build` reads.
      pub fail_goto :
          (c : ℕ)
          → c < 256
          → (w.states (w.states r).fail).goto_table c
            ≡ some (longest_suffix ac.states (u ++ c ∷ []))
      fail_goto c c_lt = rw fail_is (
          o.filled.entry (longest_suffix ac.states u) c (longest_suffix-lt v u) c_lt
          ∙ rw (longest_suffix-snoc v u c) (ground (arith, fail_done)))

      -- The outputs of the longest suffix are known before those of the child.
      pub suffix_output :
          (c : ℕ)
          → (w.states (longest_suffix ac.states (u ++ c ∷ []))).output
            ≡ longest_output ac.states (v.path (longest_suffix ac.states (u ++ c ∷ [])))
      suffix_output c =
          let t = longest_suffix ac.states (u ++ c ∷ []) in
          let low : level v t ≤ level v r = omega (
            arith,
            length-longest_suffix v (u ++ c ∷ []),
            length-append u (c ∷ []),
            ap length word,
          ) in
          elim (level-Queued ok o.filled done (λ s c d. finished_lem s c d) o.front.root_done
            (level v r) lower t (longest_suffix-lt v (u ++ c ∷ [])) low) [
              | inl e ↦ rw (e, v.root) (o.filled.root_output ∙ sym (longest_output-nil ac.states))
              | inr (j, j_lt, e) ↦
                  subst (λ y. (w.states y).output ≡ longest_output ac.states (v.path y)) e
                    (o.filled.cell j j_lt).2
            ]
        where
          finished_lem : (s c : ℕ) → done s ≡ true → finished done r i s c ≡ true
          finished_lem s c d = ground arith

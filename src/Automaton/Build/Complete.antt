-- ===== src/Automaton/Build/Complete.antt =====
-- Steps 1 and 2 of `ac_build` together: what the completed states hold.
use plumbr_c.Prelude.{
  subst, inr, [], sym, ◌∙◌, ◌∷◌, ◌++◌, inl, length, ap, ◌≤◌, refl, arith, run_loop-invariant, ◌≡◌,
  ◌<◌, zero, suc, ℕ, ◌==◌,
}
use plumbr_c.Automaton.{some, Bool, State, Automaton}
use plumbr_c.Automaton.Trie.Walk.{IsTrie}
use plumbr_c.Automaton.Suffix.{longest_suffix, longest_output, longest_output-nil}
use plumbr_c.Automaton.Build.{run_loop, Work, root_byte, complete}
use plumbr_c.Automaton.Build.Ready.{IsReady}
use plumbr_c.Automaton.Build.Filled.{Kept}
use plumbr_c.Automaton.Build.Front.{level}
use plumbr_c.Automaton.Build.Reached.{level-Queued}
use plumbr_c.Automaton.Build.Root.{RootRound, root_byte-RootRound}
use plumbr_c.Automaton.Build.Loop.{undone, Between, bfs-all, all_done, Filled-ext}

undone-le : (done : ℕ → Bool) (n : ℕ) → undone done n ≤ n
unfolding undone
undone-le done zero = omega arith
undone-le done (suc n) = ground (arith, undone-le done n)

module _ {ac : Automaton} (ok : IsReady ac) where
  abbrev v : IsTrie ac
  v = ok.trie

  -- The state that the walk reads and the outputs that it reports, at each state in use.
  pub record Completed (st : ℕ → State) : Type 0 where
    pub goto_is :
        (s c : ℕ)
        → s < ac.num_states
        → c < 256
        → (st s).goto_table c ≡ some (longest_suffix ac.states (v.path s ++ c ∷ []))
    pub output_is :
        (s : ℕ) → s < ac.num_states → (st s).output ≡ longest_output ac.states (v.path s)
    pub kept : (s : ℕ) → Kept v st s

  abbrev at_start : Work
  at_start = record {
    states = ac.states;
    queue = record { cells = λ _. 0; head = 0; tail = 0; capacity = ac.num_states };
  }

  root_start : RootRound ok 0 at_start
  root_start = record {
    filled = record {
      entry = λ s c h k. ground arith;
      kept = λ s. (refl, refl, refl);
      child = λ s c t h m g. absurd (ground arith);
      cell = λ j h. absurd (omega arith);
      parent = λ j s c h k g. absurd (omega arith);
      root_output = ok.unlinked 0 v.nonempty;
    };
    head_is = refl;
    apart = λ j k jk h. absurd (omega arith);
    one = λ j h. absurd (omega arith);
    no_output = ok.unlinked;
  }

  abbrev after_root : Work
  after_root = run_loop root_byte 0 256 at_start

  root_end : RootRound ok 256 after_root
  root_end =
      run_loop-invariant root_byte (λ i w. RootRound ok i w) 0 256 at_start
        (λ i w lo hi o. root_byte-RootRound ok i o (omega arith)) root_start

  first_front : (w : Work) → RootRound ok 256 w → Between ok (λ s. s == 0) w
  first_front w o = record {
    filled = Filled-ext ok (λ s d h. ground arith) o.filled;
    front = record {
      passed = λ j h k. absurd (omega (arith, o.head_is));
      waiting = λ j h k. let one = o.one j k in let root = ap length v.root in ground arith;
      apart = λ i j hi ij jt. o.apart i j ij jt;
      levels = λ i j hi ij jt. omega (arith, o.one i (omega arith), o.one j jt);
      root_done = refl;
      behind = λ p c s h g d. let lt = (ok.newer p c s h g).1 in absurd (ground arith);
    };
  }

  -- `complete` gives a result: no transition is read before it is there.
  pub complete-Completed :
      (w : Work) × (complete ac.states ac.num_states ≡ some w) × Completed w.states
  complete-Completed =
      let (w, done, e, b, h) =
        bfs-all ok ac.num_states (λ s. s == 0) after_root (first_front after_root root_end)
          (undone-le (λ s. s == 0) ac.num_states) in
      (
        w,
        unfold complete in e,
        record {
          goto_is = λ s c s_lt c_lt.
              b.filled.entry s c s_lt c_lt ∙ rw (all_done ok done w b h s s_lt) refl;
          output_is = λ s s_lt. output_lem done w b h s s_lt;
          kept = b.filled.kept;
        },
      )
    where
      output_lem :
          (done : ℕ → Bool) (w : Work) (b : Between ok done w)
          → w.queue.tail ≤ w.queue.head
          → (s : ℕ) → s < ac.num_states
          → (w.states s).output ≡ longest_output ac.states (v.path s)
      output_lem done w b h s s_lt =
          elim (level-Queued ok b.filled done (λ s c d. d) b.front.root_done (level v s)
            (λ j j_lt l. b.front.passed j (omega arith) j_lt) s s_lt (omega arith)) [
              | inl e ↦ rw (e, v.root) (b.filled.root_output ∙ sym (longest_output-nil ac.states))
              | inr (j, j_lt, e) ↦
                  subst (λ y. (w.states y).output ≡ longest_output ac.states (v.path y)) e
                    (b.filled.cell j j_lt).2
            ]

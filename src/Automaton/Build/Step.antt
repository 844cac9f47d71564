-- ===== src/Automaton/Build/Step.antt =====
-- `bfs_byte` keeps what the round has established.
use plumbr_c.Prelude.{
  inr, Option-cases, inl, Bool-cases, length, length-append, if◌then◌else◌, sym, ap, subst, [],
  ◌++◌, ◌∷◌, ◌∙◌, refl, Bytes, arith, ◌<◌, ◌≡◌, ◌≢◌, ℕ, ◌+◌,
}
use plumbr_c.Automaton.{false, none, some, Bool, State, Automaton}
use plumbr_c.Automaton.Trie.Walk.{walk-append, IsTrie, walk}
use plumbr_c.Automaton.Suffix.{
  longest_output-suffix, length-longest_suffix, longest_suffix-none, longest_suffix, longest_output,
}
use plumbr_c.Automaton.Build.{Work, bfs_byte, link, put_goto, queue_push}
use plumbr_c.Automaton.Build.Ready.{IsReady}
use plumbr_c.Automaton.Build.Filled.{
  unseen, Filled-pushed, Kept, Filled-missing, Filled, next_state, tail,
}
use plumbr_c.Automaton.Build.Front.{Front-pushed, level}
use plumbr_c.Automaton.Build.Round.{
  suffix_output, current_word, fail_goto, finished_step, current_new, finished, current_linked,
  Round,
}

module _ (r c : ℕ) (w : Work) where
  bfs_byte_child :
      (s f : ℕ)
      → (w.states r).goto_table c ≡ some s
      → (w.states (w.states r).fail).goto_table c ≡ some f
      → bfs_byte r c (some w)
        ≡ some (record { states = link w.states s f; queue = queue_push w.queue s })
  unfolding bfs_byte
  bfs_byte_child s f e g = rw (e, g) refl

  bfs_byte_missing :
      (w.states r).goto_table c ≡ none
      → bfs_byte r c (some w)
        ≡ some (record w {
          states = put_goto w.states r c ((w.states (w.states r).fail).goto_table c);
        })
  unfolding bfs_byte
  bfs_byte_missing e = rw e refl

module _ (st : ℕ → State) (s f : ℕ) where
  link-ne : (u : ℕ) → u ≢ s → link st s f u ≡ st u
  link-ne u ne = ground arith

  link_self :
      f ≢ s
      → ((link st s f s).goto_table ≡ (st s).goto_table)
        × ((link st s f s).is_final ≡ (st s).is_final)
        × ((link st s f s).pattern_id ≡ (st s).pattern_id)
        × ((link st s f s).depth ≡ (st s).depth)
        × ((link st s f s).fail ≡ f)
        × ((link st s f s).output ≡ (if (st f).is_final then some f else (st f).output))
  link_self ne = ground arith

module _ {ac : Automaton} (ok : IsReady ac) (done : ℕ → Bool) (h r i : ℕ) {w : Work}
    (o : Round ok done h r i w) (i_lt : i < 256) where
  abbrev v : IsTrie ac
  v = ok.trie

  r_lt : r < ac.num_states
  r_lt = (current_linked ok done h r o).0

  -- The transition under work is still the trie's.
  goto_is : (w.states r).goto_table i ≡ (ac.states r).goto_table i
  goto_is = o.filled.entry r i r_lt i_lt ∙ ground (arith, current_new ok done h r o)

  unfinished_lem : finished done r i r i ≡ false
  unfinished_lem = ground (arith, current_new ok done h r o)

  module _ (x : ℕ) (u : Bytes) (word : v.path r ≡ x ∷ u) where
    abbrev target : ℕ
    target = longest_suffix ac.states (u ++ i ∷ [])

    missing :
        (ac.states r).goto_table i ≡ none
        → (w' : Work) × (bfs_byte r i (some w) ≡ some w') × Round ok done h r (i + 1) w'
    missing free =
        let t = (w.states (w.states r).fail).goto_table i in
        let stop : walk ac.states 0 (x ∷ u ++ i ∷ []) ≡ none =
          subst (λ p. walk ac.states 0 (p ++ i ∷ []) ≡ none) word
            (walk-append ac.states 0 (v.path r) (i ∷ []) (v.reach r r_lt) ∙ walk_stop free) in
        let next : next_state v r i ≡ target =
          rw word (longest_suffix-none ac.states x (u ++ i ∷ []) stop) in
        (
          record w { states = put_goto w.states r i t },
          bfs_byte_missing r i w (goto_is ∙ free),
          record {
            filled =
                subst (λ fin. Filled v fin (record w { states = put_goto w.states r i t }))
                  (finished_step done r i)
                  (Filled-missing ok (finished done r i) w o.filled r i r_lt i_lt t free
                    (fail_goto ok done h r o x u word i i_lt ∙ ap some (sym next)));
            front = o.front;
            head_is = o.head_is;
            some_left = o.some_left;
            current = o.current;
          },
        )
      where
        walk_stop : (ac.states r).goto_table i ≡ none → walk ac.states r (i ∷ []) ≡ none
        walk_stop e = unfold walk in ground arith

    module _ (s : ℕ) (down : (ac.states r).goto_table i ≡ some s) where
      child : (s < ac.num_states) × (v.path s ≡ x ∷ (u ++ i ∷ []))
      child = let (s_lt, s_path) = v.edge r i s r_lt down in (s_lt, s_path ∙ rw word refl)

      target_ne : target ≢ s
      target_ne e =
          omega
            (arith, ap (λ y. level v y) e, ap length child.1, length-longest_suffix v (u ++ i ∷ []))

      linked :
          (same : Kept v w.states s)
          → Kept v (link w.states s target) s
            × ((link w.states s target s).goto_table ≡ (w.states s).goto_table)
            × ((link w.states s target s).fail ≡ longest_suffix ac.states (tail (v.path s)))
            × ((link w.states s target s).output ≡ longest_output ac.states (v.path s))
      linked same =
          let l = link_self w.states s target target_ne in
          let k = (o.filled.kept target).0 in
          let p = suffix_output ok done h r o x u word i in
          let q = longest_output-suffix v x (u ++ i ∷ []) in
          rw child.1 ((l.1 ∙ same.0, l.2 ∙ same.1, l.3 ∙ same.2), l.0, l.4, l.5 ∙ rw (k, p) (sym q))

      not_done : done s ≡ false
      not_done = elim (Bool-cases (done s)) [
        | inl d ↦
            let up = o.front.behind r i s r_lt down d in ground (arith, current_new ok done h r o)
        | inr n ↦ n
      ]

      pushed : (w' : Work) × (bfs_byte r i (some w) ≡ some w') × Round ok done h r (i + 1) w'
      pushed =
          let st = link w.states s target in
          let (same, same_goto, fail, out) = linked (o.filled.kept s) in
          let w' : Work = record { states = st; queue = queue_push w.queue s } in
          let others = link-ne w.states s target in
          let fin = finished done r i in
          (
            w',
            bfs_byte_child r i w s target (goto_is ∙ down)
                (fail_goto ok done h r o x u word i i_lt),
            record {
              filled =
                  subst (λ g. Filled v g w') (finished_step done r i)
                    (Filled-pushed ok fin w o.filled r i r_lt i_lt s down unfinished_lem st others
                      same_goto same fail out);
              front = Front-pushed v o.front o.some_left s level_up not_done (
                  unseen ok fin w o.filled r i r_lt i_lt s down unfinished_lem st others same_goto
                    same fail out);
              head_is = head-push ∙ o.head_is;
              some_left = tail-push;
              current = cell-push;
            },
          )
        where
          level_up : level v s ≡ level v (w.queue.cells h) + 1
          level_up = rw (o.current, word, child.1) (omega (arith, length-append u (i ∷ [])))

          head-push : (queue_push w.queue s).head ≡ w.queue.head
          head-push = unfold queue_push in refl

          tail-push : h < (queue_push w.queue s).tail
          tail-push = unfold queue_push in omega (arith, o.some_left)

          cell-push : (queue_push w.queue s).cells h ≡ r
          cell-push = unfold queue_push in ground (arith, o.some_left, o.current)

  -- One byte: `bfs_byte` does not fault, and the byte is finished.
  pub bfs_byte-Round :
      (w' : Work) × (bfs_byte r i (some w) ≡ some w') × Round ok done h r (i + 1) w'
  bfs_byte-Round =
      let (x, u, word) = current_word ok done h r o in
      elim (Option-cases ((ac.states r).goto_table i)) [
        | inl free ↦ missing x u word free
        | inr (s, down) ↦ pushed x u word s down
      ]

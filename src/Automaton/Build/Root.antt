-- ===== src/Automaton/Build/Root.antt =====
-- Step 1 of `ac_build`: the root's transitions.
use plumbr_c.Prelude.{
  ap, subst, refl, [], sym, inr, ◌∷◌, inl, dec_lt, fun_ext, ◌∙◌, arith, ◌≢◌, Option-cases, ◌≡◌, ◌<◌,
  ℕ, ◌+◌, ◌==◌, ◌&&◌, ltb,
}
use plumbr_c.Automaton.{false, update, some, none, Bool, State, Automaton}
use plumbr_c.Automaton.Trie.Walk.{walk-nil, IsTrie, walk}
use plumbr_c.Automaton.Suffix.{
  longest_output-nil, longest_suffix-nil, longest_output-some, longest_suffix-none, longest_suffix,
  longest_output,
}
use plumbr_c.Automaton.Build.{Work, root_byte, put_goto, queue_push}
use plumbr_c.Automaton.Build.Ready.{IsReady}
use plumbr_c.Automaton.Build.Filled.{
  Kept, Filled-pushed, Filled-missing, unseen, Filled, next_state, mark, tail,
}
use plumbr_c.Automaton.Build.Front.{level}

-- The root's transitions below `i`.
abbrev pub root_finished : ℕ → ℕ → ℕ → Bool
root_finished i s d = s == 0 && ltb d i

root_finished_step : (i : ℕ) → mark (root_finished i) 0 i ≡ root_finished (i + 1)
root_finished_step i = fun_ext (λ s. fun_ext (λ d. step s d))
  where
    step : (s d : ℕ) → mark (root_finished i) 0 i s d ≡ root_finished (i + 1) s d
    step s d = ground arith

module _ (c : ℕ) (w : Work) where
  root_byte_child :
      (s : ℕ)
      → (w.states 0).goto_table c ≡ some s
      → root_byte c w ≡ record {
        states = let x = w.states s in update w.states s (record x { fail = 0 });
        queue = queue_push w.queue s;
      }
  unfolding root_byte
  root_byte_child s e = ground arith

  root_byte_missing :
      (w.states 0).goto_table c ≡ none
      → root_byte c w ≡ record w { states = put_goto w.states 0 c (some 0) }
  unfolding root_byte
  root_byte_missing e = ground arith

module _ {ac : Automaton} (ok : IsReady ac) where
  abbrev v : IsTrie ac
  v = ok.trie

  -- The root's bytes below `i` are finished.
  pub record RootRound (i : ℕ) (w : Work) : Type 0 where
    pub filled : Filled v (root_finished i) w
    pub head_is : w.queue.head ≡ 0
    pub apart : (j k : ℕ) → j < k → k < w.queue.tail → w.queue.cells j ≢ w.queue.cells k
    pub one : (j : ℕ) → j < w.queue.tail → level v (w.queue.cells j) ≡ 1
    pub no_output : (s : ℕ) → s < ac.num_states → (w.states s).output ≡ none

  module _ (i : ℕ) {w : Work} (o : RootRound i w) (i_lt : i < 256) where
    goto_is : (w.states 0).goto_table i ≡ (ac.states 0).goto_table i
    goto_is = o.filled.entry 0 i v.nonempty i_lt ∙ ground arith

    root_missing : (ac.states 0).goto_table i ≡ none → RootRound (i + 1) (root_byte i w)
    root_missing free =
        let w' : Work = record w { states = put_goto w.states 0 i (some 0) } in
        subst (RootRound (i + 1)) (sym (root_byte_missing i w (goto_is ∙ free))) (record {
          filled =
              subst (λ g. Filled v g w') (root_finished_step i)
                (Filled-missing ok (root_finished i) w o.filled 0 i v.nonempty i_lt (some 0) free
                  (ap some (sym next)));
          head_is = o.head_is;
          apart = o.apart;
          one = o.one;
          no_output = λ s h. ground (arith, o.no_output s h);
        })
      where
        stop : walk ac.states 0 (i ∷ []) ≡ none
        stop = unfold walk in ground arith

        next : next_state v 0 i ≡ 0
        next = rw v.root (longest_suffix-none ac.states i [] stop ∙ longest_suffix-nil ac.states)

    module _ (s : ℕ) (down : (ac.states 0).goto_table i ≡ some s) where
      child : (s < ac.num_states) × (v.path s ≡ i ∷ [])
      child = let (s_lt, s_path) = v.edge 0 i s v.nonempty down in (s_lt, s_path ∙ rw v.root refl)

      abbrev relinked : ℕ → State
      relinked = let x = w.states s in update w.states s (record x { fail = 0 })

      relinked-ne : (u : ℕ) → u ≢ s → relinked u ≡ w.states u
      relinked-ne u ne = ground arith

      relinked_self :
          ((relinked s).goto_table ≡ (w.states s).goto_table)
          × ((relinked s).is_final ≡ (w.states s).is_final)
          × ((relinked s).pattern_id ≡ (w.states s).pattern_id)
          × ((relinked s).depth ≡ (w.states s).depth)
          × ((relinked s).fail ≡ 0)
          × ((relinked s).output ≡ (w.states s).output)
      relinked_self = ground arith

      child_output : longest_output ac.states (i ∷ []) ≡ none
      child_output =
          longest_output-some ac.states i [] (walk-nil ac.states 0)
          ∙ rw ok.root_open (longest_output-nil ac.states)

      root_child : RootRound (i + 1) (root_byte i w)
      root_child =
          let w' : Work = record { states = relinked; queue = queue_push w.queue s } in
          let (same_goto, k0, k1, k2, l, m) = relinked_self in
          let k = o.filled.kept s in
          let fail : (relinked s).fail ≡ longest_suffix ac.states (tail (v.path s)) =
            l ∙ sym (rw child.1 (longest_suffix-nil ac.states)) in
          let out : (relinked s).output ≡ longest_output ac.states (v.path s) =
            m ∙ o.no_output s child.0 ∙ sym (rw child.1 child_output) in
          let unfinished : root_finished i 0 i ≡ false = ground arith in
          let same : Kept v relinked s = (k0 ∙ k.0, k1 ∙ k.1, k2 ∙ k.2) in
          let new =
            unseen ok (root_finished i) w o.filled 0 i v.nonempty i_lt s down unfinished relinked
              relinked-ne same_goto same fail out in
          subst (RootRound (i + 1)) (sym (root_byte_child i w s (goto_is ∙ down))) (record {
            filled =
                subst (λ g. Filled v g w') (root_finished_step i)
                  (Filled-pushed ok (root_finished i) w o.filled 0 i v.nonempty i_lt s down
                    unfinished relinked relinked-ne same_goto same fail out);
            head_is = head-push ∙ o.head_is;
            apart = λ j k jk kt. apart-push new j k jk kt;
            one = λ j jt. one-push j jt;
            no_output = λ u h. ground (arith, o.no_output u h);
          })
        where
          head-push : (queue_push w.queue s).head ≡ w.queue.head
          head-push = unfold queue_push in refl

          apart-push :
              ((j : ℕ) → j < w.queue.tail → w.queue.cells j ≢ s)
              → (j k : ℕ) → j < k
              → k < (queue_push w.queue s).tail
              → (queue_push w.queue s).cells j ≢ (queue_push w.queue s).cells k
          apart-push new j k jk kt =
              unfold queue_push in
              elim (dec_lt k w.queue.tail) [
                | yes lt ↦ let ne = o.apart j k jk lt in ground arith
                | no ge ↦ let ne = new j (omega arith) in ground arith
              ]

          one-push :
              (j : ℕ)
              → j < (queue_push w.queue s).tail
              → level v ((queue_push w.queue s).cells j) ≡ 1
          one-push j jt =
              unfold queue_push in
              elim (dec_lt j w.queue.tail) [
                | yes lt ↦ ground (arith, o.one j lt)
                | no ge ↦ ground (arith, child.1)
              ]

    pub root_byte-RootRound : RootRound (i + 1) (root_byte i w)
    root_byte-RootRound = elim (Option-cases ((ac.states 0).goto_table i)) [
      | inl free ↦ root_missing free
      | inr (s, down) ↦ root_child s down
    ]

-- ===== src/Automaton/Build/Loop.antt =====
-- Step 2 of `ac_build`: the loop over the queue finishes every state, within `num_states` rounds.
use plumbr_c.Prelude.{
  subst, dec_lt, zero, suc, refl, ℕ_discrete, sym, run_loop-invariant, ap, arith, ◌∙◌, ◌≡◌, ◌≤◌,
  ◌<◌, ℕ, ◌+◌, ◌==◌, ◌||◌, if◌then◌else◌,
}
use plumbr_c.Automaton.{Option, false, true, some, Bool, Automaton}
use plumbr_c.Automaton.Trie.Walk.{IsTrie}
use plumbr_c.Automaton.Build.{run_loop, suc, Work, bfs_byte, bfs, queue_pop, queue_empty}
use plumbr_c.Automaton.Build.Ready.{IsReady}
use plumbr_c.Automaton.Build.Filled.{Filled}
use plumbr_c.Automaton.Build.Front.{level, Front, Front-popped}
use plumbr_c.Automaton.Build.Reached.{level-done}
use plumbr_c.Automaton.Build.Round.{Round, finished}
use plumbr_c.Automaton.Build.Step.{bfs_byte-Round}

-- How many of the states below `n` are not done.
unfoldable pub undone : (ℕ → Bool) → ℕ → ℕ
undone done zero = 0
undone done (suc n) = (if done n then 0 else 1) + undone done n

undone-pos : (done : ℕ → Bool) (n r : ℕ) → r < n → done r ≡ false → 1 ≤ undone done n
unfolding undone
undone-pos done zero r h e = absurd (omega arith)
undone-pos done (suc n) r h e = elim (ℕ_discrete r n) [
  | yes q ↦ ground arith
  | no ne ↦ omega (arith, undone-pos done n r (omega (arith, ne)) e)
]

undone_same :
    (done : ℕ → Bool) (r n : ℕ) → n ≤ r → undone (λ s. (s == r) || done s) n ≡ undone done n
unfolding undone
undone_same done r zero h = refl
undone_same done r (suc n) h = ground (arith, undone_same done r n (omega arith))

undone-mark :
    (done : ℕ → Bool) (n r : ℕ)
    → r < n
    → done r ≡ false
    → undone (λ s. (s == r) || done s) n + 1 ≡ undone done n
unfolding undone
undone-mark done zero r h e = absurd (omega arith)
undone-mark done (suc n) r h e = elim (ℕ_discrete r n) [
  | yes q ↦ ground (arith, undone_same done r n (omega arith))
  | no ne ↦ ground (arith, undone-mark done n r (omega (arith, ne)) e)
]

bfs_stop : (fuel : ℕ) (w : Work) → w.queue.tail ≤ w.queue.head → bfs fuel (some w) ≡ some w
unfolding bfs queue_empty
bfs_stop zero w h = ground arith
bfs_stop (suc fuel) w h = ground arith

-- The queue with its head moved on.
abbrev popped : Work → Work
popped w = let q = w.queue in record w { queue = record q { head = q.head + 1 } }

bfs_step :
    (fuel : ℕ) (w : Work)
    → w.queue.head < w.queue.tail
    → bfs (suc fuel) (some w)
      ≡ bfs fuel (run_loop (bfs_byte (w.queue.cells w.queue.head)) 0 256 (some (popped w)))
unfolding bfs queue_empty queue_pop
bfs_step fuel w h = ground arith

module _ {ac : Automaton} (ok : IsReady ac) where
  abbrev v : IsTrie ac
  v = ok.trie

  pub Filled-ext :
      {fin fin' : ℕ → ℕ → Bool} {w : Work}
      → ((s d : ℕ) → d < 256 → fin s d ≡ fin' s d)
      → Filled v fin w
      → Filled v fin' w
  Filled-ext {fin} {fin'} {w} same f = record {
    entry = λ s d h k. f.entry s d h k ∙ rw (same s d k) refl;
    kept = f.kept;
    child = λ s d t h m g. f.child s d t h (same s d (ok.newer s d t h g).0 ∙ m) g;
    cell = f.cell;
    parent =
        λ j s d h k g. sym (same s d (ok.newer s d (w.queue.cells j) k g).0) ∙ f.parent j s d h k g;
    root_output = f.root_output;
  }

  -- Between two rounds.
  pub record Between (done : ℕ → Bool) (w : Work) : Type 0 where
    pub filled : Filled v (λ s d. done s) w
    pub front : Front v done w.queue.head w.queue

  module _ (done : ℕ → Bool) (w : Work) (b : Between done w)
      (more : w.queue.head < w.queue.tail) where
    abbrev r : ℕ
    r = w.queue.cells w.queue.head

    start : Round ok done w.queue.head r 0 (popped w)
    start = record {
      filled =
          let f = b.filled in
          Filled-ext {w = popped w} (λ s d h. nothing s d)
            (record {
              entry = f.entry;
              kept = f.kept;
              child = f.child;
              cell = f.cell;
              parent = f.parent;
              root_output = f.root_output;
            });
      front =
          let f = b.front in
          record {
            passed = f.passed;
            waiting = f.waiting;
            apart = f.apart;
            levels = f.levels;
            root_done = f.root_done;
            behind = f.behind;
          };
      head_is = refl;
      some_left = more;
      current = refl;
    }
      where
        nothing : (s d : ℕ) → done s ≡ finished done r 0 s d
        nothing s d = ground arith

    -- The bytes of one state.
    bytes :
        (w' : Work) × (run_loop (bfs_byte r) 0 256 (some (popped w)) ≡ some w')
        × Round ok done w.queue.head r 256 w'
    bytes =
        run_loop-invariant (bfs_byte r)
          (λ i ow. (w' : Work) × (ow ≡ some w') × Round ok done w.queue.head r i w') 0 256
          (some (popped w)) (λ i ow lo hi (w', e, o). one_more i ow hi w' e o)
          (popped w, refl, start)
      where
        one_more :
            (i : ℕ) (ow : Option Work)
            → i < 0 + 256
            → (w' : Work) → ow ≡ some w'
            → Round ok done w.queue.head r i w'
            → (w2 : Work) × (bfs_byte r i ow ≡ some w2) × Round ok done w.queue.head r (i + 1) w2
        one_more i ow hi w' e o =
            let (w2, k, o2) = bfs_byte-Round ok done w.queue.head r i o (omega arith) in
            (w2, rw e k, o2)

    finish :
        (w' : Work) → Round ok done w.queue.head r 256 w' → Between (λ s. (s == r) || done s) w'
    finish w' o = record {
      filled = Filled-ext (λ s d h. ground arith) o.filled;
      front =
          subst (λ k. Front v (λ s. (s == r) || done s) k w'.queue) (sym o.head_is)
            (Front-popped v o.front o.some_left r o.current up);
    }
      where
        up : (p c : ℕ) → p < ac.num_states → (ac.states p).goto_table c ≡ some r → done p ≡ true
        up p c h g =
            let m = o.filled.parent w.queue.head p c o.some_left h (g ∙ ap some (sym o.current)) in
            let lt = (ok.newer p c r h g).1 in ground arith

  -- All states are done once the queue is empty.
  pub all_done :
      (done : ℕ → Bool) (w : Work) (b : Between done w)
      → w.queue.tail ≤ w.queue.head
      → (s : ℕ) → s < ac.num_states
      → done s ≡ true
  all_done done w b h s s_lt =
      level-done ok b.filled done (λ s c d. d) b.front.root_done (suc (level v s))
        (λ j j_lt l. b.front.passed j (omega arith) j_lt) s s_lt (omega arith)

  pub bfs-all :
      (fuel : ℕ) (done : ℕ → Bool) (w : Work)
      → Between done w
      → undone done ac.num_states ≤ fuel
      → (w' : Work) × (done' : ℕ → Bool) × (bfs fuel (some w) ≡ some w')
        × Between done' w'
        × (w'.queue.tail ≤ w'.queue.head)
  bfs-all zero done w b enough = elim (dec_lt w.queue.head w.queue.tail) [
    | no ge ↦ (w, done, bfs_stop zero w (omega arith), b, omega arith)
    | yes lt ↦ absurd (
        omega (
          arith,
          undone-pos done ac.num_states (w.queue.cells w.queue.head)
              (b.filled.cell w.queue.head lt).0 (b.front.waiting w.queue.head (omega arith) lt),
        ))
  ]
  bfs-all (suc fuel) done w b enough = elim (dec_lt w.queue.head w.queue.tail) [
    | no ge ↦ (w, done, bfs_stop (suc fuel) w (omega arith), b, omega arith)
    | yes lt ↦
        let r = w.queue.cells w.queue.head in
        let (w1, e, o) = bytes done w b lt in
        let left =
          undone-mark done ac.num_states r (b.filled.cell w.queue.head lt).0
            (b.front.waiting w.queue.head (omega arith) lt) in
        let (w', done', k, b', h) =
          bfs-all fuel (λ s. (s == r) || done s) w1 (finish done w b lt w1 o)
            (omega (arith, left)) in
        (w', done', bfs_step fuel w lt ∙ rw e k, b', h)
  ]

-- ===== src/Automaton/Build/Reached.antt =====
-- In breadth-first order, every state of a lower level is done, and every state of the same level
-- is on the queue.
use plumbr_c.Prelude.{
  length-append, length, ◌+◌, refl, sym, ap, ◌∙◌, [], inr, inl, Option-cases, ◌⊎◌, ◌≤◌, ◌∷◌, arith,
  ◌<◌, ◌≡◌, Bytes, ℕ,
}
use plumbr_c.Automaton.{some, true, Bool, Automaton}
use plumbr_c.Automaton.Trie.Walk.{path-walk, walk_step, IsTrie, walk}
use plumbr_c.Automaton.Build.{Work}
use plumbr_c.Automaton.Build.Ready.{root_path, IsReady}
use plumbr_c.Automaton.Build.Filled.{Queued, Filled}
use plumbr_c.Automaton.Build.Front.{level}

module _ {ac : Automaton} (ok : IsReady ac) where
  abbrev v : IsTrie ac
  v = ok.trie

  walk-level :
      (s : ℕ) (w : Bytes) {t : ℕ}
      → s < ac.num_states
      → walk ac.states s w ≡ some t
      → (t < ac.num_states) × (level v t ≡ level v s + length w)
  walk-level s w h e =
      let (t_lt, t_path) = path-walk v s w h e in
      (t_lt, ap length t_path ∙ length-append (v.path s) w)

  module _ {fin : ℕ → ℕ → Bool} {w : Work} (f : Filled v fin w) (done : ℕ → Bool)
      (finished : (s c : ℕ) → done s ≡ true → fin s c ≡ true) (root_done : done 0 ≡ true) (top : ℕ)
      (lower : (j : ℕ)
        → j < w.queue.tail
        → level v (w.queue.cells j) < top
        → done (w.queue.cells j) ≡ true) where
    walk-Queued :
        (s x : ℕ) (u : Bytes) {t : ℕ}
        → s < ac.num_states
        → done s ≡ true
        → walk ac.states s (x ∷ u) ≡ some t
        → level v t ≤ top
        → Queued w.queue t
    walk-Queued s x [] {t} h d e l = elim (Option-cases ((ac.states s).goto_table x)) [
      | inl g ↦ absurd (unfold walk in ground arith)
      | inr (m, g) ↦
          let same : m ≡ t = unfold walk in ground arith in
          f.child s x t h (finished s x d) (g ∙ ap some same)
    ]
    walk-Queued s x (y ∷ u) {t} h d e l = elim (Option-cases ((ac.states s).goto_table x)) [
      | inl g ↦ absurd (unfold walk in ground arith)
      | inr (m, g) ↦
          let e' = sym (walk_step ac.states s x (y ∷ u) g) ∙ e in
          let m_lt = (v.edge s x m h g).0 in
          let (j, j_lt, c) = f.child s x m h (finished s x d) g in
          let below = (walk-level m (y ∷ u) m_lt e').1 in
          let m_done : done m ≡ true =
            ap done (sym c) ∙ lower j j_lt (rw c (omega (arith, below))) in
          walk-Queued m y u m_lt m_done e' l
    ]

    -- A state of the level `top` or a lower one is the root, or on the queue.
    pub level-Queued : (t : ℕ) → t < ac.num_states → level v t ≤ top → (t ≡ 0) ⊎ Queued w.queue t
    level-Queued t t_lt l = from_path (v.path t) (v.reach t t_lt) (root_path ok t t_lt)
      where
        from_path :
            (u : Bytes)
            → walk ac.states 0 u ≡ some t
            → (u ≡ [] → t ≡ 0)
            → (t ≡ 0) ⊎ Queued w.queue t
        from_path [] e r = inl (r refl)
        from_path (x ∷ u) e r = inr (walk-Queued 0 x u v.nonempty root_done e l)

    -- A state of a lower level is done.
    pub level-done : (t : ℕ) → t < ac.num_states → level v t < top → done t ≡ true
    level-done t t_lt l = elim (level-Queued t t_lt (omega arith)) [
      | inl e ↦ rw e root_done
      | inr (j, j_lt, c) ↦ ap done (sym c) ∙ lower j j_lt (rw c l)
    ]

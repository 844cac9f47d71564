-- ===== src/Parallel/Batch.antt =====
-- Whatever the order in which the workers of src/parallel.c take their lines, a batch ends with the
-- outputs that one redactor gives line by line.
use plumbr_c.Redactor.Client.{Ops, IsRedactor}
use plumbr_c.Prelude.{
  ℕ_discrete, length, ==_iff, ℕ, ◌+◌, ◌<◌, ◌≤◌, ◌≡◌, ◌≢◌, inl, inr, refl, sym, ap, ◌∙◌, subst,
  fun_ext, Bytes, Option, none, some, true, false, if◌then◌else◌, ltb, ◌==◌, arith, size_mod,
  ==_refl, Bool-cases,
}
use plumbr_c.Automaton.{update}
use plumbr_c.Redactor.{Output}
use plumbr_c.Parallel.{
  settle, start_idx, end_idx, cell_after, redactor_after, Pc, at_start, at_line, at_done, Main,
  main_start, main_done, returned, System, work, max_line_size,
}
use plumbr_c.Parallel.Ranges.{Owns, Owns-unique, owner, end-le-count}

update_self {ℓ} : {A : Type ℓ} (f : ℕ → A) (i : ℕ) (v : A) → update f i v i ≡ v
update_self f i v = rw (==_refl i)

pub update_same {ℓ} : {A : Type ℓ} (f : ℕ → A) (i : ℕ) (v : A) (j : ℕ) → i ≡ j → update f i v j ≡ v
update_same f i v j h = let e : (i == j) ≡ true = (==_iff i j).1 h in rw e

pub done_ne : (i : ℕ) → at_done ≢ at_line i
done_ne i h = cc

done_ne_start : at_done ≢ at_start
done_ne_start h = cc

pub start_ne : (i : ℕ) → at_start ≢ at_line i
start_ne i h = cc

pub update_ne {ℓ} : {A : Type ℓ} (f : ℕ → A) (i : ℕ) (v : A) (j : ℕ) → i ≢ j → update f i v j ≡ f j
update_ne f i v j h = let e : (i == j) ≡ false = ground (arith, h) in rw e

module _ {R : Type 0} (ops : Ops R) (is : IsRedactor ops) (lines : ℕ → Option Bytes)
    (init : ℕ → Bytes) (count n : ℕ) where
  -- What the output at an index is to be.
  abbrev pub after : ℕ → Bytes
  after j = cell_after is.process (lines j) (init j)

  -- How far the line `j` is, by where its worker is.
  abbrev Progress : ℕ → Pc → Bytes → Type 0
  Progress j at_start out = ⊥
  Progress j (at_line i) out = (j < i → out ≡ after j) × (i ≤ j → out ≡ init j)
  Progress j at_done out = out ≡ after j

  -- While the workers are between the barriers.
  pub record IsWorking (s : System R) : Type 0 where
    pub progress : (k j : ℕ) → k < n → Owns count n k j → Progress j (s.pc k) (s.outputs j)
    pub within : (k i : ℕ) → k < n → s.pc k ≡ at_line i → start_idx count n k ≤ i
    pub busy : (k : ℕ) → k < n → s.pc k ≢ at_start
    pub beyond : (j : ℕ) → count ≤ j → s.outputs j ≡ init j

  -- The invariant, by where `parallel_process` is.
  abbrev pub Holds : Main → System R → Type 0
  Holds main_start s = ((k : ℕ) → k < n → s.pc k ≡ at_start) × ((j : ℕ) → s.outputs j ≡ init j)
  Holds main_done s = IsWorking s
  Holds returned s =
      ((k : ℕ) → k < n → s.pc k ≡ at_start)
      × ((j : ℕ) → j < count → s.outputs j ≡ after j)
      × ((j : ℕ) → count ≤ j → s.outputs j ≡ init j)

  abbrev pub AllReady : System R → Type 0
  AllReady s = (k : ℕ) → k < n → is.Ready (s.redactor k)

  redactor_after-Ready :
      (r : R) (text : Option Bytes)
      → is.Ready r
      → is.Ready (redactor_after ops lines count n r text)
  unfolding redactor_after
  redactor_after-Ready r none h = h
  redactor_after-Ready r (some text) h = elim (Bool-cases (ltb max_line_size (length text))) [
    | inl e ↦ rw e h
    | inr e ↦ rw e (is.stays r text h)
  ]

  pub work-AllReady :
      (s : System R) (k i : ℕ) → AllReady s → AllReady (work ops lines count n s k i)
  unfolding work
  work-AllReady s k i h l lt = elim (Bool-cases (k == l)) [
    | inl e ↦ rw e (
        redactor_after-Ready (s.redactor k) (lines i)
          (subst (λ (m : ℕ). is.Ready (s.redactor m)) (sym ((==_iff k l).0 e)) (h l lt)))
    | inr e ↦ rw e (h l lt)
  ]

  pub settle-AllReady :
      (s : System R) (k : ℕ) → AllReady s → AllReady (settle ops lines count n s k)
  unfolding settle
  settle-AllReady s k h l lt = elim (Bool-cases (k == l)) [
    | inl e ↦ rw e (
        is.resets (s.redactor k)
          (subst (λ (m : ℕ). is.Ready (s.redactor m)) (sym ((==_iff k l).0 e)) (h l lt)))
    | inr e ↦ rw e (h l lt)
  ]

  -- What a worker writes is what a redactor gives for the line.
  written :
      (s : System R) (k i : ℕ)
      → is.Ready (s.redactor k)
      → s.outputs i ≡ init i
      → (work ops lines count n s k i).outputs i ≡ after i
  unfolding work
  written s k i r e =
      let p : (λ (text : Bytes). (ops.redact (s.redactor k) text).1) ≡ is.process =
        fun_ext (λ text. is.gives (s.redactor k) text r) in
      update_self s.outputs i
        (cell_after (λ (text : Bytes). (ops.redact (s.redactor k) text).1) (lines i) (s.outputs i))
      ∙ ap (λ (q : Bytes → Output). cell_after q (lines i) (s.outputs i)) p
      ∙ ap (cell_after is.process (lines i)) e

  not_written :
      (s : System R) (k i j : ℕ) → i ≢ j → (work ops lines count n s k i).outputs j ≡ s.outputs j
  unfolding work
  not_written s k i j h =
      update_ne s.outputs i
        (cell_after (λ (text : Bytes). (ops.redact (s.redactor k) text).1) (lines i) (s.outputs i))
        j h

  at_line_inj : (i m : ℕ) → at_line i ≡ at_line m → i ≡ m
  at_line_inj i m h = cc

  work-pc :
      (s : System R) (k i l : ℕ)
      → (work ops lines count n s k i).pc l ≡ (if k == l then at_line (i + 1) else s.pc l)
  unfolding work
  work-pc s k i l = refl

  pub work-pc_same :
      (s : System R) (k i l : ℕ) → k ≡ l → (work ops lines count n s k i).pc l ≡ at_line (i + 1)
  work-pc_same s k i l h = let t : (k == l) ≡ true = (==_iff k l).1 h in rw (work-pc s k i l, t)

  pub work-pc_other :
      (s : System R) (k i l : ℕ) → k ≢ l → (work ops lines count n s k i).pc l ≡ s.pc l
  work-pc_other s k i l h = let t : (k == l) ≡ false = ground (arith, h) in rw (work-pc s k i l, t)

  -- The line itself, at the worker that has taken it.
  Progress-own :
      (s : System R) (k i j : ℕ)
      → is.Ready (s.redactor k)
      → Progress j (at_line i) (s.outputs j)
      → Progress j (at_line (i + 1)) ((work ops lines count n s k i).outputs j)
  Progress-own s k i j r (done, todo) = (
    λ lt. elim (ℕ_discrete i j) [
      | yes e ↦
          subst (λ (m : ℕ). (work ops lines count n s k i).outputs m ≡ after m) e
            (written s k i r (rw e (todo (omega (arith, e)))))
      | no ne ↦ not_written s k i j ne ∙ done (omega (arith, ne))
    ],
    λ le. not_written s k i j (λ e. omega (arith, e)) ∙ todo (omega arith),
  )

  module _ (pos : 0 < n) (small : count + n < size_mod) where
    pub work-IsWorking :
        (s : System R) (k i : ℕ)
        → AllReady s
        → IsWorking s
        → k < n
        → s.pc k ≡ at_line i
        → i < end_idx count n k
        → IsWorking (work ops lines count n s k i)
    work-IsWorking s k i r h lt e le = record {
      progress = λ l j lt' o. elim (ℕ_discrete k l) [
        | yes same ↦
            let o' = subst (λ (m : ℕ). Owns count n m j) (sym same) o in
            let p = subst (λ (q : Pc). Progress j q (s.outputs j)) e (h.progress k j lt o') in
            subst (λ (q : Pc). Progress j q ((work ops lines count n s k i).outputs j))
              (sym (work-pc_same s k i l same)) (Progress-own s k i j (r k lt) p)
        | no other ↦
            let i_ne_j : i ≢ j = λ same. other (
              Owns-unique count n pos small k l j lt lt'
                (subst (Owns count n k) same (h.within k i lt e, le)) o) in
            subst (λ (q : Pc). Progress j q ((work ops lines count n s k i).outputs j))
              (sym (work-pc_other s k i l other))
              (subst (Progress j (s.pc l)) (sym (not_written s k i j i_ne_j))
                (h.progress l j lt' o))
      ];
      within = λ l m lt' e'. elim (ℕ_discrete k l) [
        | yes same ↦
            let m_eq = at_line_inj (i + 1) m (sym (work-pc_same s k i l same) ∙ e') in
            let w = subst (λ (q : ℕ). start_idx count n q ≤ i) same (h.within k i lt e) in
            omega arith
        | no other ↦ h.within l m lt' (sym (work-pc_other s k i l other) ∙ e')
      ];
      busy = λ l lt' e'. elim (ℕ_discrete k l) [
        | yes same ↦ start_ne (i + 1) (sym e' ∙ work-pc_same s k i l same)
        | no other ↦ h.busy l lt' (sym (work-pc_other s k i l other) ∙ e')
      ];
      beyond = λ j le'.
          not_written s k i j (λ same. omega (arith, same, end-le-count count n pos small k lt))
          ∙ h.beyond j le';
    }

    pub arrive-IsWorking :
        (s : System R) (k i : ℕ)
        → IsWorking s
        → k < n
        → s.pc k ≡ at_line i
        → ltb i (end_idx count n k) ≡ false
        → IsWorking (settle ops lines count n s k)
    unfolding settle
    arrive-IsWorking s k i h lt e le = record {
      progress = λ l j lt' o. elim (ℕ_discrete k l) [
        | yes same ↦
            let o' = subst (λ (m : ℕ). Owns count n m j) (sym same) o in
            let p = subst (λ (q : Pc). Progress j q (s.outputs j)) e (h.progress k j lt o') in
            subst (λ (q : Pc). Progress j q (s.outputs j)) (sym (update_same s.pc k at_done l same))
              (p.0 (ground arith))
        | no other ↦
            subst (λ (q : Pc). Progress j q (s.outputs j)) (sym (update_ne s.pc k at_done l other))
              (h.progress l j lt' o)
      ];
      within = λ l m lt' e'. elim (ℕ_discrete k l) [
        | yes same ↦ absurd (done_ne m (sym (update_same s.pc k at_done l same) ∙ e'))
        | no other ↦ h.within l m lt' (sym (update_ne s.pc k at_done l other) ∙ e')
      ];
      busy = λ l lt' e'. elim (ℕ_discrete k l) [
        | yes same ↦ done_ne_start (sym (update_same s.pc k at_done l same) ∙ e')
        | no other ↦ h.busy l lt' (sym (update_ne s.pc k at_done l other) ∙ e')
      ];
      beyond = h.beyond;
    }

    pub release-IsWorking :
        (s : System R)
        → Holds main_start s
        → IsWorking (record s { pc = λ k. at_line (start_idx count n k); main = main_done })
    release-IsWorking s (idle, fresh) = record {
      progress = λ k j lt o. (λ l. absurd (omega arith), λ l. fresh j);
      within = λ k i lt e. omega (arith, at_line_inj (start_idx count n k) i e);
      busy = λ k lt e. start_ne (start_idx count n k) (sym e);
      beyond = λ j le. fresh j;
    }

    pub finish-Holds :
        (s : System R)
        → IsWorking s
        → ((k : ℕ) → k < n → s.pc k ≡ at_done)
        → Holds returned (record s { pc = λ k. at_start; main = returned })
    finish-Holds s h all = (
      λ k lt. refl,
      λ j lt.
          let (k, lt', o) = owner count n pos small j lt in
          subst (λ (q : Pc). Progress j q (s.outputs j)) (all k lt') (h.progress k j lt' o),
      h.beyond,
    )

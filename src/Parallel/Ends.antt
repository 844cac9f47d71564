-- ===== src/Parallel/Ends.antt =====
-- A batch of src/parallel.c does not get stuck, and ends.
use plumbr_c.Redactor.Client.{Ops, IsRedactor}
use plumbr_c.Prelude.{
  size_mod, ℕ, zero, suc, ◌+◌, ◌-◌, ◌<◌, ◌≤◌, ◌≡◌, ◌≢◌, ◌⊎◌, inl, inr, refl, sym, ap, ◌∙◌, subst,
  Bytes, Option, ltb, arith, size_mod, Bool-cases, ltb→lt, ℕ_discrete,
}
use plumbr_c.Automaton.{update}
use plumbr_c.Parallel.{
  settle, start_idx, end_idx, Pc, at_start, at_line, at_done, Main, main_start, main_done, returned,
  System, work, Step, release, one_line, arrive, finish, Reach, here, next,
}
use plumbr_c.Parallel.Batch.{
  Holds, AllReady, start_ne, update_same, update_ne, work-pc_same, work-pc_other,
}
use plumbr_c.Parallel.Runs.{Inv, Reach-Holds}

-- f(0) + ... + f(n - 1)
abbrev pub sum : (ℕ → ℕ) → ℕ → ℕ
sum f zero = 0
sum f (suc n) = sum f n + f n

sum_le : (f g : ℕ → ℕ) (n : ℕ) → ((k : ℕ) → k < n → f k ≤ g k) → sum f n ≤ sum g n
sum_le f g zero h = omega arith
sum_le f g (suc n) h = omega (arith, sum_le f g n (λ k lt. h k (omega arith)), h n (omega arith))

sum_lt :
    (f g : ℕ → ℕ) (n k : ℕ) → ((l : ℕ) → l < n → f l ≤ g l) → k < n → f k < g k → sum f n < sum g n
sum_lt f g zero k h lt s = elim lt [ ]
sum_lt f g (suc n) k h lt s = elim (ℕ_discrete k n) [
  | yes e ↦
      let s' = subst (λ (m : ℕ). f m < g m) e s in
      omega (arith, sum_le f g n (λ l l'. h l (omega arith)))
  | no ne ↦
      omega
        (arith, sum_lt f g n k (λ l l'. h l (omega arith)) (omega (arith, ne)) s, h n (omega arith))
]

abbrev Busy : (ℕ → Pc) → ℕ → Type 0
Busy pc n = (k : ℕ) × (i : ℕ) × (k < n) × (pc k ≡ at_line i)

abbrev AllDone : (ℕ → Pc) → ℕ → Type 0
AllDone pc n = (k : ℕ) → k < n → pc k ≡ at_done

find_last :
    (pc : ℕ → Pc) (n : ℕ) (p : Pc)
    → pc n ≡ p
    → AllDone pc n
    → ((k : ℕ) → k < suc n → pc k ≢ at_start)
    → Busy pc (suc n) ⊎ AllDone pc (suc n)
find_last pc n at_start e all h = absurd (h n (omega arith) e)
find_last pc n (at_line i) e all h = inl (n, i, omega arith, e)
find_last pc n at_done e all h = inr (λ k lt. elim (ℕ_discrete k n) [
  | yes same ↦ subst (λ (m : ℕ). pc m ≡ at_done) (sym same) e
  | no other ↦ all k (omega (arith, other))
])

-- A worker with a line to take, or all are at the barrier.
find_worker : (pc : ℕ → Pc) (n : ℕ) → ((k : ℕ) → k < n → pc k ≢ at_start) → Busy pc n ⊎ AllDone pc n
find_worker pc zero h = inr (λ k lt. elim lt [ ])
find_worker pc (suc n) h = elim (find_worker pc n (λ k lt. h k (omega arith))) [
  | inl (k, i, lt, e) ↦ inl (k, i, omega arith, e)
  | inr all ↦ find_last pc n (pc n) refl all h
]

-- The steps that a worker is from the barrier, at most.
abbrev pub weight : ℕ → Pc → ℕ
weight end at_start = 0
weight end (at_line i) = end - i + 1
weight end at_done = 0

-- The steps that a batch takes from the first barrier on.
abbrev pub batch_steps : ℕ → ℕ → ℕ
batch_steps count n = 2 + sum (λ k. end_idx count n k - start_idx count n k + 1) n

-- The number of steps of a run.
module _ {R : Type 0} (ops : Ops R) (lines : ℕ → Option Bytes) (count n : ℕ) where
  unfoldable pub steps : {s t : System R} → Reach ops lines count n s t → ℕ
  steps here = 0
  steps (next run step) = steps run + 1

module _ {R : Type 0} (ops : Ops R) (is : IsRedactor ops) (lines : ℕ → Option Bytes)
    (init : ℕ → Bytes) (count n : ℕ) (pos : 0 < n) (small : count + n < size_mod) where
  abbrev steps_left : Main → (ℕ → Pc) → ℕ
  steps_left main_start pc = batch_steps count n
  steps_left main_done pc = 1 + sum (λ k. weight (end_idx count n k) (pc k)) n
  steps_left returned pc = 0

  -- A worker's step lowers the sum.
  moved_lt :
      (pc pc' : ℕ → Pc) (k : ℕ)
      → k < n
      → ((l : ℕ) → k ≢ l → pc' l ≡ pc l)
      → weight (end_idx count n k) (pc' k) < weight (end_idx count n k) (pc k)
      → steps_left main_done pc' < steps_left main_done pc
  moved_lt pc pc' k lt same less =
      let w = λ (q : ℕ → Pc) (l : ℕ). weight (end_idx count n l) (q l) in
      omega (
        arith,
        sum_lt (w pc') (w pc) n k
            (λ l l'. elim (ℕ_discrete k l) [
              | yes e ↦ subst (λ (m : ℕ). w pc' m ≤ w pc m) e (omega arith)
              | no ne ↦ omega (arith, ap (weight (end_idx count n l)) (same l ne))
            ])
            lt less,
      )

  abbrev Inv' : Main → System R → Type 0
  Inv' m s = Inv ops is lines init count n pos small m s

  line_lt :
      (m : Main) (s : System R) (k i : ℕ)
      → Inv' m s
      → k < n
      → s.pc k ≡ at_line i
      → i < end_idx count n k
      → steps_left m (work ops lines count n s k i).pc < steps_left m s.pc
  line_lt main_start s k i h lt e le = absurd (start_ne i (sym (h.0 k lt) ∙ e))
  line_lt returned s k i h lt e le = absurd (start_ne i (sym (h.0 k lt) ∙ e))
  line_lt main_done s k i h lt e le =
      let a =
        ap (weight (end_idx count n k)) (work-pc_same ops is lines init count n s k i k refl) in
      let b = ap (weight (end_idx count n k)) e in
      moved_lt s.pc (work ops lines count n s k i).pc k lt
        (λ l ne. work-pc_other ops is lines init count n s k i l ne) (omega (arith, a, b))

  arrive_lt :
      (m : Main) (s : System R) (k i : ℕ)
      → Inv' m s
      → k < n
      → s.pc k ≡ at_line i
      → steps_left m (update s.pc k at_done) < steps_left m s.pc
  arrive_lt main_start s k i h lt e = absurd (start_ne i (sym (h.0 k lt) ∙ e))
  arrive_lt returned s k i h lt e = absurd (start_ne i (sym (h.0 k lt) ∙ e))
  arrive_lt main_done s k i h lt e =
      let a = ap (weight (end_idx count n k)) (update_same s.pc k at_done k refl) in
      let b = ap (weight (end_idx count n k)) e in
      moved_lt s.pc (update s.pc k at_done) k lt (λ l ne. update_ne s.pc k at_done l ne)
        (omega (arith, a, b))

  -- Each step leaves fewer.
  Step_lt :
      {s t : System R}
      → Step ops lines count n s t
      → Inv' s.main s
      → steps_left t.main t.pc < steps_left s.main s.pc
  unfolding work settle
  Step_lt {s} (release e idle) h = omega (arith, ap (λ (m : Main). steps_left m s.pc) e)
  Step_lt {s} (one_line k i lt e le) h = line_lt s.main s k i h lt e le
  Step_lt {s} (arrive k i lt e le) h = arrive_lt s.main s k i h lt e
  Step_lt {s} (finish e all) h = omega (arith, ap (λ (m : Main). steps_left m s.pc) e)

  Reach_steps :
      {s t : System R} (run : Reach ops lines count n s t)
      → AllReady ops is lines init count n s
      → Inv' s.main s
      → steps ops lines count n run + steps_left t.main t.pc ≤ steps_left s.main s.pc
  unfolding steps
  Reach_steps here r h = omega arith
  Reach_steps (next run step) r h =
      let (r', h') = Reach-Holds ops is lines init count n pos small run r h in
      omega (arith, Step_lt step h', Reach_steps run r h)

  -- Where the batch is not over, somebody can move.
  can_move :
      (m : Main) (s : System R)
      → s.main ≡ m
      → Inv' m s
      → (m ≡ returned) ⊎ ((t : System R) × Step ops lines count n s t)
  can_move main_start s e h = inr (_, release e h.0)
  can_move returned s e h = inl refl
  can_move main_done s e h = elim (find_worker s.pc n h.busy) [
    | inl (k, i, lt, e') ↦ elim (Bool-cases (ltb i (end_idx count n k))) [
      | inl more ↦ inr (_, one_line k i lt e' (ltb→lt _ _ more))
      | inr none ↦ inr (_, arrive k i lt e' none)
    ]
    | inr all ↦ inr (_, finish e all)
  ]

-- From any state that a batch can come to, `parallel_process` has returned or there is a next step:
-- no interleaving gets stuck at a barrier. And no interleaving takes more than two steps for the
-- barriers and, for each worker, one step more than it has lines.
pub batch_ends :
    {R : Type 0} (ops : Ops R) (is : IsRedactor ops) (lines : ℕ → Option Bytes) (count n : ℕ)
    (s t : System R)
    → 0 < n
    → count + n < size_mod
    → s.main ≡ main_start
    → ((k : ℕ) → k < n → s.pc k ≡ at_start)
    → ((k : ℕ) → k < n → is.Ready (s.redactor k))
    → (run : Reach ops lines count n s t)
    → ((t.main ≡ returned) ⊎ ((u : System R) × Step ops lines count n t u))
      × (steps ops lines count n run ≤ batch_steps count n)
batch_ends ops is lines count n s t pos small m idle ready run =
    let init = s.outputs in
    let start =
      subst (λ (q : Main). Holds ops is lines init count n q s) (sym m) (idle, λ i. refl) in
    let (r, h) = Reach-Holds ops is lines init count n pos small run ready start in
    (
      can_move ops is lines init count n pos small t.main t refl h,
      omega (
        arith,
        Reach_steps ops is lines init count n pos small run ready start,
        ap (λ (q : Main). steps_left ops is lines init count n pos small q s.pc) m,
      ),
    )

-- ===== src/Parallel/Runs.antt =====
-- The runs of a batch of src/parallel.c, over all interleavings of the workers.
use plumbr_c.Redactor.Client.{Ops, IsRedactor}
use plumbr_c.Prelude.{
  ◌∙◌, ℕ, ◌+◌, ◌<◌, ◌≤◌, ◌≡◌, refl, sym, subst, Bytes, Option, false, ltb, size_mod,
}
use plumbr_c.Parallel.{
  settle, end_idx, cell_after, at_start, at_line, Main, main_start, main_done, returned, System,
  work, Step, release, one_line, arrive, finish, Reach, here, next,
}
use plumbr_c.Parallel.Batch.{
  settle-AllReady, Holds, AllReady, work-AllReady, work-IsWorking, arrive-IsWorking,
  release-IsWorking, finish-Holds, start_ne,
}

module _ {R : Type 0} (ops : Ops R) (is : IsRedactor ops) (lines : ℕ → Option Bytes)
    (init : ℕ → Bytes) (count n : ℕ) (pos : 0 < n) (small : count + n < size_mod) where
  abbrev pub Inv : Main → System R → Type 0
  Inv m s = Holds ops is lines init count n m s

  line-Holds :
      (m : Main) (s : System R) (k i : ℕ)
      → AllReady ops is lines init count n s
      → Inv m s
      → k < n
      → s.pc k ≡ at_line i
      → i < end_idx count n k
      → Inv m (work ops lines count n s k i)
  line-Holds main_start s k i r h lt e le = absurd (start_ne i (sym (h.0 k lt) ∙ e))
  line-Holds main_done s k i r h lt e le =
      work-IsWorking ops is lines init count n pos small s k i r h lt e le
  line-Holds returned s k i r h lt e le = absurd (start_ne i (sym (h.0 k lt) ∙ e))

  arrive-Holds :
      (m : Main) (s : System R) (k i : ℕ)
      → Inv m s
      → k < n
      → s.pc k ≡ at_line i
      → ltb i (end_idx count n k) ≡ false
      → Inv m (settle ops lines count n s k)
  unfolding settle
  arrive-Holds main_start s k i h lt e le = absurd (start_ne i (sym (h.0 k lt) ∙ e))
  arrive-Holds main_done s k i h lt e le =
      arrive-IsWorking ops is lines init count n pos small s k i h lt e le
  arrive-Holds returned s k i h lt e le = absurd (start_ne i (sym (h.0 k lt) ∙ e))

  pub Step-Holds :
      {s t : System R}
      → Step ops lines count n s t
      → AllReady ops is lines init count n s
      → Inv s.main s
      → AllReady ops is lines init count n t × Inv t.main t
  unfolding work settle
  Step-Holds {s} (release e idle) r h = (
    r,
    release-IsWorking ops is lines init count n pos small s (subst (λ (m : Main). Inv m s) e h),
  )
  Step-Holds {s} (one_line k i lt e le) r h =
      (work-AllReady ops is lines init count n s k i r, line-Holds s.main s k i r h lt e le)
  Step-Holds {s} (arrive k i lt e le) r h =
      (settle-AllReady ops is lines init count n s k r, arrive-Holds s.main s k i h lt e le)
  Step-Holds {s} (finish e all) r h = (
    r,
    finish-Holds ops is lines init count n pos small s (subst (λ (m : Main). Inv m s) e h) all,
  )

  pub Reach-Holds :
      {s t : System R}
      → Reach ops lines count n s t
      → AllReady ops is lines init count n s
      → Inv s.main s
      → AllReady ops is lines init count n t × Inv t.main t
  Reach-Holds here r h = (r, h)
  Reach-Holds (next run step) r h = let (r', h') = Reach-Holds run r h in Step-Holds step r' h'

-- In whatever order the workers take their lines: when `parallel_process` returns, the output at each
-- index of the batch is what a redactor gives for that line alone, what stood there before where the
-- line is NULL or too long, and the outputs behind the batch are as before. The redactors are such as
-- answer by the line alone, and the sum of the lines and the threads does not wrap.
pub batch_outputs :
    {R : Type 0} (ops : Ops R) (is : IsRedactor ops) (lines : ℕ → Option Bytes) (count n : ℕ)
    (s t : System R)
    → 0 < n
    → count + n < size_mod
    → s.main ≡ main_start
    → ((k : ℕ) → k < n → s.pc k ≡ at_start)
    → ((k : ℕ) → k < n → is.Ready (s.redactor k))
    → Reach ops lines count n s t
    → t.main ≡ returned
    → (j : ℕ)
    → (j < count → t.outputs j ≡ cell_after is.process (lines j) (s.outputs j))
      × (count ≤ j → t.outputs j ≡ s.outputs j)
batch_outputs ops is lines count n s t pos small m idle ready run done j =
    let init = s.outputs in
    let start =
      subst (λ (q : Main). Holds ops is lines init count n q s) (sym m) (idle, λ i. refl) in
    let (r, h) = Reach-Holds ops is lines init count n pos small run ready start in
    let (a, b, c) = subst (λ (q : Main). Holds ops is lines init count n q t) done h in (b j, c j)

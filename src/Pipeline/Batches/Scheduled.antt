-- ===== src/Pipeline/Batches/Scheduled.antt =====
-- The workers of src/parallel.c as the loop of `process_parallel_new` calls them.
use plumbr_c.Prelude.{
  refl, subst, ap, ◌∙◌, arith, zero, suc, [], ◌∷◌, ℕ, ◌+◌, ◌<◌, ◌≤◌, ◌≡◌, Bytes, List, length,
  get_elem?, size_mod, some,
}
use plumbr_c.Redactor.Client.{Ops, IsRedactor}
use plumbr_c.Parallel.{Main, System, Reach, main_start, returned, at_start, cell_after}
use plumbr_c.Parallel.Batch.{Holds, AllReady}
use plumbr_c.Parallel.Runs.{Reach-Holds}
use plumbr_c.Pipeline.Batches.{Workers, IsParallel, batch_limit}

get_elem?-lt : (xs : List Bytes) (j : ℕ) {x : Bytes} → get_elem? xs j ≡ some x → j < length xs
get_elem?-lt [] j e = cc
get_elem?-lt (y ∷ ys) zero e = omega arith
get_elem?-lt (y ∷ ys) (suc j) e = omega (arith, get_elem?-lt ys j e)

-- The system before a batch.
abbrev begin : {R : Type 0} → System R → (ℕ → Bytes) → System R
begin s outputs = record s { outputs = outputs; main = main_start }

module _ {R : Type 0} (ops : Ops R) (is : IsRedactor ops) (n : ℕ)
    (schedule : System R → List Bytes → System R) where
  -- A batch is run in the order that `schedule` chooses.
  abbrev scheduled : Workers (System R)
  scheduled = record {
    run = λ s lines outputs.
        (schedule (begin s outputs) lines, (schedule (begin s outputs) lines).outputs);
  }

  -- Every worker waits at the barrier, with a redactor that answers by the line alone.
  abbrev Waiting : System R → Type 0
  Waiting s = ((k : ℕ) → k < n → s.pc k ≡ at_start) × ((k : ℕ) → k < n → is.Ready (s.redactor k))

  module _ (pos : 0 < n) (small : batch_limit + n < size_mod)
      (runs : (s : System R) (lines : List Bytes)
        → Waiting s
        → s.main ≡ main_start
        → Reach ops (get_elem? lines) (length lines) n s (schedule s lines)
          × ((schedule s lines).main ≡ returned)) where
    after :
        (s : System R) (lines : List Bytes) (outputs : ℕ → Bytes)
        → length lines ≤ batch_limit
        → Waiting s
        → AllReady ops is
            (get_elem? lines)
            outputs
            (length lines)
            n
            (schedule (begin s outputs) lines)
          × Holds ops is
              (get_elem? lines)
              outputs
              (length lines)
              n
              returned
              (schedule (begin s outputs) lines)
    after s lines outputs short (idle, ready) =
        let s' = begin s outputs in
        let t = schedule s' lines in
        let (run, done) = runs s' lines (idle, ready) refl in
        let (r, h) =
          Reach-Holds ops is (get_elem? lines) outputs (length lines) n pos
            (omega (arith, short, small)) run ready (idle, λ j. refl) in
        (
          r,
          subst (λ (m : Main). Holds ops is (get_elem? lines) outputs (length lines) n m t) done h,
        )

    -- Whatever the order, they are such workers as the loop relies on.
    scheduled-IsParallel : IsParallel scheduled is.process
    scheduled-IsParallel = record {
      Idle = Waiting;
      stays =
          λ s lines outputs idle short. let (r, h) = after s lines outputs short idle in (h.0, r);
      gives = λ s lines outputs j line idle short e.
          let (r, h) = after s lines outputs short idle in
          h.1 j (get_elem?-lt lines j e) ∙ ap (λ l. cell_after is.process l (outputs j)) e;
    }

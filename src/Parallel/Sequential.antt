-- ===== src/Parallel/Sequential.antt =====
-- A batch of src/parallel.c gives what one redactor of src/redactor.c gives, line by line.
use plumbr_c.Redactor.Client.{redactor_ops, process-IsRedactor, redact, bare}
use plumbr_c.Prelude.{ℕ, ◌+◌, ◌<◌, ◌≤◌, ◌≡◌, Bytes, List, Option, Bool, size_mod}
use plumbr_c.Redactor.{MatchLocation, Redactor}
use plumbr_c.Redactor.Process.{PcreResult}
use plumbr_c.Parallel.{cell_after, at_start, main_start, returned, System, Reach}
use plumbr_c.Parallel.Runs.{batch_outputs}

module _ {Code : Type 0} (jit_match pcre_match : Code → Bytes → ℕ → PcreResult)
    (sort : List MatchLocation → List MatchLocation)
    (has_triggers : List ℕ → ℕ → Bytes → Bool) where
  -- Workers whose redactors differ from `r` in their counters only: in whatever order they take the
  -- lines, `parallel_process` returns with the output of `redactor_process` by `r` at each index of
  -- the batch (the first bytes of the line where that output is too long, and what stood there where
  -- the line is NULL or too long), and with the outputs behind the batch unchanged, if the sum of
  -- lines and threads does not wrap.
  pub parallel-eq-sequential :
      (r : Redactor Code) (lines : ℕ → Option Bytes) (count n : ℕ) (s t : System (Redactor Code))
      → 0 < n
      → count + n < size_mod
      → s.main ≡ main_start
      → ((k : ℕ) → k < n → s.pc k ≡ at_start)
      → ((k : ℕ)
          → k < n
          → bare jit_match pcre_match sort has_triggers (s.redactor k)
            ≡ bare jit_match pcre_match sort has_triggers r)
      → Reach (redactor_ops jit_match pcre_match sort has_triggers) lines count n s t
      → t.main ≡ returned
      → (j : ℕ)
      → (j < count
          → t.outputs j
            ≡ cell_after
                (λ line. (redact jit_match pcre_match sort has_triggers r line).1)
                (lines j)
                (s.outputs j))
        × (count ≤ j → t.outputs j ≡ s.outputs j)
  parallel-eq-sequential r lines count n s t pos small m idle same run done j =
      batch_outputs (redactor_ops jit_match pcre_match sort has_triggers)
        (process-IsRedactor jit_match pcre_match sort has_triggers r) lines count n s t pos small m
        idle same run done j

-- ===== src/Parallel.antt =====
-- src/parallel.c: a batch of lines divided among workers between two barriers.
pub mod Ranges
pub mod Batch
pub mod Runs
pub mod Ends
pub mod Sequential
mod Tests
use plumbr_c.Redactor.Client.{Ops, text_of, is_rewritten}
use plumbr_c.Prelude.{
  ℕ, ◌+◌, ◌-◌, ◌*◌, ◌/◌, ◌%◌, ◌<◌, ◌≡◌, Bool, true, false, Bytes, Option, none, some, ltb, ◌==◌,
  if◌then◌else◌, length, take, add_size, sub_size, size_mod,
}
use plumbr_c.Automaton.{update}
use plumbr_c.Redactor.{Output, unchanged, rewritten}

-- `PLUMBR_MAX_LINE_SIZE`
abbrev pub max_line_size : ℕ
max_line_size = 65536

-- `per_thread` of `parallel_process`, for `count` lines and `n` threads.
unfoldable pub per_thread : ℕ → ℕ → ℕ
per_thread count n = sub_size (add_size count n) 1 / n

-- `w->start_idx` and `w->end_idx` of worker `i`.
unfoldable pub range : ℕ → ℕ → ℕ → ℕ × ℕ
unfolding per_thread
range count n i =
    let start = (i * per_thread count n) % size_mod in
    let end = add_size start (per_thread count n) in
    (if ltb count start then count else start, if ltb count end then count else end)

abbrev pub start_idx : ℕ → ℕ → ℕ → ℕ
start_idx count n i = (range count n i).0

abbrev pub end_idx : ℕ → ℕ → ℕ → ℕ
end_idx count n i = (range count n i).1

-- What stands in `outputs[i]` after a line: `old` where the line is NULL or too long.
unfoldable pub cell_after : (Bytes → Output) → Option Bytes → Bytes → Bytes
cell_after process none old = old
cell_after process (some line) old =
    let out = text_of (process line) in
    let copy_len =
      if ltb (length line) (max_line_size - 1) then length line else max_line_size - 1 in
    if ltb max_line_size (length line)
    then old
    else if ltb (length out) max_line_size
    then out
    else take copy_len line

-- `lines_modified` counts a line whose output is in the redactor's buffer.
unfoldable pub counts : (Bytes → Output) → Option Bytes → Bool
counts process none = false
counts process (some line) =
    if ltb max_line_size (length line)
    then false
    else if ltb (length (text_of (process line))) max_line_size
    then is_rewritten (process line)
    else false

-- Where a worker is: at the barrier before a batch, at a line, or at the barrier behind it.
pub data Pc : Type 0 where
  at_start : Pc
  at_line : ℕ → Pc
  at_done : Pc

-- Where `parallel_process` is: at either barrier, or behind them.
pub data Main : Type 0 where
  main_start : Main
  main_done : Main
  returned : Main

-- The workers' redactors are of a type `R`.
pub record System (R : Type 0) : Type 0 where
  pub outputs : ℕ → Bytes
  pub pc : ℕ → Pc
  pub redactor : ℕ → R
  pub lines_modified : ℕ → ℕ
  pub patterns_matched : ℕ → ℕ
  pub main : Main

module _ {R : Type 0} (ops : Ops R) (lines : ℕ → Option Bytes) (count n : ℕ) where
  -- The redactor of a worker behind a line; it is not called for a line that is skipped.
  unfoldable pub redactor_after : R → Option Bytes → R
  redactor_after r none = r
  redactor_after r (some line) =
      if ltb max_line_size (length line) then r else (ops.redact r line).0

  -- The body of the loop of `worker_func` in worker `k`, at index `i`.
  unfoldable pub work : System R → ℕ → ℕ → System R
  unfolding cell_after counts redactor_after
  work s k i =
      let r = s.redactor k in
      let process = λ (line : Bytes). (ops.redact r line).1 in
      record s {
        outputs = update s.outputs i (cell_after process (lines i) (s.outputs i));
        pc = update s.pc k (at_line (i + 1));
        redactor = update s.redactor k (redactor_after r (lines i));
        lines_modified =
            update s.lines_modified k
              (s.lines_modified k + (if counts process (lines i) then 1 else 0));
      }

  -- The end of a worker's batch: the statistics are collected, and it waits at the barrier.
  unfoldable pub settle : System R → ℕ → System R
  settle s k = record s {
    pc = update s.pc k at_done;
    redactor = update s.redactor k (ops.reset_stats (s.redactor k));
    patterns_matched =
        update s.patterns_matched k (s.patterns_matched k + ops.patterns_matched (s.redactor k));
  }

  -- One step of the batch: a barrier lets everyone through when all have come to it.
  pub data Step (s : System R) : System R → Type 0 where
    release :
        s.main ≡ main_start
        → ((k : ℕ) → k < n → s.pc k ≡ at_start)
        → Step s (record s { pc = λ k. at_line (start_idx count n k); main = main_done })
    one_line : (k i : ℕ) → k < n → s.pc k ≡ at_line i → i < end_idx count n k → Step s (work s k i)
    arrive :
        (k i : ℕ)
        → k < n
        → s.pc k ≡ at_line i
        → ltb i (end_idx count n k) ≡ false
        → Step s (settle s k)
    finish :
        s.main ≡ main_done
        → ((k : ℕ) → k < n → s.pc k ≡ at_done)
        → Step s (record s { pc = λ k. at_start; main = returned })

  pub data Reach (s : System R) : System R → Type 0 where
    here : Reach s s
    next : {t u : System R} → Reach s t → Step t u → Reach s u

-- ===== src/Parallel/Tests.antt =====
-- A batch of two lines and two workers.
use plumbr_c.Redactor.Client.{Ops, IsRedactor, redactor_ops}
use plumbr_c.Prelude.{
  zero, suc, suc, ℕ, ◌+◌, ◌<◌, ◌≤◌, ◌≡◌, ◌⊎◌, refl, Bytes, Option, none, some, [], codes, arith,
  true, false, if◌then◌else◌, ◌==◌,
}
use plumbr_c.Redactor.Process.{PcreResult, no_match}
use plumbr_c.Parallel.Sequential.{parallel-eq-sequential}
use plumbr_c.Redactor.{Redactor, rewritten}
use plumbr_c.Parallel.{
  settle, arrive, finish, main_done, at_done, returned, at_line, work, cell_after, at_start,
  main_start, System, Step, release, one_line, Reach, here, next, range, start_idx,
}
use plumbr_c.Parallel.Ends.{batch_ends, batch_steps, steps}

-- A redactor that counts its lines and hides every text.
abbrev hide : Ops ℕ
hide = record {
  redact = λ seen text. (seen + 1, rewritten (codes "#") 1);
  patterns_matched = λ seen. seen;
  reset_stats = λ seen. 0;
}

abbrev hide-IsRedactor : IsRedactor hide
hide-IsRedactor = record {
  process = λ text. rewritten (codes "#") 1;
  Ready = λ seen. Unit {0};
  gives = λ seen text r. refl;
  resets = λ seen r. tt;
  stays = λ seen text r. tt;
}

abbrev two_lines : ℕ → Option Bytes
two_lines j = if j == 0 then some (codes "ab") else none

-- One line and one worker, step by step.
module _ {R : Type 0} (ops : Ops R) (r : R) where
  abbrev before : System R
  before = record {
    outputs = λ j. [];
    pc = λ k. at_start;
    redactor = λ k. r;
    lines_modified = λ k. 0;
    patterns_matched = λ k. 0;
    main = main_start;
  }

  abbrev released : System R
  released = record before { pc = λ k. at_line (start_idx 1 1 k); main = main_done }

  abbrev worked : System R
  worked = work ops two_lines 1 1 released 0 0

  abbrev arrived : System R
  arrived = settle ops two_lines 1 1 worked 0

  abbrev ended : System R
  ended = record arrived { pc = λ k. at_start; main = returned }

  to_worked : Reach ops two_lines 1 1 before worked
  unfolding range
  to_worked =
      next (next here (release refl (λ k lt. refl))) (one_line 0 0 (omega arith) refl (omega arith))

  to_arrived : Reach ops two_lines 1 1 before arrived
  unfolding range work settle
  to_arrived = next to_worked (arrive 0 1 (omega arith) refl refl)

  arrived_all : (k : ℕ) → k < 1 → arrived.pc k ≡ at_done
  unfolding settle
  arrived_all zero lt = refl
  arrived_all (suc k) lt = absurd (omega arith)

  to_ended : Reach ops two_lines 1 1 before ended
  unfolding work settle
  to_ended = next to_arrived (finish refl arrived_all)

-- A redactor without patterns.
abbrev plain : Redactor (Unit {0})
plain = record {
  patterns = record {
    patterns = [];
    count = 0;
    capacity = 4;
    automaton = none;
    hot_ac = none;
    hot_count = 0;
    sentinel = none;
    built = true;
  };
  output_capacity = 20;
  num_patterns = 0;
  match_data = λ _. true;
  triggers = [];
  trigger_count = 0;
  use_sse42 = false;
  lines_scanned = 0;
  lines_modified = 0;
  patterns_matched = 0;
  lines_prefiltered = 0;
  lines_sentinel_filtered = 0;
}

abbrev never : Unit {0} → Bytes → ℕ → PcreResult
never regex text start = no_match

abbrev run : Ops (Redactor (Unit {0}))
run = redactor_ops never never (λ ls. ls) (λ ts n l. true)

parallel-eq-sequential_example :
    (0 < 1
      → (ended run plain).outputs 0
        ≡ cell_after
            (λ text. (run.redact plain text).1)
            (two_lines 0)
            ((before run plain).outputs 0))
    × (1 ≤ 0 → (ended run plain).outputs 0 ≡ (before run plain).outputs 0)
parallel-eq-sequential_example =
    parallel-eq-sequential never never (λ ls. ls) (λ ts n l. true) plain two_lines 1 1
      (before run plain) (ended run plain) (omega arith) (omega arith) refl (λ k lt. refl)
      (λ k lt. refl) (to_ended run plain) refl 0

batch_ends_example :
    (((worked hide 0).main ≡ returned)
      ⊎ ((u : System ℕ) × Step hide two_lines 1 1 (worked hide 0) u))
    × (steps hide two_lines 1 1 (to_worked hide 0) ≤ batch_steps 1 1)
batch_ends_example =
    batch_ends hide hide-IsRedactor two_lines 1 1 (before hide 0) (worked hide 0) (omega arith)
      (omega arith) refl (λ k lt. refl) (λ k lt. tt) (to_worked hide 0)

halves : range 5 2 1 ≡ (3, 5)
unfolding range
halves = refl

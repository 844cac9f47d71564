-- ===== src/Pipeline/Batches/Tests.antt =====
-- A text of two lines through the batches of src/pipeline.c.
use plumbr_c.Prelude.{ℕ, ◌+◌, Bytes, List, [], ◌∷◌, codes, arith, refl, ap, get_elem?}
use plumbr_c.Redactor.{Output, rewritten}
use plumbr_c.Io.Lines.{reader}
use plumbr_c.Io.Write.{Writer, wrote, interrupted}
use plumbr_c.Parallel.{cell_after}
use plumbr_c.Pipeline.Text.{unlines}
use plumbr_c.Pipeline.Batches.{Workers, IsParallel, process_batches}
use plumbr_c.Pipeline.Batches.Laws.{Ran, redacted, process_batches_lem}

abbrev hidden : Bytes → Output
hidden line = rewritten (codes "#") 1

-- Workers that count the batches.
abbrev counting : Workers ℕ
counting = record {
  run = λ batches lines outputs.
      (batches + 1, λ j. cell_after hidden (get_elem? lines j) (outputs j));
}

abbrev counting-IsParallel : IsParallel counting hidden
counting-IsParallel = record {
  Idle = λ batches. Unit {0};
  stays = λ batches lines outputs i short. tt;
  gives = λ batches lines outputs j line i short e. ap (λ l. cell_after hidden l (outputs j)) e;
}

abbrev out : Writer
out = record { write_buf = []; bytes_written = 0; script = interrupted ∷ wrote 1 ∷ []; sent = [] }

abbrev two_lines : List Bytes
two_lines = codes "ab" ∷ codes "c" ∷ []

process_batches_lem_example :
    Ran counting hidden counting-IsParallel out
      (redacted counting hidden counting-IsParallel two_lines)
      (process_batches counting 3 2 (record {
        reader = reader (unlines two_lines) 0 5 0 [];
        writer = out;
        workers = 0;
        batch = [];
        outputs = λ _. [];
      }))
process_batches_lem_example =
    process_batches_lem counting hidden counting-IsParallel two_lines 3 1 0 5 0 out 0 (λ _. [])
      ((refl, (refl, tt)), ((refl, tt), tt))
      ((omega arith, omega arith), ((omega arith, omega arith), tt)) (omega arith) tt (omega arith)

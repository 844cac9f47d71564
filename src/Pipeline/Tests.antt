-- ===== src/Pipeline/Tests.antt =====
-- A text of two lines through the loop of src/pipeline.c.
use plumbr_c.Prelude.{ℕ, ◌+◌, ◌≡◌, Bytes, List, [], ◌∷◌, codes, arith, refl}
use plumbr_c.Redactor.{rewritten}
use plumbr_c.Redactor.Client.{Ops, IsRedactor}
use plumbr_c.Io.Lines.{reader}
use plumbr_c.Io.Write.{Writer, wrote, interrupted}
use plumbr_c.Pipeline.{process_single_threaded}
use plumbr_c.Pipeline.Text.{Ran, redacted, unlines, single_threaded_lem}

abbrev hide : Ops ℕ
hide = record {
  redact = λ seen text. (seen + 1, rewritten (codes "#") 1);
  patterns_matched = λ seen. seen;
  reset_stats = λ seen. 0;
}

abbrev hide-IsRedactor : IsRedactor hide
hide-IsRedactor = record {
  process = λ text. rewritten (codes "#") 1;
  Ready = λ seen. Unit {0};
  gives = λ seen text r. refl;
  resets = λ seen r. tt;
  stays = λ seen text r. tt;
}

abbrev out : Writer
out = record { write_buf = []; bytes_written = 0; script = interrupted ∷ wrote 1 ∷ []; sent = [] }

abbrev two_lines : List Bytes
two_lines = codes "ab" ∷ codes "c" ∷ []

single_threaded_lem_example :
    Ran hide hide-IsRedactor 2 out (redacted hide hide-IsRedactor 2 two_lines) (
      process_single_threaded hide 3 2
        (record { reader = reader (unlines two_lines) 0 5 0 []; writer = out; redactor = 0 }))
single_threaded_lem_example =
    single_threaded_lem hide hide-IsRedactor two_lines 3 1 0 5 0 out 0
      ((refl, (refl, tt)), ((refl, tt), tt)) (omega arith) tt (omega arith)

both : redacted hide hide-IsRedactor 2 two_lines ≡ codes "#\n#\n"
unfolding unlines
both = refl

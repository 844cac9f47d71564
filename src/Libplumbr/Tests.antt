-- ===== src/Libplumbr/Tests.antt =====
-- The calls of src/libplumbr.c with a redactor that hides every text.
use plumbr_c.Prelude.{ap, ℕ, ◌+◌, ◌≡◌, Bool, true, none, codes, arith, refl, length}
use plumbr_c.Redactor.{rewritten}
use plumbr_c.Redactor.Client.{Ops, IsRedactor}
use plumbr_c.Libplumbr.{Plumbr, no_stats, redact_inplace, count_line, get_stats, reset_stats}
use plumbr_c.Libplumbr.Buffer.{redact_buffer, redact_buffer_lem, meant, redact_line}
use plumbr_c.Lines.{copied, run_lines, split_lines}

-- A redactor that counts its lines and writes "#" for each.
abbrev hide : Ops ℕ
hide = record {
  redact = λ seen text. (seen + 1, rewritten (codes "#") 1);
  patterns_matched = λ seen. seen;
  reset_stats = λ seen. 0;
}

abbrev hide-IsRedactor : IsRedactor hide
hide-IsRedactor = record {
  process = λ text. rewritten (codes "#") 1;
  Ready = λ seen. Unit {0};
  gives = λ seen text r. refl;
  resets = λ seen r. tt;
  stays = λ seen text r. tt;
}

abbrev fresh : Plumbr ℕ
fresh = record { redactor = 0; stats = no_stats }

abbrev all_granted : ℕ → Bool
all_granted size = true

two_lines : (meant hide all_granted fresh b'a' (codes "b\nc")).1 ≡ codes "#\n#"
unfolding run_lines split_lines redact_line
two_lines = refl

redact_buffer_lem_example :
    redact_buffer hide all_granted fresh (codes "ab\nc")
    ≡ copied
        (meant hide all_granted fresh b'a' (codes "b\nc")).0
        (meant hide all_granted fresh b'a' (codes "b\nc")).1
redact_buffer_lem_example =
    redact_buffer_lem hide all_granted fresh b'a' (codes "b\nc") (omega arith)
      (omega (arith, ap length two_lines)) (λ n. refl)

-- The buffer is left where the text does not fit with its terminator.
no_room : (redact_inplace hide fresh (codes "abc") 1).1 ≡ none
unfolding redact_inplace
no_room = refl

-- A line rewritten to its own length is not counted as modified.
same_length : (redact_inplace hide fresh (codes "a") 9).0.stats.lines_modified ≡ 0
unfolding redact_inplace count_line
same_length = refl

-- Resetting the statistics leaves the matches, which are the redactor's.
matches_stay :
    (get_stats hide (reset_stats (record { redactor = 5; stats = no_stats }))).patterns_matched ≡ 5
unfolding get_stats reset_stats
matches_stay = refl

-- ===== src/Server/Batch/Tests.antt =====
-- A batch of two texts, with a redactor that numbers the lines it hides.
use plumbr_c.Prelude.{
  ℕ, ◌+◌, ◌≡◌, ◌++◌, ◌∷◌, [], some, codes, arith, refl, length, All, inl, inr, ap, Bytes, List,
  Bool, true,
}
use plumbr_c.Redactor.{rewritten}
use plumbr_c.Redactor.Client.{Ops}
use plumbr_c.Libplumbr.{Plumbr, no_stats}
use plumbr_c.Libplumbr as Library
use plumbr_c.Lines.{run_lines, split_lines}
use plumbr_c.Server.Redact as Redact
use plumbr_c.Server.Json.{escape_byte}
use plumbr_c.Server.Json.Text.{escape}
use plumbr_c.Server.Json.RoundTrip.{IsPlain}
use plumbr_c.Server.Batch.{
  handle_redact_batch, first_batch, ok, error, stats_text, item_text, print_int, find_texts,
  array_start,
}
use plumbr_c.Server.Batch.Laws.{describe, array_text, array_rest, handle_redact_batch-escape}
use plumbr_c.Server.Batch.Room.{with_item}

abbrev numbering : Ops ℕ
numbering = record {
  redact = λ seen text. (seen + 1, rewritten (codes "#" ++ (b'0' + seen) ∷ []) 2);
  patterns_matched = λ seen. seen;
  reset_stats = λ seen. 0;
}

abbrev fresh : Plumbr ℕ
fresh = record { redactor = 0; stats = no_stats }

abbrev all_granted : ℕ → Bool
all_granted size = true

abbrev two_texts : List Bytes
two_texts = codes "a\nb" ∷ codes "c" ∷ []

array : array_text two_texts (codes "}") ≡ codes "\"a\\nb\",\"c\"]}"
unfolding array_text array_rest escape escape_byte
array = refl

document :
    (describe numbering all_granted (first_batch fresh 1) two_texts).resp
    ≡ codes
        "{\"results\":[{\"redacted\":\"#0\\n#1\",\"lines_processed\":2,\"lines_modified\":2,\"patterns_matched\":0},{\"redacted\":\"#2\",\"lines_processed\":1,\"lines_modified\":1,\"patterns_matched\":0}"
unfolding describe with_item item_text print_int run_lines split_lines Redact.redact_line
    Redact.count_patterns Library.redact escape escape_byte
document = refl

two_lines-IsPlain : All IsPlain (codes "a\nb")
unfolding IsPlain
two_lines-IsPlain = (
  inl (omega arith),
  (inr (omega arith, omega arith, λ e. omega (arith, e)), (inl (omega arith), tt)),
)

letter-IsPlain : All IsPlain (codes "c")
unfolding IsPlain
letter-IsPlain = (inl (omega arith), tt)

handle_redact_batch-escape_example :
    handle_redact_batch numbering all_granted fresh
      (codes "{\"texts\": [" ++ array_text two_texts (codes "}"))
      (codes "0.125")
    ≡ some (
      (describe numbering all_granted (first_batch fresh 1) two_texts).plumbr,
      ok (
          (describe numbering all_granted (first_batch fresh 1) two_texts).resp
          ++ stats_text
              (describe numbering all_granted (first_batch fresh 1) two_texts).total_items
              (describe numbering all_granted (first_batch fresh 1) two_texts).total_lines
              (describe numbering all_granted (first_batch fresh 1) two_texts).total_modified
              (describe numbering all_granted (first_batch fresh 1) two_texts).total_patterns
              (codes "0.125")),
    )
handle_redact_batch-escape_example =
    handle_redact_batch-escape numbering all_granted (λ n. refl) fresh two_texts (codes "}")
      (codes "0.125") ((two_lines-IsPlain, omega arith), ((letter-IsPlain, omega arith), tt))
      (omega arith) (omega (arith, ap length array)) (omega (arith, ap length document))

-- A body without an array.
no_array :
    handle_redact_batch numbering all_granted fresh (codes "{\"texts\": 1}") []
    ≡ some (fresh, error 400)
unfolding handle_redact_batch find_texts array_start
no_array = refl

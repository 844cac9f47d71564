-- ===== src/Pipeline.antt =====
-- src/pipeline.c: the loop of `process_single_threaded`, from a reader through a redactor to a writer.
pub mod Text
pub mod Batches
mod Tests
use plumbr_c.Prelude.{ℕ, zero, suc, Bool, true, false, Bytes, Option, none, some}
use plumbr_c.Io.{Reader, io_read_line}
use plumbr_c.Io.Write.{Writer, io_write_line}
use plumbr_c.Redactor.Client.{Ops, text_of}

-- The parts of `PlumbrContext` that the loop uses.
pub record Context (R : Type 0) : Type 0 where
  pub reader : Reader
  pub writer : Writer
  pub redactor : R

module _ {R : Type 0} (ops : Ops R) where
  -- `redactor_process` and `io_write_line` on a line: the context, and false for a failed write.
  unfoldable pub write_redacted : Context R → Reader → Bytes → Option (Context R × Bool)
  unfolding io_write_line
  write_redacted ctx rd line =
      let (r, out) = ops.redact ctx.redactor line in
      elim (io_write_line ctx.writer (text_of out)) [
        | none ↦ none
        | some (w, ok) ↦ some (record { reader = rd; writer = w; redactor = r }, ok)
      ]

  -- `process_single_threaded`, with the fuel of `io_read_line` and of its own loop; false is 1.
  unfoldable pub process_single_threaded : ℕ → ℕ → Context R → Option (Context R × Bool)
  unfolding io_read_line write_redacted
  process_single_threaded zero fuel ctx = none
  process_single_threaded (suc rounds) fuel ctx = elim (io_read_line fuel ctx.reader) [
    | none ↦ none
    | some (rd, line) ↦ elim line [
      | none ↦ some (record ctx { reader = rd }, true)
      | some text ↦ elim (write_redacted ctx rd text) [
        | none ↦ none
        | some (ctx', ok) ↦ elim ok [
          | false ↦ some (ctx', false)
          | true ↦ process_single_threaded rounds fuel ctx'
        ]
      ]
    ]
  ]

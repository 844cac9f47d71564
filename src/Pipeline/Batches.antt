-- ===== src/Pipeline/Batches.antt =====
-- src/pipeline.c: the loop of `process_parallel_new`, once its arrays are allocated.
pub mod Laws
pub mod Scheduled
mod Tests
use plumbr_c.Prelude.{
  ◌≤◌, ℕ, zero, suc, ◌+◌, ◌-◌, ◌≡◌, Bool, true, false, Bytes, List, [], ◌∷◌, ◌++◌, Option, none,
  some, ltb, leb, ◌==◌, if◌then◌else◌, length, take, get_elem?,
}
use plumbr_c.Redactor.{Output}
use plumbr_c.Io.{Reader, io_read_line}
use plumbr_c.Io.Write.{Writer, io_write_line}
use plumbr_c.Parallel.{max_line_size, cell_after}

-- `BATCH_SIZE`
abbrev pub batch_limit : ℕ
batch_limit = 4096

-- What the loop calls of the workers: `parallel_process` on the lines of a batch, which writes the
-- cells of `outputs`.
pub record Workers (P : Type 0) : Type 0 where
  pub run : P → List Bytes → (ℕ → Bytes) → P × (ℕ → Bytes)

-- Workers that treat each line of a batch as a redactor with the answers `process` does, as long as
-- they are `Idle`.
pub record IsParallel {P : Type 0} (ws : Workers P) (process : Bytes → Output) : Type 1 where
  pub Idle : P → Type 0
  pub stays :
      (p : P) (lines : List Bytes) (outputs : ℕ → Bytes)
      → Idle p
      → length lines ≤ batch_limit
      → Idle (ws.run p lines outputs).0
  pub gives :
      (p : P) (lines : List Bytes) (outputs : ℕ → Bytes) (j : ℕ) (line : Bytes)
      → Idle p
      → length lines ≤ batch_limit
      → get_elem? lines j ≡ some line
      → (ws.run p lines outputs).1 j ≡ cell_after process (some line) (outputs j)

-- The parts of `PlumbrContext` that the loop uses, the workers, and the batch: the lines copied so
-- far, `batch_count` of them, and the output buffers.
pub record Run (P : Type 0) : Type 0 where
  pub reader : Reader
  pub writer : Writer
  pub workers : P
  pub batch : List Bytes
  pub outputs : ℕ → Bytes

-- The copy of a line, which is cut off at the size of its buffer.
unfoldable pub copy_line : Bytes → Bytes
copy_line line = if ltb (length line) max_line_size then line else take (max_line_size - 1) line

-- for (i = 0; i < batch_count; i++): the `n` outputs from `i` on.
unfoldable pub write_outputs : Writer → (ℕ → Bytes) → ℕ → ℕ → Option (Writer × Bool)
write_outputs w outputs i zero = some (w, true)
write_outputs w outputs i (suc n) = elim (io_write_line w (outputs i)) [
  | none ↦ none
  | some (w', ok) ↦ elim ok [ false ↦ some (w', false) | true ↦ write_outputs w' outputs (i + 1) n ]
]

module _ {P : Type 0} (ws : Workers P) where
  -- The batch is processed, its results are written in order, and it is empty again.
  unfoldable pub run_batch : Run P → Option (Run P × Bool)
  run_batch s =
      let (p, outputs) = ws.run s.workers s.batch s.outputs in
      elim (write_outputs s.writer outputs 0 (length s.batch)) [
        | none ↦ none
        | some (w, ok) ↦
            some (record s { writer = w; workers = p; batch = []; outputs = outputs }, ok)
      ]

  -- The loop, with the fuel of `io_read_line` and of its own; false is 1.
  unfoldable pub process_batches : ℕ → ℕ → Run P → Option (Run P × Bool)
  process_batches zero fuel s = none
  process_batches (suc rounds) fuel s = elim (io_read_line fuel s.reader) [
    | none ↦ none
    | some (rd, line) ↦ elim line [
      | none ↦ elim (ltb 0 (length s.batch)) [
        | false ↦ some (record s { reader = rd }, true)
        | true ↦ run_batch (record s { reader = rd })
      ]
      | some text ↦
          let s' = record s { reader = rd; batch = s.batch ++ copy_line text ∷ [] } in
          elim (leb batch_limit (length s'.batch)) [
            | false ↦ process_batches rounds fuel s'
            | true ↦ elim (run_batch s') [
              | none ↦ none
              | some (s2, ok) ↦ elim ok [
                | false ↦ some (s2, false)
                | true ↦ process_batches rounds fuel s2
              ]
            ]
          ]
    ]
  ]

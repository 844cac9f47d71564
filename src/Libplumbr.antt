-- ===== src/Libplumbr.antt =====
-- src/libplumbr.c: the calls of the embedding library, over the redactor.
-- `malloc` and `realloc` are a test of the size asked for. A call with a NULL argument, which returns
-- at once, is left out.
pub mod Buffer
pub mod Laws
mod Tests
use plumbr_c.Prelude.{
  ℕ, zero, suc, ◌+◌, ◌*◌, ◌/◌, ◌-◌, ◌^◌, Bool, true, false, ◌||◌, not, Bytes, List, [], ◌∷◌, Option,
  none, some, ◌==◌, if◌then◌else◌, ltb, leb, length, bytes_eq, size_max, add_size,
}
use plumbr_c.Redactor.{Output}
use plumbr_c.Redactor.Client.{Ops, text_of}

-- `libplumbr_stats_t`
pub record Stats : Type 0 where
  pub lines_processed : ℕ
  pub lines_modified : ℕ
  pub patterns_matched : ℕ
  pub bytes_processed : ℕ

abbrev pub no_stats : Stats
no_stats = record {
  lines_processed = 0;
  lines_modified = 0;
  patterns_matched = 0;
  bytes_processed = 0;
}

-- The parts of `struct libplumbr` that a call changes.
pub record Plumbr (R : Type 0) : Type 0 where
  pub redactor : R
  pub stats : Stats

-- `PLUMBR_MAX_LINE_SIZE`
abbrev pub max_input : ℕ
max_input = 65536

-- `lines_processed++`, `bytes_processed += len`, and `lines_modified++` where a line was modified.
unfoldable pub count_line : Stats → ℕ → Bool → Stats
count_line s len modified = record s {
  lines_processed = s.lines_processed + 1;
  bytes_processed = s.bytes_processed + len;
  lines_modified = s.lines_modified + (if modified then 1 else 0);
}

module _ {R : Type 0} (ops : Ops R) where
  -- `libplumbr_redact_inplace` on the bytes of a buffer of `capacity` bytes: the text left in it,
  -- whose length is returned; `none` is -1, and leaves the buffer.
  unfoldable pub redact_inplace : Plumbr R → Bytes → ℕ → Plumbr R × Option Bytes
  unfolding count_line
  redact_inplace p buffer capacity =
      let (r, out) = ops.redact p.redactor buffer in
      let result = text_of out in
      let called = record p { redactor = r } in
      if leb capacity (length result) then (called, none) else (
        record called {
          stats = count_line p.stats (length buffer) (not (length result == length buffer));
        },
        some result,
      )

  -- `libplumbr_get_stats`
  unfoldable pub get_stats : Plumbr R → Stats
  get_stats p = record p.stats { patterns_matched = ops.patterns_matched p.redactor }

module _ {R : Type 0} (ops : Ops R) (grants : ℕ → Bool) where
  -- `libplumbr_redact`: the string returned, without its terminator; `none` is NULL.
  unfoldable pub redact : Plumbr R → Bytes → Plumbr R × Option Bytes
  unfolding count_line
  redact p input =
      let (r, out) = ops.redact p.redactor input in
      let result = text_of out in
      let called = record p { redactor = r } in
      if ltb max_input (length input)
      then (p, none)
      else if grants (length result + 1)
      then (
        record called { stats = count_line p.stats (length input) (not (bytes_eq input result)) },
        some result,
      )
      else (called, none)

  -- The loop of `libplumbr_redact_batch`: the outputs, or `none` where an output is NULL, and those
  -- before it are freed.
  unfoldable pub batch_loop : Plumbr R → List Bytes → Plumbr R × Option (List Bytes)
  unfolding redact
  batch_loop p [] = (p, some [])
  batch_loop p (input ∷ inputs) =
      let (p', output) = redact p input in
      elim output [
        | none ↦ (p', none)
        | some text ↦
            let (p2, outputs) = batch_loop p' inputs in
            (p2, elim outputs [ none ↦ none | some texts ↦ some (text ∷ texts) ])
      ]

  -- `libplumbr_redact_batch`, which returns the number of outputs; `none` is -1.
  unfoldable pub redact_batch : Plumbr R → List Bytes → Plumbr R × Option (List Bytes)
  unfolding batch_loop
  redact_batch p inputs =
      if ltb (2 ^ 31 - 1) (length inputs) then (p, none) else batch_loop p inputs

-- `libplumbr_reset_stats`
unfoldable pub reset_stats : {R : Type 0} → Plumbr R → Plumbr R
reset_stats p = record p { stats = no_stats }

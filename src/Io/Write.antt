-- ===== src/Io/Write.antt =====
-- Writing through a buffer: `io_write`, `io_write_line` and `io_flush` of src/io.c.
pub mod Laws
use plumbr_c.Prelude.{
  ℕ, zero, suc, ◌+◌, ◌-◌, Bool, true, false, Bytes, List, [], ◌∷◌, ◌++◌, Option, none, some, ltb,
  ◌==◌, if◌then◌else◌, length, take, drop,
}
use plumbr_c.Io.{buffer_size}

-- What one `write` returns: a number of bytes taken (no more than it was offered), -1 with EINTR, or
-- -1 with another error. Behind the end of the script all that is offered is taken.
pub data WriteResult : Type 0 where
  wrote : ℕ → WriteResult
  interrupted : WriteResult
  failed : WriteResult

-- The parts of `IOContext` that writing uses: `write_buf` up to `write_pos`. `sent` is what the
-- descriptor has taken.
pub record Writer : Type 0 where
  pub write_buf : Bytes
  pub bytes_written : ℕ
  pub script : List WriteResult
  pub sent : Bytes

-- The loop of `io_flush`, over the bytes from `written` on: what has been sent, the script left, and
-- false for an error.
unfoldable pub flush_loop : List WriteResult → Bytes → Bytes → Bytes × List WriteResult × Bool
flush_loop [] todo sent = (sent ++ todo, [], true)
flush_loop (r ∷ rest) [] sent = (sent, r ∷ rest, true)
flush_loop (wrote n ∷ rest) (c ∷ cs) sent =
    flush_loop rest (drop n (c ∷ cs)) (sent ++ take n (c ∷ cs))
flush_loop (interrupted ∷ rest) (c ∷ cs) sent = flush_loop rest (c ∷ cs) sent
flush_loop (failed ∷ rest) (c ∷ cs) sent = (sent, rest, false)

-- `io_flush`
unfoldable pub io_flush : Writer → Writer × Bool
unfolding flush_loop
io_flush ctx =
    let (sent, rest, ok) = flush_loop ctx.script ctx.write_buf ctx.sent in
    if length ctx.write_buf == 0
    then (ctx, true)
    else if ok
    then (
      record {
        write_buf = [];
        bytes_written = ctx.bytes_written + length ctx.write_buf;
        script = rest;
        sent = sent;
      },
      true,
    )
    else (record ctx { script = rest; sent = sent }, false)

-- `memcpy` of `chunk` bytes behind the buffer's.
abbrev pub put_chunk : Writer → ℕ → Bytes → Writer
put_chunk ctx chunk bytes = record ctx { write_buf = ctx.write_buf ++ take chunk bytes }

-- while (len > 0), for at most `fuel` rounds; `none` where they do not suffice.
unfoldable pub write_loop : ℕ → Writer → Bytes → Option (Writer × Bool)
unfolding io_flush
write_loop fuel ctx [] = some (ctx, true)
write_loop zero ctx (c ∷ cs) = none
write_loop (suc fuel) ctx (c ∷ cs) =
    let (flushed, ok) =
      if buffer_size - length ctx.write_buf == 0 then io_flush ctx else (ctx, true) in
    let space = buffer_size - length flushed.write_buf in
    let chunk = if ltb (length (c ∷ cs)) space then length (c ∷ cs) else space in
    elim ok [
      | false ↦ some (flushed, false)
      | true ↦ write_loop fuel (put_chunk flushed chunk (c ∷ cs)) (drop chunk (c ∷ cs))
    ]

-- `io_write`: a round takes a byte at least, so there are at most as many as bytes.
unfoldable pub io_write : Writer → Bytes → Option (Writer × Bool)
unfolding write_loop
io_write ctx bytes = write_loop (length bytes) ctx bytes

-- `io_write_line`
unfoldable pub io_write_line : Writer → Bytes → Option (Writer × Bool)
unfolding io_write
io_write_line ctx line = elim (io_write ctx line) [
  | none ↦ none
  | some (ctx', ok) ↦ if ok then io_write ctx' (b'\n' ∷ []) else some (ctx', false)
]

-- `io_bytes_written`
unfoldable pub io_bytes_written : Writer → ℕ
io_bytes_written ctx = ctx.bytes_written + length ctx.write_buf

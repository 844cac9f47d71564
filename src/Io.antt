-- ===== src/Io.antt =====
-- src/io.c: reading lines from a descriptor.
-- A context holds the bytes of `read_buf` from `read_pos` up to `read_len`, and what stands in
-- `line_carry` up to its length. The NUL behind a line that is returned lies
-- outside its `*out_len` bytes and behind `read_pos`.
pub mod Lines
pub mod Split
pub mod Total
pub mod Write
mod Tests
use plumbr_c.Prelude.{
  ◌&&◌, ℕ, zero, suc, ◌+◌, ◌-◌, ◌*◌, Bool, true, false, Bytes, List, [], ◌∷◌, ◌++◌, Option, none,
  some, ltb, leb, ◌==◌, if◌then◌else◌, length, take, drop,
}

-- `PLUMBR_READ_BUFFER_SIZE`, `PLUMBR_WRITE_BUFFER_SIZE` and `PLUMBR_MAX_LINE_SIZE`
abbrev pub buffer_size : ℕ
buffer_size = 65536

abbrev pub max_line_size : ℕ
max_line_size = 65536

-- What one `read` returns: some bytes (at most as many as there is room), -1 with EINTR, -1 with
-- another error. No bytes, and the end of the script of results, are the end of the file.
pub data ReadResult : Type 0 where
  got : Bytes → ReadResult
  interrupted : ReadResult
  failed : ReadResult

-- The parts of `IOContext` that reading uses; `script` is what the descriptor has yet to deliver.
pub record Reader : Type 0 where
  pub pending : Bytes
  pub read_pos : ℕ
  pub read_eof : Bool
  pub line_carry : Bytes
  pub bytes_read : ℕ
  pub lines_processed : ℕ
  pub script : List ReadResult

-- The `do ... while` around `read`, with `space` bytes of room: `none` is an error; no bytes, the end.
unfoldable pub read_retry : ℕ → List ReadResult → Option Bytes × List ReadResult
read_retry space [] = (some [], [])
read_retry space (got bytes ∷ rest) = (some (take space bytes), rest)
read_retry space (interrupted ∷ rest) = read_retry space rest
read_retry space (failed ∷ rest) = (none, rest)

-- The move of what is pending to the start of the buffer, where `read_pos` is not there yet.
unfoldable pub move_pending : Reader → Reader
move_pending ctx =
    let keeps = ltb 0 ctx.read_pos && ltb 0 (length ctx.pending) in
    record ctx { pending = if keeps then ctx.pending else []; read_pos = 0 }

-- `io_refill` behind that move.
unfoldable pub fill : Reader → Reader × Bool
unfolding read_retry
fill ctx =
    let space = buffer_size - length ctx.pending in
    let (result, rest) = read_retry space ctx.script in
    let filled : Reader × Bool = elim result [
      | none ↦ (record ctx { read_eof = true; script = rest }, false)
      | some [] ↦ (record ctx { read_eof = true; script = rest }, ltb 0 (length ctx.pending))
      | some (c ∷ cs) ↦ (
        record ctx {
          pending = ctx.pending ++ c ∷ cs;
          bytes_read = ctx.bytes_read + length (c ∷ cs);
          script = rest;
        },
        true,
      )
    ] in
    if space == 0 then (ctx, true) else filled

-- `io_refill`
unfoldable pub io_refill : Reader → Reader × Bool
unfolding move_pending fill
io_refill ctx = if ctx.read_eof then (ctx, false) else fill (move_pending ctx)

-- `ctx->read_pos < ctx->read_len || io_refill(ctx)`
unfoldable pub available : Reader → Reader × Bool
unfolding io_refill
available ctx = if ltb 0 (length ctx.pending) then (ctx, true) else io_refill ctx

-- `avx2_memchr(start, avail, '\n')`: the bytes before the first newline, and those behind it.
unfoldable pub find_newline : Bytes → Option (Bytes × Bytes)
find_newline [] = none
find_newline (c ∷ cs) =
    let rest = find_newline cs in
    if c == b'\n'
    then some ([], cs)
    else elim rest [ none ↦ none | some (line, behind) ↦ some (c ∷ line, behind) ]

-- The end of `io_read_line`: what is carried is the last line.
unfoldable pub at_end : Reader → Reader × Option Bytes
at_end ctx =
    if ltb 0 (length ctx.line_carry)
    then (
      record ctx { line_carry = []; lines_processed = ctx.lines_processed + 1 },
      some ctx.line_carry,
    )
    else (ctx, none)

-- One round of the loop of the fast path: a line, or `none` to go on.
unfoldable pub fast_round : Reader → Reader × Option Bytes
unfolding find_newline
fast_round ctx =
    let read_len = ctx.read_pos + length ctx.pending in
    elim (find_newline ctx.pending) [
      | some (line, behind) ↦ (
        record ctx {
          pending = behind;
          read_pos = ctx.read_pos + length line + 1;
          lines_processed = ctx.lines_processed + 1;
        },
        some line,
      )
      | none ↦
          if ltb 0 (length ctx.pending)
          then (if leb max_line_size (length ctx.pending)
              then (record ctx { pending = []; read_pos = read_len }, none)
              else (
                record ctx { line_carry = ctx.pending; pending = []; read_pos = read_len },
                none,
              ))
          else (ctx, none)
    ]

-- The fast path, for at most `fuel` rounds; the outer option is `none` where they do not suffice.
unfoldable pub fast_path : ℕ → Reader → Option (Reader × Option Bytes)
unfolding available fast_round at_end
fast_path zero ctx = none
fast_path (suc fuel) ctx =
    let (ctx1, more) = available ctx in
    let (ctx2, line) = fast_round ctx1 in
    elim more [
      | false ↦ some (at_end ctx1)
      | true ↦ elim line [ some l ↦ some (ctx2, some l) | none ↦ fast_path fuel ctx2 ]
    ]

-- What one round of the loop over a carried line does next.
pub data Next : Type 0 where
  return : Bytes → Next
  again : Next
  go_on : Next

-- One round of that loop; `again` is the recursive call behind a line too long.
unfoldable pub carry_round : Reader → Reader × Next
unfolding find_newline
carry_round ctx =
    let read_len = ctx.read_pos + length ctx.pending in
    let room = max_line_size - length ctx.line_carry - 1 in
    elim (find_newline ctx.pending) [
      | some (chunk, behind) ↦
          if ltb room (length chunk)
          then (
            record ctx {
              pending = behind;
              read_pos = ctx.read_pos + length chunk + 1;
              line_carry = [];
              lines_processed = ctx.lines_processed + 1;
            },
            again,
          )
          else (
            record ctx {
              pending = behind;
              read_pos = ctx.read_pos + length chunk + 1;
              line_carry = [];
              lines_processed = ctx.lines_processed + 1;
            },
            return (ctx.line_carry ++ chunk),
          )
      | none ↦
          if ltb room (length ctx.pending) && (room == 0)
          then (record ctx { line_carry = []; pending = []; read_pos = read_len }, go_on)
          else (
            record ctx {
              line_carry = ctx.line_carry ++ take room ctx.pending;
              pending = [];
              read_pos = read_len;
            },
            go_on,
          )
    ]

-- The loop over a carried line. Behind a line too long nothing is carried, so the recursive call
-- takes the fast path.
unfoldable pub carry_path : ℕ → Reader → Option (Reader × Option Bytes)
unfolding available carry_round fast_path at_end
carry_path zero ctx = none
carry_path (suc fuel) ctx =
    let (ctx1, more) = available ctx in
    let (ctx2, next) = carry_round ctx1 in
    elim more [
      | false ↦ some (at_end ctx1)
      | true ↦ elim next [
        | return l ↦ some (ctx2, some l)
        | again ↦ fast_path fuel ctx2
        | go_on ↦ carry_path fuel ctx2
      ]
    ]

-- `io_read_line`: the context and the line, `none` for NULL.
unfoldable pub io_read_line : ℕ → Reader → Option (Reader × Option Bytes)
unfolding fast_path carry_path
io_read_line fuel ctx =
    if ltb 0 (length ctx.line_carry) then carry_path fuel ctx else fast_path fuel ctx

-- ===== src/Io/Split.antt =====
-- A line of src/io.c that two reads deliver, and the line that is read after it.
use plumbr_c.Prelude.{
  ℕ, suc, ◌+◌, ◌-◌, ◌≡◌, ◌<◌, ◌≤◌, refl, ap, ◌∙◌, Bytes, List, ◌∷◌, ◌++◌, [], some, ltb, length,
  All, arith, lt→ltb, false, length-append,
}
use plumbr_c.Io.{
  Reader, ReadResult, got, Option, Bool, true, again, go_on, fast_path, at_end, buffer_size,
  io_read_line, carry_path, carry_round, available, max_line_size, find_newline, return, Next,
}
use plumbr_c.Io.Lines.{
  IsInner, find_newline-append, available-pending, reader, carrying, io_read_line-split,
}

-- Not more than the room left behind what is carried.
room_left : (a d : ℕ) → a + d < max_line_size → ltb (max_line_size - a - 1) d ≡ false
room_left a d h = ground arith

carry_round-line :
    (a d behind : Bytes) (pos bytes lines : ℕ) (script : List ReadResult)
    → find_newline (d ++ b'\n' ∷ behind) ≡ some (d, behind)
    → ltb (max_line_size - length a - 1) (length d) ≡ false
    → carry_round (carrying a (d ++ b'\n' ∷ behind) pos bytes lines script)
      ≡ (reader behind (pos + length d + 1) bytes (lines + 1) script, return (a ++ d))
unfolding carry_round
carry_round-line a d behind pos bytes lines script e k = rw (carry_round, e, k) refl

-- What the loop over a carried line does behind one round, and behind the test of one.
abbrev behind_next : ℕ → Reader × Next → Option (Reader × Option Bytes)
behind_next fuel r = elim r.1 [
  | return l ↦ some (r.0, some l)
  | again ↦ fast_path fuel r.0
  | go_on ↦ carry_path fuel r.0
]

abbrev behind_carry : ℕ → Reader × Bool → Option (Reader × Option Bytes)
behind_carry fuel p = elim p.1 [
  | false ↦ some (at_end p.0)
  | true ↦ behind_next fuel (carry_round p.0)
]

carry_path-suc :
    (fuel : ℕ) (ctx : Reader) → carry_path (suc fuel) ctx ≡ behind_carry fuel (available ctx)
unfolding carry_path
carry_path-suc fuel ctx = refl

carry_path-line :
    (fuel : ℕ) (a d behind : Bytes) (pos bytes lines : ℕ) (script : List ReadResult)
    → All IsInner d
    → length a + length d < max_line_size
    → carry_path (suc fuel) (carrying a (d ++ b'\n' ∷ behind) pos bytes lines script)
      ≡ some (reader behind (pos + length d + 1) bytes (lines + 1) script, some (a ++ d))
carry_path-line fuel a d behind pos bytes lines script inner short =
    let ctx = carrying a (d ++ b'\n' ∷ behind) pos bytes lines script in
    let some_left : 0 < length (d ++ b'\n' ∷ behind) =
      omega (arith, length-append d (b'\n' ∷ behind)) in
    carry_path-suc fuel ctx
    ∙ ap (behind_carry fuel) (available-pending ctx some_left)
    ∙ ap (behind_next fuel) (
        carry_round-line a d behind pos bytes lines script (find_newline-append d behind inner)
          (room_left (length a) (length d) short))

-- A carried part is put before the next line, whichever line it came from.
io_read_line-carried :
    (fuel : ℕ) (a d behind : Bytes) (pos bytes lines : ℕ) (script : List ReadResult)
    → 0 < length a
    → All IsInner d
    → length a + length d < max_line_size
    → io_read_line (suc fuel) (carrying a (d ++ b'\n' ∷ behind) pos bytes lines script)
      ≡ some (reader behind (pos + length d + 1) bytes (lines + 1) script, some (a ++ d))
unfolding io_read_line
io_read_line-carried fuel a d behind pos bytes lines script some_a inner short =
    rw (lt→ltb 0 (length a) some_a)
      (carry_path-line fuel a d behind pos bytes lines script inner short)

-- A line `a ++ b` whose parts arrive in two reads, with a line `d` behind it in the second: where
-- nothing is pending or carried and the parts fit the buffers, the first call of `io_read_line`
-- returns `b` alone and leaves `a` in `line_carry`, and the call after it returns `a ++ d`.
pub io_read_line-split_twice :
    (fuel pos bytes lines : ℕ) (a b d behind : Bytes) (rest : List ReadResult)
    → 0 < length a
    → length a + length d < max_line_size
    → length (b ++ b'\n' ∷ (d ++ b'\n' ∷ behind)) ≤ buffer_size
    → All IsInner a
    → All IsInner b
    → All IsInner d
    → let chunk = b ++ b'\n' ∷ (d ++ b'\n' ∷ behind) in
      let read = bytes + length a + length chunk in
      let ctx = carrying a (d ++ b'\n' ∷ behind) (0 + length b + 1) read (lines + 1) rest in
      (io_read_line (suc (suc fuel)) (reader [] pos bytes lines (got a ∷ got chunk ∷ rest))
        ≡ some (ctx, some b))
      × (io_read_line (suc fuel) ctx
          ≡ some (
            reader behind (0 + length b + 1 + length d + 1) read (lines + 1 + 1) rest,
            some (a ++ d),
          ))
io_read_line-split_twice fuel pos bytes lines a b d behind rest some_a short fits ha hb hd =
    let chunk = b ++ b'\n' ∷ (d ++ b'\n' ∷ behind) in
    (
      io_read_line-split fuel pos bytes lines a b (d ++ b'\n' ∷ behind) rest some_a
          (omega (arith, short)) fits ha hb,
      io_read_line-carried fuel a d behind (0 + length b + 1) (bytes + length a + length chunk)
          (lines + 1) rest some_a hd short,
    )

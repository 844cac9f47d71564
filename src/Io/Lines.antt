-- ===== src/Io/Lines.antt =====
-- Which line `io_read_line` of src/io.c returns.
use plumbr_c.Prelude.{
  ◌&&◌, take, if◌then◌else◌, take_all, ◌≤◌, length-append, ℕ, suc, ◌+◌, ◌≡◌, ◌<◌, refl, ap, ◌∙◌,
  Bool, true, false, Bytes, List, [], ◌∷◌, ◌++◌, Option, none, some, ltb, leb, ◌==◌, if◌then◌else◌,
  length, All, arith, lt→ltb,
}
use plumbr_c.Io.{
  fill, io_refill, move_pending, got, buffer_size, Reader, ReadResult, find_newline, available,
  fast_round, at_end, fast_path, io_read_line, max_line_size,
}

-- No newline.
abbrev pub IsInner : ℕ → Type 0
IsInner c = (c == b'\n') ≡ false

pub find_newline-append :
    (line behind : Bytes)
    → All IsInner line
    → find_newline (line ++ b'\n' ∷ behind) ≡ some (line, behind)
unfolding find_newline
find_newline-append [] behind h = refl
find_newline-append (c ∷ line) behind (hc, h) = rw (hc, find_newline-append line behind h) refl

pub find_newline-none : (text : Bytes) → All IsInner text → find_newline text ≡ none
unfolding find_newline
find_newline-none [] h = refl
find_newline-none (c ∷ text) (hc, h) = rw (hc, find_newline-none text h) refl

pub available-pending : (ctx : Reader) → 0 < length ctx.pending → available ctx ≡ (ctx, true)
unfolding available
available-pending ctx h = rw (lt→ltb 0 (length ctx.pending) h) refl

-- The context behind a line that the fast path returns.
abbrev pub after_line : Reader → Bytes → Bytes → Reader
after_line ctx line behind = record ctx {
  pending = behind;
  read_pos = ctx.read_pos + length line + 1;
  lines_processed = ctx.lines_processed + 1;
}

-- What the loop of the fast path does behind one round, and behind the test of one.
abbrev pub behind_round : ℕ → Reader × Option Bytes → Option (Reader × Option Bytes)
behind_round fuel r = elim r.1 [ some l ↦ some (r.0, some l) | none ↦ fast_path fuel r.0 ]

abbrev pub behind_test : ℕ → Reader × Bool → Option (Reader × Option Bytes)
behind_test fuel p = elim p.1 [
  | false ↦ some (at_end p.0)
  | true ↦ behind_round fuel (fast_round p.0)
]

pub fast_path-suc :
    (fuel : ℕ) (ctx : Reader) → fast_path (suc fuel) ctx ≡ behind_test fuel (available ctx)
unfolding fast_path
fast_path-suc fuel ctx = refl

-- The cases of a round of the fast path, by what the search finds.
abbrev round_by : Reader → Option (Bytes × Bytes) → Reader × Option Bytes
round_by ctx found =
    let read_len = ctx.read_pos + length ctx.pending in
    elim found [
      | some (line, behind) ↦ (after_line ctx line behind, some line)
      | none ↦
          if ltb 0 (length ctx.pending)
          then (if leb max_line_size (length ctx.pending)
              then (record ctx { pending = []; read_pos = read_len }, none)
              else (
                record ctx { line_carry = ctx.pending; pending = []; read_pos = read_len },
                none,
              ))
          else (ctx, none)
    ]

fast_round-by : (ctx : Reader) → fast_round ctx ≡ round_by ctx (find_newline ctx.pending)
unfolding fast_round
fast_round-by ctx = refl

fast_path-line :
    (fuel : ℕ) (ctx ctx' : Reader) (line behind : Bytes)
    → available ctx ≡ (ctx', true)
    → find_newline ctx'.pending ≡ some (line, behind)
    → fast_path (suc fuel) ctx ≡ some (after_line ctx' line behind, some line)
fast_path-line fuel ctx ctx' line behind e h =
    fast_path-suc fuel ctx
    ∙ ap (behind_test fuel) e
    ∙ ap (behind_round fuel) (fast_round-by ctx' ∙ ap (round_by ctx') h)

length-line : (line behind : Bytes) → 0 < length (line ++ b'\n' ∷ behind)
length-line line behind = omega (arith, length-append line (b'\n' ∷ behind))

-- A context that carries no part of a line and has not met the end of the file.
abbrev pub reader : Bytes → ℕ → ℕ → ℕ → List ReadResult → Reader
reader pending read_pos bytes_read lines_processed script = record {
  pending = pending;
  read_pos = read_pos;
  read_eof = false;
  line_carry = [];
  bytes_read = bytes_read;
  lines_processed = lines_processed;
  script = script;
}

pub io_read_line-fast :
    (fuel pos bytes lines : ℕ) (pending : Bytes) (script : List ReadResult)
    → io_read_line fuel (reader pending pos bytes lines script)
      ≡ fast_path fuel (reader pending pos bytes lines script)
unfolding io_read_line
io_read_line-fast fuel pos bytes lines pending script = refl

-- A line that stands whole in the buffer is returned as it is, without its newline, and what lies
-- behind it stays to be read, if no part of a line is carried.
pub io_read_line-whole :
    (fuel pos bytes lines : ℕ) (line behind : Bytes) (script : List ReadResult)
    → All IsInner line
    → io_read_line (suc fuel) (reader (line ++ b'\n' ∷ behind) pos bytes lines script)
      ≡ some (reader behind (pos + length line + 1) bytes (lines + 1) script, some line)
io_read_line-whole fuel pos bytes lines line behind script h =
    let ctx = reader (line ++ b'\n' ∷ behind) pos bytes lines script in
    io_read_line-fast (suc fuel) pos bytes lines (line ++ b'\n' ∷ behind) script
    ∙ fast_path-line fuel ctx ctx line behind (available-pending ctx (length-line line behind))
        (find_newline-append line behind h)

-- The same with `carry` in `line_carry`.
abbrev pub carrying : Bytes → Bytes → ℕ → ℕ → ℕ → List ReadResult → Reader
carrying carry pending pos bytes lines script = record (reader pending pos bytes lines script) {
  line_carry = carry;
}

-- The cases of a refill of an empty buffer, by what `read` delivers.
abbrev fill_by : Reader → List ReadResult → Bytes → Reader × Bool
fill_by ctx rest bytes = elim bytes [
  | [] ↦ (record ctx { read_pos = 0; read_eof = true; script = rest }, false)
  | c ∷ cs ↦ (
    record ctx {
      pending = c ∷ cs;
      read_pos = 0;
      bytes_read = ctx.bytes_read + length (c ∷ cs);
      script = rest;
    },
    true,
  )
]

abbrev nothing : Bytes
nothing = []

nothing_kept : (b : Bool) → (if b && false then nothing else nothing) ≡ nothing
nothing_kept true = refl
nothing_kept false = refl

move-idle :
    (carry : Bytes) (pos bytes lines : ℕ) (script : List ReadResult)
    → move_pending (carrying carry [] pos bytes lines script)
      ≡ carrying carry [] 0 bytes lines script
unfolding move_pending
move-idle carry pos bytes lines script =
    ap (λ (p : Bytes). carrying carry p 0 bytes lines script) (nothing_kept (ltb 0 pos))

available-idle :
    (carry : Bytes) (pos bytes lines : ℕ) (script : List ReadResult)
    → available (carrying carry [] pos bytes lines script)
      ≡ fill (move_pending (carrying carry [] pos bytes lines script))
unfolding available io_refill
available-idle carry pos bytes lines script = refl

fill-got :
    (carry : Bytes) (bytes lines : ℕ) (chunk : Bytes) (rest : List ReadResult)
    → fill (carrying carry [] 0 bytes lines (got chunk ∷ rest))
      ≡ fill_by (carrying carry [] 0 bytes lines (got chunk ∷ rest)) rest (take buffer_size chunk)
unfolding fill
fill-got carry bytes lines chunk rest = refl

available-got :
    (carry : Bytes) (pos bytes lines : ℕ) (chunk : Bytes) (rest : List ReadResult)
    → 0 < length chunk
    → length chunk ≤ buffer_size
    → available (carrying carry [] pos bytes lines (got chunk ∷ rest))
      ≡ (carrying carry chunk 0 (bytes + length chunk) lines rest, true)
available-got carry pos bytes lines [] rest h k = absurd (omega arith)
available-got carry pos bytes lines (c ∷ cs) rest h k =
    let script = got (c ∷ cs) ∷ rest in
    available-idle carry pos bytes lines script
    ∙ ap fill (move-idle carry pos bytes lines script)
    ∙ fill-got carry bytes lines (c ∷ cs) rest
    ∙ ap (fill_by (carrying carry [] 0 bytes lines script) rest) (take_all buffer_size (c ∷ cs) k)

lt→leb_false : (a b : ℕ) → b < a → leb a b ≡ false
lt→leb_false a b h = ground arith

round_by-none :
    (ctx : Reader)
    → 0 < length ctx.pending
    → length ctx.pending < max_line_size
    → round_by ctx none ≡ (
      record ctx {
        line_carry = ctx.pending;
        pending = [];
        read_pos = ctx.read_pos + length ctx.pending;
      },
      none,
    )
round_by-none ctx h k =
    rw (lt→ltb 0 (length ctx.pending) h, lt→leb_false max_line_size (length ctx.pending) k) refl

-- A line whose parts `a` and `b` arrive in two reads is not put together: with nothing pending or
-- carried, `io_read_line` returns `b` alone, and `a` stays in `line_carry`.
pub io_read_line-split :
    (fuel pos bytes lines : ℕ) (a b behind : Bytes) (rest : List ReadResult)
    → 0 < length a
    → length a < max_line_size
    → length (b ++ b'\n' ∷ behind) ≤ buffer_size
    → All IsInner a
    → All IsInner b
    → io_read_line
        (suc (suc fuel))
        (reader [] pos bytes lines (got a ∷ got (b ++ b'\n' ∷ behind) ∷ rest))
      ≡ some (
        carrying a behind
            (0 + length b + 1)
            (bytes + length a + length (b ++ b'\n' ∷ behind))
            (lines + 1)
            rest,
        some b,
      )
io_read_line-split fuel pos bytes lines a b behind rest h1 h2 h3 ha hb =
    let chunk = b ++ b'\n' ∷ behind in
    let script = got chunk ∷ rest in
    let ctx1 = reader a 0 (bytes + length a) lines script in
    let ctx2 = carrying a chunk 0 (bytes + length a + length chunk) lines rest in
    io_read_line-fast (suc (suc fuel)) pos bytes lines [] (got a ∷ script)
    ∙ fast_path-suc (suc fuel) (reader [] pos bytes lines (got a ∷ script))
    ∙ ap (behind_test (suc fuel)) (available-got [] pos bytes lines a script h1 (omega arith))
    ∙ ap (behind_round (suc fuel)) (
        fast_round-by ctx1 ∙ ap (round_by ctx1) (find_newline-none a ha) ∙ round_by-none ctx1 h1 h2)
    ∙ fast_path-line fuel (carrying a [] (0 + length a) (bytes + length a) lines script) ctx2 b
        behind
        (available-got a (0 + length a) (bytes + length a) lines chunk rest (length-line b behind)
          h3)
        (find_newline-append b behind hb)

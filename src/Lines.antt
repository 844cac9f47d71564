-- ===== src/Lines.antt =====
-- Texts of several lines: the loop that `libplumbr_redact_buffer` of src/libplumbr.c and
-- `handle_redact` of src/server.c share.
pub mod Copy
use plumbr_c.Prelude.{
  ◌≤◌, ℕ, zero, suc, ◌+◌, ◌≡◌, Bool, true, false, Bytes, List, [], ◌∷◌, ◌++◌, Option, none, some,
  ◌==◌, if◌then◌else◌, ltb, leb, length, arith, refl, Bool-cases, inl, inr, ap,
}

-- The line at the start of a text, whether a newline ends it, and what follows, as `memchr` tells.
unfoldable pub next_line : Bytes → Bytes × Bool × Bytes
next_line [] = ([], false, [])
next_line (c ∷ cs) =
    let (line, ended, rest) = next_line cs in
    if c == b'\n' then ([], true, cs) else (c ∷ line, ended, rest)

-- What the loop calls: the redaction of a line, the update of the statistics behind it, and the
-- growth of the buffer, from its capacity, the position in it and the bytes to come; `none` is a
-- failure.
pub record Work (S : Type 0) : Type 0 where
  pub redact : S → Bytes → S × Bytes
  pub count : S → Bytes → S
  pub ensure : ℕ → ℕ → ℕ → Option ℕ

-- How the loop ends: with the text, with NULL, with a write behind the buffer, or out of fuel.
pub data Copied (S : Type 0) : Type 0 where
  copied : S → Bytes → Copied S
  null : S → Copied S
  overrun : Copied S
  stuck : Copied S

abbrev pub ending : Bool → Bytes
ending true = b'\n' ∷ []
ending false = []

-- The bytes of a line and its newline go behind `out`, where there is room, and the loop goes on.
unfoldable pub put_line :
    {S : Type 0} → Bytes → Bytes → (Bytes → ℕ → Copied S) → S → Option ℕ → Copied S
put_line out chunk next s none = null s
put_line out chunk next s (some size) =
    if leb (length (out ++ chunk)) size then next (out ++ chunk) size else overrun

module _ {S : Type 0} (w : Work S) where
  -- while (ptr < end), and the terminator behind the text.
  unfoldable pub copy_lines : ℕ → S → Bytes → ℕ → Bytes → Copied S
  unfolding next_line put_line
  copy_lines fuel s out size [] = if ltb (length out) size then copied s out else overrun
  copy_lines zero s out size (c ∷ cs) = stuck
  copy_lines (suc fuel) s out size (c ∷ cs) =
      let (line, ended, rest) = next_line (c ∷ cs) in
      let (s', bytes) = w.redact s line in
      put_line out (bytes ++ ending ended)
        (λ text size2. copy_lines fuel (w.count s' line) text size2 rest) s'
        (w.ensure size (length out) (length bytes))

  -- The text that is meant: each line redacted, with its newline.
  unfoldable pub run_lines : S → List (Bytes × Bool) → S × Bytes
  run_lines s [] = (s, [])
  run_lines s ((line, ended) ∷ lines) =
      let (s', bytes) = w.redact s line in
      let (s2, rest) = run_lines (w.count s' line) lines in (s2, (bytes ++ ending ended) ++ rest)

-- The lines of a text, each with whether a newline ends it.
abbrev cons_first : ℕ → List (Bytes × Bool) → List (Bytes × Bool)
cons_first c [] = (c ∷ [], false) ∷ []
cons_first c ((line, ended) ∷ lines) = (c ∷ line, ended) ∷ lines

unfoldable pub split_lines : Bytes → List (Bytes × Bool)
split_lines [] = []
split_lines (c ∷ cs) =
    let lines = split_lines cs in if c == b'\n' then ([], true) ∷ lines else cons_first c lines

-- `next_line` takes the first of the lines.
pub split_lines-next_line :
    (c : ℕ) (cs : Bytes)
    → split_lines (c ∷ cs)
      ≡ ((next_line (c ∷ cs)).0, (next_line (c ∷ cs)).1) ∷ split_lines (next_line (c ∷ cs)).2
unfolding split_lines next_line
split_lines-next_line c [] = ground arith
split_lines-next_line c (d ∷ cs) = elim (Bool-cases (c == b'\n')) [
  | inl e ↦ rw e refl
  | inr e ↦ rw e (ap (cons_first c) (split_lines-next_line d cs))
]

next_line_rest : (cs : Bytes) → length (next_line cs).2 ≤ length cs
unfolding next_line
next_line_rest [] = omega arith
next_line_rest (c ∷ cs) = ground (arith, next_line_rest cs)

pub next_line_shorter : (c : ℕ) (cs : Bytes) → length (next_line (c ∷ cs)).2 ≤ length cs
unfolding next_line
next_line_shorter c cs = ground (arith, next_line_rest cs)

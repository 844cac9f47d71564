-- ===== src/Pipeline/Text.antt =====
-- What `process_single_threaded` of src/pipeline.c makes of a text.
use plumbr_c.Prelude.{
  ltb, if◌then◌else◌, ℕ, zero, suc, ◌+◌, ◌≡◌, ◌<◌, ◌≤◌, inl, inr, Bool, true, false, Bytes, List,
  [], ◌∷◌, ◌++◌, Option, none, some, map, if◌then◌else◌, length, arith, refl, ap, ap₂, ◌∙◌, sym,
  All, append-nil, append_assoc, Bool-cases,
}
use plumbr_c.Io.{
  Reader, io_read_line, buffer_size, available, io_refill, fill, move_pending, read_retry, at_end,
}
use plumbr_c.Io.Lines.{
  fast_path-suc, behind_test, io_read_line-fast, IsInner, reader, io_read_line-whole,
}
use plumbr_c.Io.Write.{Writer, io_write, io_write_line}
use plumbr_c.Io.Write.Laws.{written, Keeps-trans, Writes, io_write-Keeps}
use plumbr_c.Redactor.Client.{Ops, text_of, IsRedactor}
use plumbr_c.Pipeline.{Context, write_redacted, process_single_threaded}

io_write_line_behind :
    (ctx : Writer) (line : Bytes) (r : Writer × Bool)
    → io_write ctx line ≡ some r
    → io_write_line ctx line ≡ (if r.1 then io_write r.0 (b'\n' ∷ []) else some (r.0, false))
unfolding io_write_line
io_write_line_behind ctx line (w, true) e = ground (arith, e)
io_write_line_behind ctx line (w, false) e = ground (arith, e)

-- `io_write_line` returns, and where it returns true it has written the line and a newline.
pub io_write_line-Writes :
    (ctx : Writer) (line : Bytes)
    → length ctx.write_buf ≤ buffer_size
    → Writes ctx (line ++ b'\n' ∷ []) (io_write_line ctx line)
io_write_line-Writes ctx line h = writes_line (io_write-Keeps ctx line h)
  where
    writes_line :
        Writes ctx line (io_write ctx line)
        → Writes ctx (line ++ b'\n' ∷ []) (io_write_line ctx line)
    writes_line ((mid, false), e, k) = (
      (mid, false),
      io_write_line_behind ctx line (mid, false) e,
      record { same = λ o. cc; counted = λ o. cc; fits = k.fits },
    )
    writes_line ((mid, true), e, k) =
        let (r, f, l) = io_write-Keeps mid (b'\n' ∷ []) k.fits in
        (
          r,
          io_write_line_behind ctx line (mid, true) e ∙ f,
          Keeps-trans ctx mid line (b'\n' ∷ []) r (k.same refl) (k.counted refl) l,
        )

-- Lines with a newline behind each.
unfoldable pub unlines : List Bytes → Bytes
unlines [] = []
unlines (line ∷ lines) = line ++ b'\n' ∷ unlines lines

-- At the end of the buffer and of the file there is no line.
abbrev pub at_eof : ℕ → ℕ → Reader
at_eof bytes lines = record (reader [] 0 bytes lines []) { read_eof = true }

available_end :
    (pos bytes lines : ℕ) → available (reader [] pos bytes lines []) ≡ (at_eof bytes lines, false)
unfolding available io_refill fill move_pending read_retry
available_end pos bytes lines = elim (Bool-cases (ltb 0 pos)) [
  | inl e ↦ rw e refl
  | inr e ↦ rw e refl
]

pub read_end :
    (fuel pos bytes lines : ℕ)
    → io_read_line (suc fuel) (reader [] pos bytes lines []) ≡ some (at_eof bytes lines, none)
unfolding at_end
read_end fuel pos bytes lines =
    io_read_line-fast (suc fuel) pos bytes lines [] []
    ∙ fast_path-suc fuel (reader [] pos bytes lines [])
    ∙ ap (behind_test fuel) (available_end pos bytes lines)

one_more :
    (done text given rest : Bytes)
    → text ≡ given
    → (done ++ (text ++ b'\n' ∷ [])) ++ rest ≡ done ++ (given ++ b'\n' ∷ rest)
one_more done text given rest e =
    append_assoc done (text ++ b'\n' ∷ []) rest
    ∙ ap (λ (xs : Bytes). done ++ xs) (append_assoc text (b'\n' ∷ []) rest)
    ∙ ap (λ (xs : Bytes). done ++ (xs ++ b'\n' ∷ rest)) e

module _ {R : Type 0} (ops : Ops R) (is : IsRedactor ops) (fuel : ℕ) where
  -- Each line's redaction, with a newline.
  abbrev pub redacted : List Bytes → Bytes
  redacted lines = unlines (map (λ (line : Bytes). text_of (is.process line)) lines)

  -- A run that returns, and that has written `text` if it returns true.
  abbrev pub Ran : Writer → Bytes → Option (Context R × Bool) → Type 0
  Ran w text o =
      (r : Context R × Bool) × (o ≡ some r) × (r.1 ≡ true → written r.0.writer ≡ written w ++ text)

  run_end :
      (rounds : ℕ) (ctx : Context R) (rd : Reader)
      → io_read_line fuel ctx.reader ≡ some (rd, none)
      → process_single_threaded ops (suc rounds) fuel ctx ≡ some (record ctx { reader = rd }, true)
  unfolding process_single_threaded
  run_end rounds ctx rd e = ground (arith, e)

  run_failed :
      (rounds : ℕ) (ctx ctx2 : Context R) (rd : Reader) (line : Bytes)
      → io_read_line fuel ctx.reader ≡ some (rd, some line)
      → write_redacted ops ctx rd line ≡ some (ctx2, false)
      → process_single_threaded ops (suc rounds) fuel ctx ≡ some (ctx2, false)
  unfolding process_single_threaded
  run_failed rounds ctx ctx2 rd line e f = ground (arith, e, f)

  run_next :
      (rounds : ℕ) (ctx ctx2 : Context R) (rd : Reader) (line : Bytes)
      → io_read_line fuel ctx.reader ≡ some (rd, some line)
      → write_redacted ops ctx rd line ≡ some (ctx2, true)
      → process_single_threaded ops (suc rounds) fuel ctx
        ≡ process_single_threaded ops rounds fuel ctx2
  unfolding process_single_threaded
  run_next rounds ctx ctx2 rd line e f = ground (arith, e, f)

  -- What `write_redacted` gives where the line is written so.
  redacted_by :
      (ctx : Context R) (rd : Reader) (line : Bytes) (w : Writer) (ok : Bool)
      → io_write_line ctx.writer (text_of (ops.redact ctx.redactor line).1) ≡ some (w, ok)
      → write_redacted ops ctx rd line
        ≡ some (record { reader = rd; writer = w; redactor = (ops.redact ctx.redactor line).0 }, ok)
  unfolding write_redacted
  redacted_by ctx rd line w ok e = ground (arith, e)

  run_text :
      (lines : List Bytes) (rounds k pos bytes n : ℕ) (ctx : Context R)
      → fuel ≡ suc k
      → ctx.reader ≡ reader (unlines lines) pos bytes n []
      → All (All IsInner) lines
      → length lines < rounds
      → is.Ready ctx.redactor
      → length ctx.writer.write_buf ≤ buffer_size
      → Ran ctx.writer (redacted lines) (process_single_threaded ops rounds fuel ctx)
  unfolding unlines
  run_text [] zero k pos bytes n ctx f e h l ready fits = elim l [ ]
  run_text [] (suc rounds) k pos bytes n ctx f e h l ready fits =
      let none_left = ap₂ io_read_line f e ∙ read_end k pos bytes n in
      (
        (record ctx { reader = at_eof bytes n }, true),
        run_end rounds ctx (at_eof bytes n) none_left,
        λ o. sym (append-nil (written ctx.writer)),
      )
  run_text (line ∷ lines) zero k pos bytes n ctx f e h l ready fits = elim l [ ]
  run_text (line ∷ lines) (suc rounds) k pos bytes n ctx f e (hl, h) l ready fits =
      let rd = reader (unlines lines) (pos + length line + 1) bytes (n + 1) [] in
      let got =
        ap₂ io_read_line f e ∙ io_read_line-whole k pos bytes n line (unlines lines) [] hl in
      let text = text_of (ops.redact ctx.redactor line).1 in
      let same = ap text_of (is.gives ctx.redactor line ready) in
      let ((w, ok), written_so, kept) = io_write_line-Writes ctx.writer text fits in
      let ctx2 : Context R = record {
        reader = rd;
        writer = w;
        redactor = (ops.redact ctx.redactor line).0;
      } in
      let put = redacted_by ctx rd line w ok written_so in
      elim (Bool-cases ok) [
        | inr bad ↦ (
          (ctx2, false),
          run_failed rounds ctx ctx2 rd line got (put ∙ ap (λ (b : Bool). some (ctx2, b)) bad),
          λ o. cc,
        )
        | inl good ↦
            let (r, ran, gives) =
              run_text lines rounds k (pos + length line + 1) bytes (n + 1) ctx2 f refl h
                (omega arith) (is.stays ctx.redactor line ready) kept.fits in
            (
              r,
              run_next rounds ctx ctx2 rd line got (put ∙ ap (λ (b : Bool). some (ctx2, b)) good)
                  ∙ ran,
              λ o.
                  gives o
                  ∙ ap (λ (xs : Bytes). xs ++ redacted lines) (kept.same good)
                  ∙ one_more (written ctx.writer) text (text_of (is.process line)) (redacted lines)
                      same,
            )
      ]

-- On lines that wait whole in the read buffer, with the end of the file behind them,
-- `process_single_threaded` returns, whatever `write` does; and where it returns 0, what has been sent
-- and what waits in the write buffer have grown by each line's redaction and a newline, in order.
pub single_threaded_lem :
    {R : Type 0} (ops : Ops R) (is : IsRedactor ops) (lines : List Bytes)
    (rounds fuel pos bytes n : ℕ) (w : Writer) (r : R)
    → All (All IsInner) lines
    → length lines < rounds
    → is.Ready r
    → length w.write_buf ≤ buffer_size
    → Ran ops is (suc fuel) w (redacted ops is (suc fuel) lines) (
        process_single_threaded ops rounds
          (suc fuel)
          (record { reader = reader (unlines lines) pos bytes n []; writer = w; redactor = r }))
single_threaded_lem ops is lines rounds fuel pos bytes n w r h l ready fits =
    run_text ops is (suc fuel) lines rounds fuel pos bytes n _ refl refl h l ready fits

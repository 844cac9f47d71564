-- ===== src/Pipeline/Batches/Laws.antt =====
-- What `process_parallel_new` of src/pipeline.c makes of a text.
use plumbr_c.Prelude.{
  lt→ltb, dec_lt, All-append, length-append, subst, if◌then◌else◌, inl, inr, Bool-cases, refl, ◌∙◌,
  append_assoc, append-nil, ap, arith, sym, ℕ, zero, suc, ◌+◌, ◌≡◌, ◌≤◌, ◌<◌, Bytes, List, [], ◌∷◌,
  ◌++◌, none, some, true, false, Bool, Option, All, length, map, get_elem?,
}
use plumbr_c.Redactor.{Output}
use plumbr_c.Redactor.Client.{text_of}
use plumbr_c.Io.{Reader, io_read_line, buffer_size}
use plumbr_c.Io.Lines.{IsInner, reader, io_read_line-whole}
use plumbr_c.Io.Write.{Writer, io_write_line}
use plumbr_c.Io.Write.Laws.{written}
use plumbr_c.Parallel.{max_line_size, cell_after}
use plumbr_c.Pipeline.Text.{unlines, io_write_line-Writes, read_end, at_eof}
use plumbr_c.Pipeline.Batches.{
  ltb, Workers, IsParallel, Run, copy_line, write_outputs, run_batch, process_batches, batch_limit,
}

-- The outputs from `i` on are the texts given.
abbrev Holds : (ℕ → Bytes) → ℕ → List Bytes → Type 0
Holds outputs i [] = Unit {0}
Holds outputs i (t ∷ ts) = (outputs i ≡ t) × Holds outputs (i + 1) ts

write_step :
    (w w' : Writer) (ok : Bool) (outputs : ℕ → Bytes) (i n : ℕ)
    → io_write_line w (outputs i) ≡ some (w', ok)
    → write_outputs w outputs i (suc n)
      ≡ (if ok then write_outputs w' outputs (i + 1) n else some (w', false))
unfolding write_outputs
write_step w w' true outputs i n e = ground (arith, e)
write_step w w' false outputs i n e = ground (arith, e)

-- The outputs are written in order, each with a newline.
write_outputs-Writes :
    (ts : List Bytes) (w : Writer) (outputs : ℕ → Bytes) (i : ℕ)
    → length w.write_buf ≤ buffer_size
    → Holds outputs i ts
    → (r : Writer × Bool) × (write_outputs w outputs i (length ts) ≡ some r)
      × (length r.0.write_buf ≤ buffer_size)
      × (r.1 ≡ true → written r.0 ≡ written w ++ unlines ts)
write_outputs-Writes [] w outputs i h g = (
  (w, true),
  unfold write_outputs in refl,
  h,
  λ o. unfold unlines in sym (append-nil (written w)),
)
write_outputs-Writes (t ∷ ts) w outputs i h (e, g) =
    let ((w', ok), f, k) = io_write_line-Writes w (outputs i) h in
    let (r, f2, fits, same) = write_outputs-Writes ts w' outputs (i + 1) k.fits g in
    elim (Bool-cases ok) [
      | inr bad ↦
          ((w', false), write_step w w' ok outputs i (length ts) f ∙ rw bad refl, k.fits, λ o. cc)
      | inl good ↦ (
        r,
        write_step w w' ok outputs i (length ts) f ∙ rw good f2,
        fits,
        λ o.
            same o
            ∙ ap (λ (xs : Bytes). xs ++ unlines ts) (k.same good)
            ∙ append_assoc (written w) (outputs i ++ b'\n' ∷ []) (unlines ts)
            ∙ ap (λ (xs : Bytes). written w ++ xs) (one_line t ts (outputs i) e),
      )
    ]
  where
    one_line :
        (t : Bytes) (ts : List Bytes) (out : Bytes)
        → out ≡ t
        → (out ++ b'\n' ∷ []) ++ unlines ts ≡ unlines (t ∷ ts)
    one_line t ts out e =
        append_assoc out (b'\n' ∷ []) (unlines ts)
        ∙ (unfold unlines in ap (λ (xs : Bytes). xs ++ b'\n' ∷ unlines ts) e)

Holds-gives :
    (process : Bytes → Output) (xs : List Bytes) (outputs : ℕ → Bytes) (i : ℕ)
    → ((j : ℕ) (line : Bytes)
        → get_elem? xs j ≡ some line
        → outputs (i + j) ≡ text_of (process line))
    → Holds outputs i (map (λ (line : Bytes). text_of (process line)) xs)
Holds-gives process [] outputs i g = tt
Holds-gives process (x ∷ xs) outputs i g =
    let here : i + 0 ≡ i = omega arith in
    (
      ap outputs (sym here) ∙ g 0 x refl,
      Holds-gives process xs outputs (i + 1) (λ j line e.
          let next : i + suc j ≡ i + 1 + j = omega arith in
          ap outputs (sym next) ∙ g (suc j) line e),
    )

All-get :
    (Q : Bytes → Type 0) (xs : List Bytes) (j : ℕ) {x : Bytes}
    → All Q xs
    → get_elem? xs j ≡ some x
    → Q x
All-get Q [] j h e = cc
All-get Q (y ∷ ys) zero {x} (q, h) e = let same : y ≡ x = cc in subst Q same q
All-get Q (y ∷ ys) (suc j) (q, h) e = All-get Q ys j h e

module _ {P : Type 0} (ws : Workers P) (process : Bytes → Output) (is : IsParallel ws process) where
  -- A line that fits its buffers, before and behind the redaction.
  abbrev pub Fits : Bytes → Type 0
  Fits line = (length line < max_line_size) × (length (text_of (process line)) < max_line_size)

  -- Each line's redaction, with a newline.
  abbrev pub redacted : List Bytes → Bytes
  redacted lines = unlines (map (λ (line : Bytes). text_of (process line)) lines)

  cell_is :
      (line old : Bytes) → Fits line → cell_after process (some line) old ≡ text_of (process line)
  unfolding cell_after
  cell_is line old h = ground arith

  run_batch_step :
      (s : Run P) (w : Writer) (ok : Bool)
      → write_outputs s.writer (ws.run s.workers s.batch s.outputs).1 0 (length s.batch)
        ≡ some (w, ok)
      → run_batch ws s
        ≡ some (
          record s {
            writer = w;
            workers = (ws.run s.workers s.batch s.outputs).0;
            batch = [];
            outputs = (ws.run s.workers s.batch s.outputs).1;
          },
          ok,
        )
  unfolding run_batch
  run_batch_step s w ok e = ground (arith, e)

  length-map : (f : Bytes → Bytes) (xs : List Bytes) → length (map f xs) ≡ length xs
  length-map f [] = refl
  length-map f (x ∷ xs) = ap suc (length-map f xs)

  run_batch_lem :
      (s : Run P)
      → is.Idle s.workers
      → length s.batch ≤ batch_limit
      → All Fits s.batch
      → length s.writer.write_buf ≤ buffer_size
      → (w : Writer) × (ok : Bool) × (run_batch ws s
          ≡ some (
            record s {
              writer = w;
              workers = (ws.run s.workers s.batch s.outputs).0;
              batch = [];
              outputs = (ws.run s.workers s.batch s.outputs).1;
            },
            ok,
          ))
        × (length w.write_buf ≤ buffer_size)
        × (ok ≡ true → written w ≡ written s.writer ++ redacted s.batch)
  run_batch_lem s idle short fit h =
      let (p, outputs) = ws.run s.workers s.batch s.outputs in
      let texts = map (λ (line : Bytes). text_of (process line)) s.batch in
      let ((w, ok), e, fits, same) = write_outputs-Writes texts s.writer outputs 0 h (
        Holds-gives process s.batch outputs 0 (λ j line g.
          ap outputs (zero_add j)
          ∙ is.gives s.workers s.batch s.outputs j line idle short g
          ∙ cell_is line (s.outputs j) (All-get Fits s.batch j fit g))) in
      (
        w,
        ok,
        run_batch_step s w ok (
            ap (write_outputs s.writer outputs 0)
              (sym (length-map (λ (line : Bytes). text_of (process line)) s.batch))
            ∙ e),
        fits,
        same,
      )
    where
      zero_add : (j : ℕ) → 0 + j ≡ j
      zero_add j = omega arith

  redacted-append : (xs ys : List Bytes) → redacted (xs ++ ys) ≡ redacted xs ++ redacted ys
  unfolding unlines
  redacted-append [] ys = refl
  redacted-append (x ∷ xs) ys =
      let t = text_of (process x) in
      ap (λ (zs : Bytes). t ++ b'\n' ∷ zs) (redacted-append xs ys)
      ∙ sym (append_assoc t (b'\n' ∷ redacted xs) (redacted ys))

  module _ (fuel : ℕ) where
    loop_end :
        (rounds : ℕ) (s : Run P) (rd : Reader)
        → io_read_line fuel s.reader ≡ some (rd, none)
        → process_batches ws (suc rounds) fuel s ≡ (
            if ltb 0 (length s.batch)
            then run_batch ws (record s { reader = rd })
            else some (record s { reader = rd }, true))
    unfolding process_batches
    loop_end rounds s rd e = ground (arith, e)

    loop_more :
        (rounds : ℕ) (s : Run P) (rd : Reader) (line : Bytes)
        → io_read_line fuel s.reader ≡ some (rd, some line)
        → length (s.batch ++ copy_line line ∷ []) < batch_limit
        → process_batches ws (suc rounds) fuel s
          ≡ process_batches ws rounds fuel
              (record s { reader = rd; batch = s.batch ++ copy_line line ∷ [] })
    unfolding process_batches
    loop_more rounds s rd line e h = ground (arith, e)

    loop_full :
        (rounds : ℕ) (s : Run P) (rd : Reader) (line : Bytes) (s2 : Run P) (ok : Bool)
        → io_read_line fuel s.reader ≡ some (rd, some line)
        → batch_limit ≤ length (s.batch ++ copy_line line ∷ [])
        → run_batch ws (record s { reader = rd; batch = s.batch ++ copy_line line ∷ [] })
          ≡ some (s2, ok)
        → process_batches ws (suc rounds) fuel s
          ≡ (if ok then process_batches ws rounds fuel s2 else some (s2, false))
    unfolding process_batches
    loop_full rounds s rd line s2 true e h f = ground (arith, e, f)
    loop_full rounds s rd line s2 false e h f = ground (arith, e, f)

  -- A run that returns, and that has written `text` if it returns true.
  abbrev pub Ran : Writer → Bytes → Option (Run P × Bool) → Type 0
  Ran w text o =
      (r : Run P × Bool) × (o ≡ some r) × (r.1 ≡ true → written r.0.writer ≡ written w ++ text)

  copied_whole : (line : Bytes) → length line < max_line_size → copy_line line ≡ line
  unfolding copy_line
  copied_whole line h =
      let k : ltb (length line) max_line_size ≡ true = lt→ltb (length line) max_line_size h in
      rw k refl

  last-Ran :
      (fuel rounds : ℕ) (s : Run P) (rd : Reader)
      → io_read_line fuel s.reader ≡ some (rd, none)
      → is.Idle s.workers
      → length s.batch ≤ batch_limit
      → All Fits s.batch
      → length s.writer.write_buf ≤ buffer_size
      → Ran s.writer (redacted s.batch) (process_batches ws (suc rounds) fuel s)
  last-Ran fuel rounds s rd e idle short fit h = elim (Bool-cases (ltb 0 (length s.batch))) [
    | inl more ↦
        let s' : Run P = record s { reader = rd } in
        let (w, ok, f, fits, same) = run_batch_lem s' idle short fit h in
        (
          (
            record s' {
              writer = w;
              workers = (ws.run s.workers s.batch s.outputs).0;
              batch = [];
              outputs = (ws.run s.workers s.batch s.outputs).1;
            },
            ok,
          ),
          loop_end fuel rounds s rd e ∙ rw more f,
          same,
        )
    | inr none_left ↦ (
      (record s { reader = rd }, true),
      loop_end fuel rounds s rd e ∙ rw none_left refl,
      λ o.
          sym (append-nil (written s.writer))
          ∙ ap (λ (xs : Bytes). written s.writer ++ xs) (empty s.batch none_left),
    )
  ]
    where
      empty : (b : List Bytes) → ltb 0 (length b) ≡ false → [] ≡ redacted b
      empty [] q = unfold unlines in refl
      empty (x ∷ xs) q = absurd (ground arith)

  run_text :
      (lines : List Bytes) (rounds k pos bytes n : ℕ) (s : Run P)
      → s.reader ≡ reader (unlines lines) pos bytes n []
      → All (All IsInner) lines
      → All Fits lines
      → length lines < rounds
      → is.Idle s.workers
      → length s.batch < batch_limit
      → All Fits s.batch
      → length s.writer.write_buf ≤ buffer_size
      → Ran s.writer (redacted (s.batch ++ lines)) (process_batches ws rounds (suc k) s)
  unfolding unlines
  run_text [] zero k pos bytes n s e inner fit l idle short held h = elim l [ ]
  run_text [] (suc rounds) k pos bytes n s e inner fit l idle short held h =
      let none_left = ap (io_read_line (suc k)) e ∙ read_end k pos bytes n in
      rw (append-nil s.batch)
        (last-Ran (suc k) rounds s (at_eof bytes n) none_left idle (omega arith) held h)
  run_text (line ∷ lines) zero k pos bytes n s e inner fit l idle short held h = elim l [ ]
  run_text (line ∷ lines) (suc rounds) k pos bytes n s e (hl, inner) (fl, fit) l idle short held h =
      let rd = reader (unlines lines) (pos + length line + 1) bytes (n + 1) [] in
      let got =
        ap (io_read_line (suc k)) e ∙ io_read_line-whole k pos bytes n line (unlines lines) [] hl in
      let copy = copied_whole line fl.0 in
      let batch = s.batch ++ copy_line line ∷ [] in
      let s1 : Run P = record s { reader = rd; batch = batch } in
      let long = length-append s.batch (copy_line line ∷ []) in
      let held1 : All Fits batch =
        All-append Fits s.batch (copy_line line ∷ []) held (rw copy fl, tt) in
      let joined : s.batch ++ line ∷ lines ≡ batch ++ lines =
        sym (append_assoc s.batch (line ∷ []) lines) ∙ rw copy refl in
      elim (dec_lt (length batch) batch_limit) [
        | yes more ↦
            let (r, ran, same) =
              run_text lines rounds k (pos + length line + 1) bytes (n + 1) s1 refl inner fit
                (omega arith) idle more held1 h in
            (
              r,
              loop_more (suc k) rounds s rd line got more ∙ ran,
              λ o. same o ∙ ap (λ (b : List Bytes). written s.writer ++ redacted b) (sym joined),
            )
        | no full ↦
            let (w, ok, f, fits, wrote) = run_batch_lem s1 idle (omega (arith, long)) held1 h in
            let (p, outputs) = ws.run s.workers batch s.outputs in
            let s2 : Run P = record s1 { writer = w; workers = p; batch = []; outputs = outputs } in
            let step = loop_full (suc k) rounds s rd line s2 ok got (omega arith) f in
            elim (Bool-cases ok) [
              | inr bad ↦ ((s2, false), step ∙ rw bad refl, λ o. cc)
              | inl good ↦
                  let (r, ran, same) =
                    run_text lines rounds k (pos + length line + 1) bytes (n + 1) s2 refl inner fit
                      (omega arith) (is.stays s.workers batch s.outputs idle (omega (arith, long)))
                      (omega arith) tt fits in
                  (
                    r,
                    step ∙ rw good ran,
                    λ o.
                        same o
                        ∙ ap (λ (xs : Bytes). xs ++ redacted lines) (wrote good)
                        ∙ append_assoc (written s.writer) (redacted batch) (redacted lines)
                        ∙ ap (λ (xs : Bytes). written s.writer ++ xs)
                            (sym (redacted-append batch lines))
                        ∙ ap (λ (b : List Bytes). written s.writer ++ redacted b) (sym joined),
                  )
            ]
      ]

  -- On lines that wait whole in the read buffer, with the end of the file behind them, and with idle
  -- workers that treat each line as a redactor does, the loop of `process_parallel_new` returns,
  -- whatever `write` does; and where it returns 0, what has been sent and what waits in the write
  -- buffer have grown by each line's redaction and a newline, in order, however many batches it
  -- takes, if each line and each redaction is shorter than 65536 bytes.
  pub process_batches_lem :
      (lines : List Bytes) (rounds fuel pos bytes n : ℕ) (w : Writer) (p : P) (outputs : ℕ → Bytes)
      → All (All IsInner) lines
      → All Fits lines
      → length lines < rounds
      → is.Idle p
      → length w.write_buf ≤ buffer_size
      → Ran w (redacted lines) (
          process_batches ws rounds (suc fuel) (record {
            reader = reader (unlines lines) pos bytes n [];
            writer = w;
            workers = p;
            batch = [];
            outputs = outputs;
          }))
  process_batches_lem lines rounds fuel pos bytes n w p outputs inner fit l idle h =
      run_text lines rounds fuel pos bytes n _ refl inner fit l idle (omega arith) tt h

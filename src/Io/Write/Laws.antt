-- ===== src/Io/Write/Laws.antt =====
-- What is sent and what waits in the buffer of src/io.c are together what was written, in order.
use plumbr_c.Prelude.{
  subst, if◌then◌else◌, ◌-◌, ◌<◌, true, false, Bool, List, Option, some, suc, zero, ltb,
  length-take, length-drop, length-append, length-take, length-drop, ◌<◌, ℕ, ◌+◌, ◌≡◌, ◌≤◌, refl,
  sym, ap, ◌∙◌, Bool, true, Bytes, List, [], ◌∷◌, ◌++◌, ◌==◌, length, take, drop, arith, append-nil,
  append_assoc, take-append-drop, Bool-cases, inl, inr, length-append,
}
use plumbr_c.Io.{some, suc, Option, buffer_size}
use plumbr_c.Io.Write.{
  io_write, write_loop, WriteResult, wrote, interrupted, failed, Writer, flush_loop, io_flush,
  put_chunk, io_bytes_written,
}

flush_loop_lem :
    (script : List WriteResult) (todo sent : Bytes)
    → (flush_loop script todo sent).2 ≡ true
    → (flush_loop script todo sent).0 ≡ sent ++ todo
unfolding flush_loop
flush_loop_lem [] todo sent h = refl
flush_loop_lem (r ∷ rest) [] sent h = sym (append-nil sent)
flush_loop_lem (wrote n ∷ rest) (c ∷ cs) sent h =
    flush_loop_lem rest (drop n (c ∷ cs)) (sent ++ take n (c ∷ cs)) h
    ∙ append_assoc sent (take n (c ∷ cs)) (drop n (c ∷ cs))
    ∙ ap (λ (xs : Bytes). sent ++ xs) (take-append-drop n (c ∷ cs))
flush_loop_lem (interrupted ∷ rest) (c ∷ cs) sent h = flush_loop_lem rest (c ∷ cs) sent h
flush_loop_lem (failed ∷ rest) (c ∷ cs) sent h = cc

-- Everything given to the context so far that it has not lost.
abbrev pub written : Writer → Bytes
written ctx = ctx.sent ++ ctx.write_buf

-- A step that succeeds loses and reorders nothing.
pub record Keeps (ctx : Writer) (more : Bytes) (result : Writer × Bool) : Type 0 where
  pub same : result.1 ≡ true → written result.0 ≡ written ctx ++ more
  pub counted : result.1 ≡ true → io_bytes_written result.0 ≡ io_bytes_written ctx + length more
  pub fits : length result.0.write_buf ≤ buffer_size

io_flush-Keeps : (ctx : Writer) → length ctx.write_buf ≤ buffer_size → Keeps ctx [] (io_flush ctx)
unfolding io_flush io_bytes_written
io_flush-Keeps ctx h = elim (Bool-cases (length ctx.write_buf == 0)) [
  | inl e ↦
      rw e (record {
        same = λ o. sym (append-nil (written ctx));
        counted = λ o. omega arith;
        fits = h;
      })
  | inr e ↦ elim (Bool-cases (flush_loop ctx.script ctx.write_buf ctx.sent).2) [
    | inl ok ↦
        rw (e, ok)
          (record {
            same = λ o.
                ap (λ (xs : Bytes). xs ++ []) (flush_loop_lem ctx.script ctx.write_buf ctx.sent ok);
            counted = λ o. omega arith;
            fits = omega arith;
          })
    | inr bad ↦ rw (e, bad) (record { same = λ o. cc; counted = λ o. cc; fits = h })
  ]
]

-- Steps one after the other.
pub Keeps-trans :
    (ctx mid : Writer) (xs ys : Bytes) (result : Writer × Bool)
    → written mid ≡ written ctx ++ xs
    → io_bytes_written mid ≡ io_bytes_written ctx + length xs
    → Keeps mid ys result
    → Keeps ctx (xs ++ ys) result
Keeps-trans ctx mid xs ys result e k h = record {
  same = λ o. h.same o ∙ ap (λ (zs : Bytes). zs ++ ys) e ∙ append_assoc (written ctx) xs ys;
  counted = λ o. omega (arith, h.counted o, length-append xs ys);
  fits = h.fits;
}

put_chunk-written :
    (ctx : Writer) (chunk : ℕ) (bytes : Bytes)
    → written (put_chunk ctx chunk bytes) ≡ written ctx ++ take chunk bytes
put_chunk-written ctx chunk bytes = sym (append_assoc ctx.sent ctx.write_buf (take chunk bytes))

put_chunk-count :
    (ctx : Writer) (chunk : ℕ) (bytes : Bytes)
    → io_bytes_written (put_chunk ctx chunk bytes)
      ≡ io_bytes_written ctx + length (take chunk bytes)
unfolding io_bytes_written
put_chunk-count ctx chunk bytes = omega (arith, length-append ctx.write_buf (take chunk bytes))

io_flush-empties : (ctx : Writer) → (io_flush ctx).1 ≡ true → length (io_flush ctx).0.write_buf ≡ 0
unfolding io_flush
io_flush-empties ctx h = ground arith

-- The start of a round: a full buffer is flushed.
abbrev make_room : Writer → Writer × Bool
make_room ctx = if buffer_size - length ctx.write_buf == 0 then io_flush ctx else (ctx, true)

make_room-Keeps :
    (ctx : Writer)
    → length ctx.write_buf ≤ buffer_size
    → Keeps ctx [] (make_room ctx)
      × ((make_room ctx).1 ≡ true → length (make_room ctx).0.write_buf < buffer_size)
make_room-Keeps ctx h = elim (Bool-cases (buffer_size - length ctx.write_buf == 0)) [
  | inl e ↦ rw e (io_flush-Keeps ctx h, λ o. omega (arith, io_flush-empties ctx o))
  | inr e ↦ rw e (
    record { same = λ o. sym (append-nil (written ctx)); counted = λ o. omega arith; fits = h },
    λ o. ground arith,
  )
]

abbrev chunk_of : Writer → Bytes → ℕ
chunk_of ctx bytes =
    let space = buffer_size - length ctx.write_buf in
    if ltb (length bytes) space then length bytes else space

-- What a round does behind its start.
abbrev behind_room : ℕ → Bytes → Writer × Bool → Option (Writer × Bool)
behind_room fuel bytes (ctx, false) = some (ctx, false)
behind_room fuel bytes (ctx, true) =
    let chunk = chunk_of ctx bytes in write_loop fuel (put_chunk ctx chunk bytes) (drop chunk bytes)

write_loop-suc :
    (fuel : ℕ) (ctx : Writer) (c : ℕ) (cs : Bytes)
    → write_loop (suc fuel) ctx (c ∷ cs) ≡ behind_room fuel (c ∷ cs) (make_room ctx)
unfolding write_loop
write_loop-suc fuel ctx c cs = refl

-- The writes end, and keep what is written.
abbrev pub Writes : Writer → Bytes → Option (Writer × Bool) → Type 0
Writes ctx bytes o = (r : Writer × Bool) × (o ≡ some r) × Keeps ctx bytes r

chunk_of_bounds :
    (ctx : Writer) (bytes : Bytes)
    → 0 < length bytes
    → length ctx.write_buf < buffer_size
    → (0 < chunk_of ctx bytes) × (chunk_of ctx bytes ≤ buffer_size - length ctx.write_buf)
chunk_of_bounds ctx bytes h k = ground arith

behind_room-Writes :
    (fuel : ℕ) (ctx : Writer) (bytes : Bytes) (p : Writer × Bool)
    → 0 < length bytes
    → Keeps ctx [] p
    → (p.1 ≡ true → length p.0.write_buf < buffer_size)
    → ((next : Writer) (rest : Bytes)
        → length rest < length bytes
        → length next.write_buf ≤ buffer_size
        → Writes next rest (write_loop fuel next rest))
    → Writes ctx bytes (behind_room fuel bytes p)
behind_room-Writes fuel ctx bytes (mid, false) l k room next =
    ((mid, false), refl, record { same = λ o. cc; counted = λ o. cc; fits = k.fits })
behind_room-Writes fuel ctx bytes (mid, true) l k room next =
    let chunk = chunk_of mid bytes in
    let (pos, le) = chunk_of_bounds mid bytes l (room refl) in
    let (r, e, h) =
      next (put_chunk mid chunk bytes) (drop chunk bytes) (omega (arith, length-drop chunk bytes))
        (omega (arith, length-append mid.write_buf (take chunk bytes), length-take chunk bytes)) in
    let same : Keeps ctx (take chunk bytes ++ drop chunk bytes) r =
      Keeps-trans ctx (put_chunk mid chunk bytes) (take chunk bytes) (drop chunk bytes) r
        (put_chunk-written mid chunk bytes
          ∙ ap (λ (xs : Bytes). xs ++ take chunk bytes) (k.same refl ∙ append-nil (written ctx)))
        (omega (arith, put_chunk-count mid chunk bytes, k.counted refl)) h in
    (r, e, subst (λ (xs : Bytes). Keeps ctx xs r) (take-append-drop chunk bytes) same)

write_loop_lem :
    (fuel : ℕ) (ctx : Writer) (bytes : Bytes)
    → length bytes ≤ fuel
    → length ctx.write_buf ≤ buffer_size
    → Writes ctx bytes (write_loop fuel ctx bytes)
unfolding write_loop io_bytes_written
write_loop_lem zero ctx [] l h = (
  (ctx, true),
  refl,
  record { same = λ o. sym (append-nil (written ctx)); counted = λ o. omega arith; fits = h },
)
write_loop_lem (suc fuel) ctx [] l h = (
  (ctx, true),
  refl,
  record { same = λ o. sym (append-nil (written ctx)); counted = λ o. omega arith; fits = h },
)
write_loop_lem zero ctx (c ∷ cs) l h = absurd (omega arith)
write_loop_lem (suc fuel) ctx (c ∷ cs) l h =
    let (k, room) = make_room-Keeps ctx h in
    behind_room-Writes fuel ctx (c ∷ cs) (make_room ctx) (omega arith) k room
      (λ next rest l' h'. write_loop_lem fuel next rest (omega arith) h')

-- `io_write` returns on every input and every result of `write`. If it returns true, what has been
-- sent and what waits in the buffer are together what they were before, followed by the bytes given,
-- and the byte count has grown by their number; the buffer is never overrun, on error neither.
pub io_write-Keeps :
    (ctx : Writer) (bytes : Bytes)
    → length ctx.write_buf ≤ buffer_size
    → Writes ctx bytes (io_write ctx bytes)
unfolding io_write
io_write-Keeps ctx bytes h = write_loop_lem (length bytes) ctx bytes (omega arith) h

abbrev pub writer : Bytes → ℕ → List WriteResult → Bytes → Writer
writer buf count script sent = record {
  write_buf = buf;
  bytes_written = count;
  script = script;
  sent = sent;
}

flush_loop-failed :
    (todo sent : Bytes) → 0 < length todo → flush_loop (failed ∷ []) todo sent ≡ (sent, [], false)
unfolding flush_loop
flush_loop-failed [] sent h = elim h [ ]
flush_loop-failed (c ∷ cs) sent h = refl

suc_ne_zero : (n : ℕ) → (suc n == 0) ≡ false
suc_ne_zero n = ground arith

-- Where `io_flush` fails after a part of the buffer was taken, the buffer stays whole, so that the
-- next flush, if it succeeds, sends that part a second time.
pub io_flush_twice :
    (n c : ℕ) (cs : Bytes) (count : ℕ) (sent : Bytes)
    → n < length (c ∷ cs)
    → let part = sent ++ take n (c ∷ cs) in
      (io_flush (writer (c ∷ cs) count (wrote n ∷ failed ∷ []) sent)
        ≡ (writer (c ∷ cs) count [] part, false))
      × (io_flush (writer (c ∷ cs) count [] part)
          ≡ (writer [] (count + length (c ∷ cs)) [] (part ++ c ∷ cs), true))
unfolding io_flush
io_flush_twice n c cs count sent h =
    let e =
      flush_loop-failed (drop n (c ∷ cs)) (sent ++ take n (c ∷ cs))
        (omega (arith, length-drop n (c ∷ cs))) in
    (rw (suc_ne_zero (length cs), e), rw (suc_ne_zero (length cs)))

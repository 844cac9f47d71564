-- ===== src/Redactor/Apply/Splice.antt =====
-- The output of `redactor_apply`: which bytes of the line survive, and where the buffer ends.
use plumbr_c.Prelude.{
  false, none, length-drop, nil_of_length, slice_rest, append-nil, some, ℕ, ◌+◌, ◌-◌, ◌≤◌, ◌<◌, ◌≡◌,
  ◌^◌, refl, sym, ◌∙◌, ap, true, Bytes, List, [], ◌∷◌, ◌++◌, arith, length, slice, drop, sub_size,
  length-append, length-slice, append_assoc,
}
use plumbr_c.Redactor.{MatchLocation, rewritten}
use plumbr_c.Redactor.Apply.{Build, put, emit, emit_all, finish}
use plumbr_c.Redactor.Apply.Merge.{DisjointFrom}

pub put_fits :
    (capacity : ℕ) (out chunk : Bytes) (n : ℕ)
    → capacity < 2 ^ 64
    → n ≡ length chunk
    → length out + length chunk < capacity
    → put capacity out n chunk ≡ some (out ++ chunk)
unfolding put
put_fits capacity out [] n w e room = ground (arith, append-nil out)
put_fits capacity out (c ∷ cs) n w e room = ground arith

pub put_bound :
    (capacity : ℕ) (out chunk : Bytes) (n : ℕ) {out' : Bytes}
    → length chunk ≤ n
    → capacity + n < 2 ^ 64
    → length out ≤ capacity
    → put capacity out n chunk ≡ some out'
    → length out' ≤ capacity
unfolding put
put_bound capacity out chunk n h w k e = ground (arith, length-append out chunk)

pub sub_size_lem : (a b : ℕ) → b ≤ a → a < 2 ^ 64 → sub_size a b ≡ a - b
sub_size_lem a b h k = omega arith

module _ (replacement : ℕ → Bytes) (line : Bytes) (capacity : ℕ) where
  pub emit_through :
      (m : MatchLocation) (out : Bytes) (i : ℕ) {out1 out2 : Bytes}
      → put capacity out (sub_size m.start i) (slice i (sub_size m.start i) line) ≡ some out1
      → put capacity out1 (length (replacement m.pattern_id)) (replacement m.pattern_id) ≡ some out2
      → emit replacement line capacity m (record { out = out; in_pos = i })
        ≡ (record { out = out2; in_pos = m.end }, true)
  unfolding emit
  emit_through m out i p q = rw (emit, p, q)

  pub emit_stop :
      (m : MatchLocation) (out : Bytes) (i : ℕ)
      → put capacity out (sub_size m.start i) (slice i (sub_size m.start i) line) ≡ none
      → emit replacement line capacity m (record { out = out; in_pos = i })
        ≡ (record { out = out; in_pos = i }, false)
  unfolding emit
  emit_stop m out i p = rw (emit, p)

  pub emit_break :
      (m : MatchLocation) (out : Bytes) (i : ℕ) {out1 : Bytes}
      → put capacity out (sub_size m.start i) (slice i (sub_size m.start i) line) ≡ some out1
      → put capacity out1 (length (replacement m.pattern_id)) (replacement m.pattern_id) ≡ none
      → emit replacement line capacity m (record { out = out; in_pos = i })
        ≡ (record { out = out1; in_pos = i }, false)
  unfolding emit
  emit_break m out i p q = rw (emit, p, q)

  -- Where the replacement does not fit, the loop stops behind the text before the match.
  pub emit_all_break :
      (m : MatchLocation) (ms : List MatchLocation) (out : Bytes) (i : ℕ) (out1 : Bytes)
      → put capacity out (sub_size m.start i) (slice i (sub_size m.start i) line) ≡ some out1
      → put capacity out1 (length (replacement m.pattern_id)) (replacement m.pattern_id) ≡ none
      → emit_all replacement line capacity (m ∷ ms) (record { out = out; in_pos = i })
        ≡ record { out = out1; in_pos = i }
  unfolding emit_all
  emit_all_break m ms out i out1 p q = rw (emit_all, emit_break m out i p q)

  pub emit_all_nil : (b : Build) → emit_all replacement line capacity [] b ≡ b
  unfolding emit_all
  emit_all_nil b = refl

  pub emit_all_step :
      (m : MatchLocation) (ms : List MatchLocation) (b b' : Build)
      → emit replacement line capacity m b ≡ (b', true)
      → emit_all replacement line capacity (m ∷ ms) b ≡ emit_all replacement line capacity ms b'
  unfolding emit_all
  emit_all_step m ms b b' e = rw (emit_all, e)

  pub finish_fits :
      (out : Bytes) (i : ℕ)
      → capacity < 2 ^ 64
      → length line < 2 ^ 64
      → i ≤ length line
      → length out + length (drop i line) ≤ capacity
      → finish replacement line capacity (record { out = out; in_pos = i })
        ≡ rewritten (out ++ drop i line) (length (out ++ drop i line))
  unfolding finish
  finish_fits out i w small h room =
      let n = sub_size_lem (length line) i h small in
      rw n (
        ground (
          arith,
          slice_rest i (length line - i) line refl,
          nil_of_length (drop i line),
          append-nil out,
          length-drop i line,
        ))

module _ (replacement : ℕ → Bytes) (line : Bytes) where
  -- The line with each match, from index `i` on, replaced.
  unfoldable pub splice : ℕ → List MatchLocation → Bytes
  splice i [] = drop i line
  splice i (m ∷ ms) = slice i (m.start - i) line ++ (replacement m.pattern_id ++ splice m.end ms)

  length-splice_cons :
      (i : ℕ) (m : MatchLocation) (ms : List MatchLocation)
      → length (splice i (m ∷ ms))
        ≡ length (slice i (m.start - i) line)
          + (length (replacement m.pattern_id) + length (splice m.end ms))
  unfolding splice
  length-splice_cons i m ms = omega (
    arith,
    length-append (slice i (m.start - i) line) (replacement m.pattern_id ++ splice m.end ms),
    length-append (replacement m.pattern_id) (splice m.end ms),
  )

  module _ (capacity : ℕ) (wide : capacity < 2 ^ 64) (small : length line < 2 ^ 64) where
    emit_fits :
        (m : MatchLocation) (out : Bytes) (i : ℕ)
        → i ≤ m.start
        → m.start ≤ length line
        → length out + ((m.start - i) + length (replacement m.pattern_id)) < capacity
        → emit replacement line capacity m (record { out = out; in_pos = i }) ≡ (
          record {
            out = (out ++ slice i (m.start - i) line) ++ replacement m.pattern_id;
            in_pos = m.end;
          },
          true,
        )
    emit_fits m out i h e room =
        let before = slice i (m.start - i) line in
        let rep = replacement m.pattern_id in
        let n = sub_size_lem m.start i h (omega arith) in
        let len : length before ≡ m.start - i = length-slice i (m.start - i) line (omega arith) in
        let first = put_fits capacity out before (m.start - i) wide (sym len) (omega arith) in
        let second =
          put_fits capacity (out ++ before) rep (length rep) wide refl
            (omega (arith, length-append out before)) in
        emit_through replacement line capacity m out i (rw n first) second

    -- Where everything fits, the code's output is what was written already, and then the splice.
    pub emit_all_fits :
        (ms : List MatchLocation) (out : Bytes) (i : ℕ)
        → i ≤ length line
        → DisjointFrom (length line) i ms
        → length out + length (splice i ms) < capacity
        → finish replacement line capacity
            (emit_all replacement line capacity ms (record { out = out; in_pos = i }))
          ≡ rewritten (out ++ splice i ms) (length (out ++ splice i ms))
    unfolding splice
    emit_all_fits [] out i h d room =
        rw (emit_all_nil replacement line capacity (record { out = out; in_pos = i }))
          (finish_fits replacement line capacity out i wide small h (omega arith))
    emit_all_fits (m ∷ ms) out i h (a, b, c, d) room =
        let before = slice i (m.start - i) line in
        let rep = replacement m.pattern_id in
        let whole =
          append_assoc (out ++ before) rep (splice m.end ms)
          ∙ append_assoc out before (rep ++ splice m.end ms) in
        let len = length-splice_cons i m ms in
        let step =
          emit_fits m out i a (omega arith)
            (omega (arith, len, length-slice i (m.start - i) line (omega arith))) in
        rw (emit_all_step replacement line capacity m ms _ _ step) (
          emit_all_fits ms ((out ++ before) ++ rep) m.end c d
            (omega (arith, length-append (out ++ before) rep, length-append out before, len))
          ∙ ap (λ (xs : Bytes). rewritten xs (length xs)) whole)

-- ===== src/Automaton/Compress/Rows.antt =====
-- Both passes over the states: every state but the root has a row, and the rows do not overlap.
use plumbr_c.Prelude.{
  ◌≢◌, ap, inl, run_loop-invariant, refl, sym, ◌∙◌, ℕ_discrete, subst, ◌≡◌, arith, ℕ, zero, suc,
  ◌+◌, ◌*◌, ◌-◌, ◌%◌, ◌^◌, ◌<◌, ◌≤◌, Option,
}
use plumbr_c.Automaton.{update, RowIndex, some, State, int16}
use plumbr_c.Automaton.Search.{compressed_lookup}
use plumbr_c.Automaton.Compress.{
  run_loop, Row, Sizes, count_other, default_target, measure_row, measure_rows, pack_row, pack_rows,
}
use plumbr_c.Automaton.Compress.Row.{RowAt, RowAt-Agree, lookup-RowAt}
use plumbr_c.Automaton.Compress.Pack.{pack_row-ne, pack_row-RowAt}
use plumbr_c.Automaton.Compress.Default.{count_other-fits}

suc-add : (i : ℕ) → suc i ≡ i + 1
suc-add i = omega arith

below : (i s : ℕ) → s < i + 1 → i ≢ s → s < i
below i s h ne = omega (arith, ne)

module _ {A : Type 0} (f : ℕ → A) (i : ℕ) (v : A) (j : ℕ) where
  update_at : i ≡ j → update f i v j ≡ v
  update_at e = ground arith

  update_ne : i ≢ j → update f i v j ≡ f j
  update_ne e = ground arith

-- The count is stored in eight bits, which hold it.
next_total :
    {count total off size off' : ℕ}
    → count ≤ 255
    → total ≡ off
    → off' ≡ off + size
    → size ≡ 34 + 2 * count
    → total + (34 + count % 2 ^ 8 * 2) ≡ off'
next_total a b c d = omega arith

module _ (st : ℕ → State) where
  abbrev row : ℕ → Row
  row s = (st s).goto_table

  abbrev def : ℕ → Option ℕ
  def s = default_target (row s)

  -- The bytes of a state's row; the root has none.
  unfoldable row_size : ℕ → ℕ
  row_size zero = 0
  row_size (suc s) = 34 + 2 * count_other (row (suc s)) (def (suc s)) 256

  -- Where it begins.
  unfoldable offset : ℕ → ℕ
  offset zero = 0
  offset (suc s) = offset s + row_size s

  row_size-le : (s : ℕ) → row_size s ≤ 544
  unfolding row_size
  row_size-le zero = omega arith
  row_size-le (suc s) = omega (arith, count_other-fits (row (suc s)))

  row_size_is : (s : ℕ) → 1 ≤ s → row_size s ≡ 34 + 2 * count_other (row s) (def s) 256
  unfolding row_size
  row_size_is zero h = absurd (omega arith)
  row_size_is (suc s) h = refl

  offset-le : (s : ℕ) → offset s ≤ 544 * s
  unfolding offset
  offset-le zero = omega arith
  offset-le (suc s) = omega (arith, offset-le s, row_size-le s)

  offset_step : (s : ℕ) → offset (s + 1) ≡ offset s + row_size s
  offset_step s = ap offset (sym (suc-add s)) ∙ step
    where
      step : offset (suc s) ≡ offset s + row_size s
      step = unfold offset in refl

  offset-apart : (i s : ℕ) → s < i → offset s + row_size s ≤ offset i
  offset-apart zero s h = absurd (omega arith)
  offset-apart (suc i) s h = elim (ℕ_discrete s i) [
    | yes e ↦ rw e (omega (arith, ap offset (suc-add i), offset_step i))
    | no ne ↦
        omega (arith, offset-apart i s (omega (arith, ne)), ap offset (suc-add i), offset_step i)
  ]

  -- The states below `i` are measured.
  record Measured (i : ℕ) (z : Sizes) : Type 0 where
    total_is : z.total ≡ offset i
    def_is : (s : ℕ) → 1 ≤ s → s < i → z.def_targets s ≡ def s
    offset_is : (s : ℕ) → 1 ≤ s → s < i → (z.row_index s).offset ≡ offset s % 2 ^ 32

  measure_row-Measured :
      (i : ℕ) (z : Sizes) → 1 ≤ i → Measured i z → Measured (i + 1) (measure_row st i z)
  unfolding measure_row
  measure_row-Measured i z lo r = record {
    total_is = next_total (count_other-fits (row i)) r.total_is (offset_step i) (row_size_is i lo);
    def_is = λ s a b. elim (ℕ_discrete i s) [
      | yes e ↦ update_at z.def_targets i (def i) s e ∙ ap def e
      | no ne ↦ update_ne z.def_targets i (def i) s ne ∙ r.def_is s a (below i s b ne)
    ];
    offset_is = λ s a b. elim (ℕ_discrete i s) [
      | yes e ↦
          ap (λ (x : RowIndex). x.offset) (update_at z.row_index i (measured_index z i) s e)
          ∙ ap (λ t. t % 2 ^ 32) r.total_is
          ∙ ap (λ k. offset k % 2 ^ 32) e
      | no ne ↦
          ap (λ (x : RowIndex). x.offset) (update_ne z.row_index i (measured_index z i) s ne)
          ∙ r.offset_is s a (below i s b ne)
    ];
  }
    where
      measured_index : Sizes → ℕ → RowIndex
      measured_index z i = record {
        offset = z.total % 2 ^ 32;
        num_transitions = count_other (row i) (def i) 256 % 2 ^ 8;
      }

  measure_rows-Measured : (n : ℕ) → 1 ≤ n → Measured n (measure_rows st n)
  unfolding measure_rows
  measure_rows-Measured n h =
      let z : Sizes = record {
        def_targets = λ _. some 0;
        row_index = λ _. record { offset = 0; num_transitions = 0 };
        total = 0;
      } in
      subst (λ k. Measured k (run_loop (measure_row st) 1 (n - 1) z)) (omega arith)
        (run_loop-invariant (measure_row st) Measured 1 (n - 1) z
          (λ i z lo hi r. measure_row-Measured i z lo r)
          (record {
            total_is = unfold offset row_size in refl;
            def_is = λ s a b. absurd (omega arith);
            offset_is = λ s a b. absurd (omega arith);
          }))

  abbrev Written : ℕ → (ℕ → ℕ) → Type 0
  Written i m = (s : ℕ) → 1 ≤ s → s < i → RowAt (row s) (def s) (offset s) m

  write_row :
      (i : ℕ) (m : ℕ → ℕ)
      → 1 ≤ i
      → Written i m
      → Written (i + 1) (pack_row (row i) (def i) (offset i) m)
  write_row i m lo w s a b = elim (ℕ_discrete s i) [
    | yes e ↦ rw e (pack_row-RowAt (row i) (def i) (offset i) m)
    | no ne ↦
        let lt : s < i = omega (arith, ne) in
        RowAt-Agree (row s) (def s) m (pack_row (row i) (def i) (offset i) m)
          (λ x p q. sym (
            pack_row-ne (row i) (def i) (offset i) m x
              (inl (omega (arith, offset-apart i s lt, row_size_is s a)))))
          (w s a lt)
  ]

  module _ (n : ℕ) (small : n ≤ 32767) where
    pack_rows-Written : (mem : ℕ → ℕ) → 1 ≤ n → Written n (pack_rows st n (measure_rows st n) mem)
    unfolding pack_rows
    pack_rows-Written mem h =
        let z = measure_rows st n in
        let measured = measure_rows-Measured n h in
        let body =
          λ (s : ℕ) (m : ℕ → ℕ). pack_row (row s) (z.def_targets s) (z.row_index s).offset m in
        subst (λ k. Written k (run_loop body 1 (n - 1) mem)) (omega arith)
          (run_loop-invariant body Written 1 (n - 1) mem
            (λ i m lo hi w.
              let lt : i < n = omega arith in
              let off : (z.row_index i).offset ≡ offset i =
                measured.offset_is i lo lt ∙ omega (arith, offset-le i) in
              rw (measured.def_is i lo lt, off) (write_row i m lo w))
            (λ s a b. absurd (omega arith)))

    -- With at most 32767 states, `compressed_lookup` reads from the rows that both passes leave in
    -- memory the same target as the dense table holds, as an `int16_t`, for every byte of every state
    -- but the root.
    pub lookup-pack_rows :
        (mem : ℕ → ℕ) (s c : ℕ)
        → 1 ≤ s
        → s < n
        → c < 256
        → compressed_lookup
            (pack_rows st n (measure_rows st n) mem)
            (measure_rows st n).row_index
            s
            c
          ≡ int16 ((st s).goto_table c)
    lookup-pack_rows mem s c lo hi c_lt =
        let measured = measure_rows-Measured n (omega arith) in
        let w = pack_rows-Written mem (omega arith) in
        lookup-RowAt (row s) (def s) (w s lo hi) (measure_rows st n).row_index s c
          (measured.offset_is s lo hi ∙ omega (arith, offset-le s)) c_lt

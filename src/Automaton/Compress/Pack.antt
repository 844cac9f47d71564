-- ===== src/Automaton/Compress/Pack.antt =====
-- `pack_row` writes the row that `compressed_lookup` reads, and nothing else.
use plumbr_c.Prelude.{
  run_loop-invariant, subst, sym, inr, ◌∙◌, refl, ap, ℕ_discrete, inl, arith, ◌⊎◌, Bool-cases, ◌≡◌,
  ℕ, suc, ◌+◌, ◌*◌, ◌/◌, ◌%◌, ◌^◌, ◌<◌, ◌≤◌, ◌-◌, none, some, true, false, Option, not, min,
}
use Prim.Native.Nat.{bit_or}
use plumbr_c.Automaton.{int16, update}
use plumbr_c.Automaton.Search.{load16}
use plumbr_c.Automaton.Compress.{
  run_loop, Row, same_target, count_other, Packing, pack_byte, pack_row, store_bitmap, store16,
}
use plumbr_c.Automaton.Compress.Mask.{mask, mask_set, mask_unset, mask-lt}
use plumbr_c.Automaton.Compress.Memory.{
  load16-Agree, store16-ne, load16-store16_self, load16-store16_ne,
}
use plumbr_c.Automaton.Compress.Bitmap.{store_bitmap-ne, load64-store_bitmap}
use plumbr_c.Automaton.Compress.Row.{other, word, RowAt, count_other_step, count_other-lt}

int16-lt : (t : Option ℕ) → int16 t % 65536 ≡ int16 t
int16-lt none = refl
int16-lt (some n) = omega arith

module _ (row : Row) (def : Option ℕ) (off : ℕ) (mem : ℕ → ℕ) where
  -- The bytes below `i` are packed.
  record Packed (i : ℕ) (p : Packing) : Type 0 where
    bitmap_is : (k : ℕ) → p.bitmap k ≡ mask (word row def k) (min 64 (i - 64 * k))
    idx_is : p.trans_idx ≡ count_other row def i
    default_is : load16 p.mem off ≡ int16 def
    target_is :
        (j : ℕ)
        → j < i
        → other row def j ≡ true
        → load16 p.mem (off + 34 + 2 * count_other row def j) ≡ int16 (row j)
    frame : (x : ℕ) → (x < off) ⊎ (off + (34 + 2 * count_other row def i) ≤ x) → p.mem x ≡ mem x

  skip : (i : ℕ) (p : Packing) → other row def i ≡ false → Packed i p → Packed (i + 1) p
  skip i p o r =
      let step = count_other_step row def i in
      let same : count_other row def (i + 1) ≡ count_other row def i =
        ap (count_other row def) (omega arith) ∙ step ∙ rw o (omega arith) in
      record {
        bitmap_is = λ k. r.bitmap_is k ∙ skip_bit k;
        idx_is = r.idx_is ∙ sym same;
        default_is = r.default_is;
        target_is = λ j h e. elim (ℕ_discrete j i) [
          | yes q ↦ absurd (ground (arith))
          | no ne ↦ r.target_is j (omega (arith, ne)) e
        ];
        frame = λ x h. r.frame x (rw same at h);
      }
    where
      skip_bit :
          (k : ℕ)
          → mask (word row def k) (min 64 (i - 64 * k))
            ≡ mask (word row def k) (min 64 (i + 1 - 64 * k))
      skip_bit k = elim (ℕ_discrete k (i / 64)) [
        | yes q ↦
            let a : min 64 (i - 64 * k) ≡ i % 64 = omega (arith, q) in
            let b : min 64 (i + 1 - 64 * k) ≡ suc (i % 64) = omega (arith, q) in
            let c : 64 * k + i % 64 ≡ i = omega (arith, q) in
            rw (a, b) (mask_unset (word row def k) (i % 64) (ap (other row def) c ∙ o))
        | no ne ↦ ap (mask (word row def k)) (omega (arith, ne))
      ]

  put : (i : ℕ) (p : Packing) → Packing
  put i p = record {
    bitmap = update p.bitmap (i / 64) (bit_or (p.bitmap (i / 64)) (2 ^ (i % 64)));
    trans_idx = p.trans_idx + 1;
    mem = store16 p.mem (off + 34 + 2 * p.trans_idx) (int16 (row i));
  }

  put_bit :
      (i : ℕ) (p : Packing)
      → other row def i ≡ true
      → Packed i p
      → (k : ℕ)
      → update p.bitmap (i / 64) (bit_or (p.bitmap (i / 64)) (2 ^ (i % 64))) k
        ≡ mask (word row def k) (min 64 (i + 1 - 64 * k))
  put_bit i p o r k = elim (ℕ_discrete (i / 64) k) [
    | yes q ↦
        let a : min 64 (i - 64 * k) ≡ i % 64 = omega (arith, q) in
        let b : min 64 (i + 1 - 64 * k) ≡ suc (i % 64) = omega (arith, q) in
        let c : 64 * k + i % 64 ≡ i = omega (arith, q) in
        let m = mask_set (word row def k) (i % 64) (ap (other row def) c ∙ o) in
        let old : p.bitmap (i / 64) ≡ mask (word row def k) (i % 64) =
          ap p.bitmap q ∙ r.bitmap_is k ∙ ap (mask (word row def k)) a in
        let here : update p.bitmap (i / 64) (bit_or (p.bitmap (i / 64)) (2 ^ (i % 64))) k
            ≡ bit_or (p.bitmap (i / 64)) (2 ^ (i % 64)) =
          ground arith in
        here ∙ ap (λ x. bit_or x (2 ^ (i % 64))) old ∙ m ∙ ap (mask (word row def k)) (sym b)
    | no ne ↦
        let here : update p.bitmap (i / 64) (bit_or (p.bitmap (i / 64)) (2 ^ (i % 64))) k
            ≡ p.bitmap k =
          ground arith in
        here ∙ r.bitmap_is k ∙ ap (mask (word row def k)) (omega (arith, ne))
  ]

  put-Packed :
      (i : ℕ) (p : Packing) → other row def i ≡ true → Packed i p → Packed (i + 1) (put i p)
  unfolding put
  put-Packed i p o r =
      let n = count_other row def i in
      let at : ℕ = off + 34 + 2 * p.trans_idx in
      let next : count_other row def (i + 1) ≡ n + 1 =
        ap (count_other row def) (omega arith) ∙ count_other_step row def i ∙ rw o (omega arith) in
      record {
        bitmap_is = put_bit i p o r;
        idx_is = omega (arith, next, r.idx_is);
        default_is =
            load16-store16_ne p.mem at (int16 (row i)) off (inl (omega arith)) ∙ r.default_is;
        target_is = λ j h e. elim (ℕ_discrete j i) [
          | yes q ↦
              let here : off + 34 + 2 * count_other row def j ≡ at =
                omega (arith, r.idx_is, ap (count_other row def) q) in
              rw here (
                load16-store16_self p.mem at (int16 (row i))
                ∙ int16-lt (row i)
                ∙ ap (λ c. int16 (row c)) (sym q))
          | no ne ↦
              let lt : j < i = omega (arith, ne) in
              load16-store16_ne p.mem at (int16 (row i)) (off + 34 + 2 * count_other row def j)
                (inl (omega (arith, r.idx_is, count_other-lt row def i j lt e)))
              ∙ r.target_is j lt e
        ];
        frame = λ x h.
            store16-ne p.mem at (int16 (row i)) x (outside x h next) ∙ r.frame x (inside x h next);
      }
    where
      outside :
          (x : ℕ)
          → (x < off) ⊎ (off + (34 + 2 * count_other row def (i + 1)) ≤ x)
          → count_other row def (i + 1) ≡ count_other row def i + 1
          → (x < off + 34 + 2 * p.trans_idx) ⊎ (off + 34 + 2 * p.trans_idx + 2 ≤ x)
      outside x h e = ground (arith, r.idx_is)

      inside :
          (x : ℕ)
          → (x < off) ⊎ (off + (34 + 2 * count_other row def (i + 1)) ≤ x)
          → count_other row def (i + 1) ≡ count_other row def i + 1
          → (x < off) ⊎ (off + (34 + 2 * count_other row def i) ≤ x)
      inside x h e = ground arith

  pack_byte-Packed : (i : ℕ) (p : Packing) → Packed i p → Packed (i + 1) (pack_byte row def off i p)
  unfolding pack_byte put
  pack_byte-Packed i p r = elim (Bool-cases (same_target (row i) def)) [
    | inl e ↦ rw e (skip i p (ap not e) r)
    | inr e ↦ rw e (put-Packed i p (ap not e) r)
  ]

  start : Packing
  start = record { bitmap = λ _. 0; trans_idx = 0; mem = store16 mem off (int16 def) }

  start-Packed : Packed 0 start
  unfolding start
  start-Packed = record {
    bitmap_is = λ k. empty k;
    idx_is = unfold count_other in refl;
    default_is = load16-store16_self mem off (int16 def) ∙ int16-lt def;
    target_is = λ j h e. absurd (omega arith);
    frame = λ x h. store16-ne mem off (int16 def) x (ground (arith));
  }
    where
      empty : (k : ℕ) → 0 ≡ mask (word row def k) (min 64 (0 - 64 * k))
      empty k = let e : min 64 (0 - 64 * k) ≡ 0 = omega arith in rw e (unfold mask in refl)

  finish : Packing
  unfolding start
  finish = run_loop (pack_byte row def off) 0 256 start

  finish-Packed : Packed 256 finish
  unfolding finish
  finish-Packed =
      run_loop-invariant (pack_byte row def off) (λ i p. Packed i p) 0 256 start
        (λ i p lo hi r. pack_byte-Packed i p r) start-Packed

  pack_row_is : pack_row row def off mem ≡ store_bitmap finish.mem (off + 2) finish.bitmap
  unfolding pack_row finish start
  pack_row_is = refl

  -- Outside of its bytes `pack_row` changes nothing.
  pub pack_row-ne :
      (x : ℕ)
      → (x < off) ⊎ (off + (34 + 2 * count_other row def 256) ≤ x)
      → pack_row row def off mem x ≡ mem x
  pack_row-ne x h =
      ap (λ (f : ℕ → ℕ). f x) pack_row_is
      ∙ store_bitmap-ne finish.mem (off + 2) finish.bitmap x (ground arith)
      ∙ finish-Packed.frame x h

  bitmap_word : (k : ℕ) → k < 4 → finish.bitmap k ≡ mask (word row def k) 64
  bitmap_word k h =
      let e : min 64 (256 - 64 * k) ≡ 64 = omega arith in
      finish-Packed.bitmap_is k ∙ ap (mask (word row def k)) e

  bitmap-lt : (k : ℕ) → k < 4 → finish.bitmap k < 2 ^ 64
  bitmap-lt k h = rw (bitmap_word k h) (mask-lt (word row def k) 64)

  pub pack_row-RowAt : RowAt row def off (pack_row row def off mem)
  pack_row-RowAt = subst (RowAt row def off) (sym pack_row_is) (record {
    default_is =
        load16-Agree {lo = off} {hi = off + 2} stored finish.mem off
          (λ x lo hi. store_bitmap-ne finish.mem (off + 2) finish.bitmap x (inl hi)) (omega arith)
          (omega arith)
        ∙ finish-Packed.default_is;
    word_is = λ k h.
        load64-store_bitmap finish.mem (off + 2) finish.bitmap bitmap-lt k h ∙ bitmap_word k h;
    target_is = λ j h e.
        let a : ℕ = off + 34 + 2 * count_other row def j in
        load16-Agree {lo = off + 34} {hi = a + 2} stored finish.mem a
          (λ x lo hi. store_bitmap-ne finish.mem (off + 2) finish.bitmap x (inr (omega arith)))
          (omega arith) (omega arith)
        ∙ finish-Packed.target_is j h e;
  })
    where
      stored : ℕ → ℕ
      stored = store_bitmap finish.mem (off + 2) finish.bitmap

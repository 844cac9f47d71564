-- ===== src/Automaton/Compress/Row.antt =====
-- One compressed row in memory, and what `compressed_lookup` reads from it.
use plumbr_c.Prelude.{
  none, some, true, false, Bool, Option, refl, ℕ_discrete, ◌∙◌, ap, arith, sym, ◌≡◌, ℕ, zero, suc,
  ◌+◌, ◌*◌, ◌/◌, ◌%◌, ◌^◌, ◌<◌, ◌≤◌, not, ◌==◌, if◌then◌else◌,
}
use plumbr_c.Automaton.{true, Bool, Option, int16, RowIndex}
use plumbr_c.Automaton.Search.{load16, load64, popcount, popcount_words, compressed_lookup}
use plumbr_c.Automaton.Compress.{Row, same_target, count_other}
use plumbr_c.Automaton.Compress.Mask.{
  mask, count_set, count_set_last, digit-mask, popcount-mask, popcount_all, digit,
}
use plumbr_c.Automaton.Compress.Memory.{Agree, load16-Agree, load64-Agree}

same_target-eq : (a b : Option ℕ) → same_target a b ≡ true → a ≡ b
same_target-eq none none e = refl
same_target-eq none (some b) e = cc
same_target-eq (some a) none e = cc
same_target-eq (some a) (some b) e = ap some (ground arith)

module _ (row : Row) (def : Option ℕ) where
  -- The bytes that do not go to the default.
  abbrev pub other : ℕ → Bool
  other c = not (same_target (row c) def)

  pub count_other_step :
      (c : ℕ) → count_other row def (suc c) ≡ digit (other c) + count_other row def c
  unfolding count_other
  count_other_step c = ground arith

  -- The digits of word `k` of the bitmap.
  abbrev pub word : ℕ → ℕ → Bool
  word k j = other (64 * k + j)

  count_other-word :
      (k b : ℕ)
      → count_other row def (64 * k + b) ≡ count_other row def (64 * k) + count_set (word k) b
  count_other-word k zero =
      unfold count_set in let e : 64 * k + 0 ≡ 64 * k = omega arith in rw e (omega arith)
  count_other-word k (suc b) =
      let e : 64 * k + suc b ≡ suc (64 * k + b) = omega arith in
      rw e (
        omega
          (arith, count_other_step (64 * k + b), count_set_last (word k) b, count_other-word k b))

  pub count_other-lt :
      (i j : ℕ) → j < i → other j ≡ true → count_other row def j + 1 ≤ count_other row def i
  count_other-lt zero j h o = absurd (omega arith)
  count_other-lt (suc i) j h o = elim (ℕ_discrete j i) [
    | yes e ↦ rw e (omega (arith, count_other_step i, ap digit (ap other (sym e) ∙ o)))
    | no ne ↦ omega (arith, count_other_step i, count_other-lt i j (omega (arith, ne)) o)
  ]

  pub record RowAt (off : ℕ) (mem : ℕ → ℕ) : Type 0 where
    pub default_is : load16 mem off ≡ int16 def
    pub word_is : (k : ℕ) → k < 4 → load64 mem (off + 2 + 8 * k) ≡ mask (word k) 64
    pub target_is :
        (j : ℕ)
        → j < 256
        → other j ≡ true
        → load16 mem (off + 34 + 2 * count_other row def j) ≡ int16 (row j)

  -- A row is made of the bytes of its own.
  pub RowAt-Agree :
      {off : ℕ} (m m' : ℕ → ℕ)
      → Agree off (off + (34 + 2 * count_other row def 256)) m m'
      → RowAt off m
      → RowAt off m'
  RowAt-Agree {off} m m' same r = record {
    default_is = sym (load16-Agree m m' off same (omega arith) (omega arith)) ∙ r.default_is;
    word_is = λ k h.
        sym (load64-Agree m m' (off + 2 + 8 * k) same (omega arith) (omega arith)) ∙ r.word_is k h;
    target_is = λ j h o.
        sym (
          load16-Agree m m' (off + 34 + 2 * count_other row def j) same (omega arith)
            (omega (arith, count_other-lt 256 j h o)))
        ∙ r.target_is j h o;
  }

  module _ {off : ℕ} {mem : ℕ → ℕ} (r : RowAt off mem) where
    popcount_words-count :
        (w : ℕ) → w ≤ 4 → popcount_words mem (off + 2) w ≡ count_other row def (64 * w)
    unfolding popcount_words
    popcount_words-count zero h = unfold count_other in refl
    popcount_words-count (suc w) h =
        let e : 64 * suc w ≡ 64 * w + 64 = omega arith in
        rw e (
          omega (
            arith,
            count_other-word w 64,
            popcount_words-count w (omega arith),
            ap (popcount 64) (r.word_is w (omega arith)) ∙ popcount_all (word w),
          ))

    -- `compressed_lookup` gives the dense row's entry.
    pub lookup-RowAt :
        (idx : ℕ → RowIndex) (s c : ℕ)
        → (idx s).offset ≡ off
        → c < 256
        → compressed_lookup mem idx s c ≡ int16 (row c)
    unfolding compressed_lookup
    lookup-RowAt idx s c at_off h =
        let k = c / 64 in
        let b = c % 64 in
        let whole : 64 * k + b ≡ c = omega arith in
        let bm : load64 mem (off + 2 + 8 * k) ≡ mask (word k) 64 = r.word_is k (omega arith) in
        let bit : load64 mem (off + 2 + 8 * k) / 2 ^ b % 2 ≡ digit (other c) =
          ap (λ (x : ℕ). x / 2 ^ b % 2) bm
          ∙ digit-mask (word k) 64 b (omega arith)
          ∙ ap (λ j. digit (other j)) whole in
        let below : popcount 64 (load64 mem (off + 2 + 8 * k) % 2 ^ b) ≡ count_set (word k) b =
          ap (λ (x : ℕ). popcount 64 (x % 2 ^ b)) bm
          ∙ popcount-mask 64 (word k) 64 b (omega arith) (omega arith) in
        let pos : popcount_words mem (off + 2) k
              + popcount 64 (load64 mem (off + 2 + 8 * k) % 2 ^ b)
            ≡ count_other row def c =
          omega (
            arith,
            popcount_words-count k (omega arith),
            below,
            count_other-word k b,
            ap (count_other row def) whole,
          ) in
        rw (at_off, bit, pos) (choose (same_target (row c) def) refl)
      where
        choose :
            (t : Bool)
            → same_target (row c) def ≡ t
            → (if digit (other c) == 0
                then load16 mem off
                else load16 mem (off + 34 + 2 * count_other row def c))
              ≡ int16 (row c)
        choose true e = rw e (r.default_is ∙ ap int16 (sym (same_target-eq (row c) def e)))
        choose false e = rw e (r.target_is c h (ap not e))

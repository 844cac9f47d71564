-- ===== src/Filter/Tests.antt =====
-- The filter with an instruction written out.
use plumbr_c.Prelude.{
  lt→ltb, le→ltb_false, ◌∙◌, ℕ, suc, ◌+◌, ◌≡◌, ◌≤◌, ap, Bytes, [], ◌∷◌, ltb, length, codes,
  if◌then◌else◌, arith, Bool-cases, inl, inr,
}
use plumbr_c.Filter.{is_trigger, has_triggers_scalar, has_triggers}
use plumbr_c.Filter.Laws.{IsEqualAny, has_triggers-eq-scalar}

-- The index of the first byte in the set, counted from `i`, or 16.
unfoldable first_from : Bytes → ℕ → Bytes → ℕ
first_from triggers i [] = 16
first_from triggers i (c ∷ cs) =
    let rest = first_from triggers (i + 1) cs in if is_trigger triggers c then i else rest

first_from_lem :
    (triggers : Bytes) (i : ℕ) (xs : Bytes)
    → i + length xs ≤ 16
    → ltb (first_from triggers i xs) (i + length xs) ≡ has_triggers_scalar triggers xs
unfolding first_from has_triggers_scalar
first_from_lem triggers i [] h = le→ltb_false 16 (i + 0) (omega arith)
first_from_lem triggers i (c ∷ cs) h = elim (Bool-cases (is_trigger triggers c)) [
  | inl e ↦ rw e (lt→ltb i (i + suc (length cs)) (omega arith))
  | inr e ↦
      let l : i + suc (length cs) ≡ i + 1 + length cs = omega arith in
      rw (e, l) (first_from_lem triggers (i + 1) cs (omega arith))
]

first_from-IsEqualAny : IsEqualAny (λ triggers block. first_from triggers 0 block)
first_from-IsEqualAny = record {
  finds = λ triggers block h.
      let l : length block ≡ 0 + length block = omega arith in
      ap (ltb (first_from triggers 0 block)) l ∙ first_from_lem triggers 0 block (omega arith);
}

has_triggers-eq-scalar_example :
    has_triggers (λ ts b. first_from ts 0 b) (codes "@:") (codes "user@host")
    ≡ has_triggers_scalar (codes "@:") (codes "user@host")
has_triggers-eq-scalar_example =
    has_triggers-eq-scalar (λ ts b. first_from ts 0 b) first_from-IsEqualAny (codes "@:")
      (codes "user@host") (omega arith) (omega arith)

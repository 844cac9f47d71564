-- ===== src/Automaton/Compress/Default.antt =====
-- The default of a row is one of its targets, so at most 255 bytes go elsewhere.
use plumbr_c.Prelude.{
  inr, refl, not, ◌∙◌, ap, run_loop-invariant, inl, ℕ_discrete, ◌⊎◌, arith, ◌≡◌, ℕ, zero, suc, ◌+◌,
  ◌<◌, ◌≤◌, Option, if◌then◌else◌, leb, ltb,
}
use plumbr_c.Automaton.Compress.{
  none, some, false, true, Bool, Row, same_target, count_other, count_target, Candidate, better,
  default_target,
}
use plumbr_c.Automaton.Compress.Row.{other, count_other_step}
use plumbr_c.Automaton.Compress.Mask.{digit}

-- A target of the row.
abbrev In : Row → Option ℕ → Type 0
In row t = (c : ℕ) × (c < 256) × (t ≡ row c)

choose :
    (a b d : Bool) (k k' : Candidate)
    → ((if a then k else if b then k else if d then k' else k).target ≡ k.target)
      ⊎ ((if a then k else if b then k else if d then k' else k).target ≡ k'.target)
choose true b d k k' = inl refl
choose false true d k k' = inl refl
choose false false true k k' = inr refl
choose false false false k k' = inl refl

better-In :
    (row : Row) (c : ℕ) (k : Candidate) → c < 256 → In row k.target → In row (better row c k).target
unfolding better
better-In row c k h (d, d_lt, e) = pick (better row c k).target choice
  where
    choice : ((better row c k).target ≡ k.target) ⊎ ((better row c k).target ≡ row c)
    choice =
        let cnt = count_target row (row c) 256 in
        choose k.majority (same_target (row c) k.target) (ltb k.count cnt) k
          (record { target = row c; count = cnt; majority = ltb 128 cnt })

    pick : (t : Option ℕ) → (t ≡ k.target) ⊎ (t ≡ row c) → In row t
    pick t (inl q) = (d, d_lt, q ∙ e)
    pick t (inr q) = (c, h, q)

default_target-In : (row : Row) → In row (default_target row)
unfolding default_target
default_target-In row =
    let first = count_target row (row 0) 256 in
    let k : Candidate = record { target = row 0; count = first; majority = false } in
    let scan =
      run_loop-invariant (better row) (λ i k. In row k.target) 0 256 k
        (λ i k lo hi p. better-In row i k (omega arith) p) (0, omega arith, refl) in
    pick (leb first 128) scan
  where
    pick : (b : Bool) {t : Option ℕ} → In row t → In row (if b then t else row 0)
    pick true p = p
    pick false p = (0, omega arith, refl)

same_target_refl : (t : Option ℕ) → same_target t t ≡ true
same_target_refl none = refl
same_target_refl (some a) = ground arith

digit-le : (b : Bool) → digit b ≤ 1
digit-le true = omega arith
digit-le false = omega arith

count_other-le : (row : Row) (def : Option ℕ) (n : ℕ) → count_other row def n ≤ n
count_other-le row def zero = unfold count_other in omega arith
count_other-le row def (suc n) =
    omega (arith, count_other_step row def n, count_other-le row def n, digit-le (other row def n))

count_other-default :
    (row : Row) (def : Option ℕ) (n c : ℕ) → c < n → def ≡ row c → count_other row def n + 1 ≤ n
count_other-default row def zero c h e = absurd (omega arith)
count_other-default row def (suc n) c h e = elim (ℕ_discrete c n) [
  | yes q ↦
      let same : other row def n ≡ false = rw (e, q) (ap not (same_target_refl (row n))) in
      omega (arith, count_other_step row def n, count_other-le row def n, ap digit same)
  | no ne ↦ omega (
    arith,
    count_other_step row def n,
    count_other-default row def n c (omega (arith, ne)) e,
    digit-le (other row def n),
  )
]

-- The count fits the `uint8_t` that holds it.
pub count_other-fits : (row : Row) → count_other row (default_target row) 256 ≤ 255
count_other-fits row =
    let (c, c_lt, e) = default_target-In row in
    omega (arith, count_other-default row (default_target row) 256 c c_lt e)

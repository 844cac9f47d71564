-- ===== src/Prelude/Slices.antt =====
-- The bytes of a buffer between two indices, as `memcpy` from `line + a` of `n` bytes reads them.
use Prim.Native.Nat.{ℕ, zero, suc, ◌-◌, ◌+◌, ◌≤◌}
use mathlib.Core.Path.{◌≡◌, refl, sym, ap, ◌∙◌}
use mathlib.Core.List.{List, [], ◌∷◌}
use native.Mathlib.Omega.{arith}
use plumbr_c.Prelude.Lists.{length, take, drop, length-take, length-drop}

add_suc : (i k : ℕ) → suc (i + k) ≡ suc i + k
add_suc i k = omega arith

zero_add : (n : ℕ) → n ≡ 0 + n
zero_add n = omega arith

module _ {ℓ} {A : Type ℓ} where
  abbrev pub slice : ℕ → ℕ → List A → List A
  slice a n xs = take n (drop a xs)

  pub length-slice : (a n : ℕ) (xs : List A) → a + n ≤ length xs → length (slice a n xs) ≡ n
  length-slice a n xs h = omega (arith, length-take n (drop a xs), length-drop a xs)

  pub nil_of_length : (xs : List A) → length xs ≡ 0 → xs ≡ []
  nil_of_length [] h = refl
  nil_of_length (x ∷ xs) h = absurd (omega arith)

  pub take_all : (n : ℕ) (xs : List A) → length xs ≤ n → take n xs ≡ xs
  take_all zero xs h = sym (nil_of_length xs (omega arith))
  take_all (suc n) [] h = refl
  take_all (suc n) (x ∷ xs) h = ap (◌∷◌ x) (take_all n xs (omega arith))

  -- The rest of a list, as a slice up to its end.
  pub slice_rest : (i n : ℕ) (xs : List A) → n ≡ length xs - i → slice i n xs ≡ drop i xs
  slice_rest i n xs e = take_all n (drop i xs) (omega (arith, length-drop i xs))

  drop-nil : (n : ℕ) → drop {A = A} n [] ≡ []
  drop-nil zero = refl
  drop-nil (suc n) = refl

  pub drop-drop : (k i : ℕ) (xs : List A) → drop k (drop i xs) ≡ drop (i + k) xs
  drop-drop k zero xs = ap (λ (n : ℕ). drop n xs) (zero_add k)
  drop-drop k (suc i) [] = drop-nil k ∙ sym (drop-nil (suc i + k))
  drop-drop k (suc i) (x ∷ xs) = drop-drop k i xs ∙ ap (λ (n : ℕ). drop n (x ∷ xs)) (add_suc i k)

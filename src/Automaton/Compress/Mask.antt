-- ===== src/Automaton/Compress/Mask.antt =====
-- A bitmap as the set of its digits: the stores by `|=`, the test of a digit, and the count below one.
use plumbr_c.Prelude.{
  ap₂, ◌∙◌, ◌<◌, inr, inl, ap, sym, Bool-cases, ◌≤◌, refl, arith, false, true, Bool, ◌≡◌, ℕ, zero,
  suc, ◌+◌, ◌*◌, ◌/◌, ◌%◌, ◌^◌,
}
use Prim.Native.Nat.{bit_or, bit_or-bitwise, digits, max}
use plumbr_c.Automaton.Search.{popcount}
use native.Mathlib.Nat.{
  one-le-pow, pow-succ', div-div-eq-div-mul, div-add-mod, mul-add-mod_self_left, mod-eq_of_lt,
  mod-lt, mul_assoc,
}

or_digits :
    (fuel fuel' a b : ℕ)
    → a ≤ fuel
    → a ≤ fuel'
    → digits (λ y. y) max fuel a b ≡ digits (λ y. y) max fuel' a b
or_digits zero zero a b h k = refl
or_digits zero (suc m) zero b h k = refl
or_digits zero (suc m) (suc a) b h k = absurd (omega arith)
or_digits (suc n) zero zero b h k = refl
or_digits (suc n) zero (suc a) b h k = absurd (omega arith)
or_digits (suc n) (suc m) zero b h k = refl
or_digits (suc n) (suc m) (suc a) b h k =
    omega (arith, or_digits n m (suc a / 2) (b / 2) (omega arith) (omega arith))

bit_or_low : (a b : ℕ) → bit_or a b ≡ bit_or (a / 2) (b / 2) * 2 + max (a % 2) (b % 2)
bit_or_low zero b = omega (arith, bit_or-bitwise 0 b, bit_or-bitwise 0 (b / 2))
bit_or_low (suc a) b = omega (
  arith,
  bit_or-bitwise (suc a) b,
  bit_or-bitwise (suc a / 2) (b / 2),
  or_digits a (suc a / 2) (suc a / 2) (b / 2) (omega arith) (omega arith),
)

abbrev pub digit : Bool → ℕ
digit true = 1
digit false = 0

-- The number with the digits `p 0`, …, `p (n - 1)`, lowest first, and how many of them are set.
unfoldable pub mask : (ℕ → Bool) → ℕ → ℕ
mask p zero = 0
mask p (suc n) = digit (p 0) + 2 * mask (λ j. p (suc j)) n

unfoldable pub count_set : (ℕ → Bool) → ℕ → ℕ
count_set p zero = 0
count_set p (suc n) = digit (p 0) + count_set (λ j. p (suc j)) n

mask-half :
    (p : ℕ → Bool) (n : ℕ)
    → (mask p (suc n) / 2 ≡ mask (λ j. p (suc j)) n) × (mask p (suc n) % 2 ≡ digit (p 0))
unfolding mask
mask-half p n = elim (Bool-cases (p 0)) [
  | inl e ↦ rw e (omega arith, omega arith)
  | inr e ↦ rw e (omega arith, omega arith)
]

pub mask_set : (p : ℕ → Bool) (n : ℕ) → p n ≡ true → bit_or (mask p n) (2 ^ n) ≡ mask p (suc n)
unfolding mask
mask_set p zero h = ground arith
mask_set p (suc n) h = omega (
  arith,
  bit_or_low (mask p (suc n)) (2 ^ suc n),
  mask_set (λ j. p (suc j)) n h,
  ap₂ (λ (x y : ℕ). bit_or x y) (mask-half p n).0 (half_two n),
  mask-half p n,
  mask-half p (suc n),
  pow-succ' 2 n,
)
  where
    half_two : (n : ℕ) → 2 ^ suc n / 2 ≡ 2 ^ n
    half_two n = omega (arith, pow-succ' 2 n)

pub mask_unset : (p : ℕ → Bool) (n : ℕ) → p n ≡ false → mask p n ≡ mask p (suc n)
unfolding mask
mask_unset p zero h = ground arith
mask_unset p (suc n) h = omega (arith, mask_unset (λ j. p (suc j)) n h)

two-pow_pos : (j : ℕ) → 0 < 2 ^ j
two-pow_pos j = one-le-pow j 2 (omega arith)

half-pow : (x j : ℕ) → x / 2 ^ suc j ≡ (x / 2) / 2 ^ j
half-pow x j = rw (pow-succ' 2 j) (sym (div-div-eq-div-mul x 2 (2 ^ j)))

-- The remainder keeps the lowest digit and the remainder of the half.
rest-pow : (x j : ℕ) → x % 2 ^ suc j ≡ x % 2 + 2 * ((x / 2) % 2 ^ j)
rest-pow x j =
    let d = 2 ^ j in
    let k = (x / 2) / d in
    let r = (x / 2) % d in
    let whole : x ≡ 2 ^ suc j * k + (x % 2 + 2 * r) = omega (
      arith,
      pow-succ' 2 j,
      ap (λ (t : ℕ). t * k) (pow-succ' 2 j),
      mul_assoc 2 d k,
      div-add-mod (x / 2) d,
    ) in
    let small : x % 2 + 2 * r < 2 ^ suc j =
      omega (arith, pow-succ' 2 j, mod-lt (x / 2) (two-pow_pos j)) in
    ap (λ t. t % 2 ^ suc j) whole
    ∙ mul-add-mod_self_left (2 ^ suc j) k (x % 2 + 2 * r)
    ∙ mod-eq_of_lt small

-- `bm & (1 << bit)`
pub digit-mask : (p : ℕ → Bool) (n j : ℕ) → j < n → mask p n / 2 ^ j % 2 ≡ digit (p j)
digit-mask p zero j h = absurd (omega arith)
digit-mask p (suc n) zero h = omega (arith, mask-half p n)
digit-mask p (suc n) (suc j) h =
    rw (half-pow (mask p (suc n)) j, (mask-half p n).0)
      (digit-mask (λ j. p (suc j)) n j (omega arith))

-- `popcount(bm & ((1 << bit) - 1))`
pub popcount-mask :
    (m : ℕ) (p : ℕ → Bool) (n j : ℕ) → j ≤ n → j ≤ m → popcount m (mask p n % 2 ^ j) ≡ count_set p j
unfolding popcount count_set
popcount-mask m p n zero h k =
    let none_left : mask p n % 2 ^ 0 ≡ 0 = omega arith in
    ap (popcount m) none_left ∙ popcount-zero m
  where
    popcount-zero : (m : ℕ) → popcount m 0 ≡ 0
    popcount-zero zero = refl
    popcount-zero (suc m) = omega (arith, popcount-zero m)
popcount-mask zero p n (suc j) h k = absurd (omega arith)
popcount-mask (suc m) p zero (suc j) h k = absurd (omega arith)
popcount-mask (suc m) p (suc n) (suc j) h k =
    let x = mask p (suc n) in
    let low = rest-pow x j in
    let (half, bit) = mask-half p n in
    let a : x % 2 ^ suc j % 2 ≡ digit (p 0) = omega (arith, low, half, bit) in
    let b : x % 2 ^ suc j / 2 ≡ mask (λ j. p (suc j)) n % 2 ^ j =
      omega (arith, low, half, bit, ap (λ (z : ℕ). z % 2 ^ j) half) in
    rw (a, b)
      (ap (λ z. digit (p 0) + z) (popcount-mask m (λ j. p (suc j)) n j (omega arith) (omega arith)))

pub mask-lt : (p : ℕ → Bool) (n : ℕ) → mask p n < 2 ^ n
unfolding mask
mask-lt p zero = omega arith
mask-lt p (suc n) = omega (arith, pow-succ' 2 n, mask-lt (λ j. p (suc j)) n, digit-le (p 0))
  where
    digit-le : (b : Bool) → digit b ≤ 1
    digit-le true = omega arith
    digit-le false = omega arith

pub count_set_last : (p : ℕ → Bool) (n : ℕ) → count_set p (suc n) ≡ digit (p n) + count_set p n
unfolding count_set
count_set_last p zero = refl
count_set_last p (suc n) = omega (arith, count_set_last (λ j. p (suc j)) n)

pub popcount_all : (p : ℕ → Bool) → popcount 64 (mask p 64) ≡ count_set p 64
popcount_all p =
    ap (popcount 64) (sym (mod-eq_of_lt (mask-lt p 64)))
    ∙ popcount-mask 64 p 64 64 (omega arith) (omega arith)

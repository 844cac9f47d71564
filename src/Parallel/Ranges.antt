-- ===== src/Parallel/Ranges.antt =====
-- The ranges that `parallel_process` of src/parallel.c gives the workers divide the batch.
use plumbr_c.Prelude.{
  ◌↔◌, ℕ, suc, ◌+◌, ◌-◌, ◌*◌, ◌/◌, ◌%◌, ◌<◌, ◌≤◌, ◌≡◌, ap, ltb, if◌then◌else◌, arith, size_mod,
  add_size, sub_size,
}
use native.Mathlib.Nat.{mul_comm}
use plumbr_c.Parallel.{per_thread, range, start_idx, end_idx}

div_bounds : (a n : ℕ) → 0 < n → (n * (a / n) ≤ a) × (a < n * (a / n) + n)
div_bounds a n h = grind arith

per_thread-eq :
    (count n : ℕ) → 0 < n → count + n < size_mod → per_thread count n ≡ (count + n - 1) / n
unfolding per_thread
per_thread-eq count n h k =
    let e : sub_size (add_size count n) 1 ≡ count + n - 1 = omega arith in rw e

-- `n` ranges are enough for all lines, and not longer than a `size_t` can count.
per_thread_bounds :
    (count n : ℕ)
    → 0 < n
    → count + n < size_mod
    → (count ≤ n * per_thread count n) × (n * per_thread count n < count + n)
per_thread_bounds count n h k =
    let (b, c) = div_bounds (count + n - 1) n h in
    rw (per_thread-eq count n h k) (omega arith, omega arith)

mul_mono : (i n p : ℕ) → i ≤ n → i * p ≤ n * p
mul_mono i n p h = grind arith

per_thread_pos :
    (count n : ℕ) {j : ℕ} → count ≤ n * per_thread count n → j < count → 0 < per_thread count n
per_thread_pos count n h l = grind arith

block_lt : (j p n : ℕ) → j < n * p → j / p < n
block_lt j p n h = grind arith

same_block : (k l p j : ℕ) → k * p ≤ j → j < k * p + p → l * p ≤ j → j < l * p + p → k ≡ l
same_block k l p j a b c d = grind arith

-- Index `j` is one of worker `k`'s.
abbrev pub Owns : ℕ → ℕ → ℕ → ℕ → Type 0
Owns count n k j = (start_idx count n k ≤ j) × (j < end_idx count n k)

module _ (count n : ℕ) (pos : 0 < n) (small : count + n < size_mod) where
  -- No sum or product of the division wraps.
  start_no_wrap : (k : ℕ) → k < n → k * per_thread count n + per_thread count n < size_mod
  start_no_wrap k h =
      let (b, c) = per_thread_bounds count n pos small in
      let d = mul_mono (suc k) n (per_thread count n) h in
      let e : suc k * per_thread count n ≡ k * per_thread count n + per_thread count n =
        grind arith in
      omega arith

  range_lem :
      (k : ℕ)
      → k < n
      → range count n k ≡ (
        if ltb count (k * per_thread count n) then count else k * per_thread count n,
        if ltb count (k * per_thread count n + per_thread count n)
            then count
            else k * per_thread count n + per_thread count n,
      )
  unfolding range
  range_lem k h =
      let b = start_no_wrap k h in
      let e : k * per_thread count n % size_mod ≡ k * per_thread count n = omega arith in
      let f : add_size (k * per_thread count n) (per_thread count n)
          ≡ k * per_thread count n + per_thread count n =
        omega arith in
      rw (e, f)

  Owns-iff :
      (k j : ℕ)
      → k < n
      → j < count
      → Owns count n k j
        ↔ ((k * per_thread count n ≤ j) × (j < k * per_thread count n + per_thread count n))
  Owns-iff k j h l =
      let e = ap (λ (r : ℕ × ℕ). r.0) (range_lem k h) in
      let f = ap (λ (r : ℕ × ℕ). r.1) (range_lem k h) in ground (arith, e, f)

  pub start-le-end : (k : ℕ) → k < n → start_idx count n k ≤ end_idx count n k
  start-le-end k h =
      let e = ap (λ (r : ℕ × ℕ). r.0) (range_lem k h) in
      let f = ap (λ (r : ℕ × ℕ). r.1) (range_lem k h) in ground (arith, e, f)

  pub end-le-count : (k : ℕ) → k < n → end_idx count n k ≤ count
  end-le-count k h = let f = ap (λ (r : ℕ × ℕ). r.1) (range_lem k h) in ground (arith, f)

  -- Two ranges do not meet.
  pub Owns-unique : (k l j : ℕ) → k < n → l < n → Owns count n k j → Owns count n l j → k ≡ l
  Owns-unique k l j hk hl ok ol =
      let p = per_thread count n in
      let c = end-le-count k hk in
      let lt : j < count = omega arith in
      let (a, b) = (Owns-iff k j hk lt).0 ok in
      let (a', b') = (Owns-iff l j hl lt).0 ol in same_block k l p j a b a' b'

  -- The worker to whom an index belongs.
  pub owner : (j : ℕ) → j < count → (k : ℕ) × (k < n) × Owns count n k j
  owner j h =
      let p = per_thread count n in
      let (a, b) = per_thread_bounds count n pos small in
      let pp : 0 < p = per_thread_pos count n a h in
      let (c, d) = div_bounds j p pp in
      let lt = block_lt j p n (omega arith) in
      (
        j / p,
        lt,
        (Owns-iff (j / p) j lt h).1
            (omega (arith, mul_comm (j / p) p), omega (arith, mul_comm (j / p) p)),
      )

-- The ranges that `parallel_process` gives out hold each line of the batch exactly once, and no other
-- index, if the sum of the lines and the threads does not wrap.
ranges_partition :
    (count n : ℕ)
    → 0 < n
    → count + n < size_mod
    → (j : ℕ)
    → (j < count
        → (k : ℕ) × (k < n) × Owns count n k j × ((l : ℕ) → l < n → Owns count n l j → l ≡ k))
      × ((k : ℕ) → k < n → Owns count n k j → j < count)
ranges_partition count n pos small j = (
  λ h.
      let (k, lt, o) = owner count n pos small j h in
      (k, lt, o, λ l lt' o'. Owns-unique count n pos small l k j lt' lt o' o),
  λ k lt o. omega (arith, end-le-count count n pos small k lt),
)

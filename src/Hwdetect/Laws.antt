-- ===== src/Hwdetect/Laws.antt =====
-- The settings of src/hwdetect.c stay within their bounds.
use plumbr_c.Prelude.{
  inr, ◌∙◌, ltb→lt, inl, Bool-cases, arith, ℕ, zero, suc, ◌*◌, ◌^◌, ◌≤◌, ◌<◌, ◌≡◌,
}
use native.Mathlib.Nat.{one-le-pow, le-mul_of_pos_right}
use plumbr_c.Hwdetect.{
  ltb, Machine, Settings, power_loop, batch_target, batch_size, autotune_threads,
  get_optimal_threads,
}

batch_target-bounds : (m : Machine) → (256 ≤ batch_target m) × (batch_target m ≤ 16384)
unfolding batch_target
batch_target-bounds m = ground arith

doubled : (n k : ℕ) → n * 2 * 2 ^ k ≡ n * 2 ^ suc k
doubled n k = grind arith

power_loop-le : (fuel power optimal : ℕ) → power_loop fuel power optimal ≤ power * 2 ^ fuel
unfolding power_loop
power_loop-le zero power optimal = omega arith
power_loop-le (suc fuel) power optimal = elim (Bool-cases (ltb power optimal)) [
  | inl e ↦ rw e (omega (arith, power_loop-le fuel (power * 2) optimal, doubled power fuel))
  | inr e ↦ rw e (omega (arith, doubled power fuel, grown power fuel))
]
  where
    grown : (n k : ℕ) → n ≤ n * 2 ^ suc k
    grown n k = le-mul_of_pos_right n (one-le-pow (suc k) 2 (omega arith))

power_loop_lem :
    (fuel power optimal : ℕ)
    → power < 2 * optimal
    → optimal ≤ power * 2 ^ fuel
    → ((k : ℕ) × (power_loop fuel power optimal ≡ power * 2 ^ k))
      × (optimal ≤ power_loop fuel power optimal)
      × (power_loop fuel power optimal < 2 * optimal)
unfolding power_loop
power_loop_lem zero power optimal small enough = ((0, omega arith), omega (arith, enough), small)
power_loop_lem (suc fuel) power optimal small enough = elim (Bool-cases (ltb power optimal)) [
  | inl e ↦
      let lt = ltb→lt power optimal e in
      let ((k, p), lo, hi) =
        power_loop_lem fuel (power * 2) optimal (omega arith) (rw (doubled power fuel) enough) in
      rw e ((suc k, p ∙ doubled power k), lo, hi)
  | inr e ↦ rw e ((0, omega arith), ground arith, small)
]

-- `hwdetect_optimal_batch_size` is 256 times a power of two, between 256 and 16384: the target, which
-- lies between these bounds, rounded up to less than its double.
batch_size_lem :
    (m : Machine)
    → ((k : ℕ) × (batch_size m ≡ 256 * 2 ^ k))
      × (256 ≤ batch_size m)
      × (batch_size m ≤ 16384)
      × (batch_target m ≤ batch_size m)
      × (batch_size m < 2 * batch_target m)
unfolding batch_size
batch_size_lem m =
    let (lo, hi) = batch_target-bounds m in
    let (power, above, below) = power_loop_lem 6 256 (batch_target m) (omega arith) (omega arith) in
    (power, omega arith, power_loop-le 6 256 (batch_target m), above, below)

-- On a machine with a logical core, `hwdetect_autotune_threads` returns at least one thread, and no
-- more than there are logical cores or than the `max_useful_threads` that it sets; the number is the
-- one that `hwdetect_get_optimal_threads` gives from then on.
pub autotune_threads_lem :
    (m : Machine) (s : Settings)
    → 1 ≤ m.logical_cores
    → (1 ≤ (autotune_threads m s).1)
      × ((autotune_threads m s).1 ≤ m.logical_cores)
      × ((autotune_threads m s).1 ≤ (autotune_threads m s).0.max_useful_threads)
      × (get_optimal_threads (autotune_threads m s).0 ≡ (autotune_threads m s).1)
unfolding autotune_threads get_optimal_threads
autotune_threads_lem m s h = ground arith

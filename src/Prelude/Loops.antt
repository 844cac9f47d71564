-- ===== src/Prelude/Loops.antt =====
-- Counted loops.
use Prim.Native.Nat.{ℕ, zero, suc, ◌+◌, ◌≤◌, ◌<◌}
use mathlib.Core.Path.{subst}
use native.Mathlib.Omega.{arith}

-- A C `for` loop whose index starts at `start`: `body` takes the index and the loop's state.
module _ {ℓ} {S : Type ℓ} (body : ℕ → S → S) where
  unfoldable pub run_loop : ℕ → ℕ → S → S
  run_loop start zero state = state
  run_loop start (suc rounds) state = run_loop (start + 1) rounds (body start state)

  -- A property that each round keeps.
  pub run_loop-invariant {κ} :
      (P : ℕ → S → Type κ) (start rounds : ℕ) (state : S)
      → ((i : ℕ) (s : S) → start ≤ i → i < start + rounds → P i s → P (i + 1) (body i s))
      → P start state
      → P (start + rounds) (run_loop start rounds state)
  unfolding run_loop
  run_loop-invariant P start zero state keep p = subst (λ k. P k state) (omega arith) p
  run_loop-invariant P start (suc rounds) state keep p =
      subst (λ k. P k (run_loop (start + 1) rounds (body start state))) (omega arith)
        (run_loop-invariant P (start + 1) rounds (body start state)
          (λ i s a b. keep i s (omega arith) (omega arith))
          (keep start state (omega arith) (omega arith) p))

-- ===== src/Arena/Regions.antt =====
-- The regions that successive calls of `arena_alloc` hand out.
use plumbr_c.Prelude.{ℕ, ◌+◌, ◌^◌, ◌≤◌, ◌<◌, ◌≡◌, List, [], ◌∷◌, none, some, arith, All, inl, inr}
use plumbr_c.Arena.{Arena, alloc}
use plumbr_c.Arena.Laws.{IsValid, alloc-IsValid, alloc_lem}

-- The pointer and the size of each request that is granted, in order.
unfoldable pub regions : Arena → List ℕ → List (ℕ × ℕ)
regions a [] = []
regions a (n ∷ ns) =
    let (a', p) = alloc a n in
    let rest = regions a' ns in elim p [ none ↦ rest | some q ↦ (q, n) ∷ rest ]

-- Each region begins at or past the end of the one before, and ends before `hi`.
abbrev pub Disjoint : ℕ → ℕ → List (ℕ × ℕ) → Type 0
Disjoint lo hi [] = lo ≤ hi
Disjoint lo hi ((p, n) ∷ rs) = (lo ≤ p) × (p + n ≤ hi) × Disjoint (p + n) hi rs

Disjoint-weaken :
    (rs : List (ℕ × ℕ)) (lo lo' hi : ℕ) → lo ≤ lo' → Disjoint lo' hi rs → Disjoint lo hi rs
Disjoint-weaken [] lo lo' hi h d = omega arith
Disjoint-weaken ((p, n) ∷ rs) lo lo' hi h (a, b, c) = (omega arith, b, c)

base-alloc : (a : Arena) (n : ℕ) → ((alloc a n).0.base ≡ a.base) × ((alloc a n).0.size ≡ a.size)
unfolding alloc
base-alloc a n = ground arith

regions_granted :
    (a : Arena) (n : ℕ) (ns : List ℕ) {q : ℕ}
    → (alloc a n).1 ≡ some q
    → regions a (n ∷ ns) ≡ (q, n) ∷ regions (alloc a n).0 ns
unfolding regions
regions_granted a n ns p = ground arith

regions_refused :
    (a : Arena) (n : ℕ) (ns : List ℕ)
    → (alloc a n).1 ≡ none
    → regions a (n ∷ ns) ≡ regions (alloc a n).0 ns
unfolding regions
regions_refused a n ns p = ground arith

-- Whatever sizes are asked for, the regions that `arena_alloc` hands out are disjoint and lie
-- inside the arena, behind what was in use.
pub regions-Disjoint :
    (ns : List ℕ) (a : Arena)
    → IsValid a
    → All (λ n. n < 2 ^ 64) ns
    → Disjoint (a.base + a.used) (a.base + a.size) (regions a ns)
regions-Disjoint [] a v h = unfold regions in omega arith
regions-Disjoint (n ∷ ns) a v (h, hs) = elim (alloc_lem n v h) [
  | inl (p, same, _) ↦ rw (regions_refused a n ns p, same) (regions-Disjoint ns a v hs)
  | inr (p, past, _, fits, _) ↦
      let a' = (alloc a n).0 in
      let ih = regions-Disjoint ns a' (alloc-IsValid n v) hs in
      rw (regions_granted a n ns p) (
        omega arith,
        omega arith,
        Disjoint-weaken (regions a' ns) _ (a.base + a'.used) _ (omega arith)
            (rw ((base-alloc a n).0, (base-alloc a n).1) at ih),
      )
]

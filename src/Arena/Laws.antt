-- ===== src/Arena/Laws.antt =====
-- The invariant of an arena, and what each operation does to it.
use plumbr_c.Prelude.{
  ℕ, ◌+◌, ◌-◌, ◌%◌, ◌^◌, ◌≤◌, ◌<◌, ◌≡◌, ◌⊎◌, Option, none, some, arith, ltb, if◌then◌else◌,
}
use plumbr_c.Arena.{Arena, init, alloc, reset}

-- Nothing is handed out past the end, the mark is the most that was used, and what is free starts
-- at a multiple of eight.
pub record IsValid (a : Arena) : Type 0 where
  pub fits : a.used ≤ a.size
  pub mark : a.used ≤ a.high_water
  pub mark_fits : a.high_water ≤ a.size
  pub aligned : a.used % 8 ≡ 0
  pub sized : a.size < 2 ^ 64

pub init-IsValid :
    (mem : Option ℕ) (size : ℕ) {a : Arena} → size < 2 ^ 64 → init mem size ≡ some a → IsValid a
unfolding init
init-IsValid none size h e = ground arith
init-IsValid (some m) size h e = ground arith

-- Every allocation, granted or refused, keeps the invariant.
pub alloc-IsValid : {a : Arena} (n : ℕ) → IsValid a → IsValid (alloc a n).0
unfolding alloc
alloc-IsValid n v = ground arith

-- `arena_alloc` refuses exactly when the request rounded up to eight bytes does not fit, with no
-- wrap-around of the sums: it then changes nothing. Otherwise the pointer lies at the old `used`,
-- the request fits behind it inside the arena, `used` passes it and is again a multiple of eight.
pub alloc_lem :
    {a : Arena} (n : ℕ)
    → IsValid a
    → n < 2 ^ 64
    → let (a', p) = alloc a n in
      ((p ≡ none) × (a' ≡ a) × (a.size < a.used + (n + 7 - (n + 7) % 8)))
      ⊎ ((p ≡ some (a.base + a.used))
          × (a.used + n ≤ a'.used)
          × (a'.used ≡ a.used + (n + 7 - (n + 7) % 8))
          × (a'.used ≤ a.size)
          × (a'.used % 8 ≡ 0))
unfolding alloc
alloc_lem n v h = ground arith

-- `arena_reset` empties a valid arena and keeps the mark, and no byte that was handed out survives
-- it: every byte below the old `used` is zero, every other one is as before.
reset_lem :
    {a : Arena}
    → IsValid a
    → (i : ℕ)
    → let a' = reset a in
      IsValid a'
      × (a'.used ≡ 0)
      × (a'.high_water ≡ a.high_water)
      × (a'.cell i ≡ (if ltb i a.used then 0 else a.cell i))
unfolding reset
reset_lem v i = ground arith

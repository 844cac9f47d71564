-- ===== src/Arena.antt =====
-- src/arena.c: a bump allocator over one mapped region.
-- An address is a number and 0 is NULL. `cell` holds the byte at each offset from `base`.
pub mod Laws
pub mod Regions
mod Tests
use plumbr_c.Prelude.{
  ℕ, ◌+◌, ◌-◌, ◌%◌, ◌≡◌, Bool, true, false, not, ◌&&◌, Option, none, some, ltb, ◌==◌, if◌then◌else◌,
  add_size, sub_size, size_max,
}

pub record Arena : Type 0 where
  pub base : ℕ
  pub size : ℕ
  pub used : ℕ
  pub high_water : ℕ
  pub owns_memory : Bool
  pub cell : ℕ → ℕ

-- `mapped` is what `mmap` gives: `none` for MAP_FAILED, or the address of zeroed pages.
unfoldable pub init : Option ℕ → ℕ → Option Arena
init none size = none
init (some mem) size = some (record {
  base = mem;
  size = size;
  used = 0;
  high_water = 0;
  owns_memory = true;
  cell = λ _. 0;
})

-- `(size + 7) & ~7UL`, which clears the three low bits of the sum.
abbrev pub align : ℕ → ℕ
align size = let sum = add_size size 7 in sum - sum % 8

-- The arena after `used` has grown, `high_water` following it.
abbrev grow : Arena → ℕ → Arena
grow a used = record a {
  used = used;
  high_water = if ltb a.high_water used then used else a.high_water;
}

-- The new arena, and the pointer, `none` for NULL.
unfoldable pub alloc : Arena → ℕ → Arena × Option ℕ
alloc a size =
    if ltb (size_max - 7) size
    then (a, none)
    else if ltb (sub_size a.size a.used) (align size)
    then (a, none)
    else (grow a (add_size a.used (align size)), some (a.base + a.used))

-- `memset(base, 0, used)`
abbrev zeroed : ℕ → (ℕ → ℕ) → ℕ → ℕ
zeroed used cell i = if ltb i used then 0 else cell i

unfoldable pub reset : Arena → Arena
reset a = record a { used = 0; cell = if ltb 0 a.used then zeroed a.used a.cell else a.cell }

-- `arena_used`
unfoldable pub used : Arena → ℕ
used a = a.used

-- The new arena, and the region given to `munmap`, if any.
unfoldable pub destroy : Arena → Arena × Option (ℕ × ℕ)
destroy a = (
  record a { base = 0; size = 0; used = 0 },
  if a.owns_memory && not (a.base == 0) then some (a.base, a.size) else none,
)

-- ===== src/Arena/Tests.antt =====
-- Runs of the allocator, and the theorems at concrete arenas.
use plumbr_c.Prelude.{◌%◌, ◌≤◌, ◌<◌, ◌≡◌, refl, true, [], ◌∷◌, none, some, arith, ◌⊎◌}
use plumbr_c.Arena.{Arena, init, alloc, destroy, used}
use plumbr_c.Arena.Laws.{IsValid, init-IsValid, alloc_lem}
use plumbr_c.Arena.Regions.{regions, Disjoint, regions-Disjoint}

abbrev small : Arena
small = record {
  base = 4096;
  size = 64;
  used = 16;
  high_water = 24;
  owns_memory = true;
  cell = λ _. 7;
}

small-IsValid : IsValid small
small-IsValid = omega arith

runs : regions small (5 ∷ 100 ∷ 32 ∷ 1 ∷ []) ≡ (4112, 5) ∷ (4120, 32) ∷ (4152, 1) ∷ []
unfolding regions alloc
runs = refl

unmapped : (destroy small).1 ≡ some (4096, 64)
unfolding destroy
unmapped = refl

still_used : used small ≡ 16
unfolding used
still_used = refl

no_mapping : init none 64 ≡ none
unfolding init
no_mapping = refl

small_room-IsValid : IsValid (record small { used = 0; high_water = 0; cell = λ _. 0 })
unfolding init
small_room-IsValid = init-IsValid (some 4096) 64 (omega arith) refl

alloc_lem_example :
    let (a, p) = alloc small 5 in
    ((p ≡ none) × (a ≡ small) × (64 < 24))
    ⊎ ((p ≡ some 4112) × (21 ≤ a.used) × (a.used ≡ 24) × (a.used ≤ 64) × (a.used % 8 ≡ 0))
alloc_lem_example = alloc_lem 5 small-IsValid (omega arith)

regions-Disjoint_example : Disjoint 4112 4160 (regions small (5 ∷ 100 ∷ 32 ∷ 1 ∷ []))
regions-Disjoint_example =
    regions-Disjoint (5 ∷ 100 ∷ 32 ∷ 1 ∷ []) small small-IsValid (omega arith)

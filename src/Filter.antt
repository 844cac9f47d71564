-- ===== src/Filter.antt =====
-- src/amd/sse42_filter.c: the trigger filter in both builds, and the choice of the triggers.
-- `triggers` is the array's first `trigger_count` characters.
pub mod Laws
mod Tests
use plumbr_c.Prelude.{
  ℕ, zero, suc, ◌+◌, Bool, true, false, Bytes, List, [], ◌∷◌, ◌++◌, Option, none, some, ltb, leb,
  ◌==◌, if◌then◌else◌, ◌||◌, length, take, drop,
}
use plumbr_c.Automaton.{Automaton}
use plumbr_c.Automaton.Search.{root_transitions}

-- for (t = 0; t < trigger_count; t++) if (c == triggers[t]) return true;
unfoldable pub is_trigger : Bytes → ℕ → Bool
is_trigger [] c = false
is_trigger (t ∷ ts) c = (c == t) || is_trigger ts c

-- `sse42_has_triggers` without SSE 4.2.
unfoldable pub has_triggers_scalar : Bytes → Bytes → Bool
unfolding is_trigger
has_triggers_scalar triggers [] = false
has_triggers_scalar triggers (c ∷ cs) = is_trigger triggers c || has_triggers_scalar triggers cs

-- `cmpestri` is `_mm_cmpestri` in the mode for "equal any": the index of the first byte of the block
-- that is in the set, or 16.
module _ (cmpestri : Bytes → Bytes → ℕ) where
  -- The remaining bytes, fewer than 16.
  unfoldable pub scan_tail : Bytes → Bytes → Bool
  scan_tail triggers line =
      if ltb 0 (length line) then ltb (cmpestri triggers line) (length line) else false

  -- The loop over the blocks of 16 bytes, for at most `fuel` blocks, and the remaining bytes.
  unfoldable pub scan_blocks : ℕ → Bytes → Bytes → Bool
  unfolding scan_tail
  scan_blocks zero triggers line = scan_tail triggers line
  scan_blocks (suc fuel) triggers line =
      let rest = scan_blocks fuel triggers (drop 16 line) in
      if leb 16 (length line)
      then (if ltb (cmpestri triggers (take 16 line)) 16 then true else rest)
      else scan_tail triggers line

  -- `sse42_has_triggers` with SSE 4.2.
  unfoldable pub has_triggers : Bytes → Bytes → Bool
  unfolding scan_blocks
  has_triggers triggers line =
      if (length triggers == 0) || (length line == 0)
      then false
      else scan_blocks (length line) (take 16 triggers) line

-- The loop of `sse42_build_triggers` from `c` on, over the `n` characters left, with `count` found.
unfoldable pub collect : (ℕ → ℕ) → ℕ → ℕ → ℕ → ℕ → Bytes
collect row max_triggers zero c count = []
collect row max_triggers (suc n) c count =
    let skip = collect row max_triggers n (c + 1) count in
    let keep = c ∷ collect row max_triggers n (c + 1) (count + 1) in
    if ltb count max_triggers then (if row c == 0 then skip else keep) else []

-- `sse42_build_triggers`: the triggers that it counts, without the padding.
unfoldable pub build_triggers : Option Automaton → ℕ → Bytes
unfolding collect root_transitions
build_triggers ac max_triggers = elim (root_transitions ac) [
  | none ↦ []
  | some row ↦ collect row max_triggers 256 0 0
]

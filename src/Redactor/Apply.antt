-- ===== src/Redactor/Apply.antt =====
-- `redactor_apply`: sort, merge overlaps, build the output.
pub mod Merge
pub mod Splice
pub mod Survivors
pub mod Laws
pub mod Bound
use plumbr_c.Prelude.{
  ℕ, zero, suc, ◌+◌, ◌-◌, ◌≤◌, Bool, true, false, Bytes, List, [], ◌∷◌, ◌++◌, Option, none, some,
  ltb, leb, ◌==◌, if◌then◌else◌, ◌&&◌, length, slice, sub_size, add_size, drop,
}
use plumbr_c.Pattern.{Pattern, PatternSet, get}
use plumbr_c.Redactor.{MatchLocation, Output, rewritten, Redactor}

-- `if (curr->end > prev->end) prev->end = curr->end`
unfoldable pub extend : MatchLocation → MatchLocation → MatchLocation
extend prev curr = if ltb prev.end curr.end then record prev { end = curr.end } else prev

-- The merge loop of `redactor_apply`: `prev` is `verified[merged_count - 1]`.
unfoldable pub merge_from : MatchLocation → List MatchLocation → List MatchLocation
unfolding extend
merge_from prev [] = prev ∷ []
merge_from prev (curr ∷ rest) =
    let joined = merge_from (extend prev curr) rest in
    let apart = prev ∷ merge_from curr rest in if ltb curr.start prev.end then joined else apart

unfoldable pub merge : List MatchLocation → List MatchLocation
unfolding merge_from
merge [] = []
merge (m ∷ ms) = merge_from m ms

-- The output while it is built: the bytes written, whose number is `out_pos`, and `in_pos`.
pub record Build : Type 0 where
  pub out : Bytes
  pub in_pos : ℕ

-- `patterns_get(...)->replacement`, empty where the pattern is NULL.
unfoldable pub replacement_of : {Code : Type 0} → PatternSet Code → ℕ → Bytes
unfolding get
replacement_of ps id = elim (get ps id) [ none ↦ [] | some p ↦ p.replacement ]

-- A `memcpy` of `n` bytes behind the output, skipped where `n` is 0; `none` is the `break` where the
-- sum, which wraps as a `size_t`, does not lie below the capacity.
unfoldable pub put : ℕ → Bytes → ℕ → Bytes → Option Bytes
put capacity out n chunk =
    if n == 0
    then some out
    else if leb capacity (add_size (length out) n)
    then none
    else some (out ++ chunk)

module _ (replacement : ℕ → Bytes) (line : Bytes) (capacity : ℕ) where
  -- One round of the output loop: the new output, and false for `break`.
  unfoldable pub emit : MatchLocation → Build → Build × Bool
  unfolding put
  emit m b =
      let before_len = sub_size m.start b.in_pos in
      let rep = replacement m.pattern_id in
      elim (put capacity b.out before_len (slice b.in_pos before_len line)) [
        | none ↦ (b, false)
        | some out1 ↦ elim (put capacity out1 (length rep) rep) [
          | none ↦ (record b { out = out1 }, false)
          | some out2 ↦ (record { out = out2; in_pos = m.end }, true)
        ]
      ]

  unfoldable pub emit_all : List MatchLocation → Build → Build
  unfolding emit
  emit_all [] b = b
  emit_all (m ∷ ms) b =
      let (b', go_on) = emit m b in let rest = emit_all ms b' in if go_on then rest else b'

  -- The rest of the line behind the last match, and the terminator.
  unfoldable pub finish : Build → Output
  finish b =
      let remaining = sub_size (length line) b.in_pos in
      let out =
        if ltb 0 remaining && leb (add_size (length b.out) remaining) capacity
        then b.out ++ slice b.in_pos remaining line
        else b.out in
      rewritten out (length out)

-- `redactor_apply`; `sort` is `qsort` with `match_compare`.
unfoldable pub apply :
    {Code : Type 0}
    → (List MatchLocation → List MatchLocation)
    → Redactor Code
    → Bytes
    → List MatchLocation
    → Redactor Code × Output
unfolding merge emit_all finish replacement_of
apply sort r line verified =
    let replacement = replacement_of r.patterns in
    let b =
      emit_all replacement line r.output_capacity (merge (sort verified))
        (record { out = []; in_pos = 0 }) in
    (
      record r { lines_modified = r.lines_modified + 1 },
      finish replacement line r.output_capacity b,
    )

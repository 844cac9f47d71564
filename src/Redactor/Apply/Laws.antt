-- ===== src/Redactor/Apply/Laws.antt =====
-- `redactor_apply` as a whole.
use plumbr_c.Prelude.{
  none, some, ℕ, ◌+◌, ◌-◌, ◌≤◌, ◌<◌, ◌≡◌, ◌^◌, refl, sym, ◌∙◌, ap, Bool, not, Bytes, List, [], ◌∷◌,
  ◌++◌, ltb, if◌then◌else◌, arith, length, slice, take, sub_size, length-append, length-slice,
}
use plumbr_c.Redactor.{MatchLocation, Output, unchanged, rewritten, Redactor}
use plumbr_c.Redactor.Apply.{Build, put, emit_all, finish, merge, apply, replacement_of}
use plumbr_c.Redactor.Apply.Merge.{
  covered, SortedFrom, contains, valid, merge-Disjoint, covered-merge,
}
use plumbr_c.Redactor.Apply.Splice.{splice, emit_all_fits, put_fits, emit_all_break, finish_fits}
use plumbr_c.Redactor.Apply.Survivors.{uncovered, uncovered_ext, splice-eq-uncovered}

-- How many of the matches pass a test.
unfoldable pub count : (MatchLocation → Bool) → List MatchLocation → ℕ
count test [] = 0
count test (m ∷ ms) = (if test m then 1 else 0) + count test ms

abbrev pub OrderedFrom : ℕ → List MatchLocation → Type 0
OrderedFrom lo [] = Unit {0}
OrderedFrom lo (m ∷ ms) = (lo ≤ m.start) × OrderedFrom m.start ms

-- What `qsort` with `match_compare` promises: the same entries, in the order of their starts.
pub record IsSort (sort : List MatchLocation → List MatchLocation) : Type 0 where
  pub ordered : (ms : List MatchLocation) → OrderedFrom 0 (sort ms)
  pub permutes :
      (test : MatchLocation → Bool) (ms : List MatchLocation) → count test (sort ms) ≡ count test ms

-- Every match lies in the line and does not end before it begins.
abbrev pub AllValid : ℕ → List MatchLocation → Type 0
AllValid len ms = count (λ m. not (valid len m)) ms ≡ 0

sorted_of_ordered :
    (len lo : ℕ) (ms : List MatchLocation)
    → OrderedFrom lo ms
    → AllValid len ms
    → SortedFrom len lo ms
unfolding count
sorted_of_ordered len lo [] o v = tt
sorted_of_ordered len lo (m ∷ ms) (a, b) v =
    (a, ground arith, ground arith, sorted_of_ordered len m.start ms b (ground arith))

covered-eq-count : (ms : List MatchLocation) (p : ℕ) → covered ms p ≡ ltb 0 (count (contains p) ms)
unfolding covered count
covered-eq-count [] p = refl
covered-eq-count (m ∷ ms) p = ground (arith, covered-eq-count ms p)

zero_lt : (n k : ℕ) → n < k → 0 + n < k
zero_lt n k h = omega arith

module _ {sort : List MatchLocation → List MatchLocation} (is_sort : IsSort sort) where
  sorted : (len : ℕ) (ms : List MatchLocation) → AllValid len ms → SortedFrom len 0 (sort ms)
  sorted len ms v =
      sorted_of_ordered len 0 (sort ms) (is_sort.ordered ms)
        (is_sort.permutes (λ m. not (valid len m)) ms ∙ v)

  covered-sort : (ms : List MatchLocation) (p : ℕ) → covered (sort ms) p ≡ covered ms p
  covered-sort ms p =
      covered-eq-count (sort ms) p
      ∙ rw (is_sort.permutes (contains p) ms) (sym (covered-eq-count ms p))

  -- For matches that lie in the line, and an output that stays below the capacity, a `size_t`,
  -- `redactor_apply` returns the line with each merged match replaced by its pattern's replacement;
  -- and with empty replacements the same splice is exactly the bytes of the line that lie in no
  -- match.
  pub apply_fits :
      {Code : Type 0} (r : Redactor Code) (line : Bytes) (ms : List MatchLocation)
      → r.output_capacity < 2 ^ 64
      → length line < 2 ^ 64
      → AllValid (length line) ms
      → length (splice (replacement_of r.patterns) line 0 (merge (sort ms))) < r.output_capacity
      → let out = splice (replacement_of r.patterns) line 0 (merge (sort ms)) in
        ((apply sort r line ms).1 ≡ rewritten out (length out))
        × (splice (λ _. []) line 0 (merge (sort ms)) ≡ uncovered ms 0 line)
  unfolding apply
  apply_fits r line ms wide small v room =
      let s = sorted (length line) ms v in
      let d = merge-Disjoint (length line) (sort ms) s in
      (
        emit_all_fits (replacement_of r.patterns) line r.output_capacity wide small
            (merge (sort ms)) [] 0 (omega arith) d (zero_lt _ _ room),
        splice-eq-uncovered line (merge (sort ms)) 0 d
            ∙ uncovered_ext (merge (sort ms)) ms line 0
                (λ q i. covered-merge (length line) (sort ms) q s ∙ covered-sort ms q),
      )

-- The index of the terminator, on every path.
abbrev pub nul_index : Output → ℕ
nul_index (unchanged line) = 0
nul_index (rewritten out n) = n

abbrev pub output_bytes : Output → Bytes
output_bytes (unchanged line) = line
output_bytes (rewritten out n) = out

-- For a capacity and a line that a `size_t` measures: the buffer has `output_capacity` bytes, yet
-- where the rest of the line fills it exactly the terminator goes to the index `output_capacity`,
-- one past its end.
pub finish_one_past :
    (replacement : ℕ → Bytes) (line : Bytes) (capacity : ℕ) (b : Build)
    → capacity < 2 ^ 64
    → length line < 2 ^ 64
    → b.in_pos < length line
    → length b.out + (length line - b.in_pos) ≡ capacity
    → nul_index (finish replacement line capacity b) ≡ capacity
unfolding finish
finish_one_past replacement line capacity b wide small h e = ground (
  arith,
  length-append b.out (slice b.in_pos (sub_size (length line) b.in_pos) line),
  length-slice b.in_pos (length line - b.in_pos) line,
)

put_full :
    (capacity : ℕ) (out chunk : Bytes)
    → length out + length chunk < 2 ^ 64
    → 0 < length chunk
    → capacity ≤ length out + length chunk
    → put capacity out (length chunk) chunk ≡ none
unfolding put
put_full capacity out chunk w h k = ground arith

-- Where the sizes do not wrap, the text before the first match is not empty and fits, and its
-- replacement does not fit, the loop stops with `in_pos` before the match: if the line still fits
-- behind that text it is copied whole, so the output holds the text before the match twice and the
-- match itself in clear.
pub apply_leaks :
    (replacement : ℕ → Bytes) (line : Bytes) (capacity : ℕ) (m : MatchLocation)
    (ms : List MatchLocation)
    → capacity + length (replacement m.pattern_id) < 2 ^ 64
    → length line < 2 ^ 64
    → 0 < m.start
    → m.start ≤ length line
    → m.start < capacity
    → 0 < length (replacement m.pattern_id)
    → capacity ≤ m.start + length (replacement m.pattern_id)
    → m.start + length line ≤ capacity
    → output_bytes (
        finish replacement line capacity
          (emit_all replacement line capacity (m ∷ ms) (record { out = []; in_pos = 0 })))
      ≡ take m.start line ++ line
apply_leaks replacement line capacity m ms wide small pos inside fits some_rep full room =
    let text = slice 0 m.start line in
    let rep = replacement m.pattern_id in
    let len : length text ≡ m.start = length-slice 0 m.start line (omega arith) in
    let zero : sub_size m.start 0 ≡ m.start = omega arith in
    let first : put capacity [] (sub_size m.start 0) (slice 0 (sub_size m.start 0) line)
        ≡ some text =
      rw zero (put_fits capacity [] text m.start (omega arith) (sym len) (omega arith)) in
    let second = put_full capacity text rep (omega arith) some_rep (omega arith) in
    rw (emit_all_break replacement line capacity m ms [] 0 text first second) (
      ap output_bytes (
        finish_fits replacement line capacity text 0 (omega arith) small (omega arith)
          (omega arith)))

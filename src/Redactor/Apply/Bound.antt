-- ===== src/Redactor/Apply/Bound.antt =====
-- `redactor_apply` writes nothing behind its buffer but the terminator.
use plumbr_c.Prelude.{
  Bool-cases, true, inr, inl, Option-cases, ℕ, ◌+◌, ◌≤◌, ◌<◌, ◌≡◌, ◌^◌, refl, ◌∙◌, not, sym, subst,
  Bytes, List, [], ◌∷◌, leb, ◌&&◌, arith, length, slice, drop, take, sub_size, length-append,
  dec_lt, Bool, length-take,
}
use plumbr_c.Redactor.{MatchLocation, Redactor}
use plumbr_c.Redactor.Apply.{
  Build, put, emit, emit_all, finish, extend, merge_from, merge, apply, replacement_of,
}
use plumbr_c.Redactor.Apply.Merge.{merge_over, merge_apart}
use plumbr_c.Redactor.Apply.Splice.{put_bound, emit_stop, emit_break, emit_through}
use plumbr_c.Redactor.Apply.Laws.{count, IsSort, nul_index, output_bytes}

-- Both ends lie in a line of `len` bytes, in either order.
abbrev pub inside : ℕ → MatchLocation → Bool
inside len m = leb m.start len && leb m.end len

abbrev pub Inside : ℕ → List MatchLocation → Type 0
Inside len ms = count (λ m. not (inside len m)) ms ≡ 0

-- Matches inside the line, each of which begins at or behind the end of the one before.
abbrev Chained : ℕ → ℕ → List MatchLocation → Type 0
Chained len lo [] = Unit {0}
Chained len lo (m ∷ ms) = (lo ≤ m.start) × (m.start ≤ len) × (m.end ≤ len) × Chained len m.end ms

extend-inside :
    (len : ℕ) (prev m : MatchLocation)
    → prev.end ≤ len
    → m.end ≤ len
    → ((extend prev m).start ≡ prev.start) × ((extend prev m).end ≤ len)
unfolding extend
extend-inside len prev m h k = ground arith

merge_from-Chained :
    (len lo : ℕ) (ms : List MatchLocation) (prev : MatchLocation)
    → lo ≤ prev.start
    → prev.start ≤ len
    → prev.end ≤ len
    → Inside len ms
    → Chained len lo (merge_from prev ms)
unfolding count
merge_from-Chained len lo [] prev h k e i = unfold merge_from in (h, k, e, tt)
merge_from-Chained len lo (m ∷ ms) prev h k e i =
    let ends : (m.start ≤ len) × (m.end ≤ len) × Inside len ms = ground arith in
    elim (dec_lt m.start prev.end) [
      | yes over ↦
          let (same, low) = extend-inside len prev m e ends.1 in
          rw (merge_over prev m ms over)
            (merge_from-Chained len lo ms (extend prev m) (omega arith) (omega arith) low ends.2)
      | no apart ↦
          rw (merge_apart prev m ms (omega arith))
            (h, k, e, merge_from-Chained len prev.end ms m (omega arith) ends.0 ends.1 ends.2)
    ]

merge-Chained : (len : ℕ) (ms : List MatchLocation) → Inside len ms → Chained len 0 (merge ms)
unfolding merge count
merge-Chained len [] i = tt
merge-Chained len (m ∷ ms) i =
    let ends : (m.start ≤ len) × (m.end ≤ len) × Inside len ms = ground arith in
    merge_from-Chained len 0 ms m (omega arith) ends.0 ends.1 ends.2

length-take_le : (n : ℕ) (xs : Bytes) → length (take n xs) ≤ n
length-take_le n xs = omega (arith, length-take n xs)

module _ (replacement : ℕ → Bytes) (line : Bytes) (capacity : ℕ)
    (line_small : capacity + length line < 2 ^ 64)
    (rep_small : (id : ℕ) → capacity + length (replacement id) < 2 ^ 64) where
  -- The output fits, and the input position lies in the line.
  abbrev Fits : Build → Type 0
  Fits b = (length b.out ≤ capacity) × (b.in_pos ≤ length line)

  -- What a round keeps, and where it leaves off if the loop goes on.
  abbrev Kept : MatchLocation → Build × Bool → Type 0
  Kept m r = Fits r.0 × ((r.1 ≡ true) → r.0.in_pos ≡ m.end)

  emit_bound :
      (m : MatchLocation) (b : Build)
      → Fits b
      → b.in_pos ≤ m.start
      → m.start ≤ length line
      → m.end ≤ length line
      → Kept m (emit replacement line capacity m b)
  emit_bound m b (h, i) lo hi e =
      let n = sub_size m.start b.in_pos in
      let text = slice b.in_pos n line in
      let rep = replacement m.pattern_id in
      let small : capacity + n < 2 ^ 64 = omega (arith, line_small) in
      elim (Option-cases (put capacity b.out n text)) [
        | inl p ↦
            subst (Kept m) (sym (emit_stop replacement line capacity m b.out b.in_pos p))
              ((h, i), λ c. cc)
        | inr (out1, p) ↦
            let k =
              put_bound capacity b.out text n (length-take_le n (drop b.in_pos line)) small h p in
            elim (Option-cases (put capacity out1 (length rep) rep)) [
              | inl q ↦
                  subst (Kept m) (sym (emit_break replacement line capacity m b.out b.in_pos p q))
                    ((k, i), λ c. cc)
              | inr (out2, q) ↦
                  let l =
                    put_bound capacity out1 rep (length rep) (omega arith) (rep_small m.pattern_id)
                      k q in
                  subst (Kept m) (sym (emit_through replacement line capacity m b.out b.in_pos p q))
                    ((l, e), λ c. refl)
            ]
      ]

  emit_all_bound :
      (ms : List MatchLocation) (b : Build)
      → Fits b
      → Chained (length line) b.in_pos ms
      → Fits (emit_all replacement line capacity ms b)
  unfolding emit_all
  emit_all_bound [] b h c = h
  emit_all_bound (m ∷ ms) b h (lo, hi, e, c) =
      let (k, next) = emit_bound m b h lo hi e in
      elim (Bool-cases (emit replacement line capacity m b).1) [
        | inl go ↦
            rw go (emit_all_bound ms (emit replacement line capacity m b).0 k (rw (next go) c))
        | inr stop ↦ rw stop k
      ]

  finish_bound :
      (b : Build)
      → Fits b
      → (nul_index (finish replacement line capacity b) ≤ capacity)
        × (nul_index (finish replacement line capacity b)
            ≡ length (output_bytes (finish replacement line capacity b)))
  unfolding finish
  finish_bound b (h, i) =
      let n = sub_size (length line) b.in_pos in
      let small : capacity + n < 2 ^ 64 = omega (arith, line_small) in
      ground
        (arith, length-append b.out (slice b.in_pos n line), length-take_le n (drop b.in_pos line))

-- For matches with both ends in the line, even if they overlap or end before they begin, and
-- whatever does not fit, no more than `output_capacity` bytes are written in front of the
-- terminator, which stands right behind them, although the sums that are tested against the
-- capacity wrap: for a sort as `qsort` promises it, if the capacity plus the length of the line, and
-- plus the length of each replacement, is below 2 ^ 64.
pub apply_bound :
    {Code : Type 0} {sort : List MatchLocation → List MatchLocation} (r : Redactor Code)
    (line : Bytes) (ms : List MatchLocation)
    → IsSort sort
    → r.output_capacity + length line < 2 ^ 64
    → ((id : ℕ) → r.output_capacity + length (replacement_of r.patterns id) < 2 ^ 64)
    → Inside (length line) ms
    → (nul_index (apply sort r line ms).1 ≤ r.output_capacity)
      × (nul_index (apply sort r line ms).1 ≡ length (output_bytes (apply sort r line ms).1))
unfolding apply
apply_bound {sort = sort} r line ms is_sort line_small rep_small i =
    let rep = replacement_of r.patterns in
    let len = length line in
    let sorted : Inside len (sort ms) = is_sort.permutes (λ m. not (inside len m)) ms ∙ i in
    finish_bound rep line r.output_capacity line_small rep_small _ (
      emit_all_bound rep line r.output_capacity line_small rep_small (merge (sort ms))
        (record { out = []; in_pos = 0 }) (omega arith, omega arith)
        (merge-Chained len (sort ms) sorted))

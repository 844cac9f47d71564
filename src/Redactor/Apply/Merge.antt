-- ===== src/Redactor/Apply/Merge.antt =====
-- The merge of sorted matches: disjoint, in order, and over the same bytes.
use plumbr_c.Prelude.{
  ◌∙◌, dec_lt, ◌⊎◌, lt→ltb, le→ltb_false, ℕ, ◌≤◌, ◌<◌, ◌≡◌, refl, Bool, false, ◌&&◌, ◌||◌, List, [],
  ◌∷◌, ltb, leb, arith,
}
use plumbr_c.Redactor.{MatchLocation}
use plumbr_c.Redactor.Apply.{extend, merge_from, merge}

-- The byte at index `p` lies in a match.
abbrev pub contains : ℕ → MatchLocation → Bool
contains p m = leb m.start p && ltb p m.end

unfoldable pub covered : List MatchLocation → ℕ → Bool
covered [] p = false
covered (m ∷ ms) p = contains p m || covered ms p

-- A match as the code accepts it, that does not end before it begins.
abbrev pub valid : ℕ → MatchLocation → Bool
valid len m = leb m.start m.end && leb m.end len

-- Sorted by start from `lo` on, every match valid.
abbrev pub SortedFrom : ℕ → ℕ → List MatchLocation → Type 0
SortedFrom len lo [] = Unit {0}
SortedFrom len lo (m ∷ ms) =
    (lo ≤ m.start) × (m.start ≤ m.end) × (m.end ≤ len) × SortedFrom len m.start ms

-- Each match begins at or behind the end of the one before, from `lo` on.
abbrev pub DisjointFrom : ℕ → ℕ → List MatchLocation → Type 0
DisjointFrom len lo [] = Unit {0}
DisjointFrom len lo (m ∷ ms) =
    (lo ≤ m.start) × (m.start ≤ m.end) × (m.end ≤ len) × DisjointFrom len m.end ms

extend_lem :
    (prev m : MatchLocation)
    → ((extend prev m).start ≡ prev.start)
      × (prev.end ≤ (extend prev m).end)
      × (m.end ≤ (extend prev m).end)
      × (((extend prev m).end ≡ prev.end) ⊎ ((extend prev m).end ≡ m.end))
unfolding extend
extend_lem prev m = ground arith

SortedFrom-weaken :
    (len lo lo' : ℕ) (ms : List MatchLocation)
    → lo ≤ lo'
    → SortedFrom len lo' ms
    → SortedFrom len lo ms
SortedFrom-weaken len lo lo' [] h s = tt
SortedFrom-weaken len lo lo' (m ∷ ms) h (a, b, c, d) = (omega arith, b, c, d)

pub merge_over :
    (prev m : MatchLocation) (ms : List MatchLocation)
    → m.start < prev.end
    → merge_from prev (m ∷ ms) ≡ merge_from (extend prev m) ms
unfolding merge_from
merge_over prev m ms h = rw (lt→ltb m.start prev.end h)

pub merge_apart :
    (prev m : MatchLocation) (ms : List MatchLocation)
    → prev.end ≤ m.start
    → merge_from prev (m ∷ ms) ≡ prev ∷ merge_from m ms
unfolding merge_from
merge_apart prev m ms h = rw (le→ltb_false m.start prev.end h)

merge_from-Disjoint :
    (len lo : ℕ) (ms : List MatchLocation) (prev : MatchLocation)
    → lo ≤ prev.start
    → prev.start ≤ prev.end
    → prev.end ≤ len
    → SortedFrom len prev.start ms
    → DisjointFrom len lo (merge_from prev ms)
merge_from-Disjoint len lo [] prev h k e s = unfold merge_from in (h, k, e, tt)
merge_from-Disjoint len lo (m ∷ ms) prev h k e (a, b, c, d) = elim (dec_lt m.start prev.end) [
  | yes over ↦
      let (same, more, more', _) = extend_lem prev m in
      let low = SortedFrom-weaken len (extend prev m).start m.start ms (omega arith) d in
      rw (merge_over prev m ms over) (
        merge_from-Disjoint len lo ms (extend prev m) (omega arith) (omega arith)
          (omega (arith, extend_lem prev m)) low)
  | no apart ↦
      rw (merge_apart prev m ms (omega arith))
        (h, k, e, merge_from-Disjoint len prev.end ms m (omega arith) b c d)
]

contains-extend :
    (p : ℕ) (prev m : MatchLocation)
    → prev.start ≤ m.start
    → m.start < prev.end
    → contains p (extend prev m) ≡ (contains p prev || contains p m)
unfolding extend
contains-extend p prev m a over = ground arith

covered-merge_from :
    (len : ℕ) (ms : List MatchLocation) (prev : MatchLocation) (p : ℕ)
    → SortedFrom len prev.start ms
    → covered (merge_from prev ms) p ≡ covered (prev ∷ ms) p
unfolding covered
covered-merge_from len [] prev p s = unfold merge_from in refl
covered-merge_from len (m ∷ ms) prev p (a, b, c, d) = elim (dec_lt m.start prev.end) [
  | yes over ↦
      let low =
        SortedFrom-weaken len (extend prev m).start m.start ms
          (omega (arith, (extend_lem prev m).0)) d in
      rw (merge_over prev m ms over) (
        covered-merge_from len ms (extend prev m) p low
        ∙ ground (arith, contains-extend p prev m a over))
  | no apart ↦
      rw (merge_apart prev m ms (omega arith)) (ground (arith, covered-merge_from len ms m p d))
]

pub merge-Disjoint :
    (len : ℕ) (ms : List MatchLocation) → SortedFrom len 0 ms → DisjointFrom len 0 (merge ms)
unfolding merge
merge-Disjoint len [] s = tt
merge-Disjoint len (m ∷ ms) (a, b, c, d) = merge_from-Disjoint len 0 ms m a b c d

pub covered-merge :
    (len : ℕ) (ms : List MatchLocation) (p : ℕ)
    → SortedFrom len 0 ms
    → covered (merge ms) p ≡ covered ms p
unfolding merge
covered-merge len [] p s = refl
covered-merge len (m ∷ ms) p (a, b, c, d) = covered-merge_from len ms m p d

-- For matches that are sorted by start, none of which ends before it begins or behind the line of
-- `len` bytes, the merge loop makes matches in that line that are in order and do not overlap, and
-- that cover exactly the bytes which the matches cover.
pub merge_lem :
    (len : ℕ) (ms : List MatchLocation)
    → SortedFrom len 0 ms
    → DisjointFrom len 0 (merge ms) × ((p : ℕ) → covered (merge ms) p ≡ covered ms p)
merge_lem len ms s = (merge-Disjoint len ms s, λ p. covered-merge len ms p s)

-- ===== src/Redactor/Tests.antt =====
-- Lines rewritten by `redactor_apply`, and the theorems at concrete matches.
use plumbr_c.Prelude.{
  ◌^◌, ◌<◌, ◌+◌, ℕ, ◌≤◌, ◌≡◌, refl, Bool, true, false, Bytes, List, [], ◌∷◌, none, leb,
  if◌then◌else◌, arith, length, codes, ◌∙◌, Bool-cases, inl, inr,
}
use Prim.Native.String.{String}
use plumbr_c.Pattern.{Pattern, PatternSet}
use plumbr_c.Redactor.{MatchLocation, rewritten, Redactor}
use plumbr_c.Redactor.Apply.{emit_all, finish, merge, apply, replacement_of}
use plumbr_c.Redactor.Apply.Merge.{covered, DisjointFrom, merge_lem}
use plumbr_c.Redactor.Apply.Splice.{splice}
use plumbr_c.Redactor.Apply.Survivors.{uncovered}
use plumbr_c.Redactor.Apply.Bound.{apply_bound, Inside}
use plumbr_c.Redactor.Apply.Laws.{
  count, OrderedFrom, IsSort, apply_fits, finish_one_past, apply_leaks, nul_index, output_bytes,
}

-- An insertion sort in place of `qsort`.
insert : MatchLocation → List MatchLocation → List MatchLocation
insert m [] = m ∷ []
insert m (n ∷ ns) = if leb m.start n.start then m ∷ (n ∷ ns) else n ∷ insert m ns

sort : List MatchLocation → List MatchLocation
unfolding insert
sort [] = []
sort (m ∷ ms) = insert m (sort ms)

insert-OrderedFrom :
    (lo : ℕ) (m : MatchLocation) (ns : List MatchLocation)
    → lo ≤ m.start
    → OrderedFrom lo ns
    → OrderedFrom lo (insert m ns)
unfolding insert
insert-OrderedFrom lo m [] h o = (h, tt)
insert-OrderedFrom lo m (n ∷ ns) h (a, b) = elim (Bool-cases (leb m.start n.start)) [
  | inl e ↦ rw e (h, (ground arith, b))
  | inr e ↦ rw e (a, insert-OrderedFrom n.start m ns (ground arith) b)
]

sort-OrderedFrom : (ms : List MatchLocation) → OrderedFrom 0 (sort ms)
unfolding sort
sort-OrderedFrom [] = tt
sort-OrderedFrom (m ∷ ms) = insert-OrderedFrom 0 m (sort ms) (omega arith) (sort-OrderedFrom ms)

count-insert :
    (test : MatchLocation → Bool) (m : MatchLocation) (ns : List MatchLocation)
    → count test (insert m ns) ≡ count test (m ∷ ns)
unfolding insert count
count-insert test m [] = refl
count-insert test m (n ∷ ns) = ground (arith, count-insert test m ns)

count-cons :
    (test : MatchLocation → Bool) (m : MatchLocation) (ns ms : List MatchLocation)
    → count test ns ≡ count test ms
    → count test (m ∷ ns) ≡ count test (m ∷ ms)
unfolding count
count-cons test m ns ms e = omega (arith, e)

count-sort :
    (test : MatchLocation → Bool) (ms : List MatchLocation) → count test (sort ms) ≡ count test ms
unfolding sort
count-sort test [] = refl
count-sort test (m ∷ ms) =
    count-insert test m (sort ms) ∙ count-cons test m (sort ms) ms (count-sort test ms)

sort-IsSort : IsSort sort
sort-IsSort = record { ordered = sort-OrderedFrom; permutes = count-sort }

abbrev pattern_named : String → ℕ → Pattern (Unit {0})
pattern_named text id = record {
  name = codes "p";
  literal = [];
  literal_len = 0;
  regex = tt;
  replacement = codes text;
  replacement_len = length (codes text);
  id = id;
  has_literal = false;
}

abbrev two_patterns : PatternSet (Unit {0})
two_patterns = record {
  patterns = pattern_named "<A>" 0 ∷ pattern_named "<BB>" 1 ∷ [];
  count = 2;
  capacity = 4;
  automaton = none;
  hot_ac = none;
  hot_count = 0;
  sentinel = none;
  built = true;
}

abbrev redactor : Redactor (Unit {0})
redactor = record {
  patterns = two_patterns;
  output_capacity = 20;
  num_patterns = 2;
  match_data = λ _. true;
  triggers = [];
  trigger_count = 0;
  use_sse42 = false;
  lines_scanned = 0;
  lines_modified = 0;
  patterns_matched = 0;
  lines_prefiltered = 0;
  lines_sentinel_filtered = 0;
}

abbrev at : ℕ → ℕ → ℕ → MatchLocation
at a b id = record { start = a; end = b; pattern_id = id }

-- Two matches that overlap and one in front of them.
abbrev found : List MatchLocation
found = at 5 7 1 ∷ at 6 9 0 ∷ at 0 2 0 ∷ []

abbrev line : Bytes
line = codes "k=1 pw=22 z"

rewrites : (apply sort redactor line found).1 ≡ rewritten (codes "<A>1 p<BB> z") 12
unfolding apply sort
rewrites = refl

apply_fits_example :
    let out = splice (replacement_of two_patterns) line 0 (merge (sort found)) in
    ((apply sort redactor line found).1 ≡ rewritten out (length out))
    × (splice (λ _. []) line 0 (merge (sort found)) ≡ uncovered found 0 line)
unfolding splice replacement_of merge sort count
apply_fits_example =
    apply_fits sort-IsSort redactor line found (omega arith) (omega arith) refl (omega arith)

replacements_small : (id : ℕ) → 20 + length (replacement_of two_patterns id) < 2 ^ 64
unfolding replacement_of
replacements_small id = ground arith

found-Inside : Inside (length line) found
unfolding count
found-Inside = refl

apply_bound_example :
    (nul_index (apply sort redactor line found).1 ≤ 20)
    × (nul_index (apply sort redactor line found).1
        ≡ length (output_bytes (apply sort redactor line found).1))
apply_bound_example =
    apply_bound redactor line found sort-IsSort (omega arith) replacements_small found-Inside

-- A buffer of 8 bytes, full with 3 bytes of output and the last 5 of the line.
finish_one_past_example :
    nul_index (finish (λ _. []) line 8 (record { out = codes "abc"; in_pos = 6 })) ≡ 8
finish_one_past_example =
    finish_one_past (λ _. []) line 8 (record { out = codes "abc"; in_pos = 6 }) (omega arith)
      (omega arith) (omega arith) refl

-- The replacement of 12 bytes does not fit behind 8 bytes in a buffer of 20.
abbrev secret_line : Bytes
secret_line = codes "user bob KEY"

apply_leaks_example :
    output_bytes (
      finish
        (λ _. codes "[REDACTED:k]")
        secret_line
        20
        (emit_all
          (λ _. codes "[REDACTED:k]")
          secret_line
          20
          (at 8 12 0 ∷ [])
          (record { out = []; in_pos = 0 })))
    ≡ codes "user bobuser bob KEY"
apply_leaks_example =
    apply_leaks (λ _. codes "[REDACTED:k]") secret_line 20 (at 8 12 0) [] (omega arith)
      (omega arith) (omega arith) (omega arith) (omega arith) (omega arith) (omega arith)
      (omega arith)

merge_lem_example :
    let ms = at 0 2 0 ∷ at 5 7 1 ∷ at 6 9 0 ∷ [] in
    DisjointFrom 11 0 (merge ms) × ((p : ℕ) → covered (merge ms) p ≡ covered ms p)
merge_lem_example = merge_lem 11 (at 0 2 0 ∷ at 5 7 1 ∷ at 6 9 0 ∷ []) (omega arith)

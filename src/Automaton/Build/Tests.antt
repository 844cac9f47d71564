-- ===== src/Automaton/Build/Tests.antt =====
-- A small automaton built and searched, flat and compressed.
use plumbr_c.Prelude.{
  if◌then◌else◌, arith, ℕ, ◌≡◌, refl, true, List, [], ◌∷◌, none, some, codes, map, Bool, Bytes,
}
use plumbr_c.Automaton.Build.Ready.{IsReady}
use plumbr_c.Automaton.Build.Total.{build-Flagged}
use plumbr_c.Automaton.Search.Occurrences.{occurrences}
use plumbr_c.Automaton.Search.Laws.{head?, fold_until}
use plumbr_c.Automaton.Search.Built.{search_first-built, search-finds_all}
use plumbr_c.Automaton.Trie.Numbered.{fresh-IsReady, add_pattern-IsReady}
use plumbr_c.Arena.{Arena, alloc}
use plumbr_c.Automaton.{false, Option, Automaton}
use plumbr_c.Automaton.Trie.{fresh_state, fresh_automaton, add_pattern}
use plumbr_c.Automaton.Build.{BuildResult, build}
use plumbr_c.Prelude.{run_loop}
use plumbr_c.Automaton.Search.{
  search_first, search, search_all_callback, search_all_callback, search_all,
}

abbrev room : Arena
room = record {
  base = 4096;
  size = 10000000;
  used = 0;
  high_water = 0;
  owns_memory = true;
  cell = λ _. 0;
}

-- "he", "she" and "hers", which overlap.
overlapping : Bool → Automaton
unfolding add_pattern
overlapping flat =
    let a1 = (add_pattern (fresh_automaton (λ _. fresh_state 0)) (codes "he") 0).0 in
    let a2 = (add_pattern a1 (codes "she") 1).0 in
    record (add_pattern a2 (codes "hers") 2).0 { force_flat = flat }

-- The matches that `ac_search_all` reports after `ac_build`, by pattern.
found_ids : Bool → Bytes → List ℕ
unfolding overlapping build search_all alloc
found_ids flat text = elim (build room (overlapping flat)).1 [
  | none ↦ []
  | some (ac, done) ↦ map (λ m. m.pattern_id) (search_all ac text 64)
]

flat_ids : found_ids true (codes "ushers") ≡ 1 ∷ 0 ∷ 2 ∷ []
unfolding found_ids run_loop
flat_ids = refl

three_words-IsReady : (flat : Bool) → IsReady (overlapping flat)
unfolding overlapping
three_words-IsReady flat =
    let a0 = fresh-IsReady (λ _. fresh_state 0) in
    let a1 = add_pattern-IsReady (codes "he") 0 a0 (omega arith) in
    let a2 = add_pattern-IsReady (codes "she") 1 a1 (omega arith) in
    let a3 = add_pattern-IsReady (codes "hers") 2 a2 (omega arith) in
    record {
      trie = record {
        path = a3.trie.path;
        root = a3.trie.root;
        nonempty = a3.trie.nonempty;
        fits = a3.trie.fits;
        edge = a3.trie.edge;
        reach = a3.trie.reach;
        depth_is = a3.trie.depth_is;
      };
      unlinked = a3.unlinked;
      root_open = a3.root_open;
      newer = a3.newer;
    }

abbrev succeeded : Option (Automaton × Bool) → Bool
succeeded none = false
succeeded (some (ac, done)) = done

abbrev automaton_of : Option (Automaton × Bool) → Automaton
automaton_of none = overlapping false
automaton_of (some (ac, done)) = ac

result_is : (r : BuildResult) → succeeded r.1 ≡ true → r ≡ (r.0, some (automaton_of r.1, true))
result_is (a, none) e = cc
result_is (a, some (ac, true)) e = refl
result_is (a, some (ac, false)) e = cc

-- The automaton of the three words after the build.
abbrev three_built : Automaton
three_built = automaton_of (build room (overlapping false)).1

overlapping_built : succeeded (build room (overlapping false)).1 ≡ true
unfolding overlapping build alloc run_loop
overlapping_built = refl

all_three :
    occurrences (overlapping false) (codes "ushers")
    ≡ record { position = 3; pattern_id = 1; length = 3 }
      ∷ record { position = 3; pattern_id = 0; length = 2 }
      ∷ record { position = 5; pattern_id = 2; length = 4 }
      ∷ []
unfolding occurrences overlapping plumbr_c.Automaton.Trie.Walk.lookup_from
all_three = refl

search-finds_all_example :
    search three_built (codes "ushers") (search_all_callback 2) []
    ≡ (fold_until (search_all_callback 2) (occurrences (overlapping false) (codes "ushers")) []).0
search-finds_all_example =
    search-finds_all room (codes "ushers") (search_all_callback 2) [] (three_words-IsReady false)
      (unfold overlapping in refl) (result_is (build room (overlapping false)) overlapping_built)
      (omega arith)

build-Flagged_example :
    (ac' : Automaton) × (done : Bool) × ((build room (overlapping false)).1 ≡ some (ac', done))
    × (ac'.built ≡ done)
build-Flagged_example = build-Flagged room (three_words-IsReady false)

search_first-built_example : search_first three_built (codes "ushers") ≡ (
    if (overlapping false).force_flat
    then none
    else some (head? (occurrences (overlapping false) (codes "ushers"))))
search_first-built_example =
    search_first-built room b'u' (codes "shers") (three_words-IsReady false)
      (unfold overlapping in refl) (result_is (build room (overlapping false)) overlapping_built)
      (omega arith)

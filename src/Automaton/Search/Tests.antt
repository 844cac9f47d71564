-- ===== src/Automaton/Search/Tests.antt =====
-- The theorems on the searches, at automata of one state beside the root.
use plumbr_c.Prelude.{◌+◌, ◌%◌, ◌/◌, ◌^◌}
use plumbr_c.Prelude.{
  ◌≡◌, ◌≤◌, refl, not, true, false, [], ◌∷◌, none, some, codes, ◌==◌, if◌then◌else◌, length, take,
}
use plumbr_c.Automaton.{Automaton}
use plumbr_c.Automaton.Search.{search_all, has_match, compressed_lookup, dfa_memory}
use plumbr_c.Automaton.Search.Laws.{matches, is_empty, search_all-eq-take, has_match_iff}

-- Finds the byte 'k': state 1 after it, and the root after any other byte.
abbrev finder : Automaton
finder = record {
  states = λ _. record {
    goto_table = λ _. none;
    fail = 0;
    output = none;
    pattern_id = 0;
    depth = 0;
    is_final = false;
  };
  num_states = 2;
  capacity = 8192;
  num_patterns = 1;
  built = true;
  prefetch_distance = 1;
  prefetch_hint = 0;
  force_flat = false;
  dfa = none;
  meta = λ s. record { output = none; pattern_id = 7; depth = 1; is_final = s == 1 };
  dfa_memory = 0;
  root_row = some (λ c. if c == b'k' then 1 else 0);
  compressed = λ a. if a == 2 + b'k' / 8 then 2 ^ (b'k' % 8) else if a == 34 then 1 else 0;
  row_index = λ _. record { offset = 0; num_transitions = 1 };
  compressed_size = 36;
}

-- The same with the flat table, as `force_flat` builds it: the root row is NULL.
abbrev flat_finder : Automaton
flat_finder = record finder { root_row = none; dfa = some (λ k. if k % 256 == b'k' then 1 else 0) }

finds_twice :
    search_all finder (codes "okk") 64
    ≡ record { position = 1; pattern_id = 7; length = 1 }
      ∷ record { position = 2; pattern_id = 7; length = 1 }
      ∷ []
unfolding search_all compressed_lookup
finds_twice = refl

memory : dfa_memory none ≡ 0
unfolding dfa_memory
memory = refl

search_all-eq-take_example :
    (search_all finder (codes "okk") 1 ≡ take 1 (matches finder (codes "okk")))
    × (length (search_all finder (codes "okk") 1) ≤ 1)
search_all-eq-take_example = search_all-eq-take finder (codes "okk") 1

has_match_iff_example : has_match finder (codes "ok") ≡ not (is_empty (matches finder (codes "ok")))
has_match_iff_example = has_match_iff finder (codes "ok")

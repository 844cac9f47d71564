-- ===== src/Redactor/Process/Tests.antt =====
-- A line of `redactor_process`, with a matcher that reports the first two bytes.
use plumbr_c.Prelude.{ℕ, ◌≡◌, refl, true, false, Bytes, List, [], ◌∷◌, none, codes, ◌+◌}
use plumbr_c.Prelude.{Bool, Option, some, run_loop}
use plumbr_c.Arena.{Arena, alloc}
use plumbr_c.Automaton.{Match, Automaton}
use plumbr_c.Automaton.Trie.{fresh_state, fresh_automaton, add_pattern}
use plumbr_c.Automaton.Build.{build}
use plumbr_c.Automaton.Search.{search_all, compressed_lookup}
use plumbr_c.Redactor.Apply.{apply}
use plumbr_c.Pattern.{PatternSet}
use plumbr_c.Redactor.{Redactor, rewritten}
use plumbr_c.Redactor.Process.{PcreResult, matched, process, verify_ac_matches}
use plumbr_c.Redactor.Process.Outcome.{Outcome, process-Outcome}

abbrev room : Arena
room = record {
  base = 4096;
  size = 10000000;
  used = 0;
  high_water = 0;
  owns_memory = true;
  cell = λ _. 0;
}

abbrev built_of : Option (Automaton × Bool) → Automaton
built_of none = fresh_automaton (λ _. fresh_state 0)
built_of (some (ac, done)) = ac

-- The automaton of the word "pw", built.
finder : Automaton
unfolding add_pattern build
finder =
    built_of (build room (add_pattern (fresh_automaton (λ _. fresh_state 0)) (codes "pw") 0).0).1

abbrev two_bytes : Unit {0} → Bytes → ℕ → PcreResult
two_bytes regex line start = matched start (start + 2)

abbrev one_pattern : PatternSet (Unit {0})
one_pattern = record {
  patterns =
      record {
        name = codes "p";
        literal = codes "pw";
        literal_len = 2;
        regex = tt;
        replacement = codes "#";
        replacement_len = 1;
        id = 0;
        has_literal = true;
      }
      ∷ [];
  count = 1;
  capacity = 4;
  automaton = some finder;
  hot_ac = none;
  hot_count = 0;
  sentinel = none;
  built = true;
}

abbrev scanner : Redactor (Unit {0})
scanner = record {
  patterns = one_pattern;
  output_capacity = 20;
  num_patterns = 1;
  match_data = λ _. true;
  triggers = [];
  trigger_count = 0;
  use_sse42 = false;
  lines_scanned = 0;
  lines_modified = 0;
  patterns_matched = 0;
  lines_prefiltered = 0;
  lines_sentinel_filtered = 0;
}

abbrev candidates : List Match
candidates = record { position = 1; pattern_id = 0; length = 2 } ∷ []

verifies :
    verify_ac_matches two_bytes two_bytes scanner (codes "pw") candidates 64
    ≡ record { start = 0; end = 2; pattern_id = 0 } ∷ []
unfolding verify_ac_matches
verifies = refl

-- The hot automaton is missing, and the cold one finds the word.
finds :
    (process two_bytes two_bytes (λ ls. ls) (λ ts n l. true) scanner (codes "pw")).1
    ≡ rewritten (codes "#") 1
unfolding process verify_ac_matches finder alloc run_loop search_all apply compressed_lookup
finds = refl

process-Outcome_example :
    Outcome two_bytes two_bytes
      (λ ls. ls)
      (λ ts n l. true)
      finder
      scanner
      (codes "pw")
      (process two_bytes two_bytes (λ ls. ls) (λ ts n l. true) scanner (codes "pw"))
process-Outcome_example =
    process-Outcome two_bytes two_bytes (λ ls. ls) (λ ts n l. true) finder scanner (codes "pw") refl

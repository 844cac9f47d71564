-- ===== src/Redactor/Process.antt =====
-- `redactor_process` and `verify_ac_matches` of src/redactor.c.
pub mod Verified
pub mod Outcome
pub mod Stateless
mod Tests
use plumbr_c.Prelude.{
  ℕ, zero, suc, ◌+◌, ◌-◌, Bool, true, false, not, Bytes, List, [], ◌∷◌, ◌++◌, Option, none, some,
  ltb, leb, ◌==◌, if◌then◌else◌, ◌&&◌, ◌||◌, length,
}
use plumbr_c.Automaton.{Automaton, Match}
use plumbr_c.Automaton.Search.{search_all, has_match}
use plumbr_c.Pattern.{Pattern, PatternSet, get}
use plumbr_c.Redactor.{MatchLocation, Output, unchanged, Redactor}
use plumbr_c.Redactor.Apply.{apply}

-- `MAX_MATCHES_PER_LINE`
abbrev pub max_matches : ℕ
max_matches = 64

-- What a call of PCRE2's matcher reports: PCRE2_ERROR_JIT_BADOPTION, any other result that is not
-- positive, or a match with the first two numbers of its ovector.
pub data PcreResult : Type 0 where
  bad_option : PcreResult
  no_match : PcreResult
  matched : ℕ → ℕ → PcreResult

-- `ac_search_all` on one of a pattern set's automata. `hot_ac` is tested for NULL before. A NULL
-- `automaton`, which `patterns_create` leaves where `ac_create` fails, would be read through here;
-- `patterns_build` already faults on it. It is given no matches, and what is proved of the locations
-- found assumes an automaton.
unfoldable pub search_all? : Option Automaton → Bytes → List Match
search_all? none line = []
search_all? (some ac) line = search_all ac line max_matches

-- Where the regular expression starts to look for a candidate.
unfoldable pub search_start : Match → ℕ
search_start m =
    let start = if ltb m.length m.position then m.position - m.length else 0 in
    if leb 10 start then start - 10 else 0

-- `redactor_reset_stats`, which leaves `lines_prefiltered`.
unfoldable pub reset_stats : {Code : Type 0} → Redactor Code → Redactor Code
reset_stats r = record r {
  lines_scanned = 0;
  lines_modified = 0;
  patterns_matched = 0;
  lines_sentinel_filtered = 0;
}

module _ {Code : Type 0} (jit_match pcre_match : Code → Bytes → ℕ → PcreResult) where
  -- `pcre2_jit_match`, and `pcre2_match` where that gives PCRE2_ERROR_JIT_BADOPTION.
  unfoldable pub run_pcre : Code → Bytes → ℕ → PcreResult
  run_pcre regex line start = elim (jit_match regex line start) [
    | bad_option ↦ pcre_match regex line start
    | no_match ↦ no_match
    | matched a b ↦ matched a b
  ]

  -- One round of the loop of `verify_ac_matches`: the location to append, or none for `continue`.
  unfoldable pub verify_one : Redactor Code → Bytes → Match → Option MatchLocation
  unfolding run_pcre search_start get
  verify_one r line m = elim (get r.patterns m.pattern_id) [
    | none ↦ none
    | some pat ↦ elim (ltb m.pattern_id r.num_patterns && r.match_data m.pattern_id) [
      | false ↦ none
      | true ↦ elim (run_pcre pat.regex line (search_start m)) [
        | bad_option ↦ none
        | no_match ↦ none
        | matched a b ↦
            if leb a (length line) && leb b (length line)
            then some (record { start = a; end = b; pattern_id = m.pattern_id })
            else none
      ]
    ]
  ]

  -- `verify_ac_matches` on the candidates left, with room for `room` more locations.
  unfoldable pub verify_ac_matches : Redactor Code → Bytes → List Match → ℕ → List MatchLocation
  unfolding verify_one
  verify_ac_matches r line ms zero = []
  verify_ac_matches r line [] (suc room) = []
  verify_ac_matches r line (m ∷ ms) (suc room) = elim (verify_one r line m) [
    | none ↦ verify_ac_matches r line ms (suc room)
    | some l ↦ l ∷ verify_ac_matches r line ms room
  ]

  -- `r->patterns_matched++` for each location.
  abbrev pub count_matched : Redactor Code → List MatchLocation → Redactor Code
  count_matched r ls = record r { patterns_matched = r.patterns_matched + length ls }

  module _ (sort : List MatchLocation → List MatchLocation)
      (has_triggers : List ℕ → ℕ → Bytes → Bool) where
    -- The candidates of one automaton, verified and applied, or else what comes next.
    unfoldable pub scan_with :
        Option Automaton
        → Redactor Code
        → Bytes
        → (Redactor Code → Redactor Code × Output)
        → Redactor Code × Output
    unfolding search_all? verify_ac_matches
    scan_with ac r line next =
        let verified = verify_ac_matches r line (search_all? ac line) max_matches in
        let r' = count_matched r verified in
        elim verified [ [] ↦ next r' | l ∷ ls ↦ apply sort r' line (l ∷ ls) ]

    -- Phase 3, from the label `cold_ac_scan` on.
    unfoldable pub cold_scan : Redactor Code → Bytes → Redactor Code × Output
    unfolding scan_with
    cold_scan r line = scan_with r.patterns.automaton r line (λ r'. (r', unchanged line))

    -- Phase 2.
    unfoldable pub hot_scan : Redactor Code → Bytes → Redactor Code × Output
    unfolding scan_with cold_scan
    hot_scan r line = elim r.patterns.hot_ac [
      | none ↦ cold_scan r line
      | some hot ↦ scan_with (some hot) r line (λ r'. cold_scan r' line)
    ]

    -- Phase 1.
    unfoldable pub sentinel_gate : Redactor Code → Bytes → Redactor Code × Output
    unfolding hot_scan
    sentinel_gate r line = elim r.patterns.sentinel [
      | none ↦ hot_scan r line
      | some sentinel ↦ elim (has_match sentinel line) [
        | false ↦
            (record r { lines_sentinel_filtered = r.lines_sentinel_filtered + 1 }, unchanged line)
        | true ↦ hot_scan r line
      ]
    ]

    -- Where the filter finds no trigger: the sentinel may still send the line to phase 3.
    unfoldable pub prefiltered : Redactor Code → Bytes → Redactor Code × Output
    unfolding cold_scan
    prefiltered r line =
        let passed : Redactor Code × Output =
          (record r { lines_prefiltered = r.lines_prefiltered + 1 }, unchanged line) in
        elim r.patterns.sentinel [
          | none ↦ passed
          | some sentinel ↦ elim (has_match sentinel line) [
            | false ↦ passed
            | true ↦ cold_scan r line
          ]
        ]

    -- The phases behind the test for an empty line.
    unfoldable pub phases : Redactor Code → Bytes → Redactor Code × Output
    unfolding sentinel_gate prefiltered
    phases r line =
        elim (r.use_sse42
          && ltb 0 r.trigger_count
          && not (has_triggers r.triggers r.trigger_count line)) [
            | true ↦ prefiltered r line
            | false ↦ sentinel_gate r line
          ]

    -- `redactor_process`
    unfoldable pub process : Redactor Code → Bytes → Redactor Code × Output
    unfolding phases
    process r [] = (record r { lines_scanned = r.lines_scanned + 1 }, unchanged [])
    process r (c ∷ cs) = phases (record r { lines_scanned = r.lines_scanned + 1 }) (c ∷ cs)

-- ===== src/Automaton/Compress/Tests.antt =====
-- The compressed rows of three states.
use plumbr_c.Prelude.{ℕ, ◌≡◌, some, none, ◌==◌, if◌then◌else◌, arith}
use plumbr_c.Automaton.{false, State, int16}
use plumbr_c.Automaton.Search.{compressed_lookup}
use plumbr_c.Automaton.Compress.{measure_rows, pack_rows}
use plumbr_c.Automaton.Compress.Rows.{lookup-pack_rows}

-- The byte 'a' leads to state 2, the others to state 1.
abbrev states : ℕ → State
states s = record {
  goto_table = λ c. if c == b'a' then some 2 else some 1;
  fail = 0;
  output = none;
  pattern_id = 0;
  depth = 0;
  is_final = false;
}

lookup-pack_rows_example :
    compressed_lookup
      (pack_rows states 3 (measure_rows states 3) (λ _. 0))
      (measure_rows states 3).row_index
      2
      b'a'
    ≡ int16 (some 2)
lookup-pack_rows_example =
    lookup-pack_rows states 3 (omega arith) (λ _. 0) 2 b'a' (omega arith) (omega arith)
      (omega arith)

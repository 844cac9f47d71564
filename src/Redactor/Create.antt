-- ===== src/Redactor/Create.antt =====
-- src/redactor.c: `redactor_create`.
use plumbr_c.Prelude.{
  arith, ℕ, ◌*◌, ◌≡◌, Bool, false, [], Option, none, some, length, if◌then◌else◌,
}
use plumbr_c.Arena.{Arena, alloc}
use plumbr_c.Pattern.{PatternSet, get}
use plumbr_c.Filter.{build_triggers}
use plumbr_c.Redactor.{Redactor}

-- `sizeof(Redactor)`, and the size of a pointer
abbrev pub redactor_bytes : ℕ
redactor_bytes = 128

abbrev pub pointer_bytes : ℕ
pointer_bytes = 8

module _ {Code : Type 0} (makes_match_data : Code → Bool) (sse42_available : Bool) where
  -- Whether a pattern gets match data; every pattern of a set has a compiled expression.
  unfoldable pub has_match_data : PatternSet Code → ℕ → Bool
  unfolding get
  has_match_data ps i = elim (get ps i) [ none ↦ false | some pat ↦ makes_match_data pat.regex ]

  -- The fields of a new redactor. The match context only limits PCRE2's work.
  abbrev pub fresh_redactor : PatternSet Code → ℕ → Redactor Code
  fresh_redactor ps output_capacity =
      let triggers = if sse42_available then build_triggers ps.automaton 16 else [] in
      record {
        patterns = ps;
        output_capacity = output_capacity;
        num_patterns = ps.count;
        match_data = has_match_data ps;
        triggers = triggers;
        trigger_count = length triggers;
        use_sse42 = sse42_available;
        lines_scanned = 0;
        lines_modified = 0;
        patterns_matched = 0;
        lines_prefiltered = 0;
        lines_sentinel_filtered = 0;
      }

  -- `redactor_create`
  unfoldable pub create : Arena → PatternSet Code → ℕ → Arena × Option (Redactor Code)
  create arena ps output_capacity =
      let (arena1, r) = alloc arena redactor_bytes in
      let (arena2, output_buf) = alloc arena1 output_capacity in
      let (arena3, match_data) = alloc arena2 (ps.count * pointer_bytes) in
      elim r [
        | none ↦ (arena1, none)
        | some _ ↦ elim output_buf [
          | none ↦ (arena2, none)
          | some _ ↦ elim match_data [
            | none ↦ (arena3, none)
            | some _ ↦ (arena3, some (fresh_redactor ps output_capacity))
          ]
        ]
      ]

  -- Whatever the arena, a redactor that is created is the same: the workers of src/parallel.c, each
  -- with an arena of its own, start alike.
  pub create-some :
      (arena : Arena) (ps : PatternSet Code) (output_capacity : ℕ) (r : Redactor Code)
      → (create arena ps output_capacity).1 ≡ some r
      → r ≡ fresh_redactor ps output_capacity
  unfolding create
  create-some arena ps size r e = ground (arith, e)

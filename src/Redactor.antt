-- ===== src/Redactor.antt =====
-- src/redactor.c: verification of candidates and the rewriting of a line.
pub mod Apply
pub mod Process
pub mod Client
pub mod Create
mod Tests
use plumbr_c.Prelude.{ℕ, Bool, Bytes, List, Option}
use plumbr_c.Pattern.{PatternSet}

-- `MatchLocation`
pub record MatchLocation : Type 0 where
  pub start : ℕ
  pub end : ℕ
  pub pattern_id : ℕ

-- `Redactor`. `match_data` tells for each pattern whether PCRE2 gave it match data. `output_buf` is
-- the bytes written last, and the counters are those of the one thread that uses the redactor.
pub record Redactor (Code : Type 0) : Type 0 where
  pub patterns : PatternSet Code
  pub output_capacity : ℕ
  pub num_patterns : ℕ
  pub match_data : ℕ → Bool
  pub triggers : List ℕ
  pub trigger_count : ℕ
  pub use_sse42 : Bool
  pub lines_scanned : ℕ
  pub lines_modified : ℕ
  pub patterns_matched : ℕ
  pub lines_prefiltered : ℕ
  pub lines_sentinel_filtered : ℕ

-- What a call gives back: the line itself, or the output buffer, with its length and the index at
-- which the terminator was written.
pub data Output : Type 0 where
  unchanged : Bytes → Output
  rewritten : Bytes → ℕ → Output

-- ===== src/Redactor/Client.antt =====
-- What the clients of src/redactor.c call of a redactor, and what they rely on.
use plumbr_c.Prelude.{ℕ, ◌≡◌, refl, sym, ap, ◌∙◌, Bool, true, false, Bytes, List}
use plumbr_c.Redactor.{MatchLocation, Output, unchanged, rewritten, Redactor}
use plumbr_c.Redactor.Process.{reset_stats, PcreResult, process}
use plumbr_c.Redactor.Process.Stateless.{forget, process-forget}

-- The bytes that a call of the redactor gives back, and whether they are in its buffer.
abbrev pub text_of : Output → Bytes
text_of (unchanged line) = line
text_of (rewritten out n) = out

abbrev pub is_rewritten : Output → Bool
is_rewritten (unchanged line) = false
is_rewritten (rewritten out n) = true

-- What a client calls of its redactor: `redactor_process`, `redactor_patterns_matched` and
-- `redactor_reset_stats`.
pub record Ops (R : Type 0) : Type 0 where
  pub redact : R → Bytes → R × Output
  pub patterns_matched : R → ℕ
  pub reset_stats : R → R

-- A redactor whose answer depends on the line alone, as long as it is `Ready`.
pub record IsRedactor {R : Type 0} (ops : Ops R) : Type 1 where
  pub process : Bytes → Output
  pub Ready : R → Type 0
  pub gives : (r : R) (text : Bytes) → Ready r → (ops.redact r text).1 ≡ process text
  pub resets : (r : R) → Ready r → Ready (ops.reset_stats r)
  pub stays : (r : R) (text : Bytes) → Ready r → Ready (ops.redact r text).0

module _ {Code : Type 0} (jit_match pcre_match : Code → Bytes → ℕ → PcreResult)
    (sort : List MatchLocation → List MatchLocation)
    (has_triggers : List ℕ → ℕ → Bytes → Bool) where
  abbrev pub redact : Redactor Code → Bytes → Redactor Code × Output
  redact r line = process jit_match pcre_match sort has_triggers r line

  -- The counters of `redactor_reset_stats`.
  abbrev pub redactor_ops : Ops (Redactor Code)
  redactor_ops = record {
    redact = redact;
    patterns_matched = λ r. r.patterns_matched;
    reset_stats = reset_stats;
  }

  -- The redactor without its counters.
  abbrev pub bare : Redactor Code → Redactor Code
  bare r = forget jit_match pcre_match sort has_triggers r

  pub bare-reset_stats : (r : Redactor Code) → bare (reset_stats r) ≡ bare r
  unfolding reset_stats
  bare-reset_stats r = refl

  -- Redactors that differ from `r` in their counters only.
  abbrev pub process-IsRedactor : Redactor Code → IsRedactor redactor_ops
  process-IsRedactor r = record {
    process = λ line. (redact r line).1;
    Ready = λ q. bare q ≡ bare r;
    gives = λ q line e.
        (process-forget jit_match pcre_match sort has_triggers q line).0
        ∙ ap (λ (p : Redactor Code). (redact p line).1) e
        ∙ sym (process-forget jit_match pcre_match sort has_triggers r line).0;
    resets = λ q e. bare-reset_stats q ∙ e;
    stays = λ q line e. (process-forget jit_match pcre_match sort has_triggers q line).1 ∙ e;
  }

-- ===== src/Redactor/Process/Stateless.antt =====
-- What `redactor_process` of src/redactor.c gives back does not depend on the counters, which are all
-- that it changes of its redactor.
use plumbr_c.Prelude.{
  ℕ, ◌+◌, ◌≡◌, refl, sym, ap, ◌∙◌, not, Bytes, List, [], ◌∷◌, Option, none, some, ltb, ◌&&◌, Bool,
  true, false,
}
use plumbr_c.Automaton.{Automaton, Match}
use plumbr_c.Automaton.Search.{has_match}
use plumbr_c.Redactor.{MatchLocation, Output, unchanged, Redactor}
use plumbr_c.Redactor.Apply.{apply}
use plumbr_c.Redactor.Process.{
  PcreResult, max_matches, search_all?, verify_ac_matches, count_matched, scan_with, cold_scan,
  hot_scan, sentinel_gate, prefiltered, phases, process,
}
use plumbr_c.Redactor.Process.Outcome.{gated, sentinel_by, hot_by, scanned}

module _ {Code : Type 0} (jit_match pcre_match : Code → Bytes → ℕ → PcreResult)
    (sort : List MatchLocation → List MatchLocation)
    (has_triggers : List ℕ → ℕ → Bytes → Bool) where
  -- The redactor with its counters reset.
  abbrev pub forget : Redactor Code → Redactor Code
  forget r = record r {
    lines_scanned = 0;
    lines_modified = 0;
    patterns_matched = 0;
    lines_prefiltered = 0;
    lines_sentinel_filtered = 0;
  }

  -- Two calls give back the same, and the first changes the counters of `r` only.
  abbrev Agree : Redactor Code → Redactor Code × Output → Redactor Code × Output → Type 0
  Agree r p q = (p.1 ≡ q.1) × (forget p.0 ≡ forget r)

  verify-forget :
      (r : Redactor Code) (line : Bytes) (ms : List Match) (room : ℕ)
      → verify_ac_matches jit_match pcre_match r line ms room
        ≡ verify_ac_matches jit_match pcre_match (forget r) line ms room
  unfolding verify_ac_matches
  verify-forget r line ms room = refl

  apply-Agree :
      (r : Redactor Code) (line : Bytes) (ls : List MatchLocation)
      → Agree r (apply sort r line ls) (apply sort (forget r) line ls)
  unfolding apply
  apply-Agree r line ls = (refl, refl)

  abbrev Stateless : (Redactor Code → Redactor Code × Output) → Type 0
  Stateless f = (r : Redactor Code) → Agree r (f r) (f (forget r))

  scanned-Agree :
      (next : Redactor Code → Redactor Code × Output) (r s : Redactor Code) (line : Bytes)
      (ls : List MatchLocation)
      → Stateless next
      → forget r ≡ forget s
      → Agree r
          (scanned jit_match pcre_match sort has_triggers next r line ls)
          (scanned jit_match pcre_match sort has_triggers next s line ls)
  unfolding apply
  scanned-Agree next r s line [] k e =
      ((k r).0 ∙ ap (λ (q : Redactor Code). (next q).1) e ∙ sym (k s).0, (k r).1)
  scanned-Agree next r s line (l ∷ ls) k e = (
    (apply-Agree r line (l ∷ ls)).0
        ∙ ap (λ (q : Redactor Code). (apply sort q line (l ∷ ls)).1) e
        ∙ sym (apply-Agree s line (l ∷ ls)).0,
    (apply-Agree r line (l ∷ ls)).1,
  )

  scan_with-Stateless :
      (ac : Option Automaton) (line : Bytes) (next : Redactor Code → Redactor Code × Output)
      → Stateless next
      → Stateless (λ r. scan_with jit_match pcre_match sort has_triggers ac r line next)
  unfolding scan_with
  scan_with-Stateless ac line next k r =
      let verified =
        verify_ac_matches jit_match pcre_match r line (search_all? ac line) max_matches in
      scanned-Agree next (count_matched jit_match pcre_match r verified)
        (count_matched jit_match pcre_match (forget r) verified) line verified k refl

  cold-Stateless :
      (line : Bytes) → Stateless (λ r. cold_scan jit_match pcre_match sort has_triggers r line)
  unfolding cold_scan
  cold-Stateless line r =
      scan_with-Stateless r.patterns.automaton line (λ r'. (r', unchanged line))
        (λ r'. (refl, refl)) r

  hot_by-Stateless :
      (o : Option Automaton) (line : Bytes)
      → Stateless (λ r. hot_by jit_match pcre_match sort has_triggers r line o)
  hot_by-Stateless none line r = cold-Stateless line r
  hot_by-Stateless (some hot) line r =
      scan_with-Stateless (some hot) line
        (λ r'. cold_scan jit_match pcre_match sort has_triggers r' line) (cold-Stateless line) r

  hot-Stateless :
      (line : Bytes) → Stateless (λ r. hot_scan jit_match pcre_match sort has_triggers r line)
  unfolding hot_scan
  hot-Stateless line r = hot_by-Stateless r.patterns.hot_ac line r

  gated-Agree :
      (r : Redactor Code) (p p' q q' : Redactor Code × Output) (b : Bool)
      → Agree r p p'
      → Agree r q q'
      → Agree r
          (gated jit_match pcre_match sort has_triggers p q b)
          (gated jit_match pcre_match sort has_triggers p' q' b)
  gated-Agree r p p' q q' false h k = h
  gated-Agree r p p' q q' true h k = k

  sentinel_by-Agree :
      (r : Redactor Code) (m m' p p' q q' : Redactor Code × Output) (line : Bytes)
      (o : Option Automaton)
      → Agree r m m'
      → Agree r p p'
      → Agree r q q'
      → Agree r
          (sentinel_by jit_match pcre_match sort has_triggers m p q line o)
          (sentinel_by jit_match pcre_match sort has_triggers m' p' q' line o)
  sentinel_by-Agree r m m' p p' q q' line none h k l = h
  sentinel_by-Agree r m m' p p' q q' line (some ac) h k l =
      gated-Agree r p p' q q' (has_match ac line) k l

  abbrev stopped : Bytes → Redactor Code → Redactor Code × Output
  stopped line r =
      (record r { lines_sentinel_filtered = r.lines_sentinel_filtered + 1 }, unchanged line)

  abbrev passed : Bytes → Redactor Code → Redactor Code × Output
  passed line r = (record r { lines_prefiltered = r.lines_prefiltered + 1 }, unchanged line)

  gate-Stateless :
      (line : Bytes) → Stateless (λ r. sentinel_gate jit_match pcre_match sort has_triggers r line)
  unfolding sentinel_gate
  gate-Stateless line r =
      let hot = λ (q : Redactor Code). hot_scan jit_match pcre_match sort has_triggers q line in
      sentinel_by-Agree r (hot r) (hot (forget r)) (stopped line r) (stopped line (forget r))
        (hot r) (hot (forget r)) line r.patterns.sentinel (hot-Stateless line r) (refl, refl)
        (hot-Stateless line r)

  prefiltered-Stateless :
      (line : Bytes) → Stateless (λ r. prefiltered jit_match pcre_match sort has_triggers r line)
  unfolding prefiltered
  prefiltered-Stateless line r =
      let cold = λ (q : Redactor Code). cold_scan jit_match pcre_match sort has_triggers q line in
      sentinel_by-Agree r (passed line r) (passed line (forget r)) (passed line r)
        (passed line (forget r)) (cold r) (cold (forget r)) line r.patterns.sentinel (refl, refl)
        (refl, refl) (cold-Stateless line r)

  phases-Stateless :
      (line : Bytes) → Stateless (λ r. phases jit_match pcre_match sort has_triggers r line)
  unfolding phases
  phases-Stateless line r =
      gated-Agree r (sentinel_gate jit_match pcre_match sort has_triggers r line)
        (sentinel_gate jit_match pcre_match sort has_triggers (forget r) line)
        (prefiltered jit_match pcre_match sort has_triggers r line)
        (prefiltered jit_match pcre_match sort has_triggers (forget r) line)
        (r.use_sse42 && ltb 0 r.trigger_count && not (has_triggers r.triggers r.trigger_count line))
        (gate-Stateless line r) (prefiltered-Stateless line r)

  -- What `redactor_process` gives back is the same for a redactor whose counters are reset, and it
  -- leaves all but the counters as it is.
  pub process-forget :
      (r : Redactor Code) (line : Bytes)
      → ((process jit_match pcre_match sort has_triggers r line).1
          ≡ (process jit_match pcre_match sort has_triggers (forget r) line).1)
        × (forget (process jit_match pcre_match sort has_triggers r line).0 ≡ forget r)
  unfolding process
  process-forget r [] = (refl, refl)
  process-forget r (c ∷ cs) =
      let r1 = record r { lines_scanned = r.lines_scanned + 1 } in
      let r2 = record (forget r) { lines_scanned = 1 } in
      (
        (phases-Stateless (c ∷ cs) r1).0 ∙ sym (phases-Stateless (c ∷ cs) r2).0,
        (phases-Stateless (c ∷ cs) r1).1,
      )

-- ===== src/Redactor/Process/Outcome.antt =====
-- What `redactor_process` of src/redactor.c returns, over all its phases.
use plumbr_c.Prelude.{
  ℕ, ◌+◌, ◌≡◌, ◌<◌, ◌⊎◌, inl, inr, refl, sym, subst, not, Bytes, List, [], ◌∷◌, Option, none, some,
  length, arith, ltb, ◌&&◌, Bool, true, false,
}
use plumbr_c.Automaton.{Automaton}
use plumbr_c.Automaton.Search.{has_match, search_all}
use plumbr_c.Redactor.{MatchLocation, Output, unchanged, Redactor}
use plumbr_c.Redactor.Apply.{apply}
use plumbr_c.Redactor.Process.{
  PcreResult, max_matches, search_all?, verify_ac_matches, count_matched, scan_with, cold_scan,
  hot_scan, sentinel_gate, prefiltered, phases, process,
}
use plumbr_c.Redactor.Process.Verified.{
  AllVerified, NoneVerified, verify_ac_matches-Verified, verify_ac_matches-none,
}

module _ {Code : Type 0} (jit_match pcre_match : Code → Bytes → ℕ → PcreResult) where
  module _ (sort : List MatchLocation → List MatchLocation)
      (has_triggers : List ℕ → ℕ → Bytes → Bool) where
    -- The line comes back rewritten for at least one and at most 64 locations, each of which PCRE2
    -- confirmed for one of the first 64 candidates of the hot or the cold automaton.
    abbrev pub Applied : Redactor Code → Bytes → Redactor Code × Output → Type 0
    Applied r line result =
        (ac : Automaton) × (r' : Redactor Code) × (ls : List MatchLocation) × ((r.patterns.hot_ac
            ≡ some ac)
          ⊎ (r.patterns.automaton ≡ some ac))
        × (0 < length ls)
        × AllVerified jit_match pcre_match r line (search_all ac line max_matches) max_matches ls
        × (r'.patterns ≡ r.patterns)
        × (r'.output_capacity ≡ r.output_capacity)
        × (result ≡ apply sort r' line ls)

    -- The sentinel automaton finds nothing.
    abbrev pub Guarded : Redactor Code → Bytes → Type 0
    Guarded r line = (s : Automaton) × (r.patterns.sentinel ≡ some s) × (has_match s line ≡ false)

    -- There is no sentinel, and the filter finds no trigger.
    abbrev pub Untriggered : Redactor Code → Bytes → Type 0
    Untriggered r line =
        (r.patterns.sentinel ≡ none)
        × (r.use_sse42 ≡ true)
        × (0 < r.trigger_count)
        × (has_triggers r.triggers r.trigger_count line ≡ false)

    -- The line comes back as it is, for one of four reasons.
    abbrev pub Passed : Automaton → Redactor Code → Bytes → Redactor Code × Output → Type 0
    Passed cold r line result =
        (result.1 ≡ unchanged line)
        × ((line ≡ [])
            ⊎ Untriggered r line
            ⊎ Guarded r line
            ⊎ NoneVerified jit_match pcre_match r line (search_all cold line max_matches))

    abbrev pub Outcome : Automaton → Redactor Code → Bytes → Redactor Code × Output → Type 0
    Outcome cold r line result = Passed cold r line result ⊎ Applied r line result

    abbrev pub scanned :
        (Redactor Code → Redactor Code × Output)
        → Redactor Code
        → Bytes
        → List MatchLocation
        → Redactor Code × Output
    scanned next r line [] = next r
    scanned next r line (l ∷ ls) = apply sort r line (l ∷ ls)

    scanned-Outcome :
        (cold ac : Automaton) (next : Redactor Code → Redactor Code × Output) (r : Redactor Code)
        (line : Bytes) (ls : List MatchLocation)
        → ((r.patterns.hot_ac ≡ some ac) ⊎ (r.patterns.automaton ≡ some ac))
        → AllVerified jit_match pcre_match r line (search_all ac line max_matches) max_matches ls
        → (ls ≡ [] → Outcome cold r line (next r))
        → Outcome cold r line (scanned next r line ls)
    scanned-Outcome cold ac next r line [] from h k = k refl
    scanned-Outcome cold ac next r line (l ∷ ls) from h k =
        inr (ac, r, l ∷ ls, from, omega arith, h, refl, refl, refl)

    scan_with-Outcome :
        (cold ac : Automaton) (r : Redactor Code) (line : Bytes)
        (next : Redactor Code → Redactor Code × Output)
        → ((r.patterns.hot_ac ≡ some ac) ⊎ (r.patterns.automaton ≡ some ac))
        → ((n : ℕ)
            → NoneVerified jit_match pcre_match r line (search_all ac line max_matches)
            → Outcome cold r line (next (record r { patterns_matched = n })))
        → Outcome cold r line
            (scan_with jit_match pcre_match sort has_triggers (some ac) r line next)
    unfolding scan_with search_all?
    scan_with-Outcome cold ac r line next from k =
        let ms = search_all ac line max_matches in
        let verified = verify_ac_matches jit_match pcre_match r line ms max_matches in
        scanned-Outcome cold ac next (count_matched jit_match pcre_match r verified) line verified
          from (verify_ac_matches-Verified jit_match pcre_match r line ms max_matches)
          (λ e.
            k (r.patterns_matched + length verified)
              (verify_ac_matches-none jit_match pcre_match r line ms 63 e))

    cold-Outcome :
        (cold : Automaton) (r : Redactor Code) (line : Bytes)
        → r.patterns.automaton ≡ some cold
        → Outcome cold r line (cold_scan jit_match pcre_match sort has_triggers r line)
    unfolding cold_scan
    cold-Outcome cold r line e =
        let next : Redactor Code → Redactor Code × Output = λ r'. (r', unchanged line) in
        subst
          (λ o.
            Outcome cold r line (scan_with jit_match pcre_match sort has_triggers o r line next))
          (sym e)
          (scan_with-Outcome cold cold r line next (inr e)
            (λ n clean. inl (refl, inr (inr (inr clean)))))

    abbrev pub hot_by : Redactor Code → Bytes → Option Automaton → Redactor Code × Output
    hot_by r line none = cold_scan jit_match pcre_match sort has_triggers r line
    hot_by r line (some hot) =
        scan_with jit_match pcre_match sort has_triggers (some hot) r line
          (λ r'. cold_scan jit_match pcre_match sort has_triggers r' line)

    hot_by-Outcome :
        (cold : Automaton) (r : Redactor Code) (line : Bytes) (o : Option Automaton)
        → r.patterns.automaton ≡ some cold
        → r.patterns.hot_ac ≡ o
        → Outcome cold r line (hot_by r line o)
    hot_by-Outcome cold r line none e h = cold-Outcome cold r line e
    hot_by-Outcome cold r line (some hot) e h =
        scan_with-Outcome cold hot r line
          (λ r'. cold_scan jit_match pcre_match sort has_triggers r' line) (inl h)
          (λ n clean. cold-Outcome cold (record r { patterns_matched = n }) line e)

    hot-Outcome :
        (cold : Automaton) (r : Redactor Code) (line : Bytes)
        → r.patterns.automaton ≡ some cold
        → Outcome cold r line (hot_scan jit_match pcre_match sort has_triggers r line)
    unfolding hot_scan
    hot-Outcome cold r line e = hot_by-Outcome cold r line r.patterns.hot_ac e refl

    -- A result behind a gate that may stop the line.
    abbrev pub gated :
        Redactor Code × Output → Redactor Code × Output → Bool → Redactor Code × Output
    gated stopped passed false = stopped
    gated stopped passed true = passed

    gated_by :
        (P : Redactor Code × Output → Type 0) (stopped passed : Redactor Code × Output) (b : Bool)
        → (b ≡ false → P stopped)
        → (b ≡ true → P passed)
        → P (gated stopped passed b)
    gated_by P stopped passed false h k = h refl
    gated_by P stopped passed true h k = k refl

    -- The sentinel's gate, for a line that is handed on where there is no sentinel or not.
    abbrev pub sentinel_by :
        Redactor Code × Output
        → Redactor Code × Output
        → Redactor Code × Output
        → Bytes
        → Option Automaton
        → Redactor Code × Output
    sentinel_by missing stopped passed line none = missing
    sentinel_by missing stopped passed line (some ac) = gated stopped passed (has_match ac line)

    sentinel_cases :
        (P : Redactor Code × Output → Type 0) (line : Bytes)
        (missing stopped passed : Redactor Code × Output) (o : Option Automaton)
        → (o ≡ none → P missing)
        → ((s : Automaton) → o ≡ some s → has_match s line ≡ false → P stopped)
        → P passed
        → P (sentinel_by missing stopped passed line o)
    sentinel_cases P line missing stopped passed none h k l = h refl
    sentinel_cases P line missing stopped passed (some s) h k l =
        gated_by P stopped passed (has_match s line) (k s refl) (λ e. l)

    gate-Outcome :
        (cold : Automaton) (r : Redactor Code) (line : Bytes)
        → r.patterns.automaton ≡ some cold
        → Outcome cold r line (sentinel_gate jit_match pcre_match sort has_triggers r line)
    unfolding sentinel_gate
    gate-Outcome cold r line e =
        let hot = hot_scan jit_match pcre_match sort has_triggers r line in
        sentinel_cases (Outcome cold r line) line hot
          (record r { lines_sentinel_filtered = r.lines_sentinel_filtered + 1 }, unchanged line) hot
          r.patterns.sentinel (λ missing. hot-Outcome cold r line e)
          (λ s f g. inl (refl, inr (inr (inl (s, f, g))))) (hot-Outcome cold r line e)

    prefiltered-Outcome :
        (cold : Automaton) (r : Redactor Code) (line : Bytes)
        → r.patterns.automaton ≡ some cold
        → r.use_sse42 ≡ true
        → 0 < r.trigger_count
        → has_triggers r.triggers r.trigger_count line ≡ false
        → Outcome cold r line (prefiltered jit_match pcre_match sort has_triggers r line)
    unfolding prefiltered
    prefiltered-Outcome cold r line e sse some_trigger clear =
        let passed : Redactor Code × Output =
          (record r { lines_prefiltered = r.lines_prefiltered + 1 }, unchanged line) in
        sentinel_cases (Outcome cold r line) line passed passed
          (cold_scan jit_match pcre_match sort has_triggers r line) r.patterns.sentinel
          (λ missing. inl (refl, inr (inl (missing, sse, some_trigger, clear))))
          (λ s f g. inl (refl, inr (inr (inl (s, f, g))))) (cold-Outcome cold r line e)

    tests :
        (a b : Bool) (n : ℕ) → (a && ltb 0 n && not b) ≡ true → (a ≡ true) × (0 < n) × (b ≡ false)
    tests a b n h = ground arith

    phases-Outcome :
        (cold : Automaton) (r : Redactor Code) (line : Bytes)
        → r.patterns.automaton ≡ some cold
        → Outcome cold r line (phases jit_match pcre_match sort has_triggers r line)
    unfolding phases
    phases-Outcome cold r line e =
        let triggered = has_triggers r.triggers r.trigger_count line in
        gated_by (Outcome cold r line) (sentinel_gate jit_match pcre_match sort has_triggers r line)
          (prefiltered jit_match pcre_match sort has_triggers r line)
          (r.use_sse42 && ltb 0 r.trigger_count && not triggered)
          (λ stop. gate-Outcome cold r line e)
          (λ go.
            let (sse, some_trigger, clear) = tests r.use_sse42 triggered r.trigger_count go in
            prefiltered-Outcome cold r line e sse some_trigger clear)

    -- With an automaton for the cold scan, `redactor_process` returns either what `redactor_apply`
    -- makes of the line for at least one and at most 64 locations, each of which PCRE2 reported for
    -- a candidate of the hot or the cold automaton, with both ends in the line; or the line itself,
    -- because it is empty, because the filter finds no trigger and there is no sentinel, because the
    -- sentinel finds nothing, or because PCRE2 confirms none of the first 64 candidates of the cold
    -- automaton.
    pub process-Outcome :
        (cold : Automaton) (r : Redactor Code) (line : Bytes)
        → r.patterns.automaton ≡ some cold
        → Outcome cold r line (process jit_match pcre_match sort has_triggers r line)
    unfolding process
    process-Outcome cold r [] e = inl (refl, inl refl)
    process-Outcome cold r (c ∷ cs) e =
        phases-Outcome cold (record r { lines_scanned = r.lines_scanned + 1 }) (c ∷ cs) e

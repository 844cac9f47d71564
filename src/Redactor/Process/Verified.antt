-- ===== src/Redactor/Process/Verified.antt =====
-- `verify_ac_matches` of src/redactor.c, against a description of the candidates that it accepts.
use plumbr_c.Prelude.{
  Option-cases, Bool-cases, inl, inr, ap, ◌∙◌, ℕ, zero, suc, ◌≡◌, ◌≤◌, ◌<◌, refl, sym, subst, Bytes,
  List, [], ◌∷◌, Option, none, some, length, All, arith, true, Bool, get_elem?, leb, ltb, ◌&&◌,
  if◌then◌else◌,
}
use plumbr_c.Automaton.{Match}
use plumbr_c.Pattern.{Pattern, PatternSet, get}
use plumbr_c.Redactor.{MatchLocation, Redactor}
use plumbr_c.Redactor.Process.{
  PcreResult, matched, bad_option, no_match, search_start, run_pcre, verify_one, verify_ac_matches,
}

none_ne_some : {l : MatchLocation} → none ≡ some l → ⊥
none_ne_some e = cc

-- The locations from one candidate on, by whether it is verified.
abbrev one_more :
    List MatchLocation → List MatchLocation → Option MatchLocation → List MatchLocation
one_more skipped rest found = elim found [ none ↦ skipped | some l ↦ l ∷ rest ]

module _ {Code : Type 0} (jit_match pcre_match : Code → Bytes → ℕ → PcreResult) where
  -- The candidate's pattern is there, PCRE2 gave it match data, and its regular expression, started
  -- ten bytes before the candidate's word, matches the line from `l.start` to `l.end`, both in the
  -- line.
  pub record Verifies (ps : PatternSet Code) (num_patterns : ℕ) (match_data : ℕ → Bool)
      (line : Bytes) (m : Match) (l : MatchLocation) : Type 0 where
    pub pattern : Pattern Code
    pub is_there : get ps m.pattern_id ≡ some pattern
    pub in_range : m.pattern_id < num_patterns
    pub has_data : match_data m.pattern_id ≡ true
    pub matches :
        run_pcre jit_match pcre_match pattern.regex line (search_start m) ≡ matched l.start l.end
    pub same_id : l.pattern_id ≡ m.pattern_id
    pub start_in : l.start ≤ length line
    pub end_in : l.end ≤ length line

  -- The end of a round, by what PCRE2 reports.
  abbrev confirmed : Bytes → Match → PcreResult → Option MatchLocation
  confirmed line m result = elim result [
    | bad_option ↦ none
    | no_match ↦ none
    | matched a b ↦
        if leb a (length line) && leb b (length line)
        then some (record { start = a; end = b; pattern_id = m.pattern_id })
        else none
  ]

  verify_one-confirmed :
      (r : Redactor Code) (line : Bytes) (m : Match) {pat : Pattern Code}
      → get r.patterns m.pattern_id ≡ some pat
      → (ltb m.pattern_id r.num_patterns && r.match_data m.pattern_id) ≡ true
      → verify_one jit_match pcre_match r line m
        ≡ confirmed line m (run_pcre jit_match pcre_match pat.regex line (search_start m))
  unfolding verify_one
  verify_one-confirmed r line m e d = rw (verify_one, e, d) refl

  confirmed-parts :
      (line : Bytes) (m : Match) (p : PcreResult) (l : MatchLocation)
      → confirmed line m p ≡ some l
      → (p ≡ matched l.start l.end)
        × (l.pattern_id ≡ m.pattern_id)
        × (l.start ≤ length line)
        × (l.end ≤ length line)
  confirmed-parts line m bad_option l h = absurd (none_ne_some h)
  confirmed-parts line m no_match l h = absurd (none_ne_some h)
  confirmed-parts line m (matched a b) l h = ground arith

  confirmed-some :
      (line : Bytes) (m : Match) (l : MatchLocation)
      → l.pattern_id ≡ m.pattern_id
      → l.start ≤ length line
      → l.end ≤ length line
      → confirmed line m (matched l.start l.end) ≡ some l
  confirmed-some line m l i h k = ground arith

  verify_one-parts :
      (r : Redactor Code) (line : Bytes) (m : Match) (l : MatchLocation)
      → verify_one jit_match pcre_match r line m ≡ some l
      → Verifies r.patterns r.num_patterns r.match_data line m l
  verify_one-parts r line m l h = elim (Option-cases (get r.patterns m.pattern_id)) [
    | inl e ↦ absurd (unfold verify_one in ground (arith, e))
    | inr (pat, e) ↦
        elim (Bool-cases (ltb m.pattern_id r.num_patterns && r.match_data m.pattern_id)) [
          | inr f ↦ absurd (unfold verify_one in ground (arith, e, f))
          | inl d ↦
              let run = run_pcre jit_match pcre_match pat.regex line (search_start m) in
              let parts =
                confirmed-parts line m run l (sym (verify_one-confirmed r line m e d) ∙ h) in
              record {
                pattern = pat;
                is_there = e;
                in_range = ground arith;
                has_data = ground arith;
                matches = parts.0;
                same_id = parts.1;
                start_in = parts.2;
                end_in = parts.3;
              }
        ]
  ]

  verify_one-accepts :
      (r : Redactor Code) (line : Bytes) (m : Match) (l : MatchLocation)
      → Verifies r.patterns r.num_patterns r.match_data line m l
      → verify_one jit_match pcre_match r line m ≡ some l
  verify_one-accepts r line m l v =
      let ready : (ltb m.pattern_id r.num_patterns && r.match_data m.pattern_id) ≡ true =
        ground (arith, v.in_range, v.has_data) in
      verify_one-confirmed r line m v.is_there ready
      ∙ ap (confirmed line m) v.matches
      ∙ confirmed-some line m l v.same_id v.start_in v.end_in

  -- The location comes from one of the candidates.
  abbrev pub Verified : Redactor Code → Bytes → List Match → MatchLocation → Type 0
  Verified r line ms l =
      (m : Match) × (i : ℕ) × (get_elem? ms i ≡ some m)
      × Verifies r.patterns r.num_patterns r.match_data line m l

  -- PCRE2 confirms none of the candidates.
  abbrev pub NoneVerified : Redactor Code → Bytes → List Match → Type 0
  NoneVerified r line ms =
      All (λ m. ¬ ((l : MatchLocation) × Verifies r.patterns r.num_patterns r.match_data line m l))
        ms

  verify-cons :
      (r : Redactor Code) (line : Bytes) (m : Match) (ms : List Match) (room : ℕ)
      → verify_ac_matches jit_match pcre_match r line (m ∷ ms) (suc room)
        ≡ one_more
            (verify_ac_matches jit_match pcre_match r line ms (suc room))
            (verify_ac_matches jit_match pcre_match r line ms room)
            (verify_one jit_match pcre_match r line m)
  unfolding verify_ac_matches
  verify-cons r line m ms room = refl

  -- What is verified of the candidates behind the first is verified of all.
  Verified-later :
      (r : Redactor Code) (line : Bytes) (m : Match) (ms : List Match) (ls : List MatchLocation)
      → All (Verified r line ms) ls
      → All (Verified r line (m ∷ ms)) ls
  Verified-later r line m ms [] h = tt
  Verified-later r line m ms (l ∷ ls) ((m', i, e, v), h) =
      ((m', suc i, e, v), Verified-later r line m ms ls h)

  -- At most `room` locations, each verified.
  abbrev pub AllVerified : Redactor Code → Bytes → List Match → ℕ → List MatchLocation → Type 0
  AllVerified r line ms room ls = All (Verified r line ms) ls × (length ls ≤ room)

  pub verify_ac_matches-Verified :
      (r : Redactor Code) (line : Bytes) (ms : List Match) (room : ℕ)
      → AllVerified r line ms room (verify_ac_matches jit_match pcre_match r line ms room)
  unfolding verify_ac_matches
  verify_ac_matches-Verified r line ms zero = (tt, omega arith)
  verify_ac_matches-Verified r line [] (suc room) = (tt, omega arith)
  verify_ac_matches-Verified r line (m ∷ ms) (suc room) =
      let Good = AllVerified r line (m ∷ ms) (suc room) in
      let skipped = verify_ac_matches jit_match pcre_match r line ms (suc room) in
      let rest = verify_ac_matches jit_match pcre_match r line ms room in
      let eq = verify-cons r line m ms room in
      elim (Option-cases (verify_one jit_match pcre_match r line m)) [
        | inl e ↦
            let (all, len) = verify_ac_matches-Verified r line ms (suc room) in
            subst Good (sym (eq ∙ ap (one_more skipped rest) e))
              (Verified-later r line m ms skipped all, len)
        | inr (l, e) ↦
            let (all, len) = verify_ac_matches-Verified r line ms room in
            subst Good (sym (eq ∙ ap (one_more skipped rest) e)) (
              ((m, 0, refl, verify_one-parts r line m l e), Verified-later r line m ms rest all),
              omega arith,
            )
      ]

  cons_ne_nil : {l : MatchLocation} {ls : List MatchLocation} → l ∷ ls ≡ [] → ⊥
  cons_ne_nil e = cc

  pub verify_ac_matches-none :
      (r : Redactor Code) (line : Bytes) (ms : List Match) (room : ℕ)
      → verify_ac_matches jit_match pcre_match r line ms (suc room) ≡ []
      → NoneVerified r line ms
  verify_ac_matches-none r line [] room h = tt
  verify_ac_matches-none r line (m ∷ ms) room h =
      let skipped = verify_ac_matches jit_match pcre_match r line ms (suc room) in
      let rest = verify_ac_matches jit_match pcre_match r line ms room in
      let eq = verify-cons r line m ms room in
      elim (Option-cases (verify_one jit_match pcre_match r line m)) [
        | inr (l, e) ↦ absurd (cons_ne_nil (sym (eq ∙ ap (one_more skipped rest) e) ∙ h))
        | inl e ↦ (
          λ (l, v). none_ne_some (sym e ∙ verify_one-accepts r line m l v),
          verify_ac_matches-none r line ms room (sym (eq ∙ ap (one_more skipped rest) e) ∙ h),
        )
      ]

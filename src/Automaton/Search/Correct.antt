-- ===== src/Automaton/Search/Correct.antt =====
-- The tables of a completed automaton, against the words stored in it.
use plumbr_c.Prelude.{
  ap₂, All, ◌++◌, ◌%◌, inr, Bool-cases, inl, ap, Option-cases, sym, ◌∙◌, refl, arith, ◌<◌, ◌≤◌, ◌≡◌,
  ℕ, ◌+◌, zero, suc, if◌then◌else◌,
}
use plumbr_c.Automaton.{true, false, State, Automaton, Match, Meta, int16, positive, uint16}
use plumbr_c.Automaton.Trie.Walk.{IsTrie}
use plumbr_c.Automaton.Trie.Add.{lookup-walk-some}
use plumbr_c.Automaton.Suffix.{
  longest_suffix-snoc, longest_suffix-lt, longest_suffix, longest_output,
}
use plumbr_c.Automaton.Build.{meta_of}
use plumbr_c.Automaton.Build.Ready.{IsReady, length-path, root_path}
use plumbr_c.Automaton.Build.Complete.{Completed}
use plumbr_c.Automaton.Search.{List, ◌∷◌, [], length, Bytes, match_at}
use plumbr_c.Automaton.Search.Laws.{outputs, matches_from}
use plumbr_c.Automaton.Search.Occurrences.{
  suffix_matches, occurrences_from, output-none, output-some, suffix_matches-none,
  suffix_matches-some, suffix_matches-nil, suffix_matches-longest,
}

outputs_stop : (meta : ℕ → Meta) (fuel i ms : ℕ) → positive ms ≡ false → outputs meta fuel i ms ≡ []
unfolding outputs
outputs_stop meta zero i ms e = refl
outputs_stop meta (suc fuel) i ms e = ground arith

outputs_step :
    (meta : ℕ → Meta) (fuel i ms : ℕ)
    → positive ms ≡ true
    → outputs meta (suc fuel) i ms ≡ (
        if (meta ms).is_final
        then match_at meta i ms ∷ outputs meta fuel i (int16 (meta ms).output)
        else outputs meta fuel i (int16 (meta ms).output))
unfolding outputs
outputs_step meta fuel i ms e = ground arith

module _ {ac : Automaton} (ok : IsReady ac) (small : ac.num_states ≤ 32767) {st : ℕ → State}
    (full : Completed ok st) where
  abbrev v : IsTrie ac
  v = ok.trie

  module _ (i : ℕ) where
    -- A state reports its own word where that is stored, and goes on from its tail.
    state_match :
        (ms x : ℕ) (u : Bytes)
        → ms < ac.num_states
        → v.path ms ≡ x ∷ u
        → (if (st ms).is_final
            then match_at (meta_of st) i ms ∷ suffix_matches ac i u
            else suffix_matches ac i u)
          ≡ suffix_matches ac i (x ∷ u)
    state_match ms x u h e =
        let found = lookup-walk-some ac.states 0 (x ∷ u) ms (rw e at (v.reach ms h)) in
        let (k0, k1, k2) = full.kept ms in
        let long = k2 ∙ v.depth_is ms h ∙ ap (λ p. uint16 (length p)) e in
        let short : length (x ∷ u) % 65536 ≡ length (x ∷ u) =
          omega (arith, length-path ok ms h, ap length e) in
        elim (Bool-cases (ac.states ms).is_final) [
          | inl f ↦
              let r =
                suffix_matches-some ac i x u {id = (ac.states ms).pattern_id} (found ∙ rw f refl) in
              ground arith
          | inr f ↦ let r = suffix_matches-none ac i x u (found ∙ rw f refl) in ground arith
        ]

    rest_match :
        (fuel ms x : ℕ) (u : Bytes)
        → ms < ac.num_states
        → v.path ms ≡ x ∷ u
        → ((t : ℕ)
            → t < ac.num_states
            → length (v.path t) ≤ length u
            → outputs (meta_of st) fuel i t ≡ suffix_matches ac i (v.path t))
        → outputs (meta_of st) fuel i (int16 (meta_of st ms).output) ≡ suffix_matches ac i u
    rest_match fuel ms x u h e ih =
        let out : (st ms).output ≡ longest_output ac.states (x ∷ u) =
          full.output_is ms h ∙ rw e refl in
        elim (Option-cases (longest_output ac.states (x ∷ u))) [
          | inl n ↦
              ap (λ o. outputs (meta_of st) fuel i (int16 o)) (out ∙ n)
              ∙ outputs_stop (meta_of st) fuel i 65535 refl
              ∙ sym (output-none ok i x u n)
          | inr (t, s) ↦
              let (t_lt, le, m) = output-some ok i x u t s in
              let whole : t % 65536 ≡ t = omega (arith, t_lt, small) in
              ap (λ o. outputs (meta_of st) fuel i (int16 o)) (out ∙ s)
              ∙ ap (λ k. outputs (meta_of st) fuel i k) whole
              ∙ ih t t_lt le
              ∙ sym m
        ]

    outputs-suffix :
        (fuel ms : ℕ)
        → ms < ac.num_states
        → length (v.path ms) < fuel
        → outputs (meta_of st) fuel i ms ≡ suffix_matches ac i (v.path ms)
    outputs-suffix zero ms h l = absurd (omega arith)
    outputs-suffix (suc fuel) ms h l =
        by_word (v.path ms) refl (λ t k le. outputs-suffix fuel t k le)
      where
        by_word :
            (p : Bytes)
            → v.path ms ≡ p
            → ((t : ℕ)
                → t < ac.num_states
                → length (v.path t) < fuel
                → outputs (meta_of st) fuel i t ≡ suffix_matches ac i (v.path t))
            → outputs (meta_of st) (suc fuel) i ms ≡ suffix_matches ac i (v.path ms)
        by_word [] e ih =
            let r = root_path ok ms h e in
            rw e (
              outputs_stop (meta_of st) (suc fuel) i ms (ground arith)
              ∙ sym (suffix_matches-nil ac i))
        by_word (x ∷ u) e ih =
            let up : positive ms ≡ true = ground arith in
            let rest =
              rest_match fuel ms x u h e (λ t k le. ih t k (omega (arith, le, ap length e))) in
            rw e (outputs_step (meta_of st) fuel i ms up ∙ rw rest (state_match ms x u h e))

  -- A search by transitions that agree with the longest suffixes finds all occurrences.
  pub matches_from-occurrences :
      (next : ℕ → ℕ → ℕ)
      → ((s c : ℕ)
          → s < ac.num_states
          → c < 256
          → next s c ≡ longest_suffix ac.states (v.path s ++ c ∷ []))
      → (before : Bytes) (i : ℕ) (text : Bytes) → All (λ c. c < 256) text
      → matches_from (meta_of st) ac.num_states next (longest_suffix ac.states before) i text
        ≡ occurrences_from ac before i text
  unfolding matches_from occurrences_from
  matches_from-occurrences next agree before i [] b = refl
  matches_from-occurrences next agree before i (c ∷ cs) (c_lt, b) =
      let s = longest_suffix ac.states before in
      let t = longest_suffix ac.states (before ++ c ∷ []) in
      let e : next s c ≡ t =
        agree s c (longest_suffix-lt v before) c_lt ∙ sym (longest_suffix-snoc v before c) in
      let t_lt = longest_suffix-lt v (before ++ c ∷ []) in
      rw e (
        ap₂ (λ (xs ys : List Match). xs ++ ys)
          (outputs-suffix i ac.num_states t t_lt (omega (arith, length-path ok t t_lt, t_lt))
            ∙ sym (suffix_matches-longest ok i (before ++ c ∷ [])))
          (matches_from-occurrences next agree (before ++ c ∷ []) (i + 1) cs b))

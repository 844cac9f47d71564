-- ===== src/Automaton/Build/Ready.antt =====
-- What `ac_build` relies on: a trie over bytes whose states are numbered from the root on, and no
-- output yet.
use plumbr_c.Prelude.{
  ◌∙◌, sym, inr, inl, Option-cases, ◌∷◌, arith, ◌+◌, ◌≤◌, [], length, ◌≡◌, Bytes, ◌<◌, ℕ,
}
use plumbr_c.Automaton.{false, none, some, Automaton}
use plumbr_c.Automaton.Trie.Walk.{walk_step, walk-nil, IsTrie, walk}
use plumbr_c.Automaton.Suffix.{longest_suffix-walk, longest_suffix}

pub record IsReady (ac : Automaton) : Type 0 where
  pub trie : IsTrie ac
  pub unlinked : (s : ℕ) → s < ac.num_states → (ac.states s).output ≡ none
  pub root_open : (ac.states 0).is_final ≡ false
  pub newer :
      (s c t : ℕ) → s < ac.num_states → (ac.states s).goto_table c ≡ some t → (c < 256) × (s < t)

module _ {ac : Automaton} (ok : IsReady ac) where
  walk-newer :
      (w : Bytes) (s : ℕ) {t : ℕ}
      → s < ac.num_states
      → walk ac.states s w ≡ some t
      → s + length w ≤ t
  walk-newer [] s h e = unfold walk in ground arith
  walk-newer (c ∷ cs) s {t} h e = elim (Option-cases ((ac.states s).goto_table c)) [
    | inl g ↦ unfold walk in ground arith
    | inr (u, g) ↦
        let (_, s_lt) = ok.newer s c u h g in
        omega (
          arith,
          s_lt,
          walk-newer cs u (ok.trie.edge s c u h g).0 (sym (walk_step ac.states s c cs g) ∙ e),
        )
  ]

  -- A state's word is no longer than the state's number.
  pub length-path : (s : ℕ) → s < ac.num_states → length (ok.trie.path s) ≤ s
  length-path s h =
      omega (arith, walk-newer (ok.trie.path s) 0 ok.trie.nonempty (ok.trie.reach s h))

  pub root_path : (s : ℕ) → s < ac.num_states → ok.trie.path s ≡ [] → s ≡ 0
  root_path s h e =
      let r = rw e at (ok.trie.reach s h) in let q = walk-nil ac.states 0 in ground (arith, r, q)

  pub longest_suffix_path :
      (s : ℕ) → s < ac.num_states → longest_suffix ac.states (ok.trie.path s) ≡ s
  longest_suffix_path s h = longest_suffix-walk ac.states (ok.trie.path s) (ok.trie.reach s h)

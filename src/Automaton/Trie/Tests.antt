-- ===== src/Automaton/Trie/Tests.antt =====
-- Words stored by `ac_add_pattern`, and the theorems at concrete tries.
use plumbr_c.Prelude.{ap, ◌≡◌, refl, none, some, arith, codes, length}
use plumbr_c.Automaton.{Automaton}
use plumbr_c.Automaton.Trie.{
  fresh_state, fresh_automaton, add_pattern, set_prefetch, set_force_flat,
}
use plumbr_c.Automaton.Build.Ready.{IsReady}
use plumbr_c.Automaton.Trie.Numbered.{fresh-IsReady, add_pattern-IsReady}
use plumbr_c.Automaton.Trie.Walk.{IsTrie}
use plumbr_c.Automaton.Trie.Add.{
  lookup, add_pattern-IsTrie, lookup-add_pattern_self, lookup-add_pattern_ne, fresh-IsTrie,
}

abbrev blank : Automaton
blank = fresh_automaton (λ _. fresh_state 0)

-- `blank` with "key" under 4.
one_word : Automaton
unfolding add_pattern
one_word = (add_pattern blank (codes "key") 4).0

finds : lookup one_word (codes "key") ≡ some 4
unfolding one_word
finds =
    lookup-add_pattern_self (codes "key") 4 (fresh-IsTrie (λ _. fresh_state 0))
      (unfold add_pattern in refl)

empty_trie-IsTrie : IsTrie blank
empty_trie-IsTrie = fresh-IsTrie (λ _. fresh_state 0)

one_word-IsTrie : IsTrie one_word
unfolding one_word
one_word-IsTrie = add_pattern-IsTrie (codes "key") 4 empty_trie-IsTrie

add_pattern-IsReady_example : IsReady (add_pattern blank (codes "key") 4).0
add_pattern-IsReady_example =
    add_pattern-IsReady (codes "key") 4 (fresh-IsReady (λ _. fresh_state 0)) (omega arith)

lookup-add_pattern_self_example :
    lookup (add_pattern one_word (codes "ke") 5).0 (codes "ke") ≡ some 5
lookup-add_pattern_self_example =
    lookup-add_pattern_self (codes "ke") 5 one_word-IsTrie
      (unfold one_word in unfold add_pattern in refl)

lookup-add_pattern_ne_example :
    lookup (add_pattern one_word (codes "ke") 5).0 (codes "key") ≡ lookup one_word (codes "key")
lookup-add_pattern_ne_example =
    lookup-add_pattern_ne (codes "ke") (codes "key") 5 one_word-IsTrie
      (λ e. absurd (omega (arith, ap length e)))

flat : set_force_flat none ≡ none
unfolding set_force_flat
flat = refl

tuned : (set_prefetch blank 2 1).prefetch_distance ≡ 2
unfolding set_prefetch
tuned = refl

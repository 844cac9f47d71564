-- ===== src/Pattern/Build/Sentinels.antt =====
-- src/patterns.c: the words that the sentinel automaton of `patterns_build` stores.
use plumbr_c.Prelude.{
  ℕ, ◌+◌, ◌-◌, ◌%◌, ◌^◌, ◌≡◌, ◌≤◌, Bool, true, false, Bytes, List, [], ◌∷◌, ◌++◌, Option, none,
  some, if◌then◌else◌, arith, refl, length, bytes_eq, ltb, take, ◌&&◌, ap, ◌∙◌, codes,
}
use plumbr_c.Automaton.{State, Automaton}
use plumbr_c.Automaton.Trie.{fresh_automaton}
use plumbr_c.Automaton.Trie.Walk.{IsTrie, lookup_from}
use plumbr_c.Automaton.Trie.Add.{lookup, fresh-IsTrie}
use plumbr_c.Pattern.Build.{leb, add_sentinels, sentinels}
use plumbr_c.Pattern.Build.Literals.{add_pattern-Stored}

-- The word of an entry of the table, as `ac_add_pattern` reads it.
abbrev pub word_of : Bytes × ℕ → Bytes
word_of (word, len) = take len (word ++ (0 ∷ []))

-- The last entry with a word, counted from `i`, if there is one, and otherwise `old`.
unfoldable pub last_sentinel : Bytes → ℕ → List (Bytes × ℕ) → Option ℕ → Option ℕ
last_sentinel w i [] old = old
last_sentinel w i (s ∷ ss) old =
    last_sentinel w (i + 1) ss (if bytes_eq (word_of s) w then some (i % 2 ^ 32) else old)

-- No entry is empty, and there is a free state for each byte.
unfoldable pub has_room : ℕ → List (Bytes × ℕ) → Bool
has_room free [] = true
has_room free (s ∷ ss) =
    let rest = has_room (free - length (word_of s)) ss in
    ltb 0 (length (word_of s)) && (leb (length (word_of s)) free && rest)

lookup-add_sentinels :
    (i : ℕ) (ss : List (Bytes × ℕ)) (free : ℕ) (w : Bytes) {ac : Automaton}
    → IsTrie ac
    → ac.built ≡ false
    → ac.num_states + free ≤ ac.capacity
    → has_room free ss ≡ true
    → lookup (add_sentinels i ss ac) w ≡ last_sentinel w i ss (lookup ac w)
unfolding add_sentinels last_sentinel has_room
lookup-add_sentinels i [] free w v b h r = refl
lookup-add_sentinels i (s ∷ ss) free w {ac} v b h r =
    let (nonempty, fits, rest) = room_parts (length (word_of s)) free _ r in
    let t = add_pattern-Stored (word_of s) (i % 2 ^ 32) v b nonempty (omega arith) in
    lookup-add_sentinels (i + 1) ss (free - length (word_of s)) w t.trie (t.built ∙ b)
      (omega (arith, t.states, t.capacity)) rest
    ∙ ap (last_sentinel w (i + 1) ss) (t.finds w)
  where
    room_parts :
        (a b : ℕ) (r : Bool)
        → (ltb 0 a && (leb a b && r)) ≡ true
        → (ltb 0 a ≡ true) × (a ≤ b) × (r ≡ true)
    room_parts a b r h = ground arith

sentinels_fit : has_room 8191 sentinels ≡ true
unfolding has_room
sentinels_fit = refl

lookup-fresh : (prior : ℕ → State) (w : Bytes) → lookup (fresh_automaton prior) w ≡ none
unfolding lookup_from
lookup-fresh prior [] = refl
lookup-fresh prior (c ∷ cs) = refl

-- The sentinel automaton stores under each word the index of its last entry in the table; under the
-- words of no entry it stores nothing, "Steuernummer" among them, since the length that its entry
-- gives takes the terminating NUL in.
pub lookup-sentinels :
    (prior : ℕ → State) (w : Bytes)
    → lookup (add_sentinels 0 sentinels (fresh_automaton prior)) w
      ≡ last_sentinel w 0 sentinels none
lookup-sentinels prior w =
    lookup-add_sentinels 0 sentinels 8191 w (fresh-IsTrie prior) refl (omega arith) sentinels_fit
    ∙ ap (last_sentinel w 0 sentinels) (lookup-fresh prior w)

pub lookup-steuernummer :
    (prior : ℕ → State)
    → lookup (add_sentinels 0 sentinels (fresh_automaton prior)) (codes "Steuernummer") ≡ none
unfolding last_sentinel
lookup-steuernummer prior = lookup-sentinels prior (codes "Steuernummer")

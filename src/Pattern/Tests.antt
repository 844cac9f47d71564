-- ===== src/Pattern/Tests.antt =====
-- Pattern files loaded from concrete bytes, and the theorems at concrete paths, files and sets.
use plumbr_c.Prelude.{
  ℕ, ◌≡◌, Bool, true, false, ◌&&◌, not, Bytes, List, [], ◌∷◌, Option, none, some, ◌==◌, ltb, codes,
  arith, refl, All,
}
use plumbr_c.Automaton.Trie.{fresh_state, fresh_automaton}
use plumbr_c.Automaton.Trie.Add.{lookup, fresh-IsTrie}
use plumbr_c.Pattern.{Pattern, PatternSet, new_pattern}
use plumbr_c.Pattern.Path.{
  climbs, path_accepted, path_accepted_iff, components, any_dots, is_absolute,
}
use plumbr_c.Pattern.Load.{
  is_space, skipped, entry, parse_line, parse_fields, load_file, FileSystem, skip_spaces,
}
use plumbr_c.Pattern.Load.Fields.{IsField, IsFieldByte, parse_fields-no_literal}
use plumbr_c.Pattern.Load.RoundTrip.{StartsName, Entry, IsEntry, print, add_all, load_file-print}
use plumbr_c.Pattern.Build.{add_literals}
use plumbr_c.Pattern.Build.Literals.{last_with, literal_bytes, lookup-add_literals}

-- Every regular expression compiles, to itself.
abbrev compile : Bytes → Option Bytes
compile regex = some regex

abbrev empty_set : PatternSet Bytes
empty_set = record {
  patterns = [];
  count = 0;
  capacity = 4;
  automaton = none;
  hot_ac = none;
  hot_count = 0;
  sentinel = none;
  built = false;
}

abbrev field_test : Bytes → Bool
field_test [] = true
field_test (c ∷ cs) = (not (c == b'|') && (not (c == b'\n') && not (c == 0))) && field_test cs

field_ok : (s : Bytes) → field_test s ≡ true → All IsFieldByte s
field_ok [] h = tt
field_ok (c ∷ cs) h = let (hc, ht) = parts _ _ h in (byte_ok c hc, field_ok cs ht)
  where
    parts : (a b : Bool) → (a && b) ≡ true → (a ≡ true) × (b ≡ true)
    parts true true h = (refl, refl)
    parts true false h = cc
    parts false b h = cc

    byte_ok :
        (c : ℕ) → (not (c == b'|') && (not (c == b'\n') && not (c == 0))) ≡ true → IsFieldByte c
    byte_ok c h =
        (λ e. absurd (ground arith), λ e. absurd (ground arith), λ e. absurd (ground arith))

is_field : (c : ℕ) (cs : Bytes) → field_test (c ∷ cs) ≡ true → IsField (c ∷ cs)
is_field c cs h = record { nonempty = λ e. absurd cc; bytes = field_ok (c ∷ cs) h }

path_accepted_iff_example :
    path_accepted true (codes "a/../b") ≡ (not (any_dots (components (codes "a/../b"))) && true)
path_accepted_iff_example = path_accepted_iff true (codes "a/../b")

-- Dots inside a name are no component.
dots_inside : path_accepted false (codes "a..b/..c") ≡ true
unfolding path_accepted climbs is_absolute
dots_inside = refl

comment : parse_line (codes "  # x|y|z") ≡ skipped
unfolding parse_line
comment = refl

abbrev ssn : Entry
ssn = record {
  name = codes "ssn";
  literal = codes "SSN";
  regex = codes "SSN [0-9]+";
  replacement = codes "XXX";
}

ssn-IsEntry : IsEntry ssn
unfolding StartsName is_space
ssn-IsEntry = record {
  name_ok = is_field _ _ refl;
  name_start = (refl, λ e. absurd (omega (arith, e)));
  literal_ok = is_field _ _ refl;
  regex_ok = is_field _ _ refl;
  replacement_ok = is_field _ _ refl;
  fits = omega arith;
}

abbrev one_file : FileSystem
one_file path = some (print (ssn ∷ []))

load_file-print_example :
    load_file compile one_file false empty_set (codes "p.txt")
    ≡ (add_all compile empty_set (ssn ∷ []), ltb 0 (add_all compile empty_set (ssn ∷ [])).count)
load_file-print_example =
    load_file-print compile one_file false empty_set (codes "p.txt") (ssn ∷ []) (ssn-IsEntry, tt)
      (unfold path_accepted in unfold climbs in unfold is_absolute in refl) refl

parse_fields-no_literal_example :
    parse_fields (codes "email||.+@.+|E")
    ≡ entry (skip_spaces (codes "email")) (some (codes ".+@.+")) (codes "E") none
parse_fields-no_literal_example =
    parse_fields-no_literal (is_field b'e' (codes "mail") refl) (is_field b'.' (codes "+@.+") refl)
      (is_field b'E' [] refl)

abbrev names : List Bytes
names = codes ".hidden" ∷ codes "a.txt" ∷ codes "b.md" ∷ []

-- Two patterns with the same literal.
abbrev twins : List (Pattern Bytes)
unfolding new_pattern
twins =
    new_pattern (codes "a") (some (codes "key")) (codes "x") none 0
    ∷ new_pattern (codes "b") (some (codes "key")) (codes "y") none 1
    ∷ []

lookup-add_literals_example :
    lookup (add_literals (fresh_automaton (λ _. fresh_state 0)) twins) (codes "key") ≡ some 1
unfolding new_pattern last_with literal_bytes
lookup-add_literals_example =
    lookup-add_literals twins (codes "key") (fresh-IsTrie (λ _. fresh_state 0)) refl (omega arith)
      (refl, (refl, tt))

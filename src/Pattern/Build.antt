-- ===== src/Pattern/Build.antt =====
-- src/patterns.c: the three automata of a pattern set (`patterns_build`).
pub mod Literals
pub mod Sentinels
use plumbr_c.Prelude.{
  ℕ, zero, suc, ◌+◌, ◌-◌, ◌≡◌, Bool, true, false, ◌||◌, ◌&&◌, Bytes, List, [], ◌∷◌, ◌++◌, Option,
  none, some, ◌==◌, if◌then◌else◌, ltb, leb, length, take, codes, bytes_eq, ◌%◌, ◌^◌,
}
use plumbr_c.Arena.{Arena}
use plumbr_c.Automaton.{State, Automaton}
use plumbr_c.Automaton.Trie.{create, add_pattern, set_force_flat}
use plumbr_c.Automaton.Build.{build, BuildResult}
use plumbr_c.Pattern.{Pattern, PatternSet}

-- `PLUMBR_HOT_AC_SIZE`
abbrev pub hot_ac_size : ℕ
hot_ac_size = 20

-- `hot_names`
abbrev pub hot_names : List Bytes
hot_names =
    codes "password_value"
    ∷ codes "secret_value"
    ∷ codes "api_key_value"
    ∷ codes "token_value"
    ∷ codes "credential_value"
    ∷ codes "aws_access_key"
    ∷ codes "github_personal_access_token"
    ∷ codes "email_address"
    ∷ codes "generic_api_key"
    ∷ codes "generic_api_secret"
    ∷ codes "generic_auth_token"
    ∷ codes "bearer_token"
    ∷ codes "generic_password"
    ∷ codes "generic_secret_key"
    ∷ codes "visa"
    ∷ codes "mastercard"
    ∷ codes "amex"
    ∷ codes "ssn"
    ∷ codes "private_key_path"
    ∷ codes "generic_db_password"
    ∷ []

-- `sentinels`: the words, with the lengths that the table gives.
abbrev pub sentinels : List (Bytes × ℕ)
sentinels =
    (codes "password", 8)
    ∷ (codes "secret", 6)
    ∷ (codes "token", 5)
    ∷ (codes "AKIA", 4)
    ∷ (codes "ghp_", 4)
    ∷ (codes "sk_live_", 8)
    ∷ (codes "postgres://", 11)
    ∷ (codes "mongodb://", 10)
    ∷ (codes "-----BEGIN", 10)
    ∷ (codes "xoxb-", 5)
    ∷ (codes "eyJ", 3)
    ∷ (codes "Bearer", 6)
    ∷ (codes "api_key", 7)
    ∷ (codes "credential", 10)
    ∷ (codes "key", 3)
    ∷ (codes "MRN", 3)
    ∷ (codes "NPI", 3)
    ∷ (codes "diagnosis", 9)
    ∷ (codes "patient", 7)
    ∷ (codes "beneficiary", 11)
    ∷ (codes "ICD", 3)
    ∷ (codes "glucose", 7)
    ∷ (codes "A1C", 3)
    ∷ (codes "blood", 5)
    ∷ (codes "heart_rate", 10)
    ∷ (codes "encounter", 9)
    ∷ (codes "prescription", 12)
    ∷ (codes "Rx", 2)
    ∷ (codes "cardholder", 10)
    ∷ (codes "%B", 2)
    ∷ (codes "PIN", 3)
    ∷ (codes "track", 5)
    ∷ (codes "card_number", 11)
    ∷ (codes "cvv", 3)
    ∷ (codes "merchant", 8)
    ∷ (codes "IBAN", 4)
    ∷ (codes "NINO", 4)
    ∷ (codes "DNI", 3)
    ∷ (codes "NIE", 3)
    ∷ (codes "INSEE", 5)
    ∷ (codes "Steuernummer", 13)
    ∷ (codes "codice_fiscale", 14)
    ∷ (codes "driving_licen", 13)
    ∷ (codes "audit_id", 8)
    ∷ (codes "session_id", 10)
    ∷ (codes "role", 4)
    ∷ (codes "permission", 10)
    ∷ (codes "acl", 3)
    ∷ (codes "privilege", 9)
    ∷ (codes "encryption_key", 14)
    ∷ (codes "signing_key", 11)
    ∷ (codes "master_key", 10)
    ∷ (codes "mfa", 3)
    ∷ (codes "totp", 4)
    ∷ (codes "recovery_code", 13)
    ∷ (codes "kms", 3)
    ∷ []

module _ {Code : Type 0} where
  -- `p->has_literal && p->literal_len > 0`
  abbrev pub is_searched : Pattern Code → Bool
  is_searched p = p.has_literal && ltb 0 p.literal_len

  -- The loop that adds the literals; what `ac_add_pattern` returns is not looked at.
  unfoldable pub add_literals : Automaton → List (Pattern Code) → Automaton
  unfolding add_pattern
  add_literals ac [] = ac
  add_literals ac (p ∷ ps) =
      add_literals (if is_searched p then (add_pattern ac p.literal p.id).0 else ac) ps

  -- The first pattern of a name that has a literal.
  unfoldable pub find_hot : Bytes → List (Pattern Code) → Option (Pattern Code)
  find_hot name [] = none
  find_hot name (p ∷ ps) =
      let rest = find_hot name ps in if bytes_eq p.name name && is_searched p then some p else rest

  -- The loop over `hot_names`, with `hot_count`.
  unfoldable pub add_hot : List Bytes → List (Pattern Code) → Automaton → ℕ → Automaton × ℕ
  unfolding add_pattern find_hot
  add_hot [] patterns ac hot_count = (ac, hot_count)
  add_hot (name ∷ names) patterns ac hot_count =
      if ltb hot_count hot_ac_size
      then elim (find_hot name patterns) [
        | none ↦ add_hot names patterns ac hot_count
        | some p ↦ add_hot names patterns (add_pattern ac p.literal p.id).0 (hot_count + 1)
      ]
      else (ac, hot_count)

-- What `ac_build` leaves of an automaton that is kept only where it returns true. The outer `none` is a
-- fault of the completion.
abbrev built_or_null : BuildResult → Arena × Option (Option Automaton)
built_or_null (arena, none) = (arena, none)
built_or_null (arena, some (ac, true)) = (arena, some (some ac))
built_or_null (arena, some (ac, false)) = (arena, some none)

-- `hot_ac` and `hot_count`; `prior` is what the arena's cells hold where the states go.
unfoldable pub build_hot :
    {Code : Type 0}
    → Arena
    → (ℕ → State)
    → List (Pattern Code)
    → Arena × Option (Option Automaton) × ℕ
unfolding create set_force_flat add_hot build
build_hot arena prior patterns =
    let (arena1, created) = create arena prior in
    elim (set_force_flat created) [
      | none ↦ (arena1, some none, 0)
      | some ac ↦
          let (ac', hot_count) = add_hot hot_names patterns ac 0 in
          if hot_count == 0
          then (arena1, some none, 0)
          else let (arena2, kept) = built_or_null (build arena1 ac') in (arena2, kept, hot_count)
    ]

-- The loop over `sentinels`, from the index `i` on. A length past the word's end reads its NUL.
unfoldable pub add_sentinels : ℕ → List (Bytes × ℕ) → Automaton → Automaton
unfolding add_pattern
add_sentinels i [] ac = ac
add_sentinels i ((word, len) ∷ words) ac =
    add_sentinels (i + 1) words (add_pattern ac (take len (word ++ (0 ∷ []))) (i % 2 ^ 32)).0

unfoldable pub build_sentinel : Arena → (ℕ → State) → Arena × Option (Option Automaton)
unfolding create add_sentinels build
build_sentinel arena prior =
    let (arena1, created) = create arena prior in
    elim created [
      | none ↦ (arena1, some none)
      | some ac ↦ built_or_null (build arena1 (add_sentinels 0 sentinels ac))
    ]

-- How `patterns_build` returns: with the arena, and with the set and true or false; `none` is a fault,
-- in the completion or on an automaton that `patterns_create` could not make.
abbrev pub SetResult : Type 0 → Type 0
SetResult Code = Arena × Option (PatternSet Code × Bool)

module _ {Code : Type 0} where
  -- What follows the build of the first automaton.
  unfoldable pub build_tiers : Arena → (ℕ → State) → (ℕ → State) → PatternSet Code → SetResult Code
  unfolding build_hot build_sentinel
  build_tiers arena prior_hot prior_sentinel ps =
      let (arena1, hot, hot_count) = build_hot arena prior_hot ps.patterns in
      elim hot [
        | none ↦ (arena1, none)
        | some hot_ac ↦
            let (arena2, last) = build_sentinel arena1 prior_sentinel in
            elim last [
              | none ↦ (arena2, none)
              | some sentinel ↦ (
                arena2,
                some (
                  record ps {
                    hot_ac = hot_ac;
                    hot_count = hot_count;
                    sentinel = sentinel;
                    built = true;
                  },
                  true,
                ),
              )
            ]
      ]

  -- `patterns_build`
  unfoldable pub build_set : Arena → (ℕ → State) → (ℕ → State) → PatternSet Code → SetResult Code
  unfolding add_literals build build_tiers
  build_set arena prior_hot prior_sentinel ps =
      if ps.built then (arena, some (ps, true)) else elim ps.automaton [
        | none ↦ (arena, none)
        | some ac ↦
            let (arena1, result) = build arena (add_literals ac ps.patterns) in
            elim result [
              | none ↦ (arena1, none)
              | some (ac', ok) ↦
                  let ps' = record ps { automaton = some ac' } in
                  if ok
                  then build_tiers arena1 prior_hot prior_sentinel ps'
                  else (arena1, some (ps', false))
            ]
      ]

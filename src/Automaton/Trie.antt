-- ===== src/Automaton/Trie.antt =====
-- Creation of an automaton, and the insertion of patterns (`ac_create`, `ac_new_state`,
-- `ac_add_pattern`, the two setters).
pub mod Walk
pub mod Child
pub mod Insert
pub mod Add
pub mod Numbered
mod Tests
use plumbr_c.Prelude.{
  ℕ, zero, suc, ◌+◌, ◌*◌, ◌≡◌, Bool, true, false, Bytes, [], ◌∷◌, Option, none, some, ltb, leb,
  ◌==◌, if◌then◌else◌,
}
use plumbr_c.Arena.{Arena, alloc}
use plumbr_c.Automaton.{State, Meta, Automaton, update, max_states, uint16}

-- A state as `ac_create` and `ac_new_state` write it.
abbrev pub fresh_state : ℕ → State
fresh_state depth = record {
  goto_table = λ _. none;
  fail = 0;
  output = none;
  pattern_id = 0;
  depth = depth;
  is_final = false;
}

-- `sizeof(ACAutomaton)` and `sizeof(ACState)`
abbrev pub automaton_bytes : ℕ
automaton_bytes = 120

abbrev pub state_bytes : ℕ
state_bytes = 1040

-- The fields of a new automaton. Fresh pages of the arena are zero, and so NULL; `prior` is what
-- the other states of the array hold.
abbrev pub fresh_automaton : (ℕ → State) → Automaton
fresh_automaton prior = record {
  states = update prior 0 (fresh_state 0);
  num_states = 1;
  capacity = max_states;
  num_patterns = 0;
  built = false;
  prefetch_distance = 1;
  prefetch_hint = 0;
  force_flat = false;
  dfa = none;
  meta = λ _. record { output = none; pattern_id = 0; depth = 0; is_final = false };
  dfa_memory = 0;
  root_row = none;
  compressed = λ _. 0;
  row_index = λ _. record { offset = 0; num_transitions = 0 };
  compressed_size = 0;
}

-- `ac_create`
unfoldable pub create : Arena → (ℕ → State) → Arena × Option Automaton
create arena prior =
    let (arena1, ac) = alloc arena automaton_bytes in
    let (arena2, states) = alloc arena1 (max_states * state_bytes) in
    elim ac [
      | none ↦ (arena1, none)
      | some _ ↦ elim states [
        | none ↦ (arena2, none)
        | some _ ↦ (arena2, some (fresh_automaton prior))
      ]
    ]

-- `ac_new_state`; `none` is the -1 of "out of states".
unfoldable pub new_state : Automaton → ℕ → Automaton × Option ℕ
new_state ac depth = if leb ac.capacity ac.num_states then (ac, none) else (
  record ac {
    num_states = ac.num_states + 1;
    states = update ac.states ac.num_states (fresh_state depth);
  },
  some ac.num_states,
)

-- `ac->states[state].goto_table[c] = next`
abbrev pub set_goto : Automaton → ℕ → ℕ → ℕ → Automaton
set_goto ac state c next =
    let s = ac.states state in
    record ac {
      states = update ac.states state (record s { goto_table = update s.goto_table c (some next) });
    }

-- One round of the loop of `ac_add_pattern`, at index `i`: the automaton and the next state, `none`
-- where it returns false.
unfoldable pub advance : Automaton → ℕ → ℕ → ℕ → Automaton × Option ℕ
unfolding new_state
advance ac state i c = elim ((ac.states state).goto_table c) [
  | some next ↦ (ac, some next)
  | none ↦
      let (ac', next) = new_state ac (uint16 (i + 1)) in
      elim next [ none ↦ (ac', none) | some n ↦ (set_goto ac' state c n, some n) ]
]

-- The loop of `ac_add_pattern`, from `state` at index `i` on.
unfoldable pub insert_from : Automaton → ℕ → ℕ → Bytes → Automaton × Option ℕ
unfolding advance
insert_from ac state i [] = (ac, some state)
insert_from ac state i (c ∷ cs) =
    let (ac', next) = advance ac state i c in
    elim next [ none ↦ (ac', none) | some n ↦ insert_from ac' n (i + 1) cs ]

-- `states[state].is_final = true; states[state].pattern_id = pattern_id; num_patterns++`
abbrev pub mark_final : Automaton → ℕ → ℕ → Automaton
mark_final ac state pattern_id =
    let s = ac.states state in
    record ac {
      states = update ac.states state (record s { is_final = true; pattern_id = pattern_id });
      num_patterns = ac.num_patterns + 1;
    }

-- `ac_add_pattern`
unfoldable pub add_pattern : Automaton → Bytes → ℕ → Automaton × Bool
unfolding insert_from
add_pattern ac [] pattern_id = (ac, false)
add_pattern ac (c ∷ cs) pattern_id =
    if ac.built
    then (ac, false)
    else let (ac', last) = insert_from ac 0 0 (c ∷ cs) in
      elim last [ none ↦ (ac', false) | some s ↦ (mark_final ac' s pattern_id, true) ]

-- `ac_set_prefetch`
unfoldable pub set_prefetch : Automaton → ℕ → ℕ → Automaton
set_prefetch ac distance hint = record ac { prefetch_distance = distance; prefetch_hint = hint }

-- `ac_set_force_flat`, on a pointer that may be NULL.
unfoldable pub set_force_flat : Option Automaton → Option Automaton
set_force_flat none = none
set_force_flat (some ac) = some (record ac { force_flat = true })

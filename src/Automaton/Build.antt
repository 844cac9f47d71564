-- ===== src/Automaton/Build.antt =====
-- `ac_build`: completion of the transitions in breadth-first order, then the search tables.
pub mod Ready
pub mod Filled
pub mod Front
pub mod Round
pub mod Step
pub mod Reached
pub mod Root
pub mod Loop
pub mod Complete
pub mod Tables
pub mod Total
mod Tests
use plumbr_c.Prelude.{
  ℕ, zero, suc, ◌+◌, ◌-◌, ◌*◌, ◌/◌, ◌%◌, Bool, true, false, Option, none, some, ltb, leb, ◌==◌,
  if◌then◌else◌, run_loop,
}
use plumbr_c.Arena.{Arena, alloc}
use plumbr_c.Automaton.{State, Meta, RowIndex, Automaton, update, int16, alphabet_size}
use plumbr_c.Automaton.Compress.{measure_rows, pack_rows}

-- `Queue`
pub record Queue : Type 0 where
  pub cells : ℕ → ℕ
  pub head : ℕ
  pub tail : ℕ
  pub capacity : ℕ

unfoldable pub queue_push : Queue → ℕ → Queue
queue_push q value = record q { cells = update q.cells q.tail value; tail = q.tail + 1 }

unfoldable pub queue_pop : Queue → Queue × ℕ
queue_pop q = (record q { head = q.head + 1 }, q.cells q.head)

unfoldable pub queue_empty : Queue → Bool
queue_empty q = leb q.tail q.head

-- The states and the queue while the build runs.
pub record Work : Type 0 where
  pub states : ℕ → State
  pub queue : Queue

-- `states[r].goto_table[c] = t`
abbrev pub put_goto : (ℕ → State) → ℕ → ℕ → Option ℕ → ℕ → State
put_goto st r c t = let x = st r in update st r (record x { goto_table = update x.goto_table c t })

-- One byte of the root: a child is queued with the root as its failure state, a missing transition
-- goes back to the root.
unfoldable pub root_byte : ℕ → Work → Work
unfolding queue_push
root_byte c w = elim ((w.states 0).goto_table c) [
  | some s ↦
      let x = w.states s in
      record { states = update w.states s (record x { fail = 0 }); queue = queue_push w.queue s }
  | none ↦ record w { states = put_goto w.states 0 c (some 0) }
]

-- What a child `s` of the state under work gets from its failure state `fail_s`.
abbrev pub link : (ℕ → State) → ℕ → ℕ → ℕ → State
link st s fail_s =
    let x = st s in
    let st1 = update st s (record x { fail = fail_s }) in
    let f = st1 fail_s in
    let y = st1 s in
    update st1 s (record y { output = if f.is_final then some fail_s else f.output })

-- One byte of the state `r` under work. The result is `none` where the failure state has no
-- transition yet, and the code would index the array by -1.
unfoldable pub bfs_byte : ℕ → ℕ → Option Work → Option Work
unfolding queue_push
bfs_byte r c none = none
bfs_byte r c (some w) =
    let t = (w.states (w.states r).fail).goto_table c in
    elim ((w.states r).goto_table c) [
      | some s ↦ elim t [
        | none ↦ none
        | some fail_s ↦
            some (record { states = link w.states s fail_s; queue = queue_push w.queue s })
      ]
      | none ↦ some (record w { states = put_goto w.states r c t })
    ]

-- while (!queue_empty(&q)): each state is queued at most once, so `num_states` rounds are enough.
-- A queue that is not empty when the fuel runs out gives no result.
unfoldable pub bfs : ℕ → Option Work → Option Work
unfolding bfs_byte queue_pop queue_empty
bfs zero none = none
bfs zero (some w) = elim (queue_empty w.queue) [ true ↦ some w | false ↦ none ]
bfs (suc fuel) none = none
bfs (suc fuel) (some w) = elim (queue_empty w.queue) [
  | true ↦ some w
  | false ↦
      let (q, r) = queue_pop w.queue in
      bfs fuel (run_loop (bfs_byte r) 0 256 (some (record w { queue = q })))
]

-- Steps 1 and 2 of `ac_build`.
unfoldable pub complete : (ℕ → State) → ℕ → Option Work
unfolding root_byte bfs
complete states ns = bfs ns (
    some (
      run_loop root_byte 0 256 (record {
        states = states;
        queue = record { cells = λ _. 0; head = 0; tail = 0; capacity = ns };
      })))

-- `sizeof(ACMeta)` and `sizeof(RowIndex)`
abbrev pub meta_bytes : ℕ
meta_bytes = 12

abbrev pub row_index_bytes : ℕ
row_index_bytes = 8

-- `meta[s]`
abbrev pub meta_of : (ℕ → State) → ℕ → Meta
meta_of st s = record {
  output = (st s).output;
  pattern_id = (st s).pattern_id;
  depth = (st s).depth;
  is_final = (st s).is_final;
}

-- `dfa[s * 256 + c]`, as the double loop fills it.
abbrev pub flat_table : (ℕ → State) → ℕ → ℕ
flat_table st k = int16 ((st (k / alphabet_size)).goto_table (k % alphabet_size))

-- How `ac_build` returns: with the arena and the automaton, and true or false; `none` is the
-- automaton's part where the completion faulted, or did not come to its end.
abbrev pub BuildResult : Type 0
BuildResult = Arena × Option (Automaton × Bool)

abbrev give_up : Arena → Automaton → BuildResult
give_up arena ac = (arena, some (ac, false))

-- An allocation, and what follows it if it is granted.
abbrev allocating : Arena → ℕ → Automaton → (Arena → BuildResult) → BuildResult
allocating arena size ac rest =
    let (arena', p) = alloc arena size in elim p [ none ↦ give_up arena' ac | some _ ↦ rest arena' ]

-- The tables of `force_flat`.
unfoldable pub build_flat : Arena → Automaton → BuildResult
build_flat arena ac =
    allocating arena (ac.num_states * alphabet_size * 2) (record ac { dfa = none })
      λ arena'. (
        arena',
        some (
          record ac {
            dfa = some (flat_table ac.states);
            dfa_memory = ac.num_states * alphabet_size * 2 + ac.num_states * meta_bytes;
            root_row = none;
            compressed = λ _. 0;
            built = true;
          },
          true,
        ),
      )

-- The compressed tables.
unfoldable pub build_compressed : Arena → Automaton → BuildResult
unfolding measure_rows pack_rows
build_compressed arena ac =
    let ns = ac.num_states in
    let root = λ (c : ℕ). int16 ((ac.states 0).goto_table c) in
    let ac1 = record ac { root_row = some root } in
    allocating arena (alphabet_size * 2) (record ac { root_row = none })
      λ arena1. allocating arena1 (ns * row_index_bytes) ac1 λ arena2.
        allocating arena2 (ns * 4) ac1 λ arena3.
          let z = measure_rows ac.states ns in
          let ac2 = record ac1 { row_index = z.row_index } in
          allocating arena3 z.total ac2 λ arena4. (
            arena4,
            some (
              record ac2 {
                compressed = pack_rows ac.states ns z (λ _. 0);
                compressed_size = z.total;
                dfa_memory = alphabet_size * 2 + ns * row_index_bytes + z.total + ns * meta_bytes;
                dfa = none;
                built = true;
              },
              true,
            ),
          )

-- Step 3, on the completed states.
unfoldable pub build_tables : Arena → Automaton → BuildResult
unfolding build_flat build_compressed
build_tables arena ac =
    if ltb 32767 ac.num_states
    then give_up arena ac
    else allocating arena (ac.num_states * meta_bytes) ac λ arena'.
      let ac' = record ac { meta = meta_of ac.states } in
      if ac.force_flat then build_flat arena' ac' else build_compressed arena' ac'

-- `ac_build`
unfoldable pub build : Arena → Automaton → BuildResult
unfolding complete build_tables
build arena ac =
    if ac.built
    then (arena, some (ac, true))
    else allocating arena (ac.num_states * 4) ac λ arena'. elim (complete ac.states ac.num_states) [
      | none ↦ (arena', none)
      | some w ↦ build_tables arena' (record ac { states = w.states })
    ]

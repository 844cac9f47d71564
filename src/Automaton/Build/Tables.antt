-- ===== src/Automaton/Build/Tables.antt =====
-- Step 3 of `ac_build`: what a finished build leaves in the automaton.
use plumbr_c.Prelude.{
  refl, ◌∙◌, sym, Bool-cases, inr, inl, arith, ◌⊎◌, ◌≡◌, ℕ, ◌*◌, ◌≤◌, if◌then◌else◌,
}
use plumbr_c.Arena.{Arena, alloc}
use plumbr_c.Automaton.{false, none, true, some, State, Automaton, int16}
use plumbr_c.Automaton.Build.{
  meta_bytes, build, build_tables, build_flat, build_compressed, meta_of, flat_table, complete,
  Work,
}
use plumbr_c.Automaton.Compress.{measure_rows, pack_rows}

-- The automaton that a successful build gives, by its tables.
pub record Finished (ac : Automaton) (st : ℕ → State) (ac' : Automaton) : Type 0 where
  pub small : ac.num_states ≤ 32767
  pub is_built : ac'.built ≡ true
  pub same_number : ac'.num_states ≡ ac.num_states
  pub meta_is : ac'.meta ≡ meta_of st
  pub tables :
      ((ac.force_flat ≡ true) × (ac'.root_row ≡ none) × (ac'.dfa ≡ some (flat_table st)))
      ⊎ ((ac.force_flat ≡ false)
          × (ac'.dfa ≡ none)
          × (ac'.root_row ≡ some (λ c. int16 ((st 0).goto_table c)))
          × (ac'.row_index ≡ (measure_rows st ac.num_states).row_index)
          × (ac'.compressed ≡ pack_rows st ac.num_states (measure_rows st ac.num_states) (λ _. 0)))

module _ (arena : Arena) (ac : Automaton) {arena' : Arena} {ac' : Automaton} where
  flat_Finished :
      ac.num_states ≤ 32767
      → ac.meta ≡ meta_of ac.states
      → ac.force_flat ≡ true
      → build_flat arena ac ≡ (arena', some (ac', true))
      → Finished ac ac.states ac'
  unfolding build_flat
  flat_Finished small meta flat e = record {
    small = small;
    is_built = ground arith;
    same_number = ground arith;
    meta_is = ground arith;
    tables = inl (flat, ground arith, ground arith);
  }

  compressed_Finished :
      ac.num_states ≤ 32767
      → ac.meta ≡ meta_of ac.states
      → ac.force_flat ≡ false
      → build_compressed arena ac ≡ (arena', some (ac', true))
      → Finished ac ac.states ac'
  unfolding build_compressed
  compressed_Finished small meta flat e = record {
    small = small;
    is_built = ground arith;
    same_number = ground arith;
    meta_is = ground arith;
    tables = inr (flat, ground arith, ground arith, ground arith, ground arith);
  }

-- The automaton as the tables are filled from it, and the arena then.
abbrev with_meta : Automaton → Automaton
with_meta ac = record ac { meta = meta_of ac.states }

abbrev next_arena : Arena → Automaton → Arena
next_arena arena ac = (alloc arena (ac.num_states * meta_bytes)).0

module _ (arena : Arena) (ac : Automaton) {arena' : Arena} {ac' : Automaton} where
  build_tables_done :
      build_tables arena ac ≡ (arena', some (ac', true))
      → (ac.num_states ≤ 32767)
        × ((if ac.force_flat
              then build_flat (next_arena arena ac) (with_meta ac)
              else build_compressed (next_arena arena ac) (with_meta ac))
            ≡ (arena', some (ac', true)))
  unfolding build_tables
  build_tables_done e = (ground arith, ground arith)

  tables_Finished : build_tables arena ac ≡ (arena', some (ac', true)) → Finished ac ac.states ac'
  tables_Finished e =
      let (small, d) = build_tables_done e in
      let f : Finished (with_meta ac) ac.states ac' = elim (Bool-cases ac.force_flat) [
        | inl flat ↦
            flat_Finished (next_arena arena ac) (with_meta ac) small refl flat
              (sym (rw flat refl) ∙ d)
        | inr rows ↦
            compressed_Finished (next_arena arena ac) (with_meta ac) small refl rows
              (sym (rw rows refl) ∙ d)
      ] in
      record {
        small = f.small;
        is_built = f.is_built;
        same_number = f.same_number;
        meta_is = f.meta_is;
        tables = f.tables;
      }

module _ (arena : Arena) (ac : Automaton) {arena' : Arena} {ac' : Automaton} where
  build_done :
      (w : Work)
      → complete ac.states ac.num_states ≡ some w
      → ac.built ≡ false
      → build arena ac ≡ (arena', some (ac', true))
      → build_tables (alloc arena (ac.num_states * 4)).0 (record ac { states = w.states })
        ≡ (arena', some (ac', true))
  unfolding build
  build_done w c b e = ground arith

  pub build-Finished :
      (w : Work)
      → complete ac.states ac.num_states ≡ some w
      → ac.built ≡ false
      → build arena ac ≡ (arena', some (ac', true))
      → Finished ac w.states ac'
  build-Finished w c b e =
      let f =
        tables_Finished (alloc arena (ac.num_states * 4)).0 (record ac { states = w.states })
          (build_done w c b e) in
      record {
        small = f.small;
        is_built = f.is_built;
        same_number = f.same_number;
        meta_is = f.meta_is;
        tables = f.tables;
      }

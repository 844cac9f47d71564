-- ===== src/Automaton/Build/Total.antt =====
-- `ac_build` returns, and its result is the flag that the searches test.
use plumbr_c.Prelude.{refl, inr, inl, arith, Bool-cases, ◌*◌, ◌≡◌, false, Bool, none, some, Option}
use plumbr_c.Arena.{Arena, alloc}
use plumbr_c.Automaton.{Automaton}
use plumbr_c.Automaton.Build.{
  meta_bytes, meta_of, build, build_tables, build_flat, build_compressed,
}
use plumbr_c.Automaton.Build.Ready.{IsReady}
use plumbr_c.Automaton.Build.Complete.{complete-Completed}

-- The automaton is marked as built exactly if the result is true; a fault is neither, and a loop
-- that has not come to its end.
abbrev Flagged : Option (Automaton × Bool) → Type 0
Flagged none = ⊥
Flagged (some (ac, done)) = ac.built ≡ done

module _ (arena : Arena) (ac : Automaton) (b : ac.built ≡ false) where
  build_flat-Flagged : Flagged (build_flat arena ac).1
  unfolding build_flat
  build_flat-Flagged = ground arith

  build_compressed-Flagged : Flagged (build_compressed arena ac).1
  unfolding build_compressed
  build_compressed-Flagged = ground arith

module _ (arena : Arena) (ac : Automaton) (b : ac.built ≡ false) where
  build_tables-Flagged : Flagged (build_tables arena ac).1
  unfolding build_tables
  build_tables-Flagged =
      let ac' = record ac { meta = meta_of ac.states } in
      let a = (alloc arena (ac.num_states * meta_bytes)).0 in
      ground (arith, build_flat-Flagged a ac' b, build_compressed-Flagged a ac' b)

-- On a trie as `ac_add_pattern` makes it (`IsReady`), `ac_build` returns: it reads no transition
-- that is not there, and its loop over the queue finds the queue empty after at most `num_states`
-- states; and it returns true exactly when the automaton is then marked as built.
pub build-Flagged :
    (arena : Arena) {ac : Automaton}
    → IsReady ac
    → (ac' : Automaton) × (done : Bool) × ((build arena ac).1 ≡ some (ac', done))
      × (ac'.built ≡ done)
build-Flagged arena {ac} ok = returned (build arena ac).1 whole
  where
    returned :
        (r : Option (Automaton × Bool))
        → Flagged r
        → (ac' : Automaton) × (done : Bool) × (r ≡ some (ac', done)) × (ac'.built ≡ done)
    returned none f = absurd f
    returned (some (ac', done)) f = (ac', done, refl, f)

    whole : Flagged (build arena ac).1
    whole =
        let (w, e, _) = complete-Completed ok in
        let a = (alloc arena (ac.num_states * 4)).0 in
        unfold build in
        elim (Bool-cases ac.built) [
          | inl t ↦ ground arith
          | inr f ↦ ground (arith, build_tables-Flagged a (record ac { states = w.states }) f)
        ]

-- ===== src/Pattern/Load/Directory.antt =====
-- src/patterns.c: what `patterns_load_directory` counts, and that the fuel of the line loop is enough.
use plumbr_c.Prelude.{
  ℕ, zero, suc, ◌+◌, ◌≡◌, ◌≤◌, Bool, true, false, Bytes, List, [], ◌∷◌, ◌++◌, Option, none, some,
  arith, take, refl, length, Bool-cases, Option-cases, inl, inr, ltb,
}
use plumbr_c.Pattern.{take, PatternSet, add}
use plumbr_c.Pattern.Path.{path_accepted}
use plumbr_c.Pattern.Load.{
  after_file, load_entry, Line, skipped, invalid, entry, fgets, parse_line, load_line, load_lines,
  load_file, load_entries, load_directory, is_pattern_file, FileSystem,
}

fgets_rest : (n : ℕ) (cs : Bytes) → length (fgets n cs).1 ≤ length cs
unfolding fgets
fgets_rest n [] = omega arith
fgets_rest zero (c ∷ cs) = omega arith
fgets_rest (suc n) (c ∷ cs) = ground (arith, fgets_rest n cs)

fgets_shorter : (n c : ℕ) (cs : Bytes) → length (fgets (suc n) (c ∷ cs)).1 ≤ length cs
unfolding fgets
fgets_shorter n c cs = ground (arith, fgets_rest n cs)

not_positive : {a b : ℕ} → a ≤ b → ltb 0 b ≡ false → b ≡ a
not_positive h e = ground arith

module _ {Code : Type 0} (compile : Bytes → Option Code) where
  -- More fuel than the file has bytes changes nothing.
  pub load_lines_fuel :
      (f g : ℕ) (ps : PatternSet Code) (bytes : Bytes)
      → length bytes ≤ f
      → length bytes ≤ g
      → load_lines compile f ps bytes ≡ load_lines compile g ps bytes
  unfolding load_lines
  load_lines_fuel f g ps [] h k = ground arith
  load_lines_fuel zero g ps (c ∷ cs) h k = absurd (omega arith)
  load_lines_fuel (suc f) zero ps (c ∷ cs) h k = absurd (omega arith)
  load_lines_fuel (suc f) (suc g) ps (c ∷ cs) h k =
      let rest = (fgets 4095 (c ∷ cs)).1 in
      let line = (fgets 4095 (c ∷ cs)).0 in
      load_lines_fuel f g (load_line compile ps (parse_line line)) rest
        (omega (arith, fgets_shorter 4094 c cs)) (omega (arith, fgets_shorter 4094 c cs))

  count-add :
      (ps : PatternSet Code) (name : Bytes) (literal : Option Bytes) (regex : Bytes)
      (replacement : Option Bytes)
      → ps.count ≤ (add compile ps name literal regex replacement).0.count
  unfolding add
  count-add ps name literal regex replacement = ground arith

  count-load_line : (ps : PatternSet Code) (l : Line) → ps.count ≤ (load_line compile ps l).count
  unfolding load_line
  count-load_line ps skipped = omega arith
  count-load_line ps invalid = omega arith
  count-load_line ps (entry n l r p) = count-add ps n l r p

  count-load_lines :
      (fuel : ℕ) (ps : PatternSet Code) (bytes : Bytes)
      → ps.count ≤ (load_lines compile fuel ps bytes).count
  unfolding load_lines load_line
  count-load_lines fuel ps [] = omega arith
  count-load_lines zero ps (c ∷ cs) = omega arith
  count-load_lines (suc fuel) ps (c ∷ cs) =
      let (line, rest) = fgets 4095 (c ∷ cs) in
      let ps' = load_line compile ps (parse_line line) in
      omega (arith, count-load_line ps (parse_line line), count-load_lines fuel ps' rest)

  -- Where `patterns_load_file` returns false, it added no pattern.
  count-load_file :
      (files : FileSystem) (allowed : Bool) (ps : PatternSet Code) (path : Bytes)
      → (ps.count ≤ (load_file compile files allowed ps path).0.count)
        × ((load_file compile files allowed ps path).1 ≡ false
            → (load_file compile files allowed ps path).0.count ≡ ps.count)
  unfolding load_file
  count-load_file files allowed ps path = elim (Bool-cases (path_accepted allowed path)) [
    | inl a ↦ elim (Option-cases (files path)) [
      | inl f ↦ rw (a, f) (omega arith, λ e. refl)
      | inr (bytes, f) ↦
          rw (a, f)
            (
              count-load_lines (length bytes) ps bytes,
              not_positive (count-load_lines (length bytes) ps bytes),
            )
    ]
    | inr a ↦ rw a (omega arith, λ e. refl)
  ]

  count-after_file :
      (ps : PatternSet Code) (loaded : ℕ) (r : PatternSet Code × Bool)
      → ps.count ≤ r.0.count
      → (r.1 ≡ false → r.0.count ≡ ps.count)
      → (after_file compile ps loaded r).1 + ps.count
        ≡ loaded + (after_file compile ps loaded r).0.count
  unfolding after_file
  count-after_file ps loaded (ps', true) ge same = omega arith
  count-after_file ps loaded (ps', false) ge same = omega (arith, same refl)

  count-load_entry :
      (files : FileSystem) (allowed : Bool) (dirname name : Bytes) (ps : PatternSet Code)
      (loaded : ℕ)
      → (load_entry compile files allowed dirname name ps loaded).1 + ps.count
        ≡ loaded + (load_entry compile files allowed dirname name ps loaded).0.count
  unfolding load_entry
  count-load_entry files allowed dirname name ps loaded =
      let path = take 4095 (dirname ++ (b'/' ∷ name)) in
      let (ge, same) = count-load_file files allowed ps path in
      elim (Bool-cases (is_pattern_file name)) [
        | inl p ↦
            rw p (count-after_file ps loaded (load_file compile files allowed ps path) ge same)
        | inr p ↦ rw p refl
      ]

  count-load_entries :
      (files : FileSystem) (allowed : Bool) (dirname : Bytes) (names : List Bytes)
      (ps : PatternSet Code) (loaded : ℕ)
      → (load_entries compile files allowed dirname names ps loaded).1 + ps.count
        ≡ loaded + (load_entries compile files allowed dirname names ps loaded).0.count
  unfolding load_entries
  count-load_entries files allowed dirname [] ps loaded = refl
  count-load_entries files allowed dirname (name ∷ names) ps loaded =
      let (ps', loaded') = load_entry compile files allowed dirname name ps loaded in
      omega (
        arith,
        count-load_entry files allowed dirname name ps loaded,
        count-load_entries files allowed dirname names ps' loaded',
      )

  -- `patterns_load_directory` returns the number of patterns that it added.
  pub count-load_directory :
      (files : FileSystem) (allowed : Bool) (dirname : Bytes) (names : Option (List Bytes))
      (ps : PatternSet Code)
      → (load_directory compile files allowed dirname names ps).1 + ps.count
        ≡ (load_directory compile files allowed dirname names ps).0.count
  unfolding load_directory
  count-load_directory files allowed dirname none ps = omega arith
  count-load_directory files allowed dirname (some names) ps =
      omega (arith, count-load_entries files allowed dirname names ps 0)

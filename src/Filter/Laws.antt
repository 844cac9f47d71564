-- ===== src/Filter/Laws.antt =====
-- The vector path of src/amd/sse42_filter.c against the scalar one.
use plumbr_c.Prelude.{
  lt→ltb, lt→ltb, ◌*◌, ℕ, zero, suc, ◌≤◌, ◌<◌, ◌≡◌, refl, sym, ap, ◌∙◌, Bool, true, false, Bytes,
  [], ◌∷◌, ◌++◌, ltb, leb, ◌==◌, if◌then◌else◌, ◌||◌, length, take, drop, arith, Bool-cases, inl,
  inr, take-append-drop, length-drop, length-take, take_all, leb→le,
}
use plumbr_c.Filter.{scan_tail, is_trigger, has_triggers_scalar, scan_blocks, has_triggers}

-- What `_mm_cmpestri` promises for "equal any", on a block of at most 16 bytes.
pub record IsEqualAny (cmpestri : Bytes → Bytes → ℕ) : Type 0 where
  pub finds :
      (triggers block : Bytes)
      → length block ≤ 16
      → ltb (cmpestri triggers block) (length block) ≡ has_triggers_scalar triggers block

or_assoc : (a b c : Bool) → (a || (b || c)) ≡ ((a || b) || c)
or_assoc a b c = ground arith

scalar-append :
    (triggers xs ys : Bytes)
    → has_triggers_scalar triggers (xs ++ ys)
      ≡ (has_triggers_scalar triggers xs || has_triggers_scalar triggers ys)
unfolding has_triggers_scalar
scalar-append triggers [] ys = refl
scalar-append triggers (x ∷ xs) ys = rw (scalar-append triggers xs ys) (
    or_assoc (is_trigger triggers x) (has_triggers_scalar triggers xs)
      (has_triggers_scalar triggers ys))

if_or : (a b : Bool) → (if a then true else b) ≡ (a || b)
if_or a b = ground arith

leb_false→lt : (a b : ℕ) → leb a b ≡ false → b < a
leb_false→lt a b h = ground arith

nonzero : (n : ℕ) → 0 < n → (n == 0) ≡ false
nonzero n h = ground arith

module _ (cmpestri : Bytes → Bytes → ℕ) (any : IsEqualAny cmpestri) where
  tail_lem :
      (triggers line : Bytes)
      → length line < 16
      → scan_tail cmpestri triggers line ≡ has_triggers_scalar triggers line
  unfolding scan_tail has_triggers_scalar
  tail_lem triggers [] h = refl
  tail_lem triggers (c ∷ cs) h =
      rw (lt→ltb 0 (suc (length cs)) (omega arith)) (any.finds triggers (c ∷ cs) (omega arith))

  block_lem :
      (triggers block : Bytes)
      → length block ≡ 16
      → ltb (cmpestri triggers block) 16 ≡ has_triggers_scalar triggers block
  block_lem triggers block l =
      ap (ltb (cmpestri triggers block)) (sym l) ∙ any.finds triggers block (omega arith)

  blocks_lem :
      (fuel : ℕ) (triggers line : Bytes)
      → length line < 16 * suc fuel
      → scan_blocks cmpestri fuel triggers line ≡ has_triggers_scalar triggers line
  unfolding scan_blocks
  blocks_lem zero triggers line h = tail_lem triggers line (omega arith)
  blocks_lem (suc fuel) triggers line h = elim (Bool-cases (leb 16 (length line))) [
    | inl e ↦
        let k = leb→le 16 (length line) e in
        let l : length (take 16 line) ≡ 16 = omega (arith, length-take 16 line) in
        let block = block_lem triggers (take 16 line) l in
        let rest = blocks_lem fuel triggers (drop 16 line) (omega (arith, length-drop 16 line)) in
        rw (e, block, rest)
          (if_or (has_triggers_scalar triggers (take 16 line))
              (has_triggers_scalar triggers (drop 16 line))
            ∙ sym (scalar-append triggers (take 16 line) (drop 16 line))
            ∙ ap (has_triggers_scalar triggers) (take-append-drop 16 line))
    | inr e ↦ rw e (tail_lem triggers line (leb_false→lt 16 (length line) e))
  ]

  -- With one to 16 triggers, the vector path finds a trigger exactly where the scalar path does.
  pub has_triggers-eq-scalar :
      (triggers line : Bytes)
      → 0 < length triggers
      → length triggers ≤ 16
      → has_triggers cmpestri triggers line ≡ has_triggers_scalar triggers line
  unfolding has_triggers has_triggers_scalar
  has_triggers-eq-scalar triggers [] h k = rw (nonzero (length triggers) h) refl
  has_triggers-eq-scalar triggers (c ∷ cs) h k =
      rw
        (
          nonzero (length triggers) h,
          nonzero (suc (length cs)) (omega arith),
          take_all 16 triggers k,
        )
        (blocks_lem (suc (length cs)) triggers (c ∷ cs) (omega arith))

-- ===== src/Io/Total.antt =====
-- `io_read_line` of src/io.c ends: each round takes a result of `read`, empties the buffer, or returns.
use plumbr_c.Prelude.{
  ◌++◌, ◌-◌, ◌==◌, if◌then◌else◌, ℕ, zero, suc, ◌+◌, ◌≡◌, ◌<◌, ◌⊎◌, inl, inr, refl, subst, Bool,
  true, false, Bytes, List, [], ◌∷◌, Option, none, some, ltb, length, arith, Bool-cases, ltb→lt,
  le→ltb_false,
}
use plumbr_c.Io.{
  buffer_size, fill, move_pending, Reader, ReadResult, got, interrupted, failed, read_retry,
  available, Next, return, again, go_on, fast_round, carry_round, at_end, fast_path, carry_path,
  io_read_line,
}
use plumbr_c.Io.Lines.{available-pending, behind_round, behind_test, fast_path-suc}

-- The function gives a result: the fuel was enough.
abbrev pub Returns {ℓ} : {A : Type ℓ} → Option A → Type ℓ
Returns {A = A} o = (r : A) × (o ≡ some r)

-- What `read` delivers is taken from the script.
retry_shrinks :
    (space : ℕ) (script : List ReadResult) (c : ℕ) (cs : Bytes)
    → (read_retry space script).0 ≡ some (c ∷ cs)
    → length (read_retry space script).1 < length script
unfolding read_retry
retry_shrinks space [] c cs h = cc
retry_shrinks space (got bytes ∷ rest) c cs h = omega arith
retry_shrinks space (interrupted ∷ rest) c cs h = omega (arith, retry_shrinks space rest c cs h)
retry_shrinks space (failed ∷ rest) c cs h = cc

-- The cases of a refill, by what `read_retry` gives.
abbrev filled : Reader → List ReadResult → Option Bytes → Reader × Bool
filled ctx rest none = (record ctx { read_eof = true; script = rest }, false)
filled ctx rest (some []) =
    (record ctx { read_eof = true; script = rest }, ltb 0 (length ctx.pending))
filled ctx rest (some (c ∷ cs)) = (
  record ctx {
    pending = ctx.pending ++ c ∷ cs;
    bytes_read = ctx.bytes_read + length (c ∷ cs);
    script = rest;
  },
  true,
)

-- There is nothing more, or the script has become shorter than `n`.
abbrev EndsOrShrinks : ℕ → Reader × Bool → Type 0
EndsOrShrinks n p = (p.1 ≡ false) ⊎ (length p.0.script < n)

filled_lem :
    (n : ℕ) (ctx : Reader) (rest : List ReadResult) (result : Option Bytes)
    → length ctx.pending ≡ 0
    → ((c : ℕ) (cs : Bytes) → result ≡ some (c ∷ cs) → length rest < n)
    → EndsOrShrinks n (filled ctx rest result)
filled_lem n ctx rest none h k = inl refl
filled_lem n ctx rest (some []) h k = inl (le→ltb_false 0 (length ctx.pending) (omega arith))
filled_lem n ctx rest (some (c ∷ cs)) h k = inr (k c cs refl)

fill-eq :
    (ctx : Reader)
    → fill ctx ≡ (
        let space = buffer_size - length ctx.pending in
        let (result, rest) = read_retry space ctx.script in
        if space == 0 then (ctx, true) else filled ctx rest result)
unfolding fill
fill-eq ctx = ground arith

fill_lem : (ctx : Reader) → length ctx.pending ≡ 0 → EndsOrShrinks (length ctx.script) (fill ctx)
fill_lem ctx h =
    let space = buffer_size - length ctx.pending in
    let e : (space == 0) ≡ false = ground arith in
    rw (fill-eq ctx, e)
      (filled_lem (length ctx.script) ctx (read_retry space ctx.script).1
        (read_retry space ctx.script).0 h (retry_shrinks space ctx.script))

by_eof :
    (ctx : Reader) (eof : Bool) (p : Reader × Bool)
    → EndsOrShrinks (length ctx.script) p
    → EndsOrShrinks (length ctx.script) (if eof then (ctx, false) else p)
by_eof ctx true p h = inl refl
by_eof ctx false p h = h

move_lem :
    (ctx : Reader)
    → length ctx.pending ≡ 0
    → (length (move_pending ctx).pending ≡ 0) × ((move_pending ctx).script ≡ ctx.script)
unfolding move_pending
move_lem ctx h = ground arith

available-eq :
    (ctx : Reader)
    → length ctx.pending ≡ 0
    → available ctx ≡ (if ctx.read_eof then (ctx, false) else fill (move_pending ctx))
unfolding available
available-eq ctx h = rw (le→ltb_false 0 (length ctx.pending) (omega arith)) refl

-- On an empty buffer there is nothing more, or a result has been taken.
available_lem :
    (ctx : Reader) → length ctx.pending ≡ 0 → EndsOrShrinks (length ctx.script) (available ctx)
available_lem ctx h =
    let (h', e) = move_lem ctx h in
    let moved : EndsOrShrinks (length ctx.script) (fill (move_pending ctx)) =
      subst (λ (script : List ReadResult). EndsOrShrinks (length script) (fill (move_pending ctx)))
        e (fill_lem (move_pending ctx) h') in
    rw (available-eq ctx h) (by_eof ctx ctx.read_eof (fill (move_pending ctx)) moved)

fast_round_lem :
    (ctx : Reader)
    → (fast_round ctx).1 ≡ none
    → (length (fast_round ctx).0.pending ≡ 0) × ((fast_round ctx).0.script ≡ ctx.script)
unfolding fast_round
fast_round_lem ctx h = ground arith

test_total :
    (fuel : ℕ) (p : Reader × Bool)
    → (p.1 ≡ false) ⊎ Returns (behind_round fuel (fast_round p.0))
    → Returns (behind_test fuel p)
test_total fuel (ctx, false) h = (at_end ctx, refl)
test_total fuel (ctx, true) (inl h) = cc
test_total fuel (ctx, true) (inr h) = h

round_total :
    (fuel : ℕ) (r : Reader × Option Bytes)
    → (r.1 ≡ none → Returns (fast_path fuel r.0))
    → Returns (behind_round fuel r)
round_total fuel (ctx, some l) h = ((ctx, some l), refl)
round_total fuel (ctx, none) h = h refl

-- The fast path, from an empty buffer and from any.
fast_empty :
    (fuel : ℕ) (ctx : Reader)
    → length ctx.pending ≡ 0
    → length ctx.script < fuel
    → Returns (fast_path fuel ctx)
fast_empty zero ctx h k = elim k [ ]
fast_empty (suc fuel) ctx h k = rw (fast_path-suc fuel ctx) (
    test_total fuel (available ctx) (elim (available_lem ctx h) [
      | inl e ↦ inl e
      | inr lt ↦ inr (
          round_total fuel (fast_round (available ctx).0) (λ e.
            let (h', e') = fast_round_lem (available ctx).0 e in
            fast_empty fuel (fast_round (available ctx).0).0 h' (rw e' (omega arith))))
    ]))

fast_any : (fuel : ℕ) (ctx : Reader) → length ctx.script + 1 < fuel → Returns (fast_path fuel ctx)
fast_any zero ctx k = elim k [ ]
fast_any (suc fuel) ctx k = elim (Bool-cases (ltb 0 (length ctx.pending))) [
  | inl e ↦
      rw (fast_path-suc fuel ctx, available-pending ctx (ltb→lt _ _ e))
        (round_total fuel (fast_round ctx) (λ e'.
          let (h', e'') = fast_round_lem ctx e' in
          fast_empty fuel (fast_round ctx).0 h' (rw e'' (omega arith))))
  | inr e ↦ fast_empty (suc fuel) ctx (ground arith) (omega arith)
]

carry_round-script : (ctx : Reader) → (carry_round ctx).0.script ≡ ctx.script
unfolding carry_round
carry_round-script ctx = ground arith

carry_round-pending :
    (ctx : Reader) → (carry_round ctx).1 ≡ go_on → length (carry_round ctx).0.pending ≡ 0
unfolding carry_round
carry_round-pending ctx h = ground arith

-- What the loop over a carried line does behind one round, and behind the test of one.
abbrev behind_carry : ℕ → Reader × Next → Option (Reader × Option Bytes)
behind_carry fuel (ctx, return l) = some (ctx, some l)
behind_carry fuel (ctx, again) = fast_path fuel ctx
behind_carry fuel (ctx, go_on) = carry_path fuel ctx

abbrev behind_carry_test : ℕ → Reader × Bool → Option (Reader × Option Bytes)
behind_carry_test fuel (ctx, false) = some (at_end ctx)
behind_carry_test fuel (ctx, true) = behind_carry fuel (carry_round ctx)

carry_path-suc :
    (fuel : ℕ) (ctx : Reader) → carry_path (suc fuel) ctx ≡ behind_carry_test fuel (available ctx)
unfolding carry_path
carry_path-suc fuel ctx = refl

carry_test_total :
    (fuel : ℕ) (p : Reader × Bool)
    → (p.1 ≡ false) ⊎ Returns (behind_carry fuel (carry_round p.0))
    → Returns (behind_carry_test fuel p)
carry_test_total fuel (ctx, false) h = (at_end ctx, refl)
carry_test_total fuel (ctx, true) (inl h) = cc
carry_test_total fuel (ctx, true) (inr h) = h

carry_round_total :
    (fuel : ℕ) (r : Reader × Next)
    → length r.0.script + 1 < fuel
    → (r.1 ≡ go_on → Returns (carry_path fuel r.0))
    → Returns (behind_carry fuel r)
carry_round_total fuel (ctx, return l) k h = ((ctx, some l), refl)
carry_round_total fuel (ctx, again) k h = fast_any fuel ctx k
carry_round_total fuel (ctx, go_on) k h = h refl

carry_empty :
    (fuel : ℕ) (ctx : Reader)
    → length ctx.pending ≡ 0
    → length ctx.script + 1 < fuel
    → Returns (carry_path fuel ctx)
carry_empty zero ctx h k = elim k [ ]
carry_empty (suc fuel) ctx h k = rw (carry_path-suc fuel ctx) (
    carry_test_total fuel (available ctx) (elim (available_lem ctx h) [
      | inl e ↦ inl e
      | inr lt ↦
          let ctx1 = (available ctx).0 in
          let e = carry_round-script ctx1 in
          inr (
            carry_round_total fuel (carry_round ctx1) (rw e (omega arith)) (λ e'.
              carry_empty fuel (carry_round ctx1).0 (carry_round-pending ctx1 e')
                (rw e (omega arith))))
    ]))

carry_any : (fuel : ℕ) (ctx : Reader) → length ctx.script + 2 < fuel → Returns (carry_path fuel ctx)
carry_any zero ctx k = elim k [ ]
carry_any (suc fuel) ctx k = elim (Bool-cases (ltb 0 (length ctx.pending))) [
  | inl e ↦
      let e' = carry_round-script ctx in
      rw (carry_path-suc fuel ctx, available-pending ctx (ltb→lt _ _ e))
        (carry_round_total fuel (carry_round ctx) (rw e' (omega arith)) (λ e''.
          carry_empty fuel (carry_round ctx).0 (carry_round-pending ctx e'') (rw e' (omega arith))))
  | inr e ↦ carry_empty (suc fuel) ctx (ground arith) (omega arith)
]

-- With more fuel than the results that `read` has yet to give and two, `io_read_line` returns,
-- whatever is pending or carried, and whatever `read` gives.
pub io_read_line-Returns :
    (fuel : ℕ) (ctx : Reader) → length ctx.script + 2 < fuel → Returns (io_read_line fuel ctx)
unfolding io_read_line
io_read_line-Returns fuel ctx k = elim (Bool-cases (ltb 0 (length ctx.line_carry))) [
  | inl e ↦ rw e (carry_any fuel ctx k)
  | inr e ↦ rw e (fast_any fuel ctx (omega arith))
]

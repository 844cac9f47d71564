-- ===== src/Libplumbr/Buffer.antt =====
-- `libplumbr_redact_buffer` of src/libplumbr.c: a text of several lines.
use plumbr_c.Prelude.{
  ◌∙◌, ℕ, ◌+◌, ◌*◌, ◌/◌, ◌^◌, ◌≡◌, ◌<◌, Bool, true, false, Bytes, [], ◌∷◌, Option, none, some,
  if◌then◌else◌, ltb, length, size_max, add_size, arith, Bool-cases, inl, inr,
}
use plumbr_c.Redactor.Client.{Ops, text_of}
use plumbr_c.Libplumbr.{Plumbr, count_line}
use plumbr_c.Lines.{Work, Copied, null, copy_lines, run_lines, split_lines, copied}
use plumbr_c.Lines.Copy.{IsRoomy, copy_lines-Ends}

clash : {b : Bool} → b ≡ true → b ≡ false → ⊥
clash e f = ground (arith, e, f)

module _ {R : Type 0} (ops : Ops R) (grants : ℕ → Bool) where
  -- The capacity behind the test for room.
  unfoldable pub grow : ℕ → ℕ → ℕ → Option ℕ
  grow size pos len =
      let needed = add_size (add_size pos len) 1 in
      if ltb needed size
      then some size
      else if ltb (size_max / 2) needed
      then none
      else if grants (needed * 2)
      then some (needed * 2)
      else none

  unfoldable pub redact_line : Plumbr R → Bytes → Plumbr R × Bytes
  redact_line p line =
      let (r, out) = ops.redact p.redactor line in (record p { redactor = r }, text_of out)

  -- The body of the loop counts a line, but not whether it was modified.
  abbrev pub buffer_work : Work (Plumbr R)
  buffer_work = record {
    redact = redact_line;
    count = λ p line. record p { stats = count_line p.stats (length line) false };
    ensure = grow;
  }

  -- `libplumbr_redact_buffer`
  unfoldable pub redact_buffer : Plumbr R → Bytes → Copied (Plumbr R)
  unfolding copy_lines
  redact_buffer p [] = null p
  redact_buffer p (c ∷ cs) =
      let n = length (c ∷ cs) in
      let size = add_size (n * 2) 1 in
      if ltb (size_max / 2) n
      then null p
      else if grants size
      then copy_lines buffer_work n p [] size (c ∷ cs)
      else null p

  grow-IsRoomy : IsRoomy buffer_work
  unfolding grow
  grow-IsRoomy size pos len size2 small e = ground arith

  grow-fails :
      (size pos len : ℕ)
      → pos + len < 2 ^ 62
      → grow size pos len ≡ none
      → (n : ℕ) × (grants n ≡ false)
  unfolding grow
  grow-fails size pos len small e =
      let n = add_size (add_size pos len) 1 * 2 in
      (n, elim (Bool-cases (grants n)) [ inl g ↦ absurd (ground (arith, g, e, small)) | inr g ↦ g ])

  module _ (p : Plumbr R) (c : ℕ) (cs : Bytes) where
    -- What the call is to return: each line redacted, with its newline.
    abbrev pub meant : Plumbr R × Bytes
    meant = run_lines buffer_work p (split_lines (c ∷ cs))

    starts :
        (a b : Bool) (r : Copied (Plumbr R))
        → a ≡ false
        → b ≡ true
        → (if a then null p else if b then r else null p) ≡ r
    starts a b r e f = ground (arith, e, f)

    -- If the input is shorter than 2 ^ 61 bytes, its redacted text shorter than 2 ^ 62, and the
    -- allocations are granted, `libplumbr_redact_buffer` returns the lines of the input redacted one
    -- after another, each with its newline: the buffer, which grows on the way, is never written
    -- behind its end, and the statistics are those of the calls in this order.
    pub redact_buffer_lem :
        length (c ∷ cs) < 2 ^ 61
        → length meant.1 < 2 ^ 62
        → ((n : ℕ) → grants n ≡ true)
        → redact_buffer p (c ∷ cs) ≡ copied meant.0 meant.1
    unfolding redact_buffer
    redact_buffer_lem short small granted =
        let n = length (c ∷ cs) in
        let size = add_size (n * 2) 1 in
        elim (copy_lines-Ends buffer_work grow-IsRoomy n p [] size (c ∷ cs) (omega arith)
          (omega (arith, short)) (omega (arith, small))) [
            | inl e ↦ ground (arith, short, granted size) ∙ e
            | inr (p', e, f) ↦
                let (n, g) = grow-fails f.size f.pos f.len f.small f.fails in
                absurd (clash (granted n) g)
          ]

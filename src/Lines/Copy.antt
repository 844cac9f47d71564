-- ===== src/Lines/Copy.antt =====
-- Where the buffer is grown enough, the copied text is the lines redacted one after another.
use plumbr_c.Prelude.{
  subst, ℕ, zero, suc, ◌+◌, ◌^◌, ◌≡◌, ◌<◌, ◌≤◌, ◌⊎◌, Bool, true, false, Bytes, List, [], ◌∷◌, ◌++◌,
  none, some, length, length-append, append-nil, append_assoc, arith, refl, Option-cases, inl, inr,
  ap, sym, ◌∙◌,
}
use plumbr_c.Lines.{
  put_line, Work, Copied, copied, null, copy_lines, run_lines, split_lines, next_line, ending,
  split_lines-next_line, next_line_shorter,
}

module _ {S : Type 0} (w : Work S) where
  -- A growth that makes room for the bytes, a newline and the terminator, as long as these sizes do
  -- not come near the end of the size type.
  abbrev pub IsRoomy : Type 0
  IsRoomy =
      (size pos len size2 : ℕ)
      → pos + len < 2 ^ 62
      → w.ensure size pos len ≡ some size2
      → pos + len + 1 < size2

  -- A growth that failed.
  pub record Failed : Type 0 where
    pub size : ℕ
    pub pos : ℕ
    pub len : ℕ
    pub positive : 0 < size
    pub small : pos + len < 2 ^ 62
    pub fails : w.ensure size pos len ≡ none

  -- A text that is complete, or NULL after a growth that failed.
  abbrev pub Ends : S × Bytes → Copied S → Type 0
  Ends (s, text) r = (r ≡ copied s text) ⊎ ((s' : S) × (r ≡ null s') × Failed)

  length-ending : (b : Bool) → length (ending b) ≤ 1
  length-ending true = omega arith
  length-ending false = omega arith

  abbrev pub whole : S → Bytes → Bytes → S × Bytes
  whole s out cs = ((run_lines w s (split_lines cs)).0, out ++ (run_lines w s (split_lines cs)).1)

  put_line-some :
      (out chunk : Bytes) (next : Bytes → ℕ → Copied S) (s : S) (size : ℕ)
      → length (out ++ chunk) ≤ size
      → put_line out chunk next s (some size) ≡ next (out ++ chunk) size
  unfolding put_line
  put_line-some out chunk next s size h = ground arith

  put_line-none :
      (out chunk : Bytes) (next : Bytes → ℕ → Copied S) (s : S)
      → put_line out chunk next s none ≡ null s
  unfolding put_line
  put_line-none out chunk next s = refl

  module _ (s : S) (out : Bytes) (c : ℕ) (cs : Bytes) where
    abbrev line : Bytes
    line = (next_line (c ∷ cs)).0

    abbrev rest : Bytes
    rest = (next_line (c ∷ cs)).2

    abbrev bytes : Bytes
    bytes = (w.redact s line).1

    abbrev chunk : Bytes
    chunk = bytes ++ ending (next_line (c ∷ cs)).1

    abbrev behind : S
    behind = w.count (w.redact s line).0 line

    -- The first line, and the lines behind it.
    whole_cons : whole s out (c ∷ cs) ≡ whole behind (out ++ chunk) rest
    unfolding run_lines
    whole_cons =
        ap (λ (ls : List (Bytes × Bool)). ((run_lines w s ls).0, out ++ (run_lines w s ls).1))
          (split_lines-next_line c cs)
        ∙ ap (λ (t : Bytes). ((run_lines w behind (split_lines rest)).0, t))
            (sym (append_assoc out chunk (run_lines w behind (split_lines rest)).1))

    length-chunk : (length bytes ≤ length chunk) × (length chunk ≤ length bytes + 1)
    length-chunk =
        let e = length-append bytes (ending (next_line (c ∷ cs)).1) in
        let l = length-ending (next_line (c ∷ cs)).1 in (omega (arith, e), omega (arith, e, l))

    length-whole :
        length out + length (run_lines w s (split_lines (c ∷ cs))).1
        ≡ length (out ++ chunk) + length (run_lines w behind (split_lines rest)).1
    length-whole =
        sym (length-append out (run_lines w s (split_lines (c ∷ cs))).1)
        ∙ ap (λ (p : S × Bytes). length p.1) whole_cons
        ∙ length-append (out ++ chunk) (run_lines w behind (split_lines rest)).1

    copy_lines_cons :
        (fuel size : ℕ)
        → copy_lines w (suc fuel) s out size (c ∷ cs)
          ≡ put_line out chunk
              (λ text size2. copy_lines w fuel behind text size2 rest)
              (w.redact s line).0
              (w.ensure size (length out) (length bytes))
    unfolding copy_lines
    copy_lines_cons fuel size = refl

  module _ (roomy : IsRoomy) where
    nil_copied :
        (fuel : ℕ) (s : S) (out : Bytes) (size : ℕ)
        → length out < size
        → copy_lines w fuel s out size [] ≡ copied s (out ++ (run_lines w s (split_lines [])).1)
    unfolding copy_lines run_lines split_lines
    nil_copied fuel s out size h = ground (arith, append-nil out)

    -- The loop ends with the whole text, unless a growth fails.
    pub copy_lines-Ends :
        (fuel : ℕ) (s : S) (out : Bytes) (size : ℕ) (cs : Bytes)
        → length cs ≤ fuel
        → length out < size
        → length out + length (run_lines w s (split_lines cs)).1 < 2 ^ 62
        → Ends (whole s out cs) (copy_lines w fuel s out size cs)
    unfolding copy_lines run_lines split_lines
    copy_lines-Ends fuel s out size [] f h small = inl (nil_copied fuel s out size h)
    copy_lines-Ends zero s out size (c ∷ cs) f h small = absurd (omega arith)
    copy_lines-Ends (suc fuel) s out size (c ∷ cs) f h small =
        let next = λ (text : Bytes) (size2 : ℕ).
          copy_lines w fuel (behind s out c cs) text size2 (rest s out c cs) in
        let (lo, hi) = length-chunk s out c cs in
        let sum = length-whole s out c cs in
        let app = length-append out (chunk s out c cs) in
        let step = copy_lines_cons s out c cs fuel size in
        let fits : length out + length (bytes s out c cs) < 2 ^ 62 =
          omega (arith, small, sum, lo, app) in
        elim (Option-cases (w.ensure size (length out) (length (bytes s out c cs)))) [
          | inl e ↦ inr (
            (w.redact s (line s out c cs)).0,
            step
                ∙ ap (put_line out (chunk s out c cs) next (w.redact s (line s out c cs)).0) e
                ∙ put_line-none out (chunk s out c cs) next (w.redact s (line s out c cs)).0,
            record {
              size = size;
              pos = length out;
              len = length (bytes s out c cs);
              positive = omega arith;
              small = fits;
              fails = e;
            },
          )
          | inr (size2, e) ↦
              let room = roomy size (length out) (length (bytes s out c cs)) size2 fits e in
              let arrived =
                step
                ∙ ap (put_line out (chunk s out c cs) next (w.redact s (line s out c cs)).0) e
                ∙ put_line-some out (chunk s out c cs) next (w.redact s (line s out c cs)).0 size2
                    (omega (arith, room, app, hi)) in
              subst (λ (p : S × Bytes). Ends p (copy_lines w (suc fuel) s out size (c ∷ cs)))
                (sym (whole_cons s out c cs))
                (subst
                  (Ends (whole (behind s out c cs) (out ++ chunk s out c cs) (rest s out c cs)))
                  (sym arrived)
                  (copy_lines-Ends fuel (behind s out c cs) (out ++ chunk s out c cs) size2
                    (rest s out c cs) (omega (arith, f, next_line_shorter c cs))
                    (omega (arith, room, app, hi)) (omega (arith, small, sum))))
        ]

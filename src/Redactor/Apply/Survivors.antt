-- ===== src/Redactor/Apply/Survivors.antt =====
-- Which bytes of a line are left when every match is cut out.
use plumbr_c.Prelude.{
  ℕ, zero, suc, ◌+◌, ◌-◌, ◌≤◌, ◌<◌, ◌≡◌, refl, sym, ◌∙◌, ap, true, false, Bytes, List, [], ◌∷◌,
  ◌++◌, if◌then◌else◌, arith, length, slice, drop, take, drop-drop, length-drop,
}
use plumbr_c.Redactor.{MatchLocation}
use plumbr_c.Redactor.Apply.Merge.{covered, DisjointFrom}
use plumbr_c.Redactor.Apply.Splice.{splice}

-- The bytes that lie in no match, of a piece of the line that begins at index `p`.
unfoldable pub uncovered : List MatchLocation → ℕ → Bytes → Bytes
uncovered ms p [] = []
uncovered ms p (b ∷ bs) =
    let rest = uncovered ms (p + 1) bs in if covered ms p then rest else b ∷ rest

pub uncovered_ext :
    (ms ns : List MatchLocation) (bs : Bytes) (p : ℕ)
    → ((q : ℕ) → p ≤ q → covered ms q ≡ covered ns q)
    → uncovered ms p bs ≡ uncovered ns p bs
unfolding uncovered
uncovered_ext ms ns [] p h = refl
uncovered_ext ms ns (b ∷ bs) p h =
    let same = uncovered_ext ms ns bs (p + 1) (λ q k. h q (omega arith)) in
    ground (arith, h p (omega arith), same)

uncovered_keep :
    (ms : List MatchLocation) (k : ℕ) (bs : Bytes) (p : ℕ)
    → ((q : ℕ) → p ≤ q → q < p + k → covered ms q ≡ false)
    → k ≤ length bs
    → uncovered ms p bs ≡ take k bs ++ uncovered ms (p + k) (drop k bs)
unfolding uncovered
uncovered_keep ms zero bs p h l = ap (λ (n : ℕ). uncovered ms n bs) (omega arith)
uncovered_keep ms (suc k) [] p h l = absurd (omega arith)
uncovered_keep ms (suc k) (b ∷ bs) p h l =
    let rest =
      uncovered_keep ms k bs (p + 1) (λ q i j. h q (omega arith) (omega arith)) (omega arith) in
    let at : p + 1 + k ≡ p + suc k = omega arith in
    rw (h p (omega arith) (omega arith))
      (ap (◌∷◌ b) (rest ∙ ap (λ (n : ℕ). take k bs ++ uncovered ms n (drop k bs)) at))

uncovered_skip :
    (ms : List MatchLocation) (k : ℕ) (bs : Bytes) (p : ℕ)
    → ((q : ℕ) → p ≤ q → q < p + k → covered ms q ≡ true)
    → uncovered ms p bs ≡ uncovered ms (p + k) (drop k bs)
unfolding uncovered
uncovered_skip ms zero bs p h = ap (λ (n : ℕ). uncovered ms n bs) (omega arith)
uncovered_skip ms (suc k) [] p h = refl
uncovered_skip ms (suc k) (b ∷ bs) p h =
    let rest = uncovered_skip ms k bs (p + 1) (λ q i j. h q (omega arith) (omega arith)) in
    let at : p + 1 + k ≡ p + suc k = omega arith in
    rw (h p (omega arith) (omega arith)) (rest ∙ ap (λ (n : ℕ). uncovered ms n (drop k bs)) at)

covered_below :
    (len lo : ℕ) (ms : List MatchLocation) (q : ℕ)
    → DisjointFrom len lo ms
    → q < lo
    → covered ms q ≡ false
unfolding covered
covered_below len lo [] q d h = refl
covered_below len lo (m ∷ ms) q (a, b, c, d) h =
    ground (arith, covered_below len m.end ms q d (omega arith))

uncovered-nil : (bs : Bytes) (p : ℕ) → uncovered [] p bs ≡ bs
unfolding uncovered covered
uncovered-nil [] p = refl
uncovered-nil (b ∷ bs) p = ap (◌∷◌ b) (uncovered-nil bs (p + 1))

module _ (line : Bytes) (m : MatchLocation) (ms : List MatchLocation) where
  -- Behind a match the uncovered bytes are those of the later matches.
  behind :
      m.start ≤ m.end
      → DisjointFrom (length line) m.end ms
      → uncovered (m ∷ ms) m.start (drop m.start line) ≡ uncovered ms m.end (drop m.end line)
  unfolding covered
  behind b d =
      let at : m.start + (m.end - m.start) ≡ m.end = omega arith in
      uncovered_skip (m ∷ ms) (m.end - m.start) (drop m.start line) m.start (λ q i j. ground arith)
      ∙ rw (drop-drop (m.end - m.start) m.start line, at)
          (uncovered_ext (m ∷ ms) ms (drop m.end line) m.end (λ q i. ground arith))

  -- In front of it every byte stays.
  before :
      (i : ℕ)
      → i ≤ m.start
      → m.start ≤ m.end
      → m.end ≤ length line
      → DisjointFrom (length line) m.end ms
      → uncovered (m ∷ ms) i (drop i line)
        ≡ slice i (m.start - i) line ++ uncovered (m ∷ ms) m.start (drop m.start line)
  before i a b c d =
      let at : i + (m.start - i) ≡ m.start = omega arith in
      uncovered_keep (m ∷ ms) (m.start - i) (drop i line) i
        (λ q j k.
          covered_below (length line) m.start (m ∷ ms) q (omega arith, b, c, d) (omega arith))
        (omega (arith, length-drop i line))
      ∙ rw (drop-drop (m.start - i) i line, at) refl

module _ (line : Bytes) where
  -- With empty replacements the splice is the uncovered bytes.
  pub splice-eq-uncovered :
      (ms : List MatchLocation) (i : ℕ)
      → DisjointFrom (length line) i ms
      → splice (λ _. []) line i ms ≡ uncovered ms i (drop i line)
  unfolding splice
  splice-eq-uncovered [] i d = sym (uncovered-nil (drop i line) i)
  splice-eq-uncovered (m ∷ ms) i (a, b, c, d) = sym (
      before line m ms i a b c d
      ∙ ap (λ (xs : Bytes). slice i (m.start - i) line ++ xs)
          (behind line m ms b d ∙ sym (splice-eq-uncovered ms m.end d)))

-- ===== src/Server/Json/InPlace.antt =====
-- `json_unescape` of src/server.c rewrites its buffer in place: what it writes never reaches what it
-- has yet to read.
use plumbr_c.Prelude.{
  ◌&&◌, Bool, inr, inl, Bool, ◌⊎◌, ℕ, zero, suc, ◌+◌, ◌≤◌, ◌<◌, ◌≡◌, refl, sym, ap, ◌∙◌, true,
  false, Bytes, [], get_or, set, ltb, ◌∷◌, ◌++◌, ◌==◌, length, arith, length-append, append-nil,
  append_assoc, Bool-cases, le→ltb_false, lt→ltb,
}
use plumbr_c.Server.Json.{Cursor, unescape_char, unescape_once, unescape_loop, json_unescape}
use plumbr_c.Server.Json.Text.{unescape-cons, unescape-pair, unescape}

set-append : (p q : Bytes) (h v : ℕ) → set (p ++ h ∷ q) (length p) v ≡ (p ++ v ∷ []) ++ q
set-append [] q h v = refl
set-append (x ∷ p) q h v = ap (◌∷◌ x) (set-append p q h v)

get_or-append : (p q : Bytes) (k d : ℕ) → get_or (p ++ q) (length p + k) d ≡ get_or q k d
get_or-append [] q k d = ap (λ (n : ℕ). get_or q n d) (omega arith)
get_or-append (x ∷ p) q k d =
    let e : suc (length p) + k ≡ suc (length p + k) = omega arith in
    ap (λ (n : ℕ). get_or (x ∷ (p ++ q)) n d) e ∙ get_or-append p q k d

-- The buffer in its parts: `done` is written, `gap` is read and free, `todo` is unread up to the
-- length, `rest` lies behind it.
abbrev parts : Bytes → Bytes → Bytes → Bytes → Cursor
parts done gap todo rest = record {
  buf = done ++ (gap ++ (todo ++ rest));
  r = length done + length gap;
  w = length done;
}

-- A byte written where the read index has passed goes into the gap.
set_parts :
    (done gap q : Bytes) (x v : ℕ)
    → (gap' : Bytes) × (set (done ++ (gap ++ x ∷ q)) (length done) v
        ≡ (done ++ v ∷ []) ++ (gap' ++ q))
      × (length gap' ≡ length gap)
set_parts done [] q x v = ([], set-append done q x v, refl)
set_parts done (g ∷ gap) q x v = (
  gap ++ x ∷ [],
  set-append done (gap ++ x ∷ q) g v
      ∙ ap (λ (ys : Bytes). (done ++ v ∷ []) ++ ys) (sym (append_assoc gap (x ∷ []) q)),
  omega (arith, length-append gap (x ∷ [])),
)

get_parts :
    (done gap q : Bytes) (k : ℕ)
    → get_or (done ++ (gap ++ q)) (length done + length gap + k) 0 ≡ get_or q k 0
get_parts done gap q k =
    let e : length done + length gap + k ≡ length done + (length gap + k) = omega arith in
    ap (λ (n : ℕ). get_or (done ++ (gap ++ q)) n 0) e
    ∙ get_or-append done (gap ++ q) (length gap + k) 0
    ∙ get_or-append gap q k 0

get_parts_first :
    (done gap q : Bytes) → get_or (done ++ (gap ++ q)) (length done + length gap) 0 ≡ get_or q 0 0
get_parts_first done gap q =
    let e : length done + length gap ≡ length done + length gap + 0 = omega arith in
    ap (λ (n : ℕ). get_or (done ++ (gap ++ q)) n 0) e ∙ get_parts done gap q 0

abbrev cursor : Bytes → ℕ → ℕ → Cursor
cursor b r w = record { buf = b; r = r; w = w }

cursor_eq :
    {b b' : Bytes} {r r' w w' : ℕ} → b ≡ b' → r ≡ r' → w ≡ w' → cursor b r w ≡ cursor b' r' w'
cursor_eq p q s = rw (p, q, s) refl

and_false : (a b : Bool) → (a ≡ false) ⊎ (b ≡ false) → (a && b) ≡ false
and_false a b h = ground arith

plain_test :
    (len : ℕ) (done gap todo : Bytes) (c : ℕ)
    → ((c == b'\\') ≡ false) ⊎ (todo ≡ [])
    → len ≡ length done + length gap + length (c ∷ todo)
    → ((c == b'\\') ≡ false) ⊎ (ltb (length done + length gap + 1) len ≡ false)
plain_test len done gap todo c (inl h) e = inl h
plain_test len done gap todo c (inr h) e =
    let e' : length todo ≡ 0 = ap length h in inr (le→ltb_false _ _ (omega arith))

-- One round consumes one byte, or two at an escape, and writes what they stand for.
once_plain :
    (len : ℕ) (done gap todo rest : Bytes) (c : ℕ)
    → ((c == b'\\') ≡ false) ⊎ (todo ≡ [])
    → len ≡ length done + length gap + length (c ∷ todo)
    → (gap' : Bytes) × (unescape_once len (parts done gap (c ∷ todo) rest)
        ≡ parts (done ++ c ∷ []) gap' todo rest)
      × (length gap' ≡ length gap)
unfolding unescape_once
once_plain len done gap todo rest c h e =
    let (gap', eb, el) = set_parts done gap (todo ++ rest) c c in
    let read = get_parts_first done gap (c ∷ (todo ++ rest)) in
    let test : ((c == b'\\') && ltb (length done + length gap + 1) len) ≡ false =
      and_false _ _ (plain_test len done gap todo c h e) in
    (
      gap',
      rw (read, test)
          (cursor_eq eb (omega (arith, length-append done (c ∷ [])))
            (omega (arith, length-append done (c ∷ [])))),
      el,
    )

once_escape :
    (len : ℕ) (done gap todo rest : Bytes) (c d : ℕ)
    → (c == b'\\') ≡ true
    → len ≡ length done + length gap + length (c ∷ d ∷ todo)
    → (gap' : Bytes) × (unescape_once len (parts done gap (c ∷ d ∷ todo) rest)
        ≡ parts (done ++ unescape_char d ∷ []) gap' todo rest)
      × (length gap' ≡ length gap + 1)
unfolding unescape_once
once_escape len done gap todo rest c d h e =
    let v = unescape_char d in
    let (gap', eb, el) = set_parts done gap (d ∷ (todo ++ rest)) c v in
    let read0 = get_parts_first done gap (c ∷ d ∷ (todo ++ rest)) in
    let read1 = get_parts done gap (c ∷ d ∷ (todo ++ rest)) 1 in
    let test : ltb (length done + length gap + 1) len ≡ true = lt→ltb _ _ (omega arith) in
    let join =
      ap (λ (ys : Bytes). (done ++ v ∷ []) ++ ys)
        (sym (append_assoc gap' (d ∷ []) (todo ++ rest))) in
    (
      gap' ++ d ∷ [],
      rw (read0, read1, h, test)
          (cursor_eq (eb ∙ join)
            (omega (arith, length-append done (v ∷ []), length-append gap' (d ∷ [])))
            (omega (arith, length-append done (v ∷ [])))),
      omega (arith, length-append gap' (d ∷ [])),
    )

-- One more round of the loop.
loop_round :
    (fuel len : ℕ) (s s' : Cursor)
    → s.r < len
    → unescape_once len s ≡ s'
    → unescape_loop (suc fuel) len s ≡ unescape_loop fuel len s'
unfolding unescape_loop
loop_round fuel len s s' h e = rw (lt→ltb s.r len h, e) refl

loop_done :
    (fuel len : ℕ) (done gap rest : Bytes)
    → len ≡ length done + length gap
    → unescape_loop fuel len (parts done gap [] rest) ≡ parts (done ++ []) gap [] rest
unfolding unescape_loop
loop_done zero len done gap rest e = ap (λ (d : Bytes). parts d gap [] rest) (sym (append-nil done))
loop_done (suc fuel) len done gap rest e =
    rw (le→ltb_false (length done + length gap) len (omega arith))
      (ap (λ (d : Bytes). parts d gap [] rest) (sym (append-nil done)))

unescape_nil : (gap : Bytes) → length (unescape []) + length gap ≡ length gap + 0
unfolding unescape
unescape_nil gap = omega arith

unescape_one : (c : ℕ) → unescape (c ∷ []) ≡ c ∷ unescape []
unfolding unescape
unescape_one c = refl

-- What the loop reaches from a cursor whose unread bytes are `todo`.
abbrev Reaches : ℕ → ℕ → Bytes → Bytes → Bytes → Bytes → Type 0
Reaches fuel len done gap todo rest =
    (gap' : Bytes) × (unescape_loop fuel len (parts done gap todo rest)
      ≡ parts (done ++ unescape todo) gap' [] rest)
    × (length (unescape todo) + length gap' ≡ length gap + length todo)

after_round :
    (fuel len : ℕ) (done gap todo gap1 todo1 rest : Bytes) (v : ℕ)
    → length done + length gap < len
    → unescape todo ≡ v ∷ unescape todo1
    → unescape_once len (parts done gap todo rest) ≡ parts (done ++ v ∷ []) gap1 todo1 rest
    → suc (length gap1 + length todo1) ≡ length gap + length todo
    → Reaches fuel len (done ++ v ∷ []) gap1 todo1 rest
    → Reaches (suc fuel) len done gap todo rest
after_round fuel len done gap todo gap1 todo1 rest v h u r l (gap', r', l') = (
  gap',
  loop_round fuel len (parts done gap todo rest) (parts (done ++ v ∷ []) gap1 todo1 rest) h r
      ∙ r'
      ∙ ap (λ (d : Bytes). parts d gap' [] rest)
          (append_assoc done (v ∷ []) (unescape todo1) ∙ ap (λ (d : Bytes). done ++ d) (sym u)),
  rw u (omega arith),
)

-- The loop, with fuel for every unread byte, leaves the unescaped text behind what was written.
loop_lem :
    (fuel len : ℕ) (done gap todo rest : Bytes)
    → length todo ≤ fuel
    → len ≡ length done + length gap + length todo
    → Reaches fuel len done gap todo rest
unfolding unescape
loop_lem zero len done gap [] rest h e =
    (gap, loop_done zero len done gap rest (omega arith), unescape_nil gap)
loop_lem zero len done gap (c ∷ todo) rest h e = absurd (omega arith)
loop_lem (suc fuel) len done gap [] rest h e =
    (gap, loop_done (suc fuel) len done gap rest (omega arith), unescape_nil gap)
loop_lem (suc fuel) len done gap (c ∷ []) rest h e =
    let (gap1, r, l) = once_plain len done gap [] rest c (inr refl) e in
    after_round fuel len done gap (c ∷ []) gap1 [] rest c (omega arith) (unescape_one c) r
      (omega arith)
      (loop_lem fuel len (done ++ c ∷ []) gap1 [] rest (omega arith)
        (omega (arith, length-append done (c ∷ []))))
loop_lem (suc fuel) len done gap (c ∷ d ∷ todo) rest h e = elim (Bool-cases (c == b'\\')) [
  | inl k ↦
      let (gap1, r, l) = once_escape len done gap todo rest c d k e in
      let v = unescape_char d in
      after_round fuel len done gap (c ∷ d ∷ todo) gap1 todo rest v (omega arith)
        (unescape-pair c d todo k) r (omega arith)
        (loop_lem fuel len (done ++ v ∷ []) gap1 todo rest (omega arith)
          (omega (arith, length-append done (v ∷ []))))
  | inr k ↦
      let (gap1, r, l) = once_plain len done gap (d ∷ todo) rest c (inl k) e in
      after_round fuel len done gap (c ∷ d ∷ todo) gap1 (d ∷ todo) rest c (omega arith)
        (unescape-cons c (d ∷ todo) k) r (omega arith)
        (loop_lem fuel len (done ++ c ∷ []) gap1 (d ∷ todo) rest (omega arith)
          (omega (arith, length-append done (c ∷ []))))
]

-- On a buffer that starts with `text`, `json_unescape` returns the length of the unescaped text and
-- leaves that text at the start of the buffer and what lies behind `text` unchanged; the bytes between
-- are as many as the escapes were longer.
pub json_unescape_lem :
    (text rest : Bytes)
    → (gap : Bytes) × (json_unescape (text ++ rest) (length text)
        ≡ (unescape text ++ (gap ++ rest), length (unescape text)))
      × (length (unescape text) + length gap ≡ length text)
unfolding json_unescape
json_unescape_lem text rest =
    let (gap, e, l) =
      loop_lem (length text) (length text) [] [] text rest (omega arith) (omega arith) in
    (gap, ap (λ (s : Cursor). (s.buf, s.w)) e, omega arith)

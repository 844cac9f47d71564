-- ===== src/Server/Http/Whole.antt =====
-- A request to src/server.c is read whole, however the network splits it.
use plumbr_c.Prelude.{
  nil_of_length, ap₂, ℕ, suc, ◌+◌, ◌-◌, ◌≡◌, ◌<◌, ◌≤◌, Bool, true, false, Bytes, List, [], ◌∷◌,
  ◌++◌, Option, none, some, map, All, ltb, leb, length, arith, refl, Bool-cases, Option-cases, inl,
  inr, ap, sym, ◌∙◌, length-append, append_assoc, append-nil, take_all, dec_lt, ◌==◌, ◌&&◌,
}
use plumbr_c.Server.Json.{starts_with}
use plumbr_c.Server.Http.{
  find_header_end, parse_content_length, ReadResult, bytes, Request, request, Header, see_header,
  complete_or, read_loop, read_full_request, read_buf_size, max_header_size,
}

starts_with-append :
    (text xs ys : Bytes)
    → length text ≤ length xs
    → starts_with text (xs ++ ys) ≡ starts_with text xs
unfolding starts_with
starts_with-append [] xs ys h = refl
starts_with-append (t ∷ text) [] ys h = absurd (omega arith)
starts_with-append (t ∷ text) (x ∷ xs) ys h =
    ap (λ (b : Bool). (x == t) && b) (starts_with-append text xs ys (omega arith))

starts_with-length : (text xs : Bytes) → starts_with text xs ≡ true → length text ≤ length xs
unfolding starts_with
starts_with-length [] xs h = omega arith
starts_with-length (t ∷ text) [] h = cc
starts_with-length (t ∷ text) (x ∷ xs) h = ground (arith, h, starts_with-length text xs)

abbrev empty_line : Bytes
empty_line = 13 ∷ 10 ∷ 13 ∷ 10 ∷ []

find_here :
    (x : ℕ) (xs : Bytes)
    → starts_with empty_line (x ∷ xs) ≡ true
    → find_header_end (x ∷ xs) ≡ some 4
unfolding find_header_end
find_here x xs h = rw h refl

find_later :
    (x : ℕ) (xs : Bytes)
    → starts_with empty_line (x ∷ xs) ≡ false
    → find_header_end (x ∷ xs) ≡ elim (find_header_end xs) as (λ (o : Option ℕ). Option ℕ) [
      | none ↦ none
      | some n ↦ some (suc n)
    ]
unfolding find_header_end
find_later x xs h = rw h refl

-- What follows does not change where the first empty line is.
find-append :
    (xs ys : Bytes) (n : ℕ)
    → find_header_end xs ≡ some n
    → (find_header_end (xs ++ ys) ≡ some n) × (n ≤ length xs) × (4 ≤ n)
unfolding find_header_end
find-append [] ys n h = cc
find-append (x ∷ xs) ys n h = elim (Bool-cases (starts_with empty_line (x ∷ xs))) [
  | inl e ↦
      let l = starts_with-length empty_line (x ∷ xs) e in
      let f = find_here x (xs ++ ys) (starts_with-append empty_line (x ∷ xs) ys l ∙ e) in
      let four : 4 ≡ n = some_inj (sym (find_here x xs e) ∙ h) in
      (f ∙ ap some four, omega (arith, l, four), omega (arith, four))
  | inr e ↦ elim (Option-cases (find_header_end xs)) [
    | inl k ↦ absurd (none_ne_some (sym (find_later x xs e ∙ ap later k) ∙ h))
    | inr (m, k) ↦
        let (f, l, u) = find-append xs ys m k in
        let next : suc m ≡ n = some_inj (sym (find_later x xs e ∙ ap later k) ∙ h) in
        let e2 = starts_with-append empty_line (x ∷ xs) ys (omega (arith, l, u)) ∙ e in
        (
          find_later x (xs ++ ys) e2 ∙ ap later f ∙ ap some next,
          omega (arith, l, next),
          omega (arith, u, next),
        )
  ]
]
  where
    later : Option ℕ → Option ℕ
    later none = none
    later (some n) = some (suc n)

    some_inj : {a b : ℕ} → some a ≡ some b → a ≡ b
    some_inj e = cc

    none_ne_some : {a : ℕ} → none ≡ some a → ⊥
    none_ne_some e = cc

-- Of two ways to split a text, the longer start has the shorter in front.
split-le :
    (ps bs xs ys : Bytes)
    → ps ++ bs ≡ xs ++ ys
    → length xs ≤ length ps
    → (zs : Bytes) × (ps ≡ xs ++ zs) × (zs ++ bs ≡ ys)
split-le ps bs [] ys e h = (ps, refl, e)
split-le [] bs (x ∷ xs) ys e h = absurd (omega arith)
split-le (a ∷ ps) bs (x ∷ xs) ys e h =
    let (head, tail) = cons_inj e in
    let (zs, f, g) = split-le ps bs xs ys tail (omega arith) in
    (zs, ap (◌∷◌ a) f ∙ ap (λ (c : ℕ). c ∷ (xs ++ zs)) head, g)
  where
    cons_inj : {a b : ℕ} {s t : Bytes} → a ∷ s ≡ b ∷ t → (a ≡ b) × (s ≡ t)
    cons_inj e = (cc, cc)

abbrev pub join : List Bytes → Bytes
join [] = []
join (b ∷ bs) = b ++ join bs

-- Headers that end with the first empty line and give the length of the body that follows.
pub record IsHead (head body : Bytes) : Type 0 where
  pub ends : find_header_end head ≡ some (length head)
  pub declares : (x : Bytes) → parse_content_length (head ++ x) (length head) ≡ some (length body)
  pub head_small : length head ≤ max_header_size
  pub fits : length head + length body ≤ read_buf_size

see_nothing :
    (buf : Bytes)
    → find_header_end buf ≡ none
    → ltb max_header_size (length buf) ≡ false
    → see_header buf none ≡ some none
unfolding see_header
see_nothing buf e k = ground (arith, e, k)

see_found :
    (buf : Bytes) {n len : ℕ}
    → find_header_end buf ≡ some n
    → parse_content_length buf n ≡ some len
    → see_header buf none ≡ some (some (n, len))
unfolding see_header
see_found buf e k = ground (arith, e, k)

module _ {head body : Bytes} (v : IsHead head body) where
  -- What the loop knows about the headers, by what has been read.
  abbrev IsSeen : Bytes → Header → Type 0
  IsSeen buf none = length buf < length head
  IsSeen buf (some (n, len)) = (n ≡ length head) × (len ≡ length body) × (length head ≤ length buf)

  module _ (buf rest : Bytes) (whole : buf ++ rest ≡ head ++ body) where
    length-whole : length buf + length rest ≡ length head + length body
    length-whole = sym (length-append buf rest) ∙ ap length whole ∙ length-append head body

    see-before : length buf < length head → see_header buf none ≡ some none
    see-before h = elim (Option-cases (find_header_end buf)) [
      | inl e ↦
          let k : ltb max_header_size (length buf) ≡ false =
            small (length buf) (omega (arith, h, v.head_small)) in
          see_nothing buf e k
      | inr (n, e) ↦
          let (f, l, u) = find-append buf rest n e in
          let (g, l2, u2) = find-append head body (length head) v.ends in
          let same : n ≡ length head = some_inj (sym f ∙ ap find_header_end whole ∙ g) in
          absurd (omega (arith, h, l, same))
    ]
      where
        small : (n : ℕ) → n ≤ max_header_size → ltb max_header_size n ≡ false
        small n h = ground arith

        some_inj : {a b : ℕ} → some a ≡ some b → a ≡ b
        some_inj e = cc

    see-behind :
        length head ≤ length buf → see_header buf none ≡ some (some (length head, length body))
    see-behind h =
        let (zs, e, f) = split-le buf rest head body whole h in
        let (g, l, u) = find-append head zs (length head) v.ends in
        let found = ap find_header_end e ∙ g in
        let given = ap (λ (b : Bytes). parse_content_length b (length head)) e ∙ v.declares zs in
        see_found buf found given

  read_step :
      (buf b : Bytes) (header : Header) (script : List ReadResult)
      → 0 < length b
      → length buf + length b ≤ read_buf_size
      → length buf < read_buf_size
      → read_loop buf header (bytes b ∷ script)
        ≡ complete_or (buf ++ b) (see_header (buf ++ b) header) (λ h. read_loop (buf ++ b) h script)
  unfolding read_loop
  read_step buf [] header script p h k = absurd (omega arith)
  read_step buf (c ∷ cs) header script p h k =
      let e : leb read_buf_size (length buf) ≡ false = ground arith in
      rw (e, take_all (read_buf_size - length buf) (c ∷ cs) (omega arith)) refl

  abbrev done : Request
  done = request (head ++ body) (length head + length body)

  -- Behind the read that brings the headers or more of the body.
  completed :
      (buf rest : Bytes) (next : Header → Request)
      → buf ++ rest ≡ head ++ body
      → length head + length body ≤ length buf
      → complete_or buf (some (some (length head, length body))) next ≡ done
  unfolding complete_or
  completed buf rest next whole h =
      let e : leb (length head + length body) (length buf) ≡ true = ground arith in
      let sum = length-whole buf rest whole in
      let none_left = nil_of_length rest (omega (arith, h, sum)) in
      let all = sym (append-nil buf) ∙ ap (buf ++◌) (sym none_left) ∙ whole in
      rw e (ap (λ (b : Bytes). request b (length head + length body)) all)

  goes_on :
      (buf : Bytes) (next : Header → Request)
      → length buf < length head + length body
      → complete_or buf (some (some (length head, length body))) next
        ≡ next (some (length head, length body))
  unfolding complete_or
  goes_on buf next h =
      let e : leb (length head + length body) (length buf) ≡ false = ground arith in rw e refl

  nothing_yet :
      (buf : Bytes) (next : Header → Request) → complete_or buf (some none) next ≡ next none
  unfolding complete_or
  nothing_yet buf next = refl

  before_head :
      (buf b : Bytes) (header : Header)
      → IsSeen buf header
      → length (buf ++ b) < length head
      → header ≡ none
  before_head buf b none s h = refl
  before_head buf b (some (n, len)) (e, f, g) h = absurd (omega (arith, g, h, length-append buf b))

  see-known :
      (buf b rest : Bytes) (header : Header)
      → (buf ++ b) ++ rest ≡ head ++ body
      → IsSeen buf header
      → length head ≤ length (buf ++ b)
      → see_header (buf ++ b) header ≡ some (some (length head, length body))
  unfolding see_header
  see-known buf b rest none whole s h = see-behind (buf ++ b) rest whole h
  see-known buf b rest (some (n, len)) whole (e, f, g) h = ap₂ (λ (x y : ℕ). some (some (x, y))) e f

  read_loop-whole :
      (chunks : List Bytes) (buf : Bytes) (header : Header) (more : List ReadResult)
      → All (λ b. 0 < length b) chunks
      → buf ++ join chunks ≡ head ++ body
      → length buf < length head + length body
      → IsSeen buf header
      → read_loop buf header (map bytes chunks ++ more) ≡ done
  read_loop-whole [] buf header more some_each whole short s =
      absurd (omega (arith, short, length-whole buf [] whole))
  read_loop-whole (b ∷ chunks) buf header more (some_b, some_each) whole short s =
      let buf2 = buf ++ b in
      let rest = join chunks in
      let script = map bytes chunks ++ more in
      let next = λ (h : Header). read_loop buf2 h script in
      let whole2 = append_assoc buf b rest ∙ whole in
      let sum = length-whole buf2 rest whole2 in
      let app = length-append buf b in
      let step =
        read_step buf b header script some_b (omega (arith, sum, app, v.fits))
          (omega (arith, short, v.fits)) in
      elim (dec_lt (length buf2) (length head)) [
        | yes h ↦
            let start = before_head buf b header s h in
            step
            ∙ ap (λ (g : Header). complete_or buf2 (see_header buf2 g) next) start
            ∙ ap (λ (o : Option Header). complete_or buf2 o next) (see-before buf2 rest whole2 h)
            ∙ nothing_yet buf2 next
            ∙ read_loop-whole chunks buf2 none more some_each whole2 (omega (arith, h)) h
        | no h ↦
            let known = see-known buf b rest header whole2 s (omega (arith, h)) in
            let seen = step ∙ ap (λ (o : Option Header). complete_or buf2 o next) known in
            elim (dec_lt (length buf2) (length head + length body)) [
              | yes l ↦
                  seen
                  ∙ goes_on buf2 next l
                  ∙ read_loop-whole chunks buf2 (some (length head, length body)) more some_each
                      whole2 l (refl, refl, omega (arith, h))
              | no l ↦ seen ∙ completed buf2 rest next whole2 (omega (arith, l))
            ]
      ]

  -- However the network splits a request of at most 128 KB in parts of at least one byte, whose headers end with their first empty
  -- line within 8 KB and give the length of the body: `read_full_request` returns the headers and the
  -- body, whatever would come behind.
  pub read_full_request-whole :
      (chunks : List Bytes) (more : List ReadResult)
      → All (λ b. 0 < length b) chunks
      → join chunks ≡ head ++ body
      → read_full_request (map bytes chunks ++ more) ≡ done
  unfolding read_full_request
  read_full_request-whole chunks more some_each whole =
      let (f, l, u) = find-append head [] (length head) v.ends in
      read_loop-whole chunks [] none more some_each whole (omega (arith, u)) (omega (arith, u))

-- ===== src/Server/Json/Text.antt =====
-- What the JSON escapes of src/server.c mean, as functions of a text.
use plumbr_c.Prelude.{
  ap, le→ltb_false, ltb, some, ◌/◌, size_max, Bool, take_all, ℕ, ◌+◌, ◌*◌, ◌-◌, ◌≤◌, ◌<◌, ◌≡◌, refl,
  sym, ◌∙◌, true, false, Bytes, [], ◌∷◌, ◌++◌, ◌==◌, length, take, arith, length-append, append-nil,
  append_assoc,
}
use plumbr_c.Server.Json.{json_escape, unescape_char, unicode_escape, escape_byte, escape_loop}

-- A text with each escape replaced by what it stands for.
unfoldable pub unescape : Bytes → Bytes
unescape [] = []
unescape (c ∷ []) = c ∷ []
unescape (c ∷ d ∷ rest) = elim (c == b'\\') [
  | true ↦ unescape_char d ∷ unescape rest
  | false ↦ c ∷ unescape (d ∷ rest)
]

pub unescape-cons :
    (c : ℕ) (rest : Bytes) → (c == b'\\') ≡ false → unescape (c ∷ rest) ≡ c ∷ unescape rest
unfolding unescape
unescape-cons c [] h = refl
unescape-cons c (d ∷ rest) h = rw (h, unescape) refl

pub unescape-pair :
    (c d : ℕ) (rest : Bytes)
    → (c == b'\\') ≡ true
    → unescape (c ∷ d ∷ rest) ≡ unescape_char d ∷ unescape rest
unfolding unescape
unescape-pair c d rest h = rw (h, unescape) refl

-- A text with each byte replaced by its escape.
unfoldable pub escape : Bytes → Bytes
escape [] = []
escape (c ∷ cs) = escape_byte 7 c ++ escape cs

-- Where there is room for six bytes and the NUL, `snprintf` leaves nothing out.
pub take-unicode_escape : (n c : ℕ) → 6 ≤ n → take n (unicode_escape c) ≡ unicode_escape c
unfolding unicode_escape
take-unicode_escape n c h = take_all n (unicode_escape c) h

pub length-unicode_escape : (c : ℕ) → length (unicode_escape c) ≡ 6
unfolding unicode_escape
length-unicode_escape c = refl

escape_byte_fits : (room c : ℕ) → 7 ≤ room → escape_byte room c ≡ escape_byte 7 c
unfolding escape_byte
escape_byte_fits room c h =
    rw (take-unicode_escape (room - 1) c (omega arith), take-unicode_escape 6 c (omega arith)) refl

length-escape_byte : (c : ℕ) → length (escape_byte 7 c) ≤ 6
unfolding escape_byte unicode_escape
length-escape_byte c = ground arith

pub length-escape : (text : Bytes) → length (escape text) ≤ 6 * length text
unfolding escape
length-escape [] = omega arith
length-escape (c ∷ cs) =
    omega
      (arith, length-append (escape_byte 7 c) (escape cs), length-escape_byte c, length-escape cs)

pub escape_loop_lem :
    (max_len : ℕ) (out text : Bytes)
    → length out + 6 * length text < max_len
    → escape_loop max_len out text ≡ out ++ escape text
unfolding escape_loop escape
escape_loop_lem max_len out [] h = sym (append-nil out)
escape_loop_lem max_len out (c ∷ text) h =
    rw (escape_byte_fits (max_len - length out) c (omega arith)) (
      escape_loop_lem max_len (out ++ escape_byte 7 c) text
        (omega (arith, length-append out (escape_byte 7 c), length-escape_byte c))
      ∙ append_assoc out (escape_byte 7 c) (escape text))

-- Where `malloc` succeeds and the size does not wrap, `json_escape` returns the escaped text, which
-- with its NUL fits the `6 * input_len + 1` bytes allocated.
pub json_escape_lem :
    (malloc : ℕ → Bool) (input : Bytes)
    → length input ≤ (size_max - 1) / 6
    → malloc (length input * 6 + 1) ≡ true
    → (json_escape malloc input ≡ some (escape input))
      × (length (escape input) + 1 ≤ length input * 6 + 1)
unfolding json_escape
json_escape_lem malloc input h m =
    let small : ltb ((size_max - 1) / 6) (length input) ≡ false = le→ltb_false _ _ h in
    (
      rw (small, m) (ap some (escape_loop_lem (length input * 6 + 1) [] input (omega arith))),
      omega (arith, length-escape input),
    )

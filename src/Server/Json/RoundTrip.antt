-- ===== src/Server/Json/RoundTrip.antt =====
-- A text that src/server.c escapes for a JSON document comes back when it is parsed.
use plumbr_c.Prelude.{
  none, Option, codes, ℕ, ◌+◌, ◌/◌, ◌%◌, ◌≤◌, ◌<◌, ◌≡◌, ◌≢◌, ◌⊎◌, refl, ap, ◌∙◌, false, Bytes, [],
  ◌∷◌, ◌++◌, some, ◌==◌, length, arith, All, length-append, append_assoc,
}
use plumbr_c.Server.Json.{
  json_unescape, skip_separators, starts_with, find_key, extract_json_text, unescape_char,
  hex_digit, unicode_escape, escape_byte, string_end,
}
use plumbr_c.Server.Json.InPlace.{json_unescape_lem}
use plumbr_c.Server.Json.Text.{
  unescape-cons, length-unicode_escape, take-unicode_escape, unescape, escape,
}

-- The bytes that `json_unescape` can give back: not the control bytes that are written as `\u00XX`.
unfoldable pub IsPlain : ℕ → Type 0
IsPlain c = (32 ≤ c) ⊎ ((8 ≤ c) × (c ≤ 13) × (c ≢ 11))

unescape-escape_byte :
    (c : ℕ) (rest : Bytes) → IsPlain c → unescape (escape_byte 7 c ++ rest) ≡ c ∷ unescape rest
unfolding IsPlain escape_byte unescape unescape_char
unescape-escape_byte c rest h = ground (arith, unescape-cons c rest)

-- Unescaping what was escaped gives the text back.
pub unescape-escape : (text : Bytes) → All IsPlain text → unescape (escape text) ≡ text
unfolding escape unescape
unescape-escape [] h = refl
unescape-escape (c ∷ text) (hc, h) =
    unescape-escape_byte c (escape text) hc ∙ ap (◌∷◌ c) (unescape-escape text h)

string_end-cons :
    (c : ℕ) (rest : Bytes) (n : ℕ)
    → (c == b'\\') ≡ false
    → (c == b'"') ≡ false
    → string_end (c ∷ rest) n ≡ string_end rest (n + 1)
unfolding string_end
string_end-cons c [] n h k = rw (h, k) refl
string_end-cons c (d ∷ rest) n h k = ground (arith, h, k)

string_end-quote : (rest : Bytes) (n : ℕ) → string_end (b'"' ∷ rest) n ≡ some (n + 0)
unfolding string_end
string_end-quote [] n = ap some (omega arith)
string_end-quote (d ∷ rest) n = ap some (omega arith)

hex_digit_ne : (d : ℕ) → d < 16 → ((hex_digit d == b'\\') ≡ false) × ((hex_digit d == b'"') ≡ false)
unfolding hex_digit
hex_digit_ne d h = (ground arith, ground arith)

string_end-unicode_escape :
    (c : ℕ) (rest : Bytes) (n : ℕ)
    → string_end (unicode_escape c ++ rest) n ≡ string_end rest (n + 6)
unfolding string_end unicode_escape
string_end-unicode_escape c rest n =
    let d1 = hex_digit (c / 16 % 16) in
    let d2 = hex_digit (c % 16) in
    let (h1, k1) = hex_digit_ne (c / 16 % 16) (omega arith) in
    let (h2, k2) = hex_digit_ne (c % 16) (omega arith) in
    string_end-cons b'0' (b'0' ∷ d1 ∷ d2 ∷ rest) (n + 2) refl refl
    ∙ string_end-cons b'0' (d1 ∷ d2 ∷ rest) (n + 2 + 1) refl refl
    ∙ string_end-cons d1 (d2 ∷ rest) (n + 2 + 1 + 1) h1 k1
    ∙ string_end-cons d2 rest (n + 2 + 1 + 1 + 1) h2 k2
    ∙ ap (string_end rest) (omega arith)

string_end-escape_byte :
    (c : ℕ) (rest : Bytes) (n : ℕ)
    → string_end (escape_byte 7 c ++ rest) n ≡ string_end rest (n + length (escape_byte 7 c))
unfolding escape_byte string_end
string_end-escape_byte c rest n = ground (
  arith,
  take-unicode_escape 6 c (omega arith),
  length-unicode_escape c,
  string_end-unicode_escape c rest n,
  string_end-cons c rest n,
)

-- The end of a string that was escaped is the quote behind it.
pub string_end-escape :
    (text rest : Bytes) (n : ℕ)
    → string_end (escape text ++ b'"' ∷ rest) n ≡ some (n + length (escape text))
unfolding escape
string_end-escape [] rest n = string_end-quote rest n
string_end-escape (c ∷ text) rest n =
    ap (λ (xs : Bytes). string_end xs n)
      (append_assoc (escape_byte 7 c) (escape text) (b'"' ∷ rest))
    ∙ string_end-escape_byte c (escape text ++ b'"' ∷ rest) n
    ∙ string_end-escape text rest (n + length (escape_byte 7 c))
    ∙ ap some (omega (arith, length-append (escape_byte 7 c) (escape text)))

-- `extract_json_text` finds the escaped text in a document that starts with it, whatever the text
-- holds and whatever follows its quote.
pub extract_json_text-escape :
    (text rest : Bytes)
    → extract_json_text (codes "{\"text\": \"" ++ escape text ++ b'"' ∷ rest)
      ≡ some (10, length (escape text))
unfolding extract_json_text find_key starts_with skip_separators
extract_json_text-escape text rest =
    let e : 0 + length (escape text) ≡ length (escape text) = omega arith in
    ap (λ (r : Option ℕ). elim r [ none ↦ none | some n ↦ some (10, n) ])
      (string_end-escape text rest 0 ∙ ap some e)

-- `json_unescape` on a buffer that starts with an escaped text returns the text's length and leaves
-- the text at the start of the buffer and what lies behind the escaped text unchanged, if the text
-- has no control bytes but the five with an escape of their own.
pub json_unescape-escape :
    (text rest : Bytes)
    → All IsPlain text
    → (gap : Bytes) × (json_unescape (escape text ++ rest) (length (escape text))
        ≡ (text ++ (gap ++ rest), length text))
json_unescape-escape text rest h =
    let (gap, e, l) = json_unescape_lem (escape text) rest in
    (gap, e ∙ ap (λ (t : Bytes). (t ++ (gap ++ rest), length t)) (unescape-escape text h))

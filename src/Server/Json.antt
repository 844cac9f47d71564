-- ===== src/Server/Json.antt =====
-- The JSON strings of requests and responses: `extract_json_text`, `json_unescape` and
-- `json_escape` of src/server.c.
pub mod Text
pub mod InPlace
pub mod RoundTrip
use plumbr_c.Prelude.{
  ℕ, zero, suc, ◌+◌, ◌-◌, ◌*◌, ◌/◌, ◌%◌, Bool, true, false, Bytes, List, [], ◌∷◌, ◌++◌, Option,
  none, some, ltb, leb, ◌==◌, if◌then◌else◌, ◌&&◌, ◌||◌, length, take, drop, get_or, set, size_max,
  codes,
}

-- Whether `buf` starts with the bytes of `text`, compared one by one.
unfoldable pub starts_with : Bytes → Bytes → Bool
starts_with [] buf = true
starts_with (c ∷ text) [] = false
starts_with (c ∷ text) (d ∷ buf) = (d == c) && starts_with text buf

-- The switch of `json_unescape` on the byte behind a backslash.
unfoldable pub unescape_char : ℕ → ℕ
unescape_char c =
    if c == b'"'
    then b'"'
    else if c == b'\\'
    then b'\\'
    else if c == b'/'
    then b'/'
    else if c == b'n'
    then b'\n'
    else if c == b'r'
    then b'\r'
    else if c == b't'
    then b'\t'
    else if c == b'b'
    then 8
    else if c == b'f'
    then 12
    else c

-- The buffer of `json_unescape`, its read index and its write index.
pub record Cursor : Type 0 where
  pub buf : Bytes
  pub r : ℕ
  pub w : ℕ

-- One round of the loop of `json_unescape`.
unfoldable pub unescape_once : ℕ → Cursor → Cursor
unfolding unescape_char
unescape_once len s =
    if (get_or s.buf s.r 0 == b'\\') && ltb (s.r + 1) len
    then record {
      buf = set s.buf s.w (unescape_char (get_or s.buf (s.r + 1) 0));
      r = s.r + 2;
      w = s.w + 1;
    }
    else record { buf = set s.buf s.w (get_or s.buf s.r 0); r = s.r + 1; w = s.w + 1 }

-- while (r < len), for at most `fuel` rounds.
unfoldable pub unescape_loop : ℕ → ℕ → Cursor → Cursor
unfolding unescape_once
unescape_loop zero len s = s
unescape_loop (suc fuel) len s =
    let rest = unescape_loop fuel len (unescape_once len s) in if ltb s.r len then rest else s

-- `json_unescape`: the buffer afterwards and the new length.
unfoldable pub json_unescape : Bytes → ℕ → Bytes × ℕ
unfolding unescape_loop
json_unescape buf len =
    let s = unescape_loop len len (record { buf = buf; r = 0; w = 0 }) in (s.buf, s.w)

-- A lower-case hexadecimal digit.
unfoldable pub hex_digit : ℕ → ℕ
hex_digit d = if ltb d 10 then b'0' + d else b'a' + d - 10

-- What `snprintf(out, size, "\\u%04x", c)` prints of a byte, when there is room.
unfoldable pub unicode_escape : ℕ → Bytes
unfolding hex_digit
unicode_escape c = b'\\' ∷ b'u' ∷ b'0' ∷ b'0' ∷ hex_digit (c / 16 % 16) ∷ hex_digit (c % 16) ∷ []

-- The bytes that `json_escape` writes for one byte of the input, `room` being `max_len - w`:
-- `snprintf` leaves out what does not fit before its NUL.
unfoldable pub escape_byte : ℕ → ℕ → Bytes
unfolding unicode_escape
escape_byte room c =
    if c == b'"'
    then b'\\' ∷ b'"' ∷ []
    else if c == b'\\'
    then b'\\' ∷ b'\\' ∷ []
    else if c == b'\n'
    then b'\\' ∷ b'n' ∷ []
    else if c == b'\r'
    then b'\\' ∷ b'r' ∷ []
    else if c == b'\t'
    then b'\\' ∷ b't' ∷ []
    else if c == 8
    then b'\\' ∷ b'b' ∷ []
    else if c == 12
    then b'\\' ∷ b'f' ∷ []
    else if ltb c 32
    then take (room - 1) (unicode_escape c)
    else c ∷ []

-- The loop of `json_escape` behind the bytes already written.
unfoldable pub escape_loop : ℕ → Bytes → Bytes → Bytes
unfolding escape_byte
escape_loop max_len out [] = out
escape_loop max_len out (c ∷ input) =
    escape_loop max_len (out ++ escape_byte (max_len - length out) c) input

-- `json_escape`: the bytes before the NUL, or `none` for NULL. `malloc` tells whether an
-- allocation of so many bytes succeeds.
unfoldable pub json_escape : (ℕ → Bool) → Bytes → Option Bytes
unfolding escape_loop
json_escape malloc input =
    let max_len = length input * 6 + 1 in
    if ltb ((size_max - 1) / 6) (length input)
    then none
    else if malloc max_len
    then some (escape_loop max_len [] input)
    else none

-- The search for the key: the index behind it, and the bytes from there.
unfoldable pub find_key : Bytes → ℕ → Option (ℕ × Bytes)
unfolding starts_with
find_key [] i = none
find_key (c ∷ cs) i =
    let rest = find_key cs (i + 1) in
    if starts_with (codes "\"text\"") (c ∷ cs) then some (i + 6, drop 5 cs) else rest

-- The blanks, tabs and colons behind the key.
unfoldable pub skip_separators : Bytes → ℕ → ℕ × Bytes
skip_separators [] i = (i, [])
skip_separators (c ∷ cs) i =
    let rest = skip_separators cs (i + 1) in
    if (c == b' ') || (c == b':') || (c == b'\t') then rest else (i, c ∷ cs)

-- The bytes before the closing quote, `n` being passed: a backslash takes the next byte with it.
unfoldable pub string_end : Bytes → ℕ → Option ℕ
string_end [] n = none
string_end (c ∷ []) n = if c == b'\\' then none else if c == b'"' then some n else none
string_end (c ∷ d ∷ rest) n = elim (c == b'\\') [
  | true ↦ string_end rest (n + 2)
  | false ↦ elim (c == b'"') [ true ↦ some n | false ↦ string_end (d ∷ rest) (n + 1) ]
]

-- `extract_json_text`: `text_start - json` and `text_len`, `none` for false.
unfoldable pub extract_json_text : Bytes → Option (ℕ × ℕ)
unfolding find_key skip_separators string_end
extract_json_text json = elim (find_key json 0) [
  | none ↦ none
  | some (i, rest) ↦
      let (j, value) = skip_separators rest i in
      elim value [
        | [] ↦ none
        | c ∷ cs ↦ elim (c == b'"') [
          | false ↦ none
          | true ↦ elim (string_end cs 0) [ none ↦ none | some n ↦ some (j + 1, n) ]
        ]
      ]
]

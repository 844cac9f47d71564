-- ===== src/Server/Http.antt =====
-- src/server.c: HTTP requests: the end of the headers, Content-Length, Connection, the request line,
-- and the reading of a whole request.
pub mod Whole
mod Tests
use plumbr_c.Prelude.{
  ℕ, zero, suc, ◌+◌, ◌*◌, ◌-◌, Bool, true, false, ◌&&◌, ◌||◌, not, Bytes, List, [], ◌∷◌, ◌++◌,
  Option, none, some, ◌==◌, if◌then◌else◌, ltb, leb, length, take, drop, codes,
}
use plumbr_c.Pattern.Load.{is_space, skip_spaces}
use plumbr_c.Server.Json.{starts_with}
use plumbr_c.Server.Redact.{max_body_size}

-- `find_header_end`: the index behind the first empty line.
unfoldable pub find_header_end : Bytes → Option ℕ
unfolding starts_with
find_header_end [] = none
find_header_end (c ∷ cs) =
    let rest = find_header_end cs in
    if starts_with (13 ∷ 10 ∷ 13 ∷ 10 ∷ []) (c ∷ cs)
    then some 4
    else elim rest [ none ↦ none | some n ↦ some (suc n) ]

-- A header's name in lower case, against bytes of either case.
unfoldable pub has_name : Bytes → Bytes → Bool
has_name [] buf = true
has_name (n ∷ name) [] = false
has_name (n ∷ name) (c ∷ buf) = ((c == n) || (leb b'a' n && (c + 32 == n))) && has_name name buf

-- while (val < end && *val == ' ') val++, with `left` bytes up to `end`.
unfoldable pub skip_blanks : ℕ → Bytes → ℕ × Bytes
skip_blanks zero val = (zero, val)
skip_blanks (suc left) [] = (suc left, [])
skip_blanks (suc left) (c ∷ cs) =
    let rest = skip_blanks left cs in if c == b' ' then rest else (suc left, c ∷ cs)

unfoldable pub is_digit : ℕ → Bool
is_digit c = leb b'0' c && leb c b'9'

-- The number at the start of the bytes, `none` without a digit.
unfoldable pub digits : Option ℕ → Bytes → Option ℕ
unfolding is_digit
digits n [] = n
digits n (c ∷ cs) =
    let value : ℕ = elim n [ none ↦ 0 | some v ↦ v ] in
    let rest = digits (some (value * 10 + (c - b'0'))) cs in if is_digit c then rest else n

-- The library's `strtol` to the base 10: whether there is a minus, and the number.
unfoldable pub strtol : Bytes → Bool × Option ℕ
unfolding skip_spaces digits
strtol bytes = elim (skip_spaces bytes) [
  | [] ↦ (false, none)
  | c ∷ cs ↦
      if c == b'-'
      then (true, digits none cs)
      else if c == b'+'
      then (false, digits none cs)
      else (false, digits none (c ∷ cs))
]

-- The value behind the name, `none` for -1: no number, a negative one, or too large a one.
unfoldable pub length_value : Bool × Option ℕ → Option ℕ
length_value (negative, none) = none
length_value (negative, some n) =
    if (negative && ltb 0 n) || ltb max_body_size n then none else some n

-- The loop of `parse_content_length`, with `left` bytes of headers; `fresh` at the start of a line.
unfoldable pub scan_length : Bool → ℕ → Bytes → Option ℕ
unfolding has_name skip_blanks strtol length_value
scan_length fresh zero buf = none
scan_length fresh (suc left) [] = none
scan_length fresh (suc left) (c ∷ cs) =
    let rest = scan_length (c == b'\n') left cs in
    if fresh && ltb 15 (suc left) && has_name (codes "content-length:") (c ∷ cs)
    then length_value (strtol (skip_blanks (suc left - 15) (drop 15 (c ∷ cs))).1)
    else rest

-- `parse_content_length`, on a buffer whose first `header_len` bytes are the headers.
unfoldable pub parse_content_length : Bytes → ℕ → Option ℕ
unfolding scan_length
parse_content_length buf header_len = scan_length true header_len buf

-- `memmem` for a text that is not empty.
unfoldable pub contains : Bytes → Bytes → Bool
unfolding starts_with
contains text [] = false
contains text (c ∷ cs) = let rest = contains text cs in starts_with text (c ∷ cs) || rest

-- The loop of `is_keep_alive` over the headers.
unfoldable pub scan_connection : Bool → Bytes → Bool
unfolding has_name skip_blanks starts_with
scan_connection fresh [] = false
scan_connection fresh (c ∷ cs) =
    let rest = scan_connection (c == b'\n') cs in
    let value = (skip_blanks (length (c ∷ cs)) (drop 11 (c ∷ cs))).1 in
    if fresh && ltb 10 (length (c ∷ cs)) && has_name (codes "connection:") (c ∷ cs)
    then starts_with (codes "keep-alive") value
      || starts_with (codes "Keep-Alive") value
      || starts_with (codes "Keep-alive") value
    else rest

-- `is_keep_alive`
unfoldable pub is_keep_alive : Bytes → Bool
unfolding contains scan_connection
is_keep_alive headers =
    if ltb 8 (length headers) && contains (codes "HTTP/1.1") headers
    then true
    else scan_connection true headers

-- What `read` gives: bytes, where none are the end of the connection, that end, EAGAIN, or another
-- error.
pub data ReadResult : Type 0 where
  bytes : Bytes → ReadResult
  closed : ReadResult
  timeout : ReadResult
  failed : ReadResult

-- How the reading ends: with the buffer and the number returned, with -1, or not yet.
pub data Request : Type 0 where
  request : Bytes → ℕ → Request
  rejected : Request
  waiting : Request

-- `READ_BUF_SIZE` and `MAX_HEADER_SIZE`
abbrev pub read_buf_size : ℕ
read_buf_size = 131072

abbrev pub max_header_size : ℕ
max_header_size = 8192

-- Whether the headers are there, and where they end and how long the body is to be.
abbrev pub Header : Type 0
Header = Option (ℕ × ℕ)

-- What a round of `read_full_request` finds out about the headers; `none` rejects the request.
unfoldable pub see_header : Bytes → Header → Option Header
unfolding find_header_end parse_content_length
see_header buf (some h) = some (some h)
see_header buf none = elim (find_header_end buf) [
  | none ↦ if ltb max_header_size (length buf) then none else some none
  | some n ↦ elim (parse_content_length buf n) [
    | none ↦ some (some (n, 0))
    | some len ↦ some (some (n, len))
  ]
]

-- What is returned when the connection ends or nothing comes.
abbrev pub rest_of : Bytes → Request
rest_of [] = rejected
rest_of (c ∷ cs) = request (c ∷ cs) (length (c ∷ cs))

-- Behind a read: the request is complete, or the loop goes on.
unfoldable pub complete_or : Bytes → Option Header → (Header → Request) → Request
complete_or buf none next = rejected
complete_or buf (some none) next = next none
complete_or buf (some (some (n, len))) next =
    if leb (n + len) (length buf) then request buf (n + len) else next (some (n, len))

-- The loop of `read_full_request` over what `read` gives.
unfoldable pub read_loop : Bytes → Header → List ReadResult → Request
unfolding see_header complete_or
read_loop buf header [] =
    if leb read_buf_size (length buf) then request buf (length buf) else waiting
read_loop buf header (r ∷ script) =
    if leb read_buf_size (length buf) then request buf (length buf) else elim r [
      | bytes [] ↦ rest_of buf
      | bytes (c ∷ cs) ↦
          let buf' = buf ++ take (read_buf_size - length buf) (c ∷ cs) in
          complete_or buf' (see_header buf' header) (λ h. read_loop buf' h script)
      | closed ↦ rest_of buf
      | timeout ↦ rest_of buf
      | failed ↦ rejected
    ]

-- `read_full_request`
unfoldable pub read_full_request : List ReadResult → Request
unfolding read_loop
read_full_request script = read_loop [] none script

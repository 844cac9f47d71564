-- ===== src/Server/Route.antt =====
-- src/server.c: the request line, and the choice of the handler in `handle_connection`.
pub mod RoundTrip
use plumbr_c.Prelude.{
  ℕ, zero, suc, ◌+◌, Bool, true, false, ◌&&◌, ◌||◌, Bytes, [], ◌∷◌, Option, none, some, ◌==◌,
  if◌then◌else◌, ltb, length, codes, bytes_eq,
}

-- `memchr(p, ' ', limit)`: the bytes before the space, and those behind it.
unfoldable pub before_space : ℕ → Bytes → Option (Bytes × Bytes)
before_space zero bytes = none
before_space (suc limit) [] = none
before_space (suc limit) (c ∷ cs) =
    let rest = before_space limit cs in
    if c == b' '
    then some ([], cs)
    else elim rest [ none ↦ none | some (word, behind) ↦ some (c ∷ word, behind) ]

-- `parse_request_line` for fields of 16 and 256 bytes: the method and the path, `none` for false.
unfoldable pub parse_request_line : Bytes → Option (Bytes × Bytes)
unfolding before_space
parse_request_line buf = elim (before_space 32 buf) [
  | none ↦ none
  | some (method, behind) ↦ elim (ltb (length method) 16) [
    | false ↦ none
    | true ↦ elim (before_space 256 behind) [
      | none ↦ none
      | some (path, rest) ↦ if ltb (length path) 256 then some (method, path) else none
    ]
  ]
]

-- What `handle_connection` does with a request: a status sent at once, or a handler.
pub data Route : Type 0 where
  options : Route
  redact : Route
  redact_batch : Route
  health : Route
  missing_body : Route
  not_found : Route

-- The chain of tests; `has_body` tells whether there is a body that is not empty.
unfoldable pub route : Bytes → Bytes → Bool → Route
route method path has_body =
    if bytes_eq method (codes "OPTIONS")
    then options
    else if bytes_eq method (codes "POST") && bytes_eq path (codes "/api/redact")
    then (if has_body then redact else missing_body)
    else if bytes_eq method (codes "POST") && bytes_eq path (codes "/api/redact/batch")
    then (if has_body then redact_batch else missing_body)
    else if bytes_eq method (codes "GET")
        && (bytes_eq path (codes "/health") || bytes_eq path (codes "/api/health"))
    then health
    else not_found

-- ===== src/Server/Http/Tests.antt =====
-- Requests in several reads, and headers, at concrete bytes.
use plumbr_c.Prelude.{
  All, ◌≢◌, not, ◌&&◌, ◌==◌, ℕ, ◌+◌, ◌≡◌, Bool, true, false, Bytes, List, [], ◌∷◌, ◌++◌, none, map,
  codes, arith, refl, length,
}
use plumbr_c.Server.Json.{starts_with}
use plumbr_c.Server.Http.{
  find_header_end, parse_content_length, is_keep_alive, scan_connection, contains, scan_length,
  has_name, skip_blanks, strtol, digits, is_digit, length_value, bytes, closed, request,
  read_full_request,
}
use plumbr_c.Server.Http.Whole.{IsHead, read_full_request-whole}
use plumbr_c.Server.Route.{route, redact}
use plumbr_c.Pattern.Load.{skip_spaces, is_space}

abbrev head : Bytes
head = codes "POST / HTTP/1.1\r\ncontent-LENGTH:  2\r\n\r\n"

head-IsHead : IsHead head (codes "{}")
unfolding find_header_end starts_with parse_content_length scan_length has_name skip_blanks strtol
    digits is_digit length_value skip_spaces is_space
head-IsHead = record {
  ends = refl;
  declares = λ x. refl;
  head_small = omega arith;
  fits = omega arith;
}

abbrev chunks : List Bytes
chunks = codes "POST / HTTP/1.1\r\ncontent-LENGTH:  2\r" ∷ codes "\n\r\n{" ∷ codes "}" ∷ []

read_full_request-whole_example :
    read_full_request (map bytes chunks ++ closed ∷ [])
    ≡ request (head ++ codes "{}") (length head + 2)
read_full_request-whole_example =
    read_full_request-whole head-IsHead chunks (closed ∷ []) (omega arith) refl

-- A request that asks to close the connection is kept alive all the same.
close_ignored : is_keep_alive (codes "GET / HTTP/1.1\r\nConnection: close\r\n\r\n") ≡ true
unfolding is_keep_alive contains starts_with
close_ignored = refl

old_client : is_keep_alive (codes "GET / HTTP/1.0\r\nConnection: close\r\n\r\n") ≡ false
unfolding is_keep_alive contains starts_with scan_connection has_name skip_blanks
old_client = refl

too_large : parse_content_length (codes "Content-Length: 1048577\r\n\r\n") 25 ≡ none
unfolding parse_content_length scan_length has_name skip_blanks strtol digits is_digit length_value
    skip_spaces is_space
too_large = refl

abbrev space_free : Bytes → Bool
space_free [] = true
space_free (c ∷ cs) = not (c == b' ') && space_free cs

no_space : (s : Bytes) → space_free s ≡ true → All (λ (c : ℕ). c ≢ b' ') s
no_space [] h = tt
no_space (c ∷ cs) h = ((λ e. absurd (ground (arith, e, h))), no_space cs (ground (arith, h)))

routed : route (codes "POST") (codes "/api/redact") true ≡ redact
unfolding route
routed = refl

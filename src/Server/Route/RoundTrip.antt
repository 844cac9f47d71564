-- ===== src/Server/Route/RoundTrip.antt =====
-- A request line of src/server.c is taken apart into the method and the path that were written.
use plumbr_c.Prelude.{
  ℕ, zero, suc, ◌≡◌, ◌≢◌, ◌<◌, true, Bytes, [], ◌∷◌, ◌++◌, some, ltb, length, arith, refl, All,
}
use plumbr_c.Server.Route.{before_space, parse_request_line}

before_space-word :
    (limit : ℕ) (word behind : Bytes)
    → All (λ (c : ℕ). c ≢ b' ') word
    → length word < limit
    → before_space limit (word ++ b' ' ∷ behind) ≡ some (word, behind)
unfolding before_space
before_space-word zero word behind h l = elim l [ ]
before_space-word (suc limit) [] behind h l = refl
before_space-word (suc limit) (c ∷ cs) behind (hc, h) l =
    ground (arith, hc, before_space-word limit cs behind h (omega arith))

request_line_found :
    (buf behind rest method path : Bytes)
    → before_space 32 buf ≡ some (method, behind)
    → before_space 256 behind ≡ some (path, rest)
    → ltb (length method) 16 ≡ true
    → ltb (length path) 256 ≡ true
    → parse_request_line buf ≡ some (method, path)
unfolding parse_request_line
request_line_found buf behind rest method path e f lm lp = ground (arith, e, f, lm, lp)

ltb-true : {a b : ℕ} → a < b → ltb a b ≡ true
ltb-true h = ground arith

-- A method of less than 16 bytes and a path of less than 256, without spaces, are found in the request
-- line that they were written to, whatever follows.
parse_request_line-print :
    (method path rest : Bytes)
    → All (λ (c : ℕ). c ≢ b' ') method
    → All (λ (c : ℕ). c ≢ b' ') path
    → length method < 16
    → length path < 256
    → parse_request_line (method ++ b' ' ∷ (path ++ b' ' ∷ rest)) ≡ some (method, path)
parse_request_line-print method path rest hm hp lm lp =
    request_line_found _ (path ++ b' ' ∷ rest) rest method path
      (before_space-word 32 method (path ++ b' ' ∷ rest) hm (omega arith))
      (before_space-word 256 path rest hp lp) (ltb-true lm) (ltb-true lp)

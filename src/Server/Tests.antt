-- ===== src/Server/Tests.antt =====
-- The theorems on the server's parts, at short texts.
use plumbr_c.Prelude.{
  if◌then◌else◌, drop, ltb, arith, Bytes, ◌+◌, ◌≡◌, inl, inr, refl, true, codes, All, length, ◌++◌,
  ◌∷◌, [],
}
use plumbr_c.Server.Queue.{WorkQueue, queue_push, queue_pop}
use plumbr_c.Server.Queue.Fifo.{next_popped, IsQueue, contents, queue_push_lem, queue_pop_lem}
use plumbr_c.Server.Json.{json_unescape}
use plumbr_c.Server.Json.Text.{unescape, escape}
use plumbr_c.Server.Json.InPlace.{json_unescape_lem}
use plumbr_c.Server.Json.RoundTrip.{IsPlain, json_unescape-escape}

abbrev quoted : Bytes
quoted = codes "a\"\n"

quoted-IsPlain : All IsPlain quoted
unfolding IsPlain
quoted-IsPlain = (
  inl (omega arith),
  (inl (omega arith), (inr (omega arith, omega arith, λ e. omega (arith, e)), tt)),
)

json_unescape-escape_example :
    (gap : Bytes) × (json_unescape (escape quoted ++ codes "}") (length (escape quoted))
      ≡ (quoted ++ (gap ++ codes "}"), length quoted))
json_unescape-escape_example = json_unescape-escape quoted (codes "}") quoted-IsPlain

json_unescape_lem_example :
    (gap : Bytes) × (json_unescape (codes "a\\tb" ++ codes "}") (length (codes "a\\tb"))
      ≡ (unescape (codes "a\\tb") ++ (gap ++ codes "}"), length (unescape (codes "a\\tb"))))
    × (length (unescape (codes "a\\tb")) + length gap ≡ length (codes "a\\tb"))
json_unescape_lem_example = json_unescape_lem (codes "a\\tb") (codes "}")

abbrev busy : WorkQueue
busy = record { fds = λ i. i + 3; head = 4095; tail = 0; count = 1 }

busy-IsQueue : IsQueue busy
busy-IsQueue = record { head_lt = omega arith; count_le = omega arith; tail_eq = refl }

queue_push_lem_example :
    IsQueue (queue_push busy 9).0
    × ((queue_push busy 9).1 ≡ ltb 1 4096)
    × (contents (queue_push busy 9).0
        ≡ (if ltb 1 4096 then contents busy ++ 9 ∷ [] else contents busy))
queue_push_lem_example = queue_push_lem busy 9 busy-IsQueue

queue_pop_lem_example :
    IsQueue (queue_pop true busy).0
    × ((queue_pop true busy).1 ≡ next_popped true (contents busy))
    × (contents (queue_pop true busy).0 ≡ drop 1 (contents busy))
queue_pop_lem_example = queue_pop_lem true busy busy-IsQueue

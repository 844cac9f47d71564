-- ===== src/Server/Batch.antt =====
-- src/server.c: the handler of `POST /api/redact/batch`.
-- `grants` tells whether an allocation of so many bytes succeeds, and `elapsed` is the text of the
-- time that the handler took. The counters of all requests are left out.
pub mod Room
pub mod Laws
mod Tests
use plumbr_c.Prelude.{
  ℕ, zero, suc, ◌+◌, ◌*◌, ◌/◌, ◌-◌, ◌%◌, Bool, true, false, ◌||◌, Bytes, [], ◌∷◌, ◌++◌, Option,
  none, some, ◌==◌, if◌then◌else◌, ltb, leb, length, take, drop, size_mod, add_size, codes,
}
use plumbr_c.Redactor.Client.{Ops}
use plumbr_c.Libplumbr.{Plumbr}
use plumbr_c.Lines.{Copied, copied, null, overrun, stuck, copy_lines}
use plumbr_c.Server.Json.{starts_with, string_end, json_unescape, json_escape}
use plumbr_c.Server.Redact.{Handler, handler_work, count_patterns}

-- `%d` of a number that is not negative, with at most `n` digits.
unfoldable pub print_digits : ℕ → ℕ → Bytes
print_digits zero x = []
print_digits (suc n) x =
    let rest = print_digits n (x / 10) in
    if ltb x 10 then (b'0' + x) ∷ [] else rest ++ (b'0' + x % 10) ∷ []

-- An `int` has at most ten digits.
unfoldable pub print_int : ℕ → Bytes
unfolding print_digits
print_int x = print_digits 10 x

-- The library's state, the response so far with the capacity of its buffer, and the totals,
-- `int`s that a request of at most 128 KB cannot bring near their limit.
pub record Batch (R : Type 0) : Type 0 where
  pub plumbr : Plumbr R
  pub resp : Bytes
  pub capacity : ℕ
  pub total_items : ℕ
  pub total_lines : ℕ
  pub total_modified : ℕ
  pub total_patterns : ℕ

-- How a step ends: the loop goes on, the response cannot be enlarged, or a write would be cut off at
-- the end of a buffer.
pub data Step (R : Type 0) : Type 0 where
  go : Batch R → Step R
  no_memory : Plumbr R → Step R
  cut_off : Step R

-- What is sent: an error with its status, or the document.
pub data Answer : Type 0 where
  error : ℕ → Answer
  ok : Bytes → Answer

-- The search for "texts": the bytes behind it.
unfoldable pub find_texts : Bytes → Option Bytes
unfolding starts_with
find_texts [] = none
find_texts (c ∷ cs) =
    let rest = find_texts cs in
    if starts_with (codes "\"texts\"") (c ∷ cs) then some (drop 6 cs) else rest

-- The blanks, colons and tabs behind the key, and the bracket: what follows it.
unfoldable pub array_start : Bytes → Option Bytes
array_start [] = none
array_start (c ∷ cs) =
    let rest = array_start cs in
    if (c == b' ') || (c == b':') || (c == b'\t') then rest else if c == b'[' then some cs else none

-- One element of "results".
unfoldable pub item_text : Bytes → ℕ → ℕ → ℕ → Bytes
item_text escaped lines modified patterns =
    codes "{\"redacted\":\""
    ++ (escaped
        ++ (codes "\",\"lines_processed\":"
            ++ (print_int lines
                ++ (codes ",\"lines_modified\":"
                    ++ (print_int modified
                        ++ (codes ",\"patterns_matched\":"
                            ++ (print_int patterns ++ codes "}")))))))

-- The comma before every element but the first.
abbrev pub comma_before : ℕ → Bytes
comma_before zero = []
comma_before (suc n) = b',' ∷ []

unfoldable pub stats_text : ℕ → ℕ → ℕ → ℕ → Bytes → Bytes
stats_text items lines modified patterns elapsed =
    codes "],\"stats\":{\"items_processed\":"
    ++ (print_int items
        ++ (codes ",\"total_lines\":"
            ++ (print_int lines
                ++ (codes ",\"total_modified\":"
                    ++ (print_int modified
                        ++ (codes ",\"total_patterns_matched\":"
                            ++ (print_int patterns
                                ++ (codes ",\"processing_time_ms\":"
                                    ++ (elapsed ++ codes "}}")))))))))

-- Behind the opening bracket of "results".
abbrev pub first_batch : {R : Type 0} → Plumbr R → ℕ → Batch R
first_batch p size = record {
  plumbr = p;
  resp = codes "{\"results\":[";
  capacity = size;
  total_items = 0;
  total_lines = 0;
  total_modified = 0;
  total_patterns = 0;
}

module _ {R : Type 0} (ops : Ops R) (grants : ℕ → Bool) where
  -- while (resp_pos + needed > resp_capacity): 64 doublings leave a capacity of 0, and `realloc`
  -- then frees the block, which counts as a refusal.
  unfoldable pub grow_resp : ℕ → ℕ → ℕ → Option ℕ
  grow_resp zero size need = if leb need size then some size else none
  grow_resp (suc fuel) size need =
      let rest = grow_resp fuel (size * 2 % size_mod) need in
      if leb need size then some size else if grants (size * 2 % size_mod) then rest else none

  -- What is written behind the response, NUL included, is cut off where it does not fit.
  unfoldable pub append_resp : Batch R → ℕ → Bytes → Option (Batch R)
  append_resp b size text =
      if ltb (length (b.resp ++ text)) size
      then some (record b { resp = b.resp ++ text; capacity = size })
      else none

  -- An element that has been redacted and escaped.
  unfoldable pub add_item : Batch R → Handler R → Bytes → Bytes → Step R
  add_item b h out escaped =
      elim (grow_resp 64 b.capacity (add_size (length b.resp) (add_size (length escaped) 256))) [
        | none ↦ no_memory h.plumbr
        | some size ↦
            let patterns = count_patterns out in
            let text =
              comma_before b.total_items
              ++ item_text escaped h.lines_processed h.lines_modified patterns in
            elim (append_resp b size text) [
              | none ↦ cut_off
              | some b' ↦ go (record b' {
                plumbr = h.plumbr;
                total_items = b'.total_items + 1;
                total_lines = b'.total_lines + h.lines_processed;
                total_modified = b'.total_modified + h.lines_modified;
                total_patterns = b'.total_patterns + patterns;
              })
            ]
      ]

  -- From the copied text on. An element whose buffers cannot be allocated is left out.
  unfoldable pub finish_item : Batch R → Copied (Handler R) → Step R
  finish_item b (null h) = go (record b { plumbr = h.plumbr })
  finish_item b overrun = cut_off
  finish_item b stuck = cut_off
  finish_item b (copied h out) = elim (json_escape grants out) [
    | none ↦ go (record b { plumbr = h.plumbr })
    | some escaped ↦ add_item b h out escaped
  ]

  -- From the unescaped text on.
  unfoldable pub redact_item : Batch R → Bytes → Step R
  redact_item b text =
      let size = add_size (length text * 2) 128 in
      let h : Handler R = record { plumbr = b.plumbr; lines_processed = 0; lines_modified = 0 } in
      if grants size
      then finish_item b (copy_lines (handler_work ops grants) (length text) h [] size text)
      else go b

  -- The bytes between two quotes, copied with a NUL behind them and unescaped in place.
  unfoldable pub do_item : Batch R → Bytes → Step R
  do_item b bytes =
      if grants (length bytes + 1)
      then (let (buffer, unescaped) = json_unescape (bytes ++ 0 ∷ []) (length bytes) in
          redact_item b (take unescaped buffer))
      else go b

  -- while (p < end): blanks, commas and whatever else is no string are passed over.
  unfoldable pub do_items : ℕ → Batch R → Bytes → Step R
  do_items zero b cs = go b
  do_items (suc fuel) b [] = go b
  do_items (suc fuel) b (c ∷ cs) = elim (c == b']') [
    | true ↦ go b
    | false ↦ elim (c == b'"') [
      | false ↦ do_items fuel b cs
      | true ↦ elim (string_end cs 0) [
        | none ↦ go b
        | some n ↦ elim (do_item b (take n cs)) [
          | go b' ↦ do_items fuel b' (drop (n + 1) cs)
          | no_memory p ↦ no_memory p
          | cut_off ↦ cut_off
        ]
      ]
    ]
  ]

  -- The end of the document.
  unfoldable pub close_batch : Bytes → Step R → Option (Plumbr R × Answer)
  close_batch elapsed (no_memory p) = some (p, error 500)
  close_batch elapsed cut_off = none
  close_batch elapsed (go b) = elim (grow_resp 64 b.capacity (add_size (length b.resp) 256)) [
    | none ↦ some (b.plumbr, error 500)
    | some size ↦
        elim (append_resp b size
          (stats_text b.total_items b.total_lines b.total_modified b.total_patterns elapsed)) [
            | none ↦ none
            | some b' ↦ some (b'.plumbr, ok b'.resp)
          ]
  ]

  -- `handle_redact_batch` on a request's body; `none` where a write would be cut off. Each round
  -- passes a byte at least, so the body's length is fuel enough.
  unfoldable pub handle_redact_batch : Plumbr R → Bytes → Bytes → Option (Plumbr R × Answer)
  handle_redact_batch p body elapsed = elim (find_texts body) [
    | none ↦ some (p, error 400)
    | some rest ↦ elim (array_start rest) [
      | none ↦ some (p, error 400)
      | some cs ↦
          let size = add_size (length body * 2) 1024 in
          if grants size
          then close_batch elapsed (do_items (length cs) (first_batch p size) cs)
          else some (p, error 500)
    ]
  ]

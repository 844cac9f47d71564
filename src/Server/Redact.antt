-- ===== src/Server/Redact.antt =====
-- src/server.c: the handler of `POST /api/redact`.
-- `grants` tells whether an allocation of so many bytes succeeds. Time stamps, the counters of all
-- requests and the printing of the response are left out.
pub mod Laws
mod Tests
use plumbr_c.Prelude.{
  ℕ, zero, suc, ◌+◌, ◌*◌, ◌/◌, ◌-◌, ◌^◌, Bool, true, false, ◌&&◌, not, Bytes, List, [], ◌∷◌, ◌++◌,
  Option, none, some, ◌==◌, if◌then◌else◌, ltb, leb, length, take, drop, bytes_eq, size_max,
  add_size, codes,
}
use plumbr_c.Redactor.Client.{Ops}
use plumbr_c.Libplumbr.{Plumbr, redact}
use plumbr_c.Lines.{Work, Copied, copied, null, overrun, stuck, copy_lines}
use plumbr_c.Server.Json.{starts_with, extract_json_text, json_unescape, json_escape}

-- `count_patterns`: the places where "[REDACTED:" starts, with a byte behind it.
unfoldable pub count_patterns : Bytes → ℕ
unfolding starts_with
count_patterns [] = 0
count_patterns (c ∷ cs) =
    let rest = count_patterns cs in
    if ltb 10 (length (c ∷ cs)) && starts_with (codes "[REDACTED:") (c ∷ cs) then rest + 1 else rest

-- The library's state, and the locals that the loop counts in.
pub record Handler (R : Type 0) : Type 0 where
  pub plumbr : Plumbr R
  pub lines_processed : ℕ
  pub lines_modified : ℕ

-- What is sent: an error with its status, or the escaped text with the three numbers behind it.
pub data Reply : Type 0 where
  error : ℕ → Reply
  ok : Bytes → ℕ → ℕ → ℕ → Reply

-- `MAX_BODY_SIZE`
abbrev pub max_body_size : ℕ
max_body_size = 1048576

module _ {R : Type 0} (ops : Ops R) (grants : ℕ → Bool) where
  -- A line that `libplumbr_redact` gives no text for is sent as it is.
  unfoldable pub redact_line : Handler R → Bytes → Handler R × Bytes
  unfolding redact
  redact_line h line =
      let (p, output) = redact ops grants h.plumbr line in
      elim output [
        | none ↦ (record h { plumbr = p }, line)
        | some text ↦ (
          record h {
            plumbr = p;
            lines_modified = h.lines_modified + (if bytes_eq text line then 0 else 1);
          },
          text,
        )
      ]

  -- while (out_pos + result_len + 2 > out_capacity), for at most `fuel` doublings; `none` where the
  -- capacity cannot be doubled, an allocation fails, or the fuel has run out.
  unfoldable pub double_until : ℕ → ℕ → ℕ → Option ℕ
  double_until zero size need = if leb need size then some size else none
  double_until (suc fuel) size need =
      let rest = double_until fuel (size * 2) need in
      if leb need size
      then some size
      else if ltb (size_max / 2) size
      then none
      else if grants (size * 2)
      then rest
      else none

  -- 64 doublings take any capacity past what a `size_t` holds.
  unfoldable pub make_room : ℕ → ℕ → ℕ → Option ℕ
  unfolding double_until
  make_room size pos len = double_until 64 size (add_size (add_size pos len) 2)

  abbrev pub handler_work : Work (Handler R)
  handler_work = record {
    redact = redact_line;
    count = λ h line. record h { lines_processed = h.lines_processed + 1 };
    ensure = make_room;
  }

  -- From the copied text on: it is escaped, and the response is allocated.
  unfoldable pub respond : Copied (Handler R) → Option (Handler R) × Reply
  unfolding json_escape count_patterns
  respond (null h) = (some h, error 500)
  respond overrun = (none, error 500)
  respond stuck = (none, error 500)
  respond (copied h out) = elim (json_escape grants out) [
    | none ↦ (some h, error 500)
    | some escaped ↦
        if grants (length escaped + 256)
        then (some h, ok escaped h.lines_processed h.lines_modified (count_patterns out))
        else (some h, error 500)
  ]

  -- From the unescaped text on.
  unfoldable pub redact_text : Handler R → Bytes → Option (Handler R) × Reply
  unfolding copy_lines respond
  redact_text h text =
      let size = add_size (length text * 2) 256 in
      if grants size
      then respond (copy_lines handler_work (length text) h [] size text)
      else (some h, error 500)

  -- A string's bytes, copied with a NUL behind them and unescaped in place.
  unfoldable pub redact_string : Handler R → Bytes → ℕ → Option (Handler R) × Reply
  unfolding json_unescape redact_text
  redact_string h bytes len =
      let (buffer, unescaped) = json_unescape (bytes ++ 0 ∷ []) len in
      redact_text h (take unescaped buffer)

  -- What follows `extract_json_text`.
  unfoldable pub handle_found : Handler R → Bytes → Option (ℕ × ℕ) → Option (Handler R) × Reply
  unfolding redact_string
  handle_found h body none = (some h, error 400)
  handle_found h body (some (start, len)) =
      if ltb max_body_size len
      then (some h, error 413)
      else if grants (len + 1)
      then redact_string h (take len (drop start body)) len
      else (some h, error 500)

  -- `handle_redact` on a request's body. The first part of the result is `none` only for a write
  -- behind the buffer.
  unfoldable pub handle_redact : Plumbr R → Bytes → Option (Handler R) × Reply
  unfolding extract_json_text handle_found
  handle_redact p body =
      handle_found (record { plumbr = p; lines_processed = 0; lines_modified = 0 }) body
        (extract_json_text body)

-- ===== src/Server/Redact/Laws.antt =====
-- What a client of `POST /api/redact` of src/server.c gets back.
use plumbr_c.Prelude.{
  ℕ, zero, suc, ◌+◌, ◌*◌, ◌/◌, ◌^◌, ◌≡◌, ◌≢◌, ◌<◌, ◌≤◌, Bool, true, false, Bytes, [], ◌∷◌, ◌++◌,
  none, some, ltb, leb, length, take, drop, size_max, add_size, append-nil, arith, refl, Bool-cases,
  inl, inr, ap, sym, ◌∙◌, codes, All, length-append,
}
use plumbr_c.Redactor.Client.{Ops}
use plumbr_c.Libplumbr.{Plumbr, redact, max_input}
use plumbr_c.Lines.{copied, run_lines, split_lines}
use plumbr_c.Lines.Copy.{IsRoomy, Failed, copy_lines-Ends}
use plumbr_c.Server.Json.{escape_byte, unicode_escape, json_escape}
use plumbr_c.Server.Json.Text.{escape, json_escape_lem}
use plumbr_c.Server.Json.RoundTrip.{IsPlain, extract_json_text-escape, json_unescape-escape}
use plumbr_c.Server.Redact.{
  Handler, ok, redact_line, double_until, make_room, handler_work, respond, redact_text,
  redact_string, handle_redact, handle_found, count_patterns, max_body_size,
}

module _ {R : Type 0} (ops : Ops R) (grants : ℕ → Bool) where
  double_until-fits :
      (fuel size need size2 : ℕ)
      → double_until ops grants fuel size need ≡ some size2
      → need ≤ size2
  unfolding double_until
  double_until-fits zero size need size2 e = ground arith
  double_until-fits (suc fuel) size need size2 e =
      ground (arith, e, double_until-fits fuel (size * 2) need size2)

  pub make_room-IsRoomy : IsRoomy (handler_work ops grants)
  unfolding make_room
  make_room-IsRoomy size pos len size2 small e =
      omega (arith, small, double_until-fits 64 size (add_size (add_size pos len) 2) size2 e)

  doubled : (size need fuel : ℕ) → need ≤ size * 2 ^ suc fuel → need ≤ size * 2 * 2 ^ fuel
  doubled size need fuel h = grind arith

  -- Where everything is granted, the doublings reach what is needed.
  double_until-some :
      (fuel size need : ℕ)
      → ((n : ℕ) → grants n ≡ true)
      → need < 2 ^ 63
      → need ≤ size * 2 ^ fuel
      → (size2 : ℕ) × (double_until ops grants fuel size need ≡ some size2)
  unfolding double_until
  double_until-some zero size need g small h =
      let k : leb need size ≡ true = ground arith in (size, rw k refl)
  double_until-some (suc fuel) size need g small h = elim (Bool-cases (leb need size)) [
    | inl e ↦ (size, rw e refl)
    | inr e ↦
        let k : ltb (size_max / 2) size ≡ false = ground arith in
        let (size2, f) =
          double_until-some fuel (size * 2) need g small (doubled size need fuel h) in
        (size2, rw (e, k, g (size * 2)) f)
  ]

  -- What the loop makes of a text, and the state behind it.
  abbrev pub redacted : Plumbr R → Bytes → Handler R × Bytes
  redacted p text =
      run_lines (handler_work ops grants)
        (record { plumbr = p; lines_processed = 0; lines_modified = 0 }) (split_lines text)

  none_ne_some : {n : ℕ} → none ≡ some n → ⊥
  none_ne_some e = cc

  pub never_fails : ((n : ℕ) → grants n ≡ true) → Failed (handler_work ops grants) → ⊥
  unfolding make_room
  never_fails g f =
      let need = add_size (add_size f.pos f.len) 2 in
      let (size2, e) =
        double_until-some 64 f.size need g (omega (arith, f.small))
          (omega (arith, f.small, f.positive)) in
      none_ne_some (sym f.fails ∙ e)

  copied-text :
      (h : Handler R) (text : Bytes)
      → ((n : ℕ) → grants n ≡ true)
      → length text ≤ max_body_size
      → length (run_lines (handler_work ops grants) h (split_lines text)).1 < 2 ^ 61
      → redact_text ops grants h text
        ≡ respond ops grants (
            copied
              (run_lines (handler_work ops grants) h (split_lines text)).0
              (run_lines (handler_work ops grants) h (split_lines text)).1)
  unfolding redact_text
  copied-text h text g short small =
      let size = add_size (length text * 2) 256 in
      elim (copy_lines-Ends (handler_work ops grants) make_room-IsRoomy (length text) h [] size text
        (omega arith) (omega (arith, short)) (omega (arith, small))) [
          | inl e ↦ rw (g size) (ap (respond ops grants) e)
          | inr (h', e, f) ↦ absurd (never_fails g f)
        ]

  respond-some :
      (h : Handler R) (out escaped : Bytes)
      → json_escape grants out ≡ some escaped
      → grants (length escaped + 256) ≡ true
      → respond ops grants (copied h out)
        ≡ (some h, ok escaped h.lines_processed h.lines_modified (count_patterns out))
  unfolding respond
  respond-some h out escaped e k = ground (arith, e, k)

  respond-copied :
      (h : Handler R) (out : Bytes)
      → ((n : ℕ) → grants n ≡ true)
      → length out < 2 ^ 61
      → respond ops grants (copied h out)
        ≡ (some h, ok (escape out) h.lines_processed h.lines_modified (count_patterns out))
  unfolding respond
  respond-copied h out g small =
      let (e, l) = json_escape_lem grants out (omega (arith, small)) (g (length out * 6 + 1)) in
      respond-some h out (escape out) e (g (length (escape out) + 256))

  escape_byte-nonempty : (c : ℕ) → 1 ≤ length (escape_byte 7 c)
  unfolding escape_byte unicode_escape
  escape_byte-nonempty c = ground arith

  -- No byte is escaped to nothing.
  pub length-escape_ge : (text : Bytes) → length text ≤ length (escape text)
  unfolding escape
  length-escape_ge [] = omega arith
  length-escape_ge (c ∷ cs) = omega (
    arith,
    length-escape_ge cs,
    length-append (escape_byte 7 c) (escape cs),
    escape_byte-nonempty c,
  )

  pub take-append : (xs ys : Bytes) → take (length xs) (xs ++ ys) ≡ xs
  take-append [] ys = refl
  take-append (x ∷ xs) ys = ap (◌∷◌ x) (take-append xs ys)

  redact_string-escape :
      (h : Handler R) (text : Bytes)
      → All IsPlain text
      → redact_string ops grants h (escape text) (length (escape text))
        ≡ redact_text ops grants h text
  unfolding redact_string
  redact_string-escape h text plain =
      let (gap, e) = json_unescape-escape text (0 ∷ []) plain in
      ap (λ (r : Bytes × ℕ). redact_text ops grants h (take r.1 r.0)) e
      ∙ ap (redact_text ops grants h) (take-append text (gap ++ 0 ∷ []))

  found_fits :
      (h : Handler R) (body : Bytes) (start len : ℕ)
      → len ≤ max_body_size
      → grants (len + 1) ≡ true
      → handle_found ops grants h body (some (start, len))
        ≡ redact_string ops grants h (take len (drop start body)) len
  unfolding handle_found
  found_fits h body start len short g =
      let k : ltb max_body_size len ≡ false = ground arith in rw (k, g) refl

  -- The reply to a body that starts with a text, escaped, of at most a megabyte and without control
  -- bytes but the five that have an escape of their own: the text's lines, each redacted and with its
  -- newline, escaped, with the numbers counted on the way, if all allocations are granted and the
  -- redacted text is shorter than 2 ^ 61 bytes.
  pub handle_redact-escape :
      (p : Plumbr R) (text rest : Bytes)
      → All IsPlain text
      → length (escape text) ≤ max_body_size
      → ((n : ℕ) → grants n ≡ true)
      → length (redacted p text).1 < 2 ^ 61
      → handle_redact ops grants p (codes "{\"text\": \"" ++ escape text ++ b'"' ∷ rest) ≡ (
        some (redacted p text).0,
        ok
            (escape (redacted p text).1)
            (redacted p text).0.lines_processed
            (redacted p text).0.lines_modified
            (count_patterns (redacted p text).1),
      )
  unfolding handle_redact
  handle_redact-escape p text rest plain short g small =
      let h : Handler R = record { plumbr = p; lines_processed = 0; lines_modified = 0 } in
      let body = codes "{\"text\": \"" ++ escape text ++ b'"' ∷ rest in
      ap (handle_found ops grants h body) (extract_json_text-escape text rest)
      ∙ found_fits h body 10 (length (escape text)) short (g (length (escape text) + 1))
      ∙ ap (λ (bytes : Bytes). redact_string ops grants h bytes (length (escape text)))
          (take-append (escape text) (b'"' ∷ rest))
      ∙ redact_string-escape h text plain
      ∙ copied-text h text g (omega (arith, short, length-escape_ge text)) small
      ∙ respond-copied (redacted p text).0 (redacted p text).1 g small

  split_lines-one :
      (c : ℕ) (cs : Bytes)
      → All (λ (d : ℕ). d ≢ b'\n') (c ∷ cs)
      → split_lines (c ∷ cs) ≡ (c ∷ cs, false) ∷ []
  unfolding split_lines
  split_lines-one c [] (hc, h) = ground (arith, hc)
  split_lines-one c (d ∷ cs) (hc, h) = ground (arith, hc, split_lines-one d cs h)

  redact-long :
      (p : Plumbr R) (line : Bytes) → max_input < length line → redact ops grants p line ≡ (p, none)
  unfolding redact
  redact-long p line long = let k : ltb max_input (length line) ≡ true = ground arith in rw k refl

  redact_line-long :
      (h : Handler R) (line : Bytes)
      → max_input < length line
      → redact_line ops grants h line ≡ (h, line)
  unfolding redact_line
  redact_line-long h line long = ground (arith, redact-long h.plumbr line long)

  abbrev with_text : Handler R → Bytes → Handler R × Bytes
  with_text h t = (h, t)

  redacted-long :
      (p : Plumbr R) (c : ℕ) (cs : Bytes)
      → All (λ (d : ℕ). d ≢ b'\n') (c ∷ cs)
      → max_input < length (c ∷ cs)
      → redacted p (c ∷ cs)
        ≡ (record { plumbr = p; lines_processed = 1; lines_modified = 0 }, c ∷ cs)
  unfolding run_lines
  redacted-long p c cs plain long =
      let h : Handler R = record { plumbr = p; lines_processed = 0; lines_modified = 0 } in
      let count : Handler R × Bytes → Handler R × Bytes =
        λ r. (record r.0 { lines_processed = r.0.lines_processed + 1 }, (r.1 ++ []) ++ []) in
      ap (run_lines (handler_work ops grants) h) (split_lines-one c cs plain)
      ∙ ap count (redact_line-long h (c ∷ cs) long)
      ∙ ap (λ (t : Bytes). with_text (record h { lines_processed = 1 }) t)
          (append-nil ((c ∷ cs) ++ []) ∙ append-nil (c ∷ cs))

  -- The request of one line of more than 65536 bytes, without a newline or another control byte but
  -- the four that have an escape of their own, is answered with that line as it came, and status
  -- 200: if all allocations are granted and the escaped line is at most a megabyte, the reply holds
  -- the line, escaped, as one line that was not modified, and the library's state is as before.
  pub handle_redact-long :
      (p : Plumbr R) (c : ℕ) (cs rest : Bytes)
      → All IsPlain (c ∷ cs)
      → All (λ (d : ℕ). d ≢ b'\n') (c ∷ cs)
      → max_input < length (c ∷ cs)
      → length (escape (c ∷ cs)) ≤ max_body_size
      → ((n : ℕ) → grants n ≡ true)
      → handle_redact ops grants p (codes "{\"text\": \"" ++ escape (c ∷ cs) ++ b'"' ∷ rest) ≡ (
        some (record { plumbr = p; lines_processed = 1; lines_modified = 0 }),
        ok (escape (c ∷ cs)) 1 0 (count_patterns (c ∷ cs)),
      )
  handle_redact-long p c cs rest plain one long short g =
      let e = redacted-long p c cs one long in
      let small : length (redacted p (c ∷ cs)).1 < 2 ^ 61 =
        omega (arith, short, length-escape_ge (c ∷ cs), ap (λ r. length r.1) e) in
      handle_redact-escape p (c ∷ cs) rest plain short g small
      ∙ ap
          (λ (r : Handler R × Bytes).
            (some r.0, ok (escape r.1) r.0.lines_processed r.0.lines_modified (count_patterns r.1)))
          e

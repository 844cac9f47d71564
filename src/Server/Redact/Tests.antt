-- ===== src/Server/Redact/Tests.antt =====
-- Requests handled with a redactor that hides every text.
use plumbr_c.Prelude.{
  inr, ℕ, zero, suc, ◌+◌, ◌≡◌, ◌≢◌, Bool, true, Bytes, ◌∷◌, ◌++◌, some, codes, arith, refl, length,
  All, inl, inr, ap, replicate,
}
use plumbr_c.Redactor.{rewritten}
use plumbr_c.Redactor.Client.{Ops}
use plumbr_c.Libplumbr.{Plumbr, no_stats, count_line}
use plumbr_c.Libplumbr as Library
use plumbr_c.Lines.{run_lines, split_lines}
use plumbr_c.Server.Json.{escape_byte}
use plumbr_c.Server.Json.Text.{escape}
use plumbr_c.Server.Json.RoundTrip.{IsPlain}
use plumbr_c.Server.Redact.{ok, error, handle_redact, redact_line, count_patterns, handle_found}
use plumbr_c.Server.Redact.Laws.{redacted, handle_redact-escape, handle_redact-long}

abbrev hide : Ops ℕ
hide = record {
  redact = λ seen text. (seen + 1, rewritten (codes "#") 1);
  patterns_matched = λ seen. seen;
  reset_stats = λ seen. 0;
}

abbrev fresh : Plumbr ℕ
fresh = record { redactor = 0; stats = no_stats }

abbrev all_granted : ℕ → Bool
all_granted size = true

abbrev two_lines : Bytes
two_lines = codes "a\nb"

two_lines-IsPlain : All IsPlain two_lines
unfolding IsPlain
two_lines-IsPlain = (
  inl (omega arith),
  (inr (omega arith, omega arith, λ e. omega (arith, e)), (inl (omega arith), tt)),
)

hidden : (redacted hide all_granted fresh two_lines).1 ≡ codes "#\n#"
unfolding run_lines split_lines redact_line Library.redact
hidden = refl

escaped : escape two_lines ≡ codes "a\\nb"
unfolding escape escape_byte
escaped = refl

handle_redact-escape_example :
    handle_redact hide all_granted fresh
      (codes "{\"text\": \"" ++ escape two_lines ++ b'"' ∷ codes "}")
    ≡ (
      some (redacted hide all_granted fresh two_lines).0,
      ok
          (escape (redacted hide all_granted fresh two_lines).1)
          (redacted hide all_granted fresh two_lines).0.lines_processed
          (redacted hide all_granted fresh two_lines).0.lines_modified
          (count_patterns (redacted hide all_granted fresh two_lines).1),
    )
handle_redact-escape_example =
    handle_redact-escape hide all_granted fresh two_lines (codes "}") two_lines-IsPlain
      (omega (arith, ap length escaped)) (λ n. refl) (omega (arith, ap length hidden))

length-replicate : (n c : ℕ) → length (replicate n c) ≡ n
length-replicate zero c = refl
length-replicate (suc n) c = ap suc (length-replicate n c)

All-replicate : (n : ℕ) → All (λ (d : ℕ). d ≢ b'\n') (replicate n b'x')
All-replicate zero = tt
All-replicate (suc n) = (λ e. absurd (omega (arith, e)), All-replicate n)

All-IsPlain : (n : ℕ) → All IsPlain (replicate n b'x')
unfolding IsPlain
All-IsPlain zero = tt
All-IsPlain (suc n) = (inl (omega arith), All-IsPlain n)

escape-replicate : (n : ℕ) → escape (replicate n b'x') ≡ replicate n b'x'
unfolding escape escape_byte
escape-replicate zero = refl
escape-replicate (suc n) = ap (λ (t : Bytes). b'x' ∷ t) (escape-replicate n)

handle_redact-long_example :
    handle_redact hide all_granted fresh
      (codes "{\"text\": \"" ++ escape (b'x' ∷ replicate 65536 b'x') ++ b'"' ∷ codes "}")
    ≡ (
      some (record { plumbr = fresh; lines_processed = 1; lines_modified = 0 }),
      ok (escape (b'x' ∷ replicate 65536 b'x')) 1 0 (count_patterns (b'x' ∷ replicate 65536 b'x')),
    )
handle_redact-long_example =
    handle_redact-long hide all_granted fresh b'x' (replicate 65536 b'x') (codes "}")
      (All-IsPlain 65537) (λ e. absurd (omega (arith, e)), All-replicate 65536)
      (omega (arith, length-replicate 65536 b'x'))
      (omega (arith, ap length (escape-replicate 65537), length-replicate 65537 b'x')) (λ n. refl)

-- A body without the key.
no_text : (handle_redact hide all_granted fresh (codes "{}")).1 ≡ error 400
unfolding handle_redact handle_found
no_text = refl

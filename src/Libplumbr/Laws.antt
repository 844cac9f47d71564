-- ===== src/Libplumbr/Laws.antt =====
-- What the calls of src/libplumbr.c return, and what their statistics leave out.
use plumbr_c.Prelude.{
  subst, ℕ, ◌+◌, ◌-◌, ◌^◌, ◌≡◌, ◌<◌, ◌≤◌, Bool, true, false, Bytes, List, [], ◌∷◌, some, map, ltb,
  length, arith, refl, ap, ◌∙◌, sym, All,
}
use plumbr_c.Redactor.Client.{Ops, text_of, IsRedactor}
use plumbr_c.Libplumbr.{count_line, Plumbr, redact, batch_loop, redact_batch, max_input}

module _ {R : Type 0} (ops : Ops R) (is : IsRedactor ops) (grants : ℕ → Bool) where
  -- The text that a line is redacted to.
  abbrev pub text_for : Bytes → Bytes
  text_for line = text_of (is.process line)

  -- What `libplumbr_redact` does with an input that fits, where its output is granted.
  redact_ok :
      (p : Plumbr R) (input result : Bytes)
      → text_of (ops.redact p.redactor input).1 ≡ result
      → length input ≤ max_input
      → grants (length result + 1) ≡ true
      → ((redact ops grants p input).1 ≡ some result)
        × ((redact ops grants p input).0.redactor ≡ (ops.redact p.redactor input).0)
        × ((redact ops grants p input).0.stats.lines_processed ≡ p.stats.lines_processed + 1)
  unfolding redact count_line
  redact_ok p input result e h g =
      let k : ltb max_input (length input) ≡ false = ground arith in rw (k, e, g) (refl, refl, refl)

  -- Every input fits, and its output is granted.
  abbrev pub Accepted : Bytes → Type 0
  Accepted input = (length input ≤ max_input) × (grants (length (text_for input) + 1) ≡ true)

  batch_next :
      (p : Plumbr R) (input : Bytes) (inputs : List Bytes) (text : Bytes) (texts : List Bytes)
      → (redact ops grants p input).1 ≡ some text
      → (batch_loop ops grants (redact ops grants p input).0 inputs).1 ≡ some texts
      → (batch_loop ops grants p (input ∷ inputs)).1 ≡ some (text ∷ texts)
  unfolding batch_loop
  batch_next p input inputs text texts e f = ground (arith, e, f)

  batch_state :
      (p : Plumbr R) (input : Bytes) (inputs : List Bytes) (text : Bytes)
      → (redact ops grants p input).1 ≡ some text
      → (batch_loop ops grants p (input ∷ inputs)).0
        ≡ (batch_loop ops grants (redact ops grants p input).0 inputs).0
  unfolding batch_loop
  batch_state p input inputs text e = ground (arith, e)

  batch_loop_lem :
      (p : Plumbr R) (inputs : List Bytes)
      → is.Ready p.redactor
      → All Accepted inputs
      → ((batch_loop ops grants p inputs).1 ≡ some (map text_for inputs))
        × ((batch_loop ops grants p inputs).0.stats.lines_processed
            ≡ p.stats.lines_processed + length inputs)
  unfolding batch_loop
  batch_loop_lem p [] r h = (refl, omega arith)
  batch_loop_lem p (input ∷ inputs) r ((fit, g), h) =
      let (e, s, n) =
        redact_ok p input (text_for input) (ap text_of (is.gives p.redactor input r)) fit g in
      let r' = subst is.Ready (sym s) (is.stays p.redactor input r) in
      let (es, ns) = batch_loop_lem (redact ops grants p input).0 inputs r' h in
      (
        batch_next p input inputs (text_for input) (map text_for inputs) e es,
        ap (λ (q : Plumbr R). q.stats.lines_processed)
              (batch_state p input inputs (text_for input) e)
            ∙ omega (arith, n, ns),
      )

  -- A batch of inputs that all fit is returned whole, each output that of its input alone whatever the
  -- others are, and counted, if the outputs are granted and there are fewer than 2 ^ 31.
  redact_batch_lem :
      (p : Plumbr R) (inputs : List Bytes)
      → is.Ready p.redactor
      → length inputs < 2 ^ 31
      → All Accepted inputs
      → ((redact_batch ops grants p inputs).1 ≡ some (map text_for inputs))
        × ((redact_batch ops grants p inputs).0.stats.lines_processed
            ≡ p.stats.lines_processed + length inputs)
  unfolding redact_batch
  redact_batch_lem p inputs r n h =
      let k : ltb (2 ^ 31 - 1) (length inputs) ≡ false = ground arith in
      rw k (batch_loop_lem p inputs r h)

-- ===== src/Server/Batch/Laws.antt =====
-- What a client of `POST /api/redact/batch` of src/server.c gets back.
use plumbr_c.Prelude.{
  if◌then◌else◌, length-append, sym, subst, refl, ◌∙◌, ap, inr, inl, arith, Bool, ℕ, zero, suc, ◌+◌,
  ◌*◌, ◌^◌, ◌≤◌, ◌<◌, ◌≡◌, true, Bytes, length, ◌++◌, ◌∷◌, [], some, All, List, codes, take, drop,
  add_size,
}
use plumbr_c.Redactor.Client.{Ops}
use plumbr_c.Libplumbr.{Plumbr}
use plumbr_c.Lines.{copy_lines, copied}
use plumbr_c.Lines.Copy.{copy_lines-Ends}
use plumbr_c.Server.Json.{starts_with}
use plumbr_c.Server.Json.Text.{escape, json_escape_lem}
use plumbr_c.Server.Json.RoundTrip.{IsPlain, string_end-escape, json_unescape-escape}
use plumbr_c.Server.Redact.{Handler, handler_work, max_body_size}
use plumbr_c.Server.Redact.Laws.{
  redacted, make_room-IsRoomy, never_fails, length-escape_ge, take-append,
}
use plumbr_c.Server.Batch.{
  error, find_texts, array_start, json_escape, Batch, go, ok, finish_item, redact_item, do_item,
  do_items, close_batch, handle_redact_batch, first_batch, add_item, stats_text,
}
use plumbr_c.Server.Batch.Room.{with_item, add_item-some, close_batch-some, with_item-grows}

drop-append : (xs : Bytes) (q : ℕ) (rest : Bytes) → drop (length xs + 1) (xs ++ q ∷ rest) ≡ rest
drop-append [] q rest = refl
drop-append (x ∷ xs) q rest =
    let e : suc (length xs) + 1 ≡ suc (length xs + 1) = omega arith in rw e (drop-append xs q rest)

-- The texts as the elements of an array, escaped and quoted, from its second element on.
unfoldable pub array_rest : List Bytes → Bytes → Bytes
array_rest [] rest = b']' ∷ rest
array_rest (t ∷ ts) rest = b',' ∷ b'"' ∷ (escape t ++ b'"' ∷ array_rest ts rest)

unfoldable pub array_text : List Bytes → Bytes → Bytes
unfolding array_rest
array_text [] rest = b']' ∷ rest
array_text (t ∷ ts) rest = b'"' ∷ (escape t ++ b'"' ∷ array_rest ts rest)

-- Texts that are sent whole.
abbrev pub Sendable : Bytes → Type 0
Sendable t = All IsPlain t × (length t ≤ max_body_size)

module _ {R : Type 0} (ops : Ops R) (grants : ℕ → Bool) where
  -- The texts redacted one after another, each described behind the response.
  unfoldable pub describe : Batch R → List Bytes → Batch R
  unfolding with_item
  describe b [] = b
  describe b (t ∷ ts) =
      let (h, out) = redacted ops grants b.plumbr t in describe (with_item b h out b.capacity) ts

  describe-capacity :
      (ts : List Bytes) (b : Batch R) (size : ℕ)
      → describe (record b { capacity = size }) ts ≡ record (describe b ts) { capacity = size }
  unfolding describe with_item
  describe-capacity [] b size = refl
  describe-capacity (t ∷ ts) b size =
      let (h, out) = redacted ops grants b.plumbr t in
      describe-capacity ts (with_item b h out b.capacity) size

  describe-grows : (ts : List Bytes) (b : Batch R) → length b.resp ≤ length (describe b ts).resp
  unfolding describe
  describe-grows [] b = omega arith
  describe-grows (t ∷ ts) b =
      let (h, out) = redacted ops grants b.plumbr t in
      omega (
        arith,
        with_item-grows b h out b.capacity,
        describe-grows ts (with_item b h out b.capacity),
      )

  module _ (granted : (n : ℕ) → grants n ≡ true) where
    redact_item-some :
        (b : Batch R) (t : Bytes)
        → length t ≤ max_body_size
        → length (redacted ops grants b.plumbr t).1 < 2 ^ 61
        → redact_item ops grants b t
          ≡ add_item ops grants b
              (redacted ops grants b.plumbr t).0
              (redacted ops grants b.plumbr t).1
              (escape (redacted ops grants b.plumbr t).1)
    redact_item-some b t short small =
        let size = add_size (length t * 2) 128 in
        let h : Handler R = record { plumbr = b.plumbr; lines_processed = 0; lines_modified = 0 } in
        let (h', out) = redacted ops grants b.plumbr t in
        elim (copy_lines-Ends (handler_work ops grants) (make_room-IsRoomy ops grants) (length t) h
          [] size t (omega arith) (omega (arith, short)) (omega (arith, small))) [
            | inl e ↦
                item_copied b t h' out e
                  (json_escape_lem grants out (omega (arith, small))
                    (granted (length out * 6 + 1))).0
            | inr (h2, e, f) ↦ absurd (never_fails ops grants granted f)
          ]
      where
        item_copied :
            (b : Batch R) (t : Bytes) (h' : Handler R) (out : Bytes)
            → copy_lines
                (handler_work ops grants)
                (length t)
                (record { plumbr = b.plumbr; lines_processed = 0; lines_modified = 0 })
                []
                (add_size (length t * 2) 128)
                t
              ≡ copied h' out
            → json_escape grants out ≡ some (escape out)
            → redact_item ops grants b t ≡ add_item ops grants b h' out (escape out)
        item_copied b t h' out e f =
            unfold redact_item in
            unfold finish_item in ground (arith, e, f, granted (add_size (length t * 2) 128))

    do_item-escape :
        (b : Batch R) (t : Bytes)
        → All IsPlain t
        → do_item ops grants b (escape t) ≡ redact_item ops grants b t
    unfolding do_item
    do_item-escape b t plain =
        let (gap, e) = json_unescape-escape t (0 ∷ []) plain in
        rw (granted (length (escape t) + 1)) (
          ap (λ (r : Bytes × ℕ). redact_item ops grants b (take r.1 r.0)) e
          ∙ ap (redact_item ops grants b) (take-append ops grants t (gap ++ 0 ∷ [])))

    -- One element, with room for it.
    do_item-some :
        (b : Batch R) (t : Bytes)
        → Sendable t
        → 0 < b.capacity
        → length
            (with_item b
              (redacted ops grants b.plumbr t).0
              (redacted ops grants b.plumbr t).1
              b.capacity).resp
          < 2 ^ 60
        → (size : ℕ) × (0 < size)
          × (do_item ops grants b (escape t)
              ≡ go (
                  with_item b
                    (redacted ops grants b.plumbr t).0
                    (redacted ops grants b.plumbr t).1
                    size))
    do_item-some b t (plain, short) pos small =
        let (h, out) = redacted ops grants b.plumbr t in
        let grown = with_item-grows b h out b.capacity in
        let (size, size_pos, e) =
          add_item-some ops grants granted b h out pos (omega (arith, grown, small)) in
        (
          size,
          size_pos,
          do_item-escape b t plain
              ∙ redact_item-some b t short
                  (omega (arith, grown, small, length-escape_ge ops grants out))
              ∙ e,
        )

    quoted :
        (fuel : ℕ) (b b' : Batch R) (t rest : Bytes)
        → do_item ops grants b (escape t) ≡ go b'
        → do_items ops grants (suc fuel) b (b'"' ∷ (escape t ++ b'"' ∷ rest))
          ≡ do_items ops grants fuel b' rest
    unfolding do_items
    quoted fuel b b' t rest e =
        let s = string_end-escape t rest 0 in
        let n : 0 + length (escape t) ≡ length (escape t) = omega arith in
        let k = take-append ops grants (escape t) (b'"' ∷ rest) in
        let d = drop-append (escape t) b'"' rest in ground (arith, s, n, k, d, e)

    -- The elements behind the first one, up to the bracket.
    items_rest :
        (ts : List Bytes) (rest : Bytes) (fuel : ℕ) (b : Batch R)
        → All Sendable ts
        → length (array_rest ts rest) ≤ fuel
        → 0 < b.capacity
        → length (describe b ts).resp < 2 ^ 60
        → (size : ℕ) × (0 < size)
          × (do_items ops grants fuel b (array_rest ts rest)
              ≡ go (record (describe b ts) { capacity = size }))
    unfolding array_rest describe
    items_rest [] rest zero b plain enough pos small = absurd (omega arith)
    items_rest [] rest (suc fuel) b plain enough pos small =
        (b.capacity, pos, unfold do_items in refl)
    items_rest (t ∷ ts) rest zero b plain enough pos small = absurd (omega arith)
    items_rest (t ∷ ts) rest (suc zero) b plain enough pos small = absurd (omega arith)
    items_rest (t ∷ ts) rest (suc (suc fuel)) b (send, plain) enough pos small =
        let (h, out) = redacted ops grants b.plumbr t in
        let b1 = with_item b h out b.capacity in
        let (size, size_pos, e) =
          do_item-some b t send pos (omega (arith, small, describe-grows ts b1)) in
        let b2 = with_item b h out size in
        let same = describe-capacity ts b1 size in
        let (size2, pos2, f) =
          items_rest ts rest fuel b2 plain
            (omega (arith, enough, length-append (escape t) (b'"' ∷ array_rest ts rest))) size_pos
            (same_length b h out size ts small) in
        (
          size2,
          pos2,
          step (suc fuel) b (b'"' ∷ (escape t ++ b'"' ∷ array_rest ts rest))
              ∙ quoted fuel b b2 t (array_rest ts rest) e
              ∙ f
              ∙ ap (λ (d : Batch R). go (record d { capacity = size2 }))
                  (described b h out size ts),
        )
      where
        step :
            (fuel : ℕ) (b : Batch R) (cs : Bytes)
            → do_items ops grants (suc fuel) b (b',' ∷ cs) ≡ do_items ops grants fuel b cs
        step fuel b cs = unfold do_items in refl

        described :
            (b : Batch R) (h : Handler R) (out : Bytes) (size : ℕ) (ts : List Bytes)
            → describe (with_item b h out size) ts
              ≡ record (describe (with_item b h out b.capacity) ts) { capacity = size }
        described b h out size ts =
            unfold with_item in describe-capacity ts (with_item b h out b.capacity) size

        same_length :
            (b : Batch R) (h : Handler R) (out : Bytes) (size : ℕ) (ts : List Bytes)
            → length (describe (with_item b h out b.capacity) ts).resp < 2 ^ 60
            → length (describe (with_item b h out size) ts).resp < 2 ^ 60
        same_length b h out size ts k =
            subst (λ (d : Batch R). length d.resp < 2 ^ 60) (sym (described b h out size ts)) k

    items_array :
        (ts : List Bytes) (rest : Bytes) (b : Batch R)
        → All Sendable ts
        → 0 < b.capacity
        → length (describe b ts).resp < 2 ^ 60
        → (size : ℕ) × (0 < size)
          × (do_items ops grants (length (array_text ts rest)) b (array_text ts rest)
              ≡ go (record (describe b ts) { capacity = size }))
    items_array [] rest b plain pos small =
        unfold array_text in
        items_rest [] rest (suc (length rest)) b plain (unfold array_rest in omega arith) pos small
    items_array (t ∷ ts) rest b plain pos small =
        let (size, size_pos, e) =
          items_rest (t ∷ ts) rest (suc (length (array_text (t ∷ ts) rest))) b plain
            (unfold array_rest in unfold array_text in omega arith) pos small in
        (size, size_pos, first (length (array_text (t ∷ ts) rest)) ∙ e)
      where
        first :
            (fuel : ℕ)
            → do_items ops grants fuel b (array_text (t ∷ ts) rest)
              ≡ do_items ops grants (suc fuel) b (array_rest (t ∷ ts) rest)
        first fuel = unfold do_items in unfold array_text in unfold array_rest in refl

    found :
        (p : Plumbr R) (cs elapsed : Bytes)
        → handle_redact_batch ops grants p (codes "{\"texts\": [" ++ cs) elapsed
          ≡ close_batch ops grants elapsed (
              do_items ops grants
                (length cs)
                (first_batch p (add_size (length (codes "{\"texts\": [" ++ cs) * 2) 1024))
                cs)
    unfolding handle_redact_batch find_texts array_start starts_with
    found p cs elapsed =
        ap
          (λ (g : Bool).
            if g
            then close_batch ops grants elapsed (
                do_items ops grants (length cs)
                  (first_batch p (add_size (length (codes "{\"texts\": [" ++ cs) * 2) 1024)) cs)
            else some (p, error 500))
          (granted (add_size (length (codes "{\"texts\": [" ++ cs) * 2) 1024))

    -- The reply to a body that starts with an array of texts, escaped, each of at most a megabyte and
    -- without control bytes but the five that have an escape of their own: the texts are redacted one
    -- after another, each by the state that the ones before it have left, and the document holds one
    -- element for each in their order, with its numbers, and the totals behind them, if all
    -- allocations are granted, the time is printed in at most 32 bytes, and body and document are
    -- shorter than 2 ^ 60 bytes.
    pub handle_redact_batch-escape :
        (p : Plumbr R) (ts : List Bytes) (rest elapsed : Bytes)
        → All Sendable ts
        → length elapsed ≤ 32
        → length (array_text ts rest) < 2 ^ 60
        → length (describe (first_batch p 1) ts).resp < 2 ^ 60
        → handle_redact_batch ops grants p (codes "{\"texts\": [" ++ array_text ts rest) elapsed
          ≡ some (
            (describe (first_batch p 1) ts).plumbr,
            ok (
                (describe (first_batch p 1) ts).resp
                ++ stats_text
                    (describe (first_batch p 1) ts).total_items
                    (describe (first_batch p 1) ts).total_lines
                    (describe (first_batch p 1) ts).total_modified
                    (describe (first_batch p 1) ts).total_patterns
                    elapsed),
          )
    handle_redact_batch-escape p ts rest elapsed plain short fits small =
        let cs = array_text ts rest in
        let size = add_size (length (codes "{\"texts\": [" ++ cs) * 2) 1024 in
        let same = describe-capacity ts (first_batch p 1) size in
        let (size2, pos, e) =
          items_array ts rest (first_batch p size) plain (omega (arith, fits)) (rw same small) in
        found p cs elapsed
        ∙ ap (close_batch ops grants elapsed) e
        ∙ close_batch-some ops grants granted
            (record (describe (first_batch p size) ts) { capacity = size2 }) elapsed pos
            (rw same (omega (arith, small))) short
        ∙ rw same refl

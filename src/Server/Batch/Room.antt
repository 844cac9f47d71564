-- ===== src/Server/Batch/Room.antt =====
-- The response buffer of the batch handler always has room for what is written next.
use plumbr_c.Prelude.{
  ◌∷◌, [], codes, length-append, refl, length-append, inr, ltb, inl, Bool-cases, Bool, arith, ℕ,
  zero, suc, ◌+◌, ◌*◌, ◌/◌, ◌%◌, ◌^◌, ◌≤◌, ◌<◌, ◌≡◌, true, Bytes, length, ◌++◌, size_mod, add_size,
  leb, some,
}
use plumbr_c.Redactor.Client.{Ops}
use plumbr_c.Server.Redact.{Handler, count_patterns}
use plumbr_c.Server.Json.Text.{escape}
use plumbr_c.Server.Batch.{
  ok, close_batch, Batch, grow_resp, append_resp, print_digits, print_int, item_text, stats_text,
  comma_before, add_item, go,
}

length-print_digits : (n x : ℕ) → length (print_digits n x) ≤ n
unfolding print_digits
length-print_digits zero x = omega arith
length-print_digits (suc n) x = elim (Bool-cases (ltb x 10)) [
  | inl e ↦ rw e (omega arith)
  | inr e ↦ rw e (
      omega (
        arith,
        length-print_digits n (x / 10),
        length-append (print_digits n (x / 10)) ((b'0' + x % 10) ∷ []),
      ))
]

length-print_int : (x : ℕ) → length (print_int x) ≤ 10
unfolding print_int
length-print_int x = length-print_digits 10 x

length-comma : (n : ℕ) → length (comma_before n) ≤ 1
length-comma zero = omega arith
length-comma (suc n) = omega arith

-- The parts around the escaped text and the numbers leave room in the 256 bytes.
length-item_text :
    (escaped : Bytes) (l m p : ℕ)
    → (length (item_text escaped l m p) ≤ length escaped + 110)
      × (length escaped ≤ length (item_text escaped l m p))
unfolding item_text
length-item_text escaped l m p =
    let x3 = print_int p ++ codes "}" in
    let x2 = print_int m ++ (codes ",\"patterns_matched\":" ++ x3) in
    let x1 = print_int l ++ (codes ",\"lines_modified\":" ++ x2) in
    omega (
      arith,
      length-append escaped (codes "\",\"lines_processed\":" ++ x1),
      length-append (print_int l) (codes ",\"lines_modified\":" ++ x2),
      length-append (print_int m) (codes ",\"patterns_matched\":" ++ x3),
      length-append (print_int p) (codes "}"),
      length-print_int l,
      length-print_int m,
      length-print_int p,
    )

length-stats_text :
    (i l m p : ℕ) (elapsed : Bytes) → length (stats_text i l m p elapsed) ≤ length elapsed + 200
unfolding stats_text
length-stats_text i l m p elapsed =
    let x4 = elapsed ++ codes "}}" in
    let x3 = print_int p ++ (codes ",\"processing_time_ms\":" ++ x4) in
    let x2 = print_int m ++ (codes ",\"total_patterns_matched\":" ++ x3) in
    let x1 = print_int l ++ (codes ",\"total_modified\":" ++ x2) in
    omega (
      arith,
      length-append (print_int i) (codes ",\"total_lines\":" ++ x1),
      length-append (print_int l) (codes ",\"total_modified\":" ++ x2),
      length-append (print_int m) (codes ",\"total_patterns_matched\":" ++ x3),
      length-append (print_int p) (codes ",\"processing_time_ms\":" ++ x4),
      length-append elapsed (codes "}}"),
      length-print_int i,
      length-print_int l,
      length-print_int m,
      length-print_int p,
    )

module _ {R : Type 0} where
  -- The response with one more element, in a buffer of `size` bytes.
  unfoldable pub with_item : Batch R → Handler R → Bytes → ℕ → Batch R
  with_item b h out size = record {
    plumbr = h.plumbr;
    resp =
        b.resp
        ++ (comma_before b.total_items
            ++ item_text (escape out) h.lines_processed h.lines_modified (count_patterns out));
    capacity = size;
    total_items = b.total_items + 1;
    total_lines = b.total_lines + h.lines_processed;
    total_modified = b.total_modified + h.lines_modified;
    total_patterns = b.total_patterns + count_patterns out;
  }

  -- An element makes the response longer, by its text at least.
  pub with_item-grows :
      (b : Batch R) (h : Handler R) (out : Bytes) (size : ℕ)
      → length b.resp + length (escape out) ≤ length (with_item b h out size).resp
  unfolding with_item
  with_item-grows b h out size =
      let item = item_text (escape out) h.lines_processed h.lines_modified (count_patterns out) in
      omega (
        arith,
        length-append b.resp (comma_before b.total_items ++ item),
        length-append (comma_before b.total_items) item,
        length-item_text (escape out) h.lines_processed h.lines_modified (count_patterns out),
      )

module _ {R : Type 0} (ops : Ops R) (grants : ℕ → Bool) (granted : (n : ℕ) → grants n ≡ true) where
  -- Where everything is granted, the doublings reach what is needed.
  grow_resp-some :
      (fuel size need : ℕ)
      → need < 2 ^ 63
      → need ≤ size * 2 ^ fuel
      → (size2 : ℕ) × (grow_resp ops grants fuel size need ≡ some size2) × (need ≤ size2)
  unfolding grow_resp
  grow_resp-some zero size need small h =
      let k : leb need size ≡ true = ground arith in (size, rw k refl, ground arith)
  grow_resp-some (suc fuel) size need small h = elim (Bool-cases (leb need size)) [
    | inl e ↦ (size, rw e refl, ground arith)
    | inr e ↦
        let lt : size < need = ground arith in
        let whole : size * 2 % size_mod ≡ size * 2 = omega arith in
        let (size2, f, le) =
          grow_resp-some fuel (size * 2 % size_mod) need small
            (rw whole (doubled size need fuel h)) in
        (size2, rw (e, granted (size * 2 % size_mod)) f, le)
  ]
    where
      doubled : (size need fuel : ℕ) → need ≤ size * 2 ^ suc fuel → need ≤ size * 2 * 2 ^ fuel
      doubled size need fuel h = grind arith

  append_resp-some :
      (b : Batch R) (size : ℕ) (text : Bytes)
      → length b.resp + length text < size
      → append_resp ops grants b size text
        ≡ some (record b { resp = b.resp ++ text; capacity = size })
  unfolding append_resp
  append_resp-some b size text h = ground (arith, length-append b.resp text)

  add_item_step :
      (b : Batch R) (h : Handler R) (out : Bytes) (size : ℕ)
      → grow_resp ops grants 64 b.capacity
          (add_size (length b.resp) (add_size (length (escape out)) 256))
        ≡ some size
      → append_resp ops grants b size (
          comma_before b.total_items
          ++ item_text (escape out) h.lines_processed h.lines_modified (count_patterns out))
        ≡ some (record b {
          resp =
              b.resp
              ++ (comma_before b.total_items
                  ++ item_text
                      (escape out)
                      h.lines_processed
                      h.lines_modified
                      (count_patterns out));
          capacity = size;
        })
      → add_item ops grants b h out (escape out) ≡ go (with_item b h out size)
  unfolding add_item with_item
  add_item_step b h out size e f = ground (arith, e, f)

  pub add_item-some :
      (b : Batch R) (h : Handler R) (out : Bytes)
      → 0 < b.capacity
      → length b.resp + length (escape out) < 2 ^ 61
      → (size : ℕ) × (0 < size)
        × (add_item ops grants b h out (escape out) ≡ go (with_item b h out size))
  add_item-some b h out pos small =
      let need = add_size (length b.resp) (add_size (length (escape out)) 256) in
      let text =
        comma_before b.total_items
        ++ item_text (escape out) h.lines_processed h.lines_modified (count_patterns out) in
      let exact : need ≡ length b.resp + (length (escape out) + 256) = omega (arith, small) in
      let (size, e, le) =
        grow_resp-some 64 b.capacity need (omega (arith, small)) (omega (arith, small, pos)) in
      let long : length b.resp + length text < size = omega (
        arith,
        exact,
        le,
        length-append (comma_before b.total_items)
            (item_text (escape out) h.lines_processed h.lines_modified (count_patterns out)),
        length-comma b.total_items,
        length-item_text (escape out) h.lines_processed h.lines_modified (count_patterns out),
      ) in
      (size, omega (arith, long), add_item_step b h out size e (append_resp-some b size text long))

  close_batch_step :
      (b : Batch R) (elapsed text : Bytes) (size : ℕ)
      → text ≡ stats_text b.total_items b.total_lines b.total_modified b.total_patterns elapsed
      → grow_resp ops grants 64 b.capacity (add_size (length b.resp) 256) ≡ some size
      → append_resp ops grants b size text
        ≡ some (record b { resp = b.resp ++ text; capacity = size })
      → close_batch ops grants elapsed (go b) ≡ some (b.plumbr, ok (b.resp ++ text))
  unfolding close_batch
  close_batch_step b elapsed text size t e f = ground (arith, t, e, f)

  pub close_batch-some :
      (b : Batch R) (elapsed : Bytes)
      → 0 < b.capacity
      → length b.resp < 2 ^ 61
      → length elapsed ≤ 32
      → close_batch ops grants elapsed (go b)
        ≡ some (
          b.plumbr,
          ok (
              b.resp
              ++ stats_text b.total_items b.total_lines b.total_modified b.total_patterns elapsed),
        )
  close_batch-some b elapsed pos small short =
      let need = add_size (length b.resp) 256 in
      let text = stats_text b.total_items b.total_lines b.total_modified b.total_patterns elapsed in
      let exact : need ≡ length b.resp + 256 = omega (arith, small) in
      let (size, e, le) =
        grow_resp-some 64 b.capacity need (omega (arith, small)) (omega (arith, small, pos)) in
      let long : length b.resp + length text < size = omega (
        arith,
        exact,
        le,
        short,
        length-stats_text b.total_items b.total_lines b.total_modified b.total_patterns elapsed,
      ) in
      close_batch_step b elapsed text size refl e (append_resp-some b size text long)

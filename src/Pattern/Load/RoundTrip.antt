-- ===== src/Pattern/Load/RoundTrip.antt =====
-- src/patterns.c: a pattern file that was printed from entries is loaded entry by entry.
use plumbr_c.Prelude.{
  ℕ, zero, suc, ◌≡◌, ◌≢◌, ◌<◌, ◌≤◌, Bool, true, false, Bytes, List, [], ◌∷◌, ◌++◌, Option, some,
  arith, refl, All, All-append, length, length-append, ◌∙◌, ap,
}
use plumbr_c.Pattern.{PatternSet, add}
use plumbr_c.Pattern.Load.{
  ltb, path_accepted, FileSystem, load_file, entry, fgets, c_string, is_space, skip_spaces,
  strip_newline, parse_line, parse_fields, load_line, load_lines,
}
use plumbr_c.Pattern.Load.Fields.{IsField, IsFieldByte, parse_fields-four}

-- The four fields of a line.
pub record Entry : Type 0 where
  pub name : Bytes
  pub literal : Bytes
  pub regex : Bytes
  pub replacement : Bytes

abbrev pub entry_text : Entry → Bytes
entry_text e = e.name ++ b'|' ∷ (e.literal ++ b'|' ∷ (e.regex ++ b'|' ∷ e.replacement))

unfoldable pub print : List Entry → Bytes
print [] = []
print (e ∷ es) = entry_text e ++ b'\n' ∷ print es

-- A name starts with a byte that neither is a space nor opens a comment.
unfoldable pub StartsName : Bytes → Type 0
unfolding is_space
StartsName [] = ⊥
StartsName (c ∷ cs) = (is_space c ≡ false) × (c ≢ b'#')

-- An entry that fits in a line.
pub record IsEntry (e : Entry) : Type 0 where
  pub name_ok : IsField e.name
  pub name_start : StartsName e.name
  pub literal_ok : IsField e.literal
  pub regex_ok : IsField e.regex
  pub replacement_ok : IsField e.replacement
  pub fits : length (entry_text e) < 4095

-- The bytes of a line: none ends it.
abbrev IsLineByte : ℕ → Type 0
IsLineByte c = (c ≢ b'\n') × (c ≢ 0)

fgets_line :
    (n : ℕ) (line rest : Bytes)
    → All IsLineByte line
    → length line < n
    → fgets n (line ++ b'\n' ∷ rest) ≡ (line ++ b'\n' ∷ [], rest)
unfolding fgets
fgets_line zero line rest h l = elim l [ ]
fgets_line (suc n) [] rest h l = refl
fgets_line (suc n) (c ∷ cs) rest (hc, h) l = ground (arith, fgets_line n cs rest h (omega arith))

c_string_line :
    (line : Bytes) → All IsLineByte line → c_string (line ++ b'\n' ∷ []) ≡ line ++ b'\n' ∷ []
unfolding c_string
c_string_line [] h = refl
c_string_line (c ∷ cs) (hc, h) = ground (arith, c_string_line cs h)

strip_newline_line : (line : Bytes) → strip_newline (line ++ b'\n' ∷ []) ≡ line
unfolding strip_newline
strip_newline_line [] = refl
strip_newline_line (c ∷ []) = refl
strip_newline_line (c ∷ d ∷ cs) = ap (◌∷◌ c) (strip_newline_line (d ∷ cs))

field_bytes : (s : Bytes) → All IsFieldByte s → All IsLineByte s
field_bytes [] h = tt
field_bytes (c ∷ s) ((hb, hn, hz), h) = ((hn, hz), field_bytes s h)

bar-IsLineByte : IsLineByte b'|'
bar-IsLineByte = (λ e. absurd (omega (arith, e)), λ e. absurd (omega (arith, e)))

entry_bytes : (e : Entry) → IsEntry e → All IsLineByte (entry_text e)
entry_bytes e v = All-append IsLineByte e.name _ (field_bytes e.name v.name_ok.bytes) (
  bar-IsLineByte,
  All-append IsLineByte e.literal _ (field_bytes e.literal v.literal_ok.bytes) (
    bar-IsLineByte,
    All-append IsLineByte e.regex _ (field_bytes e.regex v.regex_ok.bytes)
        (bar-IsLineByte, field_bytes e.replacement v.replacement_ok.bytes),
  ),
)

skip_spaces_name : (name rest : Bytes) → StartsName name → skip_spaces (name ++ rest) ≡ name ++ rest
unfolding skip_spaces StartsName
skip_spaces_name [] rest h = elim h [ ]
skip_spaces_name (c ∷ cs) rest (hs, hc) = rw hs refl

-- What the loop makes of a line that starts as a name does.
parse_line_start :
    (name rest : Bytes)
    → StartsName name
    → All IsLineByte (name ++ rest)
    → parse_line ((name ++ rest) ++ b'\n' ∷ []) ≡ parse_fields (name ++ rest)
unfolding parse_line skip_spaces StartsName
parse_line_start [] rest h b = elim h [ ]
parse_line_start (c ∷ cs) rest (hs, hc) (hb, h) =
    ground (arith, hs, c_string_line (c ∷ cs ++ rest) (hb, h), strip_newline_line (c ∷ cs ++ rest))

parse_line-entry :
    (e : Entry)
    → IsEntry e
    → parse_line (entry_text e ++ b'\n' ∷ [])
      ≡ entry (skip_spaces e.name) (some e.literal) e.regex (some e.replacement)
parse_line-entry e v =
    parse_line_start e.name _ v.name_start (entry_bytes e v)
    ∙ parse_fields-four v.name_ok v.regex_ok v.replacement_ok v.literal_ok

skip_spaces_start : (name : Bytes) → StartsName name → skip_spaces name ≡ name
unfolding skip_spaces StartsName
skip_spaces_start [] h = elim h [ ]
skip_spaces_start (c ∷ cs) (hs, hc) = rw hs refl

module _ {Code : Type 0} (compile : Bytes → Option Code) where
  -- `patterns_add` of each entry, in order.
  unfoldable pub add_all : PatternSet Code → List Entry → PatternSet Code
  unfolding add
  add_all ps [] = ps
  add_all ps (e ∷ es) =
      add_all (add compile ps e.name (some e.literal) e.regex (some e.replacement)).0 es

  load_lines_step :
      (fuel : ℕ) (ps : PatternSet Code) (line rest : Bytes)
      → All IsLineByte line
      → length line < 4095
      → load_lines compile (suc fuel) ps (line ++ b'\n' ∷ rest)
        ≡ load_lines compile fuel (load_line compile ps (parse_line (line ++ b'\n' ∷ []))) rest
  unfolding load_lines
  load_lines_step fuel ps [] rest h l = refl
  load_lines_step fuel ps (c ∷ cs) rest h l =
      ap
        (λ (p : Bytes × Bytes). load_lines compile fuel (load_line compile ps (parse_line p.0)) p.1)
        (fgets_line 4095 (c ∷ cs) rest h l)

  load_line-entry :
      (ps : PatternSet Code) (e : Entry)
      → IsEntry e
      → load_line compile ps (parse_line (entry_text e ++ b'\n' ∷ []))
        ≡ (add compile ps e.name (some e.literal) e.regex (some e.replacement)).0
  unfolding load_line
  load_line-entry ps e v =
      ap (load_line compile ps) (parse_line-entry e v)
      ∙ ap (λ (n : Bytes). (add compile ps n (some e.literal) e.regex (some e.replacement)).0)
          (skip_spaces_start e.name v.name_start)

  load_lines-print :
      (es : List Entry) (fuel : ℕ) (ps : PatternSet Code)
      → All IsEntry es
      → length (print es) ≤ fuel
      → load_lines compile fuel ps (print es) ≡ add_all ps es
  unfolding print add_all load_lines load_line
  load_lines-print [] fuel ps h l = refl
  load_lines-print (e ∷ es) zero ps (he, h) l =
      absurd (omega (arith, length-append (entry_text e) (b'\n' ∷ print es)))
  load_lines-print (e ∷ es) (suc fuel) ps (he, h) l =
      load_lines_step fuel ps (entry_text e) (print es) (entry_bytes e he) he.fits
      ∙ ap (λ (p : PatternSet Code). load_lines compile fuel p (print es)) (load_line-entry ps e he)
      ∙ load_lines-print es fuel
          (add compile ps e.name (some e.literal) e.regex (some e.replacement)).0 h
          (omega (arith, l, length-append (entry_text e) (b'\n' ∷ print es)))

  -- A file printed from entries, each of which fits in a line, has four fields that are not empty and
  -- no delimiter in them, and has a name that starts as no comment does: where its path is accepted
  -- and it can be opened, `patterns_load_file` does `patterns_add` of each entry, in order.
  pub load_file-print :
      (files : FileSystem) (allowed : Bool) (ps : PatternSet Code) (path : Bytes) (es : List Entry)
      → All IsEntry es
      → path_accepted allowed path ≡ true
      → files path ≡ some (print es)
      → load_file compile files allowed ps path ≡ (add_all ps es, ltb 0 (add_all ps es).count)
  unfolding load_file
  load_file-print files allowed ps path es h a f =
      rw (a, f)
        (ap (λ (p : PatternSet Code). (p, ltb 0 p.count))
          (load_lines-print es (length (print es)) ps h (omega arith)))

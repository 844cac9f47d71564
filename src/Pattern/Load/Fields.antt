-- ===== src/Pattern/Load/Fields.antt =====
-- src/patterns.c: the fields that `strtok_r` finds in a line of a pattern file.
use plumbr_c.Prelude.{ℕ, ◌≡◌, ◌≢◌, Bytes, [], ◌∷◌, ◌++◌, Option, none, some, arith, refl, All, ◌∙◌}
use plumbr_c.Pattern.Load.{entry, skip_bars, until_bar, strtok, parse_fields, line_of, skip_spaces}

-- A byte that neither ends a field, a line or a C string.
abbrev pub IsFieldByte : ℕ → Type 0
IsFieldByte c = (c ≢ b'|') × (c ≢ b'\n') × (c ≢ 0)

-- A field as the four calls find it.
pub record IsField (s : Bytes) : Type 0 where
  pub nonempty : s ≢ []
  pub bytes : All IsFieldByte s

until_bar-field : (s rest : Bytes) → All IsFieldByte s → until_bar (s ++ b'|' ∷ rest) ≡ (s, rest)
unfolding until_bar
until_bar-field [] rest h = refl
until_bar-field (c ∷ s) rest (hc, h) = ground (arith, until_bar-field s rest h)

until_bar-last : (s : Bytes) → All IsFieldByte s → until_bar s ≡ (s, [])
unfolding until_bar
until_bar-last [] h = refl
until_bar-last (c ∷ s) (hc, h) = ground (arith, until_bar-last s h)

pub strtok-field : (s rest : Bytes) → IsField s → strtok (s ++ b'|' ∷ rest) ≡ (some s, rest)
unfolding strtok skip_bars
strtok-field [] rest v = absurd (v.nonempty refl)
strtok-field (c ∷ s) rest v = ground (arith, v.bytes, until_bar-field (c ∷ s) rest v.bytes)

pub strtok-last : (s : Bytes) → IsField s → strtok s ≡ (some s, [])
unfolding strtok skip_bars
strtok-last [] v = absurd (v.nonempty refl)
strtok-last (c ∷ s) v = ground (arith, v.bytes, until_bar-last (c ∷ s) v.bytes)

-- An empty field is passed over.
pub strtok-bar : (s : Bytes) → strtok (b'|' ∷ s) ≡ strtok s
unfolding strtok skip_bars
strtok-bar s = refl

strtok-nil : strtok [] ≡ (none, [])
unfolding strtok skip_bars
strtok-nil = refl

parse_fields-strtok :
    (text : Bytes) {s1 s2 s3 s4 : Bytes} {name literal regex replacement : Option Bytes}
    → strtok text ≡ (name, s1)
    → strtok s1 ≡ (literal, s2)
    → strtok s2 ≡ (regex, s3)
    → strtok s3 ≡ (replacement, s4)
    → parse_fields text ≡ line_of name literal regex replacement
unfolding parse_fields
parse_fields-strtok text e1 e2 e3 e4 = ground (arith, e1, e2, e3, e4)

module _ {name regex replacement : Bytes} (vn : IsField name) (vr : IsField regex)
    (vp : IsField replacement) where
  -- A line with four nonempty fields.
  pub parse_fields-four :
      {literal : Bytes}
      → IsField literal
      → parse_fields (name ++ b'|' ∷ (literal ++ b'|' ∷ (regex ++ b'|' ∷ replacement)))
        ≡ entry (skip_spaces name) (some literal) regex (some replacement)
  parse_fields-four {literal} vl =
      parse_fields-strtok _ (strtok-field name (literal ++ b'|' ∷ (regex ++ b'|' ∷ replacement)) vn)
        (strtok-field literal (regex ++ b'|' ∷ replacement) vl) (strtok-field regex replacement vr)
        (strtok-last replacement vp)

  -- Where the literal of a line is empty and its name, regular expression and replacement are not and
  -- hold no delimiter, the regular expression is taken for the literal and the replacement for the
  -- regular expression, and no replacement is left.
  pub parse_fields-no_literal :
      parse_fields (name ++ b'|' ∷ (b'|' ∷ (regex ++ b'|' ∷ replacement)))
      ≡ entry (skip_spaces name) (some regex) replacement none
  parse_fields-no_literal =
      parse_fields-strtok _ (strtok-field name (b'|' ∷ (regex ++ b'|' ∷ replacement)) vn)
        (strtok-bar (regex ++ b'|' ∷ replacement) ∙ strtok-field regex replacement vr)
        (strtok-last replacement vp) strtok-nil

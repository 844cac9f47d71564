-- ===== src/Pattern/Load.antt =====
-- src/patterns.c: pattern files and directories of them (`patterns_load_file`,
-- `patterns_load_directory`).
pub mod Fields
pub mod RoundTrip
pub mod Directory
use plumbr_c.Prelude.{
  bytes_eq, ℕ, zero, suc, ◌+◌, ◌-◌, ◌≡◌, Bool, true, false, ◌||◌, ◌&&◌, Bytes, List, [], ◌∷◌, ◌++◌,
  Option, none, some, ◌==◌, if◌then◌else◌, ltb, leb, length, take, drop, codes,
}
use plumbr_c.Pattern.{PatternSet, add}
use plumbr_c.Pattern.Path.{path_accepted}

-- `sizeof(line)`, and `sizeof(filepath)`
abbrev pub line_size : ℕ
line_size = 4096

-- `fgets` into a buffer of `n + 1` bytes: the bytes up to a newline, and what is left of the file.
unfoldable pub fgets : ℕ → Bytes → Bytes × Bytes
fgets n [] = ([], [])
fgets zero (c ∷ cs) = ([], c ∷ cs)
fgets (suc n) (c ∷ cs) =
    let (line, rest) = fgets n cs in if c == b'\n' then (c ∷ [], cs) else (c ∷ line, rest)

-- The C string at the start of a buffer.
unfoldable pub c_string : Bytes → Bytes
c_string [] = []
c_string (c ∷ cs) = if c == 0 then [] else c ∷ c_string cs

-- `isspace` of the C locale
unfoldable pub is_space : ℕ → Bool
is_space c = c == 32 || leb 9 c && leb c 13

-- while (*start && isspace(*start)) start++
unfoldable pub skip_spaces : Bytes → Bytes
unfolding is_space
skip_spaces [] = []
skip_spaces (c ∷ cs) = let rest = skip_spaces cs in if is_space c then rest else c ∷ cs

-- if (len > 0 && line[len - 1] == '\n') line[len - 1] = '\0'
unfoldable pub strip_newline : Bytes → Bytes
strip_newline [] = []
strip_newline (c ∷ []) = if c == b'\n' then [] else c ∷ []
strip_newline (c ∷ d ∷ cs) = c ∷ strip_newline (d ∷ cs)

-- The library's `strtok_r` with the delimiter '|': it skips delimiters, and the token goes up to the next.
unfoldable pub skip_bars : Bytes → Bytes
skip_bars [] = []
skip_bars (c ∷ cs) = let rest = skip_bars cs in if c == b'|' then rest else c ∷ cs

unfoldable pub until_bar : Bytes → Bytes × Bytes
until_bar [] = ([], [])
until_bar (c ∷ cs) =
    let (token, rest) = until_bar cs in if c == b'|' then ([], cs) else (c ∷ token, rest)

unfoldable pub strtok : Bytes → Option Bytes × Bytes
unfolding skip_bars until_bar
strtok s = elim (skip_bars s) [
  | [] ↦ (none, [])
  | c ∷ cs ↦ let (token, rest) = until_bar (c ∷ cs) in (some token, rest)
]

-- What a line of a pattern file is: skipped, of a wrong format, or the arguments of `patterns_add`.
pub data Line : Type 0 where
  skipped : Line
  invalid : Line
  entry : Bytes → Option Bytes → Bytes → Option Bytes → Line

-- `name`, `literal`, `regex` and `replacement` from the tokens, where a name and a regex are there.
abbrev pub line_of : Option Bytes → Option Bytes → Option Bytes → Option Bytes → Line
line_of none literal regex replacement = invalid
line_of (some name) literal none replacement = invalid
line_of (some name) literal (some regex) replacement =
    entry (skip_spaces name) literal regex replacement

-- The four calls of `strtok_r`.
unfoldable pub parse_fields : Bytes → Line
unfolding strtok
parse_fields text =
    let (name, s1) = strtok text in
    let (literal, s2) = strtok s1 in
    let (regex, s3) = strtok s2 in
    let (replacement, s4) = strtok s3 in line_of name literal regex replacement

-- The body of the loop of `patterns_load_file` up to `patterns_add`, on the bytes that `fgets` read.
unfoldable pub parse_line : Bytes → Line
unfolding skip_spaces c_string strip_newline parse_fields
parse_line bytes = elim (skip_spaces (c_string bytes)) [
  | [] ↦ skipped
  | c ∷ cs ↦ if c == b'#' || c == b'\n' then skipped else parse_fields (strip_newline (c ∷ cs))
]

-- What the code relies on in the file system: what a file holds, `none` where it cannot be opened.
abbrev pub FileSystem : Type 0
FileSystem = Bytes → Option Bytes

-- Hidden files are skipped, and those that do not end in ".txt".
unfoldable pub is_pattern_file : Bytes → Bool
is_pattern_file [] = false
is_pattern_file (c ∷ cs) =
    let n = length (c ∷ cs) in
    if c == b'.'
    then false
    else if ltb n 4
    then false
    else bytes_eq (drop (n - 4) (c ∷ cs)) (codes ".txt")

module _ {Code : Type 0} (compile : Bytes → Option Code) where
  -- A failure of `patterns_add` only prints a message.
  unfoldable pub load_line : PatternSet Code → Line → PatternSet Code
  unfolding add
  load_line ps skipped = ps
  load_line ps invalid = ps
  load_line ps (entry name literal regex replacement) =
      (add compile ps name literal regex replacement).0

  -- while (fgets(line, sizeof(line), f)): a round takes a byte at least.
  unfoldable pub load_lines : ℕ → PatternSet Code → Bytes → PatternSet Code
  unfolding load_line parse_line fgets
  load_lines fuel ps [] = ps
  load_lines zero ps (c ∷ cs) = ps
  load_lines (suc fuel) ps (c ∷ cs) =
      let (line, rest) = fgets (line_size - 1) (c ∷ cs) in
      load_lines fuel (load_line ps (parse_line line)) rest

  -- `patterns_load_file`
  unfoldable pub load_file : FileSystem → Bool → PatternSet Code → Bytes → PatternSet Code × Bool
  unfolding path_accepted load_lines
  load_file files allowed ps path =
      if path_accepted allowed path
      then elim (files path) [
        | none ↦ (ps, false)
        | some bytes ↦ let ps' = load_lines (length bytes) ps bytes in (ps', ltb 0 ps'.count)
      ]
      else (ps, false)

  -- if (patterns_load_file(ps, filepath)) loaded += (int)(ps->count - before)
  unfoldable pub after_file : PatternSet Code → ℕ → PatternSet Code × Bool → PatternSet Code × ℕ
  after_file ps loaded (ps', ok) = (ps', if ok then loaded + (ps'.count - ps.count) else loaded)

  -- The body of the loop of `patterns_load_directory`, at the name `name`; the counts of patterns are
  -- far below 2 ^ 31.
  unfoldable pub load_entry :
      FileSystem → Bool → Bytes → Bytes → PatternSet Code → ℕ → PatternSet Code × ℕ
  unfolding load_file is_pattern_file after_file
  load_entry files allowed dirname name ps loaded =
      let filepath = take (line_size - 1) (dirname ++ (b'/' ∷ name)) in
      if is_pattern_file name
      then after_file ps loaded (load_file files allowed ps filepath)
      else (ps, loaded)

  -- The loop over the names that `readdir` gives.
  unfoldable pub load_entries :
      FileSystem → Bool → Bytes → List Bytes → PatternSet Code → ℕ → PatternSet Code × ℕ
  unfolding load_entry
  load_entries files allowed dirname [] ps loaded = (ps, loaded)
  load_entries files allowed dirname (name ∷ names) ps loaded =
      let (ps', loaded') = load_entry files allowed dirname name ps loaded in
      load_entries files allowed dirname names ps' loaded'

  -- `patterns_load_directory`, `none` where the directory cannot be opened.
  unfoldable pub load_directory :
      FileSystem → Bool → Bytes → Option (List Bytes) → PatternSet Code → PatternSet Code × ℕ
  unfolding load_entries
  load_directory files allowed dirname none ps = (ps, 0)
  load_directory files allowed dirname (some names) ps =
      load_entries files allowed dirname names ps 0

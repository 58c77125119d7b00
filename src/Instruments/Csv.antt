-- ===== src/Instruments/Csv.antt =====
-- backend/instruments/csv.ts: the reader of the brokers' instrument files.
--
-- A text is its code units. A record is its headers with their values; a header that comes twice keeps
-- its first place and takes the value of its last column.
pub mod Quoting
pub mod Sniffing
mod Tests
use quantstack_terminal.Common.{
  ℕ, zero, suc, ◌+◌, ◌-◌, Bool, true, false, not, ◌&&◌, ◌||◌, List, [], ◌∷◌, ◌++◌, map, Option,
  none, some, Text, text_eq, leb, ltb, ◌==◌, if◌then◌else◌, length, filter, get_or, trim, Assoc,
  put,
}
use quantstack_terminal.Feeds.Identity.{is_empty}

abbrev pub quote : ℕ
quote = 34

abbrev pub comma : ℕ
comma = 44

abbrev pub semicolon : ℕ
semicolon = 59

-- The commas and the semicolons outside quotes, after `commas` and `semis` of them.
unfoldable pub count_delimiters : Bool → ℕ → ℕ → Text → ℕ × ℕ
count_delimiters quoted commas semis [] = (commas, semis)
count_delimiters quoted commas semis (ch ∷ rest) = elim (ch == quote) [
  | true ↦ count_delimiters (not quoted) commas semis rest
  | false ↦
      count_delimiters quoted (if not quoted && (ch == comma) then commas + 1 else commas)
        (if not quoted && (ch == semicolon) then semis + 1 else semis) rest
]

unfoldable pub delimiter_for : Text → ℕ
delimiter_for header =
    let counts = count_delimiters false 0 0 header in
    if leb counts.1 counts.0 then comma else semicolon

-- The loop of `parseRow`, with the value read so far.
unfoldable pub read_fields : ℕ → Bool → Text → Text → List Text
read_fields delimiter quoted value [] = trim value ∷ []
read_fields delimiter quoted value (ch ∷ []) = elim (ch == quote) [
  | true ↦ read_fields delimiter (not quoted) value []
  | false ↦ elim ((ch == delimiter) && not quoted) [
    | true ↦ trim value ∷ read_fields delimiter quoted [] []
    | false ↦ read_fields delimiter quoted (value ++ ch ∷ []) []
  ]
]
read_fields delimiter quoted value (ch ∷ next ∷ rest) = elim (ch == quote) [
  | true ↦ elim (quoted && (next == quote)) [
    | true ↦ read_fields delimiter quoted (value ++ quote ∷ []) rest
    | false ↦ read_fields delimiter (not quoted) value (next ∷ rest)
  ]
  | false ↦ elim ((ch == delimiter) && not quoted) [
    | true ↦ trim value ∷ read_fields delimiter quoted [] (next ∷ rest)
    | false ↦ read_fields delimiter quoted (value ++ ch ∷ []) (next ∷ rest)
  ]
]

unfoldable pub parse_row : Text → ℕ → List Text
parse_row line delimiter = read_fields delimiter false [] line

-- `.replace(/^\uFEFF/, '')`
unfoldable pub strip_bom : Text → Text
strip_bom [] = []
strip_bom (c ∷ s) = if c == 65279 then s else c ∷ s

abbrev pub cons_line : ℕ → List Text → List Text
cons_line c [] = (c ∷ []) ∷ []
cons_line c (l ∷ ls) = (c ∷ l) ∷ ls

-- `.split(/\r?\n/)`
unfoldable pub split_lines : Text → List Text
split_lines [] = [] ∷ []
split_lines (c ∷ []) = if c == 10 then [] ∷ [] ∷ [] else (c ∷ []) ∷ []
split_lines (c ∷ d ∷ s) = elim (c == 10) [
  | true ↦ [] ∷ split_lines (d ∷ s)
  | false ↦ elim ((c == 13) && (d == 10)) [
    | true ↦ [] ∷ split_lines s
    | false ↦ cons_line c (split_lines (d ∷ s))
  ]
]

-- `.replace(/;$/, '')`
unfoldable pub strip_semicolon : Text → Text
strip_semicolon [] = []
strip_semicolon (c ∷ []) = if c == semicolon then [] else c ∷ []
strip_semicolon (c ∷ d ∷ s) = c ∷ strip_semicolon (d ∷ s)

-- The headers with the values from column `i` on; a column that is missing is empty.
unfoldable pub record_from : List Text → ℕ → List Text → Assoc Text Text → Assoc Text Text
record_from [] i values acc = acc
record_from (h ∷ hs) i values acc = record_from hs (i + 1) values (put h (get_or values i []) acc)

abbrev pub parse_lines : List Text → List (Assoc Text Text)
parse_lines [] = []
parse_lines (header ∷ []) = []
parse_lines (header ∷ line ∷ lines) =
    let delimiter = delimiter_for header in
    let headers = map (λ h. strip_semicolon (trim h)) (parse_row header delimiter) in
    map (λ l. record_from headers 0 (parse_row l delimiter) []) (line ∷ lines)

unfoldable pub parse_csv : Text → List (Assoc Text Text)
parse_csv text =
    parse_lines (filter (λ line. not (is_empty (trim line))) (split_lines (strip_bom text)))

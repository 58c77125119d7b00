-- ===== src/Instruments/Csv/Quoting.antt =====
-- What a writer quotes, the reader gives back.
use quantstack_terminal.Common.{append_nil, append_assoc}
use quantstack_terminal.Common.{
  ℕ, ◌≡◌, refl, sym, ◌∙◌, ap, Bool, Bool-cases, true, false, not, ◌&&◌, List, [], ◌∷◌, ◌++◌, map,
  inl, inr, Text, ◌==◌, ==_iff, if◌then◌else◌, trim, All, arith,
}
use quantstack_terminal.Instruments.Csv.{quote, read_fields, parse_row}

-- A cell as it is written: in quotes, with its quotes doubled, or as it is.
pub data Cell : Type 0 where
  in_quotes as_is : Text → Cell

abbrev pub content : Cell → Text
content (in_quotes s) = s
content (as_is s) = s

unfoldable pub doubled : Text → Text
doubled [] = []
doubled (c ∷ s) = let rest = doubled s in if c == quote then quote ∷ quote ∷ rest else c ∷ rest

abbrev pub written : Cell → Text
written (in_quotes s) = quote ∷ (doubled s ++ quote ∷ [])
written (as_is s) = s

abbrev pub written_row : ℕ → List Cell → Text
written_row delimiter [] = []
written_row delimiter (c ∷ []) = written c
written_row delimiter (c ∷ d ∷ cs) = written c ++ delimiter ∷ written_row delimiter (d ∷ cs)

-- A cell that is written as it is holds neither a quote nor the delimiter.
abbrev pub IsPlain : ℕ → Cell → Type 0
IsPlain delimiter (in_quotes s) = true ≡ true
IsPlain delimiter (as_is s) = All (λ c. ((c == quote) ≡ false) × ((c == delimiter) ≡ false)) s

abbrev StartsPlain : Text → Type 0
StartsPlain [] = true ≡ true
StartsPlain (c ∷ s) = (c == quote) ≡ false

read_open :
    (d : ℕ) (v rest : Text) → read_fields d false v (quote ∷ rest) ≡ read_fields d true v rest
unfolding read_fields
read_open d v [] = refl
read_open d v (n ∷ rest) = refl

read_close :
    (d : ℕ) (v rest : Text)
    → StartsPlain rest
    → read_fields d true v (quote ∷ rest) ≡ read_fields d false v rest
unfolding read_fields
read_close d v [] h = refl
read_close d v (n ∷ rest) h = rw (read_fields, h) refl

read_doubled :
    (d : ℕ) (v rest : Text)
    → read_fields d true v (quote ∷ quote ∷ rest) ≡ read_fields d true (v ++ quote ∷ []) rest
unfolding read_fields
read_doubled d v rest = refl

read_char :
    (d c : ℕ) (quoted : Bool) (v rest : Text)
    → (c == quote) ≡ false
    → ((c == d) && not quoted) ≡ false
    → read_fields d quoted v (c ∷ rest) ≡ read_fields d quoted (v ++ c ∷ []) rest
unfolding read_fields
read_char d c quoted v [] h k = rw (read_fields, h, k) refl
read_char d c quoted v (n ∷ rest) h k = rw (read_fields, h, k) refl

read_delimiter :
    (d : ℕ) (v rest : Text)
    → (d == quote) ≡ false
    → read_fields d false v (d ∷ rest) ≡ trim v ∷ read_fields d false [] rest
unfolding read_fields
read_delimiter d v [] h =
    let same : (d == d) ≡ true = ground arith in rw (read_fields, h, same) refl
read_delimiter d v (n ∷ rest) h =
    let same : (d == d) ≡ true = ground arith in rw (read_fields, h, same) refl

-- The text of a quoted cell, up to the quote that ends it.
read_quoted :
    (d : ℕ) (s v rest : Text)
    → StartsPlain rest
    → read_fields d true v (doubled s ++ quote ∷ rest) ≡ read_fields d false (v ++ s) rest
unfolding doubled
read_quoted d [] v rest h =
    read_close d v rest h ∙ ap (λ r. read_fields d false r rest) (sym (append_nil v))
read_quoted d (c ∷ s) v rest h =
    let next =
      read_quoted d s (v ++ c ∷ []) rest h
      ∙ ap (λ r. read_fields d false r rest) (append_assoc v (c ∷ []) s) in
    elim (Bool-cases (c == quote)) [
      | inl same ↦
          let e : c ≡ quote = (==_iff c quote).0 same in
          rw (doubled, same)
            (read_doubled d v (doubled s ++ quote ∷ rest)
              ∙ ap (λ k. read_fields d true (v ++ k ∷ []) (doubled s ++ quote ∷ rest)) (sym e)
              ∙ next)
      | inr other ↦
          let quiet : ((c == d) && not true) ≡ false = ground arith in
          rw (doubled, other) (read_char d c true v (doubled s ++ quote ∷ rest) other quiet ∙ next)
    ]

read_plain :
    (d : ℕ) (s v rest : Text)
    → IsPlain d (as_is s)
    → read_fields d false v (s ++ rest) ≡ read_fields d false (v ++ s) rest
read_plain d [] v rest h = ap (λ r. read_fields d false r rest) (sym (append_nil v))
read_plain d (c ∷ s) v rest h =
    let quiet : ((c == d) && not false) ≡ false = rw h.0.1 refl in
    read_char d c false v (s ++ rest) h.0.0 quiet
    ∙ read_plain d s (v ++ c ∷ []) rest h.1
    ∙ ap (λ r. read_fields d false r rest) (append_assoc v (c ∷ []) s)

read_cell :
    (d : ℕ) (c : Cell) (rest : Text)
    → IsPlain d c
    → StartsPlain rest
    → read_fields d false [] (written c ++ rest) ≡ read_fields d false (content c) rest
read_cell d (in_quotes s) rest p h =
    read_open d [] ((doubled s ++ quote ∷ []) ++ rest)
    ∙ ap (λ r. read_fields d true [] r) (append_assoc (doubled s) (quote ∷ []) rest)
    ∙ read_quoted d s [] rest h
read_cell d (as_is s) rest p h = read_plain d s [] rest p

read_last :
    (d : ℕ) (c : Cell) → IsPlain d c → read_fields d false [] (written c) ≡ trim (content c) ∷ []
unfolding read_fields
read_last d c p =
    ap (λ r. read_fields d false [] r) (sym (append_nil (written c))) ∙ read_cell d c [] p refl

-- A row that a writer separates by a delimiter other than the quote, its cells in quotes with their
-- quotes doubled, or as they are where they hold neither quotes nor delimiters, is read back cell by
-- cell, each without the white space around it.
pub parse_row-written :
    (d : ℕ) (c : Cell) (cs : List Cell)
    → (d == quote) ≡ false
    → All (IsPlain d) (c ∷ cs)
    → parse_row (written_row d (c ∷ cs)) d ≡ map (λ e. trim (content e)) (c ∷ cs)
unfolding parse_row
parse_row-written d c [] h p = read_last d c p.0
parse_row-written d c (e ∷ es) h p =
    read_cell d c (d ∷ written_row d (e ∷ es)) p.0 h
    ∙ read_delimiter d (content c) (written_row d (e ∷ es)) h
    ∙ ap (λ r. trim (content c) ∷ r) (parse_row-written d e es h p.1)

-- ===== src/Instruments/Csv/Sniffing.antt =====
-- The delimiter of a header is found, whatever its quoted cells hold.
use quantstack_terminal.Common.{append_nil, append_assoc}
use quantstack_terminal.Common.{
  ℕ, ◌+◌, ◌≡◌, refl, sym, ◌∙◌, ap, Bool, Bool-cases, true, false, not, ◌&&◌, List, [], ◌∷◌, ◌++◌,
  map, inl, inr, Text, ◌==◌, trim, All, arith, leb, length,
}
use quantstack_terminal.Instruments.Csv.{
  quote, comma, semicolon, count_delimiters, delimiter_for, parse_row,
}
use quantstack_terminal.Instruments.Csv.Quoting.{
  Cell, in_quotes, as_is, content, doubled, written, written_row, IsPlain, parse_row-written,
}

count_quote :
    (q : Bool) (a b : ℕ) (s : Text)
    → count_delimiters q a b (quote ∷ s) ≡ count_delimiters (not q) a b s
unfolding count_delimiters
count_quote q a b s = refl

-- A character inside quotes, or one that is no delimiter, counts for neither.
count_other :
    (q : Bool) (a b c : ℕ) (s : Text)
    → (c == quote) ≡ false
    → (not q && (c == comma)) ≡ false
    → (not q && (c == semicolon)) ≡ false
    → count_delimiters q a b (c ∷ s) ≡ count_delimiters q a b s
unfolding count_delimiters
count_other q a b c s h k l = rw (count_delimiters, h, k, l) refl

count_doubled :
    (a b : ℕ) (s rest : Text)
    → count_delimiters true a b (doubled s ++ quote ∷ rest) ≡ count_delimiters false a b rest
unfolding doubled
count_doubled a b [] rest = count_quote true a b rest
count_doubled a b (c ∷ s) rest = elim (Bool-cases (c == quote)) [
  | inl same ↦
      rw (doubled, same)
        (count_quote true a b (quote ∷ (doubled s ++ quote ∷ rest))
          ∙ count_quote false a b (doubled s ++ quote ∷ rest)
          ∙ count_doubled a b s rest)
  | inr other ↦
      rw (doubled, other)
        (count_other true a b c (doubled s ++ quote ∷ rest) other refl refl
          ∙ count_doubled a b s rest)
]

count_plain :
    (a b : ℕ) (s rest : Text)
    → IsPlain comma (as_is s)
    → IsPlain semicolon (as_is s)
    → count_delimiters false a b (s ++ rest) ≡ count_delimiters false a b rest
count_plain a b [] rest h k = refl
count_plain a b (c ∷ s) rest h k =
    count_other false a b c (s ++ rest) h.0.0 h.0.1 k.0.1 ∙ count_plain a b s rest h.1 k.1

count_cell :
    (a b : ℕ) (c : Cell) (rest : Text)
    → IsPlain comma c
    → IsPlain semicolon c
    → count_delimiters false a b (written c ++ rest) ≡ count_delimiters false a b rest
count_cell a b (in_quotes s) rest h k =
    count_quote false a b ((doubled s ++ quote ∷ []) ++ rest)
    ∙ ap (λ r. count_delimiters true a b r) (append_assoc (doubled s) (quote ∷ []) rest)
    ∙ count_doubled a b s rest
count_cell a b (as_is s) rest h k = count_plain a b s rest h k

count_one :
    (a b : ℕ) (c : Cell)
    → IsPlain comma c
    → IsPlain semicolon c
    → count_delimiters false a b (written c) ≡ (a, b)
unfolding count_delimiters
count_one a b c h k =
    ap (λ r. count_delimiters false a b r) (sym (append_nil (written c))) ∙ count_cell a b c [] h k

count_comma :
    (a b : ℕ) (s : Text)
    → count_delimiters false a b (comma ∷ s) ≡ count_delimiters false (a + 1) b s
unfolding count_delimiters
count_comma a b s = refl

count_semicolon :
    (a b : ℕ) (s : Text)
    → count_delimiters false a b (semicolon ∷ s) ≡ count_delimiters false a (b + 1) s
unfolding count_delimiters
count_semicolon a b s = refl

-- The cells of a row hold no delimiter of either kind outside quotes.
abbrev pub IsClear : Cell → Type 0
IsClear c = IsPlain comma c × IsPlain semicolon c

count_commas :
    (a b : ℕ) (c : Cell) (cs : List Cell)
    → All IsClear (c ∷ cs)
    → count_delimiters false a b (written_row comma (c ∷ cs)) ≡ (a + length cs, b)
count_commas a b c [] h = count_one a b c h.0.0 h.0.1 ∙ ap (λ n. (n, b)) (omega arith)
count_commas a b c (e ∷ es) h =
    count_cell a b c (comma ∷ written_row comma (e ∷ es)) h.0.0 h.0.1
    ∙ count_comma a b (written_row comma (e ∷ es))
    ∙ count_commas (a + 1) b e es h.1
    ∙ ap (λ n. (n, b)) (omega arith)

count_semicolons :
    (a b : ℕ) (c : Cell) (cs : List Cell)
    → All IsClear (c ∷ cs)
    → count_delimiters false a b (written_row semicolon (c ∷ cs)) ≡ (a, b + length cs)
count_semicolons a b c [] h = count_one a b c h.0.0 h.0.1 ∙ ap (λ n. (a, n)) (omega arith)
count_semicolons a b c (e ∷ es) h =
    count_cell a b c (semicolon ∷ written_row semicolon (e ∷ es)) h.0.0 h.0.1
    ∙ count_semicolon a b (written_row semicolon (e ∷ es))
    ∙ count_semicolons a (b + 1) e es h.1
    ∙ ap (λ n. (a, n)) (omega arith)

-- The separators that the files use.
abbrev pub separators : Bool → ℕ
separators true = comma
separators false = semicolon

All-IsPlain :
    (commas : Bool) (cs : List Cell) → All IsClear cs → All (IsPlain (separators commas)) cs
All-IsPlain commas [] h = _
All-IsPlain true (c ∷ cs) h = (h.0.0, All-IsPlain true cs h.1)
All-IsPlain false (c ∷ cs) h = (h.0.1, All-IsPlain false cs h.1)

delimiter_for-written :
    (commas : Bool) (c e : Cell) (cs : List Cell)
    → All IsClear (c ∷ e ∷ cs)
    → delimiter_for (written_row (separators commas) (c ∷ e ∷ cs)) ≡ separators commas
unfolding delimiter_for
delimiter_for-written true c e cs h =
    let counts = count_commas 0 0 c (e ∷ cs) h in
    let more : leb 0 (0 + length (e ∷ cs)) ≡ true = ground arith in
    rw (delimiter_for, counts, more) refl
delimiter_for-written false c e cs h =
    let counts = count_semicolons 0 0 c (e ∷ cs) h in
    let more : leb (0 + length (e ∷ cs)) 0 ≡ false = ground arith in
    rw (delimiter_for, counts, more) refl

-- A row of two or more cells that a writer separates by commas, or by semicolons, is read back cell by
-- cell with the delimiter that is found in it, where the cells that are not in quotes hold no quote,
-- no comma and no semicolon; what the quoted cells hold does not mislead the reader.
pub parse_row-delimiter_for :
    (commas : Bool) (c e : Cell) (cs : List Cell)
    → All IsClear (c ∷ e ∷ cs)
    → parse_row
        (written_row (separators commas) (c ∷ e ∷ cs))
        (delimiter_for (written_row (separators commas) (c ∷ e ∷ cs)))
      ≡ map (λ x. trim (content x)) (c ∷ e ∷ cs)
parse_row-delimiter_for true c e cs h =
    ap (parse_row (written_row comma (c ∷ e ∷ cs))) (delimiter_for-written true c e cs h)
    ∙ parse_row-written comma c (e ∷ cs) refl (All-IsPlain true (c ∷ e ∷ cs) h)
parse_row-delimiter_for false c e cs h =
    ap (parse_row (written_row semicolon (c ∷ e ∷ cs))) (delimiter_for-written false c e cs h)
    ∙ parse_row-written semicolon c (e ∷ cs) refl (All-IsPlain false (c ∷ e ∷ cs) h)

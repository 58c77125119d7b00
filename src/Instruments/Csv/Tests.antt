-- ===== src/Instruments/Csv/Tests.antt =====
-- Files with a byte order mark, with quoted cells and with both delimiters.
use quantstack_terminal.Common.{
  ◌≡◌, refl, false, List, [], ◌∷◌, ◌++◌, Text, codes, trim, trim_start, put, All,
}
use quantstack_terminal.Instruments.Csv.{
  parse_csv, parse_row, read_fields, delimiter_for, count_delimiters, split_lines, strip_bom,
  strip_semicolon, record_from,
}
use quantstack_terminal.Instruments.Csv.Quoting.{
  Cell, in_quotes, as_is, written_row, parse_row-written,
}
use quantstack_terminal.Instruments.Csv.Sniffing.{parse_row-delimiter_for, IsClear}

abbrev line_break : Text
line_break = 13 ∷ 10 ∷ []

abbrev small_file : Text
small_file =
    65279 ∷ (codes "a;b;" ++ line_break ++ codes "1; \"x;\"\"y\"\"\" " ++ line_break ++ line_break)

file_reads :
    parse_csv small_file
    ≡ ((codes "a", codes "1") ∷ (codes "b", codes "x;\"y\"") ∷ ([], []) ∷ []) ∷ []
unfolding parse_csv parse_row read_fields delimiter_for count_delimiters split_lines strip_bom
    strip_semicolon record_from put trim trim_start
file_reads = refl

header_only : parse_csv (codes "a,b") ≡ []
unfolding parse_csv split_lines strip_bom trim trim_start
header_only = refl

abbrev cells : List Cell
cells = in_quotes (codes "A, \"B\"; C") ∷ as_is (codes "75") ∷ []

cells-IsClear : All IsClear cells
cells-IsClear =
    ((refl, refl), ((((refl, refl), ((refl, refl), _)), ((refl, refl), ((refl, refl), _))), _))

parse_row-written_example :
    parse_row (written_row 44 cells) 44 ≡ codes "A, \"B\"; C" ∷ codes "75" ∷ []
unfolding trim trim_start
parse_row-written_example =
    parse_row-written 44 (in_quotes (codes "A, \"B\"; C")) (as_is (codes "75") ∷ []) refl
      (refl, (((refl, refl), ((refl, refl), _)), _))

parse_row-delimiter_for_example :
    parse_row (written_row 59 cells) (delimiter_for (written_row 59 cells))
    ≡ codes "A, \"B\"; C" ∷ codes "75" ∷ []
unfolding trim trim_start
parse_row-delimiter_for_example =
    parse_row-delimiter_for false (in_quotes (codes "A, \"B\"; C")) (as_is (codes "75")) []
      cells-IsClear

-- ===== src/Instruments/Store/Search.antt =====
-- The search of a master stops at its limit, and the brokers that carry a contract.
use quantstack_terminal.Common.{append_nil, append_assoc}
use quantstack_terminal.Common.{
  ℕ, zero, suc, ◌+◌, ◌-◌, max, ◌≡◌, refl, sym, ◌∙◌, Bool-cases, true, false, List, [], ◌∷◌, ◌++◌,
  inl, inr, Text, if◌then◌else◌, leb, filter, take, length, length-append, upper, trim, arith,
}
use quantstack_terminal.Feeds.Identity.{is_empty}
use quantstack_terminal.Instruments.Store.{
  InstrumentRow, InstrumentStore, search, search_rows, matches, rows_of,
}

search_rows-take :
    (text : Text) (limit left : ℕ) (out rows : List InstrumentRow)
    → max limit 1 ≡ length out + suc left
    → search_rows text limit out rows ≡ out ++ take (suc left) (filter (matches text) rows)
unfolding search_rows
search_rows-take text limit left out [] e = sym (append_nil out)
search_rows-take text limit zero out (row ∷ rows) e =
    let longer = length-append out (row ∷ []) in
    elim (Bool-cases (matches text row)) [
      | inr other ↦ rw (search_rows, other) (search_rows-take text limit zero out rows e)
      | inl fits ↦
          let full : leb limit (length (out ++ row ∷ [])) ≡ true = ground arith in
          rw (search_rows, fits, full) refl
    ]
search_rows-take text limit (suc left) out (row ∷ rows) e =
    let longer = length-append out (row ∷ []) in
    elim (Bool-cases (matches text row)) [
      | inr other ↦ rw (search_rows, other) (search_rows-take text limit (suc left) out rows e)
      | inl fits ↦
          let room : leb limit (length (out ++ row ∷ [])) ≡ false = ground arith in
          rw (search_rows, fits, room)
            (search_rows-take text limit left (out ++ row ∷ []) rows (omega arith)
              ∙ append_assoc out (row ∷ []) (take (suc left) (filter (matches text) rows)))
    ]

-- A search gives the first fitting rows of the broker's master, in order, up to the limit and at least
-- one where one fits; a blank query gives none.
pub search-take :
    (broker query : Text) (limit : ℕ) (st : InstrumentStore)
    → search broker query limit st ≡ (
        if is_empty (trim (upper query))
        then []
        else take (max limit 1) (filter (matches (trim (upper query))) (rows_of broker st)))
unfolding search
search-take broker query limit st =
    let cap : max limit 1 ≡ suc (limit - 1) = omega arith in
    let all_ =
      search_rows-take (trim (upper query)) limit (limit - 1) [] (rows_of broker st)
        (omega arith) in
    rw (all_, cap) refl

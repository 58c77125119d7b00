-- ===== src/Instruments/Store/Lookup.antt =====
-- The indexes of a master answer like a search of its rows, the last fitting row first.
use quantstack_terminal.Common.{
  ◌≡◌, refl, ◌∙◌, Bool, not, ◌&&◌, ◌||◌, List, [], ◌∷◌, Option, none, some, Text, text_eq, text_beq,
  if◌then◌else◌, get, get-put, arith,
}
use quantstack_terminal.Feeds.Identity.{is_empty}
use quantstack_terminal.Instruments.Store.{
  InstrumentRow, Indexes, canonical_key, broker_key, token_key, index_row, index_from, index,
  no_indexes, put_if,
}
use quantstack_terminal.Common.{Assoc}

-- The last row with a property.
unfoldable pub find_last : (InstrumentRow → Bool) → List InstrumentRow → Option InstrumentRow
find_last p [] = none
find_last p (row ∷ rows) = elim (find_last p rows) [
  | some found ↦ some found
  | none ↦ if p row then some row else none
]

abbrev pub or_else : Option InstrumentRow → Option InstrumentRow → Option InstrumentRow
or_else none o = o
or_else (some row) o = some row

abbrev pub has_canonical : Text → InstrumentRow → Bool
has_canonical key row =
    not (is_empty row.symbol) && text_beq (canonical_key row.symbol row.exchange) key

-- By the broker's own segment or by the canonical exchange.
abbrev pub has_broker : Text → InstrumentRow → Bool
has_broker key row =
    not (is_empty row.brsymbol)
    && (text_beq (broker_key row.brsymbol row.brexchange) key
        || text_beq (broker_key row.brsymbol row.exchange) key)

abbrev pub has_token : Text → InstrumentRow → Bool
has_token key row = not (is_empty row.token) && text_beq (token_key row.token row.brexchange) key

get-put_if :
    (text key k : Text) (row : InstrumentRow) (m : Assoc Text InstrumentRow)
    → get k (put_if text key row m)
      ≡ (if not (is_empty text) && text_beq key k then some row else get k m)
get-put_if text key k row m = let law = get-put key k row m in ground (arith)

-- What one row does to the three indexes.
index_row-canonical :
    (k : Text) (row : InstrumentRow) (ix : Indexes)
    → get k (index_row row ix).by_canonical
      ≡ (if has_canonical k row then some row else get k ix.by_canonical)
unfolding index_row
index_row-canonical k row ix =
    get-put_if row.symbol (canonical_key row.symbol row.exchange) k row ix.by_canonical

index_row-broker :
    (k : Text) (row : InstrumentRow) (ix : Indexes)
    → get k (index_row row ix).by_broker
      ≡ (if has_broker k row then some row else get k ix.by_broker)
unfolding index_row
index_row-broker k row ix =
    let own = get-put_if row.brsymbol (broker_key row.brsymbol row.brexchange) k row ix.by_broker in
    let both =
      get-put_if row.brsymbol (broker_key row.brsymbol row.exchange) k row
        (put_if row.brsymbol (broker_key row.brsymbol row.brexchange) row ix.by_broker) in
    ground arith

index_row-token :
    (k : Text) (row : InstrumentRow) (ix : Indexes)
    → get k (index_row row ix).by_token ≡ (if has_token k row then some row else get k ix.by_token)
unfolding index_row
index_row-token k row ix =
    get-put_if row.token (token_key row.token row.brexchange) k row ix.by_token

index_from-get :
    (pick : Indexes → Assoc Text InstrumentRow) (p : InstrumentRow → Bool) (k : Text)
    → ((row : InstrumentRow) (ix : Indexes)
        → get k (pick (index_row row ix)) ≡ (if p row then some row else get k (pick ix)))
    → (rows : List InstrumentRow) (ix : Indexes)
    → get k (pick (index_from rows ix)) ≡ or_else (find_last p rows) (get k (pick ix))
unfolding index_from find_last
index_from-get pick p k step [] ix = refl
index_from-get pick p k step (row ∷ rows) ix =
    let rest = index_from-get pick p k step rows (index_row row ix) in
    let one = step row ix in ground arith

or_else-none : (o : Option InstrumentRow) → or_else o none ≡ o
or_else-none none = refl
or_else-none (some row) = refl

pub index-canonical :
    (k : Text) (rows : List InstrumentRow)
    → get k (index rows).by_canonical ≡ find_last (has_canonical k) rows
unfolding index get
index-canonical k rows =
    index_from-get (λ ix. ix.by_canonical) (has_canonical k) k (index_row-canonical k) rows
      no_indexes
    ∙ or_else-none (find_last (has_canonical k) rows)

pub index-broker :
    (k : Text) (rows : List InstrumentRow)
    → get k (index rows).by_broker ≡ find_last (has_broker k) rows
unfolding index get
index-broker k rows =
    index_from-get (λ ix. ix.by_broker) (has_broker k) k (index_row-broker k) rows no_indexes
    ∙ or_else-none (find_last (has_broker k) rows)

pub index-token :
    (k : Text) (rows : List InstrumentRow)
    → get k (index rows).by_token ≡ find_last (has_token k) rows
unfolding index get
index-token k rows =
    index_from-get (λ ix. ix.by_token) (has_token k) k (index_row-token k) rows no_indexes
    ∙ or_else-none (find_last (has_token k) rows)

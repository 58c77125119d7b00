-- ===== src/Instruments/Store/Tests.antt =====
-- A store with one broker and three rows.
use quantstack_terminal.Common.{
  ◌≡◌, refl, true, false, List, [], ◌∷◌, none, some, Text, text_eq, codes, upper, lower, trim,
  trim_start, contains, get, put, length, max, filter, take,
}
use quantstack_terminal.Feeds.Identity.{ce}
use quantstack_terminal.Instruments.Symbol.{ce_type, canonical_exchange}
use quantstack_terminal.Instruments.Store.{
  InstrumentRow, InstrumentStore, index, index_from, index_row, set, is_fresh, resolve,
  resolve_broker, resolve_token, rows_of, segment_rows, search, search_rows, canonical_key,
  broker_key, token_key, matches,
}
use quantstack_terminal.Instruments.Store.Runs.{
  set_to, segment_asked, run, new, IsAnswered, run-IsAnswered,
}
use quantstack_terminal.Instruments.Store.Search.{search-take}
use quantstack_terminal.Instruments.Store.Disk.{ComesBack, load_cache-set}

abbrev kotak : Text
kotak = codes "kotak"

abbrev row_of : Text → Text → InstrumentRow
row_of symbol token = record {
  symbol = symbol;
  exchange = codes "NFO";
  name = codes "Nifty";
  expiry = codes "2026-08-28";
  strike = some 24_500;
  option_type = some ce;
  lotsize = 75;
  instrument_type = ce_type;
  brsymbol = codes "N24500CE";
  brexchange = codes "nse_fo";
  token = token;
  exchange_token = none;
}

abbrev master : List InstrumentRow
master =
    row_of (codes "A") (codes "1")
    ∷ row_of (codes "B") (codes "2")
    ∷ row_of (codes "A") (codes "3")
    ∷ []

abbrev loaded : InstrumentStore
loaded = (set true 1_000 kotak master (new [])).0

last_row_counts :
    resolve kotak (codes "a") (codes "nse_fo") loaded ≡ some (row_of (codes "A") (codes "3"))
unfolding set resolve get put index index_from index_row canonical_key broker_key token_key
    canonical_exchange upper lower trim trim_start
last_row_counts = refl

both_spellings :
    resolve_broker kotak (codes "n24500ce") (codes "NFO") loaded
    ≡ resolve_broker kotak (codes "N24500CE") (codes "nse_fo") loaded
unfolding set resolve_broker get put index index_from index_row canonical_key broker_key token_key
    canonical_exchange upper lower trim trim_start
both_spellings = refl

by_its_token :
    resolve_token kotak (codes "2") (codes "NSE_FO") loaded ≡ some (row_of (codes "B") (codes "2"))
unfolding set resolve_token get put index index_from index_row canonical_key broker_key token_key
    canonical_exchange upper lower trim trim_start
by_its_token = refl

limited : search kotak (codes " nif ") 2 loaded ≡ take 2 master
unfolding set search search_rows rows_of get put upper trim trim_start contains
limited = refl

one_at_least : length (search kotak (codes "nif") 0 loaded) ≡ 1
unfolding set search search_rows rows_of get put upper trim trim_start contains
one_at_least = refl

on_futures : (segment_rows kotak (codes "bse_fo") loaded).1 ≡ []
unfolding set segment_rows get put canonical_exchange upper lower trim trim_start
on_futures = refl

fresh_until : is_fresh 72_000_999 kotak loaded ≡ true
unfolding set is_fresh get put
fresh_until = refl

stale_from : is_fresh 72_001_000 kotak loaded ≡ false
unfolding set is_fresh get put
stale_from = refl

run-IsAnswered_example :
    IsAnswered
      (run (set_to true 1_000 kotak master ∷ segment_asked kotak (codes "NFO") ∷ []) (new []))
      kotak
run-IsAnswered_example =
    run-IsAnswered (set_to true 1_000 kotak master ∷ segment_asked kotak (codes "NFO") ∷ []) []
      kotak

search-take_example :
    search kotak (codes "nif") 2 loaded
    ≡ take (max 2 1) (filter (matches (trim (upper (codes "nif")))) (rows_of kotak loaded))
unfolding trim trim_start upper
search-take_example = search-take kotak (codes "nif") 2 loaded

load_cache-set_example : ComesBack 1_000 5_000 kotak loaded
load_cache-set_example = load_cache-set 1_000 5_000 kotak master (new [])

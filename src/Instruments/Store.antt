-- ===== src/Instruments/Store.antt =====
-- backend/instruments/store.ts: the instrument masters of the brokers, in memory and on disk.
--
-- The cache directory is part of the state: the file of a broker, as what its JSON says. `writable` is
-- whether the directory can be written. A row leaves out `ticksize`, a decimal; strikes are whole
-- numbers. The clock is an argument; `parse_date` is the parameter of symbol.ts.
pub mod Lookup
pub mod Runs
pub mod Search
pub mod Disk
mod Tests
use quantstack_terminal.Common.{
  ℕ, ◌+◌, ◌-◌, ◌*◌, Bool, true, false, not, ◌&&◌, ◌||◌, List, [], ◌∷◌, ◌++◌, map, Option, none,
  some, Text, text_eq, text_beq, codes, ltb, leb, ◌==◌, if◌then◌else◌, length, filter, upper, lower,
  trim, contains, Assoc, get, put,
}
use quantstack_terminal.Feeds.Identity.{InstrumentKey, OptionSide, is_empty}
use quantstack_terminal.Instruments.Symbol.{ContractType, symbol_of, segment_of, canonical_exchange}

pub record InstrumentRow : Type 0 where
  pub symbol : Text
  pub exchange : Text
  pub name : Text
  pub expiry : Text
  pub strike : Option ℕ
  pub option_type : Option OptionSide
  pub lotsize : ℕ
  pub instrument_type : ContractType
  pub brsymbol : Text
  pub brexchange : Text
  pub token : Text
  pub exchange_token : Option Text

abbrev pub cache_version : ℕ
cache_version = 2

abbrev pub ttl_ms : ℕ
ttl_ms = 20 * 60 * 60 * 1_000

unfoldable pub canonical_key : Text → Text → Text
canonical_key symbol exchange = upper symbol ++ codes "|" ++ canonical_exchange (some exchange)

unfoldable pub broker_key : Text → Text → Text
broker_key symbol exchange = upper symbol ++ codes "|" ++ lower exchange

unfoldable pub token_key : Text → Text → Text
token_key token brexchange = token ++ codes "|" ++ lower brexchange

pub record Indexes : Type 0 where
  pub by_canonical : Assoc Text InstrumentRow
  pub by_broker : Assoc Text InstrumentRow
  pub by_token : Assoc Text InstrumentRow

pub record Entry : Type 0 where
  pub rows : List InstrumentRow
  pub indexes : Indexes
  pub by_segment : Assoc Text (List InstrumentRow)
  pub loaded_at : ℕ

-- `if (text) map.set(key, row)`
abbrev pub put_if :
    Text → Text → InstrumentRow → Assoc Text InstrumentRow → Assoc Text InstrumentRow
put_if text key row m = if is_empty text then m else put key row m

unfoldable pub index_row : InstrumentRow → Indexes → Indexes
index_row row ix = record {
  by_canonical = put_if row.symbol (canonical_key row.symbol row.exchange) row ix.by_canonical;
  by_broker =
      put_if row.brsymbol (broker_key row.brsymbol row.exchange) row
        (put_if row.brsymbol (broker_key row.brsymbol row.brexchange) row ix.by_broker);
  by_token = put_if row.token (token_key row.token row.brexchange) row ix.by_token;
}

unfoldable pub index_from : List InstrumentRow → Indexes → Indexes
index_from [] ix = ix
index_from (row ∷ rows) ix = index_from rows (index_row row ix)

abbrev pub no_indexes : Indexes
no_indexes = record { by_canonical = []; by_broker = []; by_token = [] }

unfoldable pub index : List InstrumentRow → Indexes
index rows = index_from rows no_indexes

-- A cache file, where its JSON reads as an object: `rows` is absent where it is no array.
pub record CacheFile : Type 0 where
  pub version : Option ℕ
  pub loaded_at : Option ℕ
  pub rows : Option (List InstrumentRow)

pub record InstrumentStore : Type 0 where
  pub brokers : Assoc Text Entry
  pub disk : Assoc Text CacheFile

unfoldable pub set : Bool → ℕ → Text → List InstrumentRow → InstrumentStore → InstrumentStore × ℕ
set writable now broker rows st =
    let entry : Entry = record {
      rows = rows;
      indexes = index rows;
      by_segment = [];
      loaded_at = now;
    } in
    let file : CacheFile = record {
      version = some cache_version;
      loaded_at = some now;
      rows = some rows;
    } in
    let disk = if writable then put broker file st.disk else st.disk in
    (record { brokers = put broker entry st.brokers; disk = disk }, length rows)

abbrev pub is_version : Option ℕ → Bool
is_version none = false
is_version (some v) = v == cache_version

-- `Number(parsed.loadedAt || 0)`
abbrev pub or_zero : Option ℕ → ℕ
or_zero none = 0
or_zero (some at) = at

-- What `loadCache` installs of a file, if it takes it.
abbrev pub entry_of : ℕ → CacheFile → Option Entry
entry_of now file = elim file.rows [
  | none ↦ none
  | some rows ↦
      if not (is_version file.version)
      then none
      else if leb ttl_ms (now - or_zero file.loaded_at)
      then none
      else some (record {
        rows = rows;
        indexes = index rows;
        by_segment = [];
        loaded_at = or_zero file.loaded_at;
      })
]

abbrev pub install : Text → Option Entry → InstrumentStore → InstrumentStore × Bool
install broker none st = (st, false)
install broker (some entry) st = (record st { brokers = put broker entry st.brokers }, true)

unfoldable pub load_cache : ℕ → Text → InstrumentStore → InstrumentStore × Bool
load_cache now broker st = elim (get broker st.disk) [
  | none ↦ (st, false)
  | some file ↦ install broker (entry_of now file) st
]

unfoldable pub is_fresh : ℕ → Text → InstrumentStore → Bool
is_fresh now broker st = elim (get broker st.brokers) [
  | none ↦ false
  | some entry ↦ ltb (now - entry.loaded_at) ttl_ms
]

unfoldable pub has : Text → InstrumentStore → Bool
has broker st = elim (get broker st.brokers) [ none ↦ false | some _ ↦ true ]

unfoldable pub resolve : Text → Text → Text → InstrumentStore → Option InstrumentRow
resolve broker symbol exchange st = elim (get broker st.brokers) [
  | none ↦ none
  | some entry ↦ get (canonical_key symbol exchange) entry.indexes.by_canonical
]

unfoldable pub resolve_key :
    (Text → Option Text) → Text → InstrumentKey → InstrumentStore → Option InstrumentRow
resolve_key parse_date broker key =
    resolve broker (symbol_of parse_date key) (segment_of key.exchange key.kind)

unfoldable pub resolve_broker : Text → Text → Text → InstrumentStore → Option InstrumentRow
resolve_broker broker brsymbol brexchange st = elim (get broker st.brokers) [
  | none ↦ none
  | some entry ↦ get (broker_key brsymbol brexchange) entry.indexes.by_broker
]

unfoldable pub resolve_token : Text → Text → Text → InstrumentStore → Option InstrumentRow
resolve_token broker token brexchange st = elim (get broker st.brokers) [
  | none ↦ none
  | some entry ↦ get (token_key token brexchange) entry.indexes.by_token
]

unfoldable pub route : Text → Text → InstrumentStore → Assoc Text (Option InstrumentRow)
route symbol exchange st = map (λ b. (b.0, resolve b.0 symbol exchange st)) st.brokers

unfoldable pub route_key :
    (Text → Option Text) → InstrumentKey → InstrumentStore → Assoc Text (Option InstrumentRow)
route_key parse_date key = route (symbol_of parse_date key) (segment_of key.exchange key.kind)

abbrev pub is_found : Option InstrumentRow → Bool
is_found none = false
is_found (some row) = true

unfoldable pub brokers_for : (Text → Option Text) → InstrumentKey → InstrumentStore → List Text
brokers_for parse_date key st =
    map (λ b. b.0) (filter (λ b. is_found b.1) (route_key parse_date key st))

unfoldable pub rows_of : Text → InstrumentStore → List InstrumentRow
rows_of broker st = elim (get broker st.brokers) [ none ↦ [] | some entry ↦ entry.rows ]

-- `segmentRows`, which fills the index of a segment at its first use.
abbrev pub segment_of_entry : Text → Entry → Entry × List InstrumentRow
segment_of_entry want entry = elim (get want entry.by_segment) [
  | some cached ↦ (entry, cached)
  | none ↦
      let cached = filter (λ r. text_beq r.exchange want) entry.rows in
      (record entry { by_segment = put want cached entry.by_segment }, cached)
]

unfoldable pub segment_rows : Text → Text → InstrumentStore → InstrumentStore × List InstrumentRow
segment_rows broker segment st = elim (get broker st.brokers) [
  | none ↦ (st, [])
  | some entry ↦
      let r = segment_of_entry (canonical_exchange (some segment)) entry in
      (record st { brokers = put broker r.0 st.brokers }, r.1)
]

abbrev pub matches : Text → InstrumentRow → Bool
matches text row =
    contains text row.symbol
    || (contains text (upper row.name) || contains text (upper row.brsymbol))

-- The loop of `search`, with the rows found so far.
unfoldable pub search_rows : Text → ℕ → List InstrumentRow → List InstrumentRow → List InstrumentRow
search_rows text limit out [] = out
search_rows text limit out (row ∷ rows) = elim (matches text row) [
  | false ↦ search_rows text limit out rows
  | true ↦ elim (leb limit (length (out ++ row ∷ []))) [
    | true ↦ out ++ row ∷ []
    | false ↦ search_rows text limit (out ++ row ∷ []) rows
  ]
]

unfoldable pub search : Text → Text → ℕ → InstrumentStore → List InstrumentRow
search broker query limit st =
    let text = trim (upper query) in
    if is_empty text then [] else search_rows text limit [] (rows_of broker st)

pub record BrokerStatus : Type 0 where
  pub rows : ℕ
  pub loaded_at : ℕ
  pub fresh : Bool

unfoldable pub status : ℕ → InstrumentStore → Assoc Text BrokerStatus
status now st =
    map
      (λ b. (
        b.0,
        record { rows = length b.1.rows; loaded_at = b.1.loaded_at; fresh = is_fresh now b.0 st },
      ))
      st.brokers

unfoldable pub clear : InstrumentStore → InstrumentStore
clear st = record st { brokers = [] }

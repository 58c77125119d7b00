-- ===== src/Trading/Contract.antt =====
-- backend/trading/contract.ts: a row of a broker's report, and the contract that it is about.
--
-- The instrument store's two lookups are parameters, as are the readings of dates that symbol.ts has.
-- Strikes and lots are whole numbers, or absent where `Number` is not finite. An option type is absent
-- where the source has an empty text. The texts hold no line breaks.
pub mod Keys
mod Tests
use quantstack_terminal.Common.{
  ℕ, zero, suc, ◌+◌, ◌-◌, Bool, true, false, not, ◌&&◌, ◌||◌, List, [], ◌∷◌, ◌++◌, Option, none,
  some, Text, codes, text_beq, text_eq, ltb, ◌==◌, if◌then◌else◌, all, all_digits, length, take,
  trim, starts_with, contains,
}
use quantstack_terminal.Common.{upper as upper_case}
use quantstack_terminal.Feeds.Identity.{
  InstrumentKind, spot, fut, opt, OptionSide, ce, pe, InstrumentKey, or_empty, or_undefined,
  is_empty,
}
use quantstack_terminal.Instruments.Symbol.{
  ContractType, eq_type, fut_type, ce_type, pe_type, is_capital, expiry_key, expiry_key_to_iso,
  canonical_symbol, canonical_exchange,
}

pub record ReportRow : Type 0 where
  pub brsymbol : Option Text
  pub brexchange : Option Text
  pub token : Option Text
  pub underlying : Option Text
  pub expiry : Option Text
  pub strike : Option ℕ
  pub option_type : Option Text
  pub lot : Option ℕ

-- A row of a broker's instrument master.
pub record MasterRow : Type 0 where
  pub symbol : Text
  pub exchange : Text
  pub name : Text
  pub expiry : Text
  pub strike : Option ℕ
  pub option_type : Option OptionSide
  pub instrument_type : ContractType
  pub lotsize : ℕ

pub record Contract : Type 0 where
  pub symbol : Text
  pub key : Option InstrumentKey
  pub resolved : Bool
  pub exchange : Text
  pub underlying : Text
  pub expiry : Text
  pub strike : Option ℕ
  pub option_type : Option OptionSide
  pub lot : ℕ
  pub label : Text

abbrev pub upper : Option Text → Text
upper v = upper_case (trim (or_empty v))

abbrev pub exchange_for_key : Text → Text
exchange_for_key segment =
    if text_beq segment (codes "NFO")
    then codes "NSE"
    else if text_beq segment (codes "BFO")
    then codes "BSE"
    else segment

abbrev pub kind_of : ContractType → InstrumentKind
kind_of fut_type = fut
kind_of ce_type = opt
kind_of pe_type = opt
kind_of eq_type = spot

unfoldable pub ends_with : Text → Text → Bool
ends_with suffix [] = is_empty suffix
ends_with suffix (c ∷ s) = text_beq suffix (c ∷ s) || ends_with suffix s

unfoldable pub type_of : ReportRow → ContractType
type_of row =
    let option = upper row.option_type in
    let sym = upper row.brsymbol in
    if text_beq option (codes "CE")
    then ce_type
    else if text_beq option (codes "PE")
    then pe_type
    else if ends_with (codes "CE") sym
    then ce_type
    else if ends_with (codes "PE") sym
    then pe_type
    else if ends_with (codes "FUT") sym
    then fut_type
    else eq_type

-- `s || t`
abbrev pub or_else : Text → Text → Text
or_else [] t = t
or_else (c ∷ s) t = c ∷ s

-- `Number(lot) || 1`
abbrev pub lot_or_one : Option ℕ → ℕ
lot_or_one none = 1
lot_or_one (some zero) = 1
lot_or_one (some (suc n)) = suc n

unfoldable pub unresolved : ReportRow → Contract
unresolved row = record {
  symbol = [];
  key = none;
  resolved = false;
  exchange = canonical_exchange row.brexchange;
  underlying = upper row.underlying;
  expiry = [];
  strike = none;
  option_type = none;
  lot = lot_or_one row.lot;
  label = or_else (trim (or_empty row.brsymbol)) (or_else (or_empty row.token) (codes "unknown"));
}

-- What `contract` holds of a row of the master.
unfoldable pub from_master : ReportRow → MasterRow → Contract
from_master row hit = record {
  symbol = hit.symbol;
  key =
      if is_empty hit.symbol
      then none
      else some (record {
        exchange = exchange_for_key hit.exchange;
        asset = hit.name;
        kind = kind_of hit.instrument_type;
        expiry = or_undefined hit.expiry;
        strike = hit.strike;
        side = hit.option_type;
      });
  resolved = true;
  exchange = hit.exchange;
  underlying = hit.name;
  expiry = hit.expiry;
  strike = hit.strike;
  option_type = hit.option_type;
  lot = if hit.lotsize == 0 then lot_or_one row.lot else hit.lotsize;
  label = or_else hit.symbol (trim (or_empty row.brsymbol));
}

abbrev is_block : Text → Bool
is_block (m ∷ n ∷ o ∷ y ∷ z ∷ s) = all is_capital (m ∷ n ∷ o ∷ []) && all_digits (y ∷ z ∷ [])
is_block _ = false

-- Whether `\d{1,2}[A-Z]{3}\d{2}` matches at the beginning.
abbrev pub starts_block : Text → Bool
starts_block (d ∷ e ∷ s) =
    all_digits (d ∷ []) && (is_block (e ∷ s) || (all_digits (e ∷ []) && is_block s))
starts_block _ = false

-- `s.replace(/\d{1,2}[A-Z]{3}\d{2}.*$/, '')`
unfoldable pub strip_block : Text → Text
strip_block [] = []
strip_block (c ∷ s) = if starts_block (c ∷ s) then [] else c ∷ strip_block s

-- `s.replace(/-(EQ|BE)$/, '')`
unfoldable pub strip_series : Text → Text
unfolding ends_with
strip_series s =
    if ends_with (codes "-EQ") s || ends_with (codes "-BE") s then take (length s - 3) s else s

-- `s.split(part)[0]`, of a part that is not empty.
unfoldable pub before : Text → Text → Text
before part [] = []
before part (c ∷ s) = if starts_with part (c ∷ s) then [] else c ∷ before part s

abbrev pub is_option : ContractType → Bool
is_option ce_type = true
is_option pe_type = true
is_option _ = false

abbrev pub side_of : ContractType → Option OptionSide
side_of ce_type = some ce
side_of pe_type = some pe
side_of _ = none

abbrev pub is_equity : ContractType → Bool
is_equity eq_type = true
is_equity _ = false

abbrev positive : Option ℕ → Option ℕ
positive none = none
positive (some n) = if ltb 0 n then some n else none

abbrev pub strike_for : ContractType → Option ℕ → Option ℕ
strike_for type strike = if is_option type then positive strike else none

module _ (day_of parse_date : Text → Option Text) where
  abbrev pub expiry_for : ContractType → Option Text → Text
  expiry_for type expiry =
      if is_equity type
      then []
      else or_empty (expiry_key_to_iso parse_date (expiry_key day_of (some (or_empty expiry))))

  -- The root of a row whose own one is missing or is its symbol.
  unfoldable pub recovered : ReportRow → Text
  unfolding strip_block strip_series before
  recovered row =
      let sym = upper row.brsymbol in
      let part = expiry_key day_of (some (or_empty row.expiry)) in
      if not (is_empty part) && contains part sym
      then before part sym
      else strip_series (strip_block sym)

  unfoldable pub root_of : ReportRow → Text
  unfolding recovered
  root_of row =
      let stated = upper row.underlying in
      if is_empty stated || text_beq stated (upper row.brsymbol) then recovered row else stated

  -- The contract of a root, which is not empty.
  unfoldable pub rebuilt : ReportRow → ContractType → Text → Contract
  rebuilt row type root =
      let expiry = expiry_for type row.expiry in
      let strike = strike_for type row.strike in
      let symbol =
        canonical_symbol day_of
          (record { name = root; type = type; expiry = some expiry; strike = strike }) in
      let exchange = canonical_exchange (some (trim (or_empty row.brexchange))) in
      record {
        symbol = symbol;
        key =
            if not (is_empty symbol)
              && not (is_empty exchange)
              && (is_equity type || not (is_empty expiry))
            then some (record {
              exchange = exchange_for_key exchange;
              asset = root;
              kind = kind_of type;
              expiry = or_undefined expiry;
              strike = strike;
              side = side_of type;
            })
            else none;
        resolved = false;
        exchange = exchange;
        underlying = root;
        expiry = expiry;
        strike = strike;
        option_type = side_of type;
        lot = lot_or_one row.lot;
        label = or_else symbol (or_else (trim (or_empty row.brsymbol)) (codes "unknown"));
      }

  unfoldable pub rebuild : ReportRow → Contract
  rebuild row =
      let root = root_of row in
      if is_empty root then unresolved row else rebuilt row (type_of row) root

  module _ (resolve_broker resolve_token : Text → Text → Text → Option MasterRow) where
    abbrev by_symbol : Text → Text → Text → Option MasterRow
    by_symbol broker sym segment = if is_empty sym then none else resolve_broker broker sym segment

    abbrev by_token : Text → Option Text → Text → Option MasterRow
    by_token broker none segment = none
    by_token broker (some token) segment =
        if is_empty token then none else resolve_token broker token segment

    abbrev pub first_hit : Option MasterRow → Option MasterRow → Option MasterRow
    first_hit none second = second
    first_hit (some hit) second = some hit

    unfoldable pub resolve_contract : Text → ReportRow → Contract
    unfolding rebuild from_master
    resolve_contract broker row =
        let sym = trim (or_empty row.brsymbol) in
        let segment = trim (or_empty row.brexchange) in
        elim (first_hit (by_symbol broker sym segment) (by_token broker row.token segment)) [
          | some hit ↦ from_master row hit
          | none ↦ rebuild row
        ]

-- ===== src/Instruments/Symbol.antt =====
-- backend/instruments/symbol.ts: canonical symbols.
--
-- An expiry is read as the text that `String` makes of it. The last resort of `expiryKey`, a number
-- of seconds or milliseconds or a text for `Date.parse` and the printing of its day, is the parameter
-- `day_of`, which gives nothing for `NaN`; it is only reached by texts of neither earlier form.
-- Strikes are whole numbers.
pub mod Months
pub mod Spelling
pub mod Segments
mod Tests
use quantstack_terminal.Common.{
  ℕ, zero, suc, ◌+◌, ◌-◌, Bool, true, false, ◌&&◌, ◌||◌, List, [], ◌∷◌, ◌++◌, map, Option, none,
  some, Text, codes, text_beq, text_eq, leb, ◌==◌, if◌then◌else◌, all, get_elem?, take, drop, show,
  read, is_digit, all_digits, trim, upper, lower, Assoc, get,
}
use quantstack_terminal.Feeds.Identity.{
  InstrumentKind, spot, fut, opt, OptionSide, ce, pe, InstrumentKey, or_empty, strike_text,
  is_empty, normalize_expiry,
}

abbrev pub months : List Text
months =
    codes "JAN"
    ∷ codes "FEB"
    ∷ codes "MAR"
    ∷ codes "APR"
    ∷ codes "MAY"
    ∷ codes "JUN"
    ∷ codes "JUL"
    ∷ codes "AUG"
    ∷ codes "SEP"
    ∷ codes "OCT"
    ∷ codes "NOV"
    ∷ codes "DEC"
    ∷ []

pub data ContractType : Type 0 where
  eq_type fut_type ce_type pe_type : ContractType

-- `[A-Z]`
abbrev pub is_capital : ℕ → Bool
is_capital c = leb b'A' c && leb c b'Z'

-- `/^(\d{1,2})([A-Z]{3})(\d{2}|\d{4})$/`, as the text that `expiryKey` makes of its groups.
unfoldable pub day_month_year : Text → Option Text
day_month_year (d ∷ m ∷ n ∷ o ∷ y ∷ z ∷ []) =
    if all_digits (d ∷ y ∷ z ∷ []) && all is_capital (m ∷ n ∷ o ∷ [])
    then some (b'0' ∷ d ∷ m ∷ n ∷ o ∷ y ∷ z ∷ [])
    else none
day_month_year (d ∷ e ∷ m ∷ n ∷ o ∷ y ∷ z ∷ []) =
    if all_digits (d ∷ e ∷ y ∷ z ∷ []) && all is_capital (m ∷ n ∷ o ∷ [])
    then some (d ∷ e ∷ m ∷ n ∷ o ∷ y ∷ z ∷ [])
    else none
day_month_year (d ∷ m ∷ n ∷ o ∷ w ∷ x ∷ y ∷ z ∷ []) =
    if all_digits (d ∷ w ∷ x ∷ y ∷ z ∷ []) && all is_capital (m ∷ n ∷ o ∷ [])
    then some (b'0' ∷ d ∷ m ∷ n ∷ o ∷ y ∷ z ∷ [])
    else none
day_month_year (d ∷ e ∷ m ∷ n ∷ o ∷ w ∷ x ∷ y ∷ z ∷ []) =
    if all_digits (d ∷ e ∷ w ∷ x ∷ y ∷ z ∷ []) && all is_capital (m ∷ n ∷ o ∷ [])
    then some (d ∷ e ∷ m ∷ n ∷ o ∷ y ∷ z ∷ [])
    else none
day_month_year _ = none

-- `MONTHS[number - 1]`
abbrev pub month_name : ℕ → Option Text
month_name zero = none
month_name (suc n) = get_elem? months n

-- What an ISO date's last two digits of the year, month and day come to.
abbrev pub iso_key : Text → Text → Text → Option Text
iso_key year month day = elim (month_name (read month)) [
  | some name ↦ some (day ++ (name ++ year))
  | none ↦ none
]

-- `/^(\d{4})-?(\d{2})-?(\d{2})$/` and the lookup of its month.
unfoldable pub iso_date : Text → Option Text
iso_date (a ∷ b ∷ y ∷ z ∷ m ∷ n ∷ d ∷ e ∷ []) =
    if all_digits (a ∷ b ∷ y ∷ z ∷ m ∷ n ∷ d ∷ e ∷ [])
    then iso_key (y ∷ z ∷ []) (m ∷ n ∷ []) (d ∷ e ∷ [])
    else none
iso_date (a ∷ b ∷ y ∷ z ∷ p ∷ q ∷ r ∷ d ∷ e ∷ []) =
    if all_digits (a ∷ b ∷ y ∷ z ∷ q ∷ r ∷ d ∷ e ∷ []) && p == b'-'
    then iso_key (y ∷ z ∷ []) (q ∷ r ∷ []) (d ∷ e ∷ [])
    else if all_digits (a ∷ b ∷ y ∷ z ∷ p ∷ q ∷ d ∷ e ∷ []) && r == b'-'
    then iso_key (y ∷ z ∷ []) (p ∷ q ∷ []) (d ∷ e ∷ [])
    else none
iso_date (a ∷ b ∷ y ∷ z ∷ p ∷ m ∷ n ∷ q ∷ d ∷ e ∷ []) =
    if all_digits (a ∷ b ∷ y ∷ z ∷ m ∷ n ∷ d ∷ e ∷ []) && p == b'-' && q == b'-'
    then iso_key (y ∷ z ∷ []) (m ∷ n ∷ []) (d ∷ e ∷ [])
    else none
iso_date _ = none

abbrev pub or_text : Option Text → Text → Text
or_text none s = s
or_text (some t) s = t

-- The rest of `expiryKey`, of the trimmed text in capitals.
unfoldable pub expiry_key_of : (Text → Option Text) → Text → Text
unfolding day_month_year iso_date
expiry_key_of day_of value =
    or_text (day_month_year value) (or_text (iso_date value) (or_text (day_of value) value))

unfoldable pub expiry_key : (Text → Option Text) → Option Text → Text
unfolding expiry_key_of
expiry_key day_of none = []
expiry_key day_of (some []) = []
expiry_key day_of (some (c ∷ s)) = expiry_key_of day_of (upper (trim (c ∷ s)))

-- `MONTHS.indexOf`, counted from `n`.
unfoldable pub index_from : ℕ → Text → List Text → Option ℕ
index_from n month [] = none
index_from n month (m ∷ ms) = if text_beq m month then some n else index_from (suc n) month ms

-- `padStart(2, '0')` of a printed number.
abbrev pub pad_two : ℕ → Text
pad_two n = if leb 10 n then show n else b'0' ∷ show n

-- `/^(\d{2})([A-Z]{3})(\d{2})$/`
abbrev pub is_key : Text → Bool
is_key (d ∷ e ∷ m ∷ n ∷ o ∷ y ∷ z ∷ []) =
    all_digits (d ∷ e ∷ y ∷ z ∷ []) && all is_capital (m ∷ n ∷ o ∷ [])
is_key _ = false

abbrev iso_from : Text → Text → Option ℕ → Option Text
iso_from day year none = none
iso_from day year (some month) =
    some (codes "20" ++ (year ++ (b'-' ∷ pad_two (suc month) ++ (b'-' ∷ day))))

unfoldable pub iso_of_key : Text → Option Text
unfolding index_from
iso_of_key s = iso_from (take 2 s) (drop 5 s) (index_from 0 (take 3 (drop 2 s)) months)

unfoldable pub expiry_key_to_iso : (Text → Option Text) → Text → Option Text
unfolding iso_of_key
expiry_key_to_iso parse_date key =
    let s = upper (trim key) in
    if is_key s then iso_of_key s else normalize_expiry parse_date (some key)

abbrev pub strike_key : Option ℕ → Text
strike_key strike = strike_text strike

pub record CanonicalParts : Type 0 where
  pub name : Text
  pub type : ContractType
  pub expiry : Option Text
  pub strike : Option ℕ

abbrev pub type_text : ContractType → Text
type_text eq_type = codes "EQ"
type_text fut_type = codes "FUT"
type_text ce_type = codes "CE"
type_text pe_type = codes "PE"

-- The symbol of a root, which is not empty.
abbrev pub symbol_from : (Text → Option Text) → Text → CanonicalParts → ContractType → Text
symbol_from day_of root p eq_type = root
symbol_from day_of root p fut_type = root ++ (expiry_key day_of p.expiry ++ codes "FUT")
symbol_from day_of root p type =
    root ++ (expiry_key day_of p.expiry ++ (strike_key p.strike ++ type_text type))

unfoldable pub canonical_symbol : (Text → Option Text) → CanonicalParts → Text
canonical_symbol day_of p =
    let root = trim (upper p.name) in if is_empty root then [] else symbol_from day_of root p p.type

abbrev pub option_type : Option OptionSide → ContractType
option_type (some pe) = pe_type
option_type _ = ce_type

abbrev pub contract_type_of : InstrumentKind → Option OptionSide → ContractType
contract_type_of opt side = option_type side
contract_type_of fut side = fut_type
contract_type_of spot side = eq_type

unfoldable pub symbol_of : (Text → Option Text) → InstrumentKey → Text
unfolding canonical_symbol
symbol_of day_of k = canonical_symbol day_of (record {
  name = k.asset;
  type = contract_type_of k.kind k.side;
  expiry = k.expiry;
  strike = k.strike;
})

abbrev pub derivatives_segment : Text → Text
derivatives_segment ex =
    if text_beq ex (codes "NSE")
    then codes "NFO"
    else if text_beq ex (codes "BSE")
    then codes "BFO"
    else if text_beq ex (codes "CDS")
    then codes "CDS"
    else if text_beq ex (codes "BCD")
    then codes "BCD"
    else ex

unfoldable pub segment_of : Text → InstrumentKind → Text
segment_of exchange spot = upper exchange
segment_of exchange _ = derivatives_segment (upper exchange)

unfoldable pub exchange_of_segment : Text → Text
exchange_of_segment segment =
    let s = upper segment in
    if text_beq s (codes "NFO")
    then codes "NSE"
    else if text_beq s (codes "BFO")
    then codes "BSE"
    else s

abbrev pub segment_aliases : Assoc Text Text
segment_aliases =
    (codes "nse_cm", codes "NSE")
    ∷ (codes "nse_fo", codes "NFO")
    ∷ (codes "bse_cm", codes "BSE")
    ∷ (codes "bse_fo", codes "BFO")
    ∷ (codes "cde_fo", codes "CDS")
    ∷ (codes "bcs_fo", codes "BCD")
    ∷ (codes "bcs-fo", codes "BCD")
    ∷ (codes "mcx_fo", codes "MCX")
    ∷ (codes "mcx_index", codes "MCX")
    ∷ (codes "nfo", codes "NFO")
    ∷ (codes "bfo", codes "BFO")
    ∷ (codes "nse", codes "NSE")
    ∷ (codes "bse", codes "BSE")
    ∷ (codes "mcx", codes "MCX")
    ∷ (codes "cds", codes "CDS")
    ∷ (codes "bcd", codes "BCD")
    ∷ []

unfoldable pub canonical_exchange : Option Text → Text
canonical_exchange value =
    let raw = trim (or_empty value) in or_text (get (lower raw) segment_aliases) (upper raw)

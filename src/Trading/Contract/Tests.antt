-- ===== src/Trading/Contract/Tests.antt =====
-- Contracts of concrete rows.
use quantstack_terminal.Common.{
  ◌≡◌, refl, Option, none, some, Text, text_eq, codes, trim, upper, lower, get, read, show,
  contains,
}
use quantstack_terminal.Feeds.Identity.{InstrumentKey, opt, ce}
use quantstack_terminal.Instruments.Symbol.{
  canonical_symbol, canonical_exchange, expiry_key, expiry_key_of, expiry_key_to_iso,
  day_month_year, iso_of_key, index_from,
}
use quantstack_terminal.Trading.Contract.{
  ReportRow, rebuild, rebuilt, root_of, type_of, recovered, ends_with, before,
}
use quantstack_terminal.Trading.Contract.Keys.{IsUsable, rebuild-IsUsable}

abbrev no_day : Text → Option Text
no_day s = none

abbrev new_strike : ReportRow
new_strike = record {
  brsymbol = some (codes "NIFTY28AUG2624500CE");
  brexchange = some (codes "nse_fo");
  token = none;
  underlying = none;
  expiry = some (codes "28AUG2026");
  strike = some 24500;
  option_type = some (codes "CE");
  lot = some 75;
}

abbrev nifty_call : InstrumentKey
nifty_call = record {
  exchange = codes "NSE";
  asset = codes "NIFTY";
  kind = opt;
  expiry = some (codes "2026-08-28");
  strike = some 24500;
  side = some ce;
}

rebuilt_key : (rebuild no_day no_day new_strike).key ≡ some nifty_call
unfolding rebuild rebuilt root_of type_of recovered ends_with before contains canonical_symbol
    canonical_exchange expiry_key expiry_key_of expiry_key_to_iso day_month_year iso_of_key
    index_from trim upper lower get read show
rebuilt_key = refl

rebuild-IsUsable_example :
    IsUsable no_day (type_of new_strike) (rebuild no_day no_day new_strike) nifty_call
rebuild-IsUsable_example = rebuild-IsUsable no_day no_day new_strike nifty_call rebuilt_key

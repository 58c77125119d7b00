-- ===== src/Instruments/Symbol/Tests.antt =====
-- Symbols of concrete instruments.
use quantstack_terminal.Common.{
  ◌≡◌, refl, Option, none, some, Text, codes, arith, trim, upper, show, lower, text_eq, get, read,
}
use quantstack_terminal.Feeds.Identity.{opt, ce}
use quantstack_terminal.Instruments.Symbol.{
  symbol_of, canonical_symbol, expiry_key, expiry_key_of, expiry_key_to_iso, day_month_year,
  iso_date, canonical_exchange,
}
use quantstack_terminal.Instruments.Symbol.Spelling.{
  iso_text, compact_text, long_text, key_text, expiry_key-agree,
}

abbrev no_day : Text → Option Text
no_day s = none

nifty_call :
    symbol_of no_day (record {
      exchange = codes "NSE";
      asset = codes "nifty";
      kind = opt;
      expiry = some (codes "2026-08-28");
      strike = some 24500;
      side = some ce;
    })
    ≡ codes "NIFTY28AUG2624500CE"
unfolding symbol_of canonical_symbol expiry_key expiry_key_of day_month_year iso_date trim upper
    show read
nifty_call = refl

kotak_segment : canonical_exchange (some (codes " bcs-fo")) ≡ codes "BCD"
unfolding canonical_exchange trim lower get
kotak_segment = refl

expiry_key-agree_example :
    (expiry_key no_day (some (iso_text b'2' b'6' 7 b'2' b'8')) ≡ key_text b'2' b'6' 7 b'2' b'8')
    × (expiry_key no_day (some (compact_text b'2' b'6' 7 b'2' b'8'))
        ≡ key_text b'2' b'6' 7 b'2' b'8')
    × (expiry_key no_day (some (long_text b'2' b'6' 7 b'2' b'8')) ≡ key_text b'2' b'6' 7 b'2' b'8')
    × (expiry_key no_day (some (key_text b'2' b'6' 7 b'2' b'8')) ≡ key_text b'2' b'6' 7 b'2' b'8')
    × (expiry_key_to_iso no_day (key_text b'2' b'6' 7 b'2' b'8')
        ≡ some (iso_text b'2' b'6' 7 b'2' b'8'))
expiry_key-agree_example =
    expiry_key-agree no_day b'2' b'6' b'2' b'8' (refl, (refl, (refl, (refl, tt)))) no_day 7
      (omega arith)

-- ===== src/Feeds/Identity/Tests.antt =====
-- Keys printed and read, and the theorems at concrete inputs.
use quantstack_terminal.Common.{
  ◌≡◌, refl, Option, none, some, Text, codes, upper, join, show, split_on, trim,
}
use quantstack_terminal.Feeds.Identity.{
  opt, ce, InstrumentKey, key_of, parse_key, normalize_expiry, option_key,
}
use quantstack_terminal.Feeds.Identity.RoundTrip.{printed, present, parse_key-key_of}

abbrev august : Text
august = codes "2026-08-11"

abbrev nifty_call : InstrumentKey
nifty_call = record {
  exchange = codes "nse";
  asset = codes "NIFTY";
  kind = opt;
  expiry = some august;
  strike = some 24500;
  side = some ce;
}

key_text : key_of nifty_call ≡ codes "NSE:NIFTY:OPT:2026-08-11:24500:CE"
unfolding key_of join upper show
key_text = refl

malformed : parse_key (codes "NSE::OPT") ≡ none
unfolding parse_key split_on
malformed = refl

no_date : Text → Option Text
no_date s = none

constructed :
    option_key no_date (codes "nse") (codes "nifty") (codes " 20260811 ") 24500 ce
    ≡ record nifty_call { exchange = codes "NSE" }
unfolding option_key normalize_expiry upper trim
constructed = refl

parse_key-key_of_example : parse_key (key_of nifty_call) ≡ some (printed nifty_call)
parse_key-key_of_example =
    parse_key-key_of nifty_call (record { some_unit = cc; no_colon = (refl, (refl, (refl, tt))) })
      (record { some_unit = cc; no_colon = (refl, (refl, (refl, (refl, (refl, tt))))) })
      (present (record {
        some_unit = cc;
        no_colon =
            (refl, (refl, (refl, (refl, (refl, (refl, (refl, (refl, (refl, (refl, tt))))))))));
      }))

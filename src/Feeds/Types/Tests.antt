-- ===== src/Feeds/Types/Tests.antt =====
-- Capabilities of two feeds, and the theorems at concrete inputs.
use quantstack_terminal.Common.{
  ◌≡◌, refl, true, false, [], ◌∷◌, none, some, codes, get, show, upper, sort_by, insert_by,
}
use quantstack_terminal.Feeds.Identity.{opt}
use quantstack_terminal.Feeds.Types.{
  Capabilities, Need, supported, lacking, supports, interval_ms, is_coarser, ms_of, coarser,
  best_interval,
}

abbrev minutes : Capabilities
minutes = record {
  exchanges = codes "NSE" ∷ codes "MCX" ∷ [];
  intervals = codes "5m" ∷ codes "1m" ∷ codes "1d" ∷ [];
  history_days = 30;
  option_chain = false;
  greeks = false;
  live = true;
  max_symbols_per_request = 8;
}

abbrev asking : Need
asking = record { exchange = codes "nse"; interval = none; from = some 0; kind = some opt }

supports_tests :
    (supports 2592000000 minutes asking ≡ lacking (codes "no option chain"))
    × (supports 2592000001 minutes asking ≡ lacking (codes "history limited to 30d"))
    × (supports 5 minutes (record asking { exchange = codes "BSE" })
        ≡ lacking (codes "does not carry BSE"))
    × (supports 5 minutes (record asking { kind = none }) ≡ supported)
unfolding supports upper show
supports_tests = (refl, refl, refl, refl)

interval_tests :
    (best_interval minutes (codes "1s") ≡ some (codes "1m"))
    × (best_interval minutes (codes "2m") ≡ none)
unfolding best_interval interval_ms coarser is_coarser ms_of sort_by insert_by get
interval_tests = (refl, refl)

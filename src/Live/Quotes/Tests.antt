-- ===== src/Live/Quotes/Tests.antt =====
-- A connection that asks for contracts, gets ticks, falls silent and closes.
use quantstack_terminal.Common.{
  ℕ, ◌≡◌, ◌⊎◌, refl, true, false, List, [], ◌∷◌, ◌++◌, Option, none, some, Text, text_eq, codes,
  get, put, upper, lower, trim, trim_start, All,
}
use quantstack_terminal.Feeds.Identity.{InstrumentKey, spot}
use quantstack_terminal.Instruments.Symbol.{
  symbol_of, canonical_symbol, canonical_exchange, segment_of, eq_type,
}
use quantstack_terminal.Instruments.Store.{
  InstrumentRow, set, index, index_from, index_row, resolve, canonical_key, broker_key, token_key,
  brokers_for, route_key, route,
}
use quantstack_terminal.Instruments.Store.Runs.{Operation, set_to, run, step, new as new_store}
use quantstack_terminal.Live.Quotes.{
  Tick, new, on_tick, resubscribe, heartbeat, on_close, subscribe_to, carried,
}
use quantstack_terminal.Live.Quotes.Merging.{on_ticks, IsQuoteOf, on_ticks-IsQuoteOf}
use quantstack_terminal.Live.Quotes.Handles.{Event, asked, beat, replay, held_by, run-held}
use quantstack_terminal.Live.Quotes.Handles.{run as run_events}
use quantstack_terminal.Live.Quotes.Carrying.{IsListed, resubscribe-IsListed}

abbrev no_date : Text → Option Text
no_date s = none

abbrev share : Text → InstrumentKey
share name = record {
  exchange = codes "NSE";
  asset = name;
  kind = spot;
  expiry = none;
  strike = none;
  side = none;
}

abbrev row_of : Text → InstrumentRow
row_of symbol = record {
  symbol = symbol;
  exchange = codes "NSE";
  name = symbol;
  expiry = [];
  strike = none;
  option_type = none;
  lotsize = 1;
  instrument_type = eq_type;
  brsymbol = symbol;
  brexchange = codes "NSE";
  token = codes "1";
  exchange_token = none;
}

abbrev ops : List Operation
ops = set_to false 1 (codes "angel") (row_of (codes "TCS") ∷ []) ∷ []

abbrev requested : List InstrumentKey
requested = share (codes "TCS") ∷ share (codes "GONE") ∷ []

unlisted_dropped :
    (resubscribe ℕ no_date (run ops (new_store [])) true (some 4) requested (new ℕ)).calls
    ≡ subscribe_to 4 (share (codes "TCS") ∷ []) ∷ []
unfolding resubscribe brokers_for route_key route resolve run step set index index_from index_row
    get put canonical_key broker_key token_key canonical_exchange symbol_of canonical_symbol
    segment_of upper lower trim trim_start
unlisted_dropped = refl

abbrev tick_at : Text → ℕ → Option ℕ → Option ℕ → Tick ℕ
tick_at name ts ltp bid = record {
  key = share name;
  ltp = ltp;
  bid = bid;
  ask = none;
  iv = none;
  ts = ts;
}

abbrev ticks : List (Tick ℕ)
ticks =
    tick_at (codes "TCS") 1 (some 10) none
    ∷ tick_at (codes "SBI") 2 (some 7) (some 6)
    ∷ tick_at (codes "TCS") 3 none (some 9)
    ∷ []

merged_quote :
    get (codes "TCS") (on_ticks ℕ no_date ticks (new ℕ)).pending
    ≡ some (record {
      symbol = codes "TCS";
      ltp = some 10;
      bid = some 9;
      ask = none;
      iv = none;
      ts = 3;
    })
unfolding on_ticks on_tick get put symbol_of canonical_symbol upper trim trim_start
merged_quote = refl

fourth_silent_beat : (heartbeat ℕ (heartbeat ℕ (heartbeat ℕ (heartbeat ℕ (new ℕ)).0).0).0).1 ≡ true
unfolding heartbeat
fourth_silent_beat = refl

on_ticks-IsQuoteOf_example :
    IsQuoteOf ℕ no_date
      (codes "TCS")
      ticks
      (get (codes "TCS") (on_ticks ℕ no_date ticks (new ℕ)).pending)
on_ticks-IsQuoteOf_example = on_ticks-IsQuoteOf ℕ no_date (codes "TCS") ticks (new ℕ) refl refl

abbrev events : List (Event ℕ no_date)
events = asked (run ops (new_store [])) true (some 4) requested ∷ beat ∷ []

run-held_example :
    (replay (run_events ℕ no_date events (new ℕ)).1 []
      ≡ held_by (run_events ℕ no_date events (new ℕ)).0.subscription)
    × (replay
          ((run_events ℕ no_date events (new ℕ)).1
            ++ (on_close ℕ (run_events ℕ no_date events (new ℕ)).0).calls)
          []
        ≡ [])
run-held_example = run-held ℕ no_date events

resubscribe-IsListed_example :
    All
      (IsListed no_date (run ops (new_store [])))
      (carried ℕ no_date (run ops (new_store [])) requested)
    × (((resubscribe ℕ no_date (run ops (new_store [])) true (some 4) requested (new ℕ)).calls ≡ [])
        ⊎ ((handle : ℕ) × (some 4 ≡ some handle)
            × ((resubscribe ℕ no_date
                  (run ops (new_store []))
                  true
                  (some 4)
                  requested
                  (new ℕ)).calls
                ≡ subscribe_to handle (carried ℕ no_date (run ops (new_store [])) requested) ∷ [])))
resubscribe-IsListed_example = resubscribe-IsListed no_date ℕ ops [] true (some 4) requested (new ℕ)

-- ===== src/Feeds/LiveRouter/Tests.antt =====
-- A day of the live router, with two feeds.
use quantstack_terminal.Common.{
  inr, ℕ, ◌≡◌, ◌≢◌, refl, true, false, List, [], ◌∷◌, map, none, some, Text, text_eq, codes, arith,
  get, put, any, ◌==◌, upper, split_on, lower, join, sort_texts, insert_text,
}
use quantstack_terminal.Feeds.Breaker.{state_of}
use quantstack_terminal.Feeds.Identity.{InstrumentKey, key_of, spot}
use quantstack_terminal.Feeds.Router.{Feed}
use quantstack_terminal.Feeds.Registry.{Registered, find_feed, feed_by_id, split_feed_id}
use quantstack_terminal.Feeds.LiveRouter.{
  Surroundings, initial, unhealthy, Pending, waiting, Live, new_live, begin, reconcile, accept,
  give_way, settle, carried, broke, choose, choose_from, pinned_choice, is_skipped, covers,
  choice_of, wanted_keys, signature_of, Subscription,
}
use quantstack_terminal.Feeds.LiveRouter.Steps.{
  Event, subscribed, settled, flight_over, timer_fired, pinned_to, rotated, step, run, subscribe,
  pin, rotate, dispatch, land, overlap_over, Tick,
}
use quantstack_terminal.Feeds.LiveRouter.Chosen.{IsChosen, choose-IsFirst}
use quantstack_terminal.Feeds.LiveRouter.Accounts.{IsAccounted}
use quantstack_terminal.Feeds.LiveRouter.Sockets.{run-IsAccounted}
use quantstack_terminal.Feeds.LiveRouter.Pinning.{IsWaiting, pin-retries}
use quantstack_terminal.Feeds.LiveRouter.Reconcile.{IsLate, subscribe-IsLate, broke-moves_on}
use quantstack_terminal.Feeds.LiveRouter.Ticks.{lists, dispatch-calls}

abbrev live_feed : Text → Feed
live_feed id = record {
  id = id;
  capabilities = record {
    exchanges = [];
    intervals = [];
    history_days = 0;
    option_chain = false;
    greeks = false;
    live = true;
    max_symbols_per_request = 1;
  };
}

abbrev registered_as : Text → ℕ → Registered
registered_as id p = record { feed = live_feed id; priority = p; broker = id; instance_of = none }

abbrev angel : Registered
angel = registered_as (codes "angel") 1

abbrev nubra : Registered
nubra = registered_as (codes "nubra") 2

abbrev at_time : ℕ → Surroundings
at_time now = record {
  now = now;
  overlap_ms = 3000;
  registered = angel ∷ nubra ∷ [];
  entries = [];
  subscribes = λ id. true;
  has_master = λ broker. true;
  resolves = λ broker symbol segment. true;
  day_of = λ s. none;
}

abbrev index_key : Text → InstrumentKey
index_key asset = record {
  exchange = codes "NSE";
  asset = asset;
  kind = spot;
  expiry = none;
  strike = none;
  side = none;
}

abbrev nifty : InstrumentKey
nifty = index_key (codes "NIFTY")

abbrev bank : InstrumentKey
bank = index_key (codes "BANKNIFTY")

abbrev opening : Pending
opening = record {
  choice = choice_of angel;
  keys = nifty ∷ [];
  same_feed = false;
  signature = codes "NSE:NIFTY:SPOT:::";
  reason = initial;
}

abbrev one_sub : Subscription
one_sub = record { handle = 1; keys = nifty ∷ [] }

abbrev subscribed_once : Live
subscribed_once = record new_live { subs = one_sub ∷ []; next_id = 2 }

abbrev first_attempt : Live
first_attempt = record subscribed_once { resubscribing = waiting opening }

first_subscribe : subscribe (at_time 100) (nifty ∷ []) new_live ≡ first_attempt
unfolding subscribe reconcile begin wanted_keys choose choose_from pinned_choice is_skipped covers
    signature_of key_of state_of get put upper join sort_texts insert_text
first_subscribe = refl

abbrev morning : List (Surroundings × Event)
morning =
    (at_time 100, subscribed (nifty ∷ []))
    ∷ (at_time 200, settled carried)
    ∷ (at_time 200, flight_over)
    ∷ (at_time 300, rotated unhealthy)
    ∷ (at_time 400, settled carried)
    ∷ (at_time 400, flight_over)
    ∷ (at_time 3400, timer_fired 0)
    ∷ []

run-IsAccounted_example : IsAccounted (run morning new_live)
run-IsAccounted_example = run-IsAccounted morning

morning_sockets : (run morning new_live).open_sockets ≡ 1 ∷ []
unfolding run step subscribe rotate reconcile begin wanted_keys choose choose_from pinned_choice
    is_skipped covers signature_of key_of state_of get put upper join sort_texts insert_text settle
    accept land overlap_over
morning_sockets = refl

choose-IsFirst_example :
    IsChosen
      (at_time 100)
      subscribed_once
      (nifty ∷ [])
      (choose (at_time 100) subscribed_once (nifty ∷ []))
choose-IsFirst_example = choose-IsFirst (at_time 100) subscribed_once (nifty ∷ [])

pin_known : pin (at_time 0) (some (codes "angel")) subscribed_once ≢ none
unfolding pin feed_by_id find_feed split_feed_id split_on lower get
pin_known h = cc

pin-retries_example : IsWaiting (choice_of angel) (
    run
      ((at_time 0, pinned_to (some (codes "angel")))
        ∷ map (λ t. (t, settled broke)) (at_time 1 ∷ at_time 2 ∷ at_time 3 ∷ []))
      subscribed_once)
unfolding wanted_keys pinned_choice find_feed key_of upper join get put
pin-retries_example =
    pin-retries (at_time 0) (at_time 1 ∷ at_time 2 ∷ at_time 3 ∷ []) (codes "angel")
      (choice_of angel) subscribed_once refl refl refl pin_known
      ((omega arith, refl), ((omega arith, refl), ((omega arith, refl), ((omega arith, refl), tt))))

subscribe-IsLate_example : IsLate (choice_of angel) (bank ∷ []) subscribed_once (
    run
      ((at_time 1, subscribed (nifty ∷ []))
        ∷ (at_time 2, subscribed (bank ∷ []))
        ∷ (at_time 3, settled carried)
        ∷ (at_time 3, flight_over)
        ∷ [])
      new_live)
unfolding wanted_keys choose choose_from pinned_choice is_skipped covers key_of state_of get put
    upper join
subscribe-IsLate_example =
    subscribe-IsLate (at_time 1) (at_time 2) (at_time 3) (at_time 3) (nifty ∷ []) (bank ∷ [])
      (choice_of angel) new_live refl refl refl refl

abbrev next_attempt : Pending
next_attempt = record opening { choice = choice_of nubra; reason = unhealthy }

failed_over : (settle (at_time 5) broke first_attempt).resubscribing ≡ waiting next_attempt
unfolding settle give_way begin wanted_keys choose choose_from pinned_choice is_skipped covers
    signature_of key_of state_of get put upper join sort_texts insert_text
failed_over = refl

broke-moves_on_example : codes "nubra" ≢ codes "angel"
unfolding pinned_choice
broke-moves_on_example =
    broke-moves_on (at_time 5) opening next_attempt first_attempt refl refl failed_over

abbrev tick : Tick
tick = record { key = nifty; ts = 42 }

abbrev next_tick : Tick
next_tick = record { key = nifty; ts = 43 }

dispatch-calls_example :
    (any (λ x. x == 1) (dispatch (at_time 7) tick first_attempt).1
      ≡ any (λ sub. lists nifty 1 sub) first_attempt.subs)
    × ((dispatch (at_time 8) tick (dispatch (at_time 7) tick first_attempt).0).1 ≡ [])
    × (any
          (λ x. x == 1)
          (dispatch (at_time 8) next_tick (dispatch (at_time 7) tick first_attempt).0).1
        ≡ any (λ sub. lists nifty 1 sub) first_attempt.subs)
unfolding get
dispatch-calls_example =
    dispatch-calls (at_time 7) (at_time 8) tick next_tick first_attempt 1 refl refl
      (inr (λ e. absurd (omega arith)))

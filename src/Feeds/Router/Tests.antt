-- ===== src/Feeds/Router/Tests.antt =====
-- Calls over two feeds, and the theorems at concrete inputs.
use quantstack_terminal.Common.{
  ◌≡◌, refl, true, false, [], ◌∷◌, none, some, Text, codes, text_eq, arith, get, put, ℕ, upper,
  show, if◌then◌else◌, text_beq, List, sort_by, insert_by,
}
use quantstack_terminal.Feeds.Breaker.{
  Config, entry_of, attempt, succeed, fail, can_attempt, record_success, record_failure, state_of,
}
use quantstack_terminal.Feeds.Breaker.Invariant.{IsUsable}
use quantstack_terminal.Feeds.Errors.{
  transient, not_found, Thrown, FeedError, FeedErrorCode, feed_error, classify,
}
use quantstack_terminal.Feeds.Types.{
  Capabilities, Need, supports, interval_ms, is_coarser, ms_of, coarser, best_interval,
}
use quantstack_terminal.Feeds.Router.{
  Feed, RouterState, answered, threw, returned, World, choose_interval, consider, after_success,
  after_fault, walk, route,
}
use quantstack_terminal.Feeds.Router.Served.{IsServed, route-IsServed}
use quantstack_terminal.Feeds.Router.Faults.{IsRaised, route-IsRaised}
use quantstack_terminal.Feeds.Router.Sound.{IsQuiet, route-IsQuiet}

running : Unit {0}
unfolding route walk consider after_success after_fault choose_interval best_interval interval_ms
    is_coarser ms_of coarser supports can_attempt record_success record_failure state_of entry_of
    attempt succeed fail classify sort_by insert_by get put upper show
running = tt

abbrev defaults : Config
defaults = record { threshold = 3; cooldown_ms = 30000; cooldown_max = 300000 }

abbrev both : List Text → Capabilities
both intervals = record {
  exchanges = codes "NSE" ∷ [];
  intervals = intervals;
  history_days = 30;
  option_chain = true;
  greeks = false;
  live = true;
  max_symbols_per_request = 8;
}

abbrev nubra : Feed
nubra = record { id = codes "nubra"; capabilities = both (codes "1s" ∷ codes "1m" ∷ []) }

abbrev kotak : Feed
kotak = record { id = codes "kotak"; capabilities = both (codes "1m" ∷ []) }

abbrev failure : FeedErrorCode → Thrown
failure code =
    feed_error
      (record { code = code; message = codes "no"; feed_id = codes "nubra"; status = none })

-- The first feed fails with the code, the second answers.
abbrev world : FeedErrorCode → World ℕ
world code = record {
  checked_at = λ id. 1000;
  settled_at = λ id. 1005;
  served = λ id interval. if text_beq id (codes "nubra") then threw (failure code) else answered 7;
  during = λ id s. s;
}

abbrev seconds : Need
seconds = record { exchange = codes "nse"; interval = some (codes "1s"); from = none; kind = none }

abbrev start : RouterState
start = record { entries = []; last_provenance = none; trail = none }

abbrev call : FeedErrorCode → RouterState
call code = (route defaults (world code) seconds (codes "x") (nubra ∷ kotak ∷ []) start).0

failed_over :
    (route defaults (world transient) seconds (codes "x") (nubra ∷ kotak ∷ []) start).1 ≡ returned 7
unfolding running
failed_over = refl

route-IsServed_example :
    IsServed defaults (world transient) seconds start (nubra ∷ kotak ∷ []) 7 (call transient)
unfolding running
route-IsServed_example =
    route-IsServed defaults (world transient) seconds (codes "x") (nubra ∷ kotak ∷ []) start
      (call transient) 7 refl

abbrev missing : FeedError
missing = record { code = not_found; message = codes "no"; feed_id = codes "nubra"; status = none }

route-IsRaised_example :
    IsRaised defaults (world not_found) seconds start (nubra ∷ kotak ∷ []) missing (call not_found)
unfolding running
route-IsRaised_example =
    route-IsRaised defaults (world not_found) seconds (codes "x") nubra (kotak ∷ []) start
      (call not_found) missing refl

start-IsQuiet : IsQuiet defaults []
start-IsQuiet = record { sound = tt; quiet = λ j. unfold get in refl }

abbrev usable : IsUsable defaults
usable = record { some_faults = omega arith; ladder = omega arith }

route-IsQuiet_example : IsQuiet defaults (call transient).entries
route-IsQuiet_example =
    route-IsQuiet defaults usable (world transient) seconds (λ id s h. h) (codes "x")
      (nubra ∷ kotak ∷ []) start start-IsQuiet

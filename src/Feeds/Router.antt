-- ===== src/Feeds/Router.antt =====
-- backend/feeds/router.ts: one call served by the first feed that can.
--
-- `World` is what happens around one call of `route`: the clock as each feed is considered and as its
-- call settles, what `withAuth(feed, () => run(feed, interval))` came to, and what the other requests
-- do to the shared state while that call is awaited. Log lines and metrics are left out.
pub mod Served
pub mod Faults
pub mod Sound
mod Tests
use quantstack_terminal.Common.{
  ℕ, suc, max, Bool, true, false, ◌||◌, List, [], ◌∷◌, ◌++◌, map, Option, none, some, Text, codes,
  text_eq, text_beq, if◌then◌else◌, any, filter, join, length, ltb,
}
use quantstack_terminal.Feeds.Breaker.{
  FeedId, BreakerState, closed, opened, half_open, Config, Entries, can_attempt, record_success,
  record_failure, state_of,
}
use quantstack_terminal.Feeds.Errors.{
  FeedErrorCode, auth, rate_limit, transient, unsupported, not_found, bad_request, internal,
  FeedError, should_failover, counts_as_failure, Thrown, classify,
}
use quantstack_terminal.Feeds.Identity.{InstrumentKind, opt, InstrumentKey}
use quantstack_terminal.Feeds.Types.{
  Capabilities, Need, Support, supported, lacking, includes, supports, best_interval,
}

-- A registered feed, as the router sees it.
pub record Feed : Type 0 where
  pub id : FeedId
  pub capabilities : Capabilities

pub record Degradation : Type 0 where
  pub interval : Text
  pub reason : Text

pub record Provenance : Type 0 where
  pub feed : FeedId
  pub degraded : Option Degradation

-- The store of `withProvenance`.
pub record Trail : Type 0 where
  pub feeds : List FeedId
  pub degraded : Option Degradation

pub record RouterState : Type 0 where
  pub entries : Entries
  pub last_provenance : Option Provenance
  -- Absent outside `withProvenance`.
  pub trail : Option Trail

pub data Answer (V : Type 0) : Type 0 where
  answered : V → Answer V
  threw : Thrown → Answer V

pub data Outcome (V : Type 0) : Type 0 where
  returned : V → Outcome V
  raised : FeedError → Outcome V

pub record World (V : Type 0) : Type 0 where
  pub checked_at : FeedId → ℕ
  pub settled_at : FeedId → ℕ
  pub served : FeedId → Text → Answer V
  pub during : FeedId → RouterState → RouterState

abbrev pub error_of : FeedErrorCode → Text → FeedError
error_of code message = record {
  code = code;
  message = message;
  feed_id = codes "unknown";
  status = none;
}

abbrev pub code_text : FeedErrorCode → Text
code_text auth = codes "AUTH"
code_text rate_limit = codes "RATE_LIMIT"
code_text transient = codes "TRANSIENT"
code_text unsupported = codes "UNSUPPORTED"
code_text not_found = codes "NOT_FOUND"
code_text bad_request = codes "BAD_REQUEST"
code_text internal = codes "INTERNAL"

abbrev pub state_text : BreakerState → Text
state_text closed = codes "CLOSED"
state_text opened = codes "OPEN"
state_text half_open = codes "HALF_OPEN"

abbrev pub note : FeedId → Text → Text
note id reason = id ++ (codes ": " ++ reason)

-- The interval that a feed is asked for, with the tag if it is not the wanted one.
pub data Choice : Type 0 where
  unserved : Choice
  serving : Text → Option Degradation → Choice

abbrev pub degradation : FeedId → Text → Text → Degradation
degradation id usable wanted = record {
  interval = usable;
  reason =
      id ++ (codes " served " ++ (usable ++ (codes "; " ++ (wanted ++ codes " not available"))));
}

abbrev serve_best : FeedId → Text → Option Text → Choice
serve_best id wanted none = unserved
serve_best id wanted (some usable) =
    if text_beq usable wanted
    then serving wanted none
    else serving usable (some (degradation id usable wanted))

unfoldable pub choose_interval : Feed → Option Text → Choice
choose_interval f none = serving [] none
choose_interval f (some []) = serving [] none
choose_interval f (some (c ∷ wanted)) =
    serve_best f.id (c ∷ wanted) (best_interval f.capabilities (c ∷ wanted))

-- What the loop decides about a feed before it calls it.
pub data Decision : Type 0 where
  passed_over : Text → RouterState → Decision
  called : Text → Option Degradation → RouterState → Decision

abbrev pub final_fault : Text → Option FeedError → List Text → FeedError
final_fault label (some fe) skipped = fe
final_fault label none skipped =
    error_of unsupported
      (codes "No feed could serve " ++ (label ++ (codes " — " ++ join (codes " | ") skipped)))

abbrev pub record_trail : FeedId → Option Degradation → Option Trail → Option Trail
record_trail id degraded none = none
record_trail id degraded (some t) = some (record {
  feeds = if includes t.feeds id then t.feeds else t.feeds ++ id ∷ [];
  degraded = elim degraded [ none ↦ t.degraded | some d ↦ some d ];
})

module _ {V : Type 0} (cfg : Config) (w : World V) (need : Need) where
  -- `supports` without the interval.
  abbrev pub base_need : Need
  base_need = record need { interval = none }

  try_breaker : Feed → Text → Option Degradation → RouterState → Decision
  try_breaker f interval degraded s =
      let now = w.checked_at f.id in
      let (entries, granted) = can_attempt cfg now f.id s.entries in
      let s' = record s { entries = entries } in
      if granted
      then called interval degraded s'
      else passed_over (note f.id (codes "breaker " ++ state_text (state_of now f.id entries))) s'

  unfoldable pub consider : Feed → RouterState → Decision
  unfolding try_breaker
  consider f s = elim (supports (w.checked_at f.id) f.capabilities base_need) [
    | lacking reason ↦ passed_over (note f.id reason) s
    | supported ↦ elim (choose_interval f need.interval) [
      | unserved ↦
          passed_over
            (note f.id (codes "no interval for " ++ elim need.interval [ none ↦ [] | some i ↦ i ]))
            s
      | serving interval degraded ↦ try_breaker f interval degraded s
    ]
  ]

  unfoldable pub after_success : Feed → Option Degradation → RouterState → RouterState
  after_success f degraded s = record {
    entries = record_success cfg (w.settled_at f.id) f.id s.entries;
    last_provenance = some (record { feed = f.id; degraded = degraded });
    trail = record_trail f.id degraded s.trail;
  }

  unfoldable pub after_fault : Feed → FeedError → RouterState → RouterState
  after_fault f fe s = record s {
    entries =
        if counts_as_failure fe.code
        then record_failure cfg (w.settled_at f.id) f.id fe.message s.entries
        else record_success cfg (w.settled_at f.id) f.id s.entries;
  }

  module _ (label : Text) where
    -- The loop of `route`: the feeds left, the notes and the last fault so far.
    unfoldable pub walk :
        List Feed → List Text → Option FeedError → RouterState → RouterState × Outcome V
    walk [] skipped fault s = (s, raised (final_fault label fault skipped))
    walk (f ∷ fs) skipped fault s = elim (consider f s) [
      | passed_over reason s' ↦ walk fs (skipped ++ reason ∷ []) fault s'
      | called interval degraded s' ↦ elim (w.served f.id interval) [
        | answered v ↦ (after_success f degraded (w.during f.id s'), returned v)
        | threw err ↦ elim (should_failover (classify err f.id).code) [
          | true ↦
              walk fs (skipped ++ note f.id (code_text (classify err f.id).code) ∷ [])
                (some (classify err f.id)) (after_fault f (classify err f.id) (w.during f.id s'))
          | false ↦
              (after_fault f (classify err f.id) (w.during f.id s'), raised (classify err f.id))
        ]
      ]
    ]

    unfoldable pub route : List Feed → RouterState → RouterState × Outcome V
    route [] s = (s, raised (error_of internal (codes "No data feeds configured — set QT_FEEDS")))
    route (f ∷ fs) s = walk (f ∷ fs) [] none s

pub record ProvenanceReport : Type 0 where
  pub feeds : List FeedId
  pub mixed : Bool
  pub degraded : Option Degradation

-- The report of `withProvenance` on the store that the run left.
unfoldable pub report_of : Trail → ProvenanceReport
report_of t = record { feeds = t.feeds; mixed = ltb 1 (length t.feeds); degraded = t.degraded }

-- `[...new Set(xs)]`
unfoldable pub unique_onto : List Text → List Text → List Text
unique_onto seen [] = seen
unique_onto seen (x ∷ xs) = unique_onto (if includes seen x then seen else seen ++ x ∷ []) xs

abbrev pub flat_texts : (Capabilities → List Text) → List Feed → List Text
flat_texts of [] = []
flat_texts of (f ∷ fs) = of f.capabilities ++ flat_texts of fs

abbrev pub greatest : (Capabilities → ℕ) → ℕ → List Feed → ℕ
greatest of least [] = least
greatest of least (f ∷ fs) = max (of f.capabilities) (greatest of least fs)

-- `get capabilities()`: the union over the feeds.
unfoldable pub union_capabilities : List Feed → Capabilities
unfolding unique_onto
union_capabilities fs = record {
  exchanges = unique_onto [] (flat_texts (λ c. c.exchanges) fs);
  intervals = unique_onto [] (flat_texts (λ c. c.intervals) fs);
  history_days = greatest (λ c. c.history_days) 0 fs;
  option_chain = any (λ f. f.capabilities.option_chain) fs;
  greeks = any (λ f. f.capabilities.greeks) fs;
  live = any (λ f. f.capabilities.live) fs;
  max_symbols_per_request = greatest (λ c. c.max_symbols_per_request) 1 fs;
}

-- What each method of the router asks of a feed.
abbrev pub reference_need : Text → Need
reference_need exchange = record { exchange = exchange; interval = none; from = none; kind = none }

abbrev pub chain_need : Text → Need
chain_need exchange = record { exchange = exchange; interval = none; from = none; kind = some opt }

abbrev pub candles_need : InstrumentKey → Text → ℕ → Need
candles_need key interval from = record {
  exchange = key.exchange;
  interval = some interval;
  from = some from;
  kind = some key.kind;
}

abbrev pub series_need : InstrumentKey → Text → ℕ → Need
series_need first interval from = record {
  exchange = first.exchange;
  interval = some interval;
  from = some from;
  kind = some opt;
}

-- ===== src/Feeds/Breaker.antt =====
-- backend/feeds/breaker.ts: the circuit breaker that each feed has.
--
-- The module's map of entries is passed in and out. Each operation reads the clock once, as `now`,
-- where the source calls `Date.now()` up to twice in one synchronous run. A comparison of
-- `now - openedAt` is written as a sum, so that no difference is cut off at 0. The three environment
-- settings are the fields of `Config`, whole numbers of milliseconds and of faults. Log lines are
-- left out.
pub mod Invariant
pub mod Probe
pub mod Ladder
mod Tests
use quantstack_terminal.Common.{
  ℕ, ◌+◌, ◌-◌, ◌*◌, min, Bool, true, false, List, [], ◌∷◌, Option, none, some, Text, text_eq, ltb,
  leb, if◌then◌else◌, Assoc, get, put, remove,
}

abbrev pub FeedId : Type 0
FeedId = Text

pub data BreakerState : Type 0 where
  closed opened half_open : BreakerState

pub record Config : Type 0 where
  pub threshold : ℕ
  pub cooldown_ms : ℕ
  pub cooldown_max : ℕ

pub record Entry : Type 0 where
  pub state : BreakerState
  pub failures : ℕ
  pub cooldown : ℕ
  pub opened_at : ℕ
  pub last_error : Option Text
  pub probing : Bool
  pub trips : ℕ
  pub last_state_at : ℕ

abbrev pub Entries : Type 0
Entries = Assoc FeedId Entry

abbrev pub same_state : BreakerState → BreakerState → Bool
same_state closed closed = true
same_state opened opened = true
same_state half_open half_open = true
same_state _ _ = false

module _ (cfg : Config) where
  abbrev pub new_entry : ℕ → Entry
  new_entry now = record {
    state = closed;
    failures = 0;
    cooldown = cfg.cooldown_ms;
    opened_at = 0;
    last_error = none;
    probing = false;
    trips = 0;
    last_state_at = now;
  }

  -- `entryOf`; its insertion of a new entry is the write of the caller.
  unfoldable pub entry_of : ℕ → FeedId → Entries → Entry
  entry_of now id entries = elim (get id entries) [ none ↦ new_entry now | some e ↦ e ]

abbrev pub transition : ℕ → BreakerState → Entry → Entry
transition now to e =
    if same_state e.state to then e else record e { state = to; last_state_at = now }

-- `Date.now() - e.openedAt < e.cooldown`
abbrev pub is_cooling : ℕ → Entry → Bool
is_cooling now e = ltb now (e.opened_at + e.cooldown)

attempt_in : BreakerState → ℕ → Entry → Entry × Bool
attempt_in closed now e = (e, true)
attempt_in opened now e =
    if is_cooling now e
    then (e, false)
    else (record (transition now half_open e) { probing = true }, true)
attempt_in half_open now e = if e.probing then (e, false) else (record e { probing = true }, true)

-- The body of `canAttempt`, on the entry.
unfoldable pub attempt : ℕ → Entry → Entry × Bool
unfolding attempt_in
attempt now e = attempt_in e.state now e

module _ (cfg : Config) where
  -- The body of `recordSuccess`, on the entry.
  unfoldable pub succeed : ℕ → Entry → Entry
  succeed now e =
      transition now closed
        (record e { probing = false; failures = 0; last_error = none; cooldown = cfg.cooldown_ms })

  fail_in : BreakerState → ℕ → Entry → Entry
  fail_in half_open now e = transition now opened (record e {
    probing = false;
    cooldown = min (e.cooldown * 2) cfg.cooldown_max;
    opened_at = now;
    trips = e.trips + 1;
  })
  fail_in _ now e =
      let counted = record e { failures = e.failures + 1 } in
      if leb cfg.threshold counted.failures
      then transition now opened (record counted { opened_at = now; trips = e.trips + 1 })
      else counted

  -- The body of `recordFailure`, on the entry.
  unfoldable pub fail : ℕ → Text → Entry → Entry
  unfolding fail_in
  fail now reason e = fail_in e.state now (record e { last_error = some reason })

  unfoldable pub can_attempt : ℕ → FeedId → Entries → Entries × Bool
  can_attempt now id entries =
      let (e, granted) = attempt now (entry_of cfg now id entries) in (put id e entries, granted)

  unfoldable pub record_success : ℕ → FeedId → Entries → Entries
  record_success now id entries = put id (succeed now (entry_of cfg now id entries)) entries

  unfoldable pub record_failure : ℕ → FeedId → Text → Entries → Entries
  record_failure now id reason entries =
      put id (fail now reason (entry_of cfg now id entries)) entries

-- The state that a caller would get, of an entry that exists.
reported_in : BreakerState → ℕ → Entry → BreakerState
reported_in opened now e = if is_cooling now e then opened else half_open
reported_in s now e = s

unfoldable pub state_of : ℕ → FeedId → Entries → BreakerState
unfolding reported_in
state_of now id entries = elim (get id entries) [
  | none ↦ closed
  | some e ↦ reported_in e.state now e
]

pub record Status : Type 0 where
  pub state : BreakerState
  pub failures : ℕ
  pub trips : ℕ
  pub cooldown_ms : ℕ
  pub cooldown_left : ℕ
  pub last_error : Option Text
  pub since : ℕ

module _ (cfg : Config) where
  -- `status`, with the entry that it inserts. The difference is that of the source: `-` stops at 0,
  -- as `Math.max(0, …)` does.
  unfoldable pub status : ℕ → FeedId → Entries → Entries × Status
  status now id entries =
      let e = entry_of cfg now id entries in
      let entries' = put id e entries in
      (
        entries',
        record {
          state = state_of now id entries';
          failures = e.failures;
          trips = e.trips;
          cooldown_ms = e.cooldown;
          cooldown_left = if same_state e.state opened then (e.opened_at + e.cooldown) - now else 0;
          last_error = e.last_error;
          since = e.last_state_at;
        },
      )

unfoldable pub reset : FeedId → Entries → Entries
reset id entries = remove id entries

unfoldable pub reset_all : Entries → Entries
reset_all entries = []

-- The calls that the other modules make, each at its time.
pub data Call : Type 0 where
  attempted : ℕ → FeedId → Call
  succeeded : ℕ → FeedId → Call
  failed : ℕ → FeedId → Text → Call
  asked : ℕ → FeedId → Call
  cleared : FeedId → Call
  cleared_all : Call

module _ (cfg : Config) where
  unfoldable pub step : Call → Entries → Entries
  step (attempted now id) m = (can_attempt cfg now id m).0
  step (succeeded now id) m = record_success cfg now id m
  step (failed now id reason) m = record_failure cfg now id reason m
  step (asked now id) m = (status cfg now id m).0
  step (cleared id) m = reset id m
  step cleared_all m = reset_all m

  unfoldable pub run : List Call → Entries → Entries
  run [] m = m
  run (c ∷ cs) m = run cs (step c m)

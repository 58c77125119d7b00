-- ===== src/Feeds/LiveRouter.antt =====
-- backend/feeds/liveRouter.ts: one live feed for all consumers, and the moves between feeds.
--
-- The asynchronous methods are steps. A call of `reconcile` runs up to its `await`, `Event.settled`
-- continues it with what `ensureConnected` and `subscribe` came to, and `Event.flight_over` is its
-- `finally`. A consumer's handler is its handle; the flag `done` of a handle is that `subs` does not
-- hold it. A broker's socket is the number of the successful `subscribe` that opened it; `closing`
-- holds those whose `stop` waits for a timer. `Surroundings` is what the methods ask of the other
-- modules at a step. Handlers do not call the router back. Log lines and metrics are left out.
pub mod Selection
pub mod PinnedFeed
pub mod Chosen
pub mod Accounts
pub mod Sockets
pub mod Reconcile
pub mod Pinning
pub mod Ticks
pub mod Steps
mod Tests
use quantstack_terminal.Common.{
  ℕ, zero, suc, ◌+◌, ◌-◌, Bool, true, false, not, ◌&&◌, ◌||◌, List, [], ◌∷◌, ◌++◌, map, Option,
  none, some, Text, codes, text_beq, text_eq, ltb, leb, ◌==◌, if◌then◌else◌, any, all, filter, drop,
  length, join, show, Assoc, get, put, sort_texts,
}
use quantstack_terminal.Feeds.Breaker.{
  FeedId, BreakerState, closed, opened, half_open, Entries, state_of,
}
use quantstack_terminal.Feeds.Identity.{InstrumentKey, key_of, is_empty}
use quantstack_terminal.Feeds.Registry.{Registered, find_feed, feed_by_id}
use quantstack_terminal.Instruments.Symbol.{symbol_of, segment_of}

pub record Surroundings : Type 0 where
  pub now : ℕ
  pub overlap_ms : ℕ
  pub registered : List Registered
  pub entries : Entries
  -- Whether the adapter has a `subscribe` method.
  pub subscribes : FeedId → Bool
  -- Whether `instruments.has(broker)`, and whether `instruments.resolve(broker, symbol, segment)`.
  pub has_master : Text → Bool
  pub resolves : Text → Text → Text → Bool
  pub day_of : Text → Option Text

pub data SwitchReason : Type 0 where
  initial unhealthy no_coverage manual : SwitchReason

pub record SwitchEvent : Type 0 where
  pub from : Option FeedId
  pub to : FeedId
  pub reason : SwitchReason
  pub keys : ℕ
  pub happened_at : ℕ

pub record Subscription : Type 0 where
  pub handle : ℕ
  pub keys : List InstrumentKey

pub record Active : Type 0 where
  pub feed : FeedId
  pub broker : Text
  pub socket : ℕ

pub record Choice : Type 0 where
  pub feed : FeedId
  pub broker : Text

-- The local variables of `reconcileOnce` at its `await`.
pub record Pending : Type 0 where
  pub choice : Choice
  pub keys : List InstrumentKey
  pub same_feed : Bool
  pub signature : Text
  pub reason : SwitchReason

pub data Flight : Type 0 where
  idle : Flight
  waiting : Pending → Flight
  finishing : Flight

pub record Live : Type 0 where
  pub subs : List Subscription
  pub next_id : ℕ
  pub active : Option Active
  pub active_key_sig : Text
  pub parked : Assoc FeedId ℕ
  pub pinned : Option FeedId
  pub recent_ticks : Assoc Text ℕ
  pub switches : List SwitchEvent
  pub resubscribing : Flight
  pub next_socket : ℕ
  pub open_sockets : List ℕ
  pub closing : List ℕ

abbrev pub new_live : Live
new_live = record {
  subs = [];
  next_id = 1;
  active = none;
  active_key_sig = [];
  parked = [];
  pinned = none;
  recent_ticks = [];
  switches = [];
  resubscribing = idle;
  next_socket = 0;
  open_sockets = [];
  closing = [];
}

abbrev pub has_socket : Surroundings → Registered → Bool
has_socket s r = r.feed.capabilities.live && s.subscribes r.feed.id

unfoldable pub covers : Surroundings → Registered → List InstrumentKey → Bool
covers s r keys =
    if not (has_socket s r)
    then false
    else if not (s.has_master r.broker)
    then false
    else all (λ k. s.resolves r.broker (symbol_of s.day_of k) (segment_of k.exchange k.kind)) keys

abbrev pub put_keys : List InstrumentKey → Assoc Text InstrumentKey → Assoc Text InstrumentKey
put_keys [] seen = seen
put_keys (k ∷ ks) seen = put_keys ks (put (key_of k) k seen)

abbrev pub seen_keys : List Subscription → Assoc Text InstrumentKey → Assoc Text InstrumentKey
seen_keys [] seen = seen
seen_keys (sub ∷ subs) seen = seen_keys subs (put_keys sub.keys seen)

unfoldable pub wanted_keys : List Subscription → List InstrumentKey
wanted_keys subs = map (λ b. b.1) (seen_keys subs [])

abbrev pub is_opened : BreakerState → Bool
is_opened opened = true
is_opened _ = false

abbrev pub is_parked : ℕ → Option ℕ → Bool
is_parked now none = false
is_parked now (some until) = ltb now until

-- Whether the loop of `choose` skips a feed.
unfoldable pub is_skipped : Surroundings → Assoc FeedId ℕ → List InstrumentKey → Registered → Bool
is_skipped s parked keys r =
    is_opened (state_of s.now r.feed.id s.entries)
    || is_parked s.now (get r.feed.id parked)
    || not (covers s r keys)

abbrev pub choice_of : Registered → Choice
choice_of r = record { feed = r.feed.id; broker = r.broker }

unfoldable pub choose_from :
    Surroundings → Assoc FeedId ℕ → List InstrumentKey → List Registered → Option Choice
unfolding is_skipped
choose_from s parked keys [] = none
choose_from s parked keys (r ∷ rs) =
    if is_skipped s parked keys r then choose_from s parked keys rs else some (choice_of r)

-- The feed of the pin, if it has a socket.
unfoldable pub pinned_choice : Surroundings → Option FeedId → Option Choice
pinned_choice s none = none
pinned_choice s (some id) = if is_empty id then none else elim (find_feed id s.registered) [
  | none ↦ none
  | some r ↦ if has_socket s r then some (choice_of r) else none
]

abbrev pub or_choice : Option Choice → Option Choice → Option Choice
or_choice (some c) d = some c
or_choice none d = d

unfoldable pub choose : Surroundings → Live → List InstrumentKey → Option Choice
unfolding pinned_choice choose_from
choose s m keys = or_choice (pinned_choice s m.pinned) (choose_from s m.parked keys s.registered)

abbrev pub without : ℕ → List ℕ → List ℕ
without x xs = filter (λ y. not (y == x)) xs

abbrev pub teardown_from : Option Active → Live → Live
teardown_from none m = m
teardown_from (some a) m = record m {
  active = none;
  active_key_sig = [];
  recent_ticks = [];
  open_sockets = without a.socket m.open_sockets;
}

unfoldable pub teardown : Live → Live
teardown m = teardown_from m.active m

unfoldable pub signature_of : List InstrumentKey → Text
signature_of keys = join (b'|' ∷ []) (sort_texts (map key_of keys))

abbrev pub is_serving : FeedId → Option Active → Bool
is_serving id none = false
is_serving id (some a) = text_beq a.feed id

abbrev pub is_nil : List InstrumentKey → Bool
is_nil [] = true
is_nil (k ∷ ks) = false

abbrev pub finish : Live → Live
finish m = record m { resubscribing = finishing }

abbrev pub wait_for : List InstrumentKey → SwitchReason → Choice → Live → Live
wait_for keys reason c m =
    let same = is_serving c.feed m.active in
    if same && text_beq (signature_of keys) m.active_key_sig then finish m else record m {
      resubscribing = waiting (record {
        choice = c;
        keys = keys;
        same_feed = same;
        signature = signature_of keys;
        reason = reason;
      });
    }

-- `reconcileOnce` up to its `await`, or to its end if it comes before.
unfoldable pub begin : Surroundings → SwitchReason → Live → Live
unfolding wanted_keys choose teardown
begin s reason m =
    let keys = wanted_keys m.subs in
    if is_nil keys
    then finish (teardown m)
    else elim (choose s m keys) [ none ↦ finish (teardown m) | some c ↦ wait_for keys reason c m ]

abbrev pub is_busy : Flight → Bool
is_busy idle = false
is_busy _ = true

unfoldable pub reconcile : Surroundings → SwitchReason → Live → Live
reconcile s reason m = if is_busy m.resubscribing then m else begin s reason m

abbrev feed_of : Option Active → Option FeedId
feed_of none = none
feed_of (some a) = some a.feed

abbrev reason_after : Option Active → SwitchReason → SwitchReason
reason_after none reason = initial
reason_after (some a) reason = reason

abbrev pub sockets_of : Option Active → List ℕ
sockets_of none = []
sockets_of (some a) = a.socket ∷ []

-- `push`, then `shift` past fifty.
abbrev pub log_switch : SwitchEvent → List SwitchEvent → List SwitchEvent
log_switch e log = let log' = log ++ e ∷ [] in if ltb 50 (length log') then drop 1 log' else log'

-- The rest of `reconcileOnce` after a `subscribe` that succeeded.
unfoldable pub accept : ℕ → Pending → Live → Live
accept now p m = record m {
  active = some (record { feed = p.choice.feed; broker = p.choice.broker; socket = m.next_socket });
  active_key_sig = p.signature;
  next_socket = m.next_socket + 1;
  open_sockets = m.next_socket ∷ m.open_sockets;
  closing = sockets_of m.active ++ m.closing;
  switches =
      if p.same_feed
      then m.switches
      else log_switch
          (record {
            from = feed_of m.active;
            to = p.choice.feed;
            reason = reason_after m.active p.reason;
            keys = length p.keys;
            happened_at = now;
          })
          m.switches;
  resubscribing = finishing;
}

abbrev pub park_ms : ℕ
park_ms = 60000

-- Its `catch`: the feed is parked, and the next one is tried unless every feed is.
unfoldable pub give_way : Surroundings → Pending → Live → Live
give_way s p m =
    let m' = record m { parked = put p.choice.feed (s.now + park_ms) m.parked } in
    if leb (length s.registered) (length m'.parked) then finish m' else begin s unhealthy m'

pub data Attempt : Type 0 where
  carried broke : Attempt

abbrev pub settle_flight : Surroundings → Attempt → Flight → Live → Live
settle_flight s carried (waiting p) m = accept s.now p m
settle_flight s broke (waiting p) m = give_way s p m
settle_flight s attempt _ m = m

unfoldable pub settle : Surroundings → Attempt → Live → Live
settle s attempt m = settle_flight s attempt m.resubscribing m

-- ===== src/Feeds/LiveRouter/Steps.antt =====
-- backend/feeds/liveRouter.ts: the public methods of the router and what else happens to it, as steps.
use quantstack_terminal.Common.{
  ℕ, ◌+◌, ◌-◌, Bool, true, false, not, List, [], ◌∷◌, ◌++◌, map, Option, none, some, Text, text_beq,
  text_eq, ltb, ◌==◌, if◌then◌else◌, any, filter, drop, length, show, Assoc, get, put,
}
use quantstack_terminal.Feeds.Breaker.{FeedId}
use quantstack_terminal.Feeds.Identity.{InstrumentKey, key_of, is_empty}
use quantstack_terminal.Feeds.Registry.{feed_by_id}
use quantstack_terminal.Feeds.Router.{Feed}
use quantstack_terminal.Feeds.LiveRouter.{
  Surroundings, SwitchReason, initial, manual, SwitchEvent, Subscription, Active, Flight, idle,
  finishing, Live, wanted_keys, teardown, reconcile, park_ms, Attempt, settle, without,
}

unfoldable pub subscribe : Surroundings → List InstrumentKey → Live → Live
unfolding reconcile
subscribe s keys m = reconcile s initial (record m {
  subs = m.subs ++ record { handle = m.next_id; keys = keys } ∷ [];
  next_id = m.next_id + 1;
})

abbrev pub holds_handle : ℕ → List Subscription → Bool
holds_handle h subs = any (λ sub. sub.handle == h) subs

abbrev pub drop_handle : ℕ → List Subscription → List Subscription
drop_handle h subs = filter (λ sub. not (sub.handle == h)) subs

abbrev pub is_empty_list : List Subscription → Bool
is_empty_list [] = true
is_empty_list (sub ∷ subs) = false

-- The function that `subscribe` returned with the handle.
unfoldable pub unsubscribe : Surroundings → ℕ → Live → Live
unfolding reconcile teardown
unsubscribe s h m =
    if not (holds_handle h m.subs)
    then m
    else let m' = record m { subs = drop_handle h m.subs } in
      if is_empty_list m'.subs then teardown m' else reconcile s initial m'

abbrev pub if_known : Option Feed → Live → Option Live
if_known none m = none
if_known (some feed) m = some m

-- Nothing where `pin` throws.
unfoldable pub pin : Surroundings → Option FeedId → Live → Option Live
unfolding feed_by_id
pin s none m = some (reconcile s manual (record m { pinned = none; parked = [] }))
pin s (some id) m =
    let m' = record m { pinned = some id; parked = [] } in
    if is_empty id
    then some (reconcile s manual m')
    else if_known (feed_by_id s.registered id) (reconcile s manual m')

abbrev pub park_active : ℕ → Option Active → Assoc FeedId ℕ → Assoc FeedId ℕ
park_active until none parked = parked
park_active until (some a) parked = put a.feed until parked

unfoldable pub rotate : Surroundings → SwitchReason → Live → Live
unfolding reconcile
rotate s reason m =
    reconcile s reason (record m { parked = park_active (s.now + park_ms) m.active m.parked })

pub record Tick : Type 0 where
  pub key : InstrumentKey
  pub ts : ℕ

abbrev pub dedupe_key : Tick → Text
dedupe_key t = key_of t.key ++ (b'@' ∷ show t.ts)

abbrev pub is_seen : Option ℕ → Bool
is_seen none = false
is_seen (some at) = true

-- The sweep of the remembered ticks.
unfoldable pub forget_old : Surroundings → Assoc Text ℕ → Assoc Text ℕ
forget_old s recent =
    if ltb 4000 (length recent)
    then filter (λ b. not (ltb (s.overlap_ms + 2000) (s.now - b.1))) recent
    else recent

abbrev pub wants : Text → Subscription → Bool
wants id sub = any (λ k. text_beq (key_of k) id) sub.keys

-- The state after a tick, and the handles whose handlers it is given to, in order.
unfoldable pub dispatch : Surroundings → Tick → Live → Live × List ℕ
unfolding forget_old
dispatch s t m = if is_seen (get (dedupe_key t) m.recent_ticks) then (m, []) else (
  record m { recent_ticks = forget_old s (put (dedupe_key t) s.now m.recent_ticks) },
  map (λ sub. sub.handle) (filter (wants (key_of t.key)) m.subs),
)

abbrev pub land_from : Flight → Live → Live
land_from finishing m = record m { resubscribing = idle }
land_from _ m = m

-- The `finally` of `reconcile`.
unfoldable pub land : Live → Live
land m = land_from m.resubscribing m

-- The timer of a replaced socket.
unfoldable pub overlap_over : ℕ → Live → Live
overlap_over socket m =
    if any (λ x. x == socket) m.closing
    then record m {
      closing = without socket m.closing;
      open_sockets = without socket m.open_sockets;
    }
    else m

pub data Event : Type 0 where
  subscribed : List InstrumentKey → Event
  unsubscribed : ℕ → Event
  settled : Attempt → Event
  flight_over : Event
  timer_fired : ℕ → Event
  ticked : Tick → Event
  pinned_to : Option FeedId → Event
  rotated : SwitchReason → Event

abbrev pub or_same : Option Live → Live → Live
or_same none m = m
or_same (some m') m = m'

unfoldable pub step : Surroundings → Event → Live → Live
step s (subscribed keys) m = subscribe s keys m
step s (unsubscribed h) m = unsubscribe s h m
step s (settled attempt) m = settle s attempt m
step s flight_over m = land m
step s (timer_fired socket) m = overlap_over socket m
step s (ticked t) m = (dispatch s t m).0
step s (pinned_to id) m = or_same (pin s id m) m
step s (rotated reason) m = rotate s reason m

unfoldable pub run : List (Surroundings × Event) → Live → Live
run [] m = m
run ((s, e) ∷ es) m = run es (step s e m)

pub record LiveStatus : Type 0 where
  pub serving : Option FeedId
  pub broker : Option Text
  pub pinned : Option FeedId
  pub subscribers : ℕ
  pub contracts : ℕ
  pub parked : Assoc FeedId ℕ
  pub switches : List SwitchEvent

abbrev pub last_ten : List SwitchEvent → List SwitchEvent
last_ten xs = drop (length xs - 10) xs

abbrev pub serving_of : Option Active → Option FeedId
serving_of none = none
serving_of (some a) = some a.feed

abbrev broker_of : Option Active → Option Text
broker_of none = none
broker_of (some a) = some a.broker

unfoldable pub live_status : ℕ → Live → LiveStatus
unfolding wanted_keys
live_status now m = record {
  serving = serving_of m.active;
  broker = broker_of m.active;
  pinned = m.pinned;
  subscribers = length m.subs;
  contracts = length (wanted_keys m.subs);
  parked = filter (λ b. ltb now b.1) m.parked;
  switches = last_ten m.switches;
}

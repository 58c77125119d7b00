-- ===== src/Feeds/Angel/Stream.antt =====
-- backend/feeds/adapters/angel/stream.ts: the socket of Angel's live feed.
--
-- A WebSocket is the number of the `connect` that opened it. Each handler of a socket and of a timer is
-- a function from state to state, and so is each half of `reconnect` around its `await`: `in_flight`
-- counts the calls that wait for a login. `handler` says whether a consumer is attached. Instruments
-- are resolved by a parameter `row_of`: the token and the exchange of the row of a key. Log lines are
-- left out. The Boolean arguments of `ping` are the readiness of the socket and whether `send` returns.
pub mod Alive
pub mod Frame
mod Tests
use quantstack_terminal.Common.{
  ℕ, zero, suc, ◌+◌, ◌-◌, ◌*◌, ◌^◌, min, Bool, true, false, not, ◌&&◌, ◌||◌, List, [], ◌∷◌, ◌++◌,
  Option, none, some, Text, text_beq, ltb, leb, ◌==◌, if◌then◌else◌, length, take, Assoc, get, put,
  ℤ, Eq, ◌===◌, nat_eq,
}
use quantstack_terminal.Feeds.Identity.{InstrumentKey}
use quantstack_terminal.Feeds.Angel.Packet.{Quotes, ParsedTick, exchange_type, parse_packet}

abbrev pub max_tokens : ℕ
max_tokens = 990

abbrev pub reauth_after_retries : ℕ
reauth_after_retries = 2

abbrev pub min_reauth_gap_ms : ℕ
min_reauth_gap_ms = 60_000

pub record AngelSession : Type 0 where
  pub jwt_token : Text
  pub feed_token : Text

pub record Resolved : Type 0 where
  pub key : InstrumentKey
  pub token : Text
  pub ex_type : ℕ

-- What the code reads of the row that `instruments.resolve` finds.
pub record Row : Type 0 where
  pub token : Text
  pub brexchange : Text
  pub exchange : Text

pub record AngelStream : Type 0 where
  pub ws : Option ℕ
  pub sockets : ℕ
  pub resolved : List Resolved
  pub by_token : List Resolved
  pub handler : Bool
  pub ping_timer : Bool
  pub retry_timer : Option ℕ
  pub retries : ℕ
  pub closed : Bool
  pub last_reauth_at : ℕ
  pub in_flight : ℕ
  pub session : AngelSession
  pub can_refresh : Bool

abbrev pub new : AngelSession → Bool → AngelStream
new session can_refresh = record {
  ws = none;
  sockets = 0;
  resolved = [];
  by_token = [];
  handler = false;
  ping_timer = false;
  retry_timer = none;
  retries = 0;
  closed = false;
  last_reauth_at = 0;
  in_flight = 0;
  session = session;
  can_refresh = can_refresh;
}

-- `row.brexchange || row.exchange`
abbrev pub exchange_of : Row → Text
exchange_of row = if text_beq row.brexchange [] then row.exchange else row.brexchange

unfoldable pub resolve_keys : (InstrumentKey → Option Row) → List InstrumentKey → List Resolved
resolve_keys row_of [] = []
resolve_keys row_of (key ∷ keys) =
    let rest = resolve_keys row_of keys in
    elim (row_of key) [
      | none ↦ rest
      | some row ↦
          if text_beq row.token []
          then rest
          else record { key = key; token = row.token; ex_type = exchange_type (exchange_of row) }
            ∷ rest
    ]

unfoldable pub connect : AngelStream → AngelStream
connect s = if s.closed then s else record s { ws = some s.sockets; sockets = s.sockets + 1 }

-- The two errors that `open` throws.
pub data OpenError : Type 0 where
  no_feed_token carries_none : OpenError

unfoldable pub open_stream :
    (InstrumentKey → Option Row) → List InstrumentKey → AngelStream → AngelStream × Option OpenError
open_stream row_of keys s =
    let resolved = take max_tokens (resolve_keys row_of keys) in
    let s' = record s { handler = true; resolved = resolved; by_token = resolved } in
    if text_beq s.session.feed_token []
    then (s, some no_feed_token)
    else if length resolved == 0
    then (s', some carries_none)
    else (connect s', none)

-- `this.byToken.get(...)`: the last entry of a type and a token counts.
unfoldable pub key_of_token : ℕ → Text → List Resolved → Option InstrumentKey
key_of_token ex_type token [] = none
key_of_token ex_type token (r ∷ rs) = elim (key_of_token ex_type token rs) [
  | some key ↦ some key
  | none ↦ if (r.ex_type == ex_type) && text_beq r.token token then some r.key else none
]

unfoldable pub stop_ping : AngelStream → AngelStream
stop_ping s = record s { ping_timer = false }

unfoldable pub start_ping : AngelStream → AngelStream
start_ping s = record s { ping_timer = true }

unfoldable pub ping : Bool → Bool → AngelStream → AngelStream
ping ready sends s = elim s.ws [
  | none ↦ stop_ping s
  | some _ ↦ if not ready then stop_ping s else if sends then s else stop_ping s
]

-- `byType.get(...) ?? []`
abbrev pub or_nil : Option (List Text) → List Text
or_nil none = []
or_nil (some list) = list

-- The tokens of the subscribe frame, by exchange type in the order of their first contract.
unfoldable pub add_token : Resolved → Assoc ℕ (List Text) → Assoc ℕ (List Text)
add_token r by_type = put r.ex_type (or_nil (get r.ex_type by_type) ++ r.token ∷ []) by_type

unfoldable pub by_type : List Resolved → Assoc ℕ (List Text) → Assoc ℕ (List Text)
by_type [] acc = acc
by_type (r ∷ rs) acc = by_type rs (add_token r acc)

unfoldable pub send_subscribe : Bool → AngelStream → Option (Assoc ℕ (List Text))
send_subscribe ready s = elim s.ws [
  | none ↦ none
  | some _ ↦ if ready then some (by_type s.resolved []) else none
]

unfoldable pub on_open : AngelStream → AngelStream
on_open s = start_ping (record s { retries = 0 })

abbrev pub delay : ℕ → ℕ
delay retries = min (1_000 * 2 ^ retries) 15_000

unfoldable pub schedule_reconnect : AngelStream → AngelStream
schedule_reconnect s = elim s.retry_timer [
  | some _ ↦ s
  | none ↦
      if s.closed
      then s
      else record s { retry_timer = some (delay s.retries); retries = s.retries + 1 }
]

unfoldable pub down : ℕ → AngelStream → AngelStream
down socket s = elim s.ws [
  | none ↦ s
  | some current ↦
      if not (current == socket)
      then s
      else let s' = stop_ping (record s { ws = none }) in
        if s.closed then s' else schedule_reconnect s'
]

-- Whether `reconnect` logs in first.
abbrev pub is_due : ℕ → AngelStream → Bool
is_due now s =
    s.can_refresh
    && (leb reauth_after_retries s.retries && leb min_reauth_gap_ms (now - s.last_reauth_at))

-- `reconnect`, up to its `await`.
unfoldable pub reconnect : ℕ → AngelStream → AngelStream
reconnect now s =
    if s.closed
    then s
    else if is_due now s
    then record s { last_reauth_at = now; in_flight = s.in_flight + 1 }
    else connect s

-- The rest of `reconnect`, with the session of a login or none for one that failed.
unfoldable pub logged_in : Option AngelSession → AngelStream → AngelStream
logged_in result s =
    let waited = record s { in_flight = s.in_flight - 1 } in
    connect (elim result [ none ↦ waited | some session ↦ record waited { session = session } ])

-- The callback of the retry timer.
unfoldable pub retry_fired : ℕ → AngelStream → AngelStream
retry_fired now s = reconnect now (record s { retry_timer = none })

unfoldable pub close : AngelStream → AngelStream
close s = record s {
  closed = true;
  ping_timer = false;
  retry_timer = none;
  handler = false;
  ws = none;
}

module _ (q : Quotes) where
  open q use {Float}

  pub record Tick : Type 0 where
    pub key : InstrumentKey
    pub ts : Float
    pub ltp : Float
    pub bid : Option Float
    pub ask : Option Float

  abbrev pub tick_for : AngelStream → ParsedTick q → Option Tick
  tick_for s t = elim (key_of_token t.ex_type t.token s.by_token) [
    | none ↦ none
    | some key ↦
        if s.handler
        then some (record { key = key; ts = t.ts; ltp = t.ltp; bid = t.bid; ask = t.ask })
        else none
  ]

  -- The tick that a message hands to the consumer.
  unfoldable pub on_message : ℕ → Bool → List ℕ → AngelStream → Option Tick
  on_message now is_binary packet s =
      if not is_binary
      then none
      else elim (parse_packet q now packet) [ some (some t) ↦ tick_for s t | _ ↦ none ]

-- ===== src/Live/Quotes.antt =====
-- backend/live/wsQuotes.ts: one connection of the quote socket.
--
-- Prices are of a type `F`. A subscription of the live router is the number of its handle, and what a
-- handler asks of the router is a list of calls; `granted` is the handle that `subscribe` returns, or
-- none where it throws. `ready` is whether the socket is open. The keys of a subscribe message are
-- those that `toKey` makes of it, which is left out, as are log lines and metrics.
pub mod Merging
pub mod Handles
pub mod Carrying
mod Tests
use quantstack_terminal.Common.{
  ℕ, ◌+◌, ◌-◌, Bool, true, false, not, List, [], ◌∷◌, ◌++◌, map, Option, none, some, Text, text_eq,
  ltb, leb, ◌==◌, if◌then◌else◌, length, filter, Assoc, get, put,
}
use quantstack_terminal.Feeds.Identity.{InstrumentKey, is_empty}
use quantstack_terminal.Instruments.Symbol.{symbol_of}
use quantstack_terminal.Instruments.Store.{InstrumentStore, brokers_for}

abbrev pub ping_tolerance : ℕ
ping_tolerance = 2

-- A call of the live router.
pub data Call : Type 0 where
  subscribe_to : ℕ → List InstrumentKey → Call
  unsubscribe : ℕ → Call

-- `unsubscribe?.()`
abbrev pub let_go : Option ℕ → List Call
let_go none = []
let_go (some handle) = unsubscribe handle ∷ []

module _ (F : Type 0) where
  pub record Quote : Type 0 where
    pub symbol : Text
    pub ltp : Option F
    pub bid : Option F
    pub ask : Option F
    pub iv : Option F
    pub ts : ℕ

  pub record Tick : Type 0 where
    pub key : InstrumentKey
    pub ltp : Option F
    pub bid : Option F
    pub ask : Option F
    pub iv : Option F
    pub ts : ℕ

  pub data Frame : Type 0 where
    quotes_of : List Quote → Frame
    carrying : ℕ → Frame
    not_carrying : ℕ → Frame
    failed : Frame

  pub record Connection : Type 0 where
    pub missed_pings : ℕ
    pub subscription : Option ℕ
    pub pending : Assoc Text Quote
    pub flush_timer : Bool
    pub heartbeat : Bool

  abbrev pub new : Connection
  new = record {
    missed_pings = 0;
    subscription = none;
    pending = [];
    flush_timer = false;
    heartbeat = true;
  }

  -- The connection after a handler, the frames that it sends and the calls that it makes.
  pub record Result : Type 0 where
    pub connection : Connection
    pub sent : List Frame
    pub calls : List Call

  abbrev pub send : Bool → Frame → List Frame
  send ready frame = if ready then frame ∷ [] else []

  unfoldable pub flush : Bool → Connection → Result
  flush ready c =
      let rested = record c { flush_timer = false } in
      if length c.pending == 0
      then record { connection = rested; sent = []; calls = [] }
      else record {
        connection = record rested { pending = [] };
        sent = send ready (quotes_of (map (λ b. b.1) c.pending));
        calls = [];
      }

  -- `a ?? b`
  abbrev pub or_else : Option F → Option F → Option F
  or_else none b = b
  or_else (some a) b = some a

  abbrev pub merged : Text → Tick → Option Quote → Quote
  merged symbol t none = record {
    symbol = symbol;
    ltp = t.ltp;
    bid = t.bid;
    ask = t.ask;
    iv = t.iv;
    ts = t.ts;
  }
  merged symbol t (some prev) = record {
    symbol = symbol;
    ltp = or_else t.ltp prev.ltp;
    bid = or_else t.bid prev.bid;
    ask = or_else t.ask prev.ask;
    iv = or_else t.iv prev.iv;
    ts = t.ts;
  }

  unfoldable pub on_tick : (Text → Option Text) → Tick → Connection → Connection
  on_tick parse_date t c =
      let symbol = symbol_of parse_date t.key in
      if is_empty symbol then c else record c {
        pending = put symbol (merged symbol t (get symbol c.pending)) c.pending;
        flush_timer = true;
      }

  abbrev pub after_subscribe :
      Bool → ℕ → List InstrumentKey → Option ℕ → List Call → Connection → Result
  after_subscribe ready dropped keys none calls c = record {
    connection = c;
    sent = send ready failed;
    calls = calls;
  }
  after_subscribe ready dropped keys (some handle) calls c = record {
    connection = record c { subscription = some handle };
    sent = send ready (carrying dropped);
    calls = calls ++ subscribe_to handle keys ∷ [];
  }

  -- The contracts that some master carries.
  abbrev pub carried :
      (Text → Option Text) → InstrumentStore → List InstrumentKey → List InstrumentKey
  carried parse_date store requested =
      filter (λ k. ltb 0 (length (brokers_for parse_date k store))) requested

  unfoldable pub resubscribe :
      (Text → Option Text)
      → InstrumentStore
      → Bool
      → Option ℕ
      → List InstrumentKey
      → Connection
      → Result
  resubscribe parse_date store ready granted requested c =
      let cleared = record c { subscription = none; pending = [] } in
      let keys = carried parse_date store requested in
      let dropped = length requested - length keys in
      if length keys == 0
      then record {
        connection = cleared;
        sent = send ready (not_carrying dropped);
        calls = let_go c.subscription;
      }
      else after_subscribe ready dropped keys granted (let_go c.subscription) cleared

  -- The heartbeat: the connection, and whether the socket is terminated.
  unfoldable pub heartbeat : Connection → Connection × Bool
  heartbeat c =
      if ltb ping_tolerance c.missed_pings
      then (c, true)
      else (record c { missed_pings = c.missed_pings + 1 }, false)

  unfoldable pub on_pong : Connection → Connection
  on_pong c = record c { missed_pings = 0 }

  unfoldable pub on_close : Connection → Result
  on_close c = record {
    connection = record c { heartbeat = false; flush_timer = false; subscription = none };
    sent = [];
    calls = let_go c.subscription;
  }

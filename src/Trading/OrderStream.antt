-- ===== src/Trading/OrderStream.antt =====
-- backend/trading/orderStream/angel.ts: Angel's order updates, their frames and their socket.
--
-- A frame is what its JSON says, and `none` where it is no JSON; of an order its contract, prices and
-- times are left out. `toNumber` is the parameter `to_number`, for whole shares. A WebSocket is the
-- number of the `connect` that opened it, and each handler is a function from state to state; the
-- status that a handler reports to the consumer is left out, as are log lines. `in_flight` counts the
-- calls of `reconnect` that wait for `ensureConnected`.
pub mod Meanings
pub mod Frames
pub mod Alive
mod Tests
use quantstack_terminal.Common.{
  ℕ, ◌+◌, ◌-◌, ◌*◌, ◌^◌, min, Bool, true, false, not, ◌&&◌, ◌||◌, List, [], ◌∷◌, Option, none, some,
  Text, text_eq, text_beq, codes, leb, ◌==◌, if◌then◌else◌, upper, trim, Assoc, get,
}
use quantstack_terminal.Feeds.Identity.{or_empty, is_empty}
use quantstack_terminal.Trading.Types.{
  Side, OrderStatus, OrderKind, Product, pending, open_, partial_, complete, cancelled, rejected,
  trigger_pending, to_side, to_status, to_kind, to_product, or_default,
}

abbrev pub status_codes : Assoc Text OrderStatus
status_codes =
    (codes "AB01", open_)
    ∷ (codes "AB02", cancelled)
    ∷ (codes "AB03", rejected)
    ∷ (codes "AB04", open_)
    ∷ (codes "AB05", complete)
    ∷ (codes "AB06", open_)
    ∷ (codes "AB07", cancelled)
    ∷ (codes "AB08", open_)
    ∷ (codes "AB09", open_)
    ∷ (codes "AB10", trigger_pending)
    ∷ (codes "AB11", open_)
    ∷ []

abbrev pub ack_code : Text
ack_code = codes "AB00"

abbrev pub str : Option Text → Text
str v = trim (or_empty v)

pub record OrderData : Type 0 where
  pub orderid : Option Text
  pub exchorderid : Option Text
  pub uniqueorderid : Option Text
  pub orderstatus : Option Text
  pub status : Option Text
  pub filledshares : Option Text
  pub unfilledshares : Option Text
  pub quantity : Option Text
  pub transactiontype : Option Text
  pub ordertype : Option Text
  pub producttype : Option Text
  pub text : Option Text

pub record Frame : Type 0 where
  pub order_status : Option Text
  pub order_data : OrderData

pub record Order : Type 0 where
  pub id : Text
  pub exchange_id : Text
  pub side : Side
  pub status : OrderStatus
  pub kind : OrderKind
  pub product : Product
  pub quantity : ℕ
  pub filled : ℕ
  pub pending : ℕ
  pub message : Text

-- `a ?? b`, and `s || t`
abbrev pub or_other : Option Text → Option Text → Option Text
or_other none b = b
or_other (some a) b = some a

abbrev pub or_text : Text → Text → Text
or_text s t = if is_empty s then t else s

unfoldable pub status_of : Frame → OrderStatus
status_of f =
    let code = upper (str f.order_status) in
    let from_text = to_status (or_other f.order_data.orderstatus f.order_data.status) in
    if text_beq code ack_code then from_text else or_default (get code status_codes) from_text

unfoldable pub quantity_of : (Option Text → ℕ) → OrderData → ℕ
quantity_of to_number d =
    if to_number d.quantity == 0
    then to_number d.filledshares + to_number d.unfilledshares
    else to_number d.quantity

unfoldable pub normalize_order_frame : (Option Text → ℕ) → Option Frame → Option Order
normalize_order_frame to_number none = none
normalize_order_frame to_number (some f) =
    let d = f.order_data in
    if is_empty (str d.orderid)
    then none
    else some (record {
      id = str d.orderid;
      exchange_id = or_text (str d.exchorderid) (str d.uniqueorderid);
      side = to_side d.transactiontype;
      status = status_of f;
      kind = to_kind d.ordertype;
      product = to_product d.producttype;
      quantity = quantity_of to_number d;
      filled = to_number d.filledshares;
      pending = quantity_of to_number d - to_number d.filledshares;
      message = str d.text;
    })

pub data Reason : Type 0 where
  cap auth transport : Reason

pub record StreamFault : Type 0 where
  pub reason : Reason
  pub retry : Bool

unfoldable pub classify_status : ℕ → StreamFault
classify_status http =
    if http == 429
    then record { reason = cap; retry = false }
    else if http == 401 || http == 403
    then record { reason = auth; retry = true }
    else record { reason = transport; retry = true }

pub record OrderStream : Type 0 where
  pub ws : Option ℕ
  pub sockets : ℕ
  pub ping_timer : Bool
  pub retry_timer : Option ℕ
  pub retries : ℕ
  pub last_reauth_at : ℕ
  pub in_flight : ℕ
  pub closed : Bool
  pub handlers : Bool

abbrev pub new : OrderStream
new = record {
  ws = none;
  sockets = 0;
  ping_timer = false;
  retry_timer = none;
  retries = 0;
  last_reauth_at = 0;
  in_flight = 0;
  closed = false;
  handlers = false;
}

abbrev pub delay : ℕ → ℕ
delay retries = min (1_000 * 2 ^ retries) 30_000

unfoldable pub schedule_reconnect : OrderStream → OrderStream
schedule_reconnect s = elim s.retry_timer [
  | some _ ↦ s
  | none ↦
      if s.closed
      then s
      else record s { retry_timer = some (delay s.retries); retries = s.retries + 1 }
]

-- `signed_in` is whether `requireSession` returns.
unfoldable pub connect : Bool → OrderStream → OrderStream
connect signed_in s =
    if s.closed
    then s
    else if not signed_in
    then schedule_reconnect s
    else record s { ws = some s.sockets; sockets = s.sockets + 1 }

unfoldable pub open_stream : Bool → OrderStream → OrderStream
open_stream signed_in s = connect signed_in (record s { handlers = true; closed = false })

unfoldable pub on_open : OrderStream → OrderStream
on_open s = record s { retries = 0; ping_timer = true }

-- `down` of the stream, and the handler of a socket's close or error, which asks for the socket first.
unfoldable pub down : OrderStream → OrderStream
down s =
    let s' = record s { ws = none; ping_timer = false } in
    if s.closed then s' else schedule_reconnect s'

unfoldable pub socket_down : ℕ → OrderStream → OrderStream
socket_down socket s = elim s.ws [
  | none ↦ s
  | some current ↦ if current == socket then down s else s
]

unfoldable pub teardown_socket : OrderStream → OrderStream
teardown_socket s = record s { ws = none; ping_timer = false }

-- The handler of `unexpected-response`.
abbrev pub after_auth : Reason → OrderStream → OrderStream
after_auth auth s = record s { last_reauth_at = 0 }
after_auth _ s = s

unfoldable pub refused : ℕ → OrderStream → OrderStream
refused http s =
    let fault = classify_status http in
    if not fault.retry
    then teardown_socket (record s { closed = true })
    else down (after_auth fault.reason s)

abbrev pub is_due : ℕ → OrderStream → Bool
is_due now s = leb 2 s.retries && leb 60_000 (now - s.last_reauth_at)

-- `reconnect` up to its `await`, from the retry timer's callback.
unfoldable pub retry_fired : ℕ → Bool → OrderStream → OrderStream
retry_fired now signed_in s =
    let s' = record s { retry_timer = none } in
    if s.closed
    then s'
    else if is_due now s'
    then record s' { last_reauth_at = now; in_flight = s.in_flight + 1 }
    else connect signed_in s'

-- The rest of `reconnect`.
unfoldable pub connected : Bool → OrderStream → OrderStream
connected signed_in s = connect signed_in (record s { in_flight = s.in_flight - 1 })

unfoldable pub ping : Bool → Bool → OrderStream → OrderStream
ping ready sends s = elim s.ws [
  | none ↦ record s { ping_timer = false }
  | some _ ↦ if ready && sends then s else record s { ping_timer = false }
]

unfoldable pub close : OrderStream → OrderStream
close s = teardown_socket (record s { closed = true; retry_timer = none; handlers = false })

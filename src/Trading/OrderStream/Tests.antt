-- ===== src/Trading/OrderStream/Tests.antt =====
-- Frames and runs of the order stream.
use quantstack_terminal.Common.{
  ℕ, ◌≡◌, refl, true, [], none, some, Option, Text, text_eq, codes, get, upper, lower, trim,
  trim_start, read, read_from, inl,
}
use quantstack_terminal.Feeds.Identity.{or_empty}
use quantstack_terminal.Trading.Types.{
  sell, complete, limit, carryforward, to_side, to_status, to_kind, to_product, unknown,
}
use quantstack_terminal.Trading.OrderStream.{
  OrderStream, Frame, normalize_order_frame, status_of, quantity_of, new, open_stream, connect,
  down, socket_down, refused, retry_fired, connected, close, schedule_reconnect, classify_status,
  teardown_socket,
}
use quantstack_terminal.Trading.OrderStream.Alive.{
  start, then_, was_refused, IsAlive, Reached-IsAlive,
}
use quantstack_terminal.Trading.OrderStream.Frames.{
  Retried, IsReadingOf, normalize-IsOrderOf, refused-waits,
}

abbrev shares : Option Text → ℕ
shares v = read (or_empty v)

abbrev filled_frame : Frame
filled_frame = record {
  order_status = some (codes "ab05");
  order_data = record {
    orderid = some (codes " 77 ");
    exchorderid = none;
    uniqueorderid = some (codes "u1");
    orderstatus = some (codes "open");
    status = none;
    filledshares = some (codes "25");
    unfilledshares = some (codes "50");
    quantity = none;
    transactiontype = some (codes "sell");
    ordertype = some (codes "LIMIT");
    producttype = some (codes "NRML");
    text = none;
  };
}

frame_reads :
    normalize_order_frame shares (some filled_frame)
    ≡ some (record {
      id = codes "77";
      exchange_id = codes "u1";
      side = sell;
      status = complete;
      kind = limit;
      product = carryforward;
      quantity = 75;
      filled = 25;
      pending = 50;
      message = [];
    })
unfolding normalize_order_frame status_of quantity_of to_side to_status to_kind to_product get upper
    lower trim trim_start read read_from
frame_reads = refl

strange_word : to_status (some (codes "lapsed")) ≡ unknown
unfolding to_status get lower trim trim_start
strange_word = refl

abbrev started : OrderStream
started = open_stream true new

-- A stream that is closed and opened again while a login is under way ends with two sockets.
abbrev reopened : OrderStream
reopened =
    let waiting =
      retry_fired 90_000 true (socket_down 1 (retry_fired 1_000 true (socket_down 0 started))) in
    open_stream true (close waiting)

still_waiting : reopened.in_flight ≡ 1
unfolding open_stream connect retry_fired socket_down down schedule_reconnect close teardown_socket
still_waiting = refl

reopened_socket : reopened.ws ≡ some 2
unfolding open_stream connect retry_fired socket_down down schedule_reconnect close teardown_socket
reopened_socket = refl

second_socket : (connected true reopened).ws ≡ some 3
unfolding open_stream connect retry_fired socket_down down schedule_reconnect close teardown_socket
    connected
second_socket = refl

capped : (refused 429 started).closed ≡ true
unfolding open_stream connect refused classify_status teardown_socket
capped = refl

normalize-IsOrderOf_example :
    IsReadingOf shares (some filled_frame) (normalize_order_frame shares (some filled_frame))
normalize-IsOrderOf_example = normalize-IsOrderOf shares (some filled_frame)

refused-waits_example :
    ((refused 401 started).retry_timer ≡ some 1_000)
    × Retried true started (retry_fired 5_000 true (refused 401 started))
unfolding open_stream connect
refused-waits_example = refused-waits started 0 5_000 401 true (start true) refl refl (inl refl)

Reached-IsAlive_example : IsAlive (refused 500 started)
unfolding open_stream connect
Reached-IsAlive_example =
    Reached-IsAlive (refused 500 started) (then_ (start true) (was_refused {n = 0} 500 refl))

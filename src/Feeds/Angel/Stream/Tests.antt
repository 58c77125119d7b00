-- ===== src/Feeds/Angel/Stream/Tests.antt =====
-- A stream that opens, loses its socket, logs in again and is closed.
use quantstack_terminal.Common.{
  ◌≡◌, nat_eq, refl, get, put, true, [], ◌∷◌, none, some, Option, codes,
}
use quantstack_terminal.Feeds.Identity.{InstrumentKey, spot}
use quantstack_terminal.Feeds.Angel.Packet.{exchange_type}
use quantstack_terminal.Feeds.Angel.Stream.{
  AngelStream, AngelSession, Row, new, connect, open_stream, on_open, down, reconnect, logged_in,
  retry_fired, close, schedule_reconnect, start_ping, stop_ping, resolve_keys, by_type, add_token,
  send_subscribe, no_feed_token, carries_none,
}
use quantstack_terminal.Feeds.Angel.Stream.Alive.{
  start, then_, opened, went_down, fired, login_over, closed_by, IsAlive, reached-IsAlive,
}
use quantstack_terminal.Common.{upper}

abbrev nifty : InstrumentKey
nifty = record {
  exchange = codes "NSE";
  asset = codes "NIFTY";
  kind = spot;
  expiry = none;
  strike = none;
  side = none;
}

abbrev carried : InstrumentKey → Option Row
carried key = some (record { token = codes "35001"; brexchange = []; exchange = codes "nfo" })

abbrev signed_in : AngelSession
signed_in = record { jwt_token = codes "j"; feed_token = codes "f" }

abbrev fresh : AngelStream
fresh = (open_stream carried (nifty ∷ []) (new signed_in true)).0

abbrev lost : AngelStream
lost = down 0 (on_open fresh)

fresh_opens : open_stream carried (nifty ∷ []) (new signed_in true) ≡ (fresh, none)
unfolding open_stream resolve_keys connect
fresh_opens = refl

retry_waits : lost.retry_timer ≡ some 1_000
unfolding open_stream resolve_keys connect on_open start_ping stop_ping down schedule_reconnect
retry_waits = refl

subscribes_by_type : send_subscribe true fresh ≡ some ((2, codes "35001" ∷ []) ∷ [])
unfolding open_stream resolve_keys connect send_subscribe by_type add_token exchange_type upper get
    put
subscribes_by_type = refl

refused_without_token :
    (open_stream carried (nifty ∷ []) (new (record { jwt_token = []; feed_token = [] }) true)).1
    ≡ some no_feed_token
unfolding open_stream
refused_without_token = refl

refused_without_contract :
    (open_stream (λ key. none) (nifty ∷ []) (new signed_in true)).1 ≡ some carries_none
unfolding open_stream resolve_keys
refused_without_contract = refl

-- One retry, then one more with a login, since 60 seconds have passed.
abbrev relogged : AngelStream
relogged = retry_fired 100_000 (down 1 (retry_fired 1_000 lost))

relogged_waits : relogged.in_flight ≡ 1
unfolding open_stream resolve_keys connect on_open start_ping stop_ping down schedule_reconnect
    retry_fired reconnect
relogged_waits = refl

reached-IsAlive_example : IsAlive (close (logged_in none relogged))
unfolding open_stream resolve_keys connect on_open start_ping stop_ping down schedule_reconnect
    retry_fired reconnect
reached-IsAlive_example = reached-IsAlive carried (close (logged_in none relogged)) (
    then_
      (then_
        (then_
          (then_
            (then_
              (then_ (then_ (start signed_in true (nifty ∷ []) refl) (opened {n = 0} refl))
                (went_down 0))
              (fired {d = 1_000} 1_000 refl))
            (went_down 1))
          (fired {d = 2_000} 100_000 refl))
        (login_over {n = 0} none refl))
      closed_by)

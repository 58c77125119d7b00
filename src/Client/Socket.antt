-- ===== src/Client/Socket.antt =====
-- src/lib/socket.ts: the reconnecting WebSocket of the front end.
--
-- A WebSocket is its place in the list of the sockets made so far, and the list holds their ready
-- states, which the browser owns. A subscription is a function of the world in which it is sent, one
-- that ignores the world for a fixed payload; its `none` is a null payload. Listeners are left out.
pub mod Runs
mod Tests
use quantstack_terminal.Common.{
  ℕ, ◌+◌, ◌-◌, min, Bool, true, false, not, ◌&&◌, ◌||◌, List, [], ◌∷◌, ◌++◌, Option, none, some,
  if◌then◌else◌, length, get_elem?, get_or, set,
}

pub data Ready : Type 0 where
  connecting ready closing gone : Ready

pub data SocketState : Type 0 where
  is_connecting is_open is_closed : SocketState

abbrev pub backoff : List ℕ
backoff = 500 ∷ 1_000 ∷ 2_000 ∷ 4_000 ∷ 8_000 ∷ 8_000 ∷ []

-- `readyState === OPEN || readyState === CONNECTING`
abbrev pub is_usable : Option Ready → Bool
is_usable (some connecting) = true
is_usable (some ready) = true
is_usable _ = false

abbrev pub is_ready : Option Ready → Bool
is_ready (some ready) = true
is_ready _ = false

module _ (World Payload : Type 0) where
  pub record LiveSocket : Type 0 where
    pub ws : Option ℕ
    pub sockets : List Ready
    pub attempt : ℕ
    pub ping_timer : Bool
    pub retry_timer : Option ℕ
    pub closed_by_us : Bool
    pub state : SocketState
    pub subscription : Option (World → Option Payload)

  abbrev pub new : LiveSocket
  new = record {
    ws = none;
    sockets = [];
    attempt = 0;
    ping_timer = false;
    retry_timer = none;
    closed_by_us = false;
    state = is_closed;
    subscription = none;
  }

  -- The ready state of the current socket.
  abbrev pub current : LiveSocket → Option Ready
  current s = elim s.ws [ none ↦ none | some n ↦ get_elem? s.sockets n ]

  unfoldable pub schedule_retry : LiveSocket → LiveSocket
  schedule_retry s = elim s.retry_timer [
    | some _ ↦ s
    | none ↦ record s {
      retry_timer = some (get_or backoff (min s.attempt (length backoff - 1)) 0);
      attempt = s.attempt + 1;
    }
  ]

  -- `made` is false where `new WebSocket` throws.
  unfoldable pub connect : Bool → LiveSocket → LiveSocket
  connect made s =
      if is_usable (current s)
      then s
      else let s' = record s { closed_by_us = false; state = is_connecting } in
        if not made
        then schedule_retry s'
        else record s' { ws = some (length s.sockets); sockets = s.sockets ++ connecting ∷ [] }

  -- `send`: what the current socket sends, if it is open.
  unfoldable pub send : Payload → LiveSocket → Option Payload
  send payload s = if is_ready (current s) then some payload else none

  unfoldable pub send_subscription : World → LiveSocket → Option Payload
  send_subscription world s = elim s.subscription [
    | none ↦ none
    | some make ↦ elim (make world) [ none ↦ none | some payload ↦ send payload s ]
  ]

  unfoldable pub subscribe :
      World → (World → Option Payload) → LiveSocket → LiveSocket × Option Payload
  subscribe world make s =
      let s' = record s { subscription = some make } in (s', send_subscription world s')

  -- The browser has opened socket `n`, and `onopen` runs.
  unfoldable pub on_open : World → ℕ → LiveSocket → LiveSocket × Option Payload
  on_open world n s =
      let opened = record s { sockets = set s.sockets n ready; attempt = 0; state = is_open } in
      (record opened { ping_timer = true }, send_subscription world opened)

  -- Socket `n` has closed, and `onclose` runs.
  unfoldable pub on_close : ℕ → LiveSocket → LiveSocket
  on_close n s =
      let s' = record s {
        sockets = set s.sockets n gone;
        ping_timer = false;
        ws = none;
        state = is_closed;
      } in
      if s.closed_by_us then s' else schedule_retry s'

  unfoldable pub retry_fired : Bool → LiveSocket → LiveSocket
  retry_fired made s = connect made (record s { retry_timer = none })

  abbrev pub close_current : LiveSocket → List Ready
  close_current s = elim s.ws [ none ↦ s.sockets | some n ↦ set s.sockets n closing ]

  unfoldable pub close : LiveSocket → LiveSocket
  close s = record s {
    closed_by_us = true;
    ping_timer = false;
    retry_timer = none;
    sockets = close_current s;
    ws = none;
    state = is_closed;
  }

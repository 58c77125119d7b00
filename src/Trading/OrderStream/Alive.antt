-- ===== src/Trading/OrderStream/Alive.antt =====
-- The order stream always has a way back until it is closed or refused for good.
use quantstack_terminal.Common.{
  ℕ, zero, suc, ◌+◌, ◌-◌, ◌^◌, ◌≤◌, ◌≡◌, refl, ◌∙◌, Bool, true, false, not, Option, Option-cases,
  Bool-cases, inl, inr, none, some, ◌==◌, arith, if◌then◌else◌, by_if,
}
use quantstack_terminal.Feeds.Angel.Stream.Alive.{count}
use quantstack_terminal.Trading.OrderStream.{
  OrderStream, Reason, cap, auth, transport, new, delay, schedule_reconnect, connect, open_stream,
  on_open, down, socket_down, teardown_socket, refused, after_auth, classify_status, is_due,
  retry_fired, connected, ping, close,
}

-- One event of an opened stream. A socket raises `open` or a refusal of its handshake while it is the
-- current one.
pub data Step : OrderStream → OrderStream → Type 0 where
  opened : {s : OrderStream} {n : ℕ} → s.ws ≡ some n → Step s (on_open s)
  pinged : {s : OrderStream} (ready sends : Bool) → Step s (ping ready sends s)
  went_down : {s : OrderStream} (socket : ℕ) → Step s (socket_down socket s)
  was_refused : {s : OrderStream} {n : ℕ} (http : ℕ) → s.ws ≡ some n → Step s (refused http s)
  fired :
      {s : OrderStream} {d : ℕ} (now : ℕ) (signed_in : Bool)
      → s.retry_timer ≡ some d
      → Step s (retry_fired now signed_in s)
  login_over :
      {s : OrderStream} {n : ℕ} (signed_in : Bool)
      → s.in_flight ≡ suc n
      → Step s (connected signed_in s)
  closed_by : {s : OrderStream} → Step s (close s)

pub data Reached : OrderStream → Type 0 where
  start : (signed_in : Bool) → Reached (open_stream signed_in new)
  then_ : {s s' : OrderStream} → Reached s → Step s s' → Reached s'

abbrev Idle : OrderStream → Type 0
Idle s = count s.ws + count s.retry_timer + s.in_flight ≡ 0

pub record IsAlive (s : OrderStream) : Type 0 where
  pub alive : s.closed ≡ false → count s.ws + count s.retry_timer + s.in_flight ≡ 1
  pub dead : s.closed ≡ true → (s.ws ≡ none) × (s.retry_timer ≡ none) × (s.ping_timer ≡ false)
  pub pinging : s.ping_timer ≡ true → count s.ws ≡ 1
  pub waits : (d : ℕ) → s.retry_timer ≡ some d → (1_000 ≤ d) × (d ≤ 30_000)

pow_pos : (n : ℕ) → 1 ≤ 2 ^ n
pow_pos zero = omega arith
pow_pos (suc n) = let ih = pow_pos n in grind arith

delay_bounds : (n : ℕ) → (1_000 ≤ delay n) × (delay n ≤ 30_000)
delay_bounds n = let h = pow_pos n in ground arith

schedule-IsAlive :
    (s : OrderStream)
    → Idle s
    → s.ping_timer ≡ false
    → s.closed ≡ false
    → IsAlive (schedule_reconnect s)
unfolding schedule_reconnect
schedule-IsAlive s idle quiet active = elim (Option-cases s.retry_timer) [
  | inr (d, some_) ↦ absurd (ground arith)
  | inl none_ ↦
      rw (none_, active)
        (record {
          alive = λ _. ground arith;
          dead = λ h. absurd (cc);
          pinging = λ h. absurd (cc);
          waits = λ d h. let w = delay_bounds s.retries in ground arith;
        })
]

connect-IsAlive :
    (signed_in : Bool) (s : OrderStream)
    → (s.closed ≡ false → Idle s)
    → s.ping_timer ≡ false
    → (s.closed ≡ true → (s.ws ≡ none) × (s.retry_timer ≡ none) × (s.ping_timer ≡ false))
    → IsAlive (connect signed_in s)
unfolding connect
connect-IsAlive signed_in s idle quiet dead =
    by_if IsAlive s.closed
      (λ shut. record {
        alive = λ h. absurd (cc);
        dead = dead;
        pinging = λ h. absurd (cc);
        waits = λ d h. let gone = (dead shut).1 in absurd (cc);
      })
      (λ active.
        by_if IsAlive (not signed_in) (λ _. schedule-IsAlive s (idle active) quiet active)
          (λ _.
            let free = idle active in
            record {
              alive = λ _. ground arith;
              dead = λ h. absurd (cc);
              pinging = λ _. refl;
              waits = λ d h. absurd (ground arith);
            }))

quiet_of :
    (pings : Bool) (ws : Option ℕ) → (pings ≡ true → count ws ≡ 1) → count ws ≡ 0 → pings ≡ false
quiet_of true ws h e = let one = h refl in absurd (omega arith)
quiet_of false ws h e = refl

-- An alive stream with a socket has nothing else pending.
pub lone_socket :
    (s : OrderStream) (n : ℕ)
    → IsAlive s
    → s.ws ≡ some n
    → (s.closed ≡ false) × (s.retry_timer ≡ none) × (s.in_flight ≡ 0)
lone_socket s n h e = elim (Bool-cases s.closed) [
  | inl shut ↦ let gone = (h.dead shut).0 in absurd (cc)
  | inr active ↦ let one = h.alive active in (active, ground arith, ground arith)
]

down-IsAlive : (s : OrderStream) (n : ℕ) → IsAlive s → s.ws ≡ some n → IsAlive (down s)
unfolding down
down-IsAlive s n h e =
    let lone = lone_socket s n h e in
    by_if IsAlive s.closed (λ shut. absurd (cc))
      (λ active.
        schedule-IsAlive (record s { ws = none; ping_timer = false }) (ground arith) refl active)

after_auth-IsAlive : (r : Reason) (s : OrderStream) → IsAlive s → IsAlive (after_auth r s)
after_auth-IsAlive cap s h = h
after_auth-IsAlive transport s h = h
after_auth-IsAlive auth s h = record {
  alive = h.alive;
  dead = h.dead;
  pinging = h.pinging;
  waits = h.waits;
}

after_auth_ws : (r : Reason) (s : OrderStream) → (after_auth r s).ws ≡ s.ws
after_auth_ws cap s = refl
after_auth_ws auth s = refl
after_auth_ws transport s = refl

refused-IsAlive :
    (http : ℕ) (s : OrderStream) (n : ℕ) → IsAlive s → s.ws ≡ some n → IsAlive (refused http s)
unfolding refused teardown_socket
refused-IsAlive http s n h e =
    let lone = lone_socket s n h e in
    by_if IsAlive (not (classify_status http).retry)
      (λ _. record {
        alive = λ bad. absurd (cc);
        dead = λ _. (refl, lone.1, refl);
        pinging = λ bad. absurd (cc);
        waits = h.waits;
      })
      (λ _.
        down-IsAlive (after_auth (classify_status http).reason s) n
          (after_auth-IsAlive (classify_status http).reason s h)
          (after_auth_ws (classify_status http).reason s ∙ e))

socket_down-none : (socket : ℕ) (s : OrderStream) → s.ws ≡ none → socket_down socket s ≡ s
unfolding socket_down
socket_down-none socket s gone = rw gone refl

socket_down-some :
    (socket n : ℕ) (s : OrderStream)
    → s.ws ≡ some n
    → socket_down socket s ≡ (if n == socket then down s else s)
unfolding socket_down
socket_down-some socket n s here = ground (arith, here)

socket_down-IsAlive : (socket : ℕ) (s : OrderStream) → IsAlive s → IsAlive (socket_down socket s)
socket_down-IsAlive socket s h = elim (Option-cases s.ws) [
  | inl gone ↦ rw (socket_down-none socket s gone) h
  | inr (n, here) ↦
      rw (socket_down-some socket n s here)
        (by_if IsAlive (n == socket) (λ _. down-IsAlive s n h here) (λ _. h))
]

retry_fired-IsAlive :
    (now : ℕ) (signed_in : Bool) (s : OrderStream) (d : ℕ)
    → IsAlive s
    → s.retry_timer ≡ some d
    → IsAlive (retry_fired now signed_in s)
unfolding retry_fired
retry_fired-IsAlive now signed_in s d h e =
    let s' = record s { retry_timer = none } in
    by_if IsAlive s.closed (λ shut. let gone = (h.dead shut).1 in absurd (cc))
      (λ active.
        let one = h.alive active in
        by_if IsAlive (is_due now s')
          (λ due. record {
            alive = λ _. ground arith;
            dead = λ shut. absurd (cc);
            pinging = h.pinging;
            waits = λ d' bad. absurd (cc);
          })
          (λ early.
            connect-IsAlive signed_in s' (λ _. ground arith)
              (quiet_of s.ping_timer s.ws h.pinging (ground arith)) (λ shut. absurd (cc))))

connected-IsAlive :
    (signed_in : Bool) (s : OrderStream) (n : ℕ)
    → IsAlive s
    → s.in_flight ≡ suc n
    → IsAlive (connected signed_in s)
unfolding connected
connected-IsAlive signed_in s n h e =
    connect-IsAlive signed_in (record s { in_flight = s.in_flight - 1 })
      (λ active. let one = h.alive active in ground arith)
      (elim (Bool-cases s.closed) [
        | inl shut ↦ (h.dead shut).2
        | inr active ↦
            let one = h.alive active in quiet_of s.ping_timer s.ws h.pinging (ground arith)
      ])
      h.dead

on_open-IsAlive : (s : OrderStream) (n : ℕ) → IsAlive s → s.ws ≡ some n → IsAlive (on_open s)
unfolding on_open
on_open-IsAlive s n h e = record {
  alive = h.alive;
  dead = λ shut. let gone = (h.dead shut).0 in absurd (cc);
  pinging = λ _. rw e refl;
  waits = h.waits;
}

silent-IsAlive : (s : OrderStream) → IsAlive s → IsAlive (record s { ping_timer = false })
silent-IsAlive s h = record {
  alive = h.alive;
  dead = λ shut. let gone = h.dead shut in (gone.0, gone.1, refl);
  pinging = λ bad. absurd (cc);
  waits = h.waits;
}

ping-IsAlive : (ready sends : Bool) (s : OrderStream) → IsAlive s → IsAlive (ping ready sends s)
unfolding ping
ping-IsAlive ready sends s h = let quiet = silent-IsAlive s h in ground arith

close-IsAlive : (s : OrderStream) → IsAlive (close s)
unfolding close teardown_socket
close-IsAlive s = record {
  alive = λ bad. absurd (cc);
  dead = λ _. (refl, refl, refl);
  pinging = λ bad. absurd (cc);
  waits = λ d bad. absurd (cc);
}

step-IsAlive : (s s' : OrderStream) → IsAlive s → Step s s' → IsAlive s'
step-IsAlive s s' h (opened {n = n} e) = on_open-IsAlive s n h e
step-IsAlive s s' h (pinged ready sends) = ping-IsAlive ready sends s h
step-IsAlive s s' h (went_down socket) = socket_down-IsAlive socket s h
step-IsAlive s s' h (was_refused {n = n} http e) = refused-IsAlive http s n h e
step-IsAlive s s' h (fired {d = d} now signed_in e) = retry_fired-IsAlive now signed_in s d h e
step-IsAlive s s' h (login_over {n = n} signed_in e) = connected-IsAlive signed_in s n h e
step-IsAlive s s' h closed_by = close-IsAlive s

-- An order stream that was opened once and is neither closed nor refused for good has exactly one of a
-- current socket, a pending retry and a login under way; the delay of a retry is between 1 and 30
-- seconds, and pings run on a socket only. Afterwards it has no socket and no timer.
pub Reached-IsAlive : (s : OrderStream) → Reached s → IsAlive s
unfolding open_stream
Reached-IsAlive s (start signed_in) =
    connect-IsAlive signed_in (record new { handlers = true }) (λ _. refl) refl (λ bad. absurd (cc))
Reached-IsAlive s' (then_ {s = s} r step) = step-IsAlive s s' (Reached-IsAlive s r) step

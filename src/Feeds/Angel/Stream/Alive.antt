-- ===== src/Feeds/Angel/Stream/Alive.antt =====
-- An open stream always has a socket, a retry or a login under way, and a closed one has none.
use quantstack_terminal.Common.{
  ℕ, zero, suc, ◌+◌, ◌-◌, ◌^◌, ◌≤◌, ◌≡◌, refl, ap, Bool, true, false, List, [], Option,
  Option-cases, Bool-cases, inl, inr, none, some, ◌==◌, arith, by_if, text_beq, length, take,
}
use quantstack_terminal.Feeds.Identity.{InstrumentKey}
use quantstack_terminal.Feeds.Angel.Stream.{
  AngelStream, AngelSession, Row, new, connect, open_stream, on_open, ping, down, reconnect,
  logged_in, retry_fired, close, schedule_reconnect, max_tokens, resolve_keys, Resolved, start_ping,
  stop_ping, delay, is_due,
}

-- One event of an opened stream. `ws` raises no `open` on a socket that has failed or was closed.
pub data Step : AngelStream → AngelStream → Type 0 where
  opened : {s : AngelStream} {n : ℕ} → s.ws ≡ some n → Step s (on_open s)
  pinged : {s : AngelStream} (ready sends : Bool) → Step s (ping ready sends s)
  went_down : {s : AngelStream} (socket : ℕ) → Step s (down socket s)
  fired : {s : AngelStream} {d : ℕ} (now : ℕ) → s.retry_timer ≡ some d → Step s (retry_fired now s)
  login_over :
      {s : AngelStream} {n : ℕ} (result : Option AngelSession)
      → s.in_flight ≡ suc n
      → Step s (logged_in result s)
  closed_by : {s : AngelStream} → Step s (close s)

pub data Reached (row_of : InstrumentKey → Option Row) : AngelStream → Type 0 where
  start :
      (session : AngelSession) (can_refresh : Bool) (keys : List InstrumentKey) {s : AngelStream}
      → open_stream row_of keys (new session can_refresh) ≡ (s, none)
      → Reached row_of s
  then_ : {s s' : AngelStream} → Reached row_of s → Step s s' → Reached row_of s'

abbrev pub count {ℓ} : {A : Type ℓ} → Option A → ℕ
count none = 0
count (some _) = 1

pub record IsAlive (s : AngelStream) : Type 0 where
  pub alive : s.closed ≡ false → count s.ws + count s.retry_timer + s.in_flight ≡ 1
  pub dead :
      s.closed ≡ true
      → (s.ws ≡ none) × (s.retry_timer ≡ none) × (s.ping_timer ≡ false) × (s.handler ≡ false)
  pub pinging : s.ping_timer ≡ true → count s.ws ≡ 1
  pub waits : (d : ℕ) → s.retry_timer ≡ some d → (1_000 ≤ d) × (d ≤ 15_000)

pow_pos : (n : ℕ) → 1 ≤ 2 ^ n
pow_pos zero = omega arith
pow_pos (suc n) = let ih = pow_pos n in grind arith

delay_bounds : (n : ℕ) → (1_000 ≤ delay n) × (delay n ≤ 15_000)
delay_bounds n = let h = pow_pos n in ground arith

-- Nothing is pending, as in the moment before a connection or a retry.
abbrev Idle : AngelStream → Type 0
Idle s = s.closed ≡ false → count s.ws + count s.retry_timer + s.in_flight ≡ 0

connect-IsAlive :
    (s : AngelStream)
    → Idle s
    → (s.closed ≡ true
        → (s.ws ≡ none) × (s.retry_timer ≡ none) × (s.ping_timer ≡ false) × (s.handler ≡ false))
    → (s.ping_timer ≡ true → count s.ws ≡ 1)
    → IsAlive (connect s)
unfolding connect
connect-IsAlive s idle dead pinging = elim (Bool-cases s.closed) [
  | inl shut ↦ rw shut (record {
    alive = λ h. absurd (cc);
    dead = λ _. dead shut;
    pinging = pinging;
    waits = λ d h. let gone = (dead shut).1 in absurd (cc);
  })
  | inr active ↦
      let free = idle active in
      rw active (record {
        alive = λ _. ground arith;
        dead = λ h. absurd (cc);
        pinging = λ _. refl;
        waits = λ d h. ground arith;
      })
]

schedule-IsAlive :
    (s : AngelStream)
    → Idle s
    → s.ping_timer ≡ false
    → s.closed ≡ false
    → IsAlive (schedule_reconnect s)
unfolding schedule_reconnect
schedule-IsAlive s idle quiet active = elim (Option-cases s.retry_timer) [
  | inr (d, some_) ↦ let free = idle active in absurd (ground arith)
  | inl none_ ↦
      let free = idle active in
      rw (none_, active)
        (record {
          alive = λ _. ground arith;
          dead = λ h. absurd (cc);
          pinging = λ h. absurd (cc);
          waits = λ d h. let w = delay_bounds s.retries in ground arith;
        })
]

on_open-IsAlive : (s : AngelStream) (n : ℕ) → IsAlive s → s.ws ≡ some n → IsAlive (on_open s)
unfolding on_open start_ping
on_open-IsAlive s n h e = record {
  alive = h.alive;
  dead = λ shut. let gone = (h.dead shut).0 in absurd (cc);
  pinging = λ _. rw e refl;
  waits = h.waits;
}

stop_ping-IsAlive : (s : AngelStream) → IsAlive s → IsAlive (stop_ping s)
unfolding stop_ping
stop_ping-IsAlive s h = record {
  alive = h.alive;
  dead = λ shut. let gone = h.dead shut in (gone.0, gone.1, refl, gone.3);
  pinging = λ bad. absurd (cc);
  waits = h.waits;
}

ping-IsAlive : (ready sends : Bool) (s : AngelStream) → IsAlive s → IsAlive (ping ready sends s)
unfolding ping
ping-IsAlive ready sends s h = let stopped = stop_ping-IsAlive s h in ground arith

down-none : (socket : ℕ) (s : AngelStream) → s.ws ≡ none → down socket s ≡ s
unfolding down
down-none socket s gone = rw gone refl

down-same :
    (socket current : ℕ) (s : AngelStream)
    → s.ws ≡ some current
    → (current == socket) ≡ false
    → down socket s ≡ s
unfolding down
down-same socket current s here other = rw (here, other) refl

down-IsAlive : (socket : ℕ) (s : AngelStream) → IsAlive s → IsAlive (down socket s)
unfolding down stop_ping
down-IsAlive socket s h = elim (Option-cases s.ws) [
  | inl gone ↦ rw (down-none socket s gone) h
  | inr (current, here) ↦ elim (Bool-cases (current == socket)) [
    | inr other ↦ rw (down-same socket current s here other) h
    | inl same ↦
        rw (here, same)
          (by_if IsAlive s.closed (λ shut. let gone = (h.dead shut).0 in absurd (cc))
            (λ active.
              let lone = h.alive active in
              schedule-IsAlive (record s { ws = none; ping_timer = false }) (λ _. ground arith) refl
                active))
  ]
]

logged_in-IsAlive :
    (result : Option AngelSession) (s : AngelStream) (n : ℕ)
    → IsAlive s
    → s.in_flight ≡ suc n
    → IsAlive (logged_in result s)
unfolding logged_in
logged_in-IsAlive none s n h e =
    connect-IsAlive (record s { in_flight = s.in_flight - 1 })
      (λ a. let one = h.alive a in ground arith) h.dead h.pinging
logged_in-IsAlive (some session) s n h e =
    connect-IsAlive (record s { in_flight = s.in_flight - 1; session = session })
      (λ a. let one = h.alive a in ground arith) h.dead h.pinging

retry_fired-IsAlive :
    (now : ℕ) (s : AngelStream) (d : ℕ)
    → IsAlive s
    → s.retry_timer ≡ some d
    → IsAlive (retry_fired now s)
unfolding retry_fired reconnect
retry_fired-IsAlive now s d h e =
    let s' = record s { retry_timer = none } in
    by_if IsAlive s.closed (λ shut. let gone = (h.dead shut).1 in absurd (cc))
      (λ active.
        let one = h.alive active in
        by_if IsAlive (is_due now s')
          (λ due. record {
            alive = λ _. ground arith;
            dead = λ shut. absurd (cc);
            pinging = h.pinging;
            waits = λ d' bad. absurd (cc);
          })
          (λ early. connect-IsAlive s' (λ _. ground arith) (λ shut. absurd (cc)) h.pinging))

close-IsAlive : (s : AngelStream) → IsAlive (close s)
unfolding close
close-IsAlive s = record {
  alive = λ h. absurd (cc);
  dead = λ _. (refl, refl, refl, refl);
  pinging = λ h. absurd (cc);
  waits = λ d h. absurd (cc);
}

step-IsAlive : (s s' : AngelStream) → IsAlive s → Step s s' → IsAlive s'
step-IsAlive s s' h (opened {n = n} e) = on_open-IsAlive s n h e
step-IsAlive s s' h (pinged ready sends) = ping-IsAlive ready sends s h
step-IsAlive s s' h (went_down socket) = down-IsAlive socket s h
step-IsAlive s s' h (fired {d = d} now e) = retry_fired-IsAlive now s d h e
step-IsAlive s s' h (login_over {n = n} result e) = logged_in-IsAlive result s n h e
step-IsAlive s s' h closed_by = close-IsAlive s

opened-IsAlive :
    (row_of : InstrumentKey → Option Row) (keys : List InstrumentKey) (session : AngelSession)
    (can_refresh : Bool) (s : AngelStream)
    → open_stream row_of keys (new session can_refresh) ≡ (s, none)
    → IsAlive s
unfolding open_stream
opened-IsAlive row_of keys session can_refresh s =
    by_if (λ r. r ≡ (s, none) → IsAlive s) (text_beq session.feed_token [])
      (λ _ e. let bad = ap (λ r. r.1) e in absurd (cc))
      (λ _.
        by_if (λ r. r ≡ (s, none) → IsAlive s) (length resolved == 0)
          (λ _ e. let bad = ap (λ r. r.1) e in absurd (cc))
          (λ _ e.
            let same : connect loaded ≡ s = ap (λ r. r.0) e in
            rw (← same)
              (connect-IsAlive loaded (λ _. refl) (λ shut. absurd (cc)) (λ bad. absurd (cc)))))
  where
    resolved : List Resolved
    resolved = take max_tokens (resolve_keys row_of keys)

    loaded : AngelStream
    loaded = record (new session can_refresh) {
      handler = true;
      resolved = resolved;
      by_token = resolved;
    }

-- From the moment that it opens, a stream that is not closed has exactly one of a current socket, a
-- pending retry and a login under way, so it never rests without a way back; the delay of a retry is
-- between 1 and 15 seconds, and pings run on a socket only. A closed stream has no socket, no timer
-- and no consumer.
pub reached-IsAlive :
    (row_of : InstrumentKey → Option Row) (s : AngelStream) → Reached row_of s → IsAlive s
reached-IsAlive row_of s (start session can_refresh keys e) =
    opened-IsAlive row_of keys session can_refresh s e
reached-IsAlive row_of s' (then_ {s = s} r step) =
    step-IsAlive s s' (reached-IsAlive row_of s r) step

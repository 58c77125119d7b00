-- ===== src/Client/Socket/Tests.antt =====
-- Runs of the front end's socket.
use quantstack_terminal.Common.{ℕ, ◌≡◌, refl, true, [], ◌∷◌, some}
use quantstack_terminal.Client.Socket.{
  LiveSocket, connecting, ready, gone, new, connect, schedule_retry, subscribe, on_open, on_close,
  retry_fired, close,
}
use quantstack_terminal.Client.Socket.Runs.{
  Reached, start, then_, opened, subscribed, went, IsTending, reached-IsTending, on_open-sends,
}

-- A payload is a number; the world is the newest point.
abbrev first : LiveSocket ℕ ℕ
first = connect ℕ ℕ true (new ℕ ℕ)

abbrev asked : LiveSocket ℕ ℕ
asked = (subscribe ℕ ℕ 0 (λ since. some since) first).0

abbrev opened_once : LiveSocket ℕ ℕ
opened_once = (on_open ℕ ℕ 5 0 asked).0

abbrev lost : LiveSocket ℕ ℕ
lost = on_close ℕ ℕ 0 opened_once

retry_soon : lost.retry_timer ≡ some 500
unfolding connect subscribe on_open on_close schedule_retry
retry_soon = refl

-- Two connections live after a `close` that is followed at once by a `connect`: the close event of the
-- first drops the second, which stays open, and the retry makes a third.
abbrev reopened : LiveSocket ℕ ℕ
reopened =
    retry_fired ℕ ℕ true
      (on_close ℕ ℕ 0 ((on_open ℕ ℕ 5 1 (connect ℕ ℕ true (close ℕ ℕ opened_once))).0))

two_live : reopened.sockets ≡ gone ∷ ready ∷ connecting ∷ []
unfolding connect subscribe on_open on_close schedule_retry retry_fired close
two_live = refl

third_is_current : reopened.ws ≡ some 2
unfolding connect subscribe on_open on_close schedule_retry retry_fired close
third_is_current = refl

asked_reached : Reached ℕ ℕ asked
asked_reached = then_ (start true) (subscribed 0 (λ since. some since))

reached-IsTending_example : IsTending ℕ ℕ lost
unfolding connect subscribe on_open
reached-IsTending_example =
    reached-IsTending ℕ ℕ lost
      (then_ (then_ asked_reached (opened 5 0 refl)) (went 0 ready refl (λ bad. absurd (cc))))

on_open-sends_example : (on_open ℕ ℕ 5 0 asked).1 ≡ some 5
unfolding connect subscribe
on_open-sends_example = on_open-sends ℕ ℕ asked 5 0 asked_reached refl

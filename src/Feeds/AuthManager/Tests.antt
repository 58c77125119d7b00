-- ===== src/Feeds/AuthManager/Tests.antt =====
-- Runs of the session manager.
use quantstack_terminal.Common.{
  ℕ, ◌+◌, ◌≤◌, ◌≡◌, ◌↔◌, refl, true, false, List, [], ◌∷◌, none, some, Text, text_eq, codes,
  get_elem?, if◌then◌else◌, ltb, get, put,
}
use quantstack_terminal.Feeds.Errors.{Thrown, auth, classify}
use quantstack_terminal.Feeds.Router.{answered, threw}
use quantstack_terminal.Feeds.AuthManager.{
  AuthState, Manager, new_state, mark_started, Event, asked, login_failed, login_finished,
  login_succeeded, ensure_connected, refused, started, backoff_for, backoff_error, step, run,
  Session, with_auth, answer_of, mark_failed, mark_finished, ensure_on, state_of, auth_status,
  mark_succeeded,
}
use quantstack_terminal.Feeds.AuthManager.SingleFlight.{no_feeds, single_flight}
use quantstack_terminal.Feeds.AuthManager.Backoff.{after_failure, login_failed-backoff}
use quantstack_terminal.Feeds.AuthManager.Retry.{runs, IsRenewed, with_auth-runs}
use quantstack_terminal.Feeds.Errors.{feed_error}

abbrev upstox : Text
upstox = codes "upstox"

abbrev busy_state : AuthState
busy_state = mark_started (new_state upstox)

abbrev busy : Manager
busy = record { state = (upstox, 0) ∷ []; objects = busy_state ∷ [] }

abbrev lost : Thrown
lost =
    feed_error
      (record { code = auth; message = codes "token expired"; feed_id = upstox; status = none })

-- A login that failed and one that then succeeded, before a third request.
abbrev two_logins : List Event
two_logins =
    asked false 10 upstox
    ∷ login_failed 20 0 lost
    ∷ login_finished 0
    ∷ asked false 30020 upstox
    ∷ login_succeeded 30100 0
    ∷ login_finished 0
    ∷ []

two_logins_end :
    get_elem? (run two_logins no_feeds).objects 0
    ≡ some (record (new_state upstox) { connected_at = 30100 })
unfolding run step ensure_connected ensure_on state_of mark_failed mark_finished mark_succeeded get
    put
two_logins_end = refl

third_login : (ensure_connected false 40000 upstox (run two_logins no_feeds)).1 ≡ started 0
unfolding run step ensure_connected ensure_on state_of mark_failed mark_finished mark_succeeded get
    put
third_login = refl

single_flight_example : (false ≡ false) × (false ≡ false)
single_flight_example =
    single_flight two_logins false 40000 upstox 0 (tt, (tt, (tt, (tt, (tt, (tt, tt)))))) third_login
      0 (record (new_state upstox) { connected_at = 30100 }) two_logins_end refl

login_failed-backoff_example :
    (ensure_connected false 29999 upstox
      (run (login_failed 20 0 lost ∷ login_finished 0 ∷ []) busy)).1
    ≡ (if ltb 29999 (20 + backoff_for 0)
        then refused (backoff_error 29999 upstox (after_failure 20 lost busy_state))
        else started 0)
unfolding get
login_failed-backoff_example =
    login_failed-backoff 20 29999 upstox lost 0 busy_state busy refl refl refl

abbrev retried : Session ℕ
retried = record {
  first_login = none;
  first_run = threw lost;
  second_login = none;
  second_run = answered 7;
}

with_auth-runs_example :
    (runs (with_auth upstox retried).0 ≤ 2)
    × ((runs (with_auth upstox retried).0 ≡ 2) ↔ IsRenewed upstox retried)
    × (IsRenewed upstox retried → (with_auth upstox retried).1 ≡ answer_of retried.second_run)
with_auth-runs_example = with_auth-runs upstox retried

retried-runs : runs (with_auth upstox retried).0 ≡ 2
unfolding with_auth classify
retried-runs = refl

waiting_status : (auth_status upstox busy).logging_in ≡ true
unfolding auth_status get
waiting_status = refl

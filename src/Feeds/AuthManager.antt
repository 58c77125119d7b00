-- ===== src/Feeds/AuthManager.antt =====
-- backend/feeds/authManager.ts: one login at a time for each feed, with a backoff.
--
-- The `AuthState` objects form a heap, and the module's map holds indices into it: the callbacks of a
-- login keep the object that it began with, also when `signOut` has taken it out of the map. The
-- promise `inFlight` is a flag of its object; `connecting` says that its `connect()` is outstanding,
-- and `settling` that the callback of its outcome has run and `finally` has not. `isConnected()` and
-- the clock are arguments. Log lines and metrics are left out.
pub mod Ownership
pub mod SingleFlight
pub mod Backoff
pub mod Retry
mod Tests
use quantstack_terminal.Common.{
  ℕ, ◌+◌, ◌-◌, ◌/◌, min, Bool, true, false, List, [], ◌∷◌, ◌++◌, Option, none, some, Text, codes,
  text_eq, ltb, ◌==◌, if◌then◌else◌, length, get_or, modify, show, Assoc, get, put, remove,
}
use quantstack_terminal.Feeds.Breaker.{FeedId}
use quantstack_terminal.Feeds.Errors.{FeedError, auth, Thrown, classify}
use quantstack_terminal.Feeds.Health.{is_auth}
use quantstack_terminal.Feeds.Router.{Answer, answered, threw}

abbrev pub backoff_ms : List ℕ
backoff_ms = 30000 ∷ 60000 ∷ 300000 ∷ 900000 ∷ []

pub record AuthState : Type 0 where
  pub feed : FeedId
  pub in_flight : Bool
  pub connecting : Bool
  pub settling : Bool
  pub last_error : Option FeedError
  pub failures : ℕ
  pub retry_after : ℕ
  pub connected_at : ℕ

pub record Manager : Type 0 where
  pub state : Assoc FeedId ℕ
  pub objects : List AuthState

abbrev pub new_state : FeedId → AuthState
new_state id = record {
  feed = id;
  in_flight = false;
  connecting = false;
  settling = false;
  last_error = none;
  failures = 0;
  retry_after = 0;
  connected_at = 0;
}

-- `stateOf`: the object of the feed, made if there is none.
unfoldable pub state_of : FeedId → Manager → Manager × ℕ
state_of id m = elim (get id m.state) [
  | some ref ↦ (m, ref)
  | none ↦ (
    record { state = put id (length m.objects) m.state; objects = m.objects ++ new_state id ∷ [] },
    length m.objects,
  )
]

-- What `ensureConnected` gives its caller: a resolved or a rejected promise, or that of a login.
pub data Ensured : Type 0 where
  ready : Ensured
  refused : FeedError → Ensured
  joined : ℕ → Ensured
  started : ℕ → Ensured

abbrev last_text : Option FeedError → Text
last_text none = []
last_text (some fe) = codes " (last: " ++ (fe.message ++ codes ")")

-- The error of a backoff window, with the seconds left rounded up.
abbrev pub backoff_error : ℕ → FeedId → AuthState → FeedError
backoff_error now id s = record {
  code = auth;
  message =
      id
      ++ (codes " login failed "
          ++ (show s.failures
              ++ (codes "× — retrying in "
                  ++ (show ((s.retry_after - now + 999) / 1000)
                      ++ (codes "s" ++ last_text s.last_error)))));
  feed_id = id;
  status = none;
}

abbrev pub mark_connected : ℕ → AuthState → AuthState
mark_connected now s = record s {
  failures = 0;
  retry_after = 0;
  last_error = none;
  connected_at = if s.connected_at == 0 then now else s.connected_at;
}

abbrev pub mark_started : AuthState → AuthState
mark_started s = record s { in_flight = true; connecting = true }

-- The rest of `ensureConnected`, on the feed's object.
unfoldable pub ensure_on : Bool → ℕ → FeedId → Manager × ℕ → Manager × Ensured
ensure_on connected now id (m, ref) =
    let s = get_or m.objects ref (new_state id) in
    if connected
    then (record m { objects = modify ref (mark_connected now) m.objects }, ready)
    else if ltb now s.retry_after
    then (m, refused (backoff_error now id s))
    else if s.in_flight
    then (m, joined ref)
    else (record m { objects = modify ref mark_started m.objects }, started ref)

unfoldable pub ensure_connected : Bool → ℕ → FeedId → Manager → Manager × Ensured
unfolding ensure_on state_of
ensure_connected connected now id m = ensure_on connected now id (state_of id m)

-- The callback of `then`.
unfoldable pub mark_succeeded : ℕ → AuthState → AuthState
mark_succeeded now s =
    if s.connecting
    then record s {
      connecting = false;
      settling = true;
      failures = 0;
      retry_after = 0;
      last_error = none;
      connected_at = now;
    }
    else s

-- `BACKOFF_MS[Math.min(s.failures - 1, BACKOFF_MS.length - 1)]`, of the failures before this one.
abbrev pub backoff_for : ℕ → ℕ
backoff_for earlier = get_or backoff_ms (min earlier 3) 0

-- The callback of `catch`.
unfoldable pub mark_failed : ℕ → Thrown → AuthState → AuthState
mark_failed now err s =
    if s.connecting
    then record s {
      connecting = false;
      settling = true;
      failures = s.failures + 1;
      last_error = some (classify err s.feed);
      retry_after = now + backoff_for s.failures;
    }
    else s

-- The callback of `finally`.
unfoldable pub mark_finished : AuthState → AuthState
mark_finished s = if s.settling then record s { settling = false; in_flight = false } else s

unfoldable pub sign_out : FeedId → Manager → Manager
sign_out id m = record m { state = remove id m.state }

unfoldable pub reset_auth : Manager → Manager
reset_auth m = record m { state = [] }

-- What happens to the manager, one step after the other.
pub data Event : Type 0 where
  asked : Bool → ℕ → FeedId → Event
  login_succeeded : ℕ → ℕ → Event
  login_failed : ℕ → ℕ → Thrown → Event
  login_finished : ℕ → Event
  signed_out : FeedId → Event
  was_reset : Event

unfoldable pub step : Event → Manager → Manager
step (asked connected now id) m = (ensure_connected connected now id m).0
step (login_succeeded now ref) m = record m { objects = modify ref (mark_succeeded now) m.objects }
step (login_failed now ref err) m = record m {
  objects = modify ref (mark_failed now err) m.objects;
}
step (login_finished ref) m = record m { objects = modify ref mark_finished m.objects }
step (signed_out id) m = sign_out id m
step was_reset m = reset_auth m

unfoldable pub run : List Event → Manager → Manager
run [] m = m
run (e ∷ es) m = run es (step e m)

pub record AuthStatus : Type 0 where
  pub connected_at : Option ℕ
  pub failures : ℕ
  pub retry_after : Option ℕ
  pub last_error : Option Text
  pub logging_in : Bool

-- `x || null`
abbrev nonzero : ℕ → Option ℕ
nonzero n = if n == 0 then none else some n

abbrev message_of_last : Option FeedError → Option Text
message_of_last none = none
message_of_last (some fe) = some fe.message

unfoldable pub auth_status : FeedId → Manager → AuthStatus
auth_status id m = elim (get id m.state) [
  | none ↦ record {
    connected_at = none;
    failures = 0;
    retry_after = none;
    last_error = none;
    logging_in = false;
  }
  | some ref ↦
      let s = get_or m.objects ref (new_state id) in
      record {
        connected_at = nonzero s.connected_at;
        failures = s.failures;
        retry_after = nonzero s.retry_after;
        last_error = message_of_last s.last_error;
        logging_in = s.in_flight;
      }
]

-- The calls that `withAuth` makes, in order.
pub data Action : Type 0 where
  ensuring running disconnecting : Action

pub data Result (V : Type 0) : Type 0 where
  returned : V → Result V
  failed : FeedError → Result V
  passed_on : Thrown → Result V

-- What the calls of `withAuth` come to: two of `ensureConnected` (`none` is success), two of `fn`.
pub record Session (V : Type 0) : Type 0 where
  pub first_login : Option FeedError
  pub first_run : Answer V
  pub second_login : Option FeedError
  pub second_run : Answer V

module _ {V : Type 0} where
  abbrev pub answer_of : Answer V → Result V
  answer_of (answered v) = returned v
  answer_of (threw err) = passed_on err

  -- The `catch` of `withAuth`.
  retry : FeedId → Session V → FeedError → List Action × Result V
  retry id w fe =
      if is_auth fe.code
      then elim w.second_login [
        | some refusal ↦ (ensuring ∷ running ∷ disconnecting ∷ ensuring ∷ [], failed refusal)
        | none ↦
            (ensuring ∷ running ∷ disconnecting ∷ ensuring ∷ running ∷ [], answer_of w.second_run)
      ]
      else (ensuring ∷ running ∷ [], failed fe)

  unfoldable pub with_auth : FeedId → Session V → List Action × Result V
  unfolding retry
  with_auth id w = elim w.first_login [
    | some refusal ↦ (ensuring ∷ [], failed refusal)
    | none ↦ elim w.first_run [
      | answered v ↦ (ensuring ∷ running ∷ [], returned v)
      | threw err ↦ retry id w (classify err id)
    ]
  ]

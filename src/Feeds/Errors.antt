-- ===== src/Feeds/Errors.antt =====
-- backend/feeds/errors.ts: what kind of failure a feed reported, and what follows from the kind.
--
-- A thrown JavaScript value is `Thrown`: a `FeedError`, or any other value by the properties that
-- `classify` reads of it. Its `status` is a whole number, or absent where it is missing or not
-- finite. A `cause` is never read and is left out.
pub mod Codes
mod Tests
use quantstack_terminal.Common.{
  ℕ, ◌+◌, ◌-◌, ◌*◌, Bool, true, false, not, ◌&&◌, ◌||◌, List, [], ◌∷◌, Option, none, some, Text,
  codes, text_beq, ltb, leb, ◌==◌, if◌then◌else◌, any, contains_ci, is_digit, read,
}

pub data FeedErrorCode : Type 0 where
  auth rate_limit transient unsupported not_found bad_request internal : FeedErrorCode

pub record FeedError : Type 0 where
  pub code : FeedErrorCode
  pub message : Text
  pub feed_id : Text
  pub status : Option ℕ

abbrev pub retryable : FeedErrorCode → Bool
retryable transient = true
retryable rate_limit = true
retryable _ = false

abbrev pub should_failover : FeedErrorCode → Bool
should_failover transient = true
should_failover rate_limit = true
should_failover unsupported = true
should_failover auth = true
should_failover _ = false

abbrev pub counts_as_failure : FeedErrorCode → Bool
counts_as_failure transient = true
counts_as_failure rate_limit = true
counts_as_failure _ = false

abbrev pub one_of : List ℕ → ℕ → Bool
one_of xs n = any (λ x. x == n) xs

abbrev rate_limit_status : List ℕ
rate_limit_status = 403 ∷ 408 ∷ 425 ∷ 429 ∷ []

abbrev transient_status : List ℕ
transient_status = 500 ∷ 502 ∷ 503 ∷ 504 ∷ []

unfoldable pub code_for_status : ℕ → FeedErrorCode
code_for_status status =
    if status == 401 || status == 440
    then auth
    else if one_of rate_limit_status status
    then rate_limit
    else if one_of transient_status status
    then transient
    else if status == 404
    then not_found
    else if leb 400 status && ltb status 500
    then bad_request
    else if leb 500 status
    then transient
    else internal

pub record Properties : Type 0 where
  pub name : Option Text
  pub message : Option Text
  pub status : Option ℕ
  -- `String(err)`, and nothing for `null` and `undefined`.
  pub shown : Option Text

pub data Thrown : Type 0 where
  feed_error : FeedError → Thrown
  other : Properties → Thrown

abbrev pub is_named : Text → Option Text → Bool
is_named expected none = false
is_named expected (some name) = text_beq name expected

-- `String(e?.message ?? err ?? 'Unknown feed error')`
abbrev pub message_of : Option Text → Option Text → Text
message_of (some message) shown = message
message_of none (some shown) = shown
message_of none none = codes "Unknown feed error"

abbrev prefix_of : ℕ → ℕ → ℕ → ℕ → Option ℕ
prefix_of a b c d =
    if is_digit a && is_digit b && is_digit c && d == b':'
    then some (read (a ∷ b ∷ c ∷ []))
    else none

-- The match of `/^(\d{3}):/`, as a number.
unfoldable pub status_prefix : Text → Option ℕ
status_prefix (a ∷ b ∷ c ∷ d ∷ rest) = prefix_of a b c d
status_prefix _ = none

abbrev status_or : Option ℕ → Option ℕ → Option ℕ
status_or (some status) found = some status
status_or none found = found

abbrev pub is_network : Text → Bool
is_network message =
    contains_ci (codes "fetch failed") message
    || contains_ci (codes "network") message
    || contains_ci (codes "socket") message
    || contains_ci (codes "ECONN") message

abbrev pub is_session : Text → Bool
is_session message =
    contains_ci (codes "not logged in") message || contains_ci (codes "session") message

abbrev feed_failure : FeedErrorCode → Text → Text → Option ℕ → FeedError
feed_failure code message feed_id status = record {
  code = code;
  message = message;
  feed_id = feed_id;
  status = status;
}

-- The rest of `classify`, from the status onwards.
classify_status : Option ℕ → Option Text → Text → Text → FeedError
classify_status (some status) name message feed_id =
    feed_failure (code_for_status status) message feed_id (some status)
classify_status none name message feed_id =
    if is_named (codes "NubraAuthError") name || is_session message
    then feed_failure auth message feed_id none
    else feed_failure internal message feed_id none

unfoldable pub classify : Thrown → Text → FeedError
unfolding classify_status
classify (feed_error fe) feed_id = fe
classify (other p) feed_id =
    let message = message_of p.message p.shown in
    if is_named (codes "TimeoutError") p.name || is_named (codes "AbortError") p.name
    then feed_failure transient message feed_id none
    else if is_named (codes "TypeError") p.name && is_network message
    then feed_failure transient message feed_id none
    else classify_status (status_or p.status (status_prefix message)) p.name message feed_id

unfoldable pub http_status_for : FeedErrorCode → ℕ
http_status_for auth = 401
http_status_for rate_limit = 429
http_status_for transient = 502
http_status_for unsupported = 501
http_status_for not_found = 404
http_status_for bad_request = 400
http_status_for internal = 500

-- ===== src/Feeds/Errors/Codes.antt =====
-- How status numbers and error codes correspond.
use quantstack_terminal.Common.{
  ℕ, ◌≤◌, ◌<◌, ◌≡◌, refl, false, ◌++◌, ◌∷◌, Option, none, some, arith, Text, codes, read, show,
}
use quantstack_terminal.Feeds.Errors.{
  FeedErrorCode, auth, rate_limit, transient, unsupported, not_found, bad_request, internal,
  code_for_status, http_status_for, other, classify, status_prefix,
}
use quantstack_terminal.Feeds.Errors.{is_named}
use quantstack_terminal.Common.{show-three}

-- What becomes of a code that is sent to a client as a status and classified there again.
abbrev pub resent : FeedErrorCode → FeedErrorCode
resent unsupported = transient
resent internal = transient
resent code = code

pub code_for_status-http_status_for :
    (code : FeedErrorCode) → code_for_status (http_status_for code) ≡ resent code
unfolding code_for_status http_status_for
code_for_status-http_status_for auth = refl
code_for_status-http_status_for rate_limit = refl
code_for_status-http_status_for transient = refl
code_for_status-http_status_for unsupported = refl
code_for_status-http_status_for not_found = refl
code_for_status-http_status_for bad_request = refl
code_for_status-http_status_for internal = refl

status_prefix-show :
    (s : ℕ) (rest : Text) → 100 ≤ s → s < 1000 → status_prefix (show s ++ b':' ∷ rest) ≡ some s
unfolding status_prefix read
status_prefix-show s rest lo hi = rw (show-three s lo hi) (ground arith)

-- A value whose message begins with a status of three digits and a colon, that carries no status of
-- its own and is named like none of the timeouts and network failures, is classified by that status,
-- which the error then carries with the whole message.
pub classify-prefixed :
    (s : ℕ) (rest : Text) (name shown : Option Text) (feed_id : Text)
    → 100 ≤ s
    → s < 1000
    → is_named (codes "TimeoutError") name ≡ false
    → is_named (codes "AbortError") name ≡ false
    → is_named (codes "TypeError") name ≡ false
    → classify
        (other (record {
          name = name;
          message = some (show s ++ b':' ∷ rest);
          status = none;
          shown = shown;
        }))
        feed_id
      ≡ record {
        code = code_for_status s;
        message = show s ++ b':' ∷ rest;
        feed_id = feed_id;
        status = some s;
      }
unfolding classify
classify-prefixed s rest name shown feed_id lo hi t a n =
    rw (t, a, n) (rw (status_prefix-show s rest lo hi) refl)

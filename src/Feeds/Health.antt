-- ===== src/Feeds/Health.antt =====
-- backend/feeds/health.ts: the probe of the feeds that are not closed.
--
-- `ProbeWorld` is the clock as each feed is looked at and as its probe settles, what
-- `ensureConnected` and `ping` came to (`none` is success), and what other requests do to the
-- breaker meanwhile. The result lists the feeds that were disconnected. The timer is left out.
pub mod Recovery
mod Tests
use quantstack_terminal.Common.{
  ℕ, Bool, true, false, List, [], ◌∷◌, ◌++◌, Option, none, some, if◌then◌else◌,
}
use quantstack_terminal.Feeds.Breaker.{
  FeedId, closed, same_state, Config, Entries, can_attempt, record_success, record_failure,
  state_of,
}
use quantstack_terminal.Feeds.Errors.{FeedErrorCode, auth, Thrown, classify}

pub record ProbeWorld : Type 0 where
  pub checked_at : FeedId → ℕ
  pub settled_at : FeedId → ℕ
  pub pinged : FeedId → Option Thrown
  pub during : FeedId → Entries → Entries

abbrev pub is_auth : FeedErrorCode → Bool
is_auth auth = true
is_auth _ = false

module _ (cfg : Config) (w : ProbeWorld) where
  -- The `try` and `catch` of one feed whose probe slot was claimed.
  unfoldable pub settle : FeedId → Entries → Entries × List FeedId
  settle id m = elim (w.pinged id) [
    | none ↦ (record_success cfg (w.settled_at id) id m, [])
    | some err ↦ (
      record_failure cfg (w.settled_at id) id (classify err id).message m,
      if is_auth (classify err id).code then id ∷ [] else [],
    )
  ]

  -- The body of the loop of `probeOnce`.
  unfoldable pub probe_feed : FeedId → Entries → Entries × List FeedId
  probe_feed id m =
      if same_state (state_of (w.checked_at id) id m) closed
      then (m, [])
      else let (m', granted) = can_attempt cfg (w.checked_at id) id m in
        if granted then settle id (w.during id m') else (m', [])

  unfoldable pub probe_once : List FeedId → Entries → Entries × List FeedId
  probe_once [] m = (m, [])
  probe_once (id ∷ ids) m =
      let (m', dropped) = probe_feed id m in
      let (m'', more) = probe_once ids m' in (m'', dropped ++ more)

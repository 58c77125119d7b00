-- ===== src/Feeds/Zerodha/Faults.antt =====
-- How a `connect` of Zerodha's feed ends.
use quantstack_terminal.Common.{◌≡◌, ◌⊎◌, true, none, some, Text}
use quantstack_terminal.Feeds.Errors.{Thrown, FeedError, classify}
use quantstack_terminal.Feeds.Zerodha.{World, threw, Outcome, is_connected}

-- What a call threw is what the login or the master threw, and the feed is then without a session.
pub data Ends (id : Text) (w : World) (o : Outcome FeedError) : Type 0 where
  well : o.fault ≡ none → is_connected o.feed ≡ true → Ends id w o
  badly :
      (t : Thrown)
      → o.fault ≡ some (classify t id)
      → (w.login ≡ threw t) ⊎ (w.master ≡ some t)
      → o.feed.session ≡ none
      → Ends id w o

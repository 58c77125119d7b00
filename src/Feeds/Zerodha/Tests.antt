-- ===== src/Feeds/Zerodha/Tests.antt =====
-- Runs of the lifecycle of Zerodha's feed.
use quantstack_terminal.Common.{◌≡◌, refl, true, false, [], ◌∷◌, none, some, Text, codes, get, put}
use quantstack_terminal.Cache.SessionCache.{
  save_session, load_session, clear_session, next_six_am_ist, file_for,
}
use quantstack_terminal.Feeds.Errors.{Thrown, feed_error, auth, FeedError}
use quantstack_terminal.Feeds.Zerodha.{
  ZerodhaSession, World, Outcome, gave, threw, profile, ensure_master, close_stream, id_of, connect,
  connect_new, resume, disconnect,
}
use quantstack_terminal.Feeds.Zerodha.Restart.{Resumes, logged_in, started, restart-Resumes}

abbrev id : Text
id = id_of (some (codes "2"))

abbrev session : ZerodhaSession
session = record {
  api_key = codes "key";
  access_token = codes "token";
  user_id = codes "AB1234";
  login_at = 86400000;
  label = codes "main";
}

abbrev no_master : Thrown
no_master =
    feed_error
      record { code = auth; message = codes "expired"; feed_id = codes "zerodha"; status = none }

-- At half past five in India a login succeeds, and the master does not load.
abbrev morning : World
morning = record {
  now = 86400000;
  accepted = false;
  login = gave session;
  then_ = 86400000;
  writable = true;
  master = some no_master;
}

-- A quarter of an hour later the broker takes the token.
abbrev later : World
later = record {
  now = 87300000;
  accepted = true;
  login = threw no_master;
  then_ = 87300000;
  writable = true;
  master = none;
}

abbrev first : Outcome FeedError
first = connect id morning (started [])

nobody : first.feed.session ≡ none
unfolding connect connect_new resume load_session get
nobody = refl

abbrev again : Outcome FeedError
again = connect id later (started first.feed.disk)

resumed : again.feed.session ≡ some session
unfolding connect connect_new resume load_session save_session clear_session next_six_am_ist
    file_for get put
resumed = refl

no_login : again.calls ≡ profile session ∷ ensure_master (codes "key") (codes "token") ∷ []
unfolding connect connect_new resume load_session save_session clear_session next_six_am_ist
    file_for get put
no_login = refl

closes :
    (disconnect record { session = some session; stream = true; disk = [] }).calls
    ≡ close_stream ∷ []
unfolding disconnect
closes = refl

restart-Resumes_example : Resumes id later session 86400000 first.feed.disk
unfolding resume load_session get
restart-Resumes_example =
    restart-Resumes id morning session (started []) later refl (logged_in refl refl refl)

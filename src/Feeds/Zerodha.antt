-- ===== src/Feeds/Zerodha.antt =====
-- The session of Zerodha's feed: the lifecycle in backend/feeds/adapters/zerodha/index.ts.
--
-- What the broker answers during one call is a `World`: whether it accepts the token of the disk, what
-- a login gives, with the credentials that it needs, and whether the master loads; `now` is the clock
-- when the disk is read and `then_` when a session is saved. The directory of the sessions is a part of
-- the state. `stream` is whether the feed has a stream. An absent token is the empty text. Nothing else
-- happens to the feed while it waits for an answer.
pub mod Restart
pub mod Faults
mod Tests
use quantstack_terminal.Common.{
  ℕ, Bool, true, false, List, [], ◌∷◌, ◌++◌, Option, none, some, Text, codes, if◌then◌else◌,
}
use quantstack_terminal.Cache.SessionCache.{
  Directory, save_session, load_session, clear_session, next_six_am_ist,
}
use quantstack_terminal.Feeds.Identity.{is_empty}
use quantstack_terminal.Feeds.Errors.{Thrown, FeedError, classify}

pub record ZerodhaSession : Type 0 where
  pub api_key : Text
  pub access_token : Text
  pub user_id : Text
  pub login_at : ℕ
  pub label : Text

pub record ZerodhaFeed : Type 0 where
  pub session : Option ZerodhaSession
  pub stream : Bool
  pub disk : Directory ZerodhaSession

pub data Login : Type 0 where
  gave : ZerodhaSession → Login
  threw : Thrown → Login

pub record World : Type 0 where
  pub now : ℕ
  pub accepted : Bool
  pub login : Login
  pub then_ : ℕ
  pub writable : Bool
  pub master : Option Thrown

pub data Call : Type 0 where
  profile : ZerodhaSession → Call
  log_in : Call
  ensure_master : Text → Text → Call
  close_stream : Call

-- The feed after a call, what it asked of others, and what it threw.
pub record Outcome (E : Type 0) : Type 0 where
  pub feed : ZerodhaFeed
  pub calls : List Call
  pub fault : Option E

abbrev pub id_of : Option Text → Text
id_of none = codes "zerodha"
id_of (some instance_) =
    if is_empty instance_ then codes "zerodha" else codes "zerodha#" ++ instance_

abbrev pub is_set : Option ZerodhaSession → Bool
is_set none = false
is_set (some s) = true

abbrev pub is_connected : ZerodhaFeed → Bool
is_connected f = is_set f.session

-- The first step of `connect`: the session of the disk, where it is there and the broker takes it.
pub record Resumed : Type 0 where
  pub session : Option ZerodhaSession
  pub disk : Directory ZerodhaSession
  pub calls : List Call

abbrev pub try_cached : Text → World → Directory ZerodhaSession → Option ZerodhaSession → Resumed
try_cached id w disk none = record { session = none; disk = disk; calls = [] }
try_cached id w disk (some cached) =
    if is_empty cached.access_token
    then record { session = none; disk = disk; calls = [] }
    else if w.accepted
    then record { session = some cached; disk = disk; calls = profile cached ∷ [] }
    else record { session = none; disk = clear_session id disk; calls = profile cached ∷ [] }

unfoldable pub resume : Text → World → Directory ZerodhaSession → Resumed
resume id w disk = let found = load_session w.now id disk in try_cached id w found.0 found.1

abbrev pub save :
    Text → World → ZerodhaSession → Directory ZerodhaSession → Directory ZerodhaSession
save id w s disk = save_session w.writable w.then_ id s (next_six_am_ist w.then_) disk

abbrev pub connect_failed : Text → Thrown → List Call → ZerodhaFeed → Outcome FeedError
connect_failed id thrown calls f = record {
  feed = record f { session = none };
  calls = calls;
  fault = some (classify thrown id);
}

abbrev pub load_master :
    Text → Option Thrown → ZerodhaSession → List Call → ZerodhaFeed → Outcome FeedError
load_master id none s calls f = record {
  feed = record f { session = some s };
  calls = calls ++ ensure_master s.api_key s.access_token ∷ [];
  fault = none;
}
load_master id (some thrown) s calls f =
    connect_failed id thrown (calls ++ ensure_master s.api_key s.access_token ∷ []) f

abbrev pub fall_back : Text → World → Login → List Call → ZerodhaFeed → Outcome FeedError
fall_back id w (threw thrown) calls f = connect_failed id thrown (calls ++ log_in ∷ []) f
fall_back id w (gave s) calls f =
    load_master id w.master s (calls ++ log_in ∷ []) (record f { disk = save id w s f.disk })

-- The second step, after the first.
abbrev pub with_resumed :
    Text → World → Option ZerodhaSession → List Call → ZerodhaFeed → Outcome FeedError
with_resumed id w none calls f = fall_back id w w.login calls f
with_resumed id w (some s) calls f = load_master id w.master s calls f

unfoldable pub connect_new : Text → World → ZerodhaFeed → Outcome FeedError
unfolding resume
connect_new id w f =
    let r = resume id w f.disk in with_resumed id w r.session r.calls (record f { disk = r.disk })

unfoldable pub connect : Text → World → ZerodhaFeed → Outcome FeedError
connect id w f =
    let outcome = connect_new id w f in
    if is_connected f then record { feed = f; calls = []; fault = none } else outcome

unfoldable pub adopt_session : Text → World → ZerodhaSession → ZerodhaFeed → Outcome Thrown
adopt_session id w s f = record {
  feed = record f { session = some s; disk = save id w s f.disk };
  calls = ensure_master s.api_key s.access_token ∷ [];
  fault = w.master;
}

unfoldable pub disconnect : ZerodhaFeed → Outcome Thrown
disconnect f = record {
  feed = record f { session = none; stream = false };
  calls = if f.stream then close_stream ∷ [] else [];
  fault = none;
}

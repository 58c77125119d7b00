-- ===== src/Feeds/Zerodha/Restart.antt =====
-- What a process that starts anew does with the session of an earlier one.
use quantstack_terminal.Common.{
  ℕ, ◌+◌, ◌≡◌, refl, ap, sym, arith, ◌++◌, ◌∙◌, Bool, true, false, not, ◌&&◌, inl, inr, List, [],
  ◌∷◌, Option, none, some, Text, ltb, if◌then◌else◌, Bool-cases,
}
use quantstack_terminal.Cache.SessionCache.{Directory, save_session, clear_session, next_six_am_ist}
use quantstack_terminal.Cache.SessionCache.Kept.{load_session-fresh, load_session-expired}
use quantstack_terminal.Feeds.Identity.{is_empty}
use quantstack_terminal.Feeds.Errors.{Thrown}
use quantstack_terminal.Feeds.Zerodha.{
  ZerodhaSession, ZerodhaFeed, World, Login, gave, threw, Call, log_in, connect, resume, save,
  with_resumed, try_cached, connect_new, Resumed, load_master, fall_back, is_set, ensure_master,
}
use quantstack_terminal.Feeds.Zerodha.{is_connected}
use quantstack_terminal.Feeds.Zerodha.{adopt_session}

-- How often a login was asked for.
abbrev pub is_log_in : Call → Bool
is_log_in log_in = true
is_log_in _ = false

abbrev pub logins : List Call → ℕ
logins [] = 0
logins (c ∷ cs) = let rest = logins cs in if is_log_in c then rest + 1 else rest

-- A process that starts on the directory.
abbrev pub started : Directory ZerodhaSession → ZerodhaFeed
started disk = record { session = none; stream = false; disk = disk }

abbrev pub is_usable : World → ZerodhaSession → ℕ → Bool
is_usable v s at = ltb v.now (next_six_am_ist at) && (not (is_empty s.access_token) && v.accepted)

abbrev pub session_of : Login → Option ZerodhaSession
session_of (gave s) = some s
session_of (threw thrown) = none

abbrev pub unless_thrown : Option Thrown → Option ZerodhaSession → Option ZerodhaSession
unless_thrown none session = session
unless_thrown (some thrown) session = none

-- The session of the directory is used while it is usable, and a login asked for else.
pub record Resumes (id : Text) (v : World) (s : ZerodhaSession) (at : ℕ)
    (disk : Directory ZerodhaSession) : Type 0 where
  pub asks : logins (connect id v (started disk)).calls ≡ (if is_usable v s at then 0 else 1)
  pub session :
      (connect id v (started disk)).feed.session
      ≡ unless_thrown v.master (if is_usable v s at then some s else session_of v.login)

logins-snoc :
    (cs : List Call) (c : Call) → logins (cs ++ c ∷ []) ≡ logins cs + (if is_log_in c then 1 else 0)
logins-snoc [] c = ground arith
logins-snoc (d ∷ cs) c = ground (arith, logins-snoc cs c)

abbrev or_login : Option ZerodhaSession → Login → Option ZerodhaSession
or_login none login = session_of login
or_login (some s) login = some s

load_master-logins :
    (id : Text) (master : Option Thrown) (s : ZerodhaSession) (calls : List Call) (f : ZerodhaFeed)
    → logins (load_master id master s calls f).calls ≡ logins calls
load_master-logins id none s calls f =
    ground (arith, logins-snoc calls (ensure_master s.api_key s.access_token))
load_master-logins id (some t) s calls f =
    ground (arith, logins-snoc calls (ensure_master s.api_key s.access_token))

load_master-session :
    (id : Text) (master : Option Thrown) (s : ZerodhaSession) (calls : List Call) (f : ZerodhaFeed)
    → (load_master id master s calls f).feed.session ≡ unless_thrown master (some s)
load_master-session id none s calls f = refl
load_master-session id (some t) s calls f = refl

unless_thrown-none : (master : Option Thrown) → unless_thrown master none ≡ none
unless_thrown-none none = refl
unless_thrown-none (some t) = refl

module _ (id : Text) (v : World) where
  fall_back-logins :
      (login : Login) (calls : List Call) (f : ZerodhaFeed)
      → logins (fall_back id v login calls f).calls ≡ logins calls + 1
  fall_back-logins (threw t) calls f = logins-snoc calls log_in
  fall_back-logins (gave s) calls f =
      load_master-logins id v.master s (calls ++ log_in ∷ [])
        (record f { disk = save id v s f.disk })
      ∙ logins-snoc calls log_in

  fall_back-session :
      (login : Login) (calls : List Call) (f : ZerodhaFeed)
      → (fall_back id v login calls f).feed.session ≡ unless_thrown v.master (session_of login)
  fall_back-session (threw t) calls f = sym (unless_thrown-none v.master)
  fall_back-session (gave s) calls f =
      load_master-session id v.master s (calls ++ log_in ∷ [])
        (record f { disk = save id v s f.disk })

  with_resumed-logins :
      (o : Option ZerodhaSession) (calls : List Call) (f : ZerodhaFeed)
      → logins (with_resumed id v o calls f).calls ≡ logins calls + (if is_set o then 0 else 1)
  with_resumed-logins none calls f = fall_back-logins v.login calls f
  with_resumed-logins (some s) calls f = ground (arith, load_master-logins id v.master s calls f)

  with_resumed-session :
      (o : Option ZerodhaSession) (calls : List Call) (f : ZerodhaFeed)
      → (with_resumed id v o calls f).feed.session ≡ unless_thrown v.master (or_login o v.login)
  with_resumed-session none calls f = fall_back-session v.login calls f
  with_resumed-session (some s) calls f = load_master-session id v.master s calls f

  abbrev takes : ZerodhaSession → Bool
  takes s = not (is_empty s.access_token) && v.accepted

  -- The first step asks for no login, and keeps a session whose token is there and accepted.
  try_cached-logins :
      (disk : Directory ZerodhaSession) (s : ZerodhaSession)
      → logins (try_cached id v disk (some s)).calls ≡ 0
  try_cached-logins disk s = ground arith

  try_cached-session :
      (disk : Directory ZerodhaSession) (s : ZerodhaSession)
      → (try_cached id v disk (some s)).session ≡ (if takes s then some s else none)
  try_cached-session disk s = ground arith

module _ (id : Text) (v : World) (s : ZerodhaSession) (at : ℕ)
    (disk : Directory ZerodhaSession) where
  saved : Directory ZerodhaSession
  saved = save_session true at id s (next_six_am_ist at) disk

  resume-fresh :
      ltb v.now (next_six_am_ist at) ≡ true → resume id v saved ≡ try_cached id v saved (some s)
  unfolding resume saved
  resume-fresh young = rw (load_session-fresh at v.now id s (next_six_am_ist at) disk young) refl

  resume-expired :
      ltb v.now (next_six_am_ist at) ≡ false
      → resume id v saved ≡ try_cached id v (clear_session id saved) none
  unfolding resume saved
  resume-expired old = rw (load_session-expired at v.now id s (next_six_am_ist at) disk old) refl

  connect-started :
      (disk' : Directory ZerodhaSession) (r : Resumed)
      → resume id v disk' ≡ r
      → connect id v (started disk')
        ≡ with_resumed id v r.session r.calls (record (started disk') { disk = r.disk })
  unfolding connect connect_new resume
  connect-started disk' r e =
      ap (λ r. with_resumed id v r.session r.calls (record (started disk') { disk = r.disk })) e

  -- From the answers of the first step to those of the whole.
  Resumes-step :
      (r : Resumed)
      → resume id v saved ≡ r
      → logins r.calls ≡ 0
      → r.session ≡ (if is_usable v s at then some s else none)
      → Resumes id v s at saved
  Resumes-step r step quiet kept =
      let whole = connect-started saved r step in
      let f = record (started saved) { disk = r.disk } in
      record {
        asks =
            ap (λ o. logins o.calls) whole
            ∙ with_resumed-logins id v r.session r.calls f
            ∙ rw (quiet, kept) (ground arith);
        session =
            ap (λ o. o.feed.session) whole
            ∙ with_resumed-session id v r.session r.calls f
            ∙ rw kept (ground arith);
      }

  Resumes-saved : Resumes id v s at saved
  Resumes-saved = elim (Bool-cases (ltb v.now (next_six_am_ist at))) [
    | inl young ↦
        Resumes-step (try_cached id v saved (some s)) (resume-fresh young)
          (try_cached-logins id v saved s) (try_cached-session id v saved s ∙ rw young refl)
    | inr old ↦
        Resumes-step (try_cached id v (clear_session id saved) none) (resume-expired old) refl
          (rw old refl)
  ]

load_master-disk :
    (id : Text) (master : Option Thrown) (s : ZerodhaSession) (calls : List Call) (f : ZerodhaFeed)
    → (load_master id master s calls f).feed.disk ≡ f.disk
load_master-disk id none s calls f = refl
load_master-disk id (some t) s calls f = refl

module _ (id : Text) (w : World) (s : ZerodhaSession) (f : ZerodhaFeed) where
  -- The two ways to a directory that has the session `s`: a login, where the feed had no session and
  -- found none on the disk, and a session that the browser's login gave.
  pub data Saves : Directory ZerodhaSession → Type 0 where
    logged_in :
        is_connected f ≡ false
        → (resume id w f.disk).session ≡ none
        → w.login ≡ gave s
        → Saves (connect id w f).feed.disk
    adopted : Saves (adopt_session id w s f).feed.disk

  connect-disk :
      is_connected f ≡ false
      → (resume id w f.disk).session ≡ none
      → w.login ≡ gave s
      → (connect id w f).feed.disk ≡ save id w s (resume id w f.disk).disk
  unfolding connect connect_new save_session
  connect-disk fresh nothing answer =
      let r = resume id w f.disk in
      rw (fresh, nothing, answer)
        (load_master-disk id w.master s (r.calls ++ log_in ∷ [])
          (record f { disk = save id w s r.disk }))

  -- However the session `s` was saved, while the directory could be written and whether or not the
  -- master loaded then: a process that starts on the directory asks for a login on its first `connect`
  -- only if six o'clock has come since, the session has no token, or the broker refuses the token, and
  -- then once. Unless loading the master throws, it has `s` after it if it asked for none, and what the
  -- login gave else.
  pub restart-Resumes :
      (v : World) {disk : Directory ZerodhaSession}
      → w.writable ≡ true
      → Saves disk
      → Resumes id v s w.then_ disk
  unfolding adopt_session saved resume
  restart-Resumes v writable (logged_in fresh nothing answer) =
      rw (connect-disk fresh nothing answer, writable)
        (Resumes-saved id v s w.then_ (resume id w f.disk).disk)
  restart-Resumes v writable adopted = rw writable (Resumes-saved id v s w.then_ f.disk)

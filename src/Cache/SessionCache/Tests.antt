-- ===== src/Cache/SessionCache/Tests.antt =====
-- Runs of the sessions on disk.
use quantstack_terminal.Common.{
  ℕ, ◌≡◌, ◌↔◌, ◌≢◌, refl, true, false, [], none, some, Text, codes, get, put, remove,
}
use quantstack_terminal.Cache.SessionCache.{
  Directory, file_for, save_session, load_session, clear_session, next_six_am_ist,
}
use quantstack_terminal.Cache.SessionCache.Expiry.{IsNextSix, next_six_am_ist_iff}
use quantstack_terminal.Cache.SessionCache.Kept.{ComesBack, load_session-save_session}

-- Half past five in India, on the second day.
abbrev early : ℕ
early = 86400000

six_today : next_six_am_ist early ≡ 88200000
unfolding next_six_am_ist
six_today = refl

six_tomorrow : next_six_am_ist 88200000 ≡ 174600000
unfolding next_six_am_ist
six_tomorrow = refl

next_six_am_ist_iff_example : (88200000 ≡ next_six_am_ist early) ↔ IsNextSix early 88200000
next_six_am_ist_iff_example = next_six_am_ist_iff early 88200000

-- A sign that is not plain is replaced, so these two ids share a file.
shared_file : file_for (codes "kotak.2") ≡ file_for (codes "kotak 2")
unfolding file_for
shared_file = refl

abbrev angel : Text
angel = codes "angel"

abbrev second : Text
second = codes "angel#2"

abbrev kept : Directory Text
kept = save_session true 5 angel (codes "jwt") 100 []

found_again : (load_session 99 angel kept).1 ≡ some (codes "jwt")
unfolding load_session save_session clear_session file_for get put remove
found_again = refl

run_out : load_session 100 angel kept ≡ ([], none)
unfolding load_session save_session clear_session file_for get put remove
run_out = refl

not_written : save_session false 5 angel (codes "jwt") 100 [] ≡ []
unfolding save_session
not_written = refl

apart : file_for angel ≢ file_for second
unfolding file_for
apart = cc

load_session-save_session_example : ComesBack 99 angel second (codes "jwt") 100 [] kept
load_session-save_session_example =
    load_session-save_session 5 99 angel second (codes "jwt") 100 [] tt apart

-- ===== src/Feeds/Health/Recovery.antt =====
-- What the probe does to an open feed whose cooldown is over.
use quantstack_terminal.Common.{
  ℕ, ◌+◌, ◌*◌, ◌≤◌, min, ◌≡◌, ◌∙◌, refl, ap, true, false, none, some, text_eq, arith, get, put,
  get-put_self,
}
use quantstack_terminal.Feeds.Breaker.{
  FeedId, closed, opened, half_open, Config, Entry, Entries, entry_of, attempt, succeed, fail,
  can_attempt, record_success, record_failure, state_of,
}
use quantstack_terminal.Feeds.Errors.{Thrown, classify}
use quantstack_terminal.Feeds.Health.{ProbeWorld, settle, probe_feed}

module _ (cfg : Config) (w : ProbeWorld) where
  module _ (id : FeedId) (m : Entries) (e : Entry) (found : get id m ≡ some e)
      (op : e.state ≡ opened) (over : e.opened_at + e.cooldown ≤ w.checked_at id) where
    abbrev pub claimed : Entry
    claimed = record e { state = half_open; last_state_at = w.checked_at id; probing = true }

    probe_feed-claims : probe_feed cfg w id m ≡ settle cfg w id (w.during id (put id claimed m))
    unfolding probe_feed can_attempt entry_of attempt state_of
    probe_feed-claims = rw (found, state_of, entry_of) (ground arith)

    entry_of-claimed :
        (now : ℕ) (m' : Entries) → get id m' ≡ some claimed → entry_of cfg now id m' ≡ claimed
    unfolding entry_of
    entry_of-claimed now m' h = rw (h, entry_of)

    module _ (alone : get id (w.during id (put id claimed m)) ≡ some claimed) where
      -- An open feed whose cooldown is over, and whose probe succeeds, is closed by the probe with its
      -- faults and its cooldown reset, unless other requests changed its entry meanwhile.
      pub probe_recovers :
          w.pinged id ≡ none
          → get id (probe_feed cfg w id m).0
            ≡ some (record {
              state = closed;
              failures = 0;
              cooldown = cfg.cooldown_ms;
              opened_at = e.opened_at;
              last_error = none;
              probing = false;
              trips = e.trips;
              last_state_at = w.settled_at id;
            })
      unfolding settle record_success succeed
      probe_recovers ping = rw probe_feed-claims (
          rw (ping, settle)
            (get-put_self id _ (w.during id (put id claimed m))
              ∙ ap some (rw (entry_of-claimed (w.settled_at id) _ alone) refl)))

      -- If its probe fails, the feed is open again from the time of the failure, with its cooldown
      -- doubled up to the maximum and one more trip, whatever the kind of the error.
      pub probe_reopens :
          (err : Thrown)
          → w.pinged id ≡ some err
          → get id (probe_feed cfg w id m).0
            ≡ some (record {
              state = opened;
              failures = e.failures;
              cooldown = min (e.cooldown * 2) cfg.cooldown_max;
              opened_at = w.settled_at id;
              last_error = some (classify err id).message;
              probing = false;
              trips = e.trips + 1;
              last_state_at = w.settled_at id;
            })
      unfolding settle record_failure fail
      probe_reopens err ping = rw probe_feed-claims (
          rw (ping, settle)
            (get-put_self id _ (w.during id (put id claimed m))
              ∙ ap some (rw (entry_of-claimed (w.settled_at id) _ alone) refl)))

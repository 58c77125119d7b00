-- ===== src/Feeds/Breaker/Invariant.antt =====
-- What holds of every entry of the breaker, whatever calls were made.
use quantstack_terminal.Common.{
  ℕ, ◌≤◌, ◌<◌, ◌≡◌, ◌≢◌, true, List, [], ◌∷◌, Text, text_eq, arith, Values, Values-put,
  Values-remove, Values-get, Option-cases, get, inl, inr,
}
use quantstack_terminal.Feeds.Breaker.{
  FeedId, closed, half_open, Config, Entry, Entries, new_entry, entry_of, attempt, succeed, fail,
  can_attempt, record_success, record_failure, status, reset, reset_all, Call, attempted, succeeded,
  failed, asked, cleared, cleared_all, step, run,
}

pub record IsUsable (cfg : Config) : Type 0 where
  pub some_faults : 0 < cfg.threshold
  pub ladder : cfg.cooldown_ms ≤ cfg.cooldown_max

pub record IsSound (cfg : Config) (e : Entry) : Type 0 where
  pub half_open_probes : e.state ≡ half_open → e.probing ≡ true
  pub probes_half_open : e.probing ≡ true → e.state ≡ half_open
  pub closed_few : e.state ≡ closed → e.failures < cfg.threshold
  pub tripped_many : e.state ≢ closed → cfg.threshold ≤ e.failures
  pub tripped_counted : e.state ≢ closed → 0 < e.trips
  pub cooldown_low : cfg.cooldown_ms ≤ e.cooldown
  pub cooldown_high : e.cooldown ≤ cfg.cooldown_max

module _ (cfg : Config) (u : IsUsable cfg) where
  new_entry-IsSound : (now : ℕ) → IsSound cfg (new_entry cfg now)
  new_entry-IsSound now = ground arith

  pub entry_of-IsSound :
      (now : ℕ) (id : FeedId) (m : Entries)
      → Values (IsSound cfg) m
      → IsSound cfg (entry_of cfg now id m)
  unfolding entry_of
  entry_of-IsSound now id m h = elim (Option-cases (get id m)) [
    | inl missing ↦ rw (missing, entry_of) (new_entry-IsSound now)
    | inr (e, found) ↦ rw (found, entry_of) (Values-get (IsSound cfg) id m h found)
  ]

  pub attempt-IsSound : (now : ℕ) (e : Entry) → IsSound cfg e → IsSound cfg (attempt now e).0
  unfolding attempt
  attempt-IsSound now e h = ground arith

  pub succeed-IsSound : (now : ℕ) (e : Entry) → IsSound cfg e → IsSound cfg (succeed cfg now e)
  unfolding succeed
  succeed-IsSound now e h = ground arith

  pub fail-IsSound :
      (now : ℕ) (reason : Text) (e : Entry) → IsSound cfg e → IsSound cfg (fail cfg now reason e)
  unfolding fail
  fail-IsSound now reason e h = ground arith

  step-IsSound :
      (c : Call) (m : Entries) → Values (IsSound cfg) m → Values (IsSound cfg) (step cfg c m)
  unfolding step can_attempt record_success record_failure status reset reset_all
  step-IsSound (attempted now id) m h =
      Values-put (IsSound cfg) id _ m
        (attempt-IsSound now (entry_of cfg now id m) (entry_of-IsSound now id m h)) h
  step-IsSound (succeeded now id) m h =
      Values-put (IsSound cfg) id _ m
        (succeed-IsSound now (entry_of cfg now id m) (entry_of-IsSound now id m h)) h
  step-IsSound (failed now id reason) m h =
      Values-put (IsSound cfg) id _ m
        (fail-IsSound now reason (entry_of cfg now id m) (entry_of-IsSound now id m h)) h
  step-IsSound (asked now id) m h = Values-put (IsSound cfg) id _ m (entry_of-IsSound now id m h) h
  step-IsSound (cleared id) m h = Values-remove (IsSound cfg) id m h
  step-IsSound cleared_all m h = tt

  pub run_from-IsSound :
      (cs : List Call) (m : Entries) → Values (IsSound cfg) m → Values (IsSound cfg) (run cfg cs m)
  unfolding run
  run_from-IsSound [] m h = h
  run_from-IsSound (c ∷ cs) m h = run_from-IsSound cs (step cfg c m) (step-IsSound c m h)

  -- After any sequence of calls from the empty map, in any order and at any times, each entry is
  -- half-open exactly while a probe is out, is closed exactly while it has fewer faults than the
  -- threshold, has been counted as tripped if it is not closed, and has a cooldown between the base
  -- and the maximum; the threshold is positive, and the base at most the maximum.
  pub run-IsSound : (cs : List Call) → Values (IsSound cfg) (run cfg cs [])
  run-IsSound cs = run_from-IsSound cs [] tt

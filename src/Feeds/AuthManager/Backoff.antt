-- ===== src/Feeds/AuthManager/Backoff.antt =====
-- The backoff after a failed login.
use quantstack_terminal.Common.{
  ℕ, ◌+◌, ◌≡◌, ◌∙◌, refl, ap, true, false, [], ◌∷◌, some, text_eq, inl, inr, if◌then◌else◌,
  Bool-cases, get, ltb, modify, get_elem?, get_elem?-modify_self, get_or-get_elem?,
}
use quantstack_terminal.Feeds.Breaker.{FeedId}
use quantstack_terminal.Feeds.Errors.{Thrown, classify}
use quantstack_terminal.Feeds.AuthManager.{
  AuthState, Manager, new_state, state_of, refused, started, mark_failed, mark_finished, ensure_on,
  ensure_connected, backoff_for, backoff_error, step, login_failed, login_finished, run,
}

-- The object after its login has failed at `now`.
abbrev pub after_failure : ℕ → Thrown → AuthState → AuthState
after_failure now err o = record o {
  in_flight = false;
  connecting = false;
  settling = false;
  failures = o.failures + 1;
  last_error = some (classify err o.feed);
  retry_after = now + backoff_for o.failures;
}

finished_failed :
    (now : ℕ) (err : Thrown) (o : AuthState)
    → o.connecting ≡ true
    → mark_finished (mark_failed now err o) ≡ after_failure now err o
unfolding mark_finished mark_failed
finished_failed now err o busy = rw busy refl

state_of-found :
    (id : FeedId) (m : Manager) (ref : ℕ) → get id m.state ≡ some ref → state_of id m ≡ (m, ref)
unfolding state_of
state_of-found id m ref at = rw (at, state_of) refl

ensure_on-answer :
    (t : ℕ) (id : FeedId) (m : Manager) (ref : ℕ) (s : AuthState)
    → get_elem? m.objects ref ≡ some s
    → s.in_flight ≡ false
    → (ensure_on false t id (m, ref)).1
      ≡ (if ltb t s.retry_after then refused (backoff_error t id s) else started ref)
unfolding ensure_on
ensure_on-answer t id m ref s e idle =
    let same = get_or-get_elem? m.objects ref (new_state id) e in
    elim (Bool-cases (ltb t s.retry_after)) [
      | inl waiting ↦ rw (same, waiting) refl
      | inr free ↦ rw (same, free, idle) refl
    ]

failed_object :
    (now : ℕ) (err : Thrown) (ref : ℕ) (o : AuthState) (m : Manager)
    → get_elem? m.objects ref ≡ some o
    → o.connecting ≡ true
    → get_elem? (run (login_failed now ref err ∷ login_finished ref ∷ []) m).objects ref
      ≡ some (after_failure now err o)
unfolding run step
failed_object now err ref o m e busy =
    get_elem?-modify_self ref mark_finished (modify ref (mark_failed now err) m.objects)
      (get_elem?-modify_self ref (mark_failed now err) m.objects e)
    ∙ ap some (finished_failed now err o busy)

-- After a failed login of a feed, a request that finds it not connected is refused until the step of
-- the ladder for the earlier failures has passed, with the error that names the failure; from then on
-- it begins a new login.
pub login_failed-backoff :
    (now t : ℕ) (id : FeedId) (err : Thrown) (ref : ℕ) (o : AuthState) (m : Manager)
    → get id m.state ≡ some ref
    → get_elem? m.objects ref ≡ some o
    → o.connecting ≡ true
    → (ensure_connected false t id (run (login_failed now ref err ∷ login_finished ref ∷ []) m)).1
      ≡ (if ltb t (now + backoff_for o.failures)
          then refused (backoff_error t id (after_failure now err o))
          else started ref)
unfolding ensure_connected run step
login_failed-backoff now t id err ref o m at e busy =
    let m' = run (login_failed now ref err ∷ login_finished ref ∷ []) m in
    let kept : get id m'.state ≡ get id m.state = refl in
    ap (λ (x : Manager × ℕ). (ensure_on false t id x).1) (state_of-found id m' ref (kept ∙ at))
    ∙ ensure_on-answer t id m' ref (after_failure now err o) (failed_object now err ref o m e busy)
        refl

-- ===== src/Feeds/Breaker/Probe.antt =====
-- Who is let through: the single probe of a half-open feed, and the independence of the feeds.
use quantstack_terminal.Common.{
  ℕ, ◌+◌, ◌≤◌, ◌≡◌, ◌≢◌, ◌∙◌, refl, Bool, true, false, not, ◌||◌, List, [], ◌∷◌, none, some, inl,
  inr, arith, text_eq, text_beq_iff, text_beq, All, Values, Values-get, get, put, get-put_self,
  get-put_ne, Option-cases, Bool-cases, get-remove_ne,
}
use quantstack_terminal.Feeds.Breaker.{
  FeedId, opened, half_open, same_state, Config, Entry, Entries, entry_of, attempt, can_attempt,
  record_success, record_failure, state_of, status, reset, Call, attempted, succeeded, failed,
  asked, cleared, cleared_all, step, run,
}
use quantstack_terminal.Feeds.Breaker.Invariant.{IsSound}

-- The call neither records an outcome of the feed nor resets it; it may ask for it.
abbrev pub KeepsProbe : FeedId → Call → Type 0
KeepsProbe id (attempted now j) = Unit
KeepsProbe id (succeeded now j) = j ≢ id
KeepsProbe id (failed now j reason) = j ≢ id
KeepsProbe id (asked now j) = Unit
KeepsProbe id (cleared j) = j ≢ id
KeepsProbe id cleared_all = ⊥

-- The call is about another feed.
abbrev pub Avoids : FeedId → Call → Type 0
Avoids id (attempted now j) = j ≢ id
Avoids id (succeeded now j) = j ≢ id
Avoids id (failed now j reason) = j ≢ id
Avoids id (asked now j) = j ≢ id
Avoids id (cleared j) = j ≢ id
Avoids id cleared_all = ⊥

get-reset_ne : (id j : FeedId) (m : Entries) → j ≢ id → get id (reset j m) ≡ get id m
unfolding reset
get-reset_ne id j m d = get-remove_ne j id m d

module _ (cfg : Config) (id : FeedId) where
  step-Avoids : (c : Call) (m : Entries) → Avoids id c → get id (step cfg c m) ≡ get id m
  unfolding step can_attempt record_success record_failure status
  step-Avoids (attempted now j) m d = get-put_ne j id _ m d
  step-Avoids (succeeded now j) m d = get-put_ne j id _ m d
  step-Avoids (failed now j reason) m d = get-put_ne j id _ m d
  step-Avoids (asked now j) m d = get-put_ne j id _ m d
  step-Avoids (cleared j) m d = get-reset_ne id j m d
  step-Avoids cleared_all m d = absurd d

  -- Calls about other feeds, of any kind and number, leave the feed's entry as it was.
  pub run-Avoids :
      (cs : List Call) (m : Entries) → All (Avoids id) cs → get id (run cfg cs m) ≡ get id m
  unfolding run
  run-Avoids [] m h = refl
  run-Avoids (c ∷ cs) m h = run-Avoids cs (step cfg c m) h.1 ∙ step-Avoids c m h.0

  module _ (e : Entry) (half : e.state ≡ half_open) (out : e.probing ≡ true) where
    attempt-probing : (now : ℕ) → attempt now e ≡ (e, false)
    unfolding attempt
    attempt-probing now = ground arith

    entry_of-found : (now : ℕ) (m : Entries) → get id m ≡ some e → entry_of cfg now id m ≡ e
    unfolding entry_of
    entry_of-found now m found = rw (found, entry_of)

    step_keeps :
        (c : Call) (m : Entries)
        → KeepsProbe id c
        → get id m ≡ some e
        → get id (step cfg c m) ≡ some e
    unfolding step can_attempt status
    step_keeps (attempted now j) m k found = elim (Bool-cases (text_beq j id)) [
      | inl same ↦
          let eq : j ≡ id = (text_beq_iff j id).0 same in
          rw eq (rw (entry_of-found now m found, attempt-probing now) (get-put_self id e m))
      | inr other ↦ get-put_ne j id _ m (λ eq. cc ((text_beq_iff j id).1 eq)) ∙ found
    ]
    step_keeps (succeeded now j) m d found = step-Avoids (succeeded now j) m d ∙ found
    step_keeps (failed now j reason) m d found = step-Avoids (failed now j reason) m d ∙ found
    step_keeps (asked now j) m k found = elim (Bool-cases (text_beq j id)) [
      | inl same ↦
          let eq : j ≡ id = (text_beq_iff j id).0 same in
          rw eq (rw (entry_of-found now m found) (get-put_self id e m))
      | inr other ↦ get-put_ne j id _ m (λ eq. cc ((text_beq_iff j id).1 eq)) ∙ found
    ]
    step_keeps (cleared j) m d found = step-Avoids (cleared j) m d ∙ found
    step_keeps cleared_all m d found = absurd d

    run_keeps :
        (cs : List Call) (m : Entries)
        → All (KeepsProbe id) cs
        → get id m ≡ some e
        → get id (run cfg cs m) ≡ some e
    unfolding run
    run_keeps [] m h found = found
    run_keeps (c ∷ cs) m h found = run_keeps cs (step cfg c m) h.1 (step_keeps c m h.0 found)

    run_refuses :
        (cs : List Call) (later : ℕ) (m : Entries)
        → All (KeepsProbe id) cs
        → get id m ≡ some e
        → (can_attempt cfg later id (run cfg cs m)).1 ≡ false
    unfolding can_attempt
    run_refuses cs later m h found =
        rw (entry_of-found later (run cfg cs m) (run_keeps cs m h found), attempt-probing later)

  -- The attempt that finds an open feed's cooldown over is let through. From then on, whatever calls
  -- come and at any times, every further attempt on the feed is refused until an outcome of it is
  -- recorded or it is reset.
  pub single_probe :
      (now : ℕ) (m : Entries) (e : Entry) (cs : List Call) (later : ℕ)
      → get id m ≡ some e
      → e.state ≡ opened
      → e.opened_at + e.cooldown ≤ now
      → All (KeepsProbe id) cs
      → ((can_attempt cfg now id m).1 ≡ true)
        × ((can_attempt cfg later id (run cfg cs (can_attempt cfg now id m).0)).1 ≡ false)
  single_probe now m e cs later found op over keeps =
      let e' : Entry = record e { state = half_open; last_state_at = now; probing = true } in
      let taken : can_attempt cfg now id m ≡ (put id e' m, true) =
        unfold can_attempt attempt entry_of in rw (found, entry_of) (ground arith) in
      rw taken (refl, run_refuses e' refl refl cs later (put id e' m) keeps (get-put_self id e' m))

abbrev pub is_probing : FeedId → Entries → Bool
is_probing id m = elim (get id m) [ none ↦ false | some e ↦ e.probing ]

-- An attempt is let through exactly when the reported state is not open and no probe is out, on a
-- map whose entries are sound.
pub can_attempt-state_of :
    (cfg : Config) (now : ℕ) (id : FeedId) (m : Entries)
    → Values (IsSound cfg) m
    → (can_attempt cfg now id m).1 ≡ not (same_state (state_of now id m) opened || is_probing id m)
unfolding can_attempt state_of attempt entry_of
can_attempt-state_of cfg now id m h = elim (Option-cases (get id m)) [
  | inl missing ↦ rw (missing, entry_of, state_of, is_probing) refl
  | inr (e, found) ↦
      let s = Values-get (IsSound cfg) id m h found in
      rw (found, entry_of, state_of, is_probing) (ground arith)
]

-- ===== src/Feeds/Router/Sound.antt =====
-- What a call leaves in the breaker.
use mathlib.Core.Path.{subst}
use quantstack_terminal.Common.{
  ℕ, ◌≡◌, ◌≢◌, ◌⊎◌, inl, inr, refl, sym, ◌∙◌, false, List, [], ◌∷◌, Option, none, Text, text_eq,
  text_beq, text_beq_iff, arith, Bool-cases, Values, Values-put, get, put, get-put, if◌then◌else◌,
  beq_of_ne,
}
use quantstack_terminal.Feeds.Breaker.{
  FeedId, Config, Entry, Entries, entry_of, attempt, succeed, fail, can_attempt, record_success,
  record_failure,
}
use quantstack_terminal.Feeds.Breaker.Invariant.{
  IsUsable, IsSound, entry_of-IsSound, attempt-IsSound, succeed-IsSound, fail-IsSound,
}
use quantstack_terminal.Feeds.Breaker.Probe.{is_probing}
use quantstack_terminal.Feeds.Errors.{FeedError, counts_as_failure, should_failover, classify}
use quantstack_terminal.Feeds.Types.{Need}
use quantstack_terminal.Feeds.Router.{
  Feed, Degradation, RouterState, World, passed_over, called, consider, after_success, after_fault,
  walk, route,
}
use quantstack_terminal.Feeds.Router.Served.{Decision-cases, Answer-cases, consider-IsCalled}
use quantstack_terminal.Common.{Option-cases}

is_probing-put :
    (k j : FeedId) (e : Entry) (m : Entries)
    → is_probing j (put k e m) ≡ (if text_beq k j then e.probing else is_probing j m)
is_probing-put k j e m = elim (Bool-cases (text_beq k j)) [
  | inl same ↦ rw (get-put k j e m, is_probing) (rw same refl)
  | inr other ↦ rw (get-put k j e m, is_probing) (rw other refl)
]

-- The entries are sound, and no probe is out but perhaps one of the feed.
pub record IsQuietBut (cfg : Config) (id : FeedId) (m : Entries) : Type 0 where
  pub sound : Values (IsSound cfg) m
  pub quiet : (j : FeedId) → j ≢ id → is_probing j m ≡ false

-- The entries are sound, and no probe is out.
pub record IsQuiet (cfg : Config) (m : Entries) : Type 0 where
  pub sound : Values (IsSound cfg) m
  pub quiet : (j : FeedId) → is_probing j m ≡ false

module _ (cfg : Config) (u : IsUsable cfg) where
  succeed-quiet : (now : ℕ) (e : Entry) → (succeed cfg now e).probing ≡ false
  unfolding succeed
  succeed-quiet now e = ground arith

  fail-quiet :
      (now : ℕ) (reason : Text) (e : Entry)
      → IsSound cfg e
      → (fail cfg now reason e).probing ≡ false
  unfolding fail
  fail-quiet now reason e h = ground arith

  put-IsQuiet :
      (id : FeedId) (e : Entry) (m : Entries)
      → IsSound cfg e
      → e.probing ≡ false
      → IsQuietBut cfg id m
      → IsQuiet cfg (put id e m)
  put-IsQuiet id e m ok q h = record {
    sound = Values-put (IsSound cfg) id e m ok h.sound;
    quiet = λ j. elim (Bool-cases (text_beq id j)) [
      | inl same ↦ is_probing-put id j e m ∙ rw same q
      | inr other ↦
          is_probing-put id j e m ∙ rw other (h.quiet j (λ eq. cc ((text_beq_iff id j).1 (sym eq))))
    ];
  }

  record_success-IsQuiet :
      (now : ℕ) (id : FeedId) (m : Entries)
      → IsQuietBut cfg id m
      → IsQuiet cfg (record_success cfg now id m)
  unfolding record_success
  record_success-IsQuiet now id m h =
      put-IsQuiet id _ m (succeed-IsSound cfg u now _ (entry_of-IsSound cfg u now id m h.sound))
        (succeed-quiet now _) h

  record_failure-IsQuiet :
      (now : ℕ) (id : FeedId) (reason : Text) (m : Entries)
      → IsQuietBut cfg id m
      → IsQuiet cfg (record_failure cfg now id reason m)
  unfolding record_failure
  record_failure-IsQuiet now id reason m h =
      let ok = entry_of-IsSound cfg u now id m h.sound in
      put-IsQuiet id _ m (fail-IsSound cfg u now reason _ ok) (fail-quiet now reason _ ok) h

  can_attempt-IsQuietBut :
      (now : ℕ) (id : FeedId) (m : Entries)
      → IsQuiet cfg m
      → IsQuietBut cfg id (can_attempt cfg now id m).0
  unfolding can_attempt
  can_attempt-IsQuietBut now id m h = record {
    sound =
        Values-put (IsSound cfg) id _ m
          (attempt-IsSound cfg u now _ (entry_of-IsSound cfg u now id m h.sound)) h.sound;
    quiet = λ j d.
        let other : text_beq id j ≡ false = beq_of_ne id j (λ eq. d (sym eq)) in
        is_probing-put id j _ m ∙ rw other (h.quiet j);
  }

  attempt_refused : (now : ℕ) (e : Entry) → (attempt now e).1 ≡ false → (attempt now e).0 ≡ e
  unfolding attempt
  attempt_refused now e r = ground arith

  entry_of-quiet :
      (now : ℕ) (id : FeedId) (m : Entries)
      → is_probing id m ≡ false
      → (entry_of cfg now id m).probing ≡ false
  unfolding entry_of
  entry_of-quiet now id m h = elim (Option-cases (get id m)) [
    | inl missing ↦ rw (missing, entry_of) refl
    | inr (e, found) ↦
        let q : e.probing ≡ false = rw (found, is_probing) at h in rw (found, entry_of) q
  ]

  can_attempt_refused :
      (now : ℕ) (id : FeedId) (m : Entries)
      → IsQuiet cfg m
      → (can_attempt cfg now id m).1 ≡ false
      → IsQuiet cfg (can_attempt cfg now id m).0
  unfolding can_attempt
  can_attempt_refused now id m h r =
      let e = entry_of cfg now id m in
      let ok = entry_of-IsSound cfg u now id m h.sound in
      put-IsQuiet id _ m (attempt-IsSound cfg u now e ok)
        (rw (attempt_refused now e r) (entry_of-quiet now id m (h.quiet id)))
        (record { sound = h.sound; quiet = λ j d. h.quiet j })

  module _ {V : Type 0} (w : World V) (need : Need) where
    -- What a decision leaves in the breaker.
    passed_over-entries :
        (f : Feed) (s s' : RouterState) (reason : Text)
        → consider cfg w need f s ≡ passed_over reason s'
        → (s' ≡ s)
          ⊎ ((s'.entries ≡ (can_attempt cfg (w.checked_at f.id) f.id s.entries).0)
              × ((can_attempt cfg (w.checked_at f.id) f.id s.entries).1 ≡ false))
    unfolding consider
    passed_over-entries f s s' reason e = ground arith

    passed_over-IsQuiet :
        (f : Feed) (s s' : RouterState) (reason : Text)
        → consider cfg w need f s ≡ passed_over reason s'
        → IsQuiet cfg s.entries
        → IsQuiet cfg s'.entries
    passed_over-IsQuiet f s s' reason e h = elim (passed_over-entries f s s' reason e) [
      | inl same ↦ subst (λ x. IsQuiet cfg x.entries) (sym same) h
      | inr (left, refused) ↦
          subst (IsQuiet cfg) (sym left)
            (can_attempt_refused (w.checked_at f.id) f.id s.entries h refused)
    ]

    called-IsQuietBut :
        (f : Feed) (s s' : RouterState) (i : Text) (t : Option Degradation)
        → consider cfg w need f s ≡ called i t s'
        → IsQuiet cfg s.entries
        → IsQuietBut cfg f.id s'.entries
    called-IsQuietBut f s s' i t e h =
        let c = consider-IsCalled cfg w need f s s' i t e in
        subst (λ x. IsQuietBut cfg f.id x.entries) (sym c.claimed)
          (can_attempt-IsQuietBut (w.checked_at f.id) f.id s.entries h)

    after_success-IsQuiet :
        (f : Feed) (t : Option Degradation) (s : RouterState)
        → IsQuietBut cfg f.id s.entries
        → IsQuiet cfg (after_success cfg w need f t s).entries
    unfolding after_success
    after_success-IsQuiet f t s h = record_success-IsQuiet (w.settled_at f.id) f.id s.entries h

    after_fault-IsQuiet :
        (f : Feed) (fe : FeedError) (s : RouterState)
        → IsQuietBut cfg f.id s.entries
        → IsQuiet cfg (after_fault cfg w need f fe s).entries
    unfolding after_fault
    after_fault-IsQuiet f fe s h = elim (Bool-cases (counts_as_failure fe.code)) [
      | inl yes_ ↦ rw yes_ (record_failure-IsQuiet (w.settled_at f.id) f.id fe.message s.entries h)
      | inr no_ ↦ rw no_ (record_success-IsQuiet (w.settled_at f.id) f.id s.entries h)
    ]

    module _
        (others : (id : FeedId) (s : RouterState)
          → IsQuietBut cfg id s.entries
          → IsQuietBut cfg id (w.during id s).entries) where
      walk-IsQuiet :
          (label : Text) (fs : List Feed) (skipped : List Text) (fault : Option FeedError)
          (s : RouterState)
          → IsQuiet cfg s.entries
          → IsQuiet cfg (walk cfg w need label fs skipped fault s).0.entries
      unfolding walk
      walk-IsQuiet label [] skipped fault s h = h
      walk-IsQuiet label (f ∷ fs) skipped fault s h =
          elim (Decision-cases (consider cfg w need f s)) [
            | inl (reason, s₁, c) ↦
                rw (c, walk)
                  (walk-IsQuiet label fs _ fault s₁ (passed_over-IsQuiet f s s₁ reason c h))
            | inr (i, t, s₁, c) ↦
                let h' = others f.id s₁ (called-IsQuietBut f s s₁ i t c h) in
                elim (Answer-cases (w.served f.id i)) [
                  | inl (v, a) ↦ rw (c, a, walk) (after_success-IsQuiet f t _ h')
                  | inr (err, a) ↦ elim (Bool-cases (should_failover (classify err f.id).code)) [
                    | inl on ↦
                        rw (c, a, on, walk)
                          (walk-IsQuiet label fs _ _ _ (after_fault-IsQuiet f _ _ h'))
                    | inr stop ↦ rw (c, a, stop, walk) (after_fault-IsQuiet f _ _ h')
                  ]
                ]
          ]

      -- A call gives back every probe that it claimed, however it ends: if the breaker's entries are
      -- sound with no probe out before it, so they are after it. The other requests that run while a
      -- feed is awaited may do anything that keeps the entries sound and puts out no probe of another
      -- feed; the threshold is positive and the base cooldown at most the maximum.
      pub route-IsQuiet :
          (label : Text) (fs : List Feed) (s : RouterState)
          → IsQuiet cfg s.entries
          → IsQuiet cfg (route cfg w need label fs s).0.entries
      unfolding route
      route-IsQuiet label [] s h = h
      route-IsQuiet label (f ∷ fs) s h = walk-IsQuiet label (f ∷ fs) [] none s h

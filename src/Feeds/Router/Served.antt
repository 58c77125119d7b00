-- ===== src/Feeds/Router/Served.antt =====
-- Which feed an answer comes from.
use mathlib.Core.Path.{subst}
use quantstack_terminal.Common.{
  ◌≡◌, ◌⊎◌, inl, inr, refl, ap, true, false, List, [], ◌∷◌, ◌++◌, Option, none, some, Text, text_eq,
  arith, Bool-cases,
}
use quantstack_terminal.Feeds.Breaker.{Config, can_attempt}
use quantstack_terminal.Feeds.Errors.{FeedError, should_failover, Thrown, classify}
use quantstack_terminal.Feeds.Types.{Need, Support, supported, lacking, supports}
use quantstack_terminal.Feeds.Router.{
  Feed, Degradation, RouterState, Answer, answered, threw, returned, World, serving,
  choose_interval, Choice, unserved, after_fault, Decision, passed_over, called, base_need,
  consider, after_success, walk, route,
}

pub Decision-cases :
    (d : Decision)
    → ((reason : Text) × (s : RouterState) × (d ≡ passed_over reason s))
      ⊎ ((i : Text) × (t : Option Degradation) × (s : RouterState) × (d ≡ called i t s))
Decision-cases (passed_over reason s) = inl (reason, s, refl)
Decision-cases (called i t s) = inr (i, t, s, refl)

Support-cases : (x : Support) → ((reason : Text) × (x ≡ lacking reason)) ⊎ (x ≡ supported)
Support-cases (lacking reason) = inl (reason, refl)
Support-cases supported = inr refl

Choice-cases :
    (c : Choice) → (c ≡ unserved) ⊎ ((i : Text) × (t : Option Degradation) × (c ≡ serving i t))
Choice-cases unserved = inl refl
Choice-cases (serving i t) = inr (i, t, refl)

over_inj :
    {reason reason' : Text} {s s' : RouterState}
    → passed_over reason s ≡ passed_over reason' s'
    → s ≡ s'
over_inj e = cc

pub Answer-cases :
    {V : Type 0} (a : Answer V) → ((v : V) × (a ≡ answered v)) ⊎ ((err : Thrown) × (a ≡ threw err))
Answer-cases (answered v) = inl (v, refl)
Answer-cases (threw err) = inr (err, refl)

module _ {V : Type 0} (cfg : Config) (w : World V) (need : Need) where
  -- The feed was called: what let it through.
  pub record IsCalled (f : Feed) (i : Text) (t : Option Degradation) (s s' : RouterState)
      : Type 0 where
    pub able : supports (w.checked_at f.id) f.capabilities (base_need cfg w need) ≡ supported
    pub chosen : choose_interval f need.interval ≡ serving i t
    pub granted : (can_attempt cfg (w.checked_at f.id) f.id s.entries).1 ≡ true
    pub claimed : s' ≡ record s { entries = (can_attempt cfg (w.checked_at f.id) f.id s.entries).0 }

  pub consider-IsCalled :
      (f : Feed) (s s' : RouterState) (i : Text) (t : Option Degradation)
      → consider cfg w need f s ≡ called i t s'
      → IsCalled f i t s s'
  unfolding consider
  consider-IsCalled f s s' i t e = ground arith

  -- The feed was not called, and why; a breaker that refuses has been asked.
  pub data Barred (f : Feed) (s : RouterState) : RouterState → Type 0 where
    unable :
        (reason : Text)
        → supports (w.checked_at f.id) f.capabilities (base_need cfg w need) ≡ lacking reason
        → Barred f s s
    no_interval :
        supports (w.checked_at f.id) f.capabilities (base_need cfg w need) ≡ supported
        → choose_interval f need.interval ≡ unserved
        → Barred f s s
    refused :
        (i : Text) (t : Option Degradation)
        → supports (w.checked_at f.id) f.capabilities (base_need cfg w need) ≡ supported
        → choose_interval f need.interval ≡ serving i t
        → (can_attempt cfg (w.checked_at f.id) f.id s.entries).1 ≡ false
        → Barred f s (record s { entries = (can_attempt cfg (w.checked_at f.id) f.id s.entries).0 })

  pub consider-Barred :
      (f : Feed) (s s' : RouterState) (reason : Text)
      → consider cfg w need f s ≡ passed_over reason s'
      → Barred f s s'
  unfolding consider
  consider-Barred f s s' reason e =
      let now = w.checked_at f.id in
      elim (Support-cases (supports now f.capabilities (base_need cfg w need))) [
        | inl (why, lacks) ↦
            subst (Barred f s) (over_inj (rw (lacks, consider) at e)) (unable why lacks)
        | inr able ↦ elim (Choice-cases (choose_interval f need.interval)) [
          | inl none_ ↦
              subst (Barred f s) (over_inj (rw (able, none_, consider) at e))
                (no_interval able none_)
          | inr (i, t, chosen) ↦ elim (Bool-cases (can_attempt cfg now f.id s.entries).1) [
            | inl granted ↦ absurd (let bad = rw (able, chosen, granted, consider) at e in cc)
            | inr refusal ↦
                subst (Barred f s) (over_inj (rw (able, chosen, refusal, consider) at e))
                  (refused i t able chosen refusal)
          ]
        ]
      ]

  -- The walk over feeds that gave no answer, from state to state: each was barred, or was called and
  -- threw an error that moves on.
  pub data Walked : RouterState → List Feed → RouterState → Type 0 where
    start : {s : RouterState} → Walked s [] s
    over :
        {f : Feed} {fs : List Feed} {s s₁ s' : RouterState}
        → Barred f s s₁
        → Walked s₁ fs s'
        → Walked s (f ∷ fs) s'
    failed :
        {f : Feed} {fs : List Feed} {s s₁ s' : RouterState} (i : Text) (t : Option Degradation)
        (err : Thrown)
        → IsCalled f i t s s₁
        → w.served f.id i ≡ threw err
        → should_failover (classify err f.id).code ≡ true
        → Walked (after_fault cfg w need f (classify err f.id) (w.during f.id s₁)) fs s'
        → Walked s (f ∷ fs) s'

  -- The walk from `s` gave the answer `v` and left `s'`: after the feeds that gave none it reached, in
  -- the state that they left, a feed that carries the request, was let through by its breaker and was
  -- asked for the interval chosen for it. The feed and the interval's tag are recorded as the last
  -- provenance.
  pub record IsServed (s : RouterState) (fs : List Feed) (v : V) (s' : RouterState) : Type 0 where
    pub before : List Feed
    pub feed : Feed
    pub after : List Feed
    pub split : fs ≡ before ++ feed ∷ after
    pub found : RouterState
    pub walked : Walked s before found
    pub interval : Text
    pub tag : Option Degradation
    pub claimed : RouterState
    pub is_called : IsCalled feed interval tag found claimed
    pub answer : w.served feed.id interval ≡ answered v
    pub tagged : s'.last_provenance ≡ some (record { feed = feed.id; degraded = tag })

  IsServed-cons :
      {f : Feed} {fs : List Feed} {v : V} {s s₁ s' : RouterState}
      → ((gs : List Feed) (s₂ : RouterState) → Walked s₁ gs s₂ → Walked s (f ∷ gs) s₂)
      → IsServed s₁ fs v s'
      → IsServed s (f ∷ fs) v s'
  IsServed-cons {f} step h = record {
    before = f ∷ h.before;
    feed = h.feed;
    after = h.after;
    split = ap (λ xs. f ∷ xs) h.split;
    found = h.found;
    walked = step h.before h.found h.walked;
    interval = h.interval;
    tag = h.tag;
    claimed = h.claimed;
    is_called = h.is_called;
    answer = h.answer;
    tagged = h.tagged;
  }

  after_success-tagged :
      (f : Feed) (t : Option Degradation) (s : RouterState)
      → (after_success cfg w need f t s).last_provenance
        ≡ some (record { feed = f.id; degraded = t })
  unfolding after_success
  after_success-tagged f t s = refl

  walk-IsServed :
      (label : Text) (fs : List Feed) (skipped : List Text) (fault : Option FeedError)
      (s s' : RouterState) (v : V)
      → walk cfg w need label fs skipped fault s ≡ (s', returned v)
      → IsServed s fs v s'
  unfolding walk
  walk-IsServed label [] skipped fault s s' v e = cc (ap (λ r. r.1) e)
  walk-IsServed label (f ∷ fs) skipped fault s s' v e =
      elim (Decision-cases (consider cfg w need f s)) [
        | inl (reason, s₁, c) ↦
            IsServed-cons (λ gs s₂ rest. over (consider-Barred f s s₁ reason c) rest)
              (walk-IsServed label fs _ fault s₁ s' v (rw (c, walk) at e))
        | inr (i, t, s₁, c) ↦ elim (Answer-cases (w.served f.id i)) [
          | inl (v', a) ↦
              let e' : (after_success cfg w need f t (w.during f.id s₁), returned v')
                  ≡ (s', returned v) =
                rw (c, a, walk) at e in
              let same : v' ≡ v = cc (ap (λ r. r.1) e') in
              record {
                before = [];
                feed = f;
                after = fs;
                split = refl;
                walked = start;
                interval = i;
                tag = t;
                found = s;
                claimed = s₁;
                is_called = consider-IsCalled f s s₁ i t c;
                answer = rw (← same) a;
                tagged = rw (← ap (λ r. r.0) e') (after_success-tagged f t (w.during f.id s₁));
              }
          | inr (err, a) ↦ elim (Bool-cases (should_failover (classify err f.id).code)) [
            | inl on ↦
                IsServed-cons
                  (λ gs s₂ rest. failed i t err (consider-IsCalled f s s₁ i t c) a on rest)
                  (walk-IsServed label fs _ _ _ s' v (rw (c, a, on, walk) at e))
            | inr stop ↦ absurd (cc (ap (λ r. r.1) (rw (c, a, stop, walk) at e)))
          ]
        ]
      ]

  -- An answer of `route` comes from the first listed feed that gave one: it carries the request, its
  -- breaker let it through in the state that the walk had reached, and it answered at the interval
  -- chosen for it. Each feed before it, in its turn, did not carry the request, had no interval for it,
  -- was refused by its breaker, or was called and failed in a way that moves on. The provenance names
  -- the feed that answered and its tag.
  pub route-IsServed :
      (label : Text) (fs : List Feed) (s s' : RouterState) (v : V)
      → route cfg w need label fs s ≡ (s', returned v)
      → IsServed s fs v s'
  unfolding route
  route-IsServed label [] s s' v e = cc (ap (λ r. r.1) e)
  route-IsServed label (f ∷ fs) s s' v e = walk-IsServed label (f ∷ fs) [] none s s' v e

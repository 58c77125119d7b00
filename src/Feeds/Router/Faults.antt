-- ===== src/Feeds/Router/Faults.antt =====
-- Which failure a call ends with.
use mathlib.Core.Path.{subst}
use quantstack_terminal.Common.{
  ◌≡◌, inl, inr, refl, ap, true, false, List, [], ◌∷◌, ◌++◌, Option, none, some, Text, text_eq,
  Bool-cases,
}
use quantstack_terminal.Feeds.Breaker.{Config}
use quantstack_terminal.Feeds.Errors.{FeedError, unsupported, should_failover, Thrown, classify}
use quantstack_terminal.Feeds.Types.{Need}
use quantstack_terminal.Feeds.Router.{
  Feed, Degradation, RouterState, threw, Outcome, raised, World, consider, final_fault, after_fault,
  walk, route,
}
use quantstack_terminal.Feeds.Router.Served.{
  Decision-cases, Answer-cases, IsCalled, Barred, Walked, start, over, failed, consider-IsCalled,
  consider-Barred,
}

module _ {V : Type 0} (cfg : Config) (w : World V) (need : Need) where
  -- A feed that was called in the state `s` and threw; the error is `fe`, and `s'` is what it left.
  pub record Failed (f : Feed) (fe : FeedError) (s s' : RouterState) : Type 0 where
    pub interval : Text
    pub tag : Option Degradation
    pub err : Thrown
    pub claimed : RouterState
    pub is_called : IsCalled cfg w need f interval tag s claimed
    pub thrown : w.served f.id interval ≡ threw err
    pub classified : fe ≡ classify err f.id
    pub left : s' ≡ after_fault cfg w need f fe (w.during f.id claimed)

  -- None of the feeds was called, from state to state.
  pub data Unused : RouterState → List Feed → RouterState → Type 0 where
    end : {s : RouterState} → Unused s [] s
    next :
        {f : Feed} {fs : List Feed} {s s₁ s' : RouterState}
        → Barred cfg w need f s s₁
        → Unused s₁ fs s'
        → Unused s (f ∷ fs) s'

  -- How a call ends with an error: a feed's failure that stops the walk, or the last failure that moves
  -- on once no feed after it was called, or the error that says that no feed was called.
  pub data IsRaised (s : RouterState) (fs : List Feed) (fe : FeedError) (s' : RouterState)
      : Type 0 where
    stopped :
        (before : List Feed) (f : Feed) (after : List Feed) (found : RouterState)
        → fs ≡ before ++ f ∷ after
        → Walked cfg w need s before found
        → Failed f fe found s'
        → should_failover fe.code ≡ false
        → IsRaised s fs fe s'
    exhausted :
        (before : List Feed) (f : Feed) (after : List Feed) (found left : RouterState)
        → fs ≡ before ++ f ∷ after
        → Walked cfg w need s before found
        → Failed f fe found left
        → should_failover fe.code ≡ true
        → Unused left after s'
        → IsRaised s fs fe s'
    none_called : Unused s fs s' → fe.code ≡ unsupported → IsRaised s fs fe s'

  -- The same for a walk that may have met a fault already.
  data Ends (s : RouterState) (fs : List Feed) (fault : Option FeedError) (fe : FeedError)
      (s' : RouterState) : Type 0 where
    halted :
        (before : List Feed) (f : Feed) (after : List Feed) (found : RouterState)
        → fs ≡ before ++ f ∷ after
        → Walked cfg w need s before found
        → Failed f fe found s'
        → should_failover fe.code ≡ false
        → Ends s fs fault fe s'
    ran_out :
        (before : List Feed) (f : Feed) (after : List Feed) (found left : RouterState)
        → fs ≡ before ++ f ∷ after
        → Walked cfg w need s before found
        → Failed f fe found left
        → should_failover fe.code ≡ true
        → Unused left after s'
        → Ends s fs fault fe s'
    untouched : fault ≡ none → Unused s fs s' → fe.code ≡ unsupported → Ends s fs fault fe s'
    earlier : fault ≡ some fe → Unused s fs s' → Ends s fs fault fe s'

  Ends-Unused :
      {f : Feed} {fs : List Feed} {fault : Option FeedError} {fe : FeedError}
      {s s₁ s' : RouterState}
      → Barred cfg w need f s s₁
      → Ends s₁ fs fault fe s'
      → Ends s (f ∷ fs) fault fe s'
  Ends-Unused {f} u (halted before g after found split walked bad stop) =
      halted (f ∷ before) g after found (ap (λ xs. f ∷ xs) split) (over u walked) bad stop
  Ends-Unused {f} u (ran_out before g after found left split walked bad on unused) =
      ran_out (f ∷ before) g after found left (ap (λ xs. f ∷ xs) split) (over u walked) bad on
        unused
  Ends-Unused u (untouched free unused code) = untouched free (next u unused) code
  Ends-Unused u (earlier met unused) = earlier met (next u unused)

  Ends-Failed :
      {f : Feed} {fs : List Feed} {fault : Option FeedError} {met fe : FeedError}
      {s s₁ s' : RouterState}
      → ((gs : List Feed) (s₂ : RouterState)
          → Walked cfg w need s₁ gs s₂
          → Walked cfg w need s (f ∷ gs) s₂)
      → Failed f met s s₁
      → should_failover met.code ≡ true
      → Ends s₁ fs (some met) fe s'
      → Ends s (f ∷ fs) fault fe s'
  Ends-Failed {f} step bad on (halted before g after found split walked bad' stop) =
      halted (f ∷ before) g after found (ap (λ xs. f ∷ xs) split) (step before found walked) bad'
        stop
  Ends-Failed {f} step bad on (ran_out before g after found left split walked bad' on' unused) =
      ran_out (f ∷ before) g after found left (ap (λ xs. f ∷ xs) split) (step before found walked)
        bad' on' unused
  Ends-Failed step bad on (untouched free unused code) = absurd (cc)
  Ends-Failed {f} {fs} {met} {fe} {s} {s₁} step bad on (earlier same unused) =
      let eq : met ≡ fe = cc in
      ran_out [] f fs s s₁ refl start (subst (λ x. Failed f x s s₁) eq bad) (rw (← eq) on) unused

  Ends-IsRaised :
      {fs : List Feed} {fe : FeedError} {s s' : RouterState}
      → Ends s fs none fe s'
      → IsRaised s fs fe s'
  Ends-IsRaised (halted before g after found split walked bad stop) =
      stopped before g after found split walked bad stop
  Ends-IsRaised (ran_out before g after found left split walked bad on unused) =
      exhausted before g after found left split walked bad on unused
  Ends-IsRaised (untouched free unused code) = none_called unused code
  Ends-IsRaised (earlier met unused) = absurd (cc)

  final_fault-Ends :
      (label : Text) (skipped : List Text) (fault : Option FeedError) (s : RouterState)
      → Ends s [] fault (final_fault label fault skipped) s
  final_fault-Ends label skipped none s = untouched refl end refl
  final_fault-Ends label skipped (some fe) s = earlier refl end

  -- One outcome is the other, in its state and in its error.
  same_end :
      (P : FeedError → RouterState → Type 0) {s s' : RouterState} {fe fe' : FeedError}
      → ◌≡◌ {A = RouterState × Outcome V} (s, raised fe) (s', raised fe')
      → P fe s
      → P fe' s'
  same_end P {s} {s'} {fe} {fe'} e h =
      let e' : ◌≡◌ {A = Outcome V} (raised fe) (raised fe') = ap (λ r. r.1) e in
      let same_error : fe ≡ fe' = cc in
      let same_state : s ≡ s' = ap (λ r. r.0) e in
      subst (λ x. P fe' x) same_state (subst (λ x. P x s) same_error h)

  walk-Ends :
      (label : Text) (fs : List Feed) (skipped : List Text) (fault : Option FeedError)
      (s s' : RouterState) (fe : FeedError)
      → walk cfg w need label fs skipped fault s ≡ (s', raised fe)
      → Ends s fs fault fe s'
  unfolding walk
  walk-Ends label [] skipped fault s s' fe e =
      same_end (λ x t. Ends s [] fault x t) e (final_fault-Ends label skipped fault s)
  walk-Ends label (f ∷ fs) skipped fault s s' fe e =
      elim (Decision-cases (consider cfg w need f s)) [
        | inl (reason, s₁, c) ↦
            Ends-Unused (consider-Barred cfg w need f s s₁ reason c)
              (walk-Ends label fs _ fault s₁ s' fe (rw (c, walk) at e))
        | inr (i, t, s₁, c) ↦
            let is_called = consider-IsCalled cfg w need f s s₁ i t c in
            elim (Answer-cases (w.served f.id i)) [
              | inl (v, a) ↦ absurd (cc (ap (λ r. r.1) (rw (c, a, walk) at e)))
              | inr (err, a) ↦
                  let fault' = classify err f.id in
                  let left = after_fault cfg w need f fault' (w.during f.id s₁) in
                  let bad : Failed f fault' s left = record {
                    interval = i;
                    tag = t;
                    err = err;
                    claimed = s₁;
                    is_called = is_called;
                    thrown = a;
                    classified = refl;
                    left = refl;
                  } in
                  elim (Bool-cases (should_failover fault'.code)) [
                    | inl on ↦
                        Ends-Failed (λ gs s₂ rest. failed i t err is_called a on rest) bad on
                          (walk-Ends label fs _ _ _ s' fe (rw (c, a, on, walk) at e))
                    | inr stop ↦
                        same_end (λ x t. Ends s (f ∷ fs) fault x t) (rw (c, a, stop, walk) at e)
                          (halted [] f fs s refl start bad stop)
                  ]
            ]
      ]

  -- An error of `route` over some feed is explained: it is the failure of a called feed, reached after
  -- feeds each of which was barred or failed in a way that moves on, and that failure either stops the
  -- walk or is one that moves on while every feed after it is barred; or every feed was barred, and the
  -- code is UNSUPPORTED. A feed is barred if it does not carry the request, has no interval for it, or
  -- is refused by its breaker in the state that the walk had reached.
  pub route-IsRaised :
      (label : Text) (f : Feed) (fs : List Feed) (s s' : RouterState) (fe : FeedError)
      → route cfg w need label (f ∷ fs) s ≡ (s', raised fe)
      → IsRaised s (f ∷ fs) fe s'
  unfolding route
  route-IsRaised label f fs s s' fe e = Ends-IsRaised (walk-Ends label (f ∷ fs) [] none s s' fe e)

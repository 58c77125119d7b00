-- ===== src/Feeds/LiveRouter/Reconcile.antt =====
-- What a reconciliation leaves behind.
use mathlib.Core.Path.{subst}
use quantstack_terminal.Feeds.LiveRouter.Pinning.{
  reconcile-idle, begin-chosen, settle-broke, give_way-begins,
}
use quantstack_terminal.Feeds.LiveRouter.Selection.{choose-by_loop}
use quantstack_terminal.Common.{
  get-put_self, text_beq_iff, beq_refl, ℕ, ◌+◌, ◌≡◌, ◌≢◌, ◌∙◌, inl, inr, refl, sym, ap, true, false,
  ◌&&◌, List, [], ◌∷◌, ◌++◌, none, some, Text, text_eq, arith, leb, ◌==◌, Option-cases, Bool-cases,
  length, put, get, text_beq, Assoc,
}
use quantstack_terminal.Feeds.Breaker.{FeedId}
use quantstack_terminal.Feeds.Identity.{InstrumentKey}
use quantstack_terminal.Feeds.Registry.{Registered}
use quantstack_terminal.Feeds.LiveRouter.{
  Surroundings, SwitchReason, initial, unhealthy, Choice, Pending, idle, waiting, finishing, Live,
  begin, reconcile, teardown, teardown_from, accept, give_way, settle, carried, broke, choose,
  pinned_choice, wanted_keys, wait_for, is_nil, is_serving, signature_of, park_ms, is_parked,
  Subscription,
}
use quantstack_terminal.Feeds.LiveRouter.Steps.{
  subscribed, unsubscribed, settled, flight_over, step, run, subscribe, unsubscribe, land,
  holds_handle, drop_handle, is_empty_list,
}

-- The state when a subscription has been added.
abbrev pub with_sub : List InstrumentKey → Live → Live
with_sub keys m = record m {
  subs = m.subs ++ record { handle = m.next_id; keys = keys } ∷ [];
  next_id = m.next_id + 1;
}

abbrev Served : Choice → Text → Live → Type 0
Served c signature m =
    (m.resubscribing ≡ idle) × (is_serving c.feed m.active ≡ true) × (m.active_key_sig ≡ signature)

serves_after :
    (s : Surroundings) (keys : List InstrumentKey) (reason : SwitchReason) (c : Choice) (m : Live)
    → Served c (signature_of keys) (land (settle s carried (wait_for keys reason c m)))
unfolding land settle accept
serves_after s keys reason c m = elim (Bool-cases (is_serving c.feed m.active)) [
  | inl same ↦ elim (Bool-cases (text_beq (signature_of keys) m.active_key_sig)) [
    | inl equal ↦
        rw (same, equal)
          (refl, same, sym ((text_beq_iff (signature_of keys) m.active_key_sig).0 equal))
    | inr differ ↦ rw (same, differ) (refl, beq_refl c.feed, refl)
  ]
  | inr away ↦ rw away (refl, beq_refl c.feed, refl)
]

-- A subscription that finds the router idle and a feed that can carry every contract ends with that
-- feed serving the contracts of all subscriptions, this one's among them.
pub subscribe-idle :
    (s s' s'' : Surroundings) (keys : List InstrumentKey) (c : Choice) (m : Live)
    → m.resubscribing ≡ idle
    → is_nil (wanted_keys (with_sub keys m).subs) ≡ false
    → choose s (with_sub keys m) (wanted_keys (with_sub keys m).subs) ≡ some c
    → (let m' = run ((s, subscribed keys) ∷ (s', settled carried) ∷ (s'', flight_over) ∷ []) m in
        (m'.resubscribing ≡ idle)
        × (is_serving c.feed m'.active ≡ true)
        × (m'.active_key_sig ≡ signature_of (wanted_keys (with_sub keys m).subs)))
unfolding run step subscribe
subscribe-idle s s' s'' keys c m free some_keys chosen =
    let m1 = with_sub keys m in
    let begins = reconcile-idle s initial m1 free ∙ begin-chosen s initial m1 c some_keys chosen in
    subst (λ x. Served c (signature_of (wanted_keys m1.subs)) (land (settle s' carried x)))
      (sym begins) (serves_after s' (wanted_keys m1.subs) initial c m1)

-- What the success of an attempt on `c` leaves that began with the contracts of `m`, while the
-- subscription to `keys` came.
pub record IsLate (c : Choice) (keys : List InstrumentKey) (m m' : Live) : Type 0 where
  pub free : m'.resubscribing ≡ idle
  pub serving :
      m'.active ≡ some (record { feed = c.feed; broker = c.broker; socket = m.next_socket })
  pub for_ : m'.active_key_sig ≡ signature_of (wanted_keys m.subs)
  pub late : m'.subs ≡ m.subs ++ record { handle = m.next_id; keys = keys } ∷ []

subscribed_first :
    (s : Surroundings) (keys : List InstrumentKey) (c : Choice) (m : Live)
    → m.resubscribing ≡ idle
    → is_nil (wanted_keys (with_sub keys m).subs) ≡ false
    → choose s (with_sub keys m) (wanted_keys (with_sub keys m).subs) ≡ some c
    → subscribe s keys m ≡ wait_for (wanted_keys (with_sub keys m).subs) initial c (with_sub keys m)
unfolding subscribe
subscribed_first s keys c m free some_keys chosen =
    let m1 = with_sub keys m in
    reconcile-idle s initial m1 free ∙ begin-chosen s initial m1 c some_keys chosen

wait_for-IsLate :
    (s₁ s₂ s₃ : Surroundings) (keys : List InstrumentKey) (c : Choice) (m : Live)
    → is_serving c.feed m.active ≡ false
    → IsLate c keys m (
        run
          ((s₁, subscribed keys) ∷ (s₂, settled carried) ∷ (s₃, flight_over) ∷ [])
          (wait_for (wanted_keys m.subs) initial c m))
unfolding run step subscribe reconcile settle accept land
wait_for-IsLate s₁ s₂ s₃ keys c m away =
    rw away (record { free = refl; serving = refl; for_ = refl; late = refl })

-- A first subscription finds the router idle and a feed that is chosen for the contracts but does not
-- serve, so that an attempt on it begins. A second subscription that comes while the attempt is awaited
-- is not taken up when the attempt succeeds: the router is then idle, and the feed serves over a new
-- socket the contracts that were wanted when the attempt began, while the second subscription is held.
pub subscribe-IsLate :
    (s s₁ s₂ s₃ : Surroundings) (first second : List InstrumentKey) (c : Choice) (m : Live)
    → m.resubscribing ≡ idle
    → is_nil (wanted_keys (with_sub first m).subs) ≡ false
    → choose s (with_sub first m) (wanted_keys (with_sub first m).subs) ≡ some c
    → is_serving c.feed m.active ≡ false
    → IsLate c second (with_sub first m) (
        run
          ((s, subscribed first)
            ∷ (s₁, subscribed second)
            ∷ (s₂, settled carried)
            ∷ (s₃, flight_over)
            ∷ [])
          m)
unfolding run step
subscribe-IsLate s s₁ s₂ s₃ first second c m free some_keys chosen away =
    let rest = (s₁, subscribed second) ∷ (s₂, settled carried) ∷ (s₃, flight_over) ∷ [] in
    subst (λ x. IsLate c second (with_sub first m) (run rest x))
      (sym (subscribed_first s first c m free some_keys chosen))
      (wait_for-IsLate s₁ s₂ s₃ second c (with_sub first m) away)

equal_self : (h : ℕ) → (h == h) ≡ true
equal_self h = ground arith

held_last : (sub : Subscription) → holds_handle sub.handle (sub ∷ []) ≡ true
held_last sub = rw (equal_self sub.handle) refl

dropped_last : (sub : Subscription) → drop_handle sub.handle (sub ∷ []) ≡ []
dropped_last sub = rw (equal_self sub.handle) refl

unsubscribed_last :
    (s : Surroundings) (sub : Subscription) (m : Live)
    → m.subs ≡ sub ∷ []
    → m.active ≡ none
    → unsubscribe s sub.handle m ≡ record m { subs = [] }
unfolding unsubscribe teardown
unsubscribed_last s sub m only none_active =
    let held = ap (holds_handle sub.handle) only ∙ held_last sub in
    let dropped = ap (drop_handle sub.handle) only ∙ dropped_last sub in
    let m' = record m { subs = drop_handle sub.handle m.subs } in
    rw (held, ap is_empty_list dropped)
      (ap (λ a. teardown_from a m') none_active
        ∙ ap (λ (x : List Subscription). record m { subs = x }) dropped)

abbrev Unserved : Pending → ℕ → Live → Type 0
Unserved p socket m =
    (m.subs ≡ [])
    × (m.resubscribing ≡ idle)
    × (m.active ≡ some (record { feed = p.choice.feed; broker = p.choice.broker; socket = socket }))

-- When the last consumer leaves while an attempt is awaited, the attempt's success still opens a
-- socket, which then serves no one.
pub unsubscribe-late :
    (s s' s'' : Surroundings) (sub : Subscription) (p : Pending) (m : Live)
    → m.resubscribing ≡ waiting p
    → m.subs ≡ sub ∷ []
    → m.active ≡ none
    → (let m' =
          run ((s, unsubscribed sub.handle) ∷ (s', settled carried) ∷ (s'', flight_over) ∷ []) m in
        (m'.subs ≡ [])
        × (m'.resubscribing ≡ idle)
        × (m'.active
            ≡ some (record {
              feed = p.choice.feed;
              broker = p.choice.broker;
              socket = m.next_socket;
            })))
unfolding run step settle accept land
unsubscribe-late s s' s'' sub p m waits only none_active =
    subst (λ x. Unserved p m.next_socket (land (settle s' carried x)))
      (sym (unsubscribed_last s sub m only none_active)) (rw waits (refl, refl, refl))

parked_now :
    (s : Surroundings) (id : FeedId) (parked : Assoc FeedId ℕ) (r : Registered)
    → r.feed.id ≡ id
    → is_parked s.now (get r.feed.id (put id (s.now + park_ms) parked)) ≡ true
parked_now s id parked r same =
    ap (λ x. is_parked s.now (get x (put id (s.now + park_ms) parked))) same
    ∙ ap (is_parked s.now) (get-put_self id (s.now + park_ms) parked)
    ∙ (let now = s.now in ground arith)

waiting_inj : {p q : Pending} → waiting p ≡ waiting q → p ≡ q
waiting_inj h = cc

wait_for-waiting :
    (keys : List InstrumentKey) (reason : SwitchReason) (c : Choice) (m : Live) (p : Pending)
    → (wait_for keys reason c m).resubscribing ≡ waiting p
    → c ≡ p.choice
wait_for-waiting keys reason c m p h =
    elim (Bool-cases
      (is_serving c.feed m.active && text_beq (signature_of keys) m.active_key_sig)) [
        | inl same ↦ absurd (let bad = rw same at h in cc)
        | inr other ↦ ap (λ (q : Pending). q.choice) (waiting_inj (rw other at h))
      ]

begin-waiting :
    (s : Surroundings) (reason : SwitchReason) (m : Live) (p : Pending)
    → (begin s reason m).resubscribing ≡ waiting p
    → choose s m (wanted_keys m.subs) ≡ some p.choice
unfolding begin
begin-waiting s reason m p h = elim (Bool-cases (is_nil (wanted_keys m.subs))) [
  | inl no_keys ↦ absurd (let bad = rw no_keys at h in cc)
  | inr some_keys ↦ elim (Option-cases (choose s m (wanted_keys m.subs))) [
    | inl no_choice ↦ absurd (let bad = rw (some_keys, no_choice) at h in cc)
    | inr (c, chosen) ↦
        chosen
        ∙ ap some (wait_for-waiting (wanted_keys m.subs) reason c m p (rw (some_keys, chosen) at h))
  ]
]

give_way-full :
    (s : Surroundings) (p : Pending) (m : Live)
    → leb (length s.registered) (length (put p.choice.feed (s.now + park_ms) m.parked)) ≡ true
    → (give_way s p m).resubscribing ≡ finishing
unfolding give_way
give_way-full s p m full = rw full refl

-- While no pin holds a feed with a socket, a failed attempt is followed by one on another feed, if by
-- any.
pub broke-moves_on :
    (s : Surroundings) (p p' : Pending) (m : Live)
    → pinned_choice s m.pinned ≡ none
    → m.resubscribing ≡ waiting p
    → (settle s broke m).resubscribing ≡ waiting p'
    → p'.choice.feed ≢ p.choice.feed
broke-moves_on s p p' m free waits again =
    let until = s.now + park_ms in
    let m' = record m { parked = put p.choice.feed until m.parked } in
    let keys = wanted_keys m.subs in
    let again' = ap (λ (x : Live). x.resubscribing) (sym (settle-broke s p m waits)) ∙ again in
    elim (Bool-cases (leb (length s.registered) (length m'.parked))) [
      | inl full ↦ absurd (let bad = give_way-full s p m full in cc)
      | inr room ↦
          let chosen =
            begin-waiting s unhealthy m' p'
              (ap (λ (x : Live). x.resubscribing) (sym (give_way-begins s p m room)) ∙ again') in
          elim ((choose-by_loop s m' keys).1 p'.choice chosen) [
            | inl held ↦ absurd (cc)
            | inr (_, first) ↦ λ same.
                let at = ap (λ (c : Choice). c.feed) (sym first.named) ∙ same in
                cc (parked_now s p.choice.feed m.parked first.found at, first.servable.not_parked)
          ]
    ]

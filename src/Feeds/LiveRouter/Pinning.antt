-- ===== src/Feeds/LiveRouter/Pinning.antt =====
-- What a pin does.
use mathlib.Core.Path.{subst}
use quantstack_terminal.Common.{
  beq_refl, ℕ, ◌+◌, ◌≤◌, ◌≡◌, ◌≢◌, ◌∙◌, ◌⊎◌, inl, inr, refl, sym, ap, false, ◌&&◌, List, [], ◌∷◌,
  map, Option, none, some, text_eq, arith, All, leb, Option-cases, Bool-cases, length, put,
  text_beq, Assoc,
}
use quantstack_terminal.Feeds.Breaker.{FeedId}
use quantstack_terminal.Feeds.Identity.{InstrumentKey, is_empty}
use quantstack_terminal.Feeds.Router.{Feed}
use quantstack_terminal.Feeds.Registry.{find_feed, feed_by_id}
use quantstack_terminal.Feeds.LiveRouter.{
  Surroundings, SwitchReason, unhealthy, manual, Choice, Pending, idle, waiting, Live, begin,
  reconcile, give_way, settle, settle_flight, broke, choose, pinned_choice, wanted_keys, wait_for,
  is_nil, is_busy, is_serving, signature_of, park_ms,
}
use quantstack_terminal.Feeds.LiveRouter.Steps.{settled, pinned_to, step, run, pin, or_same}

pub begin-chosen :
    (s : Surroundings) (reason : SwitchReason) (m : Live) (c : Choice)
    → is_nil (wanted_keys m.subs) ≡ false
    → choose s m (wanted_keys m.subs) ≡ some c
    → begin s reason m ≡ wait_for (wanted_keys m.subs) reason c m
unfolding begin
begin-chosen s reason m c some_keys chosen = rw (some_keys, chosen) refl

choose-pinned :
    (s : Surroundings) (m : Live) (keys : List InstrumentKey) (c : Choice)
    → pinned_choice s m.pinned ≡ some c
    → choose s m keys ≡ some c
unfolding choose
choose-pinned s m keys c held = rw held refl

pub pin-cases :
    (s : Surroundings) (id : Option FeedId) (m : Live)
    → (pin s id m ≡ none)
      ⊎ (pin s id m ≡ some (reconcile s manual (record m { pinned = id; parked = [] })))
unfolding pin
pin-cases s none m = inr refl
pin-cases s (some id) m = elim (Bool-cases (is_empty id)) [
  | inl cleared ↦ inr (rw cleared refl)
  | inr named ↦ elim (Option-cases (feed_by_id s.registered id)) [
    | inl unknown ↦ inl (rw (named, unknown) refl)
    | inr (feed, known) ↦ inr (rw (named, known) refl)
  ]
]

-- An attempt on the choice is being awaited.
abbrev pub IsWaiting : Choice → Live → Type 0
IsWaiting c m = (p : Pending) × (m.resubscribing ≡ waiting p) × (p.choice ≡ c)

wait_for-waits :
    (keys : List InstrumentKey) (reason : SwitchReason) (c : Choice) (m : Live)
    → is_serving c.feed m.active ≡ false
    → IsWaiting c (wait_for keys reason c m)
wait_for-waits keys reason c m away = rw away (_, refl, refl)

begin-waits :
    (s : Surroundings) (reason : SwitchReason) (m : Live) (c : Choice)
    → is_nil (wanted_keys m.subs) ≡ false
    → pinned_choice s m.pinned ≡ some c
    → is_serving c.feed m.active ≡ false
    → IsWaiting c (begin s reason m)
begin-waits s reason m c some_keys held away =
    subst (IsWaiting c)
      (sym (begin-chosen s reason m c some_keys (choose-pinned s m (wanted_keys m.subs) c held)))
      (wait_for-waits (wanted_keys m.subs) reason c m away)

-- Between two attempts on a pinned feed that fail.
record IsStuck (id : FeedId) (c : Choice) (m : Live) : Type 0 where
  awaited : IsWaiting c m
  held : m.pinned ≡ some id
  wanted : is_nil (wanted_keys m.subs) ≡ false
  away : is_serving c.feed m.active ≡ false
  alone : (m.parked ≡ []) ⊎ ((u : ℕ) × (m.parked ≡ (c.feed, u) ∷ []))

-- The fields of the state that a reconciliation which then waits leaves as they were.
record Keeps (m m' : Live) : Type 0 where
  subs : m'.subs ≡ m.subs
  pinned : m'.pinned ≡ m.pinned
  active : m'.active ≡ m.active
  parked : m'.parked ≡ m.parked

wait_for-Keeps :
    (keys : List InstrumentKey) (reason : SwitchReason) (c : Choice) (m : Live)
    → Keeps m (wait_for keys reason c m)
wait_for-Keeps keys reason c m =
    elim (Bool-cases
      (is_serving c.feed m.active && text_beq (signature_of keys) m.active_key_sig)) [
        | inl same ↦ rw same (record { subs = refl; pinned = refl; active = refl; parked = refl })
        | inr other ↦ rw other (record { subs = refl; pinned = refl; active = refl; parked = refl })
      ]

begin-IsStuck :
    (s : Surroundings) (reason : SwitchReason) (id : FeedId) (c : Choice) (m : Live)
    → m.pinned ≡ some id
    → pinned_choice s (some id) ≡ some c
    → is_nil (wanted_keys m.subs) ≡ false
    → is_serving c.feed m.active ≡ false
    → (m.parked ≡ []) ⊎ ((u : ℕ) × (m.parked ≡ (c.feed, u) ∷ []))
    → IsStuck id c (begin s reason m)
begin-IsStuck s reason id c m held pin some_keys away alone =
    let held_choice = ap (pinned_choice s) held ∙ pin in
    let keys = wanted_keys m.subs in
    let k = wait_for-Keeps keys reason c m in
    subst (IsStuck id c)
      (sym (begin-chosen s reason m c some_keys (choose-pinned s m keys c held_choice)))
      (record {
        awaited = wait_for-waits keys reason c m away;
        held = k.pinned ∙ held;
        wanted = ap (λ x. is_nil (wanted_keys x)) k.subs ∙ some_keys;
        away = ap (is_serving c.feed) k.active ∙ away;
        alone = subst (λ x. (x ≡ []) ⊎ ((u : ℕ) × (x ≡ (c.feed, u) ∷ []))) (sym k.parked) alone;
      })

put_alone :
    (k : FeedId) (t : ℕ) (parked : Assoc FeedId ℕ)
    → (parked ≡ []) ⊎ ((u : ℕ) × (parked ≡ (k, u) ∷ []))
    → put k t parked ≡ (k, t) ∷ []
unfolding put
put_alone k t parked (inl none_yet) = rw none_yet refl
put_alone k t parked (inr (u, one)) = rw one (rw (beq_refl k) refl)

pub settle-broke :
    (s : Surroundings) (p : Pending) (m : Live)
    → m.resubscribing ≡ waiting p
    → settle s broke m ≡ give_way s p m
unfolding settle
settle-broke s p m waits = ap (λ f. settle_flight s broke f m) waits

pub give_way-begins :
    (s : Surroundings) (p : Pending) (m : Live)
    → leb (length s.registered) (length (put p.choice.feed (s.now + park_ms) m.parked)) ≡ false
    → give_way s p m
      ≡ begin s unhealthy (record m { parked = put p.choice.feed (s.now + park_ms) m.parked })
unfolding give_way
give_way-begins s p m room = rw room refl

more_than_one : (n : ℕ) → 2 ≤ n → leb n 1 ≡ false
more_than_one n h = ground arith

broke-IsStuck :
    (s : Surroundings) (id : FeedId) (c : Choice) (m : Live)
    → 2 ≤ length s.registered
    → pinned_choice s (some id) ≡ some c
    → IsStuck id c m
    → IsStuck id c (settle s broke m)
broke-IsStuck s id c m two pin h =
    let (p, waits, same) = h.awaited in
    let until = s.now + park_ms in
    let parked' : put p.choice.feed until m.parked ≡ (c.feed, until) ∷ [] =
      ap (λ (x : Choice). put x.feed until m.parked) same
      ∙ put_alone c.feed until m.parked h.alone in
    let room =
      ap (λ x. leb (length s.registered) (length x)) parked'
      ∙ more_than_one (length s.registered) two in
    subst (IsStuck id c) (sym (settle-broke s p m waits ∙ give_way-begins s p m room)) (
      begin-IsStuck s unhealthy id c (record m { parked = put p.choice.feed until m.parked }) h.held
        pin h.wanted h.away (inr (until, parked')))

run-IsStuck :
    (ss : List Surroundings) (id : FeedId) (c : Choice) (m : Live)
    → All (λ t. (2 ≤ length t.registered) × (pinned_choice t (some id) ≡ some c)) ss
    → IsStuck id c m
    → IsStuck id c (run (map (λ t. (t, settled broke)) ss) m)
unfolding run step
run-IsStuck [] id c m hs h = h
run-IsStuck (t ∷ ts) id c m hs h =
    let ((two, pin), rest) = hs in
    run-IsStuck ts id c (settle t broke m) rest (broke-IsStuck t id c m two pin h)

pub reconcile-idle :
    (s : Surroundings) (reason : SwitchReason) (m : Live)
    → m.resubscribing ≡ idle
    → reconcile s reason m ≡ begin s reason m
unfolding reconcile
reconcile-idle s reason m free = rw (ap is_busy free) refl

pin-idle :
    (s : Surroundings) (id : FeedId) (m : Live)
    → m.resubscribing ≡ idle
    → pin s (some id) m ≢ none
    → or_same (pin s (some id) m) m ≡ begin s manual (record m { pinned = some id; parked = [] })
pin-idle s id m free known =
    let m' = record m { pinned = some id; parked = [] } in
    elim (pin-cases s (some id) m) [
      | inl threw ↦ absurd (known threw)
      | inr moved ↦ ap (λ x. or_same x m) moved ∙ reconcile-idle s manual m' free
    ]

-- The router is idle with contracts to serve, and a known pin holds one feed with a socket that does
-- not serve already. While at least two feeds are registered and the pin holds that feed at every
-- attempt, the pin starts an attempt on it, and however many attempts fail, the next one on it is under
-- way.
pub pin-retries :
    (s : Surroundings) (ss : List Surroundings) (id : FeedId) (c : Choice) (m : Live)
    → m.resubscribing ≡ idle
    → is_nil (wanted_keys m.subs) ≡ false
    → is_serving c.feed m.active ≡ false
    → pin s (some id) m ≢ none
    → All (λ t. (2 ≤ length t.registered) × (pinned_choice t (some id) ≡ some c)) (s ∷ ss)
    → IsWaiting c (run ((s, pinned_to (some id)) ∷ map (λ t. (t, settled broke)) ss) m)
unfolding run step
pin-retries s ss id c m free some_keys away known ((two, held), rest) =
    let m' = record m { pinned = some id; parked = [] } in
    let stuck = begin-IsStuck s manual id c m' refl held some_keys away (inl refl) in
    (run-IsStuck ss id c (or_same (pin s (some id) m) m) rest
      (subst (IsStuck id c) (sym (pin-idle s id m free known)) stuck)).awaited

-- A pin by another spelling of a registered feed's id is taken, and then has no effect on the choice.
pub pin-alias :
    (s : Surroundings) (id : FeedId) (feed : Feed) (m : Live)
    → is_empty id ≡ false
    → feed_by_id s.registered id ≡ some feed
    → find_feed id s.registered ≡ none
    → (pin s (some id) m ≡ some (reconcile s manual (record m { pinned = some id; parked = [] })))
      × ((keys : List InstrumentKey)
          → choose s (record m { pinned = some id }) keys
            ≡ choose s (record m { pinned = none }) keys)
unfolding pin choose pinned_choice
pin-alias s id feed m named known missing =
    (rw (named, known) refl, λ keys. rw (named, missing, pinned_choice) refl)

-- ===== src/Feeds/LiveRouter/PinnedFeed.antt =====
-- What the pin of the live router names.
use quantstack_terminal.Common.{
  ◌≢◌, Option, text_beq, text_beq_iff, ne_of_beq, ◌≡◌, ◌⊎◌, inl, inr, refl, ap, true, false, List,
  [], ◌∷◌, ◌++◌, none, some, text_eq, arith, All, Option-cases, Bool-cases,
}
use quantstack_terminal.Feeds.Breaker.{FeedId}
use quantstack_terminal.Feeds.Registry.{Registered, find_feed}
use quantstack_terminal.Feeds.LiveRouter.{
  Surroundings, Choice, pinned_choice, choice_of, has_socket,
}
use quantstack_terminal.Common.{if◌then◌else◌}

some_inj : {c d : Choice} → some c ≡ some d → d ≡ c
some_inj h = cc

-- The first feed of the list with this id.
pub record IsHit (id : FeedId) (rs : List Registered) (r : Registered) : Type 0 where
  pub before : List Registered
  pub after : List Registered
  pub stands : rs ≡ before ++ r ∷ after
  pub others : All (λ x. x.feed.id ≢ id) before
  pub same : r.feed.id ≡ id

find_feed-none :
    (id : FeedId) (rs : List Registered) → find_feed id rs ≡ none → All (λ r. r.feed.id ≢ id) rs
unfolding find_feed
find_feed-none id [] h = tt
find_feed-none id (r ∷ rs) h = elim (Bool-cases (text_beq r.feed.id id)) [
  | inl same ↦ absurd (let bad = rw same at h in cc)
  | inr other ↦ (ne_of_beq r.feed.id id other, find_feed-none id rs (rw other at h))
]

find_feed-IsHit :
    (id : FeedId) (rs : List Registered) (r : Registered) → find_feed id rs ≡ some r → IsHit id rs r
unfolding find_feed
find_feed-IsHit id [] r h = absurd (cc)
find_feed-IsHit id (x ∷ rs) r h = elim (Bool-cases (text_beq x.feed.id id)) [
  | inl same ↦
      let eq : x ≡ r = let h' = rw same at h in cc in
      record {
        before = [];
        after = rs;
        stands = ap (λ y. y ∷ rs) eq;
        others = tt;
        same = rw (← eq) ((text_beq_iff x.feed.id id).0 same);
      }
  | inr other ↦
      let rest = find_feed-IsHit id rs r (rw other at h) in
      record {
        before = x ∷ rest.before;
        after = rest.after;
        stands = ap (λ t. x ∷ t) rest.stands;
        others = (ne_of_beq x.feed.id id other, rest.others);
        same = rest.same;
      }
]

-- The pin names a registered feed that has a socket, and the choice is that feed.
pub record Pins (s : Surroundings) (pinned : Option FeedId) (c : Choice) : Type 0 where
  pub id : FeedId
  pub feed : Registered
  pub set : (pinned ≡ some id) × (id ≢ [])
  pub hit : IsHit id s.registered feed
  pub socket : (feed.feed.capabilities.live ≡ true) × (s.subscribes feed.feed.id ≡ true)
  pub named : c ≡ record { feed = feed.feed.id; broker = feed.broker }

-- There is no pin, or it names no registered feed, or one without a socket.
pub data Free (s : Surroundings) (pinned : Option FeedId) : Type 0 where
  no_pin : pinned ≡ none → Free s pinned
  cleared : pinned ≡ some [] → Free s pinned
  strange :
      (id : FeedId) → pinned ≡ some id → All (λ r. r.feed.id ≢ id) s.registered → Free s pinned
  mute :
      (id : FeedId) (r : Registered)
      → pinned ≡ some id
      → IsHit id s.registered r
      → (r.feed.capabilities.live ≡ false) ⊎ (s.subscribes r.feed.id ≡ false)
      → Free s pinned

pub has_socket-false :
    (s : Surroundings) (r : Registered)
    → has_socket s r ≡ false
    → (r.feed.capabilities.live ≡ false) ⊎ (s.subscribes r.feed.id ≡ false)
has_socket-false s r h = elim (Bool-cases r.feed.capabilities.live) [
  | inl live ↦ inr (rw live at h)
  | inr dead ↦ inl dead
]

pinned_mute :
    (s : Surroundings) (r : Registered)
    → (if has_socket s r then some (choice_of r) else none) ≡ none
    → has_socket s r ≡ false
pinned_mute s r h = elim (Bool-cases (has_socket s r)) [
  | inl socket ↦ absurd (let bad = rw socket at h in cc)
  | inr no_socket ↦ no_socket
]

pub pinned_choice-Free :
    (s : Surroundings) (pinned : Option FeedId) → pinned_choice s pinned ≡ none → Free s pinned
unfolding pinned_choice
pinned_choice-Free s none h = no_pin refl
pinned_choice-Free s (some []) h = cleared refl
pinned_choice-Free s (some (x ∷ id)) h = elim (Option-cases (find_feed (x ∷ id) s.registered)) [
  | inl missing ↦ strange (x ∷ id) refl (find_feed-none (x ∷ id) s.registered missing)
  | inr (r, found) ↦
      mute (x ∷ id) r refl (find_feed-IsHit (x ∷ id) s.registered r found)
        (has_socket-false s r (pinned_mute s r (rw found at h)))
]

pub pinned_choice-Pins :
    (s : Surroundings) (pinned : Option FeedId) (c : Choice)
    → pinned_choice s pinned ≡ some c
    → Pins s pinned c
unfolding pinned_choice
pinned_choice-Pins s none c h = absurd (cc)
pinned_choice-Pins s (some []) c h = absurd (cc)
pinned_choice-Pins s (some (x ∷ id)) c h = elim (Option-cases (find_feed (x ∷ id) s.registered)) [
  | inl missing ↦ absurd (let bad = rw missing at h in cc)
  | inr (r, found) ↦ elim (Bool-cases (has_socket s r)) [
    | inl socket ↦ record {
      id = x ∷ id;
      feed = r;
      set = (refl, λ bad. absurd (cc));
      hit = find_feed-IsHit (x ∷ id) s.registered r found;
      socket = (ground arith, ground arith);
      named = some_inj (rw (found, socket) at h);
    }
    | inr no_socket ↦ absurd (let bad = rw (found, no_socket) at h in cc)
  ]
]

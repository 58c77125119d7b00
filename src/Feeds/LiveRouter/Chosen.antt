-- ===== src/Feeds/LiveRouter/Chosen.antt =====
-- Which feed the live router chooses, in the terms of what the feeds are.
use quantstack_terminal.Common.{
  ◌≢◌, ◌↔◌, ◌<◌, ◌≤◌, Option, all, ℕ, ◌≡◌, ◌⊎◌, inl, inr, refl, ap, true, false, List, [], ◌∷◌,
  ◌++◌, none, some, text_eq, arith, All, Option-cases, Bool-cases, get, Assoc,
}
use quantstack_terminal.Feeds.Breaker.{FeedId, BreakerState, closed, opened, half_open, state_of}
use quantstack_terminal.Feeds.Identity.{InstrumentKey}
use quantstack_terminal.Feeds.Registry.{Registered}
use quantstack_terminal.Instruments.Symbol.{symbol_of, segment_of}
use quantstack_terminal.Feeds.LiveRouter.{
  Surroundings, Choice, Live, choose, is_skipped, covers, is_opened, is_parked, has_socket,
}
use quantstack_terminal.Feeds.LiveRouter.Selection.{choose-by_loop, IsServable}
use quantstack_terminal.Feeds.LiveRouter.PinnedFeed.{
  Pins, Free, has_socket-false, pinned_choice-Free, pinned_choice-Pins,
}

-- Why the loop passes a feed over.
pub data Skips (s : Surroundings) (parked : Assoc FeedId ℕ) (keys : List InstrumentKey)
    (r : Registered) : Type 0 where
  broken : state_of s.now r.feed.id s.entries ≡ opened → Skips s parked keys r
  resting : (until : ℕ) → get r.feed.id parked ≡ some until → s.now < until → Skips s parked keys r
  no_socket :
      (r.feed.capabilities.live ≡ false) ⊎ (s.subscribes r.feed.id ≡ false) → Skips s parked keys r
  no_master : s.has_master r.broker ≡ false → Skips s parked keys r
  unresolved :
      all (λ k. s.resolves r.broker (symbol_of s.day_of k) (segment_of k.exchange k.kind)) keys
        ≡ false
      → Skips s parked keys r

-- A feed whose breaker is not open, that is not parked, and that carries every contract.
pub record Serves (s : Surroundings) (parked : Assoc FeedId ℕ) (keys : List InstrumentKey)
    (r : Registered) : Type 0 where
  pub sound : state_of s.now r.feed.id s.entries ≢ opened
  pub awake :
      (get r.feed.id parked ≡ none)
      ⊎ ((until : ℕ) × (get r.feed.id parked ≡ some until) × (until ≤ s.now))
  pub socket : (r.feed.capabilities.live ≡ true) × (s.subscribes r.feed.id ≡ true)
  pub master : s.has_master r.broker ≡ true
  pub resolves :
      all (λ k. s.resolves r.broker (symbol_of s.day_of k) (segment_of k.exchange k.kind)) keys
      ≡ true

covers-false :
    (s : Surroundings) (parked : Assoc FeedId ℕ) (keys : List InstrumentKey) (r : Registered)
    → covers s r keys ≡ false
    → Skips s parked keys r
unfolding covers
covers-false s parked keys r h = elim (Bool-cases (has_socket s r)) [
  | inr none_ ↦ no_socket (has_socket-false s r none_)
  | inl socket ↦ elim (Bool-cases (s.has_master r.broker)) [
    | inr none_ ↦ no_master none_
    | inl master ↦ unresolved (rw (socket, master) at h)
  ]
]

is_opened_iff : (b : BreakerState) → (is_opened b ≡ true) ↔ (b ≡ opened)
is_opened_iff closed = (λ h. absurd (cc), λ h. absurd (cc))
is_opened_iff opened = (λ h. refl, λ h. refl)
is_opened_iff half_open = (λ h. absurd (cc), λ h. absurd (cc))

is_skipped-Skips :
    (s : Surroundings) (parked : Assoc FeedId ℕ) (keys : List InstrumentKey) (r : Registered)
    → is_skipped s parked keys r ≡ true
    → Skips s parked keys r
unfolding is_skipped
is_skipped-Skips s parked keys r h =
    elim (Bool-cases (is_opened (state_of s.now r.feed.id s.entries))) [
      | inl open_ ↦ broken ((is_opened_iff (state_of s.now r.feed.id s.entries)).0 open_)
      | inr shut ↦ elim (Bool-cases (covers s r keys)) [
        | inr lacks ↦ covers-false s parked keys r lacks
        | inl carries ↦ elim (Option-cases (get r.feed.id parked)) [
          | inl free ↦ absurd (let bad = rw (shut, carries, free) at h in cc)
          | inr (until, held) ↦
              resting until held (let h' = rw (shut, carries, held) at h in ground arith)
        ]
      ]
    ]

not_opened : (b : BreakerState) → is_opened b ≡ false → b ≢ opened
not_opened b h e = cc (ap is_opened e)

awake_of :
    (now : ℕ) (o : Option ℕ)
    → is_parked now o ≡ false
    → (o ≡ none) ⊎ ((until : ℕ) × (o ≡ some until) × (until ≤ now))
awake_of now none h = inl refl
awake_of now (some until) h = inr (until, refl, ground arith)

IsServable-Serves :
    (s : Surroundings) (parked : Assoc FeedId ℕ) (keys : List InstrumentKey) (r : Registered)
    → IsServable s parked keys r
    → Serves s parked keys r
unfolding covers
IsServable-Serves s parked keys r h =
    let carries : covers s r keys ≡ true = h.carries in
    record {
      sound = not_opened (state_of s.now r.feed.id s.entries) h.not_open;
      awake = awake_of s.now (get r.feed.id parked) h.not_parked;
      socket = (ground arith, ground arith);
      master = ground arith;
      resolves = ground arith;
    }

-- The choice is the first feed of the list that serves.
pub record IsFirstOf (s : Surroundings) (parked : Assoc FeedId ℕ) (keys : List InstrumentKey)
    (rs : List Registered) (c : Choice) : Type 0 where
  pub before : List Registered
  pub found : Registered
  pub after : List Registered
  pub stands : rs ≡ before ++ found ∷ after
  pub passed : All (λ r. Skips s parked keys r) before
  pub serves : Serves s parked keys found
  pub named : c ≡ record { feed = found.feed.id; broker = found.broker }

all_Skips :
    (s : Surroundings) (parked : Assoc FeedId ℕ) (keys : List InstrumentKey) (rs : List Registered)
    → All (λ r. is_skipped s parked keys r ≡ true) rs
    → All (λ r. Skips s parked keys r) rs
all_Skips s parked keys [] h = tt
all_Skips s parked keys (r ∷ rs) h =
    (is_skipped-Skips s parked keys r h.0, all_Skips s parked keys rs h.1)

-- What a choice for the contracts is, and what it means that there is none.
unfoldable pub IsChosen : Surroundings → Live → List InstrumentKey → Option Choice → Type 0
IsChosen s m keys none = Free s m.pinned × All (λ r. Skips s m.parked keys r) s.registered
IsChosen s m keys (some c) =
    Pins s m.pinned c ⊎ (Free s m.pinned × IsFirstOf s m.parked keys s.registered c)

-- The choice is the pinned feed if it is registered and has a socket, and else the first registered
-- feed whose breaker is not open, which is not parked, has a socket and a loaded master, and resolves
-- every contract. There is none only if no pin names a feed with a socket and each registered feed
-- lacks one of these.
pub choose-IsFirst :
    (s : Surroundings) (m : Live) (keys : List InstrumentKey) → IsChosen s m keys (choose s m keys)
unfolding IsChosen
choose-IsFirst s m keys =
    let (no_one, one) = choose-by_loop s m keys in
    elim (Option-cases (choose s m keys)) [
      | inl nobody ↦
          let (free, skipped) = no_one nobody in
          rw nobody
            (pinned_choice-Free s m.pinned free, all_Skips s m.parked keys s.registered skipped)
      | inr (c, chosen) ↦ rw chosen (elim (one c chosen) [
        | inl held ↦ inl (pinned_choice-Pins s m.pinned c held)
        | inr (free, first) ↦ inr (
          pinned_choice-Free s m.pinned free,
          record {
            before = first.before;
            found = first.found;
            after = first.after;
            stands = first.stands;
            passed = all_Skips s m.parked keys first.before first.all_skipped;
            serves = IsServable-Serves s m.parked keys first.found first.servable;
            named = first.named;
          },
        )
      ])
    ]

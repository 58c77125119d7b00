-- ===== src/Feeds/LiveRouter/Selection.antt =====
-- Which feed the live router chooses.
use quantstack_terminal.Common.{
  ℕ, ◌≡◌, ◌∙◌, ◌⊎◌, inl, inr, refl, ap, true, false, List, [], ◌∷◌, ◌++◌, none, some, text_eq,
  arith, All, Option-cases, Bool-cases, get, Assoc,
}
use quantstack_terminal.Feeds.Breaker.{FeedId, state_of}
use quantstack_terminal.Feeds.Identity.{InstrumentKey}
use quantstack_terminal.Feeds.Registry.{Registered}
use quantstack_terminal.Feeds.LiveRouter.{
  Surroundings, Choice, Live, choose, choose_from, pinned_choice, is_skipped, covers, choice_of,
  is_opened, is_parked,
}

some_inj : {c d : Choice} → some c ≡ some d → d ≡ c
some_inj h = cc

module _ (s : Surroundings) (parked : Assoc FeedId ℕ) (keys : List InstrumentKey) where
  -- A feed that the loop does not skip: its breaker is not open, it is not parked, and it carries
  -- every contract.
  pub record IsServable (r : Registered) : Type 0 where
    pub not_open : is_opened (state_of s.now r.feed.id s.entries) ≡ false
    pub not_parked : is_parked s.now (get r.feed.id parked) ≡ false
    pub carries : covers s r keys ≡ true

  is_skipped-IsServable : (r : Registered) → is_skipped s parked keys r ≡ false → IsServable r
  unfolding is_skipped
  is_skipped-IsServable r h = record {
    not_open = ground arith;
    not_parked = ground arith;
    carries = ground arith;
  }

  -- The first of the feeds that is not skipped.
  pub record IsFirst (c : Choice) (rs : List Registered) : Type 0 where
    pub before : List Registered
    pub found : Registered
    pub after : List Registered
    pub stands : rs ≡ before ++ found ∷ after
    pub all_skipped : All (λ r. is_skipped s parked keys r ≡ true) before
    pub servable : IsServable found
    pub named : c ≡ choice_of found

  choose_from-IsFirst :
      (rs : List Registered)
      → (choose_from s parked keys rs ≡ none → All (λ r. is_skipped s parked keys r ≡ true) rs)
        × ((c : Choice) → choose_from s parked keys rs ≡ some c → IsFirst c rs)
  unfolding choose_from
  choose_from-IsFirst [] = (λ h. tt, λ c h. absurd (cc))
  choose_from-IsFirst (r ∷ rs) =
      let (rest_none, rest_some) = choose_from-IsFirst rs in
      elim (Bool-cases (is_skipped s parked keys r)) [
        | inl skip ↦ (
          λ h. (skip, rest_none (rw skip at h)),
          λ c h.
              let f = rest_some c (rw skip at h) in
              record {
                before = r ∷ f.before;
                found = f.found;
                after = f.after;
                stands = ap (λ t. r ∷ t) f.stands;
                all_skipped = (skip, f.all_skipped);
                servable = f.servable;
                named = f.named;
              },
        )
        | inr serve ↦ (
          λ h. absurd (let bad = rw serve at h in cc),
          λ c h. record {
            before = [];
            found = r;
            after = rs;
            stands = refl;
            all_skipped = tt;
            servable = is_skipped-IsServable r serve;
            named = some_inj (rw serve at h);
          },
        )
      ]

-- The choice in the terms of `pinned_choice` and of the loop.
pub choose-by_loop :
    (s : Surroundings) (m : Live) (keys : List InstrumentKey)
    → (choose s m keys ≡ none
        → (pinned_choice s m.pinned ≡ none)
          × All (λ r. is_skipped s m.parked keys r ≡ true) s.registered)
      × ((c : Choice)
          → choose s m keys ≡ some c
          → (pinned_choice s m.pinned ≡ some c)
            ⊎ ((pinned_choice s m.pinned ≡ none) × IsFirst s m.parked keys c s.registered))
unfolding choose
choose-by_loop s m keys =
    let (no_one, one) = choose_from-IsFirst s m.parked keys s.registered in
    elim (Option-cases (pinned_choice s m.pinned)) [
      | inl free ↦ (λ h. (free, no_one (rw free at h)), λ c h. inr (free, one c (rw free at h)))
      | inr (p, held) ↦
          (λ h. absurd (let bad = rw held at h in cc), λ c h. inl (held ∙ rw held at h))
    ]

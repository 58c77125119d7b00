-- ===== src/Feeds/AuthManager/SingleFlight.antt =====
-- No login of a feed begins while one of it is outstanding.
use quantstack_terminal.Common.{
  ℕ, ◌≡◌, ◌≢◌, ◌∙◌, inl, inr, refl, sym, ap, Bool, true, false, List, [], ◌∷◌, ◌++◌, none, some,
  text_eq, arith, All, ltb, Option-cases, Bool-cases, length, get_elem?, get_or, modify,
  get_elem?-modify_ne, get_elem?-append_left, get_elem?-append_last, lt_of_get_elem?,
  get_or-get_elem?, get, put, remove,
}
use quantstack_terminal.Feeds.Breaker.{FeedId}
use quantstack_terminal.Feeds.AuthManager.{
  AuthState, Manager, new_state, state_of, Ensured, started, mark_started, ensure_on,
  ensure_connected, sign_out, Event, run,
}
use quantstack_terminal.Common.{Distinct}
use quantstack_terminal.Common.{get_of_IsFresh}
use quantstack_terminal.Common.{IsFresh-remove_self}
use quantstack_terminal.Feeds.AuthManager.Ownership.{
  IsOwned, empty-IsOwned, some_inj, state_of-IsOwned, run-IsOwned, StaysIn,
}

ensure_on-started :
    (connected : Bool) (now : ℕ) (id : FeedId) (m : Manager) (ref r : ℕ)
    → (ensure_on connected now id (m, ref)).1 ≡ started r
    → (ref ≡ r) × ((get_or m.objects ref (new_state id)).in_flight ≡ false)
unfolding ensure_on
ensure_on-started true now id m ref r h = cc
ensure_on-started false now id m ref r h =
    let s = get_or m.objects ref (new_state id) in
    elim (Bool-cases (ltb now s.retry_after)) [
      | inl waiting ↦ let bad = rw waiting at h in cc
      | inr free ↦ elim (Bool-cases s.in_flight) [
        | inl flying ↦ let bad = rw (free, flying) at h in cc
        | inr idle ↦ let eq = rw (free, idle) at h in ((cc), idle)
      ]
    ]

idle_of_started :
    (id : FeedId) (m : Manager) (r : ℕ)
    → IsOwned m
    → get id m.state ≡ some r
    → (get_or m.objects r (new_state id)).in_flight ≡ false
    → (j : ℕ) (s : AuthState) → get_elem? m.objects j ≡ some s
    → s.feed ≡ id
    → s.in_flight ≡ false
idle_of_started id m r h at idle j s e mine =
    let here : j ≡ r = some_inj (sym (h.owned j s e) ∙ ap (λ i. get i m.state) mine ∙ at) in
    let same : get_or m.objects r (new_state id) ≡ s =
      get_or-get_elem? m.objects r (new_state id) (ap (get_elem? m.objects) (sym here) ∙ e) in
    sym (ap (λ (x : AuthState). x.in_flight) same) ∙ idle

abbrev pub no_feeds : Manager
no_feeds = record { state = []; objects = [] }

abbrev IdleAt : FeedId → Manager → Type 0
IdleAt id m =
    (j : ℕ) (s : AuthState)
    → get_elem? m.objects j ≡ some s
    → s.feed ≡ id
    → (s.in_flight ≡ false) × (s.connecting ≡ false)

idle_both :
    (id : FeedId) (m : Manager)
    → IsOwned m
    → ((j : ℕ) (s : AuthState) → get_elem? m.objects j ≡ some s → s.feed ≡ id → s.in_flight ≡ false)
    → IdleAt id m
idle_both id m h idle j s e mine =
    let off = idle j s e mine in
    (
      off,
      elim (Bool-cases s.connecting) [
        | inl on ↦ let bad = (h.consistent j s e).connecting_flies on in cc
        | inr rest ↦ rest
      ],
    )

state_of-keeps :
    (id : FeedId) (m : Manager) (j : ℕ) (s : AuthState)
    → get_elem? m.objects j ≡ some s
    → get_elem? (state_of id m).0.objects j ≡ some s
unfolding state_of
state_of-keeps id m j s e = elim (Option-cases (get id m.state)) [
  | inr (ref, at) ↦ rw (at, state_of) e
  | inl missing ↦
      rw (missing, state_of)
        (get_elem?-append_left m.objects (new_state id ∷ []) j (lt_of_get_elem? m.objects j e) ∙ e)
]

-- While no one signs out, a login of a feed begins only when no earlier login of the feed is
-- outstanding or in flight, whatever came before.
pub single_flight :
    (es : List Event) (connected : Bool) (now : ℕ) (id : FeedId) (r : ℕ)
    → All StaysIn es
    → (ensure_connected connected now id (run es no_feeds)).1 ≡ started r
    → (j : ℕ) (s : AuthState) → get_elem? (run es no_feeds).objects j ≡ some s
    → s.feed ≡ id
    → (s.in_flight ≡ false) × (s.connecting ≡ false)
unfolding ensure_connected
single_flight es connected now id r stays h j s e mine =
    let m = run es no_feeds in
    let (own, at) = state_of-IsOwned id m (run-IsOwned es no_feeds stays empty-IsOwned) in
    let grown = (state_of id m).0 in
    let ref = (state_of id m).1 in
    let (here, idle) = ensure_on-started connected now id grown ref r h in
    idle_both id grown own (idle_of_started id grown ref own at idle) j s
      (state_of-keeps id m j s e) mine

abbrev grow : FeedId → Manager → Manager
grow id m = record {
  state = put id (length m.objects) m.state;
  objects = m.objects ++ new_state id ∷ [];
}

state_of-missing :
    (id : FeedId) (m : Manager)
    → get id m.state ≡ none
    → state_of id m ≡ (grow id m, length m.objects)
unfolding state_of
state_of-missing id m missing = rw (missing, state_of) refl

pub ensure_on-idle :
    (now : ℕ) (id : FeedId) (m : Manager) (ref : ℕ) (s : AuthState)
    → get_elem? m.objects ref ≡ some s
    → ltb now s.retry_after ≡ false
    → s.in_flight ≡ false
    → ensure_on false now id (m, ref)
      ≡ (record m { objects = modify ref mark_started m.objects }, started ref)
unfolding ensure_on
ensure_on-idle now id m ref s e free idle =
    let same = get_or-get_elem? m.objects ref (new_state id) e in rw (same, free, idle) refl

not_before_zero : (n : ℕ) → ltb n 0 ≡ false
not_before_zero n = ground arith

-- A `signOut` forgets an outstanding login: the next request begins a second one at once, whatever the
-- clock says, and the first is still outstanding.
pub sign_out-second_login :
    (now : ℕ) (id : FeedId) (ref : ℕ) (o : AuthState) (m : Manager)
    → Distinct m.state
    → get id m.state ≡ some ref
    → get_elem? m.objects ref ≡ some o
    → o.connecting ≡ true
    → ((ensure_connected false now id (sign_out id m)).1 ≡ started (length m.objects))
      × (get_elem? (ensure_connected false now id (sign_out id m)).0.objects ref ≡ some o)
unfolding ensure_connected sign_out
sign_out-second_login now id ref o m d at e busy =
    let gone : get id (remove id m.state) ≡ none =
      get_of_IsFresh id (remove id m.state) (IsFresh-remove_self id m.state d) in
    let m' = sign_out id m in
    let grown = grow id m' in
    let last = get_elem?-append_last m.objects (new_state id) in
    let whole : ensure_connected false now id m' ≡ (
      record grown { objects = modify (length m.objects) mark_started grown.objects },
      started (length m.objects),
    ) =
      ap (ensure_on false now id) (state_of-missing id m' gone)
      ∙ ensure_on-idle now id grown (length m.objects) (new_state id) last
          (let z = not_before_zero now in z) refl in
    let before = lt_of_get_elem? m.objects ref e in
    let apart : length m.objects ≢ ref = λ same. absurd (omega arith) in
    (
      ap (λ (x : Manager × Ensured). x.1) whole,
      ap (λ (x : Manager × Ensured). get_elem? x.0.objects ref) whole
          ∙ get_elem?-modify_ne (length m.objects) ref mark_started grown.objects apart
          ∙ get_elem?-append_left m.objects (new_state id ∷ []) ref before
          ∙ e,
    )

-- ===== src/Feeds/AuthManager/Ownership.antt =====
-- The invariant of the session objects while no one signs out.
use quantstack_terminal.Common.{
  ℕ, zero, suc, ◌≡◌, ◌≢◌, ◌∙◌, ◌⊎◌, inl, inr, refl, sym, ap, Bool, true, false, List, [], ◌∷◌, ◌++◌,
  none, some, text_eq, text_beq_iff, text_beq, arith, All, ltb, Option-cases, Bool-cases, length,
  get_elem?, get_or, modify, get_elem?-modify_self, get_elem?-modify_ne, get_elem?-append_left,
  get_elem?-append_last, lt_of_get_elem?, get_or-get_elem?, get, put, get-put_self, get-put_ne,
}
use native.Mathlib.Decide.{ℕ_discrete}
use mathlib.Core.Path.{subst}
use quantstack_terminal.Common.{ne_of_beq}
use quantstack_terminal.Feeds.Breaker.{FeedId}
use quantstack_terminal.Feeds.AuthManager.{
  AuthState, Manager, new_state, state_of, mark_connected, mark_started, ensure_on,
  ensure_connected, mark_succeeded, mark_failed, mark_finished, Event, asked, login_succeeded,
  login_failed, login_finished, signed_out, was_reset, step, run,
}
use quantstack_terminal.Feeds.AuthManager.{Thrown}

-- A login that is outstanding, or whose `finally` is, has its promise in flight.
pub record IsConsistent (s : AuthState) : Type 0 where
  pub connecting_flies : s.connecting ≡ true → s.in_flight ≡ true
  pub settling_flies : s.settling ≡ true → s.in_flight ≡ true
  pub one_phase : s.connecting ≡ true → s.settling ≡ false

-- Every object is the one that its feed is mapped to, and the map leads to objects of its feeds.
pub record IsOwned (m : Manager) : Type 0 where
  pub consistent : (r : ℕ) (s : AuthState) → get_elem? m.objects r ≡ some s → IsConsistent s
  pub owned : (r : ℕ) (s : AuthState) → get_elem? m.objects r ≡ some s → get s.feed m.state ≡ some r
  pub found :
      (id : FeedId) (r : ℕ)
      → get id m.state ≡ some r
      → (s : AuthState) × (get_elem? m.objects r ≡ some s) × (s.feed ≡ id)

pub empty-IsOwned : IsOwned (record { state = []; objects = [] })
empty-IsOwned = record {
  consistent = λ r s h. cc;
  owned = λ r s h. cc;
  found = λ id r h. absurd (let bad : none ≡ some r = unfold get in h in cc);
}

pub at_modify :
    (i r : ℕ) (f : AuthState → AuthState) (xs : List AuthState) (s : AuthState)
    → get_elem? (modify i f xs) r ≡ some s
    → (get_elem? xs r ≡ some s)
      ⊎ ((s' : AuthState) × (i ≡ r) × (get_elem? xs r ≡ some s') × (s ≡ f s'))
at_modify i r f [] s h = cc
at_modify zero zero f (x ∷ xs) s h = inr (x, refl, refl, (cc))
at_modify zero (suc r) f (x ∷ xs) s h = inl h
at_modify (suc i) zero f (x ∷ xs) s h = inl h
at_modify (suc i) (suc r) f (x ∷ xs) s h = elim (at_modify i r f xs s h) [
  | inl old ↦ inl old
  | inr (s', at, old, eq) ↦ inr (s', ap suc at, old, eq)
]

-- A change of one object that keeps its feed and its consistency keeps the whole.
pub modify-IsOwned :
    (i : ℕ) (f : AuthState → AuthState) (m : Manager)
    → ((s : AuthState)
        → get_elem? m.objects i ≡ some s
        → ((f s).feed ≡ s.feed) × IsConsistent (f s))
    → IsOwned m
    → IsOwned (record m { objects = modify i f m.objects })
modify-IsOwned i f m keeps h = record {
  consistent = λ r s e. elim (at_modify i r f m.objects s e) [
    | inl old ↦ h.consistent r s old
    | inr (s', at, old, eq) ↦
        subst IsConsistent (sym eq) (keeps s' (ap (get_elem? m.objects) at ∙ old)).1
  ];
  owned = λ r s e. elim (at_modify i r f m.objects s e) [
    | inl old ↦ h.owned r s old
    | inr (s', at, old, eq) ↦
        ap (λ (x : AuthState). get x.feed m.state) eq
        ∙ ap (λ id. get id m.state) (keeps s' (ap (get_elem? m.objects) at ∙ old)).0
        ∙ h.owned r s' old
  ];
  found = λ id r e.
      let (s, at, mine) = h.found id r e in
      elim (ℕ_discrete i r) [
        | yes here ↦
            let at' = ap (get_elem? m.objects) here ∙ at in
            (
              f s,
              ap (get_elem? (modify i f m.objects)) (sym here)
                  ∙ get_elem?-modify_self i f m.objects at',
              (keeps s at').0 ∙ mine,
            )
        | no there ↦ (s, get_elem?-modify_ne i r f m.objects there ∙ at, mine)
      ];
}

pub at_append :
    (xs : List AuthState) (a : AuthState) (r : ℕ) (s : AuthState)
    → get_elem? (xs ++ a ∷ []) r ≡ some s
    → (get_elem? xs r ≡ some s) ⊎ ((r ≡ length xs) × (a ≡ s))
at_append [] a zero s h = inr (refl, (cc))
at_append [] a (suc r) s h = cc
at_append (x ∷ xs) a zero s h = inl h
at_append (x ∷ xs) a (suc r) s h = elim (at_append xs a r s h) [
  | inl old ↦ inl old
  | inr (at, eq) ↦ inr (ap suc at, eq)
]

pub some_inj : {a b : ℕ} → some a ≡ some b → a ≡ b
some_inj h = cc

pub grow-IsOwned :
    (id : FeedId) (m : Manager)
    → get id m.state ≡ none
    → IsOwned m
    → IsOwned (record {
      state = put id (length m.objects) m.state;
      objects = m.objects ++ new_state id ∷ [];
    })
grow-IsOwned id m missing h = record {
  consistent = λ r s e. elim (at_append m.objects (new_state id) r s e) [
    | inl old ↦ h.consistent r s old
    | inr (at, eq) ↦
        subst IsConsistent eq
          (record { connecting_flies = λ x. cc; settling_flies = λ x. cc; one_phase = λ x. refl })
  ];
  owned = λ r s e. elim (at_append m.objects (new_state id) r s e) [
    | inl old ↦
        let differ : id ≢ s.feed =
          λ same. cc (missing, h.owned r s old, ap (λ i. get i m.state) same) in
        get-put_ne id s.feed (length m.objects) m.state differ ∙ h.owned r s old
    | inr (at, eq) ↦
        ap (λ (x : AuthState). get x.feed (put id (length m.objects) m.state)) (sym eq)
        ∙ get-put_self id (length m.objects) m.state
        ∙ ap some (sym at)
  ];
  found = λ id' r e. elim (Bool-cases (text_beq id id')) [
    | inl same ↦
        let eq : id ≡ id' = (text_beq_iff id id').0 same in
        let at : length m.objects ≡ r = some_inj (
          sym (get-put_self id (length m.objects) m.state)
          ∙ ap (λ i. get i (put id (length m.objects) m.state)) eq
          ∙ e) in
        (
          new_state id,
          ap (get_elem? (m.objects ++ new_state id ∷ [])) (sym at)
              ∙ get_elem?-append_last m.objects (new_state id),
          eq,
        )
    | inr other ↦
        let old : get id' m.state ≡ some r =
          sym (get-put_ne id id' (length m.objects) m.state (ne_of_beq id id' other)) ∙ e in
        let (s, at, mine) = h.found id' r old in
        (
          s,
          get_elem?-append_left m.objects (new_state id ∷ []) r (lt_of_get_elem? m.objects r at)
              ∙ at,
          mine,
        )
  ];
}

-- `stateOf` leads to the object of the feed.
pub state_of-IsOwned :
    (id : FeedId) (m : Manager)
    → IsOwned m
    → IsOwned (state_of id m).0 × (get id (state_of id m).0.state ≡ some (state_of id m).1)
unfolding state_of
state_of-IsOwned id m h = elim (Option-cases (get id m.state)) [
  | inr (ref, at) ↦ rw (at, state_of) (h, at)
  | inl missing ↦
      rw (missing, state_of)
        (grow-IsOwned id m missing h, get-put_self id (length m.objects) m.state)
]

pub mark_connected-IsConsistent :
    (now : ℕ) (s : AuthState) → IsConsistent s → IsConsistent (mark_connected now s)
mark_connected-IsConsistent now s h = ground arith

pub mark_succeeded-keeps :
    (now : ℕ) (s : AuthState)
    → IsConsistent s
    → ((mark_succeeded now s).feed ≡ s.feed) × IsConsistent (mark_succeeded now s)
unfolding mark_succeeded
mark_succeeded-keeps now s h = ground arith

pub mark_failed-keeps :
    (now : ℕ) (err : Thrown) (s : AuthState)
    → IsConsistent s
    → ((mark_failed now err s).feed ≡ s.feed) × IsConsistent (mark_failed now err s)
unfolding mark_failed
mark_failed-keeps now err s h = ground arith

pub mark_finished-keeps :
    (s : AuthState)
    → IsConsistent s
    → ((mark_finished s).feed ≡ s.feed) × IsConsistent (mark_finished s)
unfolding mark_finished
mark_finished-keeps s h = ground arith

pub mark_started-IsConsistent :
    (s : AuthState) → s.in_flight ≡ false → IsConsistent s → IsConsistent (mark_started s)
mark_started-IsConsistent s idle h = ground arith

pub ensure_on-IsOwned :
    (connected : Bool) (now : ℕ) (id : FeedId) (m : Manager) (ref : ℕ)
    → IsOwned m
    → get id m.state ≡ some ref
    → IsOwned (ensure_on connected now id (m, ref)).0
unfolding ensure_on
ensure_on-IsOwned true now id m ref h at =
    modify-IsOwned ref (mark_connected now) m
      (λ s e. (refl, mark_connected-IsConsistent now s (h.consistent ref s e))) h
ensure_on-IsOwned false now id m ref h at =
    let s = get_or m.objects ref (new_state id) in
    elim (Bool-cases (ltb now s.retry_after)) [
      | inl waiting ↦ rw waiting h
      | inr free ↦ elim (Bool-cases s.in_flight) [
        | inl flying ↦ rw (free, flying) h
        | inr idle ↦
            rw (free, idle)
              (modify-IsOwned ref mark_started m
                (λ s' e. (
                  refl,
                  mark_started-IsConsistent s'
                      (ap (λ (x : AuthState). x.in_flight)
                          (sym (get_or-get_elem? m.objects ref (new_state id) e))
                        ∙ idle)
                      (h.consistent ref s' e),
                ))
                h)
      ]
    ]

pub ensure_connected-IsOwned :
    (connected : Bool) (now : ℕ) (id : FeedId) (m : Manager)
    → IsOwned m
    → IsOwned (ensure_connected connected now id m).0
unfolding ensure_connected
ensure_connected-IsOwned connected now id m h =
    let (h', at) = state_of-IsOwned id m h in
    ensure_on-IsOwned connected now id (state_of id m).0 (state_of id m).1 h' at

-- Neither a sign-out nor the test seam's reset.
abbrev pub StaysIn : Event → Type 0
StaysIn (signed_out id) = ⊥
StaysIn was_reset = ⊥
StaysIn _ = Unit

pub step-IsOwned : (e : Event) (m : Manager) → StaysIn e → IsOwned m → IsOwned (step e m)
unfolding step
step-IsOwned (asked connected now id) m k h = ensure_connected-IsOwned connected now id m h
step-IsOwned (login_succeeded now ref) m k h =
    modify-IsOwned ref (mark_succeeded now) m
      (λ s e. mark_succeeded-keeps now s (h.consistent ref s e)) h
step-IsOwned (login_failed now ref err) m k h =
    modify-IsOwned ref (mark_failed now err) m
      (λ s e. mark_failed-keeps now err s (h.consistent ref s e)) h
step-IsOwned (login_finished ref) m k h =
    modify-IsOwned ref mark_finished m (λ s e. mark_finished-keeps s (h.consistent ref s e)) h
step-IsOwned (signed_out id) m k h = absurd k
step-IsOwned was_reset m k h = absurd k

pub run-IsOwned : (es : List Event) (m : Manager) → All StaysIn es → IsOwned m → IsOwned (run es m)
unfolding run
run-IsOwned [] m k h = h
run-IsOwned (e ∷ es) m k h = run-IsOwned es (step e m) k.1 (step-IsOwned e m k.0 h)

-- ===== src/Client/Socket/Runs.antt =====
-- A socket that nobody closes keeps one connection and never gives up; one more theorem tells what a
-- reconnection sends.
use quantstack_terminal.Common.{
  ℕ, zero, suc, min, ◌≤◌, ◌<◌, ◌≡◌, ◌≢◌, ◌⊎◌, refl, sym, ◌∙◌, ap, Bool, Bool-cases, Option-cases,
  true, false, not, ◌==◌, ==_iff, List, [], ◌∷◌, ◌++◌, Option, none, some, some_inj, inl, inr,
  by_if, length, get_elem?, get_or, set, arith, get_elem?-append_last, lt_of_get_elem?, All,
}
use quantstack_terminal.Client.Socket.{
  LiveSocket, Ready, connecting, ready, gone, is_connecting, is_usable, new, current, connect,
  schedule_retry, send, send_subscription, subscribe, on_open, on_close, retry_fired, backoff,
}

get_elem?-set_self {ℓ} :
    {A : Type ℓ} (xs : List A) (i : ℕ) (v : A) → i < length xs → get_elem? (set xs i v) i ≡ some v
get_elem?-set_self [] i v h = absurd (omega arith)
get_elem?-set_self (x ∷ xs) zero v h = refl
get_elem?-set_self (x ∷ xs) (suc i) v h = get_elem?-set_self xs i v (omega arith)

get_elem?-set_ne {ℓ} :
    {A : Type ℓ} (xs : List A) (i j : ℕ) (v : A)
    → (i == j) ≡ false
    → get_elem? (set xs i v) j ≡ get_elem? xs j
get_elem?-set_ne [] i j v h = refl
get_elem?-set_ne (x ∷ xs) zero zero v h = absurd (ground arith)
get_elem?-set_ne (x ∷ xs) zero (suc j) v h = refl
get_elem?-set_ne (x ∷ xs) (suc i) zero v h = refl
get_elem?-set_ne (x ∷ xs) (suc i) (suc j) v h = get_elem?-set_ne xs i j v (ground arith)

get_elem?-append_cases {ℓ} :
    {A : Type ℓ} (xs : List A) (a : A) (n : ℕ) (r : A)
    → get_elem? (xs ++ a ∷ []) n ≡ some r
    → (get_elem? xs n ≡ some r) ⊎ (n ≡ length xs)
get_elem?-append_cases [] a zero r e = inr refl
get_elem?-append_cases [] a (suc n) r e = absurd (cc)
get_elem?-append_cases (x ∷ xs) a zero r e = inl e
get_elem?-append_cases (x ∷ xs) a (suc n) r e = elim (get_elem?-append_cases xs a n r e) [
  | inl old ↦ inl old
  | inr last ↦ inr (ap suc last)
]

get_or-All {ℓ κ} :
    {A : Type ℓ} (P : A → Type κ) (xs : List A) (i : ℕ) (a : A)
    → All P xs
    → i < length xs
    → P (get_or xs i a)
get_or-All P [] i a p h = absurd (omega arith)
get_or-All P (x ∷ xs) zero a p h = p.0
get_or-All P (x ∷ xs) (suc i) a p h = get_or-All P xs i a p.1 (omega arith)

module _ (World Payload : Type 0) where
  -- What happens to a socket that nobody closes. A socket opens once, while it is connecting, and
  -- leaves the states connecting and open with its close event only.
  pub data Step : LiveSocket World Payload → LiveSocket World Payload → Type 0 where
    connected : {s : LiveSocket World Payload} (made : Bool) → Step s (connect World Payload made s)
    subscribed :
        {s : LiveSocket World Payload} (world : World) (make : World → Option Payload)
        → Step s (subscribe World Payload world make s).0
    opened :
        {s : LiveSocket World Payload} (world : World) (n : ℕ)
        → get_elem? s.sockets n ≡ some connecting
        → Step s (on_open World Payload world n s).0
    went :
        {s : LiveSocket World Payload} (n : ℕ) (r : Ready)
        → get_elem? s.sockets n ≡ some r
        → r ≢ gone
        → Step s (on_close World Payload n s)
    fired :
        {s : LiveSocket World Payload} {d : ℕ} (made : Bool)
        → s.retry_timer ≡ some d
        → Step s (retry_fired World Payload made s)

  pub data Reached : LiveSocket World Payload → Type 0 where
    start : (made : Bool) → Reached (connect World Payload made (new World Payload))
    then_ : {s s' : LiveSocket World Payload} → Reached s → Step s s' → Reached s'

  -- Only the current socket is not gone, and it is usable; a retry waits for at most 8 seconds.
  pub record IsSingle (s : LiveSocket World Payload) : Type 0 where
    pub only : (n : ℕ) (r : Ready) → get_elem? s.sockets n ≡ some r → (r ≡ gone) ⊎ (s.ws ≡ some n)
    pub usable : (n : ℕ) → s.ws ≡ some n → is_usable (get_elem? s.sockets n) ≡ true
    pub delays : (d : ℕ) → s.retry_timer ≡ some d → (500 ≤ d) × (d ≤ 8_000)
    pub ours : s.closed_by_us ≡ false

  pub record IsTending (s : LiveSocket World Payload) : Type 0 where
    pub single : IsSingle s
    pub trying : s.ws ≡ none → s.retry_timer ≢ none

  delay_bounds :
      (attempt : ℕ)
      → (500 ≤ get_or backoff (min attempt 5) 0) × (get_or backoff (min attempt 5) 0 ≤ 8_000)
  delay_bounds attempt =
      get_or-All (λ d. (500 ≤ d) × (d ≤ 8_000)) backoff (min attempt 5) 0 (ground arith)
        (omega arith)

  schedule-IsTending :
      (s : LiveSocket World Payload) → IsSingle s → IsTending (schedule_retry World Payload s)
  unfolding schedule_retry
  schedule-IsTending s h = elim (Option-cases s.retry_timer) [
    | inr (d, here) ↦
        rw (schedule_retry, here) (record { single = h; trying = λ _ bad. absurd (cc) })
    | inl free ↦
        rw (schedule_retry, free)
          (record {
            single = record {
              only = h.only;
              usable = h.usable;
              delays = λ d e. let same = some_inj e in rw (← same) (delay_bounds s.attempt);
              ours = h.ours;
            };
            trying = λ _ bad. absurd (cc);
          })
  ]

  -- A socket that is made while no other one is left.
  added-IsSingle :
      (s : LiveSocket World Payload)
      → IsSingle s
      → s.ws ≡ none
      → IsSingle (record s {
        ws = some (length s.sockets);
        sockets = s.sockets ++ connecting ∷ [];
        closed_by_us = false;
        state = is_connecting;
      })
  added-IsSingle s h free = record {
    only = λ n r e. elim (get_elem?-append_cases s.sockets connecting n r e) [
      | inr last ↦ inr (ap some (sym last))
      | inl old ↦ elim (h.only n r old) [ inl dead ↦ inl dead | inr bad ↦ absurd (cc) ]
    ];
    usable = λ n e.
        let same : length s.sockets ≡ n = some_inj e in
        rw (← same, get_elem?-append_last s.sockets connecting) refl;
    delays = h.delays;
    ours = refl;
  }

  connect-IsTending :
      (made : Bool) (s : LiveSocket World Payload)
      → IsSingle s
      → IsTending (connect World Payload made s)
  unfolding connect
  connect-IsTending made s h = elim (Option-cases s.ws) [
    | inr (n, here) ↦
        let live : is_usable (current World Payload s) ≡ true = rw here (h.usable n here) in
        rw (connect, live) (record { single = h; trying = λ bad. absurd (cc) })
    | inl free ↦
        let dead : is_usable (current World Payload s) ≡ false = rw free refl in
        let idle = record s { closed_by_us = false; state = is_connecting } in
        rw (connect, dead)
          (by_if IsTending (not made)
            (λ _.
              schedule-IsTending idle
                (record { only = h.only; usable = h.usable; delays = h.delays; ours = refl }))
            (λ _. record { single = added-IsSingle s h free; trying = λ bad. absurd (cc) }))
  ]

  opened-IsTending :
      (world : World) (n : ℕ) (s : LiveSocket World Payload)
      → IsTending s
      → get_elem? s.sockets n ≡ some connecting
      → IsTending (on_open World Payload world n s).0
  unfolding on_open
  opened-IsTending world n s h e = elim (h.single.only n connecting e) [
    | inl bad ↦ absurd (cc)
    | inr here ↦
        let stays = get_elem?-set_self s.sockets n ready (lt_of_get_elem? s.sockets n e) in
        record {
          single = record {
            only = λ m r e'. elim (Bool-cases (n == m)) [
              | inl same ↦ inr (here ∙ ap some ((==_iff n m).0 same))
              | inr other ↦
                  h.single.only m r (sym (get_elem?-set_ne s.sockets n m ready other) ∙ e')
            ];
            usable = λ m at. let same : n ≡ m = some_inj (sym here ∙ at) in rw (← same, stays) refl;
            delays = h.single.delays;
            ours = h.single.ours;
          };
          trying = λ bad. absurd (cc);
        }
  ]

  went-IsTending :
      (n : ℕ) (r : Ready) (s : LiveSocket World Payload)
      → IsTending s
      → get_elem? s.sockets n ≡ some r
      → r ≢ gone
      → IsTending (on_close World Payload n s)
  unfolding on_close
  went-IsTending n r s h e live = elim (h.single.only n r e) [
    | inl bad ↦ absurd (live bad)
    | inr here ↦
        by_if IsTending s.closed_by_us (λ bad. let ours = h.single.ours in absurd (cc))
          (λ ours. schedule-IsTending _ (record {
            only = λ m r' e'. elim (Bool-cases (n == m)) [
              | inl same ↦
                  let now_gone =
                    get_elem?-set_self s.sockets n gone (lt_of_get_elem? s.sockets n e) in
                  let at : n ≡ m = (==_iff n m).0 same in
                  inl (some_inj (sym e' ∙ (rw (← at) now_gone)))
              | inr other ↦
                  elim (h.single.only m r' (sym (get_elem?-set_ne s.sockets n m gone other) ∙ e')) [
                    | inl dead ↦ inl dead
                    | inr bad ↦
                        let same : n ≡ m = some_inj (sym here ∙ bad) in absurd (ground arith)
                  ]
            ];
            usable = λ m bad. absurd (cc);
            delays = h.single.delays;
            ours = ours;
          }))
  ]

  step-IsTending : (s s' : LiveSocket World Payload) → IsTending s → Step s s' → IsTending s'
  unfolding subscribe retry_fired
  step-IsTending s s' h (connected made) = connect-IsTending made s h.single
  step-IsTending s s' h (subscribed world make) = record {
    single = record {
      only = h.single.only;
      usable = h.single.usable;
      delays = h.single.delays;
      ours = h.single.ours;
    };
    trying = h.trying;
  }
  step-IsTending s s' h (opened world n e) = opened-IsTending world n s h e
  step-IsTending s s' h (went n r e live) = went-IsTending n r s h e live
  step-IsTending s s' h (fired made e) =
      connect-IsTending made (record s { retry_timer = none })
        (record {
          only = h.single.only;
          usable = h.single.usable;
          delays = λ d bad. absurd (cc);
          ours = h.single.ours;
        })

  -- From its first `connect` on, a live socket that nobody closes has at most one WebSocket that is not
  -- gone, its current one, which is connecting or open; while it has none, a retry is to come, after
  -- half a second to 8 seconds.
  pub reached-IsTending : (s : LiveSocket World Payload) → Reached s → IsTending s
  reached-IsTending s (start made) = connect-IsTending made (new World Payload) (record {
    only = λ n r bad. absurd (cc);
    usable = λ n bad. absurd (cc);
    delays = λ d bad. absurd (cc);
    ours = refl;
  })
  reached-IsTending s' (then_ {s = s} r step) = step-IsTending s s' (reached-IsTending s r) step

  -- When the current socket opens, the socket sends what its subscription makes of the world at that
  -- moment, and nothing where there is no subscription or it makes null.
  pub on_open-sends :
      (s : LiveSocket World Payload) (world : World) (n : ℕ)
      → Reached s
      → get_elem? s.sockets n ≡ some connecting
      → (on_open World Payload world n s).1
        ≡ elim s.subscription [ none ↦ none | some make ↦ make world ]
  unfolding on_open send_subscription send
  on_open-sends s world n r e = elim ((reached-IsTending s r).single.only n connecting e) [
    | inl bad ↦ absurd (cc)
    | inr here ↦
        let stays = get_elem?-set_self s.sockets n ready (lt_of_get_elem? s.sockets n e) in
        elim (Option-cases s.subscription) [
          | inl no_sub ↦ rw (send_subscription, no_sub) refl
          | inr (make, sub) ↦
              rw (send_subscription, sub)
                (elim (Option-cases (make world)) [
                  | inl null ↦ rw null refl
                  | inr (payload, made) ↦ rw (made, here, stays) refl
                ])
        ]
  ]

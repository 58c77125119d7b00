-- ===== src/Feeds/AuthManager/Retry.antt =====
-- How often `withAuth` runs its function.
use quantstack_terminal.Common.{
  ℕ, ◌+◌, ◌≤◌, ◌≡◌, ◌≢◌, ◌∙◌, ◌↔◌, ◌⊎◌, inl, inr, refl, Bool, true, false, List, [], ◌∷◌, none,
  arith, if◌then◌else◌, Option-cases,
}
use quantstack_terminal.Feeds.Breaker.{FeedId}
use quantstack_terminal.Feeds.Errors.{FeedErrorCode, auth, Thrown, classify}
use quantstack_terminal.Feeds.Router.Served.{Answer-cases}
use quantstack_terminal.Feeds.Router.{Answer, threw}
use quantstack_terminal.Feeds.AuthManager.{Action, running, Session, answer_of, with_auth}
use quantstack_terminal.Feeds.AuthManager.{is_auth}
use quantstack_terminal.Common.{ap}
use quantstack_terminal.Common.{sym}

abbrev is_running : Action → Bool
is_running running = true
is_running _ = false

abbrev pub runs : List Action → ℕ
runs [] = 0
runs (a ∷ rest) = (if is_running a then 1 else 0) + runs rest

module _ {V : Type 0} (id : FeedId) (w : Session V) where
  -- The session was rejected in the middle of the request, and a new login was accepted.
  pub record IsRenewed : Type 0 where
    pub err : Thrown
    pub logged_in : w.first_login ≡ none
    pub rejected : w.first_run ≡ threw err
    pub as_auth : (classify err id).code ≡ auth
    pub logged_in_again : w.second_login ≡ none

  abbrev Explained : Type 0
  Explained =
      (runs (with_auth id w).0 ≤ 2)
      × ((runs (with_auth id w).0 ≡ 2) ↔ IsRenewed)
      × (IsRenewed → (with_auth id w).1 ≡ answer_of w.second_run)

  not_renewed : runs (with_auth id w).0 ≤ 1 → ¬ IsRenewed → Explained
  not_renewed few never =
      (omega arith, (λ two. absurd (omega arith), λ r. absurd (never r)), λ r. absurd (never r))

  renewed :
      IsRenewed
      → runs (with_auth id w).0 ≡ 2
      → (with_auth id w).1 ≡ answer_of w.second_run
      → Explained
  renewed r two same = (omega arith, (λ e. r, λ e. two), λ e. same)

  threw_inj : {e e' : Thrown} → Path (Answer V) (threw e) (threw e') → e ≡ e'
  threw_inj h = cc

  is_auth-cases : (c : FeedErrorCode) → (c ≡ auth) ⊎ ((is_auth c ≡ false) × (c ≢ auth))
  is_auth-cases c = elim c as (λ k. (k ≡ auth) ⊎ ((is_auth k ≡ false) × (k ≢ auth))) [
    | auth ↦ inl refl
    | _ ↦ inr (refl, λ e. cc)
  ]

  -- The function is run at most twice, and the second time exactly if the first run was rejected for
  -- its session and the login that followed was accepted; the result is then that of the second run.
  pub with_auth-runs :
      (runs (with_auth id w).0 ≤ 2)
      × ((runs (with_auth id w).0 ≡ 2) ↔ IsRenewed)
      × (IsRenewed → (with_auth id w).1 ≡ answer_of w.second_run)
  unfolding with_auth
  with_auth-runs = elim (Option-cases w.first_login) [
    | inr (refusal, l) ↦ not_renewed (rw (l, with_auth) (omega arith)) (λ r. cc (r.logged_in))
    | inl l ↦ elim (Answer-cases w.first_run) [
      | inl (v, a) ↦ not_renewed (rw (l, a, with_auth) (omega arith)) (λ r. cc (r.rejected))
      | inr (err, a) ↦ elim (is_auth-cases (classify err id).code) [
        | inr (other, differ) ↦ not_renewed (rw (l, a, with_auth, other) (omega arith)) (λ r.
            differ (ap (λ e. (classify e id).code) (threw_inj (sym a ∙ r.rejected)) ∙ r.as_auth))
        | inl lost ↦ elim (Option-cases w.second_login) [
          | inr (refusal, s) ↦
              not_renewed (rw (l, a, with_auth, lost, s) (omega arith))
                (λ r. cc (r.logged_in_again))
          | inl s ↦
              renewed
                (record {
                  err = err;
                  logged_in = l;
                  rejected = a;
                  as_auth = lost;
                  logged_in_again = s;
                })
                (rw (l, a, with_auth, lost, s) refl) (rw (l, a, with_auth, lost, s) refl)
        ]
      ]
    ]
  ]

-- ===== src/Feeds/Angel/Stream/Frame.antt =====
-- The subscribe frame of Angel's stream groups the tokens by their exchange type.
use quantstack_terminal.Common.{append_nil, append_assoc}
use quantstack_terminal.Common.{
  ℕ, ◌≡◌, ◌≢◌, refl, Bool, Bool-cases, Option-cases, true, false, List, [], ◌∷◌, ◌++◌, map, filter,
  inl, inr, none, some, Text, ◌==◌, ==_iff, Assoc, get, get-put, sym, ◌∙◌, nat_eq, ap,
}
use quantstack_terminal.Feeds.Angel.Stream.{
  Resolved, by_type, add_token, or_nil, send_subscribe, AngelStream,
}
use quantstack_terminal.Common.{some_inj}

abbrev pub tokens_of : ℕ → List Resolved → List Text
tokens_of t rs = map (λ r. r.token) (filter (λ r. r.ex_type == t) rs)

add_token-get :
    (t : ℕ) (r : Resolved) (acc : Assoc ℕ (List Text)) (rs : List Resolved)
    → or_nil (get t (add_token r acc)) ++ tokens_of t rs
      ≡ or_nil (get t acc) ++ tokens_of t (r ∷ rs)
unfolding add_token
add_token-get t r acc rs =
    let law = get-put r.ex_type t (or_nil (get r.ex_type acc) ++ r.token ∷ []) acc in
    elim (Bool-cases (r.ex_type == t)) [
      | inr other ↦ rw (law, other) refl
      | inl same ↦
          let e : r.ex_type ≡ t = (==_iff r.ex_type t).0 same in
          rw (law, same, ap (λ k. get k acc) e)
            (append_assoc (or_nil (get t acc)) (r.token ∷ []) (tokens_of t rs))
    ]

by_type-get :
    (t : ℕ) (rs : List Resolved) (acc : Assoc ℕ (List Text))
    → or_nil (get t (by_type rs acc)) ≡ or_nil (get t acc) ++ tokens_of t rs
unfolding by_type
by_type-get t [] acc = sym (append_nil (or_nil (get t acc)))
by_type-get t (r ∷ rs) acc = by_type-get t rs (add_token r acc) ∙ add_token-get t r acc rs

-- The subscribe frame names, for every exchange type, the tokens of the resolved contracts of that
-- type, all of them and in their order. It is sent on a ready socket only.
pub send_subscribe-get :
    (ready : Bool) (s : AngelStream) (frame : Assoc ℕ (List Text))
    → send_subscribe ready s ≡ some frame
    → (ready ≡ true) × (s.ws ≢ none) × ((t : ℕ) → or_nil (get t frame) ≡ tokens_of t s.resolved)
unfolding send_subscribe get
send_subscribe-get true s frame h = elim (Option-cases s.ws) [
  | inl gone ↦ let bad = rw gone at h in absurd (cc)
  | inr (n, here) ↦
      let same : by_type s.resolved [] ≡ frame = some_inj (rw here at h) in
      (refl, (λ gone. absurd (cc)), λ t. rw (← same) (by_type-get t s.resolved []))
]
send_subscribe-get false s frame h = elim (Option-cases s.ws) [
  | inl gone ↦ let bad = rw gone at h in absurd (cc)
  | inr (n, here) ↦ let bad = rw here at h in absurd (cc)
]

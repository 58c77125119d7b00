-- ===== src/Feeds/Types/Interval.antt =====
-- The interval that a feed serves in place of the wanted one.
use mathlib.Core.Path.{subst}
use quantstack_terminal.Common.{
  ℕ, ◌<◌, ◌≤◌, ◌≡◌, ◌≢◌, refl, ◌⊎◌, inl, inr, Bool, true, false, List, [], ◌∷◌, none, some, Text,
  text_beq_iff, arith, All, filter, sort_by, insert_by, sort_by-Ascending, All-sort_by, Ascending,
  Bool-cases, Option-cases,
}
use quantstack_terminal.Feeds.Types.{
  Capabilities, includes, interval_ms, is_coarser, ms_of, coarser, first, best_interval,
}
use quantstack_terminal.Common.{leb}

-- `i` serves `wanted` best among the intervals of a feed.
pub record IsBest (have : Capabilities) (wanted i : Text) (target : ℕ) : Type 0 where
  pub offered : includes have.intervals i ≡ true
  pub no_finer : target < ms_of i
  pub finest : All (λ j. ms_of i ≤ ms_of j) (coarser target have)

includes-cons : (x y : Text) (xs : List Text) → includes xs x ≡ true → includes (y ∷ xs) x ≡ true
includes-cons x y xs h = ground arith

All-includes_grow :
    (y : Text) (xs ys : List Text)
    → All (λ x. includes ys x ≡ true) xs
    → All (λ x. includes (y ∷ ys) x ≡ true) xs
All-includes_grow y [] ys h = tt
All-includes_grow y (x ∷ xs) ys h = (includes-cons x y ys h.0, All-includes_grow y xs ys h.1)

filter-includes : (p : Text → Bool) (xs : List Text) → All (λ x. includes xs x ≡ true) (filter p xs)
filter-includes p [] = tt
filter-includes p (x ∷ xs) = elim (Bool-cases (p x)) [
  | inl kept ↦ rw kept (
    ground (arith, (text_beq_iff x x).1 refl),
    All-includes_grow x (filter p xs) xs (filter-includes p xs),
  )
  | inr dropped ↦ rw dropped (All-includes_grow x (filter p xs) xs (filter-includes p xs))
]

filter-All : (p : Text → Bool) (xs : List Text) → All (λ x. p x ≡ true) (filter p xs)
filter-All p [] = tt
filter-All p (x ∷ xs) = elim (Bool-cases (p x)) [
  | inl kept ↦ rw kept (kept, filter-All p xs)
  | inr dropped ↦ rw dropped (filter-All p xs)
]

first-All : (P : Text → Type 0) (xs : List Text) {i : Text} → All P xs → first xs ≡ some i → P i
first-All P [] h e = cc
first-All P (x ∷ xs) {i} h e = let same : x ≡ i = cc in rw (← same) h.0

insert_by-least :
    (k : ℕ) (x : Text) (xs : List Text)
    → All (λ y. k ≤ ms_of y) (insert_by ms_of x xs)
    → (k ≤ ms_of x) × All (λ y. k ≤ ms_of y) xs
unfolding insert_by
insert_by-least k x [] h = h
insert_by-least k x (y ∷ ys) h = elim (Bool-cases (leb (ms_of x) (ms_of y))) [
  | inl le ↦ (rw le at h)
  | inr gt ↦
      let h' : All (λ z. k ≤ ms_of z) (y ∷ insert_by ms_of x ys) = rw gt at h in
      let (here, later) = insert_by-least k x ys h'.1 in (here, (h'.0, later))
]

sort_by-least :
    (k : ℕ) (xs : List Text) → All (λ y. k ≤ ms_of y) (sort_by ms_of xs) → All (λ y. k ≤ ms_of y) xs
unfolding sort_by
sort_by-least k [] h = tt
sort_by-least k (x ∷ xs) h =
    let (here, later) = insert_by-least k x (sort_by ms_of xs) h in (here, sort_by-least k xs later)

first-least :
    (xs : List Text) {i : Text}
    → Ascending ms_of xs
    → first xs ≡ some i
    → All (λ y. ms_of i ≤ ms_of y) xs
first-least [] h e = cc
first-least (x ∷ xs) {i} h e =
    let same : x ≡ i = cc in
    let le : ms_of x ≤ ms_of x = omega arith in
    subst (λ t. All (λ y. ms_of t ≤ ms_of y) (x ∷ xs)) same (le, h.0)

is_coarser-lt : (target : ℕ) (i : Text) → is_coarser target i ≡ true → target < ms_of i
unfolding is_coarser ms_of
is_coarser-lt target i h = ground arith

coarser-includes :
    (target : ℕ) (c : Capabilities) → All (λ x. includes c.intervals x ≡ true) (coarser target c)
unfolding coarser
coarser-includes target c = filter-includes (is_coarser target) c.intervals

coarser-All :
    (target : ℕ) (c : Capabilities) → All (λ x. is_coarser target x ≡ true) (coarser target c)
unfolding coarser
coarser-All target c = filter-All (is_coarser target) c.intervals

-- Where the wanted interval is not offered, what a feed serves in its place is an interval that it
-- offers, longer than the wanted one, and the shortest of those; the wanted interval is a known one
-- of the given length.
pub best_interval-IsBest :
    (have : Capabilities) (wanted i : Text) (target : ℕ)
    → includes have.intervals wanted ≡ false
    → interval_ms wanted ≡ some target
    → best_interval have wanted ≡ some i
    → IsBest have wanted i target
unfolding best_interval
best_interval-IsBest have wanted i target missing known e =
    let e' : first (sort_by ms_of (coarser target have)) ≡ some i = rw (missing, known) at e in
    record {
      offered =
          first-All (λ x. includes have.intervals x ≡ true) _
            (All-sort_by ms_of _ _ (coarser-includes target have)) e';
      no_finer = is_coarser-lt target i (
          first-All (λ x. is_coarser target x ≡ true) _
            (All-sort_by ms_of _ _ (coarser-All target have)) e');
      finest =
          sort_by-least (ms_of i) _
            (first-least _ (sort_by-Ascending ms_of (coarser target have)) e');
    }

first-insert_by : (x : Text) (xs : List Text) → first (insert_by ms_of x xs) ≢ none
unfolding insert_by
first-insert_by x [] = cc
first-insert_by x (y ∷ ys) = ground arith

first-sort_by : (xs : List Text) → first (sort_by ms_of xs) ≡ none → xs ≡ []
unfolding sort_by
first-sort_by [] e = refl
first-sort_by (x ∷ xs) e = absurd (first-insert_by x (sort_by ms_of xs) e)

-- Where a feed serves nothing in place of the wanted interval, it does not offer that one, and the
-- interval is unknown or the feed offers no longer one.
pub best_interval-none :
    (have : Capabilities) (wanted : Text)
    → best_interval have wanted ≡ none
    → (includes have.intervals wanted ≡ false)
      × ((interval_ms wanted ≡ none)
          ⊎ ((target : ℕ) × (interval_ms wanted ≡ some target) × (coarser target have ≡ [])))
unfolding best_interval
best_interval-none have wanted e = elim (Bool-cases (includes have.intervals wanted)) [
  | inl offered ↦ absurd (let bad : some wanted ≡ none = rw offered at e in cc)
  | inr missing ↦ elim (Option-cases (interval_ms wanted)) [
    | inl unknown ↦ (missing, inl unknown)
    | inr (target, known) ↦
        let e' : first (sort_by ms_of (coarser target have)) ≡ none = rw (missing, known) at e in
        (missing, inr (target, known, first-sort_by (coarser target have) e'))
  ]
]

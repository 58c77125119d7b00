-- ===== src/Feeds/Registry/Order.antt =====
-- The registered feeds: each wanted one once, by priority.
use mathlib.Core.List.{Perm}
use quantstack_terminal.Common.{
  ℕ, suc, ◌≡◌, ◌⊎◌, inl, inr, refl, sym, ap, ◌∙◌, arith, true, false, List, [], ◌∷◌, map, Option,
  none, some, Text, text_eq, text_beq, text_beq_iff, beq_refl, any, filter, length, ltb, Bool-cases,
  Option-cases, sort_by, insert_by, sort_by-Ascending, sort_by-perm, Ascending, leb,
}
use quantstack_terminal.Feeds.Breaker.{FeedId}
use quantstack_terminal.Feeds.Router.{Feed}
use quantstack_terminal.Feeds.Registry.{
  Registered, Wanted, first_dupe, built, register, register_all, is_unknown, build,
}

-- No text of the list occurs again after itself.
abbrev pub NoRepeat : List Text → Type 0
NoRepeat [] = Unit
NoRepeat (x ∷ xs) = (any (λ y. text_beq x y) xs ≡ false) × NoRepeat xs

module _ {A : Type 0} (key : A → ℕ) where
  length-insert_by : (x : A) (xs : List A) → length (insert_by key x xs) ≡ suc (length xs)
  unfolding insert_by
  length-insert_by x [] = refl
  length-insert_by x (y ∷ ys) = elim (Bool-cases (leb (key x) (key y))) [
    | inl le ↦ rw le refl
    | inr gt ↦ rw gt (ap suc (length-insert_by x ys))
  ]

  length-sort_by : (xs : List A) → length (sort_by key xs) ≡ length xs
  unfolding sort_by
  length-sort_by [] = refl
  length-sort_by (x ∷ xs) = length-insert_by x (sort_by key xs) ∙ ap suc (length-sort_by xs)

not_seen :
    (x : FeedId) (seen ids : List FeedId)
    → first_dupe seen ids ≡ none
    → any (λ y. text_beq y x) seen ≡ true
    → any (λ y. text_beq x y) ids ≡ false
unfolding first_dupe
not_seen x seen [] h s = refl
not_seen x seen (id ∷ ids) h s = elim (Bool-cases (any (λ y. text_beq y id) seen)) [
  | inl dupe ↦ let bad = rw dupe at h in cc
  | inr fresh ↦
      let h' = rw fresh at h in
      elim (Bool-cases (text_beq x id)) [
        | inl same ↦
            let eq = (text_beq_iff x id).0 same in
            let seen_too : any (λ y. text_beq y id) seen ≡ true =
              ap (λ z. any (λ y. text_beq y z) seen) (sym eq) ∙ s in
            cc
        | inr other ↦ rw other (not_seen x (id ∷ seen) ids h' (ground (arith, s)))
      ]
]

first_dupe-NoRepeat : (seen ids : List FeedId) → first_dupe seen ids ≡ none → NoRepeat ids
unfolding first_dupe
first_dupe-NoRepeat seen [] h = tt
first_dupe-NoRepeat seen (id ∷ ids) h = elim (Bool-cases (any (λ y. text_beq y id) seen)) [
  | inl dupe ↦ let bad = rw dupe at h in cc
  | inr fresh ↦
      let h' = rw fresh at h in
      (
        not_seen id (id ∷ seen) ids h' (rw (beq_refl id) refl),
        first_dupe-NoRepeat (id ∷ seen) ids h',
      )
]

built_inj : {rs ss : List Registered} → built rs ≡ built ss → rs ≡ ss
built_inj h = cc

module _ (adapters : Text → Option Text → Option Feed) where
  unknown-cases :
      (w : Wanted)
      → (is_unknown adapters w ≡ true)
        ⊎ ((is_unknown adapters w ≡ false) × (r : Registered) × (register adapters w ≡ some r))
  unfolding is_unknown
  unknown-cases w = elim (Option-cases (register adapters w)) [
    | inl none_of ↦ inl (rw (none_of, is_unknown) refl)
    | inr (r, one) ↦ inr (rw (one, is_unknown) refl, r, one)
  ]

  length-register_all :
      (ws : List Wanted)
      → length (filter (is_unknown adapters) ws) ≡ 0
      → length (register_all adapters ws) ≡ length ws
  unfolding register_all
  length-register_all [] h = refl
  length-register_all (w ∷ ws) h = elim (unknown-cases w) [
    | inl none_of ↦ let bad = rw none_of at h in cc
    | inr (known, r, one) ↦ rw one (ap suc (length-register_all ws (rw known at h)))
  ]

  -- Where the registry is built, it holds one feed for each entry of the specification, no entry is
  -- named twice, and the feeds stand in ascending order of priority.
  pub build-IsOrdered :
      (ws : List Wanted) (rs : List Registered)
      → build adapters ws ≡ built rs
      → Ascending (λ r. r.priority) rs
        × Perm rs (register_all adapters ws)
        × (length rs ≡ length ws)
        × NoRepeat (map (λ w. w.id) ws)
  unfolding build
  build-IsOrdered ws rs h = elim (Bool-cases (ltb 0 (length (filter (is_unknown adapters) ws)))) [
    | inl unknown ↦ let bad = rw unknown at h in cc
    | inr known ↦ elim (Option-cases (first_dupe [] (map (λ w. w.id) ws))) [
      | inr (id, dupe) ↦ let bad = rw (known, dupe) at h in cc
      | inl once ↦
          let same : sort_by (λ r. r.priority) (register_all adapters ws) ≡ rs =
            built_inj (rw (known, once) at h) in
          let none_unknown : length (filter (is_unknown adapters) ws) ≡ 0 = ground arith in
          rw (← same) (
            sort_by-Ascending (λ r. r.priority) (register_all adapters ws),
            sort_by-perm (λ r. r.priority) (register_all adapters ws),
            length-sort_by (λ r. r.priority) (register_all adapters ws)
                ∙ length-register_all ws none_unknown,
            first_dupe-NoRepeat [] (map (λ w. w.id) ws) once,
          )
    ]
  ]

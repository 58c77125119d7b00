-- ===== src/Assistant/Series/Search.antt =====
-- The binary search in a series ends, with the last sample that is not after a time.
use quantstack_terminal.Common.{
  ℕ, zero, suc, ◌+◌, ◌-◌, ◌/◌, ◌≤◌, ◌<◌, ◌≡◌, refl, sym, ◌∙◌, ap, Bool-cases, true, false, List,
  inl, inr, Option, none, some, ltb, leb, ◌==◌, ==_iff, arith,
}
use quantstack_terminal.Assistant.Series.{
  Values, Series, new, stamp, newest, oldest, search, floor_index, at_time, interpolated,
}
use quantstack_terminal.Assistant.Series.Order.{IsOrdered, push_all, run-IsOrdered}

below_le : {a b c : ℕ} → a < b → b ≤ c → a ≤ c
below_le h k = omega arith

below_lt : {a b c : ℕ} → a < b → b < c → a < c
below_lt h k = omega arith

of_leb : {a b : ℕ} → leb a b ≡ true → a ≤ b
of_leb h = ground arith

of_not_leb : {a b : ℕ} → leb a b ≡ false → b < a
of_not_leb h = ground arith

not_both {ℓ} : {A : Type ℓ} {a b : ℕ} → a ≤ b → b < a → A
not_both h k = absurd (omega arith)

leb_of_lt : {a b : ℕ} → a < b → leb b a ≡ false
leb_of_lt h = ground arith

ltb_of_le : {a b : ℕ} → a ≤ b → ltb b a ≡ false
ltb_of_le h = ground arith

halved : (lo hi : ℕ) → lo < hi → (lo ≤ (lo + hi - 1) / 2) × ((lo + hi - 1) / 2 < hi)
halved lo hi h = (omega arith, omega arith)

module _ (vs : Values) where
  open vs use {Value}

  -- The hit of a search that knows of the samples below `lo`.
  abbrev hit_of : ℕ → Option ℕ
  hit_of zero = none
  hit_of (suc n) = some n

  hit_next : (n : ℕ) → hit_of (n + 1) ≡ some n
  hit_next n = let e : n + 1 ≡ suc n = omega arith in rw e refl

  -- The last sample that is not after a time.
  pub data IsFloor (s : Series Value) (t : ℕ) : Option ℕ → Type 0 where
    before_all : ((j : ℕ) → j < s.len → t < stamp vs s j) → IsFloor s t none
    at_sample :
        (i : ℕ)
        → i < s.len
        → stamp vs s i ≤ t
        → ((j : ℕ) → i < j → j < s.len → t < stamp vs s j)
        → IsFloor s t (some i)

  module _ (s : Series Value) (t : ℕ) (h : IsOrdered vs s) where
    hit_of-IsFloor :
        (lo : ℕ)
        → lo ≤ s.len
        → ((j : ℕ) → j < lo → stamp vs s j ≤ t)
        → ((j : ℕ) → lo ≤ j → j < s.len → t < stamp vs s j)
        → IsFloor s t (hit_of lo)
    hit_of-IsFloor zero fits below above = before_all (λ j low. above j (omega arith) low)
    hit_of-IsFloor (suc n) fits below above =
        at_sample n (omega arith) (below n (omega arith)) (λ j up low. above j (omega arith) low)

    up_to : (mid j : ℕ) → mid < s.len → stamp vs s mid ≤ t → j ≤ mid → stamp vs s j ≤ t
    up_to mid j low here under = elim (Bool-cases (j == mid)) [
      | inl same ↦ rw ((==_iff j mid).0 same) here
      | inr other ↦ let o = h.ordered j mid (ground arith) low in below_le o here
    ]

    after_all : (mid j : ℕ) → t < stamp vs s mid → mid ≤ j → j < s.len → t < stamp vs s j
    after_all mid j here up low = elim (Bool-cases (mid == j)) [
      | inl same ↦ rw (← (==_iff mid j).0 same) here
      | inr other ↦ below_lt here (h.ordered mid j (ground arith) low)
    ]

    search-IsFloor :
        (fuel lo hi : ℕ)
        → hi - lo < fuel
        → lo ≤ hi
        → hi ≤ s.len
        → ((j : ℕ) → j < lo → stamp vs s j ≤ t)
        → ((j : ℕ) → hi ≤ j → j < s.len → t < stamp vs s j)
        → (r : Option ℕ) × (search vs fuel s t lo hi (hit_of lo) ≡ some r) × IsFloor s t r
    unfolding search
    search-IsFloor zero lo hi m le fits below above = absurd (omega arith)
    search-IsFloor (suc fuel) lo hi m le fits below above = elim (Bool-cases (ltb lo hi)) [
      | inr done ↦
          let met : lo ≡ hi = ground arith in
          (
            hit_of lo,
            rw (search, done) refl,
            hit_of-IsFloor lo (omega arith) below (λ j up low. above j (omega arith) low),
          )
      | inl more ↦
          let mid = (lo + hi - 1) / 2 in
          let inside = halved lo hi (ground arith) in
          elim (Bool-cases (leb (stamp vs s mid) t)) [
            | inl here ↦
                let le_mid : stamp vs s mid ≤ t = of_leb here in
                let rest =
                  search-IsFloor fuel (mid + 1) hi (omega arith) (omega arith) fits
                    (λ j under. up_to mid j (omega arith) le_mid (omega arith)) above in
                (
                  rest.0,
                  rw (search, more, here)
                      (ap (search vs fuel s t (mid + 1) hi) (sym (hit_next mid)) ∙ rest.1),
                  rest.2,
                )
            | inr after ↦
                let gt_mid : t < stamp vs s mid = of_not_leb after in
                let rest =
                  search-IsFloor fuel lo mid (omega arith) inside.0 (omega arith) below
                    (λ j up low. after_all mid j gt_mid up low) in
                (rest.0, rw (search, more, after) rest.1, rest.2)
          ]
    ]

  -- In a series of whatever samples, the search of `floorIndex` ends within one round more than there
  -- are samples, with the last sample whose time is not after `t`, and with -1 exactly where all are
  -- after it.
  pub floor_index-IsFloor :
      (capacity : ℕ) (ps : List (ℕ × Value)) (t : ℕ)
      → 0 < capacity
      → let s = push_all vs ps (new vs capacity) in
        (r : Option ℕ) × (floor_index vs t s ≡ some r) × IsFloor s t r
  unfolding floor_index
  floor_index-IsFloor capacity ps t pos =
      let s = push_all vs ps (new vs capacity) in
      search-IsFloor s t (run-IsOrdered vs capacity ps pos) (s.len + 1) 0 s.len (omega arith)
        (omega arith) (omega arith) (λ j bad. absurd (omega arith))
        (λ j up bad. absurd (omega arith))

  oldest_first : (s : Series Value) → (s.len == 0) ≡ false → oldest vs s ≡ stamp vs s 0
  unfolding oldest
  oldest_first s some_ = rw (oldest, some_) refl

  newest_last : (s : Series Value) → (s.len == 0) ≡ false → newest vs s ≡ stamp vs s (s.len - 1)
  unfolding newest
  newest_last s some_ = rw (newest, some_) refl

  at_time-floor :
      (s : Series Value) (t i : ℕ)
      → (s.len == 0) ≡ false
      → leb (newest vs s) t ≡ false
      → ltb t (oldest vs s) ≡ false
      → floor_index vs t s ≡ some (some i)
      → (i == s.len - 1) ≡ false
      → at_time vs t s ≡ some (interpolated vs t s i)
  unfolding at_time
  at_time-floor s t i some_ early late found inner =
      rw (at_time, some_, early, late, found, inner) refl

  bracket :
      (s : Series Value) (t : ℕ) (r : Option ℕ)
      → (s.len == 0) ≡ false
      → t < newest vs s
      → oldest vs s ≤ t
      → floor_index vs t s ≡ some r
      → IsFloor s t r
      → (i : ℕ) × (i + 1 < s.len)
        × (stamp vs s i ≤ t)
        × (t < stamp vs s (i + 1))
        × (at_time vs t s ≡ some (interpolated vs t s i))
  bracket s t none some_ early late found (before_all above) =
      let first = above 0 (ground arith) in
      let same = oldest_first s some_ in not_both (rw same at late) first
  bracket s t (some i) some_ early late found (at_sample _ low here above) =
      let same = newest_last s some_ in
      let inner : (i == s.len - 1) ≡ false = elim (Bool-cases (i == s.len - 1)) [
        | inr other ↦ other
        | inl last ↦
            let at_end : i ≡ s.len - 1 = (==_iff i (s.len - 1)).0 last in
            let before : t < stamp vs s i = rw (same, ← at_end) at early in not_both here before
      ] in
      (
        i,
        ground arith,
        here,
        above (i + 1) (omega arith) (ground arith),
        at_time-floor s t i some_ (leb_of_lt early) (ltb_of_le late) found inner,
      )

  -- At a time from the oldest sample on and before the newest, a series of whatever samples gives the
  -- value between two neighbouring samples: one that is not after the time, and the next one, which is.
  pub at_time-between :
      (capacity : ℕ) (ps : List (ℕ × Value)) (t : ℕ)
      → 0 < capacity
      → let s = push_all vs ps (new vs capacity) in
        (s.len == 0) ≡ false
        → oldest vs s ≤ t
        → t < newest vs s
        → (i : ℕ) × (i + 1 < s.len)
          × (stamp vs s i ≤ t)
          × (t < stamp vs s (i + 1))
          × (at_time vs t s ≡ some (interpolated vs t s i))
  at_time-between capacity ps t pos some_ late early =
      let s = push_all vs ps (new vs capacity) in
      let found = floor_index-IsFloor capacity ps t pos in
      bracket s t found.0 some_ early late found.1 found.2

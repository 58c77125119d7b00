-- ===== src/Assistant/Series/Order.antt =====
-- The samples of a series are in the order of their times, whatever is pushed.
use quantstack_terminal.Common.{
  ℕ, ◌+◌, ◌-◌, ◌%◌, ◌≤◌, ◌<◌, ◌≡◌, ◌≢◌, refl, sym, ◌∙◌, ap, Bool-cases, true, false, not, ◌&&◌,
  List, [], ◌∷◌, inl, inr, ltb, leb, ◌==◌, if◌then◌else◌, by_if, get_or, length, length-set, ==_iff,
  length-replicate, get_or-set_self, get_or-set_ne, arith,
}
use quantstack_terminal.Common.{set as write}
use quantstack_terminal.Assistant.Series.{
  Values, Series, new, index_of, stamp, newest, append, push,
}

wrap_low : (a c : ℕ) → a < c → a % c ≡ a
wrap_low a c h = grind arith

wrap_high : (a c : ℕ) → c ≤ a → a < c + c → a % c ≡ a - c
wrap_high a c h k = grind arith

mod_below : (a c : ℕ) → 0 < c → a % c < c
mod_below a c h = grind arith

le_of_eq : {a b : ℕ} → a ≡ b → a ≤ b
le_of_eq e = omega arith

le_of_lt : {a b : ℕ} → a < b → a ≤ b
le_of_lt h = omega arith

later : (a n t len i : ℕ) → a ≤ n → i < len → (not (len == 0) && leb t n) ≡ false → a < t
later a n t len i h low fresh = ground arith

from_zero : (i c : ℕ) → i < c → (0 + i) % c ≡ i
from_zero i c h = ap (λ n. n % c) (omega arith) ∙ wrap_low i c h

round_to_zero : (a c : ℕ) → a ≡ c → 0 < c → a % c ≡ 0
round_to_zero a c e h = ap (λ n. n % c) e ∙ wrap_high c c (omega arith) (omega arith) ∙ omega arith

round_add : (a i c : ℕ) → a ≤ c → i < c → (a % c + i) % c ≡ (a + i) % c
round_add a i c h k = elim (Bool-cases (ltb a c)) [
  | inl inside ↦ ap (λ n. (n + i) % c) (wrap_low a c (ground arith))
  | inr outside ↦
      let at_end : a ≡ c = ground arith in
      ap (λ n. (n + i) % c) (round_to_zero a c at_end (omega arith))
      ∙ from_zero i c k
      ∙ sym (wrap_high (a + i) c (omega arith) (omega arith) ∙ omega arith)
]

module _ (vs : Values) where
  open vs use {Value, is_finite}

  pub record IsOrdered (s : Series Value) : Type 0 where
    pub room : length s.ts ≡ s.cap
    pub fits : s.len ≤ s.cap
    pub some_room : 0 < s.cap
    pub head : s.head < s.cap
    pub filling : s.len < s.cap → s.head ≡ s.len
    pub ordered : (i j : ℕ) → i < j → j < s.len → stamp vs s i < stamp vs s j

  pub new-IsOrdered : (capacity : ℕ) → 0 < capacity → IsOrdered (new vs capacity)
  unfolding new
  new-IsOrdered capacity h = record {
    room = length-replicate capacity 0;
    fits = omega arith;
    some_room = h;
    head = h;
    filling = λ _. refl;
    ordered = λ i j below bad. absurd (omega arith);
  }

  module _ (s : Series Value) (t : ℕ) (v : Value) (h : IsOrdered s) where
    open h use {some_room, fits, head, filling, room, ordered}

    -- While there is room, sample `i` lies in slot `i`.
    filling_slots :
        s.len < s.cap
        → (i : ℕ) → i ≤ s.len
        → (index_of vs s i ≡ i) × (index_of vs (append vs t v s) i ≡ i)
    unfolding append
    filling_slots space i low =
        let at_head = filling space in
        let one : (s.len == s.cap) ≡ false = ground arith in
        let two : ltb s.len s.cap ≡ true = ground arith in
        let here = from_zero i s.cap (omega arith) in
        (
          rw one here,
          rw two (elim (Bool-cases (s.len + 1 == s.cap)) [
            | inr more ↦ rw more here
            | inl last ↦
                let round = round_to_zero (s.head + 1) s.cap (ground arith) some_room in
                rw (last, round) here
          ]),
        )

    -- In a full series the slots move on by one.
    full_slots :
        s.len ≡ s.cap
        → (i : ℕ) → i < s.cap
        → (index_of vs s (i + 1) ≡ (s.head + (i + 1)) % s.cap)
          × (index_of vs (append vs t v s) i ≡ (s.head + (i + 1)) % s.cap)
    unfolding append
    full_slots full i low =
        let one : (s.len == s.cap) ≡ true = ground arith in
        let two : ltb s.len s.cap ≡ false = ground arith in
        (
          rw one refl,
          rw (two, one)
              (round_add (s.head + 1) i s.cap (omega arith) low
                ∙ ap (λ n. n % s.cap) (omega arith)),
        )

    -- Two slots of the ring are apart.
    apart : (i : ℕ) → 0 < i → i < s.cap → s.head ≢ (s.head + i) % s.cap
    apart i pos low e = elim (Bool-cases (ltb (s.head + i) s.cap)) [
      | inl inside ↦ let bad = wrap_low (s.head + i) s.cap (ground arith) in absurd (omega arith)
      | inr outside ↦
          let bad = wrap_high (s.head + i) s.cap (ground arith) (omega arith) in
          absurd (ground arith)
    ]

    -- The times after a push, in terms of those before it.
    filling_stamps :
        s.len < s.cap
        → (i : ℕ) → i ≤ s.len
        → stamp vs (append vs t v s) i ≡ (if ltb i s.len then stamp vs s i else t)
    unfolding append
    filling_stamps space i low =
        let slots = filling_slots space i low in
        let moved = ap (λ k. get_or (write s.ts s.head t) k 0) slots.1 in
        let stayed : stamp vs s i ≡ get_or s.ts i 0 = ap (λ k. get_or s.ts k 0) slots.0 in
        let at_head = filling space in
        elim (Bool-cases (ltb i s.len)) [
          | inl old ↦
              rw (old, stayed)
                (moved ∙ get_or-set_ne s.ts s.head i t 0 (λ e. absurd (ground arith)))
          | inr last ↦
              let here : i ≡ s.head = ground arith in
              rw last (
                moved
                ∙ ap (λ k. get_or (write s.ts s.head t) k 0) here
                ∙ get_or-set_self s.ts s.head t 0 (omega arith))
        ]

    full_stamps :
        s.len ≡ s.cap
        → (i : ℕ) → i < s.cap
        → stamp vs (append vs t v s) i ≡ (if ltb (i + 1) s.cap then stamp vs s (i + 1) else t)
    unfolding append
    full_stamps full i low =
        let slots = full_slots full i low in
        let moved = ap (λ k. get_or (write s.ts s.head t) k 0) slots.1 in
        let stayed : stamp vs s (i + 1) ≡ get_or s.ts ((s.head + (i + 1)) % s.cap) 0 =
          ap (λ k. get_or s.ts k 0) slots.0 in
        elim (Bool-cases (ltb (i + 1) s.cap)) [
          | inl old ↦
              rw (old, stayed)
                (moved
                  ∙ get_or-set_ne s.ts s.head _ t 0 (apart (i + 1) (omega arith) (ground arith)))
          | inr last ↦
              let here : (s.head + (i + 1)) % s.cap ≡ s.head =
                wrap_high (s.head + (i + 1)) s.cap (ground arith) (omega arith) ∙ ground arith in
              rw last (
                moved
                ∙ ap (λ k. get_or (write s.ts s.head t) k 0) here
                ∙ get_or-set_self s.ts s.head t 0 (omega arith))
        ]

    append_len : (append vs t v s).len ≡ (if ltb s.len s.cap then s.len + 1 else s.len)
    unfolding append
    append_len = refl

    module _ (late : (i : ℕ) → i < s.len → stamp vs s i < t) where
      append-ordered :
          (i j : ℕ)
          → i < j
          → j < (append vs t v s).len
          → stamp vs (append vs t v s) i < stamp vs (append vs t v s) j
      append-ordered i j below low = elim (Bool-cases (ltb s.len s.cap)) [
        | inl space ↦
            let grown = append_len in
            let bound : j ≤ s.len = ground arith in
            let at_i = filling_stamps (ground arith) i (omega arith) in
            let at_j = filling_stamps (ground arith) j (omega arith) in
            let old_i = late i in let old = ordered i j below in rw (at_i, at_j) (ground arith)
        | inr full ↦
            let all_ : s.len ≡ s.cap = ground arith in
            let grown = append_len in
            let bound : j < s.cap = ground arith in
            let at_i = full_stamps all_ i (omega arith) in
            let at_j = full_stamps all_ j (omega arith) in
            let old_i = late (i + 1) in
            let old = ordered (i + 1) (j + 1) (omega arith) in rw (at_i, at_j) (ground arith)
      ]

      next_head :
          s.len + 1 < s.cap → (s.head + 1) % s.cap ≡ (if ltb s.len s.cap then s.len + 1 else s.len)
      next_head low =
          let space : ltb s.len s.cap ≡ true = ground arith in
          let at_head = filling (ground arith) in
          rw space (wrap_low (s.head + 1) s.cap (omega arith) ∙ omega arith)

      append-IsOrdered : IsOrdered (append vs t v s)
      unfolding append
      append-IsOrdered = record {
        room = length-set s.ts s.head t ∙ room;
        fits = ground arith;
        some_room = some_room;
        head = mod_below (s.head + 1) s.cap some_room;
        filling = λ low. next_head (ground arith);
        ordered = append-ordered;
      }

  pub below_newest :
      (s : Series Value) (i : ℕ) → IsOrdered s → i < s.len → stamp vs s i ≤ newest vs s
  unfolding newest
  below_newest s i h low =
      let some_ : (s.len == 0) ≡ false = ground arith in
      let last = h.ordered i (s.len - 1) in
      rw some_ (elim (Bool-cases (i == s.len - 1)) [
        | inl same ↦ le_of_eq (ap (stamp vs s) ((==_iff i (s.len - 1)).0 same))
        | inr other ↦ le_of_lt (last (ground arith) (omega arith))
      ])

  push-IsOrdered : (s : Series Value) (t : ℕ) (v : Value) → IsOrdered s → IsOrdered (push vs t v s)
  unfolding push
  push-IsOrdered s t v h =
      by_if IsOrdered (not (is_finite v)) (λ _. h)
        (λ _.
          by_if IsOrdered (not (s.len == 0) && leb t (newest vs s)) (λ _. h)
            (λ fresh. append-IsOrdered s t v h (λ i low.
              later (stamp vs s i) (newest vs s) t s.len i (below_newest s i h low) low fresh)))

  -- The samples that a series is offered, one after another.
  unfoldable pub push_all : List (ℕ × Value) → Series Value → Series Value
  push_all [] s = s
  push_all (p ∷ ps) s = push_all ps (push vs p.0 p.1 s)

  pub push_all-IsOrdered :
      (ps : List (ℕ × Value)) (s : Series Value) → IsOrdered s → IsOrdered (push_all ps s)
  unfolding push_all
  push_all-IsOrdered [] s h = h
  push_all-IsOrdered (p ∷ ps) s h =
      push_all-IsOrdered ps (push vs p.0 p.1 s) (push-IsOrdered s p.0 p.1 h)

  -- Whatever samples a new series of positive capacity is offered, finite or not and in whatever order,
  -- it holds at most its capacity of them and their times increase.
  pub run-IsOrdered :
      (capacity : ℕ) (ps : List (ℕ × Value))
      → 0 < capacity
      → IsOrdered (push_all ps (new vs capacity))
  run-IsOrdered capacity ps h = push_all-IsOrdered ps (new vs capacity) (new-IsOrdered capacity h)

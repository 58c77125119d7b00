-- ===== src/Feeds/Angel/Packet/Depth.antt =====
-- The best bid and the best ask of a packet are the best of the levels in it.
use quantstack_terminal.Common.{
  ℕ, zero, suc, ◌+◌, ◌≡◌, refl, sym, ◌∙◌, Bool, true, false, List, [], ◌∷◌, Option, Bool-cases, ◌⊎◌,
  inl, inr, none, some, All, arith, ◌>>=◌,
}
use quantstack_terminal.Feeds.Angel.Packet.{
  Quotes, Best, take_level, if_positive, is_one, read_int16_le, read_bigint64_le, depth_entry,
}

-- The order of doubles without NaN and without a negative zero.
pub record Laws (q : Quotes) : Type 0 where
  pub below_asym : (a b : q.Float) → q.is_below a b ≡ true → q.is_below b a ≡ false
  pub below_split :
      (a b c : q.Float) → q.is_below a c ≡ true → q.is_below b c ≡ false → q.is_below a b ≡ true
  pub eq_of_same : (a b : q.Float) → q.is_same a b ≡ true → a ≡ b
  pub same_refl : (a : q.Float) → q.is_same a a ≡ true

pub record Level (F : Type 0) : Type 0 where
  pub is_buy : Bool
  pub price : F

module _ (q : Quotes) where
  open q use {Float, zero_, quotient, is_below, is_same}

  -- The levels of `n` packets from `off`, as they lie in the buffer.
  unfoldable pub read_levels : ℕ → ℕ → List ℕ → ℕ → Option (List (Level Float))
  read_levels zero divisor buf off = some []
  read_levels (suc n) divisor buf off = do
    flag ← read_int16_le buf off
    units ← read_bigint64_le buf (off + 10)
    rest ← read_levels n divisor buf (off + depth_entry)
    some (record { is_buy = is_one flag; price = quotient units divisor } ∷ rest)

  unfoldable pub take_levels : List (Level Float) → Best q → Best q
  take_levels [] b = b
  take_levels (l ∷ ls) b = take_levels ls (take_level q l.is_buy l.price b)

  -- A level of one side with a price.
  abbrev pub Priced : Bool → Level Float → Type 0
  Priced side l = (l.is_buy ≡ side) × (is_below zero_ l.price ≡ true)

  -- Some level of that side has this price.
  abbrev pub Occurs : Bool → Float → List (Level Float) → Type 0
  Occurs side v [] = true ≡ false
  Occurs side v (l ∷ ls) = (Priced side l × (l.price ≡ v)) ⊎ Occurs side v ls

  abbrev pub IsBestBid : List (Level Float) → Option Float → Type 0
  IsBestBid ls none = All (λ l. l.is_buy ≡ true → is_below zero_ l.price ≡ false) ls
  IsBestBid ls (some v) =
      Occurs true v ls × All (λ l. Priced true l → is_below v l.price ≡ false) ls

  abbrev pub IsBestAsk : List (Level Float) → Option Float → Type 0
  IsBestAsk ls none = All (λ l. l.is_buy ≡ false → is_below zero_ l.price ≡ false) ls
  IsBestAsk ls (some v) =
      Occurs false v ls × All (λ l. Priced false l → is_below l.price v ≡ false) ls

  module _ (side : Bool) (pick : Best q → Float) (Beats : Float → Float → Type 0)
      (beats_refl : (a : Float) → Beats a a)
      (beats_trans : (a b c : Float) → Beats a b → Beats b c → Beats a c)
      (step : (l : Level Float) (b : Best q)
        → Beats (pick (take_level q l.is_buy l.price b)) (pick b)
          × (Priced side l → Beats (pick (take_level q l.is_buy l.price b)) l.price)
          × ((pick (take_level q l.is_buy l.price b) ≡ pick b)
              ⊎ (Priced side l × (l.price ≡ pick (take_level q l.is_buy l.price b))))) where
    -- What the fold keeps for one side of the book.
    take_levels-best :
        (ls : List (Level Float)) (b : Best q)
        → Beats (pick (take_levels ls b)) (pick b)
          × All (λ l. Priced side l → Beats (pick (take_levels ls b)) l.price) ls
          × ((pick (take_levels ls b) ≡ pick b) ⊎ Occurs side (pick (take_levels ls b)) ls)
    unfolding take_levels
    take_levels-best [] b = (beats_refl (pick b), _, inl refl)
    take_levels-best (l ∷ ls) b =
        let b' = take_level q l.is_buy l.price b in
        let one = step l b in
        let rest = take_levels-best ls b' in
        let v = pick (take_levels ls b') in
        (
          beats_trans v (pick b') (pick b) rest.0 one.0,
          (λ p. beats_trans v (pick b') l.price rest.0 (one.1 p), rest.1),
          elim rest.2 [
            | inr o ↦ inr (inr o)
            | inl e ↦ elim one.2 [ inl e' ↦ inl (e ∙ e') | inr p ↦ inr (inl (p.0, p.1 ∙ sym e)) ]
          ],
        )

  module _ (laws : Laws q) where
    open laws use {below_asym, below_split, eq_of_same, same_refl}

    irrefl : (a : Float) → is_below a a ≡ false
    irrefl a = elim (Bool-cases (is_below a a)) [ inl h ↦ below_asym a a h | inr h ↦ h ]

    -- `a` is not below `b`, and `b` not below `c`.
    not_below_trans :
        (a b c : Float) → is_below a b ≡ false → is_below b c ≡ false → is_below a c ≡ false
    not_below_trans a b c h k = elim (Bool-cases (is_below a c)) [
      | inl x ↦ let bad = below_split a b c x k in absurd (cc)
      | inr x ↦ x
    ]

    same_zero : (a : Float) → is_below zero_ a ≡ true → is_same a zero_ ≡ false
    same_zero a h = elim (Bool-cases (is_same a zero_)) [
      | inr x ↦ x
      | inl x ↦
          let e = eq_of_same a zero_ x in
          let bad : is_below zero_ zero_ ≡ true = rw e at h in
          let good = irrefl zero_ in absurd (cc)
    ]

    bid_step :
        (l : Level Float) (b : Best q)
        → (is_below (take_level q l.is_buy l.price b).best_bid b.best_bid ≡ false)
          × (Priced true l → is_below (take_level q l.is_buy l.price b).best_bid l.price ≡ false)
          × (((take_level q l.is_buy l.price b).best_bid ≡ b.best_bid)
              ⊎ (Priced true l × (l.price ≡ (take_level q l.is_buy l.price b).best_bid)))
    unfolding take_level
    bid_step l b = ground (irrefl l.price, irrefl b.best_bid, below_asym b.best_bid l.price, arith)

    -- A price that the best ask `v` covers, 0 standing for none.
    abbrev Covers : Float → Float → Type 0
    Covers v u = is_same u zero_ ≡ false → (is_same v zero_ ≡ false) × (is_below u v ≡ false)

    Covers-trans : (a b c : Float) → Covers a b → Covers b c → Covers a c
    Covers-trans a b c h k real =
        let near = k real in let far = h near.0 in (far.0, not_below_trans c b a near.1 far.1)

    ask_step :
        (l : Level Float) (b : Best q)
        → Covers (take_level q l.is_buy l.price b).best_ask b.best_ask
          × (Priced false l → Covers (take_level q l.is_buy l.price b).best_ask l.price)
          × (((take_level q l.is_buy l.price b).best_ask ≡ b.best_ask)
              ⊎ (Priced false l × (l.price ≡ (take_level q l.is_buy l.price b).best_ask)))
    unfolding take_level
    ask_step l b =
        ground (
          irrefl l.price,
          irrefl b.best_ask,
          below_asym l.price b.best_ask,
          same_zero l.price,
          arith,
        )

    Occurs-positive :
        (side : Bool) (v : Float) (ls : List (Level Float))
        → Occurs side v ls
        → is_below zero_ v ≡ true
    Occurs-positive side v [] o = absurd (cc)
    Occurs-positive side v (l ∷ ls) (inl p) = rw (← p.1) p.0.1
    Occurs-positive side v (l ∷ ls) (inr o) = Occurs-positive side v ls o

    All_map {ℓ κ} :
        {A : Type ℓ} {P Q : A → Type κ} (f : (a : A) → P a → Q a) (xs : List A)
        → All P xs
        → All Q xs
    All_map f [] p = p
    All_map f (x ∷ xs) p = (f x p.0, All_map f xs p.1)

    pub take_levels-IsBestBid :
        (ls : List (Level Float)) (a : Float)
        → IsBestBid ls
            (if_positive q (take_levels ls (record { best_bid = zero_; best_ask = a })).best_bid)
    take_levels-IsBestBid ls a =
        let start : Best q = record { best_bid = zero_; best_ask = a } in
        let v = (take_levels ls start).best_bid in
        let best =
          take_levels-best true (λ b. b.best_bid) (λ v u. is_below v u ≡ false) irrefl
            not_below_trans bid_step ls start in
        elim (Bool-cases (is_below zero_ v)) [
          | inl up ↦ rw up (elim best.2 [
            | inr o ↦ (o, best.1)
            | inl z ↦ let flat = irrefl zero_ in let bad = rw z at up in absurd (cc)
          ])
          | inr flat ↦ rw flat (
              All_map
                (λ l p buy. elim (Bool-cases (is_below zero_ l.price)) [
                  | inr x ↦ x
                  | inl x ↦ let bad = below_split zero_ v l.price x (p (buy, x)) in absurd (cc)
                ])
                ls best.1)
        ]

    pub take_levels-IsBestAsk :
        (ls : List (Level Float)) (a : Float)
        → IsBestAsk ls
            (if_positive q (take_levels ls (record { best_bid = a; best_ask = zero_ })).best_ask)
    take_levels-IsBestAsk ls a =
        let start : Best q = record { best_bid = a; best_ask = zero_ } in
        let v = (take_levels ls start).best_ask in
        let best =
          take_levels-best false (λ b. b.best_ask) Covers (λ u h. (h, irrefl u)) Covers-trans
            ask_step ls start in
        elim (Bool-cases (is_below zero_ v)) [
          | inl up ↦ rw up (elim best.2 [
            | inr o ↦ (o, All_map (λ l p sell. (p sell (same_zero l.price sell.1)).1) ls best.1)
            | inl z ↦ let flat = irrefl zero_ in let bad = rw z at up in absurd (cc)
          ])
          | inr flat ↦ rw flat (
              All_map
                (λ l p sell. elim (Bool-cases (is_below zero_ l.price)) [
                  | inr x ↦ x
                  | inl x ↦
                      let real = (p (sell, x) (same_zero l.price x)).0 in
                      elim best.2 [
                        | inr o ↦ let up = Occurs-positive false v ls o in absurd (cc)
                        | inl z ↦
                            let bad = rw z at real in let good = same_refl zero_ in absurd (cc)
                      ]
                ])
                ls best.1)
        ]

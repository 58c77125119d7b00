-- ===== src/Feeds/Identity/RoundTrip.antt =====
-- A key that is printed is read back.
use quantstack_terminal.Common.{
  ℕ, ◌≡◌, ◌≢◌, ◌∙◌, refl, ap, true, false, List, [], ◌∷◌, Option, none, some, Text, arith, upper,
  All, Without, split_on-join, show, read-show, show-All, show-ne-nil, is_digit, all_digits, ◌==◌,
  upper_unit,
}
use quantstack_terminal.Feeds.Identity.{
  InstrumentKind, spot, fut, opt, OptionSide, ce, pe, InstrumentKey, kind_text, or_empty,
  strike_text, side_text, side_or_empty, key_of, Amount, whole, ParsedKey, or_undefined, is_empty,
  strike_of, to_number, parse_key,
}
use quantstack_terminal.Common.{all_of_All}

abbrev pub printed_side : Option OptionSide → Option Text
printed_side none = none
printed_side (some s) = some (side_text s)

abbrev pub printed_strike : Option ℕ → Option Amount
printed_strike none = none
printed_strike (some n) = some (whole n)

-- What is read back of a key: the same, with the names in upper case.
abbrev pub printed : InstrumentKey → ParsedKey
printed k = record {
  exchange = upper k.exchange;
  asset = upper k.asset;
  kind = kind_text k.kind;
  expiry = k.expiry;
  strike = printed_strike k.strike;
  side = printed_side k.side;
}

-- A name that can stand between colons.
pub record IsName (s : Text) : Type 0 where
  pub some_unit : s ≢ []
  pub no_colon : Without b':' s

pub data IsExpiry : Option Text → Type 0 where
  absent : IsExpiry none
  present : {s : Text} → IsName s → IsExpiry (some s)

upper_unit-colon : (c : ℕ) → (c == b':') ≡ false → (upper_unit c == b':') ≡ false
upper_unit-colon c h = ground arith

upper-Without : (s : Text) → Without b':' s → Without b':' (upper s)
unfolding upper
upper-Without [] h = tt
upper-Without (c ∷ s) h = (upper_unit-colon c h.0, upper-Without s h.1)

is_empty-upper : (s : Text) → s ≢ [] → is_empty (upper s) ≡ false
unfolding upper
is_empty-upper [] h = absurd (h refl)
is_empty-upper (c ∷ s) h = refl

kind_text-Without : (k : InstrumentKind) → Without b':' (kind_text k)
kind_text-Without spot = (refl, (refl, (refl, (refl, tt))))
kind_text-Without fut = (refl, (refl, (refl, tt)))
kind_text-Without opt = (refl, (refl, (refl, tt)))

is_empty-kind_text : (k : InstrumentKind) → is_empty (kind_text k) ≡ false
is_empty-kind_text spot = refl
is_empty-kind_text fut = refl
is_empty-kind_text opt = refl

side-Without : (s : Option OptionSide) → Without b':' (side_or_empty s)
side-Without none = tt
side-Without (some ce) = (refl, (refl, tt))
side-Without (some pe) = (refl, (refl, tt))

expiry-Without : {e : Option Text} → IsExpiry e → Without b':' (or_empty e)
expiry-Without absent = tt
expiry-Without (present n) = n.no_colon

strike-Without : (n : Option ℕ) → Without b':' (strike_text n)
strike-Without none = tt
strike-Without (some n) = show-All (λ c. (c == b':') ≡ false) n (λ d h. ground arith)

to_number-show : (n : ℕ) → to_number (show n) ≡ whole n
to_number-show n =
    let digits : all_digits (show n) ≡ true =
      all_of_All is_digit (show n) (show-All (λ c. is_digit c ≡ true) n (λ d h. ground arith)) in
    rw digits (ap whole (read-show n))

strike_of-ne-nil : (s : Text) → s ≢ [] → strike_of s ≡ some (to_number s)
strike_of-ne-nil [] h = absurd (h refl)
strike_of-ne-nil (c ∷ s) h = refl

strike_of-strike_text : (n : Option ℕ) → strike_of (strike_text n) ≡ printed_strike n
strike_of-strike_text none = refl
strike_of-strike_text (some n) =
    strike_of-ne-nil (show n) (show-ne-nil n) ∙ ap some (to_number-show n)

side-printed : (s : Option OptionSide) → or_undefined (side_or_empty s) ≡ printed_side s
side-printed none = refl
side-printed (some ce) = refl
side-printed (some pe) = refl

or_undefined-ne-nil : (s : Text) → s ≢ [] → or_undefined s ≡ some s
or_undefined-ne-nil [] h = absurd (h refl)
or_undefined-ne-nil (c ∷ s) h = refl

expiry-printed : {e : Option Text} → IsExpiry e → or_undefined (or_empty e) ≡ e
expiry-printed absent = refl
expiry-printed (present {s} n) = or_undefined-ne-nil s n.some_unit

-- A key whose exchange, asset and expiry (if it has one) are not empty and hold no colon is read back
-- from its text, field by field, with exchange and asset in upper case.
pub parse_key-key_of :
    (k : InstrumentKey)
    → IsName k.exchange
    → IsName k.asset
    → IsExpiry k.expiry
    → parse_key (key_of k) ≡ some (printed k)
unfolding parse_key key_of
parse_key-key_of k ex asset ey =
    let parts : List Text =
      kind_text k.kind ∷ or_empty k.expiry ∷ strike_text k.strike ∷ side_or_empty k.side ∷ [] in
    let plain : All (Without b':') (upper k.exchange ∷ upper k.asset ∷ parts) = (
      upper-Without k.exchange ex.no_colon,
      (
        upper-Without k.asset asset.no_colon,
        (
          kind_text-Without k.kind,
          (expiry-Without ey, (strike-Without k.strike, (side-Without k.side, tt))),
        ),
      ),
    ) in
    rw (split_on-join b':' (upper k.exchange) (upper k.asset ∷ parts) plain) (
      rw (
        is_empty-upper k.exchange ex.some_unit,
        is_empty-upper k.asset asset.some_unit,
        is_empty-kind_text k.kind,
        expiry-printed ey,
        strike_of-strike_text k.strike,
        side-printed k.side,
      ))

-- ===== src/Feeds/Identity/Expiry.antt =====
-- The two ISO forms of an expiry.
use quantstack_terminal.Common.{
  ℕ, ◌≡◌, true, false, [], ◌∷◌, Option, some, Text, arith, is_digit, all_digits, ◌==◌, is_space,
}
use mathlib.Core.Bool.{◌&&◌, and-eq-true_iff}
use quantstack_terminal.Feeds.Identity.{is_dashed, normalize_expiry, compact_expiry}
use quantstack_terminal.Common.{trim_lem}
use quantstack_terminal.Common.{All}
use quantstack_terminal.Common.{all_of_All}
use quantstack_terminal.Common.{all-All}

digit_facts : (c : ℕ) → is_digit c ≡ true → ((c == b'-') ≡ false) × (is_space c ≡ false)
digit_facts c h = ground arith

dashed_parts :
    (a b c d p e f q g h : ℕ)
    → is_dashed (a ∷ b ∷ c ∷ d ∷ p ∷ e ∷ f ∷ q ∷ g ∷ h ∷ []) ≡ true
    → All (λ x. is_digit x ≡ true) (a ∷ b ∷ c ∷ d ∷ e ∷ f ∷ g ∷ h ∷ []) × (p ≡ b'-') × (q ≡ b'-')
dashed_parts a b c d p e f q g h ok =
    let digits = all_digits (a ∷ b ∷ c ∷ d ∷ e ∷ f ∷ g ∷ h ∷ []) in
    let (front, at_q) = (and-eq-true_iff (digits && p == b'-') (q == b'-')).0 ok in
    let (ds, at_p) = (and-eq-true_iff digits (p == b'-')).0 front in
    (all-All is_digit (a ∷ b ∷ c ∷ d ∷ e ∷ f ∷ g ∷ h ∷ []) ds, ground arith, ground arith)

compact_dashed :
    (a b c d p e f q g h : ℕ)
    → All (λ x. is_digit x ≡ true) (a ∷ b ∷ c ∷ d ∷ e ∷ f ∷ g ∷ h ∷ [])
    → p ≡ b'-'
    → q ≡ b'-'
    → compact_expiry (some (a ∷ b ∷ c ∷ d ∷ p ∷ e ∷ f ∷ q ∷ g ∷ h ∷ []))
      ≡ some (a ∷ b ∷ c ∷ d ∷ e ∷ f ∷ g ∷ h ∷ [])
unfolding compact_expiry
compact_dashed a b c d p e f q g h (da, (db, (dc, (dd, (de, (df, (dg, (dh, _)))))))) at_p at_q =
    rw (
      at_p,
      at_q,
      (digit_facts a da).0,
      (digit_facts b db).0,
      (digit_facts c dc).0,
      (digit_facts d dd).0,
      (digit_facts e de).0,
      (digit_facts f df).0,
      (digit_facts g dg).0,
      (digit_facts h dh).0,
    )

-- An expiry in dashed form is its own normal form, and is the normal form of its compact form too,
-- whatever the fallback for other texts does.
pub normalize_expiry-dashed :
    (parse_date : Text → Option Text) (s : Text)
    → is_dashed s ≡ true
    → (normalize_expiry parse_date (some s) ≡ some s)
      × (normalize_expiry parse_date (compact_expiry (some s)) ≡ some s)
unfolding normalize_expiry compact_expiry
normalize_expiry-dashed parse_date (a ∷ b ∷ c ∷ d ∷ p ∷ e ∷ f ∷ q ∷ g ∷ h ∷ []) ok =
    let (digits, at_p, at_q) = dashed_parts a b c d p e f q g h ok in
    let da = digits.0 in
    let dh = digits.1.1.1.1.1.1.1.0 in
    let long =
      trim_lem a h (b ∷ c ∷ d ∷ p ∷ e ∷ f ∷ q ∷ g ∷ []) (digit_facts a da).1 (digit_facts h dh).1 in
    let short =
      trim_lem a h (b ∷ c ∷ d ∷ e ∷ f ∷ g ∷ []) (digit_facts a da).1 (digit_facts h dh).1 in
    let digits' = all_of_All is_digit (a ∷ b ∷ c ∷ d ∷ e ∷ f ∷ g ∷ h ∷ []) digits in
    (
      rw (long, ok),
      rw (compact_dashed a b c d p e f q g h digits at_p at_q, short, digits', at_p, at_q),
    )
normalize_expiry-dashed parse_date _ ok = cc

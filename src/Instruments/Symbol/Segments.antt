-- ===== src/Instruments/Symbol/Segments.antt =====
-- Exchanges and the segments of their derivatives.
use quantstack_terminal.Common.{
  ℕ, ◌≡◌, ◌≢◌, ◌⊎◌, inl, inr, refl, ap, ◌∙◌, sym, [], ◌∷◌, Text, codes, text_beq, text_beq_iff,
  text_eq, beq_of_ne, upper, upper_unit, arith, Bool-cases,
}
use quantstack_terminal.Feeds.Identity.{InstrumentKind, spot, fut, opt}
use quantstack_terminal.Instruments.Symbol.{segment_of, derivatives_segment, exchange_of_segment}

upper_unit-upper_unit : (c : ℕ) → upper_unit (upper_unit c) ≡ upper_unit c
upper_unit-upper_unit c = ground arith

pub upper-upper : (s : Text) → upper (upper s) ≡ upper s
unfolding upper
upper-upper [] = refl
upper-upper (c ∷ s) = cc (upper_unit-upper_unit c, upper-upper s)

derivatives-cases :
    (ex : Text)
    → ((ex ≡ codes "NSE") × (derivatives_segment ex ≡ codes "NFO"))
      ⊎ ((ex ≡ codes "BSE") × (derivatives_segment ex ≡ codes "BFO"))
      ⊎ (derivatives_segment ex ≡ ex)
derivatives-cases ex = elim (Bool-cases (text_beq ex (codes "NSE"))) [
  | inl nse ↦ inl ((text_beq_iff ex (codes "NSE")).0 nse, rw (nse, derivatives_segment) refl)
  | inr a ↦ elim (Bool-cases (text_beq ex (codes "BSE"))) [
    | inl bse ↦
        inr (inl ((text_beq_iff ex (codes "BSE")).0 bse, rw (a, bse, derivatives_segment) refl))
    | inr b ↦ elim (Bool-cases (text_beq ex (codes "CDS"))) [
      | inl cds ↦
          inr (
            inr (rw (a, b, cds, derivatives_segment) (sym ((text_beq_iff ex (codes "CDS")).0 cds))))
      | inr c ↦ elim (Bool-cases (text_beq ex (codes "BCD"))) [
        | inl bcd ↦ inr (
            inr (
              rw (a, b, c, bcd, derivatives_segment) (sym ((text_beq_iff ex (codes "BCD")).0 bcd))))
        | inr d ↦ inr (inr (rw (a, b, c, d, derivatives_segment) refl))
      ]
    ]
  ]
]

back_of_same :
    (ex : Text) → ex ≢ codes "NFO" → ex ≢ codes "BFO" → upper ex ≡ ex → exchange_of_segment ex ≡ ex
unfolding exchange_of_segment
back_of_same ex h h' capitals =
    rw (capitals, beq_of_ne ex (codes "NFO") h, beq_of_ne ex (codes "BFO") h') refl

back_of_derivatives :
    (ex : Text)
    → ex ≢ codes "NFO"
    → ex ≢ codes "BFO"
    → upper ex ≡ ex
    → exchange_of_segment (derivatives_segment ex) ≡ ex
unfolding exchange_of_segment upper
back_of_derivatives ex h h' capitals = elim (derivatives-cases ex) [
  | inl (nse, seg) ↦ ap exchange_of_segment seg ∙ sym nse
  | inr (inl (bse, seg)) ↦ ap exchange_of_segment seg ∙ sym bse
  | inr (inr same) ↦ ap exchange_of_segment same ∙ back_of_same ex h h' capitals
]

-- A segment leads back to the exchange of its instrument, in capitals, unless the exchange that was
-- named is itself one of the two derivatives segments.
pub exchange_of_segment-segment_of :
    (exchange : Text) (kind : InstrumentKind)
    → upper exchange ≢ codes "NFO"
    → upper exchange ≢ codes "BFO"
    → exchange_of_segment (segment_of exchange kind) ≡ upper exchange
unfolding segment_of
exchange_of_segment-segment_of exchange spot h h' =
    back_of_same (upper exchange) h h' (upper-upper exchange)
exchange_of_segment-segment_of exchange fut h h' =
    back_of_derivatives (upper exchange) h h' (upper-upper exchange)
exchange_of_segment-segment_of exchange opt h h' =
    back_of_derivatives (upper exchange) h h' (upper-upper exchange)

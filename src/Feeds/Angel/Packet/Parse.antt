-- ===== src/Feeds/Angel/Packet/Parse.antt =====
-- The decoder of packets as a whole: it reads within the packet, and its tick is what the bytes say.
use quantstack_terminal.Common.{
  ℕ, zero, suc, ◌+◌, ◌*◌, ◌≤◌, ◌<◌, ◌≡◌, refl, ◌∙◌, true, false, List, [], ◌∷◌, Option, Bool-cases,
  ◌⊎◌, inl, inr, none, some, length, arith, ltb, if◌then◌else◌, ℤ, pos, text_beq, text_beq_iff,
  get_elem?,
}
use quantstack_terminal.Feeds.Angel.Packet.{
  Quotes, ParsedTick, Best, take_level, best_five, with_depth, parse_packet, is_one,
  read_bigint64_le, best_five_end, divisor_for, token_of,
}
use quantstack_terminal.Feeds.Angel.Packet.Reads.{
  read_int16_le_within, read_bigint64_le_within, get_elem?_within,
}
use quantstack_terminal.Feeds.Angel.Packet.Depth.{
  Laws, Level, read_levels, take_levels, IsBestBid, IsBestAsk, take_levels-IsBestBid,
  take_levels-IsBestAsk,
}

module _ (q : Quotes) where
  open q use {Float, zero_, number, quotient, is_below}

  best_five-levels :
      (n divisor : ℕ) (buf : List ℕ) (off : ℕ) (b : Best q)
      → off + 20 * n ≡ best_five_end
      → off + 20 * n ≤ length buf
      → (ls : List (Level Float)) × (read_levels q n divisor buf off ≡ some ls)
        × (best_five q (suc n) divisor buf off b ≡ some (take_levels q ls b))
  unfolding read_levels best_five take_levels
  best_five-levels zero divisor buf off b e h =
      let done : ltb off 347 ≡ false = ground arith in ([], refl, rw (done, best_five))
  best_five-levels (suc n) divisor buf off b e h =
      let flag = read_int16_le_within buf off (omega arith) in
      let units = read_bigint64_le_within buf (off + 10) (omega arith) in
      let more : ltb off 347 ≡ true = ground arith in
      let b' = take_level q (is_one flag.0) (quotient units.0 divisor) b in
      let rest = best_five-levels n divisor buf (off + 20) b' (omega arith) (omega arith) in
      (
        record { is_buy = is_one flag.0; price = quotient units.0 divisor } ∷ rest.0,
        rw (flag.1, units.1, rest.1),
        rw (best_five, more, flag.1, units.1) rest.2,
      )

  -- What `with_depth` adds to a tick that has no book.
  record IsBookOf (buf : List ℕ) (divisor : ℕ) (t t' : ParsedTick q) : Type 0 where
    pub same : (t'.token ≡ t.token) × (t'.ex_type ≡ t.ex_type) × (t'.ts ≡ t.ts) × (t'.ltp ≡ t.ltp)
    pub short : length buf < 347 → (t'.bid ≡ none) × (t'.ask ≡ none)
    pub full :
        Laws q
        → 347 ≤ length buf
        → (ls : List (Level Float)) × (read_levels q 10 divisor buf 147 ≡ some ls)
          × IsBestBid q ls t'.bid
          × IsBestAsk q ls t'.ask

  with_depth-IsBookOf :
      (buf : List ℕ) (divisor : ℕ) (t : ParsedTick q)
      → t.bid ≡ none
      → t.ask ≡ none
      → (t' : ParsedTick q) × (with_depth q buf divisor t ≡ some t') × IsBookOf buf divisor t t'
  unfolding with_depth
  with_depth-IsBookOf buf divisor t eb ea = elim (Bool-cases (ltb (length buf) 347)) [
    | inl small ↦ (
      t,
      rw small,
      record {
        same = (refl, refl, refl, refl);
        short = λ _. (eb, ea);
        full = λ _ long. absurd (ground arith);
      },
    )
    | inr big ↦
        let start : Best q = record { best_bid = zero_; best_ask = zero_ } in
        let book = best_five-levels 10 divisor buf 147 start refl (ground arith) in
        (
          _,
          rw (big, book.2),
          record {
            same = (refl, refl, refl, refl);
            short = λ h. absurd (ground arith);
            full = λ laws _. (
              book.0,
              book.1,
              take_levels-IsBestBid q laws book.0 zero_,
              take_levels-IsBestAsk q laws book.0 zero_,
            );
          },
        )
  ]

  -- What the decoder makes of a packet, by its length and its token.
  pub record IsTickOf (now : ℕ) (buf : List ℕ) (t : ParsedTick q) : Type 0 where
    pub ex_type : get_elem? buf 1 ≡ some t.ex_type
    pub token : t.token ≡ token_of buf
    pub price :
        (units : ℤ) × (read_bigint64_le buf 43 ≡ some units)
        × (t.ltp ≡ quotient units (divisor_for t.ex_type))
    pub time :
        (at : ℤ) × (read_bigint64_le buf 35 ≡ some at)
        × (t.ts ≡ (if is_below zero_ (number at) then number at else number (pos now)))
    pub short : length buf < 347 → (t.bid ≡ none) × (t.ask ≡ none)
    pub full :
        Laws q
        → 347 ≤ length buf
        → (ls : List (Level Float)) × (read_levels q 10 (divisor_for t.ex_type) buf 147 ≡ some ls)
          × IsBestBid q ls t.bid
          × IsBestAsk q ls t.ask

  tick_of :
      (now : ℕ) (buf : List ℕ) (base t : ParsedTick q) (kind : ℕ)
      (units : (z : ℤ) × (read_bigint64_le buf 43 ≡ some z))
      (at : (z : ℤ) × (read_bigint64_le buf 35 ≡ some z))
      → get_elem? buf 1 ≡ some kind
      → base.ex_type ≡ kind
      → base.token ≡ token_of buf
      → base.ltp ≡ quotient units.0 (divisor_for kind)
      → base.ts ≡ (if is_below zero_ (number at.0) then number at.0 else number (pos now))
      → IsBookOf buf (divisor_for kind) base t
      → IsTickOf now buf t
  tick_of now buf base t kind units at read_kind of_kind of_token of_price of_time book =
      let kinds : t.ex_type ≡ kind = book.same.1 ∙ of_kind in
      record {
        ex_type = rw kinds read_kind;
        token = book.same.0 ∙ of_token;
        price = (units.0, units.1, rw kinds (book.same.3 ∙ of_price));
        time = (at.0, at.1, book.same.2 ∙ of_time);
        short = book.short;
        full = rw kinds book.full;
      }

  unfoldable pub IsParseOf : ℕ → List ℕ → Option (Option (ParsedTick q)) → Type 0
  IsParseOf now buf none = true ≡ false
  IsParseOf now buf (some none) = (length buf < 51) ⊎ (token_of buf ≡ [])
  IsParseOf now buf (some (some t)) = (51 ≤ length buf) × IsTickOf now buf t

  -- No packet makes the decoder read past its end. A packet below 51 bytes, or with no token, gives
  -- null; any other gives a tick with the exchange type, the token and the last price of its bytes, and
  -- the time of its bytes as a double, or the clock's where that is not above 0. Below 347 bytes the tick has no bid and no ask. From 347 bytes on, its bid is the
  -- largest price above 0 of the buy levels and its ask the least one of the sell levels, and they
  -- are absent where there is none.
  pub parse_packet-IsParseOf : (now : ℕ) (buf : List ℕ) → IsParseOf now buf (parse_packet q now buf)
  unfolding IsParseOf parse_packet
  parse_packet-IsParseOf now buf = elim (Bool-cases (ltb (length buf) 51)) [
    | inl small ↦ rw small (inl (ground arith))
    | inr long ↦
        let kind = get_elem?_within buf 1 (ground arith) in
        elim (Bool-cases (text_beq (token_of buf) [])) [
          | inl blank ↦ rw (long, kind.1, blank) (inr ((text_beq_iff (token_of buf) []).0 blank))
          | inr named ↦
              let units = read_bigint64_le_within buf 43 (ground arith) in
              let at = read_bigint64_le_within buf 35 (ground arith) in
              let base : ParsedTick q = record {
                token = token_of buf;
                ex_type = kind.0;
                ts = if is_below zero_ (number at.0) then number at.0 else number (pos now);
                ltp = quotient units.0 (divisor_for kind.0);
                bid = none;
                ask = none;
              } in
              let done = with_depth-IsBookOf buf (divisor_for kind.0) base refl refl in
              rw (long, kind.1, named, units.1, at.1, done.1)
                (
                  ground arith,
                  tick_of now buf base done.0 kind.0 units at kind.1 refl refl refl refl done.2,
                )
        ]
  ]

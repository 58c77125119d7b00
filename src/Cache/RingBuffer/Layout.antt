-- ===== src/Cache/RingBuffer/Layout.antt =====
-- A record that is written is read at its position, and no other position changes.
use native.Mathlib.Decide.{dec_lt}
use quantstack_terminal.Common.{
  ℕ, zero, suc, ◌+◌, ◌*◌, ◌≤◌, ◌<◌, ◌≡◌, ◌≢◌, ◌∙◌, refl, ap, List, [], ◌∷◌, arith, length,
  length-set, get_or, get_or-set_self, get_or-set_ne,
}
use quantstack_terminal.Common.{set as write}
use quantstack_terminal.Cache.RingBuffer.{
  Floats, TickRecord, RingBuffer, n_cols, columns, write_cols, read_at,
}

module _ (fl : Floats) where
  open fl use {Float, zero_}

  pub length-write_cols :
      (base : ℕ) (vs buf : List Float) → length (write_cols fl base vs buf) ≡ length buf
  unfolding write_cols
  length-write_cols base [] buf = refl
  length-write_cols base (v ∷ vs) buf =
      length-write_cols (base + 1) vs (write buf base v) ∙ length-set buf base v

  -- A cell below the columns is untouched, and so is one above them.
  write_cols_below :
      (base j : ℕ) (vs buf : List Float)
      → j < base
      → get_or (write_cols fl base vs buf) j zero_ ≡ get_or buf j zero_
  unfolding write_cols
  write_cols_below base j [] buf h = refl
  write_cols_below base j (v ∷ vs) buf h =
      write_cols_below (base + 1) j vs (write buf base v) (omega arith)
      ∙ get_or-set_ne buf base j v zero_ (omega arith)

  write_cols_above :
      (base j : ℕ) (vs buf : List Float)
      → base + length vs ≤ j
      → get_or (write_cols fl base vs buf) j zero_ ≡ get_or buf j zero_
  unfolding write_cols
  write_cols_above base j [] buf h = refl
  write_cols_above base j (v ∷ vs) buf h =
      write_cols_above (base + 1) j vs (write buf base v) (omega arith)
      ∙ get_or-set_ne buf base j v zero_ (omega arith)

  write_cols_self :
      (base c : ℕ) (vs buf : List Float)
      → c < length vs
      → base + length vs ≤ length buf
      → get_or (write_cols fl base vs buf) (base + c) zero_ ≡ get_or vs c zero_
  unfolding write_cols
  write_cols_self base c [] buf h room = elim h [ ]
  write_cols_self base zero (v ∷ vs) buf h room =
      let same : base + 0 ≡ base = omega arith in
      rw same (
        write_cols_below (base + 1) base vs (write buf base v) (omega arith)
        ∙ get_or-set_self buf base v zero_ (omega arith))
  write_cols_self base (suc c) (v ∷ vs) buf h room =
      let same : base + suc c ≡ (base + 1) + c = omega arith in
      rw same (
        write_cols_self (base + 1) c vs (write buf base v) (omega arith)
          (omega (arith, length-set buf base v)))

  pub record_eq :
      (r s : TickRecord Float)
      → r.time ≡ s.time
      → r.spot ≡ s.spot
      → r.atm_strike ≡ s.atm_strike
      → r.synthetic_future ≡ s.synthetic_future
      → r.call_ltp ≡ s.call_ltp
      → r.put_ltp ≡ s.put_ltp
      → r.straddle_price ≡ s.straddle_price
      → r.is_roll_event ≡ s.is_roll_event
      → r ≡ s
  record_eq r s a b c d e f g h = λ i. record {
    time = a i;
    spot = b i;
    atm_strike = c i;
    synthetic_future = d i;
    call_ltp = e i;
    put_ltp = f i;
    straddle_price = g i;
    is_roll_event = h i;
  }

  module _ (b : RingBuffer Float) (pos : ℕ) (r : TickRecord Float) where
    abbrev written : RingBuffer Float
    written = record b { buf = write_cols fl (pos * n_cols) (columns fl r) b.buf }

    at_cell :
        (c : ℕ)
        → c < 8
        → pos * 8 + 8 ≤ length b.buf
        → get_or written.buf (pos * n_cols + c) zero_ ≡ get_or (columns fl r) c zero_
    at_cell c h room = write_cols_self (pos * 8) c (columns fl r) b.buf h room

    -- The record that was written is read back at its position.
    pub read_at-write_self : pos * 8 + 8 ≤ length b.buf → read_at fl pos written ≡ r
    unfolding read_at
    read_at-write_self room =
        let same : pos * 8 ≡ pos * 8 + 0 = omega arith in
        record_eq _ r
          (ap (λ (j : ℕ). get_or written.buf j zero_) same ∙ at_cell 0 (omega arith) room)
          (at_cell 1 (omega arith) room) (at_cell 2 (omega arith) room)
          (at_cell 3 (omega arith) room) (at_cell 4 (omega arith) room)
          (at_cell 5 (omega arith) room) (at_cell 6 (omega arith) room)
          (at_cell 7 (omega arith) room)

    other_cell :
        (other j : ℕ)
        → other ≢ pos
        → other * 8 ≤ j
        → j < other * 8 + 8
        → get_or written.buf j zero_ ≡ get_or b.buf j zero_
    other_cell other j d lo hi = elim (dec_lt other pos) [
      | yes less ↦ write_cols_below (pos * 8) j (columns fl r) b.buf (omega arith)
      | no more ↦ write_cols_above (pos * 8) j (columns fl r) b.buf (omega arith)
    ]

    -- Another position reads as before.
    pub read_at-write_ne : (other : ℕ) → other ≢ pos → read_at fl other written ≡ read_at fl other b
    unfolding read_at
    read_at-write_ne other d =
        record_eq _ _ (other_cell other (other * 8) d (omega arith) (omega arith))
          (other_cell other (other * 8 + 1) d (omega arith) (omega arith))
          (other_cell other (other * 8 + 2) d (omega arith) (omega arith))
          (other_cell other (other * 8 + 3) d (omega arith) (omega arith))
          (other_cell other (other * 8 + 4) d (omega arith) (omega arith))
          (other_cell other (other * 8 + 5) d (omega arith) (omega arith))
          (other_cell other (other * 8 + 6) d (omega arith) (omega arith))
          (other_cell other (other * 8 + 7) d (omega arith) (omega arith))

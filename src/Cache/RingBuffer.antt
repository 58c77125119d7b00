-- ===== src/Cache/RingBuffer.antt =====
-- backend/engine/ringBuffer.ts: a ring of ticks in one flat array of numbers.
--
-- The numbers of the array are the `Float` of an interface `Floats`, with the constants and tests that
-- the code uses. The array is a list of `capacity * 8` of them. The capacity is positive: the source
-- takes remainders by it.
pub mod Layout
pub mod Positions
pub mod Window
mod Tests
use quantstack_terminal.Common.{
  ℕ, zero, suc, ◌+◌, ◌-◌, ◌*◌, ◌%◌, Bool, List, [], ◌∷◌, Option, none, some, ◌==◌, ltb,
  if◌then◌else◌, get_or, replicate, filter,
}
use quantstack_terminal.Common.{set as write}

pub record Floats : Type 1 where
  pub Float : Type 0
  pub zero_ : Float
  pub one_ : Float
  pub is_truthy : Float → Bool
  pub is_above : Float → Float → Bool

pub record TickRecord (F : Type 0) : Type 0 where
  pub time : F
  pub spot : F
  pub atm_strike : F
  pub synthetic_future : F
  pub call_ltp : F
  pub put_ltp : F
  pub straddle_price : F
  pub is_roll_event : F

-- The column of each field is its place in the record: `COL`.
abbrev pub n_cols : ℕ
n_cols = 8

pub record RingBuffer (F : Type 0) : Type 0 where
  pub buf : List F
  pub capacity : ℕ
  pub head : ℕ
  pub size : ℕ

module _ (fl : Floats) where
  open fl use {Float, zero_, one_, is_truthy, is_above}

  unfoldable pub new : ℕ → RingBuffer Float
  new capacity = record {
    buf = replicate (capacity * n_cols) zero_;
    capacity = capacity;
    head = 0;
    size = 0;
  }

  -- `record.isRollEvent ? 1 : 0`, the other columns as they are.
  abbrev pub stored : TickRecord Float → TickRecord Float
  stored r = record r { is_roll_event = if is_truthy r.is_roll_event then one_ else zero_ }

  -- The columns of a record, by their index in `COL`.
  abbrev pub columns : TickRecord Float → List Float
  columns r =
      r.time ∷ r.spot ∷ r.atm_strike ∷ r.synthetic_future ∷ r.call_ltp ∷ r.put_ltp
      ∷ r.straddle_price ∷ r.is_roll_event ∷ []

  -- `this.buf[base + i] = value`, column after column.
  unfoldable pub write_cols : ℕ → List Float → List Float → List Float
  write_cols base [] buf = buf
  write_cols base (v ∷ vs) buf = write_cols (base + 1) vs (write buf base v)

  unfoldable pub read_at : ℕ → RingBuffer Float → TickRecord Float
  read_at pos b =
      let base = pos * n_cols in
      record {
        time = get_or b.buf base zero_;
        spot = get_or b.buf (base + 1) zero_;
        atm_strike = get_or b.buf (base + 2) zero_;
        synthetic_future = get_or b.buf (base + 3) zero_;
        call_ltp = get_or b.buf (base + 4) zero_;
        put_ltp = get_or b.buf (base + 5) zero_;
        straddle_price = get_or b.buf (base + 6) zero_;
        is_roll_event = get_or b.buf (base + 7) zero_;
      }

  unfoldable pub push : TickRecord Float → RingBuffer Float → RingBuffer Float
  push r b = record {
    buf = write_cols ((b.head % b.capacity) * n_cols) (columns (stored r)) b.buf;
    capacity = b.capacity;
    head = b.head + 1;
    size = if ltb b.size b.capacity then b.size + 1 else b.size;
  }

  unfoldable pub last : RingBuffer Float → Option (TickRecord Float)
  last b = if b.size == 0 then none else some (read_at (((b.head + b.capacity) - 1) % b.capacity) b)

  -- The loop of `toArray`: `rounds` reads from the index `i`.
  unfoldable pub read_from : RingBuffer Float → ℕ → ℕ → ℕ → List (TickRecord Float)
  read_from b start i zero = []
  read_from b start i (suc rounds) =
      read_at ((start + i) % b.capacity) b ∷ read_from b start (i + 1) rounds

  unfoldable pub to_array : RingBuffer Float → List (TickRecord Float)
  unfolding read_from
  to_array b =
      let start = if ltb b.size b.capacity then 0 else b.head % b.capacity in
      read_from b start 0 b.size

  unfoldable pub since : Float → RingBuffer Float → List (TickRecord Float)
  since after b = filter (λ r. is_above r.time after) (to_array b)

  unfoldable pub clear : RingBuffer Float → RingBuffer Float
  clear b = record b { head = 0; size = 0 }

-- The calls that change a buffer.
pub data Change (F : Type 0) : Type 0 where
  pushed : TickRecord F → Change F
  cleared : Change F

module _ (fl : Floats) where
  open fl use {Float}

  unfoldable pub run : List (Change Float) → RingBuffer Float → RingBuffer Float
  run [] b = b
  run (pushed r ∷ cs) b = run cs (push fl r b)
  run (cleared ∷ cs) b = run cs (clear fl b)

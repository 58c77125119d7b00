-- ===== src/Feeds/Angel/Packet.antt =====
-- backend/feeds/adapters/angel/stream.ts: the decoder of SmartStream packets.
--
-- A buffer is its bytes. A read past its end is `none`, the RangeError of the source. Doubles are the
-- `Float` of an interface `Quotes`: the rounding of a 64-bit number, its quotient by the divisor, 0, and
-- the tests that the code makes. The clock is an argument.
pub mod Reads
pub mod Depth
pub mod Parse
mod Tests
use quantstack_terminal.Common.{
  ℕ, zero, suc, ◌+◌, ◌*◌, ◌%◌, ◌/◌, Bool, true, false, not, List, [], ◌∷◌, map, Option, none, some,
  Text, codes, upper, trim, ltb, ◌==◌, if◌then◌else◌, length, get_elem?, take, drop, text_beq,
  ◌>>=◌, ℤ, pos, ltb_ℤ, signed,
}

pub record Quotes : Type 1 where
  pub Float : Type 0
  pub zero_ : Float
  -- `Number(n)` of a `bigint`, to the nearest double; of the clock's whole number it is that number.
  pub number : ℤ → Float
  -- `Number(units) / divisor`
  pub quotient : ℤ → ℕ → Float
  -- `a < b` and `a === b`
  pub is_below : Float → Float → Bool
  pub is_same : Float → Float → Bool

-- `EXCHANGE_TYPE`
unfoldable pub exchange_type : Text → ℕ
unfolding upper
exchange_type segment =
    let s = upper segment in
    if text_beq s (codes "NSE")
    then 1
    else if text_beq s (codes "NFO")
    then 2
    else if text_beq s (codes "BSE")
    then 3
    else if text_beq s (codes "BFO")
    then 4
    else if text_beq s (codes "MCX")
    then 5
    else if text_beq s (codes "NCDEX")
    then 7
    else if text_beq s (codes "CDS")
    then 13
    else 2

abbrev pub divisor_for : ℕ → ℕ
divisor_for ex_type = if ex_type == 13 then 10_000_000 else 100

abbrev pub ltp_end : ℕ
ltp_end = 51

abbrev pub best_five_at : ℕ
best_five_at = 147

abbrev pub best_five_end : ℕ
best_five_end = 347

abbrev pub depth_entry : ℕ
depth_entry = 20

-- `readUInt8`, `readInt16LE` and `readBigInt64LE`
abbrev pub read_uint8 : List ℕ → ℕ → Option ℕ
read_uint8 buf at = get_elem? buf at

-- `n` bytes from `at`, the least significant first.
unfoldable pub read_le : ℕ → List ℕ → ℕ → Option ℕ
read_le zero buf at = some 0
read_le (suc n) buf at = do
  low ← get_elem? buf at
  high ← read_le n buf (at + 1)
  some (low + 256 * high)

unfoldable pub read_int16_le : List ℕ → ℕ → Option ℤ
read_int16_le buf at = do w ← read_le 2 buf at; some (signed 16 w)

unfoldable pub read_bigint64_le : List ℕ → ℕ → Option ℤ
read_bigint64_le buf at = do w ← read_le 8 buf at; some (signed 64 w)

-- `buf.toString('ascii', from, to)`: seven bits of each byte.
unfoldable pub ascii : List ℕ → ℕ → ℕ → Text
ascii buf from count = map (λ b. b % 128) (take count (drop from buf))

-- `.split('\0')[0]`
unfoldable pub until_nul : Text → Text
until_nul [] = []
until_nul (c ∷ cs) = if c == 0 then [] else c ∷ until_nul cs

-- The token of a packet: bytes 2 to 26.
unfoldable pub token_of : List ℕ → Text
token_of buf = trim (until_nul (ascii buf 2 25))

unfoldable pub is_one : ℤ → Bool
is_one (pos n) = n == 1
is_one _ = false

module _ (q : Quotes) where
  open q use {Float, zero_, number, quotient, is_below, is_same}

  pub record ParsedTick : Type 0 where
    pub token : Text
    pub ex_type : ℕ
    pub ts : Float
    pub ltp : Float
    pub bid : Option Float
    pub ask : Option Float

  -- `bestBid` and `bestAsk`
  pub record Best : Type 0 where
    pub best_bid : Float
    pub best_ask : Float

  -- One level of the book. Its price is a quotient, never NaN: `price <= 0` is `not (0 < price)`.
  unfoldable pub take_level : Bool → Float → Best → Best
  take_level is_buy price b =
      if not (is_below zero_ price)
      then b
      else if is_buy
      then (if is_below b.best_bid price then record b { best_bid = price } else b)
      else if is_same b.best_ask zero_
      then record b { best_ask = price }
      else if is_below price b.best_ask
      then record b { best_ask = price }
      else b

  -- The loop over the packets of the book; `none` when a read throws, or when the fuel ends.
  unfoldable pub best_five : ℕ → ℕ → List ℕ → ℕ → Best → Option Best
  best_five zero divisor buf off b = none
  best_five (suc fuel) divisor buf off b = elim (ltb off best_five_end) [
    | false ↦ some b
    | true ↦ do
      flag ← read_int16_le buf off
      units ← read_bigint64_le buf (off + 10)
      best_five fuel divisor buf (off + depth_entry)
          (take_level (is_one flag) (quotient units divisor) b)
  ]

  -- `if (best > 0)`
  abbrev pub if_positive : Float → Option Float
  if_positive price = if is_below zero_ price then some price else none

  -- Ten packets are read, so eleven rounds end the loop.
  unfoldable pub with_depth : List ℕ → ℕ → ParsedTick → Option ParsedTick
  with_depth buf divisor tick = if ltb (length buf) best_five_end then some tick else do
    b ← best_five 11 divisor buf best_five_at (record { best_bid = zero_; best_ask = zero_ })
    some (record tick { bid = if_positive b.best_bid; ask = if_positive b.best_ask })

  -- The outer `none` is a throw, the inner one the `null` of the source.
  unfoldable pub parse_packet : ℕ → List ℕ → Option (Option ParsedTick)
  parse_packet now buf = if ltb (length buf) ltp_end then some none else do
    ex_type ← read_uint8 buf 1
    if text_beq (token_of buf) [] then some none else do
      units ← read_bigint64_le buf 43
      exchange_ts ← read_bigint64_le buf 35
      tick ← with_depth buf (divisor_for ex_type) (record {
        token = token_of buf;
        ex_type = ex_type;
        ts = if is_below zero_ (number exchange_ts) then number exchange_ts else number (pos now);
        ltp = quotient units (divisor_for ex_type);
        bid = none;
        ask = none;
      })
      some (some tick)

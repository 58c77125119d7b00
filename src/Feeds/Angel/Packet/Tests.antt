-- ===== src/Feeds/Angel/Packet/Tests.antt =====
-- A packet with one level on each side, and one that is too short for a book.
use quantstack_terminal.Common.{
  ℕ, ◌+◌, ◌≡◌, refl, List, [], ◌∷◌, none, some, codes, set, replicate, take, arith, ℤ, pos, negsuc,
  ltb_ℤ, trim, ◌==◌, ◌&&◌, pos_part, neg_part, trim_start,
}
use quantstack_terminal.Feeds.Angel.Packet.{
  Quotes, ParsedTick, parse_packet, read_le, read_int16_le, read_bigint64_le, token_of, ascii,
  until_nul, with_depth, best_five, take_level, is_one, exchange_type,
}
use quantstack_terminal.Feeds.Angel.Packet.Depth.{Laws}
use quantstack_terminal.Feeds.Angel.Packet.Parse.{IsParseOf, parse_packet-IsParseOf}
use quantstack_terminal.Common.{upper}

-- Prices in units, undivided, and numbers that are not rounded.
abbrev pub in_units : Quotes
in_units = record {
  Float = ℤ;
  zero_ = pos 0;
  number = λ n. n;
  quotient = λ units divisor. units;
  is_below = ltb_ℤ;
  is_same = λ a b. (pos_part a == pos_part b) && (neg_part a == neg_part b);
}

units_laws : Laws in_units
units_laws = record {
  below_asym = λ a b h. ground arith;
  below_split = λ a b c h k. ground arith;
  eq_of_same = λ a b h. ground arith;
  same_refl = λ a. ground arith;
}

abbrev write_all : List ℕ → ℕ → List ℕ → List ℕ
write_all buf at [] = buf
write_all buf at (b ∷ bs) = write_all (set buf at b) (at + 1) bs

abbrev pub full_packet : List ℕ
full_packet =
    let head = set (write_all (replicate 347 0) 2 (codes "35001")) 1 2 in
    let priced = write_all head 43 (57 ∷ 48 ∷ []) in
    let bought = write_all (write_all priced 147 (1 ∷ [])) 157 (100 ∷ []) in
    write_all bought 177 (200 ∷ [])

-- A price of -1 in a packet without a book.
abbrev short_packet : List ℕ
short_packet = write_all (take 51 full_packet) 43 (replicate 8 255)

abbrev full_tick : ParsedTick in_units
full_tick = record {
  token = codes "35001";
  ex_type = 2;
  ts = pos 7;
  ltp = pos 12345;
  bid = some (pos 100);
  ask = some (pos 200);
}

full_packet_parses : parse_packet in_units 7 full_packet ≡ some (some full_tick)
unfolding parse_packet read_le read_int16_le read_bigint64_le token_of ascii until_nul with_depth
    best_five take_level is_one trim trim_start
full_packet_parses = refl

short_packet_parses :
    parse_packet in_units 7 short_packet
    ≡ some (
        some (record {
          token = codes "35001";
          ex_type = 2;
          ts = pos 7;
          ltp = negsuc 0;
          bid = none;
          ask = none;
        }))
unfolding parse_packet read_le read_int16_le read_bigint64_le token_of ascii until_nul with_depth
    best_five take_level is_one trim trim_start
short_packet_parses = refl

empty_packet : parse_packet in_units 7 [] ≡ some none
unfolding parse_packet
empty_packet = refl

currency : exchange_type (codes "cds") ≡ 13
unfolding exchange_type upper
currency = refl

parse_packet-IsParseOf_example :
    IsParseOf in_units 7 full_packet (parse_packet in_units 7 full_packet)
parse_packet-IsParseOf_example = parse_packet-IsParseOf in_units 7 full_packet

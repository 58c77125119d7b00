-- ===== src/Feeds/Identity.antt =====
-- backend/feeds/identity.ts: instruments addressed by what they are, and the texts that stand for them.
--
-- A strike is a whole number of rupees, or (`number_of`) what `Number` makes of a text that is not
-- only digits; the latter is not looked into. `Date.parse` followed by the formatting of its date is
-- the parameter `parse_date` of `normalize_expiry`; it is only reached by texts of neither ISO form.
pub mod RoundTrip
pub mod Expiry
mod Tests
use quantstack_terminal.Common.{
  ℕ, ◌+◌, ◌-◌, Bool, true, false, not, ◌&&◌, ◌||◌, List, [], ◌∷◌, ◌++◌, Option, none, some, Text,
  codes, ◌==◌, if◌then◌else◌, filter, upper, trim, split_on, join, show, read, is_digit, all_digits,
  length, take, drop,
}
use quantstack_terminal.Common.{zero, suc}

pub data InstrumentKind : Type 0 where
  spot fut opt : InstrumentKind

pub data OptionSide : Type 0 where
  ce pe : OptionSide

pub record InstrumentKey : Type 0 where
  pub exchange : Text
  pub asset : Text
  pub kind : InstrumentKind
  pub expiry : Option Text
  pub strike : Option ℕ
  pub side : Option OptionSide

abbrev pub kind_text : InstrumentKind → Text
kind_text spot = codes "SPOT"
kind_text fut = codes "FUT"
kind_text opt = codes "OPT"

abbrev pub side_text : OptionSide → Text
side_text ce = codes "CE"
side_text pe = codes "PE"

-- `x ?? ''`, printed.
abbrev pub or_empty : Option Text → Text
or_empty none = []
or_empty (some s) = s

abbrev pub strike_text : Option ℕ → Text
strike_text none = []
strike_text (some n) = show n

abbrev pub side_or_empty : Option OptionSide → Text
side_or_empty none = []
side_or_empty (some s) = side_text s

unfoldable pub key_of : InstrumentKey → Text
key_of k = join (b':' ∷ []) (
    upper k.exchange
    ∷ upper k.asset
    ∷ kind_text k.kind
    ∷ or_empty k.expiry
    ∷ strike_text k.strike
    ∷ side_or_empty k.side
    ∷ [])

pub data Amount : Type 0 where
  whole : ℕ → Amount
  number_of : Text → Amount

-- What `parseKey` returns: `kind` and `side` are casts of the texts, which nothing checks.
pub record ParsedKey : Type 0 where
  pub exchange : Text
  pub asset : Text
  pub kind : Text
  pub expiry : Option Text
  pub strike : Option Amount
  pub side : Option Text

abbrev pub is_empty : Text → Bool
is_empty [] = true
is_empty (c ∷ s) = false

-- `s || undefined`
abbrev pub or_undefined : Text → Option Text
or_undefined [] = none
or_undefined (c ∷ s) = some (c ∷ s)

abbrev pub to_number : Text → Amount
to_number s = if all_digits s then whole (read s) else number_of s

abbrev pub strike_of : Text → Option Amount
strike_of [] = none
strike_of (c ∷ s) = some (to_number (c ∷ s))

-- A missing part of the destructured array.
abbrev pub part : ℕ → List Text → Text
part n [] = []
part zero (w ∷ ws) = w
part (suc n) (w ∷ ws) = part n ws

-- `none` where the source throws on a malformed key.
unfoldable pub parse_key : Text → Option ParsedKey
parse_key s =
    let parts = split_on b':' s in
    if is_empty (part 0 parts) || is_empty (part 1 parts) || is_empty (part 2 parts)
    then none
    else some (record {
      exchange = part 0 parts;
      asset = part 1 parts;
      kind = part 2 parts;
      expiry = or_undefined (part 3 parts);
      strike = strike_of (part 4 parts);
      side = or_undefined (part 5 parts);
    })

-- `/^\d{4}-\d{2}-\d{2}$/`
abbrev pub is_dashed : Text → Bool
is_dashed (a ∷ b ∷ c ∷ d ∷ p ∷ e ∷ f ∷ q ∷ g ∷ h ∷ []) =
    all_digits (a ∷ b ∷ c ∷ d ∷ e ∷ f ∷ g ∷ h ∷ []) && p == b'-' && q == b'-'
is_dashed _ = false

-- `/^\d{8}$/`
abbrev pub is_compact : Text → Bool
is_compact s = length s == 8 && all_digits s

abbrev pub slice : ℕ → ℕ → Text → Text
slice from to s = take (to - from) (drop from s)

module _ (parse_date : Text → Option Text) where
  unfoldable pub normalize_expiry : Option Text → Option Text
  normalize_expiry none = none
  normalize_expiry (some []) = none
  normalize_expiry (some (c ∷ raw)) =
      let s = trim (c ∷ raw) in
      if is_dashed s
      then some s
      else if is_compact s
      then some (slice 0 4 s ++ (b'-' ∷ slice 4 6 s ++ (b'-' ∷ slice 6 8 s)))
      else parse_date s

  unfoldable pub option_key : Text → Text → Text → ℕ → OptionSide → InstrumentKey
  option_key exchange asset expiry strike side = record {
    exchange = upper exchange;
    asset = upper asset;
    kind = opt;
    expiry = normalize_expiry (some expiry);
    strike = some strike;
    side = some side;
  }

  unfoldable pub future_key : Text → Text → Option Text → InstrumentKey
  future_key exchange asset expiry = record {
    exchange = upper exchange;
    asset = upper asset;
    kind = fut;
    expiry = normalize_expiry expiry;
    strike = none;
    side = none;
  }

unfoldable pub spot_key : Text → Text → InstrumentKey
spot_key exchange asset = record {
  exchange = upper exchange;
  asset = upper asset;
  kind = spot;
  expiry = none;
  strike = none;
  side = none;
}

abbrev pub without_dashes : Text → Text
without_dashes s = filter (λ c. not (c == b'-')) s

-- `iso ? iso.replace(/-/g, '') : undefined`
unfoldable pub compact_expiry : Option Text → Option Text
compact_expiry none = none
compact_expiry (some []) = none
compact_expiry (some (c ∷ iso)) = some (without_dashes (c ∷ iso))

-- ===== src/Trading/Types.antt =====
-- backend/trading/types.ts: the words of the brokers for sides, states, kinds and products.
--
-- A field that is absent is `none`. No word is the name of a property that every object has, such as
-- `constructor`. `toNumber` and `toTimestamp` are left out.
use quantstack_terminal.Common.{
  [], ◌∷◌, Option, none, some, Text, text_eq, codes, if◌then◌else◌, upper, lower, trim, starts_with,
  Assoc, get,
}
use quantstack_terminal.Feeds.Identity.{or_empty}

pub data Side : Type 0 where
  buy sell : Side

pub data OrderStatus : Type 0 where
  pending open_ partial_ complete cancelled rejected trigger_pending unknown : OrderStatus

pub data OrderKind : Type 0 where
  market limit sl sl_m unknown_kind : OrderKind

pub data Product : Type 0 where
  intraday carryforward delivery margin unknown_product : Product

unfoldable pub to_side : Option Text → Side
to_side v = if starts_with (codes "S") (upper (trim (or_empty v))) then sell else buy

abbrev pub status_map : Assoc Text OrderStatus
status_map =
    (codes "complete", complete)
    ∷ (codes "completed", complete)
    ∷ (codes "filled", complete)
    ∷ (codes "executed", complete)
    ∷ (codes "open", open_)
    ∷ (codes "pending", pending)
    ∷ (codes "open pending", pending)
    ∷ (codes "cancelled", cancelled)
    ∷ (codes "canceled", cancelled)
    ∷ (codes "rejected", rejected)
    ∷ (codes "partially filled", partial_)
    ∷ (codes "partial", partial_)
    ∷ (codes "put order req received", pending)
    ∷ (codes "trigger pending", trigger_pending)
    ∷ (codes "trigger_pending", trigger_pending)
    ∷ (codes "validation pending", pending)
    ∷ (codes "modify pending", pending)
    ∷ (codes "cancel pending", pending)
    ∷ (codes "modified", open_)
    ∷ (codes "new", open_)
    ∷ (codes "ordered", open_)
    ∷ (codes "replaced", open_)
    ∷ []

abbrev pub or_default {ℓ} : {A : Type ℓ} → Option A → A → A
or_default none d = d
or_default (some a) d = a

abbrev pub word : Option Text → Text
word v = lower (trim (or_empty v))

unfoldable pub to_status : Option Text → OrderStatus
to_status v = or_default (get (word v) status_map) unknown

abbrev pub kind_map : Assoc Text OrderKind
kind_map =
    (codes "market", market)
    ∷ (codes "mkt", market)
    ∷ (codes "mis", market)
    ∷ (codes "limit", limit)
    ∷ (codes "l", limit)
    ∷ (codes "lmt", limit)
    ∷ (codes "sl", sl)
    ∷ (codes "stoploss_limit", sl)
    ∷ (codes "sl-l", sl)
    ∷ (codes "spread", sl)
    ∷ (codes "sl-m", sl_m)
    ∷ (codes "slm", sl_m)
    ∷ (codes "stoploss_market", sl_m)
    ∷ []

unfoldable pub to_kind : Option Text → OrderKind
to_kind v = or_default (get (word v) kind_map) unknown_kind

abbrev pub product_map : Assoc Text Product
product_map =
    (codes "intraday", intraday)
    ∷ (codes "mis", intraday)
    ∷ (codes "i", intraday)
    ∷ (codes "carryforward", carryforward)
    ∷ (codes "nrml", carryforward)
    ∷ (codes "normal", carryforward)
    ∷ (codes "cf", carryforward)
    ∷ (codes "delivery", delivery)
    ∷ (codes "cnc", delivery)
    ∷ (codes "c", delivery)
    ∷ (codes "margin", margin)
    ∷ (codes "co", margin)
    ∷ (codes "bo", margin)
    ∷ []

unfoldable pub to_product : Option Text → Product
to_product v = or_default (get (word v) product_map) unknown_product

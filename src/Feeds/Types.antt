-- ===== src/Feeds/Types.antt =====
-- backend/feeds/types.ts: what a feed can serve.
--
-- Times are whole milliseconds. An age of `historyDays` days is compared as a sum of milliseconds, so
-- that nothing is divided or cut off at 0.
pub mod Interval
mod Tests
use quantstack_terminal.Common.{
  ℕ, ◌+◌, ◌*◌, Bool, true, false, not, ◌&&◌, ◌||◌, List, [], ◌∷◌, ◌++◌, Option, none, some, Text,
  codes, text_eq, text_beq, ltb, if◌then◌else◌, any, filter, upper, show, Assoc, get, sort_by,
}
use quantstack_terminal.Feeds.Identity.{InstrumentKind, spot, fut, opt}

pub record Capabilities : Type 0 where
  pub exchanges : List Text
  pub intervals : List Text
  pub history_days : ℕ
  pub option_chain : Bool
  pub greeks : Bool
  pub live : Bool
  pub max_symbols_per_request : ℕ

-- What a call needs of a feed; the `Need` of the router too.
pub record Need : Type 0 where
  pub exchange : Text
  pub interval : Option Text
  pub from : Option ℕ
  pub kind : Option InstrumentKind

pub data Support : Type 0 where
  supported : Support
  lacking : Text → Support

-- `list.includes(x)`
abbrev pub includes : List Text → Text → Bool
includes xs x = any (λ y. text_beq y x) xs

-- `req.interval && !have.intervals.includes(req.interval)`; the empty text is false.
abbrev lacks_interval : List Text → Option Text → Bool
lacks_interval have none = false
lacks_interval have (some []) = false
lacks_interval have (some (c ∷ s)) = not (includes have (c ∷ s))

abbrev pub shown_interval : Option Text → Text
shown_interval none = []
shown_interval (some s) = s

abbrev day_ms : ℕ
day_ms = 86400000

-- `(Date.now() - req.from) / 86_400_000 > have.historyDays`
abbrev pub is_too_old : ℕ → ℕ → Option ℕ → Bool
is_too_old now days none = false
is_too_old now days (some from) = ltb (from + days * day_ms) now

abbrev pub is_option : Option InstrumentKind → Bool
is_option (some opt) = true
is_option _ = false

unfoldable pub supports : ℕ → Capabilities → Need → Support
supports now have req =
    let ex = upper req.exchange in
    if not (includes have.exchanges ex)
    then lacking (codes "does not carry " ++ ex)
    else if lacks_interval have.intervals req.interval
    then lacking (codes "no " ++ (shown_interval req.interval ++ codes " interval"))
    else if is_too_old now have.history_days req.from
    then lacking (codes "history limited to " ++ (show have.history_days ++ codes "d"))
    else if is_option req.kind && not have.option_chain
    then lacking (codes "no option chain")
    else supported

abbrev pub interval_table : Assoc Text ℕ
interval_table =
    (codes "1s", 1000)
    ∷ (codes "5s", 5000)
    ∷ (codes "15s", 15000)
    ∷ (codes "30s", 30000)
    ∷ (codes "1m", 60000)
    ∷ (codes "3m", 180000)
    ∷ (codes "5m", 300000)
    ∷ (codes "15m", 900000)
    ∷ (codes "30m", 1800000)
    ∷ (codes "1h", 3600000)
    ∷ (codes "1d", 86400000)
    ∷ []

-- `INTERVAL_MS[i]`
unfoldable pub interval_ms : Text → Option ℕ
interval_ms i = get i interval_table

-- `INTERVAL_MS[i] > target`, which is false of an unknown interval.
unfoldable pub is_coarser : ℕ → Text → Bool
is_coarser target i = elim (interval_ms i) [ none ↦ false | some ms ↦ ltb target ms ]

-- The length that the sort compares; it is only asked of known intervals.
unfoldable pub ms_of : Text → ℕ
ms_of i = elim (interval_ms i) [ none ↦ 0 | some ms ↦ ms ]

unfoldable pub coarser : ℕ → Capabilities → List Text
coarser target have = filter (is_coarser target) have.intervals

abbrev pub first : List Text → Option Text
first [] = none
first (i ∷ is) = some i

unfoldable pub best_interval : Capabilities → Text → Option Text
best_interval have wanted =
    if includes have.intervals wanted then some wanted else elim (interval_ms wanted) [
      | none ↦ none
      | some target ↦ first (sort_by ms_of (coarser target have))
    ]

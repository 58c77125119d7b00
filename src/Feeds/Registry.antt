-- ===== src/Feeds/Registry.antt =====
-- backend/feeds/registry.ts: the list of feeds, read from the text of `QT_FEEDS`.
--
-- The adapters are a parameter: what `AVAILABLE[broker](instance)` gives, or nothing for a broker that
-- has none. A priority of digits only is a number, and of no text is 0; what `Number` makes of any
-- other text is the parameter `number_of`. The memoised variable is the caller's.
pub mod Order
mod Tests
use quantstack_terminal.Common.{
  ℕ, zero, suc, ◌+◌, Bool, true, false, List, [], ◌∷◌, ◌++◌, map, Option, none, some, Text, codes,
  text_beq, text_eq, lower, trim, split_on, join, read, all_digits, ◌==◌, if◌then◌else◌, filter,
  any, Assoc, get, sort_by, ltb, length,
}
use quantstack_terminal.Feeds.Breaker.{FeedId}
use quantstack_terminal.Feeds.Identity.{is_empty, part, or_undefined}
use quantstack_terminal.Feeds.Router.{Feed}
use quantstack_terminal.Common.{not}

pub record Registered : Type 0 where
  pub feed : Feed
  pub priority : ℕ
  pub broker : Text
  pub instance_of : Option Text

abbrev pub feed_aliases : Assoc Text Text
feed_aliases =
    (codes "angelone", codes "angel")
    ∷ (codes "smartapi", codes "angel")
    ∷ (codes "kite", codes "zerodha")
    ∷ []

abbrev pub or_self : Option Text → Text → Text
or_self none s = s
or_self (some t) s = t

unfoldable pub split_feed_id : FeedId → Text × Option Text
split_feed_id id =
    let parts = split_on b'#' id in
    let broker = lower (part 0 parts) in
    (or_self (get broker feed_aliases) broker, or_undefined (part 1 parts))

-- The texts before and after the last colon, or nothing if there is none.
unfoldable pub cut_last : Text → Option (Text × Text)
cut_last [] = none
cut_last (c ∷ s) = elim (cut_last s) [
  | some (before, after) ↦ some (c ∷ before, after)
  | none ↦ if c == b':' then some ([], s) else none
]

pub record Wanted : Type 0 where
  pub id : FeedId
  pub priority : ℕ

module _ (number_of : Text → Option ℕ) where
  abbrev pub priority_of : Text → Option ℕ
  priority_of s = if all_digits s then some (read s) else number_of s

  abbrev pub or_place : ℕ → Option ℕ → ℕ
  or_place i none = i + 1
  or_place i (some p) = p

  unfoldable pub parse_entry : ℕ → Text → Wanted
  parse_entry i entry = elim (cut_last entry) [
    | none ↦ record { id = lower (trim entry); priority = i + 1 }
    | some (before, after) ↦ record {
      id = lower (trim before);
      priority = or_place i (priority_of (trim after));
    }
  ]

  unfoldable pub parse_entries : ℕ → List Text → List Wanted
  parse_entries i [] = []
  parse_entries i (e ∷ es) = parse_entry i e ∷ parse_entries (suc i) es

  unfoldable pub parse_spec : Text → List Wanted
  unfolding parse_entries
  parse_spec spec = parse_entries 0 (filter (λ s. not (is_empty s)) (map trim (split_on b',' spec)))

-- The first id of the list that stands in it a second time, in the order of the second ones.
unfoldable pub first_dupe : List FeedId → List FeedId → Option FeedId
first_dupe seen [] = none
first_dupe seen (id ∷ ids) =
    if any (λ x. text_beq x id) seen then some id else first_dupe (id ∷ seen) ids

pub data Built : Type 0 where
  built : List Registered → Built
  unknown_feeds : List FeedId → Built
  listed_twice : FeedId → Built

module _ (adapters : Text → Option Text → Option Feed) where
  unfoldable pub register : Wanted → Option Registered
  register w =
      let (broker, number) = split_feed_id w.id in
      elim (adapters broker number) [
        | none ↦ none
        | some feed ↦
            some
              (record { feed = feed; priority = w.priority; broker = broker; instance_of = number })
      ]

  abbrev pub cons_some : Option Registered → List Registered → List Registered
  cons_some none rs = rs
  cons_some (some r) rs = r ∷ rs

  unfoldable pub register_all : List Wanted → List Registered
  register_all [] = []
  register_all (w ∷ ws) = cons_some (register w) (register_all ws)

  unfoldable pub is_unknown : Wanted → Bool
  unfolding register
  is_unknown w = elim (register w) [ none ↦ true | some r ↦ false ]

  abbrev pub or_dupe : Option FeedId → List Registered → Built
  or_dupe none rs = built (sort_by (λ r. r.priority) rs)
  or_dupe (some id) rs = listed_twice id

  -- `feeds`, of the entries of the specification.
  unfoldable pub build : List Wanted → Built
  unfolding register_all first_dupe is_unknown
  build wanted =
      let unknown = filter is_unknown wanted in
      if ltb 0 (length unknown)
      then unknown_feeds (map (λ w. w.id) unknown)
      else or_dupe (first_dupe [] (map (λ w. w.id) wanted)) (register_all wanted)

abbrev pub canonical_id : FeedId → FeedId
canonical_id id =
    let (broker, number) = split_feed_id id in
    elim number [ none ↦ broker | some n ↦ broker ++ (b'#' ∷ n) ]

-- The feed of an id in a list of feeds.
unfoldable pub find_feed : FeedId → List Registered → Option Registered
find_feed id [] = none
find_feed id (r ∷ rs) = if text_beq r.feed.id id then some r else find_feed id rs

unfoldable pub feed_by_id : List Registered → FeedId → Option Feed
unfolding find_feed
feed_by_id registered id = elim (find_feed (canonical_id id) registered) [
  | none ↦ none
  | some r ↦ some r.feed
]

-- Nothing where `primaryFeed` throws.
unfoldable pub primary_feed : List Registered → Option Feed
primary_feed [] = none
primary_feed (r ∷ rs) = some r.feed

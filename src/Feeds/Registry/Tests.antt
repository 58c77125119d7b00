-- ===== src/Feeds/Registry/Tests.antt =====
-- Registries of concrete specifications.
use mathlib.Core.List.{Perm}
use quantstack_terminal.Common.{
  ℕ, ◌≡◌, refl, List, [], ◌∷◌, map, Option, none, some, Text, text_eq, codes, text_beq,
  if◌then◌else◌, Ascending, length, split_on, lower, trim, read, get, sort_by, insert_by, true,
  false,
}
use quantstack_terminal.Feeds.Router.{Feed}
use quantstack_terminal.Feeds.Types.{Capabilities}
use quantstack_terminal.Feeds.Registry.{
  Registered, Wanted, built, build, register, register_all, is_unknown, parse_spec, parse_entry,
  parse_entries, cut_last, split_feed_id, first_dupe,
}
use quantstack_terminal.Feeds.Registry.Order.{build-IsOrdered, NoRepeat}

abbrev no_number : Text → Option ℕ
no_number s = none

abbrev nothing : Capabilities
nothing = record {
  exchanges = [];
  intervals = [];
  history_days = 0;
  option_chain = false;
  greeks = false;
  live = true;
  max_symbols_per_request = 1;
}

abbrev feed_named : Text → Feed
feed_named id = record { id = id; capabilities = nothing }

abbrev two_adapters : Text → Option Text → Option Feed
two_adapters broker number =
    if text_beq broker (codes "angel")
    then some (feed_named broker)
    else if text_beq broker (codes "nubra")
    then some (feed_named broker)
    else none

abbrev wanted : List Wanted
wanted =
    record { id = codes "nubra"; priority = 2 }
    ∷ record { id = codes "angelone"; priority = 1 }
    ∷ []

abbrev registered_as : Text → ℕ → Registered
registered_as id p = record { feed = feed_named id; priority = p; broker = id; instance_of = none }

abbrev both : List Registered
both = registered_as (codes "angel") 1 ∷ registered_as (codes "nubra") 2 ∷ []

spec_read : parse_spec no_number (codes "nubra:2, AngelOne :1,") ≡ wanted
unfolding parse_spec parse_entries parse_entry cut_last split_on trim lower read
spec_read = refl

wanted_built : build two_adapters wanted ≡ built both
unfolding build register register_all is_unknown split_feed_id first_dupe split_on lower get sort_by
    insert_by
wanted_built = refl

build-IsOrdered_example :
    Ascending (λ r. r.priority) both
    × Perm both (register_all two_adapters wanted)
    × (length both ≡ length wanted)
    × NoRepeat (map (λ w. w.id) wanted)
build-IsOrdered_example = build-IsOrdered two_adapters wanted both wanted_built

-- Two spellings of one broker are not found out: its feed is registered twice.
aliased_twice :
    build two_adapters (
      record { id = codes "angel"; priority = 1 }
      ∷ record { id = codes "angelone"; priority = 2 }
      ∷ [])
    ≡ built (registered_as (codes "angel") 1 ∷ registered_as (codes "angel") 2 ∷ [])
unfolding build register register_all is_unknown split_feed_id first_dupe split_on lower get sort_by
    insert_by
aliased_twice = refl

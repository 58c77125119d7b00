-- ===== src/Feeds/Health/Tests.antt =====
-- A feed that is probed, and the theorems at concrete inputs.
use quantstack_terminal.Common.{none, some, codes, text_eq}
use quantstack_terminal.Feeds.Breaker.{FeedId, opened, Config, Entry}
use quantstack_terminal.Feeds.Errors.{not_found, Thrown, feed_error}
use quantstack_terminal.Feeds.Health.{ProbeWorld}
use quantstack_terminal.Common.{false}

abbrev defaults : Config
defaults = record { threshold = 3; cooldown_ms = 30000; cooldown_max = 300000 }

abbrev nubra : FeedId
nubra = codes "nubra"

abbrev absent : Thrown
absent =
    feed_error (record { code = not_found; message = codes "none"; feed_id = nubra; status = none })

abbrev healthy : ProbeWorld
healthy = record {
  checked_at = λ id. 40000;
  settled_at = λ id. 40005;
  pinged = λ id. none;
  during = λ id m. m;
}

abbrev failing : ProbeWorld
failing = record healthy { pinged = λ id. some absent }

abbrev parked : Entry
parked = record {
  state = opened;
  failures = 3;
  cooldown = 30000;
  opened_at = 10;
  last_error = none;
  probing = false;
  trips = 1;
  last_state_at = 10;
}

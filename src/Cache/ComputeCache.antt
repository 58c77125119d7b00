-- ===== src/Cache/ComputeCache.antt =====
-- backend/lib/computeCache.ts: the results of straddle computations, kept in an LRU cache.
--
-- The module's one cache is passed explicitly; the clock and the day of India at a call are arguments.
pub mod Sessions
mod Tests
use quantstack_terminal.Common.{
  ℕ, ◌*◌, Bool, List, [], ◌∷◌, ◌++◌, Option, none, some, Text, text_beq, upper, join, if◌then◌else◌,
}
use quantstack_terminal.Cache.LruCache.{CacheMeta, LruCache, new, get, set, delete, size, entries}

abbrev pub ttl_historical_ms : ℕ
ttl_historical_ms = 48 * 60 * 60 * 1000

abbrev pub ttl_today_ms : ℕ
ttl_today_ms = 12 * 60 * 60 * 1000

abbrev pub is_today : Text → Text → Bool
is_today today date = text_beq date today

unfoldable pub cache_key : Text → Text → Text → Text → Text
cache_key symbol exchange expiry date =
    join (b'|' ∷ []) (upper symbol ∷ upper exchange ∷ expiry ∷ date ∷ [])

abbrev pub ttl_for : Text → Text → ℕ
ttl_for today date = if is_today today date then ttl_today_ms else ttl_historical_ms

module _ {T : Type 0} where
  unfoldable pub new_cache : LruCache T
  new_cache = new 50

  unfoldable pub get_computed : ℕ → Text → LruCache T → LruCache T × Option T
  get_computed now key c = get now key c

  unfoldable pub set_computed : ℕ → Text → Text → T → Text → LruCache T → LruCache T
  set_computed now today key result date c = set now key result (ttl_for today date) c

  unfoldable pub invalidate : Text → LruCache T → LruCache T
  invalidate key c = delete key c

pub record CacheStatus : Type 0 where
  pub capacity : ℕ
  pub size_of : ℕ
  pub entries_of : List CacheMeta

unfoldable pub cache_status : {T : Type 0} → ℕ → LruCache T → CacheStatus
cache_status now c = record { capacity = 50; size_of = size c; entries_of = entries now c }

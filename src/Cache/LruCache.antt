-- ===== src/Cache/LruCache.antt =====
-- backend/lib/lruCache.ts: a cache of bounded size whose entries expire.
--
-- The store is a `Map` in insertion order, its head the least recently used entry. `Date.now()` is
-- the argument `now`, and the comparison of ages is written as a sum. The type of the data is taken
-- not to hold `null`, which `get` and `has` could not tell from a miss.
pub mod Bounds
pub mod Recency
mod Tests
use quantstack_terminal.Common.{
  ℕ, ◌+◌, ◌-◌, Bool, true, false, List, [], ◌∷◌, Option, none, some, Text, text_eq, ltb, leb,
  if◌then◌else◌, length, map, Assoc, put, remove,
}
use quantstack_terminal.Common.{get as map_get}

pub record CacheMeta : Type 0 where
  pub key : Text
  pub cached_at : ℕ
  pub expires_in : ℕ
  pub ttl_ms : ℕ

pub record Entry (T : Type 0) : Type 0 where
  pub value : T
  pub at : ℕ
  pub ttl : ℕ

pub record LruCache (T : Type 0) : Type 0 where
  pub store : Assoc Text (Entry T)
  pub capacity : ℕ

module _ {T : Type 0} where
  unfoldable pub new : ℕ → LruCache T
  new capacity = record { store = []; capacity = capacity }

  -- `Date.now() - entry.at > entry.ttl`
  abbrev pub is_expired : ℕ → Entry T → Bool
  is_expired now e = ltb (e.at + e.ttl) now

  unfoldable pub get : ℕ → Text → LruCache T → LruCache T × Option T
  get now key c = elim (map_get key c.store) [
    | none ↦ (c, none)
    | some e ↦
        if is_expired now e
        then (record c { store = remove key c.store }, none)
        else (record c { store = put key e (remove key c.store) }, some e.value)
  ]

  -- The eviction of `set`: the head of the map, if the map is full.
  unfoldable pub evict : ℕ → Assoc Text (Entry T) → Assoc Text (Entry T)
  evict capacity [] = []
  evict capacity (b ∷ m) = if leb capacity (length (b ∷ m)) then remove b.0 (b ∷ m) else b ∷ m

  unfoldable pub set : ℕ → Text → T → ℕ → LruCache T → LruCache T
  set now key value ttl_ms c = record c {
    store =
        put key (record { value = value; at = now; ttl = ttl_ms })
          (evict c.capacity (remove key c.store));
  }

  unfoldable pub has : ℕ → Text → LruCache T → LruCache T × Bool
  has now key c =
      let (c', found) = get now key c in (c', elim found [ none ↦ false | some v ↦ true ])

  unfoldable pub delete : Text → LruCache T → LruCache T
  delete key c = record c { store = remove key c.store }

  unfoldable pub clear : LruCache T → LruCache T
  clear c = record c { store = [] }

  unfoldable pub size : LruCache T → ℕ
  size c = length c.store

  -- `-` stops at 0, as `Math.max(0, …)` does.
  unfoldable pub entries : ℕ → LruCache T → List CacheMeta
  entries now c =
      map
        (λ b. record {
          key = b.0;
          cached_at = b.1.at;
          expires_in = (b.1.at + b.1.ttl) - now;
          ttl_ms = b.1.ttl;
        })
        c.store

-- The calls on a cache, each at its time.
pub data Use (T : Type 0) : Type 0 where
  fetched : ℕ → Text → Use T
  stored : ℕ → Text → T → ℕ → Use T
  checked : ℕ → Text → Use T
  deleted : Text → Use T
  cleared : Use T

module _ {T : Type 0} where
  unfoldable pub step : Use T → LruCache T → LruCache T
  step (fetched now key) c = (get now key c).0
  step (stored now key value ttl) c = set now key value ttl c
  step (checked now key) c = (has now key c).0
  step (deleted key) c = delete key c
  step cleared c = clear c

  unfoldable pub run : List (Use T) → LruCache T → LruCache T
  run [] c = c
  run (u ∷ us) c = run us (step u c)

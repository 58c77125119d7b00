-- ===== src/Cache/LruCache/Tests.antt =====
-- A cache of three entries, and the theorems at concrete inputs.
use quantstack_terminal.Common.{
  ℕ, ◌≡◌, ◌≢◌, refl, List, [], ◌∷◌, none, some, Text, codes, text_eq, arith, put, remove, ne_of_beq,
}
use quantstack_terminal.Common.{get as map_get}
use quantstack_terminal.Cache.LruCache.{
  new, get, evict, set, has, delete, clear, size, Use, fetched, stored, step, run,
}
use quantstack_terminal.Cache.LruCache.Bounds.{IsBounded, run-IsBounded}
use quantstack_terminal.Cache.LruCache.Recency.{set-survives}

caching : Unit {0}
unfolding run step get set has delete clear evict new size put remove map_get
caching = tt

abbrev a : Text
a = codes "a"

abbrev b : Text
b = codes "b"

abbrev c : Text
c = codes "c"

abbrev uses : List (Use ℕ)
uses = stored 1 a 10 100 ∷ stored 2 b 20 100 ∷ fetched 3 a ∷ stored 4 c 30 5 ∷ []

-- With room for two, `b` is evicted: `a` was fetched after it.
evicts_least_recent :
    ((get 5 b (run uses (new 2))).1 ≡ none)
    × ((get 5 a (run uses (new 2))).1 ≡ some 10)
    × ((get 10 c (run uses (new 2))).1 ≡ none)
unfolding caching
evicts_least_recent = (refl, refl, refl)

-- The size counts an entry whose time is over.
size_counts_expired : size (run {T = ℕ} (stored 1 a 10 5 ∷ []) (new 2)) ≡ 1
unfolding caching
size_counts_expired = refl

run-IsBounded_example : IsBounded (run uses (new 2))
run-IsBounded_example = run-IsBounded 2 uses

b_is_not : b ≢ a
b_is_not = ne_of_beq b a refl

c_is_not : c ≢ a
c_is_not = ne_of_beq c a refl

set-survives_example :
    (get 9 a
      (run (stored 2 b 20 1 ∷ stored 3 c 30 1 ∷ []) (set 1 a 10 8 (run [] (new {T = ℕ} 3))))).1
    ≡ some 10
unfolding caching
set-survives_example =
    set-survives 1 9 a 10 8 (stored 2 b 20 1 ∷ stored 3 c 30 1 ∷ []) (run [] (new 3))
      (run-IsBounded 3 []) (b_is_not, (c_is_not, tt)) (omega arith) (omega arith)

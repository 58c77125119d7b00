-- ===== src/Cache/ComputeCache/Tests.antt =====
-- The cache of two sessions.
use quantstack_terminal.Common.{
  ◌≡◌, refl, [], ◌∷◌, Text, codes, upper, join, Without, all, not, ◌==◌, true, arith,
}
use quantstack_terminal.Cache.ComputeCache.{cache_key}

abbrev day : Text
day = codes "2026-08-07"

nifty_key :
    cache_key (codes "nifty") (codes "nse") (codes "20260811") day
    ≡ codes "NIFTY|NSE|20260811|2026-08-07"
unfolding cache_key upper join
nifty_key = refl

bar_free : (s : Text) → all (λ c. not (c == b'|')) s ≡ true → Without b'|' s
bar_free [] h = tt
bar_free (c ∷ s) h = (ground arith, bar_free s (ground arith))

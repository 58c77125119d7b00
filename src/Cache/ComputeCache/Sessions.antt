-- ===== src/Cache/ComputeCache/Sessions.antt =====
-- Which session a cached result belongs to, and how long it is kept.
use quantstack_terminal.Common.{
  ℕ, ◌+◌, ◌≡◌, ◌∙◌, sym, ap, false, [], ◌∷◌, none, some, Text, arith, All, ltb, ◌==◌, if◌then◌else◌,
  upper, upper_unit, split_on, split_on-join, Without,
}
use quantstack_terminal.Cache.LruCache.{LruCache}
use quantstack_terminal.Cache.LruCache.Bounds.{get-set}
use quantstack_terminal.Cache.ComputeCache.{cache_key, get_computed, set_computed, ttl_for}

upper_unit-bar : (c : ℕ) → (c == b'|') ≡ false → (upper_unit c == b'|') ≡ false
upper_unit-bar c h = ground arith

upper-Without : (s : Text) → Without b'|' s → Without b'|' (upper s)
unfolding upper
upper-Without [] h = tt
upper-Without (c ∷ s) h = (upper_unit-bar c h.0, upper-Without s h.1)

heads :
    {a b c d a' b' c' d' : Text}
    → a ∷ b ∷ c ∷ d ∷ [] ≡ a' ∷ b' ∷ c' ∷ d' ∷ []
    → (a ≡ a') × (b ≡ b') × (c ≡ c') × (d ≡ d')
heads h = ((cc), (cc), (cc), (cc))

parts :
    (symbol exchange expiry date : Text)
    → All (Without b'|') (symbol ∷ exchange ∷ expiry ∷ date ∷ [])
    → split_on b'|' (cache_key symbol exchange expiry date)
      ≡ upper symbol ∷ upper exchange ∷ expiry ∷ date ∷ []
unfolding cache_key
parts symbol exchange expiry date (s, (e, (x, (d, _)))) =
    split_on-join b'|' (upper symbol) (upper exchange ∷ expiry ∷ date ∷ [])
      (upper-Without symbol s, (upper-Without exchange e, (x, (d, tt))))

-- Two sessions, of texts without a bar, have one key only if they have one expiry and one date, and
-- symbols and exchanges that differ in case alone.
pub cache_key-eq :
    (s e x d s' e' x' d' : Text)
    → All (Without b'|') (s ∷ e ∷ x ∷ d ∷ [])
    → All (Without b'|') (s' ∷ e' ∷ x' ∷ d' ∷ [])
    → cache_key s e x d ≡ cache_key s' e' x' d'
    → (upper s ≡ upper s') × (upper e ≡ upper e') × (x ≡ x') × (d ≡ d')
cache_key-eq s e x d s' e' x' d' h h' same =
    heads (sym (parts s e x d h) ∙ ap (split_on b'|') same ∙ parts s' e' x' d' h')

-- A result that was stored last under its key is read for twelve hours if its date is the present day,
-- and for forty-eight hours if not, and not after.
pub get_computed-set_computed :
    {T : Type 0} (now later : ℕ) (today key date : Text) (data_of : T) (c : LruCache T)
    → (get_computed later key (set_computed now today key data_of date c)).1
      ≡ (if ltb (now + ttl_for today date) later then none else some data_of)
unfolding get_computed set_computed
get_computed-set_computed now later today key date data_of c =
    get-set now later key data_of (ttl_for today date) c
